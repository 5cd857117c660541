-- ===== src/Text/Ascii.antt =====
-- The library on ASCII text: the laws of `StrLib` can hold.
use cosmicdrop.Base.{map, refl}
use cosmicdrop.Text.{StrLib, lower, upper, trim_start, trim_end, words}

abbrev pub ascii_lib : StrLib
ascii_lib = record {
  from_utf8_lossy = λ text. text;
  to_lowercase = λ text. map lower text;
  to_uppercase = λ text. map upper text;
  trim = λ text. trim_end (trim_start text);
  split_whitespace = λ text. words text;
  from_utf8_lossy_ascii = λ text h. refl;
  to_lowercase_ascii = λ text h. refl;
  to_uppercase_ascii = λ text h. refl;
  trim_ascii = λ text h. refl;
  split_whitespace_ascii = λ text h. refl;
}
