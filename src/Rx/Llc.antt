-- ===== src/Rx/Llc.antt =====
-- The LLC header of a data frame: its parse in src/awdl/frame.rs and the check of src/awdl/rx.rs.
use cosmicdrop.Base.{ℕ, if◌then◌else◌, ◌==◌, ◌||◌, not, Bool, true, false, List, replicate}
use cosmicdrop.Frame.{LlcHdr, awdl_llc_protocol_id}
use cosmicdrop.Rx.{Run, done, match_read}
use cosmicdrop.Wire.{WireResult, ok, ◌>>=◌, read_u8, read_be16, read_bytes_copy}

-- `None` is the error of the reads.
unfoldable pub llc_parse : List ℕ → WireResult LlcHdr
llc_parse frame = do
  dsap ← read_u8 frame 0
  ssap ← read_u8 frame 1
  control ← read_u8 frame 2
  oui ← read_bytes_copy frame 3 (replicate 3 0)
  pid ← read_be16 frame 6
  ok (record { dsap = dsap; ssap = ssap; control = control; oui = oui; pid = pid })

unfoldable pub awdl_valid_llc_header : List ℕ → Run Bool
awdl_valid_llc_header frame = match_read (llc_parse frame) (done false) λ llc.
    if not (llc.dsap == 0xaa)
      || (not (llc.ssap == 0xaa)
          || (not (llc.control == 0x03) || not (llc.pid == awdl_llc_protocol_id)))
    then done false
    else done true
