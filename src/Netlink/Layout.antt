-- ===== src/Netlink/Layout.antt =====
-- The messages of src/awdl/netlink.rs, byte for byte.
use cosmicdrop.Base.{
  ℕ, zero, suc, ◌+◌, ◌-◌, ◌≤◌, ◌≡◌, refl, ap, sym, ◌∙◌, arith, none, some, List, [], ◌∷◌, ◌++◌,
  length, take, drop, ◌==◌, if◌then◌else◌, length-append, u32,
}
use cosmicdrop.Base.Int.{ℤ, pos, eq_ℤ}
use cosmicdrop.Channel.{ieee80211_channel_to_frequency}
use cosmicdrop.Netlink.{build_nlmsghdr, nlmsghdr_bytes, genlmsghdr_bytes}
use cosmicdrop.Netlink.Messages.{
  put_genlmsghdr, put_attr, set_nlmsg_len, begin_message, set_monitor_mode_message,
  set_channel_message, as_u32,
}
use cosmicdrop.Tx.Size.{copy_into_lem}
use cosmicdrop.Wire.{zeroed, ok, ◌>>=◌, to_le16, to_le32, splice}
use cosmicdrop.Wire.RoundTrip.{length-splice, length-zeroed, slice_front}

take-append : {A : Type 0} (xs ys : List A) (n : ℕ) → n ≡ length xs → take n (xs ++ ys) ≡ xs
take-append [] ys n e = rw e refl
take-append (x ∷ xs) ys n e = rw e (ap (λ t. x ∷ t) (take-append xs ys (length xs) refl))

pub append_assoc : {A : Type 0} (xs ys zs : List A) → (xs ++ ys) ++ zs ≡ xs ++ (ys ++ zs)
append_assoc [] ys zs = refl
append_assoc (x ∷ xs) ys zs = ap (λ t. x ∷ t) (append_assoc xs ys zs)

-- A buffer whose first `len` bytes are these.
record Starts (m : List ℕ × ℕ) (bytes : List ℕ) : Type 0 where
  size : length m.0 ≡ 4096
  end : m.1 ≡ length bytes
  front : take (m.1) (m.0) ≡ bytes

-- A write behind what is written.
splice-Starts :
    (msg bytes more : List ℕ) (len : ℕ)
    → Starts (msg, len) bytes
    → len + length more ≤ 4096
    → Starts (splice msg len more, len + length more) (bytes ++ more)
splice-Starts msg bytes more len s room = record {
  size = length-splice msg len more (omega (arith, s.size)) ∙ s.size;
  end = omega (arith, s.end, length-append bytes more);
  front = rw s.front (
      ap (take (len + length more)) (sym (append_assoc bytes more (drop (len + length more) msg)))
      ∙ take-append (bytes ++ more) _ (len + length more)
          (omega (arith, s.end, length-append bytes more)));
}

-- An attribute: its length, its type and its payload.
unfoldable pub attribute : ℕ → List ℕ → List ℕ
attribute attr_type payload = to_le16 (4 + length payload) ++ (to_le16 attr_type ++ payload)

put_attr-Starts :
    (attr_type : ℕ) (payload msg bytes : List ℕ) (len : ℕ)
    → Starts (msg, len) bytes
    → len + 4 + length payload ≤ 4096
    → (m : List ℕ × ℕ) × (put_attr attr_type payload (msg, len) ≡ ok m)
      × Starts m (bytes ++ attribute attr_type payload)
unfolding put_attr attribute
put_attr-Starts attr_type payload msg bytes len s room =
    let head = to_le16 (4 + length payload) ++ to_le16 attr_type in
    let headed = splice-Starts msg bytes head len s (omega arith) in
    let whole =
      splice-Starts (splice msg len head) (bytes ++ head) payload (len + 4) headed (omega arith) in
    (
      (splice (splice msg len head) (len + 4) payload, len + 4 + length payload),
      rw
          (
            copy_into_lem msg len head (omega (arith, s.size)),
            copy_into_lem (splice msg len head) (len + 4) payload (omega (arith, headed.size)),
          )
          refl,
      record {
        size = whole.size;
        end = whole.end ∙ ap length (append_assoc bytes head payload);
        front = whole.front ∙ append_assoc bytes head payload;
      },
    )

drop-take : {A : Type 0} (n m : ℕ) (xs : List A) → drop n (take m xs) ≡ take (m - n) (drop n xs)
drop-take zero m xs = let e : m - 0 ≡ m = omega arith in rw e refl
drop-take (suc n) zero xs = let e : 0 - suc n ≡ 0 = omega arith in rw e refl
drop-take {A = A} (suc n) (suc m) [] = take_nil (suc m - suc n)
  where
    take_nil : (k : ℕ) → [] ≡ take {A = A} k []
    take_nil zero = refl
    take_nil (suc k) = refl
drop-take (suc n) (suc m) (x ∷ xs) =
    let e : suc m - suc n ≡ m - n = omega arith in rw e (drop-take n m xs)

take_behind :
    {A : Type 0} (xs ys : List A) (n : ℕ)
    → length xs ≤ n
    → take n (xs ++ ys) ≡ xs ++ take (n - length xs) ys
take_behind [] ys n h = let e : n - 0 ≡ n = omega arith in rw e refl
take_behind (x ∷ xs) ys zero h = elim h [ ]
take_behind (x ∷ xs) ys (suc n) h =
    let e : suc n - suc (length xs) ≡ n - length xs = omega arith in
    rw e (ap (λ t. x ∷ t) (take_behind xs ys n (omega arith)))

set_nlmsg_len_lem :
    (msg bytes : List ℕ) (len : ℕ)
    → Starts (msg, len) bytes
    → 4 ≤ len
    → len ≤ 4096
    → set_nlmsg_len (msg, len) ≡ ok (to_le32 len ++ drop 4 bytes)
unfolding set_nlmsg_len
set_nlmsg_len_lem msg bytes len s four room =
    let kept = length-splice msg 0 (to_le32 len) (omega (arith, s.size)) in
    slice_front (splice msg 0 (to_le32 len)) len (omega (arith, kept, s.size))
    ∙ ap ok (
        take_behind (to_le32 len) (drop 4 msg) len four
        ∙ ap (λ t. to_le32 len ++ t) (sym (drop-take 4 len msg) ∙ ap (drop 4) s.front))

-- The two headers of a message of `len` bytes.
unfoldable pub headers : ℕ → ℕ → ℕ → ℕ → ℕ → List ℕ
headers len msg_type flags seq cmd =
    to_le32 len
    ++ (to_le16 msg_type
        ++ (to_le16 flags ++ (to_le32 seq ++ (to_le32 0 ++ (cmd ∷ 1 ∷ to_le16 0)))))

begin_message-Starts :
    (msg_type flags seq cmd : ℕ)
    → Starts (begin_message msg_type flags seq cmd) (headers 20 msg_type flags seq cmd)
unfolding begin_message headers build_nlmsghdr put_genlmsghdr nlmsghdr_bytes genlmsghdr_bytes
begin_message-Starts msg_type flags seq cmd =
    let zeros = length-zeroed 4096 in
    let first : Starts (zeroed 4096, 0) [] = record { size = zeros; end = refl; front = refl } in
    let nl = nlmsghdr_bytes (record {
      nlmsg_len = 20;
      nlmsg_type = msg_type;
      nlmsg_flags = flags;
      nlmsg_seq = seq;
      nlmsg_pid = 0;
    }) in
    let second = splice-Starts (zeroed 4096) [] nl 0 first (omega arith) in
    splice-Starts (splice (zeroed 4096) 0 nl) nl (cmd ∷ 1 ∷ to_le16 0) 16 second (omega arith)

begin_message-end : (msg_type flags seq cmd : ℕ) → (begin_message msg_type flags seq cmd).1 ≡ 20
unfolding begin_message build_nlmsghdr put_genlmsghdr
begin_message-end msg_type flags seq cmd = refl

-- The end of a message.
sent_lem :
    (m : List ℕ × ℕ) (bytes : List ℕ) (n : ℕ)
    → Starts m bytes
    → length bytes ≡ n
    → 4 ≤ n
    → n ≤ 4096
    → set_nlmsg_len m ≡ ok (to_le32 n ++ drop 4 bytes)
sent_lem (msg, len) bytes n s e four room =
    let same : len ≡ n = s.end ∙ e in
    rw (sym same) (set_nlmsg_len_lem msg bytes len s (omega arith) (omega arith))

monitor_lem :
    (id ifindex : ℕ)
    → set_monitor_mode_message id ifindex
      ≡ ok (headers 36 id 5 2 18 ++ (attribute 3 (to_le32 ifindex) ++ attribute 10 (to_le32 6)))
unfolding set_monitor_mode_message headers attribute
monitor_lem id ifindex =
    let start = begin_message id 5 2 18 in
    let (m1, e1, s1) =
      put_attr-Starts 3 (to_le32 ifindex) (start.0) (headers 20 id 5 2 18) (start.1)
        (begin_message-Starts id 5 2 18) (omega arith) in
    let (m2, e2, s2) =
      put_attr-Starts 10 (to_le32 6) (m1.0) (headers 20 id 5 2 18 ++ attribute 3 (to_le32 ifindex))
        (m1.1) s1 (omega (arith, s1.end)) in
    rw (e1, e2)
      (sent_lem m2
        ((headers 20 id 5 2 18 ++ attribute 3 (to_le32 ifindex)) ++ attribute 10 (to_le32 6)) 36 s2
        refl (omega arith) (omega arith))

channel_lem :
    (id ifindex freq : ℕ)
    → (do
      m1 ← put_attr 3 (to_le32 ifindex) (begin_message id 5 3 32)
      m2 ← put_attr 38 (to_le32 freq) m1
      m3 ← put_attr 39 (to_le32 2) m2
      set_nlmsg_len m3)
      ≡ ok (
          headers 44 id 5 3 32
          ++ (attribute 3 (to_le32 ifindex)
              ++ (attribute 38 (to_le32 freq) ++ attribute 39 (to_le32 2))))
unfolding headers attribute
channel_lem id ifindex freq =
    let start = begin_message id 5 3 32 in
    let b0 = headers 20 id 5 3 32 in
    let b1 = b0 ++ attribute 3 (to_le32 ifindex) in
    let b2 = b1 ++ attribute 38 (to_le32 freq) in
    let (m1, e1, s1) =
      put_attr-Starts 3 (to_le32 ifindex) (start.0) b0 (start.1) (begin_message-Starts id 5 3 32)
        (rw (begin_message-end id 5 3 32) (omega arith)) in
    let (m2, e2, s2) =
      put_attr-Starts 38 (to_le32 freq) (m1.0) b1 (m1.1) s1 (omega (arith, s1.end)) in
    let (m3, e3, s3) = put_attr-Starts 39 (to_le32 2) (m2.0) b2 (m2.1) s2 (omega (arith, s2.end)) in
    rw (e1, e2, e3)
      (sent_lem m3 (b2 ++ attribute 39 (to_le32 2)) 44 s3 refl (omega arith) (omega arith))

-- The message that puts an interface into monitor mode has 36 bytes: both headers, with this length
-- in the first, and the attributes for the interface and for its type. The message that switches an
-- interface to a channel has 44 bytes: both headers, and the attributes for the interface, for the
-- frequency of the channel in MHz and for the width of the channel. There is no such message for a
-- channel without a frequency, and it is the only error of building it.
pub messages_lem :
    (id ifindex : ℕ) (channel : ℤ) (freq : ℕ)
    → ieee80211_channel_to_frequency channel ≡ pos freq
    → (set_monitor_mode_message id ifindex
        ≡ ok (headers 36 id 5 2 18 ++ (attribute 3 (to_le32 ifindex) ++ attribute 10 (to_le32 6))))
      × (set_channel_message id ifindex channel ≡ (
          if freq == 0
          then none
          else some (
              ok (
                headers 44 id 5 3 32
                ++ (attribute 3 (to_le32 ifindex)
                    ++ (attribute 38 (to_le32 (u32 freq)) ++ attribute 39 (to_le32 2)))))))
unfolding set_monitor_mode_message set_channel_message headers attribute as_u32
messages_lem id ifindex channel freq e = (
  monitor_lem id ifindex,
  (let zero_freq : eq_ℤ (pos freq) (pos 0) ≡ (freq == 0) = ground arith in
      rw (e, zero_freq)
        (ap (λ m. if freq == 0 then none else some m) (channel_lem id ifindex (u32 freq)))),
)
