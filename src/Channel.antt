-- ===== src/Channel.antt =====
-- src/awdl/channel.rs: channels, channel sequences and frequencies.
pub mod Frequency
mod Tests
use cosmicdrop.Base.{
  ℕ, suc, ◌+◌, ◌-◌, ◌*◌, ◌/◌, ◌%◌, ◌^◌, ◌≤◌, ◌<◌, ◌==◌, ltb, leb, if◌then◌else◌, Bool, true, false,
  ◌&&◌, List, [], ◌∷◌, replicate,
}
use cosmicdrop.Base.{Option, none, some, u64}
use cosmicdrop.SipHash.{siphash24, siphash_truncate}
use cosmicdrop.Wire.{to_le16}
use cosmicdrop.Base.Int.{ℤ, pos, negsuc, ◌+ℤ◌, ◌-ℤ◌, ◌*ℤ◌, leb_ℤ, ltb_ℤ, eq_ℤ}

abbrev pub awdl_chanseq_length : ℕ
awdl_chanseq_length = 16

pub data AwdlChanEncoding : Type 0 where
  simple legacy opclass : AwdlChanEncoding

-- The two bytes of `val`.
pub record AwdlChan : Type 0 where
  pub val0 : ℕ
  pub val1 : ℕ

-- `AwdlChan::new`.
abbrev pub new_chan : ℕ → ℕ → AwdlChan
new_chan chan_num opclass_num = record { val0 = chan_num; val1 = opclass_num }

unfoldable pub chan_num_simple : AwdlChan → ℕ
chan_num_simple c = c.val0

unfoldable pub chan_num_legacy : AwdlChan → ℕ
chan_num_legacy c = c.val1

unfoldable pub chan_num_opclass : AwdlChan → ℕ
chan_num_opclass c = c.val0

unfoldable pub chan_num_for_enc : AwdlChan → AwdlChanEncoding → ℕ
unfolding chan_num_simple chan_num_legacy chan_num_opclass
chan_num_for_enc c simple = chan_num_simple c
chan_num_for_enc c legacy = chan_num_legacy c
chan_num_for_enc c opclass = chan_num_opclass c

abbrev pub chan_null : AwdlChan
chan_null = record { val0 = 0; val1 = 0 }

abbrev pub chan_opclass_6 : AwdlChan
chan_opclass_6 = record { val0 = 6; val1 = 0x51 }

abbrev pub chan_opclass_44 : AwdlChan
chan_opclass_44 = record { val0 = 44; val1 = 0x80 }

abbrev pub chan_opclass_149 : AwdlChan
chan_opclass_149 = record { val0 = 149; val1 = 0x80 }

unfoldable pub awdl_chan_encoding_size : AwdlChanEncoding → ℕ
awdl_chan_encoding_size simple = 1
awdl_chan_encoding_size legacy = 2
awdl_chan_encoding_size opclass = 2

pub record AwdlChannelState : Type 0 where
  pub enc : AwdlChanEncoding
  pub sequence : List AwdlChan
  pub master : AwdlChan
  pub current : AwdlChan

-- The loops over `seq`, as a recursion on the slots from index `i` on.
unfoldable pub init_from : (ℕ → AwdlChan) → ℕ → List AwdlChan → List AwdlChan
init_from chan_at i [] = []
init_from chan_at i (slot ∷ seq) = chan_at i ∷ init_from chan_at (i + 1) seq

unfoldable pub awdl_chanseq_init : List AwdlChan → List AwdlChan
unfolding init_from
awdl_chanseq_init = init_from (λ i. if ltb i 8 then chan_opclass_149 else chan_opclass_6) 0

unfoldable pub idle_slot : ℕ → AwdlChan
idle_slot i =
    if i == 8
    then chan_opclass_6
    else (if i == 0
        then chan_opclass_149
        else (if i == 9
            then chan_opclass_149
            else (if i == 10 then chan_opclass_149 else chan_null)))

unfoldable pub awdl_chanseq_init_idle : List AwdlChan → List AwdlChan
unfolding init_from idle_slot
awdl_chanseq_init_idle = init_from idle_slot 0

unfoldable pub awdl_chanseq_init_static : List AwdlChan → AwdlChan → List AwdlChan
unfolding init_from
awdl_chanseq_init_static seq chan = init_from (λ i. chan) 0 seq

-- `[CHAN_NULL; AWDL_CHANSEQ_LENGTH]`.
abbrev pub null_sequence : List AwdlChan
null_sequence = replicate awdl_chanseq_length chan_null

-- `AwdlChannelState::new`.
unfoldable pub new : AwdlChan → AwdlChannelState
unfolding awdl_chanseq_init_static
new master = record {
  enc = opclass;
  sequence = awdl_chanseq_init_static null_sequence master;
  master = master;
  current = chan_null;
}

unfoldable pub awdl_chan_num : AwdlChan → AwdlChanEncoding → ℕ
unfolding chan_num_for_enc
awdl_chan_num chan enc = chan_num_for_enc chan enc

-- i32 division rounds towards zero.
unfoldable pub div_ℤ : ℤ → ℕ → ℤ
div_ℤ (pos n) d = pos (n / d)
div_ℤ (negsuc n) d = pos 0 -ℤ pos (suc n / d)

unfoldable pub ieee80211_channel_to_frequency : ℤ → ℤ
ieee80211_channel_to_frequency chan =
    if leb_ℤ chan (pos 0)
    then pos 0
    else (if eq_ℤ chan (pos 14)
        then pos 2484
        else (if ltb_ℤ chan (pos 14)
            then pos 2407 +ℤ chan *ℤ pos 5
            else (if ltb_ℤ chan (pos 32)
                then pos 0
                else (if leb_ℤ (pos 182) chan && leb_ℤ chan (pos 196)
                    then pos 4000 +ℤ chan *ℤ pos 5
                    else pos 5000 +ℤ chan *ℤ pos 5))))

unfoldable pub ieee80211_frequency_to_channel : ℤ → ℤ
unfolding div_ℤ
ieee80211_frequency_to_channel freq =
    if eq_ℤ freq (pos 2484)
    then pos 14
    else (if ltb_ℤ freq (pos 2484)
        then div_ℤ (freq -ℤ pos 2407) 5
        else (if leb_ℤ (pos 4910) freq && leb_ℤ freq (pos 4980)
            then div_ℤ (freq -ℤ pos 4000) 5
            else (if leb_ℤ freq (pos 45000)
                then div_ℤ (freq -ℤ pos 5000) 5
                else (if leb_ℤ (pos 58320) freq && leb_ℤ freq (pos 64800)
                    then div_ℤ (freq -ℤ pos 56160) 2160
                    else pos 0))))

-- The key of OWL, the text 0123456789012345.
abbrev pub siphash_key : List ℕ
siphash_key =
    b'0' ∷ b'1' ∷ b'2' ∷ b'3' ∷ b'4' ∷ b'5' ∷ b'6' ∷ b'7' ∷ b'8' ∷ b'9' ∷ b'0' ∷ b'1' ∷ b'2' ∷ b'3'
    ∷ b'4' ∷ b'5' ∷ []

-- The slot that the identifier of a sequence gives for a window; `none` is a division by zero.
-- Nothing calls it.
unfoldable pub awdl_channel_expected : ℕ → ℕ → ℕ → Option ℕ
awdl_channel_expected chanseq_id aw_counter presence_mode =
    if presence_mode == 0
    then none
    else (let truncated = siphash_truncate (siphash24 (to_le16 chanseq_id) siphash_key) in
        let eaw = aw_counter / presence_mode in some (u64 (eaw + truncated) % awdl_chanseq_length))
