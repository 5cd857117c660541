-- ===== src/State/Sequence.antt =====
-- The sequence numbers of src/awdl/state.rs count modulo 2^16 and 2^12.
use cosmicdrop.Base.{ℕ, zero, suc, ◌+◌, ◌%◌, ◌^◌, ◌≡◌, ◌<◌, arith}
use cosmicdrop.Base.Bits.And.{bit_and_4095}
use cosmicdrop.State.{AwdlState, Ieee80211State, next_sequence_number, next_sequence_number_12}

-- The states after `n` frames.
abbrev pub sent : ℕ → AwdlState → AwdlState
sent zero state = state
sent (suc n) state = (next_sequence_number (sent n state)).0

abbrev pub sent_12 : ℕ → Ieee80211State → Ieee80211State
sent_12 zero state = state
sent_12 (suc n) state = (next_sequence_number_12 (sent_12 n state)).0

sent_lem :
    (n : ℕ) (state : AwdlState)
    → state.sequence_number < 2 ^ 16
    → (sent n state).sequence_number ≡ (state.sequence_number + n) % 2 ^ 16
unfolding next_sequence_number
sent_lem zero state h = omega arith
sent_lem (suc n) state h = omega (arith, sent_lem n state h)

sent_12_lem :
    (n : ℕ) (state : Ieee80211State)
    → state.sequence_number < 2 ^ 12
    → (sent_12 n state).sequence_number ≡ (state.sequence_number + n) % 2 ^ 12
unfolding next_sequence_number_12
sent_12_lem zero state h = omega arith
sent_12_lem (suc n) state h =
    omega (
      arith,
      sent_12_lem n state h,
      bit_and_4095 (((sent_12 n state).sequence_number + 1) % 2 ^ 16),
    )

-- From sequence numbers in range, the number of the frame after `n` others is the first one plus
-- `n`, modulo 2^16 for AWDL data frames and modulo 2^12 for IEEE 802.11 frames.
pub sequence_numbers :
    (n : ℕ) (state : AwdlState) (ieee : Ieee80211State)
    → state.sequence_number < 2 ^ 16
    → ieee.sequence_number < 2 ^ 12
    → ((next_sequence_number (sent n state)).1 ≡ (state.sequence_number + n) % 2 ^ 16)
      × ((next_sequence_number_12 (sent_12 n ieee)).1 ≡ (ieee.sequence_number + n) % 2 ^ 12)
unfolding next_sequence_number next_sequence_number_12
sequence_numbers n state ieee h k = (sent_lem n state h, sent_12_lem n ieee k)
