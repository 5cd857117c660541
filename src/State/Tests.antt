-- ===== src/State/Tests.antt =====
-- Sequence numbers of src/awdl/state.rs near their end.
use cosmicdrop.Base.{◌+◌, ◌%◌, ◌^◌, ◌≡◌, arith, [], replicate}
use cosmicdrop.Channel.{chan_opclass_6}
use cosmicdrop.State.{
  AwdlState, Ieee80211State, new, new_ieee80211, next_sequence_number, next_sequence_number_12,
}
use cosmicdrop.State.Sequence.{sent, sent_12, sequence_numbers}

abbrev node : AwdlState
unfolding new
node = record (new [] (replicate 6 1) chan_opclass_6 0) { sequence_number = 65535 }

abbrev ieee : Ieee80211State
ieee = record new_ieee80211 { sequence_number = 4095 }

sequence_numbers_example :
    ((next_sequence_number (sent 3 node)).1 ≡ (65535 + 3) % 2 ^ 16)
    × ((next_sequence_number_12 (sent_12 3 ieee)).1 ≡ (4095 + 3) % 2 ^ 12)
unfolding node
sequence_numbers_example = sequence_numbers 3 node ieee (omega arith) (omega arith)
