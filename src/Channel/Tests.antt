-- ===== src/Channel/Tests.antt =====
-- Channels of src/awdl/channel.rs at small inputs.
use cosmicdrop.Base.{◌≡◌, arith, inr}
use cosmicdrop.Base.Int.{pos}
use cosmicdrop.Channel.{ieee80211_channel_to_frequency, ieee80211_frequency_to_channel}
use cosmicdrop.Channel.Frequency.{frequency_to_channel-channel_to_frequency}

frequency_to_channel-channel_to_frequency_example :
    ieee80211_frequency_to_channel (ieee80211_channel_to_frequency (pos 44)) ≡ pos 44
frequency_to_channel-channel_to_frequency_example =
    frequency_to_channel-channel_to_frequency 44 (inr (omega arith, omega arith))
