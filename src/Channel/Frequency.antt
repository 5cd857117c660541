-- ===== src/Channel/Frequency.antt =====
-- Channel numbers and frequencies of src/awdl/channel.rs.
use cosmicdrop.Base.{ℕ, ◌≤◌, ◌≡◌, ◌⊎◌, arith}
use cosmicdrop.Base.Int.{pos, ◌+ℤ◌, ◌-ℤ◌, ◌*ℤ◌}
use cosmicdrop.Channel.{ieee80211_channel_to_frequency, ieee80211_frequency_to_channel, div_ℤ}

-- For the channels 1 to 14 and 32 to 196, the frequency of the channel leads back to the channel.
pub frequency_to_channel-channel_to_frequency :
    (n : ℕ)
    → ((1 ≤ n) × (n ≤ 14)) ⊎ ((32 ≤ n) × (n ≤ 196))
    → ieee80211_frequency_to_channel (ieee80211_channel_to_frequency (pos n)) ≡ pos n
unfolding ieee80211_channel_to_frequency ieee80211_frequency_to_channel ◌+ℤ◌ ◌-ℤ◌ ◌*ℤ◌ div_ℤ
frequency_to_channel-channel_to_frequency n h = ground arith
