-- ===== src/Util/Channel/Laws.antt =====
-- The two conversions are inverse on the channels of each band.
use nl.Base.{ℕ, ◌≤◌, ◌<◌, ◌≡◌, ◌≢◌, ◌↔◌, refl, ◌^◌, arith}
use nl.Base.Int.{pos}
use nl.Util.Channel.{
  Band, ghz2, ghz5, ghz60, ghz6, s1ghz, channel_to_frequency, frequency_to_channel,
}

-- The channels that a band has, by the comments and the tables of the code: 5 GHz up to the last one
-- below the 6 GHz band.
abbrev pub IsChannel : ℕ → Band → Type 0
IsChannel chan ghz2 = (1 ≤ chan) × (chan ≤ 14)
IsChannel chan ghz5 = (1 ≤ chan) × (chan ≤ 196)
IsChannel chan ghz6 = (1 ≤ chan) × (chan ≤ 253)
IsChannel chan ghz60 = (1 ≤ chan) × (chan ≤ 6)
IsChannel chan s1ghz = ⊥

-- Going to the frequency and back gives the channel, on the channels 1 to 14 of the 2.4 GHz band, 1 to
-- 196 of the 5 GHz band, 1 to 253 of the 6 GHz band and 1 to 6 of the 60 GHz band.
pub frequency_to_channel-channel_to_frequency :
    (chan : ℕ) (band : Band)
    → IsChannel chan band
    → frequency_to_channel (pos (channel_to_frequency chan band)) ≡ pos chan
unfolding channel_to_frequency frequency_to_channel
frequency_to_channel-channel_to_frequency chan ghz2 h = ground arith
frequency_to_channel-channel_to_frequency chan ghz5 h = ground arith
frequency_to_channel-channel_to_frequency chan ghz6 h = ground arith
frequency_to_channel-channel_to_frequency chan ghz60 h = ground arith
frequency_to_channel-channel_to_frequency chan s1ghz h = absurd h

-- Outside the 5 GHz band the result is 0, for "not supported", on all but the channels of the band.
pub channel_to_frequency-eq-zero_iff :
    (chan : ℕ) (band : Band)
    → band ≢ ghz5
    → chan < 2 ^ 31
    → (channel_to_frequency chan band ≡ 0) ↔ ¬ IsChannel chan band
unfolding channel_to_frequency
channel_to_frequency-eq-zero_iff chan ghz2 n h = (λ e c. ground arith, λ e. ground arith)
channel_to_frequency-eq-zero_iff chan ghz5 n h = absurd (n refl)
channel_to_frequency-eq-zero_iff chan ghz6 n h = (λ e c. ground arith, λ e. ground arith)
channel_to_frequency-eq-zero_iff chan ghz60 n h = (λ e c. ground arith, λ e. ground arith)
channel_to_frequency-eq-zero_iff chan s1ghz n h = (λ e c. c, λ e. ground arith)
