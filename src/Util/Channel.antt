-- ===== src/Util/Channel.antt =====
-- Channel numbers and frequencies: `ieee80211_channel_to_frequency`,
-- `ieee80211_frequency_to_channel` and `get_cf1` of wifi/iw/util.c.
pub mod Laws
pub mod Center
use nl.Base.{
  ℕ, ◌+◌, ◌-◌, ◌*◌, ◌%◌, ◌^◌, Bool, ◌&&◌, ◌||◌, Option, none, some, List, [], ◌∷◌, ltb, leb, ◌==◌,
  if◌then◌else◌,
}
use nl.Base.Int.{ℤ, pos, ◌-ℤ◌, ◌/ℤ◌, ltb_ℤ, leb_ℤ, eqb_ℤ}

-- `enum nl80211_band`
pub data Band : Type 0 where
  ghz2 ghz5 ghz60 ghz6 s1ghz : Band

-- The value of an `int` expression with this bit pattern wraps at 32 bits. `chan` is the pattern of
-- the `int` argument, and so is the result.
abbrev pub wrap : ℕ → ℕ
wrap n = n % 2 ^ 32

unfoldable pub band_frequency : ℕ → Band → ℕ
band_frequency chan ghz2 = if chan == 14 then 2484 else if ltb chan 14 then 2407 + chan * 5 else 0
band_frequency chan ghz5 =
    if leb 182 chan && leb chan 196 then 4000 + chan * 5 else wrap (5000 + chan * 5)
band_frequency chan ghz6 = if chan == 2 then 5935 else if leb chan 253 then 5950 + chan * 5 else 0
band_frequency chan ghz60 = if ltb chan 7 then 56160 + chan * 2160 else 0
band_frequency chan s1ghz = 0

unfoldable pub channel_to_frequency : ℕ → Band → ℕ
unfolding band_frequency
channel_to_frequency chan band =
    if chan == 0 || leb (2 ^ 31) chan then 0 else band_frequency chan band

unfoldable pub frequency_to_channel : ℤ → ℤ
frequency_to_channel freq =
    if eqb_ℤ freq (pos 2484)
    then pos 14
    else if eqb_ℤ freq (pos 5935)
    then pos 2
    else if ltb_ℤ freq (pos 2484)
    then (freq -ℤ pos 2407) /ℤ 5
    else if leb_ℤ (pos 4910) freq && leb_ℤ freq (pos 4980)
    then (freq -ℤ pos 4000) /ℤ 5
    else if ltb_ℤ freq (pos 5950)
    then (freq -ℤ pos 5000) /ℤ 5
    else if leb_ℤ freq (pos 45000)
    then (freq -ℤ pos 5950) /ℤ 5
    else if leb_ℤ (pos 58320) freq && leb_ℤ freq (pos 70200)
    then (freq -ℤ pos 56160) /ℤ 2160
    else pos 0

-- `enum nl80211_chan_width`
pub data ChanWidth : Type 0 where
  width_20_noht width_20 width_40 width_80 width_80p80 width_160 width_5 width_10 : ChanWidth
  width_1 width_2 width_4 width_8 width_16 : ChanWidth

abbrev pub bw80 : List ℕ
bw80 =
    5180 ∷ 5260 ∷ 5500 ∷ 5580 ∷ 5660 ∷ 5745 ∷ 5955 ∷ 6035 ∷ 6115 ∷ 6195 ∷ 6275 ∷ 6355 ∷ 6435 ∷ 6515
    ∷ 6595 ∷ 6675 ∷ 6755 ∷ 6835 ∷ 6195 ∷ 6995 ∷ []

abbrev pub vht160 : List ℕ
vht160 = 5180 ∷ 5500 ∷ []

-- The first entry of the table whose block of `size` MHz holds the frequency.
unfoldable pub find_block : ℕ → ℕ → List ℕ → Option ℕ
find_block size freq [] = none
find_block size freq (low ∷ lows) =
    if leb low freq && ltb freq (low + size) then some low else find_block size freq lows

abbrev pub block_center : ℕ → ℕ → Option ℕ → ℕ
block_center offset freq none = freq
block_center offset freq (some low) = low + offset

-- `freq1_diff` is the bit pattern of the mode's offset; the result is an `int` from an `unsigned`.
unfoldable pub get_cf1 : ChanWidth → ℕ → ℕ → ℕ
unfolding find_block
get_cf1 width_80 freq1_diff freq = block_center 30 freq (find_block 80 freq bw80)
get_cf1 width_160 freq1_diff freq = block_center 70 freq (find_block 160 freq vht160)
get_cf1 _ freq1_diff freq = wrap (freq + freq1_diff)
