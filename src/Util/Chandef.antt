-- ===== src/Util/Chandef.antt =====
-- Channel definitions on the command line: `str_to_bw`, `parse_freqs`, `parse_freqchan` and
-- `put_chandef` of wifi/iw/util.c, with `struct chandef` and `struct chanmode` of wifi/iw/iw.h.
-- The words of the command line are a list, so `argc` is its length and no word is NULL.
pub mod Laws
pub mod Numbers
pub mod Freqs
pub mod Message
use nl.Base.{
  ℕ, ◌+◌, ◌-◌, ◌^◌, Bool, true, false, ◌&&◌, not, Bytes, Option, none, some, List, [], ◌∷◌, length,
  codes, ltb, leb, ◌==◌, if◌then◌else◌,
}
use nl.Libc.{str_case_eq, strtoul, to_u32}
use nl.Nl80211.Attr
use nl.Netlink.{Netlink, Result, ok, err, ◌>>=◌, room}
use nl.Util.Channel.{
  Band, ghz2, ghz5, ChanWidth, width_20_noht, width_20, width_40, width_80, width_80p80, width_160,
  width_5, width_10, width_1, width_2, width_4, width_8, width_16, channel_to_frequency, get_cf1,
}

pub record Chandef : Type 0 where
  pub width : ChanWidth
  pub control_freq : ℕ
  pub center_freq1 : ℕ
  pub center_freq2 : ℕ

-- `freq1_diff` as a 32-bit pattern. `chantype` is not read by any function.
pub record Chanmode : Type 0 where
  pub name : Bytes
  pub width : ChanWidth
  pub freq1_diff : ℕ

abbrev pub mode : Bytes → ChanWidth → ℕ → Chanmode
mode name width diff = record { name = name; width = width; freq1_diff = diff }

abbrev pub chanmodes : List Chanmode
chanmodes =
    mode (codes "HT20") width_20 0
    ∷ mode (codes "HT40+") width_40 10
    ∷ mode (codes "HT40-") width_40 (2 ^ 32 - 10)
    ∷ mode (codes "NOHT") width_20_noht 0
    ∷ mode (codes "5MHz") width_5 0
    ∷ mode (codes "10MHz") width_10 0
    ∷ mode (codes "80MHz") width_80 0
    ∷ mode (codes "160MHz") width_160 0
    ∷ []

abbrev pub bwmap : List (Bytes × ChanWidth)
bwmap =
    (codes "5", width_5)
    ∷ (codes "10", width_10)
    ∷ (codes "20", width_20)
    ∷ (codes "40", width_40)
    ∷ (codes "80", width_80)
    ∷ (codes "80+80", width_80p80)
    ∷ (codes "160", width_160)
    ∷ []

unfoldable pub bw_lookup : Bytes → List (Bytes × ChanWidth) → ChanWidth
bw_lookup str [] = width_20_noht
bw_lookup str ((name, val) ∷ rest) = if str_case_eq name str then val else bw_lookup str rest

unfoldable pub str_to_bw : Bytes → ChanWidth
str_to_bw str = bw_lookup str bwmap

-- Which centre frequencies must follow the width: the first one, and the second one.
abbrev pub needs : ChanWidth → Bool × Bool
needs width_80p80 = (true, true)
needs width_40 = (true, false)
needs width_80 = (true, false)
needs width_160 = (true, false)
needs _ = (false, false)

-- The outcome of `parse_freqs` and of `parse_freqchan`: the result code, the structure as it is left,
-- and the count of words used.
pub record Parsed : Type 0 where
  pub code : ℕ
  pub chandef : Chandef
  pub used : ℕ

abbrev pub outcome : ℕ → Chandef → ℕ → Parsed
outcome code chandef used = record { code = code; chandef = chandef; used = used }

abbrev pub whole_number : ℕ × Bytes × Bool → Option ℕ
whole_number (v, [], found) = some (to_u32 v)
whole_number (v, e ∷ end, found) = none

-- `freq = strtoul(arg, &end, 10)` and `*end`: `none` is a rest behind the number.
unfoldable pub read_freq : Bytes → Option ℕ
read_freq arg = whole_number (strtoul arg 10)

-- The same behind `if (!*arg)`.
unfoldable pub read_center : Bytes → Option ℕ
read_center [] = none
read_center (c ∷ cs) = read_freq (c ∷ cs)

abbrev pub center2 : Chandef → ℕ → Option ℕ → Parsed
center2 chandef used none = outcome 1 chandef used
center2 chandef used (some freq) = outcome 0 (record chandef { center_freq2 = freq }) (used + 1)

unfoldable pub parse_center2 : Bool → Chandef → ℕ → List Bytes → Parsed
parse_center2 false chandef used argv = outcome 0 chandef used
parse_center2 true chandef used [] = outcome 1 chandef used
parse_center2 true chandef used (arg ∷ argv) = center2 chandef used (read_center arg)

abbrev pub center1 : Bool → Chandef → ℕ → List Bytes → Option ℕ → Parsed
center1 need_cf2 chandef used argv none = outcome 1 chandef used
center1 need_cf2 chandef used argv (some freq) =
    parse_center2 need_cf2 (record chandef { center_freq1 = freq }) (used + 1) argv

unfoldable pub parse_center1 : Bool → Bool → Chandef → ℕ → List Bytes → Parsed
parse_center1 false need_cf2 chandef used argv = outcome 0 chandef used
parse_center1 true need_cf2 chandef used [] = outcome 1 chandef used
parse_center1 true need_cf2 chandef used (arg ∷ argv) =
    center1 need_cf2 chandef used argv (read_center arg)

abbrev pub is_noht : ChanWidth → Bool
is_noht width_20_noht = true
is_noht _ = false

-- `used` is `*parsed`.
unfoldable pub parse_freqs : Chandef → List Bytes → ℕ → Parsed
parse_freqs chandef [] used = outcome 0 chandef used
parse_freqs chandef (arg ∷ argv) used =
    let width = str_to_bw arg in
    let chandef' = record chandef { width = width } in
    if is_noht width
    then outcome 0 chandef' used
    else parse_center1 (needs width).0 (needs width).1 chandef' (used + 1) argv

unfoldable pub find_mode : Bytes → List Chanmode → Option Chanmode
find_mode arg [] = none
find_mode arg (m ∷ ms) = if str_case_eq m.name arg then some m else find_mode arg ms

-- The mode that the second word names.
unfoldable pub select_mode : List Bytes → Option Chanmode
select_mode [] = none
select_mode (arg ∷ _) = find_mode arg chanmodes

-- The control frequency from the number of the first word: a channel number, or the frequency.
unfoldable pub control_frequency : Bool → ℕ → ℕ
control_frequency true n = channel_to_frequency n (if leb n 14 then ghz2 else ghz5)
control_frequency false n = n

-- `memset` and the two assignments of `freq`: 20 MHz without HT.
abbrev pub plain_channel : ℕ → Chandef
plain_channel freq = record {
  width = width_20_noht;
  control_freq = freq;
  center_freq1 = freq;
  center_freq2 = 0;
}

abbrev pub with_mode : ℕ → Chanmode → Chandef
with_mode freq m = record (plain_channel freq) {
  center_freq1 = get_cf1 m.width m.freq1_diff freq;
  width = m.width;
}

abbrev pub after_mode : Bool → ℕ → List Bytes → Option Chanmode → Parsed
after_mode chan freq argv (some m) = outcome 0 (with_mode freq m) 2
after_mode true freq argv none = outcome 0 (plain_channel freq) 1
after_mode false freq argv none = parse_freqs (plain_channel freq) argv 1

abbrev pub after_number : Chandef → Bool → List Bytes → Option ℕ → Parsed
after_number chandef chan argv none = outcome 1 chandef 0
after_number chandef chan argv (some n) =
    after_mode chan (control_frequency chan n) argv (select_mode argv)

-- The function up to its label `out`, on at least one word.
unfoldable pub parse_words : Chandef → Bool → Bytes → List Bytes → Parsed
parse_words chandef chan arg argv = after_number chandef chan argv (read_freq arg)

-- `parsed` tells whether the pointer of that name is there. Without it no word may be left over.
abbrev pub at_out : Bool → ℕ → Parsed → Parsed
at_out parsed argc p = if not parsed && not (p.used == argc) then record p { code = 1 } else p

unfoldable pub parse_freqchan : Chandef → Bool → List Bytes → Bool → Parsed
parse_freqchan chandef chan [] parsed = outcome 1 chandef 0
parse_freqchan chandef chan (arg ∷ argv) parsed =
    at_out parsed (length argv + 1) (parse_words chandef chan arg argv)

-- The values of `enum nl80211_chan_width`.
abbrev pub width_value : ChanWidth → ℕ
width_value width_20_noht = 0
width_value width_20 = 1
width_value width_40 = 2
width_value width_80 = 3
width_value width_80p80 = 4
width_value width_160 = 5
width_value width_5 = 6
width_value width_10 = 7
width_value width_1 = 8
width_value width_2 = 9
width_value width_4 = 10
width_value width_8 = 11
width_value width_16 = 12

module _ (n : Netlink) where
  open n use {Msg, nla_put_u32}

  abbrev put_u32 : Msg → ℕ → ℕ → Result Msg
  put_u32 msg attr v = room (nla_put_u32 msg attr v)

  -- The switch: `enum nl80211_channel_type` has no HT 0, HT20 1, HT40- 2, HT40+ 3.
  unfoldable pub put_channel_type : Msg → Chandef → ChanWidth → Result Msg
  put_channel_type msg chandef width_20_noht = put_u32 msg Attr.wiphy_channel_type 0
  put_channel_type msg chandef width_20 = put_u32 msg Attr.wiphy_channel_type 1
  put_channel_type msg chandef width_40 =
      if ltb chandef.center_freq1 chandef.control_freq
      then put_u32 msg Attr.wiphy_channel_type 2
      else put_u32 msg Attr.wiphy_channel_type 3
  put_channel_type msg chandef _ = ok msg

  unfoldable pub put_chandef : Msg → Chandef → Result Msg
  put_chandef msg chandef = do
    m1 ← put_u32 msg Attr.wiphy_freq chandef.control_freq
    m2 ← put_u32 m1 Attr.channel_width (width_value chandef.width)
    m3 ← put_channel_type m2 chandef chandef.width
    m4 ←
        if chandef.center_freq1 == 0
        then ok m3
        else put_u32 m3 Attr.center_freq1 chandef.center_freq1
    if chandef.center_freq2 == 0 then ok m4 else put_u32 m4 Attr.center_freq2 chandef.center_freq2
