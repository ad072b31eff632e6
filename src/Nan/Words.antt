-- ===== src/Nan/Words.antt =====
-- The short commands of wifi/iw/nan.c: parse_bands, handle_nan_start, handle_nan_config, handle_nan_rm_func.
use nl.Base.{ℕ, ◌%◌, ◌^◌, bit_or, Bytes, List, [], ◌∷◌, codes, if◌then◌else◌}
use nl.Libc.{str_eq, str_case_eq, atoi}
use nl.Nl80211.Attr
use nl.Netlink.{Netlink, Result, ok, err, ◌>>=◌, room, einval}

-- `BIT(NL80211_BAND_2GHZ)` and `BIT(NL80211_BAND_5GHZ)`
abbrev pub band_2ghz : ℕ
band_2ghz = 1

abbrev pub band_5ghz : ℕ
band_5ghz = 2

unfoldable pub bands_loop : (bands : ℕ) → List Bytes → Result ℕ
bands_loop bands [] = ok bands
bands_loop bands (w ∷ words) =
    let rest2 = bands_loop (bit_or bands band_2ghz) words in
    let rest5 = bands_loop (bit_or bands band_5ghz) words in
    if str_case_eq (codes "2ghz") w
    then rest2
    else if str_case_eq (codes "5ghz") w
    then rest5
    else err einval

unfoldable pub parse_bands : List Bytes → Result ℕ
unfolding bands_loop
parse_bands words = bands_loop 0 words

module _ (n : Netlink) where
  open n use {Msg, nla_put_u8, nla_put_u32, nla_put_u64}

  abbrev pub read_bands : Msg → List Bytes → Result Msg
  read_bands msg words = parse_bands words >>= λ bands. room (nla_put_u32 msg Attr.bands bands)

  abbrev pub put_bands : Msg → Bytes → List Bytes → Result Msg
  put_bands msg w words = if str_eq w (codes "bands") then read_bands msg words else err einval

  -- The words behind the preference: none, or "bands" with at least one word more.
  unfoldable pub bands_words : Msg → List Bytes → Result Msg
  bands_words msg [] = ok msg
  bands_words msg (w ∷ []) = err einval
  bands_words msg (w ∷ x ∷ words) = put_bands msg w (x ∷ words)

  abbrev pub put_pref : Msg → Bytes → List Bytes → Result Msg
  put_pref msg pref words =
      room (nla_put_u8 msg Attr.nan_master_pref (atoi pref % 2 ^ 8)) >>= λ m. bands_words m words

  unfoldable pub handle_nan_start : Msg → List Bytes → Result Msg
  handle_nan_start msg [] = err einval
  handle_nan_start msg (w ∷ []) = err einval
  handle_nan_start msg (w ∷ pref ∷ words) =
      if str_eq w (codes "pref") then put_pref msg pref words else err einval

  unfoldable pub handle_nan_config : Msg → List Bytes → Result Msg
  handle_nan_config msg [] = err einval
  handle_nan_config msg (w ∷ []) = err einval
  handle_nan_config msg (w ∷ x ∷ words) =
      if str_eq w (codes "pref") then put_pref msg x words else bands_words msg (w ∷ x ∷ words)

  abbrev pub handle_nan_stop : Msg → List Bytes → Result Msg
  handle_nan_stop msg words = ok msg

  -- The cookie is what `atoi` gives, as 64 bits.
  unfoldable pub handle_nan_rm_func : Msg → List Bytes → Result Msg
  handle_nan_rm_func msg [] = err einval
  handle_nan_rm_func msg (w ∷ []) = err einval
  handle_nan_rm_func msg (w ∷ x ∷ []) =
      if str_eq w (codes "cookie") then room (nla_put_u64 msg Attr.cookie (atoi x)) else err einval
  handle_nan_rm_func msg (w ∷ x ∷ y ∷ words) = err einval
