-- ===== src/Util/Keys.antt =====
-- `parse_akm_suite`, `parse_cipher_suite` and `parse_keys` of wifi/iw/util.c. The result of
-- `parse_keys` is the message with the words that are left.
pub mod Psk
use nl.Base.{
  ◌||◌, ℕ, ◌+◌, ◌-◌, Bool, true, false, ◌&&◌, not, Bytes, Option, none, some, List, [], ◌∷◌, length,
  codes, drop, ◌==◌, if◌then◌else◌,
}
use nl.Libc.{str_eq, starts_with, is_digit}
use nl.Nl80211.Attr
use nl.Nl80211.Key
use nl.Netlink.{Netlink, Result, ok, err, ◌>>=◌, room, usage, explained, einval}
use nl.Util.Hex.{hex2bin}

-- `none` is -EINVAL.
abbrev pub lookup : Bytes → List (Bytes × ℕ) → Option ℕ
lookup str [] = none
lookup str ((name, suite) ∷ rest) = if str_eq str name then some suite else lookup str rest

abbrev pub akm_table : List (Bytes × ℕ)
akm_table =
    (codes "PSK", 0x000FAC02)
    ∷ (codes "FT/PSK", 0x000FAC03)
    ∷ (codes "PSK/SHA-256", 0x000FAC06)
    ∷ []

abbrev pub cipher_table : List (Bytes × ℕ)
cipher_table =
    (codes "TKIP", 0x000FAC02)
    ∷ (codes "CCMP", 0x000FAC04)
    ∷ (codes "CCMP-128", 0x000FAC04)
    ∷ (codes "GCMP", 0x000FAC08)
    ∷ (codes "GCMP-128", 0x000FAC08)
    ∷ (codes "GCMP-256", 0x000FAC09)
    ∷ (codes "CCMP-256", 0x000FAC0A)
    ∷ []

unfoldable pub parse_akm_suite : Bytes → Option ℕ
parse_akm_suite akm_str = lookup akm_str akm_table

unfoldable pub parse_cipher_suite : Bytes → Option ℕ
parse_cipher_suite cipher_str = lookup cipher_str cipher_table

-- `goto explain`
abbrev pub explain {ℓ} : {A : Type ℓ} → Option A → Result A
explain none = err explained
explain (some a) = ok a

-- An optional `d` or `d:` in front of a key.
abbrev pub default_mark : Bytes → Bool × Bytes
default_mark [] = (false, [])
default_mark (c ∷ []) = if c == b'd' then (true, []) else (false, c ∷ [])
default_mark (c ∷ s ∷ cs) =
    if c == b'd' then (true, (if s == b':' then cs else s ∷ cs)) else (false, c ∷ s ∷ cs)

-- The index is one digit.
abbrev pub key_index : Bytes → Option (ℕ × Bytes)
key_index [] = none
key_index (c ∷ cs) = if is_digit c then some (c - b'0', cs) else none

abbrev pub after_colon : Bytes → Option Bytes
after_colon [] = none
after_colon (c ∷ cs) = if c == b':' then some cs else none

-- The cipher by the length of the data: WEP40 or WEP104, as text or in hexadecimal. The inner `none`
-- is a text that is not hexadecimal.
unfoldable pub key_material : Bytes → Option (ℕ × Option Bytes)
key_material keydata =
    if length keydata == 10
    then some (0x000FAC01, hex2bin keydata)
    else if length keydata == 5
    then some (0x000FAC01, some keydata)
    else if length keydata == 26
    then some (0x000FAC05, hex2bin keydata)
    else if length keydata == 13
    then some (0x000FAC05, some keydata)
    else none

abbrev pub is_last : List Bytes → Bool
is_last [] = true
is_last (arg ∷ argv) = false

-- The data behind `psk:`, 64 hexadecimal digits.
abbrev pub psk_data : Bytes → Option Bytes
psk_data text = if length text == 64 then hex2bin text else none

abbrev pub or_einval : Option Bytes → Result Bytes
or_einval none = err einval
or_einval (some bs) = ok bs

module _ (n : Netlink) where
  open n use {Msg, nla_put, nla_put_u8, nla_put_u32, nla_put_flag, nla_nest_start, nla_nest_end}

  abbrev pub put_flag_if : Bool → ℕ → Msg → Result Msg
  put_flag_if true attr msg = room (nla_put_flag msg attr)
  put_flag_if false attr msg = ok msg

  -- One round of the loop inside its nest, on a word that `last` tells to be the last one: the longer
  -- message, and whether there has been a default key.
  unfoldable pub put_key : Bool → Bool → Bytes → Msg → Result (Msg × Bool)
  put_key have_default last arg msg = do
    let mark = default_mark arg
    let have = have_default || mark.0
    m1 ← put_flag_if mark.0 Key.default msg
    index ← explain (key_index mark.1)
    m2 ← room (nla_put_u8 m1 Key.idx index.0)
    keydata ← explain (after_colon index.1)
    material ← explain (key_material keydata)
    m3 ← room (nla_put_u32 m2 Key.cipher material.0)
    bytes ← explain material.1
    m4 ← room (nla_put m3 Key.key_data bytes)
    m5 ← put_flag_if (not have && last) Key.default m4
    ok (m5, have)

  -- The loop, with the count `i` of the keys so far.
  unfoldable pub put_keys : ℕ → Bool → List Bytes → Msg → Result Msg
  put_keys i have_default [] msg = ok msg
  put_keys i have_default (arg ∷ argv) msg = room (nla_nest_start msg (i + 1)) >>= λ s.
      put_key have_default (is_last argv) arg s.1 >>= λ k.
      put_keys (i + 1) k.1 argv (nla_nest_end k.0 s.0)

  -- NL80211_WPA_VERSION_2 is 2, NL80211_AUTHTYPE_OPEN_SYSTEM is 0.
  unfoldable pub put_psk : Bytes → List Bytes → Msg → Result (Msg × List Bytes)
  put_psk arg (akm ∷ pairwise ∷ group ∷ argv) msg = do
    text ← explain (after_colon (drop 3 arg))
    m1 ← room (nla_put_u32 msg Attr.wpa_versions 2)
    psk ← or_einval (psk_data text)
    m2 ← room (nla_put m1 Attr.pmk psk)
    m3 ← room (nla_put_u32 m2 Attr.auth_type 0)
    akm_suite ← explain (parse_akm_suite akm)
    m4 ← room (nla_put_u32 m3 Attr.akm_suites akm_suite)
    cipher_suite ← explain (parse_cipher_suite pairwise)
    m5 ← room (nla_put_u32 m4 Attr.cipher_suites_pairwise cipher_suite)
    group_suite ← explain (parse_cipher_suite group)
    m6 ← room (nla_put_u32 m5 Attr.cipher_suite_group group_suite)
    ok (m6, argv)
  put_psk arg _ msg = err explained

  unfoldable pub put_wep : List Bytes → Msg → Result (Msg × List Bytes)
  put_wep argv msg = do
    m1 ← room (nla_put_flag msg Attr.privacy)
    keys ← room (nla_nest_start m1 Attr.keys)
    m2 ← put_keys 0 false argv keys.1
    ok (nla_nest_end m2 keys.0, [])

  unfoldable pub parse_keys : List Bytes → Msg → Result (Msg × List Bytes)
  parse_keys [] msg = err usage
  parse_keys (arg ∷ argv) msg =
      if starts_with (codes "psk") arg then put_psk arg argv msg else put_wep (arg ∷ argv) msg
