-- ===== src/Scan/Suites.antt =====
-- `print_cipher` and `print_auth` of wifi/iw/scan.c.
use nl.Base.{ℕ, ◌+◌, Bool, ◌&&◌, Bytes, some, List, [], ◌∷◌, codes, ◌==◌, if◌then◌else◌}
use nl.Print.{str, dec, hex2, Out, Printed, byte}

-- The first three bytes of a selector, and the texts for its last byte.
pub record SuiteTable : Type 0 where
  pub oui : ℕ × ℕ × ℕ
  pub names : List (ℕ × Bytes)

abbrev pub ms_oui : ℕ × ℕ × ℕ
ms_oui = (0x00, 0x50, 0xf2)

abbrev pub ieee80211_oui : ℕ × ℕ × ℕ
ieee80211_oui = (0x00, 0x0f, 0xac)

abbrev pub wfa_oui : ℕ × ℕ × ℕ
wfa_oui = (0x50, 0x6f, 0x9a)

abbrev pub is_oui : ℕ × ℕ × ℕ → ℕ → ℕ → ℕ → Bool
is_oui (x, y, z) a b c = a == x && b == y && c == z

abbrev pub ms_ciphers : List (ℕ × Bytes)
ms_ciphers =
    (0, codes "Use group cipher suite")
    ∷ (1, codes "WEP-40")
    ∷ (2, codes "TKIP")
    ∷ (4, codes "CCMP")
    ∷ (5, codes "WEP-104")
    ∷ []

abbrev pub ieee80211_ciphers : List (ℕ × Bytes)
ieee80211_ciphers =
    (0, codes "Use group cipher suite")
    ∷ (1, codes "WEP-40")
    ∷ (2, codes "TKIP")
    ∷ (4, codes "CCMP")
    ∷ (5, codes "WEP-104")
    ∷ (6, codes "AES-128-CMAC")
    ∷ (7, codes "NO-GROUP")
    ∷ (8, codes "GCMP")
    ∷ []

abbrev pub ms_auths : List (ℕ × Bytes)
ms_auths = (1, codes "IEEE 802.1X") ∷ (2, codes "PSK") ∷ []

abbrev pub ieee80211_auths : List (ℕ × Bytes)
ieee80211_auths =
    (1, codes "IEEE 802.1X")
    ∷ (2, codes "PSK")
    ∷ (3, codes "FT/IEEE 802.1X")
    ∷ (4, codes "FT/PSK")
    ∷ (5, codes "IEEE 802.1X/SHA-256")
    ∷ (6, codes "PSK/SHA-256")
    ∷ (7, codes "TDLS/TPK")
    ∷ (8, codes "SAE")
    ∷ (9, codes "FT/SAE")
    ∷ (11, codes "IEEE 802.1X/SUITE-B")
    ∷ (12, codes "IEEE 802.1X/SUITE-B-192")
    ∷ (13, codes "FT/IEEE 802.1X/SHA-384")
    ∷ (14, codes "FILS/SHA-256")
    ∷ (15, codes "FILS/SHA-384")
    ∷ (16, codes "FT/FILS/SHA-256")
    ∷ (17, codes "FT/FILS/SHA-384")
    ∷ (18, codes "OWE")
    ∷ []

abbrev pub wfa_auths : List (ℕ × Bytes)
wfa_auths = (1, codes "OSEN") ∷ (2, codes "DPP") ∷ []

abbrev pub cipher_tables : List SuiteTable
cipher_tables =
    record { oui = ms_oui; names = ms_ciphers }
    ∷ record { oui = ieee80211_oui; names = ieee80211_ciphers }
    ∷ []

abbrev pub auth_tables : List SuiteTable
auth_tables =
    record { oui = ms_oui; names = ms_auths }
    ∷ record { oui = ieee80211_oui; names = ieee80211_auths }
    ∷ record { oui = wfa_oui; names = wfa_auths }
    ∷ []

-- "%.02x-%.02x-%.02x:%d"
abbrev pub raw_suite : ℕ → ℕ → ℕ → ℕ → Out
raw_suite a b c d =
    hex2 a ∷ str (codes "-") ∷ hex2 b ∷ str (codes "-") ∷ hex2 c ∷ str (codes ":") ∷ dec d ∷ []

-- The `switch`, with `raw` for its default.
abbrev pub switch_name : ℕ → List (ℕ × Bytes) → Out → Out
switch_name d [] raw = raw
switch_name d ((k, name) ∷ names) raw = if d == k then str name ∷ [] else switch_name d names raw

-- The chain of `memcmp`.
unfoldable pub suite_name : List SuiteTable → ℕ → ℕ → ℕ → ℕ → Out
suite_name [] a b c d = raw_suite a b c d
suite_name (t ∷ ts) a b c d =
    if is_oui t.oui a b c then switch_name d t.names (raw_suite a b c d) else suite_name ts a b c d

-- The four bytes at `i`, printed by such a table.
abbrev pub print_suite : List SuiteTable → Bytes → ℕ → Printed
print_suite tables bytes i = byte bytes i (λ a.
    byte bytes (i + 1)
      (λ b. byte bytes (i + 2) (λ c. byte bytes (i + 3) (λ d. some (suite_name tables a b c d)))))

abbrev pub print_cipher : Bytes → ℕ → Printed
print_cipher = print_suite cipher_tables

abbrev pub print_auth : Bytes → ℕ → Printed
print_auth = print_suite auth_tables
