-- ===== src/Scan/Rsn.antt =====
-- `_print_rsn_ie` of wifi/iw/scan.c, a function for each part of the element. `bytes` is `data` with its
-- length `len`.
pub mod Safe
use nl.Base.{
  ℕ, zero, suc, ◌+◌, ◌*◌, ◌/◌, ◌%◌, Bool, true, false, Bytes, some, List, [], ◌∷◌, ◌++◌, length,
  codes, ltb, ◌==◌, if◌then◌else◌,
}
use nl.Base.Bits.{test_bit}
use nl.Print.{str, dec, hex4, Out, Printed, ◌&◌, word, skip, hex_list}
use nl.Scan.Suites.{SuiteTable, cipher_tables, auth_tables, print_suite, print_cipher}

abbrev pub newline : Printed
newline = some (str (codes "\n") ∷ [])

-- `tab_on_first`, by the value of `*first`.
abbrev pub tab_on_first : Bool → Printed
tab_on_first true = some []
tab_on_first false = some (str (codes "\t") ∷ [])

-- A line of one text.
abbrev pub item : Bytes → Bytes → Printed
item label text = some (str label ∷ str text ∷ str (codes "\n") ∷ [])

-- What is left behind the element, at the label `invalid` too.
abbrev pub bogus_tail : Bytes → Printed
bogus_tail [] = some []
bogus_tail (b ∷ bs) = some (
    str (codes "\t\t * bogus tail data (")
    ∷ dec (length (b ∷ bs))
    ∷ str (codes "):")
    ∷ (hex_list (codes " ") (b ∷ bs) ++ (str (codes "\n") ∷ [])))

unfoldable pub group_mgmt : Bytes → Printed
group_mgmt bytes =
    if ltb (length bytes) 4
    then bogus_tail bytes
    else tab_on_first false
      & some (str (codes "\t * Group mgmt cipher suite: ") ∷ [])
      & print_cipher bytes 0
      & newline
      & skip 4 bytes bogus_tail

unfoldable pub pmkids : Bytes → Printed
pmkids bytes =
    if ltb (length bytes) 2
    then group_mgmt bytes
    else word bytes 0 (λ pmkid_count.
      if ltb (length bytes) (2 + 16 * pmkid_count)
      then bogus_tail bytes
      else tab_on_first false
        & some (str (codes "\t * ") ∷ dec pmkid_count ∷ str (codes " PMKIDs\n") ∷ [])
        & skip (2 + 16 * pmkid_count) bytes group_mgmt)

-- A bit of the capabilities and its text.
abbrev pub flag_text : ℕ → ℕ → Bytes → Out
flag_text capa bit text = if test_bit capa bit then str text ∷ [] else []

-- `switch ((capa & 3 << shift) >> shift)`
abbrev pub counter_text : ℕ → Bytes → Bytes → Bytes → Bytes → Out
counter_text v one two four sixteen =
    if v == 0
    then str one ∷ []
    else if v == 1
    then str two ∷ []
    else if v == 2
    then str four ∷ []
    else str sixteen ∷ []

abbrev pub capabilities : ℕ → Out
capabilities capa =
    (str (codes "\t * Capabilities:") ∷ [])
    ++ (flag_text capa 0 (codes " PreAuth")
        ++ (flag_text capa 1 (codes " NoPairwise")
            ++ (counter_text (capa / 4 % 4) (codes " 1-PTKSA-RC") (codes " 2-PTKSA-RC")
                  (codes " 4-PTKSA-RC") (codes " 16-PTKSA-RC")
                ++ (counter_text (capa / 16 % 4) (codes " 1-GTKSA-RC") (codes " 2-GTKSA-RC")
                      (codes " 4-GTKSA-RC") (codes " 16-GTKSA-RC")
                    ++ (flag_text capa 6 (codes " MFP-required")
                        ++ (flag_text capa 7 (codes " MFP-capable")
                            ++ (flag_text capa 9 (codes " Peerkey-enabled")
                                ++ (flag_text capa 10 (codes " SPP-AMSDU-capable")
                                    ++ (flag_text capa 11 (codes " SPP-AMSDU-required")
                                        ++ (flag_text capa 13 (codes " Extended-Key-ID")
                                            ++ (str (codes " (0x")
                                                ∷ hex4 capa
                                                ∷ str (codes ")\n")
                                                ∷ [])))))))))))

unfoldable pub rsn_capa : Bytes → Printed
rsn_capa bytes =
    if ltb (length bytes) 2
    then pmkids bytes
    else word bytes 0 (λ capa. tab_on_first false & some (capabilities capa) & skip 2 bytes pmkids)

-- `for (i = 0; i < count; i++)` over suites, by the rounds left.
unfoldable pub suite_loop : List SuiteTable → Bytes → (rounds i : ℕ) → Printed
suite_loop tables bytes zero i = some []
suite_loop tables bytes (suc rounds) i =
    some (str (codes " ") ∷ [])
    & print_suite tables bytes (2 + i * 4)
    & suite_loop tables bytes rounds (i + 1)

-- A list of suites with its count, or the default; then `next` on what follows.
unfoldable pub suite_list : List SuiteTable → Bytes → Bytes → Bytes → (Bytes → Printed) → Printed
suite_list tables label default bytes next =
    if ltb (length bytes) 2
    then tab_on_first false & item (label ++ codes " ") default
    else word bytes 0 (λ count.
      if ltb (length bytes) (2 + count * 4)
      then bogus_tail bytes
      else tab_on_first false
        & some (str label ∷ [])
        & suite_loop tables bytes count 0
        & newline
        & skip (2 + count * 4) bytes next)

unfoldable pub auth_suites : Bytes → Bytes → Printed
auth_suites defauth bytes =
    suite_list auth_tables (codes "\t * Authentication suites:") defauth bytes rsn_capa

unfoldable pub pairwise_ciphers : Bytes → Bytes → Bytes → Printed
pairwise_ciphers defcipher defauth bytes =
    suite_list cipher_tables (codes "\t * Pairwise ciphers:") defcipher bytes (auth_suites defauth)

unfoldable pub group_cipher : Bool → Bytes → Bytes → Bytes → Printed
group_cipher first defcipher defauth bytes =
    if ltb (length bytes) 4
    then tab_on_first first
      & item (codes "\t * Group cipher: ") defcipher
      & item (codes "\t * Pairwise ciphers: ") defcipher
    else tab_on_first first
      & some (str (codes "\t * Group cipher: ") ∷ [])
      & print_cipher bytes 0
      & newline
      & skip 4 bytes (pairwise_ciphers defcipher defauth)

-- `is_osen` leaves out the version.
unfoldable pub print_rsn_element : Bytes → Bytes → Bytes → (is_osen : Bool) → Printed
print_rsn_element defcipher defauth bytes true = group_cipher true defcipher defauth bytes
print_rsn_element defcipher defauth bytes false = word bytes 0 (λ version.
    some (str (codes "\t * Version: ") ∷ dec version ∷ str (codes "\n") ∷ [])
    & skip 2 bytes (group_cipher false defcipher defauth))

abbrev pub print_rsn_ie : Bytes → Bytes → Bytes → Printed
print_rsn_ie defcipher defauth bytes = print_rsn_element defcipher defauth bytes false

abbrev pub print_osen_ie : Bytes → Bytes → Bytes → Printed
print_osen_ie defcipher defauth bytes =
    some (str (codes "\n\t") ∷ []) & print_rsn_element defcipher defauth bytes true

abbrev pub print_rsn : Bytes → Printed
print_rsn = print_rsn_ie (codes "CCMP") (codes "IEEE 802.1X")

abbrev pub print_wifi_wpa : Bytes → Printed
print_wifi_wpa = print_rsn_ie (codes "TKIP") (codes "IEEE 802.1X")

abbrev pub print_wifi_osen : Bytes → Printed
print_wifi_osen = print_osen_ie (codes "OSEN") (codes "OSEN")
