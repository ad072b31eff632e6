-- ===== src/Scan/Operation.antt =====
-- Printers of wifi/iw/scan.c on the operation of a cell, from `print_measurement_pilot_tx` to `print_mesh_conf`,
-- and `print_wifi_wmm`.
pub mod Classes
mod Cell
unfoldable pub use Cell.*
use nl.Base.{
  ◌||◌, drop, take, ℕ, zero, suc, ◌+◌, ◌*◌, ◌-◌, ◌/◌, ◌%◌, ◌^◌, ◌&&◌, not, Bytes, Option, none,
  some, List, [], ◌∷◌, ◌++◌, length, codes, ltb, ◌==◌, if◌then◌else◌, get_elem?,
}
use nl.Base.Int.{ℤ, pos, negsuc}
use nl.Base.Bits.{test_bit}
use nl.Print.{str, dec, sdec, hex2, hex, Out, Printed, ◌&◌, byte, word, skip, hex_list}
use nl.Scan.Interworking.{flag_line}
use nl.Scan.Operation.Cell.{
  dec_line, with_name, power_names, half_power, power_line, power_loop, print_tx_power_envelope,
  ht_secondary_offset, protection, sta_chan_width, bit, ht_op_text, print_ht_op, octets_text,
  print_tim, print_ibssatim, chandwidths, print_vht_oper, extensions, classes,
  print_supp_op_classes,
}

abbrev pub vendor_text : ℕ → ℕ → ℕ → Bytes → Out
vendor_text a b c rest =
    (str (codes "\t\t * vendor specific: OUI ")
      ∷ hex2 a
      ∷ str (codes ":")
      ∷ hex2 b
      ∷ str (codes ":")
      ∷ hex2 c
      ∷ str (codes ", data:")
      ∷ hex_list (codes " ") rest)
    ++ (str (codes "\n") ∷ [])

abbrev pub pilot_text : Bytes → ℕ → Printed
pilot_text rest size =
    byte rest 0 (λ a.
      byte rest 1 (λ b. byte rest 2 (λ c. some (vendor_text a b c (drop 3 (take size rest))))))

-- The subelements of a measurement pilot, on fuel: each takes at least five bytes.
unfoldable pub pilot_loop : (fuel : ℕ) → Bytes → Printed
pilot_loop zero bytes = none
pilot_loop (suc fuel) bytes =
    if ltb (length bytes) 5
    then some []
    else byte bytes 0 (λ subelement_id. byte bytes 1 (λ size. skip 2 bytes (λ rest.
      if not (subelement_id == 221)
      then some (dec_line (codes "\t\t * <Invalid subelement ID ") subelement_id (codes ">\n"))
      else if ltb size 3 || ltb (length rest) size
      then some (str (codes " <Parse error, element too short>\n") ∷ [])
      else pilot_text rest size & skip size rest (pilot_loop fuel))))

unfoldable pub print_measurement_pilot_tx : Bytes → Printed
print_measurement_pilot_tx bytes = byte bytes 0 (λ interval.
    some (dec_line (codes "\n\t\t * interval: ") interval (codes " TUs\n"))
    & skip 1 bytes (pilot_loop (length bytes)))

abbrev pub obss_line : Bytes → ℕ → Bytes → (ℕ → Out) → Printed
obss_line bytes i label value = word bytes i (λ v. some (str label ∷ value v))

abbrev pub number_and : Bytes → ℕ → Out
number_and after v = dec v ∷ str after ∷ []

-- "%d.%02d %%", of a value in hundredths; the second number is below 100.
abbrev pub hundredths : ℕ → Out
hundredths v =
    dec (v / 100) ∷ str (codes ".") ∷ dec (v % 100 / 10) ∷ dec (v % 10) ∷ str (codes " %\n") ∷ []

unfoldable pub print_obss_scan_params : Bytes → Printed
print_obss_scan_params bytes =
    obss_line bytes 0 (codes "\n\t\t * passive dwell: ") (number_and (codes " TUs\n"))
    & obss_line bytes 2 (codes "\t\t * active dwell: ") (number_and (codes " TUs\n"))
    & obss_line bytes 4 (codes "\t\t * channel width trigger scan interval: ")
        (number_and (codes " s\n"))
    & obss_line bytes 6 (codes "\t\t * scan passive total per channel: ")
        (number_and (codes " TUs\n"))
    & obss_line bytes 8 (codes "\t\t * scan active total per channel: ")
        (number_and (codes " TUs\n"))
    & obss_line bytes 10 (codes "\t\t * BSS width channel transition delay factor: ")
        (number_and (codes "\n"))
    & obss_line bytes 12 (codes "\t\t * OBSS Scan Activity Threshold: ") hundredths

unfoldable pub print_secchan_offs : Bytes → Printed
print_secchan_offs bytes = byte bytes 0 (λ v. some (
    if ltb v 4
    then str (codes " ") ∷ str (ht_secondary_offset v) ∷ dec_line (codes " (") v (codes ")\n")
    else dec_line (codes " ") v (codes "\n")))

unfoldable pub print_bss_load : Bytes → Printed
print_bss_load bytes =
    obss_line bytes 0 (codes "\n\t\t * station count: ") (number_and (codes "\n"))
    & byte bytes 2 (λ v. some (dec_line (codes "\t\t * channel utilisation: ") v (codes "/255\n")))
    & obss_line bytes 3 (codes "\t\t * available admission capacity: ")
        (number_and (codes " [*32us]\n"))

abbrev pub mesh_text : ℕ → ℕ → Out
mesh_text f g =
    dec_line (codes "\t\t * Mesh Formation Info:\n\t\t\t Number of Peerings: ") (f / 2 % 64)
      (codes "\n")
    ++ (flag_line f 0 (codes "\t\t\t Connected to Mesh Gate\n")
        ++ (flag_line f 7 (codes "\t\t\t Connected to AS\n")
            ++ ((str (codes "\t\t * Mesh Capability\n") ∷ [])
                ++ (flag_line g 0 (codes "\t\t\t Accepting Additional Mesh Peerings\n")
                    ++ (flag_line g 1 (codes "\t\t\t MCCA Supported\n")
                        ++ (flag_line g 2 (codes "\t\t\t MCCA Enabled\n")
                            ++ (flag_line g 3 (codes "\t\t\t Forwarding\n")
                                ++ (flag_line g 4 (codes "\t\t\t MBCA Supported\n")
                                    ++ (flag_line g 5 (codes "\t\t\t TBTT Adjusting\n")
                                        ++ flag_line g 6
                                            (codes "\t\t\t Mesh Power Save Level\n"))))))))))

abbrev pub byte_line : Bytes → ℕ → Bytes → Printed
byte_line bytes i label = byte bytes i (λ v. some (dec_line label v (codes "\n")))

unfoldable pub print_mesh_conf : Bytes → Printed
print_mesh_conf bytes =
    byte_line bytes 0 (codes "\n\t\t * Active Path Selection Protocol ID: ")
    & byte_line bytes 1 (codes "\t\t * Active Path Selection Metric ID: ")
    & byte_line bytes 2 (codes "\t\t * Congestion Control Mode ID: ")
    & byte_line bytes 3 (codes "\t\t * Synchronization Method ID: ")
    & byte_line bytes 4 (codes "\t\t * Authentication Protocol ID: ")
    & byte bytes 5 (λ f. byte bytes 6 (λ g. some (mesh_text f g)))

abbrev pub aci_tbl : ℕ → Bytes
aci_tbl v =
    if v == 0
    then codes "BE"
    else if v == 1
    then codes "BK"
    else if v == 2
    then codes "VI"
    else codes "VO"

abbrev pub aci_text : ℕ → ℕ → ℕ → ℕ → Out
aci_text a b c d =
    (str (codes "\n\t\t * ") ∷ str (aci_tbl (a / 32 % 4)) ∷ str (codes ":") ∷ [])
    ++ (flag_line a 4 (codes " acm")
        ++ ((str (codes " CW ")
              ∷ dec (2 ^ (b % 16) - 1)
              ∷ str (codes "-")
              ∷ dec (2 ^ (b / 16) - 1)
              ∷ str (codes ", AIFSN ")
              ∷ dec (a % 16)
              ∷ [])
            ++ (if c == 0 && d == 0
                then []
                else dec_line (codes ", TXOP ") ((c + 256 * d) * 32) (codes " usec"))))

-- `for (i = 0; i < 4; i++)` over four bytes each, from `at` on.
unfoldable pub aci_loop : Bytes → (rounds at : ℕ) → Printed
aci_loop bytes zero at = some []
aci_loop bytes (suc rounds) at =
    byte bytes at (λ a.
      byte bytes (at + 1)
        (λ b. byte bytes (at + 2) (λ c. byte bytes (at + 3) (λ d. some (aci_text a b c d)))))
    & aci_loop bytes rounds (at + 4)

-- `print_wifi_wmm_param`, and behind it, if it returned false, the bytes of `print_wifi_wmm`.
abbrev pub wmm_bytes : Bytes → Printed
wmm_bytes bytes = some (hex_list (codes " ") bytes) & some (str (codes "\n") ∷ [])

unfoldable pub print_wifi_wmm_param : Bytes → Printed
print_wifi_wmm_param bytes =
    if ltb (length bytes) 19
    then some (str (codes "invalid: ") ∷ []) & wmm_bytes bytes
    else byte bytes 0 (λ version.
      if not (version == 1)
      then some (str (codes "Parameter: not version 1: ") ∷ []) & wmm_bytes bytes
      else byte bytes 1 (λ flags.
        some (str (codes "\t * Parameter version 1") ∷ flag_line flags 7 (codes "\n\t\t * u-APSD"))
        & aci_loop bytes 4 3
        & some (str (codes "\n") ∷ [])))

unfoldable pub print_wifi_wmm : Bytes → Printed
print_wifi_wmm bytes = byte bytes 0 (λ type.
    if type == 0
    then some (str (codes " information:") ∷ []) & skip 1 bytes wmm_bytes
    else if type == 1
    then skip 1 bytes print_wifi_wmm_param
    else some (dec_line (codes " type ") type (codes ":")) & skip 1 bytes wmm_bytes)
