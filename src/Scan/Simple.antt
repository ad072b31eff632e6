-- ===== src/Scan/Simple.antt =====
-- Printers of wifi/iw/scan.c from `print_ssid` to `print_ap_channel_report`, two for vendor elements, and `print_ssid_escaped` of
-- wifi/iw/util.c. `bytes` is `data` with its length `len`.
pub mod Ssid
use nl.Base.{
  none, Option, take, ℕ, ◌+◌, ◌*◌, ◌-◌, ◌/◌, ◌%◌, not, ◌&&◌, Bytes, some, List, [], ◌∷◌, ◌++◌,
  length, codes, ltb, leb, ◌==◌, if◌then◌else◌,
}
use nl.Base.Int.{ℤ, pos, negsuc, sub_ℕ}
use nl.Base.Bits.{test_bit}
use nl.Libc.{is_print, hex02}
use nl.Util.Mac.{mac_addr_n2a}
use nl.Print.{str, dec, sdec, hex2, Out, Printed, ◌&◌, byte, skip}

-- The escaped text of byte `i` out of `len`.
abbrev pub ssid_char : ℕ → ℕ → ℕ → Bytes
ssid_char len i c =
    if is_print c && not (c == b' ') && not (c == b'\\')
    then c ∷ []
    else if c == b' ' && not (i == 0) && not (i == len - 1)
    then b' ' ∷ []
    else codes "\\x" ++ hex02 c

unfoldable pub ssid_loop : (len i : ℕ) → Bytes → Bytes
ssid_loop len i [] = []
ssid_loop len i (c ∷ cs) = ssid_char len i c ++ ssid_loop len (i + 1) cs

unfoldable pub print_ssid_escaped : Bytes → Bytes
print_ssid_escaped bytes = ssid_loop (length bytes) 0 bytes

abbrev pub print_ssid : Bytes → Printed
print_ssid bytes = some (str (codes " ") ∷ str (print_ssid_escaped bytes) ∷ str (codes "\n") ∷ [])

-- One rate; 126 and 127 with the bit 0x80 are membership selectors.
abbrev pub rate_text : ℕ → Out
rate_text b =
    (if b % 128 == 126 && test_bit b 7
      then str (codes "VHT") ∷ []
      else if b % 128 == 127 && test_bit b 7
      then str (codes "HT") ∷ []
      else dec (b % 128 / 2) ∷ str (codes ".") ∷ dec (5 * (b % 128 % 2)) ∷ [])
    ++ (if test_bit b 7 then str (codes "* ") ∷ [] else str (codes " ") ∷ [])

abbrev pub rates_text : Bytes → Out
rates_text [] = []
rates_text (b ∷ bs) = rate_text b ++ rates_text bs

abbrev pub print_supprates : Bytes → Printed
print_supprates bytes = some ((str (codes " ") ∷ rates_text bytes) ++ (str (codes "\n") ∷ []))

abbrev pub rm_capabilities : List (ℕ × Bytes)
rm_capabilities =
    (0, codes "Link Measurement")
    ∷ (1, codes "Neighbor Report")
    ∷ (2, codes "Parallel Measurements")
    ∷ (3, codes "Repeated Measurements")
    ∷ (4, codes "Beacon Passive Measurement")
    ∷ (5, codes "Beacon Active Measurement")
    ∷ (6, codes "Beacon Table Measurement")
    ∷ (7, codes "Beacon Measurement Reporting Conditions")
    ∷ (8, codes "Frame Measurement")
    ∷ (9, codes "Channel Load")
    ∷ (10, codes "Noise Histogram Measurement")
    ∷ (11, codes "Statistics Measurement")
    ∷ (12, codes "LCI Measurement")
    ∷ (13, codes "LCI Azimuth")
    ∷ (14, codes "Transmit Stream/Category Measurement")
    ∷ (15, codes "Triggered Transmit Stream/Category")
    ∷ (16, codes "AP Channel Report")
    ∷ (17, codes "RM MIB Capability")
    ∷ (27, codes "Measurement Pilot Transmission Information")
    ∷ (28, codes "Neighbor Report TSF Offset")
    ∷ (29, codes "RCPI Measurement")
    ∷ (30, codes "RSNI Measurement")
    ∷ (31, codes "BSS Average Access Delay")
    ∷ (32, codes "BSS Available Admission")
    ∷ (33, codes "Antenna")
    ∷ (34, codes "FTM Range Report")
    ∷ (35, codes "Civic Location Measurement")
    ∷ []

abbrev pub flag_lines : ℕ → List (ℕ × Bytes) → Out
flag_lines capa [] = []
flag_lines capa ((bit, text) ∷ rest) =
    (if test_bit capa bit then str (codes "\t\t\t") ∷ str text ∷ str (codes "\n") ∷ [] else [])
    ++ flag_lines capa rest

abbrev pub rm_text : ℕ → ℕ → ℕ → ℕ → ℕ → Out
rm_text a b c d e =
    (str (codes "\n\t\tCapabilities: 0x")
      ∷ hex2 a
      ∷ str (codes " 0x")
      ∷ hex2 b
      ∷ str (codes " 0x")
      ∷ hex2 c
      ∷ str (codes " 0x")
      ∷ hex2 d
      ∷ str (codes " 0x")
      ∷ hex2 e
      ∷ str (codes "\n")
      ∷ [])
    ++ (flag_lines (a + 256 * (b + 256 * (c + 256 * (d + 256 * e)))) rm_capabilities
        ++ (str (codes "\t\tNonoperating Channel Max Measurement Duration: ")
            ∷ dec (d / 32)
            ∷ str (codes "\n\t\tMeasurement Pilot Capability: ")
            ∷ dec (e % 8)
            ∷ str (codes "\n")
            ∷ []))

unfoldable pub print_rm_enabled_capabilities : Bytes → Printed
print_rm_enabled_capabilities bytes = byte bytes 0 (λ a.
    byte bytes 1
      (λ b. byte bytes 2 (λ c. byte bytes 3 (λ d. byte bytes 4 (λ e. some (rm_text a b c d e))))))

unfoldable pub print_ds : Bytes → Printed
print_ds bytes = byte bytes 0 (λ c. some (str (codes " channel ") ∷ dec c ∷ str (codes "\n") ∷ []))

abbrev pub country_env_str : ℕ → Bytes
country_env_str environment =
    if environment == b'I'
    then codes "Indoor only"
    else if environment == b'O'
    then codes "Outdoor only"
    else if environment == b' '
    then codes "Indoor/Outdoor"
    else codes "bogus"

-- A `__s8`.
abbrev pub signed_byte : ℕ → ℤ
signed_byte b = if ltb b 128 then pos b else negsuc (255 - b)

-- One triplet: an extension, or channels; those above 14 are four apart.
abbrev pub triplet_text : ℕ → ℕ → ℕ → Out
triplet_text a b c =
    if leb 201 a
    then str (codes "\t\tExtension ID: ")
      ∷ dec a
      ∷ str (codes " Regulatory Class: ")
      ∷ dec b
      ∷ str (codes " Coverage class: ")
      ∷ dec c
      ∷ str (codes " (up to ")
      ∷ dec (c * 450)
      ∷ str (codes "m)\n")
      ∷ []
    else str (codes "\t\tChannels [")
      ∷ dec a
      ∷ str (codes " - ")
      ∷ sdec (if leb a 14 then sub_ℕ (a + b) 1 else sub_ℕ (a + 4 * b) 4)
      ∷ str (codes "] @ ")
      ∷ sdec (signed_byte c)
      ∷ str (codes " dBm\n")
      ∷ []

-- The loop, which takes three bytes at a time; one or two left over are ignored.
unfoldable pub triplets : Bytes → Out
triplets (a ∷ b ∷ c ∷ rest) = triplet_text a b c ++ triplets rest
triplets _ = []

abbrev pub triplets_or_none : Bytes → Printed
triplets_or_none bytes =
    if ltb (length bytes) 3
    then some (str (codes "\t\tNo country IE triplets present\n") ∷ [])
    else some (triplets bytes)

-- "%.*s" with two characters stops at a NUL.
abbrev pub two_chars : ℕ → ℕ → Bytes
two_chars a b = if a == 0 then [] else if b == 0 then a ∷ [] else a ∷ b ∷ []

unfoldable pub print_country : Bytes → Printed
print_country bytes = byte bytes 0 (λ a. byte bytes 1 (λ b. byte bytes 2 (λ env.
    some (
      str (codes " ")
      ∷ str (two_chars a b)
      ∷ str (codes "\tEnvironment: ")
      ∷ str (country_env_str env)
      ∷ str (codes "\n")
      ∷ [])
    & skip 3 bytes triplets_or_none)))

unfoldable pub print_powerconstraint : Bytes → Printed
print_powerconstraint bytes =
    byte bytes 0 (λ v. some (str (codes " ") ∷ dec v ∷ str (codes " dB\n") ∷ []))

unfoldable pub print_tpcreport : Bytes → Printed
print_tpcreport bytes =
    byte bytes 0 (λ v. some (str (codes " TX power: ") ∷ dec v ∷ str (codes " dBm\n") ∷ []))

abbrev pub erp_text : ℕ → Out
erp_text v =
    (if v == 0 then str (codes " <no flags>") ∷ [] else [])
    ++ ((if test_bit v 0 then str (codes " NonERP_Present") ∷ [] else [])
        ++ ((if test_bit v 1 then str (codes " Use_Protection") ∷ [] else [])
            ++ ((if test_bit v 2 then str (codes " Barker_Preamble_Mode") ∷ [] else [])
                ++ (str (codes "\n") ∷ []))))

unfoldable pub print_erp : Bytes → Printed
print_erp bytes = byte bytes 0 (λ v. some (erp_text v))

abbrev pub dec_list : Bytes → Out
dec_list [] = []
dec_list (b ∷ bs) = str (codes " ") ∷ dec b ∷ dec_list bs

abbrev pub channels_text : ℕ → Bytes → Printed
channels_text oper_class channels = some (
    (str (codes "\n\t\t * operating class: ")
      ∷ dec oper_class
      ∷ str (codes "\n\t\t * channel(s):")
      ∷ dec_list channels)
    ++ (str (codes "\n") ∷ []))

unfoldable pub print_ap_channel_report : Bytes → Printed
print_ap_channel_report bytes = byte bytes 0 (λ oper_class. skip 1 bytes (channels_text oper_class))

unfoldable pub print_hs20_ind : Bytes → Printed
print_hs20_ind bytes =
    some (str (codes "\n") ∷ [])
    & (if ltb 0 (length bytes)
        then byte bytes 0
            (λ v. some (str (codes "\t\tDGAF: ") ∷ dec (v % 2) ∷ str (codes "\n") ∷ []))
        else some
            (str (codes "\t\tUnexpected length: ") ∷ dec (length bytes) ∷ str (codes "\n") ∷ []))

-- What `mac_addr_n2a` put into its buffer.
abbrev pub bssid_text : Option Bytes → Printed
bssid_text none = none
bssid_text (some text) = some (str (codes "\t\tBSSID: ") ∷ str text ∷ str (codes "\n") ∷ [])

-- The SSID behind the address, and two bytes behind it if they are there.
abbrev pub owe_ssid : Bytes → ℕ → Printed
owe_ssid bytes ssid_len =
    if ltb (length bytes - 7) ssid_len
    then some []
    else skip 7 bytes (λ rest. some (
        str (codes "\t\tSSID: ")
        ∷ str (print_ssid_escaped (take ssid_len rest))
        ∷ str (codes "\n")
        ∷ []))
      & (if ltb (length bytes) (ssid_len + 9)
          then some []
          else byte bytes (ssid_len + 7)
              (λ band. some (str (codes "\t\tBand Info: ") ∷ dec band ∷ str (codes "\n") ∷ []))
            & byte bytes (ssid_len + 8) (λ channel.
              some (str (codes "\t\tChannel Info: ") ∷ dec channel ∷ str (codes "\n") ∷ [])))

unfoldable pub print_wifi_owe_tarns : Bytes → Printed
print_wifi_owe_tarns bytes =
    some (str (codes "\n") ∷ [])
    & (if ltb (length bytes) 7
        then some []
        else bssid_text (mac_addr_n2a bytes) & byte bytes 6 (owe_ssid bytes))
