-- ===== src/Scan/Operation/Cell.antt =====
-- Printers of wifi/iw/scan.c on the operation of a cell, from `print_tx_power_envelope` to
-- `print_supp_op_classes`.
use nl.Base.{
  ℕ, zero, suc, ◌+◌, ◌-◌, ◌/◌, ◌%◌, not, Bytes, Option, none, some, List, [], ◌∷◌, ◌++◌, length,
  codes, ltb, ◌==◌, if◌then◌else◌, get_elem?,
}
use nl.Base.Int.{ℤ, pos, negsuc}
use nl.Base.Bits.{test_bit}
use nl.Print.{str, dec, sdec, hex2, hex, Out, Printed, ◌&◌, byte, word, skip}

-- A line of a number.
abbrev pub dec_line : Bytes → ℕ → Bytes → Out
dec_line before v after = str before ∷ dec v ∷ str after ∷ []

-- A name out of an array; `none` is a read behind it.
abbrev pub with_name : Option Bytes → (Bytes → Printed) → Printed
with_name none next = none
with_name (some name) next = next name

abbrev pub power_names : List Bytes
power_names =
    codes "Local Maximum Transmit Power For 20 MHz"
    ∷ codes "Local Maximum Transmit Power For 40 MHz"
    ∷ codes "Local Maximum Transmit Power For 80 MHz"
    ∷ codes "Local Maximum Transmit Power For 160/80+80 MHz"
    ∷ []

-- `((int8_t)v) >> 1`
abbrev pub half_power : ℕ → ℤ
half_power v = if ltb v 128 then pos (v / 2) else negsuc ((255 - v) / 2)

abbrev pub power_line : Bytes → ℕ → Out
power_line name v =
    str (codes "\t\t * ")
    ∷ str name
    ∷ str (codes ": ")
    ∷ sdec (half_power v)
    ∷ str (if v % 2 == 1 then codes ".5 dBm\n" else codes " dBm\n")
    ∷ []

unfoldable pub power_loop : Bytes → (rounds i : ℕ) → Printed
power_loop bytes zero i = some []
power_loop bytes (suc rounds) i =
    byte bytes (1 + i) (λ v. with_name (get_elem? power_names i) (λ name. some (power_line name v)))
    & power_loop bytes rounds (i + 1)

unfoldable pub print_tx_power_envelope : Bytes → Printed
print_tx_power_envelope bytes = byte bytes 0 (λ v.
    some (str (codes "\n") ∷ [])
    & (if not (v % 8 + 2 == length bytes)
        then some []
        else if not (v / 8 % 8 == 0)
        then some []
        else power_loop bytes (v % 8 + 1) 0))

abbrev pub ht_secondary_offset : ℕ → Bytes
ht_secondary_offset v =
    if v == 0
    then codes "no secondary"
    else if v == 1
    then codes "above"
    else if v == 2
    then codes "[reserved!]"
    else codes "below"

abbrev pub protection : ℕ → Bytes
protection v =
    if v == 0
    then codes "no"
    else if v == 1
    then codes "nonmember"
    else if v == 2
    then codes "20 MHz"
    else codes "non-HT mixed"

abbrev pub sta_chan_width : ℕ → Bytes
sta_chan_width v = if v == 0 then codes "20 MHz" else codes "any"

-- The bit `k` of `v` as a number.
abbrev pub bit : ℕ → ℕ → ℕ
bit v k = if test_bit v k then 1 else 0

abbrev pub ht_op_text : ℕ → ℕ → ℕ → ℕ → ℕ → Out
ht_op_text a b c e f =
    str (codes "\n\t\t * primary channel: ")
    ∷ dec a
    ∷ str (codes "\n\t\t * secondary channel offset: ")
    ∷ str (ht_secondary_offset (b % 4))
    ∷ str (codes "\n\t\t * STA channel width: ")
    ∷ str (sta_chan_width (bit b 2))
    ∷ str (codes "\n\t\t * RIFS: ")
    ∷ dec (bit b 3)
    ∷ str (codes "\n\t\t * HT protection: ")
    ∷ str (protection (c % 4))
    ∷ str (codes "\n\t\t * non-GF present: ")
    ∷ dec (bit c 2)
    ∷ str (codes "\n\t\t * OBSS non-GF present: ")
    ∷ dec (bit c 4)
    ∷ str (codes "\n\t\t * dual beacon: ")
    ∷ dec (bit e 6)
    ∷ str (codes "\n\t\t * dual CTS protection: ")
    ∷ dec (bit e 7)
    ∷ str (codes "\n\t\t * STBC beacon: ")
    ∷ dec (bit f 0)
    ∷ str (codes "\n\t\t * L-SIG TXOP Prot: ")
    ∷ dec (bit f 1)
    ∷ str (codes "\n\t\t * PCO active: ")
    ∷ dec (bit f 2)
    ∷ str (codes "\n\t\t * PCO phase: ")
    ∷ dec (bit f 3)
    ∷ str (codes "\n")
    ∷ []

unfoldable pub print_ht_op : Bytes → Printed
print_ht_op bytes = byte bytes 0 (λ a.
    byte bytes 1 (λ b.
      byte bytes 2 (λ c. byte bytes 4 (λ e. byte bytes 5 (λ f. some (ht_op_text a b c e f))))))

-- How many octets follow the fourth one. `len - 4` is an `int`.
abbrev pub octets_text : ℕ → Out
octets_text len =
    if len == 4
    then []
    else str (codes " (+ ")
      ∷ dec (len - 4)
      ∷ str (if len == 5 then codes " octet)" else codes " octets)")
      ∷ []

unfoldable pub print_tim : Bytes → Printed
print_tim bytes = byte bytes 0 (λ a. byte bytes 1 (λ b. byte bytes 2 (λ c. byte bytes 3 (λ d. some (
    (str (codes " DTIM Count ")
      ∷ dec a
      ∷ str (codes " DTIM Period ")
      ∷ dec b
      ∷ str (codes " Bitmap Control 0x")
      ∷ hex c
      ∷ str (codes " Bitmap[0] 0x")
      ∷ hex d
      ∷ octets_text (length bytes))
    ++ (str (codes "\n") ∷ []))))))

unfoldable pub print_ibssatim : Bytes → Printed
print_ibssatim bytes = word bytes 0 (λ v. some (dec_line (codes " ") v (codes " TUs\n")))

abbrev pub chandwidths : ℕ → Bytes
chandwidths v =
    if v == 0
    then codes "20 or 40 MHz"
    else if v == 1
    then codes "80 MHz"
    else if v == 3
    then codes "80+80 MHz"
    else if v == 2
    then codes "160 MHz"
    else codes "unknown"

unfoldable pub print_vht_oper : Bytes → Printed
print_vht_oper bytes = byte bytes 0 (λ a. byte bytes 1 (λ b. byte bytes 2 (λ c. byte bytes 4 (λ e.
    byte bytes 3 (λ d. some (
      str (codes "\n\t\t * channel width: ")
      ∷ dec a
      ∷ str (codes " (")
      ∷ str (chandwidths a)
      ∷ str (codes ")\n\t\t * center freq segment 1: ")
      ∷ dec b
      ∷ str (codes "\n\t\t * center freq segment 2: ")
      ∷ dec c
      ∷ str (codes "\n\t\t * VHT basic MCS set: 0x")
      ∷ hex2 e
      ∷ hex2 d
      ∷ str (codes "\n")
      ∷ []))))))

abbrev pub extensions : Bytes → Out
extensions [] = []
extensions (p ∷ ps) =
    dec_line (codes "\t\t * current operating class extension: ") p (codes "\n") ++ extensions ps

-- The classes up to a delimiter. Behind 130 come extensions. `zero_delimiter` is set to 0 at a zero, so
-- the loop over the tuples behind a zero is never entered.
unfoldable pub classes : Bytes → Out
classes [] = []
classes (p ∷ ps) =
    if p == 130
    then extensions ps
    else if p == 0
    then []
    else dec_line (codes "\t\t * operating class: ") p (codes "\n") ++ classes ps

unfoldable pub print_supp_op_classes : Bytes → Printed
print_supp_op_classes bytes = byte bytes 0 (λ p.
    some (dec_line (codes "\n\t\t * current operating class: ") p (codes "\n"))
    & skip 1 bytes (λ rest. some (classes rest)))
