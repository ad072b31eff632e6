-- ===== src/Scan/Interworking.antt =====
-- The printers of wifi/iw/scan.c for 802.11u.
use nl.Base.{
  ℕ, zero, suc, ◌+◌, ◌-◌, ◌/◌, ◌%◌, ◌||◌, Bytes, some, List, [], ◌∷◌, ◌++◌, length, codes, ltb, leb,
  ◌==◌, if◌then◌else◌,
}
use nl.Base.Bits.{test_bit}
use nl.Print.{str, dec, hex2, hex, Out, Printed, ◌&◌, byte}

abbrev pub name_of : ℕ → List (ℕ × Bytes) → Bytes → Bytes
name_of v [] other = other
name_of v ((k, name) ∷ names) other = if v == k then name else name_of v names other

abbrev pub ntype_11u : ℕ → Bytes
ntype_11u t =
    name_of t
      ((0, codes "Private")
        ∷ (1, codes "Private with Guest")
        ∷ (2, codes "Chargeable Public")
        ∷ (3, codes "Free Public")
        ∷ (4, codes "Personal Device")
        ∷ (5, codes "Emergency Services Only")
        ∷ (14, codes "Test or Experimental")
        ∷ (15, codes "Wildcard")
        ∷ [])
      (codes "Reserved")

abbrev pub vgroup_11u : ℕ → Bytes
vgroup_11u t =
    name_of t
      ((0, codes "Unspecified")
        ∷ (1, codes "Assembly")
        ∷ (2, codes "Business")
        ∷ (3, codes "Educational")
        ∷ (4, codes "Factory and Industrial")
        ∷ (5, codes "Institutional")
        ∷ (6, codes "Mercantile")
        ∷ (7, codes "Residential")
        ∷ (8, codes "Storage")
        ∷ (9, codes "Utility and Miscellaneous")
        ∷ (10, codes "Vehicular")
        ∷ (11, codes "Outdoor")
        ∷ [])
      (codes "Reserved")

abbrev pub flag_line : ℕ → ℕ → Bytes → Out
flag_line v bit text = if test_bit v bit then str text ∷ [] else []

abbrev pub network_options : ℕ → Out
network_options ano =
    (str (codes "\t\tNetwork Options: 0x")
      ∷ hex ano
      ∷ str (codes "\n\t\t\tNetwork Type: ")
      ∷ dec (ano % 16)
      ∷ str (codes " (")
      ∷ str (ntype_11u (ano % 16))
      ∷ str (codes ")\n")
      ∷ [])
    ++ (flag_line ano 4 (codes "\t\t\tInternet\n")
        ++ (flag_line ano 5 (codes "\t\t\tASRA\n")
            ++ (flag_line ano 6 (codes "\t\t\tESR\n") ++ flag_line ano 7 (codes "\t\t\tUESA\n"))))

-- "%02hhx:…" on six bytes from `i` on.
unfoldable pub hessid : Bytes → ℕ → Printed
hessid bytes i = byte bytes i (λ a. byte bytes (i + 1) (λ b. byte bytes (i + 2) (λ c.
    byte bytes (i + 3) (λ d. byte bytes (i + 4) (λ e. byte bytes (i + 5) (λ f. some (
      str (codes "\t\tHESSID: ")
      ∷ hex2 a
      ∷ str (codes ":")
      ∷ hex2 b
      ∷ str (codes ":")
      ∷ hex2 c
      ∷ str (codes ":")
      ∷ hex2 d
      ∷ str (codes ":")
      ∷ hex2 e
      ∷ str (codes ":")
      ∷ hex2 f
      ∷ str (codes "\n")
      ∷ [])))))))

abbrev pub venue_text : ℕ → ℕ → Out
venue_text group type =
    str (codes "\t\tVenue Group: ")
    ∷ dec group
    ∷ str (codes " (")
    ∷ str (vgroup_11u group)
    ∷ str (codes ")\n\t\tVenue Type: ")
    ∷ dec type
    ∷ str (codes "\n")
    ∷ []

unfoldable pub print_interworking : Bytes → Printed
print_interworking bytes =
    some (str (codes "\n") ∷ [])
    & (if leb 1 (length bytes) then byte bytes 0 (λ ano. some (network_options ano)) else some [])
    & (if length bytes == 3 || length bytes == 9
        then byte bytes 1 (λ group. byte bytes 2 (λ type. some (venue_text group type)))
        else some [])
    & (if length bytes == 9
        then hessid bytes 3
        else if length bytes == 7
        then hessid bytes 1
        else some [])

abbrev pub protocol_text : ℕ → Out
protocol_text proto_id =
    if proto_id == 0
    then str (codes "\t\t\tANQP\n") ∷ []
    else if proto_id == 1
    then str (codes "\t\t\tMIH Information Service\n") ∷ []
    else if proto_id == 2
    then str (codes "\t\t\tMIH Command and Event Services Capability Discovery\n") ∷ []
    else if proto_id == 3
    then str (codes "\t\t\tEmergency Alert System (EAS)\n") ∷ []
    else if proto_id == 221
    then str (codes "\t\t\tVendor Specific\n") ∷ []
    else str (codes "\t\t\tReserved: ") ∷ dec proto_id ∷ str (codes "\n") ∷ []

abbrev pub query_text : ℕ → ℕ → Out
query_text qri proto_id =
    (str (codes "\t\tQuery Response Info: 0x")
      ∷ hex qri
      ∷ str (codes "\n\t\t\tQuery Response Length Limit: ")
      ∷ dec (qri % 128)
      ∷ str (codes "\n")
      ∷ [])
    ++ (flag_line qri 7 (codes "\t\t\tPAME-BI\n") ++ protocol_text proto_id)

-- The loop, two bytes at a time, while `idx < len - 1`.
unfoldable pub advert_loop : Bytes → Out
advert_loop (qri ∷ proto_id ∷ rest) = query_text qri proto_id ++ advert_loop rest
advert_loop _ = []

abbrev pub print_11u_advert : Bytes → Printed
print_11u_advert bytes = some (str (codes "\n") ∷ advert_loop bytes)

-- `count` bytes from `i` on, by "%02hhx".
unfoldable pub hex_loop : Bytes → (count i : ℕ) → Printed
hex_loop bytes zero i = some []
hex_loop bytes (suc count) i = byte bytes i (λ v. some (hex2 v ∷ [])) & hex_loop bytes count (i + 1)

-- One organisation identifier, of `count` bytes from `i` on.
unfoldable pub oi_text : Bytes → Bytes → (count i : ℕ) → Printed
oi_text bytes label count i =
    if count == 0
    then some []
    else some (str label ∷ [])
      & (if ltb (length bytes) (i + count)
          then some (str (codes "Invalid IE length.\n") ∷ [])
          else hex_loop bytes count i & some (str (codes "\n") ∷ []))

-- The length of the third identifier. As an `int` it may be negative, and then nothing is printed.
abbrev pub third_length : ℕ → ℕ → ℕ → ℕ
third_length len ln0 ln1 = if ln1 == 0 then 0 else len - (2 + ln0 + ln1)

unfoldable pub print_11u_rcon : Bytes → Printed
print_11u_rcon bytes = byte bytes 1 (λ lengths.
    let ln0 = lengths % 16 in
    let ln1 = lengths / 16 % 16 in
    byte bytes 0 (λ count.
      some (str (codes "\n\t\tANQP OIs: ") ∷ dec count ∷ str (codes "\n") ∷ [])
      & oi_text bytes (codes "\t\tOI 1: ") ln0 2
      & oi_text bytes (codes "\t\tOI 2: ") ln1 (2 + ln0)
      & oi_text bytes (codes "\t\tOI 3: ") (third_length (length bytes) ln0 ln1) (2 + ln0 + ln1)))
