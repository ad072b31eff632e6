-- ===== src/Scan/Elements/Safe.antt =====
-- Each call of a printer by `print_ies` is safe.
use nl.Base.{
  ℕ, ◌≤◌, Bool, true, false, ◌||◌, ◌&&◌, Bytes, Option, none, some, List, [], ◌∷◌, ◌++◌, length,
  ltb, ◌==◌, ◌≡◌, arith, All, Bool-cases, inl, inr, if◌then◌else◌,
}
use nl.Print.{Printed}
use nl.Print.Laws.{say-IsSafe, IsSafe, some-IsSafe}
use nl.Scan.Suites.{is_oui, ms_oui, wfa_oui}
use nl.Scan.Rsn.Safe.{print_rsn_element-IsSafe}
use nl.Scan.Printer.{run_printer}
use nl.Scan.Printer.Safe
use nl.Scan.Printer.Loops
use nl.Scan.Elements.{
  PrintType, IePrint, Event, shown, ieprinters, wifiprinters, wfa_printers, ext_printers, has_flag,
  find_entry, print_ie, entry_or, print_vendor, print_extension, element_or, print_element,
  print_ies,
}
use nl.Scan.Elements.Walk.{all_events, print_ies-Parts}

abbrev RunsSafely : Option (Bytes → Printed) → Bytes → Type 0
RunsSafely none bytes = Unit
RunsSafely (some f) bytes = IsSafe (f bytes)

-- A printer that is modelled has no fault on the bytes that it is called with.
abbrev pub IsSafeEvent : Event → Type 0
IsSafeEvent (shown name p bytes) = RunsSafely (run_printer p) bytes
IsSafeEvent _ = Unit

-- Such an entry calls its printer with lengths that are safe only.
abbrev IsSafeEntry : IePrint → Type 0
IsSafeEntry p =
    (bytes : Bytes)
    → p.minlen ≤ length bytes
    → length bytes ≤ p.maxlen
    → RunsSafely (run_printer p.print) bytes

infixr 5 ◌⨾◌
data SafeEntries : List IePrint → Type 0 where
  no_entries : SafeEntries []
  ◌⨾◌ : {p : IePrint} {ps : List IePrint} → IsSafeEntry p → SafeEntries ps → SafeEntries (p ∷ ps)

All-append : {A : Type 0} (P : A → Type 0) (xs ys : List A) → All P xs → All P ys → All P (xs ++ ys)
All-append P [] ys hx hy = hy
All-append P (x ∷ xs) ys hx hy = (hx.0, All-append P xs ys hx.1 hy)

ieprinters-SafeEntries : SafeEntries ieprinters
unfolding run_printer
ieprinters-SafeEntries =
    (λ b l h. some-IsSafe _)
    ⨾ (λ b l h. some-IsSafe _)
    ⨾ (λ b l h. Safe.print_ds-IsSafe b l)
    ⨾ (λ b l h. Safe.print_tim-IsSafe b l)
    ⨾ (λ b l h. Safe.print_ibssatim-IsSafe b l)
    ⨾ (λ b l h. Safe.print_country-IsSafe b l)
    ⨾ (λ b l h. Safe.print_bss_load-IsSafe b l)
    ⨾ (λ b l h. Safe.print_powerconstraint-IsSafe b l)
    ⨾ (λ b l h. Safe.print_tpcreport-IsSafe b (omega arith))
    ⨾ (λ b l h. Safe.print_erp-IsSafe b l)
    ⨾ (λ b l h. tt)
    ⨾ (λ b l h. Safe.print_erp-IsSafe b l)
    ⨾ (λ b l h. Safe.print_ap_channel_report-IsSafe b l)
    ⨾ (λ b l h. Safe.print_supp_op_classes-IsSafe b l)
    ⨾ (λ b l h. Loops.print_measurement_pilot_tx-IsSafe b l)
    ⨾ (λ b l h. Safe.print_obss_scan_params-IsSafe b l)
    ⨾ (λ b l h. Safe.print_ht_op-IsSafe b l)
    ⨾ (λ b l h. Safe.print_secchan_offs-IsSafe b l)
    ⨾ (λ b l h. tt)
    ⨾ (λ b l h. Safe.print_vht_oper-IsSafe b l)
    ⨾ (λ b l h. print_rsn_element-IsSafe _ _ b false l)
    ⨾ (λ b l h. some-IsSafe _)
    ⨾ (λ b l h. Safe.print_rm_enabled_capabilities-IsSafe b l)
    ⨾ (λ b l h. Safe.print_mesh_conf-IsSafe b l)
    ⨾ (λ b l h. some-IsSafe _)
    ⨾ (λ b l h. tt)
    ⨾ (λ b l h. Loops.print_interworking-IsSafe b)
    ⨾ (λ b l h. some-IsSafe _)
    ⨾ (λ b l h. Loops.print_11u_rcon-IsSafe b l)
    ⨾ (λ b l h. Loops.print_tx_power_envelope-IsSafe b l h)
    ⨾ no_entries

wifiprinters-SafeEntries : SafeEntries wifiprinters
unfolding run_printer
wifiprinters-SafeEntries =
    (λ b l h. print_rsn_element-IsSafe _ _ b false l)
    ⨾ (λ b l h. Loops.print_wifi_wmm-IsSafe b l)
    ⨾ (λ b l h. tt)
    ⨾ no_entries

wfa_printers-SafeEntries : SafeEntries wfa_printers
unfolding run_printer
wfa_printers-SafeEntries =
    (λ b l h. tt)
    ⨾ (λ b l h. Safe.print_hs20_ind-IsSafe b)
    ⨾ (λ b l h. say-IsSafe _ _ (print_rsn_element-IsSafe _ _ b true (omega arith)))
    ⨾ (λ b l h. Loops.print_wifi_owe_tarns-IsSafe b l)
    ⨾ no_entries

ext_printers-SafeEntries : SafeEntries ext_printers
unfolding run_printer
ext_printers-SafeEntries = (λ b l h. tt) ⨾ no_entries

abbrev IsSafeFound : Option IePrint → Type 0
IsSafeFound none = Unit
IsSafeFound (some p) = IsSafeEntry p

find_entry-IsSafeFound :
    (ptype : PrintType) (tag : ℕ) (ps : List IePrint)
    → SafeEntries ps
    → IsSafeFound (find_entry ptype tag ps)
unfolding find_entry
find_entry-IsSafeFound ptype tag [] no_entries = tt
find_entry-IsSafeFound ptype tag (p ∷ ps) (h ⨾ hs) =
    elim (Bool-cases (p.tag == tag && has_flag ptype p)) [
      | inl found ↦ rw found h
      | inr other ↦ rw other (find_entry-IsSafeFound ptype tag ps hs)
    ]

print_ie-IsSafeEvent :
    (p : IePrint) (bytes : Bytes) → IsSafeEntry p → All IsSafeEvent (print_ie p bytes)
unfolding print_ie
print_ie-IsSafeEvent p bytes safe =
    elim (Bool-cases (ltb (length bytes) p.minlen || ltb p.maxlen (length bytes))) [
      | inl bad ↦ rw bad (tt, tt)
      | inr fits ↦ rw fits (safe bytes (ground arith) (ground arith), tt)
    ]

abbrev IsLine : Event → Type 0
IsLine e = All IsSafeEvent (e ∷ [])

if_unknown :
    (unknown : Bool) (line : Event)
    → IsLine line
    → All IsSafeEvent (if unknown then line ∷ [] else [])
if_unknown true line h = h
if_unknown false line h = tt

entry_or-IsSafeEvent :
    (o : Option IePrint) (bytes : Bytes) (unknown : Bool) (line : Event)
    → IsSafeFound o
    → IsLine line
    → All IsSafeEvent (entry_or o bytes unknown line)
entry_or-IsSafeEvent none bytes unknown line safe h = if_unknown unknown line h
entry_or-IsSafeEvent (some p) bytes unknown line safe h = print_ie-IsSafeEvent p bytes safe

either :
    (b : Bool) (xs ys : List Event)
    → All IsSafeEvent xs
    → All IsSafeEvent ys
    → All IsSafeEvent (if b then xs else ys)
either true xs ys hx hy = hx
either false xs ys hx hy = hy

print_vendor-IsSafeEvent :
    (bytes : Bytes) (unknown : Bool) (ptype : PrintType)
    → All IsSafeEvent (print_vendor bytes unknown ptype)
unfolding print_vendor
print_vendor-IsSafeEvent [] unknown ptype = (tt, tt)
print_vendor-IsSafeEvent (a ∷ []) unknown ptype = (tt, tt)
print_vendor-IsSafeEvent (a ∷ b ∷ []) unknown ptype = (tt, tt)
print_vendor-IsSafeEvent (a ∷ b ∷ c ∷ []) unknown ptype = if_unknown unknown _ (tt, tt)
print_vendor-IsSafeEvent (a ∷ b ∷ c ∷ d ∷ rest) unknown ptype =
    either (is_oui ms_oui a b c) _ _
      (entry_or-IsSafeEvent (find_entry ptype d wifiprinters) rest unknown _
        (find_entry-IsSafeFound ptype d wifiprinters wifiprinters-SafeEntries) (tt, tt))
      (either (is_oui wfa_oui a b c) _ _
        (entry_or-IsSafeEvent (find_entry ptype d wfa_printers) rest unknown _
          (find_entry-IsSafeFound ptype d wfa_printers wfa_printers-SafeEntries) (tt, tt))
        (if_unknown unknown _ (tt, tt)))

print_extension-IsSafeEvent :
    (bytes : Bytes) (unknown : Bool) (ptype : PrintType)
    → All IsSafeEvent (print_extension bytes unknown ptype)
unfolding print_extension
print_extension-IsSafeEvent [] unknown ptype = (tt, tt)
print_extension-IsSafeEvent (tag ∷ rest) unknown ptype =
    entry_or-IsSafeEvent (find_entry ptype tag ext_printers) rest unknown _
      (find_entry-IsSafeFound ptype tag ext_printers ext_printers-SafeEntries) (tt, tt)

element_or-IsSafeEvent :
    (o : Option IePrint) (tag : ℕ) (bytes : Bytes) (unknown : Bool) (ptype : PrintType)
    → IsSafeFound o
    → All IsSafeEvent (element_or o tag bytes unknown ptype)
element_or-IsSafeEvent (some p) tag bytes unknown ptype safe = print_ie-IsSafeEvent p bytes safe
element_or-IsSafeEvent none tag bytes unknown ptype safe =
    either (tag == 221) _ _ (print_vendor-IsSafeEvent bytes unknown ptype) (
      either (tag == 255) _ _ (print_extension-IsSafeEvent bytes unknown ptype)
        (if_unknown unknown _ (tt, tt)))

all_events-IsSafeEvent :
    (es : List (ℕ × Bytes)) (unknown : Bool) (ptype : PrintType)
    → All IsSafeEvent (all_events es unknown ptype)
unfolding print_element
all_events-IsSafeEvent [] unknown ptype = tt
all_events-IsSafeEvent ((tag, bytes) ∷ es) unknown ptype =
    All-append IsSafeEvent (print_element tag bytes unknown ptype) _
      (element_or-IsSafeEvent (find_entry ptype tag ieprinters) tag bytes unknown ptype
        (find_entry-IsSafeFound ptype tag ieprinters ieprinters-SafeEntries))
      (all_events-IsSafeEvent es unknown ptype)

-- Whatever bytes are received, `print_ies` ends, and each printer that it calls and that is modelled
-- reads only inside its element, and prints.
pub print_ies-IsSafeEvent :
    (ie : Bytes) (unknown : Bool) (ptype : PrintType)
    → (es : List Event) × (print_ies ie unknown ptype ≡ some es) × All IsSafeEvent es
print_ies-IsSafeEvent ie unknown ptype =
    let (p, ends) = print_ies-Parts ie unknown ptype in
    (all_events p.elements unknown ptype, ends, all_events-IsSafeEvent p.elements unknown ptype)
