-- ===== src/Scan/Elements.antt =====
-- `print_ies` of wifi/iw/scan.c with `print_ie`, `print_vendor`, `print_extension` and their tables. What
-- they print is a list of events: a call of a printer, or one of their own lines.
pub mod Walk
pub mod Safe
use nl.Base.{
  ℕ, zero, suc, Bool, true, false, ◌&&◌, ◌||◌, Bytes, Option, none, some, List, [], ◌∷◌, ◌++◌,
  length, take, drop, codes, ltb, leb, ◌==◌, if◌then◌else◌,
}
use nl.Scan.Suites.{ms_oui, wfa_oui, is_oui}
use nl.Scan.Printer.{
  Printer, ssid, supprates, ds, tim, ibssatim, country, bss_load, powerconstraint, tpcreport, erp,
  ap_channel_report, supp_op_classes, measurement_pilot_tx, obss_scan_params, ht_op, secchan_offs,
  vht_oper, rsn, rm_enabled_capabilities, mesh_conf, interworking, advert_11u, rcon_11u,
  tx_power_envelope, wifi_wpa, wifi_wmm, wifi_osen, ht_capa, vht_capa, extended_capabilities,
  wifi_wps, p2p, hs20_ind, owe_trans, he_capa,
}

-- `enum print_ie_type`
pub data PrintType : Type 0 where
  print_scan print_link : PrintType

-- `struct ie_print` with its index in the table.
pub record IePrint : Type 0 where
  pub tag : ℕ
  pub name : Bytes
  pub print : Printer
  pub minlen : ℕ
  pub maxlen : ℕ
  pub in_link : Bool

abbrev pub scan_entry : ℕ → Bytes → Printer → ℕ → ℕ → IePrint
scan_entry tag name print minlen maxlen = record {
  tag = tag;
  name = name;
  print = print;
  minlen = minlen;
  maxlen = maxlen;
  in_link = false;
}

abbrev pub ieprinters : List IePrint
ieprinters =
    record (scan_entry 0 (codes "SSID") ssid 0 32) { in_link = true }
    ∷ scan_entry 1 (codes "Supported rates") supprates 0 255
    ∷ scan_entry 3 (codes "DS Parameter set") ds 1 1
    ∷ scan_entry 5 (codes "TIM") tim 4 255
    ∷ scan_entry 6 (codes "IBSS ATIM window") ibssatim 2 2
    ∷ scan_entry 7 (codes "Country") country 3 255
    ∷ scan_entry 11 (codes "BSS Load") bss_load 5 5
    ∷ scan_entry 32 (codes "Power constraint") powerconstraint 1 1
    ∷ scan_entry 35 (codes "TPC report") tpcreport 2 2
    ∷ scan_entry 42 (codes "ERP") erp 1 255
    ∷ scan_entry 45 (codes "HT capabilities") ht_capa 26 26
    ∷ scan_entry 47 (codes "ERP D4.0") erp 1 255
    ∷ scan_entry 51 (codes "AP Channel Report") ap_channel_report 1 255
    ∷ scan_entry 59 (codes "Supported operating classes") supp_op_classes 1 255
    ∷ scan_entry 66 (codes "Measurement Pilot Transmission") measurement_pilot_tx 1 255
    ∷ scan_entry 74 (codes "Overlapping BSS scan params") obss_scan_params 14 255
    ∷ scan_entry 61 (codes "HT operation") ht_op 22 22
    ∷ scan_entry 62 (codes "Secondary Channel Offset") secchan_offs 1 1
    ∷ scan_entry 191 (codes "VHT capabilities") vht_capa 12 255
    ∷ scan_entry 192 (codes "VHT operation") vht_oper 5 255
    ∷ scan_entry 48 (codes "RSN") rsn 2 255
    ∷ scan_entry 50 (codes "Extended supported rates") supprates 0 255
    ∷ scan_entry 70 (codes "RM enabled capabilities") rm_enabled_capabilities 5 5
    ∷ scan_entry 113 (codes "MESH Configuration") mesh_conf 7 7
    ∷ record (scan_entry 114 (codes "MESH ID") ssid 0 32) { in_link = true }
    ∷ scan_entry 127 (codes "Extended capabilities") extended_capabilities 0 255
    ∷ scan_entry 107 (codes "802.11u Interworking") interworking 0 255
    ∷ scan_entry 108 (codes "802.11u Advertisement") advert_11u 0 255
    ∷ scan_entry 111 (codes "802.11u Roaming Consortium") rcon_11u 2 255
    ∷ scan_entry 195 (codes "Transmit Power Envelope") tx_power_envelope 2 5
    ∷ []

abbrev pub wifiprinters : List IePrint
wifiprinters =
    scan_entry 1 (codes "WPA") wifi_wpa 2 255
    ∷ scan_entry 2 (codes "WMM") wifi_wmm 1 255
    ∷ scan_entry 4 (codes "WPS") wifi_wps 0 255
    ∷ []

abbrev pub wfa_printers : List IePrint
wfa_printers =
    scan_entry 9 (codes "P2P") p2p 2 255
    ∷ scan_entry 16 (codes "HotSpot 2.0 Indication") hs20_ind 1 255
    ∷ scan_entry 18 (codes "HotSpot 2.0 OSEN") wifi_osen 1 255
    ∷ scan_entry 28 (codes "OWE Transition Mode") owe_trans 7 255
    ∷ []

abbrev pub ext_printers : List IePrint
ext_printers = scan_entry 35 (codes "HE capabilities") he_capa 21 54 ∷ []

pub data Event : Type 0 where
  -- `p->print(…)` behind the name
  shown : Bytes → Printer → Bytes → Event
  -- the name, and "<invalid: …>" with the bytes
  invalid : Bytes → Bytes → Event
  -- "Unknown IE"
  unknown_ie : ℕ → Bytes → Event
  -- "Vendor specific: <too short>", "MS/WiFi", "WFA", and "Vendor specific: OUI"
  vendor_short : Bytes → Event
  ms_wifi wfa : ℕ → Bytes → Event
  vendor_oui : ℕ → ℕ → ℕ → Bytes → Event
  -- "Extension IE: <empty>" and "Unknown Extension ID"
  extension_empty : Event
  unknown_extension : ℕ → Bytes → Event

-- `flags & BIT(ptype)`; all entries have the flag PRINT_SCAN.
abbrev pub has_flag : PrintType → IePrint → Bool
has_flag print_scan p = true
has_flag print_link p = p.in_link

-- The entry at a tag, if it has a name and the flag.
unfoldable pub find_entry : PrintType → ℕ → List IePrint → Option IePrint
find_entry ptype tag [] = none
find_entry ptype tag (p ∷ ps) =
    if p.tag == tag && has_flag ptype p then some p else find_entry ptype tag ps

unfoldable pub print_ie : IePrint → Bytes → List Event
print_ie p bytes =
    if ltb (length bytes) p.minlen || ltb p.maxlen (length bytes)
    then invalid p.name bytes ∷ []
    else shown p.name p.print bytes ∷ []

-- The entry that was found, or the line of an unknown one.
abbrev pub entry_or : Option IePrint → Bytes → Bool → Event → List Event
entry_or (some p) bytes unknown line = print_ie p bytes
entry_or none bytes unknown line = if unknown then line ∷ [] else []

unfoldable pub print_vendor : Bytes → Bool → PrintType → List Event
print_vendor (a ∷ b ∷ c ∷ d ∷ rest) unknown ptype =
    if is_oui ms_oui a b c
    then entry_or (find_entry ptype d wifiprinters) rest unknown (ms_wifi d rest)
    else if is_oui wfa_oui a b c
    then entry_or (find_entry ptype d wfa_printers) rest unknown (wfa d rest)
    else if unknown
    then vendor_oui a b c (d ∷ rest) ∷ []
    else []
print_vendor (a ∷ b ∷ c ∷ []) unknown ptype = if unknown then vendor_oui a b c [] ∷ [] else []
print_vendor bytes unknown ptype = vendor_short bytes ∷ []

unfoldable pub print_extension : Bytes → Bool → PrintType → List Event
print_extension [] unknown ptype = extension_empty ∷ []
print_extension (tag ∷ rest) unknown ptype =
    entry_or (find_entry ptype tag ext_printers) rest unknown (unknown_extension tag rest)

-- One element: `bytes` are `ie[1]` bytes from `ie + 2` on.
abbrev pub element_or : Option IePrint → ℕ → Bytes → Bool → PrintType → List Event
element_or (some p) tag bytes unknown ptype = print_ie p bytes
element_or none tag bytes unknown ptype =
    if tag == 221
    then print_vendor bytes unknown ptype
    else if tag == 255
    then print_extension bytes unknown ptype
    else if unknown
    then unknown_ie tag bytes ∷ []
    else []

unfoldable pub print_element : ℕ → Bytes → Bool → PrintType → List Event
print_element tag bytes unknown ptype =
    element_or (find_entry ptype tag ieprinters) tag bytes unknown ptype

abbrev pub and_then : List Event → Option (List Event) → Option (List Event)
and_then es none = none
and_then es (some es') = some (es ++ es')

-- The loop, on fuel; `ie` has the length `ielen`. Each round takes at least two bytes.
unfoldable pub print_ies_loop : (fuel : ℕ) → Bytes → Bool → PrintType → Option (List Event)
print_ies_loop zero ie unknown ptype = none
print_ies_loop (suc fuel) [] unknown ptype = some []
print_ies_loop (suc fuel) (tag ∷ []) unknown ptype = some []
print_ies_loop (suc fuel) (tag ∷ size ∷ rest) unknown ptype =
    let after =
      and_then (print_element tag (take size rest) unknown ptype)
        (print_ies_loop fuel (drop size rest) unknown ptype) in
    if leb size (length rest) then after else some []

unfoldable pub print_ies : Bytes → Bool → PrintType → Option (List Event)
print_ies ie unknown ptype = print_ies_loop (suc (length ie)) ie unknown ptype
