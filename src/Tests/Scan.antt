-- ===== src/Tests/Scan.antt =====
-- The elements of a frame.
use nl.Base.{ℕ, arith, refl, Bytes, some, [], ◌∷◌, ◌++◌, codes, ◌≡◌, true, false, All, List}
use nl.Libc.{hex02}
use nl.Print.{◌&◌, byte, word, skip, str, dec}
use nl.Print.Laws.{IsSafe}
use nl.Scan.Rsn.{print_rsn_element}
use nl.Scan.Rsn.Safe.{print_rsn_element-IsSafe}
use nl.Scan.Simple.{print_ssid_escaped, ssid_loop, print_ds}
use nl.Scan.Simple.Ssid.{unescape, unescape-print_ssid_escaped}
use nl.Scan.Operation.{print_supp_op_classes, classes}
use nl.Scan.Printer.{run_printer, ssid, ds}
use nl.Scan.Elements.{
  Event, shown, invalid, print_scan, print_link, print_ies, print_ies_loop, print_element,
  print_extension, print_vendor, find_entry, print_ie,
}
use nl.Scan.Elements.Walk.{buffer_of, all_events, Parts, print_ies-buffer_of, print_ies-Parts}
use nl.Scan.Elements.Safe.{IsSafeEvent, print_ies-IsSafeEvent}

program : Unit {0}
unfolding hex02 ◌&◌ byte word skip print_ssid_escaped ssid_loop print_ies print_ies_loop
    print_element print_extension print_vendor find_entry print_ie run_printer print_ds classes
    print_supp_op_classes
program = tt

-- "cafe", channel 6 and a DS element that is too long.
abbrev some_elements : List (ℕ × Bytes)
some_elements = (0, codes "cafe") ∷ (3, 6 ∷ []) ∷ (3, 6 ∷ 7 ∷ []) ∷ []

abbrev rsn_body : Bytes
rsn_body =
    1 ∷ 0 ∷ 0 ∷ 15 ∷ 172 ∷ 4 ∷ 1 ∷ 0 ∷ 0 ∷ 15 ∷ 172 ∷ 4 ∷ 1 ∷ 0 ∷ 0 ∷ 15 ∷ 172 ∷ 2 ∷ 0 ∷ 0 ∷ []

elements_run :
    print_ies (buffer_of some_elements) false print_scan
    ≡ some (
        shown (codes "SSID") ssid (codes "cafe")
        ∷ shown (codes "DS Parameter set") ds (6 ∷ [])
        ∷ invalid (codes "DS Parameter set") (6 ∷ 7 ∷ [])
        ∷ [])
unfolding program
elements_run = refl

-- `iw link` shows the name of the network only.
link_run :
    print_ies (buffer_of some_elements) false print_link
    ≡ some (shown (codes "SSID") ssid (codes "cafe") ∷ [])
unfolding program
link_run = refl

ds_run : print_ds (6 ∷ []) ≡ some (str (codes " channel ") ∷ dec 6 ∷ str (codes "\n") ∷ [])
unfolding program
ds_run = refl

blank_run : print_ssid_escaped (codes " a b\\") ≡ codes "\\x20a b\\x5c"
unfolding program
blank_run = refl

print_rsn_element-IsSafe_example :
    IsSafe (print_rsn_element (codes "CCMP") (codes "IEEE 802.1X") rsn_body false)
print_rsn_element-IsSafe_example =
    print_rsn_element-IsSafe (codes "CCMP") (codes "IEEE 802.1X") rsn_body false (omega arith)

unescape-print_ssid_escaped_example :
    unescape (print_ssid_escaped (codes " a b\\")) ≡ some (codes " a b\\")
unescape-print_ssid_escaped_example =
    unescape-print_ssid_escaped (codes " a b\\")
      (omega arith, (omega arith, (omega arith, (omega arith, (omega arith, tt)))))

print_ies-buffer_of_example :
    print_ies (buffer_of some_elements ++ (0 ∷ 4 ∷ 99 ∷ [])) true print_scan
    ≡ some (all_events some_elements true print_scan)
print_ies-buffer_of_example =
    print_ies-buffer_of some_elements (0 ∷ 4 ∷ 99 ∷ []) true print_scan (omega arith)

print_ies-Parts_example :
    (p : Parts (0 ∷ 1 ∷ 65 ∷ 3 ∷ 1 ∷ [])) × (print_ies (0 ∷ 1 ∷ 65 ∷ 3 ∷ 1 ∷ []) false print_scan
      ≡ some (all_events p.elements false print_scan))
print_ies-Parts_example = print_ies-Parts (0 ∷ 1 ∷ 65 ∷ 3 ∷ 1 ∷ []) false print_scan

print_ies-IsSafeEvent_example :
    (es : List Event) × (print_ies (buffer_of ((48, rsn_body) ∷ [])) true print_scan ≡ some es)
    × All IsSafeEvent es
print_ies-IsSafeEvent_example =
    print_ies-IsSafeEvent (buffer_of ((48, rsn_body) ∷ [])) true print_scan
