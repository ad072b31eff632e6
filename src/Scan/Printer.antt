-- ===== src/Scan/Printer.antt =====
-- The printers that the tables of wifi/iw/scan.c name, and the output of those that are modelled.
pub mod Safe
pub mod Loops
use nl.Base.{Bytes, Option, none, some}
use nl.Print.{Printed}
use nl.Scan.Rsn.{print_rsn, print_wifi_wpa, print_wifi_osen}
use nl.Scan.Simple.{
  print_hs20_ind, print_wifi_owe_tarns, print_ssid, print_supprates, print_ds, print_country,
  print_powerconstraint, print_tpcreport, print_erp, print_ap_channel_report,
  print_rm_enabled_capabilities,
}
use nl.Scan.Interworking.{print_interworking, print_11u_advert, print_11u_rcon}
use nl.Scan.Operation.{
  print_tim, print_ibssatim, print_bss_load, print_supp_op_classes, print_measurement_pilot_tx,
  print_obss_scan_params, print_ht_op, print_secchan_offs, print_vht_oper, print_mesh_conf,
  print_tx_power_envelope, print_wifi_wmm,
}

pub data Printer : Type 0 where
  ssid supprates ds tim ibssatim country bss_load powerconstraint tpcreport erp : Printer
  ap_channel_report supp_op_classes measurement_pilot_tx obss_scan_params ht_op : Printer
  secchan_offs vht_oper rsn rm_enabled_capabilities mesh_conf interworking advert_11u : Printer
  rcon_11u tx_power_envelope wifi_wpa wifi_wmm wifi_osen hs20_ind owe_trans : Printer
  -- not modelled
  ht_capa vht_capa extended_capabilities wifi_wps p2p he_capa : Printer

-- The function of the source, if it is modelled.
unfoldable pub run_printer : Printer → Option (Bytes → Printed)
run_printer ssid = some print_ssid
run_printer supprates = some print_supprates
run_printer ds = some print_ds
run_printer tim = some print_tim
run_printer ibssatim = some print_ibssatim
run_printer country = some print_country
run_printer bss_load = some print_bss_load
run_printer powerconstraint = some print_powerconstraint
run_printer tpcreport = some print_tpcreport
run_printer erp = some print_erp
run_printer ap_channel_report = some print_ap_channel_report
run_printer supp_op_classes = some print_supp_op_classes
run_printer measurement_pilot_tx = some print_measurement_pilot_tx
run_printer obss_scan_params = some print_obss_scan_params
run_printer ht_op = some print_ht_op
run_printer secchan_offs = some print_secchan_offs
run_printer vht_oper = some print_vht_oper
run_printer rsn = some print_rsn
run_printer rm_enabled_capabilities = some print_rm_enabled_capabilities
run_printer mesh_conf = some print_mesh_conf
run_printer interworking = some print_interworking
run_printer advert_11u = some print_11u_advert
run_printer rcon_11u = some print_11u_rcon
run_printer tx_power_envelope = some print_tx_power_envelope
run_printer wifi_wpa = some print_wifi_wpa
run_printer wifi_wmm = some print_wifi_wmm
run_printer wifi_osen = some print_wifi_osen
run_printer hs20_ind = some print_hs20_ind
run_printer owe_trans = some print_wifi_owe_tarns
run_printer _ = none
