-- ===== src/Nl80211/NanFunc.antt =====
-- `enum nl80211_nan_func_attributes` of wifi/iw/nl80211.h, as far as the model uses it, each value under its name there.
use nl.Base.{ℕ}

abbrev pub type : ℕ
type = 1

abbrev pub service_id : ℕ
service_id = 2

abbrev pub publish_type : ℕ
publish_type = 3

abbrev pub publish_bcast : ℕ
publish_bcast = 4

abbrev pub subscribe_active : ℕ
subscribe_active = 5

abbrev pub follow_up_id : ℕ
follow_up_id = 6

abbrev pub follow_up_req_id : ℕ
follow_up_req_id = 7

abbrev pub follow_up_dest : ℕ
follow_up_dest = 8

abbrev pub close_range : ℕ
close_range = 9

abbrev pub ttl : ℕ
ttl = 10

abbrev pub service_info : ℕ
service_info = 11

abbrev pub srf : ℕ
srf = 12

abbrev pub rx_match_filter : ℕ
rx_match_filter = 13

abbrev pub tx_match_filter : ℕ
tx_match_filter = 14
