-- ===== src/Nl80211/WowlanTcp.antt =====
-- `enum nl80211_wowlan_tcp_attrs` of wifi/iw/nl80211.h, as far as the model uses it, each value under its name there.
use nl.Base.{ℕ}

abbrev pub src_ipv4 : ℕ
src_ipv4 = 1

abbrev pub dst_ipv4 : ℕ
dst_ipv4 = 2

abbrev pub dst_mac : ℕ
dst_mac = 3

abbrev pub src_port : ℕ
src_port = 4

abbrev pub dst_port : ℕ
dst_port = 5

abbrev pub data_payload : ℕ
data_payload = 6

abbrev pub data_payload_seq : ℕ
data_payload_seq = 7

abbrev pub data_payload_token : ℕ
data_payload_token = 8

abbrev pub data_interval : ℕ
data_interval = 9

abbrev pub wake_payload : ℕ
wake_payload = 10

abbrev pub wake_mask : ℕ
wake_mask = 11
