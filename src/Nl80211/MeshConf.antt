-- ===== src/Nl80211/MeshConf.antt =====
-- `enum nl80211_meshconf_params` of wifi/iw/nl80211.h, as far as the model uses it, each value under its name there.
use nl.Base.{ℕ}

abbrev pub retry_timeout : ℕ
retry_timeout = 1

abbrev pub confirm_timeout : ℕ
confirm_timeout = 2

abbrev pub holding_timeout : ℕ
holding_timeout = 3

abbrev pub max_peer_links : ℕ
max_peer_links = 4

abbrev pub max_retries : ℕ
max_retries = 5

abbrev pub ttl : ℕ
ttl = 6

abbrev pub element_ttl : ℕ
element_ttl = 15

abbrev pub auto_open_plinks : ℕ
auto_open_plinks = 7

abbrev pub hwmp_max_preq_retries : ℕ
hwmp_max_preq_retries = 8

abbrev pub path_refresh_time : ℕ
path_refresh_time = 9

abbrev pub min_discovery_timeout : ℕ
min_discovery_timeout = 10

abbrev pub hwmp_active_path_timeout : ℕ
hwmp_active_path_timeout = 11

abbrev pub hwmp_preq_min_interval : ℕ
hwmp_preq_min_interval = 12

abbrev pub hwmp_net_diam_trvs_time : ℕ
hwmp_net_diam_trvs_time = 13

abbrev pub hwmp_rootmode : ℕ
hwmp_rootmode = 14

abbrev pub hwmp_rann_interval : ℕ
hwmp_rann_interval = 16

abbrev pub gate_announcements : ℕ
gate_announcements = 17

abbrev pub forwarding : ℕ
forwarding = 19

abbrev pub sync_offset_max_neighbor : ℕ
sync_offset_max_neighbor = 21

abbrev pub rssi_threshold : ℕ
rssi_threshold = 20

abbrev pub hwmp_path_to_root_timeout : ℕ
hwmp_path_to_root_timeout = 23

abbrev pub hwmp_root_interval : ℕ
hwmp_root_interval = 24

abbrev pub hwmp_confirmation_interval : ℕ
hwmp_confirmation_interval = 25

abbrev pub power_mode : ℕ
power_mode = 26

abbrev pub awake_window : ℕ
awake_window = 27

abbrev pub plink_timeout : ℕ
plink_timeout = 28

abbrev pub connected_to_gate : ℕ
connected_to_gate = 29

abbrev pub nolearn : ℕ
nolearn = 30

abbrev pub connected_to_as : ℕ
connected_to_as = 31
