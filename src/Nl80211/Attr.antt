-- ===== src/Nl80211/Attr.antt =====
-- `enum nl80211_attrs` of wifi/iw/nl80211.h, as far as the model uses it, each value under its name there.
use nl.Base.{ℕ}

abbrev pub wiphy : ℕ
wiphy = 1

abbrev pub ifindex : ℕ
ifindex = 3

abbrev pub mac : ℕ
mac = 6

abbrev pub wiphy_freq : ℕ
wiphy_freq = 38

abbrev pub wiphy_channel_type : ℕ
wiphy_channel_type = 39

abbrev pub ssid : ℕ
ssid = 52

abbrev pub auth_type : ℕ
auth_type = 53

abbrev pub privacy : ℕ
privacy = 70

abbrev pub cipher_suites_pairwise : ℕ
cipher_suites_pairwise = 73

abbrev pub cipher_suite_group : ℕ
cipher_suite_group = 74

abbrev pub wpa_versions : ℕ
wpa_versions = 75

abbrev pub akm_suites : ℕ
akm_suites = 76

abbrev pub keys : ℕ
keys = 81

abbrev pub tx_rates : ℕ
tx_rates = 90

abbrev pub wdev : ℕ
wdev = 153

abbrev pub channel_width : ℕ
channel_width = 159

abbrev pub center_freq1 : ℕ
center_freq1 = 160

abbrev pub center_freq2 : ℕ
center_freq2 = 161

abbrev pub mac_mask : ℕ
mac_mask = 215

abbrev pub pmk : ℕ
pmk = 254

abbrev pub ie : ℕ
ie = 42

abbrev pub scan_frequencies : ℕ
scan_frequencies = 44

abbrev pub scan_ssids : ℕ
scan_ssids = 45

abbrev pub scan_flags : ℕ
scan_flags = 158

abbrev pub measurement_duration : ℕ
measurement_duration = 235

abbrev pub measurement_duration_mandatory : ℕ
measurement_duration_mandatory = 236

abbrev pub sched_scan_interval : ℕ
sched_scan_interval = 119

abbrev pub sched_scan_match : ℕ
sched_scan_match = 132

abbrev pub sched_scan_delay : ℕ
sched_scan_delay = 220

abbrev pub sched_scan_plans : ℕ
sched_scan_plans = 225

abbrev pub coalesce_rule : ℕ
coalesce_rule = 182

abbrev pub wowlan_triggers : ℕ
wowlan_triggers = 117

abbrev pub nan_master_pref : ℕ
nan_master_pref = 238

abbrev pub bands : ℕ
bands = 239

abbrev pub cookie : ℕ
cookie = 88

abbrev pub nan_func : ℕ
nan_func = 240

abbrev pub mesh_config : ℕ
mesh_config = 35

abbrev pub reg_alpha2 : ℕ
reg_alpha2 = 33
