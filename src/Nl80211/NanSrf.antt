-- ===== src/Nl80211/NanSrf.antt =====
-- `enum nl80211_nan_srf_attributes` of wifi/iw/nl80211.h, as far as the model uses it, each value under its name there.
use nl.Base.{ℕ}

abbrev pub include : ℕ
include = 1

abbrev pub bf : ℕ
bf = 2

abbrev pub bf_idx : ℕ
bf_idx = 3

abbrev pub mac_addrs : ℕ
mac_addrs = 4
