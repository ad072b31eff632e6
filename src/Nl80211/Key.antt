-- ===== src/Nl80211/Key.antt =====
-- `enum nl80211_key_attributes` of wifi/iw/nl80211.h, as far as the model uses it, each value under its name there.
use nl.Base.{ℕ}

abbrev pub key_data : ℕ
key_data = 1

abbrev pub idx : ℕ
idx = 2

abbrev pub cipher : ℕ
cipher = 3

abbrev pub default : ℕ
default = 5
