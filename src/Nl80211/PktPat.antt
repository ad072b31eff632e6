-- ===== src/Nl80211/PktPat.antt =====
-- `enum nl80211_packet_pattern_attr` of wifi/iw/nl80211.h, as far as the model uses it, each value under its name there.
use nl.Base.{ℕ}

abbrev pub mask : ℕ
mask = 1

abbrev pub pattern : ℕ
pattern = 2

abbrev pub offset : ℕ
offset = 3
