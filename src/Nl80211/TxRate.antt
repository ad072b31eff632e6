-- ===== src/Nl80211/TxRate.antt =====
-- `enum nl80211_tx_rate_attributes` of wifi/iw/nl80211.h, as far as the model uses it, each value under its name there.
use nl.Base.{ℕ}

abbrev pub legacy : ℕ
legacy = 1

abbrev pub ht : ℕ
ht = 2

abbrev pub vht : ℕ
vht = 3

abbrev pub gi : ℕ
gi = 4

abbrev pub he : ℕ
he = 5

abbrev pub he_gi : ℕ
he_gi = 6

abbrev pub he_ltf : ℕ
he_ltf = 7
