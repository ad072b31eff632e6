-- ===== src/Nl80211/CoalesceRule.antt =====
-- `enum nl80211_attr_coalesce_rule` of wifi/iw/nl80211.h, as far as the model uses it, each value under its name there.
use nl.Base.{ℕ}

abbrev pub delay : ℕ
delay = 1

abbrev pub condition : ℕ
condition = 2

abbrev pub pkt_pattern : ℕ
pkt_pattern = 3
