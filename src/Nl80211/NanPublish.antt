-- ===== src/Nl80211/NanPublish.antt =====
-- `enum nl80211_nan_publish_type` of wifi/iw/nl80211.h, as far as the model uses it, each value under its name there.
use nl.Base.{ℕ}

abbrev pub solicited_publish : ℕ
solicited_publish = 1

abbrev pub unsolicited_publish : ℕ
unsolicited_publish = 2
