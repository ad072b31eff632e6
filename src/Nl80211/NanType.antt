-- ===== src/Nl80211/NanType.antt =====
-- `enum nl80211_nan_function_type` of wifi/iw/nl80211.h, as far as the model uses it, each value under its name there.
use nl.Base.{ℕ}

abbrev pub publish : ℕ
publish = 0

abbrev pub subscribe : ℕ
subscribe = 1

abbrev pub follow_up : ℕ
follow_up = 2
