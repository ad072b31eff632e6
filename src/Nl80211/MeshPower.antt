-- ===== src/Nl80211/MeshPower.antt =====
-- `enum nl80211_mesh_power_mode` of wifi/iw/nl80211.h, as far as the model uses it, each value under its name there.
use nl.Base.{ℕ}

abbrev pub active : ℕ
active = 1

abbrev pub light_sleep : ℕ
light_sleep = 2

abbrev pub deep_sleep : ℕ
deep_sleep = 3
