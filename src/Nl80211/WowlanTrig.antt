-- ===== src/Nl80211/WowlanTrig.antt =====
-- `enum nl80211_wowlan_triggers` of wifi/iw/nl80211.h, as far as the model uses it, each value under its name there.
use nl.Base.{ℕ}

abbrev pub any : ℕ
any = 1

abbrev pub disconnect : ℕ
disconnect = 2

abbrev pub magic_pkt : ℕ
magic_pkt = 3

abbrev pub pkt_pattern : ℕ
pkt_pattern = 4

abbrev pub gtk_rekey_failure : ℕ
gtk_rekey_failure = 6

abbrev pub eap_ident_request : ℕ
eap_ident_request = 7

abbrev pub rfkill_release : ℕ
rfkill_release = 9

abbrev pub tcp_connection : ℕ
tcp_connection = 14

abbrev pub net_detect : ℕ
net_detect = 18

abbrev pub handshake_4way : ℕ
handshake_4way = 8
