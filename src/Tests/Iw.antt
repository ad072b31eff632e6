-- ===== src/Tests/Iw.antt =====
-- Command lines of iw.
use nl.Base.{ℕ, false, Bytes, Option, some, none, List, [], ◌∷◌, codes, ◌≡◌, refl, if◌then◌else◌}
use nl.Libc.{str_eq, strtol, strtoul_auto, atoi}
use nl.Nl80211.Attr
use nl.Iw.Commands.{
  IdBy, cib_phy, cib_netdev, ii_netdev, ii_phy_name, ii_phy_idx, ii_wdev, Cmd, section_loop,
  command_loop, find_command,
}
use nl.Iw.Commands.Laws.{IsFitting, find_command-IsFitting}
use nl.Iw.Dispatch.{
  System, below_zero, phy_lookup, identify, refused, os_failed, call, call_local, handle_cmd, run,
  run_words, start_words, main,
}
use nl.Iw.Dispatch.Omitted.{IsName, wiphy, main-omit}
use nl.Tests.Recorder.{recorder, header, u32, u64}

program : Unit {0}
unfolding section_loop command_loop find_command phy_lookup identify handle_cmd run_words
    start_words main strtol strtoul_auto atoi
program = tt

abbrev entry : Bytes → Option Bytes → ℕ → IdBy → Option ℕ → Option ℕ → Cmd ℕ
entry name args cmd idby handler parent = record {
  name = name;
  args = args;
  help = none;
  cmd = cmd;
  nl_msg_flags = 0;
  hidden = false;
  idby = idby;
  handler = handler;
  selector = none;
  parent = parent;
}

-- `scan` itself has a handler and words; `scan trigger` is a command of its own.
abbrev table : List (Cmd ℕ)
table =
    entry (codes "scan") (some (codes "[-u] ...")) 0 cib_netdev (some 10) none
    ∷ entry (codes "info") none 5 cib_netdev (some 20) none
    ∷ entry (codes "trigger") (some (codes "[freq <freq>*]")) 33 cib_netdev (some 30) (some 0)
    ∷ entry (codes "info") none 1 cib_phy (some 40) none
    ∷ []

-- One interface, and one wiphy.
abbrev system : System
system = record {
  if_nametoindex = λ name. if str_eq name (codes "wlan0") then 7 else 0;
  read_file = λ path.
      if str_eq path (codes "/sys/class/ieee80211/radio/index") then some (codes "3\n") else none;
}

trigger_run :
    handle_cmd recorder system table ii_netdev
      (codes "wlan0" ∷ codes "scan" ∷ codes "trigger" ∷ codes "flush" ∷ [])
    ≡ call 30 (header 33 0 ∷ u32 Attr.ifindex 7 ∷ []) (codes "flush" ∷ []) ii_netdev
unfolding program
trigger_run = refl

-- A command without a number gets all words and no message.
scan_run :
    handle_cmd recorder system table ii_netdev (codes "wlan0" ∷ codes "scan" ∷ codes "-u" ∷ [])
    ≡ call_local 10 (codes "wlan0" ∷ codes "scan" ∷ codes "-u" ∷ []) ii_netdev
unfolding program
scan_run = refl

-- The section `info` of a wiphy stands behind the one of an interface.
phy_run :
    handle_cmd recorder system table ii_phy_name (codes "radio" ∷ codes "info" ∷ [])
    ≡ call 40 (header 1 0 ∷ u32 Attr.wiphy 3 ∷ []) [] ii_phy_name
unfolding program
phy_run = refl

wdev_run :
    handle_cmd recorder system table ii_wdev (codes "0x1f" ∷ codes "info" ∷ [])
    ≡ call 20 (header 5 0 ∷ u64 Attr.wdev 31 ∷ []) [] ii_wdev
unfolding program
wdev_run = refl

index_run :
    handle_cmd recorder system table ii_phy_idx (codes "phy#2" ∷ codes "info" ∷ [])
    ≡ call 40 (header 1 0 ∷ u32 Attr.wiphy 2 ∷ []) [] ii_phy_idx
unfolding program
index_run = refl

no_interface_run :
    handle_cmd recorder system table ii_netdev (codes "wlan9" ∷ codes "info" ∷ []) ≡ os_failed
unfolding program
no_interface_run = refl

-- `info` takes no words.
extra_run :
    handle_cmd recorder system table ii_netdev (codes "wlan0" ∷ codes "info" ∷ codes "x" ∷ [])
    ≡ refused
unfolding program
extra_run = refl

detect_run :
    main system (codes "--debug" ∷ codes "radio" ∷ codes "info" ∷ [])
    ≡ run ii_phy_name (codes "radio" ∷ codes "info" ∷ [])
unfolding program
detect_run = refl

abbrev phy_system : System
phy_system = record {
  if_nametoindex = λ name. if str_eq name (codes "wlan0") then 7 else 0;
  read_file = λ path.
      if str_eq path (codes "/sys/class/ieee80211/phy0/index") then some (codes "0\n") else none;
}

phy0_index : below_zero (phy_lookup phy_system (codes "phy0")) ≡ false
unfolding program
phy0_index = refl

phy0-IsName : IsName (codes "phy0")
phy0-IsName = record {
  not_debug = refl;
  not_version = refl;
  not_help = refl;
  not_dev = refl;
  not_phy = refl;
  not_index = refl;
  not_wdev = refl;
}

main-omit_example :
    main phy_system (codes "phy" ∷ codes "phy0" ∷ codes "info" ∷ [])
    ≡ main phy_system (codes "phy0" ∷ codes "info" ∷ [])
main-omit_example =
    main-omit phy_system (codes "phy") (codes "phy0") (codes "info" ∷ []) phy0-IsName
      (wiphy refl phy0_index)

find_command-IsFitting_example :
    IsFitting cib_netdev
      (find_command table cib_netdev (codes "scan") (codes "trigger" ∷ codes "flush" ∷ []))
find_command-IsFitting_example =
    find_command-IsFitting table cib_netdev (codes "scan") (codes "trigger" ∷ codes "flush" ∷ [])
