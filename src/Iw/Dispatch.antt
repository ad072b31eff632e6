-- ===== src/Iw/Dispatch.antt =====
-- `__handle_cmd` and `main` of wifi/iw/iw.c up to the call of a handler. The kernel's table of interfaces
-- and the files under /sys are parameters.
pub mod Omitted
use nl.Base.{
  take, drop, ◌==◌, not, ◌&&◌, ◌-◌, ℕ, ◌^◌, Bool, Bytes, Option, none, some, List, [], ◌∷◌, ◌++◌,
  get_elem?, codes, leb, if◌then◌else◌,
}
use nl.Nl80211.Attr
use nl.Netlink.{Netlink}
use nl.Libc.{to_u32, str_eq, starts_with, strtol, strtoul_auto, atoi}
use nl.Iw.Commands.{
  Chosen, find_command, has_words, IdBy, cib_none, cib_phy, cib_netdev, cib_wdev, IdInput, ii_none,
  ii_netdev, ii_phy_name, ii_phy_idx, ii_wdev, Cmd,
}

-- `if_nametoindex`, which gives 0 for no interface, and the first bytes of a file, if it can be read.
pub record System : Type 0 where
  pub if_nametoindex : Bytes → ℕ
  pub read_file : Bytes → Option Bytes

-- `-1` in 64 bits, and the test for a number below 0.
abbrev pub minus_one : ℕ
minus_one = 2 ^ 64 - 1

abbrev pub below_zero : ℕ → Bool
below_zero v = leb (2 ^ 63) v

abbrev pub index_in : Option Bytes → ℕ
index_in none = minus_one
index_in (some text) = atoi (take 199 text)

-- `snprintf` cuts the path to the 199 bytes of its buffer.
unfoldable pub phy_lookup : System → Bytes → ℕ
phy_lookup sys name =
    index_in (sys.read_file (take 199 (codes "/sys/class/ieee80211/" ++ (name ++ codes "/index"))))

-- What the first words name: `return 1`, a device and the words behind it, or `return -errno`.
pub data Device : Type 0 where
  no_device : Device
  device : IdBy → ℕ → List Bytes → Device
  os_error : Device

-- `if (*tmp != '\0') return 1`
abbrev pub whole_index : IdBy → ℕ × Bytes → List Bytes → Device
whole_index idby (v, []) words = device idby v words
whole_index idby (v, c ∷ tmp) words = no_device

abbrev pub checked : Device → Device
checked no_device = no_device
checked os_error = os_error
checked (device idby devidx words) =
    if below_zero devidx then os_error else device idby devidx words

abbrev pub value_and_rest : ℕ × Bytes × Bool → ℕ × Bytes
value_and_rest (v, rest, found) = (v, rest)

abbrev pub netdev_index : ℕ → ℕ
netdev_index v = if v == 0 then minus_one else v

unfoldable pub identify : System → IdInput → List Bytes → Device
identify sys ii_none words = device cib_none 0 words
identify sys ii_phy_idx (w ∷ v ∷ words) =
    checked (whole_index cib_phy (value_and_rest (strtoul_auto (drop 4 w))) (v ∷ words))
identify sys ii_phy_name (w ∷ v ∷ words) = checked (device cib_phy (phy_lookup sys w) (v ∷ words))
identify sys ii_netdev (w ∷ v ∷ words) =
    checked (device cib_netdev (netdev_index (sys.if_nametoindex w)) (v ∷ words))
identify sys ii_wdev (w ∷ v ∷ words) = checked (whole_index cib_wdev (strtol w) (v ∷ words))
identify sys idby words = no_device

module _ {Handler : Type 0} where
  -- The command of a selector, or the command itself if it has none.
  abbrev pub select :
      List (Cmd Handler)
      → Cmd Handler
      → Option (List Bytes → Option ℕ)
      → List Bytes
      → Option (Cmd Handler)
  select table c none words = some c
  select table c (some choose) words = at_place (choose words)
    where
      at_place : Option ℕ → Option (Cmd Handler)
      at_place none = none
      at_place (some place) = get_elem? table place

-- What `__handle_cmd` comes to: it returns 1, -errno or 2 itself, it compares the NULL behind the last word,
-- or it calls a handler, with all words and no message or with those left and a message.
pub data Outcome (Msg Handler : Type 0) : Type 0 where
  refused os_failed building_failed null_word : Outcome Msg Handler
  call_local : Handler → List Bytes → IdInput → Outcome Msg Handler
  call : Handler → Msg → List Bytes → IdInput → Outcome Msg Handler

module _ (n : Netlink) where
  open n use {Msg, nla_put_u32, nla_put_u64}

  -- The attribute of the device.
  abbrev pub put_device : IdBy → ℕ → Msg → Option Msg
  put_device cib_none devidx msg = some msg
  put_device cib_phy devidx msg = nla_put_u32 msg Attr.wiphy (to_u32 devidx)
  put_device cib_netdev devidx msg = nla_put_u32 msg Attr.ifindex (to_u32 devidx)
  put_device cib_wdev devidx msg = nla_put_u64 msg Attr.wdev devidx

module _ (n : Netlink) {Handler : Type 0} where
  open n use {Msg, nlmsg_alloc, genlmsg_put}

  abbrev pub call_with : Handler → Option Msg → List Bytes → IdInput → Outcome Msg Handler
  call_with h none words idby = building_failed
  call_with h (some msg) words idby = call h msg words idby

  -- A command that was chosen. One without a handler is no outcome of the choice; the program would call
  -- a null pointer.
  abbrev pub run_command :
      IdInput
      → List Bytes
      → IdBy
      → ℕ
      → Cmd Handler
      → Option Handler
      → List Bytes
      → Outcome Msg Handler
  run_command idby all_words by devidx c none words = null_word
  run_command idby all_words by devidx c (some h) words =
      if c.cmd == 0
      then call_local h all_words idby
      else call_with h (put_device n by devidx (genlmsg_put nlmsg_alloc c.cmd c.nl_msg_flags)) words
          idby

  abbrev pub run_selected :
      IdInput → List Bytes → IdBy → ℕ → Option (Cmd Handler) → List Bytes → Outcome Msg Handler
  run_selected idby all_words by devidx none words = refused
  run_selected idby all_words by devidx (some c) words =
      run_command idby all_words by devidx c c.handler words

  abbrev pub run_chosen :
      List (Cmd Handler) → IdInput → List Bytes → IdBy → ℕ → Chosen Handler → Outcome Msg Handler
  run_chosen table idby all_words by devidx none = refused
  run_chosen table idby all_words by devidx (some (c, words)) =
      run_selected idby all_words by devidx (select table c c.selector words) words

  abbrev pub run_device : List (Cmd Handler) → IdInput → List Bytes → Device → Outcome Msg Handler
  run_device table idby all_words no_device = refused
  run_device table idby all_words os_error = os_failed
  run_device table idby all_words (device by devidx []) = null_word
  run_device table idby all_words (device by devidx (section ∷ words)) =
      run_chosen table idby all_words by devidx (find_command table by section words)

  unfoldable pub handle_cmd :
      System → List (Cmd Handler) → IdInput → List Bytes → Outcome Msg Handler
  handle_cmd sys table idby words = run_device table idby words (identify sys idby words)

-- What `main` does with the words behind its name: it prints its version or its help, or it calls
-- `__handle_cmd`.
pub data Start : Type 0 where
  show_version : Start
  show_help : List Bytes → Start
  run : IdInput → List Bytes → Start

abbrev pub detect_by : System → Bytes → IdInput
detect_by sys w =
    if not (sys.if_nametoindex w == 0)
    then ii_netdev
    else if not (below_zero (phy_lookup sys w))
    then ii_phy_name
    else ii_none

-- `strlen(w) == 3`, `w[3] == '#'` or neither, for a word that begins with "phy".
abbrev pub run_phy : System → Bytes → List Bytes → Start
run_phy sys (p ∷ h ∷ y ∷ []) words = run ii_phy_name words
run_phy sys w words =
    if starts_with (codes "phy#") w
    then run ii_phy_idx (w ∷ words)
    else run (detect_by sys w) (w ∷ words)

unfoldable pub run_words : System → Bytes → List Bytes → Start
run_words sys w words =
    if str_eq w (codes "dev") && has_words words
    then run ii_netdev words
    else if starts_with (codes "phy") w && has_words words
    then run_phy sys w words
    else if str_eq w (codes "wdev") && has_words words
    then run ii_wdev words
    else run (detect_by sys w) (w ∷ words)

unfoldable pub start_words : System → List Bytes → Start
start_words sys [] = show_help []
start_words sys (w ∷ words) =
    if str_eq w (codes "--version")
    then show_version
    else if str_eq w (codes "help")
    then show_help words
    else run_words sys w words

-- A first word `--debug` is left out.
unfoldable pub main : System → List Bytes → Start
main sys [] = start_words sys []
main sys (w ∷ words) =
    if str_eq w (codes "--debug") then start_words sys words else start_words sys (w ∷ words)
