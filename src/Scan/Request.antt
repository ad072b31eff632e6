-- ===== src/Scan/Request.antt =====
-- `handle_scan` of wifi/iw/scan.c: the words of `iw dev <name> scan trigger`, and the message that they
-- make. `malloc` and `nlmsg_alloc` are taken to succeed.
pub mod Plain
pub mod Reject
mod Words
unfoldable pub use Words.*
use nl.Base.{
  ℕ, ◌+◌, ◌%◌, ◌^◌, bit_or, Bool, true, false, ◌||◌, Bytes, Option, none, some, List, [], ◌∷◌, ◌++◌,
  length, take, drop, codes, ◌==◌, if◌then◌else◌,
}
use nl.Libc.{str_eq, starts_with, strtoul, to_u32}
use nl.Nl80211.Attr
use nl.Netlink.{Netlink, Result, ok, err, usage, einval, enobufs}
use nl.Util.HexMask.{HexResult, parsed, rejected, overrun, out_of_fuel, parse_hex}
use nl.Util.RandomMac.{parse_random_mac_addr}
use nl.Scan.Request.Words.{
  no_args, flag_flush, flag_random_addr, flag_colocated_6ghz, scan_words, more_words, find_word,
  is_random, or_else, as_scan_word, all_of, whole_number, mesh_element, Parse, ScanArgs, ScanWord,
  p_none, p_freq, p_ies, p_ssid, p_meshid, p_duration, p_done, w_freq, w_ies, w_duration_mandatory,
  w_randomise, w_ssid, w_passive, w_meshid, w_duration, w_flag,
}

module _ (n : Netlink) where
  open n use {Msg, nla_put, nla_put_u16, nla_put_u32, nla_put_flag, nlmsg_alloc, nla_put_nested}

  -- The variables with the message and those for the lists.
  pub record ScanState : Type 0 where
    pub args : ScanArgs
    pub msg : Msg
    pub ssids : Msg
    pub freqs : Msg

  -- One round: it goes on, it leaves with what the handler returns, or it stores behind a buffer.
  pub data ScanStep : Type 0 where
    next : ScanState → ScanStep
    leave : Result Msg → ScanStep
    fault : ScanStep

  -- `goto nla_put_failure` without an assignment to `err`.
  abbrev pub give_up : Bool → Msg → Result Msg
  give_up true msg = ok msg
  give_up false msg = err enobufs

  abbrev pub or_give_up : Bool → Msg → Option Msg → (Msg → Result Msg) → Result Msg
  or_give_up returned msg none after = give_up returned msg
  or_give_up returned msg (some m) after = after m

  -- The result of `parse_random_mac_addr`.
  abbrev pub after_random : ScanState → Result Msg → ScanStep
  after_random s (err code) = leave (err code)
  after_random s (ok m) = next (record s {
    msg = m;
    args = record s.args { flags = bit_or s.args.flags flag_random_addr; returned = true };
  })

  abbrev pub word_action : Bytes → Bytes → ScanState → Bytes → Option ScanWord → ScanStep
  word_action addr mask s arg none = leave (err usage)
  word_action addr mask s arg (some w_freq) =
      next (record s { args = record s.args { parse = p_freq; have_freqs = true } })
  word_action addr mask s arg (some w_ies) =
      next (record s { args = record s.args { parse = p_ies } })
  word_action addr mask s arg (some (w_flag v)) =
      next (record s { args = record s.args { flags = bit_or s.args.flags v } })
  word_action addr mask s arg (some w_duration_mandatory) =
      next (record s { args = record s.args { duration_mandatory = true } })
  word_action addr mask s arg (some w_randomise) =
      after_random s (parse_random_mac_addr n addr mask s.msg (drop 9 arg))
  word_action addr mask s arg (some w_ssid) =
      next (record s { args = record s.args { parse = p_ssid; have_ssids = true } })
  word_action addr mask s arg (some w_passive) =
      next (record s { args = record s.args { parse = p_done; passive = true } })
  word_action addr mask s arg (some w_meshid) =
      next (record s { args = record s.args { parse = p_meshid } })
  word_action addr mask s arg (some w_duration) =
      next (record s { args = record s.args { parse = p_duration } })

  -- A word in the state NONE.
  unfoldable pub none_word : Bytes → Bytes → ScanState → Bytes → ScanStep
  none_word addr mask s arg = word_action addr mask s arg (as_scan_word arg)

  abbrev pub store_freqs : ScanState → Option Msg → ScanStep
  store_freqs s none = leave (give_up s.args.returned s.msg)
  store_freqs s (some m) = next (record s { freqs = m })

  abbrev pub store_ssids : ScanState → Option Msg → ScanStep
  store_ssids s none = leave (give_up s.args.returned s.msg)
  store_ssids s (some m) = next (record s { ssids = m })

  -- A number is a frequency; any other word ends the list and is read again in the state NONE.
  abbrev pub freq_word : Bytes → Bytes → ScanState → ℕ → Bytes → Option ℕ → ScanStep
  freq_word addr mask s i arg none =
      none_word addr mask (record s { args = record s.args { parse = p_none } }) arg
  freq_word addr mask s i arg (some v) = store_freqs s (nla_put_u32 s.freqs i v)

  -- The loop of `parse_hex` has fuel enough.
  abbrev pub store_ies : ScanState → HexResult → ScanStep
  store_ies s (parsed bytes bits len) =
      next (record s { args = record s.args { parse = p_none; ies = some (take len bytes) } })
  store_ies s rejected = leave (give_up s.args.returned s.msg)
  store_ies s overrun = fault
  store_ies s out_of_fuel = fault

  abbrev pub scan_word : Bytes → Bytes → Parse → ScanState → ℕ → Bytes → ScanStep
  scan_word addr mask p_none s i arg = none_word addr mask s arg
  scan_word addr mask p_done s i arg = leave (err usage)
  scan_word addr mask p_freq s i arg = freq_word addr mask s i arg (whole_number arg)
  scan_word addr mask p_ies s i arg = store_ies s (parse_hex arg)
  scan_word addr mask p_ssid s i arg = store_ssids s (nla_put s.ssids i arg)
  scan_word addr mask p_meshid s i arg =
      next (record s { args = record s.args { parse = p_none; meshid = some (mesh_element arg) } })
  scan_word addr mask p_duration s i arg =
      next
        (record s { args = record s.args { parse = p_none; duration = to_u32 (strtoul arg 10).0 } })

  abbrev pub after_word : ScanStep → (ScanState → Option (Result Msg)) → Option (Result Msg)
  after_word (next s) rest = rest s
  after_word (leave r) rest = some r
  after_word fault rest = none

  -- `ies` and the element of the mesh ID in one attribute.
  abbrev pub all_ies : Option Bytes → Option Bytes → Option Bytes
  all_ies none none = none
  all_ies (some i) none = some i
  all_ies none (some m) = some m
  all_ies (some i) (some m) = some (i ++ m)

  abbrev pub put_ies : Bool → Msg → Option Bytes → (Msg → Result Msg) → Result Msg
  put_ies returned msg none after = after msg
  put_ies returned msg (some v) after = or_give_up returned msg (nla_put msg Attr.ie v) after

  -- `nla_put_nested` whose result nobody reads.
  abbrev pub kept : Msg → Option Msg → Msg
  kept msg none = msg
  kept msg (some m) = m

  abbrev pub put_duration : ScanArgs → Msg → Result Msg
  put_duration a msg =
      if a.duration_mandatory
      then (if a.duration == 0
          then err einval
          else or_give_up a.returned msg (nla_put_flag msg Attr.measurement_duration_mandatory) ok)
      else ok msg

  abbrev pub put_durations : ScanArgs → Msg → Result Msg
  put_durations a msg =
      if a.duration == 0
      then put_duration a msg
      else or_give_up a.returned msg
          (nla_put_u16 msg Attr.measurement_duration (a.duration % 2 ^ 16)) (put_duration a)

  abbrev pub put_flags : ScanArgs → ℕ → Msg → Result Msg
  put_flags a flags msg =
      if flags == 0
      then put_durations a msg
      else or_give_up a.returned msg (nla_put_u32 msg Attr.scan_flags flags) (put_durations a)

  abbrev pub put_lists : ScanState → Msg → Msg → Result Msg
  put_lists s msg ssids =
      let a = s.args in
      let m1 = if a.passive then msg else kept msg (nla_put_nested msg Attr.scan_ssids ssids) in
      if a.have_freqs
      then put_flags a a.flags (kept m1 (nla_put_nested m1 Attr.scan_frequencies s.freqs))
      else put_flags a (bit_or a.flags flag_colocated_6ghz) m1

  -- What follows the loop. Without a list of SSIDs there is one wildcard.
  unfoldable pub write_scan : ScanState → Result Msg
  write_scan s = put_ies s.args.returned s.msg (all_ies s.args.ies s.args.meshid) (λ msg.
      if s.args.have_ssids
      then put_lists s msg s.ssids
      else or_give_up s.args.returned msg (nla_put s.ssids 1 []) (put_lists s msg))

  -- The loop over the words from `argv[i]` on.
  unfoldable pub scan_loop : Bytes → Bytes → ScanState → ℕ → List Bytes → Option (Result Msg)
  scan_loop addr mask s i [] = some (write_scan s)
  scan_loop addr mask s i (arg ∷ args) =
      after_word (scan_word addr mask s.args.parse s i arg)
        (λ s'. scan_loop addr mask s' (i + 1) args)

  -- `addr` and `mask` are what the buffers of `parse_random_mac_addr` hold at first; `none` is a store
  -- behind a buffer.
  unfoldable pub handle_scan : Bytes → Bytes → Msg → List Bytes → Option (Result Msg)
  handle_scan addr mask msg args =
      scan_loop addr mask
        record { args = no_args; msg = msg; ssids = nlmsg_alloc; freqs = nlmsg_alloc } 0 args
