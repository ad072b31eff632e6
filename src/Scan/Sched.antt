-- ===== src/Scan/Sched.antt =====
-- `parse_sched_scan` of wifi/iw/scan.c: the words of a scheduled scan, for `iw dev <name> scan sched_start`
-- and for the net-detect of WoWLAN. `nlmsg_alloc` is taken to succeed.
pub mod Ends
pub mod Lost
mod Words
unfoldable pub use Words.*
use nl.Base.{
  zero, suc, length, ◌*◌, ◌+◌, not, ◌||◌, ℕ, bit_or, Bool, true, false, Bytes, Option, none, some,
  List, [], ◌∷◌, drop, codes, ◌==◌, if◌then◌else◌,
}
use nl.Libc.{str_eq, starts_with, strtoul, to_u32}
use nl.Nl80211.Attr
use nl.Netlink.{enobufs, Netlink, Result, ok, err, Code, einval}
use nl.Util.RandomMac.{parse_random_mac_addr}
use nl.Scan.Request.{
  kept, flag_flush, flag_random_addr, flag_colocated_6ghz, is_random, whole_number,
}
use nl.Scan.Sched.Words.{
  no_sched_args, match_attr_ssid, plan_interval, plan_iterations, top_words, by_beginning, find_top,
  as_top_word, plan_count, plan_parts, read_plan, NdState, SchedArgs, TopWord, nd_toplevel,
  nd_match, nd_freqs, nd_active, nd_plans, t_interval, t_scan_plans, t_delay, t_matches, t_freqs,
  t_active, t_passive, t_randomise, t_other, t_flag,
}

module _ (n : Netlink) where
  open n use {
    Msg, Nest, nla_put, nla_put_u32, nla_nest_start, nla_nest_end, nlmsg_alloc, nla_put_nested,
  }

  -- The variables with the message and those for the lists.
  pub record SchedState : Type 0 where
    pub args : SchedArgs
    pub msg : Msg
    pub matchset : Msg
    pub freqs : Msg
    pub ssids : Msg
    pub scan_plans : Msg

  -- `err`, with `none` for 0, the message, and the words from `*argv` on. Behind an error no caller uses the
  -- message.
  pub record Ended : Type 0 where
    pub code : Option Code
    pub msg : Msg
    pub words : List Bytes

  -- A round goes on with the words that are left, or it leaves.
  pub data SchedStep : Type 0 where
    next : SchedState → List Bytes → SchedStep
    leave : Ended → SchedStep

  -- `err = code; goto nla_put_failure`, and the same from NLA_PUT, which assigns nothing.
  abbrev pub fail : SchedState → Code → List Bytes → SchedStep
  fail s code words = leave record { code = some code; msg = s.msg; words = words }

  abbrev pub stop : SchedState → List Bytes → SchedStep
  stop s words = leave record { code = none; msg = s.msg; words = words }

  abbrev pub put_or_stop : SchedState → List Bytes → Option Msg → (Msg → SchedStep) → SchedStep
  put_or_stop s words none after = stop s words
  put_or_stop s words (some m) after = after m

  -- The number behind "interval" or "delay", and how it goes on.
  abbrev pub put_interval : SchedState → Bytes → List Bytes → Option ℕ → SchedStep
  put_interval s x words none = fail s einval (x ∷ words)
  put_interval s x words (some v) =
      if v == 0
      then fail s einval (x ∷ words)
      else put_or_stop s (x ∷ words) (nla_put_u32 s.msg Attr.sched_scan_interval v)
          (λ m. next (record s { msg = m; args = record s.args { interval = v } }) words)

  abbrev pub put_delay : SchedState → Bytes → List Bytes → Option ℕ → SchedStep
  put_delay s x words none = fail s einval (x ∷ words)
  put_delay s x words (some v) =
      put_or_stop s (x ∷ words) (nla_put_u32 s.msg Attr.sched_scan_delay v)
        (λ m. next (record s { msg = m; args = record s.args { delay = v } }) words)

  unfoldable pub interval_word : SchedState → List Bytes → SchedStep
  interval_word s [] = fail s einval []
  interval_word s (x ∷ words) =
      if not (s.args.interval == 0) || s.args.have_plans
      then fail s einval (x ∷ words)
      else put_interval s x words (whole_number x)

  unfoldable pub delay_word : SchedState → List Bytes → SchedStep
  delay_word s [] = fail s einval []
  delay_word s (x ∷ words) =
      if not (s.args.delay == 0)
      then fail s einval (x ∷ words)
      else put_delay s x words (whole_number x)

  -- A word that opens a list, or -EINVAL if it may not.
  unfoldable pub enter : Bool → SchedState → SchedArgs → Bytes → List Bytes → SchedStep
  enter bad s args w words =
      if bad then fail s einval (w ∷ words) else next (record s { args = args }) words

  abbrev pub after_random_mac : SchedState → Bytes → List Bytes → Result Msg → SchedStep
  after_random_mac s w words (err code) = fail s code (w ∷ words)
  after_random_mac s w words (ok m) =
      next
        (record s {
          msg = m;
          args = record s.args { flags = bit_or s.args.flags flag_random_addr };
        })
        words

  abbrev pub top_action : Bytes → Bytes → SchedState → Bytes → List Bytes → TopWord → SchedStep
  top_action addr mask s w words t_interval = interval_word s words
  top_action addr mask s w words t_scan_plans =
      enter (s.args.have_plans || not (s.args.interval == 0)) s
        (record s.args { state = nd_plans; have_plans = true; i = 0 }) w words
  top_action addr mask s w words t_delay = delay_word s words
  top_action addr mask s w words t_matches =
      enter s.args.have_matchset s (record s.args { state = nd_match; i = 0 }) w words
  top_action addr mask s w words t_freqs =
      enter s.args.have_freqs s (record s.args { state = nd_freqs; have_freqs = true; i = 0 }) w
        words
  top_action addr mask s w words t_active =
      enter (s.args.have_active || s.args.have_passive) s
        (record s.args { state = nd_active; have_active = true; i = 0 }) w words
  top_action addr mask s w words t_passive =
      enter (s.args.have_active || s.args.have_passive) s (record s.args { have_passive = true }) w
        words
  top_action addr mask s w words t_randomise =
      after_random_mac s w words (parse_random_mac_addr n addr mask s.msg (drop 9 w))
  top_action addr mask s w words (t_flag v) =
      next (record s { args = record s.args { flags = bit_or s.args.flags v } }) words
  top_action addr mask s w words t_other = stop s (w ∷ words)

  -- A word that is no part of the list ends it, if the list has a part.
  unfoldable pub end_list : SchedState → List Bytes → SchedStep
  end_list s words =
      if s.args.i == 0
      then fail s einval words
      else next (record s { args = record s.args { state = nd_toplevel } }) words

  -- The SSID of a match in a nest of its own.
  abbrev pub close_match : SchedState → Bytes → List Bytes → Nest → Option Msg → SchedStep
  close_match s x words nest none = stop s (x ∷ words)
  close_match s x words nest (some m) =
      next
        (record s {
          matchset = nla_nest_end m nest;
          args = record s.args { have_matchset = true; i = s.args.i + 1 };
        })
        words

  abbrev pub open_match : SchedState → Bytes → List Bytes → Option (Nest × Msg) → SchedStep
  open_match s x words none = fail s enobufs (x ∷ words)
  open_match s x words (some (nest, m)) = close_match s x words nest (nla_put m match_attr_ssid x)

  unfoldable pub match_ssid : SchedState → List Bytes → SchedStep
  match_ssid s [] = fail s einval []
  match_ssid s (x ∷ words) = open_match s x words (nla_nest_start s.matchset s.args.i)

  unfoldable pub active_ssid : SchedState → List Bytes → SchedStep
  active_ssid s [] = fail s einval []
  active_ssid s (x ∷ words) = put_or_stop s (x ∷ words) (nla_put s.ssids match_attr_ssid x) (λ m.
      next (record s { ssids = m; args = record s.args { have_ssids = true; i = s.args.i + 1 } })
        words)

  unfoldable pub freqs_word : SchedState → Bytes → List Bytes → Option ℕ → SchedStep
  freqs_word s w words none = end_list s (w ∷ words)
  freqs_word s w words (some v) =
      put_or_stop s (w ∷ words) (nla_put_u32 s.freqs s.args.i v)
        (λ m. next (record s { freqs = m; args = record s.args { i = s.args.i + 1 } }) words)

  -- Iterations, or the end of the plans.
  abbrev pub close_plan :
      SchedState → Bytes → List Bytes → Nest → ℕ → NdState → Option Msg → SchedStep
  close_plan s w words nest interval state none = stop s (w ∷ words)
  close_plan s w words nest interval state (some m) =
      next
        (record s {
          scan_plans = nla_nest_end m nest;
          args = record s.args { interval = interval; state = state; i = s.args.i + 1 };
        })
        words

  abbrev pub put_plan : SchedState → Bytes → List Bytes → Nest → ℕ → ℕ → Option Msg → SchedStep
  put_plan s w words nest interval iterations none = stop s (w ∷ words)
  put_plan s w words nest interval iterations (some m) =
      if iterations == 0
      then close_plan s w words nest interval nd_toplevel (some m)
      else close_plan s w words nest interval nd_plans (nla_put_u32 m plan_iterations iterations)

  abbrev pub open_plan : SchedState → Bytes → List Bytes → ℕ × ℕ → Option (Nest × Msg) → SchedStep
  open_plan s w words (interval, iterations) none = fail s enobufs (w ∷ words)
  open_plan s w words (interval, iterations) (some (nest, m)) =
      put_plan s w words nest interval iterations (nla_put_u32 m plan_interval interval)

  unfoldable pub plans_word : SchedState → Bytes → List Bytes → Option (ℕ × ℕ) → SchedStep
  plans_word s w words none = fail s einval (w ∷ words)
  plans_word s w words (some p) = open_plan s w words p (nla_nest_start s.scan_plans (s.args.i + 1))

  -- One round.
  unfoldable pub sched_step : Bytes → Bytes → NdState → SchedState → Bytes → List Bytes → SchedStep
  sched_step addr mask nd_toplevel s w words = top_action addr mask s w words (as_top_word w)
  sched_step addr mask nd_match s w words =
      if str_eq w (codes "ssid") then match_ssid s words else end_list s (w ∷ words)
  sched_step addr mask nd_freqs s w words = freqs_word s w words (whole_number w)
  sched_step addr mask nd_active s w words =
      if str_eq w (codes "ssid") then active_ssid s words else end_list s (w ∷ words)
  sched_step addr mask nd_plans s w words = plans_word s w words (read_plan w)

  -- What follows the loop. Nobody reads what `nla_put_nested` returns.
  abbrev pub all_well : Msg → Ended
  all_well msg = record { code = none; msg = msg; words = [] }

  abbrev pub nested_if : Bool → ℕ → Msg → Msg → Msg
  nested_if have attr inner msg = if have then kept n msg (nla_put_nested msg attr inner) else msg

  abbrev pub sched_lists : SchedState → Msg → Ended
  sched_lists s ssids =
      let m1 = nested_if (not s.args.have_passive) Attr.scan_ssids ssids s.msg in
      let m2 = nested_if s.args.have_freqs Attr.scan_frequencies s.freqs m1 in
      let m3 = nested_if s.args.have_matchset Attr.sched_scan_match s.matchset m2 in
      let m4 = nested_if s.args.have_plans Attr.sched_scan_plans s.scan_plans m3 in
      if s.args.flags == 0
      then all_well m4
      else all_well (kept n m4 (nla_put_u32 m4 Attr.scan_flags s.args.flags))

  abbrev pub wildcard_or : SchedState → Option Msg → Ended
  wildcard_or s none = all_well s.msg
  wildcard_or s (some m) = sched_lists s m

  unfoldable pub write_sched : SchedState → Ended
  write_sched s =
      if s.args.have_ssids then sched_lists s s.ssids else wildcard_or s (nla_put s.ssids 1 [])

  abbrev pub after_step : SchedStep → (SchedState → List Bytes → Option Ended) → Option Ended
  after_step (next s words) again = again s words
  after_step (leave e) again = some e

  -- The loop, on fuel. A round takes a word, or it takes none and goes back to the state ND_TOPLEVEL.
  unfoldable pub sched_loop : (fuel : ℕ) → Bytes → Bytes → SchedState → List Bytes → Option Ended
  sched_loop zero addr mask s words = none
  sched_loop (suc fuel) addr mask s [] = some (write_sched s)
  sched_loop (suc fuel) addr mask s (w ∷ words) =
      after_step (sched_step addr mask s.args.state s w words) (sched_loop fuel addr mask)

  -- `addr` and `mask` are what the buffers of `parse_random_mac_addr` hold at first.
  unfoldable pub parse_sched_scan : Bytes → Bytes → Msg → List Bytes → Option Ended
  parse_sched_scan addr mask msg words =
      sched_loop (2 * length words + 2) addr mask
        record {
          args = no_sched_args;
          msg = msg;
          matchset = nlmsg_alloc;
          freqs = nlmsg_alloc;
          ssids = nlmsg_alloc;
          scan_plans = nlmsg_alloc;
        }
        words

  -- Zero or the error; the words that are left are not looked at.
  abbrev pub returned_code : Option Code → Msg → Result Msg
  returned_code none msg = ok msg
  returned_code (some code) msg = err code

  abbrev pub only_code : Option Ended → Option (Result Msg)
  only_code none = none
  only_code (some e) = some (returned_code e.code e.msg)

  unfoldable pub handle_start_sched_scan : Bytes → Bytes → Msg → List Bytes → Option (Result Msg)
  handle_start_sched_scan addr mask msg words = only_code (parse_sched_scan addr mask msg words)
