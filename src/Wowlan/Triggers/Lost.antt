-- ===== src/Wowlan/Triggers/Lost.antt =====
-- A put that fails behind a code that was overwritten.
use nl.Base.{
  ◌≤◌, none, some, ℕ, suc, zero, ◌<◌, Bool, true, false, Option, if◌then◌else◌, Bytes, List, ◌∷◌,
  length, ◌≡◌, refl, ◌∙◌, sym, arith,
}
use mathlib.Core.Option.{some-injective}
use nl.Nl80211.Attr
use nl.Nl80211.WowlanTrig
use nl.Netlink.{Netlink, Code, enobufs}
use nl.Run.{done}
use nl.Scan.Sched.{Ended, parse_sched_scan, returned_code}
use nl.Scan.Sched.Ends.{parse_sched_scan-Ended}
use nl.Wowlan.{
  t_flag, t_tcp, t_net_detect, as_trigger, Outside, tcp_word, net_detect_word, wowlan_step,
  wowlan_loop, handle_wowlan_enable,
}
use nl.Wowlan.Tcp.{wowlan_parse_tcp_file}
use nl.Wowlan.Triggers.{at_triggers}

-- `err` where a put fails: the code it was set to at first, or 0 once a call has overwritten it.
abbrev pub code_left : Bool → Option Code
code_left overwritten = if overwritten then none else some enobufs

module _ (n : Netlink) (o : Outside) where
  open n use {Msg, Nest, nla_put_flag, nla_nest_start, nla_nest_end}

  -- Words that the loop takes outside the patterns, with what they make of the message, up to the words
  -- `ws'`: flags that find room, "tcp" with a file that is read, and "net-detect" with a scheduled scan that
  -- is read and the words this leaves. The two last overwrite `err`.
  pub data Taken (b' : Bool) (m' : Msg) (ws' : List Bytes) : Bool → Msg → List Bytes → Type 0 where
    taken_all :
        {b : Bool} {m : Msg} {ws : List Bytes} → b ≡ b' → m ≡ m' → ws ≡ ws' → Taken b' m' ws' b m ws
    taken_flag :
        {b : Bool} {m : Msg} (w : Bytes) {ws : List Bytes} (attr : ℕ) (m1 : Msg)
        → as_trigger w ≡ t_flag attr
        → nla_put_flag m attr ≡ some m1
        → Taken b' m' ws' b m1 ws
        → Taken b' m' ws' b m (w ∷ ws)
    taken_tcp :
        {b : Bool} {m : Msg} (w fn : Bytes) {ws : List Bytes} (m1 : Msg)
        → as_trigger w ≡ t_tcp
        → wowlan_parse_tcp_file n o.inet_aton o.macbuf m (o.files fn) ≡ done m1
        → Taken b' m' ws' true m1 ws
        → Taken b' m' ws' b m (w ∷ fn ∷ ws)
    taken_net_detect :
        {b : Bool} {m : Msg} (w x : Bytes) {ws : List Bytes} (nd : Nest) (inner : Msg) (e : Ended n)
        → as_trigger w ≡ t_net_detect
        → nla_nest_start m WowlanTrig.net_detect ≡ some (nd, inner)
        → parse_sched_scan n o.addr o.mask inner (x ∷ ws) ≡ some e
        → e.code ≡ none
        → Taken b' m' ws' true (nla_nest_end e.msg nd) e.words
        → Taken b' m' ws' b m (w ∷ x ∷ ws)

  full_flag :
      (fuel : ℕ) (wowlan : Nest) (b b' : Bool) (m m' : Msg) (ws rest : List Bytes) (word : Bytes)
      (attr : ℕ)
      → length ws < fuel
      → b ≡ b'
      → m ≡ m'
      → ws ≡ word ∷ rest
      → as_trigger word ≡ t_flag attr
      → nla_put_flag m' attr ≡ none
      → wowlan_loop n o fuel wowlan (at_triggers n o (code_left b) m) ws
        ≡ some (some (returned_code n (code_left b') m'))
  unfolding wowlan_loop wowlan_step
  full_flag zero wowlan b b' m m' ws rest word attr less same_b same_m same_ws is full =
      absurd (omega arith)
  full_flag (suc fuel) wowlan b b' m m' ws rest word attr less same_b same_m same_ws is full =
      rw (same_b, same_m, same_ws, is, full) refl

  Taken-wowlan_loop :
      (b' : Bool) (m' : Msg) (rest : List Bytes) (word : Bytes) (attr : ℕ) (b : Bool) (m : Msg)
      (ws : List Bytes)
      → Taken b' m' (word ∷ rest) b m ws
      → as_trigger word ≡ t_flag attr
      → nla_put_flag m' attr ≡ none
      → (fuel : ℕ) (wowlan : Nest) → length ws < fuel
      → wowlan_loop n o fuel wowlan (at_triggers n o (code_left b) m) ws
        ≡ some (some (returned_code n (code_left b') m'))
  unfolding wowlan_loop wowlan_step tcp_word net_detect_word
  Taken-wowlan_loop b' m' rest word attr b m ws (taken_all same_b same_m same_ws) is full fuel
        wowlan less =
      full_flag fuel wowlan b b' m m' ws rest word attr less same_b same_m same_ws is full
  Taken-wowlan_loop b' m' rest word attr b m ws t is full zero wowlan less = absurd (omega arith)
  Taken-wowlan_loop b' m' rest word attr b m _ (taken_flag w {ws} at m1 w_is put t) is full
        (suc fuel) wowlan less =
      rw (w_is, put)
        (Taken-wowlan_loop b' m' rest word attr b m1 ws t is full fuel wowlan (omega arith))
  Taken-wowlan_loop b' m' rest word attr b m _ (taken_tcp w fn {ws} m1 w_is read t) is full
        (suc fuel) wowlan less =
      rw (w_is, read)
        (Taken-wowlan_loop b' m' rest word attr true m1 ws t is full fuel wowlan (omega arith))
  Taken-wowlan_loop b' m' rest word attr b m _
        (taken_net_detect w x {ws} nd inner e w_is started read good t) is full (suc fuel) wowlan
        less =
      let (e2, ended, size) = parse_sched_scan-Ended n o.addr o.mask inner (x ∷ ws) in
      let same = some-injective e e2 (sym read ∙ ended) in
      let left : length e.words ≤ length (x ∷ ws) = rw same size in
      rw (w_is, started, read, good)
        (Taken-wowlan_loop b' m' rest word attr true (nla_nest_end e.msg nd) e.words t is full fuel
          wowlan (omega arith))

  -- If the nest of the triggers can be started: behind words that the loop takes, which are flags
  -- that find room, files for TCP that are read and net-detects whose scheduled scan is read, a flag
  -- that finds no room ends the handler, and the words behind it are not read. It returns the error
  -- if no file for TCP and no net-detect was among the words; behind one of these it returns 0 with
  -- the message as it is, in which the nest of the triggers is not ended.
  pub handle_wowlan_enable-code_left :
      (overwritten : Bool) (words rest : List Bytes) (word : Bytes) (attr : ℕ) (msg inside m : Msg)
      (wowlan : Nest)
      → nla_nest_start msg Attr.wowlan_triggers ≡ some (wowlan, inside)
      → Taken overwritten m (word ∷ rest) false inside words
      → as_trigger word ≡ t_flag attr
      → nla_put_flag m attr ≡ none
      → handle_wowlan_enable n o msg words ≡ some (some (returned_code n (code_left overwritten) m))
  unfolding handle_wowlan_enable
  handle_wowlan_enable-code_left overwritten words rest word attr msg inside m wowlan started t is
        full =
      rw started (
        Taken-wowlan_loop overwritten m rest word attr false inside words t is full
          (suc (length words)) wowlan (omega arith))
