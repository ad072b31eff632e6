-- ===== src/Wowlan.antt =====
-- `handle_wowlan_enable` of wifi/iw/wowlan.c: the triggers on the command line, with the file for TCP, the
-- scheduled scan for net-detect and the packet patterns. `nlmsg_alloc` is taken to succeed.
pub mod Tcp
pub mod Ends
pub mod Triggers
use nl.Base.{
  none, some, if◌then◌else◌, codes, Option, ℕ, suc, zero, ◌+◌, Bytes, List, [], ◌∷◌, length,
}
use nl.Libc.{str_eq}
use nl.Nl80211.Attr
use nl.Nl80211.WowlanTrig
use nl.Netlink.{Netlink, Result, ok, err, Code, usage, explained, einval, enobufs, put_failed}
use nl.Run.{Run, done, refuse, fault}
use nl.Pattern.{pattern_text, put_pattern}
use nl.Scan.Request.{kept}
use nl.Scan.Sched.{Ended, parse_sched_scan, returned_code}
use nl.Wowlan.Tcp.{wowlan_parse_tcp_file}

pub data TriggerWord : Type 0 where
  t_flag : ℕ → TriggerWord
  t_tcp t_patterns t_net_detect t_other : TriggerWord

unfoldable pub as_trigger : Bytes → TriggerWord
as_trigger w =
    if str_eq w (codes "any")
    then t_flag WowlanTrig.any
    else if str_eq w (codes "disconnect")
    then t_flag WowlanTrig.disconnect
    else if str_eq w (codes "magic-packet")
    then t_flag WowlanTrig.magic_pkt
    else if str_eq w (codes "gtk-rekey-failure")
    then t_flag WowlanTrig.gtk_rekey_failure
    else if str_eq w (codes "eap-identity-request")
    then t_flag WowlanTrig.eap_ident_request
    else if str_eq w (codes "4way-handshake")
    then t_flag WowlanTrig.handshake_4way
    else if str_eq w (codes "rfkill-release")
    then t_flag WowlanTrig.rfkill_release
    else if str_eq w (codes "tcp")
    then t_tcp
    else if str_eq w (codes "patterns")
    then t_patterns
    else if str_eq w (codes "net-detect")
    then t_net_detect
    else t_other

-- What the code calls outside: `inet_aton`, and what the file of a name holds, if it can be opened. `addr`,
-- `mask` and `macbuf` are what buffers on the stack hold at first.
pub record Outside : Type 0 where
  pub inet_aton : Bytes → Option ℕ
  pub files : Bytes → Option Bytes
  pub addr : Bytes
  pub mask : Bytes
  pub macbuf : Bytes

module _ (n : Netlink) (o : Outside) where
  open n use {Msg, Nest, nla_put_flag, nla_nest_start, nla_nest_end, nlmsg_alloc, nla_put_nested}

  -- `parse_state`; in PS_PAT there is a message for the patterns, and `patnum` of them.
  pub data WowlanParse : Type 0 where
    ps_reg : WowlanParse
    ps_pat : (patterns : Msg) → (patnum : ℕ) → WowlanParse

  -- `code` is `err`, with `none` for 0: a put that fails leaves with what it holds.
  pub record WowlanState : Type 0 where
    pub parse_state : WowlanParse
    pub code : Option Code
    pub msg : Msg

  -- A round goes on with the words that are left, it leaves, or `parse_sched_scan` is out of fuel.
  pub data WowlanStep : Type 0 where
    next : WowlanState → List Bytes → WowlanStep
    leave : Run Msg → WowlanStep
    out_of_fuel : WowlanStep

  abbrev pub flag_put : WowlanState → List Bytes → Option Msg → WowlanStep
  flag_put s words none = leave (some (returned_code n s.code s.msg))
  flag_put s words (some m) = next (record s { msg = m }) words

  abbrev pub after_tcp : WowlanState → List Bytes → Run Msg → WowlanStep
  after_tcp s words none = leave fault
  after_tcp s words (some (err code)) = leave (refuse code)
  after_tcp s words (some (ok m)) = next (record s { code = none; msg = m }) words

  unfoldable pub tcp_word : WowlanState → List Bytes → WowlanStep
  tcp_word s [] = leave (refuse usage)
  tcp_word s (fn ∷ words) =
      after_tcp s words (wowlan_parse_tcp_file n o.inet_aton o.macbuf s.msg (o.files fn))

  abbrev pub net_result : WowlanState → Nest → List Bytes → Msg → Option Code → WowlanStep
  net_result s nd words m (some code) = leave (refuse code)
  net_result s nd words m none = next (record s { code = none; msg = nla_nest_end m nd }) words

  abbrev pub after_net : WowlanState → Nest → Option (Ended n) → WowlanStep
  after_net s nd none = out_of_fuel
  after_net s nd (some e) = net_result s nd e.words e.msg e.code

  -- `wowlan_parse_net_detect`
  abbrev pub net_nest : WowlanState → List Bytes → Option (Nest × Msg) → WowlanStep
  net_nest s words none = leave (refuse enobufs)
  net_nest s words (some (nd, m)) = after_net s nd (parse_sched_scan n o.addr o.mask m words)

  unfoldable pub net_detect_word : WowlanState → List Bytes → WowlanStep
  net_detect_word s [] = leave (refuse usage)
  net_detect_word s (w ∷ words) =
      net_nest s (w ∷ words) (nla_nest_start s.msg WowlanTrig.net_detect)

  -- A put that failed has set no code.
  abbrev pub pattern_code : WowlanState → Code → Run Msg
  pattern_code s enobufs = some (returned_code n s.code s.msg)
  pattern_code s usage = refuse usage
  pattern_code s explained = refuse explained
  pattern_code s put_failed = refuse put_failed
  pattern_code s einval = refuse einval

  abbrev pub after_pattern : WowlanState → ℕ → List Bytes → Run Msg → WowlanStep
  after_pattern s patnum words none = leave fault
  after_pattern s patnum words (some (err code)) = leave (pattern_code s code)
  after_pattern s patnum words (some (ok m)) =
      next (record s { parse_state = ps_pat m patnum }) words

  abbrev pub trigger : WowlanState → List Bytes → TriggerWord → WowlanStep
  trigger s words (t_flag attr) = flag_put s words (nla_put_flag s.msg attr)
  trigger s words t_tcp = tcp_word s words
  trigger s words t_patterns = next (record s { parse_state = ps_pat nlmsg_alloc 0 }) words
  trigger s words t_net_detect = net_detect_word s words
  trigger s words t_other = leave (refuse usage)

  -- One round. `strlen` of a pattern without a value is a read through a null pointer.
  unfoldable pub wowlan_step : WowlanParse → WowlanState → Bytes → List Bytes → WowlanStep
  wowlan_step ps_reg s w words = trigger s words (as_trigger w)
  wowlan_step (ps_pat patterns patnum) s w words =
      after_pattern s (patnum + 1) words
        (put_pattern n fault (patnum + 1) patterns (pattern_text w))

  -- What follows the loop; nobody reads what `nla_put_nested` returns.
  abbrev pub with_patterns : Msg → WowlanParse → Msg
  with_patterns msg ps_reg = msg
  with_patterns msg (ps_pat patterns patnum) =
      kept n msg (nla_put_nested msg WowlanTrig.pkt_pattern patterns)

  abbrev pub after_step :
      Nest → WowlanStep → (WowlanState → List Bytes → Option (Run Msg)) → Option (Run Msg)
  after_step wowlan (next s words) again = again s words
  after_step wowlan (leave r) again = some r
  after_step wowlan out_of_fuel again = none

  -- The loop, on fuel. Each round takes a word.
  unfoldable pub wowlan_loop : (fuel : ℕ) → Nest → WowlanState → List Bytes → Option (Run Msg)
  wowlan_loop zero wowlan s words = none
  wowlan_loop (suc fuel) wowlan s [] =
      some (done (nla_nest_end (with_patterns s.msg s.parse_state) wowlan))
  wowlan_loop (suc fuel) wowlan s (w ∷ words) =
      after_step wowlan (wowlan_step s.parse_state s w words) (wowlan_loop fuel wowlan)

  abbrev pub with_triggers : List Bytes → Option (Nest × Msg) → Option (Run Msg)
  with_triggers words none = some (refuse enobufs)
  with_triggers words (some (wowlan, msg)) =
      wowlan_loop (suc (length words)) wowlan
        record { parse_state = ps_reg; code = some enobufs; msg = msg } words

  unfoldable pub handle_wowlan_enable : Msg → (words : List Bytes) → Option (Run Msg)
  handle_wowlan_enable msg words = with_triggers words (nla_nest_start msg Attr.wowlan_triggers)

  -- A message with no triggers.
  abbrev pub handle_wowlan_disable : Msg → Run Msg
  handle_wowlan_disable msg = done msg
