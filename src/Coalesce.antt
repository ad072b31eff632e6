-- ===== src/Coalesce.antt =====
-- `handle_coalesce_enable` of wifi/iw/coalesce.c: a file of rules, each of three lines.
pub mod Rules
pub mod Accepted
pub mod Sound
use nl.Nl80211.Attr
use nl.Nl80211.CoalesceRule
use nl.Netlink.{Netlink, usage, enobufs}
use nl.Run.{Run, done, refuse, fault, ◌>>=◌, put_or}
use nl.Scan.Request.{whole_number}
use nl.Pattern.{pattern_text, put_pattern}
use nl.ConfigFile.{file_lines}
use nl.Base.{
  none, some, if◌then◌else◌, codes, Option, ℕ, ◌+◌, Bool, length, Bytes, List, [], ◌∷◌, ◌++◌, take,
  drop,
}
use nl.Libc.{strtoul, to_u32, split_on, starts_with, cut, fgets_all}

-- The name of a line and what follows it, if the line begins with the name.
abbrev pub behind : Bytes → Bytes → Option Bytes
behind name line = if starts_with name line then some (drop (length name) line) else none

module _ (n : Netlink) where
  open n use {Msg, Nest, nla_put_u32, nla_nest_start, nla_nest_end}

  -- `parse_state`; behind PS_DELAY the nest of the rule is open.
  pub data CoalesceParse : Type 0 where
    ps_delay : CoalesceParse
    ps_condition ps_patterns : Nest → CoalesceParse

  pub record CoalesceState : Type 0 where
    pub parse_state : CoalesceParse
    pub rule_num : ℕ
    pub patnum : ℕ
    pub msg : Msg

  -- The number of a rule; it is put before the text behind it is looked at.
  abbrev pub all_number : {A : Type 0} → ℕ × Bytes × Bool → A → Run A
  all_number (v, [], found) after = done after
  all_number (v, c ∷ rest, found) after = refuse usage

  abbrev pub open_rule : CoalesceState → ℕ × Bytes × Bool → Option (Nest × Msg) → Run CoalesceState
  open_rule s delay none = refuse usage
  open_rule s delay (some (nl_rule, m)) =
      put_or enobufs (nla_put_u32 m CoalesceRule.delay (to_u32 delay.0)) >>= λ m'.
      all_number delay
        (record s { parse_state = ps_condition nl_rule; rule_num = s.rule_num + 1; msg = m' })

  unfoldable pub delay_line : CoalesceState → Option Bytes → Run CoalesceState
  delay_line s none = refuse usage
  delay_line s (some delay) = open_rule s (strtoul delay 10) (nla_nest_start s.msg (s.rule_num + 1))

  abbrev pub put_condition : CoalesceState → Nest → Option ℕ → Run CoalesceState
  put_condition s nl_rule none = refuse usage
  put_condition s nl_rule (some condition) =
      put_or enobufs (nla_put_u32 s.msg CoalesceRule.condition condition) >>= λ m.
      done (record s { parse_state = ps_patterns nl_rule; msg = m })

  abbrev pub condition_text : CoalesceState → Nest → Option Bytes → Run CoalesceState
  condition_text s nl_rule none = refuse usage
  condition_text s nl_rule (some cond) = put_condition s nl_rule (whole_number cond)

  unfoldable pub condition_line : CoalesceState → Nest → Bytes → Run CoalesceState
  condition_line s nl_rule line = condition_text s nl_rule (behind (codes "condition=") line)

  -- The patterns between the commas; each has the next number.
  unfoldable pub pattern_loop : ℕ → Msg → List Bytes → Run (ℕ × Msg)
  pattern_loop patnum msg [] = done (patnum, msg)
  pattern_loop patnum msg (cur_pat ∷ pats) =
      put_pattern n (refuse usage) (patnum + 1) msg (pattern_text cur_pat) >>= λ m.
      pattern_loop (patnum + 1) m pats

  -- The nest of the patterns; nobody tests whether it was started.
  abbrev pub close_rule : CoalesceState → Nest → Nest → ℕ × Msg → Run CoalesceState
  close_rule s nl_rule nl_pats (patnum, m) = done (record s {
    parse_state = ps_delay;
    patnum = patnum;
    msg = nla_nest_end (nla_nest_end m nl_pats) nl_rule;
  })

  abbrev pub put_patterns :
      CoalesceState → Nest → List Bytes → Option (Nest × Msg) → Run CoalesceState
  put_patterns s nl_rule pats none = pattern_loop s.patnum s.msg pats >>= λ r. fault
  put_patterns s nl_rule pats (some (nl_pats, m)) =
      pattern_loop s.patnum m pats >>= close_rule s nl_rule nl_pats

  abbrev pub patterns_text : CoalesceState → Nest → Option Bytes → Run CoalesceState
  patterns_text s nl_rule none = refuse usage
  patterns_text s nl_rule (some pats) =
      put_patterns s nl_rule (split_on b',' pats) (nla_nest_start s.msg CoalesceRule.pkt_pattern)

  unfoldable pub patterns_line : CoalesceState → Nest → Bytes → Run CoalesceState
  patterns_line s nl_rule line = patterns_text s nl_rule (behind (codes "patterns=") line)

  -- A line in each of the states. The case for comments comes behind these and is never reached.
  unfoldable pub coalesce_line : CoalesceParse → CoalesceState → Bytes → Run CoalesceState
  coalesce_line ps_delay s line = delay_line s (behind (codes "delay=") line)
  coalesce_line (ps_condition nl_rule) s line = condition_line s nl_rule line
  coalesce_line (ps_patterns nl_rule) s line = patterns_line s nl_rule line

  unfoldable pub coalesce_loop : CoalesceState → List Bytes → Run CoalesceState
  coalesce_loop s [] = done s
  coalesce_loop s (line ∷ lines) =
      coalesce_line s.parse_state s line >>= λ s'. coalesce_loop s' lines

  abbrev pub finish_rules : Nest → CoalesceParse → Msg → Run Msg
  finish_rules nl_rules ps_delay m = done (nla_nest_end m nl_rules)
  finish_rules nl_rules _ m = refuse usage

  abbrev pub read_rules : List Bytes → Option (Nest × Msg) → Run Msg
  read_rules lines none = refuse enobufs
  read_rules lines (some (nl_rules, m)) =
      coalesce_loop record { parse_state = ps_delay; rule_num = 0; patnum = 0; msg = m } lines
      >>= λ s. finish_rules nl_rules s.parse_state s.msg

  -- `file` is what the file holds, if it can be opened.
  unfoldable pub handle_coalesce_enable : Msg → (file : Option Bytes) → Run Msg
  handle_coalesce_enable msg none = refuse usage
  handle_coalesce_enable msg (some file) =
      read_rules (file_lines file) (nla_nest_start msg Attr.coalesce_rule)

  -- A message with no rules.
  abbrev pub handle_coalesce_disable : Msg → Run Msg
  handle_coalesce_disable msg = done msg
