-- ===== src/Coalesce/Sound.antt =====
-- The files of rules that are accepted.
use nl.Base.{◌∙◌, ℕ, Bytes, Option, none, some, List, [], ◌∷◌, codes, All, ◌≡◌, refl, ap, sym}
use nl.Libc.{split_on}
use nl.Nl80211.Attr
use nl.Netlink.{Netlink}
use nl.Run.{done}
use nl.Run.Laws.{>>=-eq-done}
use nl.Scan.Request.{whole_number}
use nl.ConfigFile.{file_lines}
use nl.Coalesce.Accepted.{
  IsPatternText, delay_line-eq-done, condition_text-eq-done, patterns_text-eq-done,
}
use nl.Coalesce.{
  finish_rules, patterns_line, condition_line, handle_coalesce_enable, read_rules, CoalesceParse,
  coalesce_line, coalesce_loop, behind, CoalesceState, ps_delay, ps_condition, ps_patterns,
  condition_text, patterns_text,
}

pub record IsRule (line1 line2 line3 : Bytes) : Type 0 where
  pub delay_text : Bytes
  pub condition_text : Bytes
  pub patterns_text : Bytes
  pub delay : ℕ
  pub condition : ℕ
  pub delay_line_is : behind (codes "delay=") line1 ≡ some delay_text
  pub condition_line_is : behind (codes "condition=") line2 ≡ some condition_text
  pub patterns_line_is : behind (codes "patterns=") line3 ≡ some patterns_text
  pub delay_is : whole_number delay_text ≡ some delay
  pub condition_is : whole_number condition_text ≡ some condition
  pub patterns_are : All IsPatternText (split_on b',' patterns_text)

-- Lines that are rules, three to each.
pub data AreRules : List Bytes → Type 0 where
  no_rules : AreRules []
  rule_and :
      {line1 line2 line3 : Bytes} {lines : List Bytes}
      → IsRule line1 line2 line3
      → AreRules lines
      → AreRules (line1 ∷ line2 ∷ line3 ∷ lines)

module _ (n : Netlink) where
  open n use {Msg, Nest, nla_nest_start, nla_put_u32}

  -- A first line, in the state in which it is read.
  coalesce_loop-first :
      (s s' : CoalesceState n) (at : CoalesceParse n) (line : Bytes) (lines : List Bytes)
      → s.parse_state ≡ at
      → coalesce_loop n s (line ∷ lines) ≡ done s'
      → (s1 : CoalesceState n) × (coalesce_line n at s line ≡ done s1)
        × (coalesce_loop n s1 lines ≡ done s')
  unfolding coalesce_loop
  coalesce_loop-first s s' at line lines is h =
      let (s1, first, rest) =
        >>=-eq-done (coalesce_line n s.parse_state s line) (λ s1. coalesce_loop n s1 lines) h in
      (s1, ap (λ t. coalesce_line n t s line) (sym is) ∙ first, rest)

  module _ (s s' : CoalesceState n) (is : s.parse_state ≡ ps_delay) where
    delay-first :
        (line : Bytes) (lines : List Bytes)
        → coalesce_loop n s (line ∷ lines) ≡ done s'
        → (s1 : CoalesceState n) × (text : Bytes) × (v : ℕ) × (mark : Nest) × (behind
              (codes "delay=")
              line
            ≡ some text)
          × (whole_number text ≡ some v)
          × (s1.parse_state ≡ ps_condition mark)
          × (coalesce_loop n s1 lines ≡ done s')
    unfolding coalesce_line
    delay-first line lines h =
        let (s1, first, rest) = coalesce_loop-first s s' ps_delay line lines is h in
        let (text, v, mark, behind_is, whole, at) = delay_line-eq-done n s s1 _ first in
        (s1, text, v, mark, behind_is, whole, at, rest)

  condition-first :
      (s s' : CoalesceState n) (mark : Nest) (line : Bytes) (lines : List Bytes)
      → s.parse_state ≡ ps_condition mark
      → coalesce_loop n s (line ∷ lines) ≡ done s'
      → (s1 : CoalesceState n) × (text : Bytes) × (v : ℕ) × (behind (codes "condition=") line
          ≡ some text)
        × (whole_number text ≡ some v)
        × (s1.parse_state ≡ ps_patterns mark)
        × (coalesce_loop n s1 lines ≡ done s')
  unfolding coalesce_line condition_line
  condition-first s s' mark line lines is h =
      let (s1, first, rest) = coalesce_loop-first s s' (ps_condition mark) line lines is h in
      let (text, v, behind_is, whole, at) = condition_text-eq-done n s s1 mark _ first in
      (s1, text, v, behind_is, whole, at, rest)

  patterns-first :
      (s s' : CoalesceState n) (mark : Nest) (line : Bytes) (lines : List Bytes)
      → s.parse_state ≡ ps_patterns mark
      → coalesce_loop n s (line ∷ lines) ≡ done s'
      → (s1 : CoalesceState n) × (text : Bytes) × (behind (codes "patterns=") line ≡ some text)
        × All IsPatternText (split_on b',' text)
        × (s1.parse_state ≡ ps_delay)
        × (coalesce_loop n s1 lines ≡ done s')
  unfolding coalesce_line patterns_line
  patterns-first s s' mark line lines is h =
      let (s1, first, rest) = coalesce_loop-first s s' (ps_patterns mark) line lines is h in
      let (text, behind_is, are, at) = patterns_text-eq-done n s s1 mark _ first in
      (s1, text, behind_is, are, at, rest)

  coalesce_loop-nil : (s s' : CoalesceState n) → coalesce_loop n s [] ≡ done s' → s ≡ s'
  unfolding coalesce_loop
  coalesce_loop-nil s s' h = cc

  coalesce_loop-AreRules :
      (lines : List Bytes) (s s' : CoalesceState n)
      → s.parse_state ≡ ps_delay
      → coalesce_loop n s lines ≡ done s'
      → s'.parse_state ≡ ps_delay
      → AreRules lines
  coalesce_loop-AreRules [] s s' is h end = no_rules
  coalesce_loop-AreRules (line1 ∷ []) s s' is h end =
      let (s1, _, _, mark, _, _, at, rest) = delay-first s s' is line1 [] h in
      let same = coalesce_loop-nil s1 s' rest in cc
  coalesce_loop-AreRules (line1 ∷ line2 ∷ []) s s' is h end =
      let (s1, _, _, mark, _, _, at, rest) = delay-first s s' is line1 _ h in
      let (s2, _, _, _, _, at2, rest2) = condition-first s1 s' mark line2 [] at rest in
      let same = coalesce_loop-nil s2 s' rest2 in cc
  coalesce_loop-AreRules (line1 ∷ line2 ∷ line3 ∷ lines) s s' is h end =
      let (s1, delay_text, delay, mark, d_line, d_is, at, rest) = delay-first s s' is line1 _ h in
      let (s2, condition_text, condition, c_line, c_is, at2, rest2) =
        condition-first s1 s' mark line2 _ at rest in
      let (s3, patterns_text, p_line, p_are, at3, rest3) =
        patterns-first s2 s' mark line3 lines at2 rest2 in
      rule_and
        (record {
          delay_text = delay_text;
          condition_text = condition_text;
          patterns_text = patterns_text;
          delay = delay;
          condition = condition;
          delay_line_is = d_line;
          condition_line_is = c_line;
          patterns_line_is = p_line;
          delay_is = d_is;
          condition_is = c_is;
          patterns_are = p_are;
        })
        (coalesce_loop-AreRules lines s3 s' at3 rest3 end)

  finish_rules-ps_delay :
      (nl_rules : Nest) (at : CoalesceParse n) (m m' : Msg)
      → finish_rules n nl_rules at m ≡ done m'
      → at ≡ ps_delay
  finish_rules-ps_delay nl_rules ps_delay m m' h = refl
  finish_rules-ps_delay nl_rules (ps_condition mark) m m' h = cc
  finish_rules-ps_delay nl_rules (ps_patterns mark) m m' h = cc

  read_rules-AreRules :
      (lines : List Bytes) (o : Option (Nest × Msg)) (m' : Msg)
      → read_rules n lines o ≡ done m'
      → AreRules lines
  read_rules-AreRules lines none m' h = cc
  read_rules-AreRules lines (some (nl_rules, m)) m' h =
      let s0 : CoalesceState n = record {
        parse_state = ps_delay;
        rule_num = 0;
        patnum = 0;
        msg = m;
      } in
      let (s, loop, last) =
        >>=-eq-done (coalesce_loop n s0 lines)
          (λ (s : CoalesceState n). finish_rules n nl_rules s.parse_state s.msg) h in
      coalesce_loop-AreRules lines s0 s refl loop
        (finish_rules-ps_delay nl_rules s.parse_state s.msg m' last)

  -- If a file is accepted, its lines are rules: three lines to each, a delay, a condition and patterns
  -- in this order and behind their names, the delay and the condition whole numbers, and each pattern
  -- between the commas a value that is hexadecimal, behind an offset that is a number if it has one.
  pub handle_coalesce_enable-AreRules :
      (file : Bytes) (msg m' : Msg)
      → handle_coalesce_enable n msg (some file) ≡ done m'
      → AreRules (file_lines file)
  unfolding handle_coalesce_enable
  handle_coalesce_enable-AreRules file msg m' h =
      read_rules-AreRules (file_lines file) (nla_nest_start msg Attr.coalesce_rule) m' h
