-- ===== src/Coalesce/Rules.antt =====
-- The message that a file of rules makes.
use nl.Base.{
  Bool, ℕ, suc, ◌+◌, Bytes, some, List, [], ◌∷◌, ◌++◌, length, codes, All, ◌≡◌, refl, ap, ◌∙◌,
  arith,
}
use nl.Libc.{strtoul, to_u32, split_on}
use nl.Nl80211.Attr
use nl.Nl80211.CoalesceRule
use nl.Netlink.{Netlink, Attrs, nil, u32, nest, Result, ok, usage, put_all}
use nl.Netlink.Laws.{u32-eq-ok, nest-eq-ok, nil-eq-ok}
use nl.Run.{done}
use nl.Scan.Request.{whole_number, all_of}
use nl.Pattern.Put.{PatternValue, texts, IsPattern, patterns_attrs, part_attrs, put_pattern-nest}
use nl.ConfigFile.{file_lines}
use nl.Coalesce.{
  coalesce_line, handle_coalesce_enable, coalesce_loop, CoalesceState, ps_delay, ps_condition,
  ps_patterns, all_number, delay_line, condition_line, pattern_loop, patterns_line,
}

-- The three texts of a rule and what they mean.
pub record Rule : Type 0 where
  pub delay_text : Bytes
  pub delay : ℕ
  pub condition_text : Bytes
  pub condition : ℕ
  pub patterns_text : Bytes
  pub patterns : List (Bytes × PatternValue)

pub record ReadsRule (r : Rule) : Type 0 where
  pub delay_is : whole_number r.delay_text ≡ some r.delay
  pub condition_is : whole_number r.condition_text ≡ some r.condition
  pub pieces : split_on b',' r.patterns_text ≡ texts r.patterns
  pub patterns_are : All IsPattern r.patterns

abbrev pub rule_lines : List Rule → List Bytes
rule_lines [] = []
rule_lines (r ∷ rs) =
    (codes "delay=" ++ r.delay_text)
    ∷ (codes "condition=" ++ r.condition_text)
    ∷ (codes "patterns=" ++ r.patterns_text)
    ∷ rule_lines rs

-- Rules with their numbers behind `rule_num`; the patterns are numbered on from rule to rule.
abbrev pub rules_attrs : ℕ → ℕ → List Rule → Attrs
rules_attrs rule_num patnum [] = nil
rules_attrs rule_num patnum (r ∷ rs) =
    nest (rule_num + 1)
      (u32 CoalesceRule.delay r.delay (
        u32 CoalesceRule.condition r.condition
          (nest CoalesceRule.pkt_pattern (patterns_attrs patnum r.patterns) nil)))
      (rules_attrs (rule_num + 1) (patnum + length r.patterns) rs)

module _ (n : Netlink) where
  open n use {Msg, Nest, nla_put_u32, nla_nest_end, nla_nest_start}

  pattern_loop-patterns_attrs :
      (ps : List (Bytes × PatternValue)) (patnum : ℕ) (m m' : Msg)
      → All IsPattern ps
      → put_all n (patterns_attrs patnum ps) m ≡ ok m'
      → pattern_loop n patnum m (texts ps) ≡ done (patnum + length ps, m')
  unfolding pattern_loop
  pattern_loop-patterns_attrs [] patnum m m' reads h =
      let same : patnum ≡ patnum + 0 = omega arith in
      rw (nil-eq-ok n m m' h) (ap (λ k. done (k, m')) same)
  pattern_loop-patterns_attrs ((text, v) ∷ ps) patnum m m' (r, reads) h =
      let o = nest-eq-ok n (patnum + 1) (part_attrs v) (patterns_attrs (patnum + 1) ps) m m' h in
      let first =
        put_pattern-nest n (some (Result.err usage)) (patnum + 1) text v m o.inside o.filled o.mark
          r o.started o.inner_put in
      let rest =
        pattern_loop-patterns_attrs ps (patnum + 1) (nla_nest_end o.filled o.mark) m' reads
          o.rest_put in
      let count : patnum + 1 + length ps ≡ patnum + suc (length ps) = omega arith in
      rw first (rest ∙ ap (λ k. done (k, m')) count)

  whole_delay :
      {A : Type 0} (p : ℕ × Bytes × Bool) (d : ℕ) (after : A)
      → all_of p ≡ some d
      → (to_u32 p.0 ≡ d) × (all_number n p after ≡ done after)
  whole_delay (v, [], found) d after h = (cc, refl)
  whole_delay (v, c ∷ rest, found) d after h = cc

  -- The line of a delay opens the nest of its rule.
  delay_line-u32 :
      (s : CoalesceState n) (text : Bytes) (delay : ℕ) (mark : Nest) (inside m : Msg)
      → whole_number text ≡ some delay
      → nla_nest_start s.msg (s.rule_num + 1) ≡ some (mark, inside)
      → nla_put_u32 inside CoalesceRule.delay delay ≡ some m
      → delay_line n s (some text)
        ≡ done (record s { parse_state = ps_condition mark; rule_num = s.rule_num + 1; msg = m })
  unfolding delay_line whole_number
  delay_line-u32 s text delay mark inside m reads started put =
      let s' : CoalesceState n = record s {
        parse_state = ps_condition mark;
        rule_num = s.rule_num + 1;
        msg = m;
      } in
      let (value, whole) = whole_delay (strtoul text 10) delay s' reads in
      rw (started, value, put) whole

  condition_line-u32 :
      (s : CoalesceState n) (nl_rule : Nest) (text : Bytes) (condition : ℕ) (m : Msg)
      → whole_number text ≡ some condition
      → nla_put_u32 s.msg CoalesceRule.condition condition ≡ some m
      → condition_line n s nl_rule (codes "condition=" ++ text)
        ≡ done (record s { parse_state = ps_patterns nl_rule; msg = m })
  unfolding condition_line
  condition_line-u32 s nl_rule text condition m reads put = rw (reads, put) refl

  patterns_line-nest :
      (s : CoalesceState n) (nl_rule mark : Nest) (text : Bytes) (ps : List (Bytes × PatternValue))
      (inside filled : Msg)
      → split_on b',' text ≡ texts ps
      → All IsPattern ps
      → nla_nest_start s.msg CoalesceRule.pkt_pattern ≡ some (mark, inside)
      → put_all n (patterns_attrs s.patnum ps) inside ≡ ok filled
      → patterns_line n s nl_rule (codes "patterns=" ++ text)
        ≡ done (record s {
          parse_state = ps_delay;
          patnum = s.patnum + length ps;
          msg = nla_nest_end (nla_nest_end filled mark) nl_rule;
        })
  unfolding patterns_line
  patterns_line-nest s nl_rule mark text ps inside filled pieces reads started put =
      let loop = pattern_loop-patterns_attrs ps s.patnum inside filled reads put in
      rw (pieces, started, loop) refl

  abbrev at_rule : ℕ → ℕ → Msg → CoalesceState n
  at_rule rule_num patnum m = record {
    parse_state = ps_delay;
    rule_num = rule_num;
    patnum = patnum;
    msg = m;
  }

  coalesce_loop-rules_attrs :
      (rs : List Rule) (rule_num patnum : ℕ) (m m' : Msg)
      → All ReadsRule rs
      → put_all n (rules_attrs rule_num patnum rs) m ≡ ok m'
      → (r : ℕ) × (p : ℕ) × (coalesce_loop n (at_rule rule_num patnum m) (rule_lines rs)
          ≡ done (at_rule r p m'))
  unfolding coalesce_loop coalesce_line
  coalesce_loop-rules_attrs [] rule_num patnum m m' reads h =
      (rule_num, patnum, ap (λ k. done (at_rule rule_num patnum k)) (nil-eq-ok n m m' h))
  coalesce_loop-rules_attrs (r ∷ rs) rule_num patnum m m' (rr, reads) h =
      let o = nest-eq-ok n _ _ _ m m' h in
      let (m1, delay_put, h1) = u32-eq-ok n _ _ _ o.inside o.filled o.inner_put in
      let (m2, condition_put, h2) = u32-eq-ok n _ _ _ m1 o.filled h1 in
      let c = nest-eq-ok n _ _ nil m2 o.filled h2 in
      let ended : nla_nest_end c.filled c.mark ≡ o.filled = nil-eq-ok n _ o.filled c.rest_put in
      let line1 =
        delay_line-u32 (at_rule rule_num patnum m) r.delay_text r.delay o.mark o.inside m1
          rr.delay_is o.started delay_put in
      let s1 : CoalesceState n = record (at_rule (rule_num + 1) patnum m1) {
        parse_state = ps_condition o.mark;
      } in
      let line2 =
        condition_line-u32 s1 o.mark r.condition_text r.condition m2 rr.condition_is
          condition_put in
      let s2 : CoalesceState n = record (at_rule (rule_num + 1) patnum m2) {
        parse_state = ps_patterns o.mark;
      } in
      let line3 =
        patterns_line-nest s2 o.mark c.mark r.patterns_text r.patterns c.inside c.filled rr.pieces
          rr.patterns_are c.started c.inner_put in
      let (last_rule, last_pattern, rest) =
        coalesce_loop-rules_attrs rs (rule_num + 1) (patnum + length r.patterns)
          (nla_nest_end o.filled o.mark) m' reads o.rest_put in
      (last_rule, last_pattern, rw (line1, line2, line3, ended) rest)

  -- A file whose lines are rules, three lines to each with a delay and a condition that are whole
  -- numbers and with patterns that are values, makes the message with one nest for the rules: in it each
  -- rule is a nest under the next number from 1, with its delay, its condition and the nest of its
  -- patterns, each a nest with mask, bytes and offset under numbers that go on from rule to rule; if
  -- those attributes find room.
  pub handle_coalesce_enable-rules_attrs :
      (rs : List Rule) (file : Bytes) (msg m' : Msg)
      → file_lines file ≡ rule_lines rs
      → All ReadsRule rs
      → put_all n (nest Attr.coalesce_rule (rules_attrs 0 0 rs) nil) msg ≡ ok m'
      → handle_coalesce_enable n msg (some file) ≡ done m'
  unfolding handle_coalesce_enable
  handle_coalesce_enable-rules_attrs rs file msg m' lines reads h =
      let o = nest-eq-ok n _ _ nil msg m' h in
      let (r, p, loop) = coalesce_loop-rules_attrs rs 0 0 o.inside o.filled reads o.inner_put in
      rw (lines, o.started, loop, nil-eq-ok n _ m' o.rest_put) refl
