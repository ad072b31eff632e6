-- ===== src/Coalesce/Accepted.antt =====
-- What a line that was accepted holds, in each state of the parser.
use nl.Base.{ℕ, ◌+◌, Bytes, Option, none, some, Bool, List, [], ◌∷◌, All, ◌≡◌, refl, ap, sym}
use nl.Libc.{strtoul, split_on}
use nl.Nl80211.CoalesceRule
use nl.Netlink.{Netlink, enobufs, usage}
use nl.Run.{done, refuse, fault, put_or}
use nl.Run.Laws.{>>=-eq-done}
use nl.Scan.Request.{whole_number, all_of}
use nl.Util.HexMask.{HexResult, parsed, rejected, overrun, out_of_fuel, parse_hex_mask}
use nl.Pattern.{PatternText, no_value, bad_offset, offset_and, pattern_text, put_pattern, put_hex}
use nl.Coalesce.{
  to_u32, CoalesceState, ps_delay, ps_condition, ps_patterns, all_number, open_rule, delay_line,
  put_condition, condition_text, pattern_loop, patterns_text, put_patterns, close_rule,
}

-- A pattern with a value whose offset, if there is one, is a number, and whose bytes are hexadecimal.
pub record IsPatternText (text : Bytes) : Type 0 where
  pub offset : ℕ
  pub value : Bytes
  pub hex : Bytes × Bytes × ℕ
  pub text_is : pattern_text text ≡ offset_and offset value
  pub hex_is : parse_hex_mask Bool.true value ≡ parsed hex.0 hex.1 hex.2

module _ (n : Netlink) where
  open n use {Msg, Nest, nla_nest_start, nla_put_u32}

  put_hex-parsed :
      (patnum offset : ℕ) (m m' : Msg) (h : HexResult)
      → put_hex n patnum offset m h ≡ done m'
      → (hex : Bytes × Bytes × ℕ) × (h ≡ parsed hex.0 hex.1 hex.2)
  put_hex-parsed patnum offset m m' (parsed pat mask patlen) e = ((pat, mask, patlen), refl)
  put_hex-parsed patnum offset m m' rejected e = cc
  put_hex-parsed patnum offset m m' overrun e = cc
  put_hex-parsed patnum offset m m' out_of_fuel e = cc

  put_pattern-offset_and :
      (patnum : ℕ) (m m' : Msg) (t : PatternText)
      → put_pattern n (refuse usage) patnum m t ≡ done m'
      → (offset : ℕ) × (value : Bytes) × (hex : Bytes × Bytes × ℕ) × (t ≡ offset_and offset value)
        × (parse_hex_mask Bool.true value ≡ parsed hex.0 hex.1 hex.2)
  unfolding put_pattern
  put_pattern-offset_and patnum m m' no_value e = cc
  put_pattern-offset_and patnum m m' bad_offset e = cc
  put_pattern-offset_and patnum m m' (offset_and offset value) e =
      let (hex, is) = put_hex-parsed patnum offset m m' (parse_hex_mask Bool.true value) e in
      (offset, value, hex, refl, is)

  pattern_loop-IsPatternText :
      (texts : List Bytes) (patnum : ℕ) (m : Msg) (r : ℕ × Msg)
      → pattern_loop n patnum m texts ≡ done r
      → All IsPatternText texts
  unfolding pattern_loop
  pattern_loop-IsPatternText [] patnum m r h = tt
  pattern_loop-IsPatternText (text ∷ texts) patnum m r h =
      let (m1, put, h1) =
        >>=-eq-done (put_pattern n (refuse usage) (patnum + 1) m (pattern_text text))
          (λ m. pattern_loop n (patnum + 1) m texts) h in
      let (offset, value, hex, text_is, hex_is) =
        put_pattern-offset_and (patnum + 1) m m1 (pattern_text text) put in
      (
        record { offset = offset; value = value; hex = hex; text_is = text_is; hex_is = hex_is },
        pattern_loop-IsPatternText texts (patnum + 1) m1 r h1,
      )

  all_number-eq-done :
      {A : Type 0} (p : ℕ × Bytes × Bool) (after a : A)
      → all_number n p after ≡ done a
      → (v : ℕ) × (all_of p ≡ some v) × (after ≡ a)
  all_number-eq-done (v, [], found) after a h = (to_u32 v, refl, cc)
  all_number-eq-done (v, c ∷ rest, found) after a h = cc

  open_rule-eq-done :
      (s s' : CoalesceState n) (delay : ℕ × Bytes × Bool) (o : Option (Nest × Msg))
      → open_rule n s delay o ≡ done s'
      → (v : ℕ) × (mark : Nest) × (all_of delay ≡ some v) × (s'.parse_state ≡ ps_condition mark)
  open_rule-eq-done s s' delay none h = cc
  open_rule-eq-done s s' delay (some (mark, m)) h =
      let (m1, put, h1) =
        >>=-eq-done (put_or enobufs (nla_put_u32 m CoalesceRule.delay (to_u32 delay.0)))
          (λ (m' : Msg).
            all_number n delay
              (record s { parse_state = ps_condition mark; rule_num = s.rule_num + 1; msg = m' }))
          h in
      let (v, is, same) = all_number-eq-done delay _ s' h1 in
      (v, mark, is, ap (λ (t : CoalesceState n). t.parse_state) (sym same))

  pub delay_line-eq-done :
      (s s' : CoalesceState n) (o : Option Bytes)
      → delay_line n s o ≡ done s'
      → (text : Bytes) × (v : ℕ) × (mark : Nest) × (o ≡ some text)
        × (whole_number text ≡ some v)
        × (s'.parse_state ≡ ps_condition mark)
  unfolding delay_line whole_number
  delay_line-eq-done s s' none h = cc
  delay_line-eq-done s s' (some text) h =
      let (v, mark, is, at) = open_rule-eq-done s s' (strtoul text 10) _ h in
      (text, v, mark, refl, is, at)

  put_condition-eq-done :
      (s s' : CoalesceState n) (nl_rule : Nest) (o : Option ℕ)
      → put_condition n s nl_rule o ≡ done s'
      → (v : ℕ) × (o ≡ some v) × (s'.parse_state ≡ ps_patterns nl_rule)
  put_condition-eq-done s s' nl_rule none h = cc
  put_condition-eq-done s s' nl_rule (some v) h =
      let (m, put, same) =
        >>=-eq-done (put_or enobufs (nla_put_u32 s.msg CoalesceRule.condition v))
          (λ (m : Msg). done (record s { parse_state = ps_patterns nl_rule; msg = m })) h in
      (v, refl, cc)

  pub condition_text-eq-done :
      (s s' : CoalesceState n) (nl_rule : Nest) (o : Option Bytes)
      → condition_text n s nl_rule o ≡ done s'
      → (text : Bytes) × (v : ℕ) × (o ≡ some text)
        × (whole_number text ≡ some v)
        × (s'.parse_state ≡ ps_patterns nl_rule)
  condition_text-eq-done s s' nl_rule none h = cc
  condition_text-eq-done s s' nl_rule (some text) h =
      let (v, is, at) = put_condition-eq-done s s' nl_rule (whole_number text) h in
      (text, v, refl, is, at)

  put_patterns-eq-done :
      (s s' : CoalesceState n) (nl_rule : Nest) (texts : List Bytes) (o : Option (Nest × Msg))
      → put_patterns n s nl_rule texts o ≡ done s'
      → All IsPatternText texts × (s'.parse_state ≡ ps_delay)
  put_patterns-eq-done s s' nl_rule texts none h =
      let (r, _, never) = >>=-eq-done (pattern_loop n s.patnum s.msg texts) (λ r. fault) h in
      cc never
  put_patterns-eq-done s s' nl_rule texts (some (nl_pats, m)) h =
      let (r, loop, same) =
        >>=-eq-done (pattern_loop n s.patnum m texts) (close_rule n s nl_rule nl_pats) h in
      (pattern_loop-IsPatternText texts s.patnum m r loop, cc)

  pub patterns_text-eq-done :
      (s s' : CoalesceState n) (nl_rule : Nest) (o : Option Bytes)
      → patterns_text n s nl_rule o ≡ done s'
      → (text : Bytes) × (o ≡ some text)
        × All IsPatternText (split_on b',' text)
        × (s'.parse_state ≡ ps_delay)
  patterns_text-eq-done s s' nl_rule none h = cc
  patterns_text-eq-done s s' nl_rule (some text) h =
      let (are, at) = put_patterns-eq-done s s' nl_rule (split_on b',' text) _ h in
      (text, refl, are, at)
