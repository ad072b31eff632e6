-- ===== src/Wowlan/Triggers.antt =====
-- The message that the triggers of WoWLAN make, and a put that fails behind a code that was overwritten.
pub mod Lost
use nl.Base.{
  none, some, codes, Option, ℕ, suc, zero, ◌+◌, ◌<◌, Bytes, List, [], ◌∷◌, ◌++◌, length, All, ◌≡◌,
  refl, ap, ◌∙◌, arith,
}
use nl.Nl80211.Attr
use nl.Nl80211.WowlanTrig
use nl.ConfigFile.{file_lines}
use nl.Netlink.{Netlink, Result, err, ok, Code, enobufs, Attrs, nil, flag, nest, put_all}
use nl.Netlink.Laws.{flag-eq-ok, nest-eq-ok, nil-eq-ok}
use nl.Run.{Run, done, fault}
use nl.Pattern.{pattern_text, put_pattern}
use nl.Pattern.Put.{PatternValue, texts, IsPattern, patterns_attrs, part_attrs, put_pattern-nest}
use nl.Wowlan.{
  TriggerWord, t_flag, t_tcp, t_patterns, as_trigger, Outside, WowlanParse, ps_reg, ps_pat,
  WowlanState, WowlanStep, next, leave, flag_put, tcp_word, wowlan_step, wowlan_loop, with_triggers,
  handle_wowlan_enable,
}
use nl.Wowlan.Tcp.{wowlan_parse_tcp_file}
use nl.Wowlan.Tcp.Reads.{
  TcpItem, tcp_texts, all_tcp_attrs, IsTcpItem, wowlan_parse_tcp_file-all_tcp_attrs,
}

-- A word for a flag, or a file for TCP with its lines.
pub data Trigger : Type 0 where
  flag_of : (word : Bytes) → (attr : ℕ) → Trigger
  tcp_of : (fn file : Bytes) → (items : List TcpItem) → Trigger

abbrev pub words_of : List Trigger → List Bytes → List Bytes
words_of [] rest = rest
words_of (flag_of word attr ∷ ts) rest = word ∷ words_of ts rest
words_of (tcp_of fn file items ∷ ts) rest = codes "tcp" ∷ fn ∷ words_of ts rest

abbrev pub triggers_attrs : List Trigger → Attrs
triggers_attrs [] = nil
triggers_attrs (flag_of word attr ∷ ts) = flag attr (triggers_attrs ts)
triggers_attrs (tcp_of fn file items ∷ ts) =
    nest WowlanTrig.tcp_connection (all_tcp_attrs items) (triggers_attrs ts)

-- `err` behind the words: a file that was read has overwritten it.
abbrev pub code_after : List Trigger → Option Code → Option Code
code_after [] code = code
code_after (flag_of word attr ∷ ts) code = code_after ts code
code_after (tcp_of fn file items ∷ ts) code = code_after ts none

tcp_trigger : as_trigger (codes "tcp") ≡ t_tcp
unfolding as_trigger
tcp_trigger = refl

patterns_trigger : as_trigger (codes "patterns") ≡ t_patterns
unfolding as_trigger
patterns_trigger = refl

module _ (n : Netlink) (o : Outside) where
  open n use {Msg, Nest, nla_put_flag, nla_nest_start, nla_nest_end, nlmsg_alloc, nla_put_nested}

  abbrev pub IsTrigger : Trigger → Type 0
  IsTrigger (flag_of word attr) = as_trigger word ≡ t_flag attr
  IsTrigger (tcp_of fn file items) =
      (o.files fn ≡ some file)
      × (file_lines file ≡ tcp_texts items)
      × All (IsTcpItem n o.inet_aton o.macbuf) items

  pattern_words :
      (ps : List (Bytes × PatternValue)) (fuel patnum : ℕ) (wowlan : Nest) (s : WowlanState n o)
      (pm pm' m' : Msg)
      → length ps < fuel
      → s.parse_state ≡ ps_pat pm patnum
      → All IsPattern ps
      → put_all n (patterns_attrs patnum ps) pm ≡ ok pm'
      → nla_put_nested s.msg WowlanTrig.pkt_pattern pm' ≡ some m'
      → wowlan_loop n o fuel wowlan s (texts ps) ≡ some (done (nla_nest_end m' wowlan))
  unfolding wowlan_loop wowlan_step
  pattern_words ps zero patnum wowlan s pm pm' m' less at are h put = absurd (omega arith)
  pattern_words [] (suc fuel) patnum wowlan s pm pm' m' less at are h put =
      rw (at, nil-eq-ok n pm pm' h, put) refl
  pattern_words ((text, v) ∷ ps) (suc fuel) patnum wowlan s pm pm' m' less at (is, are) h put =
      let p = nest-eq-ok n _ _ _ pm pm' h in
      let first =
        put_pattern-nest n fault (patnum + 1) text v pm p.inside p.filled p.mark is p.started
          p.inner_put in
      rw (at, first)
        (pattern_words ps fuel (patnum + 1) wowlan
          (record s { parse_state = ps_pat (nla_nest_end p.filled p.mark) (patnum + 1) })
          (nla_nest_end p.filled p.mark) pm' m' (omega arith) refl are p.rest_put put)

  abbrev pub at_triggers : Option Code → Msg → WowlanState n o
  at_triggers code m = record { parse_state = ps_reg; code = code; msg = m }

  -- The loop is behind the triggers, with fuel for the rest of the words.
  abbrev pub Behind :
      ℕ → Nest → WowlanState n o → List Bytes → WowlanState n o → List Bytes → Type 0
  Behind fuel wowlan s words s' rest =
      (fuel' : ℕ) × (length rest < fuel')
      × (wowlan_loop n o fuel wowlan s words ≡ wowlan_loop n o fuel' wowlan s' rest)

  pub trigger_words :
      (ts : List Trigger) (fuel : ℕ) (wowlan : Nest) (code : Option Code) (m filled : Msg)
      (rest : List Bytes)
      → length (words_of ts rest) < fuel
      → All IsTrigger ts
      → put_all n (triggers_attrs ts) m ≡ ok filled
      → Behind fuel wowlan
          (at_triggers code m)
          (words_of ts rest)
          (at_triggers (code_after ts code) filled)
          rest
  unfolding wowlan_loop wowlan_step tcp_word
  trigger_words ts zero wowlan code m filled rest less are h = absurd (omega arith)
  trigger_words [] (suc fuel) wowlan code m filled rest less are h = (
    suc fuel,
    less,
    ap (λ k. wowlan_loop n o (suc fuel) wowlan (at_triggers code k) rest) (nil-eq-ok n m filled h),
  )
  trigger_words (flag_of word attr ∷ ts) (suc fuel) wowlan code m filled rest less (is, are) h =
      let (m1, put, h1) = flag-eq-ok n attr _ m filled h in
      rw (is, put) (trigger_words ts fuel wowlan code m1 filled rest (omega arith) are h1)
  trigger_words (tcp_of fn file items ∷ ts) (suc fuel) wowlan code m filled rest less (is, are) h =
      let (file_is, lines, items_are) = is in
      let p = nest-eq-ok n _ _ _ m filled h in
      let one : put_all n (nest WowlanTrig.tcp_connection (all_tcp_attrs items) nil) m
          ≡ ok (nla_nest_end p.filled p.mark) =
        unfold put_all in rw (p.started, p.inner_put) refl in
      let tcp =
        wowlan_parse_tcp_file-all_tcp_attrs n o.inet_aton o.macbuf items file m
          (nla_nest_end p.filled p.mark) lines items_are one in
      rw (tcp_trigger, file_is, tcp)
        (trigger_words ts fuel wowlan none (nla_nest_end p.filled p.mark) filled rest (omega arith)
          are p.rest_put)

  -- Words for flags and files for TCP in any order, each file with lines that are read, make the
  -- message with the nest of the triggers: the flags and the nests of the files in the order of the words;
  -- if those find room.
  pub handle_wowlan_enable-triggers_attrs :
      (ts : List Trigger) (msg m' : Msg)
      → All IsTrigger ts
      → put_all n (nest Attr.wowlan_triggers (triggers_attrs ts) nil) msg ≡ ok m'
      → handle_wowlan_enable n o msg (words_of ts []) ≡ some (done m')
  unfolding handle_wowlan_enable
  handle_wowlan_enable-triggers_attrs ts msg m' are h =
      let p = nest-eq-ok n _ _ nil msg m' h in
      let (fuel, less, same) =
        trigger_words ts (suc (length (words_of ts []))) p.mark (some enobufs) p.inside p.filled []
          (omega arith) are p.inner_put in
      rw p.started (
        same
        ∙ last fuel p.mark (code_after ts (some enobufs)) p.filled less
        ∙ ap (λ k. some (done k)) (nil-eq-ok n _ m' p.rest_put))
    where
      last :
          (fuel : ℕ) (wowlan : Nest) (code : Option Code) (m : Msg)
          → 0 < fuel
          → wowlan_loop n o fuel wowlan (at_triggers code m) []
            ≡ some (done (nla_nest_end m wowlan))
      last zero wowlan code m less = absurd (omega arith)
      last (suc fuel) wowlan code m less = unfold wowlan_loop in refl

  -- Behind words for flags and files for TCP, each file with lines that are read, "patterns" and packet
  -- patterns with their values put one attribute more into the nest of the triggers: a message in which the patterns are nests under the numbers from 1, if the
  -- attributes find room, and that message in the nest.
  pub handle_wowlan_enable-patterns_attrs :
      (ts : List Trigger) (ps : List (Bytes × PatternValue)) (msg inside filled pm m' : Msg)
      (wowlan : Nest)
      → All IsTrigger ts
      → All IsPattern ps
      → nla_nest_start msg Attr.wowlan_triggers ≡ some (wowlan, inside)
      → put_all n (triggers_attrs ts) inside ≡ ok filled
      → put_all n (patterns_attrs 0 ps) nlmsg_alloc ≡ ok pm
      → nla_put_nested filled WowlanTrig.pkt_pattern pm ≡ some m'
      → handle_wowlan_enable n o msg (words_of ts (codes "patterns" ∷ texts ps))
        ≡ some (done (nla_nest_end m' wowlan))
  unfolding handle_wowlan_enable
  handle_wowlan_enable-patterns_attrs ts ps msg inside filled pm m' wowlan are patterns_are started
        h patterns_put put =
      let rest = codes "patterns" ∷ texts ps in
      let (fuel, less, same) =
        trigger_words ts (suc (length (words_of ts rest))) wowlan (some enobufs) inside filled rest
          (omega arith) are h in
      rw started (same ∙ last fuel (code_after ts (some enobufs)) less)
    where
      size : (qs : List (Bytes × PatternValue)) → length (texts qs) ≡ length qs
      size [] = refl
      size ((text, v) ∷ qs) = ap suc (size qs)

      last :
          (fuel : ℕ) (code : Option Code)
          → suc (length (texts ps)) < fuel
          → wowlan_loop n o fuel wowlan (at_triggers code filled) (codes "patterns" ∷ texts ps)
            ≡ some (done (nla_nest_end m' wowlan))
      last zero code less = absurd (omega arith)
      last (suc fuel) code less =
          unfold wowlan_loop wowlan_step in
          rw patterns_trigger (
            pattern_words ps fuel 0 wowlan
              (record (at_triggers code filled) { parse_state = ps_pat nlmsg_alloc 0 }) nlmsg_alloc
              pm m' (omega (arith, size ps)) refl patterns_are patterns_put put)
