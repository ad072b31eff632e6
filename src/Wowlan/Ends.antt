-- ===== src/Wowlan/Ends.antt =====
-- The loop of `handle_wowlan_enable` ends, with the scheduled scan in it.
use nl.Base.{
  none, some, Option, ℕ, suc, zero, ◌≤◌, ◌<◌, Bytes, List, [], ◌∷◌, length, ◌≡◌, refl, arith,
}
use nl.Nl80211.Attr
use nl.Netlink.{Netlink, ok, err, Code}
use nl.Run.{Run}
use nl.Scan.Sched.Ends.{parse_sched_scan-Ended}
use nl.Wowlan.{
  TriggerWord, t_flag, t_tcp, t_patterns, t_net_detect, t_other, as_trigger, Outside, WowlanParse,
  ps_reg, ps_pat, WowlanState, WowlanStep, next, leave, out_of_fuel, flag_put, after_tcp, tcp_word,
  net_result, net_nest, net_detect_word, after_pattern, trigger, wowlan_step, after_step,
  wowlan_loop, with_triggers, handle_wowlan_enable,
}
use nl.Wowlan.Tcp.{wowlan_parse_tcp_file}

module _ (n : Netlink) (o : Outside) where
  open n use {Msg, Nest, nla_nest_start, nla_put_flag}

  -- A step that leaves, or that goes on with `size` words at most.
  data Goes (size : ℕ) : WowlanStep n o → Type 0 where
    leaves : {r : Run Msg} → Goes size (leave r)
    goes :
        {s : WowlanState n o} {words : List Bytes} → length words ≤ size → Goes size (next s words)

  flag_put-Goes :
      (s : WowlanState n o) (words : List Bytes) (m : Option Msg)
      → Goes (length words) (flag_put n o s words m)
  flag_put-Goes s words none = leaves
  flag_put-Goes s words (some m) = goes (omega arith)

  after_tcp-Goes :
      (size : ℕ) (s : WowlanState n o) (words : List Bytes) (r : Run Msg)
      → length words ≤ size
      → Goes size (after_tcp n o s words r)
  after_tcp-Goes size s words none h = leaves
  after_tcp-Goes size s words (some (err code)) h = leaves
  after_tcp-Goes size s words (some (ok m)) h = goes h

  tcp_word-Goes :
      (s : WowlanState n o) (words : List Bytes) → Goes (length words) (tcp_word n o s words)
  unfolding tcp_word
  tcp_word-Goes s [] = leaves
  tcp_word-Goes s (fn ∷ words) =
      after_tcp-Goes _ s words (wowlan_parse_tcp_file n o.inet_aton o.macbuf s.msg (o.files fn))
        (omega arith)

  net_result-Goes :
      (size : ℕ) (s : WowlanState n o) (nd : Nest) (words : List Bytes) (m : Msg)
      (code : Option Code)
      → length words ≤ size
      → Goes size (net_result n o s nd words m code)
  net_result-Goes size s nd words m (some code) h = leaves
  net_result-Goes size s nd words m none h = goes h

  net_nest-Goes :
      (s : WowlanState n o) (words : List Bytes) (started : Option (Nest × Msg))
      → Goes (length words) (net_nest n o s words started)
  net_nest-Goes s words none = leaves
  net_nest-Goes s words (some (nd, m)) =
      let (e, ended, size) = parse_sched_scan-Ended n o.addr o.mask m words in
      rw ended (net_result-Goes (length words) s nd e.words e.msg e.code size)

  net_detect_word-Goes :
      (s : WowlanState n o) (words : List Bytes) → Goes (length words) (net_detect_word n o s words)
  unfolding net_detect_word
  net_detect_word-Goes s [] = leaves
  net_detect_word-Goes s (w ∷ words) = net_nest-Goes s (w ∷ words) _

  trigger-Goes :
      (s : WowlanState n o) (words : List Bytes) (t : TriggerWord)
      → Goes (length words) (trigger n o s words t)
  trigger-Goes s words (t_flag attr) = flag_put-Goes s words (nla_put_flag s.msg attr)
  trigger-Goes s words t_tcp = tcp_word-Goes s words
  trigger-Goes s words t_patterns = goes (omega arith)
  trigger-Goes s words t_net_detect = net_detect_word-Goes s words
  trigger-Goes s words t_other = leaves

  after_pattern-Goes :
      (s : WowlanState n o) (patnum : ℕ) (words : List Bytes) (r : Run Msg)
      → Goes (length words) (after_pattern n o s patnum words r)
  after_pattern-Goes s patnum words none = leaves
  after_pattern-Goes s patnum words (some (err code)) = leaves
  after_pattern-Goes s patnum words (some (ok m)) = goes (omega arith)

  wowlan_step-Goes :
      (at : WowlanParse n o) (s : WowlanState n o) (w : Bytes) (words : List Bytes)
      → Goes (length words) (wowlan_step n o at s w words)
  unfolding wowlan_step
  wowlan_step-Goes ps_reg s w words = trigger-Goes s words (as_trigger w)
  wowlan_step-Goes (ps_pat patterns patnum) s w words = after_pattern-Goes s _ words _

  after_step-Run :
      (size : ℕ) (wowlan : Nest) (step : WowlanStep n o)
      (again : WowlanState n o → List Bytes → Option (Run Msg))
      → Goes size step
      → ((s : WowlanState n o) (words : List Bytes)
          → length words ≤ size
          → (r : Run Msg) × (again s words ≡ some r))
      → (r : Run Msg) × (after_step n o wowlan step again ≡ some r)
  after_step-Run size wowlan (leave r) again g h = (r, refl)
  after_step-Run size wowlan (next s words) again (goes less) h = h s words less
  after_step-Run size wowlan out_of_fuel again g h = elim g [ ]

  wowlan_loop-Run :
      (fuel : ℕ) (wowlan : Nest) (s : WowlanState n o) (words : List Bytes)
      → length words < fuel
      → (r : Run Msg) × (wowlan_loop n o fuel wowlan s words ≡ some r)
  unfolding wowlan_loop
  wowlan_loop-Run zero wowlan s words h = absurd (omega arith)
  wowlan_loop-Run (suc fuel) wowlan s [] h = (_, refl)
  wowlan_loop-Run (suc fuel) wowlan s (w ∷ words) h =
      after_step-Run (length words) wowlan (wowlan_step n o s.parse_state s w words)
        (wowlan_loop n o fuel wowlan) (wowlan_step-Goes s.parse_state s w words)
        (λ s' ws less. wowlan_loop-Run fuel wowlan s' ws (omega arith))

  with_triggers-Run :
      (words : List Bytes) (started : Option (Nest × Msg))
      → (r : Run Msg) × (with_triggers n o words started ≡ some r)
  with_triggers-Run words none = (_, refl)
  with_triggers-Run words (some (wowlan, m)) = wowlan_loop-Run _ wowlan _ words (omega arith)

  -- `handle_wowlan_enable` ends on any words, whatever a scheduled scan among them takes: one round for
  -- each word and one more are enough.
  pub handle_wowlan_enable-Run :
      (msg : Msg) (words : List Bytes)
      → (r : Run Msg) × (handle_wowlan_enable n o msg words ≡ some r)
  unfolding handle_wowlan_enable
  handle_wowlan_enable-Run msg words =
      with_triggers-Run words (nla_nest_start msg Attr.wowlan_triggers)
