-- ===== src/Scan/Sched/Ends.antt =====
-- The loop of `parse_sched_scan` ends.
use nl.Base.{
  Bool-cases, inl, inr, ◌≤◌, refl, [], suc, zero, true, false, none, some, Option, ◌≡◌, codes, ℕ,
  ◌+◌, ◌*◌, ◌<◌, Bool, not, ◌||◌, Bytes, List, ◌∷◌, length, ◌==◌, if◌then◌else◌, arith,
}
use nl.Libc.{str_eq}
use nl.Netlink.{Netlink, Result, ok, err}
use nl.Scan.Request.{whole_number}
use nl.Scan.Sched.{
  sched_lists, wildcard_or, write_sched, NdState, nd_toplevel, nd_match, nd_freqs, nd_active,
  nd_plans, SchedArgs, TopWord, t_interval, t_scan_plans, t_delay, t_matches, t_freqs, t_active,
  t_passive, t_randomise, t_other, t_flag, as_top_word, read_plan, SchedState, SchedStep, next,
  leave, Ended, put_delay, delay_word, enter, after_random_mac, top_action, end_list, close_match,
  open_match, match_ssid, active_ssid, freqs_word, close_plan, put_plan, open_plan, plans_word,
  sched_step, sched_loop, parse_sched_scan, after_step, put_or_stop, put_interval, interval_word,
}

-- The rounds that a state still has at most, with so many words left.
abbrev rounds_left : NdState → ℕ → ℕ
rounds_left nd_toplevel size = 2 * size
rounds_left _ size = 2 * size + 1

module _ (n : Netlink) where
  open n use {Msg, Nest, nla_put}

  -- A step that leaves, or that goes on with fewer rounds left than `bound`; no words are left that
  -- were not there.
  data Goes (bound : ℕ) : SchedStep n → Type 0 where
    leaves : {e : Ended n} → 2 * length e.words ≤ bound → Goes bound (leave e)
    goes :
        {s : SchedState n} {words : List Bytes}
        → rounds_left s.args.state (length words) < bound
        → Goes bound (next s words)

  either-Goes :
      (bound : ℕ) (b : Bool) (x y : SchedStep n)
      → Goes bound x
      → Goes bound y
      → Goes bound (if b then x else y)
  either-Goes bound true x y hx hy = hx
  either-Goes bound false x y hx hy = hy

  any_state :
      (state : NdState) (size bound : ℕ) → 2 * size + 1 < bound → rounds_left state size < bound
  any_state nd_toplevel size bound h = omega arith
  any_state nd_match size bound h = h
  any_state nd_freqs size bound h = h
  any_state nd_active size bound h = h
  any_state nd_plans size bound h = h

  -- A word is taken.
  takes :
      (bound : ℕ) (s : SchedState n) (words : List Bytes)
      → 2 * length words + 1 < bound
      → Goes bound (next s words)
  takes bound s words h = goes (any_state s.args.state (length words) bound h)

  put_or_stop-Goes :
      (bound : ℕ) (s : SchedState n) (words : List Bytes) (o : Option Msg)
      (after : Msg → SchedStep n)
      → 2 * length words ≤ bound
      → ((m : Msg) → Goes bound (after m))
      → Goes bound (put_or_stop n s words o after)
  put_or_stop-Goes bound s words none after k h = leaves k
  put_or_stop-Goes bound s words (some m) after k h = h m

  interval_word-Goes :
      (bound : ℕ) (s : SchedState n) (words : List Bytes)
      → 2 * length words + 1 < bound
      → Goes bound (interval_word n s words)
  unfolding interval_word
  interval_word-Goes bound s [] h = leaves (omega arith)
  interval_word-Goes bound s (x ∷ words) h =
      either-Goes bound (not (s.args.interval == 0) || s.args.have_plans) _ _ (leaves (omega arith))
        (go (whole_number x))
    where
      go : (o : Option ℕ) → Goes bound (put_interval n s x words o)
      go none = leaves (omega arith)
      go (some v) = either-Goes bound (v == 0) _ _ (leaves (omega arith)) (
          put_or_stop-Goes bound s (x ∷ words) _ _ (omega arith)
            (λ m. takes bound _ words (omega arith)))

  delay_word-Goes :
      (bound : ℕ) (s : SchedState n) (words : List Bytes)
      → 2 * length words + 1 < bound
      → Goes bound (delay_word n s words)
  unfolding delay_word
  delay_word-Goes bound s [] h = leaves (omega arith)
  delay_word-Goes bound s (x ∷ words) h =
      either-Goes bound (not (s.args.delay == 0)) _ _ (leaves (omega arith)) (go (whole_number x))
    where
      go : (o : Option ℕ) → Goes bound (put_delay n s x words o)
      go none = leaves (omega arith)
      go (some v) =
          put_or_stop-Goes bound s (x ∷ words) _ _ (omega arith)
            (λ m. takes bound _ words (omega arith))

  enter-Goes :
      (bound : ℕ) (bad : Bool) (s : SchedState n) (args : SchedArgs) (w : Bytes)
      (words : List Bytes)
      → 2 * length words + 1 < bound
      → Goes bound (enter n bad s args w words)
  unfolding enter
  enter-Goes bound bad s args w words h =
      either-Goes bound bad _ _ (leaves (omega arith)) (takes bound _ words h)

  after_random_mac-Goes :
      (bound : ℕ) (s : SchedState n) (w : Bytes) (words : List Bytes) (r : Result Msg)
      → 2 * length words + 1 < bound
      → Goes bound (after_random_mac n s w words r)
  after_random_mac-Goes bound s w words (err code) h = leaves (omega arith)
  after_random_mac-Goes bound s w words (ok m) h = takes bound _ words h

  top_action-Goes :
      (bound : ℕ) (addr mask : Bytes) (s : SchedState n) (w : Bytes) (words : List Bytes)
      (t : TopWord)
      → 2 * length words + 1 < bound
      → Goes bound (top_action n addr mask s w words t)
  top_action-Goes bound addr mask s w words t_interval h = interval_word-Goes bound s words h
  top_action-Goes bound addr mask s w words t_scan_plans h = enter-Goes bound _ s _ w words h
  top_action-Goes bound addr mask s w words t_delay h = delay_word-Goes bound s words h
  top_action-Goes bound addr mask s w words t_matches h = enter-Goes bound _ s _ w words h
  top_action-Goes bound addr mask s w words t_freqs h = enter-Goes bound _ s _ w words h
  top_action-Goes bound addr mask s w words t_active h = enter-Goes bound _ s _ w words h
  top_action-Goes bound addr mask s w words t_passive h = enter-Goes bound _ s _ w words h
  top_action-Goes bound addr mask s w words t_randomise h =
      after_random_mac-Goes bound s w words _ h
  top_action-Goes bound addr mask s w words (t_flag v) h = takes bound _ words h
  top_action-Goes bound addr mask s w words t_other h = leaves (omega arith)

  -- No word is taken, but the list ends.
  end_list-Goes :
      (bound : ℕ) (s : SchedState n) (words : List Bytes)
      → 2 * length words < bound
      → Goes bound (end_list n s words)
  unfolding end_list
  end_list-Goes bound s words h =
      either-Goes bound (s.args.i == 0) _ _ (leaves (omega arith)) (goes h)

  match_ssid-Goes :
      (bound : ℕ) (s : SchedState n) (words : List Bytes)
      → 2 * length words + 1 < bound
      → Goes bound (match_ssid n s words)
  unfolding match_ssid
  match_ssid-Goes bound s [] h = leaves (omega arith)
  match_ssid-Goes bound s (x ∷ words) h = opened (n.nla_nest_start s.matchset s.args.i)
    where
      closed : (nest : Nest) (o : Option Msg) → Goes bound (close_match n s x words nest o)
      closed nest none = leaves (omega arith)
      closed nest (some m) = takes bound _ words (omega arith)

      opened : (o : Option (Nest × Msg)) → Goes bound (open_match n s x words o)
      opened none = leaves (omega arith)
      opened (some (nest, m)) = closed nest (n.nla_put m 1 x)

  active_ssid-Goes :
      (bound : ℕ) (s : SchedState n) (words : List Bytes)
      → 2 * length words + 1 < bound
      → Goes bound (active_ssid n s words)
  unfolding active_ssid
  active_ssid-Goes bound s [] h = leaves (omega arith)
  active_ssid-Goes bound s (x ∷ words) h =
      put_or_stop-Goes bound s (x ∷ words) _ _ (omega arith)
        (λ m. takes bound _ words (omega arith))

  freqs_word-Goes :
      (bound : ℕ) (s : SchedState n) (w : Bytes) (words : List Bytes) (o : Option ℕ)
      → 2 * length (w ∷ words) < bound
      → Goes bound (freqs_word n s w words o)
  unfolding freqs_word
  freqs_word-Goes bound s w words none h = end_list-Goes bound s (w ∷ words) h
  freqs_word-Goes bound s w words (some v) h =
      put_or_stop-Goes bound s (w ∷ words) _ _ (omega arith)
        (λ m. takes bound _ words (omega arith))

  plans_word-Goes :
      (bound : ℕ) (s : SchedState n) (w : Bytes) (words : List Bytes) (o : Option (ℕ × ℕ))
      → 2 * length words + 1 < bound
      → Goes bound (plans_word n s w words o)
  unfolding plans_word
  plans_word-Goes bound s w words none h = leaves (omega arith)
  plans_word-Goes bound s w words (some (interval, iterations)) h =
      opened (n.nla_nest_start s.scan_plans (s.args.i + 1))
    where
      closed :
          (nest : Nest) (state : NdState) (o : Option Msg)
          → Goes bound (close_plan n s w words nest interval state o)
      closed nest state none = leaves (omega arith)
      closed nest state (some m) = takes bound _ words h

      put :
          (nest : Nest) (o : Option Msg)
          → Goes bound (put_plan n s w words nest interval iterations o)
      put nest none = leaves (omega arith)
      put nest (some m) =
          either-Goes bound (iterations == 0) _ _ (closed nest nd_toplevel (some m))
            (closed nest nd_plans (n.nla_put_u32 m 2 iterations))

      opened :
          (o : Option (Nest × Msg)) → Goes bound (open_plan n s w words (interval, iterations) o)
      opened none = leaves (omega arith)
      opened (some (nest, m)) = put nest (n.nla_put_u32 m 1 interval)

  sched_step-Goes :
      (addr mask : Bytes) (state : NdState) (s : SchedState n) (w : Bytes) (words : List Bytes)
      → Goes (rounds_left state (length (w ∷ words))) (sched_step n addr mask state s w words)
  unfolding sched_step
  sched_step-Goes addr mask nd_toplevel s w words =
      top_action-Goes _ addr mask s w words (as_top_word w) (omega arith)
  sched_step-Goes addr mask nd_match s w words =
      either-Goes _ (str_eq w (codes "ssid")) _ _ (match_ssid-Goes _ s words (omega arith))
        (end_list-Goes _ s (w ∷ words) (omega arith))
  sched_step-Goes addr mask nd_freqs s w words =
      freqs_word-Goes _ s w words (whole_number w) (omega arith)
  sched_step-Goes addr mask nd_active s w words =
      either-Goes _ (str_eq w (codes "ssid")) _ _ (active_ssid-Goes _ s words (omega arith))
        (end_list-Goes _ s (w ∷ words) (omega arith))
  sched_step-Goes addr mask nd_plans s w words =
      plans_word-Goes _ s w words (read_plan w) (omega arith)

  abbrev Ends : ℕ → Option (Ended n) → Type 0
  Ends bound r = (e : Ended n) × (r ≡ some e) × (2 * length e.words ≤ bound)

  after_step-Ends :
      (bound : ℕ) (step : SchedStep n) (again : SchedState n → List Bytes → Option (Ended n))
      → Goes bound step
      → ((s : SchedState n) (words : List Bytes)
          → rounds_left s.args.state (length words) < bound
          → Ends bound (again s words))
      → Ends bound (after_step n step again)
  after_step-Ends bound (leave e) again (leaves less) h = (e, refl, less)
  after_step-Ends bound (next s words) again (goes less) h = h s words less

  sched_lists-words : (s : SchedState n) (ssids : Msg) → (sched_lists n s ssids).words ≡ []
  sched_lists-words s ssids = elim (Bool-cases (s.args.flags == 0)) [
    | inl e ↦ rw e refl
    | inr e ↦ rw e refl
  ]

  wildcard_or-words : (s : SchedState n) (o : Option Msg) → (wildcard_or n s o).words ≡ []
  wildcard_or-words s none = refl
  wildcard_or-words s (some m) = sched_lists-words s m

  write_sched-words : (s : SchedState n) → (write_sched n s).words ≡ []
  unfolding write_sched
  write_sched-words s = elim (Bool-cases s.args.have_ssids) [
    | inl e ↦ rw e (sched_lists-words s s.ssids)
    | inr e ↦ rw e (wildcard_or-words s (nla_put s.ssids 1 []))
  ]

  sched_loop-Ends :
      (fuel : ℕ) (addr mask : Bytes) (s : SchedState n) (words : List Bytes)
      → rounds_left s.args.state (length words) < fuel
      → Ends (rounds_left s.args.state (length words)) (sched_loop n fuel addr mask s words)
  unfolding sched_loop
  sched_loop-Ends zero addr mask s words h = absurd (omega arith)
  sched_loop-Ends (suc fuel) addr mask s [] h = (_, refl, rw (write_sched-words s) (omega arith))
  sched_loop-Ends (suc fuel) addr mask s (w ∷ words) h =
      after_step-Ends (rounds_left s.args.state (length (w ∷ words)))
        (sched_step n addr mask s.args.state s w words) (sched_loop n fuel addr mask)
        (sched_step-Goes addr mask s.args.state s w words)
        λ s' ws less.
          let (e, ended, size) = sched_loop-Ends fuel addr mask s' ws (omega arith) in
          (e, ended, omega arith)

-- `parse_sched_scan` ends on any words: two rounds for each of them and two more are enough. It leaves
-- no more words than there were.
pub parse_sched_scan-Ended :
    (n : Netlink) (addr mask : Bytes) (msg : n.Msg) (words : List Bytes)
    → (e : Ended n) × (parse_sched_scan n addr mask msg words ≡ some e)
      × (length e.words ≤ length words)
unfolding parse_sched_scan
parse_sched_scan-Ended n addr mask msg words =
    let (e, ended, size) =
      sched_loop-Ends n (2 * length words + 2) addr mask _ words (omega arith) in
    (e, ended, omega arith)
