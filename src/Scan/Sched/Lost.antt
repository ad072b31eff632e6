-- ===== src/Scan/Sched/Lost.antt =====
-- The list of frequencies that `parse_sched_scan` puts or drops.
use nl.Base.{
  ◌==◌, false, true, zero, suc, length, ◌+◌, ◌*◌, arith, All, ◌≤◌, Bytes, none, some, List, [], ◌∷◌,
  codes, ◌≡◌, refl, ℕ,
}
use nl.Nl80211.Attr
use nl.Netlink.{Netlink, ok, Attrs, nil, u32, put_all}
use nl.Netlink.Laws.{u32-eq-ok, nil-eq-ok}
use nl.Scan.Request.{whole_number}
use nl.Scan.Sched.{
  handle_start_sched_scan, sched_loop, sched_step, freqs_word, end_list, enter, t_freqs, t_other,
  as_top_word, parse_sched_scan, SchedState, no_sched_args, nd_freqs, write_sched,
}

freqs_top : as_top_word (codes "freqs") ≡ t_freqs
unfolding as_top_word
freqs_top = refl

-- Words for numbers, with their values, in front of other words.
abbrev pub texts : List (Bytes × ℕ) → List Bytes → List Bytes
texts [] rest = rest
texts ((word, v) ∷ ps) rest = word ∷ texts ps rest

abbrev pub AreNumbers : List (Bytes × ℕ) → Type 0
AreNumbers ps = All (λ p. whole_number p.0 ≡ some p.1) ps

-- The frequencies under their index.
abbrev pub freqs_attrs : ℕ → List (Bytes × ℕ) → Attrs
freqs_attrs i [] = nil
freqs_attrs i ((word, v) ∷ ps) = u32 i v (freqs_attrs (i + 1) ps)

module _ (n : Netlink) (addr mask : Bytes) where
  open n use {Msg, nlmsg_alloc, nla_put, nla_put_nested}

  -- The state in the list of frequencies, with those that are put.
  abbrev in_freqs : ℕ → Msg → Msg → SchedState n
  in_freqs i list msg = record {
    args = record no_sched_args { state = nd_freqs; have_freqs = true; i = i };
    msg = msg;
    matchset = nlmsg_alloc;
    freqs = list;
    ssids = nlmsg_alloc;
    scan_plans = nlmsg_alloc;
  }

  -- The loop over a list of frequencies.
  numbers-sched_loop :
      (ps : List (Bytes × ℕ)) (fuel i : ℕ) (msg list list' : Msg) (rest : List Bytes)
      → AreNumbers ps
      → put_all n (freqs_attrs i ps) list ≡ ok list'
      → sched_loop n (length ps + fuel) addr mask (in_freqs i list msg) (texts ps rest)
        ≡ sched_loop n fuel addr mask (in_freqs (i + length ps) list' msg) rest
  unfolding sched_loop sched_step freqs_word
  numbers-sched_loop [] fuel i msg list list' rest are h =
      let none_left : 0 + fuel ≡ fuel = omega arith in
      let same : i + 0 ≡ i = omega arith in rw (none_left, same, nil-eq-ok n list list' h) refl
  numbers-sched_loop ((word, v) ∷ ps) fuel i msg list list' rest (is, are) h =
      let (list1, put, h1) = u32-eq-ok n i v _ list list' h in
      let more : suc (length ps) + fuel ≡ suc (length ps + fuel) = omega arith in
      let next : i + suc (length ps) ≡ (i + 1) + length ps = omega arith in
      rw (more, next, is, put) (numbers-sched_loop ps fuel (i + 1) msg list1 list' rest are h1)

  length-texts :
      (ps : List (Bytes × ℕ)) (rest : List Bytes) → length (texts ps rest) ≡ length ps + length rest
  length-texts [] rest = omega arith
  length-texts ((word, v) ∷ ps) rest = omega (arith, length-texts ps rest)

  -- "freqs" and the numbers, with fuel for the words behind them.
  freqs-parse_sched_scan :
      (ps : List (Bytes × ℕ)) (msg list : Msg) (rest : List Bytes)
      → AreNumbers ps
      → put_all n (freqs_attrs 0 ps) nlmsg_alloc ≡ ok list
      → (fuel : ℕ) × (1 ≤ fuel)
        × (parse_sched_scan n addr mask msg (codes "freqs" ∷ texts ps rest)
            ≡ sched_loop n (suc (suc fuel)) addr mask (in_freqs (0 + length ps) list msg) rest)
  unfolding parse_sched_scan sched_step enter
  freqs-parse_sched_scan ps msg list rest are h =
      let fuel = length ps + 2 * length rest + 1 in
      let size = length-texts ps rest in
      let enough : 2 * suc (length (texts ps rest)) + 2 ≡ suc (length ps + suc (suc fuel)) =
        omega (arith, size) in
      (
        fuel,
        omega arith,
        rw enough (
            unfold sched_loop in
            rw freqs_top
              (numbers-sched_loop ps (suc (suc fuel)) 0 msg nlmsg_alloc list rest are h)),
      )

  other_word :
      (fuel i : ℕ) (msg list : Msg) (other : Bytes) (rest : List Bytes)
      → 1 ≤ i
      → whole_number other ≡ none
      → as_top_word other ≡ t_other
      → sched_loop n (suc (suc fuel)) addr mask (in_freqs i list msg) (other ∷ rest)
        ≡ some record { code = none; msg = msg; words = other ∷ rest }
  unfolding sched_loop sched_step freqs_word end_list
  other_word fuel zero msg list other rest h no_number foreign = absurd (omega arith)
  other_word fuel (suc i) msg list other rest h no_number foreign =
      let some_put : (suc i == 0) ≡ false = ground arith in rw (no_number, some_put, foreign) refl

  -- `scan sched_start` with "freqs" and any list of numbers, at least one, if the numbers, a
  -- wildcard for the SSID and the nests of the two find room. With no word behind the list the
  -- message gets the wildcard and all the frequencies under their index. A word behind the list that
  -- is no number and no word of the parser drops it: the handler ends without an error, whatever
  -- words follow, and the message is the one it began with.
  pub handle_start_sched_scan-lost :
      (p : Bytes × ℕ) (ps : List (Bytes × ℕ)) (msg list ssids m1 m2 : Msg) (other : Bytes)
      (rest : List Bytes)
      → AreNumbers (p ∷ ps)
      → put_all n (freqs_attrs 0 (p ∷ ps)) nlmsg_alloc ≡ ok list
      → nla_put nlmsg_alloc 1 [] ≡ some ssids
      → nla_put_nested msg Attr.scan_ssids ssids ≡ some m1
      → nla_put_nested m1 Attr.scan_frequencies list ≡ some m2
      → whole_number other ≡ none
      → as_top_word other ≡ t_other
      → (handle_start_sched_scan n addr mask msg (codes "freqs" ∷ texts (p ∷ ps) []) ≡ some (ok m2))
        × (handle_start_sched_scan n addr mask msg (codes "freqs" ∷ texts (p ∷ ps) (other ∷ rest))
            ≡ some (ok msg))
  unfolding handle_start_sched_scan
  handle_start_sched_scan-lost p ps msg list ssids m1 m2 other rest are h wildcard put_ssids
        put_freqs no_number foreign =
      let (fuel, less, whole) = freqs-parse_sched_scan (p ∷ ps) msg list [] are h in
      let (fuel2, less2, cut_off) = freqs-parse_sched_scan (p ∷ ps) msg list (other ∷ rest) are h in
      (
        rw whole (unfold sched_loop write_sched in rw (wildcard, put_ssids, put_freqs) refl),
        rw cut_off (
            rw
              (other_word fuel2 (0 + suc (length ps)) msg list other rest (omega arith) no_number
                foreign)
              refl),
      )
