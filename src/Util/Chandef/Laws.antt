-- ===== src/Util/Chandef/Laws.antt =====
-- How many words `parse_freqchan` uses.
use nl.Base.{
  Bool-cases, ◌==◌, ◌⊎◌, refl, ◌≢◌, ℕ, ◌+◌, ◌≤◌, Bool, true, false, ◌≡◌, Bytes, List, [], ◌∷◌, none,
  some, length, arith, Option-cases, inl, inr,
}
use nl.Util.Chandef.{
  Chanmode, after_mode, plain_channel, Chandef, parse_freqchan, parse_words, parse_freqs,
  parse_center1, parse_center2, read_center, read_freq, str_to_bw, needs, select_mode,
  control_frequency,
}

parse_center2-used :
    (need : Bool) (c : Chandef) (used : ℕ) (argv : List Bytes)
    → ((parse_center2 need c used argv).used ≤ used + length argv)
      × (used ≤ (parse_center2 need c used argv).used)
unfolding parse_center2
parse_center2-used false c used argv = ground arith
parse_center2-used true c used [] = ground arith
parse_center2-used true c used (arg ∷ argv) = ground arith

parse_center1-used :
    (n1 n2 : Bool) (c : Chandef) (used : ℕ) (argv : List Bytes)
    → ((parse_center1 n1 n2 c used argv).used ≤ used + length argv)
      × (used ≤ (parse_center1 n1 n2 c used argv).used)
unfolding parse_center1
parse_center1-used false n2 c used argv = ground arith
parse_center1-used true n2 c used [] = ground arith
parse_center1-used true n2 c used (arg ∷ argv) = elim (Option-cases (read_center arg)) [
  | inl bad ↦ rw bad (omega arith)
  | inr (f, good) ↦ rw good (
      let r = parse_center2-used n2 (record c { center_freq1 = f }) (used + 1) argv in
      (omega arith, omega arith))
]

parse_freqs-used :
    (c : Chandef) (used : ℕ) (argv : List Bytes)
    → ((parse_freqs c argv used).used ≤ used + length argv)
      × (used ≤ (parse_freqs c argv used).used)
unfolding parse_freqs
parse_freqs-used c used [] = ground arith
parse_freqs-used c used (arg ∷ argv) = ground (
  arith,
  parse_center1-used (needs (str_to_bw arg)).0 (needs (str_to_bw arg)).1
      (record c { width = str_to_bw arg }) (used + 1) argv,
)

select_mode-nonempty :
    (argv : List Bytes) (m : Chanmode) → select_mode argv ≡ some m → 1 ≤ length argv
unfolding select_mode
select_mode-nonempty [] m h = cc
select_mode-nonempty (arg ∷ argv) m h = omega arith

words_used :
    (c : Chandef) (chan : Bool) (freq : ℕ) (argv : List Bytes)
    → ((after_mode chan freq argv (select_mode argv)).used ≤ length argv + 1)
      × ((after_mode chan freq argv (select_mode argv)).code ≡ 0
          → 1 ≤ (after_mode chan freq argv (select_mode argv)).used)
words_used c chan freq argv = elim (Option-cases (select_mode argv)) [
  | inr (m, found) ↦
      rw found (let h = select_mode-nonempty argv m found in (omega arith, omega arith))
  | inl missing ↦ rw missing (plain chan)
]
  where
    plain :
        (b : Bool)
        → ((after_mode b freq argv none).used ≤ length argv + 1)
          × ((after_mode b freq argv none).code ≡ 0 → 1 ≤ (after_mode b freq argv none).used)
    plain true = (omega arith, omega arith)
    plain false = let u = parse_freqs-used (plain_channel freq) 1 argv in (omega arith, omega arith)

parse_words-used :
    (c : Chandef) (chan : Bool) (arg : Bytes) (argv : List Bytes)
    → ((parse_words c chan arg argv).used ≤ length argv + 1)
      × ((parse_words c chan arg argv).code ≡ 0 → 1 ≤ (parse_words c chan arg argv).used)
unfolding parse_words
parse_words-used c chan arg argv = elim (Option-cases (read_freq arg)) [
  | inl bad ↦ rw bad (omega arith)
  | inr (v, good) ↦ rw good (words_used c chan (control_frequency chan v) argv)
]

-- Never more words are used than there are, whatever the result. With a result of 0 at least one was
-- used, and all were if the caller passes no `parsed`.
pub parse_freqchan-used :
    (c : Chandef) (chan : Bool) (argv : List Bytes) (parsed : Bool)
    → ((parse_freqchan c chan argv parsed).used ≤ length argv)
      × (((parse_freqchan c chan argv parsed).code ≢ 0)
          ⊎ ((1 ≤ (parse_freqchan c chan argv parsed).used)
              × ((parsed ≡ true) ⊎ ((parse_freqchan c chan argv parsed).used ≡ length argv))))
unfolding parse_freqchan
parse_freqchan-used c chan [] parsed = (omega arith, inl (λ e. omega arith))
parse_freqchan-used c chan (arg ∷ argv) true =
    let u = parse_words-used c chan arg argv in
    elim (Bool-cases ((parse_words c chan arg argv).code == 0)) [
      | inl well ↦ (omega arith, inr (u.1 (ground arith), inl refl))
      | inr bad ↦ (omega arith, inl (ground arith))
    ]
parse_freqchan-used c chan (arg ∷ argv) false =
    let u = parse_words-used c chan arg argv in
    elim (Bool-cases ((parse_words c chan arg argv).used == length argv + 1)) [
      | inr left ↦ rw left (omega arith, inl (λ e. omega arith))
      | inl all_used ↦ rw all_used (elim (Bool-cases ((parse_words c chan arg argv).code == 0)) [
        | inl well ↦ (omega arith, inr (u.1 (ground arith), inr (ground arith)))
        | inr bad ↦ (omega arith, inl (ground arith))
      ])
    ]
