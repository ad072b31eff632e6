-- ===== src/Util/Chandef/Freqs.antt =====
-- The width and the centre frequencies that `parse_freqs` reads.
use nl.Base.{
  ◌⊎◌, refl, zero, suc, ℕ, ◌+◌, ◌≤◌, Bool, true, false, ◌≡◌, Bytes, List, [], ◌∷◌, none, some,
  arith, Option-cases, inl, inr, codes, sym, ◌∙◌, ap,
}
use nl.Util.Chandef.Numbers.{NumberAt, center_at, center_at-NumberAt, NumberAt-center_at}
use nl.Util.Chandef.{
  width_160, width_80p80, width_80, width_40, width_20, width_10, width_5, is_noht, ChanWidth,
  Parsed, Chandef, parse_freqs, parse_center1, parse_center2, read_center, str_to_bw, bw_lookup,
  needs,
}

-- The words for a width, with the count of centre frequencies that have to follow.
pub data Names (arg : Bytes) (width : ChanWidth) (count : ℕ) : Type 0 where
  named_5 : arg ≡ codes "5" → width ≡ width_5 → count ≡ 0 → Names arg width count
  named_10 : arg ≡ codes "10" → width ≡ width_10 → count ≡ 0 → Names arg width count
  named_20 : arg ≡ codes "20" → width ≡ width_20 → count ≡ 0 → Names arg width count
  named_40 : arg ≡ codes "40" → width ≡ width_40 → count ≡ 1 → Names arg width count
  named_80 : arg ≡ codes "80" → width ≡ width_80 → count ≡ 1 → Names arg width count
  named_80p80 : arg ≡ codes "80+80" → width ≡ width_80p80 → count ≡ 2 → Names arg width count
  named_160 : arg ≡ codes "160" → width ≡ width_160 → count ≡ 1 → Names arg width count

-- The centre frequencies are the numbers of the first `count` words, and stay as they were else.
abbrev pub CentersAre : (count : ℕ) → Chandef → List Bytes → Chandef → Type 0
CentersAre zero c words c' = (c'.center_freq1 ≡ c.center_freq1) × (c'.center_freq2 ≡ c.center_freq2)
CentersAre (suc zero) c words c' =
    NumberAt words 0 c'.center_freq1 × (c'.center_freq2 ≡ c.center_freq2)
CentersAre (suc (suc i)) c words c' =
    NumberAt words 0 c'.center_freq1 × NumberAt words 1 c'.center_freq2

abbrev pub count_needed : Bool × Bool → ℕ
count_needed (false, _) = 0
count_needed (true, false) = 1
count_needed (true, true) = 2

-- The centre frequencies come from the words behind the width if the width needs them, and stay as
-- they were if not.
abbrev Centers : Bool × Bool → Chandef → List Bytes → Chandef → Type 0
Centers (false, _) c argv c' =
    (c'.center_freq1 ≡ c.center_freq1) × (c'.center_freq2 ≡ c.center_freq2)
Centers (true, false) c argv c' =
    (center_at argv 0 ≡ some c'.center_freq1) × (c'.center_freq2 ≡ c.center_freq2)
Centers (true, true) c argv c' =
    (center_at argv 0 ≡ some c'.center_freq1) × (center_at argv 1 ≡ some c'.center_freq2)

abbrev Describes : Bool × Bool → Chandef → List Bytes → ℕ → Parsed → Type 0
Describes need c argv used p =
    (p.chandef.width ≡ c.width)
    × (p.chandef.control_freq ≡ c.control_freq)
    × (p.used ≡ used + count_needed need)
    × Centers need c argv p.chandef

parse_center1-Describes :
    (n1 n2 : Bool) (c : Chandef) (used : ℕ) (argv : List Bytes)
    → (parse_center1 n1 n2 c used argv).code ≡ 0
    → Describes (n1, n2) c argv used (parse_center1 n1 n2 c used argv)
unfolding parse_center1 parse_center2
parse_center1-Describes false n2 c used argv h = (refl, refl, omega arith, (refl, refl))
parse_center1-Describes true n2 c used [] h = absurd (omega arith)
parse_center1-Describes true false c used (a ∷ argv) h = ground arith
parse_center1-Describes true true c used (a ∷ []) h = ground arith
parse_center1-Describes true true c used (a ∷ b ∷ argv) h = ground arith

Centers-width :
    (need : Bool × Bool) (c c' : Chandef) (w : ChanWidth) (argv : List Bytes)
    → Centers need (record c { width = w }) argv c'
    → Centers need c argv c'
Centers-width (false, n2) c c' w argv h = h
Centers-width (true, false) c c' w argv h = h
Centers-width (true, true) c c' w argv h = h

abbrev need_of : ℕ → Bool × Bool
need_of zero = (false, false)
need_of (suc zero) = (true, false)
need_of (suc (suc i)) = (true, true)

Centers-CentersAre :
    (k : ℕ) (c c' : Chandef) (words : List Bytes)
    → Centers (need_of k) c words c'
    → CentersAre k c words c'
Centers-CentersAre zero c c' words h = h
Centers-CentersAre (suc zero) c c' words (first, same) = (center_at-NumberAt words 0 _ first, same)
Centers-CentersAre (suc (suc i)) c c' words (first, second) =
    (center_at-NumberAt words 0 _ first, center_at-NumberAt words 1 _ second)

CentersAre-Centers :
    (k : ℕ) (c c' : Chandef) (words : List Bytes)
    → CentersAre k c words c'
    → Centers (need_of k) c words c'
CentersAre-Centers zero c c' words h = h
CentersAre-Centers (suc zero) c c' words (first, same) = (NumberAt-center_at words 0 _ first, same)
CentersAre-Centers (suc (suc i)) c c' words (first, second) =
    (NumberAt-center_at words 0 _ first, NumberAt-center_at words 1 _ second)

count-need_of : (k : ℕ) → k ≤ 2 → count_needed (need_of k) ≡ k
count-need_of zero h = refl
count-need_of (suc zero) h = refl
count-need_of (suc (suc i)) h = omega arith

Centers-first :
    (n2 : Bool) (c c' : Chandef) (words : List Bytes)
    → Centers (true, n2) c words c'
    → center_at words 0 ≡ some c'.center_freq1
Centers-first true c c' words (first, second) = first
Centers-first false c c' words (first, same) = first

parse_center2-fails :
    (need : Bool) (c : Chandef) (used : ℕ) (words : List Bytes)
    → ((parse_center2 need c used words).code ≡ 0)
      ⊎ (((parse_center2 need c used words).code ≡ 1) × (need ≡ true) × (center_at words 0 ≡ none))
unfolding parse_center2
parse_center2-fails false c used words = inl refl
parse_center2-fails true c used [] = inr (refl, refl, refl)
parse_center2-fails true c used (a ∷ words) = elim (Option-cases (read_center a)) [
  | inl bad ↦ rw bad (inr (refl, refl, refl))
  | inr (f, good) ↦ rw good (inl refl)
]

-- A code that is not 0 is 1, and then there is no structure with the centre frequencies of the words.
parse_center1-fails :
    (n1 n2 : Bool) (c : Chandef) (used : ℕ) (words : List Bytes)
    → ((parse_center1 n1 n2 c used words).code ≡ 0)
      ⊎ (((parse_center1 n1 n2 c used words).code ≡ 1)
          × ((c' : Chandef) → Centers (n1, n2) c words c' → ⊥))
unfolding parse_center1
parse_center1-fails false n2 c used words = inl refl
parse_center1-fails true n2 c used [] = inr (refl, λ c' h. let e = Centers-first n2 c c' [] h in cc)
parse_center1-fails true n2 c used (a ∷ words) = elim (Option-cases (read_center a)) [
  | inl bad ↦ rw bad (
      inr (refl, λ c' h. let e = Centers-first n2 c c' (a ∷ words) h in let e2 = sym bad ∙ e in cc))
  | inr (f, good) ↦
      rw good (elim (parse_center2-fails n2 (record c { center_freq1 = f }) (used + 1) words) [
        | inl well ↦ inl well
        | inr (one, need, missing) ↦ inr (one, λ c' h. second_missing n2 c' need missing h)
      ])
]
  where
    second_missing :
        (need : Bool) (c' : Chandef)
        → need ≡ true
        → center_at words 0 ≡ none
        → Centers (true, need) c (a ∷ words) c'
        → ⊥
    second_missing true c' e missing (first, second) = let e2 = sym missing ∙ second in cc
    second_missing false c' e missing h = cc

width_Centers :
    (need : Bool × Bool) (c c' : Chandef) (w : ChanWidth) (argv : List Bytes)
    → Centers need c argv c'
    → Centers need (record c { width = w }) argv c'
width_Centers (false, n2) c c' w argv h = h
width_Centers (true, false) c c' w argv h = h
width_Centers (true, true) c c' w argv h = h

-- What a width with `k` centre frequencies leads to.
abbrev Read : ℕ → Chandef → ChanWidth → List Bytes → ℕ → Parsed → Type 0
Read k c w words used p =
    ((p.code ≡ 0)
      × (p.chandef.width ≡ w)
      × (p.chandef.control_freq ≡ c.control_freq)
      × (p.used ≡ used + 1 + k)
      × CentersAre k c words p.chandef)
    ⊎ ((p.code ≡ 1) × (¬ ((c' : Chandef) × CentersAre k c words c')))

parse_freqs-Read :
    (k : ℕ) (c : Chandef) (arg : Bytes) (w : ChanWidth) (words : List Bytes) (used : ℕ)
    → k ≤ 2
    → str_to_bw arg ≡ w
    → is_noht w ≡ false
    → needs w ≡ need_of k
    → Read k c w words used (parse_freqs c (arg ∷ words) used)
unfolding parse_freqs
parse_freqs-Read k c arg w words used small is some_width need =
    let c2 = record c { width = w } in
    let n = need_of k in
    rw (is, some_width, need)
      (elim (parse_center1-fails n.0 n.1 c2 (used + 1) words) [
        | inl well ↦
            let (width, control, count, centers) =
              parse_center1-Describes n.0 n.1 c2 (used + 1) words well in
            inl (
              well,
              width,
              control,
              count ∙ ap (λ x. used + 1 + x) (count-need_of k small),
              Centers-CentersAre k c _ words (Centers-width n c _ w words centers),
            )
        | inr (one, fails) ↦ inr (
          one,
          λ r. fails r.0 (width_Centers n c r.0 w words (CentersAre-Centers k c r.0 words r.1)),
        )
      ])

width_of :
    (arg : Bytes) (w : ChanWidth) (k : ℕ)
    → Names arg w k
    → (k ≤ 2) × (str_to_bw arg ≡ w) × (is_noht w ≡ false) × (needs w ≡ need_of k)
unfolding str_to_bw bw_lookup
width_of arg w k (named_5 is width count) = rw (is, width, count) (omega arith, refl, refl, refl)
width_of arg w k (named_10 is width count) = rw (is, width, count) (omega arith, refl, refl, refl)
width_of arg w k (named_20 is width count) = rw (is, width, count) (omega arith, refl, refl, refl)
width_of arg w k (named_40 is width count) = rw (is, width, count) (omega arith, refl, refl, refl)
width_of arg w k (named_80 is width count) = rw (is, width, count) (omega arith, refl, refl, refl)
width_of arg w k (named_80p80 is width count) =
    rw (is, width, count) (omega arith, refl, refl, refl)
width_of arg w k (named_160 is width count) = rw (is, width, count) (omega arith, refl, refl, refl)

-- A first word that names a width: 5, 10 and 20 need no centre frequency, 40, 80 and 160 need one and
-- 80+80 needs two. If the words behind it start with as many numbers, `parse_freqs` has the code 0, it
-- has used the word and the numbers, the width is the one named, the centre frequencies are those
-- numbers, one that is not needed stays, and so does the control frequency. If not, the code is 1.
pub parse_freqs-Names :
    (c : Chandef) (arg : Bytes) (w : ChanWidth) (k : ℕ) (words : List Bytes) (used : ℕ)
    → Names arg w k
    → (((parse_freqs c (arg ∷ words) used).code ≡ 0)
        × ((parse_freqs c (arg ∷ words) used).chandef.width ≡ w)
        × ((parse_freqs c (arg ∷ words) used).chandef.control_freq ≡ c.control_freq)
        × ((parse_freqs c (arg ∷ words) used).used ≡ used + 1 + k)
        × CentersAre k c words (parse_freqs c (arg ∷ words) used).chandef)
      ⊎ (((parse_freqs c (arg ∷ words) used).code ≡ 1)
          × (¬ ((c' : Chandef) × CentersAre k c words c')))
parse_freqs-Names c arg w k words used named =
    let (small, same, some_width, need) = width_of arg w k named in
    parse_freqs-Read k c arg w words used small same some_width need
