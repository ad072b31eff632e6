-- ===== src/Bitrate/Chunk/Range.antt =====
-- What a chunk that `parse_rate_chunk` accepts says, bit by bit.
use nl.Base.{
  ◌⊎◌, ◌≢◌, ℕ, zero, suc, ◌+◌, ◌-◌, ◌%◌, ◌^◌, ◌<◌, ◌≤◌, bit_or, Bool, true, false, ◌||◌, ◌&&◌, ◌≡◌,
  refl, ap, ◌∙◌, Bytes, List, [], ◌∷◌, ltb, leb, ◌==◌, if◌then◌else◌, arith, passes_below,
  passes_below_at, Bool-cases, inl, inr, ltb→lt,
}
use native.Mathlib.Nat.{mod-eq_of_lt}
use nl.Base.Bits.{test_bit, test_bit-bit_or, test_bit-pow, test_bit-zero, bit_or-lt-pow}
use nl.Libc.{sscanf}
use nl.Bitrate.Chunk.{
  Mode, vht, he, done, failed, Chunk, max_mcs, max_nss, has_char, range_format, list_format,
  or_range, or_table, range_chunk, list_chunk, parse_rate_chunk, bad_nss,
}

pow-lt-table : passes_below (λ i. ltb (2 ^ i) (2 ^ 16)) 16 ≡ true
unfolding passes_below
pow-lt-table = refl

-- The store `*mcs |= 1 << i` loses no bit of the `__u16`.
pub store_bit : (mcs i : ℕ) → mcs < 2 ^ 16 → i < 16 → bit_or mcs (2 ^ i) < 2 ^ 16
store_bit mcs i m h =
    bit_or-lt-pow 16 mcs (2 ^ i) m (ltb→lt _ _ (passes_below_at _ 16 i h pow-lt-table))

pub test_bit-store :
    (mcs i j : ℕ)
    → mcs < 2 ^ 16
    → i < 16
    → test_bit (bit_or mcs (2 ^ i) % 2 ^ 16) j ≡ (test_bit mcs j || i == j)
test_bit-store mcs i j m h =
    ap (λ (n : ℕ). test_bit n j) (mod-eq_of_lt (store_bit mcs i m h))
    ∙ test_bit-bit_or j mcs (2 ^ i)
    ∙ ap (λ (b : Bool). test_bit mcs j || b) (test_bit-pow j i)

abbrev pub member : ℕ → List ℕ → Bool
member j [] = false
member j (t ∷ ts) = t == j || member j ts

test_bit-or_range :
    (rounds i mcs j : ℕ)
    → i + rounds ≤ 16
    → mcs < 2 ^ 16
    → test_bit (or_range rounds i mcs) j ≡ (test_bit mcs j || (leb i j && ltb j (i + rounds)))
unfolding or_range
test_bit-or_range zero i mcs j h m = ground arith
test_bit-or_range (suc rounds) i mcs j h m =
    test_bit-or_range rounds (i + 1) (bit_or mcs (2 ^ i) % 2 ^ 16) j (omega arith) (omega arith)
    ∙ ap (λ (b : Bool). b || (leb (i + 1) j && ltb j (i + 1 + rounds)))
        (test_bit-store mcs i j m (omega arith))
    ∙ ground arith

max_mcs-lt : (mode : Mode) → max_mcs mode < 16
max_mcs-lt vht = omega arith
max_mcs-lt he = omega arith

not_lt : (a b : ℕ) → ltb a b ≡ false → b ≤ a
not_lt a b h = ground arith

failed-ne-done : {c : Chunk} → failed ≢ done c
failed-ne-done h = cc

pub or_assoc : (a b c : Bool) → ((a || b) || c) ≡ (a || (b || c))
or_assoc true b c = refl
or_assoc false b c = refl

or_table-lem :
    (mode : Mode) (inss : ℕ) (tab : List ℕ) (mcs j : ℕ) (c : Chunk)
    → mcs < 2 ^ 16
    → or_table mode inss tab mcs ≡ done c
    → (c.nss ≡ inss)
      × (test_bit c.mcs j ≡ (test_bit mcs j || member j tab))
      × (member j tab ≡ true → j ≤ max_mcs mode)
unfolding or_table
or_table-lem mode inss [] mcs j c m h = (ground arith, ground arith, λ e. cc)
or_table-lem mode inss (t ∷ tab) mcs j c m h = elim (Bool-cases (ltb (max_mcs mode) t)) [
  | inl high ↦ absurd (failed-ne-done (rw high at h))
  | inr low ↦
      let small : t < 16 = omega (arith, max_mcs-lt mode, not_lt (max_mcs mode) t low) in
      let (n, bits, top) =
        or_table-lem mode inss tab (bit_or mcs (2 ^ t) % 2 ^ 16) j c (omega arith) (rw low at h) in
      (
        n,
        bits
            ∙ ap (λ (b : Bool). b || member j tab) (test_bit-store mcs t j m small)
            ∙ or_assoc (test_bit mcs j) (t == j) (member j tab),
        λ e. ground (arith, top, not_lt (max_mcs mode) t low),
      )
]

-- The MCS indices that a chunk asks for.
abbrev in_range : List ℕ → ℕ → Bool
in_range (inss ∷ mcs_start ∷ mcs_end ∷ []) j = leb mcs_start j && leb j mcs_end
in_range _ j = false

abbrev in_table : List ℕ → ℕ → Bool
in_table [] j = false
in_table (inss ∷ tab) j = member j tab

-- NSS:START-END asks for the indices from START to END, NSS:X,Y,… for those listed.
abbrev pub asks_for : Bytes → Mode → ℕ → Bool
asks_for arg mode j =
    if has_char b'-' arg
    then in_range (sscanf arg range_format).values j
    else in_table (sscanf arg (list_format mode)).values j

abbrev pub Accepts : (ℕ → Bool) → Mode → Chunk → Type 0
Accepts asked mode c =
    (1 ≤ c.nss)
    × (c.nss ≤ max_nss mode)
    × ((j : ℕ) → test_bit c.mcs j ≡ asked j)
    × ((j : ℕ) → (asked j ≡ false) ⊎ (j ≤ max_mcs mode))

pub range_guard :
    (mode : Mode) (inss s e : ℕ) (c : Chunk)
    → range_chunk mode (inss ∷ s ∷ e ∷ []) ≡ done c
    → (bad_nss mode inss ≡ false)
      × (s ≤ e)
      × (e ≤ max_mcs mode)
      × (c.nss ≡ inss)
      × (c.mcs ≡ or_range (e + 1 - s) s 0)
unfolding range_chunk
range_guard mode inss s e c h =
    (ground arith, ground arith, ground arith, ground arith, ground arith)

pub list_guard :
    (mode : Mode) (inss : ℕ) (tab : List ℕ) (c : Chunk)
    → (if bad_nss mode inss then failed else or_table mode inss tab 0) ≡ done c
    → (bad_nss mode inss ≡ false) × (or_table mode inss tab 0 ≡ done c)
list_guard mode inss tab c h = elim (Bool-cases (bad_nss mode inss)) [
  | inl outside ↦ absurd (failed-ne-done (rw outside at h))
  | inr inside ↦ (inside, rw inside at h)
]

nss_bounds :
    (mode : Mode) (inss : ℕ) → bad_nss mode inss ≡ false → (1 ≤ inss) × (inss ≤ max_nss mode)
nss_bounds mode inss h = (ground arith, ground arith)

bounded : {P : Type 0} (b : Bool) → (b ≡ true → P) → (b ≡ false) ⊎ P
bounded true h = inr (h refl)
bounded false h = inl refl

range_chunk-Accepts :
    (mode : Mode) (values : List ℕ) (c : Chunk)
    → range_chunk mode values ≡ done c
    → Accepts (in_range values) mode c
unfolding range_chunk
range_chunk-Accepts mode [] c h = cc
range_chunk-Accepts mode (a ∷ []) c h = cc
range_chunk-Accepts mode (a ∷ b ∷ []) c h = cc
range_chunk-Accepts mode (inss ∷ s ∷ e ∷ []) c h =
    let (streams, ordered, top, n, m) = range_guard mode inss s e c h in
    let (low, high) = nss_bounds mode inss streams in
    (
      omega arith,
      omega arith,
      λ j. rw m (
          test_bit-or_range (e + 1 - s) s 0 j (omega (arith, max_mcs-lt mode)) (omega arith)
          ∙ ap (λ (b : Bool). b || (leb s j && ltb j (s + (e + 1 - s)))) (test_bit-zero j)
          ∙ ground arith),
      λ j. ground arith,
    )
range_chunk-Accepts mode (a ∷ b ∷ d ∷ f ∷ g) c h = cc

list_chunk-Accepts :
    (mode : Mode) (eof : Bool) (values : List ℕ) (c : Chunk)
    → list_chunk mode eof values ≡ done c
    → Accepts (in_table values) mode c
unfolding list_chunk
list_chunk-Accepts mode true values c h = cc
list_chunk-Accepts mode false [] c h = cc
list_chunk-Accepts mode false (a ∷ []) c h = cc
list_chunk-Accepts mode false (inss ∷ t ∷ tab) c h =
    let (streams, filled) = list_guard mode inss (t ∷ tab) c h in
    let (low, high) = nss_bounds mode inss streams in
    let lem = λ (j : ℕ). or_table-lem mode inss (t ∷ tab) 0 j c (omega arith) filled in
    (
      rw (lem 0).0 low,
      rw (lem 0).0 high,
      λ j. (lem j).1 ∙ ap (λ (b : Bool). b || member j (t ∷ tab)) (test_bit-zero j),
      λ j. bounded (member j (t ∷ tab)) (lem j).2,
    )

-- A chunk that is accepted names a number of streams that the mode has, asks for no MCS index above
-- the highest one of the mode, and its mask has exactly the bits of the indices asked for.
pub parse_rate_chunk-Accepts :
    (arg : Bytes) (mode : Mode) (c : Chunk)
    → parse_rate_chunk arg mode ≡ done c
    → Accepts (asks_for arg mode) mode c
unfolding parse_rate_chunk
parse_rate_chunk-Accepts arg mode c h = elim (Bool-cases (has_char b'-' arg)) [
  | inl dash ↦ rw dash (range_chunk-Accepts mode _ c (rw dash at h))
  | inr no_dash ↦ rw no_dash (list_chunk-Accepts mode _ _ c (rw no_dash at h))
]
