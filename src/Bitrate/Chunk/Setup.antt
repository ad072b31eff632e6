-- ===== src/Bitrate/Chunk/Setup.antt =====
-- The tables of `setup_vht` and `setup_he`, and the chunk that reads unassigned variables.
use nl.Base.{
  ℕ, zero, suc, ◌+◌, ◌-◌, ◌%◌, ◌^◌, ◌<◌, ◌≤◌, ◌≢◌, bit_or, Bool, true, false, ◌||◌, ◌&&◌, ◌≡◌, refl,
  ap, ◌∙◌, Bytes, List, [], ◌∷◌, length, ◌==◌, arith, Bool-cases, inl, inr, get_or, set, length-set,
  get_or-set_self, get_or-set_ne, replicate, All,
}
use native.Mathlib.Nat.{mod-eq_of_lt}
use nl.Base.Bits.{test_bit, test_bit-bit_or, test_bit-zero, bit_or-lt-pow}
use nl.Libc.{Directive, number, Scanned, sscanf, scan_from, scan_number, skip_space, is_space}
use nl.Bitrate.Chunk.{
  Mode, Run, done, failed, uninitialised, Chunk, max_nss, has_char, or_range, or_table, range_chunk,
  list_chunk, parse_rate_chunk, or_mcs, then_setup, setup_loop, setup, vht, he,
}
use nl.Bitrate.Chunk.Range.{or_assoc, parse_rate_chunk-Accepts, range_guard, list_guard}

or_range-lt : (rounds i mcs : ℕ) → mcs < 2 ^ 16 → or_range rounds i mcs < 2 ^ 16
unfolding or_range
or_range-lt zero i mcs m = m
or_range-lt (suc rounds) i mcs m =
    or_range-lt rounds (i + 1) (bit_or mcs (2 ^ i) % 2 ^ 16) (omega arith)

or_table-lt :
    (mode : Mode) (inss : ℕ) (tab : List ℕ) (mcs : ℕ) (c : Chunk)
    → mcs < 2 ^ 16
    → or_table mode inss tab mcs ≡ done c
    → c.mcs < 2 ^ 16
unfolding or_table
or_table-lt mode inss [] mcs c m h = ground arith
or_table-lt mode inss (t ∷ tab) mcs c m h =
    ground (arith, or_table-lt mode inss tab (bit_or mcs (2 ^ t) % 2 ^ 16) c)

range_chunk-lt :
    (mode : Mode) (values : List ℕ) (c : Chunk) → range_chunk mode values ≡ done c → c.mcs < 2 ^ 16
range_chunk-lt mode [] c h = unfold range_chunk in cc
range_chunk-lt mode (a ∷ []) c h = unfold range_chunk in cc
range_chunk-lt mode (a ∷ b ∷ []) c h = unfold range_chunk in cc
range_chunk-lt mode (inss ∷ s ∷ e ∷ []) c h =
    omega (arith, (range_guard mode inss s e c h).4, or_range-lt (e + 1 - s) s 0 (omega arith))
range_chunk-lt mode (a ∷ b ∷ d ∷ f ∷ g) c h = unfold range_chunk in cc

list_chunk-lt :
    (mode : Mode) (eof : Bool) (values : List ℕ) (c : Chunk)
    → list_chunk mode eof values ≡ done c
    → c.mcs < 2 ^ 16
unfolding list_chunk
list_chunk-lt mode true values c h = cc
list_chunk-lt mode false [] c h = cc
list_chunk-lt mode false (a ∷ []) c h = cc
list_chunk-lt mode false (inss ∷ t ∷ tab) c h =
    or_table-lt mode inss (t ∷ tab) 0 c (omega arith) (list_guard mode inss (t ∷ tab) c h).1

parse_rate_chunk-lt :
    (arg : Bytes) (mode : Mode) (c : Chunk) → parse_rate_chunk arg mode ≡ done c → c.mcs < 2 ^ 16
unfolding parse_rate_chunk
parse_rate_chunk-lt arg mode c h = elim (Bool-cases (has_char b'-' arg)) [
  | inl dash ↦ range_chunk-lt mode _ c (rw dash at h)
  | inr no_dash ↦ list_chunk-lt mode _ _ c (rw no_dash at h)
]

-- A table of eight masks.
record IsTable (table : List ℕ) : Type 0 where
  eight : length table ≡ 8
  masks : (k : ℕ) → get_or table k 0 < 2 ^ 16

get_or-set-lt :
    (xs : List ℕ) (i k v : ℕ)
    → v < 2 ^ 16
    → ((n : ℕ) → get_or xs n 0 < 2 ^ 16)
    → get_or (set xs i v) k 0 < 2 ^ 16
get_or-set-lt [] i k v h all = all k
get_or-set-lt (x ∷ xs) zero zero v h all = h
get_or-set-lt (x ∷ xs) zero (suc k) v h all = all (suc k)
get_or-set-lt (x ∷ xs) (suc i) zero v h all = all zero
get_or-set-lt (x ∷ xs) (suc i) (suc k) v h all = get_or-set-lt xs i k v h (λ n. all (suc n))

or_mcs-IsTable :
    (table : List ℕ) (c : Chunk) → c.mcs < 2 ^ 16 → IsTable table → IsTable (or_mcs table c)
or_mcs-IsTable table c m t = record {
  eight = length-set table ((c.nss + 255) % 256) _ ∙ t.eight;
  masks = λ k. get_or-set-lt table ((c.nss + 255) % 256) k _ (omega arith) t.masks;
}

-- A chunk whose number of streams is `k + 1` goes into mask `k`, the others leave it alone.
or_mcs-bits :
    (table : List ℕ) (c : Chunk) (k j : ℕ)
    → IsTable table
    → c.mcs < 2 ^ 16
    → 1 ≤ c.nss
    → c.nss ≤ 8
    → test_bit (get_or (or_mcs table c) k 0) j
      ≡ (test_bit (get_or table k 0) j || (c.nss == k + 1 && test_bit c.mcs j))
or_mcs-bits table c k j t m low high =
    let at : (c.nss + 255) % 256 ≡ c.nss - 1 = omega arith in
    rw at (elim (Bool-cases (c.nss == k + 1)) [
      | inl same ↦
          let e : c.nss - 1 ≡ k = ground arith in
          rw (e, same, get_or-set_self table k _ 0 (omega arith))
            (ap (λ (n : ℕ). test_bit n j)
                (mod-eq_of_lt (bit_or-lt-pow 16 (get_or table k 0) c.mcs (t.masks k) m))
              ∙ test_bit-bit_or j (get_or table k 0) c.mcs)
      | inr other ↦
          let e : c.nss - 1 ≢ k = ground arith in
          rw (other, get_or-set_ne table _ 0 e) (ground arith)
    ])

-- Whether the chunk of a word sets bit `j` of mask `k`.
abbrev pub sets_bit : Run Chunk → ℕ → ℕ → Bool
sets_bit (done c) k j = c.nss == k + 1 && test_bit c.mcs j
sets_bit _ k j = false

abbrev pub any_sets_bit : Mode → List Bytes → ℕ → ℕ → Bool
any_sets_bit mode [] k j = false
any_sets_bit mode (arg ∷ argv) k j =
    sets_bit (parse_rate_chunk arg mode) k j || any_sets_bit mode argv k j

then_setup-eq-done :
    (r : Run Chunk) (next : Chunk → Run (List ℕ)) {table : List ℕ}
    → then_setup r next ≡ done table
    → (c : Chunk) × (r ≡ done c) × (next c ≡ done table)
then_setup-eq-done (done c) next h = (c, refl, h)
then_setup-eq-done failed next h = cc
then_setup-eq-done uninitialised next h = cc

max_nss-le : (mode : Mode) → max_nss mode ≤ 8
max_nss-le vht = omega arith
max_nss-le he = omega arith

get_or-replicate : (n k : ℕ) → get_or {A = ℕ} (replicate n 0) k 0 ≡ 0
get_or-replicate zero k = refl
get_or-replicate (suc n) zero = refl
get_or-replicate (suc n) (suc k) = get_or-replicate n k

empty : IsTable (replicate 8 0)
empty = record { eight = refl; masks = λ k. omega (arith, get_or-replicate 8 k) }

none_set : (k j : ℕ) → test_bit (get_or {A = ℕ} (replicate 8 0) k 0) j ≡ false
none_set k j = ap (λ (n : ℕ). test_bit n j) (get_or-replicate 8 k) ∙ test_bit-zero j

setup_loop-bits :
    (mode : Mode) (argv : List Bytes) (table table' : List ℕ)
    → IsTable table
    → setup_loop mode argv table ≡ done table'
    → IsTable table'
      × ((k j : ℕ)
          → test_bit (get_or table' k 0) j
            ≡ (test_bit (get_or table k 0) j || any_sets_bit mode argv k j))
unfolding setup_loop
setup_loop-bits mode [] table table' t h =
    let e : table ≡ table' = cc in (rw (← e) t, λ k j. rw (← e) (ground arith))
setup_loop-bits mode (arg ∷ argv) table table' t h =
    let (c, accepted, later) = then_setup-eq-done (parse_rate_chunk arg mode) _ h in
    let m = parse_rate_chunk-lt arg mode c accepted in
    let a = parse_rate_chunk-Accepts arg mode c accepted in
    let high : c.nss ≤ 8 = omega (arith, max_nss-le mode, a.1) in
    let (t', bits) =
      setup_loop-bits mode argv (or_mcs table c) table' (or_mcs-IsTable table c m t) later in
    (
      t',
      λ k j. rw accepted (
          bits k j
          ∙ ap (λ (b : Bool). b || any_sets_bit mode argv k j)
              (or_mcs-bits table c k j t m a.0 high)
          ∙ or_assoc (test_bit (get_or table k 0) j) (c.nss == k + 1 && test_bit c.mcs j)
              (any_sets_bit mode argv k j)),
    )

-- The table has eight masks, and bit `j` of mask `k` is set exactly if one of the words is a chunk for
-- `k + 1` streams with that bit.
pub setup-bits :
    (mode : Mode) (argv : List Bytes) (table : List ℕ)
    → setup mode argv ≡ done table
    → (length table ≡ 8) × ((k j : ℕ) → test_bit (get_or table k 0) j ≡ any_sets_bit mode argv k j)
unfolding setup
setup-bits mode argv table h =
    let (t, bits) = setup_loop-bits mode argv (replicate 8 0) table empty h in
    (t.eight, λ k j. bits k j ∙ ap (λ (b : Bool). b || any_sets_bit mode argv k j) (none_set k j))

skip_space-blank : (arg : Bytes) → All (λ c. is_space c ≡ true) arg → skip_space arg ≡ []
unfolding skip_space
skip_space-blank [] h = refl
skip_space-blank (c ∷ cs) (h, hs) = rw h (skip_space-blank cs hs)

sscanf-blank :
    (arg : Bytes) (base : ℕ) (ds : List Directive)
    → All (λ c. is_space c ≡ true) arg
    → sscanf arg (number base ∷ ds) ≡ record { values = []; eof = true }
unfolding scan_from scan_number
sscanf-blank arg base ds h = rw (skip_space-blank arg h)

has_char-blank : (arg : Bytes) → All (λ c. is_space c ≡ true) arg → has_char b'-' arg ≡ false
unfolding has_char
has_char-blank [] h = refl
has_char-blank (c ∷ cs) (h, hs) = ground (arith, has_char-blank cs hs)

-- On a blank word, the empty one included, `sscanf` returns EOF, the count passes the test for two
-- numbers, and the number of streams is read without having been assigned.
pub parse_rate_chunk_blank :
    (arg : Bytes) (mode : Mode)
    → All (λ c. is_space c ≡ true) arg
    → parse_rate_chunk arg mode ≡ uninitialised
unfolding parse_rate_chunk
parse_rate_chunk_blank arg mode h = rw (has_char-blank arg h) (
    ap (λ (s : Scanned). list_chunk mode s.eof s.values) (sscanf-blank arg 10 _ h)
    ∙ unfold list_chunk in refl)
