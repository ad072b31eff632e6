-- ===== src/Util/HexMask/Fields.antt =====
-- The loop of `parse_hex_mask` as a walk over the fields between the colons.
use nl.Base.{
  All, ◌*◌, ℕ, zero, suc, ◌+◌, ◌<◌, ◌≤◌, ◌≡◌, refl, ap, Bool, false, Bytes, List, [], ◌∷◌, Option,
  none, some, length, arith, ◌==◌, if◌then◌else◌, Bool-cases, inl, inr,
}
use nl.Libc.{cut}
use nl.Util.HexMask.{HexResult, parsed, Field, read_field, store, next_field, mask_loop}

abbrev cons_head : ℕ → List Bytes → List Bytes
cons_head c [] = (c ∷ []) ∷ []
cons_head c (s ∷ ss) = (c ∷ s) ∷ ss

-- The pieces of a text between its colons.
unfoldable pub split : Bytes → List Bytes
split [] = [] ∷ []
split (c ∷ cs) = let rest = split cs in if c == b':' then [] ∷ rest else cons_head c rest

abbrev pub fields : Bool → List Bytes → List Field
fields with_mask [] = []
fields with_mask (s ∷ ss) = read_field with_mask s ∷ fields with_mask ss

-- One `store` for each field.
unfoldable pub store_all : Bool → ℕ → Bytes → Bytes → List Field → HexResult
store_all with_mask pos result mask [] = parsed result mask pos
store_all with_mask pos result mask (f ∷ fs) =
    store with_mask pos result mask f (λ r m. store_all with_mask (pos + 1) r m fs)

abbrev Splits : Bytes → Bytes × Option Bytes → Type 0
Splits s (head, none) = split s ≡ head ∷ []
Splits s (head, some cp) = (split s ≡ head ∷ split cp) × (length cp < length s)

Splits-cons :
    (c : ℕ) (cs : Bytes) (r : Bytes × Option Bytes)
    → (c == b':') ≡ false
    → Splits cs r
    → Splits (c ∷ cs) (c ∷ r.0, r.1)
unfolding split
Splits-cons c cs (head, none) e h = rw (e, h)
Splits-cons c cs (head, some cp) e (h, shorter) = (rw (e, h), omega arith)

cut-Splits : (s : Bytes) → Splits s (cut b':' s)
unfolding cut
cut-Splits [] = unfold split in refl
cut-Splits (c ∷ cs) = elim (Bool-cases (c == b':')) [
  | inl colon ↦ rw colon (unfold split in rw colon, omega arith)
  | inr other ↦ rw other (Splits-cons c cs (cut b':' cs) other (cut-Splits cs))
]

store-cong :
    (with_mask : Bool) (pos : ℕ) (result mask : Bytes) (f : Field) {g h : Bytes → Bytes → HexResult}
    → ((r m : Bytes) → g r m ≡ h r m)
    → store with_mask pos result mask f g ≡ store with_mask pos result mask f h
store-cong with_mask pos result mask f e = ap (store with_mask pos result mask f) (λ i r m. e r m i)

module _ (fuel : ℕ) (with_mask : Bool) (pos : ℕ) (s result mask : Bytes)
    (enough : length s < suc fuel) where
  round :
      (r : Bytes × Option Bytes)
      → Splits s r
      → ((cp r m : Bytes)
          → length cp < fuel
          → mask_loop fuel with_mask (pos + 1) cp r m
            ≡ store_all with_mask (pos + 1) r m (fields with_mask (split cp)))
      → store with_mask pos result mask
          (read_field with_mask r.0)
          (next_field pos r.1 (mask_loop fuel with_mask (pos + 1)))
        ≡ store_all with_mask pos result mask (fields with_mask (split s))
  unfolding store_all
  round (head, none) e later = rw e refl
  round (head, some cp) (e, shorter) later = rw e (
      store-cong with_mask pos result mask (read_field with_mask head)
        (λ r m. later cp r m (omega arith)))

-- With more fuel than the text is long, the loop makes just one store for each field.
pub mask_loop-store_all :
    (fuel : ℕ) (with_mask : Bool) (pos : ℕ) (s result mask : Bytes)
    → length s < fuel
    → mask_loop fuel with_mask pos s result mask
      ≡ store_all with_mask pos result mask (fields with_mask (split s))
unfolding mask_loop
mask_loop-store_all zero with_mask pos s result mask h = elim h [ ]
mask_loop-store_all (suc fuel) with_mask pos s result mask h =
    round fuel with_mask pos s result mask h (cut b':' s) (cut-Splits s)
      (λ cp r m k. mask_loop-store_all fuel with_mask (pos + 1) cp r m k)

abbrev sum_lengths : List Bytes → ℕ
sum_lengths [] = 0
sum_lengths (s ∷ ss) = length s + 1 + sum_lengths ss

sum_lengths-cons_head :
    (c : ℕ) (ss : List Bytes)
    → 1 ≤ length ss
    → (sum_lengths (cons_head c ss) ≡ sum_lengths ss + 1) × (1 ≤ length (cons_head c ss))
sum_lengths-cons_head c [] h = absurd (omega arith)
sum_lengths-cons_head c (s ∷ ss) h = (omega arith, omega arith)

sum_lengths-split : (s : Bytes) → (sum_lengths (split s) ≡ length s + 1) × (1 ≤ length (split s))
unfolding split
sum_lengths-split [] = (omega arith, omega arith)
sum_lengths-split (c ∷ cs) =
    let (sum, some_piece) = sum_lengths-split cs in
    ground (arith, sum_lengths-cons_head c (split cs))

abbrev pub IsNonEmpty : Bytes → Type 0
IsNonEmpty s = 1 ≤ length s

two_each : (ss : List Bytes) → All IsNonEmpty ss → 2 * length ss ≤ sum_lengths ss
two_each [] h = omega arith
two_each (s ∷ ss) (h, hs) = omega (arith, two_each ss hs)

-- Where no field is empty the fields are at most half as many as the bytes, and one more.
pub length-split : (s : Bytes) → All IsNonEmpty (split s) → 2 * length (split s) ≤ length s + 1
length-split s h = omega (arith, two_each (split s) h, (sum_lengths-split s).0)

pub length-fields : (with_mask : Bool) (ss : List Bytes) → length (fields with_mask ss) ≡ length ss
length-fields with_mask [] = refl
length-fields with_mask (s ∷ ss) = ap suc (length-fields with_mask ss)
