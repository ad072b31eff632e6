-- ===== src/Util/HexMask/Result.antt =====
-- The outcome of `parse_hex_mask` on every text, and where it writes behind its buffer.
use nl.Base.{
  set, ◌||◌, ◌<◌, Bool-cases, inl, inr, ltb, if◌then◌else◌, length-set, ◌∷◌, ℕ, zero, suc, ◌+◌, ◌-◌,
  ◌*◌, ◌/◌, ◌%◌, ◌≤◌, ◌≡◌, refl, ap, ◌∙◌, Bool, true, false, ◌&&◌, Bytes, List, [], ◌++◌, length,
  arith, All, get_or, replicate, length-replicate,
}
use nl.Base.Bits.{test_bit-zero}
use nl.Util.HexMask.Fields.{
  split, fields, store_all, mask_loop-store_all, IsNonEmpty, length-split, length-fields,
}
use nl.Util.HexMask.Bounds.{
  is_byte, values, is_byte_at, any_bad, mask_bit, blank, replicate-blank, store_all-Stores,
  store_all-rejected,
}
use nl.Util.HexMask.{
  byte, skipped, bad, store, overrun, set_mask_bit, HexResult, parsed, Field, rejected,
  parse_hex_mask, mask_size, result_size,
}

-- The two buffers and the length that `parse_hex_mask` gives for these fields.
abbrev pub IsParsed : Bool → Bytes → List Field → HexResult → Type 0
IsParsed with_mask s fs r =
    (mask : Bytes) × (r
      ≡ parsed (values fs ++ replicate (result_size s - length fs) 0) mask (length fs))
    × ((i : ℕ) → mask_bit mask i ≡ (with_mask && is_byte_at fs i))

get_or-replicate : (n i : ℕ) → get_or {A = ℕ} (replicate n 0) i 0 ≡ 0
get_or-replicate zero i = refl
get_or-replicate (suc n) zero = refl
get_or-replicate (suc n) (suc i) = get_or-replicate n i

mask_bit-replicate : (n i : ℕ) → mask_bit (replicate n 0) i ≡ false
mask_bit-replicate n i = rw (get_or-replicate n (i / 8)) (test_bit-zero (i % 8))

module _ (with_mask : Bool) (s : Bytes) (whole : All IsNonEmpty (split s)) where
  abbrev pieces : List Field
  pieces = fields with_mask (split s)

  abbrev spare : ℕ
  spare = result_size s - length pieces

  abbrev blank_mask : Bytes
  blank_mask = replicate (mask_size s) 0

  few : 2 * length pieces ≤ length s + 1
  few = rw (length-fields with_mask (split s)) (length-split s whole)

  runs : parse_hex_mask with_mask s ≡ store_all with_mask 0 (blank pieces spare) blank_mask pieces
  unfolding parse_hex_mask
  runs =
      mask_loop-store_all (suc (length s)) with_mask 0 s (replicate (result_size s) 0) blank_mask
        (omega arith)
      ∙ ap (λ (r : Bytes). store_all with_mask 0 r blank_mask pieces)
          (replicate-blank pieces (result_size s) (omega (arith, few)))

  covered : 0 + length pieces ≤ 8 * length blank_mask
  covered = rw (length-replicate {A = ℕ} (mask_size s) 0) (omega (arith, few))

  rejects : any_bad pieces ≡ true → parse_hex_mask with_mask s ≡ rejected
  rejects h = runs ∙ store_all-rejected with_mask pieces [] spare blank_mask 0 refl covered h

  accepts : any_bad pieces ≡ false → IsParsed with_mask s pieces (parse_hex_mask with_mask s)
  accepts h =
      let st = store_all-Stores with_mask pieces [] spare blank_mask 0 refl covered h in
      (
        st.mask',
        runs
            ∙ st.result_is
            ∙ ap (parsed (values pieces ++ replicate spare 0) st.mask') (omega arith),
        λ i.
            (let z : 0 + i ≡ i = omega arith in
              (rw z at (st.behind i))
              ∙ ap (λ (b : Bool). b || (with_mask && is_byte_at pieces i))
                  (mask_bit-replicate (mask_size s) i)),
      )

-- By whether one of the fields is bad.
abbrev pub Outcome : Bool → Bool → Bytes → List Field → HexResult → Type 0
Outcome true with_mask s fs r = r ≡ rejected
Outcome false with_mask s fs r = IsParsed with_mask s fs r

-- On a text with no empty field `parse_hex_mask` stays inside its buffers. It fails exactly if one of
-- the fields is neither a byte nor, with a mask, left out. If none is, the result holds the bytes in
-- order, 0 for each field left out and 0 behind them; its length is the number of fields; and bit `i`
-- of the mask is set exactly if a mask was asked for and field `i` is a byte.
pub parse_hex_mask-fields :
    (with_mask : Bool) (s : Bytes)
    → All IsNonEmpty (split s)
    → Outcome
        (any_bad (fields with_mask (split s)))
        with_mask
        s
        (fields with_mask (split s))
        (parse_hex_mask with_mask s)
parse_hex_mask-fields with_mask s h = elim (Bool-cases (any_bad (fields with_mask (split s)))) [
  | inl some_bad ↦ rw some_bad (rejects with_mask s h some_bad)
  | inr fine ↦ rw fine (accepts with_mask s h fine)
]

abbrev pub all_bytes : List Field → Bool
all_bytes [] = true
all_bytes (f ∷ fs) = is_byte f && all_bytes fs

-- A store that finds room only changes the buffers; one that finds none ends in `overrun`.
store-overrun :
    (with_mask : Bool) (b : ℕ) (result mask : Bytes) (pos : ℕ) (next : Bytes → Bytes → HexResult)
    → ((r m : Bytes) → length r ≡ length result → pos < length result → next r m ≡ overrun)
    → store with_mask pos result mask (byte b) next ≡ overrun
store-overrun with_mask b result mask pos next later = elim (Bool-cases (ltb pos (length result))) [
  | inr outside ↦ rw outside
  | inl inside ↦
      let go = λ (m : Bytes). later (set result pos b) m (length-set result pos b) (ground arith) in
      rw inside (masked with_mask (go mask) (go (set_mask_bit mask pos)))
]
  where
    masked :
        (w : Bool)
        → next (set result pos b) mask ≡ overrun
        → next (set result pos b) (set_mask_bit mask pos) ≡ overrun
        → (if w
            then (if ltb (pos / 8) (length mask)
                then next (set result pos b) (set_mask_bit mask pos)
                else overrun)
            else next (set result pos b) mask)
          ≡ overrun
    masked false plain marked = plain
    masked true plain marked = ground arith

store_all-overrun :
    (with_mask : Bool) (fs : List Field) (result mask : Bytes) (pos : ℕ)
    → all_bytes fs ≡ true
    → length result < pos + length fs
    → pos ≤ length result
    → store_all with_mask pos result mask fs ≡ overrun
unfolding store_all
store_all-overrun with_mask [] result mask pos h short in_range = absurd (omega arith)
store_all-overrun with_mask (byte b ∷ fs) result mask pos h short in_range =
    store-overrun with_mask b result mask pos _
      (λ r m e inside. store_all-overrun with_mask fs r m (pos + 1) h (omega arith) (omega arith))
store_all-overrun with_mask (skipped ∷ fs) result mask pos h short in_range = cc
store_all-overrun with_mask (bad ∷ fs) result mask pos h short in_range = cc

-- On a text with more than length / 2 + 2 fields, all of them bytes, `parse_hex_mask` writes behind
-- its result buffer. An empty field is the byte 0, so four colons and more make such a text.
pub parse_hex_mask-overrun :
    (with_mask : Bool) (s : Bytes)
    → all_bytes (fields with_mask (split s)) ≡ true
    → length s / 2 + 2 < length (split s)
    → parse_hex_mask with_mask s ≡ overrun
unfolding parse_hex_mask
parse_hex_mask-overrun with_mask s h many =
    mask_loop-store_all (suc (length s)) with_mask 0 s (replicate (result_size s) 0)
      (replicate (mask_size s) 0) (omega arith)
    ∙ store_all-overrun with_mask (fields with_mask (split s)) _ _ 0 h
        (omega
          (arith, length-replicate {A = ℕ} (result_size s) 0, length-fields with_mask (split s)))
        (omega arith)
