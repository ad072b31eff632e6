-- ===== src/Util/HexMask/Bounds.antt =====
-- What `parse_hex_mask` leaves in its buffers, and that it stays inside them.
use nl.Base.{
  length-append, ℕ, zero, suc, ◌+◌, ◌-◌, ◌*◌, ◌/◌, ◌%◌, ◌^◌, ◌<◌, ◌≤◌, ◌≡◌, ◌≢◌, refl, ap, ◌∙◌,
  Bool, true, false, ◌&&◌, ◌||◌, Bytes, List, [], ◌∷◌, ◌++◌, length, arith, ◌==◌, Bool-cases, inl,
  inr, get_or, set, set-append, replicate, append_assoc, bit_or, lt→ltb, length-set,
  get_or-set_self, get_or-set_ne,
}
use nl.Base.Bits.{test_bit, test_bit-bit_or, test_bit-pow, test_bit-mod_256}
use nl.Util.HexMask.Fields.{store_all}
use nl.Util.HexMask.{HexResult, parsed, Field, store, skipped, bad, byte, rejected, set_mask_bit}

abbrev pub value : Field → ℕ
value (byte b) = b
value _ = 0

abbrev pub values : List Field → Bytes
values [] = []
values (f ∷ fs) = value f ∷ values fs

abbrev pub is_byte : Field → Bool
is_byte (byte b) = true
is_byte _ = false

-- Whether the field at a position is a byte.
abbrev pub is_byte_at : List Field → ℕ → Bool
is_byte_at [] i = false
is_byte_at (f ∷ fs) zero = is_byte f
is_byte_at (f ∷ fs) (suc i) = is_byte_at fs i

abbrev pub is_bad : Field → Bool
is_bad bad = true
is_bad _ = false

abbrev pub any_bad : List Field → Bool
any_bad [] = false
any_bad (f ∷ fs) = is_bad f || any_bad fs

-- Bit `i` of the mask buffer.
abbrev pub mask_bit : Bytes → ℕ → Bool
mask_bit mask i = test_bit (get_or mask (i / 8) 0) (i % 8)

-- The byte that the store gives, at each of its bits.
stored_bit :
    (old pos k : ℕ)
    → k < 8
    → test_bit (bit_or old (2 ^ (pos % 8)) % 256) k ≡ (test_bit old k || pos % 8 == k)
stored_bit old pos k h =
    test_bit-mod_256 k (bit_or old (2 ^ (pos % 8))) h
    ∙ test_bit-bit_or k old (2 ^ (pos % 8))
    ∙ ap (λ (b : Bool). test_bit old k || b) (test_bit-pow k (pos % 8))

pub mask_bit-set_mask_bit :
    (mask : Bytes) (pos i : ℕ)
    → pos / 8 < length mask
    → mask_bit (set_mask_bit mask pos) i ≡ (mask_bit mask i || pos == i)
mask_bit-set_mask_bit mask pos i h = elim (Bool-cases (pos / 8 == i / 8)) [
  | inl same ↦
      let e : pos / 8 ≡ i / 8 = ground arith in
      let h' : i / 8 < length mask = omega arith in
      rw
        (
          e,
          get_or-set_self mask (i / 8) (bit_or (get_or mask (i / 8) 0) (2 ^ (pos % 8)) % 256) 0 h',
        )
        (stored_bit (get_or mask (i / 8) 0) pos (i % 8) (omega arith)
          ∙ ap (λ (b : Bool). mask_bit mask i || b) (ground arith))
  | inr other ↦
      let e : pos / 8 ≢ i / 8 = ground arith in
      rw (get_or-set_ne mask (bit_or (get_or mask (pos / 8) 0) (2 ^ (pos % 8)) % 256) 0 e)
        (ground arith)
]

-- A buffer that is still blank: a cell for each field, and some more.
abbrev pub blank : List Field → ℕ → Bytes
blank [] spare = replicate spare 0
blank (f ∷ fs) spare = 0 ∷ blank fs spare

pub replicate-blank :
    (fs : List Field) (k : ℕ) → length fs ≤ k → replicate k 0 ≡ blank fs (k - length fs)
replicate-blank [] k h = ap (λ n. replicate n 0) (omega arith)
replicate-blank (f ∷ fs) zero h = absurd (omega arith)
replicate-blank (f ∷ fs) (suc k) h =
    ap (◌∷◌ 0) (replicate-blank fs k (omega arith) ∙ ap (blank fs) (omega arith))

-- What the rounds from `pos` on leave, if no field is bad, where the bytes before are `done`.
pub record Stores (with_mask : Bool) (done : Bytes) (spare pos : ℕ) (mask : Bytes) (fs : List Field)
    (r : HexResult) : Type 0 where
  pub mask' : Bytes
  pub result_is : r ≡ parsed (done ++ (values fs ++ replicate spare 0)) mask' (pos + length fs)
  pub same_size : length mask' ≡ length mask
  pub before : (i : ℕ) → i < pos → mask_bit mask' i ≡ mask_bit mask i
  pub behind :
      (i : ℕ)
      → mask_bit mask' (pos + i) ≡ (mask_bit mask (pos + i) || (with_mask && is_byte_at fs i))

-- One round in front: its byte is `value f`, and its mask is `mask1`.
Stores-cons :
    (with_mask : Bool) (done : Bytes) (spare pos : ℕ) (mask mask1 : Bytes) (f : Field)
    (fs : List Field) (r : HexResult)
    → length mask1 ≡ length mask
    → ((i : ℕ) → mask_bit mask1 i ≡ (mask_bit mask i || (with_mask && (is_byte f && pos == i))))
    → Stores with_mask (done ++ (value f ∷ [])) spare (pos + 1) mask1 fs r
    → Stores with_mask done spare pos mask (f ∷ fs) r
Stores-cons with_mask done spare pos mask mask1 f fs r size bits s = record {
  mask' = s.mask';
  result_is =
      s.result_is
      ∙ ap (λ (b : Bytes). parsed b s.mask' (pos + 1 + length fs))
          (append_assoc done (value f ∷ []) (values fs ++ replicate spare 0))
      ∙ ap (parsed (done ++ (values (f ∷ fs) ++ replicate spare 0)) s.mask') (omega arith);
  same_size = s.same_size ∙ size;
  before = λ i h. ground (arith, s.before i, bits i);
  behind = behind_here;
}
  where
    behind_here :
        (i : ℕ)
        → mask_bit s.mask' (pos + i)
          ≡ (mask_bit mask (pos + i) || (with_mask && is_byte_at (f ∷ fs) i))
    behind_here zero =
        let here : pos + 0 ≡ pos = omega arith in
        rw here (s.before pos (omega arith) ∙ bits pos ∙ ground arith)
    behind_here (suc i) =
        let there : pos + suc i ≡ pos + 1 + i = omega arith in
        rw there (
          s.behind i
          ∙ ap (λ (b : Bool). b || (with_mask && is_byte_at fs i)) (bits (pos + 1 + i))
          ∙ ground arith)

written :
    (b : ℕ) (done rest : Bytes) (pos : ℕ)
    → pos ≡ length done
    → set (done ++ (0 ∷ rest)) pos b ≡ done ++ (b ∷ rest)
written b done rest pos e = rw e (set-append done rest 0 b)

-- One round on a field that is not bad and has room.
pub round :
    (with_mask : Bool) (f : Field) (done rest mask : Bytes) (pos : ℕ)
    (next : Bytes → Bytes → HexResult)
    → is_bad f ≡ false
    → pos ≡ length done
    → pos < 8 * length mask
    → (mask1 : Bytes) × (store with_mask pos (done ++ (0 ∷ rest)) mask f next
        ≡ next (done ++ (value f ∷ rest)) mask1)
      × (length mask1 ≡ length mask)
      × ((i : ℕ) → mask_bit mask1 i ≡ (mask_bit mask i || (with_mask && (is_byte f && pos == i))))
round with_mask bad done rest mask pos next fine e small = cc
round with_mask skipped done rest mask pos next fine e small = (mask, refl, refl, λ i. ground arith)
round true (byte b) done rest mask pos next fine e small =
    let inside : pos < length (done ++ (0 ∷ rest)) = omega (arith, length-append done (0 ∷ rest)) in
    (
      set_mask_bit mask pos,
      rw (lt→ltb pos _ inside, lt→ltb (pos / 8) (length mask) (omega arith))
          (ap (λ (r : Bytes). next r (set_mask_bit mask pos)) (written b done rest pos e)),
      length-set mask (pos / 8) (bit_or (get_or mask (pos / 8) 0) (2 ^ (pos % 8)) % 256),
      λ i. mask_bit-set_mask_bit mask pos i (omega arith),
    )
round false (byte b) done rest mask pos next fine e small =
    let inside : pos < length (done ++ (0 ∷ rest)) = omega (arith, length-append done (0 ∷ rest)) in
    (
      mask,
      rw (lt→ltb pos _ inside) (ap (λ (r : Bytes). next r mask) (written b done rest pos e)),
      refl,
      λ i. ground arith,
    )

pub store_all-Stores :
    (with_mask : Bool) (fs : List Field) (done : Bytes) (spare : ℕ) (mask : Bytes) (pos : ℕ)
    → pos ≡ length done
    → pos + length fs ≤ 8 * length mask
    → any_bad fs ≡ false
    → Stores with_mask done spare pos mask fs
        (store_all with_mask pos (done ++ blank fs spare) mask fs)
unfolding store_all
store_all-Stores with_mask [] done spare mask pos e m fine = record {
  mask' = mask;
  result_is = ap (parsed (done ++ replicate spare 0) mask) (omega arith);
  same_size = refl;
  before = λ i h. refl;
  behind = λ i. ground arith;
}
store_all-Stores with_mask (f ∷ fs) done spare mask pos e m fine =
    let (mask1, stored, size, bits) =
      round with_mask f done (blank fs spare) mask pos (λ r m. store_all with_mask (pos + 1) r m fs)
        (ground arith) e (omega arith) in
    rw stored (
      Stores-cons with_mask done spare pos mask mask1 f fs _ size bits (
        rw (append_assoc done (value f ∷ []) (blank fs spare)) at (
          store_all-Stores with_mask fs (done ++ (value f ∷ [])) spare mask1 (pos + 1)
            (omega (arith, length-append done (value f ∷ []))) (omega arith) (ground arith))))

store-bad :
    (with_mask : Bool) (pos : ℕ) (result mask : Bytes) (f : Field)
    (next : Bytes → Bytes → HexResult)
    → is_bad f ≡ true
    → store with_mask pos result mask f next ≡ rejected
store-bad with_mask pos result mask bad next h = refl
store-bad with_mask pos result mask _ next h = cc

pub store_all-rejected :
    (with_mask : Bool) (fs : List Field) (done : Bytes) (spare : ℕ) (mask : Bytes) (pos : ℕ)
    → pos ≡ length done
    → pos + length fs ≤ 8 * length mask
    → any_bad fs ≡ true
    → store_all with_mask pos (done ++ blank fs spare) mask fs ≡ rejected
unfolding store_all
store_all-rejected with_mask [] done spare mask pos e m h = cc
store_all-rejected with_mask (f ∷ fs) done spare mask pos e m h = elim (Bool-cases (is_bad f)) [
  | inl bad_one ↦ store-bad with_mask pos (done ++ blank (f ∷ fs) spare) mask f _ bad_one
  | inr fine ↦
      let (mask1, stored, size, bits) =
        round with_mask f done (blank fs spare) mask pos
          (λ r m. store_all with_mask (pos + 1) r m fs) fine e (omega arith) in
      stored
      ∙ rw (append_assoc done (value f ∷ []) (blank fs spare)) at (
          store_all-rejected with_mask fs (done ++ (value f ∷ [])) spare mask1 (pos + 1)
            (omega (arith, length-append done (value f ∷ []))) (omega arith) (rw fine at h))
]
