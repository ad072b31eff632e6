-- ===== src/Nan/Bloom/Laws.antt =====
-- The table of the sum, and what the filter answers for a text that was put into it.
use Prim.Native.Nat.{bit_xor}
use native.Mathlib.Nat.{mod-lt}
use nl.Base.{
  ◌-◌, ◌%◌, ◌*◌, ◌<◌, ◌^◌, lt→ltb, length-set, bit_or, ltb, length, Bytes, ◌||◌, true, false, arith,
  ℕ, zero, suc, ◌+◌, ◌/◌, Bool, some, [], ◌∷◌, get_or, ◌==◌, if◌then◌else◌, ◌≡◌, refl, ◌∙◌, ap,
  passes_below, passes_below_at, ==_iff,
}
use nl.Util.HexMask.{set_mask_bit}
use nl.Util.HexMask.Bounds.{mask_bit, mask_bit-set_mask_bit}
use nl.Nan.Bloom.{crc32_tab, crc32, h, set_bit, bf_loop, nan_bf, set_hashed}

-- One bit through the shift register of the reflected polynomial 0xEDB88320.
abbrev pub shift_one : ℕ → ℕ
shift_one c = if c % 2 == 1 then bit_xor (c / 2) 0xedb88320 else c / 2

abbrev pub shift_all : (bits : ℕ) → ℕ → ℕ
shift_all zero c = c
shift_all (suc bits) c = shift_all bits (shift_one c)

table_check : passes_below (λ i. get_or crc32_tab i 0 == shift_all 8 i) 256 ≡ true
unfolding passes_below crc32_tab
table_check = refl

-- Each entry of the table is its index shifted by eight bits through the register of CRC-32.
pub crc32_tab-shift_all : (i : ℕ) → i < 256 → get_or crc32_tab i 0 ≡ shift_all 8 i
crc32_tab-shift_all i below = (==_iff _ _).0 (passes_below_at _ 256 i below table_check)

-- The position of round `i`.
abbrev pub hash_position : ℕ → ℕ → ℕ → Bytes → ℕ
hash_position i idx bf_len buf =
    crc32 (crc32 (2 ^ 32 - 1) ((i + idx * 4) % 256 ∷ [])) buf % 2 ^ 16 % (8 * bf_len)

-- Whether one of `rounds` rounds from `i` on sets bit `k`.
abbrev pub hits : (rounds i : ℕ) → ℕ → ℕ → Bytes → ℕ → Bool
hits zero i idx bf_len buf k = false
hits (suc rounds) i idx bf_len buf k =
    hash_position i idx bf_len buf == k || hits rounds (i + 1) idx bf_len buf k

or_assoc : (a b c : Bool) → ((a || b) || c) ≡ (a || (b || c))
or_assoc true b c = refl
or_assoc false b c = refl

set_hashed-inside :
    (i idx : ℕ) (bf : Bytes) (bf_len : ℕ) (buf : Bytes)
    → length bf ≡ bf_len
    → 0 < bf_len
    → bf_len < 2 ^ 13
    → set_hashed bf (h ((i + idx * 4) % 256) buf (8 * bf_len % 2 ^ 16))
      ≡ some (set_mask_bit bf (hash_position i idx bf_len buf))
unfolding h set_bit
set_hashed-inside i idx bf bf_len buf long some_room small =
    let whole : 8 * bf_len % 2 ^ 16 ≡ 8 * bf_len = omega arith in
    let p = hash_position i idx bf_len buf in
    let below : p < 8 * bf_len =
      mod-lt (crc32 (crc32 (2 ^ 32 - 1) ((i + idx * 4) % 256 ∷ [])) buf % 2 ^ 16) {m = 8 * bf_len}
        (omega arith) in
    let nonzero : (8 * bf_len == 0) ≡ false = ground arith in
    let inside : ltb (p / 8) (length bf) ≡ true = lt→ltb _ _ (omega arith) in
    rw whole (rw nonzero (rw inside refl))

bf_loop-hits :
    (rounds i idx : ℕ) (bf : Bytes) (bf_len : ℕ) (buf : Bytes)
    → length bf ≡ bf_len
    → 0 < bf_len
    → bf_len < 2 ^ 13
    → (bf' : Bytes) × (bf_loop rounds i idx bf bf_len buf ≡ some bf')
      × (length bf' ≡ bf_len)
      × ((k : ℕ) → mask_bit bf' k ≡ (mask_bit bf k || hits rounds i idx bf_len buf k))
unfolding bf_loop
bf_loop-hits zero i idx bf bf_len buf long some_room small =
    (bf, refl, long, λ k. or_false (mask_bit bf k))
  where
    or_false : (b : Bool) → b ≡ (b || false)
    or_false true = refl
    or_false false = refl
bf_loop-hits (suc rounds) i idx bf bf_len buf long some_room small =
    let p = hash_position i idx bf_len buf in
    let bf1 = set_mask_bit bf p in
    let below : p < 8 * bf_len =
      mod-lt (crc32 (crc32 (2 ^ 32 - 1) ((i + idx * 4) % 256 ∷ [])) buf % 2 ^ 16) {m = 8 * bf_len}
        (omega arith) in
    let long1 : length bf1 ≡ bf_len =
      length-set bf (p / 8) (bit_or (get_or bf (p / 8) 0) (2 ^ (p % 8)) % 256) ∙ long in
    let (bf', runs, long', bits) =
      bf_loop-hits rounds (i + 1) idx bf1 bf_len buf long1 some_room small in
    (
      bf',
      rw (set_hashed-inside i idx bf bf_len buf long some_room small) runs,
      long',
      λ k.
          bits k
          ∙ ap (λ (b : Bool). b || hits rounds (i + 1) idx bf_len buf k)
              (mask_bit-set_mask_bit bf p k (omega arith))
          ∙ or_assoc (mask_bit bf k) (p == k) (hits rounds (i + 1) idx bf_len buf k),
    )

-- On a filter of `bf_len` bytes, at least one and below 2 ^ 13, `nan_bf` stays inside the filter and
-- keeps its length; a bit is set behind it exactly if it was set before or is one of the four hashes.
pub nan_bf-hits :
    (idx : ℕ) (bf : Bytes) (bf_len : ℕ) (buf : Bytes)
    → length bf ≡ bf_len
    → 0 < bf_len
    → bf_len < 2 ^ 13
    → (bf' : Bytes) × (nan_bf idx bf bf_len buf ≡ some bf')
      × (length bf' ≡ bf_len)
      × ((k : ℕ) → mask_bit bf' k ≡ (mask_bit bf k || hits 4 0 idx bf_len buf k))
unfolding nan_bf
nan_bf-hits idx bf bf_len buf long some_room small =
    bf_loop-hits 4 0 idx bf bf_len buf long some_room small
