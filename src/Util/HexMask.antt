-- ===== src/Util/HexMask.antt =====
-- `parse_hex_mask` and `parse_hex` of wifi/iw/util.c. The two buffers are byte lists of the size that
-- `calloc` gave them, and a store behind their end is a fault. `calloc` itself is taken to succeed.
pub mod Fields
pub mod Bounds
pub mod Result
use nl.Base.{
  ℕ, zero, suc, ◌+◌, ◌/◌, ◌%◌, ◌^◌, bit_or, Bool, true, false, ◌&&◌, ◌||◌, Bytes, Option, none,
  some, [], ◌∷◌, length, get_or, set, replicate, codes, ltb, if◌then◌else◌,
}
use nl.Libc.{cut, str_eq, strtoul, to_u32, is_negative}

-- The result buffer, the mask buffer, and `*result_len`; or `return -1`; or a store out of bounds. The
-- loop never runs out of fuel.
pub data HexResult : Type 0 where
  parsed : Bytes → Bytes → ℕ → HexResult
  rejected : HexResult
  overrun : HexResult
  out_of_fuel : HexResult

abbrev pub is_skip : Bytes → Bool
is_skip s = str_eq s (codes "-") || str_eq s (codes "xx") || str_eq s (codes "--")

-- What one field is: left out by the mask, a byte, or neither.
pub data Field : Type 0 where
  skipped bad : Field
  byte : ℕ → Field

abbrev pub number_field : ℕ × Bytes × Bool → Field
number_field (v, c ∷ end, found) = bad
number_field (v, [], found) =
    if is_negative (to_u32 v) || ltb 255 (to_u32 v) then bad else byte (to_u32 v)

unfoldable pub read_field : Bool → Bytes → Field
read_field with_mask s = if with_mask && is_skip s then skipped else number_field (strtoul s 16)

-- `result_mask[pos / 8] |= 1 << (pos % 8)`, a store in a `char`.
abbrev pub set_mask_bit : Bytes → ℕ → Bytes
set_mask_bit mask pos = set mask (pos / 8) (bit_or (get_or mask (pos / 8) 0) (2 ^ (pos % 8)) % 256)

-- The stores of one round, and the next one if there was a colon. Without a mask that buffer is not
-- there.
abbrev pub store : Bool → ℕ → Bytes → Bytes → Field → (Bytes → Bytes → HexResult) → HexResult
store with_mask pos result mask skipped next = next result mask
store with_mask pos result mask bad next = rejected
store with_mask pos result mask (byte b) next =
    if ltb pos (length result)
    then (if with_mask
        then (if ltb (pos / 8) (length mask)
            then next (set result pos b) (set_mask_bit mask pos)
            else overrun)
        else next (set result pos b) mask)
    else overrun

abbrev pub next_field :
    ℕ → Option Bytes → (Bytes → Bytes → Bytes → HexResult) → Bytes → Bytes → HexResult
next_field pos none again result mask = parsed result mask (pos + 1)
next_field pos (some cp) again result mask = again cp result mask

-- The loop, on fuel. Each round but the last takes a colon from the text.
unfoldable pub mask_loop : (fuel : ℕ) → Bool → ℕ → Bytes → Bytes → Bytes → HexResult
mask_loop zero with_mask pos hexmask result mask = out_of_fuel
mask_loop (suc fuel) with_mask pos hexmask result mask =
    store with_mask pos result mask (read_field with_mask (cut b':' hexmask).0)
      (next_field pos (cut b':' hexmask).1 (mask_loop fuel with_mask (pos + 1)))

abbrev pub result_size : Bytes → ℕ
result_size hexmask = length hexmask / 2 + 2

abbrev pub mask_size : Bytes → ℕ
mask_size hexmask = (length hexmask / 2 + 7) / 8 + 2

unfoldable pub parse_hex_mask : Bool → Bytes → HexResult
parse_hex_mask with_mask hexmask =
    mask_loop (suc (length hexmask)) with_mask 0 hexmask (replicate (result_size hexmask) 0)
      (replicate (mask_size hexmask) 0)

-- `parse_hex` asks for no mask.
unfoldable pub parse_hex : Bytes → HexResult
parse_hex hex = parse_hex_mask false hex
