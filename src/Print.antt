-- ===== src/Print.antt =====
-- What iw prints from bytes that it was sent, as pieces of text and numbers in their order. A read
-- behind the end of the bytes, or a length that falls below 0, is a fault: `none`.
pub mod Laws
use nl.Base.{
  ℕ, zero, suc, ◌+◌, ◌*◌, Bytes, Option, none, some, List, [], ◌∷◌, ◌++◌, length, get_elem?, drop,
  ltb, if◌then◌else◌,
}
use nl.Base.Int.{ℤ}

-- A text of a format, or one of its conversions with its value.
pub data Piece : Type 0 where
  -- the text
  str : Bytes → Piece
  -- %d, %i or %u
  dec : ℕ → Piece
  sdec : ℤ → Piece
  -- %.2x or %02x, and %.4x
  hex2 : ℕ → Piece
  hex4 : ℕ → Piece
  -- %x
  hex : ℕ → Piece
  -- %c
  char : ℕ → Piece

abbrev pub Out : Type 0
Out = List Piece

abbrev pub Printed : Type 0
Printed = Option Out

infixr 40 ◌&◌
-- One output after another.
unfoldable pub ◌&◌ : Printed → Printed → Printed
none & q = none
some o & none = none
some o & some o' = some (o ++ o')

-- `data[i]`
abbrev pub with_value : Option ℕ → (ℕ → Printed) → Printed
with_value none next = none
with_value (some v) next = next v

unfoldable pub byte : Bytes → ℕ → (ℕ → Printed) → Printed
byte bytes i next = with_value (get_elem? bytes i) next

-- Two bytes from `i` on, the lower one first.
unfoldable pub word : Bytes → ℕ → (ℕ → Printed) → Printed
word bytes i next = byte bytes i (λ lo. byte bytes (i + 1) (λ hi. next (lo + 256 * hi)))

-- `data += n; len -= n`
unfoldable pub skip : ℕ → Bytes → (Bytes → Printed) → Printed
skip n bytes next = if ltb (length bytes) n then none else next (drop n bytes)

-- " %.2x" for each byte.
abbrev pub hex_list : Bytes → Bytes → Out
hex_list blank [] = []
hex_list blank (b ∷ bs) = str blank ∷ hex2 b ∷ hex_list blank bs
