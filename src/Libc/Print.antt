-- ===== src/Libc/Print.antt =====
-- The `printf` conversions of bytes.
use nl.Base.{ℕ, ◌+◌, ◌-◌, ◌/◌, ◌%◌, Bytes, [], ◌∷◌, ltb, if◌then◌else◌}

abbrev pub hex_digit : ℕ → ℕ
hex_digit d = if ltb d 10 then d + b'0' else d - 10 + b'a'

-- `%02x` on an `unsigned char`
unfoldable pub hex02 : ℕ → Bytes
hex02 b = hex_digit (b / 16) ∷ hex_digit (b % 16) ∷ []
