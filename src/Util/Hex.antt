-- ===== src/Util/Hex.antt =====
-- The hexadecimal readers of wifi/iw/util.c: `hex2num`, `hex2byte`, `hex2bin`. The reader returns the
-- bytes that `hex2bin` writes into `buf`; its callers own the size of that buffer.
use nl.Base.{ℕ, ◌+◌, ◌-◌, ◌*◌, Bytes, Option, none, some, [], ◌∷◌, not, if◌then◌else◌}
use nl.Libc.{is_digit, is_xdigit, to_lower}

-- `none` is -1.
unfoldable pub hex2num : ℕ → Option ℕ
hex2num digit =
    if not (is_xdigit digit)
    then none
    else if is_digit digit
    then some (digit - b'0')
    else some (to_lower digit - b'a' + 10)

abbrev pub pair_value : Option ℕ → Option ℕ → Option ℕ
pair_value none _ = none
pair_value (some d1) none = none
pair_value (some d1) (some d2) = some (d1 * 16 + d2)

-- On the two characters at `hex`; the second may be the NUL behind the text.
unfoldable pub hex2byte : ℕ → ℕ → Option ℕ
unfolding hex2num
hex2byte c1 c2 = pair_value (hex2num c1) (hex2num c2)

abbrev pub push : Option ℕ → Option Bytes → Option Bytes
push none rest = none
push (some d) none = none
push (some d) (some bytes) = some (d ∷ bytes)

unfoldable pub hex2bin : Bytes → Option Bytes
unfolding hex2byte
hex2bin [] = some []
hex2bin (c1 ∷ []) = push (hex2byte c1 0) none
hex2bin (c1 ∷ c2 ∷ hex) = push (hex2byte c1 c2) (hex2bin hex)
