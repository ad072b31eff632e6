-- ===== src/Libc/Ctype.antt =====
-- `ctype.h` in the C locale, on `unsigned char` values.
use nl.Base.{ℕ, ◌+◌, Bool, ◌&&◌, ◌||◌, leb, ◌==◌, if◌then◌else◌}

abbrev pub between : ℕ → ℕ → ℕ → Bool
between lo hi c = leb lo c && leb c hi

abbrev pub is_digit : ℕ → Bool
is_digit c = between b'0' b'9' c

abbrev pub is_xdigit : ℕ → Bool
is_xdigit c = is_digit c || between b'a' b'f' c || between b'A' b'F' c

-- space, and \t \n \v \f \r
abbrev pub is_space : ℕ → Bool
is_space c = c == 32 || between 9 13 c

abbrev pub is_print : ℕ → Bool
is_print c = between 32 126 c

abbrev pub to_lower : ℕ → ℕ
to_lower c = if between b'A' b'Z' c then c + 32 else c
