-- ===== src/Libc/Text.antt =====
-- `string.h` and `strings.h`.
use nl.Base.{ℕ, Bool, true, false, ◌&&◌, Bytes, Option, none, some, [], ◌∷◌, ◌==◌, if◌then◌else◌}
use nl.Libc.Ctype.{to_lower}

-- `strcmp(s, t) == 0`
abbrev pub str_eq : Bytes → Bytes → Bool
str_eq [] [] = true
str_eq (x ∷ xs) (y ∷ ys) = x == y && str_eq xs ys
str_eq _ _ = false

-- `strcasecmp(s, t) == 0`
abbrev pub str_case_eq : Bytes → Bytes → Bool
str_case_eq [] [] = true
str_case_eq (x ∷ xs) (y ∷ ys) = to_lower x == to_lower y && str_case_eq xs ys
str_case_eq _ _ = false

-- `t` begins with all of `s`: `strncmp(t, s, strlen(s)) == 0`
abbrev pub starts_with : Bytes → Bytes → Bool
starts_with [] _ = true
starts_with (x ∷ xs) (y ∷ ys) = x == y && starts_with xs ys
starts_with (x ∷ xs) [] = false

-- What stands before the first `c`, and what follows it if there is one: the two strings that
-- `cp = strchr(s, c); if (cp) { *cp = 0; cp++; }` leaves.
unfoldable pub cut : ℕ → Bytes → Bytes × Option Bytes
cut c [] = ([], none)
cut c (x ∷ xs) = if x == c then ([], some xs) else (let r = cut c xs in (x ∷ r.0, r.1))
