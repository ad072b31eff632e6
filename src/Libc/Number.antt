-- ===== src/Libc/Number.antt =====
-- `strtoul` and the number conversions of `sscanf`.
use nl.Base.{
  suc, not, ℕ, ◌+◌, ◌-◌, ◌*◌, ◌%◌, ◌^◌, Bool, true, false, ◌&&◌, ◌||◌, Bytes, List, [], ◌∷◌, ◌++◌,
  length, ltb, leb, ◌==◌, if◌then◌else◌,
}
use nl.Libc.Ctype.{between, is_digit, is_space}

-- The value of a digit in any base up to 36, or 36 for no digit.
unfoldable pub digit_value : ℕ → ℕ
digit_value c =
    if is_digit c
    then c - b'0'
    else if between b'a' b'z' c
    then c - b'a' + 10
    else if between b'A' b'Z' c
    then c - b'A' + 10
    else 36

unfoldable pub skip_space : Bytes → Bytes
skip_space [] = []
skip_space (c ∷ cs) = let rest = skip_space cs in if is_space c then rest else c ∷ cs

-- The digits of the base from here on: how many, their value, and what follows.
unfoldable pub read_digits : ℕ → Bytes → ℕ → ℕ → ℕ × ℕ × Bytes
unfolding digit_value
read_digits base [] count acc = (count, acc, [])
read_digits base (c ∷ cs) count acc =
    let rest = read_digits base cs (count + 1) (acc * base + digit_value c) in
    if ltb (digit_value c) base then rest else (count, acc, c ∷ cs)

-- In base 16 a leading `0x` or `0X` is skipped if a digit follows it.
unfoldable pub skip_prefix : ℕ → Bytes → Bytes
unfolding digit_value
skip_prefix base (a ∷ x ∷ d ∷ cs) =
    if base == 16 && a == b'0' && (x == b'x' || x == b'X') && ltb (digit_value d) 16
    then d ∷ cs
    else a ∷ x ∷ d ∷ cs
skip_prefix base s = s

-- The sign, and what follows it.
unfoldable pub skip_sign : Bytes → Bool × Bytes
skip_sign [] = (false, [])
skip_sign (c ∷ cs) =
    if c == b'-' then (true, cs) else if c == b'+' then (false, cs) else (false, c ∷ cs)

abbrev pub ulong_max : ℕ
ulong_max = 2 ^ 64 - 1

-- Too large a number gives ULONG_MAX, with either sign; otherwise `-` negates modulo 2 ^ 64.
unfoldable pub signed_value : Bool → ℕ → ℕ
signed_value negative v =
    if ltb ulong_max v then ulong_max else if negative then (2 ^ 64 - v) % 2 ^ 64 else v

unfoldable pub strtoul_digits : Bytes → Bool → ℕ × ℕ × Bytes → ℕ × Bytes × Bool
unfolding signed_value
strtoul_digits s negative (count, v, rest) =
    if count == 0 then (0, s, false) else (signed_value negative v, rest, true)

-- `strtoul(s, &end, base)` for base 10 or 16: the value, the text at `end`, and whether there was a
-- number at all. With none, `end` is `s` and the value is 0.
unfoldable pub strtoul : Bytes → ℕ → ℕ × Bytes × Bool
unfolding skip_space skip_sign skip_prefix read_digits strtoul_digits
strtoul s base =
    let sign = skip_sign (skip_space s) in
    strtoul_digits s sign.0 (read_digits base (skip_prefix base sign.1) 0 0)

-- The base that `strtol` with base 0 takes from the text.
unfoldable pub auto_base : Bytes → ℕ
auto_base [] = 10
auto_base (c ∷ cs) =
    if not (c == b'0')
    then 10
    else if length (skip_prefix 16 (c ∷ cs)) == suc (length cs)
    then 8
    else 16

-- A `long` as a 64-bit pattern: LONG_MAX or LONG_MIN for what is out of range.
unfoldable pub long_value : Bool → ℕ → ℕ
long_value true v = if ltb (2 ^ 63) v then 2 ^ 63 else (2 ^ 64 - v) % 2 ^ 64
long_value false v = if ltb v (2 ^ 63) then v else 2 ^ 63 - 1

unfoldable pub strtol_digits : Bytes → Bool → ℕ × ℕ × Bytes → ℕ × Bytes
unfolding long_value
strtol_digits s negative (count, v, rest) =
    if count == 0 then (0, s) else (long_value negative v, rest)

-- `strtol(s, &end, 0)`: the value as a 64-bit pattern, and the text at `end`.
unfoldable pub strtol : Bytes → ℕ × Bytes
unfolding skip_space skip_sign skip_prefix read_digits strtol_digits auto_base
strtol s =
    let sign = skip_sign (skip_space s) in
    strtol_digits s sign.0
      (read_digits (auto_base sign.1) (skip_prefix (auto_base sign.1) sign.1) 0 0)

-- `strtol(s, &end, 10)`
unfoldable pub strtol_10 : Bytes → ℕ × Bytes
unfolding skip_space skip_sign read_digits strtol_digits
strtol_10 s =
    let sign = skip_sign (skip_space s) in strtol_digits s sign.0 (read_digits 10 sign.1 0 0)

-- `strtoul(s, &end, 0)`
unfoldable pub strtoul_auto : Bytes → ℕ × Bytes × Bool
unfolding strtoul skip_space skip_sign auto_base
strtoul_auto s = strtoul s (auto_base (skip_sign (skip_space s)).1)

-- `atoi`: the low 32 bits of what `strtol` with base 10 gives, as a pattern of 64 bits.
abbrev pub sign_extend : ℕ → ℕ
sign_extend v = if ltb v (2 ^ 31) then v else v + (2 ^ 64 - 2 ^ 32)

unfoldable pub atoi : Bytes → ℕ
unfolding skip_space skip_sign read_digits strtol_digits
atoi s =
    let sign = skip_sign (skip_space s) in
    sign_extend ((strtol_digits s sign.0 (read_digits 10 sign.1 0 0)).0 % 2 ^ 32)

-- The conversion to a 32-bit type.
abbrev pub to_u32 : ℕ → ℕ
to_u32 v = v % 2 ^ 32

-- `temp < 0` for an `int` with this bit pattern.
abbrev pub is_negative : ℕ → Bool
is_negative w = leb (2 ^ 31) w

-- One directive of a `scanf` format: `%u` or `%x`, by its base, or a character to be matched.
pub data Directive : Type 0 where
  number : ℕ → Directive
  literal : ℕ → Directive

-- The numbers that `sscanf` stored, in order, and whether it returned EOF: the text ended before the
-- first of them.
pub record Scanned : Type 0 where
  pub values : List ℕ
  pub eof : Bool

abbrev no_values : List ℕ → Bool
no_values [] = true
no_values (v ∷ vs) = false

-- The text ended.
abbrev input_failure : List ℕ → Scanned
input_failure values = record { values = values; eof = no_values values }

-- The text does not fit the directive.
abbrev matching_failure : List ℕ → Scanned
matching_failure values = record { values = values; eof = false }

-- What `%u` and `%x` do once white space is skipped, and the directives behind it, as a function.
unfoldable pub scan_number : ℕ → List ℕ → (Bytes → List ℕ → Scanned) → Bytes → Scanned
unfolding strtoul
scan_number base values next [] = input_failure values
scan_number base values next (c ∷ cs) =
    let r = strtoul (c ∷ cs) base in
    let rest = next r.1 (values ++ (to_u32 r.0 ∷ [])) in
    if r.2 then rest else matching_failure values

unfoldable pub scan_from : List Directive → Bytes → List ℕ → Scanned
unfolding skip_space scan_number
scan_from [] s values = record { values = values; eof = false }
scan_from (number base ∷ ds) s values = scan_number base values (scan_from ds) (skip_space s)
scan_from (literal c ∷ ds) [] values = input_failure values
scan_from (literal c ∷ ds) (x ∷ xs) values =
    let rest = scan_from ds xs values in if x == c then rest else matching_failure values

-- `sscanf(s, format, …)`
abbrev pub sscanf : Bytes → List Directive → Scanned
sscanf s format = scan_from format s []

-- What it returns, read as an `unsigned`: EOF is -1.
abbrev pub scanned_count : Scanned → ℕ
scanned_count r = if r.eof then 2 ^ 32 - 1 else length r.values
