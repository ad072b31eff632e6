-- ===== src/Libc/Lines.antt =====
-- `fgets` and `strtok_r`.
use nl.Base.{ℕ, ◌-◌, ◌||◌, Bytes, Option, none, some, List, [], ◌∷◌, ◌==◌, if◌then◌else◌}
use nl.Libc.Text.{cut}

-- A byte in front of the first of some texts.
abbrev pub cons_head : ℕ → List Bytes → List Bytes
cons_head c [] = (c ∷ []) ∷ []
cons_head c (s ∷ ss) = (c ∷ s) ∷ ss

-- What `fgets` reads, one call after another, with `room` bytes left in its buffer of `size` bytes but one.
unfoldable pub fgets_from : (size room : ℕ) → Bytes → List Bytes
fgets_from size room [] = []
fgets_from size room (c ∷ cs) =
    let rest = fgets_from size (if c == b'\n' || room == 1 then size else room - 1) cs in
    if c == b'\n' || room == 1 then (c ∷ []) ∷ rest else cons_head c rest

-- The lines of a file; a line that is longer than the buffer comes in parts.
unfoldable pub fgets_all : (size : ℕ) → Bytes → List Bytes
fgets_all size file = fgets_from (size - 1) (size - 1) file

-- The pieces of a text between the bytes `c`.
unfoldable pub split_on : ℕ → Bytes → List Bytes
split_on c [] = [] ∷ []
split_on c (x ∷ xs) = let rest = split_on c xs in if x == c then [] ∷ rest else cons_head x rest

unfoldable pub skip_byte : ℕ → Bytes → Bytes
skip_byte c [] = []
skip_byte c (x ∷ xs) = let rest = skip_byte c xs in if x == c then rest else x ∷ xs

abbrev pub or_empty : Option Bytes → Bytes
or_empty none = []
or_empty (some s) = s

abbrev pub token_of : ℕ → Bytes → Option (Bytes × Bytes)
token_of c [] = none
token_of c (x ∷ xs) = some ((cut c (x ∷ xs)).0, or_empty (cut c (x ∷ xs)).1)

-- `strtok_r` with one delimiter: the next token that is not empty, and what follows its delimiter.
unfoldable pub strtok : ℕ → Bytes → Option (Bytes × Bytes)
unfolding skip_byte
strtok c s = token_of c (skip_byte c s)

abbrev pub not_empty : List Bytes → List Bytes
not_empty [] = []
not_empty ([] ∷ ss) = not_empty ss
not_empty ((c ∷ cs) ∷ ss) = (c ∷ cs) ∷ not_empty ss

-- The tokens that a loop of `strtok_r` with one delimiter visits.
abbrev pub tokens : ℕ → Bytes → List Bytes
tokens c s = not_empty (split_on c s)
