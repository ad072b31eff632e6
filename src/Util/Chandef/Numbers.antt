-- ===== src/Util/Chandef/Numbers.antt =====
-- The numbers among the words for the centre frequencies.
use nl.Base.{refl, Option, zero, suc, ◌≢◌, ℕ, Bool, ◌≡◌, Bytes, List, [], ◌∷◌, none, some, sym}
use mathlib.Core.Option.{some-injective}
use nl.Libc.{strtoul, to_u32}
use nl.Util.Chandef.{whole_number, read_center, read_freq}

-- A word that is a decimal number to its end, not the empty word, taken as 32 bits.
abbrev pub IsNumber : Bytes → ℕ → Type 0
IsNumber word freq =
    (word ≢ []) × (v : ℕ) × (found : Bool) × (strtoul word 10 ≡ (v, [], found)) × (freq ≡ to_u32 v)

-- The word at a position is a number.
abbrev pub NumberAt : List Bytes → ℕ → ℕ → Type 0
NumberAt [] i freq = ⊥
NumberAt (word ∷ words) zero freq = IsNumber word freq
NumberAt (word ∷ words) (suc i) freq = NumberAt words i freq

whole_number-some :
    (r : ℕ × Bytes × Bool) (freq : ℕ)
    → whole_number r ≡ some freq
    → (v : ℕ) × (found : Bool) × (r ≡ (v, [], found)) × (freq ≡ to_u32 v)
whole_number-some (v, [], found) freq h = (v, found, refl, sym (some-injective _ _ h))
whole_number-some (v, e ∷ end, found) freq h = cc

read_center-IsNumber : (word : Bytes) (freq : ℕ) → read_center word ≡ some freq → IsNumber word freq
unfolding read_center read_freq
read_center-IsNumber [] freq h = cc
read_center-IsNumber (x ∷ xs) freq h =
    let (v, found, is, same) = whole_number-some (strtoul (x ∷ xs) 10) freq h in
    (λ e. cc, v, found, is, same)

IsNumber-read_center : (word : Bytes) (freq : ℕ) → IsNumber word freq → read_center word ≡ some freq
unfolding read_center read_freq
IsNumber-read_center [] freq (full, v, found, is, same) = absurd (full refl)
IsNumber-read_center (x ∷ xs) freq (full, v, found, is, same) = rw (is, same) refl

-- The frequency that the word at a position is.
abbrev pub center_at : List Bytes → ℕ → Option ℕ
center_at [] i = none
center_at (arg ∷ argv) zero = read_center arg
center_at (arg ∷ argv) (suc i) = center_at argv i

pub center_at-NumberAt :
    (words : List Bytes) (i freq : ℕ) → center_at words i ≡ some freq → NumberAt words i freq
center_at-NumberAt [] i freq h = cc
center_at-NumberAt (word ∷ words) zero freq h = read_center-IsNumber word freq h
center_at-NumberAt (word ∷ words) (suc i) freq h = center_at-NumberAt words i freq h

pub NumberAt-center_at :
    (words : List Bytes) (i freq : ℕ) → NumberAt words i freq → center_at words i ≡ some freq
NumberAt-center_at [] i freq h = absurd h
NumberAt-center_at (word ∷ words) zero freq h = IsNumber-read_center word freq h
NumberAt-center_at (word ∷ words) (suc i) freq h = NumberAt-center_at words i freq h
