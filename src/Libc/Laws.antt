-- ===== src/Libc/Laws.antt =====
-- What the readers of numbers give on the text that `%02x` prints.
use nl.Base.{
  ◌==◌, false, Option, none, ap, ℕ, ◌<◌, ◌≡◌, refl, Bool, true, ◌&&◌, Bytes, List, [], ◌∷◌, ◌++◌,
  some, arith, passes_below, passes_below_at,
}
use nl.Libc.Number.{strtoul, sscanf, scan_from, number}
use nl.Libc.Print.{hex02}
use nl.Libc.Text.{cut}

abbrev is_number : ℕ → ℕ × Bytes × Bool → Bool
is_number b (v, [], found) = v == b && found
is_number b (v, c ∷ cs, found) = false

is_number_lem : (b : ℕ) (r : ℕ × Bytes × Bool) → is_number b r ≡ true → r ≡ (b, [], true)
is_number_lem b (v, [], found) h = ground arith
is_number_lem b (v, c ∷ cs, found) h = cc

hex02_table : passes_below (λ b. is_number b (strtoul (hex02 b) 16)) 256 ≡ true
unfolding passes_below strtoul hex02
hex02_table = refl

-- `strtoul` reads a printed byte back, and stops at its end.
pub strtoul-hex02 : (b : ℕ) → b < 256 → strtoul (hex02 b) 16 ≡ (b, [], true)
strtoul-hex02 b h = is_number_lem b _ (passes_below_at _ 256 b h hex02_table)

abbrev is_scanned : ℕ → List ℕ → Bool
is_scanned b (v ∷ []) = v == b
is_scanned b vs = false

is_scanned_lem : (b : ℕ) (vs : List ℕ) → is_scanned b vs ≡ true → vs ≡ b ∷ []
is_scanned_lem b [] h = cc
is_scanned_lem b (v ∷ []) h = ground arith
is_scanned_lem b (v ∷ w ∷ vs) h = cc

hex02_scan_table :
    passes_below (λ b. is_scanned b (sscanf (hex02 b) (number 16 ∷ [])).values) 256 ≡ true
unfolding passes_below scan_from hex02
hex02_scan_table = refl

-- `sscanf("%x")` reads a printed byte back.
pub sscanf-hex02 : (b : ℕ) → b < 256 → (sscanf (hex02 b) (number 16 ∷ [])).values ≡ b ∷ []
sscanf-hex02 b h = is_scanned_lem b _ (passes_below_at _ 256 b h hex02_scan_table)

pub cut-hex02 :
    (b : ℕ) (rest : Bytes) → b < 256 → cut b':' (hex02 b ++ (b':' ∷ rest)) ≡ (hex02 b, some rest)
unfolding cut hex02
cut-hex02 b rest h = ground arith

pub cut-hex02_last : (b : ℕ) → b < 256 → cut b':' (hex02 b) ≡ (hex02 b, none)
unfolding cut hex02
cut-hex02_last b h = ground arith

-- A text without the byte `c`.
abbrev pub Lacks : ℕ → Bytes → Type 0
Lacks c [] = Unit
Lacks c (x ∷ xs) = ((x == c) ≡ false) × Lacks c xs

pub cut-append : (c : ℕ) (s rest : Bytes) → Lacks c s → cut c (s ++ (c ∷ rest)) ≡ (s, some rest)
unfolding cut
cut-append c [] rest h = ground arith
cut-append c (x ∷ s) rest (ne, h) =
    rw ne (ap (λ (r : Bytes × Option Bytes). (x ∷ r.0, r.1)) (cut-append c s rest h))

pub cut_whole : (c : ℕ) (s : Bytes) → Lacks c s → cut c s ≡ (s, none)
unfolding cut
cut_whole c [] h = refl
cut_whole c (x ∷ s) (ne, h) =
    rw ne (ap (λ (r : Bytes × Option Bytes). (x ∷ r.0, r.1)) (cut_whole c s h))
