-- ===== src/Scan/Operation/Classes.antt =====
-- Operating classes behind a delimiter.
use nl.Base.{length, ltb, ℕ, Bytes, [], ◌∷◌, ◌++◌, false, ◌||◌, ◌==◌, ◌≡◌, refl, All, arith}
use nl.Print.{byte, skip}
use nl.Scan.Operation.{classes, print_supp_op_classes}

-- No delimiter: neither 0 nor 130.
abbrev pub IsClass : ℕ → Type 0
IsClass p = (p == 130 || p == 0) ≡ false

classes-zero :
    (before after : Bytes) → All IsClass before → classes (before ++ (0 ∷ after)) ≡ classes before
unfolding classes
classes-zero [] after h = refl
classes-zero (p ∷ before) after (h, hs) =
    let not_130 : (p == 130) ≡ false = ground arith in
    let not_0 : (p == 0) ≡ false = ground arith in
    rw (not_130, not_0, classes-zero before after hs) refl

-- Nothing of what follows a zero delimiter is printed: the element prints as if it ended in front of it,
-- whatever tuples of operating classes the zero announces.
pub print_supp_op_classes_zero :
    (current : ℕ) (before after : Bytes)
    → All IsClass before
    → print_supp_op_classes (current ∷ (before ++ (0 ∷ after)))
      ≡ print_supp_op_classes (current ∷ before)
unfolding print_supp_op_classes byte skip
print_supp_op_classes_zero current before after h =
    let long : ltb (length (current ∷ (before ++ (0 ∷ after)))) 1 ≡ false = ground arith in
    let short : ltb (length (current ∷ before)) 1 ≡ false = ground arith in
    rw (long, short, classes-zero before after h) refl
