-- ===== src/Scan/Elements/Walk.antt =====
-- The walk of `print_ies` against a description of the buffer.
use nl.Base.{
  take-append, drop-append, append-take-drop, length-take, length-drop, ℕ, zero, suc, ◌≤◌, ◌<◌,
  Bool, true, false, Bytes, some, List, [], ◌∷◌, ◌++◌, length, take, drop, leb, ◌≡◌, refl, sym, ap,
  ◌∙◌, arith, Bool-cases, inl, inr, append_assoc, length-append, leb→le,
}
use nl.Scan.Elements.{PrintType, Event, print_element, and_then, print_ies_loop, print_ies}

-- The bytes of one element, and of several.
abbrev pub element : ℕ × Bytes → Bytes
element (tag, bytes) = tag ∷ length bytes ∷ bytes

abbrev pub buffer_of : List (ℕ × Bytes) → Bytes
buffer_of [] = []
buffer_of ((tag, bytes) ∷ es) = tag ∷ length bytes ∷ (bytes ++ buffer_of es)

-- What is no whole element: less than a tag and a length, or fewer bytes than the length says.
abbrev pub IsCut : Bytes → Type 0
IsCut [] = Unit
IsCut (tag ∷ []) = Unit
IsCut (tag ∷ size ∷ rest) = length rest < size

-- The events of one element after another.
abbrev pub all_events : List (ℕ × Bytes) → Bool → PrintType → List Event
all_events [] unknown ptype = []
all_events ((tag, bytes) ∷ es) unknown ptype =
    print_element tag bytes unknown ptype ++ all_events es unknown ptype

cut_loop :
    (fuel : ℕ) (tail : Bytes) (unknown : Bool) (ptype : PrintType)
    → IsCut tail
    → print_ies_loop (suc fuel) tail unknown ptype ≡ some []
unfolding print_ies_loop
cut_loop fuel [] unknown ptype cut = refl
cut_loop fuel (tag ∷ []) unknown ptype cut = refl
cut_loop fuel (tag ∷ size ∷ rest) unknown ptype cut =
    let over : leb size (length rest) ≡ false = ground arith in rw over refl

-- One whole element in front of the rest.
element_loop :
    (fuel tag : ℕ) (bytes rest : Bytes) (unknown : Bool) (ptype : PrintType)
    → print_ies_loop (suc fuel) (tag ∷ length bytes ∷ (bytes ++ rest)) unknown ptype
      ≡ and_then (print_element tag bytes unknown ptype) (print_ies_loop fuel rest unknown ptype)
unfolding print_ies_loop
element_loop fuel tag bytes rest unknown ptype =
    let fits : leb (length bytes) (length (bytes ++ rest)) ≡ true =
      ground (arith, length-append bytes rest) in
    rw (fits, take-append bytes rest, drop-append bytes rest) refl

print_ies_loop-buffer_of :
    (fuel : ℕ) (es : List (ℕ × Bytes)) (tail : Bytes) (unknown : Bool) (ptype : PrintType)
    → IsCut tail
    → length (buffer_of es ++ tail) < fuel
    → print_ies_loop fuel (buffer_of es ++ tail) unknown ptype ≡ some (all_events es unknown ptype)
print_ies_loop-buffer_of zero es tail unknown ptype cut h = absurd (omega arith)
print_ies_loop-buffer_of (suc fuel) [] tail unknown ptype cut h =
    cut_loop fuel tail unknown ptype cut
print_ies_loop-buffer_of (suc fuel) ((tag, bytes) ∷ es) tail unknown ptype cut h =
    let room : length ((bytes ++ buffer_of es) ++ tail) < fuel = omega arith in
    let shorter : length (buffer_of es ++ tail) < fuel = omega (
      arith,
      length-append (bytes ++ buffer_of es) tail,
      length-append bytes (buffer_of es),
      length-append (buffer_of es) tail,
    ) in
    ap (λ b. print_ies_loop (suc fuel) (tag ∷ length bytes ∷ b) unknown ptype)
      (append_assoc bytes (buffer_of es) tail)
    ∙ element_loop fuel tag bytes (buffer_of es ++ tail) unknown ptype
    ∙ ap (and_then (print_element tag bytes unknown ptype))
        (print_ies_loop-buffer_of fuel es tail unknown ptype cut shorter)

-- On whole elements with a cut one behind them, `print_ies` comes to the events of those elements, each
-- with its tag and just its bytes, in their order; the cut one is ignored.
pub print_ies-buffer_of :
    (es : List (ℕ × Bytes)) (tail : Bytes) (unknown : Bool) (ptype : PrintType)
    → IsCut tail
    → print_ies (buffer_of es ++ tail) unknown ptype ≡ some (all_events es unknown ptype)
unfolding print_ies
print_ies-buffer_of es tail unknown ptype cut =
    print_ies_loop-buffer_of (suc (length (buffer_of es ++ tail))) es tail unknown ptype cut
      (omega arith)

-- A buffer taken apart.
pub record Parts (ie : Bytes) : Type 0 where
  pub elements : List (ℕ × Bytes)
  pub tail : Bytes
  pub whole : ie ≡ buffer_of elements ++ tail
  pub cut : IsCut tail

add_element :
    (tag size : ℕ) (rest : Bytes)
    → size ≤ length rest
    → Parts (drop size rest)
    → Parts (tag ∷ size ∷ rest)
add_element tag size rest h p = record {
  elements = (tag, take size rest) ∷ p.elements;
  tail = p.tail;
  whole =
      ap (λ n. tag ∷ n ∷ rest) (sym (length-take size rest h))
      ∙ ap (λ b. tag ∷ length (take size rest) ∷ b)
          (sym (append-take-drop size rest)
            ∙ ap (λ b. take size rest ++ b) p.whole
            ∙ sym (append_assoc (take size rest) (buffer_of p.elements) p.tail));
  cut = p.cut;
}

take_apart : (fuel : ℕ) (ie : Bytes) → length ie < fuel → Parts ie
take_apart zero ie h = absurd (omega arith)
take_apart (suc fuel) [] h = record { elements = []; tail = []; whole = refl; cut = tt }
take_apart (suc fuel) (tag ∷ []) h = record {
  elements = [];
  tail = tag ∷ [];
  whole = refl;
  cut = tt;
}
take_apart (suc fuel) (tag ∷ size ∷ rest) h = elim (Bool-cases (leb size (length rest))) [
  | inl fits ↦
      add_element tag size rest (leb→le _ _ fits)
        (take_apart fuel (drop size rest) (omega (arith, length-drop size rest)))
  | inr over ↦ record { elements = []; tail = tag ∷ size ∷ rest; whole = refl; cut = ground arith }
]

-- Every buffer is some whole elements and a cut one, and `print_ies` ends on it with the events of those
-- elements: its fuel is enough.
pub print_ies-Parts :
    (ie : Bytes) (unknown : Bool) (ptype : PrintType)
    → (p : Parts ie) × (print_ies ie unknown ptype ≡ some (all_events p.elements unknown ptype))
print_ies-Parts ie unknown ptype =
    let p = take_apart (suc (length ie)) ie (omega arith) in
    (
      p,
      ap (λ b. print_ies b unknown ptype) p.whole
          ∙ print_ies-buffer_of p.elements p.tail unknown ptype p.cut,
    )
