-- ===== src/Nan/Function/Options.antt =====
-- Words that may stand or not, each with its attribute, as handle_nan_add_func of wifi/iw/nan.c takes them.
use nl.Base.{Bool, true, false, Bytes, Option, none, some, List, [], ◌∷◌, ◌≡◌, refl}
use nl.Libc.{str_eq}
use nl.Netlink.{Netlink, Attrs, ok, put_all}
use nl.Run.{Run, done}
use nl.Nan.Function.{keyword, value_of, flag_of}

-- A name with its value in front of other words.
abbrev pub opt : Bytes → Option Bytes → List Bytes → List Bytes
opt name none rest = rest
opt name (some value) rest = name ∷ value ∷ rest

abbrev pub flag_if : Bytes → Bool → List Bytes → List Bytes
flag_if name true rest = name ∷ rest
flag_if name false rest = rest

abbrev pub opt_attrs : (Bytes → Attrs → Attrs) → Option Bytes → Attrs → Attrs
opt_attrs attrs none xs = xs
opt_attrs attrs (some value) xs = attrs value xs

abbrev pub flag_attrs : (Attrs → Attrs) → Bool → Attrs → Attrs
flag_attrs attrs true xs = attrs xs
flag_attrs attrs false xs = xs

abbrev pub OnValue : (Bytes → Type 0) → Option Bytes → Type 0
OnValue P none = Unit
OnValue P (some value) = P value

-- Words of which there is one at least.
abbrev pub Headed : List Bytes → Type 0
Headed [] = ⊥
Headed (w ∷ words) = Unit

pub keyword-opt :
    (name other : Bytes) (o : Option Bytes) (rest : List Bytes)
    → str_eq other name ≡ false
    → keyword name rest ≡ none
    → keyword name (opt other o rest) ≡ none
unfolding keyword
keyword-opt name other none rest ne h = h
keyword-opt name other (some value) rest ne h = rw ne refl

pub keyword-flag_if :
    (name other : Bytes) (b : Bool) (rest : List Bytes)
    → str_eq other name ≡ false
    → keyword name rest ≡ none
    → keyword name (flag_if other b rest) ≡ none
unfolding keyword
keyword-flag_if name other false rest ne h = h
keyword-flag_if name other true [] ne h = refl
keyword-flag_if name other true (x ∷ rest) ne h = rw ne refl

pub flag_if-Headed :
    (name : Bytes) (b : Bool) (rest : List Bytes) → Headed rest → Headed (flag_if name b rest)
flag_if-Headed name true rest h = tt
flag_if-Headed name false rest h = h

module _ (n : Netlink) (stack mac_addr : Bytes) where
  open n use {Msg}

  -- What a put does for a value that is good: the attributes of the value go into the message.
  abbrev pub Puts : (Bytes → Type 0) → (Msg → Bytes → Run Msg) → (Bytes → Attrs → Attrs) → Type 0
  Puts P put attrs =
      (value : Bytes) (xs : Attrs) (m m' : Msg)
      → P value
      → put_all n (attrs value xs) m ≡ ok m'
      → (m1 : Msg) × (put m value ≡ done m1) × (put_all n xs m1 ≡ ok m')

  abbrev pub PutsFlag : (Msg → Run Msg) → (Attrs → Attrs) → Type 0
  PutsFlag put attrs =
      (xs : Attrs) (m m' : Msg)
      → put_all n (attrs xs) m ≡ ok m'
      → (m1 : Msg) × (put m ≡ done m1) × (put_all n xs m1 ≡ ok m')

  pub value_of-opt :
      (P : Bytes → Type 0) (name : Bytes) (put : Msg → Bytes → Run Msg)
      (attrs : Bytes → Attrs → Attrs) (o : Option Bytes) (rest : List Bytes) (xs : Attrs)
      (m m' : Msg)
      → Puts P put attrs
      → OnValue P o
      → str_eq name name ≡ true
      → keyword name rest ≡ none
      → put_all n (opt_attrs attrs o xs) m ≡ ok m'
      → (m1 : Msg) × (value_of n stack mac_addr name put (m, opt name o rest) ≡ done (m1, rest))
        × (put_all n xs m1 ≡ ok m')
  value_of-opt P name put attrs none rest xs m m' puts is same other h = (m, rw other refl, h)
  value_of-opt P name put attrs (some value) rest xs m m' puts is same other h =
      let (m1, e, h1) = puts value xs m m' is h in (m1, unfold keyword in rw (same, e) refl, h1)

  pub flag_of-flag_if :
      (name : Bytes) (put : Msg → Run Msg) (attrs : Attrs → Attrs) (b : Bool) (rest : List Bytes)
      (xs : Attrs) (m m' : Msg)
      → PutsFlag put attrs
      → Headed rest
      → str_eq name name ≡ true
      → keyword name rest ≡ none
      → put_all n (flag_attrs attrs b xs) m ≡ ok m'
      → (m1 : Msg) × (flag_of n stack mac_addr name put (m, flag_if name b rest) ≡ done (m1, rest))
        × (put_all n xs m1 ≡ ok m')
  flag_of-flag_if name put attrs false rest xs m m' puts is same other h = (m, rw other refl, h)
  flag_of-flag_if name put attrs true [] xs m m' puts is same other h = elim is [ ]
  flag_of-flag_if name put attrs true (x ∷ rest) xs m m' puts is same other h =
      let (m1, e, h1) = puts xs m m' h in (m1, unfold keyword in rw (same, e) refl, h1)
