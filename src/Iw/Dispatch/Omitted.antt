-- ===== src/Iw/Dispatch/Omitted.antt =====
-- Words that `main` does without.
use nl.Base.{arith, Bool-cases, inl, inr, [], Bytes, true, false, List, ◌∷◌, codes, ◌==◌, ◌≡◌, refl}
use nl.Libc.{str_eq, starts_with}
use nl.Iw.Dispatch.{
  System, phy_lookup, below_zero, main, start_words, run_words, run_phy, detect_by, run,
}

-- A name that is no word of the program and begins with none: a name like `phy0` is not excluded.
pub record IsName (name : Bytes) : Type 0 where
  pub not_debug : str_eq name (codes "--debug") ≡ false
  pub not_version : str_eq name (codes "--version") ≡ false
  pub not_help : str_eq name (codes "help") ≡ false
  pub not_dev : str_eq name (codes "dev") ≡ false
  pub not_phy : str_eq name (codes "phy") ≡ false
  pub not_index : starts_with (codes "phy#") name ≡ false
  pub not_wdev : str_eq name (codes "wdev") ≡ false

-- The word that may stand in front of a name: the name is an interface's, or that of a wiphy and of no
-- interface.
pub data Identifies (sys : System) (name : Bytes) : Bytes → Type 0 where
  interface : (sys.if_nametoindex name == 0) ≡ false → Identifies sys name (codes "dev")
  wiphy :
      (sys.if_nametoindex name == 0) ≡ true
      → below_zero (phy_lookup sys name) ≡ false
      → Identifies sys name (codes "phy")

-- A name that begins with "phy" and is longer is detected, if no `#` follows.
run_phy-longer :
    (sys : System) (name : Bytes) (words : List Bytes)
    → starts_with (codes "phy") name ≡ true
    → str_eq name (codes "phy") ≡ false
    → starts_with (codes "phy#") name ≡ false
    → run_phy sys name words ≡ run (detect_by sys name) (name ∷ words)
run_phy-longer sys [] words begins longer no_index = cc
run_phy-longer sys (p ∷ []) words begins longer no_index = rw no_index refl
run_phy-longer sys (p ∷ h ∷ []) words begins longer no_index = rw no_index refl
run_phy-longer sys (p ∷ h ∷ y ∷ []) words begins longer no_index = absurd (ground arith)
run_phy-longer sys (p ∷ h ∷ y ∷ c ∷ cs) words begins longer no_index = rw no_index refl

detected :
    (sys : System) (name : Bytes) (rest : List Bytes)
    → IsName name
    → main sys (name ∷ rest) ≡ run (detect_by sys name) (name ∷ rest)
unfolding main start_words run_words
detected sys name [] h =
    rw (h.not_debug, h.not_version, h.not_help, h.not_dev, h.not_wdev)
      (elim (Bool-cases (starts_with (codes "phy") name)) [
        | inl begins ↦ rw begins refl
        | inr other ↦ rw other refl
      ])
detected sys name (word ∷ rest) h = elim (Bool-cases (starts_with (codes "phy") name)) [
  | inl begins ↦
      rw (h.not_debug, h.not_version, h.not_help, h.not_dev, begins)
        (run_phy-longer sys name (word ∷ rest) begins h.not_phy h.not_index)
  | inr other ↦ rw (h.not_debug, h.not_version, h.not_help, h.not_dev, other, h.not_wdev) refl
]

-- "dev" in front of the name of an interface, and "phy" in front of the name of a wiphy that is no
-- interface's, can be left out, whatever words follow, or none. The name may be any but "--debug",
-- "--version", "help", "dev", "phy" and "wdev", and it may begin with "phy", but not with "phy#".
pub main-omit :
    (sys : System) (prefix name : Bytes) (rest : List Bytes)
    → IsName name
    → Identifies sys name prefix
    → main sys (prefix ∷ name ∷ rest) ≡ main sys (name ∷ rest)
unfolding main start_words run_words
main-omit sys prefix name rest h (interface index) = rw (detected sys name rest h, index) refl
main-omit sys prefix name rest h (wiphy none_such index) =
    rw (detected sys name rest h, none_such, index) refl
