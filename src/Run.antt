-- ===== src/Run.antt =====
-- A result of code that may also break memory: `none` is a store or a read where nothing is.
pub mod Laws
use nl.Base.{Option, none, some, ◌≡◌, refl}
use nl.Netlink.{Result, ok, err, Code}

abbrev pub Run {ℓ} : Type ℓ → Type ℓ
Run A = Option (Result A)

abbrev pub done {ℓ} : {A : Type ℓ} → A → Run A
done a = some (ok a)

abbrev pub refuse {ℓ} : {A : Type ℓ} → Code → Run A
refuse code = some (err code)

abbrev pub fault {ℓ} : {A : Type ℓ} → Run A
fault = none

infixl 5 ◌>>=◌
abbrev pub ◌>>=◌ {ℓ κ} : {A : Type ℓ} {B : Type κ} → Run A → (A → Run B) → Run B
none >>= f = none
some (err code) >>= f = some (err code)
some (ok a) >>= f = f a

-- A put that goes to its failure label with the code.
abbrev pub put_or {ℓ} : {A : Type ℓ} → Code → Option A → Run A
put_or code none = refuse code
put_or code (some m) = done m
