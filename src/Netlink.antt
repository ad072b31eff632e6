-- ===== src/Netlink.antt =====
-- The calls that iw makes of libnl to build a message, as an interface: libnl is not part of the
-- model. A call of `nla_put` and its kin, or of the macros NLA_PUT of the same names, fails if the
-- message has no room left, and gives the longer message if not. `Attrs` describes the attributes of
-- a message as a tree, and `put_all` puts such a tree by those calls.
pub mod Laws
use nl.Base.{ℕ, Option, none, some, Bytes, ◌≡◌, refl, Bool, true, false}

-- What a parser or a handler returns: 0 with its result, or one of the other codes.
pub data Code : Type 0 where
  -- 1: print the usage of the command
  usage : Code
  -- 2: the handler has printed a message itself
  explained : Code
  -- -EINVAL and -ENOBUFS
  einval enobufs : Code
  -- what `nla_put` returned
  put_failed : Code

pub data Result {ℓ} (A : Type ℓ) : Type ℓ where
  err : Code → Result A
  ok : A → Result A

-- `goto nla_put_failure`
abbrev pub room {ℓ} : {A : Type ℓ} → Option A → Result A
room none = err enobufs
room (some m) = ok m

-- `if (!b) return e`
abbrev pub guard {ℓ} : {A : Type ℓ} → Bool → Code → Result A → Result A
guard false e rest = err e
guard true e rest = rest

infixl 5 ◌>>=◌
abbrev pub ◌>>=◌ {ℓ κ} : {A : Type ℓ} {B : Type κ} → Result A → (A → Result B) → Result B
err code >>= next = err code
ok value >>= next = next value

pub record Netlink : Type 1 where
  pub Msg : Type 0
  -- what `nla_nest_start` returns besides the longer message, for `nla_nest_end`
  pub Nest : Type 0
  pub nla_put : Msg → ℕ → Bytes → Option Msg
  pub nla_put_u8 : Msg → ℕ → ℕ → Option Msg
  pub nla_put_u16 : Msg → ℕ → ℕ → Option Msg
  pub nla_put_u32 : Msg → ℕ → ℕ → Option Msg
  pub nla_put_u64 : Msg → ℕ → ℕ → Option Msg
  pub nla_put_flag : Msg → ℕ → Option Msg
  pub nla_nest_start : Msg → ℕ → Option (Nest × Msg)
  pub nla_nest_end : Msg → Nest → Msg
  -- an empty message
  pub nlmsg_alloc : Msg
  -- the header of a command with its flags
  pub genlmsg_put : Msg → ℕ → ℕ → Msg
  -- the attributes of a message put into another as one attribute
  pub nla_put_nested : Msg → ℕ → Msg → Option Msg

-- Attributes in the order of a message, each with its type.
pub data Attrs : Type 0 where
  nil : Attrs
  blob : ℕ → Bytes → Attrs → Attrs
  u8 : ℕ → ℕ → Attrs → Attrs
  u16 : ℕ → ℕ → Attrs → Attrs
  u32 : ℕ → ℕ → Attrs → Attrs
  flag : ℕ → Attrs → Attrs
  nest : ℕ → Attrs → Attrs → Attrs

infixr 66 ◌<+>◌
abbrev pub ◌<+>◌ : Attrs → Attrs → Attrs
nil <+> ys = ys
blob a v xs <+> ys = blob a v (xs <+> ys)
u8 a v xs <+> ys = u8 a v (xs <+> ys)
u16 a v xs <+> ys = u16 a v (xs <+> ys)
u32 a v xs <+> ys = u32 a v (xs <+> ys)
flag a xs <+> ys = flag a (xs <+> ys)
nest a inner xs <+> ys = nest a inner (xs <+> ys)

pub >>=_assoc {ℓ} :
    {A B C : Type ℓ} (m : Result A) (f : A → Result B) (g : B → Result C)
    → ((m >>= f) >>= g) ≡ (m >>= λ a. f a >>= g)
>>=_assoc (ok a) f g = refl
>>=_assoc (err e) f g = refl

pub >>=_cong {ℓ κ} :
    {A : Type ℓ} {B : Type κ} (m : Result A) {f g : A → Result B}
    → ((a : A) → f a ≡ g a)
    → (m >>= f) ≡ (m >>= g)
>>=_cong (ok a) h = h a
>>=_cong (err e) h = refl

module _ (n : Netlink) where
  open n use {
    Msg, nla_put, nla_put_u8, nla_put_u16, nla_put_u32, nla_put_flag, nla_nest_start, nla_nest_end,
  }

  unfoldable pub put_all : Attrs → Msg → Result Msg
  put_all nil m = ok m
  put_all (blob a v xs) m = room (nla_put m a v) >>= put_all xs
  put_all (u8 a v xs) m = room (nla_put_u8 m a v) >>= put_all xs
  put_all (u16 a v xs) m = room (nla_put_u16 m a v) >>= put_all xs
  put_all (u32 a v xs) m = room (nla_put_u32 m a v) >>= put_all xs
  put_all (flag a xs) m = room (nla_put_flag m a) >>= put_all xs
  put_all (nest a inner xs) m = room (nla_nest_start m a) >>= λ s.
      put_all inner s.1 >>= λ m'. put_all xs (nla_nest_end m' s.0)
