-- ===== src/Netlink/Laws.antt =====
-- What a message went through that took all attributes of a tree.
use nl.Base.{ℕ, Bytes, Option, none, some, ◌≡◌, refl}
use nl.Netlink.{
  Netlink, Result, ok, err, ◌>>=◌, room, Attrs, nil, blob, u8, u16, u32, flag, nest, put_all,
}

pub room-eq-ok {ℓ κ} :
    {A : Type ℓ} {B : Type κ} (o : Option A) (f : A → Result B) {b : B}
    → (room o >>= f) ≡ ok b
    → (a : A) × (o ≡ some a) × (f a ≡ ok b)
room-eq-ok (some a) f h = (a, refl, h)
room-eq-ok none f h = cc

module _ (n : Netlink) where
  open n use {
    Msg, Nest, nla_put, nla_put_u8, nla_put_u16, nla_put_u32, nla_put_flag, nla_nest_start,
    nla_nest_end,
  }

  pub blob-eq-ok :
      (a : ℕ) (v : Bytes) (xs : Attrs) (m m' : Msg)
      → put_all n (blob a v xs) m ≡ ok m'
      → (m1 : Msg) × (nla_put m a v ≡ some m1) × (put_all n xs m1 ≡ ok m')
  unfolding put_all
  blob-eq-ok a v xs m m' h = room-eq-ok (nla_put m a v) (put_all n xs) h

  pub u32-eq-ok :
      (a v : ℕ) (xs : Attrs) (m m' : Msg)
      → put_all n (u32 a v xs) m ≡ ok m'
      → (m1 : Msg) × (nla_put_u32 m a v ≡ some m1) × (put_all n xs m1 ≡ ok m')
  unfolding put_all
  u32-eq-ok a v xs m m' h = room-eq-ok (nla_put_u32 m a v) (put_all n xs) h

  pub u8-eq-ok :
      (a v : ℕ) (xs : Attrs) (m m' : Msg)
      → put_all n (u8 a v xs) m ≡ ok m'
      → (m1 : Msg) × (nla_put_u8 m a v ≡ some m1) × (put_all n xs m1 ≡ ok m')
  unfolding put_all
  u8-eq-ok a v xs m m' h = room-eq-ok (nla_put_u8 m a v) (put_all n xs) h

  pub u16-eq-ok :
      (a v : ℕ) (xs : Attrs) (m m' : Msg)
      → put_all n (u16 a v xs) m ≡ ok m'
      → (m1 : Msg) × (nla_put_u16 m a v ≡ some m1) × (put_all n xs m1 ≡ ok m')
  unfolding put_all
  u16-eq-ok a v xs m m' h = room-eq-ok (nla_put_u16 m a v) (put_all n xs) h

  pub flag-eq-ok :
      (a : ℕ) (xs : Attrs) (m m' : Msg)
      → put_all n (flag a xs) m ≡ ok m'
      → (m1 : Msg) × (nla_put_flag m a ≡ some m1) × (put_all n xs m1 ≡ ok m')
  unfolding put_all
  flag-eq-ok a xs m m' h = room-eq-ok (nla_put_flag m a) (put_all n xs) h

  -- A nest was started, filled and ended in front of the rest.
  pub record Nested (a : ℕ) (inner xs : Attrs) (m m' : Msg) : Type 0 where
    pub mark : Nest
    pub inside : Msg
    pub filled : Msg
    pub started : nla_nest_start m a ≡ some (mark, inside)
    pub inner_put : put_all n inner inside ≡ ok filled
    pub rest_put : put_all n xs (nla_nest_end filled mark) ≡ ok m'

  -- A nest that was filled, by the result of that.
  ended-eq-ok :
      (xs : Attrs) (mark : Nest) (m' : Msg) (r : Result Msg)
      → (r >>= λ m1. put_all n xs (nla_nest_end m1 mark)) ≡ ok m'
      → (filled : Msg) × (put_all n xs (nla_nest_end filled mark) ≡ ok m') × (r ≡ ok filled)
  ended-eq-ok xs mark m' (err code) h = cc
  ended-eq-ok xs mark m' (ok filled) h = (filled, h, refl)

  pub nest-eq-ok :
      (a : ℕ) (inner xs : Attrs) (m m' : Msg)
      → put_all n (nest a inner xs) m ≡ ok m'
      → Nested a inner xs m m'
  unfolding put_all
  nest-eq-ok a inner xs m m' h =
      let (s, started, later) =
        room-eq-ok (nla_nest_start m a)
          (λ s. put_all n inner s.1 >>= λ m1. put_all n xs (nla_nest_end m1 s.0)) h in
      let (filled, rest_put, inner_put) = ended-eq-ok xs s.0 m' (put_all n inner s.1) later in
      record {
        mark = s.0;
        inside = s.1;
        filled = filled;
        started = started;
        inner_put = inner_put;
        rest_put = rest_put;
      }

  pub nil-eq-ok : (m m' : Msg) → put_all n nil m ≡ ok m' → m ≡ m'
  unfolding put_all
  nil-eq-ok m m' h = cc
