-- ===== src/Util/RandomMac.antt =====
-- `parse_random_mac_addr` of wifi/iw/util.c. `addr` and `mask` are what its two buffers on the stack
-- hold at first.
use nl.Base.{
  arith, Option-cases, ◌⊎◌, ◌++◌, ℕ, ap, sym, ◌∙◌, length, Bool-cases, inl, inr, ◌≡◌, refl, Bytes,
  Option, none, some, [], ◌∷◌, ◌==◌, if◌then◌else◌,
}
use mathlib.Core.Option.{some-injective}
use nl.Libc.{cut}
use nl.Libc.Laws.{Lacks, cut-append}
use nl.Util.Mac.Laws.{mac_addr_a2n-fields}
use nl.Nl80211.Attr
use nl.Netlink.{>>=_cong, Netlink, Result, err, ◌>>=◌, room, usage, Attrs, nil, blob, put_all}
use nl.Util.Mac.{mac_addr_a2n}
use nl.Util.Mac.Laws.{fields, all_six}

-- All but the multicast bit is random.
abbrev pub any_addr : Bytes
any_addr = 0 ∷ 0 ∷ 0 ∷ 0 ∷ 0 ∷ 0 ∷ []

abbrev pub multicast_mask : Bytes
multicast_mask = 1 ∷ 0 ∷ 0 ∷ 0 ∷ 0 ∷ 0 ∷ []

-- An address and a mask that were both read.
abbrev pub both_read : Option Bytes → Option Bytes → Option (Bytes × Bytes)
both_read none m = none
both_read (some a) none = none
both_read (some a) (some m) = some (a, m)

-- The text behind `=`, cut at the slash.
abbrev pub read_parts :
    (Bytes → Option Bytes) → (Bytes → Option Bytes) → Bytes × Option Bytes → Option (Bytes × Bytes)
read_parts read_addr read_mask (a, none) = none
read_parts read_addr read_mask (a, some m) = both_read (read_addr a) (read_mask m)

module _ (n : Netlink) where
  open n use {Msg, nla_put}

  abbrev pub put_random : Msg → Option (Bytes × Bytes) → Result Msg
  put_random msg none = err usage
  put_random msg (some (addr, mask)) = do
    m1 ← room (nla_put msg Attr.mac addr)
    room (nla_put m1 Attr.mac_mask mask)

  unfoldable pub parse_random_mac_addr : Bytes → Bytes → Msg → Bytes → Result Msg
  parse_random_mac_addr addr mask msg [] = put_random msg (some (any_addr, multicast_mask))
  parse_random_mac_addr addr mask msg (c ∷ addrs) =
      if c == b'='
      then put_random msg (read_parts (mac_addr_a2n addr) (mac_addr_a2n mask) (cut b'/' addrs))
      else err usage

-- What a text asks for. No text asks for any address but for the multicast bit; `=`, an address, a slash
-- and a mask, each of them six numbers that fit a byte, ask for the two.
pub data Asks (text addr mask : Bytes) : Type 0 where
  asks_any :
      text ≡ []
      → addr ≡ 0 ∷ 0 ∷ 0 ∷ 0 ∷ 0 ∷ 0 ∷ []
      → mask ≡ 1 ∷ 0 ∷ 0 ∷ 0 ∷ 0 ∷ 0 ∷ []
      → Asks text addr mask
  asks_both :
      (a m : Bytes)
      → text ≡ b'=' ∷ (a ++ (b'/' ∷ m))
      → Lacks b'/' a
      → all_six (fields 6 a) ≡ some addr
      → all_six (fields 6 m) ≡ some mask
      → Asks text addr mask

abbrev pub random_attrs : (addr mask : Bytes) → Attrs
random_attrs addr mask = blob Attr.mac addr (blob Attr.mac_mask mask nil)

-- The attributes that a text asks for, or the usage if it asks for none.
abbrev pub AsAsked : (n : Netlink) → n.Msg → Bytes → Result n.Msg → Type 0
AsAsked n msg text r =
    ((addr : Bytes) × (mask : Bytes) × Asks text addr mask
      × (r ≡ put_all n (random_attrs addr mask) msg))
    ⊎ ((¬ ((addr : Bytes) × (mask : Bytes) × Asks text addr mask)) × (r ≡ err usage))

room-unit : (n : Netlink) (o : Option n.Msg) → room o ≡ (room o >>= put_all n nil)
unfolding put_all
room-unit n none = refl
room-unit n (some m) = refl

put_random-random_attrs :
    (n : Netlink) (m : n.Msg) (addr mask : Bytes)
    → put_random n m (some (addr, mask)) ≡ put_all n (random_attrs addr mask) m
unfolding put_all
put_random-random_attrs n m addr mask =
    >>=_cong (room (n.nla_put m Attr.mac addr))
      (λ m1. room-unit n (n.nla_put m1 Attr.mac_mask mask))

cut-some :
    (c : ℕ) (s rest : Bytes)
    → (cut c s).1 ≡ some rest
    → (s ≡ (cut c s).0 ++ (c ∷ rest)) × Lacks c (cut c s).0
unfolding cut
cut-some c [] rest h = cc
cut-some c (x ∷ xs) rest h = elim (Bool-cases (x == c)) [
  | inl found ↦ rw found (
      let e : some xs ≡ some rest = (rw found at h) in
      let same = some-injective xs rest e in
      let first : x ≡ c = ground arith in (ap (λ t. x ∷ t) same ∙ ap (λ k. k ∷ rest) first, tt))
  | inr other ↦ rw other (
      let (same, lacks) = cut-some c xs rest (rw other at h) in
      (ap (λ t. x ∷ t) same, (other, lacks)))
]

-- A text that asks for both is cut at its slash.
both_cut :
    (c : ℕ) (cs addr mask : Bytes)
    → Asks (c ∷ cs) addr mask
    → (c ≡ b'=')
      × (a : Bytes) × (m : Bytes) × (cut b'/' cs ≡ (a, some m))
      × (all_six (fields 6 a) ≡ some addr)
      × (all_six (fields 6 m) ≡ some mask)
both_cut c cs addr mask (asks_any is addr_is mask_is) = cc
both_cut c cs addr mask (asks_both a m is lacks read_a read_m) =
    let tails : cs ≡ a ++ (b'/' ∷ m) = cc in
    let heads : c ≡ b'=' = cc in (heads, a, m, rw tails (cut-append b'/' a m lacks), read_a, read_m)

-- The text behind `=` is cut at its slash, and the two parts are read or not.
read-AsAsked :
    (n : Netlink) (msg : n.Msg) (c : ℕ) (cs a m : Bytes) (oa om : Option Bytes)
    → c ≡ b'='
    → cs ≡ a ++ (b'/' ∷ m)
    → Lacks b'/' a
    → all_six (fields 6 a) ≡ oa
    → all_six (fields 6 m) ≡ om
    → AsAsked n msg (c ∷ cs) (put_random n msg (both_read oa om))
read-AsAsked n msg c cs a m (some addr) (some mask) is same lacks read_a read_m = inl (
  addr,
  mask,
  asks_both a m (ap (λ k. k ∷ cs) is ∙ ap (λ t. b'=' ∷ t) same) lacks read_a read_m,
  put_random-random_attrs n msg addr mask,
)
read-AsAsked n msg c cs a m none om is same lacks read_a read_m = inr (
  λ k.
      let (addr, mask, asks) = k in
      let (_, a', m', parts, is_a, is_m) = both_cut c cs addr mask asks in
      let same_a =
        ap (λ (r : Bytes × Option Bytes). r.0)
          (sym (cut-append b'/' a m lacks) ∙ ap (cut b'/') (sym same) ∙ parts) in
      let e = sym read_a ∙ ap (λ t. all_six (fields 6 t)) same_a ∙ is_a in cc,
  refl,
)
read-AsAsked n msg c cs a m (some addr') none is same lacks read_a read_m = inr (
  λ k.
      let (addr, mask, asks) = k in
      let (_, a', m', parts, is_a, is_m) = both_cut c cs addr mask asks in
      let same_m = some-injective m m' (
        ap (λ (r : Bytes × Option Bytes). r.1)
          (sym (cut-append b'/' a m lacks) ∙ ap (cut b'/') (sym same) ∙ parts)) in
      let e = sym read_m ∙ ap (λ t. all_six (fields 6 t)) same_m ∙ is_m in cc,
  refl,
)

-- For every text, and whatever the two buffers of six bytes held before: if the text asks for an address
-- and a mask, the two are put, the address first. The empty text asks for a zero address with the mask
-- 01:00:00:00:00:00, and `=`, an address, a slash and a mask ask for these, each of them being six
-- numbers that fit a byte. If the text asks for none, the result is the usage.
pub parse_random_mac_addr-AsAsked :
    (n : Netlink) (addr mask : Bytes) (msg : n.Msg) (text : Bytes)
    → length addr ≡ 6
    → length mask ≡ 6
    → AsAsked n msg text (parse_random_mac_addr n addr mask msg text)
unfolding parse_random_mac_addr
parse_random_mac_addr-AsAsked n addr mask msg [] ha hm = inl (
  any_addr,
  multicast_mask,
  asks_any refl refl refl,
  put_random-random_attrs n msg any_addr multicast_mask,
)
parse_random_mac_addr-AsAsked n addr mask msg (c ∷ cs) ha hm = elim (Bool-cases (c == b'=')) [
  | inr other ↦ rw other (
      inr (
        λ k.
            let (addr', mask', asks) = k in
            let (is, _, _, _, _, _) = both_cut c cs addr' mask' asks in ground arith,
        refl,
      ))
  | inl equals ↦ rw equals (elim (Option-cases (cut b'/' cs).1) [
    | inl whole ↦ rw whole (
        inr (
          λ k.
              let (addr', mask', asks) = k in
              let (_, a, m, parts, _, _) = both_cut c cs addr' mask' asks in
              let e = sym whole ∙ ap (λ (r : Bytes × Option Bytes). r.1) parts in cc,
          refl,
        ))
    | inr (m, slash) ↦
        let (same, lacks) = cut-some b'/' cs m slash in
        rw (slash, mac_addr_a2n-fields addr (cut b'/' cs).0 ha, mac_addr_a2n-fields mask m hm)
          (read-AsAsked n msg c cs (cut b'/' cs).0 m (all_six (fields 6 (cut b'/' cs).0))
            (all_six (fields 6 m)) (ground arith) same lacks refl refl)
  ])
]
