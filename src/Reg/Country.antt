-- ===== src/Reg/Country.antt =====
-- The words that handle_reg_set takes for a country.
use nl.Base.{
  ap, ℕ, true, ◌||◌, Bytes, some, none, Option, List, [], ◌∷◌, ◌⊎◌, inl, inr, ◌≤◌, ◌≡◌, refl, arith,
  Bool-cases,
}
use nl.Nl80211.Attr
use nl.Netlink.{Netlink, ok, room}
use nl.Reg.{first_byte, second_byte, is_alpha2, is_world_regdom, put_country, handle_reg_set}

-- Two capital letters, or "00".
abbrev pub IsCountry : ℕ → ℕ → Type 0
IsCountry a b = ((65 ≤ a) × (a ≤ 90) × (65 ≤ b) × (b ≤ 90)) ⊎ ((a ≡ 48) × (b ≡ 48))

IsCountry-bytes :
    (w : Bytes)
    → (is_alpha2 w || is_world_regdom w) ≡ true
    → IsCountry (first_byte w) (second_byte w)
IsCountry-bytes w h = elim (Bool-cases (is_alpha2 w)) [
  | inl yes_alpha ↦ inl (ground arith)
  | inr no_alpha ↦ inr (ground arith)
]

module _ (n : Netlink) where
  open n use {Msg, nla_put}

  room-eq-ok : (o : Option Msg) (m' : Msg) → room o ≡ ok m' → o ≡ some m'
  room-eq-ok none m' h = cc
  room-eq-ok (some m) m' h = cc

  put_country-eq-ok :
      (msg m' : Msg) (w : Bytes) (words : List Bytes)
      → put_country n msg w words ≡ ok m'
      → (words ≡ [])
        × (nla_put msg Attr.reg_alpha2 (first_byte w ∷ second_byte w ∷ 0 ∷ []) ≡ some m')
  put_country-eq-ok msg m' w [] h = (refl, room-eq-ok (nla_put msg Attr.reg_alpha2 _) m' h)
  put_country-eq-ok msg m' w (x ∷ words) h = cc

  -- If words are accepted, they are one word, its first two bytes are capital letters or both '0', and
  -- the message has these two bytes and a NUL as its country; nothing is said of the bytes that follow
  -- in the word.
  pub handle_reg_set-IsCountry :
      (msg m' : Msg) (words : List Bytes)
      → handle_reg_set n msg words ≡ ok m'
      → (w : Bytes) × (words ≡ w ∷ [])
        × IsCountry (first_byte w) (second_byte w)
        × (nla_put msg Attr.reg_alpha2 (first_byte w ∷ second_byte w ∷ 0 ∷ []) ≡ some m')
  unfolding handle_reg_set
  handle_reg_set-IsCountry msg m' [] h = cc
  handle_reg_set-IsCountry msg m' (w ∷ words) h =
      elim (Bool-cases (is_alpha2 w || is_world_regdom w)) [
        | inl fits ↦
            let taken : put_country n msg w words ≡ ok m' = rw fits at h in
            let (alone, put) = put_country-eq-ok msg m' w words taken in
            (w, ap (◌∷◌ w) alone, IsCountry-bytes w fits, put)
        | inr other ↦ let refused = (rw other at h) in cc
      ]
