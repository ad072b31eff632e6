-- ===== src/Reg.antt =====
-- handle_reg_set of wifi/iw/reg.c: the country of the regulatory domain.
pub mod Country
use nl.Base.{ℕ, Bool, ◌&&◌, ◌||◌, leb, ◌==◌, Bytes, List, [], ◌∷◌, if◌then◌else◌}
use nl.Nl80211.Attr
use nl.Netlink.{Netlink, Result, err, usage, explained, room}

-- A byte above 127 is negative as a `char`, and no letter either.
abbrev pub isalpha_upper : ℕ → Bool
isalpha_upper letter = leb 65 letter && leb letter 90

-- The byte behind a string of one byte is its NUL.
abbrev pub first_byte : Bytes → ℕ
first_byte [] = 0
first_byte (c ∷ cs) = c

abbrev pub second_byte : Bytes → ℕ
second_byte [] = 0
second_byte (c ∷ cs) = first_byte cs

abbrev pub is_alpha2 : Bytes → Bool
is_alpha2 alpha2 = isalpha_upper (first_byte alpha2) && isalpha_upper (second_byte alpha2)

abbrev pub is_world_regdom : Bytes → Bool
is_world_regdom alpha2 = first_byte alpha2 == 48 && second_byte alpha2 == 48

module _ (n : Netlink) where
  open n use {Msg, nla_put}

  -- NLA_PUT_STRING puts the NUL, too.
  abbrev pub put_country : Msg → Bytes → List Bytes → Result Msg
  put_country msg country [] =
      room (nla_put msg Attr.reg_alpha2 (first_byte country ∷ second_byte country ∷ 0 ∷ []))
  put_country msg country (w ∷ words) = err usage

  unfoldable pub handle_reg_set : Msg → List Bytes → Result Msg
  handle_reg_set msg [] = err usage
  handle_reg_set msg (w ∷ words) =
      if is_alpha2 w || is_world_regdom w then put_country msg w words else err explained
