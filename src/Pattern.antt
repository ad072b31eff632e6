-- ===== src/Pattern.antt =====
-- A packet pattern with its offset, as handle_coalesce_enable of wifi/iw/coalesce.c and
-- handle_wowlan_enable of wifi/iw/wowlan.c read it and put it.
pub mod Put
use nl.Base.{ℕ, ◌+◌, ◌/◌, true, Bytes, Option, none, some, take}
use nl.Libc.{strtok}
use nl.Nl80211.PktPat
use nl.Netlink.{Netlink, usage, enobufs}
use nl.Run.{Run, done, refuse, fault, ◌>>=◌, put_or}
use nl.Util.HexMask.{HexResult, parsed, rejected, overrun, out_of_fuel, parse_hex_mask}
use nl.Scan.Request.{whole_number}

-- The text is no value, it has an offset that is no number, or it is an offset and bytes.
pub data PatternText : Type 0 where
  no_value bad_offset : PatternText
  offset_and : ℕ → Bytes → PatternText

abbrev pub with_offset : Option ℕ → Bytes → PatternText
with_offset none value2 = bad_offset
with_offset (some pkt_offset) value2 = offset_and pkt_offset value2

abbrev pub second_value : Bytes → Option (Bytes × Bytes) → PatternText
second_value value1 none = offset_and 0 value1
second_value value1 (some (value2, rest)) = with_offset (whole_number value1) value2

abbrev pub first_value : Option (Bytes × Bytes) → PatternText
first_value none = no_value
first_value (some (value1, rest)) = second_value value1 (strtok b'+' rest)

unfoldable pub pattern_text : Bytes → PatternText
pattern_text s = first_value (strtok b'+' s)

-- `DIV_ROUND_UP(patlen, 8)`
abbrev pub mask_length : ℕ → ℕ
mask_length patlen = (patlen + 7) / 8

module _ (n : Netlink) where
  open n use {Msg, Nest, nla_put, nla_put_u32, nla_nest_start, nla_nest_end}

  unfoldable pub put_parts : ℕ → Bytes → Bytes → ℕ → Msg → Run Msg
  put_parts pkt_offset pat mask patlen msg =
      put_or enobufs (nla_put msg PktPat.mask (take (mask_length patlen) mask)) >>= λ m1.
      put_or enobufs (nla_put m1 PktPat.pattern (take patlen pat)) >>= λ m2.
      put_or enobufs (nla_put_u32 m2 PktPat.offset pkt_offset)

  -- The nest of a pattern. Nobody tests what `nla_nest_start` returns, so a nest that was not started is
  -- ended at a null pointer, if the rest still finds room.
  abbrev pub put_nested : ℕ → Bytes → Bytes → ℕ → Msg → Option (Nest × Msg) → Run Msg
  put_nested pkt_offset pat mask patlen msg none =
      put_parts pkt_offset pat mask patlen msg >>= λ m. fault
  put_nested pkt_offset pat mask patlen msg (some (nest, m)) =
      put_parts pkt_offset pat mask patlen m >>= λ m'. done (nla_nest_end m' nest)

  abbrev pub put_hex : ℕ → ℕ → Msg → HexResult → Run Msg
  put_hex patnum pkt_offset msg (parsed pat mask patlen) =
      put_nested pkt_offset pat mask patlen msg (nla_nest_start msg patnum)
  put_hex patnum pkt_offset msg rejected = refuse usage
  put_hex patnum pkt_offset msg overrun = fault
  put_hex patnum pkt_offset msg out_of_fuel = fault

  -- A pattern that was read, under a number; `missing` is what the caller does without a value.
  unfoldable pub put_pattern : (missing : Run Msg) → ℕ → Msg → PatternText → Run Msg
  put_pattern missing patnum msg no_value = missing
  put_pattern missing patnum msg bad_offset = refuse usage
  put_pattern missing patnum msg (offset_and pkt_offset value2) =
      put_hex patnum pkt_offset msg (parse_hex_mask true value2)
