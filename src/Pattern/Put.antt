-- ===== src/Pattern/Put.antt =====
-- A pattern that is read and finds room.
use nl.Base.{◌+◌, List, [], ◌∷◌, ℕ, Bytes, true, some, take, ◌≡◌, refl}
use nl.Nl80211.PktPat
use nl.Netlink.{Netlink, Attrs, nil, blob, nest, u32, ok, put_all}
use nl.Netlink.Laws.{blob-eq-ok, u32-eq-ok, nil-eq-ok}
use nl.Run.{Run, done}
use nl.Util.HexMask.{parsed, parse_hex_mask}
use nl.Pattern.{offset_and, pattern_text, mask_length, put_parts, put_pattern}

-- What a text means: an offset, the bytes with their mask, and their number.
pub record PatternValue : Type 0 where
  pub offset : ℕ
  pub pat : Bytes
  pub mask : Bytes
  pub patlen : ℕ

pub record ReadsPattern (text : Bytes) (v : PatternValue) : Type 0 where
  pub value2 : Bytes
  pub text_is : pattern_text text ≡ offset_and v.offset value2
  pub hex_is : parse_hex_mask true value2 ≡ parsed v.pat v.mask v.patlen

-- The attributes in the nest of a pattern.
abbrev pub part_attrs : PatternValue → Attrs
part_attrs v =
    blob PktPat.mask (take (mask_length v.patlen) v.mask)
      (blob PktPat.pattern (take v.patlen v.pat) (u32 PktPat.offset v.offset nil))

abbrev pub texts : List (Bytes × PatternValue) → List Bytes
texts [] = []
texts ((text, v) ∷ ps) = text ∷ texts ps

abbrev pub IsPattern : Bytes × PatternValue → Type 0
IsPattern (text, v) = ReadsPattern text v

-- Patterns with their numbers behind `patnum`.
abbrev pub patterns_attrs : ℕ → List (Bytes × PatternValue) → Attrs
patterns_attrs patnum [] = nil
patterns_attrs patnum ((text, v) ∷ ps) =
    nest (patnum + 1) (part_attrs v) (patterns_attrs (patnum + 1) ps)

module _ (n : Netlink) where
  open n use {Msg, Nest, nla_nest_end, nla_nest_start}

  put_parts-part_attrs :
      (v : PatternValue) (m m' : Msg)
      → put_all n (part_attrs v) m ≡ ok m'
      → put_parts n v.offset v.pat v.mask v.patlen m ≡ done m'
  unfolding put_parts
  put_parts-part_attrs v m m' h =
      let (m1, mask_put, h1) = blob-eq-ok n _ _ _ m m' h in
      let (m2, pat_put, h2) = blob-eq-ok n _ _ _ m1 m' h1 in
      let (m3, offset_put, h3) = u32-eq-ok n _ _ nil m2 m' h2 in
      rw (mask_put, pat_put, offset_put, nil-eq-ok n m3 m' h3) refl

  -- The pattern is put as its nest.
  pub put_pattern-nest :
      (missing : Run Msg) (patnum : ℕ) (text : Bytes) (v : PatternValue) (m inside filled : Msg)
      (mark : Nest)
      → ReadsPattern text v
      → nla_nest_start m patnum ≡ some (mark, inside)
      → put_all n (part_attrs v) inside ≡ ok filled
      → put_pattern n missing patnum m (pattern_text text) ≡ done (nla_nest_end filled mark)
  unfolding put_pattern
  put_pattern-nest missing patnum text v m inside filled mark r started h =
      rw (r.text_is, r.hex_is, started, put_parts-part_attrs v inside filled h) refl
