-- ===== src/Nan/Function/Message.antt =====
-- The message that handle_nan_add_func makes of a function.
use nl.Base.{
  ℕ, Bool, false, Bytes, Option, none, some, List, [], ◌∷◌, codes, take, length, ◌≡◌, refl, ap, suc,
  zero,
}
use nl.Libc.{str_eq}
use nl.Nl80211.Attr
use nl.Nl80211.NanFunc
use nl.Netlink.{Netlink, Attrs, nil, blob, u8, ok, put_all}
use nl.Netlink.Laws.{blob-eq-ok, u8-eq-ok, nil-eq-ok}
use nl.Run.{done}
use nl.Nan.Sha256.Blocks.{digest}
use nl.Nan.Sha256.Digest.{compute_service_id-digest}
use nl.Nan.Function.{
  as_kind, kind_value, keyword, put_flag_attr, put_info, name_word, func_words, handle_nan_add_func,
}
use nl.Nan.Function.Options.{
  opt, flag_if, opt_attrs, flag_attrs, Headed, keyword-flag_if, flag_if-Headed, Puts, value_of-opt,
  flag_of-flag_if,
}
use nl.Nan.Function.Spec.{Any, OnValue-Any}
use nl.Nan.Function.Kinds.{
  FuncKind, publish_of, subscribe_of, follow_up_of, kind_of, kind_texts, last_texts, kind_attrs,
  last_attrs, IsKind, flag_attr, flag-PutsFlag, kind_words-kind_attrs, last_words-last_attrs,
  last-no_info,
}

pub record Func : Type 0 where
  pub kind : FuncKind
  pub close_range : Bool
  pub name : Bytes
  pub info : Option Bytes

abbrev pub kind_text : FuncKind → Bytes
kind_text (publish_of solicited unsolicited bcast s) = codes "publish"
kind_text (subscribe_of active s) = codes "subscribe"
kind_text (follow_up_of id req_id dest) = codes "followup"

-- The words for the name and what follows it.
abbrev pub named_texts : Func → List Bytes
named_texts f = codes "name" ∷ f.name ∷ opt (codes "info") f.info (last_texts f.kind)

abbrev pub func_texts : Func → List Bytes
func_texts f =
    codes "type"
    ∷ kind_text f.kind
    ∷ kind_texts f.kind (flag_if (codes "close_range") f.close_range (named_texts f))

abbrev pub info_attr : Bytes → Attrs → Attrs
info_attr info xs = blob NanFunc.service_info info xs

abbrev pub func_attrs : Bytes → Func → Attrs
func_attrs mac_addr f = u8 NanFunc.type (kind_value (kind_of f.kind)) (
    kind_attrs f.kind (
      flag_attrs (flag_attr NanFunc.close_range) f.close_range (
        blob NanFunc.service_id (take 6 (digest f.name))
          (opt_attrs info_attr f.info (last_attrs mac_addr f.kind nil)))))

take-take : (k : ℕ) (xs : Bytes) → take k (take k xs) ≡ take k xs
take-take zero xs = refl
take-take (suc k) [] = refl
take-take (suc k) (x ∷ xs) = ap (◌∷◌ x) (take-take k xs)

as_kind-kind_text : (k : FuncKind) → as_kind (kind_text k) ≡ some (kind_of k)
as_kind-kind_text (publish_of solicited unsolicited bcast s) = refl
as_kind-kind_text (subscribe_of active s) = refl
as_kind-kind_text (follow_up_of id req_id dest) = refl

type_word :
    (w : Bytes) (words : List Bytes)
    → keyword (codes "type") (codes "type" ∷ w ∷ words) ≡ some (w, words)
unfolding keyword
type_word w words = refl

-- A word that stands before the name is none of those behind it.
before_name :
    (word : Bytes) (f : Func)
    → str_eq (codes "name") word ≡ false
    → keyword word (named_texts f) ≡ none
unfolding keyword
before_name word f ne = rw ne refl

module _ (n : Netlink) (stack mac_addr : Bytes) (stack_size : length stack ≡ 64) where
  open n use {Msg, nlmsg_alloc, nla_put_nested}

  info-Puts : Puts n stack mac_addr Any (put_info n stack mac_addr) info_attr
  info-Puts value xs m m' is h =
      let (m1, put, h1) = blob-eq-ok n _ _ xs m m' h in (m1, rw put refl, h1)

  name_word-digest :
      (name : Bytes) (rest : List Bytes) (xs : Attrs) (m m' : Msg)
      → put_all n (blob NanFunc.service_id (take 6 (digest name)) xs) m ≡ ok m'
      → (m1 : Msg) × (name_word n stack mac_addr (m, codes "name" ∷ name ∷ rest) ≡ done (m1, rest))
        × (put_all n xs m1 ≡ ok m')
  unfolding name_word keyword
  name_word-digest name rest xs m m' h =
      let (m1, put, h1) = blob-eq-ok n _ _ xs m m' h in
      let id = compute_service_id-digest stack name stack_size in
      (m1, rw (id, take-take 6 (digest name), put) refl, h1)

  func_words-func_attrs :
      (f : Func) (msg m func m' : Msg)
      → IsKind mac_addr f.kind
      → put_all n
          (kind_attrs f.kind (
            flag_attrs (flag_attr NanFunc.close_range) f.close_range (
              blob NanFunc.service_id
                (take 6 (digest f.name))
                (opt_attrs info_attr f.info (last_attrs mac_addr f.kind nil)))))
          m
        ≡ ok func
      → nla_put_nested msg Attr.nan_func func ≡ some m'
      → func_words n stack mac_addr msg
          (kind_of f.kind)
          (m, kind_texts f.kind (flag_if (codes "close_range") f.close_range (named_texts f)))
        ≡ done m'
  unfolding func_words
  func_words-func_attrs f msg m func m' is h nested =
      let close = flag_if (codes "close_range") f.close_range (named_texts f) in
      let headed : Headed (named_texts f) = tt in
      let (m1, kind_put, h1) =
        kind_words-kind_attrs n stack mac_addr f.kind close _ m func is
          (flag_if-Headed (codes "close_range") f.close_range (named_texts f) headed)
          (keyword-flag_if _ _ f.close_range _ refl (before_name (codes "solicited") f refl))
          (keyword-flag_if _ _ f.close_range _ refl (before_name (codes "unsolicited") f refl))
          (keyword-flag_if _ _ f.close_range _ refl (before_name (codes "bcast") f refl))
          (keyword-flag_if _ _ f.close_range _ refl (before_name (codes "active") f refl)) h in
      let (m2, close_put, h2) =
        flag_of-flag_if n stack mac_addr (codes "close_range")
          (put_flag_attr n stack mac_addr NanFunc.close_range) (flag_attr NanFunc.close_range)
          f.close_range (named_texts f) _ m1 func
          (flag-PutsFlag n stack mac_addr NanFunc.close_range) headed refl
          (before_name (codes "close_range") f refl) h1 in
      let (m3, name_put, h3) =
        name_word-digest f.name (opt (codes "info") f.info (last_texts f.kind)) _ m2 func h2 in
      let (m4, info_put, h4) =
        value_of-opt n stack mac_addr Any (codes "info") (put_info n stack mac_addr) info_attr
          f.info (last_texts f.kind) _ m3 func info-Puts (OnValue-Any f.info) refl
          (last-no_info f.kind) h3 in
      let (m5, last_put, h5) = last_words-last_attrs n stack mac_addr f.kind nil m4 func is h4 in
      rw (kind_put, close_put, name_put, info_put, last_put, nil-eq-ok n m5 func h5, nested) refl

  -- The words of a function in the order of the command's usage, without a service response filter,
  -- make a message with the function as one attribute, if its attributes find room: the type, what
  -- belongs to it, the flag for close range, the first six bytes of the SHA-256 digest of the name, the
  -- information, and for a publish or subscribe the time to live and the filters, each with its
  -- pieces under the numbers from 1 and an empty piece for "*", or for a follow-up its
  -- identities and destination; where only a solicited publish is a broadcast, and the
  -- destination is an address.
  pub handle_nan_add_func-func_attrs :
      (f : Func) (msg func m' : Msg)
      → IsKind mac_addr f.kind
      → put_all n (func_attrs mac_addr f) nlmsg_alloc ≡ ok func
      → nla_put_nested msg Attr.nan_func func ≡ some m'
      → handle_nan_add_func n stack mac_addr msg (func_texts f) ≡ done m'
  unfolding handle_nan_add_func
  handle_nan_add_func-func_attrs f msg func m' is h nested =
      let (m1, type_put, h1) = u8-eq-ok n _ _ _ nlmsg_alloc func h in
      rw
        (
          type_word (kind_text f.kind)
              (kind_texts f.kind (flag_if (codes "close_range") f.close_range (named_texts f))),
          as_kind-kind_text f.kind,
          type_put,
        )
        (func_words-func_attrs f msg m1 func m' is h1 nested)
