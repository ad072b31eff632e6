-- ===== src/Nan/Function.antt =====
-- handle_nan_add_func of wifi/iw/nan.c. `nlmsg_alloc` is taken to succeed.
pub mod Options
pub mod Spec
pub mod Kinds
pub mod Message
use nl.Base.{
  ℕ, ◌%◌, ◌^◌, Bool, true, false, bit_or, Bytes, Option, none, some, List, [], ◌∷◌, codes, take,
  replicate, if◌then◌else◌,
}
use nl.Libc.{str_eq, atoi, to_u32}
use nl.Nl80211.Attr
use nl.Nl80211.NanFunc
use nl.Nl80211.NanType
use nl.Nl80211.NanPublish
use nl.Netlink.{Netlink, ok, err, enobufs, einval}
use nl.Run.{Run, done, refuse, fault, ◌>>=◌, put_or}
use nl.Util.Mac.{mac_addr_a2n, eth_alen}
use nl.Nan.Sha256.{compute_service_id}
use nl.Nan.Filter.{parse_srf, parse_match_filter}
use nl.Scan.Request.{kept}

pub data NanKind : Type 0 where
  publish subscribe follow_up : NanKind

abbrev pub as_kind : Bytes → Option NanKind
as_kind w =
    if str_eq w (codes "publish")
    then some publish
    else if str_eq w (codes "subscribe")
    then some subscribe
    else if str_eq w (codes "followup")
    then some follow_up
    else none

abbrev pub kind_value : NanKind → ℕ
kind_value publish = NanType.publish
kind_value subscribe = NanType.subscribe
kind_value follow_up = NanType.follow_up

-- `argc > 1 && strcmp(argv[0], name) == 0`, with the word behind the name and the rest.
unfoldable pub keyword : Bytes → List Bytes → Option (Bytes × List Bytes)
keyword name [] = none
keyword name (w ∷ []) = none
keyword name (w ∷ x ∷ words) = if str_eq w name then some (x, words) else none

abbrev pub is_keyword : Option (Bytes × List Bytes) → Bool
is_keyword none = false
is_keyword (some r) = true

-- The words behind a name that takes no value.
abbrev pub behind_flag : List Bytes → Option (Bytes × List Bytes) → List Bytes
behind_flag words none = words
behind_flag words (some (x, rest)) = x ∷ rest

abbrev pub service_bytes : Option Bytes → Bytes
service_bytes none = replicate 6 0
service_bytes (some md_value) = md_value

abbrev pub publish_type : Bool → Bool → ℕ
publish_type solicited unsolicited =
    bit_or (if solicited then NanPublish.solicited_publish else 0)
      (if unsolicited then NanPublish.unsolicited_publish else 0)

-- `stack` and `mac_addr` are what buffers on the stack hold at first.
module _ (n : Netlink) (stack mac_addr : Bytes) where
  open n use {Msg, nla_put, nla_put_u8, nla_put_u32, nla_put_flag, nlmsg_alloc, nla_put_nested}

  -- The attributes of the function and the words that are left.
  abbrev pub Left : Type 0
  Left = Msg × List Bytes

  abbrev pub with_value :
      Msg → List Bytes → (Bytes → Run Msg) → Option (Bytes × List Bytes) → Run Left
  with_value m words put none = done (m, words)
  with_value m words put (some (value, rest)) = put value >>= λ m'. done (m', rest)

  -- A name with its value, if it stands there.
  abbrev pub value_of : Bytes → (Msg → Bytes → Run Msg) → Left → Run Left
  value_of name put (m, words) = with_value m words (put m) (keyword name words)

  abbrev pub with_flag : Msg → List Bytes → Run Msg → Option (Bytes × List Bytes) → Run Left
  with_flag m words put none = done (m, words)
  with_flag m words put (some (x, rest)) = put >>= λ m'. done (m', x ∷ rest)

  abbrev pub flag_of : Bytes → (Msg → Run Msg) → Left → Run Left
  flag_of name put (m, words) = with_flag m words (put m) (keyword name words)

  abbrev pub put_flag_attr : ℕ → Msg → Run Msg
  put_flag_attr attr m = put_or enobufs (nla_put_flag m attr)

  abbrev pub put_u8_attr : ℕ → Msg → Bytes → Run Msg
  put_u8_attr attr m value = put_or enobufs (nla_put_u8 m attr (atoi value % 2 ^ 8))

  -- Only a solicited publish may be a broadcast.
  abbrev pub put_bcast : Bool → Msg → Run Msg
  put_bcast solicited m = if solicited then put_flag_attr NanFunc.publish_bcast m else refuse einval

  abbrev pub publish_last : Bool → Msg → List Bytes → Option (Bytes × List Bytes) → Run Left
  publish_last solicited m words unsolicited =
      put_or enobufs
        (nla_put_u8 m NanFunc.publish_type (publish_type solicited (is_keyword unsolicited)))
      >>= λ m'. flag_of (codes "bcast") (put_bcast solicited) (m', behind_flag words unsolicited)

  abbrev pub publish_next : Msg → List Bytes → Option (Bytes × List Bytes) → Run Left
  publish_next m words solicited =
      let words' = behind_flag words solicited in
      publish_last (is_keyword solicited) m words' (keyword (codes "unsolicited") words')

  unfoldable pub publish_words : Left → Run Left
  publish_words (m, words) = publish_next m words (keyword (codes "solicited") words)

  unfoldable pub kind_words : NanKind → Left → Run Left
  kind_words publish s = publish_words s
  kind_words subscribe s = flag_of (codes "active") (put_flag_attr NanFunc.subscribe_active) s
  kind_words follow_up s = done s

  abbrev pub put_name : Msg → Option (Bytes × List Bytes) → Run Left
  put_name m none = refuse einval
  put_name m (some (name, rest)) =
      put_or enobufs
        (nla_put m NanFunc.service_id (take 6 (service_bytes (compute_service_id stack name))))
      >>= λ m'. done (m', rest)

  unfoldable pub name_word : Left → Run Left
  name_word (m, words) = put_name m (keyword (codes "name") words)

  abbrev pub put_info : Msg → Bytes → Run Msg
  put_info m info = put_or enobufs (nla_put m NanFunc.service_info info)

  abbrev pub kept_dest : Msg → Option Bytes → Run Msg
  kept_dest m none = refuse enobufs
  kept_dest m (some addr) = done (kept n m (nla_put m NanFunc.follow_up_dest (take eth_alen addr)))

  abbrev pub put_dest : Msg → Bytes → Run Msg
  put_dest m dest = kept_dest m (mac_addr_a2n mac_addr dest)

  unfoldable pub follow_up_words : Left → Run Left
  follow_up_words s = value_of (codes "flw_up_id") (put_u8_attr NanFunc.follow_up_id) s >>= λ s1.
      value_of (codes "flw_up_req_id") (put_u8_attr NanFunc.follow_up_req_id) s1 >>= λ s2.
      value_of (codes "flw_up_dest") put_dest s2

  abbrev pub put_ttl : Msg → Bytes → Run Msg
  put_ttl m ttl = put_or enobufs (nla_put_u32 m NanFunc.ttl (to_u32 (atoi ttl)))

  -- Every failure of `parse_srf` but a fault comes to -EINVAL.
  abbrev pub srf_result : Run Left → Run Left
  srf_result none = fault
  srf_result (some (err code)) = refuse einval
  srf_result (some (ok s)) = done s

  -- Three words at least stand behind "srf".
  unfoldable pub srf_words : Left → Run Left
  srf_words (m, w ∷ x ∷ y ∷ z ∷ words) =
      if str_eq w (codes "srf")
      then srf_result (parse_srf n mac_addr m (x ∷ y ∷ z ∷ words))
      else done (m, w ∷ x ∷ y ∷ z ∷ words)
  srf_words (m, w ∷ x ∷ y ∷ []) = done (m, w ∷ x ∷ y ∷ [])
  srf_words (m, w ∷ x ∷ []) = done (m, w ∷ x ∷ [])
  srf_words (m, w ∷ []) = done (m, w ∷ [])
  srf_words (m, []) = done (m, [])

  unfoldable pub service_words : Left → Run Left
  service_words s = value_of (codes "ttl") put_ttl s >>= λ s1. srf_words s1 >>= λ s2.
      value_of (codes "rx_filter") (λ m f. parse_match_filter n f m false) s2 >>= λ s3.
      value_of (codes "tx_filter") (λ m f. parse_match_filter n f m true) s3

  unfoldable pub last_words : NanKind → Left → Run Left
  last_words publish s = service_words s
  last_words subscribe s = service_words s
  last_words follow_up s = follow_up_words s

  -- `register_handler` is about the answer.
  abbrev pub finish_func : Msg → Left → Run Msg
  finish_func msg (func_attrs, []) = done (kept n msg (nla_put_nested msg Attr.nan_func func_attrs))
  finish_func msg (func_attrs, w ∷ words) = refuse einval

  -- The words behind the type.
  unfoldable pub func_words : Msg → NanKind → Left → Run Msg
  func_words msg kind s = kind_words kind s >>= λ s1.
      flag_of (codes "close_range") (put_flag_attr NanFunc.close_range) s1 >>= λ s2.
      name_word s2 >>= λ s3.
      value_of (codes "info") put_info s3 >>= λ s4. last_words kind s4 >>= finish_func msg

  abbrev pub with_kind : Msg → List Bytes → Option NanKind → Run Msg
  with_kind msg words none = refuse einval
  with_kind msg words (some kind) =
      put_or enobufs (nla_put_u8 nlmsg_alloc NanFunc.type (kind_value kind)) >>= λ m.
      func_words msg kind (m, words)

  abbrev pub with_type : Msg → Option (Bytes × List Bytes) → Run Msg
  with_type msg none = refuse einval
  with_type msg (some (w, words)) = with_kind msg words (as_kind w)

  unfoldable pub handle_nan_add_func : Msg → List Bytes → Run Msg
  handle_nan_add_func msg words = with_type msg (keyword (codes "type") words)
