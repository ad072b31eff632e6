-- ===== src/Nan/Function/Kinds.antt =====
-- The words of a NAN function that depend on its type.
use nl.Base.{
  ℕ, ◌%◌, ◌^◌, Bool, true, false, Bytes, Option, none, some, List, [], ◌∷◌, codes, take, ◌≡◌, refl,
}
use nl.Libc.{str_eq, atoi, or_empty}
use nl.Nl80211.NanFunc
use nl.Netlink.{Netlink, Attrs, blob, u8, flag, ok, put_all}
use nl.Netlink.Laws.{blob-eq-ok, u8-eq-ok, flag-eq-ok}
use nl.Run.{done}
use nl.Util.Mac.{mac_addr_a2n, eth_alen}
use nl.Nan.Function.{
  NanKind, publish, subscribe, follow_up, keyword, is_keyword, behind_flag, publish_type, put_bcast,
  put_flag_attr, put_u8_attr, put_dest, publish_words, kind_words, follow_up_words, last_words,
  flag_of,
}
use nl.Nan.Function.Options.{
  opt, flag_if, opt_attrs, flag_attrs, OnValue, Headed, keyword-opt, keyword-flag_if,
  flag_if-Headed, Puts, PutsFlag, value_of-opt, flag_of-flag_if,
}
use nl.Nan.Function.Spec.{
  Service, service_texts, service_attrs, Any, OnValue-Any, no_keyword, service_words-service_attrs,
}

pub data FuncKind : Type 0 where
  publish_of : (solicited unsolicited bcast : Bool) → Service → FuncKind
  subscribe_of : (active : Bool) → Service → FuncKind
  follow_up_of : (id req_id dest : Option Bytes) → FuncKind

abbrev pub kind_of : FuncKind → NanKind
kind_of (publish_of solicited unsolicited bcast s) = publish
kind_of (subscribe_of active s) = subscribe
kind_of (follow_up_of id req_id dest) = follow_up

-- The words behind the type, in front of others.
abbrev pub kind_texts : FuncKind → List Bytes → List Bytes
kind_texts (publish_of solicited unsolicited bcast s) rest =
    flag_if (codes "solicited") solicited
      (flag_if (codes "unsolicited") unsolicited (flag_if (codes "bcast") bcast rest))
kind_texts (subscribe_of active s) rest = flag_if (codes "active") active rest
kind_texts (follow_up_of id req_id dest) rest = rest

-- The words at the end.
abbrev pub last_texts : FuncKind → List Bytes
last_texts (publish_of solicited unsolicited bcast s) = service_texts s
last_texts (subscribe_of active s) = service_texts s
last_texts (follow_up_of id req_id dest) =
    opt (codes "flw_up_id") id
      (opt (codes "flw_up_req_id") req_id (opt (codes "flw_up_dest") dest []))

abbrev pub flag_attr : ℕ → Attrs → Attrs
flag_attr attr xs = flag attr xs

abbrev pub byte_attr : ℕ → Bytes → Attrs → Attrs
byte_attr attr value xs = u8 attr (atoi value % 2 ^ 8) xs

abbrev pub dest_attr : Bytes → Bytes → Attrs → Attrs
dest_attr mac_addr dest xs =
    blob NanFunc.follow_up_dest (take eth_alen (or_empty (mac_addr_a2n mac_addr dest))) xs

abbrev pub kind_attrs : FuncKind → Attrs → Attrs
kind_attrs (publish_of solicited unsolicited bcast s) xs =
    u8 NanFunc.publish_type (publish_type solicited unsolicited)
      (flag_attrs (flag_attr NanFunc.publish_bcast) bcast xs)
kind_attrs (subscribe_of active s) xs = flag_attrs (flag_attr NanFunc.subscribe_active) active xs
kind_attrs (follow_up_of id req_id dest) xs = xs

abbrev pub last_attrs : Bytes → FuncKind → Attrs → Attrs
last_attrs mac_addr (publish_of solicited unsolicited bcast s) xs = service_attrs s xs
last_attrs mac_addr (subscribe_of active s) xs = service_attrs s xs
last_attrs mac_addr (follow_up_of id req_id dest) xs =
    opt_attrs (byte_attr NanFunc.follow_up_id) id (
      opt_attrs (byte_attr NanFunc.follow_up_req_id) req_id
        (opt_attrs (dest_attr mac_addr) dest xs))

abbrev pub IsMac : Bytes → Bytes → Type 0
IsMac mac_addr dest = (addr : Bytes) × (mac_addr_a2n mac_addr dest ≡ some addr)

-- Only a solicited publish is a broadcast, and the address of a follow-up is one.
abbrev pub IsKind : Bytes → FuncKind → Type 0
IsKind mac_addr (publish_of true unsolicited bcast s) = Unit
IsKind mac_addr (publish_of false unsolicited bcast s) = bcast ≡ false
IsKind mac_addr (subscribe_of active s) = Unit
IsKind mac_addr (follow_up_of id req_id dest) = OnValue (IsMac mac_addr) dest

-- A flag that is tested by hand.
taken-flag_if :
    (name : Bytes) (b : Bool) (rest : List Bytes)
    → Headed rest
    → str_eq name name ≡ true
    → keyword name rest ≡ none
    → (is_keyword (keyword name (flag_if name b rest)) ≡ b)
      × (behind_flag (flag_if name b rest) (keyword name (flag_if name b rest)) ≡ rest)
unfolding keyword
taken-flag_if name false rest h same other = (rw other refl, rw other refl)
taken-flag_if name true [] h same other = elim h [ ]
taken-flag_if name true (x ∷ rest) h same other = (rw same refl, rw same refl)

module _ (n : Netlink) (stack mac_addr : Bytes) where
  open n use {Msg}

  pub flag-PutsFlag :
      (attr : ℕ) → PutsFlag n stack mac_addr (put_flag_attr n stack mac_addr attr) (flag_attr attr)
  flag-PutsFlag attr xs m m' h =
      let (m1, put, h1) = flag-eq-ok n attr xs m m' h in (m1, rw put refl, h1)

  byte-Puts :
      (attr : ℕ) → Puts n stack mac_addr Any (put_u8_attr n stack mac_addr attr) (byte_attr attr)
  byte-Puts attr value xs m m' is h =
      let (m1, put, h1) = u8-eq-ok n _ _ xs m m' h in (m1, rw put refl, h1)

  dest-Puts :
      Puts n stack mac_addr (IsMac mac_addr) (put_dest n stack mac_addr) (dest_attr mac_addr)
  dest-Puts value xs m m' (addr, is) h =
      let (m1, put, h1) = blob-eq-ok n _ _ xs m m' h in
      let put' = put in (m1, rw (is, rw is at put') refl, h1)

  bcast-flag_if :
      (solicited bcast unsolicited : Bool) (s : Service) (rest : List Bytes) (xs : Attrs)
      (m m' : Msg)
      → IsKind mac_addr (publish_of solicited unsolicited bcast s)
      → Headed rest
      → keyword (codes "bcast") rest ≡ none
      → put_all n (flag_attrs (flag_attr NanFunc.publish_bcast) bcast xs) m ≡ ok m'
      → (m1 : Msg) × (flag_of n stack mac_addr
            (codes "bcast")
            (put_bcast n stack mac_addr solicited)
            (m, flag_if (codes "bcast") bcast rest)
          ≡ done (m1, rest))
        × (put_all n xs m1 ≡ ok m')
  bcast-flag_if true bcast unsolicited s rest xs m m' is headed other h =
      flag_of-flag_if n stack mac_addr (codes "bcast") (put_bcast n stack mac_addr true)
        (flag_attr NanFunc.publish_bcast) bcast rest xs m m' (flag-PutsFlag NanFunc.publish_bcast)
        headed refl other h
  bcast-flag_if false true unsolicited s rest xs m m' is headed other h = cc
  bcast-flag_if false false unsolicited s rest xs m m' is headed other h = (m, rw other refl, h)

  pub kind_words-kind_attrs :
      (k : FuncKind) (rest : List Bytes) (xs : Attrs) (m m' : Msg)
      → IsKind mac_addr k
      → Headed rest
      → keyword (codes "solicited") rest ≡ none
      → keyword (codes "unsolicited") rest ≡ none
      → keyword (codes "bcast") rest ≡ none
      → keyword (codes "active") rest ≡ none
      → put_all n (kind_attrs k xs) m ≡ ok m'
      → (m1 : Msg) × (kind_words n stack mac_addr (kind_of k) (m, kind_texts k rest)
          ≡ done (m1, rest))
        × (put_all n xs m1 ≡ ok m')
  unfolding kind_words publish_words
  kind_words-kind_attrs (publish_of solicited unsolicited bcast s) rest xs m m' is headed no_sol
        no_unsol no_bcast no_active h =
      let with_bcast = flag_if (codes "bcast") bcast rest in
      let with_unsol = flag_if (codes "unsolicited") unsolicited with_bcast in
      let bcast_headed = flag_if-Headed (codes "bcast") bcast rest headed in
      let unsol_headed = flag_if-Headed (codes "unsolicited") unsolicited with_bcast bcast_headed in
      let sol = taken-flag_if (codes "solicited") solicited with_unsol unsol_headed refl (
        keyword-flag_if (codes "solicited") (codes "unsolicited") unsolicited with_bcast refl
          (keyword-flag_if (codes "solicited") (codes "bcast") bcast rest refl no_sol)) in
      let unsol =
        taken-flag_if (codes "unsolicited") unsolicited with_bcast bcast_headed refl
          (keyword-flag_if (codes "unsolicited") (codes "bcast") bcast rest refl no_unsol) in
      let (m1, type_put, h1) = u8-eq-ok n _ _ _ m m' h in
      let (m2, bcast_put, h2) =
        bcast-flag_if solicited bcast unsolicited s rest xs m1 m' is headed no_bcast h1 in
      (m2, rw (sol.0, sol.1, unsol.0, unsol.1, type_put) bcast_put, h2)
  kind_words-kind_attrs (subscribe_of active s) rest xs m m' is headed no_sol no_unsol no_bcast
        no_active h =
      flag_of-flag_if n stack mac_addr (codes "active")
        (put_flag_attr n stack mac_addr NanFunc.subscribe_active)
        (flag_attr NanFunc.subscribe_active) active rest xs m m'
        (flag-PutsFlag NanFunc.subscribe_active) headed refl no_active h
  kind_words-kind_attrs (follow_up_of id req_id dest) rest xs m m' is headed no_sol no_unsol
        no_bcast no_active h =
      (m, refl, h)

  pub last_words-last_attrs :
      (k : FuncKind) (xs : Attrs) (m m' : Msg)
      → IsKind mac_addr k
      → put_all n (last_attrs mac_addr k xs) m ≡ ok m'
      → (m1 : Msg) × (last_words n stack mac_addr (kind_of k) (m, last_texts k) ≡ done (m1, []))
        × (put_all n xs m1 ≡ ok m')
  unfolding last_words follow_up_words
  last_words-last_attrs (publish_of solicited unsolicited bcast s) xs m m' is h =
      service_words-service_attrs n stack mac_addr s xs m m' h
  last_words-last_attrs (subscribe_of active s) xs m m' is h =
      service_words-service_attrs n stack mac_addr s xs m m' h
  last_words-last_attrs (follow_up_of id req_id dest) xs m m' is h =
      let with_dest = opt (codes "flw_up_dest") dest [] in
      let with_req = opt (codes "flw_up_req_id") req_id with_dest in
      let (m1, id_put, h1) =
        value_of-opt n stack mac_addr Any (codes "flw_up_id") _ (byte_attr NanFunc.follow_up_id) id
          with_req _ m m' (byte-Puts NanFunc.follow_up_id) (OnValue-Any id) refl
          (keyword-opt (codes "flw_up_id") (codes "flw_up_req_id") req_id with_dest refl (
            keyword-opt (codes "flw_up_id") (codes "flw_up_dest") dest [] refl
              (no_keyword (codes "flw_up_id"))))
          h in
      let (m2, req_put, h2) =
        value_of-opt n stack mac_addr Any (codes "flw_up_req_id") _
          (byte_attr NanFunc.follow_up_req_id) req_id with_dest _ m1 m'
          (byte-Puts NanFunc.follow_up_req_id) (OnValue-Any req_id) refl
          (keyword-opt (codes "flw_up_req_id") (codes "flw_up_dest") dest [] refl
            (no_keyword (codes "flw_up_req_id")))
          h1 in
      let (m3, dest_put, h3) =
        value_of-opt n stack mac_addr (IsMac mac_addr) (codes "flw_up_dest") _ (dest_attr mac_addr)
          dest [] xs m2 m' dest-Puts is refl (no_keyword (codes "flw_up_dest")) h2 in
      (m3, rw (id_put, req_put) dest_put, h3)

service-no_info : (s : Service) → keyword (codes "info") (service_texts s) ≡ none
service-no_info s = keyword-opt _ _ s.ttl _ refl (
    keyword-opt _ _ s.rx_filter _ refl
      (keyword-opt _ _ s.tx_filter [] refl (no_keyword (codes "info"))))

-- "info" is none of the last words.
pub last-no_info : (k : FuncKind) → keyword (codes "info") (last_texts k) ≡ none
last-no_info (publish_of solicited unsolicited bcast s) = service-no_info s
last-no_info (subscribe_of active s) = service-no_info s
last-no_info (follow_up_of id req_id dest) =
    keyword-opt _ _ id _ refl
      (keyword-opt _ _ req_id _ refl (keyword-opt _ _ dest [] refl (no_keyword (codes "info"))))
