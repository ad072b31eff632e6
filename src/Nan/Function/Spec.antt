-- ===== src/Nan/Function/Spec.antt =====
-- The message of a NAN function whose words are in the order of the command's usage.
use nl.Base.{
  ℕ, ◌+◌, true, false, Bytes, Option, none, some, List, [], ◌∷◌, codes, ◌≡◌, refl, if◌then◌else◌,
}
use nl.Libc.{str_eq, atoi, to_u32, tokens}
use nl.Nl80211.NanFunc
use nl.Netlink.{Netlink, Attrs, nil, blob, u32, nest, ok, put_all}
use nl.Netlink.Laws.{blob-eq-ok, u32-eq-ok, nest-eq-ok, nil-eq-ok}
use nl.Run.{done}
use nl.Nan.Filter.{filter_loop, parse_match_filter}
use nl.Nan.Function.{keyword, put_ttl, service_words, srf_words}
use nl.Nan.Function.Options.{opt, opt_attrs, OnValue, keyword-opt, Puts, value_of-opt}

-- What stands behind the information, for a function that is no follow-up.
pub record Service : Type 0 where
  pub ttl : Option Bytes
  pub rx_filter : Option Bytes
  pub tx_filter : Option Bytes

abbrev pub service_texts : Service → List Bytes
service_texts s =
    opt (codes "ttl") s.ttl
      (opt (codes "rx_filter") s.rx_filter (opt (codes "tx_filter") s.tx_filter []))

-- The pieces of a filter, with an empty value for any.
abbrev pub filter_attrs : ℕ → List Bytes → Attrs
filter_attrs i [] = nil
filter_attrs i (f ∷ fs) =
    blob (i + 1) (if str_eq f (codes "*") then [] else f) (filter_attrs (i + 1) fs)

abbrev pub filter_attr : ℕ → Bytes → Attrs → Attrs
filter_attr attr filter xs = nest attr (filter_attrs 0 (tokens b':' filter)) xs

abbrev pub ttl_attr : Bytes → Attrs → Attrs
ttl_attr ttl xs = u32 NanFunc.ttl (to_u32 (atoi ttl)) xs

abbrev pub service_attrs : Service → Attrs → Attrs
service_attrs s xs = opt_attrs ttl_attr s.ttl (
    opt_attrs (filter_attr NanFunc.rx_match_filter) s.rx_filter
      (opt_attrs (filter_attr NanFunc.tx_match_filter) s.tx_filter xs))

abbrev pub Any : Bytes → Type 0
Any value = Unit

pub OnValue-Any : (o : Option Bytes) → OnValue Any o
OnValue-Any none = tt
OnValue-Any (some value) = tt

pub no_keyword : (name : Bytes) → keyword name [] ≡ none
unfolding keyword
no_keyword name = refl

module _ (n : Netlink) (stack mac_addr : Bytes) where
  open n use {Msg}

  filter_loop-filter_attrs :
      (fs : List Bytes) (i : ℕ) (m m' : Msg)
      → put_all n (filter_attrs i fs) m ≡ ok m'
      → filter_loop n m i fs ≡ m'
  unfolding filter_loop
  filter_loop-filter_attrs [] i m m' h = nil-eq-ok n m m' h
  filter_loop-filter_attrs (f ∷ fs) i m m' h =
      let (m1, put, h1) = blob-eq-ok n _ _ _ m m' h in
      rw put (filter_loop-filter_attrs fs (i + 1) m1 m' h1)

  rx-Puts :
      Puts n stack mac_addr Any
        (λ m f. parse_match_filter n f m false)
        (filter_attr NanFunc.rx_match_filter)
  unfolding parse_match_filter
  rx-Puts value xs m m' is h =
      let o = nest-eq-ok n _ _ xs m m' h in
      (
        n.nla_nest_end o.filled o.mark,
        rw (o.started, filter_loop-filter_attrs (tokens b':' value) 0 o.inside o.filled o.inner_put)
            refl,
        o.rest_put,
      )

  tx-Puts :
      Puts n stack mac_addr Any
        (λ m f. parse_match_filter n f m true)
        (filter_attr NanFunc.tx_match_filter)
  unfolding parse_match_filter
  tx-Puts value xs m m' is h =
      let o = nest-eq-ok n _ _ xs m m' h in
      (
        n.nla_nest_end o.filled o.mark,
        rw (o.started, filter_loop-filter_attrs (tokens b':' value) 0 o.inside o.filled o.inner_put)
            refl,
        o.rest_put,
      )

  ttl-Puts : Puts n stack mac_addr Any (put_ttl n stack mac_addr) ttl_attr
  ttl-Puts value xs m m' is h =
      let (m1, put, h1) = u32-eq-ok n _ _ xs m m' h in (m1, rw put refl, h1)

  -- A filter for the tx side is never taken for the words "srf" and three more.
  srf_words-opt :
      (m : Msg) (rx tx : Option Bytes)
      → srf_words n stack mac_addr (m, opt (codes "rx_filter") rx (opt (codes "tx_filter") tx []))
        ≡ done (m, opt (codes "rx_filter") rx (opt (codes "tx_filter") tx []))
  unfolding srf_words
  srf_words-opt m none none = refl
  srf_words-opt m none (some tx) = refl
  srf_words-opt m (some rx) none = refl
  srf_words-opt m (some rx) (some tx) = refl

  pub service_words-service_attrs :
      (s : Service) (xs : Attrs) (m m' : Msg)
      → put_all n (service_attrs s xs) m ≡ ok m'
      → (m1 : Msg) × (service_words n stack mac_addr (m, service_texts s) ≡ done (m1, []))
        × (put_all n xs m1 ≡ ok m')
  unfolding service_words
  service_words-service_attrs s xs m m' h =
      let rx = codes "rx_filter" in
      let tx = codes "tx_filter" in
      let no_tx : keyword (codes "ttl") (opt (codes "tx_filter") s.tx_filter []) ≡ none =
        keyword-opt (codes "ttl") (codes "tx_filter") s.tx_filter [] refl
          (no_keyword (codes "ttl")) in
      let (m1, ttl_put, h1) =
        value_of-opt n stack mac_addr Any (codes "ttl") (put_ttl n stack mac_addr) ttl_attr s.ttl
          (opt (codes "rx_filter") s.rx_filter (opt (codes "tx_filter") s.tx_filter [])) _ m m'
          ttl-Puts (OnValue-Any s.ttl) refl
          (keyword-opt (codes "ttl") (codes "rx_filter") s.rx_filter _ refl no_tx) h in
      let (m2, rx_put, h2) =
        value_of-opt n stack mac_addr Any (codes "rx_filter") _
          (filter_attr NanFunc.rx_match_filter) s.rx_filter (opt (codes "tx_filter") s.tx_filter [])
          _ m1 m' rx-Puts (OnValue-Any s.rx_filter) refl
          (keyword-opt (codes "rx_filter") (codes "tx_filter") s.tx_filter [] refl
            (no_keyword (codes "rx_filter")))
          h1 in
      let (m3, tx_put, h3) =
        value_of-opt n stack mac_addr Any (codes "tx_filter") _
          (filter_attr NanFunc.tx_match_filter) s.tx_filter [] xs m2 m' tx-Puts
          (OnValue-Any s.tx_filter) refl (no_keyword (codes "tx_filter")) h2 in
      (m3, rw (ttl_put, srf_words-opt m1 s.rx_filter s.tx_filter, rx_put) tx_put, h3)
