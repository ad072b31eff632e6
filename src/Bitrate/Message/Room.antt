-- ===== src/Bitrate/Message/Room.antt =====
-- The message of `set_bitrates` as a tree of attributes, if there is room for all of them.
use nl.Base.{
  ℕ, Bool, true, false, Bytes, Option, none, some, List, ◌≡◌, refl, Option-cases, inl, inr, ◌∙◌, ap,
  if◌then◌else◌,
}
use nl.Nl80211.TxRate
use nl.Netlink.{enobufs, Netlink, Result, ok, err, ◌>>=◌, room, Attrs, nil, blob, u8, nest, put_all}
use nl.Bitrate.Words.{BandRates}
use nl.Bitrate.Parser.{Plan}
use nl.Bitrate.Message.{
  put_bands, attempt, try_put, try_put_u8, fill_band, fill_band_6, nested, write_plan, has_rates,
  has_rates_6, table_bytes,
}

abbrev blob_if : Bool → ℕ → Bytes → Attrs → Attrs
blob_if have attr v rest = if have then blob attr v rest else rest

abbrev u8_if : Bool → ℕ → ℕ → Attrs → Attrs
u8_if have attr v rest = if have then u8 attr v rest else rest

abbrev nest_if : Bool → ℕ → Attrs → Attrs → Attrs
nest_if have attr inner rest = if have then nest attr inner rest else rest

abbrev pub band_attrs : BandRates → List ℕ → List ℕ → ℕ → ℕ → Attrs
band_attrs b vht he he_gi he_ltf = blob_if b.have_legacy TxRate.legacy b.legacy (
    blob_if b.have_ht_mcs TxRate.ht b.ht_mcs (
      blob_if b.have_vht_mcs TxRate.vht (table_bytes vht) (
        blob_if b.have_he_mcs TxRate.he (table_bytes he) (
          u8_if b.sgi TxRate.gi 1 (
            u8_if b.lgi TxRate.gi 2 (
              u8_if b.has_he_gi TxRate.he_gi he_gi
                (u8_if b.has_he_ltf TxRate.he_ltf he_ltf nil)))))))

abbrev pub band_attrs_6 : BandRates → List ℕ → ℕ → ℕ → Attrs
band_attrs_6 b he he_gi he_ltf =
    blob_if b.have_he_mcs TxRate.he (table_bytes he)
      (u8_if b.has_he_gi TxRate.he_gi he_gi (u8_if b.has_he_ltf TxRate.he_ltf he_ltf nil))

-- One nest for the rates, and in it one for each band that has some.
abbrev pub plan_attrs : ℕ → Plan → Attrs
plan_attrs attr p =
    nest attr
      (nest_if (has_rates p.rates.rates_24) 0
        (band_attrs p.rates.rates_24 p.vht_24 p.he_24 p.he_gi p.rates.he_ltf)
        (nest_if (has_rates p.rates.rates_5) 1
          (band_attrs p.rates.rates_5 p.vht_5 p.he_5 p.he_gi p.rates.he_ltf)
          (nest_if (has_rates_6 p.rates.rates_6) 3
            (band_attrs_6 p.rates.rates_6 p.he_6 p.he_gi p.rates.he_ltf) nil)))
      nil

module _ (n : Netlink) where
  open n use {Msg, nla_put, nla_put_u8, nla_nest_start, nla_nest_end}

  attempted :
      (o : Option Msg) (rest : Attrs) (m m' : Msg)
      → (room o >>= put_all n rest) ≡ ok m'
      → put_all n rest (attempt n m o) ≡ ok m'
  attempted none rest m m' h = absurd cc
  attempted (some m1) rest m m' h = h

  put_blob_if :
      (have : Bool) (attr : ℕ) (v : Bytes) (rest : Attrs) (m m' : Msg)
      → put_all n (blob_if have attr v rest) m ≡ ok m'
      → put_all n rest (try_put n have attr v m) ≡ ok m'
  unfolding put_all
  put_blob_if true attr v rest m m' h = attempted (nla_put m attr v) rest m m' h
  put_blob_if false attr v rest m m' h = h

  put_u8_if :
      (have : Bool) (attr v : ℕ) (rest : Attrs) (m m' : Msg)
      → put_all n (u8_if have attr v rest) m ≡ ok m'
      → put_all n rest (try_put_u8 n have attr v m) ≡ ok m'
  unfolding put_all
  put_u8_if true attr v rest m m' h = attempted (nla_put_u8 m attr v) rest m m' h
  put_u8_if false attr v rest m m' h = h

  put_nil : (m m' : Msg) → put_all n nil m ≡ ok m' → m ≡ m'
  unfolding put_all
  put_nil m m' h = cc

  fill_band-put_all :
      (b : BandRates) (vht he : List ℕ) (gi ltf : ℕ) (m m' : Msg)
      → put_all n (band_attrs b vht he gi ltf) m ≡ ok m'
      → fill_band n b vht he gi ltf m ≡ m'
  unfolding fill_band
  fill_band-put_all b vht he gi ltf m m' h = put_nil _ m' (
      put_u8_if b.has_he_ltf TxRate.he_ltf ltf _ _ m' (
        put_u8_if b.has_he_gi TxRate.he_gi gi _ _ m' (
          put_u8_if b.lgi TxRate.gi 2 _ _ m' (
            put_u8_if b.sgi TxRate.gi 1 _ _ m' (
              put_blob_if b.have_he_mcs TxRate.he (table_bytes he) _ _ m' (
                put_blob_if b.have_vht_mcs TxRate.vht (table_bytes vht) _ _ m' (
                  put_blob_if b.have_ht_mcs TxRate.ht b.ht_mcs _ _ m'
                    (put_blob_if b.have_legacy TxRate.legacy b.legacy _ m m' h))))))))

  fill_band_6-put_all :
      (b : BandRates) (he : List ℕ) (gi ltf : ℕ) (m m' : Msg)
      → put_all n (band_attrs_6 b he gi ltf) m ≡ ok m'
      → fill_band_6 n b he gi ltf m ≡ m'
  unfolding fill_band_6
  fill_band_6-put_all b he gi ltf m m' h = put_nil _ m' (
      put_u8_if b.has_he_ltf TxRate.he_ltf ltf _ _ m' (
        put_u8_if b.has_he_gi TxRate.he_gi gi _ _ m'
          (put_blob_if b.have_he_mcs TxRate.he (table_bytes he) _ m m' h)))

  -- The intermediate message of a successful bind.
  >>=-eq-ok :
      (r : Result Msg) (f : Msg → Result Msg) (m' : Msg)
      → (r >>= f) ≡ ok m'
      → (m1 : Msg) × (r ≡ ok m1) × (f m1 ≡ ok m')
  >>=-eq-ok (ok m1) f m' h = (m1, refl, h)
  >>=-eq-ok (err e) f m' h = absurd cc

  put_nest_if :
      (have : Bool) (attr : ℕ) (inner rest : Attrs) (fill : Msg → Msg) (m m' : Msg)
      → ((a a' : Msg) → put_all n inner a ≡ ok a' → fill a ≡ a')
      → put_all n (nest_if have attr inner rest) m ≡ ok m'
      → (m1 : Msg) × (nested n have attr fill m ≡ ok m1) × (put_all n rest m1 ≡ ok m')
  unfolding put_all
  put_nest_if false attr inner rest fill m m' fills h = (m, refl, h)
  put_nest_if true attr inner rest fill m m' fills h = elim (Option-cases (nla_nest_start m attr)) [
    | inl full ↦ let no_room : err enobufs ≡ ok m' = rw full at h in absurd cc
    | inr ((s, a), started) ↦
        let opened : (put_all n inner a >>= λ a'. put_all n rest (nla_nest_end a' s)) ≡ ok m' =
          rw started at h in
        let (a', put, after) = >>=-eq-ok (put_all n inner a) _ m' opened in
        (nla_nest_end a' s, rw started (ap (λ x. ok (nla_nest_end x s)) (fills a a' put)), after)
  ]

  -- What stands in the nest of the rates.
  write_bands :
      (p : Plan) (m m' : Msg)
      → put_all n
          (nest_if
            (has_rates p.rates.rates_24)
            0
            (band_attrs p.rates.rates_24 p.vht_24 p.he_24 p.he_gi p.rates.he_ltf)
            (nest_if
              (has_rates p.rates.rates_5)
              1
              (band_attrs p.rates.rates_5 p.vht_5 p.he_5 p.he_gi p.rates.he_ltf)
              (nest_if
                (has_rates_6 p.rates.rates_6)
                3
                (band_attrs_6 p.rates.rates_6 p.he_6 p.he_gi p.rates.he_ltf)
                nil)))
          m
        ≡ ok m'
      → put_bands n p m ≡ ok m'
  unfolding put_bands
  write_bands p m m' h =
      let r = p.rates in
      let (m24, put_24, h5) =
        put_nest_if (has_rates r.rates_24) 0 _ _
          (fill_band n r.rates_24 p.vht_24 p.he_24 p.he_gi r.he_ltf) m m'
          (fill_band-put_all r.rates_24 p.vht_24 p.he_24 p.he_gi r.he_ltf) h in
      let (m5, put_5, h6) =
        put_nest_if (has_rates r.rates_5) 1 _ _
          (fill_band n r.rates_5 p.vht_5 p.he_5 p.he_gi r.he_ltf) m24 m'
          (fill_band-put_all r.rates_5 p.vht_5 p.he_5 p.he_gi r.he_ltf) h5 in
      let (m6, put_6, end) =
        put_nest_if (has_rates_6 r.rates_6) 3 _ _ (fill_band_6 n r.rates_6 p.he_6 p.he_gi r.he_ltf)
          m5 m' (fill_band_6-put_all r.rates_6 p.he_6 p.he_gi r.he_ltf) h6 in
      rw put_24 (rw put_5 (put_6 ∙ ap (λ x. ok x) (put_nil m6 m' end)))

  -- If all the attributes of the plan find room, `set_bitrates` writes just those: one nest, in it one
  -- for each band that was named, and in those the rates, the tables, and the guard intervals.
  pub write_plan-put_all :
      (attr : ℕ) (p : Plan) (m m' : Msg)
      → put_all n (plan_attrs attr p) m ≡ ok m'
      → write_plan n attr p m ≡ ok m'
  unfolding write_plan put_all
  write_plan-put_all attr p m m' h = elim (Option-cases (nla_nest_start m attr)) [
    | inl full ↦ let no_room : err enobufs ≡ ok m' = rw full at h in absurd cc
    | inr ((s, a), started) ↦
        let opened : (put_all n _ a >>= λ a'. ok (nla_nest_end a' s)) ≡ ok m' = rw started at h in
        let (a', put, closed) = >>=-eq-ok (put_all n _ a) _ m' opened in
        rw started (rw (write_bands p a a' put) closed)
  ]
