-- ===== src/Bitrate/Message.antt =====
-- The message of `set_bitrates` in wifi/iw/bitrate.c. What `nla_put` returns is not tested there, so an
-- attribute that finds no room is left out. `handle_bitrates` passes NL80211_ATTR_TX_RATES.
pub mod Room
use nl.Base.{
  ℕ, ◌/◌, ◌%◌, Bool, true, false, ◌||◌, Bytes, Option, none, some, List, [], ◌∷◌, ◌==◌,
  if◌then◌else◌,
}
use nl.Nl80211.Attr
use nl.Nl80211.TxRate
use nl.Netlink.{Netlink, Result, ok, err, ◌>>=◌, room, einval, usage}
use nl.Bitrate.Words.{Floats, BandRates}
use nl.Bitrate.Parser.{Plan, Planned, plan, return_1, return_einval, faults, plan_bitrates}

-- A table in memory, on a little-endian machine.
abbrev pub table_bytes : List ℕ → Bytes
table_bytes [] = []
table_bytes (m ∷ ms) = m % 256 ∷ m / 256 ∷ table_bytes ms

-- 2 and 5 GHz.
abbrev pub has_rates : BandRates → Bool
has_rates b =
    b.have_legacy || b.have_ht_mcs || b.have_vht_mcs || b.have_he_mcs || b.sgi || b.lgi
    || b.has_he_gi || b.has_he_ltf

abbrev pub has_rates_6 : BandRates → Bool
has_rates_6 b = b.have_he_mcs || b.has_he_gi || b.has_he_ltf

-- The returned code with the message, or a fault of the parser.
pub data Outcome {ℓ} (A : Type ℓ) : Type ℓ where
  returned : Result A → Outcome A
  faulted : Outcome A

module _ (n : Netlink) where
  open n use {Msg, nla_put, nla_put_u8, nla_nest_start, nla_nest_end}

  abbrev pub attempt : Msg → Option Msg → Msg
  attempt msg none = msg
  attempt msg (some m) = m

  abbrev pub try_put : Bool → ℕ → Bytes → Msg → Msg
  try_put have attr v msg = if have then attempt msg (nla_put msg attr v) else msg

  abbrev pub try_put_u8 : Bool → ℕ → ℕ → Msg → Msg
  try_put_u8 have attr v msg = if have then attempt msg (nla_put_u8 msg attr v) else msg

  -- NL80211_TXRATE_FORCE_SGI is 1, NL80211_TXRATE_FORCE_LGI is 2.
  unfoldable pub fill_band : BandRates → List ℕ → List ℕ → ℕ → ℕ → Msg → Msg
  fill_band b vht he he_gi he_ltf msg =
      let m1 = try_put b.have_legacy TxRate.legacy b.legacy msg in
      let m2 = try_put b.have_ht_mcs TxRate.ht b.ht_mcs m1 in
      let m3 = try_put b.have_vht_mcs TxRate.vht (table_bytes vht) m2 in
      let m4 = try_put b.have_he_mcs TxRate.he (table_bytes he) m3 in
      let m5 = try_put_u8 b.sgi TxRate.gi 1 m4 in
      let m6 = try_put_u8 b.lgi TxRate.gi 2 m5 in
      let m7 = try_put_u8 b.has_he_gi TxRate.he_gi he_gi m6 in
      try_put_u8 b.has_he_ltf TxRate.he_ltf he_ltf m7

  unfoldable pub fill_band_6 : BandRates → List ℕ → ℕ → ℕ → Msg → Msg
  fill_band_6 b he he_gi he_ltf msg =
      let m1 = try_put b.have_he_mcs TxRate.he (table_bytes he) msg in
      let m2 = try_put_u8 b.has_he_gi TxRate.he_gi he_gi m1 in
      try_put_u8 b.has_he_ltf TxRate.he_ltf he_ltf m2

  abbrev pub nested : Bool → ℕ → (Msg → Msg) → Msg → Result Msg
  nested false attr fill msg = ok msg
  nested true attr fill msg =
      room (nla_nest_start msg attr) >>= λ s. ok (nla_nest_end (fill s.1) s.0)

  -- NL80211_BAND_2GHZ is 0, NL80211_BAND_5GHZ is 1, NL80211_BAND_6GHZ is 3.
  unfoldable pub put_bands : Plan → Msg → Result Msg
  put_bands p msg =
      nested (has_rates p.rates.rates_24) 0
        (fill_band p.rates.rates_24 p.vht_24 p.he_24 p.he_gi p.rates.he_ltf) msg
      >>= λ m24.
          nested (has_rates p.rates.rates_5) 1
            (fill_band p.rates.rates_5 p.vht_5 p.he_5 p.he_gi p.rates.he_ltf) m24
          >>= λ m5.
              nested (has_rates_6 p.rates.rates_6) 3
                (fill_band_6 p.rates.rates_6 p.he_6 p.he_gi p.rates.he_ltf) m5

  unfoldable pub write_plan : ℕ → Plan → Msg → Result Msg
  write_plan attr p msg =
      room (nla_nest_start msg attr) >>= λ s. put_bands p s.1 >>= λ m. ok (nla_nest_end m s.0)

  abbrev pub returns : ℕ → Result Msg → Result (ℕ × Msg)
  returns ret r = r >>= λ m. ok (ret, m)

  abbrev pub write_planned : ℕ → Msg → Planned → Outcome (ℕ × Msg)
  write_planned attr msg (plan p) = returned (returns p.ret (write_plan attr p msg))
  write_planned attr msg return_1 = returned (err usage)
  write_planned attr msg return_einval = returned (err einval)
  write_planned attr msg faults = faulted

  unfoldable pub set_bitrates : Floats → Msg → List Bytes → ℕ → Outcome (ℕ × Msg)
  set_bitrates f msg argv attr =
      write_planned attr msg (plan_bitrates f (attr == Attr.tx_rates) argv)

  unfoldable pub handle_bitrates : Floats → Msg → List Bytes → Outcome (ℕ × Msg)
  handle_bitrates f msg argv = set_bitrates f msg argv Attr.tx_rates
