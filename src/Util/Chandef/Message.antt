-- ===== src/Util/Chandef/Message.antt =====
-- The message that `put_chandef` builds, and what HT40+ and HT40- on the command line come to there.
use nl.Base.{
  ◌||◌, suc, length, [], ℕ, ◌+◌, ◌<◌, ◌^◌, ◌-◌, Bool, true, false, ◌≡◌, refl, Bytes, List, ◌∷◌,
  some, arith, if◌then◌else◌, ◌==◌, ltb, Bool-cases, inl, inr, codes, ◌∙◌, ap,
}
use nl.Nl80211.Attr
use nl.Netlink.{Netlink, Result, ok, err, ◌>>=◌, room, Attrs, nil, u32, put_all, >>=_cong}
use nl.Util.Channel.{ChanWidth, width_20_noht, width_20, width_40, get_cf1}
use nl.Util.Chandef.{
  at_out, outcome, Chandef, put_chandef, put_channel_type, width_value, parse_freqchan, parse_words,
  find_mode, select_mode, read_freq, control_frequency,
}

abbrev pub channel_type_attrs : Chandef → ChanWidth → Attrs → Attrs
channel_type_attrs c width_20_noht rest = u32 Attr.wiphy_channel_type 0 rest
channel_type_attrs c width_20 rest = u32 Attr.wiphy_channel_type 1 rest
channel_type_attrs c width_40 rest =
    u32 Attr.wiphy_channel_type (if ltb c.center_freq1 c.control_freq then 2 else 3) rest
channel_type_attrs c _ rest = rest

abbrev pub nonzero : ℕ → ℕ → Attrs → Attrs
nonzero attr v rest = if v == 0 then rest else u32 attr v rest

-- The attributes of a channel definition.
abbrev pub chandef_attrs : Chandef → Attrs
chandef_attrs c = u32 Attr.wiphy_freq c.control_freq (
    u32 Attr.channel_width (width_value c.width) (
      channel_type_attrs c c.width
        (nonzero Attr.center_freq1 c.center_freq1 (nonzero Attr.center_freq2 c.center_freq2 nil))))

module _ (n : Netlink) where
  open n use {Msg, nla_put_u32}

  after_type :
      (c : Chandef) (w : ChanWidth) (rest : Attrs) (m : Msg)
      → (put_channel_type n m c w >>= put_all n rest) ≡ put_all n (channel_type_attrs c w rest) m
  unfolding put_channel_type put_all
  after_type c width_20_noht rest m = refl
  after_type c width_40 rest m = ground arith
  after_type c _ rest m = refl

  after_nonzero :
      (attr v : ℕ) (rest : Attrs) (m : Msg)
      → ((if v == 0 then ok m else room (nla_put_u32 m attr v)) >>= put_all n rest)
        ≡ put_all n (nonzero attr v rest) m
  unfolding put_all
  after_nonzero attr v rest m = ground arith

  last_nonzero :
      (attr v : ℕ) (m : Msg)
      → (if v == 0 then ok m else room (nla_put_u32 m attr v)) ≡ put_all n (nonzero attr v nil) m
  unfolding put_all
  last_nonzero attr v m = elim (Bool-cases (v == 0)) [
    | inl zero_value ↦ rw zero_value
    | inr other ↦ rw other (unit (room (nla_put_u32 m attr v)))
  ]
    where
      unit : (r : Result Msg) → r ≡ (r >>= put_all n nil)
      unit (ok a) = refl
      unit (err e) = refl

  -- `put_chandef` puts just the attributes of the channel definition, in this order, and fails only
  -- if one of them finds no room.
  pub put_chandef-put_all :
      (c : Chandef) (m : Msg) → put_chandef n m c ≡ put_all n (chandef_attrs c) m
  unfolding put_chandef put_all
  put_chandef-put_all c m = >>=_cong (room (nla_put_u32 m Attr.wiphy_freq c.control_freq)) (λ m1.
      >>=_cong (room (nla_put_u32 m1 Attr.channel_width (width_value c.width))) (λ m2.
        >>=_cong (put_channel_type n m2 c c.width) (λ m3.
          >>=_cong
            (if c.center_freq1 == 0
              then ok m3
              else room (nla_put_u32 m3 Attr.center_freq1 c.center_freq1))
            (λ m4. last_nonzero Attr.center_freq2 c.center_freq2 m4)
          ∙ after_nonzero Attr.center_freq1 c.center_freq1
              (nonzero Attr.center_freq2 c.center_freq2 nil) m3)
        ∙ after_type c c.width
            (nonzero Attr.center_freq1 c.center_freq1
              (nonzero Attr.center_freq2 c.center_freq2 nil))
            m2))

abbrev pub ht40_word : Bool → Bytes
ht40_word above = if above then codes "HT40+" else codes "HT40-"

abbrev pub ht40_center : Bool → ℕ → ℕ
ht40_center above freq = if above then freq + 10 else freq - 10

abbrev pub ht40_chandef : Bool → ℕ → Chandef
ht40_chandef above freq = record {
  width = width_40;
  control_freq = freq;
  center_freq1 = ht40_center above freq;
  center_freq2 = 0;
}

get_cf1-ht40 :
    (above : Bool) (freq : ℕ)
    → 10 < freq
    → freq < 2 ^ 32 - 10
    → get_cf1 width_40 (if above then 10 else 2 ^ 32 - 10) freq ≡ ht40_center above freq
unfolding get_cf1
get_cf1-ht40 true freq lo hi = omega arith
get_cf1-ht40 false freq lo hi = omega arith

parse_words-ht40 :
    (above chan : Bool) (c : Chandef) (arg : Bytes) (rest : List Bytes) (v : ℕ)
    → read_freq arg ≡ some v
    → 10 < control_frequency chan v
    → control_frequency chan v < 2 ^ 32 - 10
    → parse_words c chan arg (ht40_word above ∷ rest)
      ≡ outcome 0 (ht40_chandef above (control_frequency chan v)) 2
unfolding parse_words select_mode find_mode
parse_words-ht40 true chan c arg rest v number lo hi =
    rw number (rw (get_cf1-ht40 true (control_frequency chan v) lo hi))
parse_words-ht40 false chan c arg rest v number lo hi =
    rw number (rw (get_cf1-ht40 false (control_frequency chan v) lo hi))

abbrev pub is_empty : List Bytes → Bool
is_empty [] = true
is_empty (w ∷ words) = false

-- What `at_out` makes of two words that were used.
at_out-two :
    (parsed : Bool) (c : Chandef) (rest : List Bytes)
    → at_out parsed (length rest + 2) (outcome 0 c 2)
      ≡ outcome (if parsed || is_empty rest then 0 else 1) c 2
at_out-two true c rest = refl
at_out-two false c [] = refl
at_out-two false c (w ∷ rest) = ground arith

-- A number whose control frequency is above 10 and below 2 ^ 32 - 10, followed by HT40+ or HT40- and
-- perhaps by more words, uses two words and comes to a message with that frequency, a width of 40 MHz,
-- the channel type named, and a centre frequency 10 MHz above or below; the code is 0 if the caller
-- passes `parsed` or no words follow, and 1 if it does not and some do.
pub parse_freqchan-ht40 :
    (n : Netlink) (m : n.Msg) (above chan : Bool) (c : Chandef) (arg : Bytes) (rest : List Bytes)
    (v : ℕ) (parsed : Bool)
    → read_freq arg ≡ some v
    → 10 < control_frequency chan v
    → control_frequency chan v < 2 ^ 32 - 10
    → ((parse_freqchan c chan (arg ∷ ht40_word above ∷ rest) parsed).code
        ≡ (if parsed || is_empty rest then 0 else 1))
      × ((parse_freqchan c chan (arg ∷ ht40_word above ∷ rest) parsed).used ≡ 2)
      × (put_chandef n m (parse_freqchan c chan (arg ∷ ht40_word above ∷ rest) parsed).chandef
          ≡ put_all n
              (u32 Attr.wiphy_freq (control_frequency chan v) (
                u32 Attr.channel_width 2 (
                  u32 Attr.wiphy_channel_type
                    (if above then 3 else 2)
                    (u32 Attr.center_freq1 (ht40_center above (control_frequency chan v)) nil))))
              m)
unfolding parse_freqchan
parse_freqchan-ht40 n m above chan c arg rest v parsed number lo hi =
    let freq = control_frequency chan v in
    let same : suc (length rest) + 1 ≡ length rest + 2 = omega arith in
    rw
      (
        parse_words-ht40 above chan c arg rest v number lo hi,
        same,
        at_out-two parsed (ht40_chandef above freq) rest,
      )
      (
        refl,
        refl,
        put_chandef-put_all n (ht40_chandef above freq) m
            ∙ ap (λ a. put_all n a m) (tree above freq lo),
      )
  where
    tree :
        (b : Bool) (freq : ℕ)
        → 10 < freq
        → chandef_attrs (ht40_chandef b freq)
          ≡ u32 Attr.wiphy_freq freq (
              u32 Attr.channel_width 2 (
                u32 Attr.wiphy_channel_type
                  (if b then 3 else 2)
                  (u32 Attr.center_freq1 (ht40_center b freq) nil)))
    tree true freq lo = ground arith
    tree false freq lo = ground arith
