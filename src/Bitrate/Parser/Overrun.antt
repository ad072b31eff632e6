-- ===== src/Bitrate/Parser/Overrun.antt =====
-- The legacy rates of `set_bitrates`, which go into an array of 32 bytes.
use nl.Base.{
  ℕ, ◌+◌, ◌≤◌, ◌<◌, Bool, false, Bytes, none, some, List, [], ◌∷◌, ◌++◌, length, ltb, ◌≡◌, refl,
  ◌∙◌, ap, arith, Bool-cases, inl, inr, All, length-append,
}
use nl.Bitrate.Words.{
  legacy_word, Floats, Rates, RateBand, band_24, band_5, band_6, k_legacy, s_legacy, as_keyword,
  keyword_step, section_word, BandRates, get_band, put_band, store_legacy,
}
use nl.Bitrate.Parser.{overrun, word_loop, read_words, faults, plan_loop, plan_bitrates}

get_band-put_band :
    (band : RateBand) (b : BandRates) (r : Rates) → get_band band (put_band band b r) ≡ b
get_band-put_band band_24 b r = refl
get_band-put_band band_5 b r = refl
get_band-put_band band_6 b r = refl

abbrev pub count_legacy : RateBand → Rates → ℕ
count_legacy band r = length (get_band band r).legacy

module _ (f : Floats) where
  open f use {Double, strtod, less, more, twice_u8}

  -- A word that `set_bitrates` stores behind a legacy keyword.
  abbrev pub IsLegacyRate : Bytes → Type 0
  IsLegacyRate arg =
      (as_keyword arg ≡ none)
      × ((strtod arg).1 ≡ [])
      × (less (strtod arg).0 1 ≡ false)
      × (more (strtod arg).0 510 ≡ false)

  section_word-legacy :
      (band : RateBand) (arg : Bytes) (r : Rates)
      → IsLegacyRate arg
      → section_word f (s_legacy band) arg r
        ≡ store_legacy band r (get_band band r) (twice_u8 (strtod arg).0)
  unfolding section_word
  section_word-legacy band arg r (word, whole, low, high) =
      ap (λ end. legacy_word f band r (get_band band r) ((strtod arg).0, end)) whole
      ∙ rw (low, high) refl

  word_loop-overrun :
      (tx : Bool) (i : ℕ) (argv : List Bytes) (band : RateBand) (r : Rates)
      → All IsLegacyRate argv
      → count_legacy band r ≤ 32
      → 32 < count_legacy band r + length argv
      → word_loop f tx i argv (s_legacy band) r ≡ overrun
  unfolding word_loop
  word_loop-overrun tx i [] band r h few many = absurd (omega arith)
  word_loop-overrun tx i (arg ∷ argv) band r (h, hs) few many = rw h.0 (
      rw (section_word-legacy band arg r h) (elim (Bool-cases (ltb (count_legacy band r) 32)) [
        | inl room ↦ rw room (
            let b = record (get_band band r) {
              legacy = (get_band band r).legacy ++ (twice_u8 (strtod arg).0 ∷ []);
            } in
            let e = get_band-put_band band b r in
            let n = length-append (get_band band r).legacy (twice_u8 (strtod arg).0 ∷ []) in
            let count : count_legacy band (put_band band b r) ≡ count_legacy band r + 1 =
              ap (λ (x : BandRates). length x.legacy) e ∙ n in
            word_loop-overrun tx (i + 1) argv band (put_band band b r) hs (ground (arith, count))
              (omega (arith, count)))
        | inr full ↦ rw full refl
      ]))

  -- More than 32 legacy rates behind one keyword are stored behind the end of the array.
  pub plan_bitrates-overrun :
      (tx : Bool) (keyword : Bytes) (band : RateBand) (argv : List Bytes)
      → as_keyword keyword ≡ some (k_legacy, band)
      → All IsLegacyRate argv
      → 32 < length argv
      → plan_bitrates f tx (keyword ∷ argv) ≡ faults
  unfolding plan_bitrates read_words word_loop keyword_step
  plan_bitrates-overrun tx keyword band_24 argv h hs many =
      rw h
        (ap (plan_loop tx) (word_loop-overrun tx 1 argv band_24 _ hs (omega arith) (omega arith)))
  plan_bitrates-overrun tx keyword band_5 argv h hs many =
      rw h (ap (plan_loop tx) (word_loop-overrun tx 1 argv band_5 _ hs (omega arith) (omega arith)))
  plan_bitrates-overrun tx keyword band_6 argv h hs many =
      rw h (ap (plan_loop tx) (word_loop-overrun tx 1 argv band_6 _ hs (omega arith) (omega arith)))
