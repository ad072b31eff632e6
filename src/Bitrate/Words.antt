-- ===== src/Bitrate/Words.antt =====
-- The words of `set bitrates`: the keywords of `set_bitrates` in wifi/iw/bitrate.c, its variables for
-- each band, and what a word behind a keyword means. The pointers into those variables are always set
-- together with the parser state, so the state holds the band that they point to.
use nl.Base.{
  ◌-◌, ◌^◌, ℕ, ◌/◌, Bool, true, false, ◌||◌, Bytes, Option, none, some, List, [], ◌∷◌, ◌++◌, length,
  codes, ltb, if◌then◌else◌,
}
use nl.Libc.{str_eq, strtol, to_u32, is_negative}

-- `strtod` and what the source does with the `double` that it returns. `twice_u8` is the byte that
-- `tmpd * 2` is stored as.
pub record Floats : Type 1 where
  pub Double : Type 0
  pub strtod : Bytes → Double × Bytes
  pub less : Double → ℕ → Bool
  pub more : Double → ℕ → Bool
  pub twice_u8 : Double → ℕ

pub data RateBand : Type 0 where
  band_24 band_5 band_6 : RateBand

-- The variables whose names end in the band.
pub record BandRates : Type 0 where
  pub have_legacy : Bool
  pub legacy : Bytes
  pub have_ht_mcs : Bool
  pub ht_mcs : Bytes
  pub have_vht_mcs : Bool
  pub vht_argv : List Bytes
  pub have_he_mcs : Bool
  pub he_argv : List Bytes
  pub sgi : Bool
  pub lgi : Bool
  pub has_he_gi : Bool
  pub has_he_ltf : Bool

pub record Rates : Type 0 where
  pub rates_24 : BandRates
  pub rates_5 : BandRates
  pub rates_6 : BandRates
  pub he_gi_argv : Option Bytes
  pub he_ltf : ℕ

abbrev pub no_band_rates : BandRates
no_band_rates = record {
  have_legacy = false;
  legacy = [];
  have_ht_mcs = false;
  ht_mcs = [];
  have_vht_mcs = false;
  vht_argv = [];
  have_he_mcs = false;
  he_argv = [];
  sgi = false;
  lgi = false;
  has_he_gi = false;
  has_he_ltf = false;
}

abbrev pub no_rates : Rates
no_rates = record {
  rates_24 = no_band_rates;
  rates_5 = no_band_rates;
  rates_6 = no_band_rates;
  he_gi_argv = none;
  he_ltf = 0;
}

abbrev pub get_band : RateBand → Rates → BandRates
get_band band_24 r = r.rates_24
get_band band_5 r = r.rates_5
get_band band_6 r = r.rates_6

abbrev pub put_band : RateBand → BandRates → Rates → Rates
put_band band_24 b r = record r { rates_24 = b }
put_band band_5 b r = record r { rates_5 = b }
put_band band_6 b r = record r { rates_6 = b }

pub data Keyword : Type 0 where
  k_legacy k_ht k_vht k_he k_sgi k_lgi k_he_gi k_he_ltf : Keyword

pub data ParserState : Type 0 where
  s_none s_gi s_he_gi s_he_ltf : ParserState
  s_legacy s_ht s_vht s_he : RateBand → ParserState

-- The words that the chain of `strcmp` looks for, in its order.
abbrev pub keywords : List (Bytes × Keyword × RateBand)
keywords =
    (codes "legacy-2.4", k_legacy, band_24)
    ∷ (codes "legacy-5", k_legacy, band_5)
    ∷ (codes "ht-mcs-2.4", k_ht, band_24)
    ∷ (codes "ht-mcs-5", k_ht, band_5)
    ∷ (codes "vht-mcs-2.4", k_vht, band_24)
    ∷ (codes "vht-mcs-5", k_vht, band_5)
    ∷ (codes "he-mcs-2.4", k_he, band_24)
    ∷ (codes "he-mcs-5", k_he, band_5)
    ∷ (codes "he-mcs-6", k_he, band_6)
    ∷ (codes "sgi-2.4", k_sgi, band_24)
    ∷ (codes "sgi-5", k_sgi, band_5)
    ∷ (codes "lgi-2.4", k_lgi, band_24)
    ∷ (codes "lgi-5", k_lgi, band_5)
    ∷ (codes "he-gi-2.4", k_he_gi, band_24)
    ∷ (codes "he-gi-5", k_he_gi, band_5)
    ∷ (codes "he-gi-6", k_he_gi, band_6)
    ∷ (codes "he-ltf-2.4", k_he_ltf, band_24)
    ∷ (codes "he-ltf-5", k_he_ltf, band_5)
    ∷ (codes "he-ltf-6", k_he_ltf, band_6)
    ∷ []

abbrev pub find_keyword : Bytes → List (Bytes × Keyword × RateBand) → Option (Keyword × RateBand)
find_keyword arg [] = none
find_keyword arg ((name, k, band) ∷ ks) =
    if str_eq arg name then some (k, band) else find_keyword arg ks

unfoldable pub as_keyword : Bytes → Option (Keyword × RateBand)
as_keyword arg = find_keyword arg keywords

-- One round of the loop: it goes on, `goto next` or `return 1` on a word before any keyword,
-- `return 1`, or a store behind one of the arrays.
pub data Step : Type 0 where
  go : ParserState → Rates → Step
  stray : Step
  refuse : Step
  overflow : Step

abbrev pub go_band : ParserState → RateBand → Rates → BandRates → Step
go_band state band r b = go state (put_band band b r)

-- The branch of a keyword.
unfoldable pub keyword_step : Keyword → RateBand → Rates → BandRates → Step
keyword_step k_legacy band r b =
    if b.have_legacy
    then refuse
    else go_band (s_legacy band) band r (record b { have_legacy = true })
keyword_step k_ht band r b =
    if b.have_ht_mcs then refuse else go_band (s_ht band) band r (record b { have_ht_mcs = true })
keyword_step k_vht band r b =
    if b.have_vht_mcs
    then refuse
    else go_band (s_vht band) band r (record b { have_vht_mcs = true })
keyword_step k_he band r b =
    if b.have_he_mcs then refuse else go_band (s_he band) band r (record b { have_he_mcs = true })
keyword_step k_sgi band r b = go_band s_gi band r (record b { sgi = true })
keyword_step k_lgi band r b = go_band s_gi band r (record b { lgi = true })
keyword_step k_he_gi band r b = go_band s_he_gi band r (record b { has_he_gi = true })
keyword_step k_he_ltf band r b = go_band s_he_ltf band r (record b { has_he_ltf = true })

-- `legacy[(*n_legacy)++] = v` on an array of 32 bytes.
abbrev pub store_legacy : RateBand → Rates → BandRates → ℕ → Step
store_legacy band r b v =
    if ltb (length b.legacy) 32
    then go_band (s_legacy band) band r (record b { legacy = b.legacy ++ (v ∷ []) })
    else overflow

-- `mcs[(*n_mcs)++] = v` on an array of 77 bytes.
abbrev pub store_ht : RateBand → Rates → BandRates → ℕ → Step
store_ht band r b v =
    if ltb (length b.ht_mcs) 77
    then go_band (s_ht band) band r (record b { ht_mcs = b.ht_mcs ++ (v ∷ []) })
    else overflow

-- The value is a 64-bit pattern.
abbrev pub ht_word : RateBand → Rates → BandRates → ℕ × Bytes → Step
ht_word band r b (v, c ∷ end) = refuse
ht_word band r b (v, []) = if ltb (2 ^ 63 - 1) v || ltb 255 v then refuse else store_ht band r b v

-- The value is cut to an `int`, tested, and halved.
abbrev pub he_ltf_word : Rates → ℕ × Bytes → Step
he_ltf_word r (v, c ∷ end) = refuse
he_ltf_word r (v, []) =
    if is_negative (to_u32 v) || ltb 4 (to_u32 v)
    then refuse
    else go s_he_ltf (record r { he_ltf = to_u32 v / 2 })

-- VHT_ARGC_MAX is 100.
abbrev pub vht_word : RateBand → Rates → BandRates → Bytes → Step
vht_word band r b arg =
    if ltb (length b.vht_argv) 100
    then go_band (s_vht band) band r (record b { vht_argv = b.vht_argv ++ (arg ∷ []) })
    else refuse

abbrev pub he_word : RateBand → Rates → BandRates → Bytes → Step
he_word band r b arg =
    if ltb (length b.he_argv) 100
    then go_band (s_he band) band r (record b { he_argv = b.he_argv ++ (arg ∷ []) })
    else refuse

module _ (f : Floats) where
  open f use {Double, strtod, less, more, twice_u8}

  abbrev pub legacy_word : RateBand → Rates → BandRates → Double × Bytes → Step
  legacy_word band r b (v, c ∷ end) = refuse
  legacy_word band r b (v, []) =
      if less v 1 || more v 510 then refuse else store_legacy band r b (twice_u8 v)

  -- The switch on the parser state.
  unfoldable pub section_word : ParserState → Bytes → Rates → Step
  section_word s_none arg r = stray
  section_word s_gi arg r = go s_gi r
  section_word s_he_gi arg r = go s_he_gi (record r { he_gi_argv = some arg })
  section_word s_he_ltf arg r = he_ltf_word r (strtol arg)
  section_word (s_legacy band) arg r = legacy_word band r (get_band band r) (strtod arg)
  section_word (s_ht band) arg r = ht_word band r (get_band band r) (strtol arg)
  section_word (s_vht band) arg r = vht_word band r (get_band band r) arg
  section_word (s_he band) arg r = he_word band r (get_band band r) arg

  abbrev pub word_step : ParserState → Bytes → Rates → Option (Keyword × RateBand) → Step
  word_step state arg r (some (k, band)) = keyword_step k band r (get_band band r)
  word_step state arg r none = section_word state arg r
