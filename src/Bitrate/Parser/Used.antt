-- ===== src/Bitrate/Parser/Used.antt =====
-- How many words `set_bitrates` takes when another command calls it.
use nl.Base.{
  ◌&&◌, Bool-cases, inl, inr, if◌then◌else◌, ◌∙◌, ℕ, ◌+◌, Bool, true, false, Bytes, Option, none,
  some, List, [], ◌∷◌, length, ◌≡◌, refl, arith,
}
use nl.Bitrate.Chunk.{Run, done, failed, uninitialised, vht, he}
use nl.Libc.{strtol}
use nl.Bitrate.Words.{
  Floats, Rates, RateBand, Keyword, k_legacy, k_ht, k_vht, k_he, k_sgi, k_lgi, k_he_gi, k_he_ltf,
  ParserState, s_none, s_gi, s_he_gi, s_he_ltf, s_legacy, s_ht, s_vht, s_he, Step, go, stray,
  refuse, overflow, as_keyword, keyword_step, section_word, word_step, legacy_word, ht_word,
  he_ltf_word, BandRates, get_band,
}
use nl.Bitrate.Parser.{
  refused, overrun, with_guard_intervals, parse_he_gi, he, plan, plan_loop, vht, Plan, table,
  with_he_gi, with_table, plan_bitrates, Loop, read_words, no_rates, plan_message, Run, Planned,
  at_next, after_step, word_loop,
}

abbrev in_section : ParserState → Bool
in_section s_none = false
in_section _ = true

-- The step goes on behind a keyword, or ends the parser.
abbrev stays : Step → Bool
stays (go state r) = in_section state
stays stray = false
stays refuse = true
stays overflow = true

keyword_step-stays :
    (k : Keyword) (band : RateBand) (r : Rates) (b : BandRates)
    → stays (keyword_step k band r b) ≡ true
unfolding keyword_step
keyword_step-stays k_legacy band r b = ground arith
keyword_step-stays k_ht band r b = ground arith
keyword_step-stays k_vht band r b = ground arith
keyword_step-stays k_he band r b = ground arith
keyword_step-stays k_sgi band r b = refl
keyword_step-stays k_lgi band r b = refl
keyword_step-stays k_he_gi band r b = refl
keyword_step-stays k_he_ltf band r b = refl

ht_word-stays :
    (band : RateBand) (r : Rates) (b : BandRates) (v : ℕ × Bytes)
    → stays (ht_word band r b v) ≡ true
ht_word-stays band r b (v, c ∷ end) = refl
ht_word-stays band r b (v, []) = ground arith

he_ltf_word-stays : (r : Rates) (v : ℕ × Bytes) → stays (he_ltf_word r v) ≡ true
he_ltf_word-stays r (v, c ∷ end) = refl
he_ltf_word-stays r (v, []) = ground arith

module _ (f : Floats) where
  legacy_word-stays :
      (band : RateBand) (r : Rates) (b : BandRates) (v : f.Double × Bytes)
      → stays (legacy_word f band r b v) ≡ true
  legacy_word-stays band r b (v, c ∷ end) = refl
  legacy_word-stays band r b (v, []) = ground arith

  section_word-stays :
      (state : ParserState) (arg : Bytes) (r : Rates)
      → in_section state ≡ true
      → stays (section_word f state arg r) ≡ true
  unfolding section_word
  section_word-stays s_none arg r h = absurd cc
  section_word-stays s_gi arg r h = refl
  section_word-stays s_he_gi arg r h = refl
  section_word-stays s_he_ltf arg r h = he_ltf_word-stays r (strtol arg)
  section_word-stays (s_legacy band) arg r h =
      legacy_word-stays band r (get_band band r) (f.strtod arg)
  section_word-stays (s_ht band) arg r h = ht_word-stays band r (get_band band r) (strtol arg)
  section_word-stays (s_vht band) arg r h = ground arith
  section_word-stays (s_he band) arg r h = ground arith

  word_step-stays :
      (state : ParserState) (arg : Bytes) (r : Rates) (o : Option (Keyword × RateBand))
      → in_section state ≡ true
      → stays (word_step f state arg r o) ≡ true
  word_step-stays state arg r (some (k, band)) h = keyword_step-stays k band r (get_band band r)
  word_step-stays state arg r none h = section_word-stays state arg r h

  after-stays :
      (tx : Bool) (i : ℕ) (argv : List Bytes) (r : Rates) (s : Step) (j : ℕ) (r' : Rates)
      → ((state : ParserState) (r0 : Rates)
          → in_section state ≡ true
          → word_loop f tx (i + 1) argv state r0 ≡ at_next j r'
          → j ≡ i + 1 + length argv)
      → stays s ≡ true
      → after_step tx i r s (word_loop f tx (i + 1) argv) ≡ at_next j r'
      → j ≡ i + 1 + length argv
  after-stays tx i argv r (go state r0) j r' again inside h = again state r0 inside h
  after-stays tx i argv r stray j r' again inside h = absurd cc
  after-stays tx i argv r refuse j r' again inside h = absurd cc
  after-stays tx i argv r overflow j r' again inside h = absurd cc

  word_loop-used :
      (tx : Bool) (i : ℕ) (argv : List Bytes) (state : ParserState) (r : Rates) (j : ℕ) (r' : Rates)
      → in_section state ≡ true
      → word_loop f tx i argv state r ≡ at_next j r'
      → j ≡ i + length argv
  unfolding word_loop
  word_loop-used tx i [] state r j r' inside h = let e : i ≡ j = cc in omega arith
  word_loop-used tx i (arg ∷ argv) state r j r' inside h = omega (
    arith,
    after-stays tx i argv r (word_step f state arg r (as_keyword arg)) j r'
        (λ s r0 e k. word_loop-used tx (i + 1) argv s r0 j r' e k)
        (word_step-stays state arg r (as_keyword arg) inside) h,
  )

abbrev Returns : ℕ → Planned → Type 0
Returns ret (plan p) = p.ret ≡ ret
Returns ret _ = ret ≡ ret

with_table-Returns :
    (ret : ℕ) (t : Run (List ℕ)) (next : List ℕ → Planned)
    → ((masks : List ℕ) → Returns ret (next masks))
    → Returns ret (with_table t next)
with_table-Returns ret (done masks) next h = h masks
with_table-Returns ret failed next h = refl
with_table-Returns ret uninitialised next h = refl

with_he_gi-Returns :
    (ret : ℕ) (o : Option ℕ) (next : ℕ → Planned)
    → ((v : ℕ) → Returns ret (next v))
    → Returns ret (with_he_gi o next)
with_he_gi-Returns ret none next h = refl
with_he_gi-Returns ret (some v) next h = h v

with_guard_intervals-Returns :
    (ret : ℕ) (r : Rates) (next : ℕ → Planned)
    → ((v : ℕ) → Returns ret (next v))
    → Returns ret (with_guard_intervals r next)
unfolding with_guard_intervals
with_guard_intervals-Returns ret r next h = elim (Bool-cases (r.rates_5.sgi && r.rates_5.lgi)) [
  | inl both ↦ rw both refl
  | inr fine ↦ elim (Bool-cases (r.rates_24.sgi && r.rates_24.lgi)) [
    | inl both ↦ rw (fine, both) refl
    | inr fine_24 ↦ rw (fine, fine_24) (with_he_gi-Returns ret (parse_he_gi r.he_gi_argv) next h)
  ]
]

plan_message-Returns : (ret : ℕ) (r : Rates) → Returns ret (plan_message ret r)
unfolding plan_message
plan_message-Returns ret r =
    with_table-Returns ret (table vht r.rates_24.have_vht_mcs r.rates_24.vht_argv) _ (λ a.
      with_table-Returns ret (table vht r.rates_5.have_vht_mcs r.rates_5.vht_argv) _ (λ b.
        with_table-Returns ret (table he r.rates_24.have_he_mcs r.rates_24.he_argv) _ (λ c.
          with_table-Returns ret (table he r.rates_5.have_he_mcs r.rates_5.he_argv) _ (λ d.
            with_table-Returns ret (table he r.rates_6.have_he_mcs r.rates_6.he_argv) _
              (λ e. with_guard_intervals-Returns ret r _ (λ g. refl))))))

-- All the words, if the first one is a keyword, and none if not.
abbrev taken : Option (Keyword × RateBand) → List Bytes → ℕ
taken none argv = 0
taken (some k) argv = 1 + length argv

abbrev pub words_taken : List Bytes → ℕ
words_taken [] = 0
words_taken (arg ∷ argv) = taken (as_keyword arg) argv

first_word-taken :
    (f : Floats) (tx : Bool) (arg : Bytes) (argv : List Bytes) (o : Option (Keyword × RateBand))
    (j : ℕ) (r : Rates)
    → after_step tx 0 no_rates (word_step f s_none arg no_rates o) (word_loop f tx 1 argv)
      ≡ at_next j r
    → j ≡ taken o argv
unfolding section_word
first_word-taken f true arg argv none j r h = absurd cc
first_word-taken f false arg argv none j r h = cc
first_word-taken f tx arg argv (some (k, band)) j r h =
    after-stays f tx 0 argv no_rates (keyword_step k band no_rates (get_band band no_rates)) j r
      (λ s r0 e l. word_loop-used f tx 1 argv s r0 j r e l)
      (keyword_step-stays k band no_rates (get_band band no_rates)) h

read_words-taken :
    (f : Floats) (tx : Bool) (argv : List Bytes) (j : ℕ) (r : Rates)
    → read_words f tx argv ≡ at_next j r
    → j ≡ words_taken argv
unfolding read_words word_loop
read_words-taken f tx [] j r h = cc
read_words-taken f tx (arg ∷ argv) j r h = first_word-taken f tx arg argv (as_keyword arg) j r h

plan_loop-taken :
    (tx : Bool) (l : Loop) (taken : ℕ) (p : Plan)
    → ((j : ℕ) (r : Rates) → l ≡ at_next j r → j ≡ taken)
    → plan_loop tx l ≡ plan p
    → p.ret ≡ (if tx then 0 else taken)
plan_loop-taken tx (at_next j r) taken p h e =
    let returns = plan_message-Returns (if tx then 0 else j) r in
    rw e at returns ∙ ground (arith, h j r refl)
plan_loop-taken tx refused taken p h e = absurd cc
plan_loop-taken tx overrun taken p h e = absurd cc

-- A command line that is accepted gives 0 for NL80211_ATTR_TX_RATES. For another attribute it gives the
-- number of all the words, if the first one is a keyword, and 0 if it is not: the words never end
-- before the end of the command line.
pub plan_bitrates-words_taken :
    (f : Floats) (tx : Bool) (argv : List Bytes) (p : Plan)
    → plan_bitrates f tx argv ≡ plan p
    → p.ret ≡ (if tx then 0 else words_taken argv)
unfolding plan_bitrates
plan_bitrates-words_taken f tx argv p h =
    plan_loop-taken tx (read_words f tx argv) (words_taken argv) p (read_words-taken f tx argv) h
