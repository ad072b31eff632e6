-- ===== src/Bitrate/Parser.antt =====
-- The loop of `set_bitrates` in wifi/iw/bitrate.c over the words of the command line, and the checks
-- and tables behind it, up to the first call that writes the message.
pub mod Overrun
pub mod Used
use nl.Base.{
  ℕ, ◌+◌, Bool, true, false, ◌&&◌, Bytes, Option, none, some, List, [], ◌∷◌, replicate, codes,
  if◌then◌else◌,
}
use nl.Libc.{str_eq}
use nl.Bitrate.Chunk.{Mode, vht, he, Run, done, failed, uninitialised, setup}
use nl.Bitrate.Words.{
  Floats, Rates, no_rates, ParserState, s_none, Step, go, stray, refuse, overflow, word_step,
  as_keyword,
}

-- The loop is left at word `i`, or by `return 1`, or by a store behind an array.
pub data Loop : Type 0 where
  at_next : (i : ℕ) → Rates → Loop
  refused : Loop
  overrun : Loop

-- `tx` tells whether `attr` is NL80211_ATTR_TX_RATES.
abbrev pub after_step : Bool → ℕ → Rates → Step → (ParserState → Rates → Loop) → Loop
after_step tx i r (go state r') again = again state r'
after_step true i r stray again = refused
after_step false i r stray again = at_next i r
after_step tx i r refuse again = refused
after_step tx i r overflow again = overrun

unfoldable pub word_loop : Floats → Bool → ℕ → List Bytes → ParserState → Rates → Loop
word_loop f tx i [] state r = at_next i r
word_loop f tx i (arg ∷ argv) state r =
    after_step tx i r (word_step f state arg r (as_keyword arg)) (word_loop f tx (i + 1) argv)

unfoldable pub read_words : Floats → Bool → List Bytes → Loop
read_words f tx argv = word_loop f tx 0 argv s_none no_rates

-- `enum nl80211_he_gi`; `none` is -1.
abbrev pub parse_he_gi : Option Bytes → Option ℕ
parse_he_gi none = some 0
parse_he_gi (some he_gi) =
    if str_eq he_gi (codes "0.8")
    then some 0
    else if str_eq he_gi (codes "1.6")
    then some 1
    else if str_eq he_gi (codes "3.2")
    then some 2
    else none

-- What the message is made of.
pub record Plan : Type 0 where
  pub ret : ℕ
  pub rates : Rates
  pub vht_24 : List ℕ
  pub vht_5 : List ℕ
  pub he_24 : List ℕ
  pub he_5 : List ℕ
  pub he_6 : List ℕ
  pub he_gi : ℕ

-- The plan, `return 1`, `return -EINVAL`, a store behind an array, or a read of an unassigned variable.
pub data Planned : Type 0 where
  plan : Plan → Planned
  return_1 : Planned
  return_einval : Planned
  faults : Planned

-- A table that no word asked for is `= {}`.
abbrev pub table : Mode → Bool → List Bytes → Run (List ℕ)
table mode have argv = if have then setup mode argv else done (replicate 8 0)

abbrev pub with_table : Run (List ℕ) → (List ℕ → Planned) → Planned
with_table (done t) next = next t
with_table failed next = return_einval
with_table uninitialised next = faults

abbrev pub with_he_gi : Option ℕ → (ℕ → Planned) → Planned
with_he_gi none next = return_1
with_he_gi (some v) next = next v

-- The guard intervals: a short and a long one exclude each other.
unfoldable pub with_guard_intervals : Rates → (ℕ → Planned) → Planned
with_guard_intervals r next =
    if r.rates_5.sgi && r.rates_5.lgi
    then return_1
    else if r.rates_24.sgi && r.rates_24.lgi
    then return_1
    else with_he_gi (parse_he_gi r.he_gi_argv) next

-- The code from the label `next` to the first `nla_nest_start`.
unfoldable pub plan_message : ℕ → Rates → Planned
plan_message ret r = with_table (table vht r.rates_24.have_vht_mcs r.rates_24.vht_argv) (λ vht_24.
    with_table (table vht r.rates_5.have_vht_mcs r.rates_5.vht_argv) (λ vht_5.
      with_table (table he r.rates_24.have_he_mcs r.rates_24.he_argv) (λ he_24.
        with_table (table he r.rates_5.have_he_mcs r.rates_5.he_argv) (λ he_5.
          with_table (table he r.rates_6.have_he_mcs r.rates_6.he_argv) (λ he_6.
            with_guard_intervals r (λ he_gi. plan (record {
              ret = ret;
              rates = r;
              vht_24 = vht_24;
              vht_5 = vht_5;
              he_24 = he_24;
              he_5 = he_5;
              he_6 = he_6;
              he_gi = he_gi;
            })))))))

abbrev pub plan_loop : Bool → Loop → Planned
plan_loop tx (at_next i r) = plan_message (if tx then 0 else i) r
plan_loop tx refused = return_1
plan_loop tx overrun = faults

unfoldable pub plan_bitrates : Floats → Bool → List Bytes → Planned
plan_bitrates f tx argv = plan_loop tx (read_words f tx argv)
