-- ===== src/Tests/Rates.antt =====
-- Command lines of `set bitrates`. The `double` here is a whole number of Mbps.
use nl.Base.{
  zero, suc, if◌then◌else◌, arith, ℕ, ◌*◌, ◌%◌, ◌≡◌, refl, Bool, true, false, Bytes, List, [], ◌∷◌,
  codes, ltb, replicate, some, All,
}
use nl.Nl80211.Attr
use nl.Nl80211.TxRate
use nl.Netlink.{ok, put_all}
use nl.Libc.{strtoul, strtol}
use nl.Bitrate.Chunk.{
  parse_rate_chunk, has_char, range_chunk, list_chunk, or_range, or_table, setup, setup_loop,
}
use nl.Libc.{scan_from}
use nl.Bitrate.Words.{
  k_legacy, Floats, no_rates, no_band_rates, keyword_step, section_word, as_keyword, band_5,
}
use nl.Bitrate.Parser.{
  Plan, plan, plan_bitrates, plan_message, read_words, word_loop, with_guard_intervals, faults,
  return_1,
}
use nl.Bitrate.Message.{write_plan}
use nl.Bitrate.Message.Room.{plan_attrs, write_plan-put_all}
use nl.Bitrate.Parser.Used.{words_taken, plan_bitrates-words_taken}
use nl.Bitrate.Parser.Overrun.{plan_bitrates-overrun, IsLegacyRate}
use nl.Tests.Recorder.{Event, recorder, blob, u8, open_nest, close_nest}

abbrev whole_number : ℕ × Bytes × Bool → ℕ × Bytes
whole_number (v, rest, found) = (v, rest)

abbrev whole : Floats
whole = record {
  Double = ℕ;
  strtod = λ s. whole_number (strtoul s 10);
  less = λ v k. ltb v k;
  more = λ v k. ltb k v;
  twice_u8 = λ v. 2 * v % 256;
}

program : Unit {0}
unfolding parse_rate_chunk has_char range_chunk list_chunk or_range or_table scan_from strtoul
    strtol setup setup_loop keyword_step section_word as_keyword plan_bitrates plan_message
    read_words word_loop with_guard_intervals
program = tt

abbrev argv : List Bytes
argv =
    codes "legacy-5"
    ∷ codes "6"
    ∷ codes "12"
    ∷ codes "ht-mcs-5"
    ∷ codes "0x1f"
    ∷ codes "vht-mcs-5"
    ∷ codes "2:0-9"
    ∷ codes "sgi-5"
    ∷ []

abbrev zeros : List ℕ
zeros = replicate 8 0

abbrev planned : Plan
planned = record {
  ret = 8;
  rates = record no_rates {
    rates_5 = record no_band_rates {
      have_legacy = true;
      legacy = 12 ∷ 24 ∷ [];
      have_ht_mcs = true;
      ht_mcs = 31 ∷ [];
      have_vht_mcs = true;
      vht_argv = codes "2:0-9" ∷ [];
      sgi = true;
    };
  };
  vht_24 = zeros;
  vht_5 = 0 ∷ 1023 ∷ 0 ∷ 0 ∷ 0 ∷ 0 ∷ 0 ∷ 0 ∷ [];
  he_24 = zeros;
  he_5 = zeros;
  he_6 = zeros;
  he_gi = 0;
}

plan_run : plan_bitrates whole false argv ≡ plan planned
unfolding program
plan_run = refl

both_intervals : plan_bitrates whole true (codes "sgi-5" ∷ codes "lgi-5" ∷ []) ≡ return_1
unfolding program
both_intervals = refl

twice_run :
    plan_bitrates whole true (codes "ht-mcs-5" ∷ codes "1" ∷ codes "ht-mcs-5" ∷ []) ≡ return_1
unfolding program
twice_run = refl

plan_bitrates-words_taken_example : planned.ret ≡ (if false then 0 else words_taken argv)
plan_bitrates-words_taken_example = plan_bitrates-words_taken whole false argv planned plan_run

abbrev events : List Event
events =
    open_nest Attr.tx_rates
    ∷ open_nest 1
    ∷ blob TxRate.legacy (12 ∷ 24 ∷ [])
    ∷ blob TxRate.ht (31 ∷ [])
    ∷ blob TxRate.vht (0 ∷ 0 ∷ 255 ∷ 3 ∷ replicate 12 0)
    ∷ u8 TxRate.gi 1
    ∷ close_nest
    ∷ close_nest
    ∷ []

put_run : put_all recorder (plan_attrs Attr.tx_rates planned) [] ≡ ok events
unfolding put_all
put_run = refl

write_plan-put_all_example : write_plan recorder Attr.tx_rates planned [] ≡ ok events
write_plan-put_all_example = write_plan-put_all recorder Attr.tx_rates planned [] events put_run

abbrev many : List Bytes
many = replicate 33 (codes "6")

six-IsLegacyRate : IsLegacyRate whole (codes "6")
unfolding program
six-IsLegacyRate = (refl, refl, refl, refl)

many_rates-IsLegacyRate : (n : ℕ) → All (IsLegacyRate whole) (replicate n (codes "6"))
many_rates-IsLegacyRate zero = tt
many_rates-IsLegacyRate (suc n) = (six-IsLegacyRate, many_rates-IsLegacyRate n)

keyword_run : as_keyword (codes "legacy-5") ≡ some (k_legacy, band_5)
unfolding program
keyword_run = refl

plan_bitrates-overrun_example : plan_bitrates whole true (codes "legacy-5" ∷ many) ≡ faults
plan_bitrates-overrun_example =
    plan_bitrates-overrun whole true (codes "legacy-5") band_5 many keyword_run
      (many_rates-IsLegacyRate 33) (omega arith)
