-- ===== src/Tests/Sched.antt =====
-- Scheduled scans.
use nl.Base.{ℕ, List, ◌++◌, length, ◌≤◌, Bytes, some, none, [], ◌∷◌, codes, replicate, ◌≡◌, refl}
use nl.Nl80211.Attr
use nl.Libc.{strtoul}
use nl.Netlink.{einval, ok, put_all}
use nl.Scan.Request.{whole_number}
use nl.Scan.Sched.{
  handle_start_sched_scan, t_other, as_top_word, read_plan, interval_word, delay_word, enter,
  end_list, match_ssid, active_ssid, freqs_word, plans_word, sched_step, write_sched, sched_loop,
  parse_sched_scan, Ended,
}
use nl.Scan.Sched.Ends.{parse_sched_scan-Ended}
use nl.Scan.Sched.Lost.{texts, AreNumbers, freqs_attrs, handle_start_sched_scan-lost}
use nl.Tests.Recorder.{Event, blob, recorder, u32, open_nest, close_nest}

program : Unit {0}
unfolding strtoul whole_number as_top_word read_plan interval_word delay_word enter end_list
    match_ssid active_ssid freqs_word plans_word sched_step write_sched sched_loop parse_sched_scan
program = tt

abbrev buffer : Bytes
buffer = replicate 6 0

interval_run :
    parse_sched_scan recorder buffer buffer []
      (codes "interval" ∷ codes "2000" ∷ codes "freqs" ∷ codes "2412" ∷ codes "passive" ∷ [])
    ≡ some record {
      code = none;
      msg =
          u32 Attr.sched_scan_interval 2000
          ∷ open_nest Attr.scan_frequencies
          ∷ u32 0 2412
          ∷ close_nest
          ∷ [];
      words = [];
    }
unfolding program
interval_run = refl

plans_run :
    parse_sched_scan recorder buffer buffer []
      (codes "passive" ∷ codes "scan_plans" ∷ codes "10:3" ∷ codes "60" ∷ [])
    ≡ some record {
      code = none;
      msg =
          open_nest Attr.sched_scan_plans
          ∷ open_nest 1
          ∷ u32 1 10
          ∷ u32 2 3
          ∷ close_nest
          ∷ open_nest 2
          ∷ u32 1 60
          ∷ close_nest
          ∷ close_nest
          ∷ [];
      words = [];
    }
unfolding program
plans_run = refl

-- `matches` without one is an error.
matches_run :
    parse_sched_scan recorder buffer buffer [] (codes "matches" ∷ codes "passive" ∷ [])
    ≡ some record { code = some einval; msg = []; words = codes "passive" ∷ [] }
unfolding program
matches_run = refl

parse_sched_scan-Ended_example :
    (e : Ended recorder) × (parse_sched_scan recorder buffer buffer []
        (codes "freqs" ∷ codes "x" ∷ [])
      ≡ some e)
    × (length e.words ≤ 2)
parse_sched_scan-Ended_example =
    parse_sched_scan-Ended recorder buffer buffer [] (codes "freqs" ∷ codes "x" ∷ [])

number_2412 : whole_number (codes "2412") ≡ some 2412
unfolding program
number_2412 = refl

no_number : whole_number (codes "disconnect") ≡ none
unfolding program
no_number = refl

foreign_word : as_top_word (codes "disconnect") ≡ t_other
unfolding program
foreign_word = refl

number_5180 : whole_number (codes "5180") ≡ some 5180
unfolding program
number_5180 = refl

abbrev two_freqs : List (Bytes × ℕ)
two_freqs = (codes "2412", 2412) ∷ (codes "5180", 5180) ∷ []

two_freqs-AreNumbers : AreNumbers two_freqs
two_freqs-AreNumbers = (number_2412, (number_5180, tt))

two_freqs_put : put_all recorder (freqs_attrs 0 two_freqs) [] ≡ ok (u32 0 2412 ∷ u32 1 5180 ∷ [])
unfolding put_all
two_freqs_put = refl

abbrev wildcard_events : List Event
wildcard_events = open_nest Attr.scan_ssids ∷ blob 1 [] ∷ close_nest ∷ []

abbrev freqs_events : List Event
freqs_events =
    wildcard_events ++ (open_nest Attr.scan_frequencies ∷ u32 0 2412 ∷ u32 1 5180 ∷ close_nest ∷ [])

handle_start_sched_scan-lost_example :
    (handle_start_sched_scan recorder buffer buffer [] (codes "freqs" ∷ texts two_freqs [])
      ≡ some (ok freqs_events))
    × (handle_start_sched_scan recorder buffer buffer []
          (codes "freqs" ∷ texts two_freqs (codes "disconnect" ∷ []))
        ≡ some (ok []))
handle_start_sched_scan-lost_example =
    handle_start_sched_scan-lost recorder buffer buffer (codes "2412", 2412)
      ((codes "5180", 5180) ∷ []) [] (u32 0 2412 ∷ u32 1 5180 ∷ []) (blob 1 [] ∷ []) wildcard_events
      freqs_events (codes "disconnect") [] two_freqs-AreNumbers two_freqs_put refl refl refl
      no_number foreign_word
