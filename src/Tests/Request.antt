-- ===== src/Tests/Request.antt =====
-- Requests for a scan.
use nl.Base.{true, false, ℕ, Bytes, some, List, [], ◌∷◌, ◌++◌, codes, replicate, All, ◌≡◌, refl}
use nl.Nl80211.Attr
use nl.Libc.{strtoul, cut}
use nl.Netlink.{ok, err, usage, einval, room, ◌>>=◌}
use nl.Util.HexMask.{rejected, parse_hex, parse_hex_mask, mask_loop, read_field}
use nl.Util.RandomMac.{parse_random_mac_addr}
use nl.Scan.Request.{
  flag_flush, as_scan_word, none_word, whole_number, scan_loop, write_scan, handle_scan,
}
use nl.Scan.Request.Plain.{
  IsNumber, flush, coloc, flag_words, flags_of, number_words, put_numbers, put_texts, put_request,
  handle_scan-put_request,
}
use nl.Scan.Request.Reject.{
  Taken, taken_all, taken_flag, taken_freq, taken_number, taken_list_end, taken_randomise,
  handle_scan-bad_ies,
}
use nl.Tests.Recorder.{Event, recorder, u16, u32, blob, open_nest, close_nest}

program : Unit {0}
unfolding cut as_scan_word none_word whole_number strtoul scan_loop write_scan handle_scan
    parse_random_mac_addr parse_hex parse_hex_mask mask_loop read_field
program = tt

abbrev buffer : Bytes
buffer = replicate 6 0

abbrev two_freqs : List (Bytes × ℕ)
two_freqs = (codes "2412", 2412) ∷ (codes "5180", 5180) ∷ []

request_run :
    handle_scan recorder buffer buffer []
      (codes "flush" ∷ codes "freq" ∷ codes "2412" ∷ codes "ssid" ∷ codes "cafe" ∷ [])
    ≡ some (
        ok (
          open_nest Attr.scan_ssids
          ∷ blob 4 (codes "cafe")
          ∷ close_nest
          ∷ open_nest Attr.scan_frequencies
          ∷ u32 2 2412
          ∷ close_nest
          ∷ u32 Attr.scan_flags 2
          ∷ []))
unfolding program
request_run = refl

passive_run :
    handle_scan recorder buffer buffer [] (codes "duration" ∷ codes "50" ∷ codes "passive" ∷ [])
    ≡ some (ok (u32 Attr.scan_flags 16384 ∷ u16 Attr.measurement_duration 50 ∷ []))
unfolding program
passive_run = refl

-- Nothing may follow `passive`.
passive_end_run :
    handle_scan recorder buffer buffer [] (codes "passive" ∷ codes "flush" ∷ []) ≡ some (err usage)
unfolding program
passive_end_run = refl

mesh_run :
    handle_scan recorder buffer buffer []
      (codes "meshid" ∷ codes "m" ∷ codes "ies" ∷ codes "dd:00" ∷ codes "passive" ∷ [])
    ≡ some (ok (blob Attr.ie (0xdd ∷ 0 ∷ 114 ∷ 1 ∷ 109 ∷ []) ∷ u32 Attr.scan_flags 16384 ∷ []))
unfolding program
mesh_run = refl

duration_run :
    handle_scan recorder buffer buffer [] (codes "duration-mandatory" ∷ codes "passive" ∷ [])
    ≡ some (err einval)
unfolding program
duration_run = refl

two_freqs-IsNumber : All IsNumber two_freqs
unfolding program
two_freqs-IsNumber = (refl, (refl, tt))

bad_hex : parse_hex (codes "zz") ≡ rejected
unfolding program
bad_hex = refl

abbrev random_events : List Event
random_events =
    blob Attr.mac (0 ∷ 0 ∷ 0 ∷ 0 ∷ 0 ∷ 0 ∷ [])
    ∷ blob Attr.mac_mask (1 ∷ 0 ∷ 0 ∷ 0 ∷ 0 ∷ 0 ∷ [])
    ∷ []

random_put : parse_random_mac_addr recorder buffer buffer [] (codes "") ≡ ok random_events
unfolding program
random_put = refl

handle_scan-put_request_example :
    handle_scan recorder buffer buffer [] (
      flag_words (flush ∷ coloc ∷ [])
      ++ (codes "freq"
          ∷ (number_words two_freqs ++ (codes "ssid" ∷ codes "cafe" ∷ codes "ies" ∷ []))))
    ≡ some (
        room (put_numbers recorder 3 two_freqs []) >>= λ freqs.
        room (put_texts recorder 6 (codes "cafe" ∷ codes "ies" ∷ []) [])
        >>= put_request recorder (flags_of 0 (flush ∷ coloc ∷ [])) [] freqs)
handle_scan-put_request_example =
    handle_scan-put_request recorder buffer buffer (flush ∷ coloc ∷ []) two_freqs
      (codes "cafe" ∷ codes "ies" ∷ []) [] two_freqs-IsNumber

abbrev bad_words : List Bytes
bad_words = codes "ies" ∷ codes "zz" ∷ codes "passive" ∷ []

bad_words-Taken :
    Taken recorder buffer buffer true random_events bad_words false false [] [] 0
      (codes "flush" ∷ codes "freq" ∷ codes "2412" ∷ codes "randomise" ∷ bad_words)
unfolding program
bad_words-Taken = taken_flag (codes "flush") flag_flush refl refl (
    taken_freq (codes "freq") refl refl (
      taken_number (codes "2412") 2412 (u32 2 2412 ∷ []) refl refl refl (
        taken_list_end (codes "randomise") refl refl (
          taken_randomise (codes "randomise") random_events refl refl random_put
            (taken_all refl refl refl refl)))))

handle_scan-bad_ies_example :
    handle_scan recorder buffer buffer []
      (codes "flush" ∷ codes "freq" ∷ codes "2412" ∷ codes "randomise" ∷ bad_words)
    ≡ some (ok random_events)
handle_scan-bad_ies_example =
    handle_scan-bad_ies recorder buffer buffer true (codes "zz")
      (codes "flush" ∷ codes "freq" ∷ codes "2412" ∷ codes "randomise" ∷ bad_words)
      (codes "passive" ∷ []) [] random_events bad_hex bad_words-Taken
