-- ===== src/Tests/Chandef.antt =====
-- Channel definitions on the command line and in a message.
use nl.Base.{◌+◌, ◌≤◌, true, false, ◌≡◌, ◌≢◌, ◌⊎◌, refl, Bytes, List, [], ◌∷◌, codes, arith}
use nl.Libc.{strtoul}
use nl.Nl80211.Attr
use nl.Netlink.{nil, u32, put_all}
use nl.Util.Channel.{width_40, width_80p80, channel_to_frequency, get_cf1}
use nl.Util.Chandef.{
  Chandef, plain_channel, outcome, parse_freqchan, parse_words, parse_freqs, parse_center1,
  parse_center2, read_center, read_freq, str_to_bw, bw_lookup, find_mode, select_mode,
  control_frequency, put_chandef,
}
use nl.Util.Chandef.Laws.{parse_freqchan-used}
use nl.Util.Chandef.Freqs.{CentersAre, named_80p80, parse_freqs-Names}
use nl.Util.Chandef.Message.{
  chandef_attrs, put_chandef-put_all, parse_freqchan-ht40, ht40_word, ht40_center,
}
use nl.Tests.Recorder.{recorder}

program : Unit {0}
unfolding strtoul read_freq read_center parse_center1 parse_center2 bw_lookup str_to_bw parse_freqs
    find_mode select_mode control_frequency channel_to_frequency get_cf1 parse_words parse_freqchan
program = tt

abbrev blank_chandef : Chandef
blank_chandef = plain_channel 0

channel_run :
    parse_freqchan blank_chandef true (codes "36" ∷ codes "ht40+" ∷ []) false
    ≡ outcome 0 (record (plain_channel 5180) { center_freq1 = 5190; width = width_40 }) 2
unfolding program
channel_run = refl

two_centers_run :
    parse_freqchan blank_chandef false
      (codes "5180" ∷ codes "80+80" ∷ codes "5210" ∷ codes "5775" ∷ [])
      true
    ≡ outcome 0
        (record (plain_channel 5180) {
          center_freq1 = 5210;
          center_freq2 = 5775;
          width = width_80p80;
        })
        4
unfolding program
two_centers_run = refl

left_over_run :
    (parse_freqchan blank_chandef true (codes "36" ∷ codes "HT20" ∷ codes "x" ∷ []) false).code ≡ 1
unfolding program
left_over_run = refl

parse_freqchan-used_example :
    ((parse_freqchan blank_chandef true (codes "36" ∷ codes "HT20" ∷ []) false).used ≤ 2)
    × (((parse_freqchan blank_chandef true (codes "36" ∷ codes "HT20" ∷ []) false).code ≢ 0)
        ⊎ ((1 ≤ (parse_freqchan blank_chandef true (codes "36" ∷ codes "HT20" ∷ []) false).used)
            × ((false ≡ true)
                ⊎ ((parse_freqchan blank_chandef true (codes "36" ∷ codes "HT20" ∷ []) false).used
                    ≡ 2))))
parse_freqchan-used_example =
    parse_freqchan-used blank_chandef true (codes "36" ∷ codes "HT20" ∷ []) false

abbrev centers : List Bytes
centers = codes "5210" ∷ codes "5775" ∷ []

parse_freqs-Names_example :
    (((parse_freqs blank_chandef (codes "80+80" ∷ centers) 1).code ≡ 0)
      × ((parse_freqs blank_chandef (codes "80+80" ∷ centers) 1).chandef.width ≡ width_80p80)
      × ((parse_freqs blank_chandef (codes "80+80" ∷ centers) 1).chandef.control_freq ≡ 0)
      × ((parse_freqs blank_chandef (codes "80+80" ∷ centers) 1).used ≡ 1 + 1 + 2)
      × CentersAre 2 blank_chandef centers
          (parse_freqs blank_chandef (codes "80+80" ∷ centers) 1).chandef)
    ⊎ (((parse_freqs blank_chandef (codes "80+80" ∷ centers) 1).code ≡ 1)
        × (¬ ((c' : Chandef) × CentersAre 2 blank_chandef centers c')))
parse_freqs-Names_example =
    parse_freqs-Names blank_chandef (codes "80+80") width_80p80 2 centers 1
      (named_80p80 refl refl refl)

put_chandef-put_all_example :
    put_chandef recorder [] (plain_channel 5180)
    ≡ put_all recorder (chandef_attrs (plain_channel 5180)) []
put_chandef-put_all_example = put_chandef-put_all recorder (plain_channel 5180) []

parse_freqchan-ht40_example :
    ((parse_freqchan blank_chandef true (codes "36" ∷ ht40_word true ∷ []) true).code ≡ 0)
    × ((parse_freqchan blank_chandef true (codes "36" ∷ ht40_word true ∷ []) true).used ≡ 2)
    × (put_chandef recorder []
          (parse_freqchan blank_chandef true (codes "36" ∷ ht40_word true ∷ []) true).chandef
        ≡ put_all recorder
            (u32 Attr.wiphy_freq (control_frequency true 36) (
              u32 Attr.channel_width 2 (
                u32 Attr.wiphy_channel_type 3
                  (u32 Attr.center_freq1 (ht40_center true (control_frequency true 36)) nil))))
            [])
unfolding program
parse_freqchan-ht40_example =
    parse_freqchan-ht40 recorder [] true true blank_chandef (codes "36") [] 36 true refl
      (omega arith) (omega arith)
