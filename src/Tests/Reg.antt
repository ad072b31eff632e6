-- ===== src/Tests/Reg.antt =====
-- The country of the regulatory domain.
use nl.Base.{Bytes, ◌≡◌, refl, List, [], ◌∷◌, codes, some}
use nl.Nl80211.Attr
use nl.Netlink.{ok, err, usage, explained}
use nl.Reg.{handle_reg_set, first_byte, second_byte}
use nl.Reg.Country.{IsCountry, handle_reg_set-IsCountry}
use nl.Tests.Recorder.{Event, recorder, blob}

abbrev us_events : List Event
us_events = blob Attr.reg_alpha2 (85 ∷ 83 ∷ 0 ∷ []) ∷ []

country_run : handle_reg_set recorder [] (codes "US" ∷ []) ≡ ok us_events
unfolding handle_reg_set
country_run = refl

-- A longer word is cut.
cut_run : handle_reg_set recorder [] (codes "USA" ∷ []) ≡ ok us_events
unfolding handle_reg_set
cut_run = refl

lower_run : handle_reg_set recorder [] (codes "us" ∷ []) ≡ err explained
unfolding handle_reg_set
lower_run = refl

two_words_run : handle_reg_set recorder [] (codes "00" ∷ codes "US" ∷ []) ≡ err usage
unfolding handle_reg_set
two_words_run = refl

handle_reg_set-IsCountry_example :
    (w : Bytes) × (codes "US" ∷ [] ≡ w ∷ [])
    × IsCountry (first_byte w) (second_byte w)
    × (recorder.nla_put [] Attr.reg_alpha2 (first_byte w ∷ second_byte w ∷ 0 ∷ []) ≡ some us_events)
handle_reg_set-IsCountry_example =
    handle_reg_set-IsCountry recorder [] us_events (codes "US" ∷ []) country_run
