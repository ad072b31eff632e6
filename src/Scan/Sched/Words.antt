-- ===== src/Scan/Sched/Words.antt =====
-- The words and the variables of `parse_sched_scan` of wifi/iw/scan.c.
use nl.Base.{ℕ, Bool, false, Bytes, Option, none, some, List, [], ◌∷◌, codes, ◌==◌, if◌then◌else◌}
use nl.Libc.{str_eq, starts_with, strtoul, to_u32}
use nl.Scan.Request.{flag_flush, flag_colocated_6ghz, is_random, whole_number}

-- The variable `parse_state`.
pub data NdState : Type 0 where
  nd_toplevel nd_match nd_freqs nd_active nd_plans : NdState

-- The other variables but for the messages.
pub record SchedArgs : Type 0 where
  pub state : NdState
  pub i : ℕ
  pub interval : ℕ
  pub delay : ℕ
  pub have_matchset : Bool
  pub have_freqs : Bool
  pub have_ssids : Bool
  pub have_active : Bool
  pub have_passive : Bool
  pub have_plans : Bool
  pub flags : ℕ

abbrev pub no_sched_args : SchedArgs
no_sched_args = record {
  state = nd_toplevel;
  i = 0;
  interval = 0;
  delay = 0;
  have_matchset = false;
  have_freqs = false;
  have_ssids = false;
  have_active = false;
  have_passive = false;
  have_plans = false;
  flags = 0;
}

abbrev pub match_attr_ssid : ℕ
match_attr_ssid = 1

abbrev pub plan_interval : ℕ
plan_interval = 1

abbrev pub plan_iterations : ℕ
plan_iterations = 2

-- The words of the state ND_TOPLEVEL, in the order of their tests.
pub data TopWord : Type 0 where
  t_interval t_scan_plans t_delay t_matches t_freqs t_active t_passive t_randomise t_other : TopWord
  t_flag : ℕ → TopWord

abbrev pub top_words : List (Bytes × TopWord)
top_words =
    (codes "interval", t_interval)
    ∷ (codes "scan_plans", t_scan_plans)
    ∷ (codes "delay", t_delay)
    ∷ (codes "matches", t_matches)
    ∷ (codes "freqs", t_freqs)
    ∷ (codes "active", t_active)
    ∷ (codes "passive", t_passive)
    ∷ []

-- Behind the whole words, words by their beginning.
abbrev pub by_beginning : Bytes → TopWord
by_beginning w =
    if is_random w
    then t_randomise
    else if starts_with (codes "coloc") w
    then t_flag flag_colocated_6ghz
    else if starts_with (codes "flush") w
    then t_flag flag_flush
    else t_other

abbrev pub find_top : Bytes → List (Bytes × TopWord) → TopWord
find_top w [] = by_beginning w
find_top w ((name, t) ∷ ts) = if str_eq w name then t else find_top w ts

unfoldable pub as_top_word : Bytes → TopWord
as_top_word w = find_top w top_words

-- A plan: an interval, and behind a colon the iterations, which are 0 without one. `none` is -EINVAL.
abbrev pub plan_count : ℕ → Option ℕ → Option (ℕ × ℕ)
plan_count interval none = none
plan_count interval (some v) = if v == 0 then none else some (interval, v)

abbrev pub plan_parts : ℕ × Bytes × Bool → Option (ℕ × ℕ)
plan_parts (v, [], found) = some (to_u32 v, 0)
plan_parts (v, c ∷ iter, found) =
    if c == b':' then plan_count (to_u32 v) (whole_number iter) else none

unfoldable pub read_plan : Bytes → Option (ℕ × ℕ)
read_plan w = plan_parts (strtoul w 10)
