-- ===== src/Scan/Request/Words.antt =====
-- The words and the variables of `handle_scan` of wifi/iw/scan.c.
use nl.Base.{
  ℕ, ◌%◌, ◌^◌, Bool, false, ◌||◌, Bytes, Option, none, some, List, [], ◌∷◌, length, codes,
  if◌then◌else◌,
}
use nl.Libc.{str_eq, starts_with, strtoul, to_u32}

-- The variable `parse`.
pub data Parse : Type 0 where
  p_none p_freq p_ies p_ssid p_meshid p_duration p_done : Parse

-- The other variables but for the messages. `returned` is whether `err` is 0 by now and no longer
-- -ENOBUFS.
pub record ScanArgs : Type 0 where
  pub parse : Parse
  pub flags : ℕ
  pub duration : ℕ
  pub passive : Bool
  pub have_ssids : Bool
  pub have_freqs : Bool
  pub duration_mandatory : Bool
  pub ies : Option Bytes
  pub meshid : Option Bytes
  pub returned : Bool

abbrev pub no_args : ScanArgs
no_args = record {
  parse = p_none;
  flags = 0;
  duration = 0;
  passive = false;
  have_ssids = false;
  have_freqs = false;
  duration_mandatory = false;
  ies = none;
  meshid = none;
  returned = false;
}

-- The words of the state NONE.
pub data ScanWord : Type 0 where
  w_freq w_ies w_duration_mandatory w_randomise w_ssid w_passive w_meshid w_duration : ScanWord
  w_flag : ℕ → ScanWord

abbrev pub flag_flush : ℕ
flag_flush = 2 ^ 1

abbrev pub flag_random_addr : ℕ
flag_random_addr = 2 ^ 3

abbrev pub flag_colocated_6ghz : ℕ
flag_colocated_6ghz = 2 ^ 14

abbrev pub scan_words : List (Bytes × ScanWord)
scan_words =
    (codes "freq", w_freq)
    ∷ (codes "ies", w_ies)
    ∷ (codes "lowpri", w_flag (2 ^ 0))
    ∷ (codes "flush", w_flag flag_flush)
    ∷ (codes "ap-force", w_flag (2 ^ 2))
    ∷ (codes "coloc", w_flag flag_colocated_6ghz)
    ∷ (codes "duration-mandatory", w_duration_mandatory)
    ∷ []

-- Those behind the test of a random address.
abbrev pub more_words : List (Bytes × ScanWord)
more_words =
    (codes "ssid", w_ssid)
    ∷ (codes "passive", w_passive)
    ∷ (codes "meshid", w_meshid)
    ∷ (codes "duration", w_duration)
    ∷ []

abbrev pub find_word : Bytes → List (Bytes × ScanWord) → Option ScanWord
find_word arg [] = none
find_word arg ((name, w) ∷ ws) = if str_eq arg name then some w else find_word arg ws

abbrev pub is_random : Bytes → Bool
is_random arg = starts_with (codes "randomise") arg || starts_with (codes "randomize") arg

abbrev pub or_else : Option ScanWord → Option ScanWord → Option ScanWord
or_else none o = o
or_else (some w) o = some w

unfoldable pub as_scan_word : Bytes → Option ScanWord
as_scan_word arg =
    or_else (find_word arg scan_words)
      (if is_random arg then some w_randomise else find_word arg more_words)

-- `eptr == argv[i] + strlen(argv[i])`: the number of a whole word.
abbrev pub all_of : ℕ × Bytes × Bool → Option ℕ
all_of (v, [], found) = some (to_u32 v)
all_of (v, c ∷ rest, found) = none

unfoldable pub whole_number : Bytes → Option ℕ
whole_number arg = all_of (strtoul arg 10)

-- The element of a mesh ID.
abbrev pub mesh_element : Bytes → Bytes
mesh_element id = 114 ∷ length id % 256 ∷ id
