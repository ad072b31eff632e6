-- ===== src/Bitrate/Chunk.antt =====
-- `parse_rate_chunk`, `setup_vht` and `setup_he` of wifi/iw/bitrate.c.
pub mod Range
pub mod Setup
use nl.Base.{
  ℕ, zero, suc, ◌+◌, ◌-◌, ◌%◌, ◌^◌, bit_or, Bool, true, false, ◌||◌, Bytes, List, [], ◌∷◌, get_or,
  set, replicate, ltb, ◌==◌, if◌then◌else◌,
}
use nl.Libc.{Directive, number, literal, Scanned, sscanf}

-- `enum nl80211_tx_rate_attributes`, the two modes that the chunks come in.
pub data Mode : Type 0 where
  vht he : Mode

-- A result, `return 0`, or a read of a variable that was never assigned.
pub data Run {ℓ} (A : Type ℓ) : Type ℓ where
  done : A → Run A
  failed : Run A
  uninitialised : Run A

-- `*nss` and `*mcs`.
pub record Chunk : Type 0 where
  pub nss : ℕ
  pub mcs : ℕ

abbrev pub max_mcs : Mode → ℕ
max_mcs he = 11
max_mcs vht = 9

abbrev pub max_nss : Mode → ℕ
max_nss he = 8
max_nss vht = 8

unfoldable pub has_char : ℕ → Bytes → Bool
has_char c [] = false
has_char c (x ∷ xs) = x == c || has_char c xs

-- "%u:%u-%u"
abbrev pub range_format : List Directive
range_format = number 10 ∷ literal b':' ∷ number 10 ∷ literal b'-' ∷ number 10 ∷ []

abbrev pub more_numbers : ℕ → List Directive
more_numbers zero = []
more_numbers (suc n) = literal b',' ∷ number 10 ∷ more_numbers n

-- "%u:%u,%u,…" with one number for each MCS of the mode
abbrev pub list_format : Mode → List Directive
list_format mode = number 10 ∷ literal b':' ∷ number 10 ∷ more_numbers (max_mcs mode)

-- `for (i = start; i <= end; i++) *mcs |= 1 << i`, by the rounds left. A store in a `__u16`.
unfoldable pub or_range : (rounds i : ℕ) → ℕ → ℕ
or_range zero i mcs = mcs
or_range (suc rounds) i mcs = or_range rounds (i + 1) (bit_or mcs (2 ^ i) % 2 ^ 16)

abbrev pub bad_nss : Mode → ℕ → Bool
bad_nss mode inss = ltb inss 1 || ltb (max_nss mode) inss

-- NSS:MCS_START-MCS_END, on what `sscanf` stored.
unfoldable pub range_chunk : Mode → List ℕ → Run Chunk
range_chunk mode (inss ∷ mcs_start ∷ mcs_end ∷ []) =
    if bad_nss mode inss
    then failed
    else if ltb mcs_end mcs_start
    then failed
    else if ltb (max_mcs mode) mcs_start || ltb (max_mcs mode) mcs_end
    then failed
    else done (record { nss = inss; mcs = or_range (mcs_end + 1 - mcs_start) mcs_start 0 })
range_chunk mode _ = failed

-- `for (i = 0; i < count - 1; i++)` over `tab`.
unfoldable pub or_table : Mode → ℕ → List ℕ → ℕ → Run Chunk
or_table mode inss [] mcs = done (record { nss = inss; mcs = mcs })
or_table mode inss (t ∷ tab) mcs =
    let rest = or_table mode inss tab (bit_or mcs (2 ^ t) % 2 ^ 16) in
    if ltb (max_mcs mode) t then failed else rest

-- NSS:MCSx,MCSy,… on what `sscanf` stored. EOF is -1 in an `unsigned` count, and passes `count < 2`.
unfoldable pub list_chunk : Mode → Bool → List ℕ → Run Chunk
list_chunk mode true values = uninitialised
list_chunk mode false (inss ∷ t ∷ tab) =
    if bad_nss mode inss then failed else or_table mode inss (t ∷ tab) 0
list_chunk mode false _ = failed

unfoldable pub parse_rate_chunk : Bytes → Mode → Run Chunk
parse_rate_chunk arg mode =
    if has_char b'-' arg
    then range_chunk mode (sscanf arg range_format).values
    else list_chunk mode (sscanf arg (list_format mode)).eof (sscanf arg (list_format mode)).values

-- `nss--; txrate->mcs[nss] |= mcs` on the table of eight masks; `nss` is a `__u8`.
abbrev pub or_mcs : List ℕ → Chunk → List ℕ
or_mcs table c =
    set table ((c.nss + 255) % 256) (bit_or (get_or table ((c.nss + 255) % 256) 0) c.mcs % 2 ^ 16)

abbrev pub then_setup : Run Chunk → (Chunk → Run (List ℕ)) → Run (List ℕ)
then_setup (done c) next = next c
then_setup failed next = failed
then_setup uninitialised next = uninitialised

unfoldable pub setup_loop : Mode → List Bytes → List ℕ → Run (List ℕ)
setup_loop mode [] table = done table
setup_loop mode (arg ∷ argv) table =
    then_setup (parse_rate_chunk arg mode) (λ c. setup_loop mode argv (or_mcs table c))

-- `memset` and the loop, which `setup_vht` and `setup_he` share but for the mode.
unfoldable pub setup : Mode → List Bytes → Run (List ℕ)
setup mode argv = setup_loop mode argv (replicate 8 0)

abbrev pub setup_vht : List Bytes → Run (List ℕ)
setup_vht = setup vht

abbrev pub setup_he : List Bytes → Run (List ℕ)
setup_he = setup he
