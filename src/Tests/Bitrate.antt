-- ===== src/Tests/Bitrate.antt =====
-- Words of rates.
use nl.Base.{ℕ, ◌≡◌, refl, Bytes, List, [], ◌∷◌, length, codes, get_or}
use nl.Base.Bits.{test_bit}
use nl.Libc.{strtoul, scan_from}
use nl.Bitrate.Chunk.{
  parse_rate_chunk, has_char, range_chunk, list_chunk, or_range, or_table, vht, he, done, Chunk,
  setup, setup_loop,
}
use nl.Bitrate.Chunk.Range.{Accepts, asks_for, parse_rate_chunk-Accepts}
use nl.Bitrate.Chunk.Setup.{any_sets_bit, setup-bits}

program : Unit {0}
unfolding parse_rate_chunk has_char range_chunk list_chunk or_range or_table scan_from strtoul setup
    setup_loop
program = tt

abbrev chunk : ℕ → ℕ → Chunk
chunk nss mcs = record { nss = nss; mcs = mcs }

range_run : parse_rate_chunk (codes "2:0-3") vht ≡ done (chunk 2 15)
unfolding program
range_run = refl

list_run : parse_rate_chunk (codes "2:0,4,9") vht ≡ done (chunk 2 529)
unfolding program
list_run = refl

abbrev words : List Bytes
words = codes "2:0,4" ∷ codes "2:10-11" ∷ codes "1:3" ∷ []

abbrev masks : List ℕ
masks = 8 ∷ 3089 ∷ 0 ∷ 0 ∷ 0 ∷ 0 ∷ 0 ∷ 0 ∷ []

setup_run : setup he words ≡ done masks
unfolding program
setup_run = refl

parse_rate_chunk-Accepts_example : Accepts (asks_for (codes "2:0-3") vht) vht (chunk 2 15)
parse_rate_chunk-Accepts_example =
    parse_rate_chunk-Accepts (codes "2:0-3") vht (chunk 2 15) range_run

setup-bits_example :
    (length masks ≡ 8) × ((k j : ℕ) → test_bit (get_or masks k 0) j ≡ any_sets_bit he words k j)
setup-bits_example = setup-bits he words masks setup_run
