-- ===== src/Tests/Nan.antt =====
-- The Bloom filter, and the sum that it uses.
use Prim.Native.Nat.{bit_xor}
use nl.Base.{replicate, arith, ◌^◌, ◌-◌, ◌≡◌, refl, some, none, [], ◌∷◌, get_or, codes}
use nl.Nan.Sha256.{
  done_or_none, last_words, words_out, sha256, compute_service_id, sha256_compress, sha256_init,
  hash_block, process_round, process_loop, sha256_process, zero_loop, zeros_up_to, sha256_done,
}
use nl.Nan.Sha256.Blocks.{digest, blocks_within}
use nl.Nan.Sha256.Digest.{process_all, sha256_done-process_all}
use nl.Nan.Bloom.{crc32_tab, crc32, h, set_bit, bf_loop, nan_bf}
use nl.Nan.Bloom.Laws.{shift_all, crc32_tab-shift_all}

program : Unit {0}
unfolding crc32_tab crc32 h set_bit bf_loop nan_bf
program = tt

-- The check value of CRC-32, before its last inversion.
check_run : bit_xor (crc32 (2 ^ 32 - 1) (codes "123456789")) (2 ^ 32 - 1) ≡ 0xcbf43926
unfolding program
check_run = refl

-- A length of 2 ^ 13 comes to a division by zero.
too_long_run : nan_bf 0 (0 ∷ []) (2 ^ 13) (codes "a") ≡ none
unfolding program
too_long_run = refl

crc32_tab-shift_all_example : get_or crc32_tab 200 0 ≡ shift_all 8 200
crc32_tab-shift_all_example = crc32_tab-shift_all 200 (omega arith)

hash_program : Unit {0}
unfolding sha256 last_words words_out compute_service_id sha256_compress sha256_init hash_block
    process_round process_loop sha256_process zero_loop zeros_up_to sha256_done
hash_program = tt

-- The test vector "abc" of FIPS 180-4.
abc_run :
    sha256 (replicate 64 255) (codes "abc")
    ≡ some (
        186 ∷ 120 ∷ 22 ∷ 191 ∷ 143 ∷ 1 ∷ 207 ∷ 234 ∷ 65 ∷ 65 ∷ 64 ∷ 222 ∷ 93 ∷ 174 ∷ 34 ∷ 35 ∷ 176
        ∷ 3 ∷ 97 ∷ 163 ∷ 150 ∷ 23 ∷ 122 ∷ 156 ∷ 180 ∷ 16 ∷ 255 ∷ 97 ∷ 242 ∷ 0 ∷ 21 ∷ 173 ∷ [])
unfolding hash_program
abc_run = refl

-- A text of two blocks when padded.
two_blocks_run :
    compute_service_id
      (replicate 64 255)
      (codes "abcdbcdecdefdefgefghfghighijhijkijkljklmklmnlmnomnopnopq")
    ≡ some (36 ∷ 141 ∷ 106 ∷ 97 ∷ 210 ∷ 6 ∷ [])
unfolding hash_program
two_blocks_run = refl

digest_run : some (digest (codes "abc")) ≡ sha256 (replicate 64 0) (codes "abc")
unfolding hash_program digest blocks_within
digest_run = refl

sha256_done-process_all_example :
    done_or_none
      (process_all (some (sha256_init (replicate 64 255))) (codes "ab" ∷ [] ∷ codes "c" ∷ []))
    ≡ some (digest (codes "abc"))
sha256_done-process_all_example =
    sha256_done-process_all (replicate 64 255) (codes "ab" ∷ [] ∷ codes "c" ∷ []) refl
