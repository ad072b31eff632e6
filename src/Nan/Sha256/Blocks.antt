-- ===== src/Nan/Sha256/Blocks.antt =====
-- SHA-256 as FIPS 180-4 has it, a fold over the blocks of a padded message, and the messages that a
-- `struct sha256_state` stands for.
use nl.Base.{
  append-nil, take-append, drop-append, ℕ, zero, suc, ◌+◌, ◌-◌, ◌*◌, ◌%◌, ◌^◌, ◌≤◌, Bytes, List, [],
  ◌∷◌, ◌++◌, length, take, drop, replicate, All, ◌≡◌, refl, sym, ap, ◌∙◌, arith, append_assoc,
  length-append,
}
use nl.Nan.Sha256.{Words, Sha256State, initial_words, sha256_compress, words_out, store64b}

abbrev pub IsBlock : Bytes → Type 0
IsBlock block = length block ≡ 64

abbrev pub concat : List Bytes → Bytes
concat [] = []
concat (b ∷ bs) = b ++ concat bs

abbrev pub compress_all : Words → List Bytes → Words
compress_all s [] = s
compress_all s (b ∷ bs) = compress_all (sha256_compress s b) bs

-- The blocks of a message, at most `fuel` of them.
unfoldable pub blocks_within : (fuel : ℕ) → Bytes → List Bytes
blocks_within zero m = []
blocks_within (suc fuel) [] = []
blocks_within (suc fuel) (x ∷ m) = take 64 (x ∷ m) ∷ blocks_within fuel (drop 64 (x ∷ m))

-- A one bit, zeros up to 448 bits modulo 512, and the number of bits of the message.
abbrev pub pad : Bytes → Bytes
pad m = m ++ (0x80 ∷ (replicate ((119 - length m % 64) % 64) 0 ++ store64b (8 * length m % 2 ^ 64)))

unfoldable pub digest : Bytes → Bytes
digest m = words_out (compress_all initial_words (blocks_within (length (pad m)) (pad m)))

-- The state has taken the bytes `m`: whole blocks are in its words, the rest is in its buffer.
pub record Takes (md : Sha256State) (m : Bytes) : Type 0 where
  pub blocks : List Bytes
  pub tail : Bytes
  pub free : Bytes
  pub whole : m ≡ concat blocks ++ tail
  pub full : All IsBlock blocks
  pub words : md.state ≡ compress_all initial_words blocks
  pub used : md.curlen ≡ length tail
  pub kept : md.buf ≡ tail ++ free
  pub room : length tail + length free ≡ 64

-- The bits counted, with those in the buffer, are the bits of `m`.
abbrev pub Counts : Sha256State → Bytes → Type 0
Counts md m = (md.length + md.curlen * 8) % 2 ^ 64 ≡ 8 * length m % 2 ^ 64

concat-append : (bs cs : List Bytes) → concat (bs ++ cs) ≡ concat bs ++ concat cs
concat-append [] cs = refl
concat-append (b ∷ bs) cs =
    ap (λ m. b ++ m) (concat-append bs cs) ∙ sym (append_assoc b (concat bs) (concat cs))

pub compress_all-append :
    (s : Words) (bs cs : List Bytes)
    → compress_all s (bs ++ cs) ≡ compress_all (compress_all s bs) cs
compress_all-append s [] cs = refl
compress_all-append s (b ∷ bs) cs = compress_all-append (sha256_compress s b) bs cs

pub concat_one : (bs : List Bytes) (b : Bytes) → concat (bs ++ (b ∷ [])) ≡ concat bs ++ b
concat_one bs b = concat-append bs (b ∷ []) ∙ ap (λ m. concat bs ++ m) (append-nil b)

pub IsBlock-one :
    (bs : List Bytes) (b : Bytes) → All IsBlock bs → IsBlock b → All IsBlock (bs ++ (b ∷ []))
IsBlock-one [] b full h = (h, tt)
IsBlock-one (c ∷ bs) b (hc, full) h = (hc, IsBlock-one bs b full h)

pub length-concat : (bs : List Bytes) → All IsBlock bs → length (concat bs) ≡ 64 * length bs
length-concat [] full = refl
length-concat (b ∷ bs) (h, full) =
    omega (arith, h, length-append b (concat bs), length-concat bs full)

take_block : (b m : Bytes) → IsBlock b → take 64 (b ++ m) ≡ b
take_block b m h = ap (λ n. take n (b ++ m)) (sym h) ∙ take-append b m

drop_block : (b m : Bytes) → IsBlock b → drop 64 (b ++ m) ≡ m
drop_block b m h = ap (λ n. drop n (b ++ m)) (sym h) ∙ drop-append b m

blocks_within-cons :
    (fuel : ℕ) (b m : Bytes)
    → IsBlock b
    → blocks_within (suc fuel) (b ++ m) ≡ b ∷ blocks_within fuel m
unfolding blocks_within
blocks_within-cons fuel [] m h = absurd (omega (arith, h))
blocks_within-cons fuel (x ∷ b) m h =
    ap (λ t. t ∷ blocks_within fuel (drop 64 ((x ∷ b) ++ m))) (take_block (x ∷ b) m h)
    ∙ ap (λ t. (x ∷ b) ∷ blocks_within fuel t) (drop_block (x ∷ b) m h)

-- The blocks of a message are the ones that it was put together from.
pub blocks_within-concat :
    (fuel : ℕ) (bs : List Bytes)
    → All IsBlock bs
    → length bs ≤ fuel
    → blocks_within fuel (concat bs) ≡ bs
unfolding blocks_within
blocks_within-concat zero [] full h = refl
blocks_within-concat (suc fuel) [] full h = refl
blocks_within-concat zero (b ∷ bs) full h = absurd (omega arith)
blocks_within-concat (suc fuel) (b ∷ bs) (hb, full) h =
    blocks_within-cons fuel b (concat bs) hb
    ∙ ap (◌∷◌ b) (blocks_within-concat fuel bs full (omega arith))
