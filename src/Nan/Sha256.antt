-- ===== src/Nan/Sha256.antt =====
-- wifi/iw/sha256.c with its header: SHA-256, of which wifi/iw/nan.c sends six bytes as the identity of a
-- service.
pub mod Blocks
pub mod Process
pub mod Padding
pub mod Digest
use Prim.Native.Nat.{bit_xor, bit_and}
use nl.Base.{
  ℕ, zero, suc, ◌+◌, ◌-◌, ◌*◌, ◌/◌, ◌%◌, ◌^◌, min, bit_or, Bytes, Option, none, some, List, [], ◌∷◌,
  ◌++◌, length, take, drop, set, get_or, ltb, leb, ◌==◌, ◌&&◌, if◌then◌else◌,
}

abbrev pub block_size : ℕ
block_size = 64

abbrev pub k_table : List ℕ
k_table =
    0x428a2f98 ∷ 0x71374491 ∷ 0xb5c0fbcf ∷ 0xe9b5dba5 ∷ 0x3956c25b ∷ 0x59f111f1 ∷ 0x923f82a4
    ∷ 0xab1c5ed5 ∷ 0xd807aa98 ∷ 0x12835b01 ∷ 0x243185be ∷ 0x550c7dc3 ∷ 0x72be5d74 ∷ 0x80deb1fe
    ∷ 0x9bdc06a7 ∷ 0xc19bf174 ∷ 0xe49b69c1 ∷ 0xefbe4786 ∷ 0x0fc19dc6 ∷ 0x240ca1cc ∷ 0x2de92c6f
    ∷ 0x4a7484aa ∷ 0x5cb0a9dc ∷ 0x76f988da ∷ 0x983e5152 ∷ 0xa831c66d ∷ 0xb00327c8 ∷ 0xbf597fc7
    ∷ 0xc6e00bf3 ∷ 0xd5a79147 ∷ 0x06ca6351 ∷ 0x14292967 ∷ 0x27b70a85 ∷ 0x2e1b2138 ∷ 0x4d2c6dfc
    ∷ 0x53380d13 ∷ 0x650a7354 ∷ 0x766a0abb ∷ 0x81c2c92e ∷ 0x92722c85 ∷ 0xa2bfe8a1 ∷ 0xa81a664b
    ∷ 0xc24b8b70 ∷ 0xc76c51a3 ∷ 0xd192e819 ∷ 0xd6990624 ∷ 0xf40e3585 ∷ 0x106aa070 ∷ 0x19a4c116
    ∷ 0x1e376c08 ∷ 0x2748774c ∷ 0x34b0bcb5 ∷ 0x391c0cb3 ∷ 0x4ed8aa4a ∷ 0x5b9cca4f ∷ 0x682e6ff3
    ∷ 0x748f82ee ∷ 0x78a5636f ∷ 0x84c87814 ∷ 0x8cc70208 ∷ 0x90befffa ∷ 0xa4506ceb ∷ 0xbef9a3f7
    ∷ 0xc67178f2 ∷ []

-- `(__u32)x`
abbrev pub u32 : ℕ → ℕ
u32 x = x % 2 ^ 32

-- Four bytes from `i` on, the highest one first.
abbrev pub load32b : Bytes → ℕ → ℕ
load32b buf i =
    bit_or
      (bit_or (bit_or (get_or buf i 0 * 2 ^ 24) (get_or buf (i + 1) 0 * 2 ^ 16))
        (get_or buf (i + 2) 0 * 2 ^ 8))
      (get_or buf (i + 3) 0)

abbrev pub store32b : ℕ → Bytes
store32b v = v / 2 ^ 24 % 256 ∷ v / 2 ^ 16 % 256 ∷ v / 2 ^ 8 % 256 ∷ v % 256 ∷ []

abbrev pub store64b : ℕ → Bytes
store64b v = store32b (v / 2 ^ 32) ++ store32b v

abbrev pub ror_c : ℕ → ℕ → ℕ
ror_c x y = u32 (bit_or (u32 x / 2 ^ (y % 32)) (x * 2 ^ (32 - y % 32)))

abbrev pub ch : ℕ → ℕ → ℕ → ℕ
ch x y z = bit_xor z (bit_and x (bit_xor y z))

abbrev pub maj : ℕ → ℕ → ℕ → ℕ
maj x y z = bit_or (bit_and (bit_or x y) z) (bit_and x y)

abbrev pub sigma0 : ℕ → ℕ
sigma0 x = bit_xor (bit_xor (ror_c x 2) (ror_c x 13)) (ror_c x 22)

abbrev pub sigma1 : ℕ → ℕ
sigma1 x = bit_xor (bit_xor (ror_c x 6) (ror_c x 11)) (ror_c x 25)

abbrev pub gamma0 : ℕ → ℕ
gamma0 x = bit_xor (bit_xor (ror_c x 7) (ror_c x 18)) (u32 x / 2 ^ 3)

abbrev pub gamma1 : ℕ → ℕ
gamma1 x = bit_xor (bit_xor (ror_c x 17) (ror_c x 19)) (u32 x / 2 ^ 10)

-- The eight words of `state`.
pub record Words : Type 0 where
  pub a : ℕ
  pub b : ℕ
  pub c : ℕ
  pub d : ℕ
  pub e : ℕ
  pub f : ℕ
  pub g : ℕ
  pub h : ℕ

-- `struct sha256_state`
pub record Sha256State : Type 0 where
  pub length : ℕ
  pub state : Words
  pub curlen : ℕ
  pub buf : Bytes

-- `W[0..15]`, by the rounds left.
abbrev pub load_words : Bytes → (rounds i : ℕ) → List ℕ
load_words buf zero i = []
load_words buf (suc rounds) i = load32b buf (4 * i) ∷ load_words buf rounds (i + 1)

-- `W[i]` up to 63 behind the words `w` below it.
abbrev pub fill_words : (rounds i : ℕ) → List ℕ → List ℕ
fill_words zero i w = w
fill_words (suc rounds) i w = fill_words rounds (i + 1) (
    w
    ++ (u32 (
          gamma1 (get_or w (i - 2) 0)
          + get_or w (i - 7) 0
          + gamma0 (get_or w (i - 15) 0)
          + get_or w (i - 16) 0)
        ∷ []))

-- RND and the turn of the words behind it.
abbrev pub round_words : Words → ℕ → ℕ → Words
round_words s k w =
    let t0 = u32 (s.h + sigma1 s.e + ch s.e s.f s.g + k + w) in
    let t1 = u32 (sigma0 s.a + maj s.a s.b s.c) in
    record {
      a = u32 (t0 + t1);
      b = s.a;
      c = s.b;
      d = s.c;
      e = u32 (s.d + t0);
      f = s.e;
      g = s.f;
      h = s.g;
    }

abbrev pub round_loop : (rounds i : ℕ) → List ℕ → Words → Words
round_loop zero i w s = s
round_loop (suc rounds) i w s =
    round_loop rounds (i + 1) w (round_words s (get_or k_table i 0) (get_or w i 0))

abbrev pub add_words : Words → Words → Words
add_words s t = record {
  a = u32 (s.a + t.a);
  b = u32 (s.b + t.b);
  c = u32 (s.c + t.c);
  d = u32 (s.d + t.d);
  e = u32 (s.e + t.e);
  f = u32 (s.f + t.f);
  g = u32 (s.g + t.g);
  h = u32 (s.h + t.h);
}

-- `sha256_compress` on the words of the state and the 64 bytes of a block.
unfoldable pub sha256_compress : Words → Bytes → Words
sha256_compress state buf =
    add_words state (round_loop 64 0 (fill_words 48 16 (load_words buf 16 0)) state)

abbrev pub initial_words : Words
initial_words = record {
  a = 0x6A09E667;
  b = 0xBB67AE85;
  c = 0x3C6EF372;
  d = 0xA54FF53A;
  e = 0x510E527F;
  f = 0x9B05688C;
  g = 0x1F83D9AB;
  h = 0x5BE0CD19;
}

-- `buf` keeps what it held.
unfoldable pub sha256_init : Bytes → Sha256State
sha256_init buf = record { length = 0; state = initial_words; curlen = 0; buf = buf }

-- A block is hashed.
unfoldable pub hash_block : Sha256State → Bytes → Sha256State
hash_block md block = record md {
  length = (md.length + block_size * 8) % 2 ^ 64;
  state = sha256_compress md.state block;
}

-- `memcpy(md->buf + md->curlen, in, n)`
abbrev pub copy_in : Sha256State → Bytes → Sha256State
copy_in md bytes = record md {
  curlen = md.curlen + length bytes;
  buf = take md.curlen md.buf ++ (bytes ++ drop (md.curlen + length bytes) md.buf);
}

abbrev pub flush_full : Sha256State → Sha256State
flush_full md = if md.curlen == block_size then record (hash_block md md.buf) { curlen = 0 } else md

-- A round of the loop: the state behind it, and the bytes it has not taken.
unfoldable pub process_round : Sha256State → Bytes → Sha256State × Bytes
process_round md input =
    if md.curlen == 0 && leb block_size (length input)
    then (hash_block md (take block_size input), drop block_size input)
    else let n = min (length input) (block_size - md.curlen) in
      (flush_full (copy_in md (take n input)), drop n input)

-- `while (inlen > 0)`, on fuel.
unfoldable pub process_loop : (fuel : ℕ) → Sha256State → Bytes → Option Sha256State
process_loop fuel md [] = some md
process_loop zero md (x ∷ input) = none
process_loop (suc fuel) md (x ∷ input) =
    let (md', rest) = process_round md (x ∷ input) in process_loop fuel md' rest

-- `none` is -1; the fuel is enough, since a round takes a byte at least.
unfoldable pub sha256_process : Sha256State → Bytes → Option Sha256State
sha256_process md input =
    if leb block_size md.curlen then none else process_loop (length input) md input

-- `md->buf[md->curlen++] = v`
abbrev pub push_byte : Sha256State → ℕ → Sha256State
push_byte md v = record md { curlen = md.curlen + 1; buf = set md.buf md.curlen v }

-- A loop that fills with zeros, by the rounds left.
unfoldable pub zero_loop : (rounds : ℕ) → Sha256State → Sha256State
zero_loop zero md = md
zero_loop (suc rounds) md = zero_loop rounds (push_byte md 0)

unfoldable pub zeros_up_to : ℕ → Sha256State → Sha256State
zeros_up_to bound md = zero_loop (bound - md.curlen) md

abbrev pub compress_buf : Sha256State → Sha256State
compress_buf md = record md { state = sha256_compress md.state md.buf }

-- Zeros to the end of the block if the length has no room behind the mark.
abbrev pub close_long : Sha256State → Sha256State
close_long md =
    if ltb 56 md.curlen
    then record (compress_buf (zeros_up_to block_size md)) { curlen = 0 }
    else md

-- `STORE64B(md->buf + 56, md->length)`
abbrev pub store_length : Sha256State → Sha256State
store_length md = record md { buf = take 56 md.buf ++ store64b md.length }

unfoldable pub last_words : Sha256State → Words
last_words md = sha256_compress md.state (store_length md).buf

unfoldable pub words_out : Words → Bytes
words_out s =
    store32b s.a
    ++ (store32b s.b
        ++ (store32b s.c
            ++ (store32b s.d
                ++ (store32b s.e ++ (store32b s.f ++ (store32b s.g ++ store32b s.h))))))

-- The digest is the last state's; `none` is -1.
unfoldable pub sha256_done : Sha256State → Option Bytes
sha256_done md =
    if leb block_size md.curlen
    then none
    else let counted = record md { length = (md.length + md.curlen * 8) % 2 ^ 64 } in
      let closed = zeros_up_to 56 (close_long (push_byte counted 0x80)) in
      some (words_out (last_words closed))

-- The digest of a processed state, if there is one.
abbrev pub done_or_none : Option Sha256State → Option Bytes
done_or_none none = none
done_or_none (some md) = sha256_done md

-- `stack` is what the 64 bytes of the buffer held before.
unfoldable pub sha256 : (stack : Bytes) → Bytes → Option Bytes
sha256 stack bytes = done_or_none (sha256_process (sha256_init stack) bytes)

abbrev pub first_six : Option Bytes → Option Bytes
first_six none = none
first_six (some md_value) = some (take 6 md_value)

-- `memcpy(res, md_value, 6)`; `none` is an error.
unfoldable pub compute_service_id : (stack : Bytes) → Bytes → Option Bytes
compute_service_id stack serv_name = first_six (sha256 stack serv_name)
