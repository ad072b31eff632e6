-- ===== src/Nan/Sha256/Padding.antt =====
-- `sha256_done` pads what its state has taken.
use nl.Base.{
  leb, ◌*◌, ◌%◌, ◌^◌, some, replicate-append, ℕ, zero, suc, ◌+◌, ◌-◌, ◌≤◌, ◌<◌, Bool-cases, inl,
  inr, true, false, Bytes, [], ◌∷◌, ◌++◌, length, take, ltb, replicate, ◌≡◌, refl, sym, ap, ◌∙◌,
  arith, append_assoc, length-append, take-append, append-nil, set-append, if◌then◌else◌,
}
use nl.Nan.Sha256.{
  last_words, sha256_done, words_out, initial_words, Sha256State, push_byte, zero_loop, zeros_up_to,
  close_long, store64b,
}
use nl.Nan.Sha256.Blocks.{
  digest, pad, concat, concat_one, compress_all, compress_all-append, IsBlock-one, Takes,
  blocks_within, blocks_within-concat, length-concat,
}
use nl.Nan.Sha256.Process.{Ready, close_block}

push_byte-Takes :
    (md : Sha256State) (m : Bytes) (v : ℕ)
    → Takes md m
    → md.curlen < 64
    → Takes (push_byte md v) (m ++ (v ∷ []))
push_byte-Takes md m v t h = go t.free t.kept t.room
  where
    go :
        (free : Bytes)
        → md.buf ≡ t.tail ++ free
        → length t.tail + length free ≡ 64
        → Takes (push_byte md v) (m ++ (v ∷ []))
    go [] kept room = absurd (omega (arith, t.used, room))
    go (x ∷ free) kept room = record {
      blocks = t.blocks;
      tail = t.tail ++ (v ∷ []);
      free = free;
      whole = ap (λ m. m ++ (v ∷ [])) t.whole ∙ append_assoc (concat t.blocks) t.tail (v ∷ []);
      full = t.full;
      words = t.words;
      used = omega (arith, t.used, length-append t.tail (v ∷ []));
      kept =
          rw (kept, t.used, set-append t.tail free x v) (sym (append_assoc t.tail (v ∷ []) free));
      room = omega (arith, room, length-append t.tail (v ∷ []));
    }

-- The state has taken `m`, has `used` bytes in its buffer, and the length `n`.
record Filled (md : Sha256State) (m : Bytes) (used n : ℕ) : Type 0 where
  takes : Takes md m
  curlen_is : md.curlen ≡ used
  length_is : md.length ≡ n

push_byte-Filled :
    (md : Sha256State) (m : Bytes) (used n v : ℕ)
    → Filled md m used n
    → used < 64
    → Filled (push_byte md v) (m ++ (v ∷ [])) (used + 1) n
push_byte-Filled md m used n v f h = record {
  takes = push_byte-Takes md m v f.takes (omega (arith, f.curlen_is));
  curlen_is = omega (arith, f.curlen_is);
  length_is = f.length_is;
}

zero_loop-Filled :
    (rounds used n : ℕ) (md : Sha256State) (m : Bytes)
    → Filled md m used n
    → used + rounds ≤ 64
    → Filled (zero_loop rounds md) (m ++ replicate rounds 0) (used + rounds) n
unfolding zero_loop
zero_loop-Filled zero used n md m f h =
    rw (append-nil m)
      record { takes = f.takes; curlen_is = omega (arith, f.curlen_is); length_is = f.length_is }
zero_loop-Filled (suc rounds) used n md m f h =
    let one = push_byte-Filled md m used n 0 f (omega arith) in
    let r =
      zero_loop-Filled rounds (used + 1) n (push_byte md 0) (m ++ (0 ∷ [])) one (omega arith) in
    let count : used + 1 + rounds ≡ used + suc rounds = omega arith in
    rw (append_assoc m (0 ∷ []) (replicate rounds 0), count) at r

zeros_up_to-Filled :
    (bound used n : ℕ) (md : Sha256State) (m : Bytes)
    → Filled md m used n
    → used ≤ bound
    → bound ≤ 64
    → Filled (zeros_up_to bound md) (m ++ replicate (bound - used) 0) bound n
unfolding zeros_up_to
zeros_up_to-Filled bound used n md m f h small =
    let r = zero_loop-Filled (bound - used) used n md m f (omega arith) in
    let whole : used + (bound - used) ≡ bound = omega arith in
    let rounds = ap (λ k. zero_loop (bound - k) md) f.curlen_is in rw rounds (rw whole at r)

-- The zeros in front of a length, behind a buffer of `used` bytes.
abbrev zeros_behind : ℕ → ℕ
zeros_behind used = if ltb 56 used then 64 - used + 56 else 56 - used

closed-Filled :
    (used n : ℕ) (md : Sha256State) (m : Bytes)
    → Filled md m used n
    → used ≤ 64
    → Filled (zeros_up_to 56 (close_long md)) (m ++ replicate (zeros_behind used) 0) 56 n
closed-Filled used n md m f h = elim (Bool-cases (ltb 56 used)) [
  | inl long ↦
      let is_long : ltb 56 md.curlen ≡ true = ground (arith, f.curlen_is) in
      let z = zeros_up_to-Filled 64 used n md m f h (omega arith) in
      let closed =
        close_block (zeros_up_to 64 md) (m ++ replicate (64 - used) 0) (zeros_up_to 64 md).length
          z.takes z.curlen_is in
      let rest =
        zeros_up_to-Filled 56 0 n _ (m ++ replicate (64 - used) 0)
          record { takes = closed; curlen_is = refl; length_is = z.length_is } (omega arith)
          (omega arith) in
      let together =
        append_assoc m (replicate (64 - used) 0) (replicate 56 0)
        ∙ ap (λ x. m ++ x) (replicate-append (64 - used) 56 0) in
      rw (is_long, long) (rw together at rest)
  | inr short ↦
      let is_short : ltb 56 md.curlen ≡ false = ground (arith, f.curlen_is) in
      rw (is_short, short) (zeros_up_to-Filled 56 used n md m f (ground arith) (omega arith))
]

-- The last block, with a length in its end.
last_block :
    (md : Sha256State) (m : Bytes) (n : ℕ)
    → Takes md m
    → md.curlen ≡ 56
    → md.length ≡ n
    → last_words md
      ≡ compress_all initial_words (blocks_within (length (m ++ store64b n)) (m ++ store64b n))
unfolding last_words
last_block md m n t h count =
    let last = t.tail ++ store64b n in
    let blocks = t.blocks ++ (last ∷ []) in
    let size : length t.tail ≡ 56 = omega (arith, t.used, h) in
    let full =
      IsBlock-one t.blocks last t.full (omega (arith, length-append t.tail (store64b n), size)) in
    let whole : m ++ store64b n ≡ concat blocks =
      ap (λ x. x ++ store64b n) t.whole
      ∙ append_assoc (concat t.blocks) t.tail (store64b n)
      ∙ sym (concat_one t.blocks last) in
    let kept : take 56 md.buf ≡ t.tail =
      ap (take 56) t.kept
      ∙ ap (λ k. take k (t.tail ++ t.free)) (sym size)
      ∙ take-append t.tail t.free in
    let cut =
      blocks_within-concat (length (concat blocks)) blocks full
        (omega (arith, length-concat blocks full)) in
    rw (whole, count, cut, kept, t.words)
      (sym (compress_all-append initial_words t.blocks (last ∷ [])))

zeros_behind-mod :
    (size used blocks : ℕ)
    → size ≡ 64 * blocks + used
    → used < 64
    → zeros_behind (used + 1) ≡ (119 - size % 64) % 64
zeros_behind-mod size used blocks h small = ground (arith, h)

counted-Filled :
    (md : Sha256State) (m : Bytes) (n : ℕ)
    → Takes md m
    → Filled (record md { length = n }) m md.curlen n
counted-Filled md m n t = record {
  takes = record {
    blocks = t.blocks;
    tail = t.tail;
    free = t.free;
    whole = t.whole;
    full = t.full;
    words = t.words;
    used = t.used;
    kept = t.kept;
    room = t.room;
  };
  curlen_is = refl;
  length_is = refl;
}

-- What `sha256_done` puts behind a message is its padding.
padded :
    (md : Sha256State) (m : Bytes)
    → Ready md m
    → ((m ++ (0x80 ∷ [])) ++ replicate (zeros_behind (md.curlen + 1)) 0)
        ++ store64b ((md.length + md.curlen * 8) % 2 ^ 64)
      ≡ pad m
padded md m r =
    let t = r.takes in
    let n = (md.length + md.curlen * 8) % 2 ^ 64 in
    let z = zeros_behind (md.curlen + 1) in
    let size =
      zeros_behind-mod (length m) md.curlen (length t.blocks)
        (omega (
          arith,
          ap length t.whole,
          length-append (concat t.blocks) t.tail,
          length-concat t.blocks t.full,
          t.used,
        ))
        r.short in
    append_assoc (m ++ (0x80 ∷ [])) (replicate z 0) (store64b n)
    ∙ append_assoc m (0x80 ∷ []) (replicate z 0 ++ store64b n)
    ∙ ap (λ k. m ++ (0x80 ∷ (replicate k 0 ++ store64b n))) size
    ∙ ap (λ k. m ++ (0x80 ∷ (replicate ((119 - length m % 64) % 64) 0 ++ store64b k))) r.counts

-- The end of a hash.
pub sha256_done-digest :
    (md : Sha256State) (m : Bytes) → Ready md m → sha256_done md ≡ some (digest m)
unfolding sha256_done digest
sha256_done-digest md m r =
    let n = (md.length + md.curlen * 8) % 2 ^ 64 in
    let counted : Sha256State = record md { length = n } in
    let marked =
      push_byte-Filled counted m md.curlen n 0x80 (counted-Filled md m n r.takes) r.short in
    let closed =
      closed-Filled (md.curlen + 1) n (push_byte counted 0x80) (m ++ (0x80 ∷ [])) marked
        (omega (arith, r.short)) in
    let last =
      last_block (zeros_up_to 56 (close_long (push_byte counted 0x80))) _ n closed.takes
        closed.curlen_is closed.length_is in
    let words =
      last ∙ ap (λ x. compress_all initial_words (blocks_within (length x) x)) (padded md m r) in
    let unfilled : leb 64 md.curlen ≡ false = ground (arith, r.short) in
    rw unfilled (ap (λ s. some (words_out s)) words)
