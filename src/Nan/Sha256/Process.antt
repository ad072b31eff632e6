-- ===== src/Nan/Sha256/Process.antt =====
-- What `sha256_process` does to the bytes that a state stands for.
use nl.Base.{
  append_assoc, false, take, ◌&&◌, zero, suc, min, leb, ◌-◌, Option, some, length-take, length-drop,
  append-take-drop, ℕ, ◌+◌, ◌≤◌, ◌<◌, Bool-cases, inl, inr, Bytes, [], ◌∷◌, ◌++◌, length, drop,
  ◌==◌, ◌≡◌, refl, sym, ap, ◌∙◌, arith, length-append, take-append, append-nil, drop-append_more,
}
use nl.Nan.Sha256.{
  process_round, process_loop, sha256_process, Sha256State, sha256_compress, sha256_init,
  hash_block, copy_in, flush_full, initial_words,
}
use nl.Nan.Sha256.Blocks.{
  IsBlock, concat, concat_one, compress_all-append, IsBlock-one, Takes, Counts,
}

no_bytes : (xs : Bytes) → length xs ≡ 0 → xs ≡ []
no_bytes [] h = refl
no_bytes (x ∷ xs) h = absurd (omega (arith, h))

pub sha256_init-Takes : (stack : Bytes) → length stack ≡ 64 → Takes (sha256_init stack) []
unfolding sha256_init
sha256_init-Takes stack h = record {
  blocks = [];
  tail = [];
  free = stack;
  whole = refl;
  full = tt;
  words = refl;
  used = refl;
  kept = refl;
  room = omega (arith, h);
}

-- A block straight from the input.
hash_block-Takes :
    (md : Sha256State) (m block : Bytes)
    → Takes md m
    → md.curlen ≡ 0
    → IsBlock block
    → Takes (hash_block md block) (m ++ block)
unfolding hash_block
hash_block-Takes md m block t empty h =
    let none_left = no_bytes t.tail (omega (arith, t.used, empty)) in
    record {
      blocks = t.blocks ++ (block ∷ []);
      tail = [];
      free = md.buf;
      whole =
          ap (λ x. x ++ block)
            (t.whole ∙ ap (λ x. concat t.blocks ++ x) none_left ∙ append-nil (concat t.blocks))
          ∙ sym (concat_one t.blocks block)
          ∙ sym (append-nil (concat (t.blocks ++ (block ∷ []))));
      full = IsBlock-one t.blocks block t.full h;
      words =
          ap (λ s. sha256_compress s block) t.words
          ∙ sym (compress_all-append initial_words t.blocks (block ∷ []));
      used = empty;
      kept = refl;
      room = omega (arith, ap length t.kept, length-append t.tail t.free, t.room);
    }

copy_in-Takes :
    (md : Sha256State) (m bytes : Bytes)
    → Takes md m
    → md.curlen + length bytes ≤ 64
    → Takes (copy_in md bytes) (m ++ bytes)
copy_in-Takes md m bytes t h = record {
  blocks = t.blocks;
  tail = t.tail ++ bytes;
  free = drop (length bytes) t.free;
  whole = ap (λ x. x ++ bytes) t.whole ∙ append_assoc (concat t.blocks) t.tail bytes;
  full = t.full;
  words = t.words;
  used = omega (arith, t.used, length-append t.tail bytes);
  kept =
      rw (t.used, t.kept, take-append t.tail t.free, drop-append_more t.tail t.free (length bytes))
        (sym (append_assoc t.tail bytes (drop (length bytes) t.free)));
  room =
      omega (arith, t.used, t.room, length-append t.tail bytes, length-drop (length bytes) t.free);
}

-- The bytes of the buffer become a block.
pub close_block :
    (md : Sha256State) (m : Bytes) (n : ℕ)
    → Takes md m
    → md.curlen ≡ 64
    → Takes (record md { length = n; state = sha256_compress md.state md.buf; curlen = 0 }) m
close_block md m n t full =
    let none_free = no_bytes t.free (omega (arith, t.used, full, t.room)) in
    let block = t.kept ∙ ap (λ x. t.tail ++ x) none_free ∙ append-nil t.tail in
    record {
      blocks = t.blocks ++ (t.tail ∷ []);
      tail = [];
      free = md.buf;
      whole =
          t.whole
          ∙ sym (concat_one t.blocks t.tail)
          ∙ sym (append-nil (concat (t.blocks ++ (t.tail ∷ []))));
      full = IsBlock-one t.blocks t.tail t.full (omega (arith, t.used, full));
      words = rw (t.words, block) (sym (compress_all-append initial_words t.blocks (t.tail ∷ [])));
      used = refl;
      kept = refl;
      room = omega (arith, ap length t.kept, length-append t.tail t.free, t.room);
    }

-- A state between two calls: it has taken `m`, and its buffer is not full.
pub record Ready (md : Sha256State) (m : Bytes) : Type 0 where
  pub takes : Takes md m
  pub counts : Counts md m
  pub short : md.curlen < 64

flush_full-Ready :
    (md : Sha256State) (m : Bytes) → Takes md m → Counts md m → Ready (flush_full md) m
unfolding hash_block
flush_full-Ready md m t c = elim (Bool-cases (md.curlen == 64)) [
  | inl full ↦
      let is_full : md.curlen ≡ 64 = ground arith in
      rw full record {
        takes = close_block md m _ t is_full;
        counts = omega (arith, c, is_full);
        short = omega arith;
      }
  | inr short ↦ rw short record { takes = t; counts = c; short = ground (arith, t.used, t.room) }
]

-- A round has taken the first bytes of the input.
record Round (m input : Bytes) (md : Sha256State) (rest : Bytes) : Type 0 where
  taken : Bytes
  split : input ≡ taken ++ rest
  ready : Ready md (m ++ taken)
  shorter : length rest < length input

process_round-Round :
    (md : Sha256State) (m input : Bytes)
    → Ready md m
    → 0 < length input
    → Round m input (process_round md input).0 (process_round md input).1
unfolding process_round hash_block
process_round-Round md m input r more =
    elim (Bool-cases (md.curlen == 0 && leb 64 (length input))) [
      | inl block ↦
          let empty : md.curlen ≡ 0 = ground arith in
          let long : 64 ≤ length input = ground arith in
          let whole = length-take 64 input long in
          rw block record {
            taken = take 64 input;
            split = sym (append-take-drop 64 input);
            ready = record {
              takes = hash_block-Takes md m (take 64 input) r.takes empty whole;
              counts = omega (arith, r.counts, empty, whole, length-append m (take 64 input));
              short = r.short;
            };
            shorter = omega (arith, length-drop 64 input);
          }
      | inr part ↦
          let n = min (length input) (64 - md.curlen) in
          let size = length-take n input (omega arith) in
          rw part record {
            taken = take n input;
            split = sym (append-take-drop n input);
            ready =
                flush_full-Ready (copy_in md (take n input)) (m ++ take n input)
                  (copy_in-Takes md m (take n input) r.takes (omega (arith, size, r.short)))
                  (omega (arith, r.counts, length-append m (take n input)));
            shorter = omega (arith, length-drop n input, r.short);
          }
    ]

-- A state that comes out of processing.
pub record Processed (m : Bytes) (o : Option Sha256State) : Type 0 where
  pub after : Sha256State
  pub some_after : o ≡ some after
  pub ready : Ready after m

process_loop-Processed :
    (fuel : ℕ) (md : Sha256State) (m input : Bytes)
    → Ready md m
    → length input ≤ fuel
    → Processed (m ++ input) (process_loop fuel md input)
unfolding process_loop
process_loop-Processed fuel md m [] r h =
    rw (append-nil m) record { after = md; some_after = refl; ready = r }
process_loop-Processed zero md m (x ∷ input) r h = absurd (omega arith)
process_loop-Processed (suc fuel) md m (x ∷ input) r h =
    let next = process_round md (x ∷ input) in
    let o = process_round-Round md m (x ∷ input) r (omega arith) in
    let p =
      process_loop-Processed fuel next.0 (m ++ o.taken) next.1 o.ready (omega (arith, o.shorter)) in
    rw (append_assoc m o.taken (process_round md (x ∷ input)).1, sym o.split) at p

pub sha256_process-Processed :
    (md : Sha256State) (m input : Bytes)
    → Ready md m
    → Processed (m ++ input) (sha256_process md input)
unfolding sha256_process
sha256_process-Processed md m input r =
    let unfilled : leb 64 md.curlen ≡ false = ground (arith, r.short) in
    rw unfilled (process_loop-Processed (length input) md m input r (omega arith))
