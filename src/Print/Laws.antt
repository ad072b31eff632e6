-- ===== src/Print/Laws.antt =====
-- When an output has no fault.
use nl.Base.{
  length-drop, some, ◌++◌, refl, ℕ, zero, suc, ◌+◌, ◌*◌, ◌-◌, ◌<◌, ◌≤◌, Bool, true, false, Bytes,
  [], ◌∷◌, length, drop, ltb, if◌then◌else◌, ◌≡◌, arith,
}
use nl.Print.{Out, Printed, ◌&◌, byte, word, skip}

-- There is no fault.
pub record IsSafe (p : Printed) : Type 0 where
  pub output : Out
  pub printed : p ≡ some output

pub some-IsSafe : (o : Out) → IsSafe (some o)
some-IsSafe o = record { output = o; printed = refl }

pub and-IsSafe : (p q : Printed) → IsSafe p → IsSafe q → IsSafe (p & q)
unfolding ◌&◌
and-IsSafe p q hp hq = record {
  output = hp.output ++ hq.output;
  printed = rw (hp.printed, hq.printed) refl;
}

pub say-IsSafe : (o : Out) (q : Printed) → IsSafe q → IsSafe (some o & q)
say-IsSafe o q h = and-IsSafe (some o) q (some-IsSafe o) h

pub byte-IsSafe :
    (bytes : Bytes) (i : ℕ) (next : ℕ → Printed)
    → i < length bytes
    → ((v : ℕ) → IsSafe (next v))
    → IsSafe (byte bytes i next)
unfolding byte
byte-IsSafe [] i next h safe = absurd (omega arith)
byte-IsSafe (b ∷ bs) zero next h safe = safe b
byte-IsSafe (b ∷ bs) (suc i) next h safe = byte-IsSafe bs i next (omega arith) safe

pub word-IsSafe :
    (bytes : Bytes) (i : ℕ) (next : ℕ → Printed)
    → i + 1 < length bytes
    → ((v : ℕ) → IsSafe (next v))
    → IsSafe (word bytes i next)
unfolding word
word-IsSafe bytes i next h safe =
    byte-IsSafe bytes i _ (omega arith)
      (λ lo. byte-IsSafe bytes (i + 1) _ h (λ hi. safe (lo + 256 * hi)))

pub skip-IsSafe :
    (n : ℕ) (bytes : Bytes) (next : Bytes → Printed)
    → n ≤ length bytes
    → ((rest : Bytes) → length rest ≡ length bytes - n → IsSafe (next rest))
    → IsSafe (skip n bytes next)
unfolding skip
skip-IsSafe n bytes next h safe =
    let fits : ltb (length bytes) n ≡ false = ground arith in
    rw fits (safe (drop n bytes) (length-drop n bytes))

pub if-IsSafe :
    (b : Bool) (p q : Printed)
    → (b ≡ true → IsSafe p)
    → (b ≡ false → IsSafe q)
    → IsSafe (if b then p else q)
if-IsSafe true p q hp hq = hp refl
if-IsSafe false p q hp hq = hq refl
