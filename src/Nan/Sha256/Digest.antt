-- ===== src/Nan/Sha256/Digest.antt =====
-- The program's hash is the digest of FIPS 180-4, however its input is cut.
use nl.Base.{
  none, Option, List, some, Bytes, [], ◌∷◌, ◌++◌, length, take, ◌≡◌, refl, ap, ◌∙◌, arith,
  append_assoc, append-nil,
}
use nl.Nan.Sha256.{
  sha256, compute_service_id, sha256_process, first_six, done_or_none, sha256_init, Sha256State,
}
use nl.Nan.Sha256.Blocks.{digest, concat}
use nl.Nan.Sha256.Process.{Processed, sha256_init-Takes, sha256_process-Processed}
use nl.Nan.Sha256.Padding.{sha256_done-digest}

-- Several calls of `sha256_process`, one behind the other.
abbrev pub then_process : Option Sha256State → Bytes → Option Sha256State
then_process none input = none
then_process (some md) input = sha256_process md input

abbrev pub process_all : Option Sha256State → List Bytes → Option Sha256State
process_all o [] = o
process_all o (input ∷ inputs) = process_all (then_process o input) inputs

process_all-Processed :
    (o : Option Sha256State) (m : Bytes) (inputs : List Bytes)
    → Processed m o
    → Processed (m ++ concat inputs) (process_all o inputs)
process_all-Processed o m [] p = rw (append-nil m) p
process_all-Processed o m (input ∷ inputs) p =
    let next : Processed (m ++ input) (then_process o input) =
      rw p.some_after (sha256_process-Processed p.after m input p.ready) in
    let all = process_all-Processed (then_process o input) (m ++ input) inputs next in
    rw (append_assoc m input (concat inputs)) at all

sha256_init-Processed :
    (stack : Bytes) → length stack ≡ 64 → Processed [] (some (sha256_init stack))
unfolding sha256_init
sha256_init-Processed stack h = record {
  after = sha256_init stack;
  some_after = refl;
  ready = record { takes = sha256_init-Takes stack h; counts = refl; short = omega arith };
}

-- However a message is cut into inputs of `sha256_process`, and whatever the buffer of 64 bytes held
-- before, `sha256_done` ends with the digest of the whole message: its padding cut into blocks of 64 bytes
-- and compressed one after the other.
pub sha256_done-process_all :
    (stack : Bytes) (inputs : List Bytes)
    → length stack ≡ 64
    → done_or_none (process_all (some (sha256_init stack)) inputs) ≡ some (digest (concat inputs))
sha256_done-process_all stack inputs h =
    let p =
      process_all-Processed (some (sha256_init stack)) [] inputs (sha256_init-Processed stack h) in
    ap done_or_none p.some_after ∙ sha256_done-digest p.after (concat inputs) p.ready

-- The identity of a service is the first six bytes of the digest of its name.
pub compute_service_id-digest :
    (stack serv_name : Bytes)
    → length stack ≡ 64
    → compute_service_id stack serv_name ≡ some (take 6 (digest serv_name))
unfolding compute_service_id sha256
compute_service_id-digest stack serv_name h =
    let whole = sha256_done-process_all stack (serv_name ∷ []) h in
    ap first_six (whole ∙ ap (λ m. some (digest m)) (append-nil serv_name))
