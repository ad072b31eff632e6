-- ===== src/Util/Mac.antt =====
-- `mac_addr_n2a` and `mac_addr_a2n` of wifi/iw/util.c. `strchr` and the write of a NUL are `cut`.
pub mod Laws
use nl.Base.{
  ℕ, zero, suc, ◌+◌, ◌||◌, Bool, Bytes, List, Option, none, some, [], ◌∷◌, ◌++◌, set, ltb, ◌==◌,
  if◌then◌else◌,
}
use nl.Libc.{cut, hex02, sscanf, scan_from, scanned_count, Scanned, number, is_negative}

abbrev pub eth_alen : ℕ
eth_alen = 6

-- `rounds` are left of the loop, `arg` is the address from byte `i` on. `none`: a read behind the end
-- of the address.
unfoldable pub n2a_loop : (rounds i : ℕ) → Bytes → Bytes → Option Bytes
n2a_loop zero i arg out = some out
n2a_loop (suc rounds) i [] out = none
n2a_loop (suc rounds) i (b ∷ arg) out =
    n2a_loop rounds (i + 1) arg (out ++ (if i == 0 then hex02 b else b':' ∷ hex02 b))

unfoldable pub mac_addr_n2a : Bytes → Option Bytes
unfolding n2a_loop hex02
mac_addr_n2a arg = n2a_loop eth_alen 0 arg []

-- The byte that `sscanf(arg, "%x", &temp)` reads and the loop accepts.
unfoldable pub scan_byte : List ℕ → Option ℕ
scan_byte [] = none
scan_byte (temp ∷ _) = if is_negative temp || ltb 255 temp then none else some temp

-- The loop body behind `sscanf`: the store at `i`, and the next round if there was a colon.
abbrev pub a2n_step :
    ℕ → Bytes → Option ℕ → Option Bytes → (Bytes → Bytes → Option (ℕ × Bytes)) → Option (ℕ × Bytes)
a2n_step i mac_addr none cp next = none
a2n_step i mac_addr (some temp) none next = some (i, set mac_addr i temp)
a2n_step i mac_addr (some temp) (some cp) next = next cp (set mac_addr i temp)

-- The loop, to the value of `i` behind it and the address; `none` is `return -1`.
unfoldable pub a2n_loop : (rounds i : ℕ) → Bytes → Bytes → Option (ℕ × Bytes)
unfolding scan_byte
a2n_loop zero i arg mac_addr = some (i, mac_addr)
a2n_loop (suc rounds) i arg mac_addr =
    a2n_step i mac_addr (scan_byte (sscanf (cut b':' arg).0 (number 16 ∷ [])).values)
      (cut b':' arg).1 (a2n_loop rounds (i + 1))

abbrev pub enough : Option (ℕ × Bytes) → Option Bytes
enough none = none
enough (some (i, mac_addr)) = if ltb i 5 then none else some mac_addr

-- `none` is -1. The buffer comes in as `mac_addr` and goes out filled.
unfoldable pub mac_addr_a2n : Bytes → Bytes → Option Bytes
unfolding a2n_loop cut scan_from
mac_addr_a2n mac_addr arg = enough (a2n_loop eth_alen 0 arg mac_addr)
