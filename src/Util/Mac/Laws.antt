-- ===== src/Util/Mac/Laws.antt =====
-- `mac_addr_a2n` against a plain description of the text, and the round trip with `mac_addr_n2a`.
use nl.Base.{
  set-append, ℕ, zero, suc, ◌+◌, ◌<◌, ◌≤◌, ◌≡◌, refl, ap, ◌∙◌, Option, none, some, [], ◌∷◌, ◌++◌,
  Bytes, All, length, length-append, ◌==◌, if◌then◌else◌, append-nil, append_assoc, arith,
  Option-cases, inl, inr,
}
use nl.Libc.{cut, hex02, sscanf, number}
use nl.Libc.Laws.{sscanf-hex02, cut-hex02, cut-hex02_last}
use nl.Util.HexText.{IsByte}
use nl.Util.Mac.{mac_addr_a2n, mac_addr_n2a, n2a_loop, scan_byte, a2n_loop, enough}

abbrev pub prepend : ℕ → Option Bytes → Option Bytes
prepend b none = none
prepend b (some bs) = some (b ∷ bs)

abbrev pub read_field : Option ℕ → Option Bytes → (Bytes → Option Bytes) → Option Bytes
read_field none cp more = none
read_field (some b) none more = some (b ∷ [])
read_field (some b) (some cp) more = prepend b (more cp)

-- The numbers that stand between colons, `n` of them at most, each a byte.
unfoldable pub fields : ℕ → Bytes → Option Bytes
fields zero arg = some []
fields (suc n) arg =
    read_field (scan_byte (sscanf (cut b':' arg).0 (number 16 ∷ [])).values) (cut b':' arg).1
      (fields n)

abbrev pub all_six : Option Bytes → Option Bytes
all_six none = none
all_six (some bs) = if length bs == 6 then some bs else none

abbrev finish : Bytes → Option Bytes → Option Bytes
finish pre none = none
finish pre (some ws) = all_six (some (pre ++ ws))

finish-prepend :
    (pre : Bytes) (b : ℕ) (o : Option Bytes) → finish (pre ++ (b ∷ [])) o ≡ finish pre (prepend b o)
finish-prepend pre b none = refl
finish-prepend pre b (some ws) = rw (append_assoc pre (b ∷ []) ws)

last_byte :
    (pre post : Bytes) (b : ℕ)
    → length pre + suc (length post) ≡ 6
    → enough (some (length pre, pre ++ (b ∷ post))) ≡ finish pre (some (b ∷ []))
last_byte pre [] b h = ground (arith, length-append pre (b ∷ []))
last_byte pre (p ∷ post) b h = ground (arith, length-append pre (b ∷ []))

a2n_loop-fields :
    (post pre arg : Bytes) (i : ℕ)
    → i ≡ length pre
    → length pre + length post ≡ 6
    → enough (a2n_loop (length post) i arg (pre ++ post)) ≡ finish pre (fields (length post) arg)
unfolding a2n_loop fields
a2n_loop-fields [] pre arg i e h = ground (arith, append-nil pre)
a2n_loop-fields (x ∷ post) pre arg i e h =
    elim (Option-cases (scan_byte (sscanf (cut b':' arg).0 (number 16 ∷ [])).values)) [
      | inl bad ↦ rw (bad)
      | inr (b, good) ↦ elim (Option-cases (cut b':' arg).1) [
        | inl stop ↦ rw (good, stop, e, set-append pre post x b) (last_byte pre post b h)
        | inr (cp, more) ↦
            rw
              (
                good,
                more,
                e,
                enough,
                a2n_loop,
                fields,
                set-append pre post x b,
                ← finish-prepend pre b,
              )
              (rw (← append_assoc pre (b ∷ []) post) (
                a2n_loop-fields post (pre ++ (b ∷ [])) cp (length pre + 1)
                  (omega (arith, length-append pre (b ∷ [])))
                  (omega (arith, length-append pre (b ∷ [])))))
      ]
    ]

finish-nil : (o : Option Bytes) → finish [] o ≡ all_six o
finish-nil none = refl
finish-nil (some ws) = refl

-- `mac_addr_a2n` succeeds exactly if the text holds, before and between its first five colons, six
-- numbers that fit a byte; it returns those, whatever the buffer of six bytes held before.
pub mac_addr_a2n-fields :
    (mac_addr arg : Bytes)
    → length mac_addr ≡ 6
    → mac_addr_a2n mac_addr arg ≡ all_six (fields 6 arg)
unfolding mac_addr_a2n
mac_addr_a2n-fields mac_addr arg h =
    rw h at (a2n_loop-fields mac_addr [] arg 0 refl (omega arith)) ∙ finish-nil (fields 6 arg)

-- The text of bytes, a colon before each.
abbrev after_colons : Bytes → Bytes
after_colons [] = []
after_colons (b ∷ bs) = b':' ∷ (hex02 b ++ after_colons bs)

n2a_loop-after_colons :
    (bs : Bytes) (i : ℕ) (out : Bytes)
    → n2a_loop (length bs) (suc i) bs out ≡ some (out ++ after_colons bs)
unfolding n2a_loop
n2a_loop-after_colons [] i out = rw append-nil
n2a_loop-after_colons (b ∷ bs) i out = ground (
  arith,
  n2a_loop-after_colons bs (suc i) (out ++ (b':' ∷ hex02 b)),
  append_assoc out (b':' ∷ hex02 b) (after_colons bs),
)

scan_byte-hex02 : (b : ℕ) → b < 256 → scan_byte (sscanf (hex02 b) (number 16 ∷ [])).values ≡ some b
unfolding scan_byte
scan_byte-hex02 b h = rw (sscanf-hex02 b h) (ground arith)

fields-after_colons :
    (bs : Bytes) (b n : ℕ)
    → b < 256
    → All IsByte bs
    → length bs ≤ n
    → fields (suc n) (hex02 b ++ after_colons bs) ≡ some (b ∷ bs)
unfolding fields
fields-after_colons [] b n h hs f = rw (append-nil, cut-hex02_last b h, scan_byte-hex02 b h)
fields-after_colons (c ∷ bs) b zero h hs f = absurd (omega arith)
fields-after_colons (c ∷ bs) b (suc n) h (hc, hs) f = rw (
  cut-hex02 b (hex02 c ++ after_colons bs) h,
  scan_byte-hex02 b h,
  fields-after_colons bs c n hc hs (omega arith),
)

-- An address of six bytes prints, and the printed text is read back as that address.
pub mac_addr_a2n-n2a :
    (mac mac_addr : Bytes)
    → length mac ≡ 6
    → All IsByte mac
    → length mac_addr ≡ 6
    → (text : Bytes) × (mac_addr_n2a mac ≡ some text) × (mac_addr_a2n mac_addr text ≡ some mac)
unfolding mac_addr_n2a
mac_addr_a2n-n2a [] mac_addr h hs k = absurd (omega arith)
mac_addr_a2n-n2a (b ∷ bs) mac_addr h (hb, hs) k =
    let five : length bs ≡ 5 = omega arith in
    (
      hex02 b ++ after_colons bs,
      rw five at (n2a_loop-after_colons bs 0 (hex02 b)),
      mac_addr_a2n-fields mac_addr _ k
          ∙ ap all_six (fields-after_colons bs b 5 hb hs (omega arith))
          ∙ ground arith,
    )
