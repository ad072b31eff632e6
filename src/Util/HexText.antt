-- ===== src/Util/HexText.antt =====
-- `hex2bin` is the inverse of printing bytes by `%02x`, up to the case of the digits.
use nl.Base.{
  ℕ, ◌+◌, ◌*◌, ap, ◌/◌, ◌%◌, ◌<◌, ◌≡◌, refl, Option, none, some, Bytes, [], ◌∷◌, ◌++◌, All, arith,
}
use nl.Libc.{to_lower, hex_digit, hex02}
use nl.Util.Hex.{pair_value, hex2num, hex2byte, hex2bin, push}

abbrev pub hex_text : Bytes → Bytes
hex_text [] = []
hex_text (b ∷ bs) = hex02 b ++ hex_text bs

abbrev pub lower_text : Bytes → Bytes
lower_text [] = []
lower_text (c ∷ cs) = to_lower c ∷ lower_text cs

abbrev pub IsByte : ℕ → Type 0
IsByte b = b < 256

hex2num-hex_digit : (d : ℕ) → d < 16 → hex2num (hex_digit d) ≡ some d
unfolding hex2num
hex2num-hex_digit d h = ground arith

pub hex2byte-hex_digit :
    (b : ℕ) → b < 256 → hex2byte (hex_digit (b / 16)) (hex_digit (b % 16)) ≡ some b
unfolding hex2byte
hex2byte-hex_digit b h =
    ground
      (arith, hex2num-hex_digit (b / 16) (omega arith), hex2num-hex_digit (b % 16) (omega arith))

-- Reading back what `%02x` printed for each byte gives the bytes.
pub hex2bin-hex_text : (bs : Bytes) → All IsByte bs → hex2bin (hex_text bs) ≡ some bs
unfolding hex2bin hex02
hex2bin-hex_text [] h = refl
hex2bin-hex_text (b ∷ bs) (h, hs) = rw (hex2byte-hex_digit b h, hex2bin-hex_text bs hs)

hex2num_sound : (c : ℕ) (d : ℕ) → hex2num c ≡ some d → (d < 16) × (hex_digit d ≡ to_lower c)
unfolding hex2num
hex2num_sound c d h = ground arith

pair_value-eq-some :
    (m n : Option ℕ) {b : ℕ}
    → pair_value m n ≡ some b
    → (d1 d2 : ℕ) × (m ≡ some d1) × (n ≡ some d2) × (b ≡ d1 * 16 + d2)
pair_value-eq-some none n h = cc
pair_value-eq-some (some d1) none h = cc
pair_value-eq-some (some d1) (some d2) h = (d1, d2, refl, refl, ground arith)

hex2byte_sound :
    (c1 c2 b : ℕ) → hex2byte c1 c2 ≡ some b → (b < 256) × (hex02 b ≡ to_lower c1 ∷ to_lower c2 ∷ [])
unfolding hex2byte hex02
hex2byte_sound c1 c2 b h =
    let (d1, d2, e1, e2, e) = pair_value-eq-some (hex2num c1) (hex2num c2) h in
    let s1 = hex2num_sound c1 d1 e1 in
    let s2 = hex2num_sound c2 d2 e2 in
    let hi : b / 16 ≡ d1 = omega arith in
    let lo : b % 16 ≡ d2 = omega arith in (omega arith, cc (ap hex_digit hi, ap hex_digit lo))

push-eq-some :
    (m : Option ℕ) (r : Option Bytes) {bs : Bytes}
    → push m r ≡ some bs
    → (b : ℕ) × (ds : Bytes) × (m ≡ some b) × (r ≡ some ds) × (bs ≡ b ∷ ds)
push-eq-some none r h = cc
push-eq-some (some d) none h = cc
push-eq-some (some d) (some ds) h = (d, ds, refl, refl, cc)

-- Whatever `hex2bin` accepts is the text of the bytes that it returns, up to the case of the digits.
pub hex2bin_sound :
    (hex : Bytes) {bs : Bytes}
    → hex2bin hex ≡ some bs
    → All IsByte bs × (hex_text bs ≡ lower_text hex)
unfolding hex2bin
hex2bin_sound [] {bs} h = let e : bs ≡ [] = cc in rw e (tt, refl)
hex2bin_sound (c1 ∷ []) h = let r = push-eq-some (hex2byte c1 0) none h in absurd cc
hex2bin_sound (c1 ∷ c2 ∷ hex) {bs} h =
    let (b, ds, e, es, split) = push-eq-some (hex2byte c1 c2) (hex2bin hex) h in
    let first = hex2byte_sound c1 c2 b e in
    let rest = hex2bin_sound hex es in rw split ((first.0, rest.0), rw (first.1, rest.1))
