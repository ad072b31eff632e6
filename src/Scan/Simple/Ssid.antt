-- ===== src/Scan/Simple/Ssid.antt =====
-- The escaped text of an SSID can be read back.
use nl.Base.{
  ◌-◌, sym, ℕ, ◌+◌, ◌<◌, false, not, ◌&&◌, Bytes, Option, some, [], ◌∷◌, ◌++◌, length, codes, ◌==◌,
  if◌then◌else◌, ◌≡◌, refl, ap, ◌∙◌, arith, All, Bool-cases, inl, inr,
}
use nl.Libc.{is_print, hex02}
use nl.Util.Hex.{hex2byte, push}
use nl.Util.HexText.{IsByte, hex2byte-hex_digit}
use nl.Scan.Simple.{ssid_char, ssid_loop, print_ssid_escaped}

-- Reads `\x` and two digits as a byte, and any other character as itself.
unfoldable pub unescape : Bytes → Option Bytes
unescape [] = some []
unescape (c ∷ []) = some (c ∷ [])
unescape (c ∷ x ∷ []) = some (c ∷ x ∷ [])
unescape (c ∷ x ∷ a ∷ []) = some (c ∷ x ∷ a ∷ [])
unescape (c ∷ x ∷ a ∷ b ∷ rest) =
    let escaped = push (hex2byte a b) (unescape rest) in
    let plain = push (some c) (unescape (x ∷ a ∷ b ∷ rest)) in if c == b'\\' then escaped else plain

unescape-plain :
    (c : ℕ) (s : Bytes) → (c == b'\\') ≡ false → unescape (c ∷ s) ≡ push (some c) (unescape s)
unfolding unescape
unescape-plain c [] h = refl
unescape-plain c (x ∷ []) h = refl
unescape-plain c (x ∷ a ∷ []) h = refl
unescape-plain c (x ∷ a ∷ b ∷ rest) h = rw h refl

unescape-hex02 :
    (c : ℕ) (s : Bytes)
    → c < 256
    → unescape ((codes "\\x" ++ hex02 c) ++ s) ≡ push (some c) (unescape s)
unfolding unescape hex02
unescape-hex02 c s h = rw (hex2byte-hex_digit c h) refl

unescape-ssid_char :
    (len i c : ℕ) (s : Bytes)
    → c < 256
    → unescape (ssid_char len i c ++ s) ≡ push (some c) (unescape s)
unescape-ssid_char len i c s h =
    elim (Bool-cases (is_print c && not (c == b' ') && not (c == b'\\'))) [
      | inl plain ↦ rw plain (unescape-plain c s (ground arith))
      | inr special ↦ elim (Bool-cases (c == b' ' && not (i == 0) && not (i == len - 1))) [
        | inl inner ↦
            let space : c ≡ b' ' = ground arith in
            rw (special, inner)
              (unescape-plain b' ' s refl ∙ ap (λ v. push (some v) (unescape s)) (sym space))
        | inr outer ↦ rw (special, outer) (unescape-hex02 c s h)
      ]
    ]

append_assoc_bytes : (a b c : Bytes) → (a ++ b) ++ c ≡ a ++ (b ++ c)
append_assoc_bytes [] b c = refl
append_assoc_bytes (x ∷ a) b c = ap (◌∷◌ x) (append_assoc_bytes a b c)

unescape-ssid_loop :
    (len i : ℕ) (ssid : Bytes) → All IsByte ssid → unescape (ssid_loop len i ssid) ≡ some ssid
unfolding ssid_loop unescape
unescape-ssid_loop len i [] h = refl
unescape-ssid_loop len i (c ∷ ssid) (h, hs) =
    unescape-ssid_char len i c (ssid_loop len (i + 1) ssid) h
    ∙ ap (push (some c)) (unescape-ssid_loop len (i + 1) ssid hs)

-- What `print_ssid_escaped` prints of any bytes, blanks and unprintable ones included, is read back as
-- those bytes: no two SSIDs have the same text.
pub unescape-print_ssid_escaped :
    (ssid : Bytes) → All IsByte ssid → unescape (print_ssid_escaped ssid) ≡ some ssid
unfolding print_ssid_escaped
unescape-print_ssid_escaped ssid h = unescape-ssid_loop (length ssid) 0 ssid h
