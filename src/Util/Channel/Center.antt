-- ===== src/Util/Channel/Center.antt =====
-- The centre frequency that `get_cf1` finds.
use nl.Base.{
  Bool, false, ◌-◌, ◌/◌, ℕ, zero, suc, ◌+◌, ◌*◌, ◌≤◌, ◌<◌, ◌≡◌, inl, inr, List, [], ◌∷◌, ◌++◌, refl,
  arith, some, Bool-cases, ltb, leb, ◌&&◌, ap, ◌∙◌, if◌then◌else◌,
}
use nl.Util.Channel.{width_160, width_80, get_cf1, find_block, bw80, block_center}

-- `n` adjacent blocks.
abbrev blocks : ℕ → ℕ → List ℕ
blocks zero low = []
blocks (suc n) low = low ∷ blocks n (low + 80)

find_block-in_blocks :
    (n k low freq : ℕ) (rest : List ℕ)
    → k < n
    → low + 80 * k ≤ freq
    → freq < low + 80 * k + 80
    → find_block 80 freq (blocks n low ++ rest) ≡ some (low + 80 * k)
unfolding find_block
find_block-in_blocks zero k low freq rest h lo hi = elim h [ ]
find_block-in_blocks (suc n) zero low freq rest h lo hi = ground arith
find_block-in_blocks (suc n) (suc k) low freq rest h lo hi =
    ground (arith, find_block-in_blocks n k (low + 80) freq rest)

find_block-above_blocks :
    (n low freq : ℕ) (rest : List ℕ)
    → low + 80 * n ≤ freq
    → find_block 80 freq (blocks n low ++ rest) ≡ find_block 80 freq rest
unfolding find_block
find_block-above_blocks zero low freq rest h = refl
find_block-above_blocks (suc n) low freq rest h =
    ground (arith, find_block-above_blocks n (low + 80) freq rest)

abbrev from_5955 : List ℕ
from_5955 = blocks 12 5955 ++ (6195 ∷ 6995 ∷ [])

-- The whole blocks of one run of channels, in which a frequency lies or not.
abbrev pub in_run : (first last : ℕ) → ℕ → Bool
in_run first last freq = leb first freq && ltb freq last

-- The centre of the block of `size` MHz from `first` on that holds the frequency.
abbrev pub center_in : (first size offset : ℕ) → ℕ → ℕ
center_in first size offset freq = first + (freq - first) / size * size + offset

-- The centre frequency of 80 MHz, from the runs of blocks in the 5 and the 6 GHz band. A block goes from
-- the first of its four control frequencies to 80 MHz above it.
unfoldable pub center_80 : ℕ → ℕ
center_80 freq =
    if in_run 5180 5340 freq
    then center_in 5180 80 30 freq
    else if in_run 5500 5740 freq
    then center_in 5500 80 30 freq
    else if in_run 5745 5825 freq
    then 5775
    else if in_run 5955 6915 freq
    then center_in 5955 80 30 freq
    else if in_run 6995 7075 freq
    then 7025
    else freq

unfoldable pub center_160 : ℕ → ℕ
center_160 freq =
    if in_run 5180 5340 freq then 5250 else if in_run 5500 5660 freq then 5570 else freq

find_block-below_blocks :
    (n low freq : ℕ) (rest : List ℕ)
    → freq < low
    → find_block 80 freq (blocks n low ++ rest) ≡ find_block 80 freq rest
unfolding find_block
find_block-below_blocks zero low freq rest h = refl
find_block-below_blocks (suc n) low freq rest h =
    ground (arith, find_block-below_blocks n (low + 80) freq rest)

-- A run of the table gives the block by division.
find_block-run :
    (n low freq : ℕ) (rest : List ℕ)
    → block_center 30 freq (find_block 80 freq (blocks n low ++ rest)) ≡ (
        if in_run low (low + 80 * n) freq
        then center_in low 80 30 freq
        else block_center 30 freq (find_block 80 freq rest))
find_block-run n low freq rest = elim (Bool-cases (in_run low (low + 80 * n) freq)) [
  | inl inside ↦
      let lo : low ≤ freq = ground arith in
      let hi : freq < low + 80 * n = ground arith in
      let k = (freq - low) / 80 in
      rw inside (
        ap (block_center 30 freq)
          (find_block-in_blocks n k low freq rest (omega arith) (omega arith) (omega arith))
        ∙ omega arith)
  | inr outside ↦ rw outside (
      ap (block_center 30 freq) (elim (Bool-cases (ltb freq low)) [
        | inl below ↦ find_block-below_blocks n low freq rest (ground arith)
        | inr above ↦ find_block-above_blocks n low freq rest (ground arith)
      ]))
]

-- The entry 6195 that stands twice in the table changes nothing behind its first place.
second_6195 :
    (freq : ℕ)
    → in_run 5955 6915 freq ≡ false
    → block_center 30 freq (find_block 80 freq (6195 ∷ 6995 ∷ []))
      ≡ (if in_run 6995 7075 freq then 7025 else freq)
unfolding find_block
second_6195 freq outside = ground arith

one_block :
    (freq other : ℕ)
    → (if in_run 5745 5825 freq then center_in 5745 80 30 freq else other)
      ≡ (if in_run 5745 5825 freq then 5775 else other)
one_block freq other = elim (Bool-cases (in_run 5745 5825 freq)) [
  | inl inside ↦ rw inside (ground arith)
  | inr outside ↦ rw outside refl
]

last_runs :
    (freq : ℕ)
    → (if in_run 5955 6915 freq
        then center_in 5955 80 30 freq
        else block_center 30 freq (find_block 80 freq (6195 ∷ 6995 ∷ [])))
      ≡ (if in_run 5955 6915 freq
          then center_in 5955 80 30 freq
          else if in_run 6995 7075 freq
          then 7025
          else freq)
last_runs freq = elim (Bool-cases (in_run 5955 6915 freq)) [
  | inl inside ↦ rw inside refl
  | inr outside ↦ rw outside (second_6195 freq outside)
]

first_runs : (freq : ℕ) → block_center 30 freq (find_block 80 freq bw80) ≡ center_80 freq
unfolding center_80
first_runs freq =
    let others =
      if in_run 5955 6915 freq
      then center_in 5955 80 30 freq
      else if in_run 6995 7075 freq
      then 7025
      else freq in
    find_block-run 2 5180 freq (blocks 3 5500 ++ (blocks 1 5745 ++ from_5955))
    ∙ ap (λ x. if in_run 5180 5340 freq then center_in 5180 80 30 freq else x)
        (find_block-run 3 5500 freq (blocks 1 5745 ++ from_5955)
          ∙ ap (λ x. if in_run 5500 5740 freq then center_in 5500 80 30 freq else x)
              (find_block-run 1 5745 freq from_5955
                ∙ ap (λ x. if in_run 5745 5825 freq then center_in 5745 80 30 freq else x)
                    (find_block-run 12 5955 freq (6195 ∷ 6995 ∷ []) ∙ last_runs freq)
                ∙ one_block freq others))

get_cf1-center_80 : (freq freq1_diff : ℕ) → get_cf1 width_80 freq1_diff freq ≡ center_80 freq
unfolding get_cf1
get_cf1-center_80 freq freq1_diff = first_runs freq

get_cf1-center_160 : (freq freq1_diff : ℕ) → get_cf1 width_160 freq1_diff freq ≡ center_160 freq
unfolding get_cf1 center_160 find_block
get_cf1-center_160 freq freq1_diff = ground arith

-- For 80 MHz `get_cf1` gives, in the runs of whole blocks 5180 to 5339, 5500 to 5739, 5745 to 5824, 5955
-- to 6914 and 6995 to 7074 MHz, the centre of the block that division finds: 30 MHz above the first
-- control frequency of the block. For 160 MHz it gives 5250 from 5180 to 5339 and 5570 from 5500 to 5659.
-- Every other frequency comes back as it is, also 6915 to 6994 MHz for 80 MHz and all of the 6 GHz band
-- for 160 MHz.
pub get_cf1_centers :
    (freq freq1_diff : ℕ)
    → (get_cf1 width_80 freq1_diff freq ≡ center_80 freq)
      × (get_cf1 width_160 freq1_diff freq ≡ center_160 freq)
get_cf1_centers freq freq1_diff =
    (get_cf1-center_80 freq freq1_diff, get_cf1-center_160 freq freq1_diff)
