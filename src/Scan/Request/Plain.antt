-- ===== src/Scan/Request/Plain.antt =====
-- A request with flags, frequencies and SSIDs.
use nl.Base.{
  Bool-cases, ℕ, suc, ◌+◌, bit_or, Bool, true, false, Bytes, Option, none, some, List, [], ◌∷◌,
  ◌++◌, length, codes, ◌==◌, if◌then◌else◌, ◌≡◌, refl, ap, ◌∙◌, arith, All, Option-cases, inl, inr,
}
use nl.Nl80211.Attr
use nl.Libc.{strtoul}
use nl.Netlink.{Netlink, Result, ok, err, room, enobufs, ◌>>=◌}
use nl.Scan.Request.{
  handle_scan, write_scan, Parse, p_none, p_freq, p_ssid, no_args, ScanState, w_flag, as_scan_word,
  whole_number, scan_loop, none_word, kept,
}

-- The words for a flag.
pub data FlagWord : Type 0 where
  lowpri flush ap_force coloc : FlagWord

abbrev pub flag_name : FlagWord → Bytes
flag_name lowpri = codes "lowpri"
flag_name flush = codes "flush"
flag_name ap_force = codes "ap-force"
flag_name coloc = codes "coloc"

abbrev pub flag_value : FlagWord → ℕ
flag_value lowpri = 1
flag_value flush = 2
flag_value ap_force = 4
flag_value coloc = 16384

abbrev pub flags_of : ℕ → List FlagWord → ℕ
flags_of flags [] = flags
flags_of flags (w ∷ ws) = flags_of (bit_or flags (flag_value w)) ws

abbrev pub flag_words : List FlagWord → List Bytes
flag_words [] = []
flag_words (w ∷ ws) = flag_name w ∷ flag_words ws

-- A word with the number that all of it is.
abbrev pub IsNumber : Bytes × ℕ → Type 0
IsNumber (word, v) = whole_number word ≡ some v

abbrev pub number_words : List (Bytes × ℕ) → List Bytes
number_words [] = []
number_words ((word, v) ∷ ws) = word ∷ number_words ws

as_scan_word-flag_name : (w : FlagWord) → as_scan_word (flag_name w) ≡ some (w_flag (flag_value w))
unfolding as_scan_word
as_scan_word-flag_name lowpri = refl
as_scan_word-flag_name flush = refl
as_scan_word-flag_name ap_force = refl
as_scan_word-flag_name coloc = refl

ssid_number : whole_number (codes "ssid") ≡ none
unfolding whole_number strtoul
ssid_number = refl

module _ (n : Netlink) where
  open n use {Msg, nla_put, nla_put_u32, nlmsg_alloc, nla_put_nested}

  abbrev then_put : Option Msg → (Msg → Option Msg) → Option Msg
  then_put none f = none
  then_put (some m) f = f m

  -- Numbers and texts as attributes of the types from `i` on.
  unfoldable pub put_numbers : ℕ → List (Bytes × ℕ) → Msg → Option Msg
  put_numbers i [] m = some m
  put_numbers i ((word, v) ∷ ws) m = then_put (nla_put_u32 m i v) (put_numbers (i + 1) ws)

  unfoldable pub put_texts : ℕ → List Bytes → Msg → Option Msg
  put_texts i [] m = some m
  put_texts i (t ∷ ts) m = then_put (nla_put m i t) (put_texts (i + 1) ts)

  -- The message of a request.
  abbrev pub put_request : ℕ → Msg → Msg → Msg → Result Msg
  put_request flags msg freqs ssids =
      let m1 = kept n msg (nla_put_nested msg Attr.scan_ssids ssids) in
      let m2 = kept n m1 (nla_put_nested m1 Attr.scan_frequencies freqs) in
      if flags == 0 then ok m2 else room (nla_put_u32 m2 Attr.scan_flags flags)

  -- The variables after some words.
  abbrev state_of : Parse → ℕ → Bool → Bool → Msg → Msg → Msg → ScanState n
  state_of parse flags have_freqs have_ssids msg freqs ssids = record {
    args = record no_args {
      parse = parse;
      flags = flags;
      have_freqs = have_freqs;
      have_ssids = have_ssids;
    };
    msg = msg;
    ssids = ssids;
    freqs = freqs;
  }

  flag_words-loop :
      (addr mask : Bytes) (fs : List FlagWord) (flags i : ℕ) (rest : List Bytes)
      (msg freqs ssids : Msg)
      → scan_loop n addr mask
          (state_of p_none flags false false msg freqs ssids)
          i
          (flag_words fs ++ rest)
        ≡ scan_loop n addr mask
            (state_of p_none (flags_of flags fs) false false msg freqs ssids)
            (i + length fs)
            rest
  unfolding scan_loop none_word
  flag_words-loop addr mask [] flags i rest msg freqs ssids =
      ap (λ k. scan_loop n addr mask (state_of p_none flags false false msg freqs ssids) k rest)
        (omega arith)
  flag_words-loop addr mask (w ∷ fs) flags i rest msg freqs ssids =
      let others =
        flag_words-loop addr mask fs (bit_or flags (flag_value w)) (i + 1) rest msg freqs ssids in
      let place : i + 1 + length fs ≡ i + suc (length fs) = omega arith in
      rw (as_scan_word-flag_name w) (rw place at others)

  -- What a handler makes of the message of a list.
  abbrev or_full : Msg → Option Msg → (Msg → Option (Result Msg)) → Option (Result Msg)
  or_full msg none f = some (err enobufs)
  or_full msg (some m) f = f m

  numbers-loop :
      (addr mask : Bytes) (ws : List (Bytes × ℕ)) (flags i : ℕ) (rest : List Bytes)
      (msg freqs ssids : Msg)
      → All IsNumber ws
      → scan_loop n addr mask
          (state_of p_freq flags true false msg freqs ssids)
          i
          (number_words ws ++ rest)
        ≡ or_full msg (put_numbers i ws freqs) (λ freqs'.
          scan_loop n addr mask
            (state_of p_freq flags true false msg freqs' ssids)
            (i + length ws)
            rest)
  unfolding scan_loop put_numbers
  numbers-loop addr mask [] flags i rest msg freqs ssids h =
      ap (λ k. scan_loop n addr mask (state_of p_freq flags true false msg freqs ssids) k rest)
        (omega arith)
  numbers-loop addr mask ((word, v) ∷ ws) flags i rest msg freqs ssids (h, hs) =
      elim (Option-cases (nla_put_u32 freqs i v)) [
        | inl full ↦ rw (h, full) refl
        | inr (m, put) ↦
            let others = numbers-loop addr mask ws flags (i + 1) rest msg m ssids hs in
            let place : i + 1 + length ws ≡ i + suc (length ws) = omega arith in
            rw (h, put) (rw place at others)
      ]

  texts-loop :
      (addr mask : Bytes) (ts : List Bytes) (flags i : ℕ) (msg freqs ssids : Msg)
      → scan_loop n addr mask (state_of p_ssid flags true true msg freqs ssids) i ts
        ≡ or_full msg
            (put_texts i ts ssids)
            (λ ssids'. some (write_scan n (state_of p_ssid flags true true msg freqs ssids')))
  unfolding scan_loop put_texts
  texts-loop addr mask [] flags i msg freqs ssids = refl
  texts-loop addr mask (t ∷ ts) flags i msg freqs ssids = elim (Option-cases (nla_put ssids i t)) [
    | inl full ↦ rw full refl
    | inr (m, put) ↦ rw put (texts-loop addr mask ts flags (i + 1) msg freqs m)
  ]

  write_request :
      (flags : ℕ) (msg freqs ssids : Msg)
      → write_scan n (state_of p_ssid flags true true msg freqs ssids)
        ≡ put_request flags msg freqs ssids
  unfolding write_scan
  write_request flags msg freqs ssids = elim (Bool-cases (flags == 0)) [
    | inl zero_flags ↦ rw zero_flags refl
    | inr flagged ↦
        let m1 = kept n msg (nla_put_nested msg Attr.scan_ssids ssids) in
        let m2 = kept n m1 (nla_put_nested m1 Attr.scan_frequencies freqs) in
        elim (Option-cases (nla_put_u32 m2 Attr.scan_flags flags)) [
          | inl full ↦ rw (flagged, full) refl
          | inr (m3, put) ↦ rw (flagged, put) refl
        ]
  ]

  written :
      (flags : ℕ) (msg freqs : Msg) (o : Option Msg)
      → or_full msg o
          (λ ssids. some (write_scan n (state_of p_ssid flags true true msg freqs ssids)))
        ≡ some (room o >>= put_request flags msg freqs)
  written flags msg freqs none = refl
  written flags msg freqs (some ssids) = ap some (write_request flags msg freqs ssids)

  -- The list of SSIDs, which ends the list of frequencies.
  ssids_request :
      (addr mask : Bytes) (ts : List Bytes) (flags i : ℕ) (msg freqs : Msg)
      → scan_loop n addr mask
          (state_of p_freq flags true false msg freqs nlmsg_alloc)
          i
          (codes "ssid" ∷ ts)
        ≡ some (room (put_texts (i + 1) ts nlmsg_alloc) >>= put_request flags msg freqs)
  unfolding scan_loop none_word as_scan_word
  ssids_request addr mask ts flags i msg freqs = rw ssid_number (
      texts-loop addr mask ts flags (i + 1) msg freqs nlmsg_alloc
      ∙ written flags msg freqs (put_texts (i + 1) ts nlmsg_alloc))

  lists_request :
      (addr mask : Bytes) (ws : List (Bytes × ℕ)) (ts : List Bytes) (flags i : ℕ) (msg : Msg)
      → All IsNumber ws
      → scan_loop n addr mask
          (state_of p_none flags false false msg nlmsg_alloc nlmsg_alloc)
          i
          (codes "freq" ∷ (number_words ws ++ (codes "ssid" ∷ ts)))
        ≡ some (
            room (put_numbers (i + 1) ws nlmsg_alloc) >>= λ freqs.
            room (put_texts (i + 1 + length ws + 1) ts nlmsg_alloc) >>= put_request flags msg freqs)
  unfolding scan_loop none_word as_scan_word
  lists_request addr mask ws ts flags i msg h =
      numbers-loop addr mask ws flags (i + 1) (codes "ssid" ∷ ts) msg nlmsg_alloc nlmsg_alloc h
      ∙ go (put_numbers (i + 1) ws nlmsg_alloc)
    where
      go :
          (o : Option Msg)
          → or_full msg o (λ freqs.
            scan_loop n addr mask
              (state_of p_freq flags true false msg freqs nlmsg_alloc)
              (i + 1 + length ws)
              (codes "ssid" ∷ ts))
            ≡ some (
                room o >>= λ freqs.
                room (put_texts (i + 1 + length ws + 1) ts nlmsg_alloc)
                >>= put_request flags msg freqs)
      go none = refl
      go (some freqs) = ssids_request addr mask ts flags (i + 1 + length ws) msg freqs

-- Flags, `freq` with whole numbers, and `ssid` with any words make the message with the list of SSIDs, then
-- the list of frequencies, then the flags if there are some. Each frequency and each SSID is put with the
-- place of its word as its type. Each word behind `ssid` is an SSID, also one that is a keyword elsewhere.
pub handle_scan-put_request :
    (n : Netlink) (addr mask : Bytes) (fs : List FlagWord) (ws : List (Bytes × ℕ)) (ts : List Bytes)
    (msg : n.Msg)
    → All IsNumber ws
    → handle_scan n addr mask msg
        (flag_words fs ++ (codes "freq" ∷ (number_words ws ++ (codes "ssid" ∷ ts))))
      ≡ some (
          room (put_numbers n (length fs + 1) ws n.nlmsg_alloc) >>= λ freqs.
          room (put_texts n (length fs + 1 + length ws + 1) ts n.nlmsg_alloc)
          >>= put_request n (flags_of 0 fs) msg freqs)
unfolding handle_scan
handle_scan-put_request n addr mask fs ws ts msg h =
    let place : 0 + length fs ≡ length fs = omega arith in
    let flags =
      flag_words-loop n addr mask fs 0 0 (codes "freq" ∷ (number_words ws ++ (codes "ssid" ∷ ts)))
        msg n.nlmsg_alloc n.nlmsg_alloc in
    (rw place at flags) ∙ lists_request n addr mask ws ts (flags_of 0 fs) (length fs) msg h
