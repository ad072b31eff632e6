-- ===== src/Nan/Filter/Hashed.antt =====
-- The Bloom filter of the addresses on the command line.
use nl.Base.{
  ℕ, zero, suc, ◌%◌, ◌/◌, ◌^◌, ◌<◌, ◌≤◌, ltb, length, Bool, true, false, ◌||◌, ◌==◌, Bytes, some,
  List, [], ◌∷◌, take, replicate, get_or, length-replicate, ◌≡◌, refl, ap, ◌∙◌, arith,
}
use nl.Base.Bits.{test_bit-zero}
use nl.Base.Bits.{test_bit}
use nl.Libc.{atoi, tokens}
use nl.Nl80211.NanSrf
use nl.Netlink.{Netlink, enobufs}
use nl.Run.{done, ◌>>=◌, put_or}
use nl.Util.Mac.{mac_addr_a2n, eth_alen}
use nl.Util.HexMask.Bounds.{mask_bit}
use nl.Nan.Bloom.Laws.{hits, nan_bf-hits}
use nl.Bitrate.Chunk.Range.{or_assoc}
use nl.Nan.Filter.{bf_macs, srf_bf, srf_max_len}

-- The texts are addresses; the buffer of each is what the one before has left.
abbrev pub ReadsMacs : Bytes → List Bytes → List Bytes → Type 0
ReadsMacs mac_addr [] [] = Unit
ReadsMacs mac_addr [] (mac ∷ macs) = ⊥
ReadsMacs mac_addr (text ∷ texts) [] = ⊥
ReadsMacs mac_addr (text ∷ texts) (mac ∷ macs) =
    (mac_addr_a2n mac_addr text ≡ some mac) × ReadsMacs mac texts macs

-- Whether one of the addresses is hashed to bit `k`.
abbrev pub any_hits : ℕ → ℕ → List Bytes → ℕ → Bool
any_hits idx len [] k = false
any_hits idx len (mac ∷ macs) k = hits 4 0 idx len (take eth_alen mac) k || any_hits idx len macs k

or_false : (b : Bool) → b ≡ (b || false)
or_false true = refl
or_false false = refl

pub bf_macs-any_hits :
    (idx len : ℕ) (mac_addr srf : Bytes) (texts macs : List Bytes)
    → ReadsMacs mac_addr texts macs
    → length srf ≡ len
    → 0 < len
    → len < 2 ^ 13
    → (srf' : Bytes) × (bf_macs idx mac_addr srf texts ≡ done srf')
      × (length srf' ≡ len)
      × ((k : ℕ) → mask_bit srf' k ≡ (mask_bit srf k || any_hits idx len macs k))
unfolding bf_macs
bf_macs-any_hits idx len mac_addr srf [] [] reads size some_room small =
    (srf, refl, size, λ k. or_false (mask_bit srf k))
bf_macs-any_hits idx len mac_addr srf [] (mac ∷ macs) reads size some_room small = elim reads [ ]
bf_macs-any_hits idx len mac_addr srf (text ∷ texts) [] reads size some_room small = elim reads [ ]
bf_macs-any_hits idx len mac_addr srf (text ∷ texts) (mac ∷ macs) (is, reads) size some_room small =
    let (srf1, hashed, size1, bits1) =
      nan_bf-hits idx srf len (take eth_alen mac) size some_room small in
    let (srf', rest, size', bits) =
      bf_macs-any_hits idx len mac srf1 texts macs reads size1 some_room small in
    (
      srf',
      rw (is, size, hashed) rest,
      size',
      λ k.
          bits k
          ∙ ap (λ (b : Bool). b || any_hits idx len macs k) (bits1 k)
          ∙ or_assoc (mask_bit srf k) (hits 4 0 idx len (take eth_alen mac) k)
              (any_hits idx len macs k),
    )

get_or-replicate : (size i : ℕ) → get_or {A = ℕ} (replicate size 0) i 0 ≡ 0
get_or-replicate zero i = refl
get_or-replicate (suc size) zero = refl
get_or-replicate (suc size) (suc i) = get_or-replicate size i

zeros-mask_bit : (size k : ℕ) → mask_bit (replicate size 0) k ≡ false
zeros-mask_bit size k =
    ap (λ (b : ℕ). test_bit b (k % 8)) (get_or-replicate size (k / 8)) ∙ test_bit-zero (k % 8)

-- Behind "bf" with an index, a length from 1 to 255 and addresses, the filter that is put, if it finds
-- room behind its index, has that length, and exactly those bits of it are set that one of the
-- addresses is hashed to.
pub srf_bf-any_hits :
    (n : Netlink) (mac_addr idx len text : Bytes) (words macs : List Bytes) (msg m1 : n.Msg)
    → ReadsMacs mac_addr (tokens b';' text) macs
    → 0 < atoi len
    → atoi len ≤ srf_max_len
    → n.nla_put_u8 msg NanSrf.bf_idx (atoi idx % 2 ^ 8) ≡ some m1
    → (srf : Bytes) × (length srf ≡ atoi len)
      × ((k : ℕ) → mask_bit srf k ≡ any_hits (atoi idx % 2 ^ 8) (atoi len) macs k)
      × (srf_bf n mac_addr msg (idx ∷ len ∷ text ∷ words)
          ≡ (put_or enobufs (n.nla_put m1 NanSrf.bf srf) >>= λ m2. done (m2, words)))
unfolding srf_bf
srf_bf-any_hits n mac_addr idx len text words macs msg m1 reads some_bytes most put =
    let (srf, hashed, size, bits) =
      bf_macs-any_hits (atoi idx % 2 ^ 8) (atoi len) mac_addr (replicate (atoi len) 0)
        (tokens b';' text) macs reads (length-replicate (atoi len) 0) some_bytes (omega arith) in
    let inside : ((atoi len == 0) || ltb srf_max_len (atoi len)) ≡ false = ground arith in
    (
      srf,
      size,
      λ k.
          bits k
          ∙ ap (λ (b : Bool). b || any_hits (atoi idx % 2 ^ 8) (atoi len) macs k)
              (zeros-mask_bit (atoi len) k),
      rw (put, inside, hashed) refl,
    )
