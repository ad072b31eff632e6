-- ===== src/Tests/Keys.antt =====
-- Keys and random addresses on the command line.
use nl.Base.{arith, ℕ, ◌≡◌, refl, List, [], ◌∷◌, codes, replicate, some, All, zero, suc}
use nl.Nl80211.Attr
use nl.Nl80211.Key
use nl.Netlink.{ok, err, explained, einval, ◌>>=◌, put_all}
use nl.Util.Hex.{hex2bin}
use nl.Util.HexText.{IsByte}
use nl.Util.Keys.{
  parse_keys, put_psk, put_wep, put_key, put_keys, key_material, parse_akm_suite,
  parse_cipher_suite,
}
use nl.Util.RandomMac.{parse_random_mac_addr, AsAsked, parse_random_mac_addr-AsAsked}
use nl.Util.Mac.{scan_byte, mac_addr_a2n}
use nl.Libc.{cut, scan_from}
use nl.Util.Keys.Psk.{psk_word, psk_attrs, parse_keys-psk_word}
use nl.Tests.Recorder.{Event, recorder, u8, u32, blob, flag, open_nest, close_nest}

program : Unit {0}
unfolding parse_keys put_psk put_wep put_key put_keys key_material parse_akm_suite
    parse_cipher_suite hex2bin
program = tt

abbrev wep_events : List Event
wep_events =
    flag Attr.privacy
    ∷ open_nest Attr.keys
    ∷ open_nest 1
    ∷ flag Key.default
    ∷ u8 Key.idx 2
    ∷ u32 Key.cipher 0x000FAC01
    ∷ blob Key.key_data (codes "abcde")
    ∷ close_nest
    ∷ close_nest
    ∷ []

wep_hex_run : parse_keys recorder (codes "d:2:6162636465" ∷ []) [] ≡ ok (wep_events, [])
unfolding program
wep_hex_run = refl

wep_text_run : parse_keys recorder (codes "d2:abcde" ∷ []) [] ≡ ok (wep_events, [])
unfolding program
wep_text_run = refl

wep_bad_run : parse_keys recorder (codes "d:2:61626364zz" ∷ []) [] ≡ err explained
unfolding program
wep_bad_run = refl

psk_bad_run :
    parse_keys recorder (codes "psk:00" ∷ codes "PSK" ∷ codes "CCMP" ∷ codes "CCMP" ∷ []) []
    ≡ err einval
unfolding program
psk_bad_run = refl

sevens-IsByte : (n : ℕ) → All IsByte (replicate n 7)
sevens-IsByte zero = tt
sevens-IsByte (suc n) = (omega arith, sevens-IsByte n)

suites_run : parse_akm_suite (codes "PSK") ≡ some 0x000FAC02
unfolding program
suites_run = refl

cipher_run : parse_cipher_suite (codes "CCMP") ≡ some 0x000FAC04
unfolding program
cipher_run = refl

parse_keys-psk_word_example :
    parse_keys recorder
      (psk_word (replicate 32 7) ∷ codes "PSK" ∷ codes "CCMP" ∷ codes "CCMP" ∷ codes "rest" ∷ [])
      []
    ≡ (put_all recorder (psk_attrs (replicate 32 7) 0x000FAC02 0x000FAC04 0x000FAC04) [] >>= λ m.
        ok (m, codes "rest" ∷ []))
parse_keys-psk_word_example =
    parse_keys-psk_word recorder (replicate 32 7) (codes "PSK") (codes "CCMP") (codes "CCMP")
      0x000FAC02 0x000FAC04 0x000FAC04 (codes "rest" ∷ []) [] refl (sevens-IsByte 32) suites_run
      cipher_run cipher_run

random_mac_program : Unit {0}
unfolding parse_random_mac_addr mac_addr_a2n cut scan_from scan_byte
random_mac_program = tt

random_run :
    parse_random_mac_addr recorder
      (replicate 6 7)
      (replicate 6 9)
      []
      (codes "=02:00:00:00:00:01/ff:ff:ff:00:00:00")
    ≡ ok (
        blob Attr.mac (2 ∷ 0 ∷ 0 ∷ 0 ∷ 0 ∷ 1 ∷ [])
        ∷ blob Attr.mac_mask (255 ∷ 255 ∷ 255 ∷ 0 ∷ 0 ∷ 0 ∷ [])
        ∷ [])
unfolding random_mac_program
random_run = refl

parse_random_mac_addr-AsAsked_example :
    AsAsked recorder [] (codes "=02:00:00:00:00:01/ff:ff:ff:00:00:00") (
      parse_random_mac_addr recorder
        (replicate 6 7)
        (replicate 6 9)
        []
        (codes "=02:00:00:00:00:01/ff:ff:ff:00:00:00"))
parse_random_mac_addr-AsAsked_example =
    parse_random_mac_addr-AsAsked recorder (replicate 6 7) (replicate 6 9) []
      (codes "=02:00:00:00:00:01/ff:ff:ff:00:00:00") refl refl
