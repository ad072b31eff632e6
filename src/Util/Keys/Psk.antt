-- ===== src/Util/Keys/Psk.antt =====
-- The message that `parse_keys` builds from a pre-shared key.
use nl.Base.{
  ℕ, ◌*◌, true, Bytes, List, [], ◌∷◌, ◌++◌, length, codes, All, some, ◌==◌, ◌≡◌, refl, ◌∙◌, sym,
  arith,
}
use nl.Libc.{hex02}
use nl.Nl80211.Attr
use nl.Netlink.{
  Netlink, Result, ok, ◌>>=◌, room, Attrs, nil, u32, blob, put_all, >>=_assoc, >>=_cong,
}
use nl.Util.HexText.{hex_text, IsByte, hex2bin-hex_text}
use nl.Util.Keys.{parse_keys, put_psk, psk_data, parse_akm_suite, parse_cipher_suite}

length-hex_text : (bs : Bytes) → length (hex_text bs) ≡ 2 * length bs
unfolding hex02
length-hex_text [] = refl
length-hex_text (b ∷ bs) = omega (arith, length-hex_text bs)

psk_data-hex_text :
    (psk : Bytes) → length psk ≡ 32 → All IsByte psk → psk_data (hex_text psk) ≡ some psk
psk_data-hex_text psk h bytes =
    let long : (length (hex_text psk) == 64) ≡ true = ground (arith, length-hex_text psk) in
    rw long (hex2bin-hex_text psk bytes)

abbrev pub psk_word : Bytes → Bytes
psk_word psk = codes "psk:" ++ hex_text psk

-- WPA version 2, the key, open system authentication, and the three suites.
abbrev pub psk_attrs : Bytes → ℕ → ℕ → ℕ → Attrs
psk_attrs psk akm pairwise group = u32 Attr.wpa_versions 2 (
    blob Attr.pmk psk (
      u32 Attr.auth_type 0 (
        u32 Attr.akm_suites akm
          (u32 Attr.cipher_suites_pairwise pairwise (u32 Attr.cipher_suite_group group nil)))))

module _ (n : Netlink) where
  open n use {Msg, nla_put, nla_put_u32}

  step_u32 :
      {B : Type 0} (attr v : ℕ) (rest : Attrs) (m : Msg) {f : Msg → Result B} (k : Msg → Result B)
      → ((m1 : Msg) → f m1 ≡ (put_all n rest m1 >>= k))
      → (room (nla_put_u32 m attr v) >>= f) ≡ (put_all n (u32 attr v rest) m >>= k)
  unfolding put_all
  step_u32 attr v rest m k h =
      >>=_cong (room (nla_put_u32 m attr v)) h
      ∙ sym (>>=_assoc (room (nla_put_u32 m attr v)) (put_all n rest) k)

  step_blob :
      {B : Type 0} (attr : ℕ) (v : Bytes) (rest : Attrs) (m : Msg) {f : Msg → Result B}
      (k : Msg → Result B)
      → ((m1 : Msg) → f m1 ≡ (put_all n rest m1 >>= k))
      → (room (nla_put m attr v) >>= f) ≡ (put_all n (blob attr v rest) m >>= k)
  unfolding put_all
  step_blob attr v rest m k h =
      >>=_cong (room (nla_put m attr v)) h
      ∙ sym (>>=_assoc (room (nla_put m attr v)) (put_all n rest) k)

  -- On `psk:` with the hexadecimal text of 32 bytes, an AKM suite and two cipher suites `parse_keys`
  -- uses these four words, puts just the attributes of the pre-shared key, in this order, and fails
  -- only if one of them finds no room.
  pub parse_keys-psk_word :
      (psk : Bytes) (akm pairwise group : Bytes) (a p g : ℕ) (argv : List Bytes) (m : Msg)
      → length psk ≡ 32
      → All IsByte psk
      → parse_akm_suite akm ≡ some a
      → parse_cipher_suite pairwise ≡ some p
      → parse_cipher_suite group ≡ some g
      → parse_keys n (psk_word psk ∷ akm ∷ pairwise ∷ group ∷ argv) m
        ≡ (put_all n (psk_attrs psk a p g) m >>= λ m'. ok (m', argv))
  unfolding parse_keys put_psk put_all
  parse_keys-psk_word psk akm pairwise group a p g argv m long bytes ha hp hg =
      let end : Msg → Result (Msg × List Bytes) = λ m'. ok (m', argv) in
      let last = u32 Attr.cipher_suite_group g nil in
      let ciphers = u32 Attr.cipher_suites_pairwise p last in
      let suites = u32 Attr.akm_suites a ciphers in
      let auth = u32 Attr.auth_type 0 suites in
      rw (psk_data-hex_text psk long bytes) (
        rw (ha, hp, hg)
          (step_u32 Attr.wpa_versions 2 (blob Attr.pmk psk auth) m end (λ m1.
            step_blob Attr.pmk psk auth m1 end (λ m2. step_u32 Attr.auth_type 0 suites m2 end (λ m3.
              step_u32 Attr.akm_suites a ciphers m3 end (λ m4.
                step_u32 Attr.cipher_suites_pairwise p last m4 end
                  (λ m5. step_u32 Attr.cipher_suite_group g nil m5 end (λ m6. refl))))))))
