-- ===== src/Scan/Printer/Loops.antt =====
-- The same for the printers with lengths of their own and with loops.
use nl.Base.{
  ℕ, zero, suc, ◌+◌, ◌*◌, ◌-◌, ◌/◌, ◌%◌, ◌≤◌, ◌<◌, not, Bytes, some, [], ◌∷◌, length, ltb, ◌==◌,
  arith, get_elem?, ◌||◌, leb,
}
use nl.Print.{Printed}
use nl.Print.Laws.{IsSafe, some-IsSafe, say-IsSafe, and-IsSafe, byte-IsSafe, skip-IsSafe, if-IsSafe}
use nl.Util.Mac.{mac_addr_n2a, n2a_loop}
use nl.Scan.Simple.{print_wifi_owe_tarns, bssid_text}
use nl.Scan.Interworking.{print_interworking, print_11u_rcon, hessid, hex_loop, oi_text}
use nl.Scan.Operation.{
  print_measurement_pilot_tx, pilot_loop, pilot_text, print_tx_power_envelope, power_loop,
  power_names, with_name, power_line, print_wifi_wmm, print_wifi_wmm_param, aci_loop, wmm_bytes,
}

hessid-IsSafe : (bytes : Bytes) (i : ℕ) → i + 5 < length bytes → IsSafe (hessid bytes i)
unfolding hessid
hessid-IsSafe bytes i h = byte-IsSafe bytes i _ (omega arith) (λ a.
    byte-IsSafe bytes (i + 1) _ (omega arith) (λ b. byte-IsSafe bytes (i + 2) _ (omega arith) (λ c.
      byte-IsSafe bytes (i + 3) _ (omega arith) (λ d.
        byte-IsSafe bytes (i + 4) _ (omega arith)
          (λ e. byte-IsSafe bytes (i + 5) _ (omega arith) (λ f. some-IsSafe _))))))

pub print_interworking-IsSafe : (bytes : Bytes) → IsSafe (print_interworking bytes)
unfolding print_interworking
print_interworking-IsSafe bytes = say-IsSafe _ _ (
    and-IsSafe _ _
      (if-IsSafe (leb 1 (length bytes)) _ _
        (λ e. byte-IsSafe bytes 0 _ (ground arith) (λ v. some-IsSafe _)) (λ e. some-IsSafe _))
      (and-IsSafe _ _
        (if-IsSafe (length bytes == 3 || length bytes == 9) _ _
          (λ e.
            byte-IsSafe bytes 1 _ (ground arith)
              (λ g. byte-IsSafe bytes 2 _ (ground arith) (λ t. some-IsSafe _)))
          (λ e. some-IsSafe _))
        (if-IsSafe (length bytes == 9) _ _ (λ e. hessid-IsSafe bytes 3 (ground arith))
          (λ e.
            if-IsSafe (length bytes == 7) _ _ (λ e'. hessid-IsSafe bytes 1 (ground arith))
              (λ e'. some-IsSafe _)))))

hex_loop-IsSafe :
    (bytes : Bytes) (count i : ℕ) → i + count ≤ length bytes → IsSafe (hex_loop bytes count i)
unfolding hex_loop
hex_loop-IsSafe bytes zero i h = some-IsSafe _
hex_loop-IsSafe bytes (suc count) i h =
    and-IsSafe _ _ (byte-IsSafe bytes i _ (omega arith) (λ v. some-IsSafe _))
      (hex_loop-IsSafe bytes count (i + 1) (omega arith))

oi_text-IsSafe : (bytes label : Bytes) (count i : ℕ) → IsSafe (oi_text bytes label count i)
unfolding oi_text
oi_text-IsSafe bytes label count i =
    if-IsSafe (count == 0) _ _ (λ e. some-IsSafe _)
      (λ e. say-IsSafe _ _ (
        if-IsSafe (ltb (length bytes) (i + count)) _ _ (λ e'. some-IsSafe _)
          (λ e'. and-IsSafe _ _ (hex_loop-IsSafe bytes count i (ground arith)) (some-IsSafe _))))

pub print_11u_rcon-IsSafe : (bytes : Bytes) → 2 ≤ length bytes → IsSafe (print_11u_rcon bytes)
unfolding print_11u_rcon
print_11u_rcon-IsSafe bytes h = byte-IsSafe bytes 1 _ (omega arith) (λ lengths.
    byte-IsSafe bytes 0 _ (omega arith) (λ count. say-IsSafe _ _ (
      and-IsSafe _ _ (oi_text-IsSafe bytes _ _ _)
        (and-IsSafe _ _ (oi_text-IsSafe bytes _ _ _) (oi_text-IsSafe bytes _ _ _)))))

-- The array of names has four entries.
with_name-IsSafe :
    (i : ℕ) (next : Bytes → Printed)
    → i < 4
    → ((name : Bytes) → IsSafe (next name))
    → IsSafe (with_name (get_elem? power_names i) next)
with_name-IsSafe zero next h safe = safe _
with_name-IsSafe (suc zero) next h safe = safe _
with_name-IsSafe (suc (suc zero)) next h safe = safe _
with_name-IsSafe (suc (suc (suc zero))) next h safe = safe _
with_name-IsSafe (suc (suc (suc (suc i)))) next h safe = absurd (omega arith)

power_loop-IsSafe :
    (bytes : Bytes) (rounds i : ℕ)
    → rounds + i < length bytes
    → rounds + i ≤ 4
    → IsSafe (power_loop bytes rounds i)
unfolding power_loop
power_loop-IsSafe bytes zero i h names = some-IsSafe _
power_loop-IsSafe bytes (suc rounds) i h names =
    and-IsSafe _ _
      (byte-IsSafe bytes (1 + i) _ (omega arith) (λ v.
        with_name-IsSafe i (λ name. some (power_line name v)) (omega arith)
          (λ name. some-IsSafe _)))
      (power_loop-IsSafe bytes rounds (i + 1) (omega arith) (omega arith))

pub print_tx_power_envelope-IsSafe :
    (bytes : Bytes) → 2 ≤ length bytes → length bytes ≤ 5 → IsSafe (print_tx_power_envelope bytes)
unfolding print_tx_power_envelope
print_tx_power_envelope-IsSafe bytes h top = byte-IsSafe bytes 0 _ (omega arith) (λ v.
    say-IsSafe _ _ (
      if-IsSafe (not (v % 8 + 2 == length bytes)) _ _ (λ e. some-IsSafe _)
        (λ e.
          if-IsSafe (not (v / 8 % 8 == 0)) _ _ (λ e'. some-IsSafe _)
            (λ e'. power_loop-IsSafe bytes (v % 8 + 1) 0 (ground arith) (ground arith)))))

pilot_text-IsSafe : (rest : Bytes) (size : ℕ) → 3 ≤ length rest → IsSafe (pilot_text rest size)
pilot_text-IsSafe rest size h = byte-IsSafe rest 0 _ (omega arith) (λ a.
    byte-IsSafe rest 1 _ (omega arith)
      (λ b. byte-IsSafe rest 2 _ (omega arith) (λ c. some-IsSafe _)))

pilot_loop-IsSafe :
    (fuel : ℕ) (bytes : Bytes) → length bytes < fuel → IsSafe (pilot_loop fuel bytes)
unfolding pilot_loop
pilot_loop-IsSafe zero bytes h = absurd (omega arith)
pilot_loop-IsSafe (suc fuel) bytes h =
    if-IsSafe (ltb (length bytes) 5) _ _ (λ e. some-IsSafe _)
      (λ e. byte-IsSafe bytes 0 _ (ground arith) (λ id.
        byte-IsSafe bytes 1 _ (ground arith) (λ size.
          skip-IsSafe 2 bytes _ (ground arith) (λ rest left.
            if-IsSafe (not (id == 221)) _ _ (λ e'. some-IsSafe _)
              (λ e'.
                if-IsSafe (ltb size 3 || ltb (length rest) size) _ _ (λ e''. some-IsSafe _)
                  (λ e''. and-IsSafe _ _ (pilot_text-IsSafe rest size (ground arith)) (
                    skip-IsSafe size rest (pilot_loop fuel) (ground arith)
                      (λ after left'. pilot_loop-IsSafe fuel after (ground arith)))))))))

pub print_measurement_pilot_tx-IsSafe :
    (bytes : Bytes) → 1 ≤ length bytes → IsSafe (print_measurement_pilot_tx bytes)
unfolding print_measurement_pilot_tx
print_measurement_pilot_tx-IsSafe bytes h = byte-IsSafe bytes 0 _ h (λ v.
    say-IsSafe _ _
      (skip-IsSafe 1 bytes _ h (λ rest left. pilot_loop-IsSafe (length bytes) rest (omega arith))))

aci_loop-IsSafe :
    (bytes : Bytes) (rounds at : ℕ)
    → at + 4 * rounds ≤ length bytes
    → IsSafe (aci_loop bytes rounds at)
unfolding aci_loop
aci_loop-IsSafe bytes zero at h = some-IsSafe _
aci_loop-IsSafe bytes (suc rounds) at h =
    and-IsSafe _ _
      (byte-IsSafe bytes at _ (omega arith) (λ a. byte-IsSafe bytes (at + 1) _ (omega arith) (λ b.
        byte-IsSafe bytes (at + 2) _ (omega arith)
          (λ c. byte-IsSafe bytes (at + 3) _ (omega arith) (λ d. some-IsSafe _)))))
      (aci_loop-IsSafe bytes rounds (at + 4) (omega arith))

wmm_bytes-IsSafe : (bytes : Bytes) → IsSafe (wmm_bytes bytes)
wmm_bytes-IsSafe bytes = say-IsSafe _ _ (some-IsSafe _)

print_wifi_wmm_param-IsSafe : (bytes : Bytes) → IsSafe (print_wifi_wmm_param bytes)
unfolding print_wifi_wmm_param
print_wifi_wmm_param-IsSafe bytes =
    if-IsSafe (ltb (length bytes) 19) _ _ (λ e. say-IsSafe _ _ (wmm_bytes-IsSafe bytes))
      (λ e. byte-IsSafe bytes 0 _ (ground arith) (λ version.
        if-IsSafe (not (version == 1)) _ _ (λ e'. say-IsSafe _ _ (wmm_bytes-IsSafe bytes))
          (λ e'. byte-IsSafe bytes 1 _ (ground arith) (λ flags.
            say-IsSafe _ _
              (and-IsSafe _ _ (aci_loop-IsSafe bytes 4 3 (ground arith)) (some-IsSafe _))))))

pub print_wifi_wmm-IsSafe : (bytes : Bytes) → 1 ≤ length bytes → IsSafe (print_wifi_wmm bytes)
unfolding print_wifi_wmm
print_wifi_wmm-IsSafe bytes h = byte-IsSafe bytes 0 _ h (λ type.
    if-IsSafe (type == 0) _ _
      (λ e. say-IsSafe _ _ (skip-IsSafe 1 bytes wmm_bytes h (λ rest l. wmm_bytes-IsSafe rest)))
      (λ e.
        if-IsSafe (type == 1) _ _
          (λ e'.
            skip-IsSafe 1 bytes print_wifi_wmm_param h (λ rest l. print_wifi_wmm_param-IsSafe rest))
          (λ e'.
            say-IsSafe _ _ (skip-IsSafe 1 bytes wmm_bytes h (λ rest l. wmm_bytes-IsSafe rest)))))

-- `mac_addr_n2a` reads six bytes.
bssid_text-IsSafe : (bytes : Bytes) → 6 ≤ length bytes → IsSafe (bssid_text (mac_addr_n2a bytes))
unfolding mac_addr_n2a n2a_loop
bssid_text-IsSafe [] h = absurd (omega arith)
bssid_text-IsSafe (a ∷ []) h = absurd (omega arith)
bssid_text-IsSafe (a ∷ b ∷ []) h = absurd (omega arith)
bssid_text-IsSafe (a ∷ b ∷ c ∷ []) h = absurd (omega arith)
bssid_text-IsSafe (a ∷ b ∷ c ∷ d ∷ []) h = absurd (omega arith)
bssid_text-IsSafe (a ∷ b ∷ c ∷ d ∷ e ∷ []) h = absurd (omega arith)
bssid_text-IsSafe (a ∷ b ∷ c ∷ d ∷ e ∷ f ∷ rest) h = some-IsSafe _

pub print_wifi_owe_tarns-IsSafe :
    (bytes : Bytes) → 7 ≤ length bytes → IsSafe (print_wifi_owe_tarns bytes)
unfolding print_wifi_owe_tarns
print_wifi_owe_tarns-IsSafe bytes h = say-IsSafe _ _ (
    if-IsSafe (ltb (length bytes) 7) _ _ (λ e. some-IsSafe _)
      (λ e. and-IsSafe _ _ (bssid_text-IsSafe bytes (omega arith)) (
        byte-IsSafe bytes 6 _ (omega arith) (λ ssid_len.
          if-IsSafe (ltb (length bytes - 7) ssid_len) _ _ (λ e'. some-IsSafe _)
            (λ e'. and-IsSafe _ _ (skip-IsSafe 7 bytes _ h (λ rest l. some-IsSafe _)) (
              if-IsSafe (ltb (length bytes) (ssid_len + 9)) _ _ (λ e''. some-IsSafe _)
                (λ e''.
                  and-IsSafe _ _
                    (byte-IsSafe bytes (ssid_len + 7) _ (ground arith) (λ v. some-IsSafe _))
                    (byte-IsSafe bytes (ssid_len + 8) _ (ground arith) (λ v. some-IsSafe _)))))))))
