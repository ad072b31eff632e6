-- ===== src/Scan/Request/Reject.antt =====
-- A request that `handle_scan` breaks off.
use nl.Base.{
  Bool, true, false, ℕ, ◌+◌, Bytes, some, none, List, ◌∷◌, codes, drop, if◌then◌else◌, ◌≡◌, refl,
}
use nl.Netlink.{enobufs, Netlink, ok, err}
use nl.Util.HexMask.{rejected, parsed, parse_hex}
use nl.Util.RandomMac.{parse_random_mac_addr}
use nl.Scan.Request.{
  Parse, ScanState, p_none, p_freq, w_freq, w_ies, w_duration_mandatory, w_randomise, w_meshid,
  w_duration, w_flag, whole_number, give_up, as_scan_word, none_word, scan_loop, handle_scan,
}

-- The state of the parser: in a list of frequencies or between the words.
abbrev list_state : Bool → Parse
list_state in_list = if in_list then p_freq else p_none

module _ (n : Netlink) (addr mask : Bytes) where
  open n use {Msg, nla_put_u32, nlmsg_alloc}

  -- Words that the loop takes from the word `i` on, up to the words `rest`: flags, "duration-mandatory",
  -- an address to randomise that is read, "meshid", "duration" and "ies" with their texts, and lists of
  -- frequencies that find room. `random` tells whether an address was put, `m` is the message and
  -- `freqs` the one with the frequencies.
  pub data Taken (random' : Bool) (m' : Msg) (rest : List Bytes)
      : (in_list random : Bool) → (m freqs : Msg) → (i : ℕ) → List Bytes → Type 0 where
    taken_all :
        {in_list random : Bool} {m freqs : Msg} {i : ℕ} {ws : List Bytes}
        → in_list ≡ false
        → random ≡ random'
        → m ≡ m'
        → ws ≡ rest
        → Taken random' m' rest in_list random m freqs i ws
    taken_flag :
        {in_list random : Bool} {m freqs : Msg} {i : ℕ} (w : Bytes) {ws : List Bytes} (v : ℕ)
        → in_list ≡ false
        → as_scan_word w ≡ some (w_flag v)
        → Taken random' m' rest false random m freqs (i + 1) ws
        → Taken random' m' rest in_list random m freqs i (w ∷ ws)
    taken_mandatory :
        {in_list random : Bool} {m freqs : Msg} {i : ℕ} (w : Bytes) {ws : List Bytes}
        → in_list ≡ false
        → as_scan_word w ≡ some w_duration_mandatory
        → Taken random' m' rest false random m freqs (i + 1) ws
        → Taken random' m' rest in_list random m freqs i (w ∷ ws)
    taken_randomise :
        {in_list random : Bool} {m freqs : Msg} {i : ℕ} (w : Bytes) {ws : List Bytes} (m1 : Msg)
        → in_list ≡ false
        → as_scan_word w ≡ some w_randomise
        → parse_random_mac_addr n addr mask m (drop 9 w) ≡ ok m1
        → Taken random' m' rest false true m1 freqs (i + 1) ws
        → Taken random' m' rest in_list random m freqs i (w ∷ ws)
    taken_meshid :
        {in_list random : Bool} {m freqs : Msg} {i : ℕ} (w id : Bytes) {ws : List Bytes}
        → in_list ≡ false
        → as_scan_word w ≡ some w_meshid
        → Taken random' m' rest false random m freqs (i + 1 + 1) ws
        → Taken random' m' rest in_list random m freqs i (w ∷ id ∷ ws)
    taken_duration :
        {in_list random : Bool} {m freqs : Msg} {i : ℕ} (w text : Bytes) {ws : List Bytes}
        → in_list ≡ false
        → as_scan_word w ≡ some w_duration
        → Taken random' m' rest false random m freqs (i + 1 + 1) ws
        → Taken random' m' rest in_list random m freqs i (w ∷ text ∷ ws)
    taken_ies :
        {in_list random : Bool} {m freqs : Msg} {i : ℕ} (w hex : Bytes) {ws : List Bytes}
        (bytes bits : Bytes) (len : ℕ)
        → in_list ≡ false
        → as_scan_word w ≡ some w_ies
        → parse_hex hex ≡ parsed bytes bits len
        → Taken random' m' rest false random m freqs (i + 1 + 1) ws
        → Taken random' m' rest in_list random m freqs i (w ∷ hex ∷ ws)
    taken_freq :
        {in_list random : Bool} {m freqs : Msg} {i : ℕ} (w : Bytes) {ws : List Bytes}
        → in_list ≡ false
        → as_scan_word w ≡ some w_freq
        → Taken random' m' rest true random m freqs (i + 1) ws
        → Taken random' m' rest in_list random m freqs i (w ∷ ws)
    taken_number :
        {in_list random : Bool} {m freqs : Msg} {i : ℕ} (w : Bytes) {ws : List Bytes} (v : ℕ)
        (freqs1 : Msg)
        → in_list ≡ true
        → whole_number w ≡ some v
        → nla_put_u32 freqs i v ≡ some freqs1
        → Taken random' m' rest true random m freqs1 (i + 1) ws
        → Taken random' m' rest in_list random m freqs i (w ∷ ws)
    taken_list_end :
        {in_list random : Bool} {m freqs : Msg} {i : ℕ} (w : Bytes) {ws : List Bytes}
        → in_list ≡ true
        → whole_number w ≡ none
        → Taken random' m' rest false random m freqs i (w ∷ ws)
        → Taken random' m' rest in_list random m freqs i (w ∷ ws)

  -- The part of the state that the relation has.
  record At (in_list random : Bool) (m freqs : Msg) (s : ScanState n) : Type 0 where
    parse : s.args.parse ≡ list_state in_list
    returned : s.args.returned ≡ random
    msg_is : s.msg ≡ m
    freqs_is : s.freqs ≡ freqs

  bad_ies :
      (random random' : Bool) (m m' freqs : Msg) (i : ℕ) (ws : List Bytes) (hex : Bytes)
      (rest : List Bytes) (s : ScanState n)
      → random ≡ random'
      → m ≡ m'
      → ws ≡ codes "ies" ∷ hex ∷ rest
      → parse_hex hex ≡ rejected
      → At false random m freqs s
      → scan_loop n addr mask s i ws ≡ some (give_up n random' m')
  unfolding scan_loop none_word as_scan_word
  bad_ies random random' m m' freqs i ws hex rest s same_random same_m same_ws bad at =
      rw (same_ws, at.parse, bad, at.returned, at.msg_is, same_random, same_m) refl

  Taken-scan_loop :
      (random' : Bool) (m' : Msg) (hex : Bytes) (rest : List Bytes) (in_list random : Bool)
      (m freqs : Msg) (i : ℕ) (ws : List Bytes)
      → parse_hex hex ≡ rejected
      → Taken random' m' (codes "ies" ∷ hex ∷ rest) in_list random m freqs i ws
      → (s : ScanState n) → At in_list random m freqs s
      → scan_loop n addr mask s i ws ≡ some (give_up n random' m')
  unfolding scan_loop none_word
  Taken-scan_loop random' m' hex rest in_list random m freqs i ws bad
        (taken_all out same_random same_m same_ws) s at =
      bad_ies random random' m m' freqs i ws hex rest s same_random same_m same_ws bad
        (rw out at at)
  Taken-scan_loop random' m' hex rest in_list random m freqs i _ bad
        (taken_flag w {ws} v out w_is t) s at =
      rw (at.parse, out, w_is)
        (Taken-scan_loop random' m' hex rest false random m freqs (i + 1) ws bad t _ record {
          parse = refl;
          returned = at.returned;
          msg_is = at.msg_is;
          freqs_is = at.freqs_is;
        })
  Taken-scan_loop random' m' hex rest in_list random m freqs i _ bad
        (taken_mandatory w {ws} out w_is t) s at =
      rw (at.parse, out, w_is)
        (Taken-scan_loop random' m' hex rest false random m freqs (i + 1) ws bad t _ record {
          parse = refl;
          returned = at.returned;
          msg_is = at.msg_is;
          freqs_is = at.freqs_is;
        })
  Taken-scan_loop random' m' hex rest in_list random m freqs i _ bad
        (taken_randomise w {ws} m1 out w_is read t) s at =
      rw (at.parse, out, w_is, at.msg_is, read)
        (Taken-scan_loop random' m' hex rest false true m1 freqs (i + 1) ws bad t _
          record { parse = refl; returned = refl; msg_is = refl; freqs_is = at.freqs_is })
  Taken-scan_loop random' m' hex rest in_list random m freqs i _ bad
        (taken_meshid w id {ws} out w_is t) s at =
      rw (at.parse, out, w_is)
        (Taken-scan_loop random' m' hex rest false random m freqs (i + 1 + 1) ws bad t _ record {
          parse = refl;
          returned = at.returned;
          msg_is = at.msg_is;
          freqs_is = at.freqs_is;
        })
  Taken-scan_loop random' m' hex rest in_list random m freqs i _ bad
        (taken_duration w text {ws} out w_is t) s at =
      rw (at.parse, out, w_is)
        (Taken-scan_loop random' m' hex rest false random m freqs (i + 1 + 1) ws bad t _ record {
          parse = refl;
          returned = at.returned;
          msg_is = at.msg_is;
          freqs_is = at.freqs_is;
        })
  Taken-scan_loop random' m' hex rest in_list random m freqs i _ bad
        (taken_ies w found {ws} bytes bits len out w_is read t) s at =
      rw (at.parse, out, w_is, read)
        (Taken-scan_loop random' m' hex rest false random m freqs (i + 1 + 1) ws bad t _ record {
          parse = refl;
          returned = at.returned;
          msg_is = at.msg_is;
          freqs_is = at.freqs_is;
        })
  Taken-scan_loop random' m' hex rest in_list random m freqs i _ bad (taken_freq w {ws} out w_is t)
        s at =
      rw (at.parse, out, w_is)
        (Taken-scan_loop random' m' hex rest true random m freqs (i + 1) ws bad t _ record {
          parse = refl;
          returned = at.returned;
          msg_is = at.msg_is;
          freqs_is = at.freqs_is;
        })
  Taken-scan_loop random' m' hex rest in_list random m freqs i _ bad
        (taken_number w {ws} v freqs1 inside w_is put t) s at =
      rw (at.parse, inside, w_is, at.freqs_is, put)
        (Taken-scan_loop random' m' hex rest true random m freqs1 (i + 1) ws bad t _
          record { parse = refl; returned = at.returned; msg_is = at.msg_is; freqs_is = refl })
  Taken-scan_loop random' m' hex rest in_list random m freqs i _ bad
        (taken_list_end w {ws} inside w_is t) s at =
      rw (at.parse, inside, w_is)
        (Taken-scan_loop random' m' hex rest false random m freqs i (w ∷ ws) bad t
          (record s { args = record s.args { parse = p_none } })
          record {
            parse = refl;
            returned = at.returned;
            msg_is = at.msg_is;
            freqs_is = at.freqs_is;
          })

  -- "ies" with a text that is not hexadecimal, behind words that the loop takes:
  -- flags, "duration-mandatory", addresses to randomise that are read, "meshid", "duration" and good
  -- "ies" with their texts, and lists of frequencies that find room. It ends the handler with an
  -- error if no address was among the words. Behind an address it ends it with success, and with the
  -- message as the addresses left it: nothing that the other words, the bytes or the words that
  -- follow ask for is in it.
  pub handle_scan-bad_ies :
      (random : Bool) (hex : Bytes) (words rest : List Bytes) (msg m : Msg)
      → parse_hex hex ≡ rejected
      → Taken random m (codes "ies" ∷ hex ∷ rest) false false msg nlmsg_alloc 0 words
      → handle_scan n addr mask msg words ≡ some (if random then ok m else err enobufs)
  unfolding handle_scan
  handle_scan-bad_ies true hex words rest msg m bad t =
      Taken-scan_loop true m hex rest false false msg nlmsg_alloc 0 words bad t _
        record { parse = refl; returned = refl; msg_is = refl; freqs_is = refl }
  handle_scan-bad_ies false hex words rest msg m bad t =
      Taken-scan_loop false m hex rest false false msg nlmsg_alloc 0 words bad t _
        record { parse = refl; returned = refl; msg_is = refl; freqs_is = refl }
