-- ===== src/Wowlan/Tcp.antt =====
-- `wowlan_parse_tcp_file` of wifi/iw/wowlan.c: the file that describes the TCP connection of WoWLAN.
pub mod Reads
use nl.Base.{
  none, some, if◌then◌else◌, codes, Option, ℕ, ◌%◌, ◌/◌, true, Bytes, List, [], ◌∷◌, ◌++◌, take,
  drop, ◌==◌,
}
use nl.Libc.{starts_with, cut, atoi, to_u32}
use nl.Nl80211.WowlanTrig
use nl.Nl80211.WowlanTcp
use nl.ConfigFile.{file_lines}
use nl.Netlink.{Netlink, usage, enobufs}
use nl.Run.{Run, done, refuse, fault, ◌>>=◌, put_or}
use nl.Pattern.{mask_length}
use nl.Util.HexMask.{HexResult, parsed, rejected, overrun, out_of_fuel, parse_hex, parse_hex_mask}
use nl.Util.Mac.{mac_addr_a2n}

-- A `__u32` in memory, on a little-endian machine.
abbrev pub u32_bytes : ℕ → Bytes
u32_bytes v = v % 256 ∷ v / 256 % 256 ∷ v / 65536 % 256 ∷ v / 16777216 % 256 ∷ []

-- `struct nl80211_wowlan_tcp_data_seq`
abbrev pub seq_bytes : (start offset len : ℕ) → Bytes
seq_bytes start offset len = u32_bytes start ++ (u32_bytes offset ++ u32_bytes len)

-- `struct nl80211_wowlan_tcp_data_token`
abbrev pub token_bytes : (offset len : ℕ) → (stream : Bytes) → Bytes
token_bytes offset len stream = u32_bytes offset ++ (u32_bytes len ++ stream)

-- `atoi` stored in 32 bits.
abbrev pub int_of : Bytes → ℕ
int_of s = to_u32 (atoi s)

abbrev pub int_or_zero : Option Bytes → ℕ
int_or_zero none = 0
int_or_zero (some s) = int_of s

-- The bytes behind a name that stands in front.
abbrev pub parsed_or : {A : Type 0} → HexResult → (Bytes → Bytes → ℕ → Run A) → Run A
parsed_or (parsed pat mask len) after = after pat mask len
parsed_or rejected after = refuse usage
parsed_or overrun after = fault
parsed_or out_of_fuel after = fault

abbrev pub given_or {ℓ κ} : {A : Type ℓ} {B : Type κ} → Option A → (A → Run B) → Run B
given_or none after = refuse usage
given_or (some a) after = after a

-- `inet_aton` of the C library gives the address in network byte order, as the number that
-- `in_addr.s_addr` is then. `macbuf` is what the buffer for the address of the peer holds at first.
module _ (n : Netlink) (inet_aton : Bytes → Option ℕ) (macbuf : Bytes) where
  open n use {Msg, Nest, nla_put, nla_put_u16, nla_put_u32, nla_nest_start, nla_nest_end}

  abbrev pub put_source_port : Option Bytes → Msg → Run Msg
  put_source_port none msg = done msg
  put_source_port (some port) msg =
      put_or enobufs (nla_put_u16 msg WowlanTcp.src_port (int_of port % 65536))

  -- The address and the port behind the colon, if there is one.
  unfoldable pub source_line : Msg → Bytes × Option Bytes → Run Msg
  source_line msg (addr, port) =
      given_or (inet_aton addr) λ s_addr.
        put_or enobufs (nla_put_u32 msg WowlanTcp.src_ipv4 s_addr) >>= put_source_port port

  abbrev pub put_dest : Msg → Bytes → Bytes → Bytes → Run Msg
  put_dest msg addr port mac = given_or (inet_aton addr) λ s_addr.
      put_or enobufs (nla_put_u32 msg WowlanTcp.dst_ipv4 s_addr) >>= λ m1.
      put_or enobufs (nla_put_u16 m1 WowlanTcp.dst_port (int_of port % 65536)) >>= λ m2.
      given_or (mac_addr_a2n macbuf mac)
        λ mac_addr. put_or enobufs (nla_put m2 WowlanTcp.dst_mac (take 6 mac_addr))

  abbrev pub dest_mac : Msg → Bytes → Bytes × Option Bytes → Run Msg
  dest_mac msg addr (port, mac) = given_or mac (put_dest msg addr port)

  abbrev pub dest_port : Msg → Bytes × Option Bytes → Run Msg
  dest_port msg (addr, port) = given_or port λ p. dest_mac msg addr (cut b'@' p)

  unfoldable pub dest_line : Msg → Bytes → Run Msg
  dest_line msg text = dest_port msg (cut b':' text)

  unfoldable pub data_line : Msg → Bytes → Run Msg
  data_line msg text =
      parsed_or (parse_hex text)
        λ pkt mask len. put_or enobufs (nla_put msg WowlanTcp.data_payload (take len pkt))

  unfoldable pub interval_line : Msg → Bytes → Run Msg
  interval_line msg text = put_or enobufs (nla_put_u32 msg WowlanTcp.data_interval (int_of text))

  unfoldable pub wake_line : Msg → Bytes → Run Msg
  wake_line msg text = parsed_or (parse_hex_mask true text) λ pat mask patlen.
      put_or enobufs (nla_put msg WowlanTcp.wake_mask (take (mask_length patlen) mask)) >>= λ m1.
      put_or enobufs (nla_put m1 WowlanTcp.wake_payload (take patlen pat))

  abbrev pub put_seq : Msg → Bytes → Bytes × Option Bytes → Run Msg
  put_seq msg len (offs, start) = put_or enobufs (
      nla_put msg WowlanTcp.data_payload_seq
        (seq_bytes (int_or_zero start) (int_of offs) (int_of len)))

  abbrev pub seq_parts : Msg → Bytes × Option Bytes → Run Msg
  seq_parts msg (len, offs) = given_or offs λ o. put_seq msg len (cut b',' o)

  unfoldable pub seq_line : Msg → Bytes → Run Msg
  seq_line msg text = seq_parts msg (cut b',' text)

  abbrev pub put_token : Msg → Bytes → Bytes → Bytes → Run Msg
  put_token msg len offs toks = parsed_or (parse_hex toks) λ stream mask stream_len.
      put_or enobufs (
        nla_put msg WowlanTcp.data_payload_token
          (token_bytes (int_of offs) (int_of len) (take stream_len stream)))

  abbrev pub token_rest : Msg → Bytes → Bytes × Option Bytes → Run Msg
  token_rest msg len (offs, toks) = given_or toks (put_token msg len offs)

  abbrev pub token_parts : Msg → Bytes × Option Bytes → Run Msg
  token_parts msg (len, offs) = given_or offs λ o. token_rest msg len (cut b',' o)

  unfoldable pub token_line : Msg → Bytes → Run Msg
  token_line msg text = token_parts msg (cut b',' text)

  -- A comment, or a line that nobody knows.
  abbrev pub other_line : Msg → Bytes → Run Msg
  other_line msg [] = refuse usage
  other_line msg (c ∷ line) = if c == b'#' then done msg else refuse usage

  unfoldable pub tcp_line : Msg → Bytes → Run Msg
  tcp_line msg buf =
      if starts_with (codes "source=") buf
      then source_line msg (cut b':' (drop 7 buf))
      else if starts_with (codes "dest=") buf
      then dest_line msg (drop 5 buf)
      else if starts_with (codes "data=") buf
      then data_line msg (drop 5 buf)
      else if starts_with (codes "data.interval=") buf
      then interval_line msg (drop 14 buf)
      else if starts_with (codes "wake=") buf
      then wake_line msg (drop 5 buf)
      else if starts_with (codes "data.seq=") buf
      then seq_line msg (drop 9 buf)
      else if starts_with (codes "data.tok=") buf
      then token_line msg (drop 9 buf)
      else other_line msg buf

  unfoldable pub tcp_loop : Msg → List Bytes → Run Msg
  tcp_loop msg [] = done msg
  tcp_loop msg (buf ∷ lines) = tcp_line msg buf >>= λ m. tcp_loop m lines

  abbrev pub tcp_nest : List Bytes → Option (Nest × Msg) → Run Msg
  tcp_nest lines none = refuse enobufs
  tcp_nest lines (some (tcp, msg)) = tcp_loop msg lines >>= λ m. done (nla_nest_end m tcp)

  -- `file` is what the file holds, if it can be opened.
  unfoldable pub wowlan_parse_tcp_file : Msg → (file : Option Bytes) → Run Msg
  wowlan_parse_tcp_file msg none = refuse usage
  wowlan_parse_tcp_file msg (some file) =
      tcp_nest (file_lines file) (nla_nest_start msg WowlanTrig.tcp_connection)
