-- ===== src/Wowlan/Tcp/Reads.antt =====
-- What the lines of a TCP file mean, and the nest that they make.
use nl.Base.{
  All, ap, some, true, codes, Option, ℕ, ◌%◌, Bytes, List, [], ◌∷◌, ◌++◌, take, ◌≡◌, refl,
}
use nl.Libc.Laws.{Lacks, cut-append, cut_whole}
use nl.Nl80211.WowlanTrig
use nl.Nl80211.WowlanTcp
use nl.Netlink.{nest, Netlink, Attrs, nil, blob, u16, u32, ok, put_all}
use nl.Netlink.Laws.{nest-eq-ok, nil-eq-ok, blob-eq-ok, u16-eq-ok, u32-eq-ok}
use nl.Run.{done}
use nl.Pattern.{mask_length}
use nl.Util.HexMask.{parsed, parse_hex, parse_hex_mask}
use nl.Util.Mac.{mac_addr_a2n}
use nl.Wowlan.Tcp.{
  file_lines, wowlan_parse_tcp_file, tcp_loop, seq_bytes, token_bytes, int_of, source_line,
  dest_line, data_line, interval_line, wake_line, seq_line, token_line, tcp_line,
}

-- The lines that a file can have: what stands in them, and the values that are read from it.
pub data TcpItem : Type 0 where
  comment : (text : Bytes) → TcpItem
  source : (addr : Bytes) → (s_addr : ℕ) → TcpItem
  source_port : (addr : Bytes) → (s_addr : ℕ) → (port : Bytes) → TcpItem
  dest : (addr : Bytes) → (s_addr : ℕ) → (port mac mac_addr : Bytes) → TcpItem
  payload : (text pkt mask : Bytes) → (len : ℕ) → TcpItem
  interval : (text : Bytes) → TcpItem
  wake : (text pat mask : Bytes) → (patlen : ℕ) → TcpItem
  seq : (len offs : Bytes) → TcpItem
  seq_from : (len offs start : Bytes) → TcpItem
  token : (len offs toks stream mask : Bytes) → (stream_len : ℕ) → TcpItem

abbrev pub tcp_text : TcpItem → Bytes
tcp_text (comment text) = b'#' ∷ text
tcp_text (source addr s_addr) = codes "source=" ++ addr
tcp_text (source_port addr s_addr port) = codes "source=" ++ (addr ++ (b':' ∷ port))
tcp_text (dest addr s_addr port mac mac_addr) =
    codes "dest=" ++ (addr ++ (b':' ∷ (port ++ (b'@' ∷ mac))))
tcp_text (payload text pkt mask len) = codes "data=" ++ text
tcp_text (interval text) = codes "data.interval=" ++ text
tcp_text (wake text pat mask patlen) = codes "wake=" ++ text
tcp_text (seq len offs) = codes "data.seq=" ++ (len ++ (b',' ∷ offs))
tcp_text (seq_from len offs start) = codes "data.seq=" ++ (len ++ (b',' ∷ (offs ++ (b',' ∷ start))))
tcp_text (token len offs toks stream mask stream_len) =
    codes "data.tok=" ++ (len ++ (b',' ∷ (offs ++ (b',' ∷ toks))))

abbrev pub tcp_texts : List TcpItem → List Bytes
tcp_texts [] = []
tcp_texts (i ∷ is) = tcp_text i ∷ tcp_texts is

-- The attributes of an item in front of others.
abbrev pub tcp_attrs : TcpItem → Attrs → Attrs
tcp_attrs (comment text) xs = xs
tcp_attrs (source addr s_addr) xs = u32 WowlanTcp.src_ipv4 s_addr xs
tcp_attrs (source_port addr s_addr port) xs =
    u32 WowlanTcp.src_ipv4 s_addr (u16 WowlanTcp.src_port (int_of port % 65536) xs)
tcp_attrs (dest addr s_addr port mac mac_addr) xs =
    u32 WowlanTcp.dst_ipv4 s_addr
      (u16 WowlanTcp.dst_port (int_of port % 65536) (blob WowlanTcp.dst_mac (take 6 mac_addr) xs))
tcp_attrs (payload text pkt mask len) xs = blob WowlanTcp.data_payload (take len pkt) xs
tcp_attrs (interval text) xs = u32 WowlanTcp.data_interval (int_of text) xs
tcp_attrs (wake text pat mask patlen) xs =
    blob WowlanTcp.wake_mask (take (mask_length patlen) mask)
      (blob WowlanTcp.wake_payload (take patlen pat) xs)
tcp_attrs (seq len offs) xs =
    blob WowlanTcp.data_payload_seq (seq_bytes 0 (int_of offs) (int_of len)) xs
tcp_attrs (seq_from len offs start) xs =
    blob WowlanTcp.data_payload_seq (seq_bytes (int_of start) (int_of offs) (int_of len)) xs
tcp_attrs (token len offs toks stream mask stream_len) xs =
    blob WowlanTcp.data_payload_token
      (token_bytes (int_of offs) (int_of len) (take stream_len stream)) xs

abbrev pub all_tcp_attrs : List TcpItem → Attrs
all_tcp_attrs [] = nil
all_tcp_attrs (i ∷ is) = tcp_attrs i (all_tcp_attrs is)

module _ (n : Netlink) (inet_aton : Bytes → Option ℕ) (macbuf : Bytes) where
  open n use {Msg}

  -- The parts hold no separator, and the values are what is read from them.
  abbrev pub IsTcpItem : TcpItem → Type 0
  IsTcpItem (comment text) = Unit
  IsTcpItem (source addr s_addr) = Lacks b':' addr × (inet_aton addr ≡ some s_addr)
  IsTcpItem (source_port addr s_addr port) = Lacks b':' addr × (inet_aton addr ≡ some s_addr)
  IsTcpItem (dest addr s_addr port mac mac_addr) =
      Lacks b':' addr
      × Lacks b'@' port
      × (inet_aton addr ≡ some s_addr)
      × (mac_addr_a2n macbuf mac ≡ some mac_addr)
  IsTcpItem (payload text pkt mask len) = parse_hex text ≡ parsed pkt mask len
  IsTcpItem (interval text) = Unit
  IsTcpItem (wake text pat mask patlen) = parse_hex_mask true text ≡ parsed pat mask patlen
  IsTcpItem (seq len offs) = Lacks b',' len × Lacks b',' offs
  IsTcpItem (seq_from len offs start) = Lacks b',' len × Lacks b',' offs
  IsTcpItem (token len offs toks stream mask stream_len) =
      Lacks b',' len × Lacks b',' offs × (parse_hex toks ≡ parsed stream mask stream_len)

  -- A line puts its attributes, and the rest of them go into the message that it leaves.
  tcp_line-tcp_attrs :
      (i : TcpItem) (xs : Attrs) (m m' : Msg)
      → IsTcpItem i
      → put_all n (tcp_attrs i xs) m ≡ ok m'
      → (m1 : Msg) × (tcp_line n inet_aton macbuf m (tcp_text i) ≡ done m1)
        × (put_all n xs m1 ≡ ok m')
  unfolding tcp_line source_line dest_line data_line interval_line wake_line seq_line token_line
  tcp_line-tcp_attrs (comment text) xs m m' is h = (m, refl, h)
  tcp_line-tcp_attrs (source addr s_addr) xs m m' (lacks, s) h =
      let (m1, put, h1) = u32-eq-ok n _ _ xs m m' h in
      (m1, rw (cut_whole b':' addr lacks, s, put) refl, h1)
  tcp_line-tcp_attrs (source_port addr s_addr port) xs m m' (lacks, s) h =
      let (m1, put, h1) = u32-eq-ok n _ _ _ m m' h in
      let (m2, put2, h2) = u16-eq-ok n _ _ xs m1 m' h1 in
      (m2, rw (cut-append b':' addr port lacks, s, put, put2) refl, h2)
  tcp_line-tcp_attrs (dest addr s_addr port mac mac_addr) xs m m' (lacks, lacks_at, s, r) h =
      let (m1, put, h1) = u32-eq-ok n _ _ _ m m' h in
      let (m2, put2, h2) = u16-eq-ok n _ _ _ m1 m' h1 in
      let (m3, put3, h3) = blob-eq-ok n _ _ xs m2 m' h2 in
      (
        m3,
        rw
            (
              cut-append b':' addr (port ++ (b'@' ∷ mac)) lacks,
              cut-append b'@' port mac lacks_at,
              s,
              put,
              put2,
              r,
              put3,
            )
            refl,
        h3,
      )
  tcp_line-tcp_attrs (payload text pkt mask len) xs m m' r h =
      let (m1, put, h1) = blob-eq-ok n _ _ xs m m' h in (m1, rw (r, put) refl, h1)
  tcp_line-tcp_attrs (interval text) xs m m' is h =
      let (m1, put, h1) = u32-eq-ok n _ _ xs m m' h in (m1, rw put refl, h1)
  tcp_line-tcp_attrs (wake text pat mask patlen) xs m m' r h =
      let (m1, put, h1) = blob-eq-ok n _ _ _ m m' h in
      let (m2, put2, h2) = blob-eq-ok n _ _ xs m1 m' h1 in (m2, rw (r, put, put2) refl, h2)
  tcp_line-tcp_attrs (seq len offs) xs m m' (lacks, lacks2) h =
      let (m1, put, h1) = blob-eq-ok n _ _ xs m m' h in
      (m1, rw (cut-append b',' len offs lacks, cut_whole b',' offs lacks2, put) refl, h1)
  tcp_line-tcp_attrs (seq_from len offs start) xs m m' (lacks, lacks2) h =
      let (m1, put, h1) = blob-eq-ok n _ _ xs m m' h in
      (
        m1,
        rw
            (
              cut-append b',' len (offs ++ (b',' ∷ start)) lacks,
              cut-append b',' offs start lacks2,
              put,
            )
            refl,
        h1,
      )
  tcp_line-tcp_attrs (token len offs toks stream mask stream_len) xs m m' (lacks, lacks2, r) h =
      let (m1, put, h1) = blob-eq-ok n _ _ xs m m' h in
      (
        m1,
        rw
            (
              cut-append b',' len (offs ++ (b',' ∷ toks)) lacks,
              cut-append b',' offs toks lacks2,
              r,
              put,
            )
            refl,
        h1,
      )

  tcp_loop-all_tcp_attrs :
      (items : List TcpItem) (m m' : Msg)
      → All IsTcpItem items
      → put_all n (all_tcp_attrs items) m ≡ ok m'
      → tcp_loop n inet_aton macbuf m (tcp_texts items) ≡ done m'
  unfolding tcp_loop
  tcp_loop-all_tcp_attrs [] m m' are h = ap done (nil-eq-ok n m m' h)
  tcp_loop-all_tcp_attrs (i ∷ items) m m' (is, are) h =
      let (m1, line, h1) = tcp_line-tcp_attrs i (all_tcp_attrs items) m m' is h in
      rw line (tcp_loop-all_tcp_attrs items m1 m' are h1)

  -- A file whose lines are comments, the two addresses, the payload, the interval, the bytes to wake on,
  -- the sequence numbers and the tokens, in any order and number, makes one nest with the attributes of
  -- its lines in their order, if those find room: the addresses and ports as they are read, each
  -- payload with the bytes that were parsed, the structures with their fields in the order of the
  -- header.
  pub wowlan_parse_tcp_file-all_tcp_attrs :
      (items : List TcpItem) (file : Bytes) (m m' : Msg)
      → file_lines file ≡ tcp_texts items
      → All IsTcpItem items
      → put_all n (nest WowlanTrig.tcp_connection (all_tcp_attrs items) nil) m ≡ ok m'
      → wowlan_parse_tcp_file n inet_aton macbuf m (some file) ≡ done m'
  unfolding wowlan_parse_tcp_file
  wowlan_parse_tcp_file-all_tcp_attrs items file m m' lines are h =
      let o = nest-eq-ok n _ _ nil m m' h in
      let loop = tcp_loop-all_tcp_attrs items o.inside o.filled are o.inner_put in
      rw (lines, o.started, loop, nil-eq-ok n _ m' o.rest_put) refl
