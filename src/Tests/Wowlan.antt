-- ===== src/Tests/Wowlan.antt =====
-- Triggers of WoWLAN with a file for TCP and with a pattern.
use nl.Pattern.Put.{PatternValue, IsPattern, texts, patterns_attrs}
use nl.Wowlan.Tcp.Reads.{
  TcpItem, comment, source_port, interval, IsTcpItem, tcp_texts, all_tcp_attrs,
  wowlan_parse_tcp_file-all_tcp_attrs,
}
use nl.Wowlan.Ends.{handle_wowlan_enable-Run}
use nl.Wowlan.Triggers.{
  Trigger, flag_of, tcp_of, IsTrigger, words_of, triggers_attrs,
  handle_wowlan_enable-triggers_attrs, handle_wowlan_enable-patterns_attrs,
}
use nl.Wowlan.Triggers.Lost.{
  code_left, Taken, taken_all, taken_flag, taken_tcp, taken_net_detect,
  handle_wowlan_enable-code_left,
}
use nl.Scan.Sched.{returned_code, Ended, parse_sched_scan, sched_loop, sched_step, as_top_word}
use nl.Base.{
  true, false, ℕ, Bytes, Option, ◌≡◌, refl, List, [], ◌∷◌, ◌++◌, codes, some, none, replicate,
  if◌then◌else◌, All,
}
use nl.Libc.{cut, strtoul, split_on, strtok, fgets_from, fgets_all, skip_byte, str_eq, atoi}
use nl.Nl80211.Attr
use nl.Nl80211.PktPat
use nl.Nl80211.WowlanTrig
use nl.Nl80211.WowlanTcp
use nl.ConfigFile.{file_lines}
use nl.Netlink.{usage, put_all, nest, nil, ok}
use nl.Run.{done, refuse, fault, Run}
use nl.Scan.Request.{whole_number}
use nl.Util.HexMask.{parse_hex_mask, parse_hex, mask_loop, read_field}
use nl.Util.Mac.{mac_addr_a2n}
use nl.Pattern.{pattern_text, put_pattern, put_parts}
use nl.Wowlan.{
  Outside, as_trigger, tcp_word, net_detect_word, wowlan_step, wowlan_loop, handle_wowlan_enable,
  t_flag,
}
use nl.Wowlan.Tcp.{
  source_line, dest_line, data_line, interval_line, wake_line, seq_line, token_line, tcp_line,
  tcp_loop, wowlan_parse_tcp_file,
}
use nl.Tests.Recorder.{Event, recorder, u16, u32, blob, flag, open_nest, close_nest}

program : Unit {0}
unfolding handle_wowlan_enable wowlan_loop wowlan_step as_trigger tcp_word net_detect_word
    wowlan_parse_tcp_file tcp_loop tcp_line source_line dest_line data_line interval_line wake_line
    seq_line token_line file_lines fgets_all fgets_from whole_number strtoul split_on cut strtok
    atoi pattern_text put_pattern put_parts parse_hex_mask parse_hex mask_loop read_field put_all
    skip_byte mac_addr_a2n
program = tt

abbrev tcp_file : Bytes
tcp_file = codes "# peer\nsource=127.0.0.1:80\r\ndata.interval=5\n"

abbrev localhost : Bytes → Option ℕ
localhost s = if str_eq s (codes "127.0.0.1") then some 16777343 else none

abbrev one_file : Bytes → Option Bytes
one_file fn = if str_eq fn (codes "f") then some tcp_file else none

abbrev outside : Outside
outside = record {
  inet_aton = localhost;
  files = one_file;
  addr = replicate 6 0;
  mask = replicate 6 0;
  macbuf = replicate 6 0;
}

abbrev tcp_events : List Event
tcp_events =
    open_nest WowlanTrig.tcp_connection
    ∷ u32 WowlanTcp.src_ipv4 16777343
    ∷ u16 WowlanTcp.src_port 80
    ∷ u32 WowlanTcp.data_interval 5
    ∷ close_nest
    ∷ []

tcp_run :
    wowlan_parse_tcp_file recorder localhost (replicate 6 0) [] (some tcp_file) ≡ done tcp_events
unfolding program
tcp_run = refl

dest_run :
    tcp_line recorder localhost (replicate 6 0) [] (codes "dest=127.0.0.1:8080@00:11:22:33:44:55")
    ≡ done (
        u32 WowlanTcp.dst_ipv4 16777343
        ∷ u16 WowlanTcp.dst_port 8080
        ∷ blob WowlanTcp.dst_mac (0 ∷ 17 ∷ 34 ∷ 51 ∷ 68 ∷ 85 ∷ [])
        ∷ [])
unfolding program
dest_run = refl

seq_run :
    tcp_line recorder localhost (replicate 6 0) [] (codes "data.seq=4,2,258")
    ≡ done
        (blob WowlanTcp.data_payload_seq (2 ∷ 1 ∷ 0 ∷ 0 ∷ 2 ∷ 0 ∷ 0 ∷ 0 ∷ 4 ∷ 0 ∷ 0 ∷ 0 ∷ []) ∷ [])
unfolding program
seq_run = refl

token_run :
    tcp_line recorder localhost (replicate 6 0) [] (codes "data.tok=2,1,0a:0b")
    ≡ done (blob WowlanTcp.data_payload_token (1 ∷ 0 ∷ 0 ∷ 0 ∷ 2 ∷ 0 ∷ 0 ∷ 0 ∷ 10 ∷ 11 ∷ []) ∷ [])
unfolding program
token_run = refl

bad_line_run :
    wowlan_parse_tcp_file recorder localhost (replicate 6 0) [] (some (codes "data:00\n"))
    ≡ refuse usage
unfolding program
bad_line_run = refl

abbrev trigger_events : List Event
trigger_events =
    open_nest Attr.wowlan_triggers
    ∷ flag WowlanTrig.any
    ∷ (tcp_events ++ (flag WowlanTrig.disconnect ∷ close_nest ∷ []))

triggers_run :
    handle_wowlan_enable recorder outside []
      (codes "any" ∷ codes "tcp" ∷ codes "f" ∷ codes "disconnect" ∷ [])
    ≡ some (done trigger_events)
unfolding program
triggers_run = refl

abbrev pattern_inside : List Event
pattern_inside =
    open_nest 1
    ∷ blob PktPat.mask (3 ∷ [])
    ∷ blob PktPat.pattern (1 ∷ 2 ∷ 0 ∷ [])
    ∷ u32 PktPat.offset 6
    ∷ close_nest
    ∷ []

abbrev pattern_events : List Event
pattern_events =
    open_nest Attr.wowlan_triggers
    ∷ flag WowlanTrig.any
    ∷ open_nest WowlanTrig.pkt_pattern
    ∷ (pattern_inside ++ (close_nest ∷ close_nest ∷ []))

patterns_run :
    handle_wowlan_enable recorder outside []
      (codes "any" ∷ codes "patterns" ∷ codes "6+01:02:--" ∷ [])
    ≡ some (done pattern_events)
unfolding program
patterns_run = refl

-- A pattern without a value, and one that is not hexadecimal.
empty_pattern_run :
    handle_wowlan_enable recorder outside [] (codes "patterns" ∷ [] ∷ []) ≡ some fault
unfolding program
empty_pattern_run = refl

bad_pattern_run :
    handle_wowlan_enable recorder outside [] (codes "patterns" ∷ codes "zz" ∷ [])
    ≡ some (refuse usage)
unfolding program
bad_pattern_run = refl

handle_wowlan_enable-Run_example :
    (r : Run (List Event)) × (handle_wowlan_enable recorder outside []
        (codes "net-detect" ∷ codes "freqs" ∷ codes "x" ∷ codes "any" ∷ [])
      ≡ some r)
handle_wowlan_enable-Run_example =
    handle_wowlan_enable-Run recorder outside []
      (codes "net-detect" ∷ codes "freqs" ∷ codes "x" ∷ codes "any" ∷ [])

abbrev tcp_items : List TcpItem
tcp_items =
    comment (codes " peer")
    ∷ source_port (codes "127.0.0.1") 16777343 (codes "80")
    ∷ interval (codes "5")
    ∷ []

tcp_items-lines : file_lines tcp_file ≡ tcp_texts tcp_items
unfolding program
tcp_items-lines = refl

tcp_items-IsTcpItem : All (IsTcpItem recorder localhost (replicate 6 0)) tcp_items
tcp_items-IsTcpItem = (
  tt,
  (((refl, (refl, (refl, (refl, (refl, (refl, (refl, (refl, (refl, tt))))))))), refl), (tt, tt)),
)

tcp_items-put :
    put_all recorder (nest WowlanTrig.tcp_connection (all_tcp_attrs tcp_items) nil) []
    ≡ ok tcp_events
unfolding program
tcp_items-put = refl

wowlan_parse_tcp_file-all_tcp_attrs_example :
    wowlan_parse_tcp_file recorder localhost (replicate 6 0) [] (some tcp_file) ≡ done tcp_events
wowlan_parse_tcp_file-all_tcp_attrs_example =
    wowlan_parse_tcp_file-all_tcp_attrs recorder localhost (replicate 6 0) tcp_items tcp_file []
      tcp_events tcp_items-lines tcp_items-IsTcpItem tcp_items-put

any_word : as_trigger (codes "any") ≡ t_flag WowlanTrig.any
unfolding program
any_word = refl

disconnect_word : as_trigger (codes "disconnect") ≡ t_flag WowlanTrig.disconnect
unfolding program
disconnect_word = refl

any_trigger : Trigger
any_trigger = flag_of (codes "any") WowlanTrig.any

tcp_trigger : Trigger
tcp_trigger = tcp_of (codes "f") tcp_file tcp_items

some_triggers : List Trigger
some_triggers = any_trigger ∷ tcp_trigger ∷ flag_of (codes "disconnect") WowlanTrig.disconnect ∷ []

some_triggers-put :
    put_all recorder (nest Attr.wowlan_triggers (triggers_attrs some_triggers) nil) []
    ≡ ok trigger_events
unfolding program some_triggers any_trigger tcp_trigger
some_triggers-put = refl

some_triggers-IsTrigger : All (IsTrigger recorder outside) some_triggers
unfolding some_triggers any_trigger tcp_trigger
some_triggers-IsTrigger =
    (any_word, ((refl, tcp_items-lines, tcp_items-IsTcpItem), (disconnect_word, tt)))

handle_wowlan_enable-triggers_attrs_example :
    handle_wowlan_enable recorder outside [] (words_of some_triggers [])
    ≡ some (done trigger_events)
handle_wowlan_enable-triggers_attrs_example =
    handle_wowlan_enable-triggers_attrs recorder outside some_triggers [] trigger_events
      some_triggers-IsTrigger some_triggers-put

abbrev one_pattern : List (Bytes × PatternValue)
one_pattern =
    (
      codes "6+01:02:--",
      record { offset = 6; pat = 1 ∷ 2 ∷ 0 ∷ 0 ∷ 0 ∷ 0 ∷ []; mask = 3 ∷ 0 ∷ 0 ∷ []; patlen = 3 },
    )
    ∷ []

one_pattern-IsPattern : All IsPattern one_pattern
unfolding program
one_pattern-IsPattern = (record { value2 = codes "01:02:--"; text_is = refl; hex_is = refl }, tt)

one_pattern-put : put_all recorder (patterns_attrs 0 one_pattern) [] ≡ ok pattern_inside
unfolding program
one_pattern-put = refl

any_put :
    put_all recorder (triggers_attrs (any_trigger ∷ [])) (open_nest Attr.wowlan_triggers ∷ [])
    ≡ ok (open_nest Attr.wowlan_triggers ∷ flag WowlanTrig.any ∷ [])
unfolding program any_trigger
any_put = refl

any_trigger-IsTrigger : All (IsTrigger recorder outside) (any_trigger ∷ [])
unfolding any_trigger
any_trigger-IsTrigger = (any_word, tt)

handle_wowlan_enable-patterns_attrs_example :
    handle_wowlan_enable recorder outside []
      (words_of (any_trigger ∷ []) (codes "patterns" ∷ texts one_pattern))
    ≡ some (done pattern_events)
handle_wowlan_enable-patterns_attrs_example =
    handle_wowlan_enable-patterns_attrs recorder outside (any_trigger ∷ []) one_pattern []
      (open_nest Attr.wowlan_triggers ∷ [])
      (open_nest Attr.wowlan_triggers ∷ flag WowlanTrig.any ∷ []) pattern_inside _ tt
      any_trigger-IsTrigger one_pattern-IsPattern refl any_put one_pattern-put refl

-- A message that a file for TCP, a net-detect and flags fill up; the net-detect ends at the first flag.
abbrev before_net : List Event
before_net = open_nest Attr.wowlan_triggers ∷ tcp_events

abbrev in_net : List Event
in_net = before_net ++ (open_nest WowlanTrig.net_detect ∷ [])

abbrev full_events : List Event
full_events = in_net ++ (close_nest ∷ flag 1 ∷ flag 1 ∷ [])

abbrev after_net : List Bytes
after_net = codes "any" ∷ codes "any" ∷ codes "disconnect" ∷ []

abbrev full_words : List Bytes
full_words = codes "tcp" ∷ codes "f" ∷ codes "net-detect" ∷ codes "flush" ∷ after_net

net_ended : Ended recorder
net_ended = record { code = none; msg = in_net; words = after_net }

net_run :
    parse_sched_scan recorder outside.addr outside.mask in_net (codes "flush" ∷ after_net)
    ≡ some net_ended
unfolding program net_ended parse_sched_scan sched_loop sched_step as_top_word
net_run = refl

full_words-Taken :
    Taken recorder outside true full_events
      (codes "disconnect" ∷ [])
      false
      (open_nest Attr.wowlan_triggers ∷ [])
      full_words
unfolding program net_ended
full_words-Taken = taken_tcp (codes "tcp") (codes "f") before_net refl refl (
    taken_net_detect (codes "net-detect") (codes "flush") tt in_net net_ended refl refl net_run refl
      (taken_flag (codes "any") WowlanTrig.any _ refl refl
        (taken_flag (codes "any") WowlanTrig.any _ refl refl (taken_all refl refl refl))))

handle_wowlan_enable-code_left_example :
    handle_wowlan_enable recorder outside [] full_words
    ≡ some (some (returned_code recorder (code_left true) full_events))
handle_wowlan_enable-code_left_example =
    handle_wowlan_enable-code_left recorder outside true full_words [] (codes "disconnect")
      WowlanTrig.disconnect [] (open_nest Attr.wowlan_triggers ∷ []) full_events tt refl
      full_words-Taken disconnect_word refl
