-- ===== src/Lib.antt =====
-- A model of iw (wifi/iw), the command line tool for nl80211 that this repository contains. A command
-- line of iw is a list of words: main and __handle_cmd find the command and the device that they name;
-- a parser reads some of them into a structure or a buffer, and a handler puts the result as attributes
-- into a netlink message. The answer to a scan holds information elements as bytes, which print_ies
-- walks over and prints. The model has those functions that compute, what they put into a message, and
-- what they print of an element.
--
-- Parts, with their files here and their functions in the repository:
--   Base         lists, integers and bits that the parts share
--   Iw.Commands  the table of commands and the search in it of __handle_cmd in wifi/iw/iw.c
--   Iw.Dispatch  phy_lookup, the rest of __handle_cmd, and main of wifi/iw/iw.c
--   Libc         strtoul, strtol, atoi, sscanf, strcmp, strcasecmp, strchr, isdigit and %02x on lists of
--                bytes; a `long` has 64 bits and the locale is C
--   Nl80211      the constants of wifi/iw/nl80211.h that reach a message
--   Netlink      the calls of libnl that fill a message, as an interface, and trees of attributes
--   Util.Hex     hex2num, hex2byte, hex2bin of wifi/iw/util.c, and in Util.HexText what they accept
--   Util.Mac     mac_addr_n2a, mac_addr_a2n of wifi/iw/util.c
--   Util.HexMask parse_hex_mask, parse_hex of wifi/iw/util.c
--   Util.Channel ieee80211_channel_to_frequency, ieee80211_frequency_to_channel, get_cf1 of wifi/iw/util.c
--   Util.Chandef str_to_bw, parse_freqs, parse_freqchan, put_chandef of wifi/iw/util.c
--   Util.Keys    parse_akm_suite, parse_cipher_suite, parse_keys of wifi/iw/util.c
--   Util.RandomMac parse_random_mac_addr of wifi/iw/util.c
--   Bitrate      wifi/iw/bitrate.c: in Chunk parse_rate_chunk, setup_vht, setup_he; in Words the keywords
--                and variables of set_bitrates; in Parser its loop, parse_he_gi and the checks; in Message
--                what it puts into the message, and handle_bitrates
--   Print        the pieces of text and numbers that a printer sends to stdout, and the reads of a byte
--   Scan.Suites  print_cipher, print_auth of wifi/iw/scan.c
--   Scan.Rsn     _print_rsn_ie and its callers of wifi/iw/scan.c
--   Scan.Simple  print_ssid to print_ap_channel_report of wifi/iw/scan.c, print_hs20_ind,
--                print_wifi_owe_tarns, and print_ssid_escaped of wifi/iw/util.c
--   Scan.Interworking print_interworking, print_11u_advert, print_11u_rcon of wifi/iw/scan.c
--   Scan.Operation print_tx_power_envelope, print_ht_op, and print_tim to print_mesh_conf of
--                wifi/iw/scan.c, without those of capabilities, and print_wifi_wmm; the first of them in
--                Scan.Operation.Cell
--   Scan.Printer the printers by name
--   Scan.Elements print_ies, print_ie, print_vendor, print_extension and the tables of wifi/iw/scan.c
--   Scan.Request handle_scan of wifi/iw/scan.c
--   Scan.Sched   parse_sched_scan, handle_start_sched_scan of wifi/iw/scan.c
--   Run          results of code that may also break memory
--   Pattern      packet patterns in handle_coalesce_enable of wifi/iw/coalesce.c and handle_wowlan_enable of
--                wifi/iw/wowlan.c
--   ConfigFile   the lines of a file in the same two files of wifi/iw
--   Coalesce     handle_coalesce_enable of wifi/iw/coalesce.c; in Rules what a file of rules makes, in
--                Accepted and Sound which files are accepted
--   Wowlan       handle_wowlan_enable, wowlan_parse_net_detect of wifi/iw/wowlan.c, and in Wowlan.Tcp
--                wowlan_parse_tcp_file
--   Mesh         set_interface_meshparam, get_interface_meshparam of wifi/iw/mesh.c, the table of parameters
--                and the parsers of their values
--   Reg          handle_reg_set of wifi/iw/reg.c
--   Nan.Bloom    crc32, h, set_bit, nan_bf of wifi/iw/bloom.c
--   Nan.Words    parse_bands, handle_nan_start, handle_nan_config, handle_nan_rm_func of wifi/iw/nan.c
--   Nan.Filter   parse_srf, parse_match_filter of wifi/iw/nan.c
--   Nan.Function handle_nan_add_func of wifi/iw/nan.c
--   Nan.Sha256   wifi/iw/sha256.c and wifi/iw/sha256.h, and compute_service_id of wifi/iw/nan.c; its
--                children have the digest of FIPS 180-4 and what a state stands for
--   Tests        runs at concrete inputs
--
-- A function of the model has the name of the C function, and takes the words as a list, so that argc
-- is its length. A result through a pointer is part of the value returned. `unsigned int` is a natural
-- number below 2 ^ 32 and `int` one of the type ℤ or its pattern of 32 bits. Reads of variables that
-- were never assigned, and stores behind a buffer, are values of the result types.
--
-- Loops on fuel: that of parse_hex_mask takes one colon from the text in a round, and its fuel is the
-- length of the text and one; that of print_ies takes two bytes or more, and its fuel is the length of
-- the buffer and one; that of parse_sched_scan takes a word, or goes back to its first state, and its
-- fuel is twice the number of words and two; that of handle_wowlan_enable takes a word in a round, and
-- its fuel is the number of words and one; that of sha256_process takes a byte or more, and its fuel
-- is the length of the input; that of print_measurement_pilot_tx takes two bytes or more, and its fuel
-- is the length of the element.
--
-- What is printed is a value, a list of the formats' texts and conversions; a read behind the bytes
-- that a printer was given is no value.
--
-- Not modelled: libnl, which is the parameter Netlink; strtod and the conversion of a `double` to a
-- byte, the parameter Floats; inet_aton and the files that coalesce and wowlan open, parameters too; malloc, calloc and nlmsg_alloc, which are taken to succeed; the table of
-- commands that the linker collects, the table of interfaces and the files under /sys, which are
-- parameters; what the program prints elsewhere than in Scan, and there the printers of capabilities,
-- WPS and P2P; the usage texts; the sockets and the event loop; the C++ files beside wifi/.
pub mod Base
pub mod Libc
pub mod Nl80211
pub mod Netlink
pub mod Util
pub mod Bitrate
pub mod Nan
pub mod Print
pub mod Scan
pub mod Tests
pub mod Iw
pub mod Run
pub mod Pattern
pub mod ConfigFile
pub mod Coalesce
pub mod Wowlan
pub mod Mesh
pub mod Reg
