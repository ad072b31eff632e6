-- ===== src/Tests/NanFunction.antt =====
-- NAN functions on the command line.
use nl.Nan.Sha256.Blocks.{digest}
use nl.Util.HexMask.Bounds.{mask_bit}
use nl.Nan.Filter.Hashed.{ReadsMacs, any_hits, srf_bf-any_hits}
use nl.Nan.Function.Spec.{Service}
use nl.Nan.Function.Kinds.{publish_of}
use nl.Nan.Function.Message.{Func, func_texts, func_attrs, handle_nan_add_func-func_attrs}
use nl.Base.{
  List, ◌≡◌, refl, [], ◌∷◌, codes, replicate, true, ℕ, Bytes, false, take, length, ◌%◌, ◌^◌, arith,
  ◌++◌, none, some,
}
use nl.Libc.{split_on, atoi, tokens}
use nl.Nl80211.Attr
use nl.Nl80211.NanFunc
use nl.Nl80211.NanSrf
use nl.Netlink.{ok, err, einval, put_all, enobufs}
use nl.Run.{done, refuse, ◌>>=◌, put_or}
use nl.Util.Mac.{mac_addr_a2n}
use nl.Nan.Bloom.{nan_bf}
use nl.Nan.Words.{parse_bands, bands_words, handle_nan_start, handle_nan_config, handle_nan_rm_func}
use nl.Nan.Filter.{bf_macs, srf_bf, list_macs, srf_list, parse_srf, filter_loop, parse_match_filter}
use nl.Nan.Function.{
  keyword, publish_words, kind_words, name_word, follow_up_words, srf_words, service_words,
  last_words, func_words, handle_nan_add_func,
}
use nl.Tests.Recorder.{recorder, u8, u32, u64, blob, flag, open_nest, close_nest, Event}

program : Unit {0}
unfolding parse_bands bands_words handle_nan_start handle_nan_config handle_nan_rm_func bf_macs
    srf_bf list_macs srf_list parse_srf filter_loop parse_match_filter keyword publish_words
    kind_words name_word follow_up_words srf_words service_words last_words func_words
    handle_nan_add_func atoi mac_addr_a2n split_on nan_bf
program = tt

start_run :
    handle_nan_start recorder []
      (codes "pref" ∷ codes "200" ∷ codes "bands" ∷ codes "2GHz" ∷ codes "5ghz" ∷ [])
    ≡ ok (u8 Attr.nan_master_pref 200 ∷ u32 Attr.bands 3 ∷ [])
unfolding program
start_run = refl

start_short_run :
    handle_nan_start recorder [] (codes "pref" ∷ codes "2" ∷ codes "bands" ∷ []) ≡ err einval
unfolding program
start_short_run = refl

config_run :
    handle_nan_config recorder [] (codes "bands" ∷ codes "5ghz" ∷ []) ≡ ok (u32 Attr.bands 2 ∷ [])
unfolding program
config_run = refl

rm_run :
    handle_nan_rm_func recorder [] (codes "cookie" ∷ codes "7" ∷ []) ≡ ok (u64 Attr.cookie 7 ∷ [])
unfolding program
rm_run = refl

list_run :
    parse_srf recorder (replicate 6 0) [] (
      codes "include" ∷ codes "list" ∷ codes "00:11:22:33:44:55;00:11:22:33:44:56" ∷ codes "x" ∷ [])
    ≡ done (
      (open_nest NanFunc.srf
          ∷ flag NanSrf.include
          ∷ open_nest NanSrf.mac_addrs
          ∷ blob 1 (0 ∷ 17 ∷ 34 ∷ 51 ∷ 68 ∷ 85 ∷ [])
          ∷ blob 2 (0 ∷ 17 ∷ 34 ∷ 51 ∷ 68 ∷ 86 ∷ [])
          ∷ close_nest
          ∷ close_nest
          ∷ []),
      codes "x" ∷ [],
    )
unfolding program
list_run = refl

filter_run :
    parse_match_filter recorder (codes "ab:*::c") [] true
    ≡ done (
        open_nest NanFunc.tx_match_filter
        ∷ blob 1 (codes "ab")
        ∷ blob 2 []
        ∷ blob 3 (codes "c")
        ∷ close_nest
        ∷ [])
unfolding program
filter_run = refl

bad_bcast_run :
    handle_nan_add_func recorder (replicate 64 0) (replicate 6 0) [] (
      codes "type"
      ∷ codes "publish"
      ∷ codes "unsolicited"
      ∷ codes "bcast"
      ∷ codes "name"
      ∷ codes "x"
      ∷ [])
    ≡ refuse einval
unfolding program
bad_bcast_run = refl

abbrev stack : Bytes
stack = replicate 64 0

abbrev buffer : Bytes
buffer = replicate 6 0

abbrev service : Service
service = record { ttl = some (codes "9"); rx_filter = none; tx_filter = some (codes "ab:*") }

abbrev func : Func
func = record {
  kind = publish_of true false true service;
  close_range = true;
  name = codes "x";
  info = none;
}

abbrev func_events : List Event
func_events =
    u8 NanFunc.type 0
    ∷ u8 NanFunc.publish_type 1
    ∷ flag NanFunc.publish_bcast
    ∷ flag NanFunc.close_range
    ∷ blob NanFunc.service_id (take 6 (digest (codes "x")))
    ∷ u32 NanFunc.ttl 9
    ∷ open_nest NanFunc.tx_match_filter
    ∷ blob 1 (codes "ab")
    ∷ blob 2 []
    ∷ close_nest
    ∷ []

func-put : put_all recorder (func_attrs buffer func) [] ≡ ok func_events
unfolding program put_all
func-put = refl

handle_nan_add_func-func_attrs_example :
    handle_nan_add_func recorder stack buffer [] (func_texts func)
    ≡ done (open_nest Attr.nan_func ∷ (func_events ++ (close_nest ∷ [])))
handle_nan_add_func-func_attrs_example =
    handle_nan_add_func-func_attrs recorder stack buffer refl func [] func_events
      (open_nest Attr.nan_func ∷ (func_events ++ (close_nest ∷ []))) tt func-put refl

abbrev mac_text : Bytes
mac_text = codes "00:11:22:33:44:55"

abbrev mac : Bytes
mac = 0 ∷ 17 ∷ 34 ∷ 51 ∷ 68 ∷ 85 ∷ []

macs_read : ReadsMacs buffer (tokens b';' mac_text) (mac ∷ [])
unfolding program
macs_read = (refl, tt)

one_byte : atoi (codes "1") ≡ 1
unfolding program
one_byte = refl

index_put :
    recorder.nla_put_u8 [] NanSrf.bf_idx (atoi (codes "0") % 2 ^ 8) ≡ some (u8 NanSrf.bf_idx 0 ∷ [])
unfolding program
index_put = refl

srf_bf-any_hits_example :
    (srf : Bytes) × (length srf ≡ atoi (codes "1"))
    × ((k : ℕ)
        → mask_bit srf k ≡ any_hits (atoi (codes "0") % 2 ^ 8) (atoi (codes "1")) (mac ∷ []) k)
    × (srf_bf recorder buffer [] (codes "0" ∷ codes "1" ∷ mac_text ∷ []) ≡ (
        put_or enobufs (recorder.nla_put (u8 NanSrf.bf_idx 0 ∷ []) NanSrf.bf srf) >>= λ m2.
        done (m2, [])))
srf_bf-any_hits_example =
    srf_bf-any_hits recorder buffer (codes "0") (codes "1") mac_text [] (mac ∷ []) []
      (u8 NanSrf.bf_idx 0 ∷ []) macs_read (omega (arith, one_byte)) (omega (arith, one_byte))
      index_put
