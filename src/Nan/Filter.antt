-- ===== src/Nan/Filter.antt =====
-- parse_srf and parse_match_filter of wifi/iw/nan.c: the filters of a NAN function.
pub mod Hashed
use nl.Base.{
  ℕ, ◌+◌, ◌%◌, ◌^◌, ltb, Bool, ◌||◌, ◌==◌, Bytes, Option, none, some, List, [], ◌∷◌, codes, take,
  replicate, length, if◌then◌else◌,
}
use nl.Libc.{str_eq, atoi, tokens}
use nl.Nl80211.NanFunc
use nl.Nl80211.NanSrf
use nl.Netlink.{Netlink, enobufs, einval}
use nl.Run.{Run, done, refuse, fault, ◌>>=◌, put_or}
use nl.Util.Mac.{mac_addr_a2n, eth_alen}
use nl.Nan.Bloom.{nan_bf}
use nl.Scan.Request.{kept}

-- NL80211_NAN_FUNC_SRF_MAX_LEN
abbrev pub srf_max_len : ℕ
srf_max_len = 255

abbrev pub hash_mac : ℕ → Bytes → Option Bytes → (Bytes → Bytes → Run Bytes) → Bytes → Run Bytes
hash_mac bf_idx srf none after mac = fault
hash_mac bf_idx srf (some srf') after mac = after mac srf'

abbrev pub read_mac : ℕ → Bytes → Option Bytes → (Bytes → Bytes → Run Bytes) → Run Bytes
read_mac bf_idx srf none after = refuse einval
read_mac bf_idx srf (some mac) after =
    hash_mac bf_idx srf (nan_bf bf_idx srf (length srf) (take eth_alen mac)) after mac

-- Each address is hashed into the filter; `mac_addr` is what the buffer for an address holds.
unfoldable pub bf_macs : (bf_idx : ℕ) → (mac_addr srf : Bytes) → List Bytes → Run Bytes
bf_macs bf_idx mac_addr srf [] = done srf
bf_macs bf_idx mac_addr srf (cur_mac ∷ macs) =
    read_mac bf_idx srf (mac_addr_a2n mac_addr cur_mac) λ mac srf'. bf_macs bf_idx mac srf' macs

module _ (n : Netlink) where
  open n use {
    Msg, Nest, nla_put, nla_put_u8, nla_put_flag, nla_nest_start, nla_nest_end, nlmsg_alloc,
    nla_put_nested,
  }

  -- A filter of so many bytes, in which no bit is set at first.
  abbrev pub put_bf : Bytes → Msg → ℕ → ℕ → Bytes → Run Msg
  put_bf mac_addr srf_attrs bf_idx srf_len macs =
      if srf_len == 0 || ltb srf_max_len srf_len
      then refuse einval
      else bf_macs bf_idx mac_addr (replicate srf_len 0) (tokens b';' macs) >>= λ srf.
          put_or enobufs (nla_put srf_attrs NanSrf.bf srf)

  -- The words behind "bf"; what is left of them.
  unfoldable pub srf_bf : Bytes → Msg → List Bytes → Run (Msg × List Bytes)
  srf_bf mac_addr srf_attrs (idx ∷ len ∷ macs ∷ words) =
      let bf_idx = atoi idx % 2 ^ 8 in
      put_or enobufs (nla_put_u8 srf_attrs NanSrf.bf_idx bf_idx) >>= λ m1.
      put_bf mac_addr m1 bf_idx (atoi len) macs >>= λ m2. done (m2, words)
  srf_bf mac_addr srf_attrs (idx ∷ len ∷ []) = refuse einval
  srf_bf mac_addr srf_attrs (idx ∷ []) = refuse einval
  srf_bf mac_addr srf_attrs [] = refuse einval

  abbrev pub put_mac : Msg → ℕ → Option Bytes → (Bytes → Msg → Run Msg) → Run Msg
  put_mac msg i none after = refuse einval
  put_mac msg i (some mac) after = after mac (kept n msg (nla_put msg i (take eth_alen mac)))

  -- Nobody reads what `nla_put` returns.
  unfoldable pub list_macs : (mac_addr : Bytes) → Msg → (i : ℕ) → List Bytes → Run Msg
  list_macs mac_addr msg i [] = done msg
  list_macs mac_addr msg i (cur_mac ∷ macs) =
      put_mac msg (i + 1) (mac_addr_a2n mac_addr cur_mac) λ mac m. list_macs mac m (i + 1) macs

  -- Nobody tests whether the nest was started.
  abbrev pub put_macs : Bytes → Msg → Bytes → Option (Nest × Msg) → Run Msg
  put_macs mac_addr msg macs none = list_macs mac_addr msg 0 (tokens b';' macs) >>= λ m. fault
  put_macs mac_addr msg macs (some (nl_macs, m)) =
      list_macs mac_addr m 0 (tokens b';' macs) >>= λ m'. done (nla_nest_end m' nl_macs)

  -- The words behind "list"; without one `argv[0]` is the null pointer behind the words.
  unfoldable pub srf_list : Bytes → Msg → List Bytes → Run (Msg × List Bytes)
  srf_list mac_addr srf_attrs [] = fault
  srf_list mac_addr srf_attrs (macs ∷ words) =
      put_macs mac_addr srf_attrs macs (nla_nest_start srf_attrs NanSrf.mac_addrs) >>= λ m.
      done (m, words)

  abbrev pub srf_kind : Bytes → Msg → Bytes → List Bytes → Run (Msg × List Bytes)
  srf_kind mac_addr srf_attrs w words =
      if str_eq w (codes "bf")
      then srf_bf mac_addr srf_attrs words
      else if str_eq w (codes "list")
      then srf_list mac_addr srf_attrs words
      else refuse einval

  abbrev pub srf_include : Msg → Bytes → Run Msg
  srf_include srf_attrs w =
      if str_eq w (codes "include")
      then put_or enobufs (nla_put_flag srf_attrs NanSrf.include)
      else if str_eq w (codes "exclude")
      then done srf_attrs
      else refuse einval

  -- The function's attributes with those of the filter, and the words that are left.
  unfoldable pub parse_srf : Bytes → Msg → List Bytes → Run (Msg × List Bytes)
  parse_srf mac_addr func_attrs [] = fault
  parse_srf mac_addr func_attrs (w ∷ []) = srf_include nlmsg_alloc w >>= λ m. fault
  parse_srf mac_addr func_attrs (w ∷ x ∷ words) = srf_include nlmsg_alloc w >>= λ m1.
      srf_kind mac_addr m1 x words >>= λ r.
      done (kept n func_attrs (nla_put_nested func_attrs NanFunc.srf r.0), r.1)

  -- The pieces of a filter: any value for "*".
  unfoldable pub filter_loop : Msg → (i : ℕ) → List Bytes → Msg
  filter_loop msg i [] = msg
  filter_loop msg i (cur_filt ∷ filts) =
      filter_loop
        (kept n msg (nla_put msg (i + 1) (if str_eq cur_filt (codes "*") then [] else cur_filt)))
        (i + 1) filts

  abbrev pub put_filter : Bytes → Option (Nest × Msg) → Run Msg
  put_filter filter none = fault
  put_filter filter (some (nl_filt, m)) =
      done (nla_nest_end (filter_loop m 0 (tokens b':' filter)) nl_filt)

  unfoldable pub parse_match_filter : Bytes → Msg → (tx : Bool) → Run Msg
  parse_match_filter filter func_attrs tx =
      put_filter filter (
        nla_nest_start func_attrs (if tx then NanFunc.tx_match_filter else NanFunc.rx_match_filter))
