-- ===== src/Mesh.antt =====
-- set_interface_meshparam of wifi/iw/mesh.c with its table of parameters.
pub mod Assign
use nl.Base.{
  ℕ, ◌%◌, ◌^◌, Bool, true, false, ltb, leb, ◌||◌, Bytes, Option, none, some, List, [], ◌∷◌, codes,
  if◌then◌else◌,
}
use nl.Libc.{str_eq, cut, strtoul, strtol_10, to_u32}
use nl.Nl80211.Attr
use nl.Nl80211.MeshConf
use nl.Nl80211.MeshPower
use nl.Netlink.{Netlink, Result, ok, err, Code, usage, explained, put_failed, enobufs, ◌>>=◌}

abbrev pub up_to : ℕ → ℕ × Bytes × Bool → Option ℕ
up_to most (v, [], found) = if ltb most v then none else some v
up_to most (v, c ∷ rest, found) = none

unfoldable pub parse_u8 : Bytes → Option ℕ
parse_u8 str = up_to 0xff (strtoul str 10)

unfoldable pub parse_u8_as_bool : Bytes → Option ℕ
parse_u8_as_bool str = up_to 1 (strtoul str 10)

-- A `long` is a pattern of 64 bits; a negative one is above every bound.
abbrev pub long_up_to : ℕ → ℕ × Bytes → Option ℕ
long_up_to most (v, []) = if leb (2 ^ 63) v || ltb most v then none else some v
long_up_to most (v, c ∷ rest) = none

unfoldable pub parse_u16 : Bytes → Option ℕ
parse_u16 str = long_up_to 0xffff (strtol_10 str)

-- `strtoll`, which is `strtol` where `long` has 64 bits.
unfoldable pub parse_u32 : Bytes → Option ℕ
parse_u32 str = long_up_to 0xffffffff (strtol_10 str)

-- A negative value has no bound, and is cut to 32 bits.
abbrev pub signed_up_to : ℕ × Bytes → Option ℕ
signed_up_to (v, []) =
    if leb (2 ^ 63) v then some (to_u32 v) else if ltb 0xff v then none else some v
signed_up_to (v, c ∷ rest) = none

unfoldable pub parse_s32 : Bytes → Option ℕ
parse_s32 str = signed_up_to (strtol_10 str)

unfoldable pub parse_u32_power_mode : Bytes → Option ℕ
parse_u32_power_mode str =
    if str_eq str (codes "active")
    then some MeshPower.active
    else if str_eq str (codes "light")
    then some MeshPower.light_sleep
    else if str_eq str (codes "deep")
    then some MeshPower.deep_sleep
    else none

-- The width of the attribute.
pub data MeshPut : Type 0 where
  put_u8 put_u16 put_u32 : MeshPut

pub data MeshParam : Type 0 where
  param : (name : Bytes) → (mesh_param_num : ℕ) → MeshPut → (Bytes → Option ℕ) → MeshParam

unfoldable pub mesh_param_descrs : List MeshParam
mesh_param_descrs =
    param (codes "mesh_retry_timeout") MeshConf.retry_timeout put_u16 parse_u16
    ∷ param (codes "mesh_confirm_timeout") MeshConf.confirm_timeout put_u16 parse_u16
    ∷ param (codes "mesh_holding_timeout") MeshConf.holding_timeout put_u16 parse_u16
    ∷ param (codes "mesh_max_peer_links") MeshConf.max_peer_links put_u16 parse_u16
    ∷ param (codes "mesh_max_retries") MeshConf.max_retries put_u8 parse_u8
    ∷ param (codes "mesh_ttl") MeshConf.ttl put_u8 parse_u8
    ∷ param (codes "mesh_element_ttl") MeshConf.element_ttl put_u8 parse_u8
    ∷ param (codes "mesh_auto_open_plinks") MeshConf.auto_open_plinks put_u8 parse_u8_as_bool
    ∷ param (codes "mesh_hwmp_max_preq_retries") MeshConf.hwmp_max_preq_retries put_u8 parse_u8
    ∷ param (codes "mesh_path_refresh_time") MeshConf.path_refresh_time put_u32 parse_u32
    ∷ param (codes "mesh_min_discovery_timeout") MeshConf.min_discovery_timeout put_u16 parse_u16
    ∷ param (codes "mesh_hwmp_active_path_timeout") MeshConf.hwmp_active_path_timeout put_u32
        parse_u32
    ∷ param (codes "mesh_hwmp_preq_min_interval") MeshConf.hwmp_preq_min_interval put_u16 parse_u16
    ∷ param (codes "mesh_hwmp_net_diameter_traversal_time") MeshConf.hwmp_net_diam_trvs_time put_u16
        parse_u16
    ∷ param (codes "mesh_hwmp_rootmode") MeshConf.hwmp_rootmode put_u8 parse_u8
    ∷ param (codes "mesh_hwmp_rann_interval") MeshConf.hwmp_rann_interval put_u16 parse_u16
    ∷ param (codes "mesh_gate_announcements") MeshConf.gate_announcements put_u8 parse_u8
    ∷ param (codes "mesh_fwding") MeshConf.forwarding put_u8 parse_u8_as_bool
    ∷ param (codes "mesh_sync_offset_max_neighor") MeshConf.sync_offset_max_neighbor put_u32
        parse_u32
    ∷ param (codes "mesh_rssi_threshold") MeshConf.rssi_threshold put_u32 parse_s32
    ∷ param (codes "mesh_hwmp_active_path_to_root_timeout") MeshConf.hwmp_path_to_root_timeout
        put_u32 parse_u32
    ∷ param (codes "mesh_hwmp_root_interval") MeshConf.hwmp_root_interval put_u16 parse_u16
    ∷ param (codes "mesh_hwmp_confirmation_interval") MeshConf.hwmp_confirmation_interval put_u16
        parse_u16
    ∷ param (codes "mesh_power_mode") MeshConf.power_mode put_u32 parse_u32_power_mode
    ∷ param (codes "mesh_awake_window") MeshConf.awake_window put_u16 parse_u16
    ∷ param (codes "mesh_plink_timeout") MeshConf.plink_timeout put_u32 parse_u32
    ∷ param (codes "mesh_connected_to_gate") MeshConf.connected_to_gate put_u8 parse_u8_as_bool
    ∷ param (codes "mesh_nolearn") MeshConf.nolearn put_u8 parse_u8_as_bool
    ∷ param (codes "mesh_connected_to_as") MeshConf.connected_to_as put_u8 parse_u8_as_bool
    ∷ []

abbrev pub param_name : MeshParam → Bytes
param_name (param name num put parse) = name

unfoldable pub find_in : List MeshParam → Bytes → Option MeshParam
find_in [] name = none
find_in (d ∷ ds) name =
    let rest = find_in ds name in if str_eq (param_name d) name then some d else rest

unfoldable pub find_mesh_param : Bytes → Option MeshParam
find_mesh_param name = find_in mesh_param_descrs name

module _ (n : Netlink) where
  open n use {Msg, Nest, nla_put_u8, nla_put_u16, nla_put_u32, nla_nest_start, nla_nest_end}

  -- `_my_nla_put_u8` and its kin return what `nla_put` does.
  abbrev pub put_sized : MeshPut → Msg → ℕ → ℕ → Option Msg
  put_sized put_u8 msg num v = nla_put_u8 msg num v
  put_sized put_u16 msg num v = nla_put_u16 msg num v
  put_sized put_u32 msg num v = nla_put_u32 msg num v

  abbrev pub put_result : Option Msg → Result Msg
  put_result none = err put_failed
  put_result (some m) = ok m

  abbrev pub put_value : Msg → ℕ → MeshPut → Option ℕ → Result Msg
  put_value msg num put none = err explained
  put_value msg num put (some v) = put_result (put_sized put msg num v)

  abbrev pub put_found : Msg → Bytes → Option MeshParam → Result Msg
  put_found msg value none = err explained
  put_found msg value (some (param name num put parse)) = put_value msg num put (parse value)

  -- One parameter with its value.
  unfoldable pub set_param : Msg → Bytes → Bytes → Result Msg
  set_param msg name value = put_found msg value (find_mesh_param name)

  -- A last word is a parameter only with its value.
  abbrev pub last_word : Msg → Bytes × Option Bytes → Result Msg
  last_word msg (name, none) = err explained
  last_word msg (name, some value) = set_param msg name value

  -- A word with a value, or one whose value is the next word.
  abbrev pub word_or_two :
      Msg → Bytes × Option Bytes → Bytes → (one two : Msg → Result Msg) → Result Msg
  word_or_two msg (name, some value) next one two = set_param msg name value >>= one
  word_or_two msg (name, none) next one two = set_param msg name next >>= two

  unfoldable pub mesh_loop : Msg → List Bytes → Result Msg
  mesh_loop msg [] = ok msg
  mesh_loop msg (w ∷ []) = last_word msg (cut b'=' w)
  mesh_loop msg (w ∷ x ∷ words) =
      word_or_two msg (cut b'=' w) x (λ m. mesh_loop m (x ∷ words)) (λ m. mesh_loop m words)

  abbrev pub mesh_nest : Bytes → List Bytes → Option (Nest × Msg) → Result Msg
  mesh_nest w words none = err enobufs
  mesh_nest w words (some (container, m)) =
      mesh_loop m (w ∷ words) >>= λ m'. ok (nla_nest_end m' container)

  abbrev pub no_words : Option (Nest × Msg) → Result Msg
  no_words none = err enobufs
  no_words (some s) = err usage

  unfoldable pub set_interface_meshparam : Msg → List Bytes → Result Msg
  set_interface_meshparam msg [] = no_words (nla_nest_start msg Attr.mesh_config)
  set_interface_meshparam msg (w ∷ words) = mesh_nest w words (nla_nest_start msg Attr.mesh_config)

-- What `get_interface_meshparam` asks for: one parameter, or a code.
unfoldable pub get_interface_meshparam : List Bytes → Result MeshParam
get_interface_meshparam [] = err usage
get_interface_meshparam (name ∷ []) = elim (find_mesh_param name) [
  | none ↦ err explained
  | some d ↦ ok d
]
get_interface_meshparam (name ∷ x ∷ words) = err usage
