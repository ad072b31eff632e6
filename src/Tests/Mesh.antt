-- ===== src/Tests/Mesh.antt =====
-- Mesh parameters on the command line.
use nl.Base.{◌≡◌, refl, List, [], ◌∷◌, codes, some, true, false, ◌-◌, ◌^◌}
use nl.Libc.{cut, strtoul, strtol_10}
use nl.Nl80211.Attr
use nl.Nl80211.MeshConf
use nl.Netlink.{put_all, nest, nil, ok, err, explained, usage}
use nl.Mesh.{
  parse_u8, parse_u8_as_bool, parse_u16, parse_u32, parse_s32, parse_u32_power_mode,
  mesh_param_descrs, find_in, find_mesh_param, set_param, mesh_loop, set_interface_meshparam,
  put_u8, put_u32,
}
use nl.Mesh.Assign.{
  Assignment, IsAssignment, assignment_words, assignment_attrs,
  set_interface_meshparam-assignment_attrs,
}
use nl.Tests.Recorder.{Event, recorder, u8, u32, open_nest, close_nest}

program : Unit {0}
unfolding parse_u8 parse_u8_as_bool parse_u16 parse_u32 parse_s32 parse_u32_power_mode
    mesh_param_descrs find_in find_mesh_param set_param mesh_loop set_interface_meshparam cut
    strtoul strtol_10
program = tt

abbrev mesh_events : List Event
mesh_events =
    open_nest Attr.mesh_config ∷ u8 MeshConf.ttl 31 ∷ u32 MeshConf.power_mode 3 ∷ close_nest ∷ []

mesh_run :
    set_interface_meshparam recorder []
      (codes "mesh_ttl=31" ∷ codes "mesh_power_mode" ∷ codes "deep" ∷ [])
    ≡ ok mesh_events
unfolding program
mesh_run = refl

negative_run :
    set_interface_meshparam recorder [] (codes "mesh_rssi_threshold=-60" ∷ [])
    ≡ ok (open_nest Attr.mesh_config ∷ u32 MeshConf.rssi_threshold (2 ^ 32 - 60) ∷ close_nest ∷ [])
unfolding program
negative_run = refl

-- A signed value below the range of 32 bits is cut.
cut_run : parse_s32 (codes "-4294967295") ≡ some 1
unfolding program
cut_run = refl

too_large_run : set_interface_meshparam recorder [] (codes "mesh_fwding=2" ∷ []) ≡ err explained
unfolding program
too_large_run = refl

unknown_run : set_interface_meshparam recorder [] (codes "ttl=2" ∷ []) ≡ err explained
unfolding program
unknown_run = refl

no_value_run : set_interface_meshparam recorder [] (codes "mesh_ttl" ∷ []) ≡ err explained
unfolding program
no_value_run = refl

no_words_run : set_interface_meshparam recorder [] [] ≡ err usage
unfolding program
no_words_run = refl

abbrev ttl : Assignment
ttl = record {
  joined = true;
  name = codes "mesh_ttl";
  text = codes "31";
  num = MeshConf.ttl;
  put = put_u8;
  value = 31;
}

abbrev power_mode : Assignment
power_mode = record {
  joined = false;
  name = codes "mesh_power_mode";
  text = codes "deep";
  num = MeshConf.power_mode;
  put = put_u32;
  value = 3;
}

ttl-IsAssignment : IsAssignment ttl
unfolding program
ttl-IsAssignment = record {
  parse = parse_u8;
  no_equals = (refl, (refl, (refl, (refl, (refl, (refl, (refl, (refl, tt))))))));
  found = refl;
  parsed = refl;
}

power_mode-IsAssignment : IsAssignment power_mode
unfolding program
power_mode-IsAssignment = record {
  parse = parse_u32_power_mode;
  no_equals = (
    refl,
    (
      refl,
      (
        refl,
        (
          refl,
          (
            refl,
            (refl, (refl, (refl, (refl, (refl, (refl, (refl, (refl, (refl, (refl, tt)))))))))),
          ),
        ),
      ),
    ),
  );
  found = refl;
  parsed = refl;
}

mesh_put :
    put_all recorder (nest Attr.mesh_config (assignment_attrs (ttl ∷ power_mode ∷ [])) nil) []
    ≡ ok mesh_events
unfolding program put_all
mesh_put = refl

set_interface_meshparam-assignment_attrs_example :
    set_interface_meshparam recorder [] (assignment_words (ttl ∷ power_mode ∷ [])) ≡ ok mesh_events
set_interface_meshparam-assignment_attrs_example =
    set_interface_meshparam-assignment_attrs recorder ttl (power_mode ∷ []) [] mesh_events
      (ttl-IsAssignment, (power_mode-IsAssignment, tt)) mesh_put
