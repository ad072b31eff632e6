-- ===== src/Mesh/Assign.antt =====
-- The message that assignments of mesh parameters make.
use nl.Base.{
  ℕ, Bool, true, false, Bytes, Option, some, List, [], ◌∷◌, ◌++◌, All, ◌≡◌, refl, sym, ◌∙◌,
}
use nl.Libc.{cut}
use nl.Libc.Laws.{Lacks, cut-append, cut_whole}
use nl.Nl80211.Attr
use nl.Netlink.{Netlink, Result, ok, err, ◌>>=◌, Attrs, nil, u8, u16, u32, nest, put_all}
use nl.Netlink.Laws.{u8-eq-ok, u16-eq-ok, u32-eq-ok, nest-eq-ok, nil-eq-ok}
use nl.Mesh.{
  MeshPut, put_u8, put_u16, put_u32, param, find_mesh_param, put_value, set_param, mesh_loop,
  set_interface_meshparam,
}

-- A parameter of the table with the text of a value, in one word or in two.
pub record Assignment : Type 0 where
  pub joined : Bool
  pub name : Bytes
  pub text : Bytes
  pub num : ℕ
  pub put : MeshPut
  pub value : ℕ

pub record IsAssignment (a : Assignment) : Type 0 where
  pub parse : Bytes → Option ℕ
  pub no_equals : Lacks b'=' a.name
  pub found : find_mesh_param a.name ≡ some (param a.name a.num a.put parse)
  pub parsed : parse a.text ≡ some a.value

abbrev pub assigned : Bool → Bytes → Bytes → List Bytes → List Bytes
assigned true name text rest = (name ++ (b'=' ∷ text)) ∷ rest
assigned false name text rest = name ∷ text ∷ rest

abbrev pub assignment_words : List Assignment → List Bytes
assignment_words [] = []
assignment_words (a ∷ as') = assigned a.joined a.name a.text (assignment_words as')

abbrev pub sized_attr : MeshPut → ℕ → ℕ → Attrs → Attrs
sized_attr put_u8 num v xs = u8 num v xs
sized_attr put_u16 num v xs = u16 num v xs
sized_attr put_u32 num v xs = u32 num v xs

abbrev pub assignment_attrs : List Assignment → Attrs
assignment_attrs [] = nil
assignment_attrs (a ∷ as') = sized_attr a.put a.num a.value (assignment_attrs as')

module _ (n : Netlink) where
  open n use {Msg, nla_nest_end}

  >>=-ok : (r : Result Msg) → r ≡ (r >>= λ m. ok m)
  >>=-ok (err code) = refl
  >>=-ok (ok m) = refl

  mesh_loop-joined :
      (m : Msg) (w name text : Bytes) (rest : List Bytes)
      → cut b'=' w ≡ (name, some text)
      → mesh_loop n m (w ∷ rest) ≡ (set_param n m name text >>= λ m1. mesh_loop n m1 rest)
  unfolding mesh_loop
  mesh_loop-joined m w name text [] e = rw e (>>=-ok (set_param n m name text))
  mesh_loop-joined m w name text (x ∷ rest) e = rw e refl

  put_value-sized_attr :
      (put : MeshPut) (num v : ℕ) (xs : Attrs) (m m' : Msg)
      → put_all n (sized_attr put num v xs) m ≡ ok m'
      → (m1 : Msg) × (put_value n m num put (some v) ≡ ok m1) × (put_all n xs m1 ≡ ok m')
  put_value-sized_attr put_u8 num v xs m m' h =
      let (m1, e, h1) = u8-eq-ok n num v xs m m' h in (m1, rw e refl, h1)
  put_value-sized_attr put_u16 num v xs m m' h =
      let (m1, e, h1) = u16-eq-ok n num v xs m m' h in (m1, rw e refl, h1)
  put_value-sized_attr put_u32 num v xs m m' h =
      let (m1, e, h1) = u32-eq-ok n num v xs m m' h in (m1, rw e refl, h1)

  assigned-set_param :
      (joined : Bool) (name text : Bytes) (rest : List Bytes) (m m1 : Msg)
      → Lacks b'=' name
      → set_param n m name text ≡ ok m1
      → mesh_loop n m (assigned joined name text rest) ≡ mesh_loop n m1 rest
  assigned-set_param true name text rest m m1 lacks set =
      mesh_loop-joined m (name ++ (b'=' ∷ text)) name text rest (cut-append b'=' name text lacks)
      ∙ rw set refl
  assigned-set_param false name text rest m m1 lacks set =
      unfold mesh_loop in rw (cut_whole b'=' name lacks, set) refl

  mesh_loop-assignment_attrs :
      (as' : List Assignment) (m m' : Msg)
      → All IsAssignment as'
      → put_all n (assignment_attrs as') m ≡ ok m'
      → mesh_loop n m (assignment_words as') ≡ ok m'
  mesh_loop-assignment_attrs [] m m' are h =
      let done : mesh_loop n m [] ≡ ok m = unfold mesh_loop in refl in
      rw (sym (nil-eq-ok n m m' h)) done
  mesh_loop-assignment_attrs (a ∷ as') m m' (is, are) h =
      let (m1, put, h1) = put_value-sized_attr a.put a.num a.value _ m m' h in
      let set : set_param n m a.name a.text ≡ ok m1 =
        unfold set_param in rw (is.found, is.parsed) put in
      assigned-set_param a.joined a.name a.text (assignment_words as') m m1 is.no_equals set
      ∙ mesh_loop-assignment_attrs as' m1 m' are h1

  -- Assignments of parameters of the table, one at least, each in one word with '=' or in two words,
  -- whose values their parsers accept, make the nest of the parameters with one attribute for each, of
  -- the width that the table has for it, in the order of the words; if those find room.
  pub set_interface_meshparam-assignment_attrs :
      (a : Assignment) (as' : List Assignment) (msg m' : Msg)
      → All IsAssignment (a ∷ as')
      → put_all n (nest Attr.mesh_config (assignment_attrs (a ∷ as')) nil) msg ≡ ok m'
      → set_interface_meshparam n msg (assignment_words (a ∷ as')) ≡ ok m'
  set_interface_meshparam-assignment_attrs a as' msg m' are h =
      let o = nest-eq-ok n _ _ nil msg m' h in
      let loop = mesh_loop-assignment_attrs (a ∷ as') o.inside o.filled are o.inner_put in
      nested a.joined a.name a.text (assignment_words as') o.started loop
        (nil-eq-ok n _ m' o.rest_put)
    where
      nested :
          (joined : Bool) (name text : Bytes) (rest : List Bytes) {mark : n.Nest}
          {inside filled : Msg}
          → n.nla_nest_start msg Attr.mesh_config ≡ some (mark, inside)
          → mesh_loop n inside (assigned joined name text rest) ≡ ok filled
          → nla_nest_end filled mark ≡ m'
          → set_interface_meshparam n msg (assigned joined name text rest) ≡ ok m'
      nested true name text rest started loop same =
          unfold set_interface_meshparam in rw (started, loop, same) refl
      nested false name text rest started loop same =
          unfold set_interface_meshparam in rw (started, loop, same) refl
