-- ===== src/Tests/Recorder.antt =====
-- A message that records the attributes put into it, with room for ten of them: an instance of the
-- interface to libnl.
use nl.Base.{ℕ, Bytes, List, [], ◌∷◌, ◌++◌, Option, none, some, length, ltb, if◌then◌else◌}
use nl.Netlink.{Netlink}

pub data Event : Type 0 where
  blob : ℕ → Bytes → Event
  u8 u16 u32 u64 header : ℕ → ℕ → Event
  flag open_nest : ℕ → Event
  close_nest : Event

abbrev record_event : List Event → Event → Option (List Event)
record_event m e = if ltb (length m) 10 then some (m ++ (e ∷ [])) else none

abbrev pub recorder : Netlink
recorder = record {
  Msg = List Event;
  Nest = Unit {0};
  nla_put = λ m a v. record_event m (blob a v);
  nla_put_u8 = λ m a v. record_event m (u8 a v);
  nla_put_u16 = λ m a v. record_event m (u16 a v);
  nla_put_u32 = λ m a v. record_event m (u32 a v);
  nla_put_u64 = λ m a v. record_event m (u64 a v);
  nla_put_flag = λ m a. record_event m (flag a);
  nla_nest_start = λ m a. if ltb (length m) 10 then some (tt, m ++ (open_nest a ∷ [])) else none;
  nlmsg_alloc = [];
  genlmsg_put = λ m cmd flags. m ++ (header cmd flags ∷ []);
  nla_put_nested = λ m a inner.
      if ltb (length m) 10 then some (m ++ (open_nest a ∷ (inner ++ (close_nest ∷ [])))) else none;
  nla_nest_end = λ m s. m ++ (close_nest ∷ []);
}
