-- ===== src/BrPort/Tests.antt =====
-- A kernel that keeps the settings of one port.
use ifstate.Prelude.{String, ◌≡◌, refl, false, none, some, [], ◌∷◌, text_key, Distinct}
use ifstate.Prelude.Dict.{keys, lookup}
use ifstate.Value.{Value, null, num, Fields}
use ifstate.Netlink.{Answer, accepted, start}
use ifstate.BrPort.{Request, set, Host, BrPort, PortTask}
use ifstate.BrPort.Settled.{IsServed}

abbrev value : Fields → String → Value
value k key = elim (lookup key k) [ none ↦ null | some v ↦ v ]

abbrev serve : Request → Fields → Answer × Fields
serve (set idx d) k = (accepted, d)

abbrev host : Host Fields
host = record { dump = λ k idx. some (value k); send = serve }

value_found : (d : Fields) (key : String) (v : Value) → lookup key d ≡ some v → value d key ≡ v
value_found d key v found = rw (value, found) refl

host-IsServed : IsServed host
host-IsServed = record {
  accepts = λ idx d k. refl;
  attr = λ idx k. value k;
  is_port = λ idx d k. refl;
  keeps = λ idx d k key v found. value_found d key v found;
}

abbrev port : BrPort
port = record { iface = "eth0"; brport = ("learning", num 0) ∷ ("priority", num 16) ∷ [] }

port-Distinct : Distinct (keys port.brport)
port-Distinct = (refl, (refl, tt))

abbrev begin : PortTask host
begin = record {
  run = start (("learning", num 1) ∷ []);
  excpts = record { ifname = "eth0"; excpts = []; quiet = false };
}
