-- ===== src/Fdb/Tests.antt =====
-- A bridge with a static entry, and the class on it.
use ifstate.Prelude.{◌≡◌, refl, true, none, some, List, [], ◌∷◌, ◌++◌}
use ifstate.Value.{Value, num, text}
use ifstate.Netlink.{Answer, accepted, start, for_each, flat_map, Run, Event}
use ifstate.Fdb.{EntryConfig, Library, Message, Link, Request, Host, Fdb, new}
use ifstate.Fdb.Apply.{get_kernel_fdb, add_entries, complete, apply}
use ifstate.Fdb.Apply.Sent.{missing, orphans, apply-sent}

abbrev lib : Library
lib = record {
  lower = λ s. s;
  normal = λ s. s;
  states = ("permanent", 128) ∷ ("noarp", 64) ∷ [];
  flags = ("self", 2) ∷ ("master", 4) ∷ [];
  nud_noarp = 64;
  nud_permanent = 128;
  ntf_self = 2;
}

abbrev stray : Message
stray = record {
  state = 64;
  flags = num 2;
  nda_lladdr = text "52:54:00:00:00:01";
  nda_dst = none;
  nda_port = none;
  nda_nhid = none;
  nda_src_vni = none;
  nda_vni = none;
}

abbrev bridge : Link
bridge = record { index = 2; address = text "52:54:00:00:00:ff"; kind = some "bridge" }

abbrev serve : Request → List Message → Answer × List Message
serve r k = (accepted, k)

abbrev host : Host (List Message)
host = record { get_link = λ k name. some bridge; get_neighbours = λ k i. k; send = serve }

abbrev entry : EntryConfig
entry = record {
  lladdr = "52:54:00:00:00:02";
  port = none;
  dst = none;
  state = none;
  flags = none;
  nhid = none;
  src_vni = none;
  vni = none;
}

abbrev config : Fdb
unfolding new
config = new lib "br0" (entry ∷ [])

abbrev added : Run (List Message) Request (Event Value)
added =
    for_each (complete lib host bridge config)
      (add_entries lib host true 2 (get_kernel_fdb lib host 2 (stray ∷ []))) (start (stray ∷ []))

apply-sent_example :
    (apply lib host true config (start (stray ∷ []))).sent
    ≡ flat_map
        (missing 2 (get_kernel_fdb lib host 2 (stray ∷ [])))
        (complete lib host bridge config)
      ++ flat_map
          (orphans 2 (text "52:54:00:00:00:ff") (complete lib host bridge config))
          (get_kernel_fdb lib host 2 added.kernel)
apply-sent_example = apply-sent lib host bridge config (stray ∷ []) refl
