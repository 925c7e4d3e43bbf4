-- ===== src/Tc/Tests.antt =====
-- An interface with a tree of qdiscs and a filter, and the class on it.
use ifstate.Prelude.{
  ◌≡◌, refl, true, false, none, some, List, [], ◌∷◌, ◌&&◌, contains, pair_key, number_key, Distinct,
  arith,
}
use ifstate.Prelude.Dict.{lookup}
use ifstate.Prelude.Numeral.{read}
use ifstate.Value.{value_beq, text, Fields}
use ifstate.Netlink.{Answer, accepted, start, for_each}
use ifstate.Collector.{new}
use ifstate.Tc.{Filter, Request, Tasks}
use ifstate.Tc.Handle.{int2handle, handle2int, handle2int-int2handle}
use ifstate.Tc.Tree.{node, leaf, child, KernelQdisc, differs, apply_qtree}
use ifstate.Tc.Tree.Laws.{apply_qtree_root}
use ifstate.Tc.Filters.{KernelFilter, filters_of, unreferenced, remove_filter}
use ifstate.Tc.Filters.Removal.{removals, has_filter, remove_filter-removals}
use ifstate.Tc.Apply.{Host, Tc}

abbrev serve : Request → List Request → Answer × List Request
serve r k = (accepted, r ∷ k)

abbrev mq : Fields
mq = ("kind", text "mq") ∷ ("handle", text "1:") ∷ []

abbrev codel : Fields
codel = ("kind", text "fq_codel") ∷ ("handle", text "11:") ∷ []

abbrev root : KernelQdisc
root = record { parent = 4294967295; handle = 65536; kind = some (text "mq") }

abbrev wanted : Filter
wanted = record {
  index = none;
  prio = some 1;
  parent = some (text "1:");
  actions = [];
  options = [];
}

abbrev host : Host (List Request)
host = record {
  link_lookup = λ k name. some 2;
  get_qdiscs = λ k i. root ∷ [];
  get_filters = λ k i. record { info = 131072; parent = none } ∷ [];
  send = serve;
}

abbrev eth0 : Tc
eth0 = record {
  iface = "eth0";
  ingress = some true;
  qdisc = some (some (node mq (child (node codel leaf) leaf)));
  filter = some (wanted ∷ []);
}

abbrev begin : Tasks serve
unfolding new
begin = record { run = start []; excpts = new "eth0" }

abbrev old : List KernelFilter
old =
    record { info = 131072; parent = none }
    ∷ record { info = 65536; parent = some (text "1:") }
    ∷ []

handle2int-int2handle_example : handle2int (text (int2handle 65546)) ≡ some 65546
handle2int-int2handle_example = handle2int-int2handle 65546 (omega arith)

apply_qtree_root_example :
    (apply_qtree serve 2
      (node mq (child (node codel leaf) leaf))
      (some root)
      (root ∷ [])
      4294967295
      true
      false
      begin).1
    ≡ (apply_qtree serve 2 (node mq leaf) (some root) (root ∷ []) 4294967295 true false begin).1
apply_qtree_root_example =
    apply_qtree_root serve 2 mq (child (node codel leaf) leaf) (some root) (root ∷ []) 4294967295
      true false begin

mq_same : differs mq root ≡ false
unfolding differs lookup value_beq handle2int read
mq_same = refl

remove_filter-removals_example :
    let sent =
      (for_each old
        (remove_filter serve 2 true (filters_of (wanted ∷ [])))
        ([], false, begin)).2.run.sent in
    (contains (0, 2) (removals sent)
      ≡ (unreferenced (filters_of (wanted ∷ [])) 0 2 && has_filter 0 2 old))
    × Distinct (removals sent)
unfolding begin
remove_filter-removals_example =
    remove_filter-removals serve 2 (filters_of (wanted ∷ [])) old begin 0 2 refl
