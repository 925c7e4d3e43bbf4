-- ===== src/Apply/Tests.antt =====
-- A host whose kernel counts the requests, with a link, its neighbours and an orphan.
use ifstate.Prelude.{
  ℕ, suc, String, ◌≡◌, refl, true, false, Option, none, some, List, [], ◌∷◌, ◌++◌, text_key,
  if◌then◌else◌, Distinct,
}
use ifstate.Prelude.Dict.{keys, lookup}
use ifstate.Value.{Vrrp, text}
use ifstate.Netlink.{Answer, accepted, start, flat_map}
use ifstate.Neighbours.{Host, Neighbours}
use ifstate.Apply.{Applier, Selector, Link, Netns, no_vrrp}
use ifstate.Apply.Iface.{gate}
use ifstate.Apply.Vrrps.{vrrp_index, wanted, gate-vrrp_index}
use ifstate.Apply.Orphans.{Item, LinkRequest, Cleanup, is_orphan, cleanup}
use ifstate.Apply.Orphans.Sent.{farewell, rest_of, cleanup-sent, cleanup-registry}
use ifstate.Apply.Appliers.{neighbours_applier}
use ifstate.Apply.Run.{IfState, apply}
use ifstate.Apply.Check.{Untouched, check-Untouched}

abbrev host : Host ℕ String
host = record {
  ip_address = λ s. s;
  ip_str = λ s. s;
  link_lookup = λ k name. some 2;
  get_neighbours = λ k i. ("192.0.2.9", none) ∷ [];
  send = λ r k. (accepted, suc k);
}

abbrev table : Neighbours String
table = record { iface = "eth0"; neighbours = ("192.0.2.1", some "52:54:00:00:00:01") ∷ [] }

abbrev still : Applier ℕ
still = record { apply = λ do_apply k. k; check = λ k. refl }

abbrev eth0 : Link ℕ
eth0 = record {
  vrrp = none;
  settings = ("state", text "up") ∷ [];
  depends = [];
  applier = λ s. still;
}

abbrev root : Netns ℕ
root = record {
  netns = none;
  links = ("eth0", eth0) ∷ [];
  vrrp = no_vrrp;
  bpf_progs = none;
  sysctl = record { ifaces = []; globals = none };
  tc = [];
  xdp = [];
  addresses = [];
  fdb = [];
  neighbours = ("eth0", neighbours_applier host table) ∷ [];
  wireguard = [];
  tables = none;
  rules = none;
}

abbrev veth9 : Item
veth9 = record {
  ifname = "veth9";
  kind = "veth";
  index = 9;
  netns = none;
  state = "up";
  linked = false;
  orphan = false;
}

abbrev eth9 : Item
eth9 = record {
  ifname = "eth9";
  kind = "physical";
  index = 10;
  netns = none;
  state = "up";
  linked = false;
  orphan = false;
}

abbrev config : IfState ℕ
config = record {
  root_netns = root;
  namespaces = none;
  registry = veth9 ∷ eth9 ∷ [];
  is_ignored = λ name. false;
  prepare = still;
}

abbrev serve : LinkRequest → ℕ → Answer × ℕ
serve r k = (accepted, suc k)

abbrev options : Cleanup
options = record { is_ignored = λ name. false; has_namespaces = false }

check-Untouched_example :
    Untouched serve (λ s. s) (start 0) (apply serve (λ s. s) false none config (start 0)).2
check-Untouched_example = check-Untouched serve (λ s. s) none config (start 0)

cleanup-sent_example :
    (cleanup serve true options (veth9 ∷ eth9 ∷ []) (start 0)).1.sent
    ≡ []
      ++ flat_map (λ item. if is_orphan options item then farewell item else []) (veth9 ∷ eth9 ∷ [])
cleanup-sent_example = cleanup-sent serve (λ r k. refl) options (veth9 ∷ eth9 ∷ []) (start 0)

cleanup-registry_example :
    (cleanup serve true options (veth9 ∷ eth9 ∷ []) (start 0)).0
    ≡ flat_map (rest_of options) (veth9 ∷ eth9 ∷ [])
cleanup-registry_example = cleanup-registry serve true options (veth9 ∷ eth9 ∷ []) (start 0)

abbrev master : Vrrp
master = record { kind = "instance"; name = "vi1"; states = "master" ∷ [] }

abbrev backup : Selector
backup = record { vrrp_type = "instance"; vrrp_name = "vi1"; vrrp_state = "backup" }

abbrev links : List (String × Option Vrrp)
links = ("eth0", none) ∷ ("eth1", some master) ∷ []

links-Distinct : Distinct (keys links)
links-Distinct = (refl, (refl, tt))

eth1_lookup : lookup "eth1" links ≡ some (some master)
unfolding lookup
eth1_lookup = refl

gate-vrrp_index_example :
    gate (some backup) "eth1" (some master) (vrrp_index links) ≡ wanted (some backup) (some master)
gate-vrrp_index_example =
    gate-vrrp_index (some backup) links "eth1" (some master) links-Distinct eth1_lookup
