-- ===== src/Links/Tests.antt =====
-- Links against a kernel that accepts everything and has one link, the seventh.
use ifstate.Prelude.{
  String, ◌≡◌, ◌≢◌, refl, true, false, none, some, List, [], ◌∷◌, ◌++◌, text_key, ◌==◌, number_key,
}
use ifstate.Prelude.Dict.{delete, lookup}
use ifstate.Value.{Value, null, num, text, value_beq, Fields}
use ifstate.Collector.{has_op}
use ifstate.Netlink.{accepted}
use ifstate.Sysctl.{Sysctl}
use ifstate.Registry.{
  Item, Settings, search, search_args, when_given, when, matches, get_link, given_is, netns_is,
}
use ifstate.Links.{unbound, get_bind_netns, Host, Link, generic, physical, Request, set, add, found}
use ifstate.Links.Attr.{
  Iface, attr, empty, value, get_if_attr, name2nla, append, occurs, starts_with, find_nla, get_attr,
}
use ifstate.Links.Create.{create, given}
use ifstate.Links.Update.{update, link_changes}
use ifstate.Links.Apply.{apply, begin}
use ifstate.Links.Sent.{Sends}
use ifstate.Links.Init.{Library, Config, init, number_of}
use ifstate.Links.Init.Bound.{configured-Sends, found-bound}
use ifstate.Routing.Lookup.{no_names}
use ifstate.Links.Check.{apply-dry}
use ifstate.Links.Dry.{kernel_of}
use ifstate.Links.Restored.{update-restores, state_or_up}
use ifstate.Links.Created.{Serves, asked, create-sent}
use ifstate.Links.References.{resolve_references}
use ifstate.Links.Resolved.{IsIndex, resolve-IsIndex}

-- the names of two attributes in capitals
abbrev capitals : String → String
capitals s = elim (s == "mtu") [ true ↦ "MTU" | false ↦ "IFNAME" ]

abbrev eth0 : Iface
eth0 = record {
  index = 7;
  state = "up";
  permaddr = none;
  businfo = none;
  altnames = [];
  attrs = attr "IFLA_IFNAME" (value (text "eth0")) (attr "IFLA_MTU" (value (num 1500)) empty);
}

abbrev host : Host (Unit {0})
host = record {
  link_lookup = λ k netns name. some 7;
  get_links = λ k netns idx. found eth0;
  get_link = λ k netns name. some eth0;
  by_altname = λ k netns name. none;
  get_permaddr = λ k netns name. some "52:54:00:00:00:01";
  get_businfo = λ k netns name. none;
  get_netnsid = λ k netns peer. 3;
  read_bind = λ k netns idx. none;
  read_sysctl = λ k family iface key. none;
  dump_port = λ k idx. none;
  mount = λ netns. "";
  root_name = "ifstate.root.1234";
  iw_phy = λ idx. none;
  upper = capitals;
  unique_name = λ prefix items k. "ifs.tmp.123456";
  send = λ r k. (accepted, k);
}

abbrev sysctl : Sysctl String
sysctl = record { sysctls = []; globals = [] }

abbrev same : String → String
same s = s

abbrev nic : Settings
nic = record {
  kind = "physical";
  name = "eth0";
  netns = none;
  businfo = none;
  permaddr = some "52:54:00:00:00:01";
  address = none;
}

abbrev item : Item
item = record {
  kind = "physical";
  ifname = "enp1s0";
  netns = none;
  businfo = none;
  permaddr = some "52:54:00:00:00:01";
  address = none;
  orphan = false;
  linked = false;
  index = some 7;
  wiphy = none;
}

abbrev link : Link
link = record {
  class = physical;
  netns = none;
  name = "eth0";
  cap_create = false;
  settings = ("ifname", text "eth0") ∷ ("kind", text "physical") ∷ ("mtu", num 9000) ∷ [];
  search_args = search_args same same nic;
  bind_netns = none;
  namespaces = [];
  brport = none;
}

abbrev bridge : Link
bridge = record link {
  class = generic;
  name = "br0";
  cap_create = true;
  settings =
      ("ifname", text "br0")
      ∷ ("kind", text "bridge")
      ∷ ("master", num 3)
      ∷ ("state", text "up")
      ∷ [];
}

mtu_is_read : get_if_attr capitals eth0 "mtu" ≡ some (value (num 1500))
unfolding get_if_attr name2nla append occurs starts_with find_nla get_attr
mtu_is_read = refl

apply-dry_example :
    kernel_of (apply host same sysctl false link (begin link (item ∷ []) tt))
    ≡ kernel_of (begin link (item ∷ []) tt)
apply-dry_example = apply-dry host same sysctl link (begin link (item ∷ []) tt) (λ peer. refl)

update-restores_example :
    let s = begin link (item ∷ []) tt in
    let state = λ (v : Value). set none (some 7) (("state", v) ∷ []) in
    (mid : List Request) × (rest : List Request) × ((update host same sysctl true link 7 eth0
        s).task.run.sent
      ≡ s.task.run.sent ++ (state (text "down") ∷ mid ++ (state (state_or_up s.settings) ∷ rest)))
unfolding begin link_changes lookup value_beq
update-restores_example =
    update-restores host same sysctl link 7 eth0 (begin link (item ∷ []) tt) refl refl refl
      (λ k. refl)

bridge-Serves : Serves host bridge 7
bridge-Serves = record {
  accepts = λ r k. refl;
  appears = λ k settings. refl;
  no_altname = λ k. refl;
}

create-sent_example :
    let s = begin bridge [] tt in
    (create host same sysctl true bridge "add" s).task.run.sent
    ≡ s.task.run.sent
      ++ (add none (delete "state" (delete "master" s.settings))
            ∷ asked bridge 7 "master" (given "master" s.settings)
          ++ asked bridge 7 "state" (given "state" s.settings))
unfolding begin lookup has_op
create-sent_example =
    create-sent host same sysctl bridge 7 bridge-Serves refl refl refl refl "add"
      (begin bridge [] tt) refl

-- A link below another one, in another namespace.
abbrev stacked : Fields
stacked = ("ifname", text "vlan7") ∷ ("link", text "eth0") ∷ ("link_netns", text "outer") ∷ []

resolve-IsIndex_example : IsIndex (
    lookup "link"
      (resolve_references host none (begin (record bridge { settings = stacked }) [] tt)).settings)
resolve-IsIndex_example =
    resolve-IsIndex host none "link" (begin (record bridge { settings = stacked }) [] tt) refl

abbrev library : Library
library = record {
  lower = same;
  format_ether_address = same;
  group = no_names;
  getpwnam = λ user. 1000;
  getgrnam = λ name. 1000;
}

-- A physical interface, and a tunnel that is bound to the root namespace.
abbrev nic_config : Config
nic_config = record {
  netns = none;
  name = "eth0";
  kind = "physical";
  link = ("kind", text "physical") ∷ ("permaddr", text "52:54:00:00:00:01") ∷ [];
  brport = none;
  namespaces = [];
}

abbrev tunnel_config : Config
tunnel_config = record {
  netns = some "inner";
  name = "gre1";
  kind = "gre";
  link = ("kind", text "gre") ∷ ("bind_netns", null) ∷ [];
  brport = none;
  namespaces = "inner" ∷ [];
}

configured-Sends_example : Sends (begin (init library nic_config) (item ∷ []) tt) (
    apply host same sysctl true
      (init library nic_config)
      (begin (init library nic_config) (item ∷ []) tt))
configured-Sends_example =
    configured-Sends library nic_config host same sysctl true
      (begin (init library nic_config) (item ∷ []) tt) refl refl

abbrev tunnel : Item
tunnel = record item { kind = "gre"; ifname = "gre1"; netns = some "inner"; permaddr = none }

tunnel_found : search (init library tunnel_config).search_args (tunnel ∷ []) ≡ some 0
unfolding init search search_args when_given when matches get_link given_is netns_is lookup
tunnel_found = refl

found-bound_example : get_bind_netns (init library tunnel_config) ≢ unbound
found-bound_example =
    found-bound library tunnel_config (tunnel ∷ []) 0 tunnel tunnel_found refl refl

mode_is_number : number_of ((0, "balance-rr") ∷ (4, "802.3ad") ∷ []) "802.3ad" ≡ num 4
unfolding number_of
mode_is_number = refl
