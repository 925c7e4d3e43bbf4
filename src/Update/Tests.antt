-- ===== src/Update/Tests.antt =====
-- Two interfaces, with settings that are texts, and a default that clears the addresses.
use ifstate.Prelude.{
  String, ◌≡◌, refl, true, false, none, some, List, [], ◌∷◌, inl, inr, text_key, ◌==◌,
}
use ifstate.Prelude.Dict.{lookup, insert}
use ifstate.Value.{text}
use ifstate.Routing.Lookup.{no_names}
use ifstate.Links.Init.{Library, Config, init}
use ifstate.Update.{
  Part, addresses, fdb, neighbours, sysctl, tc, wireguard, xdp, raises_at, lacks, Interface,
  Default, Env, Objects, link_duplicate, updated, part_of, with_interface, update_interface,
  obstacle, update_interfaces, no_objects, get_defaults, all_match,
}
use ifstate.Update.Duplicates.{failure, update_interfaces-failure}
use ifstate.Update.Provided.{IsFirst, over, expected, update_interfaces-provides}

abbrev library : Library
library = record {
  lower = λ s. s;
  format_ether_address = λ s. s;
  group = no_names;
  getpwnam = λ user. 1000;
  getgrnam = λ name. 1000;
}

abbrev defaults : Default
defaults = record {
  matches = (("ifname", "eth1") ∷ []) ∷ [];
  link = ("state", text "down") ∷ [];
  clear = λ p. elim p [ addresses ↦ true | _ ↦ false ];
}

abbrev env : Env String
env = record {
  library = library;
  netns = none;
  namespaces = [];
  defaults = defaults ∷ [];
  features = λ f. true;
  cleared = λ p. "cleared";
  re_match = λ regex s. regex == s;
  link_raises = λ i. false;
  part_raises = λ p c. c == "no address";
}

abbrev interface : String → Interface String
interface name = record {
  name = name;
  kind = "bridge";
  link = ("kind", text "bridge") ∷ [];
  vrrp = none;
  brport = none;
  conf = λ p. elim p [ tc ↦ some "fq" | _ ↦ none ];
  cshaper = false;
}

abbrev interfaces : List (Interface String)
interfaces = interface "eth0" ∷ interface "eth1" ∷ []

-- the objects of the two interfaces
abbrev collected : Objects String
collected =
    with_interface env (interface "eth1") (with_interface env (interface "eth0") (no_objects []))

is_collected : update_interfaces env interfaces (no_objects []) ≡ updated collected
unfolding update_interfaces update_interface obstacle with_interface part_of insert lookup
is_collected = refl

addresses_cleared : part_of env (interface "eth1") addresses ≡ some "cleared"
unfolding part_of get_defaults all_match lookup
addresses_cleared = refl

constructed : (p : Part) → raises_at env (interface "eth0") p ≡ false
unfolding raises_at part_of lookup
constructed addresses = refl
constructed fdb = refl
constructed neighbours = refl
constructed sysctl = refl
constructed tc = refl
constructed wireguard = refl
constructed xdp = refl

update_interfaces-failure_example :
    failure (update_interfaces env (interface "eth0" ∷ interface "eth0" ∷ []) (no_objects []))
    ≡ some link_duplicate
unfolding lacks
update_interfaces-failure_example =
    update_interfaces-failure env (interface "eth0" ∷ interface "eth0" ∷ []) []
      ((refl, refl, constructed, refl, refl), ((refl, refl, constructed, refl, refl), tt))

update_interfaces-provides_example :
    (d : Default) × (c : Config) × IsFirst env.re_match
      (("ifname", "eth1") ∷ ("kind", "bridge") ∷ [])
      env.defaults
      d
    × ((c.name ≡ "eth1") × (c.kind ≡ "bridge") × (c.netns ≡ none) × (c.brport ≡ none))
    × ((k : String) → lookup k c.link ≡ over (lookup k (interface "eth1").link) (lookup k d.link))
    × (lookup "eth1" collected.links ≡ some (init library c))
    × ((p : Part) → lookup "eth1" (collected.parts p) ≡ expected env (interface "eth1") d p)
update_interfaces-provides_example =
    update_interfaces-provides env interfaces [] collected (interface "eth1") is_collected
      (inr (inl refl)) (refl, tt)
