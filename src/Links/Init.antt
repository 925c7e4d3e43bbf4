-- ===== src/Links/Init.antt =====
-- `Link.__new__` and `Link.__init__` of libifstate/link/base.py, with the `__init__` of
-- libifstate/link/physical.py and libifstate/link/tun.py: a link from its configuration.
pub mod Bound
use ifstate.Prelude.{
  ℕ, String, Bool, true, false, not, Option, none, some, List, [], ◌∷◌, Comparable, ◌==◌,
  if◌then◌else◌, text_key, contains, nat_beq,
}
use ifstate.Prelude.Dict.{Dict, lookup, insert, delete, from_pairs, has}
use ifstate.Value.{Value, null, num, text, vrrp, Fields}
use ifstate.Netlink.{for_each}
use ifstate.Routing.Lookup.{RtLookup, lookup_id}
use ifstate.Registry.{Settings, search_args}
use ifstate.BrPort.{BrPort}
use ifstate.Links.{Class, generic, physical, tun, Link}
use ifstate.Links.Parts.{attr_bind_kinds}

-- `str.lower`, format_ether_address, the lookup of groups, and the ids of users and groups.
pub record Library : Type 0 where
  pub lower : String → String
  pub format_ether_address : String → String
  pub group : RtLookup
  pub getpwnam : String → ℕ
  pub getgrnam : String → ℕ

-- The arguments of `Link(...)`; `link` has a kind, which is a text.
pub record Config : Type 0 where
  pub netns : Option String
  pub name : String
  pub kind : String
  pub link : Fields
  pub brport : Option Fields
  pub namespaces : List String

abbrev pub ValueMap : Type 0
ValueMap = List (ℕ × String)

abbrev pub attr_value_maps : Dict String ValueMap
attr_value_maps =
    (
      "bond_mode",
      (0, "balance-rr")
          ∷ (1, "active-backup")
          ∷ (2, "balance-xor")
          ∷ (3, "broadcast")
          ∷ (4, "802.3ad")
          ∷ (5, "balance-tlb")
          ∷ (6, "balance-alb")
          ∷ [],
    )
    ∷ (
      "bond_arp_validate",
      (0, "none")
          ∷ (1, "active")
          ∷ (2, "backup")
          ∷ (3, "all")
          ∷ (4, "filter")
          ∷ (5, "filter_active")
          ∷ (6, "filter_backup")
          ∷ [],
    )
    ∷ ("bond_arp_all_targets", (0, "any") ∷ (1, "all") ∷ [])
    ∷ ("bond_primary_reselect", (0, "always") ∷ (1, "better") ∷ (2, "failure") ∷ [])
    ∷ ("bond_fail_over_mac", (0, "none") ∷ (1, "active") ∷ (2, "follow") ∷ [])
    ∷ (
      "bond_xmit_hash_policy",
      (0, "layer2")
          ∷ (1, "layer3+4")
          ∷ (2, "layer2+3")
          ∷ (3, "encap2+3")
          ∷ (4, "encap3+4")
          ∷ (5, "vlan+srcmac")
          ∷ [],
    )
    ∷ ("bond_ad_lacp_rate", (0, "slow") ∷ (1, "fast") ∷ [])
    ∷ ("bond_ad_select", (0, "stable") ∷ (1, "bandwidth") ∷ (2, "count") ∷ [])
    ∷ ("tun_type", (1, "tun") ∷ (2, "tap") ∷ [])
    ∷ ("vlan_protocol", (0x88a8, "802.1ad") ∷ (0x8100, "802.1q") ∷ [])
    ∷ ("vxlan_df", (0, "unset") ∷ (1, "set") ∷ (2, "inherit") ∷ [])
    ∷ []

-- `__new__`: only the direct subclasses are looked at
unfoldable pub class_of : (String → String) → String → Class
class_of lower kind =
    if lower kind == "physical" then physical else if lower kind == "tun" then tun else generic

-- A setting that is a text, changed.
unfoldable pub change_text : String → (String → String) → Fields → Fields
change_text key f settings = elim (lookup key settings) [
  | some (text s) ↦ insert key (text (f s)) settings
  | _ ↦ settings
]

-- `next((k for k, v in mappings.items() if v == value), value)`
unfoldable pub number_of : ValueMap → String → Value
number_of [] s = text s
number_of ((k, v) ∷ mappings) s = if v == s then num k else number_of mappings s

-- the loop over `attr_value_maps`, for settings that are no numbers
unfoldable pub map_values : Dict String ValueMap → Fields → Fields
unfolding number_of
map_values maps settings =
    for_each maps
      (λ m d. elim (lookup m.0 d) [ some (text s) ↦ insert m.0 (number_of m.1 s) d | _ ↦ d ])
      settings

-- the loop over `attr_value_lookup`, which has the group
unfoldable pub look_up_group : RtLookup → Fields → Fields
unfolding lookup_id
look_up_group l settings = elim (lookup "group" settings) [
  | none ↦ settings
  | some v ↦ elim (lookup_id l v) [
    | some n ↦ insert "group" (num n) settings
    | none ↦ delete "group" settings
  ]
]

-- `tun_owner` and `tun_group` by their names
unfoldable pub resolve_name : String → (String → ℕ) → Fields → Fields
resolve_name key id link = elim (lookup key link) [
  | some (text s) ↦ insert key (num (id s)) link
  | _ ↦ link
]

unfoldable pub resolve_owners : Library → Class → Fields → Fields
unfolding resolve_name
resolve_owners lib tun link =
    resolve_name "tun_group" lib.getgrnam (resolve_name "tun_owner" lib.getpwnam link)
resolve_owners lib _ link = link

-- `bool(v)` of a setting that may be missing
unfoldable pub as_bool : Option Value → Bool
as_bool none = false
as_bool (some null) = false
as_bool (some (num n)) = not (nat_beq n 0)
as_bool (some (text s)) = not (s == "")
as_bool (some (vrrp v)) = true

unfoldable pub cap_create_of : Class → Fields → Bool
unfolding as_bool
cap_create_of generic link = true
cap_create_of physical link = false
cap_create_of tun link = as_bool (lookup "tun_persist" link)

unfoldable pub text_at : String → Fields → Option String
text_at key settings = elim (lookup key settings) [ some (text s) ↦ some s | _ ↦ none ]

-- the settings before the search
unfoldable pub prepared : Library → String → String → Fields → Fields
unfolding change_text
prepared lib kind name link =
    let settings = from_pairs link (("ifname", text name) ∷ []) in
    let named =
      change_text "permaddr" lib.format_ether_address (change_text "businfo" lib.lower settings) in
    if kind == "physical" then change_text "address" lib.format_ether_address named else named

-- `self.bind_netns`, for the kinds that have it
unfoldable pub bind_of : Option String → String → Fields → Option (Option String)
bind_of netns kind settings =
    if contains kind attr_bind_kinds
    then elim (lookup "bind_netns" settings) [
      | none ↦ some netns
      | some (text n) ↦ some (some n)
      | some _ ↦ some none
    ]
    else none

-- the settings by which the registry is searched
unfoldable pub search_settings : Config → Fields → Settings
unfolding text_at
search_settings c link = record {
  kind = c.kind;
  name = c.name;
  netns = c.netns;
  businfo = text_at "businfo" link;
  permaddr = text_at "permaddr" link;
  address = text_at "address" link;
}

-- `__init__`
unfoldable pub init : Library → Config → Link
unfolding class_of resolve_owners prepared map_values look_up_group bind_of cap_create_of
    search_args search_settings
init lib c =
    let class = class_of lib.lower c.kind in
    let link = resolve_owners lib class c.link in
    let settings = prepared lib c.kind c.name link in
    let valued = look_up_group lib.group (map_values attr_value_maps settings) in
    record {
      class = class;
      netns = c.netns;
      name = c.name;
      cap_create = cap_create_of class link;
      settings = delete "bind_netns" valued;
      search_args = search_args lib.lower lib.format_ether_address (search_settings c link);
      bind_netns = bind_of c.netns c.kind valued;
      namespaces = c.namespaces;
      brport = elim c.brport [
        | none ↦ none
        | some [] ↦ none
        | some (p ∷ ps) ↦ some (record { iface = c.name; brport = p ∷ ps })
      ];
    }
