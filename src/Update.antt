-- ===== src/Update.antt =====
-- `IfState._update` of libifstate/__init__.py for the interfaces of a configuration, with get_defaults: which
-- objects a run has for each interface.
pub mod Duplicates
pub mod Collected
pub mod Provided
mod Tests
use ifstate.Prelude.{
  String, Bool, true, false, not, ◌&&◌, ◌||◌, Option, none, some, List, [], ◌∷◌, if◌then◌else◌,
  is_some, any, text_key,
}
use ifstate.Prelude.Dict.{Dict, lookup, insert, has, from_pairs}
use ifstate.Value.{Vrrp, Fields}
use ifstate.Registry.{Item, claim}
use ifstate.Apply.{VrrpIndex, no_vrrp}
use ifstate.Apply.Vrrps.{add_interface}
use ifstate.Links.{Link}
use ifstate.Links.Init.{Library, init}

-- The parts of an interface that are kept by its name: `netns.addresses`, `netns.fdb` and so on.
pub data Part : Type 0 where
  addresses fdb neighbours sysctl tc wireguard xdp : Part

-- An interface of the configuration, with the settings of its parts. `cshaper` is whether the key is there.
pub record Interface (C : Type 0) : Type 0 where
  pub name : String
  pub kind : String
  pub link : Fields
  pub vrrp : Option Vrrp
  pub brport : Option Fields
  pub conf : Part → Option C
  pub cshaper : Bool

-- An entry of the defaults: what it matches, its link settings, and `clear_<part>`.
pub record Default : Type 0 where
  pub matches : List (Dict String String)
  pub link : Fields
  pub clear : Part → Bool

-- What `_update` takes from the program: the defaults, the features, the settings that clear a part, and
-- `re.match`.
pub record Env (C : Type 0) : Type 0 where
  pub library : Library
  pub netns : Option String
  pub namespaces : List String
  pub defaults : List Default
  pub features : String → Bool
  pub cleared : Part → C
  pub re_match : String → String → Bool
  -- the exception of `Link(...)` for a user or a group that is unknown, and of the constructor of a part for
  -- settings that are no addresses
  pub link_raises : Interface C → Bool
  pub part_raises : Part → C → Bool

-- The objects of a namespace, and the registry with the links that have claimed an item.
pub record Objects (C : Type 0) : Type 0 where
  pub links : Dict String Link
  pub parts : Part → Dict String C
  pub vrrp : VrrpIndex
  pub items : List Item

pub data Failure : Type 0 where
  link_duplicate key_error construction : Failure
  feature_missing : String → Failure

-- What a run of `_update` ends in.
pub data Updated (C : Type 0) : Type 0 where
  updated : Objects C → Updated C
  failed : Failure → Updated C

-- the next round, unless there was an error
abbrev pub next_round : {C : Type 0} → (Objects C → Updated C) → Updated C → Updated C
next_round round (updated o) = round o
next_round round (failed e) = failed e

-- `matching`: every option is given and fits its expression
unfoldable pub all_match : (String → String → Bool) → Dict String String → Dict String String → Bool
all_match re_match kwargs [] = true
all_match re_match kwargs ((option, regex) ∷ options) =
    elim (lookup option kwargs) [ none ↦ false | some s ↦ re_match regex s ]
    && all_match re_match kwargs options

abbrev pub no_default : Default
no_default = record { matches = []; link = []; clear = λ p. false }

-- `get_defaults`
unfoldable pub get_defaults : (String → String → Bool) → List Default → Dict String String → Default
unfolding all_match
get_defaults re_match [] kwargs = no_default
get_defaults re_match (d ∷ defaults) kwargs =
    let later = get_defaults re_match defaults kwargs in
    if any (all_match re_match kwargs) d.matches then d else later

-- The parts that a default can clear.
abbrev pub clearable : Part → Bool
clearable addresses = true
clearable fdb = true
clearable neighbours = true
clearable tc = true
clearable _ = false

module _ {C : Type 0} where
  -- `if part in ifstate: ... elif defaults.get('clear_<part>', False): ...`
  unfoldable pub configured : Option C → Bool → C → Option C
  configured (some c) clear empty = some c
  configured none true empty = some empty
  configured none false empty = none

  unfoldable pub store : String → Option C → Dict String C → Dict String C
  store name none d = d
  store name (some c) d = insert name c d

  module _ (env : Env C) where
    unfoldable pub default_of : Interface C → Default
    unfolding get_defaults
    default_of i =
        get_defaults env.re_match env.defaults (("ifname", i.name) ∷ ("kind", i.kind) ∷ [])

    -- what an interface has of a part
    unfoldable pub part_of : Interface C → Part → Option C
    unfolding configured default_of
    part_of i p = configured (i.conf p) (clearable p && (default_of i).clear p) (env.cleared p)

    -- `Link(...)`: the settings of the default, and the own ones over them
    unfoldable pub link_of : Interface C → Link
    unfolding default_of init
    link_of i = init env.library (record {
      netns = env.netns;
      name = i.name;
      kind = i.kind;
      link = from_pairs i.link (default_of i).link;
      brport = i.brport;
      namespaces = env.namespaces;
    })

    unfoldable pub with_interface : Interface C → Objects C → Objects C
    unfolding link_of part_of store add_interface claim
    with_interface i o = record {
      links = insert i.name (link_of i) o.links;
      parts = λ p. store i.name (part_of i p) (o.parts p);
      vrrp = add_interface (i.name, i.vrrp) o.vrrp;
      items = claim ((link_of i).search_args ∷ []) o.items;
    }

    -- whether the constructor of a part raises an exception
    unfoldable pub raises_at : Interface C → Part → Bool
    unfolding part_of
    raises_at i p = elim (part_of i p) [ none ↦ false | some c ↦ env.part_raises p c ]

    -- `if not self.features[...]` of a part that is configured
    unfoldable pub lacks : Interface C → Part → String → Bool
    lacks i p feature = is_some (i.conf p) && not (env.features feature)

    -- what stops a round, in the order of the code; a `cshaper` is read below a key that is not there
    unfoldable pub obstacle : Interface C → Objects C → Option Failure
    unfolding raises_at lacks
    obstacle i o =
        if has i.name o.links
        then some link_duplicate
        else if env.link_raises i
            || raises_at i addresses
            || raises_at i fdb
            || raises_at i neighbours
            || raises_at i sysctl
        then some construction
        else if i.cshaper
        then some key_error
        else if raises_at i tc
        then some construction
        else if lacks i wireguard "wireguard"
        then some (feature_missing "wireguard")
        else if raises_at i wireguard
        then some construction
        else if lacks i xdp "xdp"
        then some (feature_missing "xdp")
        else if raises_at i xdp
        then some construction
        else none

    -- the body of the loop
    unfoldable pub update_interface : Interface C → Objects C → Updated C
    unfolding with_interface obstacle
    update_interface i o = elim (obstacle i o) [
      | none ↦ updated (with_interface i o)
      | some e ↦ failed e
    ]

    -- `for ifstate in ifstates['interfaces']`
    unfoldable pub update_interfaces : List (Interface C) → Objects C → Updated C
    unfolding update_interface
    update_interfaces [] o = updated o
    update_interfaces (i ∷ is) o = next_round (update_interfaces is) (update_interface i o)

-- A namespace before `_update`, with the registry.
abbrev pub no_objects : {C : Type 0} → List Item → Objects C
no_objects items = record { links = []; parts = λ p. []; vrrp = no_vrrp; items = items }
