-- ===== src/Parser.antt =====
-- The class `Parser` of libifstate/parser/base.py: the configuration is merged over the built-in one.
pub mod Merge
pub mod Loopback
pub mod Builtin
pub mod Config
pub mod Ignored
pub mod Configured
mod Tests
use ifstate.Prelude.{
  String, Bool, true, false, Option, none, some, List, [], ◌∷◌, ◌++◌, Comparable, ◌==◌,
  if◌then◌else◌, text_key,
}
use ifstate.Value.{Value, text}

-- The configuration as it is read: dictionaries, lists and other values.
mutual
  pub data Node : Type 0 where
    leaf : Value → Node
    list : Items → Node
    dict : Members → Node

  pub data Items : Type 0 where
    nil : Items
    item : Node → Items → Items

  pub data Members : Type 0 where
    empty : Members
    member : String → Node → Members → Members

-- `d.get(key)`
unfoldable pub get : String → Members → Option Node
get key empty = none
get key (member k v d) = if k == key then some v else get key d

-- `d[key] = value`
unfoldable pub set_member : String → Node → Members → Members
set_member key value empty = member key value empty
set_member key value (member k v d) =
    if k == key then member k value d else member k v (set_member key value d)

-- `merge`, and what it stores for a key of `b`: the merge of two dictionaries, or the value of `b`
unfoldable mutual
  unfolding get set_member

  pub merge : Members → Members → Members
  merge a empty = a
  merge a (member key v b) = merge (set_member key (merge_value (get key a) v) a) b

  pub merge_value : Option Node → Node → Node
  merge_value (some (dict a)) (dict b) = dict (merge a b)
  merge_value _ v = v

-- `iface['name'] == 'lo'`; `none` is an exception
unfoldable pub is_lo : Node → Option Bool
is_lo (dict iface) = elim (get "name" iface) [
  | none ↦ none
  | some (leaf (text name)) ↦ some (name == "lo")
  | some _ ↦ some false
]
is_lo _ = none

-- The first interface that is `lo` is merged over the default one; without one the default is appended.
unfoldable pub update_items : Members → Items → Option Items
unfolding is_lo merge
update_items default_lo nil = some (item (dict default_lo) nil)
update_items default_lo (item iface rest) = elim (is_lo iface) [
  | none ↦ none
  | some true ↦ some (item (merge_value (some (dict default_lo)) iface) rest)
  | some false ↦ elim (update_items default_lo rest) [
    | none ↦ none
    | some later ↦ some (item iface later)
  ]
]

-- `_update_lo`; `none` is an exception
unfoldable pub update_lo : Members → Members → Option Members
unfolding update_items
update_lo default_lo cfg = elim (get "interfaces" cfg) [
  | none ↦ some cfg
  | some (list ifaces) ↦ elim (update_items default_lo ifaces) [
    | none ↦ none
    | some updated ↦ some (set_member "interfaces" (list updated) cfg)
  ]
  | some _ ↦ none
]
