-- ===== src/Fdb.antt =====
-- The class `FDB` of libifstate/fdb/__init__.py: the forwarding database of a bridge or a vxlan interface.
pub mod Apply
mod Tests
use ifstate.Prelude.{
  bit_or, bit_and, ℕ, zero, suc, ◌+◌, ◌*◌, ◌/◌, ◌%◌, String, Bool, true, false, not, ◌&&◌, ◌||◌,
  Option, none, some, List, [], ◌∷◌, ◌++◌, Comparable, ◌==◌, if◌then◌else◌, any, contains, map,
  number_key, text_key,
}
use ifstate.Prelude.Dict.{Dict, keys, lookup, has, insert}
use ifstate.Value.{Value, null, num, text, Fields, value_key}
use ifstate.Netlink.{
  Answer, Event, log_ok, log_add, log_del, warning, link_missing, Run, note, request, for_each,
}
use ifstate.Routing.Match.{matches}
use ifstate.Routing.Config.{set_some}

-- An entry of the configuration.
pub record EntryConfig : Type 0 where
  pub lladdr : String
  pub port : Option Value
  pub dst : Option String
  pub state : Option (List String)
  pub flags : Option (List String)
  pub nhid : Option Value
  pub src_vni : Option Value
  pub vni : Option Value

-- What Python and pyroute2 give: `str.lower`, `str(ip_address(s))`, and the names and constants of ndmsg.
pub record Library : Type 0 where
  pub lower : String → String
  pub normal : String → String
  pub states : List (String × ℕ)
  pub flags : List (String × ℕ)
  pub nud_noarp : ℕ
  pub nud_permanent : ℕ
  pub ntf_self : ℕ

-- `for name, value in table.items(): if name in names: bits |= value`
unfoldable pub bits_of : List (String × ℕ) → List String → ℕ → ℕ
bits_of [] names bits = bits
bits_of ((name, value) ∷ table) names bits =
    bits_of table names (if contains name names then bit_or bits value else bits)

-- `if not k in d: d[k] = [v] else: d[k].append(v)`
unfoldable pub push : Value → Fields → Dict Value (List Fields) → Dict Value (List Fields)
push k v d = elim (lookup k d) [ none ↦ insert k (v ∷ []) d | some vs ↦ insert k (vs ++ v ∷ []) d ]

-- `==` of dictionaries
unfoldable pub same_entry : Fields → Fields → Bool
same_entry a b = matches a b (keys a) && matches b a (keys b)

-- `entry in entries`
unfoldable pub member : Fields → List Fields → Bool
unfolding same_entry
member entry entries = any (λ other. same_entry other entry) entries

-- `lladdr in d and entry in d[lladdr]`
unfoldable pub listed : Value → Fields → Dict Value (List Fields) → Bool
unfolding member
listed lladdr entry d = elim (lookup lladdr d) [
  | none ↦ false
  | some entries ↦ member entry entries
]

-- `if not 'state' in entry: entry['state'] = default_state`
unfoldable pub with_state : ℕ → Fields → Fields
with_state default entry = if has "state" entry then entry else insert "state" (num default) entry

-- A neighbour message of the family AF_BRIDGE.
pub record Message : Type 0 where
  pub state : ℕ
  pub flags : Value
  pub nda_lladdr : Value
  pub nda_dst : Option String
  pub nda_port : Option ℕ
  pub nda_nhid : Option Value
  pub nda_src_vni : Option Value
  pub nda_vni : Option Value

pub record Link : Type 0 where
  pub index : ℕ
  pub address : Value
  pub kind : Option String

-- The requests `fdb("append", ...)` and `fdb("del", ...)` of an interface.
pub data Request : Type 0 where
  append del : ℕ → Fields → Request

pub record Host (K : Type 0) : Type 0 where
  pub get_link : K → String → Option Link
  pub get_neighbours : K → ℕ → List Message
  pub send : Request → K → Answer × K

pub record Fdb : Type 0 where
  pub iface : String
  pub fdb : Dict Value (List Fields)

module _ (lib : Library) where
  -- `_entry` of `__init__`
  unfoldable pub make_entry : EntryConfig → Fields
  unfolding bits_of set_some
  make_entry entry =
      let e : Fields = ("lladdr", text (lib.lower entry.lladdr)) ∷ [] in
      let e = insert "port" (elim entry.port as (λ _. Value) [ none ↦ num 8472 | some p ↦ p ]) e in
      let dst : Option Value = elim entry.dst [
        | none ↦ none
        | some d ↦ some (text (lib.normal d))
      ] in
      let e = set_some "dst" dst e in
      let state : Option Value = elim entry.state [
        | none ↦ none
        | some names ↦ some (num (bits_of lib.states names 0))
      ] in
      let e = set_some "state" state e in
      let flags : ℕ = elim entry.flags [
        | none ↦ lib.ntf_self
        | some names ↦ bits_of lib.flags names 0
      ] in
      let e = insert "flags" (num flags) e in
      let e = set_some "nhid" entry.nhid e in
      let e = set_some "src_vni" entry.src_vni e in set_some "vni" entry.vni e

  -- `__init__`
  unfoldable pub new : String → List EntryConfig → Fdb
  unfolding make_entry push
  new iface entries = record {
    iface = iface;
    fdb =
        for_each entries (λ entry d. push (text (lib.lower entry.lladdr)) (make_entry entry) d) [];
  }

  -- `_entry` of `get_kernel_fdb`
  unfoldable pub kernel_entry : Message → Fields
  unfolding set_some
  kernel_entry m =
      let e : Fields =
        ("lladdr", m.nda_lladdr) ∷ ("state", num m.state) ∷ ("flags", m.flags) ∷ [] in
      let dst : Option Value = elim m.nda_dst [
        | none ↦ none
        | some d ↦ some (text (lib.normal d))
      ] in
      let e = set_some "dst" dst e in
      let port : ℕ = elim m.nda_port [ none ↦ 8472 | some p ↦ if p == 0 then 8472 else p ] in
      let e = insert "port" (num port) e in
      let e = set_some "nhid" m.nda_nhid e in
      let e = set_some "src_vni" m.nda_src_vni e in set_some "vni" m.nda_vni e

  -- the body of the loop in `get_kernel_fdb`: permanent or static entries only
  unfoldable pub collect : Message → Dict Value (List Fields) → Dict Value (List Fields)
  unfolding kernel_entry push
  collect m d =
      if bit_and m.state (bit_or lib.nud_noarp lib.nud_permanent) == 0
      then d
      else push m.nda_lladdr (kernel_entry m) d

  unfoldable pub default_state : Link → ℕ
  default_state link = elim link.kind [
    | none ↦ lib.nud_permanent
    | some kind ↦
        if kind == "vxlan" then bit_or lib.nud_permanent lib.nud_noarp else lib.nud_permanent
  ]
