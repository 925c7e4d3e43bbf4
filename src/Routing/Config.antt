-- ===== src/Routing/Config.antt =====
-- `Tables.add` and `Tables.kernel_routes` of libifstate/routing/__init__.py: the dictionary of a configured
-- route, and that of a route of the kernel.
pub mod Add
mod Tests
use ifstate.Prelude.{
  ℕ, ◌/◌, ◌%◌, String, Bool, not, Option, none, some, List, [], ◌∷◌, ◌++◌, ◌==◌, if◌then◌else◌,
  text_key, number_key, ltb,
}
use ifstate.Prelude.Dict.{Dict, lookup, insert}
use ifstate.Value.{Value, null, num, text, Fields}
use ifstate.Routing.Lookup.{RtLookup, lookup_id}

-- What `ipaddress` and pyroute2 give for the configuration; `none` is an exception.
pub record Library : Type 0 where
  -- `ip_network(s).with_prefixlen`, and whether it is an `IPv6Network`
  pub ip_network : String → Option (String × Bool)
  -- `str(ip_address(s))`
  pub ip_address : String → Option String
  pub rt_type : String → Option ℕ

-- `RT_LOOKUPS_DICT`
pub record Lookups : Type 0 where
  pub table : RtLookup
  pub scope : RtLookup
  pub proto : RtLookup
  pub realm : RtLookup

-- `if key in route: rt[name] = route[key]`
unfoldable pub copy_field : String → String → Fields → Fields → Fields
copy_field key name route rt = elim (lookup key route) [ none ↦ rt | some v ↦ insert name v rt ]

-- `route.get(key, default)`
unfoldable pub get_field : String → Value → Fields → Value
get_field key default route = elim (lookup key route) [ none ↦ default | some v ↦ v ]

-- one round of the loop over `RT_LOOKUPS_DICT`: an unknown name falls back to the default
unfoldable pub add_lookup : String → RtLookup → ℕ → Fields → Fields → Fields
unfolding get_field
add_lookup key l default route rt = elim (lookup_id l (get_field key (num default) route)) [
  | some n ↦ insert key (num n) rt
  | none ↦ insert key (num default) rt
]

-- `if not value is None: rt[name] = value`
unfoldable pub set_some : String → Option Value → Fields → Fields
set_some name none rt = rt
set_some name (some v) rt = insert name v rt

module _ (lib : Library) (names : Lookups) where
  -- `none` is the `KeyError` of an unknown type, and the `ValueError` of an address
  unfoldable pub route_type : Value → Option Value
  route_type (text t) = elim (lib.rt_type t) [ none ↦ none | some n ↦ some (num n) ]
  route_type v = some v

  unfoldable pub route_gateway : Value → Option Value
  route_gateway (text t) = elim (lib.ip_address t) [ none ↦ none | some a ↦ some (text a) ]
  route_gateway v = some v

  -- the gateway, if there is one
  unfoldable pub gateway_of : Fields → Option (Option Value)
  unfolding route_gateway
  gateway_of route = elim (lookup "via" route) [
    | none ↦ some none
    | some v ↦ elim (route_gateway v) [ none ↦ none | some gateway ↦ some (some gateway) ]
  ]

  unfoldable pub route_priority : Bool → Fields → Value
  route_priority is_v6 route = elim (lookup "preference" route) [
    | some v ↦ v
    | none ↦ if is_v6 then num 1024 else num 0
  ]

  -- the dictionary `rt` that `add` makes of a route, given its network, the number of its type and its gateway
  unfoldable pub route_fields : String × Bool → Value → Option Value → Fields → Fields
  unfolding route_priority add_lookup copy_field set_some
  route_fields (dst, is_v6) kind gateway route =
      let rt : Fields =
        ("type", get_field "type" (text "unicast") route) ∷ ("dst", text dst) ∷ [] in
      let rt = add_lookup "table" names.table 254 route rt in
      let rt = add_lookup "scope" names.scope 0 route rt in
      let rt = add_lookup "proto" names.proto 3 route rt in
      let rt = add_lookup "realm" names.realm 0 route rt in
      let rt = insert "type" kind rt in
      let rt = copy_field "dev" "oif" route rt in
      let rt = set_some "gateway" gateway rt in
      let rt = copy_field "src" "prefsrc" route rt in
      let rt = insert "priority" (route_priority is_v6 route) rt in
      copy_field "vrrp" "_vrrp" route rt

  -- `none` is an exception
  unfoldable pub make_route : String → Fields → Option Fields
  unfolding route_type gateway_of route_fields
  make_route to route = elim (lib.ip_network to) [
    | none ↦ none
    | some net ↦ elim (route_type (get_field "type" (text "unicast") route)) [
      | none ↦ none
      | some kind ↦ elim (gateway_of route) [
        | none ↦ none
        | some gateway ↦ some (route_fields net kind gateway route)
      ]
    ]
  ]

  -- `if not t in tables: tables[t] = []`, and the append
  unfoldable pub append_route : ℕ → Fields → Dict ℕ (List Fields) → Dict ℕ (List Fields)
  append_route t rt tables = elim (lookup t tables) [
    | none ↦ insert t (rt ∷ []) tables
    | some routes ↦ insert t (routes ++ rt ∷ []) tables
  ]

  unfoldable pub table_of : Fields → ℕ
  table_of rt = elim (lookup "table" rt) [ some (num t) ↦ t | _ ↦ 254 ]

  -- `add`; `none` is an exception, for a route without `to` a `KeyError`
  unfoldable pub add : Fields → Dict ℕ (List Fields) → Option (Dict ℕ (List Fields))
  unfolding make_route table_of append_route
  add route tables = elim (lookup "to" route) [
    | some (text to) ↦ elim (make_route to route) [
      | none ↦ none
      | some rt ↦ some (append_route (table_of rt) rt tables)
    ]
    | _ ↦ none
  ]

-- A route message of the kernel.
pub record Message : Type 0 where
  pub family : ℕ
  pub dst_len : ℕ
  pub flags : ℕ
  pub kind : ℕ
  pub scope : ℕ
  pub proto : ℕ
  pub tos : ℕ
  pub rta_table : Option Value
  pub rta_dst : Option Value
  pub rta_oif : Option Value
  pub rta_flow : Option Value
  pub rta_gateway : Option Value
  pub rta_priority : Option Value
  pub rta_pref : Option Value
  pub rta_prefsrc : Option Value

abbrev pub af_inet : ℕ
af_inet = 2

unfoldable pub or_null : Option Value → Value
or_null none = null
or_null (some v) = v

-- RTM_F_CLONED, `flags & 512`
unfoldable pub is_cloned : Message → Bool
is_cloned m = not ((m.flags / 512) % 2 == 0)

module _ (network : Option Value → ℕ → String) (normal : Value → Value) where
  -- `network` is `ip_network('{}/{}'.format(...)).with_prefixlen`, `normal` is `str(ip_address(...))`
  unfoldable pub kernel_route : Message → Fields
  unfolding or_null set_some
  kernel_route m =
      let dst =
        if ltb 0 m.dst_len
        then network m.rta_dst m.dst_len
        else if m.family == af_inet
        then "0.0.0.0/0"
        else "::/0" in
      let rt : Fields =
        ("table", or_null m.rta_table)
        ∷ ("type", num m.kind)
        ∷ ("dst", text dst)
        ∷ ("oif", or_null m.rta_oif)
        ∷ ("scope", num m.scope)
        ∷ ("proto", num m.proto)
        ∷ ("realm", elim m.rta_flow [ none ↦ num 0 | some v ↦ v ])
        ∷ ("tos", num m.tos)
        ∷ ("priority", num 0)
        ∷ [] in
      let gateway : Option Value = elim m.rta_gateway [ none ↦ none | some v ↦ some (normal v) ] in
      let rt = set_some "gateway" gateway rt in
      let rt = set_some "metric" m.rta_priority rt in
      let rt = set_some "pref" m.rta_pref rt in
      let rt = set_some "prefsrc" m.rta_prefsrc rt in set_some "priority" m.rta_priority rt

  unfoldable pub kernel_routes : List Message → List Fields
  unfolding kernel_route is_cloned
  kernel_routes [] = []
  kernel_routes (m ∷ ms) =
      let rest = kernel_routes ms in if is_cloned m then rest else kernel_route m ∷ rest
