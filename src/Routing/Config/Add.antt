-- ===== src/Routing/Config/Add.antt =====
-- Where `Tables.add` puts a route.
use ifstate.Prelude.{
  ℕ, String, ◌≡◌, refl, ◌∙◌, Bool, false, Option, none, some, List, [], ◌∷◌, ◌++◌, arith, ◌==◌,
  if◌then◌else◌, text_key, number_key, Option-cases, beq_self, inl, inr,
}
use ifstate.Prelude.Dict.{Dict, lookup, insert, lookup-insert}
use ifstate.Value.{Value, num, text, Fields}
use ifstate.Routing.Lookup.{RtLookup, lookup_id}
use ifstate.Routing.Config.{
  Library, Lookups, copy_field, get_field, add_lookup, gateway_of, route_priority, set_some,
  route_type, route_fields, make_route, append_route, table_of, add,
}

copy_field-other :
    (key name other : String) (route rt : Fields)
    → (name == other) ≡ false
    → lookup other (copy_field key name route rt) ≡ lookup other rt
unfolding copy_field
copy_field-other key name other route rt differs = elim (Option-cases (lookup key route)) [
  | inl none' ↦ rw (none', copy_field) refl
  | inr (v, found) ↦ rw (found, copy_field) (lookup-insert name other v rt ∙ rw differs refl)
]

add_lookup-other :
    (key other : String) (l : RtLookup) (default : ℕ) (route rt : Fields)
    → (key == other) ≡ false
    → lookup other (add_lookup key l default route rt) ≡ lookup other rt
unfolding add_lookup
add_lookup-other key other l default route rt differs =
    elim (Option-cases (lookup_id l (get_field key (num default) route))) [
      | inl none' ↦
          rw (none', add_lookup) (lookup-insert key other (num default) rt ∙ rw differs refl)
      | inr (n, found) ↦
          rw (found, add_lookup) (lookup-insert key other (num n) rt ∙ rw differs refl)
    ]

insert-other :
    (key other : String) (v : Value) (rt : Fields)
    → (key == other) ≡ false
    → lookup other (insert key v rt) ≡ lookup other rt
insert-other key other v rt differs = lookup-insert key other v rt ∙ rw differs refl

-- The number of the table of a configured route.
abbrev pub number_or : ℕ → Option ℕ → ℕ
number_or default none = default
number_or default (some n) = n

add_lookup-own :
    (key : String) (l : RtLookup) (default : ℕ) (route rt : Fields)
    → lookup key (add_lookup key l default route rt)
      ≡ some (num (number_or default (lookup_id l (get_field key (num default) route))))
unfolding add_lookup
add_lookup-own key l default route rt =
    elim (Option-cases (lookup_id l (get_field key (num default) route))) [
      | inl none' ↦
          rw (none', add_lookup) (lookup-insert key key (num default) rt ∙ rw (beq_self key) refl)
      | inr (n, found) ↦
          rw (found, add_lookup) (lookup-insert key key (num n) rt ∙ rw (beq_self key) refl)
    ]

set_some-other :
    (key other : String) (v : Option Value) (rt : Fields)
    → (key == other) ≡ false
    → lookup other (set_some key v rt) ≡ lookup other rt
unfolding set_some
set_some-other key other none rt differs = refl
set_some-other key other (some v) rt differs = insert-other key other v rt differs

module _ (lib : Library) (names : Lookups) where
  append_route-lookup :
      (t : ℕ) (rt : Fields) (tables : Dict ℕ (List Fields)) (j : ℕ)
      → lookup j (append_route lib names t rt tables) ≡ (
          if t == j
          then some (elim (lookup j tables) as (λ _. List Fields) [
            | none ↦ rt ∷ []
            | some rs ↦ rs ++ rt ∷ []
          ])
          else lookup j tables)
  unfolding append_route
  append_route-lookup t rt tables j = elim (Option-cases (lookup t tables)) [
    | inl none' ↦ ground (arith, lookup-insert t j (rt ∷ []) tables, number_key.same_iff t j)
    | inr (rs, found) ↦
        ground (arith, lookup-insert t j (rs ++ rt ∷ []) tables, number_key.same_iff t j)
  ]

  -- The table that the route names, or 254 without one or with an unknown one.
  abbrev pub configured_table : Fields → ℕ
  configured_table route = number_or 254 (lookup_id names.table (get_field "table" (num 254) route))

  route_fields-table :
      (net : String × Bool) (kind : Value) (gateway : Option Value) (route : Fields)
      → lookup "table" (route_fields lib names net kind gateway route)
        ≡ some (num (configured_table route))
  unfolding route_fields
  route_fields-table (dst, is_v6) kind gateway route =
      let rt0 : Fields =
        ("type", get_field "type" (text "unicast") route) ∷ ("dst", text dst) ∷ [] in
      let rt1 = add_lookup "table" names.table 254 route rt0 in
      let rt2 = add_lookup "scope" names.scope 0 route rt1 in
      let rt3 = add_lookup "proto" names.proto 3 route rt2 in
      let rt4 = add_lookup "realm" names.realm 0 route rt3 in
      let rt5 = insert "type" kind rt4 in
      let rt6 = copy_field "dev" "oif" route rt5 in
      let rt7 = set_some "gateway" gateway rt6 in
      let rt8 = copy_field "src" "prefsrc" route rt7 in
      let rt9 = insert "priority" (route_priority lib names is_v6 route) rt8 in
      copy_field-other "vrrp" "_vrrp" "table" route rt9 refl
      ∙ insert-other "priority" "table" (route_priority lib names is_v6 route) rt8 refl
      ∙ copy_field-other "src" "prefsrc" "table" route rt7 refl
      ∙ set_some-other "gateway" "table" gateway rt6 refl
      ∙ copy_field-other "dev" "oif" "table" route rt5 refl
      ∙ insert-other "type" "table" kind rt4 refl
      ∙ add_lookup-other "realm" "table" names.realm 0 route rt3 refl
      ∙ add_lookup-other "proto" "table" names.proto 3 route rt2 refl
      ∙ add_lookup-other "scope" "table" names.scope 0 route rt1 refl
      ∙ add_lookup-own "table" names.table 254 route rt0

  -- For a configured route whose destination is read as a network, whose type is known and whose
  -- gateway, if it has one, is read as an address, the method add succeeds: the dictionary that it
  -- makes of the route goes behind the routes of the table that the route names, or of the table
  -- 254 if it names none or an unknown one, and every other table stays as it was.
  pub add-tables :
      (to : String) (route : Fields) (tables : Dict ℕ (List Fields)) (j : ℕ) (net : String × Bool)
      (kind : Value) (gateway : Option Value)
      → lookup "to" route ≡ some (text to)
      → lib.ip_network to ≡ some net
      → route_type lib names (get_field "type" (text "unicast") route) ≡ some kind
      → gateway_of lib names route ≡ some gateway
      → let rt = route_fields lib names net kind gateway route in
        (tables' : Dict ℕ (List Fields)) × (add lib names route tables ≡ some tables')
        × (lookup j tables' ≡ (
            if configured_table route == j
            then some (elim (lookup j tables) as (λ _. List Fields) [
              | none ↦ rt ∷ []
              | some rs ↦ rs ++ rt ∷ []
            ])
            else lookup j tables))
  unfolding add make_route table_of
  add-tables to route tables j net kind gateway found parsed known via =
      let rt = route_fields lib names net kind gateway route in
      let t : table_of lib names rt ≡ configured_table route =
        rw (route_fields-table net kind gateway route, table_of) refl in
      (
        append_route lib names (table_of lib names rt) rt tables,
        rw (found, add)
            (rw (parsed, make_route) (rw (known, make_route) (rw (via, make_route) refl))),
        append_route-lookup (table_of lib names rt) rt tables j ∙ rw t refl,
      )
