-- ===== src/Routing/Config/Tests.antt =====
-- One configured route.
use ifstate.Prelude.{
  ℕ, ◌≡◌, refl, false, none, some, ◌==◌, if◌then◌else◌, List, [], ◌∷◌, number_key, text_key,
}
use ifstate.Prelude.Dict.{Dict, lookup}
use ifstate.Value.{num, text, Fields}
use ifstate.Routing.Lookup.{no_names, lookup_id}
use ifstate.Routing.Config.{Library, Lookups, get_field, route_type, gateway_of, route_fields, add}
use ifstate.Routing.Config.Add.{add-tables}

abbrev lib : Library
lib = record {
  ip_network = λ s. some (s, false);
  ip_address = λ s. some s;
  rt_type = λ s. if s == "unicast" then some 1 else none;
}

abbrev names : Lookups
names = record { table = no_names; scope = no_names; proto = no_names; realm = no_names }

abbrev home : Fields
home = ("to", text "10.0.0.0/8") ∷ ("dev", text "eth0") ∷ []

add-tables_example :
    (tables : Dict ℕ (List Fields)) × (add lib names home [] ≡ some tables)
    × (lookup 254 tables
        ≡ some (route_fields lib names ("10.0.0.0/8", false) (num 1) none home ∷ []))
unfolding lookup lookup_id get_field route_type gateway_of
add-tables_example =
    add-tables lib names "10.0.0.0/8" home [] 254 ("10.0.0.0/8", false) (num 1) none refl refl refl
      refl
