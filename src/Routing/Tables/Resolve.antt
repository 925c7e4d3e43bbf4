-- ===== src/Routing/Tables/Resolve.antt =====
-- The lookup of the device of a route leaves what the route is matched by.
use ifstate.Prelude.{
  ℕ, String, ◌≡◌, refl, inl, inr, Option, List, arith, Bool-cases, Option-cases, text_key,
}
use ifstate.Prelude.Dict.{lookup, insert, delete, has, lookup-insert, lookup-delete}
use ifstate.Value.{Value, null, num, text, vrrp, Fields, value_key}
use ifstate.Netlink.{Answer}
use ifstate.Routing.Match.{route_matches}
use ifstate.Routing.Tables.{Request, Device, resolved, unknown_dropped, unknown, resolve_device}

route_matches-oif :
    (v : Value) (route k : Fields) → route_matches (insert "oif" v route) k ≡ route_matches route k
unfolding route_matches
route_matches-oif v route k = ground (
  arith,
  lookup-insert "oif" "dst" v route,
  lookup-insert "oif" "priority" v route,
  lookup-insert "oif" "proto" v route,
)

route_matches-no_oif :
    (route k : Fields) → route_matches (delete "oif" route) k ≡ route_matches route k
unfolding route_matches
route_matches-no_oif route k = ground (
  arith,
  lookup-delete "oif" "dst" route,
  lookup-delete "oif" "priority" route,
  lookup-delete "oif" "proto" route,
)

-- The device lookup leaves what a route is matched by.
abbrev pub SameKey : Fields → Fields → Device → Type 0
SameKey route x (resolved r) = route_matches r x ≡ route_matches route x
SameKey route x (unknown_dropped r) = route_matches r x ≡ route_matches route x
SameKey route x unknown = Unit

module _ {K : Type 0} (link_lookup : K → String → Option ℕ) (send : Request → K → Answer × K)
    (dump : K → ℕ → List Fields) where
  pub device-SameKey :
      (k : K) (route x : Fields) → SameKey route x (resolve_device link_lookup send dump k route)
  unfolding resolve_device
  device-SameKey k route x = elim (Option-cases (lookup "oif" route)) [
    | inl none' ↦ rw (none', resolve_device) refl
    | inr (num n, found) ↦ rw (found, resolve_device) refl
    | inr (null, found) ↦ rw (found, resolve_device) refl
    | inr (vrrp v, found) ↦ rw (found, resolve_device) refl
    | inr (text dev, found) ↦ elim (Option-cases (link_lookup k dev)) [
      | inr (idx, known) ↦ rw (found, known, resolve_device) (route_matches-oif (num idx) route x)
      | inl missing ↦ elim (Bool-cases (has "gateway" route)) [
        | inl via ↦ rw (found, missing, via, resolve_device) (route_matches-no_oif route x)
        | inr direct ↦ rw (found, missing, direct, resolve_device) tt
      ]
    ]
  ]
