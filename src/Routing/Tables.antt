-- ===== src/Routing/Tables.antt =====
-- `Tables.apply` of libifstate/routing/__init__.py: the kernel's routes are compared with the configured
-- ones, table by table.
mod KernelLoop
pub mod Dry
mod Resolve
pub mod Sent
use Prim.Native.Char.{code}
use ifstate.Prelude.{
  ℕ, zero, suc, ◌+◌, ◌/◌, ◌%◌, String, ◌≡◌, Bool, true, false, not, ◌&&◌, ◌||◌, Option, none, some,
  List, [], ◌∷◌, ◌++◌, Comparable, ◌==◌, if◌then◌else◌, filter, any, str_lt, text_key, number_key,
  ltb,
}
use ifstate.Prelude.Dict.{Dict, keys, lookup, insert, delete, has}
use ifstate.Prelude.Sort.{sorted}
use ifstate.Value.{Vrrp, Value, null, num, text, vrrp, Fields}
use ifstate.Netlink.{
  Answer, Event, log_ok, log_add, log_change, log_del, log_warn, log_err, warning, Run, note,
  request, for_each,
}
use ifstate.Routing.Match.{
  matches, route_matches, Verdict, ignore, disable, enable, vrrp_match, present,
}
use ifstate.Routing.Lookup.{RtLookup, lookup_id}

-- `key[0] != '_'`
unfoldable pub is_plain : String → Bool
is_plain String.[] = true
is_plain (String.◌∷◌ c s) = not (code c == 95)

-- The keys by which a configured route is compared in full.
unfoldable pub plain_keys : Fields → List String
unfolding is_plain
plain_keys rt = filter is_plain (keys rt)

unfoldable pub identical : Fields → Fields → Bool
unfolding plain_keys
identical route kroute = matches route kroute (plain_keys route)

-- What the loop over `enumerate(kroutes)` leaves: the list, `found` and `identical`.
pub record Scan : Type 0 where
  pub kroutes : List Fields
  pub found : Bool
  pub identical : Bool

unfoldable pub keep : Fields → Scan → Scan
keep k r = record r { kroutes = k ∷ r.kroutes }

-- The loop. It deletes from the list that it runs over: behind a deletion that does not end the loop the
-- next element is passed over (`skip`).
unfoldable pub scan : Option Verdict → Fields → Bool → List Fields → Scan
unfolding keep
scan matched route skip [] = record { kroutes = []; found = false; identical = false }
scan matched route true (k ∷ ks) = keep k (scan matched route false ks)
scan matched route false (k ∷ ks) =
    let on = keep k (scan matched route false ks) in
    let skipped = scan matched route true ks in
    let hit : Scan = elim matched [
      | some ignore ↦ record { kroutes = ks; found = false; identical = false }
      | some disable ↦ record { kroutes = k ∷ ks; found = false; identical = false }
      | _ ↦
          if identical route k
          then record { kroutes = ks; found = true; identical = true }
          else record skipped { found = true }
    ] in
    if route_matches route k then hit else on

pub data Request : Type 0 where
  replace : Fields → Request
  del : Fields → Request

-- The arguments of a run.
pub record Mode : Type 0 where
  pub do_apply : Bool
  pub by_vrrp : Bool
  pub vrrp_type : String
  pub vrrp_name : String
  pub vrrp_state : String

-- The key of `sorted`; an absent value is the empty text.
unfoldable pub text_of : String → Fields → String
text_of key rt = elim (lookup key rt) [ some (text t) ↦ t | _ ↦ "" ]

unfoldable pub route_lt : Fields → Fields → Bool
unfolding text_of
route_lt a b =
    str_lt (text_of "via" a) (text_of "via" b)
    || ((text_of "via" a == text_of "via" b) && str_lt (text_of "dst" a) (text_of "dst" b))

-- What the lookup of the device leaves of the route; `none` skips the route.
pub data Device : Type 0 where
  resolved unknown_dropped : Fields → Device
  unknown : Device

-- `route_matches(route, iroute, iroute.keys())` for one of the `ignores`
unfoldable pub is_ignored : List Fields → Fields → Bool
is_ignored ignores route = any (λ iroute. matches route iroute (keys iroute)) ignores

module _ {K : Type 0} (link_lookup : K → String → Option ℕ) (send : Request → K → Answer × K)
    (dump : K → ℕ → List Fields) where
  unfoldable pub resolve_device : K → Fields → Device
  resolve_device k route = elim (lookup "oif" route) [
    | some (text dev) ↦ elim (link_lookup k dev) [
      | some idx ↦ resolved (insert "oif" (num idx) route)
      | none ↦ if has "gateway" route then unknown_dropped (delete "oif" route) else unknown
    ]
    | _ ↦ resolved route
  ]

  unfoldable pub setup_route :
      Mode → Fields → Scan → Run K Request (Event Fields) → Run K Request (Event Fields)
  setup_route mode route r s =
      if r.identical
      then note (log_ok route) s
      else let s' = if r.found then note (log_change route) s else note (log_add route) s in
        request send mode.do_apply (replace route) (warning route) s'

  abbrev State : Type 0
  State = List Fields × Run K Request (Event Fields)

  -- the body of the loop over the configured routes, behind the device lookup
  unfoldable pub apply_resolved : Mode → Fields → State → State
  apply_resolved mode route (kroutes, s) =
      let matched = vrrp_match route mode.by_vrrp mode.vrrp_type mode.vrrp_name mode.vrrp_state in
      let r = scan matched route false kroutes in
      (r.kroutes, if present matched then setup_route mode route r s else s)

  unfoldable pub apply_route : Mode → Fields → State → State
  apply_route mode route (kroutes, s) = elim (resolve_device s.kernel route) [
    | resolved route' ↦ apply_resolved mode route' (kroutes, s)
    | unknown_dropped route' ↦ apply_resolved mode route' (kroutes, note (log_warn route) s)
    | unknown ↦ (kroutes, note (log_err route) s)
  ]

  unfoldable pub remove_route :
      Mode → List Fields → Fields → Run K Request (Event Fields) → Run K Request (Event Fields)
  remove_route mode ignores route s =
      if is_ignored ignores route
      then s
      else request send mode.do_apply (del route) (warning route) (note (log_del route) s)

  unfoldable pub apply_table :
      Mode
      → List Fields
      → ℕ × List Fields
      → Run K Request (Event Fields)
      → Run K Request (Event Fields)
  apply_table mode ignores (table, croutes) s =
      let (left, s') =
        for_each (sorted route_lt croutes) (apply_route mode) (dump s.kernel table, s) in
      for_each left (remove_route mode ignores) s'

  unfoldable pub apply :
      Mode
      → List Fields
      → Dict ℕ (List Fields)
      → Run K Request (Event Fields)
      → Run K Request (Event Fields)
  apply mode ignores tables s = for_each tables (apply_table mode ignores) s
