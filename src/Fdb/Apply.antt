-- ===== src/Fdb/Apply.antt =====
-- `FDB.apply` of libifstate/fdb/__init__.py.
pub mod Sent
pub mod Check
use ifstate.Prelude.{
  ℕ, Bool, true, false, Option, none, some, List, [], ◌∷◌, ◌++◌, Comparable, ◌==◌, if◌then◌else◌,
  map,
}
use ifstate.Prelude.Dict.{Dict}
use ifstate.Value.{Value, Fields, value_key}
use ifstate.Netlink.{
  Answer, Event, log_ok, log_add, log_del, warning, link_missing, Run, note, request, for_each,
}
use ifstate.Fdb.{
  Library, Fdb, Link, Host, Request, append, del, listed, with_state, collect, default_state,
}

module _ {K : Type 0} (lib : Library) (host : Host K) where
  open host use {get_link, get_neighbours, send}

  -- `get_kernel_fdb`
  unfoldable pub get_kernel_fdb : ℕ → K → Dict Value (List Fields)
  get_kernel_fdb idx k = for_each (get_neighbours k idx) (collect lib) []

  -- the bodies of the two loops over the entries of an address
  unfoldable pub add_entry :
      Bool
      → ℕ
      → Dict Value (List Fields)
      → Value
      → Fields
      → Run K Request (Event Value)
      → Run K Request (Event Value)
  add_entry do_apply idx ipr_entries lladdr entry s =
      if listed lladdr entry ipr_entries
      then note (log_ok lladdr) s
      else request send do_apply (append idx entry) (warning lladdr) (note (log_add lladdr) s)

  unfoldable pub del_entry :
      Bool
      → ℕ
      → Dict Value (List Fields)
      → Value
      → Fields
      → Run K Request (Event Value)
      → Run K Request (Event Value)
  del_entry do_apply idx configured lladdr entry s =
      if listed lladdr entry configured
      then s
      else request send do_apply (del idx entry) (warning lladdr) (note (log_del lladdr) s)

  -- the two loops over the addresses
  unfoldable pub add_entries :
      Bool
      → ℕ
      → Dict Value (List Fields)
      → Value × List Fields
      → Run K Request (Event Value)
      → Run K Request (Event Value)
  add_entries do_apply idx ipr_entries (lladdr, entries) s =
      for_each entries (add_entry do_apply idx ipr_entries lladdr) s

  unfoldable pub del_entries :
      Bool
      → ℕ
      → Value
      → Dict Value (List Fields)
      → Value × List Fields
      → Run K Request (Event Value)
      → Run K Request (Event Value)
  del_entries do_apply idx own configured (lladdr, entries) s =
      let cleaned = for_each entries (del_entry do_apply idx configured lladdr) s in
      if lladdr == own then s else cleaned

  -- the entries of the class, once `state` is set in each
  unfoldable pub complete : Link → Fdb → Dict Value (List Fields)
  complete link c = map (λ p. (p.0, map (with_state (default_state lib link)) p.1)) c.fdb

  unfoldable pub apply_at :
      Bool → Link → Fdb → Run K Request (Event Value) → Run K Request (Event Value)
  unfolding complete
  apply_at do_apply link c s =
      let configured = complete link c in
      let s' =
        for_each configured (add_entries do_apply link.index (get_kernel_fdb link.index s.kernel))
          s in
      for_each (get_kernel_fdb link.index s'.kernel)
        (del_entries do_apply link.index link.address configured) s'

  unfoldable pub apply : Bool → Fdb → Run K Request (Event Value) → Run K Request (Event Value)
  apply do_apply c s = elim (get_link s.kernel c.iface) [
    | none ↦ note link_missing s
    | some link ↦ apply_at do_apply link c s
  ]
