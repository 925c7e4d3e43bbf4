-- ===== src/Tc/Filters.antt =====
-- `apply_filter` of libifstate/tc/__init__.py.
pub mod Removal
use ifstate.Prelude.{
  ℕ, zero, suc, ◌+◌, ◌-◌, ◌*◌, ◌/◌, ◌^◌, String, Bool, true, false, not, ◌||◌, ◌&&◌, Option, none,
  some, List, [], ◌∷◌, ◌++◌, Comparable, ◌==◌, if◌then◌else◌, number_key, text_key, contains,
  length, map,
}
use ifstate.Prelude.Dict.{Dict, lookup, insert, has, values}
use ifstate.Value.{Value, num}
use ifstate.Netlink.{Answer, accepted, refused, for_each, warning, note}
use ifstate.Collector.{Task, add_excpt}
use ifstate.Tc.{
  Action, Filter, Request, del_filter, replace_filter, add_filter, Tasks, attempt_warn,
}
use ifstate.Tc.Handle.{handle2int}

-- A filter of the kernel: `info`, and `parent` if it has one.
pub record KernelFilter : Type 0 where
  pub info : ℕ
  pub parent : Option Value

-- `handle2int(f.get("parent", 0))`. A parent that cannot be read raises an exception in the source.
unfoldable pub parent_of : Option Value → ℕ
parent_of none = 0
parent_of (some v) = elim (handle2int v) [ none ↦ 0 | some n ↦ n ]

abbrev pub Filters : Type 0
Filters = Dict ℕ (Dict ℕ Filter)

-- `tc[i]["prio"]`, counted up to 0xc000 where it is missing; `n` is the length of the list
unfoldable pub prio_of : ℕ → ℕ → Filter → ℕ
prio_of n i f = elim f.prio [ none ↦ 49153 + i - n | some p ↦ p ]

-- the loop that fills `tc_filters`
unfoldable pub by_parent : ℕ → ℕ → List Filter → Filters → Filters
unfolding parent_of prio_of
by_parent n i [] d = d
by_parent n i (f ∷ fs) d =
    let p = prio_of n i f in
    let parent = parent_of f.parent in
    let old : Dict ℕ Filter = elim (lookup parent d) [ none ↦ [] | some fs' ↦ fs' ] in
    by_parent n (suc i) fs (insert parent (insert p (record f { prio = some p }) old) d)

unfoldable pub filters_of : List Filter → Filters
unfolding by_parent
filters_of tc = by_parent (length tc) 0 tc []

-- `not parent in tc_filters or prio not in tc_filters[parent]`
unfoldable pub unreferenced : Filters → ℕ → ℕ → Bool
unreferenced d parent prio = elim (lookup parent d) [ none ↦ true | some fs ↦ not (has prio fs) ]

-- `removed.get(parent, [])` and the append
unfoldable pub removed_of : ℕ → Dict ℕ (List ℕ) → List ℕ
removed_of parent removed = elim (lookup parent removed) [ none ↦ [] | some ps ↦ ps ]

module _ {K : Type 0} (send : Request → K → Answer × K) (idx : ℕ) where
  abbrev pub Removing : Type 0
  Removing = Dict ℕ (List ℕ) × Bool × Tasks send

  -- the body of the loop over the kernel's filters
  unfoldable pub remove_filter : Bool → Filters → KernelFilter → Removing → Removing
  unfolding unreferenced removed_of parent_of
  remove_filter do_apply d f (removed, changes, t) =
      let prio = f.info / 2 ^ 16 in
      let parent = parent_of f.parent in
      let old = removed_of parent removed in
      if unreferenced d parent prio && not (contains prio old)
      then (
        insert parent (old ++ prio ∷ []) removed,
        true,
        if do_apply then attempt_warn send "del" (del_filter idx f.info parent) t else t,
      )
      else (removed, changes, t)

  -- the interface index of a `mirred` action
  unfoldable pub resolve_action : (K → String → Option ℕ) → K → Action → Action
  resolve_action link_lookup k a =
      if a.kind == "mirred" then record a { ifindex = link_lookup k a.dev } else a

  unfoldable pub resolve_filter : (K → String → Option ℕ) → K → Filter → Filter
  unfolding resolve_action parent_of
  resolve_filter link_lookup k f = record f {
    index = some idx;
    actions = map (resolve_action link_lookup k) f.actions;
    parent = elim f.parent [ none ↦ none | some v ↦ some (num (parent_of (some v))) ];
  }

  -- `replace-filter`, or else a removal and `add-filter`. An error of the latter two is collected.
  unfoldable pub replace_one : ℕ → Filter → Bool × Tasks send → Bool × Tasks send
  replace_one parent f (changes, t) =
      let (answer, k) = send (replace_filter f) t.run.kernel in
      let t1 : Tasks send = record t {
        run = record t.run { kernel = k; sent = t.run.sent ++ replace_filter f ∷ [] };
      } in
      let del' =
        del_filter idx (elim f.prio as (λ _. ℕ) [ none ↦ 0 | some p ↦ p * 2 ^ 16 ]) parent in
      let (answer', k') = send del' t1.run.kernel in
      let t2 : Tasks send = record t1 {
        run = record t1.run { kernel = k'; sent = t1.run.sent ++ del' ∷ [] };
      } in
      elim answer [
        | accepted ↦ (true, t1)
        | refused code ↦ elim answer' [
          | accepted ↦ (changes, attempt_warn send "replace" (add_filter f) t2)
          | refused code' ↦ (
            changes,
            add_excpt "replace" (some code') (replace_filter f)
                (record t2 { run = note (warning (replace_filter f)) t2.run }),
          )
        ]
      ]

  unfoldable pub replace_parent :
      (K → String → Option ℕ) → ℕ × Dict ℕ Filter → Bool × Tasks send → Bool × Tasks send
  unfolding resolve_filter replace_one
  replace_parent link_lookup (parent, fs) st =
      for_each (values fs)
        (λ f st. replace_one parent (resolve_filter link_lookup st.1.run.kernel f) st) st

  unfoldable pub apply_filter :
      (K → String → Option ℕ)
      → List Filter
      → List KernelFilter
      → Bool
      → Tasks send
      → Bool × Tasks send
  unfolding filters_of remove_filter replace_parent
  apply_filter link_lookup tc ipr_filters do_apply t =
      let d = filters_of tc in
      let (removed, changes, t') = for_each ipr_filters (remove_filter do_apply d) ([], false, t) in
      let replaced = for_each d (replace_parent link_lookup) (changes, t') in
      if do_apply then replaced else (changes, t')
