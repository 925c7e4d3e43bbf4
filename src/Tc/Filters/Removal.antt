-- ===== src/Tc/Filters/Removal.antt =====
-- Which filters `apply_filter` removes.
use ifstate.Prelude.{
  ℕ, ◌/◌, ◌^◌, ◌≡◌, refl, sym, ap, subst, ◌∙◌, Bool, true, false, not, ◌||◌, ◌&&◌, List, [], ◌∷◌,
  ◌++◌, ◌==◌, if◌then◌else◌, number_key, text_key, pair_key, contains, contains-append, any, arith,
  Distinct, Distinct-append, inl, inr, Bool-cases,
}
use ifstate.Prelude.Dict.{Dict, lookup, insert, lookup-insert}
use ifstate.Netlink.{Answer, for_each}
use ifstate.Tc.{
  Request, del_qdisc, add_ingress, add_qdisc, change_qdisc, del_filter, replace_filter, add_filter,
  Tasks,
}
use ifstate.Tc.Tree.Laws.{attempt_warn-sent}
use ifstate.Tc.Filters.{
  KernelFilter, parent_of, Filters, unreferenced, removed_of, remove_filter, Removing,
}

-- The pairs of a parent and a priority that are removed.
abbrev pub removals : List Request → List (ℕ × ℕ)
removals [] = []
removals (del_filter i info parent ∷ rs) = (parent, info / 2 ^ 16) ∷ removals rs
removals (del_qdisc i p ∷ rs) = removals rs
removals (add_ingress i ∷ rs) = removals rs
removals (add_qdisc f ∷ rs) = removals rs
removals (change_qdisc f ∷ rs) = removals rs
removals (replace_filter f ∷ rs) = removals rs
removals (add_filter f ∷ rs) = removals rs

removals-append : (rs ss : List Request) → removals (rs ++ ss) ≡ removals rs ++ removals ss
removals-append [] ss = refl
removals-append (del_filter i info parent ∷ rs) ss =
    ap (λ l. (parent, info / 2 ^ 16) ∷ l) (removals-append rs ss)
removals-append (del_qdisc i p ∷ rs) ss = removals-append rs ss
removals-append (add_ingress i ∷ rs) ss = removals-append rs ss
removals-append (add_qdisc f ∷ rs) ss = removals-append rs ss
removals-append (change_qdisc f ∷ rs) ss = removals-append rs ss
removals-append (replace_filter f ∷ rs) ss = removals-append rs ss
removals-append (add_filter f ∷ rs) ss = removals-append rs ss

-- A filter of the kernel with that parent and that priority.
abbrev pub has_filter : ℕ → ℕ → List KernelFilter → Bool
has_filter parent prio fs =
    any (λ f. (parent_of f.parent == parent) && (f.info / 2 ^ 16 == prio)) fs

removed_of-insert :
    (p q : ℕ) (ps : List ℕ) (d : Dict ℕ (List ℕ))
    → removed_of q (insert p ps d) ≡ (if p == q then ps else removed_of q d)
unfolding removed_of
removed_of-insert p q ps d = elim (Bool-cases (p == q)) [
  | inl same ↦ rw (lookup-insert p q ps d, removed_of) (rw same refl)
  | inr differs ↦ rw (lookup-insert p q ps d, removed_of) (rw differs refl)
]

module _ {K : Type 0} (send : Request → K → Answer × K) (idx : ℕ) (d : Filters) where
  -- `removed` lists what has been removed.
  abbrev Tracks : Removing send idx → Type 0
  Tracks (removed, changes, t) =
      (parent prio : ℕ)
      → contains prio (removed_of parent removed) ≡ contains (parent, prio) (removals t.run.sent)

  abbrev step : KernelFilter → Removing send idx → Removing send idx
  step f st = remove_filter send idx true d f st

  abbrev goes : KernelFilter → Removing send idx → Bool
  goes f (removed, changes, t) =
      unreferenced d (parent_of f.parent) (f.info / 2 ^ 16)
      && not (contains (f.info / 2 ^ 16) (removed_of (parent_of f.parent) removed))

  removals-step :
      (f : KernelFilter) (st : Removing send idx)
      → removals (step f st).2.run.sent ≡ (
          if goes f st
          then removals st.2.run.sent ++ (parent_of f.parent, f.info / 2 ^ 16) ∷ []
          else removals st.2.run.sent)
  unfolding remove_filter
  removals-step f (removed, changes, t) =
      let r = del_filter idx f.info (parent_of f.parent) in
      ground (
        arith,
        ap removals (attempt_warn-sent send idx "del" r t),
        removals-append t.run.sent (r ∷ []),
      )

  removed_after :
      (f : KernelFilter) (st : Removing send idx) (parent : ℕ)
      → removed_of parent (step f st).0 ≡ (
          if goes f st
          then (if parent_of f.parent == parent
              then removed_of (parent_of f.parent) st.0 ++ (f.info / 2 ^ 16) ∷ []
              else removed_of parent st.0)
          else removed_of parent st.0)
  unfolding remove_filter
  removed_after f (removed, changes, t) parent = ground (
    arith,
    removed_of-insert (parent_of f.parent) parent
        (removed_of (parent_of f.parent) removed ++ (f.info / 2 ^ 16) ∷ []) removed,
  )

  removed_self :
      (f : KernelFilter) (st : Removing send idx)
      → Tracks st
      → let here : ℕ × ℕ = (parent_of f.parent, f.info / 2 ^ 16) in
        contains here (removals (step f st).2.run.sent) ≡ (
          contains here (removals st.2.run.sent)
          || unreferenced d (parent_of f.parent) (f.info / 2 ^ 16))
  removed_self f (removed, changes, t) tracks =
      let parent = parent_of f.parent in
      let prio = f.info / 2 ^ 16 in
      ground (
        arith,
        ap (contains (parent, prio)) (removals-step f (removed, changes, t)),
        contains-append (parent, prio) (removals t.run.sent) ((parent, prio) ∷ []),
        tracks parent prio,
      )

  removed_one :
      (f : KernelFilter) (st : Removing send idx) (parent prio : ℕ)
      → Tracks st
      → contains (parent, prio) (removals (step f st).2.run.sent) ≡ (
          contains (parent, prio) (removals st.2.run.sent)
          || (unreferenced d parent prio
              && ((parent_of f.parent == parent) && (f.info / 2 ^ 16 == prio))))
  removed_one f (removed, changes, t) parent prio tracks =
      elim (Bool-cases ((parent_of f.parent == parent) && (f.info / 2 ^ 16 == prio))) [
        | inl same ↦
            let at' : parent_of f.parent ≡ parent = ground arith in
            let with' : f.info / 2 ^ 16 ≡ prio = ground arith in
            ground (arith, removed_self f (removed, changes, t) tracks)
        | inr differs ↦ ground (
          arith,
          ap (contains (parent, prio)) (removals-step f (removed, changes, t)),
          contains-append (parent, prio) (removals t.run.sent)
              ((parent_of f.parent, f.info / 2 ^ 16) ∷ []),
        )
      ]

  step-Tracks : (f : KernelFilter) (st : Removing send idx) → Tracks st → Tracks (step f st)
  step-Tracks f (removed, changes, t) tracks parent prio =
      let own = parent_of f.parent in
      let number = f.info / 2 ^ 16 in
      ground (
        arith,
        ap (contains prio) (removed_after f (removed, changes, t) parent),
        ap (contains (parent, prio)) (removals-step f (removed, changes, t)),
        contains-append prio (removed_of own removed) (number ∷ []),
        contains-append (parent, prio) (removals t.run.sent) ((own, number) ∷ []),
        tracks parent prio,
        tracks own prio,
      )

  step-Distinct :
      (f : KernelFilter) (st : Removing send idx)
      → Tracks st
      → Distinct (removals st.2.run.sent)
      → Distinct (removals (step f st).2.run.sent)
  step-Distinct f (removed, changes, t) tracks dist =
      let own = parent_of f.parent in
      let number = f.info / 2 ^ 16 in
      let e = removals-step f (removed, changes, t) in
      elim (Bool-cases (goes f (removed, changes, t))) [
        | inl go ↦ subst Distinct (sym (e ∙ rw go refl)) (
            Distinct-append (removals t.run.sent) ((own, number) ∷ []) dist (refl, tt)
              (λ (p, q) m. ground (arith, tracks own number)))
        | inr stay ↦ subst Distinct (sym (e ∙ rw stay refl)) dist
      ]

  loop_removals :
      (fs : List KernelFilter) (st : Removing send idx) (parent prio : ℕ)
      → Tracks st
      → contains
          (parent, prio)
          (removals (for_each fs (remove_filter send idx true d) st).2.run.sent)
        ≡ (contains (parent, prio) (removals st.2.run.sent)
            || (unreferenced d parent prio && has_filter parent prio fs))
  unfolding for_each
  loop_removals [] st parent prio tracks = ground arith
  loop_removals (f ∷ fs) st parent prio tracks = ground (
    arith,
    loop_removals fs (step f st) parent prio (step-Tracks f st tracks),
    removed_one f st parent prio tracks,
  )

  loop-Distinct :
      (fs : List KernelFilter) (st : Removing send idx)
      → Tracks st
      → Distinct (removals st.2.run.sent)
      → Distinct (removals (for_each fs (remove_filter send idx true d) st).2.run.sent)
  unfolding for_each
  loop-Distinct [] st tracks dist = dist
  loop-Distinct (f ∷ fs) st tracks dist =
      loop-Distinct fs (step f st) (step-Tracks f st tracks) (step-Distinct f st tracks dist)

  -- If nothing was sent before, the loop over the filters of the kernel of a run that applies asks
  -- for the removal of a pair of a parent and a priority exactly when the kernel has a filter with
  -- them and the configuration has none, and asks once for each pair.
  pub remove_filter-removals :
      (fs : List KernelFilter) (t : Tasks send) (parent prio : ℕ)
      → t.run.sent ≡ []
      → let sent = (for_each fs (remove_filter send idx true d) ([], false, t)).2.run.sent in
        (contains (parent, prio) (removals sent)
          ≡ (unreferenced d parent prio && has_filter parent prio fs))
        × Distinct (removals sent)
  unfolding removed_of lookup
  remove_filter-removals fs t parent prio new =
      let tracks : Tracks ([], false, t) =
        λ p q. ap (λ l. contains (p, q) (removals l)) (sym new) in
      (
        loop_removals fs ([], false, t) parent prio tracks ∙ rw new refl,
        loop-Distinct fs ([], false, t) tracks (rw new tt),
      )
