-- ===== src/Apply/Orphans/Sent.antt =====
-- What the loop over the registry asks of the kernel.
use mathlib.Core.List.{append-nil, append_assoc}
use ifstate.Prelude.{
  ◌≡◌, refl, sym, ap, ◌∙◌, Bool, true, not, List, [], ◌∷◌, ◌++◌, ◌==◌, if◌then◌else◌, text_key,
  number_key, arith, inl, inr, Bool-cases,
}
use ifstate.Netlink.{Answer, accepted, note, request, flat_map}
use ifstate.Apply.Orphans.{
  Item, LinkRequest, set_down, del_link, Cleanup, LinkRun, remove_link, free_registry_item,
  is_orphan, cleanup,
}

-- The requests for an orphan: a virtual link goes down and away, a physical one that is not down goes down.
abbrev pub farewell : Item → List LinkRequest
farewell item =
    if item.kind == "physical"
    then (if item.state == "down" then [] else set_down item.netns item.index ∷ [])
    else set_down item.netns item.index ∷ del_link item.netns item.index ∷ []

-- What is left of an item in the registry.
abbrev pub rest_of : Cleanup → Item → List Item
rest_of c item =
    if is_orphan c item
    then (if item.kind == "physical" then record item { orphan = true } ∷ [] else [])
    else item ∷ []

module _ {K : Type 0} (send : LinkRequest → K → Answer × K) where
  module _ (serves : (r : LinkRequest) (k : K) → (send r k).0 ≡ accepted) where
    free-sent :
        (item : Item) (s : LinkRun send)
        → (free_registry_item send true item s).1.sent ≡ s.sent ++ farewell item
    unfolding free_registry_item remove_link note request
    free-sent item s =
        let k = (send (set_down item.netns item.index) s.kernel).1 in
        ground (
          arith,
          serves (set_down item.netns item.index) s.kernel,
          serves (del_link item.netns item.index) k,
          append_assoc s.sent (set_down item.netns item.index ∷ [])
              (del_link item.netns item.index ∷ []),
          append-nil s.sent,
        )

    -- If the kernel accepts every request, the cleanup of a run that applies takes each virtual
    -- orphan down and removes it, takes each physical orphan down that is not, in the order of the
    -- registry, and asks for nothing else.
    pub cleanup-sent :
        (c : Cleanup) (items : List Item) (s : LinkRun send)
        → (cleanup send true c items s).1.sent
          ≡ s.sent ++ flat_map (λ item. if is_orphan c item then farewell item else []) items
    unfolding cleanup
    cleanup-sent c [] s = sym (append-nil s.sent)
    cleanup-sent c (item ∷ items) s = elim (Bool-cases (is_orphan c item)) [
      | inl orphan ↦
          let freed = (free_registry_item send true item s).1 in
          let more = flat_map (λ item. if is_orphan c item then farewell item else []) items in
          rw orphan (
            cleanup-sent c items freed
            ∙ ap (λ l. l ++ more) (free-sent item s)
            ∙ append_assoc s.sent (farewell item) more)
      | inr stays ↦ rw stays (cleanup-sent c items s)
    ]

  free-removed :
      (do_apply : Bool) (item : Item) (s : LinkRun send)
      → (free_registry_item send do_apply item s).0 ≡ not (item.kind == "physical")
  unfolding free_registry_item
  free-removed do_apply item s = ground arith

  -- The cleanup takes exactly the virtual orphans out of the registry, marks the physical ones, and
  -- leaves every other item as it is, whether or not the run applies and whatever the kernel
  -- answers.
  pub cleanup-registry :
      (do_apply : Bool) (c : Cleanup) (items : List Item) (s : LinkRun send)
      → (cleanup send do_apply c items s).0 ≡ flat_map (rest_of c) items
  unfolding cleanup
  cleanup-registry do_apply c [] s = refl
  cleanup-registry do_apply c (item ∷ items) s =
      let s' = if is_orphan c item then (free_registry_item send do_apply item s).1 else s in
      ground (arith, cleanup-registry do_apply c items s', free-removed do_apply item s)
