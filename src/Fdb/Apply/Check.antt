-- ===== src/Fdb/Apply/Check.antt =====
-- A check of the forwarding database.
use ifstate.Prelude.{ℕ, ◌≡◌, refl, ◌∙◌, false, List, arith, Option-cases, inl, inr}
use ifstate.Prelude.Dict.{Dict}
use ifstate.Value.{Value, Fields}
use ifstate.Netlink.{Run, Event, note, request, for_each-kernel}
use ifstate.Fdb.{Library, Link, Request, Host, Fdb}
use ifstate.Fdb.Apply.{add_entry, del_entry, add_entries, del_entries, apply_at, apply}

module _ {K : Type 0} (lib : Library) (host : Host K) where
  add_dry :
      (idx : ℕ) (d : Dict Value (List Fields)) (lladdr : Value) (entry : Fields)
      (s : Run K Request (Event Value))
      → (add_entry lib host false idx d lladdr entry s).kernel ≡ s.kernel
  unfolding add_entry request note
  add_dry idx d lladdr entry s = ground arith

  del_dry :
      (idx : ℕ) (d : Dict Value (List Fields)) (lladdr : Value) (entry : Fields)
      (s : Run K Request (Event Value))
      → (del_entry lib host false idx d lladdr entry s).kernel ≡ s.kernel
  unfolding del_entry request note
  del_dry idx d lladdr entry s = ground arith

  adds_dry :
      (idx : ℕ) (d : Dict Value (List Fields)) (p : Value × List Fields)
      (s : Run K Request (Event Value))
      → (add_entries lib host false idx d p s).kernel ≡ s.kernel
  unfolding add_entries
  adds_dry idx d (lladdr, entries) s = for_each-kernel _ (add_dry idx d lladdr) entries s

  dels_dry :
      (idx : ℕ) (own : Value) (d : Dict Value (List Fields)) (p : Value × List Fields)
      (s : Run K Request (Event Value))
      → (del_entries lib host false idx own d p s).kernel ≡ s.kernel
  unfolding del_entries
  dels_dry idx own d (lladdr, entries) s = ground (
    arith,
    for_each-kernel (del_entry lib host false idx d lladdr) (del_dry idx d lladdr) entries s,
  )

  at_dry :
      (link : Link) (c : Fdb) (s : Run K Request (Event Value))
      → (apply_at lib host false link c s).kernel ≡ s.kernel
  unfolding apply_at
  at_dry link c s =
      for_each-kernel _ (dels_dry link.index link.address _) _ _
      ∙ for_each-kernel _ (adds_dry link.index _) _ s

  -- A check leaves the kernel as it was.
  pub apply-dry :
      (c : Fdb) (s : Run K Request (Event Value)) → (apply lib host false c s).kernel ≡ s.kernel
  unfolding apply note
  apply-dry c s = elim (Option-cases (host.get_link s.kernel c.iface)) [
    | inl missing ↦ rw (missing, apply) refl
    | inr (link, found) ↦ rw (found, apply) (at_dry link c s)
  ]
