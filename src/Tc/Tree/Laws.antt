-- ===== src/Tc/Tree/Laws.antt =====
-- What `apply_qtree` does with the children of a qdisc.
use ifstate.Prelude.{
  ℕ, suc, ◌≡◌, refl, ◌∙◌, ap, Bool, true, false, Option, none, some, List, [], ◌∷◌, ◌++◌, arith,
  inl, inr, bit_or, ◌⊎◌, String,
}
use ifstate.Value.{Fields}
use ifstate.Netlink.{Answer, note}
use ifstate.Collector.{add_excpt}
use ifstate.Tc.{Request, Tasks, attempt_warn, change_qdisc}
use ifstate.Tc.Tree.{
  Qdisc, node, Qdiscs, leaf, child, KernelQdisc, get_qchild, handle_of, differs, needs_recreate,
  options, apply_qdisc, apply_qtree, apply_children,
}

either : (b : Bool) → (b ≡ false) ⊎ (b ≡ true)
either true = inr refl
either false = inl refl

module _ {K : Type 0} (send : Request → K → Answer × K) (idx : ℕ) where
  -- A dry run changes nothing.
  mutual
    unfolding apply_qtree

    pub dry_qtree :
        (q : Qdisc) (k : Option KernelQdisc) (ks : List KernelQdisc) (parent : ℕ) (recreate : Bool)
        (t : Tasks send)
        → (apply_qtree send idx q k ks parent false recreate t).1 ≡ t
    dry_qtree (node tc children) k ks parent recreate t =
        dry_children children 1 tc k ks (needs_recreate recreate tc k)
          (needs_recreate recreate tc k) t (either (needs_recreate recreate tc k))

    dry_children :
        (qs : Qdiscs) (i : ℕ) (tc : Fields) (k : Option KernelQdisc) (ks : List KernelQdisc)
        (recreate changes : Bool) (t : Tasks send)
        → (recreate ≡ false) ⊎ (changes ≡ true)
        → (apply_children send idx qs i tc k ks recreate changes t).1 ≡ t
    dry_children leaf i tc k ks recreate changes t h = refl
    dry_children (child q rest) i tc k ks recreate true t h =
        dry_children rest (suc i) tc k ks recreate true t (inr refl)
    dry_children (child q rest) i tc k ks true false t (inl e) = cc
    dry_children (child q rest) i tc k ks true false t (inr e) = cc
    dry_children (child q rest) i tc k ks false false t h =
        let slot : Option KernelQdisc = elim k [
          | none ↦ none
          | some p ↦ get_qchild ks p.handle i
        ] in
        let tried = apply_qtree send idx q slot ks (bit_or (handle_of tc) i) false false t in
        dry_children rest (suc i) tc k ks false tried.0 tried.1 (inl refl)
        ∙ dry_qtree q slot ks (bit_or (handle_of tc) i) false t

  -- What apply_qtree does to the kernel, the log and the collector is what it does for the tree
  -- without the children, whether or not the run applies.
  pub apply_qtree_root :
      (tc : Fields) (children : Qdiscs) (k : Option KernelQdisc) (ks : List KernelQdisc)
      (parent : ℕ) (do_apply recreate : Bool) (t : Tasks send)
      → (apply_qtree send idx (node tc children) k ks parent do_apply recreate t).1
        ≡ (apply_qtree send idx (node tc leaf) k ks parent do_apply recreate t).1
  unfolding apply_qtree
  apply_qtree_root tc children k ks parent do_apply recreate t =
      let again = needs_recreate recreate tc k in
      dry_children children 1 tc k ks again again
        (apply_qdisc send idx do_apply again tc k parent t) (either again)

  pub attempt_warn-sent :
      (op : String) (r : Request) (t : Tasks send)
      → (attempt_warn send op r t).run.sent ≡ t.run.sent ++ r ∷ []
  unfolding attempt_warn add_excpt note
  attempt_warn-sent op r t = ground arith

  -- If the qdisc of the kernel has the kind and the handle that are configured, a run that applies
  -- sends exactly one request for the configured tree, a change of its root, also if the tree has
  -- children.
  pub apply_qtree_change :
      (tc : Fields) (children : Qdiscs) (k : KernelQdisc) (ks : List KernelQdisc) (parent : ℕ)
      (t : Tasks send)
      → differs tc k ≡ false
      → (apply_qtree send idx (node tc children) (some k) ks parent true false t).1.run.sent
        ≡ t.run.sent ++ change_qdisc (options idx parent tc) ∷ []
  unfolding apply_qtree apply_qdisc needs_recreate
  apply_qtree_change tc children k ks parent t same =
      ap (λ (u : Tasks send). u.run.sent)
        (apply_qtree_root tc children (some k) ks parent true false t)
      ∙ ground (arith, attempt_warn-sent "change" (change_qdisc (options idx parent tc)) t)
