-- ===== src/Stages/Complete.antt =====
-- Which links the resolver stages.
use ifstate.Prelude.{
  ◌≡◌, refl, ap, subst, inl, inr, ◌↔◌, Bool, true, false, List, [], arith, Comparable, contains,
  union, Distinct, contains-union, Option-cases,
}
use ifstate.Prelude.Dict.{Dict, keys, lookup}
use ifstate.Stages.{Outcome, stages, concat, as_sets, resolve}
use ifstate.Stages.Rounds.{Inv}
use ifstate.Stages.Run.{lookup-as_sets}
use ifstate.Stages.Layers.{
  DependsOn, IsNode, Ending, complete, blocked, resolve-Ending, resolve-Built,
}

module _ {ℓ} {A : Type ℓ} ⦃e : Comparable A⦄ where
  pub DependsOn-of_as_sets :
      (g : Dict A (List A)) (x y : A) → DependsOn (as_sets g) x y → DependsOn g x y
  DependsOn-of_as_sets g x y (w, found, m) = elim (Option-cases (lookup x g)) [
    | inl absent ↦ cc (lookup-as_sets x g)
    | inr (v, old) ↦
        let same : union v [] ≡ w = cc (lookup-as_sets x g) in
        (v, old, ground (arith, contains-union y v [], ap (contains y) same))
  ]

  IsNode-of_as_sets : (g : Dict A (List A)) (x : A) → IsNode (as_sets g) x → IsNode g x
  IsNode-of_as_sets g x (inl (w, found)) = elim (Option-cases (lookup x g)) [
    | inl absent ↦ cc (lookup-as_sets x g)
    | inr (v, old) ↦ inl (v, old)
  ]
  IsNode-of_as_sets g x (inr (k, d)) = inr (k, DependsOn-of_as_sets g k x d)

  IsNode-as_sets : (g : Dict A (List A)) (x : A) → IsNode g x → IsNode (as_sets g) x
  IsNode-as_sets g x (inl (w, found)) = inl (union w [], cc (lookup-as_sets x g))
  IsNode-as_sets g x (inr (k, (w, found, m))) =
      inr (k, (union w [], cc (lookup-as_sets k g), ground (arith, contains-union x w [])))

  staged_of_node :
      (g : Dict A (List A)) (seen : List A)
      → Inv g [] seen
      → (x : A) → IsNode g x
      → contains x seen ≡ true
  staged_of_node g seen inv x (inl (w, found)) = (inv.done x w found (unfold lookup in refl)).0
  staged_of_node g seen inv x (inr (k, (w, found, m))) =
      (inv.done k w found (unfold lookup in refl)).1 x m

  module _ (lt : A → A → Bool) (g : Dict A (List A)) (u : Distinct (keys g)) where
    Ending-complete :
        {r : List (List A)} {o : Outcome A}
        → Ending lt false (as_sets g) o
        → o ≡ stages r
        → Inv (as_sets g) [] (concat r)
    Ending-complete {r} (complete r' b) p =
        subst (λ l. Inv (as_sets g) [] (concat l)) (stages-injective p) b.inv
      where
        stages-injective : stages r' ≡ stages r → r' ≡ r
        stages-injective q = cc
    Ending-complete (blocked d r' b some_left idle) p = cc

    -- If the resolver returns stages in the strict mode (a check) for a dictionary with distinct
    -- keys, they hold the keys of the dictionary and their dependencies, and nothing else.
    pub resolve_complete :
        (r : List (List A)) (x : A)
        → resolve lt false g ≡ stages r
        → (contains x (concat r) ≡ true) ↔ IsNode g x
    resolve_complete r x h =
        let (d, b) = resolve-Built lt false g u h in
        (
          λ m. IsNode-of_as_sets g x (b.known x m),
          λ n.
              staged_of_node (as_sets g) (concat r)
                (Ending-complete
                  (subst (Ending lt false (as_sets g)) h (resolve-Ending lt false g u)) refl)
                x (IsNode-as_sets g x n),
        )
