-- ===== src/Stages/Run.antt =====
-- An induction rule for the `while` loop of the resolver. It also shows that the fuel suffices: the rule
-- has no case for a loop that ran out.
use ifstate.Prelude.{
  ℕ, zero, suc, ◌≤◌, ◌<◌, ◌≡◌, ◌≢◌, refl, sym, ◌∙◌, ap, subst, Bool, none, some, List, [], ◌∷◌,
  ◌++◌, arith, Comparable, contains, union, Distinct, beq_self, Distinct-union, Distinct-diff,
  if◌then◌else◌,
}
use mathlib.Core.List.{append-nil, append_assoc}
use native.Mathlib.Nat.{le_refl}
use ifstate.Prelude.Dict.{Dict, keys, values, lookup}
use ifstate.Prelude.Sort.{sorted}
use ifstate.Stages.{
  Outcome, stages, circular, concat, leaves, free, next, size, rounds, as_sets, resolve,
}
use ifstate.Stages.Graph.{contains-free, size-next-lt}
use ifstate.Stages.Rounds.{Inv}

pub concat-snoc {ℓ} :
    {A : Type ℓ} (r : List (List A)) (s : List A) → concat (r ++ s ∷ []) ≡ concat r ++ s
concat-snoc [] s = append-nil s
concat-snoc (t ∷ r) s = rw (concat-snoc r s) (sym (append_assoc t (concat r) s))

module _ {ℓ} {A : Type ℓ} ⦃e : Comparable A⦄ where
  pub Distinct-free : (d : Dict A (List A)) → Distinct (keys d) → Distinct (free d)
  unfolding free
  Distinct-free d u = Distinct-union (leaves d) _ (
      Distinct-diff (union (concat (values d)) []) (keys d)
        (Distinct-union (concat (values d)) [] tt))

  contains-keys-as_sets :
      (k : A) (d : Dict A (List A)) → contains k (keys (as_sets d)) ≡ contains k (keys d)
  unfolding as_sets
  contains-keys-as_sets k [] = refl
  contains-keys-as_sets k ((j, v) ∷ d) = ground (arith, contains-keys-as_sets k d)

  pub Distinct-keys-as_sets :
      (d : Dict A (List A)) → Distinct (keys d) → Distinct (keys (as_sets d))
  unfolding as_sets
  Distinct-keys-as_sets [] u = tt
  Distinct-keys-as_sets ((j, v) ∷ d) u =
      (contains-keys-as_sets j d ∙ u.0, Distinct-keys-as_sets d u.1)

  pub lookup-as_sets :
      (k : A) (d : Dict A (List A))
      → lookup k (as_sets d) ≡ elim (lookup k d) [ none ↦ none | some v ↦ some (union v []) ]
  unfolding as_sets lookup
  lookup-as_sets k [] = refl
  lookup-as_sets k ((j, v) ∷ d) = ground (arith, lookup-as_sets k d)

  pub Inv-start : (g : Dict A (List A)) → Distinct (keys g) → Inv g g []
  Inv-start g u = record {
    distinct = u;
    staged_once = tt;
    pending = λ k v h. (v, h, λ x. ground arith);
    waits = λ k v h. refl;
    done = λ k w h a. cc;
  }

  module _ (lt : A → A → Bool) (go_on : Bool) (P : Dict A (List A) → List (List A) → Type ℓ)
      (Q : Outcome A → Type ℓ) (finish : (r : List (List A)) → P [] r → Q (stages r))
      (stuck : (d : Dict A (List A)) (r : List (List A))
        → P d r
        → d ≢ []
        → free d ≡ []
        → Q (if go_on then stages r else circular))
      (round : (d : Dict A (List A)) (r : List (List A))
        → P d r
        → P (next (free d) d) (r ++ sorted lt (free d) ∷ [])) where
    shrinks :
        (x : A) (t : List A) (d : Dict A (List A)) → free d ≡ x ∷ t → size (next (x ∷ t) d) < size d
    shrinks x t d h =
        size-next-lt x (x ∷ t) d (ground (arith, beq_self x))
          (ground (arith, ap (contains x) h, beq_self x, contains-free x d))

    pub rounds_ind :
        (fuel : ℕ) (d : Dict A (List A)) (r : List (List A))
        → size d ≤ fuel
        → P d r
        → Q (rounds lt go_on fuel d r)
    unfolding rounds
    rounds_ind fuel [] r h p = finish r p
    rounds_ind zero ((k, v) ∷ d) r h p = absurd (unfold size in omega arith)
    rounds_ind (suc fuel) (q ∷ d) r h p = split (free (q ∷ d)) refl (λ d' r'. rounds_ind fuel d' r')
      where
        split :
            (t : List A)
            → free (q ∷ d) ≡ t
            → ((d' : Dict A (List A)) (r' : List (List A))
                → size d' ≤ fuel
                → P d' r'
                → Q (rounds lt go_on fuel d' r'))
            → Q (elim t [
              | [] ↦ if go_on then stages r else circular
              | x ∷ t' ↦ rounds lt go_on fuel (next (x ∷ t') (q ∷ d)) (r ++ sorted lt (x ∷ t') ∷ [])
            ])
        split [] same ih = stuck (q ∷ d) r p (λ c. cc) same
        split (x ∷ t') same ih =
            ih (next (x ∷ t') (q ∷ d)) (r ++ sorted lt (x ∷ t') ∷ [])
              (omega (arith, shrinks x t' (q ∷ d) same))
              (subst (λ s. P (next s (q ∷ d)) (r ++ sorted lt s ∷ [])) same (round (q ∷ d) r p))

    pub resolve_ind : (g : Dict A (List A)) → P (as_sets g) [] → Q (resolve lt go_on g)
    unfolding resolve
    resolve_ind g p = rounds_ind (size (as_sets g)) (as_sets g) [] (le_refl _) p
