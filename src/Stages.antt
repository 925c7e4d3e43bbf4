-- ===== src/Stages.antt =====
-- The dependency resolver `dep` of `IfState._stages` in libifstate/__init__.py: it sorts the links into
-- stages that are configured one after the other. The function is generic in the links and their `<`.
mod Graph
mod Rounds
mod Run
pub mod Layers
pub mod Complete
pub mod Cycles
pub mod Tests
use ifstate.Prelude.{
  ℕ, zero, suc, ◌+◌, Bool, true, false, List, [], ◌∷◌, ◌++◌, Comparable, ◌==◌, contains, length,
  union, diff, set_add, not, if◌then◌else◌,
}
use ifstate.Prelude.Dict.{Dict, keys, values}
use ifstate.Prelude.Sort.{sorted}

pub data Outcome {ℓ} (A : Type ℓ) : Type ℓ where
  stages : List (List A) → Outcome A
  circular : Outcome A
  exhausted : Outcome A

module _ {ℓ} {A : Type ℓ} where
  abbrev pub concat : List (List A) → List A
  concat [] = []
  concat (s ∷ r) = s ++ concat r

module _ {ℓ} {A : Type ℓ} ⦃e : Comparable A⦄ where
  -- `d=dict((k, set(arg[k])) for k in arg)`
  unfoldable pub as_sets : Dict A (List A) → Dict A (List A)
  as_sets [] = []
  as_sets ((k, v) ∷ d) = (k, union v []) ∷ as_sets d

  -- `k for k, v in d.items() if not v`
  unfoldable pub leaves : Dict A (List A) → List A
  leaves [] = []
  leaves ((k, []) ∷ d) = k ∷ leaves d
  leaves ((k, x ∷ v) ∷ d) = leaves d

  -- the set `t` of a round: what no remaining key waits for
  unfoldable pub free : Dict A (List A) → List A
  free d = union (leaves d) (diff (union (concat (values d)) []) (keys d))

  -- `d=dict(((k, v-t) for k, v in d.items() if v))`
  unfoldable pub next : List A → Dict A (List A) → Dict A (List A)
  next t [] = []
  next t ((k, []) ∷ d) = next t d
  next t ((k, x ∷ v) ∷ d) = (k, diff (x ∷ v) t) ∷ next t d

  -- the rounds that the `while` loop can take
  unfoldable pub size : Dict A (List A) → ℕ
  size [] = 0
  size ((k, v) ∷ d) = suc (length v) + size d

  module _ (lt : A → A → Bool) (go_on : Bool) where
    -- the `while` loop, on fuel
    unfoldable pub rounds : ℕ → Dict A (List A) → List (List A) → Outcome A
    rounds fuel [] r = stages r
    rounds zero (p ∷ d) r = exhausted
    rounds (suc fuel) (p ∷ d) r = elim (free (p ∷ d)) [
      | [] ↦ if go_on then stages r else circular
      | x ∷ t ↦ rounds fuel (next (x ∷ t) (p ∷ d)) (r ++ sorted lt (x ∷ t) ∷ [])
    ]

    -- `dep(arg)`
    unfoldable pub resolve : Dict A (List A) → Outcome A
    resolve arg = let d = as_sets arg in rounds (size d) d []
