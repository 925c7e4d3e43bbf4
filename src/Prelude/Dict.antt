-- ===== src/Prelude/Dict.antt =====
-- Python's dictionaries: association lists in insertion order, at most one entry for a key.
use mathlib.Core.Path.{◌≡◌, refl}
use mathlib.Core.Bool.{Bool}
use mathlib.Core.Bool.{◌||◌}
use mathlib.Core.Option.{Option, none, some}
use mathlib.Core.List.{List, [], ◌∷◌}
use native.Mathlib.Omega.{arith}
use ifstate.Prelude.Tests.{if◌then◌else◌, is_some}
use ifstate.Prelude.Keys.{Comparable, ◌==◌, contains}
use ifstate.Prelude.Sets.{Distinct}

abbrev pub Dict {ℓ κ} : Type ℓ → Type κ → Type (ℓ ⊔ κ)
Dict K V = List (K × V)

module _ {ℓ κ} {K : Type ℓ} {V : Type κ} where
  abbrev pub keys : Dict K V → List K
  keys [] = []
  keys ((k, v) ∷ d) = k ∷ keys d

  abbrev pub values : Dict K V → List V
  values [] = []
  values ((k, v) ∷ d) = v ∷ values d

module _ {ℓ κ} {K : Type ℓ} {V : Type κ} ⦃e : Comparable K⦄ where
  -- `d.get(k)`
  unfoldable pub lookup : K → Dict K V → Option V
  lookup k [] = none
  lookup k ((j, v) ∷ d) = if j == k then some v else lookup k d

  -- `k in d`
  abbrev pub has : K → Dict K V → Bool
  has k d = is_some (lookup k d)

  -- `d[k] = v`: in place, or at the end
  unfoldable pub insert : K → V → Dict K V → Dict K V
  insert k v [] = (k, v) ∷ []
  insert k v ((j, w) ∷ d) = if j == k then (j, v) ∷ d else (j, w) ∷ insert k v d

  -- `del d[k]`
  unfoldable pub delete : K → Dict K V → Dict K V
  delete k [] = []
  delete k ((j, w) ∷ d) = let rest = delete k d in if j == k then rest else (j, w) ∷ rest

  pub lookup-insert :
      (k j : K) (v : V) (d : Dict K V)
      → lookup j (insert k v d) ≡ (if k == j then some v else lookup j d)
  unfolding lookup insert
  lookup-insert k j v [] = refl
  lookup-insert k j v ((i, w) ∷ d) =
      ground (arith, e.same_iff k j, e.same_iff i k, e.same_iff i j, lookup-insert k j v d)

  pub lookup-delete :
      (k j : K) (d : Dict K V) → lookup j (delete k d) ≡ (if k == j then none else lookup j d)
  unfolding lookup delete
  lookup-delete k j [] = ground arith
  lookup-delete k j ((i, w) ∷ d) =
      ground (arith, e.same_iff k j, e.same_iff i k, e.same_iff i j, lookup-delete k j d)

  pub contains-keys-insert :
      (j k : K) (v : V) (d : Dict K V)
      → contains j (keys (insert k v d)) ≡ ((k == j) || contains j (keys d))
  unfolding insert
  contains-keys-insert j k v [] = refl
  contains-keys-insert j k v ((i, w) ∷ d) =
      ground (arith, contains-keys-insert j k v d, e.same_iff i k, e.same_iff i j, e.same_iff k j)

  pub Distinct-keys-insert :
      (k : K) (v : V) (d : Dict K V) → Distinct (keys d) → Distinct (keys (insert k v d))
  unfolding insert
  Distinct-keys-insert k v [] u = (refl, tt)
  Distinct-keys-insert k v ((j, w) ∷ d) u = ground (
    arith,
    contains-keys-insert j k v d,
    e.same_iff j k,
    e.same_iff k j,
    Distinct-keys-insert k v d u.1,
  )

  pub has-keys : (k : K) (d : Dict K V) → has k d ≡ contains k (keys d)
  unfolding lookup
  has-keys k [] = refl
  has-keys k ((j, v) ∷ d) = ground (arith, has-keys k d)

  -- A dictionary filled from a list of pairs, a later pair over an earlier one.
  unfoldable pub from_pairs : List (K × V) → Dict K V → Dict K V
  from_pairs [] d = d
  from_pairs ((k, v) ∷ ps) d = from_pairs ps (insert k v d)

  pub Distinct-keys-from_pairs :
      (ps : List (K × V)) (d : Dict K V) → Distinct (keys d) → Distinct (keys (from_pairs ps d))
  unfolding from_pairs
  Distinct-keys-from_pairs [] d u = u
  Distinct-keys-from_pairs ((k, v) ∷ ps) d u =
      Distinct-keys-from_pairs ps (insert k v d) (Distinct-keys-insert k v d u)

  pub eq_nil_of_lookup : (d : Dict K V) → ((k : K) → lookup k d ≡ none) → d ≡ []
  unfolding lookup
  eq_nil_of_lookup [] h = refl
  eq_nil_of_lookup ((k, v) ∷ d) h = ground (arith, h k, e.same_iff k k)

pub lookup-nil {ℓ κ} :
    {K : Type ℓ} (V : Type κ) ⦃e : Comparable K⦄ (k : K) → lookup {V = V} k [] ≡ none
unfolding lookup
lookup-nil V k = refl
