-- ===== src/Stages/Graph.antt =====
-- The sets that a round of the resolver reads and leaves.
use ifstate.Prelude.{
  ◌≤◌, ◌<◌, ◌≡◌, refl, inl, inr, true, false, ◌&&◌, ◌||◌, not, none, some, List, [], ◌∷◌, arith,
  Comparable, ◌==◌, contains, length, union, diff, Distinct, beq_self, contains-append,
  contains-union, contains-diff, length-filter-le, Bool-cases,
}
use ifstate.Prelude.Dict.{Dict, keys, values, lookup}
use ifstate.Stages.{concat, leaves, free, next, size}

module _ {ℓ} {A : Type ℓ} ⦃e : Comparable A⦄ where
  pub contains-keys :
      (k : A) (d : Dict A (List A))
      → contains k (keys d) ≡ true
      → (v : List A) × (lookup k d ≡ some v)
  unfolding lookup
  contains-keys k [] h = cc
  contains-keys k ((j, v) ∷ d) h = elim (Bool-cases (j == k)) [
    | inl here ↦ (v, rw here)
    | inr other ↦ let (w, found) = contains-keys k d (ground arith) in (w, rw (other, found))
  ]

  pub keys_of_lookup :
      (k : A) (d : Dict A (List A)) (v : List A) → lookup k d ≡ some v → contains k (keys d) ≡ true
  unfolding lookup
  keys_of_lookup k [] v h = cc
  keys_of_lookup k ((j, w) ∷ d) v h = ground (arith, keys_of_lookup k d v)

  pub lookup-none : (k : A) (d : Dict A (List A)) → contains k (keys d) ≡ false → lookup k d ≡ none
  unfolding lookup
  lookup-none k [] h = refl
  lookup-none k ((j, w) ∷ d) h = ground (arith, lookup-none k d)

  pub leaves_iff :
      (k : A) (d : Dict A (List A))
      → Distinct (keys d)
      → contains k (leaves d) ≡ true
      → lookup k d ≡ some []
  unfolding lookup leaves
  leaves_iff k [] u h = cc
  leaves_iff k ((j, []) ∷ d) u h = ground (arith, leaves_iff k d u.1)
  leaves_iff k ((j, x ∷ v) ∷ d) u h =
      ground (arith, leaves_iff k d u.1, keys_of_lookup k d [], e.same_iff j k)

  pub leaves_of_lookup :
      (k : A) (d : Dict A (List A)) → lookup k d ≡ some [] → contains k (leaves d) ≡ true
  unfolding lookup leaves
  leaves_of_lookup k [] h = cc
  leaves_of_lookup k ((j, []) ∷ d) h = ground (arith, leaves_of_lookup k d)
  leaves_of_lookup k ((j, x ∷ v) ∷ d) h = ground (arith, leaves_of_lookup k d)

  pub lookup-next :
      (t : List A) (k : A) (d : Dict A (List A))
      → Distinct (keys d)
      → lookup k (next t d)
        ≡ elim (lookup k d) [ none ↦ none | some [] ↦ none | some (x ∷ v) ↦ some (diff (x ∷ v) t) ]
  unfolding lookup next
  lookup-next t k [] u = refl
  lookup-next t k ((j, []) ∷ d) u =
      ground (arith, lookup-next t k d u.1, lookup-none k d, e.same_iff j k)
  lookup-next t k ((j, x ∷ v) ∷ d) u = ground (arith, lookup-next t k d u.1)

  contains-keys-next :
      (t : List A) (k : A) (d : Dict A (List A))
      → contains k (keys d) ≡ false
      → contains k (keys (next t d)) ≡ false
  unfolding next
  contains-keys-next t k [] h = refl
  contains-keys-next t k ((j, []) ∷ d) h = contains-keys-next t k d (ground arith)
  contains-keys-next t k ((j, x ∷ v) ∷ d) h = ground (arith, contains-keys-next t k d)

  pub Distinct-keys-next :
      (t : List A) (d : Dict A (List A)) → Distinct (keys d) → Distinct (keys (next t d))
  unfolding next
  Distinct-keys-next t [] u = tt
  Distinct-keys-next t ((j, []) ∷ d) u = Distinct-keys-next t d u.1
  Distinct-keys-next t ((j, x ∷ v) ∷ d) u =
      (contains-keys-next t j d u.0, Distinct-keys-next t d u.1)

  -- A member of some value belongs to a key.
  pub value_of_concat :
      (x : A) (d : Dict A (List A))
      → Distinct (keys d)
      → contains x (concat (values d)) ≡ true
      → (k : A) × (v : List A) × (lookup k d ≡ some v) × (contains x v ≡ true)
  unfolding lookup
  value_of_concat x [] u h = cc
  value_of_concat x ((j, v) ∷ d) u h = elim (Bool-cases (contains x v)) [
    | inl here ↦ (j, v, rw (beq_self j), here)
    | inr there ↦
        let (k, w, found, m) =
          value_of_concat x d u.1 (ground (arith, contains-append x v (concat (values d)))) in
        (k, w, ground (arith, found, keys_of_lookup k d w found, u.0, e.same_iff j k), m)
  ]

  pub concat_of_value :
      (x k : A) (v : List A) (d : Dict A (List A))
      → lookup k d ≡ some v
      → contains x v ≡ true
      → contains x (concat (values d)) ≡ true
  unfolding lookup
  concat_of_value x k v [] h m = cc
  concat_of_value x k v ((j, w) ∷ d) h m =
      ground (arith, concat_of_value x k v d, contains-append x w (concat (values d)))

  -- Who is free: a key without dependencies, or a dependency that is no key.
  pub contains-free :
      (x : A) (d : Dict A (List A))
      → contains x (free d)
        ≡ (contains x (leaves d) || (contains x (concat (values d)) && not (contains x (keys d))))
  unfolding free
  contains-free x d = ground (
    arith,
    contains-union x (leaves d) (diff (union (concat (values d)) []) (keys d)),
    contains-diff x (union (concat (values d)) []) (keys d),
    contains-union x (concat (values d)) [],
  )

  length-diff-le : (v t : List A) → length (diff v t) ≤ length v
  unfolding diff
  length-diff-le v t = length-filter-le (λ x. not (contains x t)) v

  length-diff-lt :
      (x : A) (v t : List A)
      → contains x v ≡ true
      → contains x t ≡ true
      → length (diff v t) < length v
  unfolding diff
  length-diff-lt x [] t h k = cc
  length-diff-lt x (y ∷ v) t h k =
      ground
        (arith, e.same_iff y x, length-diff-lt x v t, length-filter-le (λ z. not (contains z t)) v)

  pub size-next-le : (t : List A) (d : Dict A (List A)) → size (next t d) ≤ size d
  unfolding size next
  size-next-le t [] = omega arith
  size-next-le t ((j, []) ∷ d) = omega (arith, size-next-le t d)
  size-next-le t ((j, x ∷ v) ∷ d) = omega (arith, size-next-le t d, length-diff-le (x ∷ v) t)

  -- A round that frees something shrinks the graph.
  pub size-next-lt :
      (x : A) (t : List A) (d : Dict A (List A))
      → contains x t ≡ true
      → (contains x (leaves d) || contains x (concat (values d))) ≡ true
      → size (next t d) < size d
  unfolding size next leaves
  size-next-lt x t [] m h = cc
  size-next-lt x t ((j, []) ∷ d) m h = omega (arith, size-next-le t d)
  size-next-lt x t ((j, y ∷ v) ∷ d) m h = elim (Bool-cases (contains x (y ∷ v))) [
    | inl here ↦ omega (arith, size-next-le t d, length-diff-lt x (y ∷ v) t here m)
    | inr there ↦ omega (
      arith,
      length-diff-le (y ∷ v) t,
      size-next-lt x t d m (ground (arith, contains-append x (y ∷ v) (concat (values d)))),
    )
  ]
