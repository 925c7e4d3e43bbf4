-- ===== src/Stages/Rounds.antt =====
-- What holds between two rounds of the resolver, and that a round keeps it.
use ifstate.Prelude.{
  ◌≡◌, ap, subst, ◌⊎◌, inl, inr, true, false, ◌&&◌, not, none, some, List, [], ◌∷◌, ◌++◌, arith,
  Comparable, contains, diff, Distinct, contains-append, contains-diff, Distinct-append, Bool-cases,
  Option-cases,
}
use ifstate.Prelude.Dict.{Dict, keys, lookup}
use ifstate.Stages.{leaves, free, next}
use ifstate.Stages.Graph.{
  lookup-none, leaves_iff, leaves_of_lookup, lookup-next, Distinct-keys-next, value_of_concat,
  contains-free,
}

module _ {ℓ} {A : Type ℓ} ⦃e : Comparable A⦄ where
  -- `d` is what is left of the graph `g` when the links of `seen` are staged.
  pub record Inv (g d : Dict A (List A)) (seen : List A) : Type ℓ where
    pub distinct : Distinct (keys d)
    pub staged_once : Distinct seen
    pub pending :
        (k : A) (v : List A)
        → lookup k d ≡ some v
        → (w : List A) × (lookup k g ≡ some w)
          × ((x : A) → contains x v ≡ (contains x w && not (contains x seen)))
    pub waits : (k : A) (v : List A) → lookup k d ≡ some v → contains k seen ≡ false
    pub done :
        (k : A) (w : List A)
        → lookup k g ≡ some w
        → lookup k d ≡ none
        → (contains k seen ≡ true) × ((x : A) → contains x w ≡ true → contains x seen ≡ true)

  -- A free link is a key without open dependencies, or an open dependency that is no key.
  pub free_cases :
      (x : A) (d : Dict A (List A))
      → Distinct (keys d)
      → contains x (free d) ≡ true
      → (lookup x d ≡ some [])
        ⊎ ((k : A) × (v : List A) × (lookup k d ≡ some v)
            × (contains x v ≡ true)
            × (lookup x d ≡ none))
  free_cases x d u h = elim (Bool-cases (contains x (leaves d))) [
    | inl leaf ↦ inl (leaves_iff x d u leaf)
    | inr inner ↦
        let (k, v, found, m) = value_of_concat x d u (ground (arith, contains-free x d)) in
        inr (k, v, found, m, lookup-none x d (ground (arith, contains-free x d)))
  ]

  module _ {g d : Dict A (List A)} {seen : List A} (inv : Inv g d seen) where
    -- What a round stages was not staged before,
    pub free_fresh : (x : A) → contains x (free d) ≡ true → contains x seen ≡ false
    free_fresh x h = elim (free_cases x d inv.distinct h) [
      | inl leaf ↦ inv.waits x [] leaf
      | inr (k, v, found, m, absent) ↦
          let (w, old, rest) = inv.pending k v found in ground (arith, rest x)
    ]

    -- and all of its dependencies were.
    pub free_ready :
        (x : A) (w : List A) (y : A)
        → contains x (free d) ≡ true
        → lookup x g ≡ some w
        → contains y w ≡ true
        → contains y seen ≡ true
    free_ready x w y h old m = elim (free_cases x d inv.distinct h) [
      | inl leaf ↦
          let (w', old', rest) = inv.pending x [] leaf in
          let same : w' ≡ w = cc in
          ground (arith, subst (λ l. false ≡ (contains y l && not (contains y seen))) same (rest y))
      | inr (k, v, found, m', absent) ↦ (inv.done x w old absent).1 y m
    ]

    module _ (s : List A) (same : (x : A) → contains x s ≡ contains x (free d))
        (u : Distinct s) where
      next-waits :
          (k : A) (v : List A)
          → lookup k (next (free d) d) ≡ some v
          → contains k (seen ++ s) ≡ false
      next-waits k v h = elim (Option-cases (lookup k d)) [
        | inl absent ↦ cc (lookup-next (free d) k d inv.distinct)
        | inr ([], leaf) ↦ cc (lookup-next (free d) k d inv.distinct)
        | inr (y ∷ w, found) ↦ elim (Bool-cases (contains k (free d))) [
          | inr staged ↦ ground (arith, contains-append k seen s, same k, inv.waits k (y ∷ w) found)
          | inl staged ↦ elim (free_cases k d inv.distinct staged) [
            | inl leaf ↦ cc
            | inr (j, v', found', m, absent) ↦ cc
          ]
        ]
      ]

      next-pending :
          (k : A) (v : List A)
          → lookup k (next (free d) d) ≡ some v
          → (w : List A) × (lookup k g ≡ some w)
            × ((x : A) → contains x v ≡ (contains x w && not (contains x (seen ++ s))))
      next-pending k v h = elim (Option-cases (lookup k d)) [
        | inl absent ↦ cc (lookup-next (free d) k d inv.distinct)
        | inr ([], leaf) ↦ cc (lookup-next (free d) k d inv.distinct)
        | inr (y ∷ v', found) ↦
            let (w, old, rest) = inv.pending k (y ∷ v') found in
            let shape : diff (y ∷ v') (free d) ≡ v = cc (lookup-next (free d) k d inv.distinct) in
            (
              w,
              old,
              λ x. ground (
                arith,
                ap (contains x) shape,
                contains-diff x (y ∷ v') (free d),
                rest x,
                contains-append x seen s,
                same x,
              ),
            )
      ]

      next-done :
          (k : A) (w : List A)
          → lookup k g ≡ some w
          → lookup k (next (free d) d) ≡ none
          → (contains k (seen ++ s) ≡ true)
            × ((x : A) → contains x w ≡ true → contains x (seen ++ s) ≡ true)
      next-done k w old h = elim (Option-cases (lookup k d)) [
        | inl absent ↦
            let (was, deps) = inv.done k w old absent in
            (
              ground (arith, contains-append k seen s),
              λ x m. ground (arith, contains-append x seen s, deps x m),
            )
        | inr ([], leaf) ↦
            let staged : contains k (free d) ≡ true =
              ground (arith, contains-free k d, leaves_of_lookup k d leaf) in
            (
              ground (arith, contains-append k seen s, same k),
              λ x m. ground (arith, contains-append x seen s, free_ready k w x staged old m),
            )
        | inr (y ∷ v', found) ↦ cc (lookup-next (free d) k d inv.distinct)
      ]

      pub next-Inv : Inv g (next (free d) d) (seen ++ s)
      next-Inv = record {
        distinct = Distinct-keys-next (free d) d inv.distinct;
        staged_once = Distinct-append seen s inv.staged_once u (λ x m.
            elim (Bool-cases (contains x s)) [
              | inr absent ↦ absent
              | inl staged ↦ cc (free_fresh x (ground (arith, same x)))
            ]);
        pending = next-pending;
        waits = next-waits;
        done = next-done;
      }
