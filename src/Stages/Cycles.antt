-- ===== src/Stages/Cycles.antt =====
-- What the resolver does about circular dependencies.
use ifstate.Prelude.{
  ◌≡◌, ◌≢◌, refl, ap, inl, inr, ◌↔◌, Bool, true, false, some, List, [], ◌∷◌, ◌++◌, arith,
  Comparable, contains, union, diff, Distinct, beq_self, contains-append, if◌then◌else◌, Bool-cases,
}
use ifstate.Prelude.Dict.{Dict, keys, lookup}
use ifstate.Stages.{Outcome, stages, circular, exhausted, concat, leaves, free, as_sets, resolve}
use ifstate.Stages.Graph.{
  contains-free, contains-keys, leaves_of_lookup, lookup-none, concat_of_value,
}
use ifstate.Stages.Rounds.{Inv}
use ifstate.Stages.Run.{lookup-as_sets}
use ifstate.Stages.Layers.{
  DependsOn, IsLayered, Ending, complete, blocked, resolve-Ending, resolve-IsLayered,
}
use ifstate.Stages.Complete.{DependsOn-of_as_sets, resolve_complete}

module _ {ℓ} {A : Type ℓ} ⦃e : Comparable A⦄ where
  -- A set of links each of which depends on one of the set: what every cycle is.
  pub record Knot (g : Dict A (List A)) : Type ℓ where
    pub members : List A
    pub first : A
    pub inhabited : contains first members ≡ true
    pub tied :
        (k : A)
        → contains k members ≡ true
        → (y : A) × (contains y members ≡ true) × DependsOn g k y

  leaf_not_idle : (k : A) (d : Dict A (List A)) → free d ≡ [] → lookup k d ≢ some []
  leaf_not_idle k d idle found =
      ground (arith, leaves_of_lookup k d found, contains-free k d, ap (contains k) idle)

  -- What is left when nothing is free: each key waits for another one.
  blocked_tied :
      {g d : Dict A (List A)} {seen : List A} (inv : Inv g d seen)
      → free d ≡ []
      → (k : A) → contains k (keys d) ≡ true
      → (y : A) × (contains y (keys d) ≡ true) × DependsOn g k y
  blocked_tied {g} {d} {seen} inv idle k h = let (v, found) = contains-keys k d h in go v found
    where
      go :
          (v : List A)
          → lookup k d ≡ some v
          → (y : A) × (contains y (keys d) ≡ true) × DependsOn g k y
      go [] found = absurd (leaf_not_idle k d idle found)
      go (y ∷ v) found =
          let (w, old, rest) = inv.pending k (y ∷ v) found in
          (
            y,
            ground (
              arith,
              contains-free y d,
              ap (contains y) idle,
              beq_self y,
              concat_of_value y k (y ∷ v) d found,
            ),
            (w, old, ground (arith, rest y, beq_self y)),
          )

  Knot-of_blocked :
      {g d : Dict A (List A)} {seen : List A} (inv : Inv (as_sets g) d seen)
      → d ≢ []
      → free d ≡ []
      → Knot g
  Knot-of_blocked {d = []} inv some_left idle = absurd (some_left refl)
  Knot-of_blocked {g} {d = (k, v) ∷ d} inv some_left idle = record {
    members = keys ((k, v) ∷ d);
    first = k;
    inhabited = ground (arith, beq_self k);
    tied = λ j m.
        let (y, m', dep) = blocked_tied inv idle j m in (y, m', DependsOn-of_as_sets g j y dep);
  }

  -- No member of a knot gets into stages that are layered.
  Knot-unstaged :
      (g : Dict A (List A)) (knot : Knot g) (seen : List A) (r : List (List A))
      → IsLayered g seen r
      → ((k : A) → contains k knot.members ≡ true → contains k seen ≡ false)
      → (k : A) → contains k knot.members ≡ true
      → contains k (concat r) ≡ false
  Knot-unstaged g knot seen [] h apart k m = refl
  Knot-unstaged g knot seen (s ∷ r) h apart k m = ground (
    arith,
    contains-append k s (concat r),
    out k m,
    Knot-unstaged g knot (seen ++ s) r h.1
        (λ j n. ground (arith, contains-append j seen s, apart j n, out j n)) k m,
  )
    where
      out : (j : A) → contains j knot.members ≡ true → contains j s ≡ false
      out j n = elim (Bool-cases (contains j s)) [
        | inr absent ↦ absent
        | inl staged ↦ let (y, n', dep) = knot.tied j n in cc (h.0 j y staged dep, apart y n')
      ]

  module _ (lt : A → A → Bool) (g : Dict A (List A)) (u : Distinct (keys g)) where
    -- For a dictionary with distinct keys the fuel of the resolver suffices: it never runs out, in
    -- either mode.
    pub resolve-ne-exhausted : (go_on : Bool) → resolve lt go_on g ≢ exhausted
    resolve-ne-exhausted go_on h = go (resolve-Ending lt go_on g u) h
      where
        on_if : (b : Bool) (r : List (List A)) → (if b then stages r else circular) ≢ exhausted
        on_if true r p = cc
        on_if false r p = cc

        go : {o : Outcome A} → Ending lt go_on (as_sets g) o → o ≢ exhausted
        go (complete r b) p = cc
        go (blocked d r b some_left idle) p = on_if go_on r p

    -- In the strict mode (a check), for a dictionary with distinct keys, the resolver reports a
    -- circular dependency exactly when there is a set of links each of which depends on one of the
    -- set.
    pub resolve-circular_iff : (resolve lt false g ≡ circular) ↔ Knot g
    resolve-circular_iff = (λ h. go (resolve-Ending lt false g u) h, back)
      where
        go : {o : Outcome A} → Ending lt false (as_sets g) o → o ≡ circular → Knot g
        go (complete r b) p = cc
        go (blocked d r b some_left idle) p = Knot-of_blocked b.inv some_left idle

        on_result : Knot g → (o : Outcome A) → resolve lt false g ≡ o → o ≡ circular
        on_result knot circular h = refl
        on_result knot exhausted h = absurd (resolve-ne-exhausted false h)
        on_result knot (stages r) h =
            let (y, m, (w, found, n)) = knot.tied knot.first knot.inhabited in
            cc (
              Knot-unstaged g knot [] r (resolve-IsLayered lt false g u r h) (λ k n'. refl)
                  knot.first knot.inhabited,
              (resolve_complete lt g u r knot.first h).1 (inl (w, found)),
            )

        back : Knot g → resolve lt false g ≡ circular
        back knot = on_result knot (resolve lt false g) refl

    -- In the mode that goes on (an apply), for a dictionary with distinct keys, the resolver always
    -- returns stages. A key that they leave out depends on a link that they leave out, and a member
    -- of a set of links each of which depends on one of the set is left out.
    pub resolve_go_on :
        (r : List (List A)) × (resolve lt true g ≡ stages r)
        × ((k : A)
            → contains k (keys g) ≡ true
            → contains k (concat r) ≡ false
            → (y : A) × (contains y (concat r) ≡ false) × DependsOn g k y)
        × ((knot : Knot g) (k : A) → contains k knot.members ≡ true → contains k (concat r) ≡ false)
    resolve_go_on = go (resolve-Ending lt true g u) refl
      where
        left_out :
            {d : Dict A (List A)} (r : List (List A))
            → Inv (as_sets g) d (concat r)
            → free d ≡ []
            → (k : A) → contains k (keys g) ≡ true
            → contains k (concat r) ≡ false
            → (y : A) × (contains y (concat r) ≡ false) × DependsOn g k y
        left_out {d} r inv idle k key absent = elim (Bool-cases (contains k (keys d))) [
          | inl waiting ↦
              let (y, y_waiting, dep) = blocked_tied inv idle k waiting in
              let (v, found) = contains-keys y d y_waiting in
              (y, inv.waits y v found, DependsOn-of_as_sets g k y dep)
          | inr gone ↦
              let (w, found) = contains-keys k g key in
              cc ((inv.done k (union w []) (cc (lookup-as_sets k g)) (lookup-none k d gone)).0)
        ]

        go :
            {o : Outcome A}
            → Ending lt true (as_sets g) o
            → resolve lt true g ≡ o
            → (r : List (List A)) × (resolve lt true g ≡ stages r)
              × ((k : A)
                  → contains k (keys g) ≡ true
                  → contains k (concat r) ≡ false
                  → (y : A) × (contains y (concat r) ≡ false) × DependsOn g k y)
              × ((knot : Knot g) (k : A)
                  → contains k knot.members ≡ true
                  → contains k (concat r) ≡ false)
        go (complete r b) same = (
          r,
          same,
          left_out r b.inv (unfold free leaves union diff in refl),
          λ knot. Knot-unstaged g knot [] r (resolve-IsLayered lt true g u r same) (λ k m. refl),
        )
        go (blocked d r b some_left idle) same = (
          r,
          same,
          left_out r b.inv idle,
          λ knot. Knot-unstaged g knot [] r (resolve-IsLayered lt true g u r same) (λ k m. refl),
        )
