-- ===== src/Stages/Layers.antt =====
-- The order that the resolver promises: a link is staged behind everything that it depends on, no link is
-- staged twice, and a stage is sorted.
use ifstate.Prelude.{
  ◌≡◌, ◌≢◌, refl, sym, ◌∙◌, ap, subst, inl, inr, ◌⊎◌, Bool-cases, Bool, true, false, some, List, [],
  ◌∷◌, ◌++◌, arith, Comparable, contains, union, Distinct, All, All-append, contains-append,
  contains-union, if◌then◌else◌,
}
use mathlib.Core.List.{append-nil, append_assoc}
use ifstate.Prelude.Dict.{Dict, keys, lookup}
use ifstate.Prelude.Sort.{
  sorted, contains-sorted, Distinct-sorted, IsSorted, IsStrictOrder, sorted-IsSorted,
}
use ifstate.Stages.{Outcome, stages, circular, exhausted, concat, free, next, as_sets, resolve}
use ifstate.Stages.Rounds.{Inv, next-Inv, free_cases, free_ready}
use ifstate.Stages.Run.{
  concat-snoc, Distinct-free, Distinct-keys-as_sets, lookup-as_sets, Inv-start, resolve_ind,
}

module _ {ℓ} {A : Type ℓ} ⦃e : Comparable A⦄ where
  -- `x` depends on `y` in the dictionary `g`
  abbrev pub DependsOn : Dict A (List A) → A → A → Type ℓ
  DependsOn g x y = (w : List A) × (lookup x g ≡ some w) × (contains y w ≡ true)

  -- `x` is a key of `g`, or a dependency of one
  abbrev pub IsNode : Dict A (List A) → A → Type ℓ
  IsNode g x = ((w : List A) × (lookup x g ≡ some w)) ⊎ ((k : A) × DependsOn g k x)

  -- Whatever a link of a stage depends on is in `seen` or in an earlier stage.
  abbrev pub IsLayered : Dict A (List A) → List A → List (List A) → Type ℓ
  IsLayered g seen [] = Unit
  IsLayered g seen (s ∷ r) =
      ((x y : A) → contains x s ≡ true → DependsOn g x y → contains y seen ≡ true)
      × IsLayered g (seen ++ s) r

  IsLayered-snoc :
      (g : Dict A (List A)) (seen : List A) (r : List (List A)) (s : List A)
      → IsLayered g seen r
      → ((x y : A) → contains x s ≡ true → DependsOn g x y → contains y (seen ++ concat r) ≡ true)
      → IsLayered g seen (r ++ s ∷ [])
  IsLayered-snoc g seen [] s h last = (λ x y m d. rw append-nil at (last x y m d), tt)
  IsLayered-snoc g seen (t ∷ r) s h last =
      (h.0, IsLayered-snoc g (seen ++ t) r s h.1 (λ x y m d. rw append_assoc (last x y m d)))

  abbrev pub OnStages {κ} : (List (List A) → Type κ) → Outcome A → Type κ
  OnStages P (stages r) = P r
  OnStages P circular = Unit
  OnStages P exhausted = Unit

  DependsOn-as_sets : (g : Dict A (List A)) (x y : A) → DependsOn g x y → DependsOn (as_sets g) x y
  DependsOn-as_sets g x y (w, found, m) =
      (union w [], cc (lookup-as_sets x g), ground (arith, contains-union y w []))

  IsLayered-as_sets :
      (g : Dict A (List A)) (seen : List A) (r : List (List A))
      → IsLayered (as_sets g) seen r
      → IsLayered g seen r
  IsLayered-as_sets g seen [] h = tt
  IsLayered-as_sets g seen (s ∷ r) h =
      (λ x y m d. h.0 x y m (DependsOn-as_sets g x y d), IsLayered-as_sets g (seen ++ s) r h.1)

  pub record Built (lt : A → A → Bool) (g d : Dict A (List A)) (r : List (List A)) : Type ℓ where
    pub inv : Inv g d (concat r)
    pub layered : IsLayered g [] r
    pub known : (x : A) → contains x (concat r) ≡ true → IsNode g x
    pub sorted_stages : IsStrictOrder lt → All (IsSorted lt) r

  -- How a run ends: all is staged, or what is left (`d`) frees nothing.
  pub data Ending (lt : A → A → Bool) (go_on : Bool) (g : Dict A (List A))
      : Outcome A → Type ℓ where
    complete : (r : List (List A)) → Built lt g [] r → Ending lt go_on g (stages r)
    blocked :
        (d : Dict A (List A)) (r : List (List A))
        → Built lt g d r
        → d ≢ []
        → free d ≡ []
        → Ending lt go_on g (if go_on then stages r else circular)

  free_known :
      {g d : Dict A (List A)} {seen : List A} (inv : Inv g d seen) (x : A)
      → contains x (free d) ≡ true
      → IsNode g x
  free_known {d} inv x h = elim (free_cases x d inv.distinct h) [
    | inl leaf ↦ let (w, old, rest) = inv.pending x [] leaf in inl (w, old)
    | inr (k, v, found, m, absent) ↦
        let (w, old, rest) = inv.pending k v found in inr (k, (w, old, ground (arith, rest x)))
  ]

  module _ (lt : A → A → Bool) (g : Dict A (List A)) where
    Built-round :
        (d : Dict A (List A)) (r : List (List A))
        → Built lt g d r
        → Built lt g (next (free d) d) (r ++ sorted lt (free d) ∷ [])
    Built-round d r b =
        let u = Distinct-free d b.inv.distinct in
        record {
          inv = rw concat-snoc (
              next-Inv b.inv (sorted lt (free d)) (λ x. contains-sorted lt x (free d))
                (Distinct-sorted lt (free d) u));
          layered = IsLayered-snoc g [] r (sorted lt (free d)) b.layered (λ x y m (w, found, m').
              free_ready b.inv x w y (sym (contains-sorted lt x (free d)) ∙ m) found m');
          known = λ x m. elim (Bool-cases (contains x (concat r))) [
            | inl before ↦ b.known x before
            | inr now ↦ free_known b.inv x (
                ground (
                  arith,
                  ap (contains x) (concat-snoc r (sorted lt (free d))),
                  contains-append x (concat r) (sorted lt (free d)),
                  contains-sorted lt x (free d),
                ))
          ];
          sorted_stages = λ order.
              All-append (IsSorted lt) r (sorted lt (free d) ∷ []) (b.sorted_stages order)
                (sorted-IsSorted lt order (free d) u, tt);
        }

  module _ (lt : A → A → Bool) (go_on : Bool) (g : Dict A (List A)) (u : Distinct (keys g)) where
    pub resolve-Ending : Ending lt go_on (as_sets g) (resolve lt go_on g)
    resolve-Ending =
        resolve_ind lt go_on (Built lt (as_sets g)) (Ending lt go_on (as_sets g)) complete blocked
          (Built-round lt (as_sets g)) g
          (record {
            inv = Inv-start (as_sets g) (Distinct-keys-as_sets g u);
            layered = tt;
            known = λ x m. cc;
            sorted_stages = λ order. tt;
          })

    -- The stages that come out were built round by round.
    pub resolve-Built :
        {r : List (List A)}
        → resolve lt go_on g ≡ stages r
        → (d : Dict A (List A)) × Built lt (as_sets g) d r
    resolve-Built {r} h = open_ending (subst (Ending lt go_on (as_sets g)) h resolve-Ending) refl
      where
        on_if :
            (b : Bool) (r' : List (List A))
            → (if b then stages r' else circular) ≡ stages r
            → r' ≡ r
        on_if true r' p = cc
        on_if false r' p = cc

        open_ending :
            {o : Outcome A}
            → Ending lt go_on (as_sets g) o
            → o ≡ stages r
            → (d : Dict A (List A)) × Built lt (as_sets g) d r
        open_ending (complete r' b) p = ([], subst (Built lt (as_sets g) []) (on_if true r' p) b)
        open_ending (blocked d r' b some_left idle) p =
            (d, subst (Built lt (as_sets g) d) (on_if go_on r' p) b)

    -- If the resolver returns stages for a dictionary with distinct keys, whatever a link of a
    -- stage depends on stands in an earlier stage.
    pub resolve-IsLayered : (r : List (List A)) → resolve lt go_on g ≡ stages r → IsLayered g [] r
    resolve-IsLayered r h = let (d, b) = resolve-Built h in IsLayered-as_sets g [] r b.layered

    -- If the resolver returns stages for a dictionary with distinct keys, no link stands in them
    -- twice.
    pub resolve-Distinct : (r : List (List A)) → resolve lt go_on g ≡ stages r → Distinct (concat r)
    resolve-Distinct r h = let (d, b) = resolve-Built h in b.inv.staged_once

    -- If `<` is a strict total order and the resolver returns stages for a dictionary with distinct
    -- keys, each stage rises strictly.
    pub resolve-IsSorted :
        (r : List (List A)) → IsStrictOrder lt → resolve lt go_on g ≡ stages r → All (IsSorted lt) r
    resolve-IsSorted r order h = let (d, b) = resolve-Built h in b.sorted_stages order
