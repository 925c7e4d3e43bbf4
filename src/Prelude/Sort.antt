-- ===== src/Prelude/Sort.antt =====
-- `sorted` over an order given by `__lt__`.
use mathlib.Core.Path.{◌≡◌, refl}
use mathlib.Core.Logic.{inl, inr}
use mathlib.Core.Bool.{Bool, true, false, ◌||◌}
use mathlib.Core.List.{List, [], ◌∷◌}
use native.Mathlib.Omega.{arith}
use ifstate.Prelude.Tests.{if◌then◌else◌, Bool-cases}
use ifstate.Prelude.Keys.{Comparable, ◌==◌, contains}
use ifstate.Prelude.Lists.{All, All-mono}
use ifstate.Prelude.Sets.{Distinct}

pub record IsStrictOrder {ℓ} {A : Type ℓ} (lt : A → A → Bool) : Type ℓ where
  pub irrefl : (a : A) → lt a a ≡ false
  pub trans : (a b c : A) → lt a b ≡ true → lt b c ≡ true → lt a c ≡ true
  pub total : (a b : A) → lt a b ≡ false → lt b a ≡ false → a ≡ b

module _ {ℓ} {A : Type ℓ} (lt : A → A → Bool) where
  unfoldable pub insort : A → List A → List A
  insort x [] = x ∷ []
  insort x (y ∷ ys) = if lt y x then y ∷ insort x ys else x ∷ y ∷ ys

  unfoldable pub sorted : List A → List A
  unfolding insort
  sorted [] = []
  sorted (x ∷ xs) = insort x (sorted xs)

  abbrev pub IsSorted : List A → Type 0
  IsSorted [] = Unit
  IsSorted (x ∷ xs) = All (λ y. lt x y ≡ true) xs × IsSorted xs

module _ {ℓ} {A : Type ℓ} ⦃e : Comparable A⦄ (lt : A → A → Bool) where
  contains-insort : (x y : A) (s : List A) → contains x (insort lt y s) ≡ ((y == x) || contains x s)
  unfolding insort
  contains-insort x y [] = refl
  contains-insort x y (z ∷ s) = ground (arith, contains-insort x y s)

  pub contains-sorted : (x : A) (s : List A) → contains x (sorted lt s) ≡ contains x s
  unfolding sorted
  contains-sorted x [] = refl
  contains-sorted x (y ∷ s) = ground (arith, contains-insort x y (sorted lt s), contains-sorted x s)

  ne_of_not-contains : (x y : A) (s : List A) → contains x (y ∷ s) ≡ false → ¬ (x ≡ y)
  ne_of_not-contains x y s h p = ground (arith, e.same_iff y x)

  Distinct-insort :
      (x : A) (s : List A) → contains x s ≡ false → Distinct s → Distinct (insort lt x s)
  unfolding insort
  Distinct-insort x [] h d = (refl, tt)
  Distinct-insort x (y ∷ s) h d = ground (
    arith,
    contains-insort y x s,
    e.same_iff x y,
    e.same_iff y x,
    Distinct-insort x s (ground arith) d.1,
  )

  pub Distinct-sorted : (s : List A) → Distinct s → Distinct (sorted lt s)
  unfolding sorted
  Distinct-sorted [] d = tt
  Distinct-sorted (x ∷ s) d =
      Distinct-insort x (sorted lt s) (ground (arith, contains-sorted x s)) (Distinct-sorted s d.1)

  module _ (order : IsStrictOrder lt) where
    All-insort :
        (z x : A) (s : List A)
        → lt z x ≡ true
        → All (λ y. lt z y ≡ true) s
        → All (λ y. lt z y ≡ true) (insort lt x s)
    unfolding insort
    All-insort z x [] h a = (h, tt)
    All-insort z x (y ∷ s) h a = ground (arith, All-insort z x s h a.1)

    IsSorted-insort :
        (x : A) (s : List A) → contains x s ≡ false → IsSorted lt s → IsSorted lt (insort lt x s)
    unfolding insort
    IsSorted-insort x [] h a = (tt, tt)
    IsSorted-insort x (y ∷ s) h a = elim (Bool-cases (lt y x)) [
      | inl below ↦
          rw below
            (All-insort y x s below a.0, IsSorted-insort x s (ground (arith, e.same_iff y x)) a.1)
      | inr above ↦
          let first : lt x y ≡ true = elim (Bool-cases (lt x y)) [
            | inl yes' ↦ yes'
            | inr no' ↦ absurd (ne_of_not-contains x y s h (order.total x y no' above))
          ] in
          rw above ((first, All-mono _ _ s (λ z. order.trans x y z first) a.0), (a.0, a.1))
    ]

    -- The members of a set come out in strictly rising order.
    pub sorted-IsSorted : (s : List A) → Distinct s → IsSorted lt (sorted lt s)
    unfolding sorted
    sorted-IsSorted [] d = tt
    sorted-IsSorted (x ∷ s) d =
        IsSorted-insort x (sorted lt s) (ground (arith, contains-sorted x s))
          (sorted-IsSorted s d.1)

module _ {ℓ κ} {A : Type ℓ} (P : A → Type κ) (lt : A → A → Bool) where
  insort-All : (x : A) (s : List A) → P x → All P s → All P (insort lt x s)
  unfolding insort
  insort-All x [] h a = (h, tt)
  insort-All x (y ∷ s) h a = elim (Bool-cases (lt y x)) [
    | inl below ↦ rw below (a.0, insort-All x s h a.1)
    | inr above ↦ rw above (h, a)
  ]

  -- Sorting keeps what holds of every element.
  pub sorted-All : (s : List A) → All P s → All P (sorted lt s)
  unfolding sorted
  sorted-All [] a = tt
  sorted-All (x ∷ s) a = insort-All x (sorted lt s) a.0 (sorted-All s a.1)
