-- ===== src/Prelude/Sets.antt =====
-- Python's sets: lists of distinct members, read by `in`.
use ifstate.Prelude.Tests.{if◌then◌else◌}
use ifstate.Prelude.Keys.{Comparable, ◌==◌, contains}
use ifstate.Prelude.Lists.{filter}
use mathlib.Core.Path.{◌≡◌, refl}
use mathlib.Core.Bool.{Bool, true, false, not, ◌&&◌, ◌||◌}
use mathlib.Core.List.{List, [], ◌∷◌, ◌++◌}
use native.Mathlib.Omega.{arith}

module _ {ℓ} {A : Type ℓ} ⦃e : Comparable A⦄ where
  -- `s.add(x)`
  unfoldable pub set_add : A → List A → List A
  set_add x s = if contains x s then s else x ∷ s

  -- `s.update(xs)`
  unfoldable pub union : List A → List A → List A
  unfolding set_add
  union [] s = s
  union (x ∷ xs) s = set_add x (union xs s)

  -- `s - t`
  unfoldable pub diff : List A → List A → List A
  diff s t = filter (λ x. not (contains x t)) s

  abbrev pub Distinct : List A → Type 0
  Distinct [] = Unit
  Distinct (x ∷ xs) = (contains x xs ≡ false) × Distinct xs

  pub beq_self : (x : A) → (x == x) ≡ true
  beq_self x = (e.same_iff x x).1 refl

  pub contains-append :
      (x : A) (xs ys : List A) → contains x (xs ++ ys) ≡ (contains x xs || contains x ys)
  contains-append x [] ys = refl
  contains-append x (y ∷ xs) ys = ground (arith, contains-append x xs ys)

  pub contains-set_add :
      (x y : A) (s : List A) → contains x (set_add y s) ≡ ((y == x) || contains x s)
  unfolding set_add
  contains-set_add x y s = ground (arith, e.same_iff y x)

  pub contains-union :
      (x : A) (xs s : List A) → contains x (union xs s) ≡ (contains x xs || contains x s)
  unfolding union
  contains-union x [] s = refl
  contains-union x (y ∷ xs) s =
      ground (arith, contains-union x xs s, contains-set_add x y (union xs s))

  pub contains-filter :
      (p : A → Bool) (x : A) (s : List A) → contains x (filter p s) ≡ (contains x s && p x)
  contains-filter p x [] = refl
  contains-filter p x (y ∷ s) = ground (arith, contains-filter p x s, e.same_iff y x)

  pub contains-diff :
      (x : A) (s t : List A) → contains x (diff s t) ≡ (contains x s && not (contains x t))
  unfolding diff
  contains-diff x s t = contains-filter (λ y. not (contains y t)) x s

  pub Distinct-filter : (p : A → Bool) (s : List A) → Distinct s → Distinct (filter p s)
  Distinct-filter p [] h = tt
  Distinct-filter p (x ∷ s) h = ground (arith, contains-filter p x s, Distinct-filter p s h.1)

  pub Distinct-diff : (s t : List A) → Distinct s → Distinct (diff s t)
  unfolding diff
  Distinct-diff s t h = Distinct-filter (λ x. not (contains x t)) s h

  pub Distinct-union : (xs s : List A) → Distinct s → Distinct (union xs s)
  unfolding union set_add
  Distinct-union [] s h = h
  Distinct-union (x ∷ xs) s h = ground (arith, Distinct-union xs s h)

  pub Distinct-append :
      (xs ys : List A)
      → Distinct xs
      → Distinct ys
      → ((x : A) → contains x xs ≡ true → contains x ys ≡ false)
      → Distinct (xs ++ ys)
  Distinct-append [] ys h k apart = k
  Distinct-append (x ∷ xs) ys h k apart = (
    ground (arith, contains-append x xs ys, h.0, apart x, beq_self x),
    Distinct-append xs ys h.1 k (λ y m. apart y (ground arith)),
  )
