-- ===== src/VrrpFifo/Frames.antt =====
-- What starting a worker and putting an entry into its queue does to its key and to the others.
use mathlib.Core.List.{append_assoc}
use ifstate.Prelude.{
  ℕ, String, ◌≡◌, refl, sym, ap, ◌∙◌, ◌⊎◌, Bool, true, false, not, Option, none, some, List, [],
  ◌∷◌, ◌++◌, Comparable, ◌==◌, text_key, pair_key, pair_beq, number_key, map, inl, inr,
  Option-cases,
}
use ifstate.Prelude.Dict.{Dict, lookup, insert, lookup-insert}
use ifstate.Apply.Run.{IfState}
use ifstate.VrrpFifo.{Key, Process, System, spawn, vrrp_update, respawn}

abbrev pub last : {A : Type 0} → List A → Option A
last [] = none
last (x ∷ []) = some x
last (x ∷ y ∷ xs) = last (y ∷ xs)

-- A queue without the entry that ends the worker.
abbrev pub goes_on : List (Option String) → Bool
goes_on [] = true
goes_on (none ∷ q) = false
goes_on (some s ∷ q) = goes_on q

pub last-append : {A : Type 0} (xs : List A) (x : A) → last (xs ++ x ∷ []) ≡ some x
last-append [] x = refl
last-append (y ∷ []) x = refl
last-append (y ∷ z ∷ xs) x = last-append (z ∷ xs) x

pub goes_on-append :
    (q : List (Option String)) (s : String) → goes_on q ≡ true → goes_on (q ++ some s ∷ []) ≡ true
goes_on-append [] s h = refl
goes_on-append (none ∷ q) s h = h
goes_on-append (some t ∷ q) s h = goes_on-append q s h

pub map-append : (xs ys : List String) → map some (xs ++ ys) ≡ map some xs ++ map some ys
map-append [] ys = refl
map-append (x ∷ xs) ys = ap (λ l. some x ∷ l) (map-append xs ys)

-- What an insertion puts at its key, and what it leaves at another.
pub insert-same :
    {A V : Type 0} ⦃e : Comparable A⦄ (k q : A) (v : V) (d : Dict A V)
    → (k == q) ≡ true
    → lookup q (insert k v d) ≡ some v
insert-same k q v d same = lookup-insert k q v d ∙ rw same refl

pub insert-other :
    {A V : Type 0} ⦃e : Comparable A⦄ (k q : A) (v : V) (d : Dict A V)
    → (k == q) ≡ false
    → lookup q (insert k v d) ≡ lookup q d
insert-other k q v d differs = lookup-insert k q v d ∙ rw differs refl

pub pair-other : (k q : Key) (n m : ℕ) → (k == q) ≡ false → pair_beq (k, n) (q, m) ≡ false
pair-other k q n m differs = rw differs refl

pub self : {A : Type 0} ⦃e : Comparable A⦄ (k : A) → (k == k) ≡ true
self ⦃e⦄ k = (e.same_iff k k).1 refl

module _ {K : Type 0} where
  -- A worker of a key with the configuration that runs unless an exception has ended it, of which the state is
  -- the last one that it has taken or is to take.
  abbrev pub Runs : IfState K → Key → String → Process K → Type 0
  Runs c key state p =
      (p.key ≡ key)
      × (p.ifstate ≡ c)
      × (p.alive ≡ not p.failed)
      × (goes_on p.queue ≡ true)
      × (last (map some p.taken ++ p.queue) ≡ some (some state))

  abbrev pub Serves : IfState K → Key → System K → Type 0
  Serves c key s =
      (state : String) × (pid : ℕ) × (p : Process K) × (lookup key s.states ≡ some state)
      × (lookup key s.processes ≡ some pid)
      × (lookup (key, pid) s.workers ≡ some p)
      × Runs c key state p

  abbrev pub Good : IfState K → Key → System K → Type 0
  Good c key s = ((lookup key s.states ≡ none) × (lookup key s.processes ≡ none)) ⊎ Serves c key s

  -- Two systems that are the same for a key.
  abbrev pub Same : Key → System K → System K → Type 0
  Same key s t =
      (lookup key t.states ≡ lookup key s.states)
      × (lookup key t.processes ≡ lookup key s.processes)
      × ((pid : ℕ) → lookup (key, pid) t.workers ≡ lookup (key, pid) s.workers)

  pub Same-Good :
      (c : IfState K) (key : Key) (s t : System K) → Same key s t → Good c key s → Good c key t
  Same-Good c key s t (a, b, w) (inl (x, y)) = inl (a ∙ x, b ∙ y)
  Same-Good c key s t (a, b, w) (inr (state, pid, p, x, y, z, runs)) =
      inr (state, pid, p, a ∙ x, b ∙ y, w pid ∙ z, runs)

  pub Same-trans : (key : Key) (s t u : System K) → Same key s t → Same key t u → Same key s u
  Same-trans key s t u (a, b, w) (a', b', w') = (a' ∙ a, b' ∙ b, λ pid. w' pid ∙ w pid)

  pub spawn-Same :
      (c : IfState K) (key k : Key) (s : System K) → (k == key) ≡ false → Same key s (spawn k c s)
  unfolding spawn
  spawn-Same c key k s differs = (
    refl,
    insert-other k key s.next_pid s.processes differs,
    λ pid.
        insert-other (k, s.next_pid) (key, pid) _ s.workers
          (pair-other k key s.next_pid pid differs),
  )

  pub put-Same :
      (e : Option String) (key k : Key) (s : System K)
      → (k == key) ≡ false
      → Same key s (vrrp_update k e s)
  unfolding vrrp_update
  put-Same e key k s differs = elim (Option-cases (lookup k s.processes)) [
    | inl missing ↦ rw (missing, vrrp_update) (refl, refl, λ pid. refl)
    | inr (n, found) ↦ elim (Option-cases (lookup (k, n) s.workers)) [
      | inl missing ↦ rw (found, vrrp_update) (rw missing (refl, refl, λ pid. refl))
      | inr (p, found') ↦
          rw (found, vrrp_update)
            (rw found' (
              refl,
              refl,
              λ pid. insert-other (k, n) (key, pid) _ s.workers (pair-other k key n pid differs),
            ))
    ]
  ]

  pub respawn-Same :
      (c : IfState K) (st : String) (key k : Key) (s : System K)
      → (k == key) ≡ false
      → Same key s (respawn c (k, st) s)
  unfolding respawn
  respawn-Same c st key k s differs =
      let ended = vrrp_update k none s in
      let fresh = spawn k c ended in
      Same-trans key s ended (respawn c (k, st) s) (put-Same none key k s differs) (
        Same-trans key ended fresh (respawn c (k, st) s) (spawn-Same c key k ended differs)
          (put-Same (some st) key k fresh differs))

  -- A state that is put into the queue of the worker of its key, the state being noted.
  pub put-Serves :
      (c : IfState K) (key : Key) (st : String) (s : System K) (pid : ℕ) (p : Process K)
      → lookup key s.states ≡ some st
      → lookup key s.processes ≡ some pid
      → lookup (key, pid) s.workers ≡ some p
      → p.key ≡ key
      → p.ifstate ≡ c
      → p.alive ≡ not p.failed
      → goes_on p.queue ≡ true
      → Serves c key (vrrp_update key (some st) s)
  unfolding vrrp_update
  put-Serves c key st s pid p noted found found' a b d g =
      let p' : Process K = record p { queue = p.queue ++ some st ∷ [] } in
      let e = ap last (append_assoc (map some p.taken) p.queue (some st ∷ [])) in
      rw (found, vrrp_update)
        (rw found' (
          st,
          pid,
          p',
          noted,
          found,
          insert-same (key, pid) (key, pid) p' s.workers (self {A = Key × ℕ} (key, pid)),
          (
            a,
            b,
            d,
            goes_on-append p.queue st g,
            sym e ∙ last-append (map some p.taken ++ p.queue) (some st),
          ),
        ))

  put_states :
      (e : Option String) (key : Key) (s : System K) → (vrrp_update key e s).states ≡ s.states
  unfolding vrrp_update
  put_states e key s = elim (Option-cases (lookup key s.processes)) [
    | inl missing ↦ rw (missing, vrrp_update) refl
    | inr (pid, found) ↦ elim (Option-cases (lookup (key, pid) s.workers)) [
      | inl missing ↦ rw (found, vrrp_update) (rw missing refl)
      | inr (p, found') ↦ rw (found, vrrp_update) (rw found' refl)
    ]
  ]

  pub respawn-Serves :
      (c : IfState K) (key : Key) (st : String) (s : System K)
      → lookup key s.states ≡ some st
      → Serves c key (respawn c (key, st) s)
  unfolding respawn spawn
  respawn-Serves c key st s noted =
      let ended = vrrp_update key none s in
      let fresh = spawn key c ended in
      put-Serves c key st fresh ended.next_pid _ (ap (lookup key) (put_states none key s) ∙ noted)
        (insert-same key key ended.next_pid ended.processes (self key))
        (insert-same (key, ended.next_pid) (key, ended.next_pid) _ ended.workers
          (self {A = Key × ℕ} (key, ended.next_pid)))
        refl refl refl refl
