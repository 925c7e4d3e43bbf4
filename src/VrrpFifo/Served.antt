-- ===== src/VrrpFifo/Served.antt =====
-- What a report and a reconfiguration do to the worker of a key.
use ifstate.Prelude.{
  ℕ, String, ◌≡◌, refl, sym, ap, subst, ◌∙◌, true, false, not, none, some, [], ◌∷◌, ◌==◌, text_key,
  pair_key, number_key, arith, inl, inr, Bool-cases, Option-cases, Distinct, contains,
}
use ifstate.Prelude.Dict.{Dict, keys, lookup, insert}
use ifstate.Netlink.{for_each}
use ifstate.Apply.Run.{IfState}
use ifstate.VrrpFifo.{Key, Process, System, spawn, ensure, update, respawn, reconfigure}
use ifstate.VrrpFifo.Frames.{
  goes_on, insert-same, insert-other, self, Serves, Good, Same, Same-Good, Same-trans, spawn-Same,
  put-Same, respawn-Same, put-Serves, respawn-Serves,
}

key_same : (k key : Key) → (k == key) ≡ true → k ≡ key
key_same k key same = (pair_key.same_iff k key).0 same

absent : (key : Key) (d : Dict Key String) → lookup key d ≡ none → contains key (keys d) ≡ false
unfolding lookup
absent key [] h = refl
absent key ((k, v) ∷ d) h = elim (Bool-cases (k == key)) [
  | inl same ↦ let e : some v ≡ none = sym (rw same refl) ∙ h in cc
  | inr differs ↦ rw differs (absent key d (sym (rw differs refl) ∙ h))
]

module _ {K : Type 0} where
  ensure-Same : (key k : Key) (s : System K) → (k == key) ≡ false → Same key s (ensure k s)
  unfolding ensure
  ensure-Same key k s differs = elim (Option-cases (lookup k s.processes)) [
    | inl missing ↦ rw (missing, ensure) (spawn-Same s.ifstate key k s differs)
    | inr (pid, found) ↦ rw (found, ensure) (refl, refl, λ pid. refl)
  ]

  pub update-Same :
      (key k : Key) (st : String) (s : System K) → (k == key) ≡ false → Same key s (update k st s)
  unfolding update
  update-Same key k st s differs =
      let ready = ensure k s in
      let noted : System K = record ready { states = insert k st ready.states } in
      let same : Same key ready noted =
        (insert-other k key st ready.states differs, refl, λ pid. refl) in
      Same-trans key s ready (update k st s) (ensure-Same key k s differs)
        (Same-trans key ready noted (update k st s) same (put-Same (some st) key k noted differs))

  -- A worker that can take a state.
  abbrev Ready : IfState K → Key → System K → Type 0
  Ready c key s =
      (pid : ℕ) × (p : Process K) × (lookup key s.processes ≡ some pid)
      × (lookup (key, pid) s.workers ≡ some p)
      × ((p.key ≡ key) × (p.ifstate ≡ c) × (p.alive ≡ not p.failed) × (goes_on p.queue ≡ true))

  ensure-Ready :
      (key : Key) (s : System K) → Good s.ifstate key s → Ready s.ifstate key (ensure key s)
  unfolding ensure spawn
  ensure-Ready key s (inl (none', missing)) =
      let p : Process K = record {
        key = key;
        ifstate = s.ifstate;
        queue = [];
        taken = [];
        alive = true;
        failed = false;
      } in
      rw (missing, ensure)
        (
          s.next_pid,
          p,
          insert-same key key s.next_pid s.processes (self key),
          insert-same (key, s.next_pid) (key, s.next_pid) p s.workers
              (self {A = Key × ℕ} (key, s.next_pid)),
          (refl, refl, refl, refl),
        )
  ensure-Ready key s (inr (st, pid, p, noted, found, found', (a, b, d, g, l))) =
      rw (found, ensure) (pid, p, found, found', (a, b, d, g))

  pub update-Serves :
      (key : Key) (st : String) (s : System K)
      → Good s.ifstate key s
      → Serves s.ifstate key (update key st s)
  unfolding update
  update-Serves key st s good =
      let ready = ensure key s in
      let (pid, p, found, found', (a, b, d, g)) = ensure-Ready key s good in
      put-Serves s.ifstate key st (record ready { states = insert key st ready.states }) pid p
        (insert-same key key st ready.states (self key)) found found' a b d g

  Same-Serves :
      (c : IfState K) (key : Key) (s t : System K) → Same key s t → Serves c key s → Serves c key t
  Same-Serves c key s t (a, b, w) (state, pid, p, x, y, z, runs) =
      (state, pid, p, a ∙ x, b ∙ y, w pid ∙ z, runs)

  -- The loop of a reconfiguration.
  loop-other :
      (c : IfState K) (key : Key) (items : Dict Key String) (s : System K)
      → contains key (keys items) ≡ false
      → Same key s (for_each items (respawn c) s)
  unfolding for_each
  loop-other c key [] s out = (refl, refl, λ pid. refl)
  loop-other c key ((k, st) ∷ items) s out =
      let differs : (k == key) ≡ false = ground arith in
      let out' : contains key (keys items) ≡ false = ground arith in
      let s' = respawn c (k, st) s in
      Same-trans key s s' (for_each items (respawn c) s') (respawn-Same c st key k s differs)
        (loop-other c key items s' out')

  loop-Serves :
      (c : IfState K) (key : Key) (st : String) (items : Dict Key String) (s : System K)
      → Distinct (keys items)
      → lookup key items ≡ some st
      → lookup key s.states ≡ some st
      → Serves c key (for_each items (respawn c) s)
  unfolding for_each lookup
  loop-Serves c key st [] s dist found noted = cc
  loop-Serves c key st ((k, st') ∷ items) s (fresh, dist) found noted =
      elim (Bool-cases (k == key)) [
        | inl same ↦
            let e : k ≡ key = key_same k key same in
            let both : some st' ≡ some st = sym (rw same refl) ∙ found in
            let e' : st' ≡ st = cc in
            let here : (k, st') ≡ (key, st) = ap (λ x. (x, st')) e ∙ ap (λ x. (key, x)) e' in
            let s' = respawn c (k, st') s in
            Same-Serves c key s' (for_each items (respawn c) s')
              (loop-other c key items s' (subst (λ x. contains x (keys items) ≡ false) e fresh))
              (subst (λ i. Serves c key (respawn c i s)) (sym here)
                (respawn-Serves c key st s noted))
        | inr differs ↦
            let s' = respawn c (k, st') s in
            loop-Serves c key st items s' dist (sym (rw differs refl) ∙ found)
              ((respawn-Same c st' key k s differs).0 ∙ noted)
      ]

  pub reconfigure-Good :
      (c : IfState K) (key : Key) (s : System K)
      → Distinct (keys s.states)
      → Good s.ifstate key s
      → Good c key (reconfigure c s)
  unfolding reconfigure
  reconfigure-Good c key s dist (inl (none', missing)) =
      Same-Good c key (record s { ifstate = c }) (reconfigure c s)
        (loop-other c key s.states (record s { ifstate = c }) (absent key s.states none'))
        (inl (none', missing))
  reconfigure-Good c key s dist (inr (st, pid, p, noted, found, found', runs)) =
      inr (loop-Serves c key st s.states (record s { ifstate = c }) dist noted noted)
