-- ===== src/VrrpFifo/Reached.antt =====
-- In every system that is reached, the worker of each key has its last state and the current configuration.
use mathlib.Core.List.{append_assoc}
use ifstate.Prelude.{
  ℕ, String, ◌≡◌, refl, sym, ap, subst, ◌∙◌, true, Option, none, some, List, [], ◌∷◌, ◌++◌, ◌==◌,
  text_key, pair_key, pair_beq, number_key, map, if◌then◌else◌, inl, inr, Bool-cases, Option-cases,
  Distinct,
}
use ifstate.Prelude.Dict.{keys, lookup, insert, Distinct-keys-insert}
use ifstate.Netlink.{Answer, for_each_keeps}
use ifstate.Apply.{Selector}
use ifstate.Apply.Orphans.{LinkRequest}
use ifstate.Apply.Run.{IfState}
use ifstate.VrrpFifo.{
  Key, Process, System, new, spawn, vrrp_update, ensure, update, respawn, reconfigure, take, work,
  Step, reported, reconfigured, worked, Steps, stop, more,
}
use ifstate.VrrpFifo.Frames.{
  last, goes_on, map-append, insert-same, insert-other, Runs, Serves, Good, Same-Good,
}
use ifstate.VrrpFifo.Served.{update-Same, update-Serves, reconfigure-Good}

module _ {K : Type 0} where
  -- What the fields beside the workers are.
  abbrev Kept : System K → System K → Type 0
  Kept s t = (t.states ≡ s.states) × (t.ifstate ≡ s.ifstate)

  put-Kept : (e : Option String) (key : Key) (s : System K) → Kept s (vrrp_update key e s)
  unfolding vrrp_update
  put-Kept e key s = elim (Option-cases (lookup key s.processes)) [
    | inl missing ↦ rw (missing, vrrp_update) (refl, refl)
    | inr (pid, found) ↦ elim (Option-cases (lookup (key, pid) s.workers)) [
      | inl missing ↦ rw (found, vrrp_update) (rw missing (refl, refl))
      | inr (p, found') ↦ rw (found, vrrp_update) (rw found' (refl, refl))
    ]
  ]

  ensure-Kept : (key : Key) (s : System K) → Kept s (ensure key s)
  unfolding ensure spawn
  ensure-Kept key s = elim (Option-cases (lookup key s.processes)) [
    | inl missing ↦ rw (missing, ensure) (refl, refl)
    | inr (pid, found) ↦ rw (found, ensure) (refl, refl)
  ]

  update_fields :
      (key : Key) (st : String) (s : System K)
      → ((update key st s).states ≡ insert key st s.states)
        × ((update key st s).ifstate ≡ s.ifstate)
  unfolding update
  update_fields key st s =
      let ready = ensure key s in
      let (a, b) = put-Kept (some st) key (record ready { states = insert key st ready.states }) in
      let (a', b') = ensure-Kept key s in (a ∙ ap (insert key st) a', b ∙ b')

  respawn-Kept : (c : IfState K) (i : Key × String) (s : System K) → Kept s (respawn c i s)
  unfolding respawn spawn
  respawn-Kept c (key, st) s =
      let ended = vrrp_update key none s in
      let (a, b) = put-Kept none key s in
      let (a', b') = put-Kept (some st) key (spawn key c ended) in (a' ∙ a, b' ∙ b)

  reconfigure_fields :
      (c : IfState K) (s : System K)
      → ((reconfigure c s).states ≡ s.states) × ((reconfigure c s).ifstate ≡ c)
  unfolding reconfigure
  reconfigure_fields c s =
      for_each_keeps (λ (t : System K). (t.states ≡ s.states) × (t.ifstate ≡ c)) (respawn c)
        (λ i t h. let (a, b) = respawn-Kept c i t in (a ∙ h.0, b ∙ h.1)) s.states
        (record s { ifstate = c }) (refl, refl)

  module _ (send : LinkRequest → K → Answer × K) (lower : String → String)
      (crash : Selector → IfState K → K → Option K) where
    -- A turn of a worker keeps what it is to do.
    take-Runs :
        (c : IfState K) (key : Key) (st : String) (p : Process K) (q : List (Option String)) (k : K)
        → goes_on q ≡ true
        → last (map some p.taken ++ q) ≡ some (some st)
        → Runs c key st p
        → Runs c key st (take send lower crash p q k).0
    unfolding take
    take-Runs c key st p [] k g l runs = runs
    take-Runs c key st p (none ∷ q) k g l runs = cc
    take-Runs c key st p (some x ∷ q) k g l (a, b, d, g', l') =
        let more' =
          ap (λ h. h ++ q) (map-append p.taken (x ∷ []))
          ∙ append_assoc (map some p.taken) (some x ∷ []) q in
        (a, b, refl, g, ap last more' ∙ l)

    turned-Good :
        (c : IfState K) (key : Key) (id : Key × ℕ) (s : System K) (p : Process K) (k k' : K)
        → lookup id s.workers ≡ some p
        → Good c key s
        → Good c key (record s {
          workers = insert id (take send lower crash p p.queue k).0 s.workers;
          kernel = k';
        })
    turned-Good c key id s p k k' found (inl absent) = inl absent
    turned-Good c key id s p k k' found (inr (st, pid, p0, noted, at', found', runs)) =
        let p' = (take send lower crash p p.queue k).0 in
        elim (Bool-cases (pair_beq id (key, pid))) [
          | inl same ↦
              let e : id ≡ (key, pid) = (pair_key.same_iff id (key, pid)).0 same in
              let both : some p0 ≡ some p =
                sym found' ∙ ap (λ i. lookup i s.workers) (sym e) ∙ found in
              let e' : p0 ≡ p = cc in
              let own = subst (Runs c key st) e' runs in
              inr (
                st,
                pid,
                p',
                noted,
                at',
                insert-same id (key, pid) p' s.workers same,
                take-Runs c key st p p.queue k own.3 own.4 own,
              )
          | inr differs ↦ inr (
            st,
            pid,
            p0,
            noted,
            at',
            insert-other id (key, pid) p' s.workers differs ∙ found',
            runs,
          )
        ]

    work-Good :
        (c : IfState K) (key : Key) (id : Key × ℕ) (s : System K)
        → Good c key s
        → Good c key (work send lower crash id s)
    unfolding work
    work-Good c key id s good = elim (Option-cases (lookup id s.workers)) [
      | inl missing ↦ rw (missing, work) good
      | inr (p, found) ↦ elim (Bool-cases p.alive) [
        | inl alive ↦
            let (p', k) = take send lower crash p p.queue s.kernel in
            let t : System K = record s { workers = insert id p' s.workers; kernel = k } in
            rw (found, work)
              (subst (λ b. Good c key (if b then t else s)) (sym alive)
                (turned-Good c key id s p s.kernel k found good))
        | inr over ↦ rw (found, work) (rw over good)
      ]
    ]

    work-Kept : (id : Key × ℕ) (s : System K) → Kept s (work send lower crash id s)
    unfolding work
    work-Kept id s = elim (Option-cases (lookup id s.workers)) [
      | inl missing ↦ rw (missing, work) (refl, refl)
      | inr (p, found) ↦ elim (Bool-cases p.alive) [
        | inl alive ↦ rw (found, work) (rw alive (refl, refl))
        | inr over ↦ rw (found, work) (rw over (refl, refl))
      ]
    ]

    -- Each key is served, and no key has two states.
    abbrev Inv : System K → Type 0
    Inv s = Distinct (keys s.states) × ((key : Key) → Good s.ifstate key s)

    Step-Inv : {s t : System K} → Step send lower crash s t → Inv s → Inv t
    Step-Inv (reported key st s) (dist, good) =
        let (a, b) = update_fields key st s in
        (
          subst (λ d. Distinct (keys d)) (sym a) (Distinct-keys-insert key st s.states dist),
          λ k.
              subst (λ c. Good c k (update key st s)) (sym b)
                (elim (Bool-cases (key == k)) [
                  | inl same ↦
                      let e : key ≡ k = (pair_key.same_iff key k).0 same in
                      inr (
                        subst (λ x. Serves s.ifstate x (update key st s)) e
                          (update-Serves key st s (good key)))
                  | inr differs ↦
                      Same-Good s.ifstate k s (update key st s) (update-Same k key st s differs)
                        (good k)
                ]),
        )
    Step-Inv (reconfigured c s) (dist, good) =
        let (a, b) = reconfigure_fields c s in
        (
          subst (λ d. Distinct (keys d)) (sym a) dist,
          λ k.
              subst (λ x. Good x k (reconfigure c s)) (sym b)
                (reconfigure-Good c k s dist (good k)),
        )
    Step-Inv (worked id s) (dist, good) =
        let (a, b) = work-Kept id s in
        (
          subst (λ d. Distinct (keys d)) (sym a) dist,
          λ k.
              subst (λ x. Good x k (work send lower crash id s)) (sym b)
                (work-Good s.ifstate k id s (good k)),
        )

    Steps-Inv : {s t : System K} → Steps send lower crash s t → Inv s → Inv t
    Steps-Inv (stop s) inv = inv
    Steps-Inv (more step steps) inv = Steps-Inv steps (Step-Inv step inv)

    -- After any sequence of reports, reconfigurations and turns of workers, in any order and
    -- whatever exceptions an apply ends in, a key with a noted state has a process for that key
    -- with the current configuration, whose queue has no end and which runs unless an exception has
    -- ended it, and the noted state is the last one that it has taken from its queue or is to take.
    pub Steps-Serves :
        (c : IfState K) (k : K) (s : System K) (key : Key) (state : String)
        → Steps send lower crash (new c k) s
        → lookup key s.states ≡ some state
        → (pid : ℕ) × (p : Process K) × (lookup key s.processes ≡ some pid)
          × (lookup (key, pid) s.workers ≡ some p)
          × Runs s.ifstate key state p
    unfolding new lookup
    Steps-Serves c k s key state steps noted =
        let (dist, good) = Steps-Inv steps (tt, λ key. inl (refl, refl)) in
        elim (good key) [
          | inl (absent, missing) ↦ let e : none ≡ some state = sym absent ∙ noted in cc
          | inr (st, pid, p, noted', at', found, runs) ↦
              let both : some st ≡ some state = sym noted' ∙ noted in
              let e : st ≡ state = cc in
              (pid, p, at', found, subst (λ x. Runs s.ifstate key x p) e runs)
        ]
