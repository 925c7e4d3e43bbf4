-- ===== src/VrrpFifo/Alive.antt =====
-- A worker ends by an exception only if an apply raises one.
use ifstate.Prelude.{
  ℕ, String, ◌≡◌, refl, sym, ap, subst, ◌∙◌, true, false, not, Option, none, some, List, [], ◌∷◌,
  ◌++◌, text_key, pair_key, pair_beq, number_key, if◌then◌else◌, inl, inr, Bool-cases, Option-cases,
}
use ifstate.Prelude.Dict.{Dict, lookup, insert}
use ifstate.Netlink.{Answer, for_each_keeps}
use ifstate.Apply.{Selector}
use ifstate.Apply.Orphans.{LinkRequest}
use ifstate.Apply.Run.{IfState}
use ifstate.VrrpFifo.{
  Key, Process, System, new, spawn, vrrp_update, ensure, update, respawn, reconfigure, run_state,
  take, work, reported, reconfigured, worked, Steps, stop, more,
}
use ifstate.VrrpFifo.Frames.{insert-same, insert-other, Runs}
use ifstate.VrrpFifo.Reached.{Steps-Serves}

module _ {K : Type 0} (P : IfState K → Type 0) where
  -- No exception has ended a worker, and each configuration is one of those of which no apply raises.
  abbrev Sound : Process K → Type 0
  Sound p = (p.failed ≡ false) × P p.ifstate

  abbrev Workers : Dict (Key × ℕ) (Process K) → Type 0
  Workers d = (id : Key × ℕ) (p : Process K) → lookup id d ≡ some p → Sound p

  abbrev Healthy : System K → Type 0
  Healthy s = P s.ifstate × Workers s.workers

  put-Workers :
      (d : Dict (Key × ℕ) (Process K)) (i : Key × ℕ) (p : Process K)
      → Workers d
      → Sound p
      → Workers (insert i p d)
  put-Workers d i p healthy good id q found = elim (Bool-cases (pair_beq i id)) [
    | inl same ↦
        let both : some p ≡ some q = sym (insert-same i id p d same) ∙ found in
        let e : p ≡ q = cc in subst Sound e good
    | inr differs ↦ healthy id q (sym (insert-other i id p d differs) ∙ found)
  ]

  spawn-Healthy :
      (key : Key) (c : IfState K) (s : System K) → P c → Healthy s → Healthy (spawn key c s)
  unfolding spawn
  spawn-Healthy key c s fine (own, healthy) = (
    own,
    put-Workers s.workers (key, s.next_pid)
        (record { key = key; ifstate = c; queue = []; taken = []; alive = true; failed = false })
        healthy (refl, fine),
  )

  entry-Healthy :
      (key : Key) (e : Option String) (s : System K) → Healthy s → Healthy (vrrp_update key e s)
  unfolding vrrp_update
  entry-Healthy key e s (own, healthy) = elim (Option-cases (lookup key s.processes)) [
    | inl gone ↦ rw (gone, vrrp_update) (own, healthy)
    | inr (pid, found) ↦ elim (Option-cases (lookup (key, pid) s.workers)) [
      | inl gone ↦ rw (found, vrrp_update) (rw gone (own, healthy))
      | inr (p, there) ↦
          rw (found, vrrp_update)
            (rw there (
              own,
              put-Workers s.workers (key, pid) (record p { queue = p.queue ++ e ∷ [] }) healthy
                  (healthy (key, pid) p there),
            ))
    ]
  ]

  update-Healthy :
      (key : Key) (state : String) (s : System K) → Healthy s → Healthy (update key state s)
  unfolding update ensure
  update-Healthy key state s (own, healthy) =
      let ready : Healthy (ensure key s) = elim (Option-cases (lookup key s.processes)) [
        | inl gone ↦ rw (gone, ensure) (spawn-Healthy key s.ifstate s own (own, healthy))
        | inr (pid, found) ↦ rw (found, ensure) (own, healthy)
      ] in
      let s' = ensure key s in
      entry-Healthy key (some state) (record s' { states = insert key state s'.states }) ready

  reconfigure-Healthy : (c : IfState K) (s : System K) → P c → Healthy s → Healthy (reconfigure c s)
  unfolding reconfigure respawn
  reconfigure-Healthy c s fine (own, healthy) =
      for_each_keeps Healthy (respawn c)
        (λ (key, state) t h.
          entry-Healthy key (some state) (spawn key c (vrrp_update key none t))
            (spawn-Healthy key c (vrrp_update key none t) fine (entry-Healthy key none t h)))
        s.states (record s { ifstate = c }) (fine, healthy)

  module _ (send : LinkRequest → K → Answer × K) (lower : String → String)
      (crash : Selector → IfState K → K → Option K)
      (quiet : (by : Selector) (i : IfState K) (k : K)
        → P i
        → (run_state send lower crash by i k).0 ≡ false) where
    take-Sound :
        (p : Process K) (q : List (Option String)) (k : K)
        → Sound p
        → Sound (take send lower crash p q k).0
    unfolding take
    take-Sound p [] k good = good
    take-Sound p (none ∷ q) k good = good
    take-Sound p (some x ∷ q) k (good, fine) = (
      quiet (record { vrrp_type = p.key.0; vrrp_name = p.key.1; vrrp_state = x }) p.ifstate k fine,
      fine,
    )

    work-Healthy : (id : Key × ℕ) (s : System K) → Healthy s → Healthy (work send lower crash id s)
    unfolding work
    work-Healthy id s (own, healthy) = elim (Option-cases (lookup id s.workers)) [
      | inl gone ↦ rw (gone, work) (own, healthy)
      | inr (p, found) ↦
          let (p', k) = take send lower crash p p.queue s.kernel in
          let t : System K = record s { workers = insert id p' s.workers; kernel = k } in
          let done : Healthy t = (
            own,
            put-Workers s.workers id p' healthy
                (take-Sound p p.queue s.kernel (healthy id p found)),
          ) in
          rw (found, work)
            (elim p.alive as (λ b. Healthy (if b then t else s)) [
              | true ↦ done
              | false ↦ (own, healthy)
            ])
    ]

    -- each new configuration is one of those
    abbrev pub Only : {s t : System K} → Steps send lower crash s t → Type 0
    Only (stop s) = Unit
    Only (more (reported key state s) steps) = Only steps
    Only (more (reconfigured c s) steps) = P c × Only steps
    Only (more (worked id s) steps) = Only steps

    Steps-Healthy :
        {s t : System K} (steps : Steps send lower crash s t) → Only steps → Healthy s → Healthy t
    Steps-Healthy (stop s) o h = h
    Steps-Healthy (more (reported key state s) steps) o h =
        Steps-Healthy steps o (update-Healthy key state s h)
    Steps-Healthy (more (reconfigured c s) steps) (fine, o) h =
        Steps-Healthy steps o (reconfigure-Healthy c s fine h)
    Steps-Healthy (more (worked id s) steps) o h = Steps-Healthy steps o (work-Healthy id s h)

    -- If an apply raises no exception on the first configuration and on each one that a
    -- reconfiguration brings, then after any sequence of reports, reconfigurations and turns of
    -- workers, in any order, a key with a noted state has a process for that key with the current
    -- configuration that runs, whose queue has no end, and the noted state is the last one that it
    -- has taken from its queue or is to take.
    pub Steps-alive :
        (c : IfState K) (k : K) (s : System K) (key : Key) (state : String)
        (steps : Steps send lower crash (new c k) s)
        → P c
        → Only steps
        → lookup key s.states ≡ some state
        → (pid : ℕ) × (p : Process K) × (lookup key s.processes ≡ some pid)
          × (lookup (key, pid) s.workers ≡ some p)
          × (p.alive ≡ true)
          × Runs s.ifstate key state p
    unfolding new lookup
    Steps-alive c k s key state steps fine only noted =
        let (pid, p, at', found, runs) =
          Steps-Serves send lower crash c k s key state steps noted in
        let healthy = (Steps-Healthy steps only (fine, λ id q none'. cc)).1 in
        (pid, p, at', found, runs.2 ∙ ap not (healthy (key, pid) p found).0, runs)
