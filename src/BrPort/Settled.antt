-- ===== src/BrPort/Settled.antt =====
-- A port that is configured has nothing left to change.
use ifstate.Prelude.{
  ℕ, String, ◌≡◌, refl, sym, ap, subst, ◌∙◌, true, false, not, some, [], ◌∷◌, ◌==◌, arith, any,
  text_key, Distinct, contains, Bool-cases, inl, inr,
}
use ifstate.Prelude.Dict.{keys, lookup, has, has-keys}
use ifstate.Value.{Value, Fields, value_key}
use ifstate.Netlink.{accepted, note}
use ifstate.Collector.{attempt, add_excpt}
use ifstate.BrPort.{set, Host, BrPort, has_changes, PortTask, apply, configure}

-- What the kernel promises: a set is accepted, and afterwards the link is a port whose attributes are those
-- that were set.
pub record IsServed {K : Type 0} (host : Host K) : Type 0 where
  pub accepts : (idx : ℕ) (d : Fields) (k : K) → (host.send (set idx d) k).0 ≡ accepted
  pub attr : ℕ → K → String → Value
  pub is_port :
      (idx : ℕ) (d : Fields) (k : K)
      → host.dump (host.send (set idx d) k).1 idx ≡ some (attr idx (host.send (set idx d) k).1)
  pub keeps :
      (idx : ℕ) (d : Fields) (k : K) (key : String) (v : Value)
      → lookup key d ≡ some v
      → attr idx (host.send (set idx d) k).1 key ≡ v

-- Nothing differs if the attributes are those of the dictionary.
all_same :
    (attr : String → Value) (d : Fields)
    → Distinct (keys d)
    → ((key : String) (v : Value) → lookup key d ≡ some v → attr key ≡ v)
    → any (λ p. not (attr p.0 == p.1)) d ≡ false
unfolding lookup
all_same attr [] dist same = refl
all_same attr ((key, v) ∷ d) (fresh, dist) same =
    let here : attr key ≡ v = same key v (rw ((text_key.same_iff key key).1 refl) refl) in
    let equal : (attr key == v) ≡ true = (value_key.same_iff (attr key) v).1 here in
    let rest : (k : String) (w : Value) → lookup k d ≡ some w → attr k ≡ w = λ k w found.
      same k w (elim (Bool-cases (key == k)) [
        | inl own ↦
            let e : key ≡ k = (text_key.same_iff key k).0 own in
            let there : contains k (keys d) ≡ true = sym (has-keys k d) ∙ rw (has, found) refl in
            let away : contains k (keys d) ≡ false =
              subst (λ x. contains x (keys d) ≡ false) e fresh in
            let absurd : true ≡ false = sym there ∙ away in cc
        | inr other ↦ rw other found
      ]) in
    rw (equal, all_same attr d dist rest) refl

module _ {K : Type 0} (host : Host K) (served : IsServed host) where
  sent_kernel :
      (c : BrPort) (idx : ℕ) (t : PortTask host)
      → (apply host true c idx t).run.kernel ≡ (host.send (set idx c.brport) t.run.kernel).1
  unfolding apply attempt add_excpt note
  sent_kernel c idx t = ground (arith, served.accepts idx c.brport t.run.kernel)

  settled :
      (c : BrPort) (idx : ℕ) (k : K)
      → Distinct (keys c.brport)
      → has_changes host c idx (host.send (set idx c.brport) k).1 ≡ false
  unfolding has_changes
  settled c idx k dist =
      rw (has_changes, served.is_port idx c.brport k)
        (all_same (served.attr idx (host.send (set idx c.brport) k).1) c.brport dist
          (served.keeps idx c.brport k))

  -- If the kernel accepts the request and then has the settings that were set, and the settings are
  -- distinct, a port that is configured has no changes left.
  pub has_changes-configure :
      (c : BrPort) (idx : ℕ) (t : PortTask host)
      → Distinct (keys c.brport)
      → has_changes host c idx (configure host true c idx t).run.kernel ≡ false
  unfolding configure
  has_changes-configure c idx t dist = elim (Bool-cases (has_changes host c idx t.run.kernel)) [
    | inl differs ↦
        rw (differs, configure)
          (ap (has_changes host c idx) (sent_kernel c idx t) ∙ settled c idx t.run.kernel dist)
    | inr same ↦ rw (same, configure) same
  ]
