-- ===== src/Routing/Rules/Provided.antt =====
-- What `Rules.apply` adds: a configured rule is in the kernel, or it is sent.
use ifstate.Prelude.{
  ◌≡◌, refl, sym, ◌∙◌, ap, subst, ◌⊎◌, inl, inr, true, List, [], ◌∷◌, ◌++◌, arith, In,
  In-append_left, In-append_right, Bool-cases,
}
use mathlib.Core.List.{append-nil}
use ifstate.Value.{Fields}
use ifstate.Netlink.{Answer, Event, Run, start, note, request, for_each}
use ifstate.Routing.Match.{vrrp_match, present}
use ifstate.Routing.Tables.{Mode}
use ifstate.Routing.Rules.Apply.{
  Request, add, del, rule_matches, take_rule, setup_rule, apply_rule, remove_rule, apply,
}
use ifstate.Routing.Rules.Sent.{In-found, loop_kept}

-- The rules that are added.
abbrev pub adds : List Request → List Fields
adds [] = []
adds (add r ∷ rs) = r ∷ adds rs
adds (del r ∷ rs) = adds rs

adds-append : (rs ss : List Request) → adds (rs ++ ss) ≡ adds rs ++ adds ss
adds-append [] ss = refl
adds-append (add r ∷ rs) ss = ap (λ l. r ∷ l) (adds-append rs ss)
adds-append (del r ∷ rs) ss = adds-append rs ss

module _ {K : Type 0} (send : Request → K → Answer × K) (dump : K → List Fields) (mode : Mode) where
  rule_adds :
      (rule : Fields) (ks : List Fields) (s : Run K Request (Event Fields)) (x : Fields)
      → In x (adds s.sent)
      → In x (adds (apply_rule send dump mode rule (ks, s)).1.sent)
  unfolding apply_rule setup_rule request note
  rule_adds rule ks s x m =
      ground
        (arith, adds-append s.sent (add rule ∷ []), In-append_left x (adds s.sent) (rule ∷ []) m)

  loop_adds :
      (rs ks : List Fields) (s : Run K Request (Event Fields)) (x : Fields)
      → In x (adds s.sent)
      → In x (adds (for_each rs (apply_rule send dump mode) (ks, s)).1.sent)
  unfolding for_each
  loop_adds [] ks s x m = m
  loop_adds (r ∷ rs) ks s x m =
      let (ks', s') = apply_rule send dump mode r (ks, s) in
      loop_adds rs ks' s' x (rule_adds r ks s x m)

  remove_adds :
      (ignores left : List Fields) (s : Run K Request (Event Fields))
      → adds (for_each left (remove_rule send dump mode ignores) s).sent ≡ adds s.sent
  unfolding for_each remove_rule request note
  remove_adds ignores [] s = refl
  remove_adds ignores (k ∷ left) s =
      let s' = remove_rule send dump mode ignores k s in
      remove_adds ignores left s'
      ∙ ground (arith, adds-append s.sent (del k ∷ []), append-nil (adds s.sent))

  abbrev Present : Fields → Type 0
  Present rule =
      present (vrrp_match rule mode.by_vrrp mode.vrrp_type mode.vrrp_name mode.vrrp_state) ≡ true

  -- A rule is in the kernel, or it is added.
  rule_provided :
      (rule : Fields) (ks : List Fields) (s : Run K Request (Event Fields))
      → mode.do_apply ≡ true
      → Present rule
      → In rule (adds (apply_rule send dump mode rule (ks, s)).1.sent)
        ⊎ (k : Fields) × In k ks × (rule_matches rule k ≡ true)
  unfolding apply_rule setup_rule request note
  rule_provided rule ks s h p =
      let matched = vrrp_match rule mode.by_vrrp mode.vrrp_type mode.vrrp_name mode.vrrp_state in
      elim (Bool-cases (take_rule matched rule ks).0) [
        | inl found ↦ inr (In-found matched rule ks found)
        | inr missing ↦ inl (
            ground (
              arith,
              adds-append s.sent (add rule ∷ []),
              In-append_right rule (adds s.sent) (rule ∷ []) (inl refl),
            ))
      ]

  loop_provided :
      (rs ks : List Fields) (s : Run K Request (Event Fields)) (rule : Fields)
      → mode.do_apply ≡ true
      → Present rule
      → In rule rs
      → In rule (adds (for_each rs (apply_rule send dump mode) (ks, s)).1.sent)
        ⊎ (k : Fields) × In k ks × (rule_matches rule k ≡ true)
  unfolding for_each
  loop_provided [] ks s rule h p m = elim m [ ]
  loop_provided (r ∷ rs) ks s rule h p (inl e) =
      let (ks', s') = apply_rule send dump mode r (ks, s) in
      elim (rule_provided r ks s h (subst Present e p)) [
        | inl sent ↦ inl (
            subst (λ x. In x (adds (for_each rs (apply_rule send dump mode) (ks', s')).1.sent))
              (sym e) (loop_adds rs ks' s' r sent))
        | inr (k, i, same) ↦ inr (k, i, subst (λ x. rule_matches x k ≡ true) (sym e) same)
      ]
  loop_provided (r ∷ rs) ks s rule h p (inr m) =
      let (ks', s') = apply_rule send dump mode r (ks, s) in
      elim (loop_provided rs ks' s' rule h p m) [
        | inl sent ↦ inl sent
        | inr (k, i, same) ↦
            let into = (loop_kept send dump mode (r ∷ []) ks s k).0 in inr (k, into i, same)
      ]

  -- In a run that applies, a configured rule that the run has present is matched by a rule that the
  -- kernel had, or is added.
  pub apply_rules_provides :
      (ignores rules : List Fields) (kn : K) (rule : Fields)
      → mode.do_apply ≡ true
      → present (vrrp_match rule mode.by_vrrp mode.vrrp_type mode.vrrp_name mode.vrrp_state) ≡ true
      → In rule rules
      → In rule (adds (apply send dump mode ignores rules (start kn)).sent)
        ⊎ (k : Fields) × In k (dump kn) × (rule_matches rule k ≡ true)
  unfolding apply
  apply_rules_provides ignores rules kn rule h p m =
      let (left, s') = for_each rules (apply_rule send dump mode) (dump kn, start kn) in
      subst (λ l. In rule l ⊎ (k : Fields) × In k (dump kn) × (rule_matches rule k ≡ true))
        (sym (remove_adds ignores left s')) (loop_provided rules (dump kn) (start kn) rule h p m)
