-- ===== src/Routing/Rules/Sent.antt =====
-- The requests that `Rules.apply` sends.
use ifstate.Prelude.{
  ◌≡◌, refl, sym, ◌∙◌, ap, subst, inl, inr, Bool, true, false, not, Option, List, [], ◌∷◌, ◌++◌,
  arith, In, In-filter, filter-In, All, filter, if◌then◌else◌, Bool-cases,
}
use mathlib.Core.List.{append-nil, append_assoc}
use ifstate.Value.{Fields}
use ifstate.Netlink.{Answer, Event, Run, start, note, request, for_each}
use ifstate.Routing.Match.{Verdict, vrrp_match}
use ifstate.Routing.Tables.{Mode}
use ifstate.Routing.Rules.Apply.{
  Request, add, del, rule_matches, take_rule, is_ignored, setup_rule, apply_rule, remove_rule,
  apply,
}

-- The kernel rules that are removed.
abbrev pub dels : List Request → List Fields
dels [] = []
dels (add r ∷ rs) = dels rs
dels (del r ∷ rs) = r ∷ dels rs

dels-append : (rs ss : List Request) → dels (rs ++ ss) ≡ dels rs ++ dels ss
dels-append [] ss = refl
dels-append (add r ∷ rs) ss = dels-append rs ss
dels-append (del r ∷ rs) ss = ap (λ l. r ∷ l) (dels-append rs ss)

module _ (matched : Option Verdict) (rule : Fields) where
  -- Nothing gets into the list,
  In-taken : (x : Fields) (ks : List Fields) → In x (take_rule matched rule ks).1 → In x ks
  unfolding take_rule
  In-taken x [] m = m
  In-taken x (k ∷ ks) m = ground (arith, In-taken x ks)

  -- what the rule does not match stays in it,
  In-left :
      (x : Fields) (ks : List Fields)
      → rule_matches rule x ≡ false
      → In x ks
      → In x (take_rule matched rule ks).1
  unfolding take_rule
  In-left x [] h m = m
  In-left x (k ∷ ks) h (inl e) = ground (arith, ap (rule_matches rule) e)
  In-left x (k ∷ ks) h (inr m) = ground (arith, In-left x ks h m)

  -- and `found` says that a member is matched.
  pub In-found :
      (ks : List Fields)
      → (take_rule matched rule ks).0 ≡ true
      → (k : Fields) × In k ks × (rule_matches rule k ≡ true)
  unfolding take_rule
  In-found [] h = cc
  In-found (k ∷ ks) h = elim (Bool-cases (rule_matches rule k)) [
    | inl hit ↦ (k, inl refl, hit)
    | inr other ↦ let (k', m, same) = In-found ks (ground arith) in (k', inr m, same)
  ]

module _ {K : Type 0} (send : Request → K → Answer × K) (dump : K → List Fields) (mode : Mode) where
  setup_dels :
      (rule : Fields) (found : Bool) (s : Run K Request (Event Fields))
      → dels (setup_rule send dump mode rule found s).sent ≡ dels s.sent
  unfolding setup_rule request note
  setup_dels rule found s =
      ground (arith, dels-append s.sent (add rule ∷ []), append-nil (dels s.sent))

  rule_dels :
      (rule : Fields) (ks : List Fields) (s : Run K Request (Event Fields))
      → dels (apply_rule send dump mode rule (ks, s)).1.sent ≡ dels s.sent
  unfolding apply_rule
  rule_dels rule ks s =
      let matched = vrrp_match rule mode.by_vrrp mode.vrrp_type mode.vrrp_name mode.vrrp_state in
      ground (arith, setup_dels rule (take_rule matched rule ks).0 s)

  loop_dels :
      (rs ks : List Fields) (s : Run K Request (Event Fields))
      → dels (for_each rs (apply_rule send dump mode) (ks, s)).1.sent ≡ dels s.sent
  unfolding for_each
  loop_dels [] ks s = refl
  loop_dels (r ∷ rs) ks s =
      let (ks', s') = apply_rule send dump mode r (ks, s) in loop_dels rs ks' s' ∙ rule_dels r ks s

  pub loop_kept :
      (rs ks : List Fields) (s : Run K Request (Event Fields)) (x : Fields)
      → (In x (for_each rs (apply_rule send dump mode) (ks, s)).0 → In x ks)
        × (All (λ r. rule_matches r x ≡ false) rs
            → In x ks
            → In x (for_each rs (apply_rule send dump mode) (ks, s)).0)
  unfolding for_each apply_rule
  loop_kept [] ks s x = (λ m. m, λ a m. m)
  loop_kept (r ∷ rs) ks s x =
      let (ks', s') = apply_rule send dump mode r (ks, s) in
      let (into, out) = loop_kept rs ks' s' x in
      let matched = vrrp_match r mode.by_vrrp mode.vrrp_type mode.vrrp_name mode.vrrp_state in
      (λ m. In-taken matched r x ks (into m), λ a m. out a.1 (In-left matched r x ks a.0 m))

  remove_one :
      (ignores : List Fields) (k : Fields) (s : Run K Request (Event Fields))
      → mode.do_apply ≡ true
      → dels (remove_rule send dump mode ignores k s).sent
        ≡ (if is_ignored ignores k then dels s.sent else dels s.sent ++ k ∷ [])
  unfolding remove_rule request note
  remove_one ignores k s h = ground (arith, dels-append s.sent (del k ∷ []))

  -- the clean-up loop
  remove_dels :
      (ignores : List Fields) (left : List Fields) (s : Run K Request (Event Fields))
      → mode.do_apply ≡ true
      → dels (for_each left (remove_rule send dump mode ignores) s).sent
        ≡ dels s.sent ++ filter (λ k. not (is_ignored ignores k)) left
  unfolding for_each
  remove_dels ignores [] s h = sym (append-nil (dels s.sent))
  remove_dels ignores (k ∷ left) s h =
      let s' = remove_rule send dump mode ignores k s in
      let kept = filter (λ k. not (is_ignored ignores k)) left in
      ground (
        arith,
        remove_dels ignores left s' h,
        remove_one ignores k s h,
        append_assoc (dels s.sent) (k ∷ []) kept,
      )

  run_dels :
      (ignores rules : List Fields) (s : Run K Request (Event Fields))
      → mode.do_apply ≡ true
      → dels (apply send dump mode ignores rules s).sent
        ≡ dels s.sent
          ++ filter
              (λ k. not (is_ignored ignores k))
              (for_each rules (apply_rule send dump mode) (dump s.kernel, s)).0
  unfolding apply
  run_dels ignores rules s h =
      let (left, s') = for_each rules (apply_rule send dump mode) (dump s.kernel, s) in
      remove_dels ignores left s' h
      ∙ ap (λ l. l ++ filter (λ k. not (is_ignored ignores k)) left)
          (loop_dels rules (dump s.kernel) s)

  -- In a run that applies, each rule that is removed is one that the kernel had, and is not
  -- ignored.
  pub apply_rules-removes :
      (ignores rules : List Fields) (kn : K) (k : Fields)
      → mode.do_apply ≡ true
      → In k (dels (apply send dump mode ignores rules (start kn)).sent)
      → In k (dump kn) × (is_ignored ignores k ≡ false)
  apply_rules-removes ignores rules kn k h m =
      let (i, p) =
        filter-In (λ k. not (is_ignored ignores k)) k _
          (subst (In k) (run_dels ignores rules (start kn) h) m) in
      ((loop_kept rules (dump kn) (start kn) k).0 i, ground arith)

  -- In a run that applies, a rule of the kernel that no configured rule matches and that is not
  -- ignored is removed.
  pub apply_rules_strays :
      (ignores rules : List Fields) (kn : K) (k : Fields)
      → mode.do_apply ≡ true
      → In k (dump kn)
      → is_ignored ignores k ≡ false
      → All (λ r. rule_matches r k ≡ false) rules
      → In k (dels (apply send dump mode ignores rules (start kn)).sent)
  apply_rules_strays ignores rules kn k h m kept strays =
      let left = (loop_kept rules (dump kn) (start kn) k).1 strays m in
      subst (In k) (sym (run_dels ignores rules (start kn) h))
        (In-filter (λ k. not (is_ignored ignores k)) k _ left (ap not kept))
