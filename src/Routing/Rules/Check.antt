-- ===== src/Routing/Rules/Check.antt =====
-- A check of the rules.
use ifstate.Prelude.{◌≡◌, refl, ◌∙◌, Bool, false, List, arith}
use ifstate.Value.{Fields}
use ifstate.Netlink.{Run, Event, Answer, note, request, for_each-kernel, for_each_keeps}
use ifstate.Routing.Tables.{Mode}
use ifstate.Routing.Rules.Apply.{Request, setup_rule, take_rule, apply_rule, remove_rule, apply}
use ifstate.Routing.Match.{vrrp_match}

module _ {K : Type 0} (send : Request → K → Answer × K) (dump : K → List Fields) (mode : Mode)
    (dry : mode.do_apply ≡ false) where
  abbrev State : Type 0
  State = List Fields × Run K Request (Event Fields)

  setup_dry :
      (rule : Fields) (found : Bool) (s : Run K Request (Event Fields))
      → (setup_rule send dump mode rule found s).kernel ≡ s.kernel
  unfolding setup_rule request note
  setup_dry rule found s = ground arith

  rule_dry :
      (rule : Fields) (st : State) → (apply_rule send dump mode rule st).1.kernel ≡ st.1.kernel
  unfolding apply_rule
  rule_dry rule (ks, s) =
      let matched = vrrp_match rule mode.by_vrrp mode.vrrp_type mode.vrrp_name mode.vrrp_state in
      ground (arith, setup_dry rule (take_rule matched rule ks).0 s)

  remove_dry :
      (ignores : List Fields) (rule : Fields) (s : Run K Request (Event Fields))
      → (remove_rule send dump mode ignores rule s).kernel ≡ s.kernel
  unfolding remove_rule request note
  remove_dry ignores rule s = ground arith

  -- A check leaves the kernel as it was.
  pub apply-dry :
      (ignores rules : List Fields) (s : Run K Request (Event Fields))
      → (apply send dump mode ignores rules s).kernel ≡ s.kernel
  unfolding apply
  apply-dry ignores rules s =
      for_each-kernel _ (remove_dry ignores) _ _
      ∙ for_each_keeps (λ (st : State). st.1.kernel ≡ s.kernel) (apply_rule send dump mode)
          (λ rule st h. rule_dry rule st ∙ h) rules (dump s.kernel, s) refl
