-- ===== src/Sysctl/Check.antt =====
-- A check of the sysctl settings.
use ifstate.Prelude.{
  String, ◌≡◌, refl, ◌∙◌, false, Option, none, some, [], arith, Option-cases, inl, inr, ◌==◌,
  text_key, Bool-cases,
}
use ifstate.Prelude.Dict.{Dict, lookup}
use ifstate.Netlink.{Run, Event, note, request, for_each_keeps}
use ifstate.Sysctl.{
  Request, Proc, Sysctl, Changes, Changed, set_sysctl, set_next, set_family, apply, set_global,
  set_proto, apply_globals,
}

module _ {K V : Type 0} (proc : Proc K) (str : V → String) where
  set_dry :
      (iface family key : String) (val : V) (s : Run K Request (Event (String × String)))
      → (set_sysctl proc str iface family key val false s).1.kernel ≡ s.kernel
  unfolding set_sysctl request note
  set_dry iface family key val s = elim (Option-cases (proc.read s.kernel family iface key)) [
    | inl missing ↦ rw (missing, set_sysctl) refl
    | inr (current, found) ↦
        rw (found, set_sysctl)
          (elim (Bool-cases (current == str val)) [
            | inl same ↦ rw same refl
            | inr differs ↦ rw differs refl
          ])
  ]

  next_dry :
      (iface family : String) (p : String × V) (st : Changes proc str)
      → (set_next proc str iface false family p st).1.kernel ≡ st.1.kernel
  unfolding set_next
  next_dry iface family (key, val) (changes, s) = ground (arith, set_dry iface family key val s)

  family_dry :
      (iface : String) (p : String × Dict String V) (st : Changes proc str)
      → (set_family proc str iface false p st).1.kernel ≡ st.1.kernel
  unfolding set_family
  family_dry iface (family, sysctl) st =
      for_each_keeps (λ (u : Changes proc str). u.1.kernel ≡ st.1.kernel) _
        (λ p u h. next_dry iface family p u ∙ h) sysctl st refl

  -- A check leaves the kernel as it was.
  pub apply-dry :
      (current : String) (config : Option String) (c : Sysctl V)
      (s : Run K Request (Event (String × String)))
      → (apply proc str current false config c s).kernel ≡ s.kernel
  unfolding apply
  apply-dry current config c s =
      let iface : String = elim config [ none ↦ current | some i ↦ i ] in
      elim (Option-cases (lookup iface c.sysctls)) [
        | inl missing ↦ rw (missing, apply) refl
        | inr (families, found) ↦
            rw (found, apply)
              (for_each_keeps (λ (u : Changes proc str). u.1.kernel ≡ s.kernel) _
                (λ p u h. family_dry current p u ∙ h) families (some false, s) refl)
      ]

  global_dry :
      (proto : String) (p : String × V) (st : Changed proc str)
      → (set_global proc str false proto p st).1.kernel ≡ st.1.kernel
  unfolding set_global
  global_dry proto (key, val) (changes, s) = set_dry ".." proto key val s

  pub apply_globals-dry :
      (c : Sysctl V) (s : Run K Request (Event (String × String)))
      → (apply_globals proc str false c s).1.kernel ≡ s.kernel
  unfolding apply_globals set_proto
  apply_globals-dry c s =
      for_each_keeps (λ (u : Changed proc str). u.1.kernel ≡ s.kernel) _
        (λ (proto, sysctl) u h.
          for_each_keeps (λ (w : Changed proc str). w.1.kernel ≡ s.kernel) _
            (λ p w h'. global_dry proto p w ∙ h') sysctl u h)
        c.globals ([], s) refl
