-- ===== src/Addresses/Check.antt =====
-- A check of the addresses.
use ifstate.Prelude.{
  ℕ, ◌≡◌, refl, ◌∙◌, Bool, false, List, Comparable, arith, Option-cases, inl, inr,
}
use ifstate.Netlink.{Run, Event, note, request, for_each, for_each-kernel, for_each_keeps}
use ifstate.Addresses.{
  Addresses, Address, Host, Plan, Request, collect, compare_addr, del_addr, add_addr, apply_at,
  apply,
}

module _ {K Ip Net : Type 0} ⦃e : Comparable Ip⦄ (host : Host K Ip Net) where
  compare_dry : (ip : Ip) (p : Plan K Ip) → (compare_addr host ip p).run.kernel ≡ p.run.kernel
  unfolding compare_addr note
  compare_dry ip p = ground arith

  del_dry :
      (ignore : List Net) (ign_dynamic : Bool) (idx : ℕ) (renew : List Ip) (a : Ip × Address Ip)
      (s : Run K (Request Ip) (Event Ip))
      → (del_addr host ignore ign_dynamic false idx renew a s).kernel ≡ s.kernel
  unfolding del_addr request note
  del_dry ignore ign_dynamic idx renew (ip, addr) s = ground arith

  add_dry :
      (idx : ℕ) (ip : Ip) (s : Run K (Request Ip) (Event Ip))
      → (add_addr host false idx ip s).kernel ≡ s.kernel
  unfolding add_addr request note
  add_dry idx ip s = refl

  plan-kernel :
      {A : Type 0} (body : A → Plan K Ip → Plan K Ip) (xs : List A) (p : Plan K Ip)
      → ((a : A) (p : Plan K Ip) → (body a p).run.kernel ≡ p.run.kernel)
      → (for_each xs body p).run.kernel ≡ p.run.kernel
  plan-kernel body xs p same =
      for_each_keeps (λ (q : Plan K Ip). q.run.kernel ≡ p.run.kernel) body (λ a q h. same a q ∙ h)
        xs p refl

  at_dry :
      (ignore : List Net) (ign_dynamic : Bool) (idx : ℕ) (c : Addresses Ip)
      (s : Run K (Request Ip) (Event Ip))
      → (apply_at host ignore ign_dynamic false idx c s).kernel ≡ s.kernel
  unfolding apply_at collect
  at_dry ignore ign_dynamic idx c s =
      for_each-kernel (add_addr host false idx) (add_dry idx) _ _
      ∙ for_each-kernel _ (del_dry ignore ign_dynamic idx _) _ _
      ∙ plan-kernel (compare_addr host) c.addresses _ compare_dry
      ∙ plan-kernel (collect host) (host.get_addr s.kernel idx) _ (λ a p. refl)

  -- A check leaves the kernel as it was.
  pub apply-dry :
      (ignore : List Net) (ign_dynamic : Bool) (c : Addresses Ip)
      (s : Run K (Request Ip) (Event Ip))
      → (apply host ignore ign_dynamic false c s).kernel ≡ s.kernel
  unfolding apply note
  apply-dry ignore ign_dynamic c s = elim (Option-cases (host.link_lookup s.kernel c.iface)) [
    | inl missing ↦ rw (missing, apply) refl
    | inr (idx, found) ↦ rw (found, apply) (at_dry ignore ign_dynamic idx c s)
  ]
