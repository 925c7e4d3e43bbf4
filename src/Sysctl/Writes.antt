-- ===== src/Sysctl/Writes.antt =====
-- The loop of `Sysctl.apply` stops at its first change.
use ifstate.Prelude.{
  suc, ◌≤◌, ◌≡◌, String, Bool, false, Option, none, some, [], ◌∷◌, arith, length, length-append,
  text_key,
}
use ifstate.Prelude.Dict.{Dict, lookup}
use ifstate.Netlink.{Event, Run, note, request, for_each, for_each_keeps}
use ifstate.Sysctl.{Request, write, Proc, Sysctl, truthy, set_sysctl, set_next, set_family, apply}

module _ {K V : Type 0} (proc : Proc K) (str : V → String) where
  -- Nothing is sent before a change, and one request at most with it.
  abbrev OneWrite :
      Run K Request (Event (String × String))
      → Option Bool × Run K Request (Event (String × String))
      → Type 0
  OneWrite s0 (changes, s) =
      (length s.sent ≤ suc (length s0.sent))
      × (truthy changes ≡ false → length s.sent ≡ length s0.sent)

  set_sysctl-OneWrite :
      (s0 : Run K Request (Event (String × String))) (iface family key : String) (v : V)
      (do_apply : Bool) (s : Run K Request (Event (String × String)))
      → length s.sent ≡ length s0.sent
      → OneWrite s0 (set_sysctl proc str iface family key v do_apply s)
  unfolding set_sysctl request note truthy
  set_sysctl-OneWrite s0 iface family key v do_apply s h =
      ground (arith, length-append s.sent (write family iface key (str v) ∷ []))

  set_next-OneWrite :
      (s0 : Run K Request (Event (String × String))) (iface : String) (do_apply : Bool)
      (family : String) (p : String × V)
      (st : Option Bool × Run K Request (Event (String × String)))
      → OneWrite s0 st
      → OneWrite s0 (set_next proc str iface do_apply family p st)
  unfolding set_next
  set_next-OneWrite s0 iface do_apply family (key, v) (changes, s) h =
      ground (arith, set_sysctl-OneWrite s0 iface family key v do_apply s)

  -- An apply of the settings of an interface sends at most one write, however many settings differ.
  pub apply-one_write :
      (iface_current : String) (do_apply : Bool) (iface_config : Option String) (c : Sysctl V)
      (s : Run K Request (Event (String × String)))
      → length (apply proc str iface_current do_apply iface_config c s).sent ≤ suc (length s.sent)
  unfolding apply set_family
  apply-one_write iface_current do_apply iface_config c s =
      go (lookup (elim iface_config [ none ↦ iface_current | some i ↦ i ]) c.sysctls)
    where
      go :
          (families : Option (Dict String (Dict String V)))
          → length
              (elim families as (λ _. Run K Request (Event (String × String))) [
                | none ↦ s
                | some fs ↦
                    (for_each fs (set_family proc str iface_current do_apply) (some false, s)).1
              ]).sent
            ≤ suc (length s.sent)
      go none = omega arith
      go (some fs) =
          (for_each_keeps (OneWrite s) (set_family proc str iface_current do_apply)
            (λ (family, sysctl) st h.
              for_each_keeps (OneWrite s) (set_next proc str iface_current do_apply family)
                (set_next-OneWrite s iface_current do_apply family) sysctl st h)
            fs (some false, s) (omega arith, λ h. omega arith)).0
