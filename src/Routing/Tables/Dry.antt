-- ===== src/Routing/Tables/Dry.antt =====
-- `Tables.apply` with `do_apply` false, a check.
use ifstate.Prelude.{ℕ, String, ◌≡◌, refl, ◌∙◌, false, Option, List, [], ◌∷◌, arith}
use ifstate.Prelude.Dict.{Dict}
use ifstate.Prelude.Sort.{sorted}
use ifstate.Value.{Fields}
use ifstate.Netlink.{Answer, Event, Run, note, request, for_each}
use ifstate.Routing.Match.{vrrp_match}
use ifstate.Routing.Tables.{
  Scan, scan, Request, Mode, route_lt, Device, resolved, unknown_dropped, unknown, resolve_device,
  setup_route, apply_resolved, apply_route, remove_route, apply_table, apply,
}

module _ {K : Type 0} (link_lookup : K → String → Option ℕ) (send : Request → K → Answer × K)
    (dump : K → ℕ → List Fields) where
  abbrev Steady : Run K Request (Event Fields) → Run K Request (Event Fields) → Type 0
  Steady s s' = (s'.kernel ≡ s.kernel) × (s'.sent ≡ s.sent)

  module _ (mode : Mode) (dry : mode.do_apply ≡ false) where
    setup-Steady :
        (route : Fields) (r : Scan) (s : Run K Request (Event Fields))
        → Steady s (setup_route link_lookup send dump mode route r s)
    unfolding setup_route request note
    setup-Steady route r s = ground arith

    resolved-Steady :
        (route : Fields) (ks : List Fields) (s : Run K Request (Event Fields))
        → Steady s (apply_resolved link_lookup send dump mode route (ks, s)).1
    unfolding apply_resolved
    resolved-Steady route ks s =
        let matched = vrrp_match route mode.by_vrrp mode.vrrp_type mode.vrrp_name mode.vrrp_state in
        ground (arith, setup-Steady route (scan matched route false ks) s)

    route-Steady :
        (route : Fields) (ks : List Fields) (s : Run K Request (Event Fields))
        → Steady s (apply_route link_lookup send dump mode route (ks, s)).1
    unfolding apply_route note
    route-Steady route ks s = go (resolve_device link_lookup send dump s.kernel route)
      where
        go :
            (d : Device)
            → Steady s
                (elim d as (λ _. List Fields × Run K Request (Event Fields)) [
                  | resolved route' ↦ apply_resolved link_lookup send dump mode route' (ks, s)
                  | unknown_dropped route' ↦
                      apply_resolved link_lookup send dump mode route'
                        (ks, note (Event.log_warn route) s)
                  | unknown ↦ (ks, note (Event.log_err route) s)
                ]).1
        go (resolved route') = resolved-Steady route' ks s
        go (unknown_dropped route') = resolved-Steady route' ks (note (Event.log_warn route) s)
        go unknown = (refl, refl)

    routes-Steady :
        (rs ks : List Fields) (s : Run K Request (Event Fields))
        → Steady s (for_each rs (apply_route link_lookup send dump mode) (ks, s)).1
    unfolding for_each
    routes-Steady [] ks s = (refl, refl)
    routes-Steady (r ∷ rs) ks s =
        let (ks', s') = apply_route link_lookup send dump mode r (ks, s) in
        let (same, none') = route-Steady r ks s in
        let (same', none'') = routes-Steady rs ks' s' in (same' ∙ same, none'' ∙ none')

    remove-Steady :
        (ignores : List Fields) (ks : List Fields) (s : Run K Request (Event Fields))
        → Steady s (for_each ks (remove_route link_lookup send dump mode ignores) s)
    unfolding for_each remove_route request note
    remove-Steady ignores [] s = (refl, refl)
    remove-Steady ignores (k ∷ ks) s =
        let s' = remove_route link_lookup send dump mode ignores k s in
        let (same, none') : Steady s s' = ground arith in
        let (same', none'') = remove-Steady ignores ks s' in (same' ∙ same, none'' ∙ none')

    -- A run that does not apply (a check) sends nothing to the kernel and leaves it as it was,
    -- whatever the tables hold.
    pub check-sends_nothing :
        (ignores : List Fields) (tables : Dict ℕ (List Fields)) (s : Run K Request (Event Fields))
        → ((apply link_lookup send dump mode ignores tables s).kernel ≡ s.kernel)
          × ((apply link_lookup send dump mode ignores tables s).sent ≡ s.sent)
    unfolding apply apply_table for_each
    check-sends_nothing ignores [] s = (refl, refl)
    check-sends_nothing ignores ((t, croutes) ∷ tables) s =
        let (left, s') =
          for_each (sorted route_lt croutes) (apply_route link_lookup send dump mode)
            (dump s.kernel t, s) in
        let s'' = for_each left (remove_route link_lookup send dump mode ignores) s' in
        let (same, none') = routes-Steady (sorted route_lt croutes) (dump s.kernel t) s in
        let (same', none'') = remove-Steady ignores left s' in
        let (same'', none''') = check-sends_nothing ignores tables s'' in
        (same'' ∙ same' ∙ same, none''' ∙ none'' ∙ none')
