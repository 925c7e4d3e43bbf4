-- ===== src/Routing/Tables/Sent.antt =====
-- The requests that `Tables.apply` sends for one table.
use ifstate.Prelude.{
  ℕ, String, ◌≡◌, refl, sym, ◌∙◌, ap, subst, true, false, not, Option, List, [], ◌∷◌, ◌++◌, arith,
  In, In-filter, filter-In, All, filter, if◌then◌else◌, text_key,
}
use mathlib.Core.List.{append-nil, append_assoc}
use ifstate.Prelude.Sort.{sorted, sorted-All}
use ifstate.Value.{Fields, value_key}
use ifstate.Netlink.{Answer, Event, Run, start, note, request, for_each}
use ifstate.Routing.Match.{route_matches, vrrp_match}
use ifstate.Routing.Tables.{
  Scan, scan, Request, replace, del, Mode, route_lt, Device, resolved, unknown_dropped, unknown,
  resolve_device, setup_route, apply_resolved, apply_route, is_ignored, remove_route, apply_table,
}
use ifstate.Routing.Tables.Resolve.{SameKey, device-SameKey}
use ifstate.Routing.Tables.KernelLoop.{scan-In, In-scan}

-- The kernel routes that are removed.
abbrev pub dels : List Request → List Fields
dels [] = []
dels (replace r ∷ rs) = dels rs
dels (del r ∷ rs) = r ∷ dels rs

dels-append : (rs ss : List Request) → dels (rs ++ ss) ≡ dels rs ++ dels ss
dels-append [] ss = refl
dels-append (replace r ∷ rs) ss = dels-append rs ss
dels-append (del r ∷ rs) ss = ap (λ l. r ∷ l) (dels-append rs ss)

module _ {K : Type 0} (link_lookup : K → String → Option ℕ) (send : Request → K → Answer × K)
    (dump : K → ℕ → List Fields) where
  setup_dels :
      (mode : Mode) (route : Fields) (r : Scan) (s : Run K Request (Event Fields))
      → dels (setup_route link_lookup send dump mode route r s).sent ≡ dels s.sent
  unfolding setup_route request note
  setup_dels mode route r s =
      ground (arith, dels-append s.sent (replace route ∷ []), append-nil (dels s.sent))

  resolved_dels :
      (mode : Mode) (route : Fields) (ks : List Fields) (s : Run K Request (Event Fields))
      → dels (apply_resolved link_lookup send dump mode route (ks, s)).1.sent ≡ dels s.sent
  unfolding apply_resolved
  resolved_dels mode route ks s =
      let matched = vrrp_match route mode.by_vrrp mode.vrrp_type mode.vrrp_name mode.vrrp_state in
      ground (arith, setup_dels mode route (scan matched route false ks) s)

  route_dels :
      (mode : Mode) (route : Fields) (ks : List Fields) (s : Run K Request (Event Fields))
      → dels (apply_route link_lookup send dump mode route (ks, s)).1.sent ≡ dels s.sent
  unfolding apply_route note
  route_dels mode route ks s = go (resolve_device link_lookup send dump s.kernel route)
    where
      go :
          (d : Device)
          → dels
              (elim d as (λ _. List Fields × Run K Request (Event Fields)) [
                | resolved route' ↦ apply_resolved link_lookup send dump mode route' (ks, s)
                | unknown_dropped route' ↦
                    apply_resolved link_lookup send dump mode route'
                      (ks, note (Event.log_warn route) s)
                | unknown ↦ (ks, note (Event.log_err route) s)
              ]).1.sent
            ≡ dels s.sent
      go (resolved route') = resolved_dels mode route' ks s
      go (unknown_dropped route') = resolved_dels mode route' ks (note (Event.log_warn route) s)
      go unknown = refl

  route_kept :
      (mode : Mode) (route : Fields) (ks : List Fields) (s : Run K Request (Event Fields))
      (x : Fields)
      → (In x (apply_route link_lookup send dump mode route (ks, s)).0 → In x ks)
        × (route_matches route x ≡ false
            → In x ks
            → In x (apply_route link_lookup send dump mode route (ks, s)).0)
  unfolding apply_route apply_resolved
  route_kept mode route ks s x =
      go (resolve_device link_lookup send dump s.kernel route)
        (device-SameKey link_lookup send dump s.kernel route x)
    where
      go :
          (d : Device)
          → SameKey route x d
          → (In x
                (elim d as (λ _. List Fields × Run K Request (Event Fields)) [
                  | resolved route' ↦ apply_resolved link_lookup send dump mode route' (ks, s)
                  | unknown_dropped route' ↦
                      apply_resolved link_lookup send dump mode route'
                        (ks, note (Event.log_warn route) s)
                  | unknown ↦ (ks, note (Event.log_err route) s)
                ]).0
              → In x ks)
            × (route_matches route x ≡ false
                → In x ks
                → In x
                    (elim d as (λ _. List Fields × Run K Request (Event Fields)) [
                      | resolved route' ↦ apply_resolved link_lookup send dump mode route' (ks, s)
                      | unknown_dropped route' ↦
                          apply_resolved link_lookup send dump mode route'
                            (ks, note (Event.log_warn route) s)
                      | unknown ↦ (ks, note (Event.log_err route) s)
                    ]).0)
      go (resolved route') same =
          (scan-In _ route' false x ks, λ h. In-scan _ route' false x ks (same ∙ h))
      go (unknown_dropped route') same =
          (scan-In _ route' false x ks, λ h. In-scan _ route' false x ks (same ∙ h))
      go unknown same = (λ m. m, λ h m. m)

  module _ (mode : Mode) where
    loop_dels :
        (rs : List Fields) (ks : List Fields) (s : Run K Request (Event Fields))
        → dels (for_each rs (apply_route link_lookup send dump mode) (ks, s)).1.sent ≡ dels s.sent
    unfolding for_each
    loop_dels [] ks s = refl
    loop_dels (r ∷ rs) ks s =
        let (ks', s') = apply_route link_lookup send dump mode r (ks, s) in
        loop_dels rs ks' s' ∙ route_dels mode r ks s

    loop_kept :
        (rs : List Fields) (ks : List Fields) (s : Run K Request (Event Fields)) (x : Fields)
        → (In x (for_each rs (apply_route link_lookup send dump mode) (ks, s)).0 → In x ks)
          × (All (λ r. route_matches r x ≡ false) rs
              → In x ks
              → In x (for_each rs (apply_route link_lookup send dump mode) (ks, s)).0)
    unfolding for_each
    loop_kept [] ks s x = (λ m. m, λ a m. m)
    loop_kept (r ∷ rs) ks s x =
        let (ks', s') = apply_route link_lookup send dump mode r (ks, s) in
        let (into, out) = loop_kept rs ks' s' x in
        let (into1, out1) = route_kept mode r ks s x in
        (λ m. into1 (into m), λ a m. out a.1 (out1 a.0 m))

    remove_one :
        (ignores : List Fields) (k : Fields) (s : Run K Request (Event Fields))
        → mode.do_apply ≡ true
        → dels (remove_route link_lookup send dump mode ignores k s).sent
          ≡ (if is_ignored ignores k then dels s.sent else dels s.sent ++ k ∷ [])
    unfolding remove_route request note
    remove_one ignores k s h = ground (arith, dels-append s.sent (del k ∷ []))

    -- the clean-up loop
    remove_dels :
        (ignores : List Fields) (left : List Fields) (s : Run K Request (Event Fields))
        → mode.do_apply ≡ true
        → dels (for_each left (remove_route link_lookup send dump mode ignores) s).sent
          ≡ dels s.sent ++ filter (λ k. not (is_ignored ignores k)) left
    unfolding for_each
    remove_dels ignores [] s h = sym (append-nil (dels s.sent))
    remove_dels ignores (k ∷ left) s h =
        let s' = remove_route link_lookup send dump mode ignores k s in
        let kept = filter (λ k. not (is_ignored ignores k)) left in
        ground (
          arith,
          remove_dels ignores left s' h,
          remove_one ignores k s h,
          append_assoc (dels s.sent) (k ∷ []) kept,
        )

    table_dels :
        (ignores : List Fields) (t : ℕ) (croutes : List Fields) (s : Run K Request (Event Fields))
        → mode.do_apply ≡ true
        → dels (apply_table link_lookup send dump mode ignores (t, croutes) s).sent
          ≡ dels s.sent
            ++ filter
                (λ k. not (is_ignored ignores k))
                (for_each
                  (sorted route_lt croutes)
                  (apply_route link_lookup send dump mode)
                  (dump s.kernel t, s)).0
    unfolding apply_table
    table_dels ignores t croutes s h =
        let (left, s') =
          for_each (sorted route_lt croutes) (apply_route link_lookup send dump mode)
            (dump s.kernel t, s) in
        remove_dels ignores left s' h
        ∙ ap (λ l. l ++ filter (λ k. not (is_ignored ignores k)) left)
            (loop_dels (sorted route_lt croutes) (dump s.kernel t) s)

  -- In a run that applies, each route that is removed from the table is one that the kernel had in
  -- it, and is not ignored.
  pub apply_table-removes :
      (mode : Mode) (ignores : List Fields) (t : ℕ) (croutes : List Fields) (kn : K) (k : Fields)
      → mode.do_apply ≡ true
      → In k (dels (apply_table link_lookup send dump mode ignores (t, croutes) (start kn)).sent)
      → In k (dump kn t) × (is_ignored ignores k ≡ false)
  apply_table-removes mode ignores t croutes kn k h m =
      let (i, p) =
        filter-In (λ k. not (is_ignored ignores k)) k _
          (subst (In k) (table_dels mode ignores t croutes (start kn) h) m) in
      ((loop_kept mode (sorted route_lt croutes) (dump kn t) (start kn) k).0 i, ground arith)

  -- In a run that applies, a route of the kernel that no configured route of the table matches and
  -- that is not ignored is removed from the table.
  pub apply_table_strays :
      (mode : Mode) (ignores : List Fields) (t : ℕ) (croutes : List Fields) (kn : K) (k : Fields)
      → mode.do_apply ≡ true
      → In k (dump kn t)
      → is_ignored ignores k ≡ false
      → All (λ r. route_matches r k ≡ false) croutes
      → In k (dels (apply_table link_lookup send dump mode ignores (t, croutes) (start kn)).sent)
  apply_table_strays mode ignores t croutes kn k h m kept strays =
      let left =
        (loop_kept mode (sorted route_lt croutes) (dump kn t) (start kn) k).1
          (sorted-All (λ r. route_matches r k ≡ false) route_lt croutes strays) m in
      subst (In k) (sym (table_dels mode ignores t croutes (start kn) h))
        (In-filter (λ k. not (is_ignored ignores k)) k _ left (ap not kept))
