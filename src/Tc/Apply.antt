-- ===== src/Tc/Apply.antt =====
-- `TC.apply` of libifstate/tc/__init__.py.
use ifstate.Prelude.{
  ℕ, ◌≡◌, refl, ◌∙◌, ap, String, Bool, true, false, Option, none, some, List, [], ◌∷◌, ◌++◌, arith,
  if◌then◌else◌, inl, inr, Option-cases,
}
use ifstate.Netlink.{Answer, Run, Event, for_each, for_each_keeps, log_change, log_ok, link_missing}
use ifstate.Collector.{Collector, new}
use ifstate.Tc.{Filter, Request, Tasks}
use ifstate.Tc.Tree.{Qdisc, KernelQdisc, ingress_parent, get_qdisc, apply_ingress, apply_root}
use ifstate.Tc.Tree.Laws.{dry_qtree}
use ifstate.Tc.Handle.{root_handle}
use ifstate.Tc.Filters.{KernelFilter, Filters, filters_of, remove_filter, Removing, apply_filter}

-- What TC takes from the kernel. `get_filters` has the filters of the interface and those of its ingress.
pub record Host (K : Type 0) : Type 0 where
  pub link_lookup : K → String → Option ℕ
  pub get_qdiscs : K → ℕ → List KernelQdisc
  pub get_filters : K → ℕ → List KernelFilter
  pub send : Request → K → Answer × K

-- The configuration of an interface; `qdisc` may be there and be `None`.
pub record Tc : Type 0 where
  pub iface : String
  pub ingress : Option Bool
  pub qdisc : Option (Option Qdisc)
  pub filter : Option (List Filter)

abbrev pub TcRun : Type 0 → Type 0
TcRun K = Run K Request (Event Request)

-- The subject of the line of the log: what has changed.
pub record Changes (K : Type 0) (send : Request → K → Answer × K) : Type 0 where
  pub changes : List String
  pub tasks : Tasks send

module _ {K : Type 0} (host : Host K) where
  open host use {link_lookup, get_qdiscs, get_filters, send}

  -- `if self.apply_...(...): changes.append(part)`
  unfoldable pub append_if :
      String → (Tasks send → Bool × Tasks send) → Changes K send → Changes K send
  append_if part step s =
      let (changed, t) = step s.tasks in
      record { changes = if changed then s.changes ++ part ∷ [] else s.changes; tasks = t }

  -- `if part in self.tc`
  unfoldable pub configured :
      {A : Type 0}
      → Option A
      → String
      → (A → Tasks send → Bool × Tasks send)
      → Changes K send
      → Changes K send
  unfolding append_if
  configured none part step s = s
  configured (some a) part step s = append_if part (step a) s

  -- `apply` behind the lookup of the interface. The list of qdiscs is read at the start if either part is
  -- configured, and no request comes before.
  unfoldable pub apply_parts : Bool → ℕ → Tc → Tasks send → Changes K send
  unfolding configured
  apply_parts do_apply idx tc t =
      let qdiscs = get_qdiscs t.run.kernel idx in
      let s0 : Changes K send = record { changes = []; tasks = t } in
      let s1 =
        configured tc.ingress "ingress"
          (λ ingress. apply_ingress send idx ingress (get_qdisc qdiscs ingress_parent) do_apply)
          s0 in
      let s2 =
        configured tc.qdisc "qdisc"
          (λ tree.
            apply_root send idx tree (get_qdisc qdiscs root_handle) qdiscs root_handle do_apply)
          s1 in
      configured tc.filter "filter"
        (λ fs t. apply_filter send idx link_lookup fs (get_filters t.run.kernel idx) do_apply t) s2

  -- The whole run: the collector that is returned, which is `None` for a missing link, what was done, and
  -- the last line of the log.
  unfoldable pub apply :
      Bool → Tc → TcRun K → Option (Collector Request) × TcRun K × Event (List String)
  unfolding apply_parts new
  apply do_apply tc s = elim (link_lookup s.kernel tc.iface) [
    | none ↦ (none, s, link_missing)
    | some idx ↦
        let t : Tasks send = record { run = s; excpts = new tc.iface } in
        let done = apply_parts do_apply idx tc t in
        (
          some done.tasks.excpts,
          done.tasks.run,
          elim done.changes [ [] ↦ log_ok [] | (c ∷ cs) ↦ log_change (c ∷ cs) ],
        )
  ]

  -- Each part of a check leaves the tasks as they were.
  configured_dry :
      {A : Type 0} (part : Option A) (name : String) (step : A → Tasks send → Bool × Tasks send)
      (s : Changes K send)
      → ((a : A) (t : Tasks send) → (step a t).1 ≡ t)
      → (configured part name step s).tasks ≡ s.tasks
  unfolding configured
  configured_dry none name step s dry = refl
  configured_dry (some a) name step s dry = dry a s.tasks

  dry_ingress :
      (idx : ℕ) (ingress : Bool) (q : Option KernelQdisc) (t : Tasks send)
      → (apply_ingress send idx ingress q false t).1 ≡ t
  unfolding apply_ingress
  dry_ingress idx false none t = refl
  dry_ingress idx false (some q) t = refl
  dry_ingress idx true none t = refl
  dry_ingress idx true (some q) t = refl

  dry_root :
      (idx : ℕ) (tree : Option Qdisc) (q : Option KernelQdisc) (qs : List KernelQdisc) (parent : ℕ)
      (t : Tasks send)
      → (apply_root send idx tree q qs parent false t).1 ≡ t
  unfolding apply_root
  dry_root idx none q qs parent t = refl
  dry_root idx (some tree) q qs parent t = dry_qtree send idx tree q qs parent false t

  remove_filter_dry :
      (idx : ℕ) (d : Filters) (f : KernelFilter) (st : Removing send idx)
      → (remove_filter send idx false d f st).2 ≡ st.2
  unfolding remove_filter
  remove_filter_dry idx d f (removed, changes, t) = ground arith

  dry_remove :
      (idx : ℕ) (fs : List KernelFilter) (d : Filters) (t : Tasks send) (st : Removing send idx)
      → st.2 ≡ t
      → (for_each fs (remove_filter send idx false d) st).2 ≡ t
  dry_remove idx fs d t =
      for_each_keeps (λ (st : Removing send idx). st.2 ≡ t) (remove_filter send idx false d)
        (λ f st same. remove_filter_dry idx d f st ∙ same) fs

  dry_filter :
      (idx : ℕ) (fs : List Filter) (ks : List KernelFilter) (t : Tasks send)
      → (apply_filter send idx link_lookup fs ks false t).1 ≡ t
  unfolding apply_filter
  dry_filter idx fs ks t = dry_remove idx ks (filters_of fs) t ([], false, t) refl

  dry_parts : (idx : ℕ) (tc : Tc) (t : Tasks send) → (apply_parts false idx tc t).tasks ≡ t
  unfolding apply_parts
  dry_parts idx tc t =
      configured_dry tc.filter "filter" _ _
        (λ fs t. dry_filter idx fs (get_filters t.run.kernel idx) t)
      ∙ configured_dry tc.qdisc "qdisc" _ _ (λ tree t. dry_root idx tree _ _ _ t)
      ∙ configured_dry tc.ingress "ingress" _ _ (λ ingress t. dry_ingress idx ingress _ t)

  -- A check of the traffic control of an interface, whether or not it exists, sends nothing, leaves
  -- the kernel as it was and writes no warning.
  pub check_unchanged : (tc : Tc) (s : TcRun K) → (apply false tc s).1 ≡ s
  unfolding apply
  check_unchanged tc s = elim (Option-cases (link_lookup s.kernel tc.iface)) [
    | inl missing ↦ rw (missing, apply) refl
    | inr (idx, found) ↦
        rw (found, apply)
          (ap (λ (t : Tasks send). t.run)
            (dry_parts idx tc (record { run = s; excpts = new tc.iface })))
  ]
