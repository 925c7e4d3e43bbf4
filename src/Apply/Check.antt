-- ===== src/Apply/Check.antt =====
-- A check of the whole configuration.
use ifstate.Prelude.{
  String, ◌≡◌, refl, sym, ap, ◌∙◌, true, false, Option, none, some, List, [], ◌∷◌, arith,
  Option-cases, inl, inr, Bool-cases, text_key,
}
use ifstate.Prelude.Dict.{Dict, lookup}
use ifstate.Netlink.{Answer, for_each, for_each_keeps, note, request, log_change}
use ifstate.Dependency.{LinkDependency}
use ifstate.Stages.{Outcome, stages, circular, exhausted, concat}
use ifstate.Apply.{Applier, Selector, Link, TcPart, Netns}
use ifstate.Apply.Iface.{
  skip, enable, disable, apply_part, apply_link, apply_tc, apply_parts, gate, vrrp_of, set_down,
  apply_iface,
}
use ifstate.Apply.Orphans.{
  Item, LinkRequest, Cleanup, LinkRun, free_registry_item, is_orphan, cleanup,
}
use ifstate.Apply.Run.{
  IfState, all_netns, find_stages, apply_option, apply_bpf, apply_sysctl, apply_routing, find_netns,
  put_netns, apply_dep, apply_deps, prepare_namespaces, apply_host, apply_stages, apply_plain,
  before_stages, apply_outcome, apply_with, apply,
}

module _ {K : Type 0} where
  part-check : (name : String) (d : Dict String (Applier K)) (k : K) → apply_part false name d k ≡ k
  unfolding apply_part
  part-check name d k = elim (Option-cases (lookup name d)) [
    | inl missing ↦ rw (missing, apply_part) refl
    | inr (a, found) ↦ rw (found, apply_part) (a.check k)
  ]

  link-check : (l : Option (Link K)) (k : K) → apply_link false l k ≡ k
  unfolding apply_link
  link-check none k = refl
  link-check (some l) k = (l.applier l.settings).check k

  tc-check : (t : Option (TcPart K)) (k : K) → apply_tc false t k ≡ k
  unfolding apply_tc
  tc-check none k = refl
  tc-check (some t) k = t.applier.check k

  parts-check : (name : String) (n : Netns K) (k : K) → apply_parts false name n k ≡ k
  unfolding apply_parts
  parts-check name n k =
      part-check name n.wireguard _
      ∙ part-check name n.neighbours _
      ∙ part-check name n.fdb _
      ∙ part-check name n.addresses _
      ∙ part-check name n.xdp _
      ∙ tc-check (lookup name n.tc) _
      ∙ link-check (lookup name n.links) k

  iface-check :
      (sel : Option Selector) (name : String) (n : Netns K) (k : K)
      → (apply_iface false sel name n k).1 ≡ k
  unfolding apply_iface
  iface-check sel name n k =
      elim (gate sel name (vrrp_of name n) n.vrrp)
        as (λ g.
          (elim g as (λ _. Netns K × K) [
            | skip ↦ (n, k)
            | enable ↦ (n, apply_parts false name n k)
            | disable ↦ (set_down name n, apply_parts false name (set_down name n) k)
          ]).1
          ≡ k) [
            | skip ↦ refl
            | enable ↦ parts-check name n k
            | disable ↦ parts-check name (set_down name n) k
          ]

  option-check : (a : Option (Applier K)) (k : K) → apply_option false a k ≡ k
  unfolding apply_option
  option-check none k = refl
  option-check (some a) k = a.check k

  routing-check : (sel : Option Selector) (n : Netns K) (k : K) → apply_routing false sel n k ≡ k
  unfolding apply_routing
  routing-check sel n k =
      option-check (elim n.rules [ none ↦ none | some r ↦ some (r sel) ]) _
      ∙ option-check (elim n.tables [ none ↦ none | some t ↦ some (t sel) ]) k

  loop-check :
      {A : Type 0} (body : A → K → K) (xs : List A) (k : K)
      → ((a : A) (k : K) → body a k ≡ k)
      → for_each xs body k ≡ k
  loop-check body xs k same = for_each_keeps (λ k'. k' ≡ k) body (λ a k' e. same a k' ∙ e) xs k refl

  host-check : (i : IfState K) (k : K) → apply_host false i k ≡ k
  unfolding apply_host apply_sysctl apply_bpf
  host-check i k =
      loop-check _ (all_netns i) _ (λ n k.
        option-check n.sysctl.globals _
        ∙ option-check (lookup "default" n.sysctl.ifaces) _
        ∙ option-check (lookup "all" n.sysctl.ifaces) k)
      ∙ loop-check _ (all_netns i) k (λ n k. option-check n.bpf_progs k)

  prepare-check : (i : IfState K) (k : K) → prepare_namespaces false i k ≡ k
  unfolding prepare_namespaces
  prepare-check i k = elim (Option-cases i.namespaces) [
    | inl missing ↦ rw (missing, prepare_namespaces) refl
    | inr (d, found) ↦ rw (found, prepare_namespaces) (i.prepare.check k)
  ]

  dep-check :
      (sel : Option Selector) (dep : LinkDependency) (i : IfState K) (k : K) (st : IfState K × K)
      → apply_dep false sel dep (i, k) ≡ some st
      → st.1 ≡ k
  unfolding apply_dep
  dep-check sel dep i k st found = elim (Option-cases (find_netns dep.netns i)) [
    | inl missing ↦ let e : none ≡ some st = sym (rw (missing, apply_dep) refl) ∙ found in cc
    | inr (n, here) ↦
        let done = apply_iface false sel dep.ifname n k in
        let e : some (put_netns dep.netns done.0 i, done.1) ≡ some st =
          sym (rw (here, apply_dep) refl) ∙ found in
        let both : (put_netns dep.netns done.0 i, done.1) ≡ st = cc in
        ap (λ (p : IfState K × K). p.1) (sym both) ∙ iface-check sel dep.ifname n k
  ]

  deps-check :
      (sel : Option Selector) (deps : List LinkDependency) (i : IfState K) (k : K)
      → (apply_deps false sel deps (i, k)).1.1 ≡ k
  unfolding apply_deps
  deps-check sel [] i k = refl
  deps-check sel (dep ∷ deps) i k = elim (Option-cases (apply_dep false sel dep (i, k))) [
    | inl missing ↦ rw (missing, apply_deps) refl
    | inr ((i', k'), found) ↦
        rw (found, apply_deps) (deps-check sel deps i' k' ∙ dep-check sel dep i k (i', k') found)
  ]

  stages-check :
      (sel : Option Selector) (layers : List (List LinkDependency)) (i : IfState K) (k : K)
      → (apply_stages false sel layers (i, k)).1.1 ≡ k
  unfolding apply_stages
  stages-check sel layers i k =
      elim (Option-cases (apply_deps false sel (concat layers) (i, k)).0) [
        | inl complete ↦
            rw (complete, apply_stages)
              (loop-check _ _ _ (routing-check sel) ∙ deps-check sel (concat layers) i k)
        | inr (ifname, early) ↦ rw (early, apply_stages) (deps-check sel (concat layers) i k)
      ]

  module _ (send : LinkRequest → K → Answer × K) (lower : String → String) where
    -- A run that has left the kernel alone and sent nothing.
    abbrev pub Untouched : LinkRun send → LinkRun send → Type 0
    Untouched s s' = (s'.kernel ≡ s.kernel) × (s'.sent ≡ s.sent)

    free-check :
        (item : Item) (s : LinkRun send) → Untouched s (free_registry_item send false item s).1
    unfolding free_registry_item request note
    free-check item s = ground arith

    cleanup-check :
        (c : Cleanup) (items : List Item) (s : LinkRun send)
        → Untouched s (cleanup send false c items s).1
    unfolding cleanup
    cleanup-check c [] s = (refl, refl)
    cleanup-check c (item ∷ items) s = elim (Bool-cases (is_orphan c item)) [
      | inl orphan ↦
          let freed = (free_registry_item send false item s).1 in
          let (same, none') = free-check item s in
          let (same', none'') = cleanup-check c items freed in
          rw orphan (same' ∙ same, none'' ∙ none')
      | inr stays ↦ rw stays (cleanup-check c items s)
    ]

    plain-check :
        (i : IfState K) (s : LinkRun send) → Untouched s (apply_plain send lower false i s).1
    unfolding apply_plain
    plain-check i s =
        let options : Cleanup = record {
          is_ignored = i.is_ignored;
          has_namespaces = elim i.namespaces [ none ↦ false | some d ↦ true ];
        } in
        let (same, none') = cleanup-check options i.registry s in (host-check i _ ∙ same, none')

    before-check :
        (sel : Option Selector) (i : IfState K) (s : LinkRun send)
        → Untouched s (before_stages send lower false sel i s).1
    unfolding before_stages
    before-check none i s = plain-check i s
    before-check (some v) i s = (refl, refl)

    outcome-check :
        (sel : Option Selector) (found : Outcome LinkDependency) (i : IfState K) (s : LinkRun send)
        → Untouched s (apply_outcome send lower false sel found i s).2
    unfolding apply_outcome
    outcome-check sel circular i s = (refl, refl)
    outcome-check sel exhausted i s = (refl, refl)
    outcome-check sel (stages layers) i s =
        let (i1, s1) = before_stages send lower false sel i s in
        let (same, none') = before-check sel i s in
        (stages-check sel layers i1 s1.kernel ∙ same, none')

    with-check :
        (sel : Option Selector) (i : IfState K) (s : LinkRun send)
        → Untouched s (apply_with send lower false sel i s).2
    unfolding apply_with
    with-check none i s =
        let (same, none') =
          outcome-check none (find_stages false i) i
            (record s { kernel = prepare_namespaces false i s.kernel }) in
        (same ∙ prepare-check i s.kernel, none')
    with-check (some v) i s = outcome-check (some v) (find_stages false i) i s

    -- If every part of the configuration leaves the kernel alone in a check, a check of the whole
    -- configuration leaves the kernel as it was and sends no request for a link, however it ends,
    -- in a plain run and in a vrrp run.
    pub check-Untouched :
        (sel : Option Selector) (i : IfState K) (s : LinkRun send)
        → Untouched s (apply send lower false sel i s).2
    unfolding apply note
    check-Untouched none i s = with-check none i s
    check-Untouched (some v) i s =
        with-check
          (some (record v { vrrp_type = lower v.vrrp_type; vrrp_state = lower v.vrrp_state })) i
          (note (log_change v.vrrp_name) s)
