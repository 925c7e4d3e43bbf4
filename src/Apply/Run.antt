-- ===== src/Apply/Run.antt =====
-- `IfState._apply` of libifstate/__init__.py with the methods that it calls.
use ifstate.Prelude.{
  String, Bool, true, false, Option, none, some, List, [], ◌∷◌, ◌++◌, text_key, map,
}
use ifstate.Prelude.Dict.{Dict, lookup, insert, from_pairs}
use ifstate.Netlink.{Answer, for_each, note, log_change}
use ifstate.Dependency.{LinkDependency, link_key, link_lt}
use ifstate.Stages.{Outcome, stages, circular, exhausted, concat, resolve}
use ifstate.Apply.{Applier, Selector, TcPart, Netns}
use ifstate.Apply.Iface.{apply_iface}
use ifstate.Apply.Orphans.{Item, LinkRequest, Cleanup, LinkRun, cleanup}

-- The configured namespaces, the registry and the names to ignore; `prepare` is prepare_netns.
pub record IfState (K : Type 0) : Type 0 where
  pub root_netns : Netns K
  pub namespaces : Option (Dict String (Netns K))
  pub registry : List Item
  pub is_ignored : String → Bool
  pub prepare : Applier K

-- A run ends, or ends early with a warning for a link in an unknown namespace, or with the exception for
-- circular dependencies.
pub data Ending : Type 0 where
  finished circular_links no_stages type_error : Ending
  unknown_netns : String → Ending

-- `deps[link].append(dep)`, or a new list
unfoldable pub add_dependency :
    LinkDependency
    → LinkDependency
    → Dict LinkDependency (List LinkDependency)
    → Dict LinkDependency (List LinkDependency)
add_dependency link dep deps = elim (lookup link deps) [
  | none ↦ insert link (dep ∷ []) deps
  | some ds ↦ insert link (ds ++ dep ∷ []) deps
]

module _ {K : Type 0} where
  abbrev pub all_netns : IfState K → List (Netns K)
  all_netns i = elim i.namespaces [
    | none ↦ i.root_netns ∷ []
    | some d ↦ i.root_netns ∷ map (λ p. p.1) d
  ]

  unfoldable pub tc_dependencies :
      Option String
      → String × TcPart K
      → Dict LinkDependency (List LinkDependency)
      → Dict LinkDependency (List LinkDependency)
  unfolding add_dependency
  tc_dependencies netns (ifname, tc) deps =
      for_each tc.devs
        (λ dev.
          add_dependency (record { ifname = ifname; netns = netns })
            (record { ifname = dev; netns = netns }))
        deps

  -- `_dependencies`
  unfoldable pub dependencies : Netns K → Dict LinkDependency (List LinkDependency)
  unfolding tc_dependencies
  dependencies n =
      for_each n.tc (tc_dependencies n.netns)
        (from_pairs (map (λ p. (record { ifname = p.0; netns = n.netns }, p.1.depends)) n.links) [])

  -- `_stages`
  unfoldable pub find_stages : Bool → IfState K → Outcome LinkDependency
  unfolding dependencies
  find_stages do_apply i =
      resolve link_lt do_apply
        (for_each (all_netns i) (λ n deps. from_pairs (dependencies n) deps) [])

  -- `if not part is None: part.apply(do_apply)`
  unfoldable pub apply_option : Bool → Option (Applier K) → K → K
  apply_option do_apply none k = k
  apply_option do_apply (some a) k = a.apply do_apply k

  unfoldable pub apply_bpf : Bool → Netns K → K → K
  unfolding apply_option
  apply_bpf do_apply n k = apply_option do_apply n.bpf_progs k

  unfoldable pub apply_sysctl : Bool → Netns K → K → K
  unfolding apply_option
  apply_sysctl do_apply n k =
      let all = apply_option do_apply (lookup "all" n.sysctl.ifaces) k in
      let default = apply_option do_apply (lookup "default" n.sysctl.ifaces) all in
      apply_option do_apply n.sysctl.globals default

  unfoldable pub apply_routing : Bool → Option Selector → Netns K → K → K
  unfolding apply_option
  apply_routing do_apply sel n k =
      let routed =
        apply_option do_apply (elim n.tables [ none ↦ none | some t ↦ some (t sel) ]) k in
      apply_option do_apply (elim n.rules [ none ↦ none | some r ↦ some (r sel) ]) routed

  -- The namespace of a link, if it is there, and its change.
  unfoldable pub find_netns : Option String → IfState K → Option (Netns K)
  find_netns none i = some i.root_netns
  find_netns (some name) i = elim i.namespaces [ none ↦ none | some d ↦ lookup name d ]

  unfoldable pub put_netns : Option String → Netns K → IfState K → IfState K
  put_netns none n i = record i { root_netns = n }
  put_netns (some name) n i = record i {
    namespaces = elim i.namespaces [ none ↦ none | some d ↦ some (insert name n d) ];
  }

  -- A link of a stage. `none` is the end of the run.
  unfoldable pub apply_dep :
      Bool → Option Selector → LinkDependency → IfState K × K → Option (IfState K × K)
  unfolding apply_iface find_netns put_netns
  apply_dep do_apply sel dep (i, k) = elim (find_netns dep.netns i) [
    | none ↦ none
    | some netns ↦
        let (n, k') = apply_iface do_apply sel dep.ifname netns k in
        some (put_netns dep.netns n i, k')
  ]

  -- the two loops over the stages: the link at which the run ends early, and what it leaves
  unfoldable pub apply_deps :
      Bool → Option Selector → List LinkDependency → IfState K × K → Option String × (IfState K × K)
  unfolding apply_dep
  apply_deps do_apply sel [] st = (none, st)
  apply_deps do_apply sel (dep ∷ deps) st = elim (apply_dep do_apply sel dep st) [
    | none ↦ (some dep.ifname, st)
    | some st' ↦ apply_deps do_apply sel deps st'
  ]

  unfoldable pub prepare_namespaces : Bool → IfState K → K → K
  prepare_namespaces do_apply i k = elim i.namespaces [
    | none ↦ k
    | some d ↦ i.prepare.apply do_apply k
  ]

  -- the bpf programs of all namespaces, and then their sysctl settings
  unfoldable pub apply_host : Bool → IfState K → K → K
  unfolding apply_bpf apply_sysctl
  apply_host do_apply i k =
      for_each (all_netns i) (apply_sysctl do_apply) (for_each (all_netns i) (apply_bpf do_apply) k)

  -- `if link_dep.netns not in self.namespaces`, for which the namespaces may be `None`
  unfoldable pub lost_netns : String → IfState K → Ending
  lost_netns ifname i = elim i.namespaces [ none ↦ type_error | some d ↦ unknown_netns ifname ]

  -- the loops over the stages, and the routing after them
  unfoldable pub apply_stages :
      Bool → Option Selector → List (List LinkDependency) → IfState K × K → Ending × (IfState K × K)
  unfolding apply_deps apply_routing lost_netns
  apply_stages do_apply sel layers st =
      let (stopped, (i, k)) = apply_deps do_apply sel (concat layers) st in
      elim stopped [
        | none ↦ (finished, (i, for_each (all_netns i) (apply_routing do_apply sel) k))
        | some ifname ↦ (lost_netns ifname i, (i, k))
      ]

  module _ (send : LinkRequest → K → Answer × K) (lower : String → String) where
    -- what a run does before the stages, unless a vrrp state update has triggered it
    unfoldable pub apply_plain : Bool → IfState K → LinkRun send → IfState K × LinkRun send
    unfolding apply_host
    apply_plain do_apply i s =
        let options : Cleanup = record {
          is_ignored = i.is_ignored;
          has_namespaces = elim i.namespaces [ none ↦ false | some d ↦ true ];
        } in
        let (registry, s') = cleanup send do_apply options i.registry s in
        (record i { registry = registry }, record s' { kernel = apply_host do_apply i s'.kernel })

    unfoldable pub before_stages :
        Bool → Option Selector → IfState K → LinkRun send → IfState K × LinkRun send
    unfolding apply_plain
    before_stages do_apply none i s = apply_plain do_apply i s
    before_stages do_apply (some v) i s = (i, s)

    -- the rest of a run behind `_stages`, which raises an exception for circular dependencies
    unfoldable pub apply_outcome :
        Bool
        → Option Selector
        → Outcome LinkDependency
        → IfState K
        → LinkRun send
        → Ending × IfState K × LinkRun send
    unfolding before_stages apply_stages
    apply_outcome do_apply sel circular i s = (circular_links, i, s)
    apply_outcome do_apply sel exhausted i s = (no_stages, i, s)
    apply_outcome do_apply sel (stages layers) i s =
        let (i1, s1) = before_stages do_apply sel i s in
        let (ending, (i2, k)) = apply_stages do_apply sel layers (i1, s1.kernel) in
        (ending, i2, record s1 { kernel = k })

    -- `_apply` for a plain run (`none`), and for one that a vrrp state update has triggered
    unfoldable pub apply_with :
        Bool → Option Selector → IfState K → LinkRun send → Ending × IfState K × LinkRun send
    unfolding prepare_namespaces find_stages apply_outcome
    apply_with do_apply none i s =
        apply_outcome do_apply none (find_stages do_apply i) i
          (record s { kernel = prepare_namespaces do_apply i s.kernel })
    apply_with do_apply (some v) i s = apply_outcome do_apply (some v) (find_stages do_apply i) i s

    -- `_apply`: the schema has the types and the states in lower case
    unfoldable pub apply :
        Bool → Option Selector → IfState K → LinkRun send → Ending × IfState K × LinkRun send
    apply do_apply none i s = apply_with do_apply none i s
    apply do_apply (some v) i s =
        apply_with do_apply
          (some (record v { vrrp_type = lower v.vrrp_type; vrrp_state = lower v.vrrp_state })) i
          (note (log_change v.vrrp_name) s)
