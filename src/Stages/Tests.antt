-- ===== src/Stages/Tests.antt =====
-- The resolver on a bridge with two ports and a VLAN, and on a circular configuration.
use ifstate.Prelude.{
  String, ◌≡◌, refl, ◌↔◌, true, false, none, List, [], ◌∷◌, Distinct, contains, union, diff,
  set_add, str_lt,
}
use ifstate.Prelude.Dict.{Dict, keys}
use ifstate.Prelude.Sort.{sorted, insort}
use ifstate.Dependency.{LinkDependency, link_key, link_lt, key_lt, ifname_lt, link_beq}
use ifstate.Stages.{
  stages, circular, exhausted, concat, resolve, rounds, as_sets, size, free, leaves, next,
}
use ifstate.Stages.Layers.{DependsOn, IsLayered, IsNode, resolve-IsLayered}
use ifstate.Stages.Complete.{resolve_complete}
use ifstate.Stages.Cycles.{Knot, resolve-ne-exhausted, resolve-circular_iff, resolve_go_on}

program : Unit {0}
unfolding resolve rounds as_sets size free leaves next union diff set_add sorted insort link_lt
    key_lt ifname_lt link_beq str_lt
program = tt

abbrev root : String → LinkDependency
root ifname = record { ifname = ifname; netns = none }

abbrev bridged : Dict LinkDependency (List LinkDependency)
bridged =
    (root "lo", [])
    ∷ (root "br0.10", root "br0" ∷ [])
    ∷ (root "eth1", root "br0" ∷ root "br0" ∷ [])
    ∷ (root "br0", [])
    ∷ (root "gre0", root "wan" ∷ [])
    ∷ []

abbrev looped : Dict LinkDependency (List LinkDependency)
looped = (root "lo", []) ∷ (root "a", root "b" ∷ []) ∷ (root "b", root "a" ∷ []) ∷ []

abbrev bridged_stages : List (List LinkDependency)
bridged_stages =
    (root "lo" ∷ root "br0" ∷ root "wan" ∷ [])
    ∷ (root "br0.10" ∷ root "eth1" ∷ root "gre0" ∷ [])
    ∷ []

bridged_resolved : resolve link_lt false bridged ≡ stages bridged_stages
unfolding program
bridged_resolved = refl

looped_resolved : resolve link_lt false looped ≡ circular
unfolding program
looped_resolved = refl

looped_go_on : resolve link_lt true looped ≡ stages ((root "lo" ∷ []) ∷ [])
unfolding program
looped_go_on = refl

bridged-Distinct : Distinct (keys bridged)
unfolding program
bridged-Distinct = (refl, (refl, (refl, (refl, (refl, tt)))))

looped-Distinct : Distinct (keys looped)
unfolding program
looped-Distinct = (refl, (refl, (refl, tt)))

resolve-IsLayered_example : IsLayered bridged [] bridged_stages
resolve-IsLayered_example =
    resolve-IsLayered link_lt false bridged bridged-Distinct bridged_stages bridged_resolved

resolve_complete_example :
    (contains (root "wan") (concat bridged_stages) ≡ true) ↔ IsNode bridged (root "wan")
resolve_complete_example =
    resolve_complete link_lt bridged bridged-Distinct bridged_stages (root "wan") bridged_resolved

resolve-ne-exhausted_example : ¬ (resolve link_lt true looped ≡ exhausted)
resolve-ne-exhausted_example = resolve-ne-exhausted link_lt looped looped-Distinct true

resolve-circular_iff_example : (resolve link_lt false looped ≡ circular) ↔ Knot looped
resolve-circular_iff_example = resolve-circular_iff link_lt looped looped-Distinct

resolve_go_on_example :
    (r : List (List LinkDependency)) × (resolve link_lt true looped ≡ stages r)
    × ((k : LinkDependency)
        → contains k (keys looped) ≡ true
        → contains k (concat r) ≡ false
        → (y : LinkDependency) × (contains y (concat r) ≡ false) × DependsOn looped k y)
    × ((knot : Knot looped) (k : LinkDependency)
        → contains k knot.members ≡ true
        → contains k (concat r) ≡ false)
resolve_go_on_example = resolve_go_on link_lt looped looped-Distinct
