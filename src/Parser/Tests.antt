-- ===== src/Parser/Tests.antt =====
-- A configuration merged over built-in values.
use ifstate.Prelude.{String, text_key, ◌≡◌, refl, sym, ap, ◌∙◌, none, some, [], ◌∷◌, All}
use ifstate.Value.{num, text}
use ifstate.Parser.{item, nil, Members, Node, leaf, dict, list, empty, member, get, merge_value}
use ifstate.Parser.Builtin.{texts}
use ifstate.Parser.Config.{parsed, fails, strip_builtin, member_keys, config, over_builtin}
use ifstate.Parser.Ignored.{Single}
use ifstate.Parser.Configured.{config-ignore}
use ifstate.Parser.Merge.{IsProper, walk, merge_value-configured}

abbrev builtin : Node
builtin = dict (
    member "name" (leaf (text "lo")) (
      member "link"
        (dict (member "kind" (leaf (text "physical")) (member "mtu" (leaf (num 65536)) empty)))
        empty))

abbrev file : Node
file = dict (member "link" (dict (member "mtu" (leaf (num 1500)) empty)) empty)

merge_value-configured_example :
    walk ("link" ∷ "mtu" ∷ []) (merge_value (some builtin) file) ≡ some (leaf (num 1500))
unfolding walk get IsProper
merge_value-configured_example =
    merge_value-configured ("link" ∷ "mtu" ∷ []) (some builtin) file (num 1500)
      (refl, (refl, tt, tt), tt) refl

-- a configuration with an ignored address of a bridge
abbrev ifstates : Members
ifstates =
    member "parameters"
      (dict
        (member "ignore" (dict (member "fdb" (list (item (leaf (text "^aa:")) nil)) empty)) empty))
      empty

abbrev members_at : String → Members → Members
members_at k d = elim (get k d) [ some (dict m) ↦ m | _ ↦ empty ]

abbrev params : Members
params = members_at "parameters" (over_builtin (some ifstates))

abbrev ignored : Members
ignored = members_at "ignore" params

abbrev result : Members
result = elim (config (some ifstates)) [ parsed d ↦ d | fails e ↦ empty ]

stripped-Single : (k m : String) → strip_builtin k ≡ some m → strip_builtin m ≡ none → Single k
stripped-Single k m h free n h' = let e : m ≡ n = cc in ap strip_builtin (sym e) ∙ free

plain-Single : (k : String) → strip_builtin k ≡ none → Single k
plain-Single k h n h' = cc

ignored-Single : All Single (member_keys ignored)
unfolding config
ignored-Single = (
  stripped-Single "ipaddr_builtin" "ipaddr" refl refl,
  (
    plain-Single "ipaddr_dynamic" refl,
    (
      stripped-Single "ifname_builtin" "ifname" refl refl,
      (
        stripped-Single "fdb_builtin" "fdb" refl refl,
        (
          stripped-Single "routes_builtin" "routes" refl refl,
          (stripped-Single "rules_builtin" "rules" refl refl, (plain-Single "fdb" refl, tt)),
        ),
      ),
    ),
  ),
)

config-ignore_example :
    walk ("parameters" ∷ "ignore" ∷ "fdb" ∷ []) (dict result)
    ≡ some (list (item (leaf (text "^aa:")) (texts ("^33:33:" ∷ "^01:00:5e:" ∷ []))))
unfolding config walk
config-ignore_example =
    config-ignore (some ifstates) params ignored result "fdb_builtin" "fdb" refl refl
      (refl, (refl, (refl, (refl, (refl, (refl, (refl, tt))))))) ignored-Single refl refl refl
