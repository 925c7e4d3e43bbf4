-- ===== src/Routing/Rules/Apply.antt =====
-- `Rules.apply` of libifstate/routing/__init__.py: the kernel's rules are compared with the configured ones.
use ifstate.Prelude.{
  Bool, true, false, Option, none, some, List, [], ◌∷◌, if◌then◌else◌, any, text_key,
}
use ifstate.Prelude.Dict.{keys, lookup, insert, delete}
use ifstate.Value.{Fields}
use ifstate.Netlink.{Answer, Event, log_ok, log_add, log_del, warning, Run, note, request, for_each}
use ifstate.Routing.Match.{matches, Verdict, disable, vrrp_match, present}
use ifstate.Routing.Tables.{plain_keys, Mode}

pub data Request : Type 0 where
  add del : Fields → Request

unfoldable pub rule_matches : Fields → Fields → Bool
unfolding plain_keys
rule_matches rule krule = matches rule krule (plain_keys rule)

-- The loop over `enumerate(krules)`: `found`, and the list that it leaves.
unfoldable pub take_rule : Option Verdict → Fields → List Fields → Bool × List Fields
take_rule matched rule [] = (false, [])
take_rule matched rule (k ∷ ks) =
    let (found, rest) = take_rule matched rule ks in
    let left : List Fields = elim matched [ some disable ↦ k ∷ ks | _ ↦ ks ] in
    if rule_matches rule k then (true, left) else (found, k ∷ rest)

-- `irule['protocol'] = irule['proto']; del irule['proto']`
unfoldable pub rename_proto : Fields → Fields
rename_proto irule = elim (lookup "proto" irule) [
  | none ↦ irule
  | some v ↦ delete "proto" (insert "protocol" v irule)
]

unfoldable pub is_ignored : List Fields → Fields → Bool
unfolding rename_proto
is_ignored ignores rule =
    any (λ irule. let irule' = rename_proto irule in matches rule irule' (keys irule')) ignores

module _ {K : Type 0} (send : Request → K → Answer × K) (dump : K → List Fields) where
  unfoldable pub setup_rule :
      Mode → Fields → Bool → Run K Request (Event Fields) → Run K Request (Event Fields)
  setup_rule mode rule found s =
      if found
      then note (log_ok rule) s
      else request send mode.do_apply (add rule) (warning rule) (note (log_add rule) s)

  abbrev State : Type 0
  State = List Fields × Run K Request (Event Fields)

  -- the body of the loop over the configured rules
  unfoldable pub apply_rule : Mode → Fields → State → State
  apply_rule mode rule (krules, s) =
      let matched = vrrp_match rule mode.by_vrrp mode.vrrp_type mode.vrrp_name mode.vrrp_state in
      let (found, left) = take_rule matched rule krules in
      (left, if present matched then setup_rule mode rule found s else s)

  unfoldable pub remove_rule :
      Mode → List Fields → Fields → Run K Request (Event Fields) → Run K Request (Event Fields)
  remove_rule mode ignores rule s =
      if is_ignored ignores rule
      then s
      else request send mode.do_apply (del rule) (warning rule) (note (log_del rule) s)

  unfoldable pub apply :
      Mode → List Fields → List Fields → Run K Request (Event Fields) → Run K Request (Event Fields)
  apply mode ignores rules s =
      let (krules, s') = for_each rules (apply_rule mode) (dump s.kernel, s) in
      for_each krules (remove_rule mode ignores) s'
