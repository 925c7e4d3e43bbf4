-- ===== src/Routing/Rules.antt =====
-- The class `Rules` of libifstate/routing/__init__.py: policy rules, configured and in the kernel.
pub mod Apply
pub mod Sent
pub mod Provided
pub mod Check
mod Tests
use ifstate.Prelude.{
  map, ℕ, zero, suc, ◌+◌, String, Bool, true, false, not, Option, none, some, List, [], ◌∷◌, ◌++◌,
  Comparable, ◌==◌, if◌then◌else◌, ltb, number_key, text_key,
}
use ifstate.Prelude.Dict.{Dict, keys, lookup, insert, delete, has}
use ifstate.Value.{Value, null, num, text, vrrp, Fields, value_key}
use ifstate.Routing.Match.{matches}
use ifstate.Routing.Lookup.{RtLookup, lookup_id}
use ifstate.Routing.Config.{copy_field, get_field, or_null, set_some}

-- What `socket`, `ipaddress` and pyroute2 give for the rules.
pub record RuleLibrary : Type 0 where
  -- `socket.getprotobyname`; `none` is an `OSError`
  pub getprotobyname : String → Option ℕ
  -- `str(ip_network(v).network_address)` and `ip_network(v).prefixlen`
  pub network_address : Value → String
  pub prefixlen : Value → ℕ
  -- `FR_ACT_VALUES.get`
  pub fr_act_values : ℕ → Value

abbrev pub action_names : Dict String String
action_names =
    ("to_tbl", "FR_ACT_TO_TBL")
    ∷ ("unicast", "FR_ACT_UNICAST")
    ∷ ("blackhole", "FR_ACT_BLACKHOLE")
    ∷ ("unreachable", "FR_ACT_UNREACHABLE")
    ∷ ("prohibit", "FR_ACT_PROHIBIT")
    ∷ ("nat", "FR_ACT_NAT")
    ∷ []

unfoldable pub rule_action : Fields → Value
rule_action rule = elim (lookup "action" rule) [
  | none ↦ text "FR_ACT_TO_TBL"
  | some (text t) ↦ elim (lookup t action_names) [ some name ↦ text name | none ↦ text t ]
  | some v ↦ v
]

module _ (lib : RuleLibrary) where
  -- `if 'ipproto' in rule`
  unfoldable pub add_ipproto : Fields → Fields → Option Fields
  add_ipproto rule ru = elim (lookup "ipproto" rule) [
    | none ↦ some ru
    | some (text name) ↦ elim (lib.getprotobyname name) [
      | none ↦ none
      | some n ↦ some (insert "ip_proto" (num n) ru)
    ]
    | some v ↦ some (insert "ip_proto" v ru)
  ]

  -- `if 'to' in rule` and `if 'from' in rule`
  unfoldable pub add_network : String → String → String → Fields → Fields → Fields
  add_network key address len rule ru = elim (lookup key rule) [
    | none ↦ ru
    | some v ↦ insert len (num (lib.prefixlen v)) (insert address (text (lib.network_address v)) ru)
  ]

  -- the entries behind the table, the protocol and the protocol of the packet
  unfoldable pub add_selectors : Fields → Fields → Fields
  unfolding add_network copy_field
  add_selectors rule ru =
      let ru = add_network "to" "dst" "dst_len" rule ru in
      let ru = add_network "from" "src" "src_len" rule ru in
      let ru = copy_field "iif" "iifname" rule ru in
      let ru = copy_field "oif" "oifname" rule ru in
      let ru = copy_field "priority" "priority" rule ru in copy_field "vrrp" "_vrrp" rule ru

  -- `add`; `none` is an exception: a name that the tables or `getprotobyname` do not have
  unfoldable pub add_rule : RtLookup → RtLookup → Fields → List Fields → Option (List Fields)
  unfolding get_field rule_action copy_field add_ipproto add_selectors
  add_rule tables protos rule rules = elim (lookup_id tables (get_field "table" (num 254) rule)) [
    | none ↦ none
    | some table ↦ elim (lookup_id protos (get_field "proto" (num 0) rule)) [
      | none ↦ none
      | some protocol ↦
          let ru : Fields =
            ("table", num table)
            ∷ ("protocol", num protocol)
            ∷ ("tos", get_field "tos" (num 0) rule)
            ∷ [] in
          let ru = insert "action" (rule_action rule) ru in
          let ru = copy_field "fwmark" "fwmark" rule ru in
          elim (add_ipproto rule ru) [
            | none ↦ none
            | some ru' ↦ some (rules ++ add_selectors rule ru' ∷ [])
          ]
    ]
  ]

-- A rule message of the kernel.
pub record RuleMessage : Type 0 where
  pub family : ℕ
  pub action : ℕ
  pub tos : ℕ
  pub dst_len : ℕ
  pub src_len : ℕ
  pub fra_table : Option Value
  pub fra_protocol : Option Value
  pub fra_priority : Option Value
  pub fra_dst : Option Value
  pub fra_src : Option Value
  pub fra_iifname : Option Value
  pub fra_oifname : Option Value
  pub fra_fwmark : Option Value
  pub fra_ip_proto : Option Value

module _ (lib : RuleLibrary) where
  -- the body of the loop in `kernel_rules`
  unfoldable pub kernel_rule : RuleMessage → Fields
  unfolding or_null set_some
  kernel_rule m =
      let ru : Fields =
        ("action", lib.fr_act_values m.action)
        ∷ ("table", or_null m.fra_table)
        ∷ ("protocol", or_null m.fra_protocol)
        ∷ ("priority", elim m.fra_priority [ none ↦ num 0 | some v ↦ v ])
        ∷ ("family", num m.family)
        ∷ ("tos", num m.tos)
        ∷ [] in
      let ru =
        if ltb 0 m.dst_len
        then insert "dst_len" (num m.dst_len) (insert "dst" (or_null m.fra_dst) ru)
        else ru in
      let ru =
        if ltb 0 m.src_len
        then insert "src_len" (num m.src_len) (insert "src" (or_null m.fra_src) ru)
        else ru in
      let ru = set_some "iifname" m.fra_iifname ru in
      let ru = set_some "oifname" m.fra_oifname ru in
      let ru = set_some "fwmark" m.fra_fwmark ru in set_some "ip_proto" m.fra_ip_proto ru

  unfoldable pub kernel_rules : List RuleMessage → List RuleMessage → List Fields
  unfolding kernel_rule
  kernel_rules v4 v6 = map kernel_rule (v4 ++ v6)
