-- ===== src/Routing/Rules/Tests.antt =====
-- A kernel that is a list of rules, and the applier on it.
use ifstate.Prelude.{
  ◌≡◌, refl, true, false, List, [], ◌∷◌, ◌++◌, ◌==◌, text_key, list_key, pair_key, filter, not, inl,
  In, ◌⊎◌,
}
use ifstate.Prelude.Dict.{lookup}
use ifstate.Value.{num, Fields, value_key, value_beq}
use ifstate.Netlink.{Answer, accepted, start}
use ifstate.Routing.Match.{matches, vrrp_match, vrrp_of, present}
use ifstate.Routing.Tables.{Mode, plain_keys, is_plain}
use ifstate.Routing.Rules.Apply.{Request, add, del, rule_matches, is_ignored, apply}
use ifstate.Routing.Rules.Sent.{dels, apply_rules-removes, apply_rules_strays}
use ifstate.Routing.Rules.Provided.{adds, apply_rules_provides}

abbrev ours : Fields
ours = ("priority", num 100) ∷ ("table", num 5) ∷ []

abbrev stray : Fields
stray = ("priority", num 200) ∷ ("table", num 6) ∷ []

abbrev real : Mode
real = record { do_apply = true; by_vrrp = false; vrrp_type = ""; vrrp_name = ""; vrrp_state = "" }

abbrev serve : Request → List Fields → Answer × List Fields
serve (add r) k = (accepted, k ++ r ∷ [])
serve (del r) k = (accepted, filter (λ x. not (x == r)) k)

abbrev rules : List Fields → List Fields
rules k = k

apply_rules_strays_example :
    In stray (dels (apply serve rules real [] (ours ∷ []) (start (stray ∷ []))).sent)
unfolding is_ignored rule_matches plain_keys is_plain matches lookup value_beq
apply_rules_strays_example =
    apply_rules_strays serve rules real [] (ours ∷ []) (stray ∷ []) stray refl (inl refl) refl
      (refl, tt)

apply_rules-removes_example : In stray (stray ∷ []) × (is_ignored [] stray ≡ false)
unfolding is_ignored rule_matches plain_keys is_plain matches lookup value_beq
apply_rules-removes_example =
    apply_rules-removes serve rules real [] (ours ∷ []) (stray ∷ []) stray refl (
      apply_rules_strays serve rules real [] (ours ∷ []) (stray ∷ []) stray refl (inl refl) refl
        (refl, tt))

apply_rules_provides_example :
    In ours (adds (apply serve rules real [] (ours ∷ []) (start (stray ∷ []))).sent)
    ⊎ (k : Fields) × In k (stray ∷ []) × (rule_matches ours k ≡ true)
unfolding vrrp_match vrrp_of lookup present
apply_rules_provides_example =
    apply_rules_provides serve rules real [] (ours ∷ []) (stray ∷ []) ours refl refl (inl refl)
