-- ===== src/Parser/Configured.antt =====
-- The ignore lists after the whole of `Parser.config`.
use ifstate.Prelude.{
  String, ◌≡◌, refl, List, if◌then◌else◌, sym, ◌∙◌, ap, Option, none, some, [], ◌∷◌, All, inl, inr,
  Distinct, Option-cases, text_key,
}
use ifstate.Parser.{Node, dict, Members, get, set_member}
use ifstate.Parser.Merge.{get-set_member, walk}
use ifstate.Parser.Config.{
  parsed, fails, Failure, other_exception, strip_builtin, member_keys, merge_ignore, merge_defaults,
  loopbacks, finish_config, config, over_builtin,
}
use ifstate.Parser.Ignored.{combined, Single, parsed-cases, merge_ignore-entry}

never : {B : Type 0} {A : Type 0} (e : Failure) (a : A) → fails e ≡ parsed a → B
never e a h = cc

module _ (cfg params result : Members) (ignore : Node) where
  -- how a configuration ends that is parsed
  finish-parsed :
      finish_config cfg params ignore ≡ parsed result
      → (cfg' params' : Members) × (i : Node) × (merge_ignore ignore ≡ parsed i)
        × (result ≡ set_member "parameters" (dict (set_member "ignore" i params')) cfg')
  unfolding finish_config
  finish-parsed h = elim (Option-cases (loopbacks cfg)) [
    | inl broken ↦ never other_exception result (sym (rw (broken, finish_config) refl) ∙ h)
    | inr (cfg', here) ↦ elim (Option-cases (merge_defaults params)) [
      | inl broken ↦
          never other_exception result
            (sym (rw (here, finish_config) (rw (broken, finish_config) refl)) ∙ h)
      | inr (params', there) ↦ elim (parsed-cases (merge_ignore ignore)) [
        | inl (e, failed) ↦ never e result (
            sym (
              rw (here, finish_config)
                (rw (there, finish_config) (rw (failed, finish_config) refl)))
            ∙ h)
        | inr (i, made) ↦
            let end' = set_member "parameters" (dict (set_member "ignore" i params')) cfg' in
            let e' : parsed end' ≡ parsed result =
              sym (
                rw (here, finish_config)
                  (rw (there, finish_config) (rw (made, finish_config) refl)))
              ∙ h in
            (cfg', params', i, made, cc)
      ]
    ]
  ]

config-finish :
    (ifstates : Option Members) (params d result : Members)
    → get "parameters" (over_builtin ifstates) ≡ some (dict params)
    → get "ignore" params ≡ some (dict d)
    → config ifstates ≡ parsed result
    → finish_config (over_builtin ifstates) params (dict d) ≡ parsed result
unfolding config
config-finish ifstates params d result h h' done =
    sym (rw (h, config) (rw (h', config) refl)) ∙ done

get-set_self : (key : String) (v : Node) (d : Members) → get key (set_member key v d) ≡ some v
get-set_self key v d =
    get-set_member key key v d
    ∙ ap (λ b. if b then some v else get key d) ((text_key.same_iff key key).1 refl)

walk-get :
    (key : String) (path : List String) (d : Members) (n : Node)
    → get key d ≡ some n
    → walk (key ∷ path) (dict d) ≡ walk path n
unfolding walk
walk-get key path d n h = rw (h, walk) refl

walk-last : (key : String) (d : Members) → walk (key ∷ []) (dict d) ≡ get key d
unfolding walk
walk-last key d = elim (Option-cases (get key d)) [
  | inl gone ↦ rw (gone, walk) refl
  | inr (n, there) ↦ rw (there, walk) refl
]

-- If config succeeds, the ignore settings of the merged configuration are a dictionary with
-- distinct keys, and no key of it ends in `_builtin` twice, then the configuration has, at each
-- name that does not end in `_builtin`, the entry of that name extended by the entry of the name
-- with `_builtin` behind, where there is one.
pub config-ignore :
    (ifstates : Option Members) (params d result : Members) (k n : String)
    → get "parameters" (over_builtin ifstates) ≡ some (dict params)
    → get "ignore" params ≡ some (dict d)
    → Distinct (member_keys d)
    → All Single (member_keys d)
    → strip_builtin k ≡ some n
    → strip_builtin n ≡ none
    → config ifstates ≡ parsed result
    → walk ("parameters" ∷ "ignore" ∷ n ∷ []) (dict result) ≡ combined (get n d) (get k d)
config-ignore ifstates params d result k n h h' u single suffix plain done =
    let (cfg', params', i, made, end') =
      finish-parsed (over_builtin ifstates) params result (dict d)
        (config-finish ifstates params d result h h' done) in
    let (d', same, entry) = merge_ignore-entry k n suffix plain d i u single made in
    ap (λ (x : Members). walk ("parameters" ∷ "ignore" ∷ n ∷ []) (dict x)) end'
    ∙ walk-get "parameters" ("ignore" ∷ n ∷ []) _ _
        (get-set_self "parameters" (dict (set_member "ignore" i params')) cfg')
    ∙ walk-get "ignore" (n ∷ []) _ _ (get-set_self "ignore" i params')
    ∙ ap (walk (n ∷ [])) same
    ∙ walk-last n d'
    ∙ entry
