-- ===== src/Routing/Match.antt =====
-- `_matches`, `route_matches`, `rule_matches` and `vrrp_match` of libifstate/routing/__init__.py.
use ifstate.Prelude.{
  String, ◌≡◌, ◌≢◌, refl, ◌↔◌, inl, inr, Bool, true, false, ◌||◌, not, Option, none, some, List, [],
  ◌∷◌, arith, ◌==◌, contains, Option-cases, text_key, option_key, All, if◌then◌else◌,
}
use ifstate.Prelude.Dict.{lookup}
use ifstate.Value.{Vrrp, vrrp, Fields, value_key, value_beq_iff}

-- `_matches`: the first field that differs, or that only one side has, ends the loop.
unfoldable pub matches : Fields → Fields → List String → Bool
matches r1 r2 [] = true
matches r1 r2 (fld ∷ fields) =
    let rest = matches r1 r2 fields in
    elim (lookup fld r1) [
      | some a ↦ elim (lookup fld r2) [ some b ↦ if a == b then rest else false | none ↦ false ]
      | none ↦ elim (lookup fld r2) [ some b ↦ false | none ↦ rest ]
    ]

abbrev pub route_key : List String
route_key = "dst" ∷ "priority" ∷ "proto" ∷ []

unfoldable pub route_matches : Fields → Fields → Bool
unfolding matches
route_matches r1 r2 = matches r1 r2 route_key

-- Two objects match exactly when each field is the same in both, or missing in both.
pub matches_iff :
    (r1 r2 : Fields) (fields : List String)
    → (matches r1 r2 fields ≡ true) ↔ All (λ f. lookup f r1 ≡ lookup f r2) fields
unfolding matches
matches_iff r1 r2 [] = (λ h. tt, λ h. refl)
matches_iff r1 r2 (f ∷ fields) =
    let (to, from) = matches_iff r1 r2 fields in
    elim (Option-cases (lookup f r1)) [
      | inl no_a ↦ elim (Option-cases (lookup f r2)) [
        | inl no_b ↦ ground (arith, to, from)
        | inr (b, has_b) ↦ ground (arith, to, from)
      ]
      | inr (a, has_a) ↦ elim (Option-cases (lookup f r2)) [
        | inl no_b ↦ ground (arith, to, from)
        | inr (b, has_b) ↦ ground (arith, to, from, value_beq_iff a b)
      ]
    ]

-- The constants `VRRP_MATCH_...`.
pub data Verdict : Type 0 where
  ignore disable enable : Verdict

-- `obj['_vrrp']`, if the object has it
unfoldable pub vrrp_of : Fields → Option Vrrp
vrrp_of obj = elim (lookup "_vrrp" obj) [ some (vrrp v) ↦ some v | _ ↦ none ]

-- `vrrp_match`; `none` is Python's `None`, which the callers take like `enable`.
unfoldable pub vrrp_match : Fields → Bool → String → String → String → Option Verdict
vrrp_match obj true vrrp_type vrrp_name vrrp_state = elim (vrrp_of obj) [
  | none ↦ some ignore
  | some v ↦
      if not (vrrp_type == v.kind) || not (vrrp_name == v.name)
      then some ignore
      else if contains vrrp_state v.states
      then some enable
      else some disable
]
vrrp_match obj false vrrp_type vrrp_name vrrp_state = elim (vrrp_of obj) [
  | none ↦ none
  | some v ↦ some ignore
]

-- `matched not in [VRRP_MATCH_IGNORE, VRRP_MATCH_DISABLE]`
unfoldable pub present : Option Verdict → Bool
present (some ignore) = false
present (some disable) = false
present _ = true

-- What a run has to do with an object, and whether the object is to be present.
abbrev pub Touches : Fields → Bool → String → String → String → Type 0
Touches obj true t n s =
    (v : Vrrp) × (vrrp_of obj ≡ some v)
    × (v.kind ≡ t)
    × (v.name ≡ n)
    × (present (vrrp_match obj true t n s) ≡ contains s v.states)
Touches obj false t n s = (vrrp_of obj ≡ none) × (present (vrrp_match obj false t n s) ≡ true)

-- A vrrp run only touches an object with a vrrp setting of that type and name, and has it present
-- exactly in the states of the setting. A plain run only touches an object without one, and has it
-- present.
pub vrrp_match_cases :
    (obj : Fields) (by_vrrp : Bool) (t n s : String)
    → (vrrp_match obj by_vrrp t n s ≢ some ignore) ↔ Touches obj by_vrrp t n s
unfolding vrrp_match present
vrrp_match_cases obj true t n s = elim (Option-cases (vrrp_of obj)) [
  | inl no_v ↦ ground arith
  | inr (v, has_v) ↦ (
    λ h. (
      v,
      has_v,
      ground (arith, text_key.same_iff t v.kind),
      ground (arith, text_key.same_iff n v.name),
      ground (arith, text_key.same_iff n v.name, text_key.same_iff t v.kind),
    ),
    λ (w, has_w, t', n', p). ground (arith, text_key.same_iff n v.name, text_key.same_iff t v.kind),
  )
]
vrrp_match_cases obj false t n s = elim (Option-cases (vrrp_of obj)) [
  | inl no_v ↦ ground arith
  | inr (v, has_v) ↦ ground arith
]
