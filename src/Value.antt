-- ===== src/Value.antt =====
-- The values of the flat dictionaries in which libifstate/ keeps routes and rules.
use ifstate.Prelude.{
  ℕ, String, ◌≡◌, ◌↔◌, Bool, true, false, ◌&&◌, List, arith, Comparable, ◌==◌, list_beq_iff,
  text_key, list_key, number_key, nat_beq_iff,
}
use ifstate.Prelude.Dict.{Dict}

-- A `vrrp` setting: the group or instance, and the states in which the object is present.
pub record Vrrp : Type 0 where
  pub kind : String
  pub name : String
  pub states : List String

pub data Value : Type 0 where
  null : Value
  num : ℕ → Value
  text : String → Value
  vrrp : Vrrp → Value

unfoldable pub vrrp_beq : Vrrp → Vrrp → Bool
vrrp_beq a b = (a.kind == b.kind) && (a.name == b.name) && (a.states == b.states)

pub vrrp_beq_iff : (a b : Vrrp) → (vrrp_beq a b ≡ true) ↔ (a ≡ b)
unfolding vrrp_beq
vrrp_beq_iff a b = ground (
  arith,
  text_key.same_iff a.kind b.kind,
  text_key.same_iff a.name b.name,
  list_beq_iff a.states b.states,
)

unfoldable pub value_beq : Value → Value → Bool
value_beq null null = true
value_beq (num a) (num b) = a == b
value_beq (text a) (text b) = a == b
value_beq (vrrp a) (vrrp b) = vrrp_beq a b
value_beq _ _ = false

pub value_beq_iff : (a b : Value) → (value_beq a b ≡ true) ↔ (a ≡ b)
unfolding value_beq
value_beq_iff null null = ground arith
value_beq_iff (num a) (num b) = ground (arith, nat_beq_iff a b)
value_beq_iff (text a) (text b) = ground (arith, text_key.same_iff a b)
value_beq_iff (vrrp a) (vrrp b) = ground (arith, vrrp_beq_iff a b)
value_beq_iff _ _ = ground arith

instance abbrev pub value_key : Comparable Value
value_key = record { same = value_beq; same_iff = value_beq_iff }

abbrev pub Fields : Type 0
Fields = Dict String Value
