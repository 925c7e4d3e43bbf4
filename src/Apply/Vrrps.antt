-- ===== src/Apply/Vrrps.antt =====
-- The vrrp settings that `IfState._update` of libifstate/__init__.py collects, and what a run makes of them.
use ifstate.Prelude.{
  String, ◌≡◌, refl, sym, ap, ◌∙◌, Bool, true, false, ◌&&◌, ◌||◌, Option, none, some, List, [], ◌∷◌,
  ◌++◌, ◌==◌, if◌then◌else◌, text_key, contains, contains-append, any, arith, Distinct, subst, inl,
  inr, Bool-cases,
}
use ifstate.Prelude.Dict.{Dict, keys, lookup, insert, lookup-insert}
use ifstate.Value.{Vrrp}
use ifstate.Netlink.{for_each}
use ifstate.Apply.{Selector, VrrpIndex, get_or, no_vrrp}
use ifstate.Apply.Iface.{
  Gate, skip, enable, disable, match_vrrp_select, match_vrrp_state, is_up, gate,
}

-- `netns.vrrp[ktype][kname][kstate].append(name)`, for a new state too
unfoldable pub append_state :
    String → String → Dict String (List String) → Dict String (List String)
unfolding get_or
append_state name kstate d = insert kstate (get_or [] kstate d ++ name ∷ []) d

unfoldable pub add_vrrp : String → Vrrp → VrrpIndex → VrrpIndex
unfolding append_state get_or
add_vrrp name v index =
    let names = get_or [] v.kind index.types in
    let by_state = for_each v.states (append_state name) (get_or [] v.name names) in
    record {
      links = index.links ++ name ∷ [];
      types = insert v.kind (insert v.name by_state names) index.types;
    }

-- the loop over the interfaces, each a name and its vrrp setting
unfoldable pub add_interface : String × Option Vrrp → VrrpIndex → VrrpIndex
unfolding add_vrrp
add_interface (name, none) index = index
add_interface (name, some v) index = add_vrrp name v index

unfoldable pub vrrp_index : List (String × Option Vrrp) → VrrpIndex
unfolding add_interface
vrrp_index ifs = for_each ifs add_interface no_vrrp

-- What an insertion puts at a key, and what it leaves at another.
get_or-same :
    {V : Type 0} (z : V) (q p : String) (v : V) (d : Dict String V)
    → (p == q) ≡ true
    → get_or z q (insert p v d) ≡ v
unfolding get_or
get_or-same z q p v d same = rw (lookup-insert p q v d, get_or) (rw same refl)

get_or-other :
    {V : Type 0} (z : V) (q p : String) (v : V) (d : Dict String V)
    → (p == q) ≡ false
    → get_or z q (insert p v d) ≡ get_or z q d
unfolding get_or
get_or-other z q p v d differs = rw (lookup-insert p q v d, get_or) (rw differs refl)

append_state_more :
    (name n st x : String) (d : Dict String (List String))
    → contains n (get_or [] st (append_state name x d))
      ≡ (contains n (get_or [] st d) || ((x == st) && (name == n)))
unfolding append_state
append_state_more name n st x d = elim (Bool-cases (x == st)) [
  | inl same ↦
      let e : x ≡ st = (text_key.same_iff x st).0 same in
      ap (contains n) (get_or-same [] st x (get_or [] x d ++ name ∷ []) d same)
      ∙ contains-append n (get_or [] x d) (name ∷ [])
      ∙ rw (same, e) (ground arith)
  | inr differs ↦
      ap (contains n) (get_or-other [] st x (get_or [] x d ++ name ∷ []) d differs)
      ∙ rw differs (ground arith)
]

append_states :
    (name n st : String) (states : List String) (d : Dict String (List String))
    → contains n (get_or [] st (for_each states (append_state name) d))
      ≡ (contains n (get_or [] st d) || (contains st states && (name == n)))
unfolding for_each
append_states name n st [] d = ground arith
append_states name n st (x ∷ states) d =
    append_states name n st states (append_state name x d)
    ∙ ap (λ b. b || (contains st states && (name == n))) (append_state_more name n st x d)
    ∙ ground arith

is_up-add_vrrp :
    (s : Selector) (n m : String) (v : Vrrp) (index : VrrpIndex)
    → is_up s n (add_vrrp m v index)
      ≡ (is_up s n index || ((m == n) && match_vrrp_state s (some v)))
unfolding is_up add_vrrp match_vrrp_state
is_up-add_vrrp s n m v index =
    let names = get_or [] v.kind index.types in
    let by_state = for_each v.states (append_state m) (get_or [] v.name names) in
    let put = insert v.name by_state names in
    let up : Dict String (Dict String (List String)) → Bool =
      λ d. contains n (get_or [] s.vrrp_state (get_or [] s.vrrp_name d)) in
    let up' : Dict String (List String) → Bool = λ d. contains n (get_or [] s.vrrp_state d) in
    elim (Bool-cases (v.kind == s.vrrp_type)) [
      | inr differs ↦
          ap up (get_or-other [] s.vrrp_type v.kind put index.types differs)
          ∙ rw differs (ground arith)
      | inl same ↦
          let kind' : v.kind ≡ s.vrrp_type = (text_key.same_iff v.kind s.vrrp_type).0 same in
          let here = ap up (get_or-same [] s.vrrp_type v.kind put index.types same) in
          elim (Bool-cases (v.name == s.vrrp_name)) [
            | inr differs ↦
                here
                ∙ ap up' (get_or-other [] s.vrrp_name v.name by_state names differs)
                ∙ rw (same, differs, kind') (ground arith)
            | inl same' ↦
                let name' : v.name ≡ s.vrrp_name = (text_key.same_iff v.name s.vrrp_name).0 same' in
                here
                ∙ ap up' (get_or-same [] s.vrrp_name v.name by_state names same')
                ∙ append_states m n s.vrrp_state v.states (get_or [] v.name names)
                ∙ rw (same, same', kind', name') (ground arith)
          ]
    ]

abbrev up_in : Selector → String → List (String × Option Vrrp) → Bool
up_in s n ifs = any (λ p. (p.0 == n) && match_vrrp_state s p.1) ifs

is_up-index :
    (s : Selector) (n : String) (ifs : List (String × Option Vrrp)) (index : VrrpIndex)
    → is_up s n (for_each ifs add_interface index) ≡ (is_up s n index || up_in s n ifs)
unfolding for_each add_interface match_vrrp_state
is_up-index s n [] index = ground arith
is_up-index s n ((m, none) ∷ ifs) index = is_up-index s n ifs index ∙ ground arith
is_up-index s n ((m, some v) ∷ ifs) index =
    is_up-index s n ifs (add_vrrp m v index)
    ∙ ap (λ b. b || up_in s n ifs) (is_up-add_vrrp s n m v index)
    ∙ ground arith

-- Whether some interface of the name satisfies a test: in a list with distinct names, whether the one
-- that is found does.
named_absent :
    (n : String) (p : Option Vrrp → Bool) (ifs : List (String × Option Vrrp))
    → contains n (keys ifs) ≡ false
    → any (λ i. (i.0 == n) && p i.1) ifs ≡ false
named_absent n p [] out = refl
named_absent n p ((m, v) ∷ ifs) out = ground (arith, named_absent n p ifs)

named_lookup :
    (n : String) (p : Option Vrrp → Bool) (v : Option Vrrp) (ifs : List (String × Option Vrrp))
    → Distinct (keys ifs)
    → lookup n ifs ≡ some v
    → any (λ i. (i.0 == n) && p i.1) ifs ≡ p v
unfolding lookup
named_lookup n p v [] dist found = cc
named_lookup n p v ((m, w) ∷ ifs) (fresh, dist) found = elim (Bool-cases (m == n)) [
  | inl same ↦
      let e : m ≡ n = (text_key.same_iff m n).0 same in
      let both : some w ≡ some v = sym (rw same refl) ∙ found in
      let here : w ≡ v = cc in
      rw same (
        rw (named_absent n p ifs (subst (λ x. contains x (keys ifs) ≡ false) e fresh), here)
          (ground arith))
  | inr differs ↦ rw differs (named_lookup n p v ifs dist (sym (rw differs refl) ∙ found))
]

abbrev is_set : Option Vrrp → Bool
is_set none = false
is_set (some v) = true

links-index :
    (n : String) (ifs : List (String × Option Vrrp)) (index : VrrpIndex)
    → contains n (for_each ifs add_interface index).links
      ≡ (contains n index.links || any (λ i. (i.0 == n) && is_set i.1) ifs)
unfolding for_each add_interface add_vrrp
links-index n [] index = ground arith
links-index n ((m, none) ∷ ifs) index = links-index n ifs index ∙ ground arith
links-index n ((m, some v) ∷ ifs) index =
    links-index n ifs (add_vrrp m v index)
    ∙ ap (λ b. b || any (λ i. (i.0 == n) && is_set i.1) ifs)
        (contains-append n index.links (m ∷ []))
    ∙ ground arith

-- What a vrrp setting means for a run.
abbrev pub wanted : Option Selector → Option Vrrp → Gate
wanted none none = enable
wanted none (some v) = skip
wanted (some s) v =
    if match_vrrp_select s v then (if match_vrrp_state s v then enable else disable) else skip

is_up-no_vrrp : (s : Selector) (n : String) → is_up s n no_vrrp ≡ false
unfolding is_up get_or lookup
is_up-no_vrrp s n = ground arith

gate_decides :
    (sel : Option Selector) (n : String) (v : Option Vrrp) (index : VrrpIndex)
    → contains n index.links ≡ is_set v
    → ((s : Selector) → is_up s n index ≡ match_vrrp_state s v)
    → gate sel n v index ≡ wanted sel v
unfolding gate match_vrrp_select
gate_decides none n none index linked up = rw linked refl
gate_decides none n (some w) index linked up = rw linked refl
gate_decides (some s) n none index linked up = rw linked refl
gate_decides (some s) n (some w) index linked up = rw (linked, up s) (ground arith)

-- For interfaces with distinct names, what _apply_iface does with one of them by the index that
-- _update collects is what its own vrrp setting says: a plain run goes on exactly for an interface
-- without a setting, and a vrrp run exactly for one of that type and name, which it leaves enabled
-- if the state is among those of the setting and sets down otherwise.
pub gate-vrrp_index :
    (sel : Option Selector) (ifs : List (String × Option Vrrp)) (name : String) (v : Option Vrrp)
    → Distinct (keys ifs)
    → lookup name ifs ≡ some v
    → gate sel name v (vrrp_index ifs) ≡ wanted sel v
unfolding vrrp_index
gate-vrrp_index sel ifs name v dist found =
    gate_decides sel name v (vrrp_index ifs)
      (links-index name ifs no_vrrp ∙ named_lookup name is_set v ifs dist found)
      (λ s.
        is_up-index s name ifs no_vrrp
        ∙ ap (λ b. b || up_in s name ifs) (is_up-no_vrrp s name)
        ∙ named_lookup name (match_vrrp_state s) v ifs dist found)
