-- ===== src/Parser/Merge.antt =====
-- What the merge of two dictionaries holds.
use ifstate.Prelude.{
  String, ◌≡◌, refl, sym, ◌∙◌, ap, inl, inr, Option, none, some, List, [], ◌∷◌, arith, ◌==◌,
  if◌then◌else◌, text_key, Option-cases, Bool-cases,
}
use ifstate.Value.{Value}
use ifstate.Parser.{
  Node, leaf, list, dict, Members, empty, member, get, set_member, merge, merge_value,
}

pub get-set_member :
    (key other : String) (v : Node) (d : Members)
    → get other (set_member key v d) ≡ (if key == other then some v else get other d)
unfolding get set_member
get-set_member key other v empty = refl
get-set_member key other v (member k w d) = ground (
  arith,
  get-set_member key other v d,
  text_key.same_iff k key,
  text_key.same_iff k other,
  text_key.same_iff key other,
)

-- No dictionary of the configuration has a key twice.
unfoldable mutual
  unfolding get

  pub IsProper : Node → Type 0
  IsProper (leaf v) = Unit
  IsProper (list xs) = Unit
  IsProper (dict d) = AreProper d

  pub AreProper : Members → Type 0
  AreProper empty = Unit
  AreProper (member key v d) = (get key d ≡ none) × IsProper v × AreProper d

-- What the merge has at a key.
merged : Option Node → Option Node → Option Node
merged a none = a
merged a (some v) = some (merge_value a v)

get-merge :
    (key : String) (a b : Members)
    → AreProper b
    → get key (merge a b) ≡ merged (get key a) (get key b)
unfolding merge get IsProper merged
get-merge key a empty ok = refl
get-merge key a (member k v b) (fresh, _, ok) =
    let w = merge_value (get k a) v in
    let rest = get-merge key (set_member k w a) b ok in
    elim (Bool-cases (k == key)) [
      | inl same ↦
          let at' : k ≡ key = (text_key.same_iff k key).0 same in
          rest
          ∙ ap (merged (get key (set_member k w a))) (ap (λ x. get x b) (sym at') ∙ fresh)
          ∙ get-set_member k key w a
          ∙ rw same (ap (λ x. some (merge_value (get x a) v)) at')
      | inr differs ↦
          rest ∙ ap (λ x. merged x (get key b)) (get-set_member k key w a) ∙ rw differs refl
    ]

-- `d[k1][k2]...`; `none` if a key is missing or not in a dictionary
unfoldable pub walk : List String → Node → Option Node
unfolding get
walk [] n = some n
walk (k ∷ path) (dict d) = elim (get k d) [ none ↦ none | some n ↦ walk path n ]
walk (k ∷ path) _ = none

member-IsProper :
    (key : String) (d : Members) (n : Node) → AreProper d → get key d ≡ some n → IsProper n
unfolding get IsProper
member-IsProper key empty n ok h = cc
member-IsProper key (member k v d) n (fresh, here, ok) h = elim (Bool-cases (k == key)) [
  | inl same ↦ ground (arith, here)
  | inr differs ↦ member-IsProper key d n ok (ground arith)
]

-- If no dictionary of the configuration has a key twice and the configuration has a value that is
-- neither a dictionary nor a list at a path, the merge of any built-in value with it has that value
-- at the path.
pub merge_value-configured :
    (path : List String) (a : Option Node) (b : Node) (v : Value)
    → IsProper b
    → walk path b ≡ some (leaf v)
    → walk path (merge_value a b) ≡ some (leaf v)
unfolding merge walk IsProper merged
merge_value-configured [] none b v ok h = h
merge_value-configured [] (some (leaf x)) b v ok h = h
merge_value-configured [] (some (list xs)) b v ok h = h
merge_value-configured [] (some (dict c)) (leaf w) v ok h = h
merge_value-configured [] (some (dict c)) (list xs) v ok h = cc
merge_value-configured [] (some (dict c)) (dict d) v ok h = cc
merge_value-configured (k ∷ path) none b v ok h = h
merge_value-configured (k ∷ path) (some (leaf x)) b v ok h = h
merge_value-configured (k ∷ path) (some (list xs)) b v ok h = h
merge_value-configured (k ∷ path) (some (dict c)) (leaf w) v ok h = cc
merge_value-configured (k ∷ path) (some (dict c)) (list xs) v ok h = cc
merge_value-configured (k ∷ path) (some (dict c)) (dict d) v ok h = elim (Option-cases (get k d)) [
  | inl gone ↦ ground (arith, rw (gone, walk) at h)
  | inr (n, found) ↦
      let there = get-merge k c d ok ∙ ap (merged (get k c)) found in
      rw there (
        merge_value-configured path (get k c) n v (member-IsProper k d n ok found)
          (rw (found, walk) at h))
]

-- The configuration says nothing at the path: its dictionaries end before it with a missing key.
unfoldable Silent : List String → Node → Type 0
unfolding get
Silent [] n = ⊥
Silent (k ∷ path) (dict d) = elim (get k d) [ none ↦ Unit | some n ↦ Silent path n ]
Silent (k ∷ path) _ = ⊥

walk-Silent : (path : List String) (n : Node) → Silent path n → walk path n ≡ none
unfolding walk Silent
walk-Silent [] n h = absurd h
walk-Silent (k ∷ path) (leaf v) h = absurd h
walk-Silent (k ∷ path) (list xs) h = absurd h
walk-Silent (k ∷ path) (dict d) h = elim (Option-cases (get k d)) [
  | inl gone ↦ rw (gone, walk) refl
  | inr (n, found) ↦ rw (found, walk) (walk-Silent path n (rw (found, Silent) at h))
]

-- If no dictionary of the configuration has a key twice and its dictionaries end before a path with
-- a missing key, the merge with a built-in value has at the path what the built-in value has.
merge_value-default :
    (path : List String) (a b : Node)
    → IsProper b
    → Silent path b
    → walk path (merge_value (some a) b) ≡ walk path a
unfolding merge walk IsProper Silent merged
merge_value-default [] a b ok h = absurd h
merge_value-default (k ∷ path) a (leaf v) ok h = absurd h
merge_value-default (k ∷ path) a (list xs) ok h = absurd h
merge_value-default (k ∷ path) (leaf x) (dict d) ok h = walk-Silent (k ∷ path) (dict d) h
merge_value-default (k ∷ path) (list xs) (dict d) ok h = walk-Silent (k ∷ path) (dict d) h
merge_value-default (k ∷ path) (dict c) (dict d) ok h = elim (Option-cases (get k d)) [
  | inl gone ↦ rw (get-merge k c d ok ∙ ap (merged (get k c)) gone) refl
  | inr (n, found) ↦
      let there = get-merge k c d ok ∙ ap (merged (get k c)) found in
      let silent = rw (found, Silent) at h in
      elim (Option-cases (get k c)) [
        | inl none' ↦
            let right : walk (k ∷ path) (dict c) ≡ none = rw (none', walk) refl in
            rw (there, none') (walk-Silent path n silent ∙ sym right)
        | inr (m, default) ↦
            let right : walk (k ∷ path) (dict c) ≡ walk path m = rw (default, walk) refl in
            rw (there, default)
              (merge_value-default path m n (member-IsProper k d n ok found) silent ∙ sym right)
      ]
]
