-- ===== src/Parser/Config.antt =====
-- `Parser.config` of libifstate/parser/base.py, with the errors that a configuration of other types ends in.
use ifstate.Prelude.{
  ◌+◌, String, Bool, true, false, ◌&&◌, ◌||◌, Option, none, some, List, [], ◌∷◌, ◌==◌,
  if◌then◌else◌, text_key,
}
use ifstate.Value.{num, text}
use ifstate.Parser.{
  Node, leaf, list, dict, Items, nil, item, Members, empty, member, get, set_member, merge,
  update_lo,
}
use ifstate.Parser.Builtin.{default_lo_link, default_ifstates}

-- How `config` ends early: the two errors of validation, the second with the name of an entry and the
-- value whose type is reported, and any other exception.
pub data Failure : Type 0 where
  ignore_type other_exception : Failure
  entry_type : String → Node → Failure

pub data Parsed (A : Type 0) : Type 0 where
  parsed : A → Parsed A
  fails : Failure → Parsed A

abbrev pub if_some : {A B : Type 0} → Failure → (A → Parsed B) → Option A → Parsed B
if_some failure f none = fails failure
if_some failure f (some a) = f a

-- `s + t`
unfoldable pub join : String → String → String
join String.[] t = t
join (String.◌∷◌ c s) t = String.◌∷◌ c (join s t)

-- `k[:-8]` where `k.endswith("_builtin")`
unfoldable pub strip_builtin : String → Option String
strip_builtin String.[] = none
strip_builtin (String.◌∷◌ c s) =
    let rest = strip_builtin s in
    if String.◌∷◌ c s == "_builtin"
    then some ""
    else elim rest [ none ↦ none | some n ↦ some (String.◌∷◌ c n) ]

-- `list(d)`, and `del d[key]` for a key that is there once
unfoldable pub member_keys : Members → List String
member_keys empty = []
member_keys (member k v d) = k ∷ member_keys d

unfoldable pub del_member : String → Members → Members
del_member key empty = empty
del_member key (member k v d) =
    let rest = del_member key d in if k == key then d else member k v rest

unfoldable pub append_items : Items → Items → Items
append_items nil ys = ys
append_items (item x xs) ys = item x (append_items xs ys)

abbrev letters : String → Items
letters String.[] = nil
letters (String.◌∷◌ c s) = item (leaf (text (String.◌∷◌ c String.[]))) (letters s)

abbrev key_items : List String → Items
key_items [] = nil
key_items (k ∷ ks) = item (leaf (text k)) (key_items ks)

-- what iterating goes through; `none` is a `TypeError`
unfoldable pub iterate : Node → Option Items
unfolding member_keys
iterate (list xs) = some xs
iterate (dict d) = some (key_items (member_keys d))
iterate (leaf (text s)) = some (letters s)
iterate (leaf _) = none

-- `a += b`; `none` is a `TypeError`
unfoldable pub add_to : Node → Node → Option Node
unfolding iterate append_items join
add_to (list xs) b = elim (iterate b) [ none ↦ none | some ys ↦ some (list (append_items xs ys)) ]
add_to (leaf (text a)) (leaf (text b)) = some (leaf (text (join a b)))
add_to (leaf (num a)) (leaf (num b)) = some (leaf (num (a + b)))
add_to _ _ = none

-- what an entry becomes, given the one it had
unfoldable pub extended : Option Node → Node → Option Node
unfolding add_to
extended none b = some b
extended (some a) b = add_to a b

-- the loop that merges the built-in ignore lists, over the keys as they were before
unfoldable pub merge_builtin : List String → Members → Parsed Members
unfolding strip_builtin get extended set_member del_member
merge_builtin [] d = parsed d
merge_builtin (k ∷ ks) d = elim (strip_builtin k) [
  | none ↦ merge_builtin ks d
  | some n ↦ elim (get k d) [
    | none ↦ fails other_exception
    | some b ↦ elim (extended (get n d) b) [
      | none ↦ fails (entry_type n b)
      | some c ↦ merge_builtin ks (del_member k (set_member n c d))
    ]
  ]
]

-- a list that passes for the ignore settings: no text of it ends in `_builtin`
abbrev only_plain : Items → Bool
only_plain nil = true
only_plain (item (leaf (text k)) xs) =
    elim (strip_builtin k) [ none ↦ true | some n ↦ false ] && only_plain xs
only_plain (item _ xs) = false

unfoldable pub merge_ignore : Node → Parsed Node
unfolding member_keys merge_builtin
merge_ignore (dict d) = elim (merge_builtin (member_keys d) d) [
  | parsed d' ↦ parsed (dict d')
  | fails e ↦ fails e
]
merge_ignore (list xs) = if only_plain xs then parsed (list xs) else fails other_exception
merge_ignore (leaf v) = parsed (leaf v)

-- the merge of the built-in defaults; `none` is an exception
unfoldable pub merge_defaults : Members → Option Members
unfolding get iterate append_items set_member del_member
merge_defaults params = elim (get "defaults_builtin" params) [
  | none ↦ none
  | some builtin ↦ elim (get "defaults" params) [
    | none ↦ some (del_member "defaults_builtin" (set_member "defaults" builtin params))
    | some (list xs) ↦ elim (iterate builtin) [
      | none ↦ none
      | some ys ↦
          some (
            del_member "defaults_builtin"
              (set_member "defaults" (list (append_items xs ys)) params))
    ]
    | some _ ↦ none
  ]
]

-- `'interfaces' in x` for a list and for a text
abbrev has_text : String → Items → Bool
has_text t nil = false
has_text t (item (leaf (text s)) xs) = (s == t) || has_text t xs
has_text t (item _ xs) = has_text t xs

abbrev starts : String → String → Bool
starts String.[] s = true
starts (String.◌∷◌ c t) String.[] = false
starts (String.◌∷◌ c t) (String.◌∷◌ d s) =
    (String.◌∷◌ c String.[] == String.◌∷◌ d String.[]) && starts t s

abbrev has_substring : String → String → Bool
has_substring t String.[] = starts t String.[]
has_substring t (String.◌∷◌ c s) = starts t (String.◌∷◌ c s) || has_substring t s

-- `_update_lo` of a namespace; `none` is an exception
unfoldable pub namespace_lo : Node → Option Node
unfolding update_lo
namespace_lo (dict d) = elim (update_lo default_lo_link d) [
  | none ↦ none
  | some d' ↦ some (dict d')
]
namespace_lo (list xs) = if has_text "interfaces" xs then none else some (list xs)
namespace_lo (leaf (text s)) = if has_substring "interfaces" s then none else some (leaf (text s))
namespace_lo (leaf _) = none

unfoldable pub each_namespace : Members → Option Members
unfolding namespace_lo
each_namespace empty = some empty
each_namespace (member k v d) = elim (namespace_lo v) [
  | none ↦ none
  | some v' ↦ elim (each_namespace d) [ none ↦ none | some d' ↦ some (member k v' d') ]
]

-- The loopback interfaces of a configuration and of its namespaces. An empty list and an empty text are
-- iterated like a dictionary without a key.
unfoldable pub namespaces_lo : Members → Option Members
unfolding each_namespace get set_member
namespaces_lo cfg = elim (get "namespaces" cfg) [
  | none ↦ some cfg
  | some (dict d) ↦ elim (each_namespace d) [
    | none ↦ none
    | some d' ↦ some (set_member "namespaces" (dict d') cfg)
  ]
  | some (list nil) ↦ some cfg
  | some (leaf (text s)) ↦ if s == "" then some cfg else none
  | some _ ↦ none
]

unfoldable pub loopbacks : Members → Option Members
unfolding update_lo namespaces_lo
loopbacks cfg = elim (update_lo default_lo_link cfg) [
  | none ↦ none
  | some cfg' ↦ namespaces_lo cfg'
]

-- the configuration over the built-in one; `none` for an empty file
unfoldable pub over_builtin : Option Members → Members
unfolding merge
over_builtin none = default_ifstates
over_builtin (some ifstates) = merge default_ifstates ifstates

-- what follows the check of `ignore`
unfoldable pub finish_config : Members → Members → Node → Parsed Members
unfolding loopbacks merge_defaults merge_ignore set_member
finish_config cfg params ignore =
    if_some other_exception
      (λ cfg'.
        if_some other_exception
          (λ params'. elim (merge_ignore ignore) [
            | fails e ↦ fails e
            | parsed i ↦
                parsed (set_member "parameters" (dict (set_member "ignore" i params')) cfg')
          ])
          (merge_defaults params))
      (loopbacks cfg)

unfoldable pub config : Option Members → Parsed Members
unfolding over_builtin finish_config get iterate
config ifstates =
    let cfg = over_builtin ifstates in
    elim (get "parameters" cfg) [
      | none ↦ fails other_exception
      | some (dict params) ↦ elim (get "ignore" params) [
        | none ↦ fails other_exception
        | some ignore ↦ elim (iterate ignore) [
          | none ↦ fails ignore_type
          | some xs ↦ finish_config cfg params ignore
        ]
      ]
      | some _ ↦ fails ignore_type
    ]
