-- ===== src/Routing/Lookup.antt =====
-- `RTLookup` of libifstate/routing/__init__.py: the names of tables, scopes, protocols and realms.
use ifstate.Prelude.{
  ℕ, String, ◌≡◌, refl, ◌∙◌, false, contains, Distinct, All, All-mono, Option, none, some, List, [],
  ◌∷◌, arith, text_key, number_key, Option-cases, inl, inr,
}
use ifstate.Prelude.Dict.{Dict, lookup, insert, lookup-insert}
use ifstate.Prelude.Numeral.{read, show, read-show}
use ifstate.Value.{Value, num, text}

pub record RtLookup : Type 0 where
  pub str2id : Dict String ℕ
  pub id2str : Dict ℕ String

abbrev pub no_names : RtLookup
no_names = record { str2id = []; id2str = [] }

-- One line of a file, matched by `^(\d+)\s+(\S+)$` or not.
unfoldable pub parse_line : Option (ℕ × String) → RtLookup → RtLookup
parse_line none l = l
parse_line (some (id, name)) l = record {
  str2id = insert name id l.str2id;
  id2str = insert id name l.id2str;
}

-- `_parse`, over the lines of one file after the other (`__init__`)
unfoldable pub parse : List (Option (ℕ × String)) → RtLookup → RtLookup
unfolding parse_line
parse [] l = l
parse (line ∷ lines) l = parse lines (parse_line line l)

-- `lookup_id`; `none` is a `KeyError`. The schema admits numbers and text only.
unfoldable pub lookup_id : RtLookup → Value → Option ℕ
lookup_id l (num n) = some n
lookup_id l (text s) = elim (read 10 s) [ some n ↦ some n | none ↦ lookup s l.str2id ]
lookup_id l _ = none

unfoldable pub lookup_str : RtLookup → ℕ → String
lookup_str l n = elim (lookup n l.id2str) [ some name ↦ name | none ↦ show 10 n ]

-- No two numbers have one name, and no name is a number: then the two dictionaries agree.
record IsConsistent (l : RtLookup) : Type 0 where
  names : (n : ℕ) (name : String) → lookup n l.id2str ≡ some name → lookup name l.str2id ≡ some n
  no_number : (n : ℕ) (name : String) → lookup n l.id2str ≡ some name → read 10 name ≡ none

-- What is printed for a number by a consistent lookup reads back as the number.
printed-read :
    (l : RtLookup) (n : ℕ) → IsConsistent l → lookup_id l (text (lookup_str l n)) ≡ some n
unfolding lookup_id lookup_str
printed-read l n ok = elim (Option-cases (lookup n l.id2str)) [
  | inl unnamed ↦
      rw (unnamed, lookup_str) (rw (read-show 10 (omega arith) (omega arith) n, lookup_id))
  | inr (name, named) ↦
      rw (named, lookup_str) (rw (ok.no_number n name named, lookup_id) (ok.names n name named))
]

-- A line with a fresh name that is no number keeps the lookup consistent: no two numbers have one
-- name, and no name is a number.
parse_line-IsConsistent :
    (l : RtLookup) (id : ℕ) (name : String)
    → IsConsistent l
    → lookup name l.str2id ≡ none
    → read 10 name ≡ none
    → IsConsistent (parse_line (some (id, name)) l)
unfolding parse_line
parse_line-IsConsistent l id name ok fresh word = record {
  names = λ n s h. ground (
    arith,
    lookup-insert id n name l.id2str,
    lookup-insert name s id l.str2id,
    ok.names n s,
    number_key.same_iff id n,
    text_key.same_iff name s,
  );
  no_number = λ n s h.
      ground (arith, lookup-insert id n name l.id2str, ok.no_number n s, number_key.same_iff id n);
}

-- The names of the lines that match.
abbrev pub line_names : List (Option (ℕ × String)) → List String
line_names [] = []
line_names (none ∷ lines) = line_names lines
line_names (some (id, name) ∷ lines) = name ∷ line_names lines

parse-IsConsistent :
    (lines : List (Option (ℕ × String))) (l : RtLookup)
    → IsConsistent l
    → Distinct (line_names lines)
    → All (λ name. (lookup name l.str2id ≡ none) × (read 10 name ≡ none)) (line_names lines)
    → IsConsistent (parse lines l)
unfolding parse parse_line
parse-IsConsistent [] l ok u fresh = ok
parse-IsConsistent (none ∷ lines) l ok u fresh = parse-IsConsistent lines l ok u fresh
parse-IsConsistent (some (id, name) ∷ lines) l ok (out, u) ((free, word), fresh) =
    parse-IsConsistent lines (parse_line (some (id, name)) l)
      (parse_line-IsConsistent l id name ok free word) u (still (line_names lines) out fresh)
  where
    still :
        (ns : List String)
        → contains name ns ≡ false
        → All (λ n. (lookup n l.str2id ≡ none) × (read 10 n ≡ none)) ns
        → All (λ n. (lookup n (insert name id l.str2id) ≡ none) × (read 10 n ≡ none)) ns
    still [] out fresh = tt
    still (n ∷ ns) out ((a, b), fresh) = (
      (
        lookup-insert name n id l.str2id
            ∙ ground (arith, out, a, text_key.same_iff name n, text_key.same_iff n name),
        b,
      ),
      still ns (ground (arith, out)) fresh,
    )

empty-IsConsistent : IsConsistent no_names
unfolding lookup
empty-IsConsistent = record { names = λ n s h. cc; no_number = λ n s h. cc }

-- If no name stands on two lines of a file of names and no name is a number, what is printed for a
-- number with the lookup that is parsed from the lines reads back as the number.
pub lookup_id-lookup_str :
    (lines : List (Option (ℕ × String))) (n : ℕ)
    → Distinct (line_names lines)
    → All (λ name. read 10 name ≡ none) (line_names lines)
    → let l = parse lines no_names in lookup_id l (text (lookup_str l n)) ≡ some n
unfolding lookup
lookup_id-lookup_str lines n u words = printed-read (parse lines no_names) n (
    parse-IsConsistent lines no_names empty-IsConsistent u (
      All-mono (λ name. read 10 name ≡ none)
        (λ name. (lookup name no_names.str2id ≡ none) × (read 10 name ≡ none)) (line_names lines)
        (λ name h. (refl, h)) words))
