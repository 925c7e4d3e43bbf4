-- ===== src/Parser/Ignored.antt =====
-- What `Parser.config` leaves of the ignore lists: the configured ones with the built-in ones behind.
use mathlib.Core.Path.{ap₂}
use ifstate.Prelude.{
  String, ◌≡◌, refl, sym, ◌∙◌, ap, Bool, true, false, ◌||◌, Option, none, some, List, [], ◌∷◌, ◌==◌,
  arith, if◌then◌else◌, contains, All, inl, inr, text_key, Option-cases, Bool-cases, is_some,
  Distinct, ◌⊎◌,
}
use ifstate.Parser.{Node, dict, Members, empty, member, get, set_member}
use ifstate.Parser.Merge.{get-set_member}
use ifstate.Parser.Config.{
  Parsed, parsed, fails, Failure, other_exception, entry_type, join, strip_builtin, member_keys,
  del_member, extended, merge_builtin, merge_ignore,
}

-- The name of an entry that ends in `_builtin` is the rest with that behind.
strip-join : (k n : String) → strip_builtin k ≡ some n → k ≡ join n "_builtin"
unfolding strip_builtin join
strip-join String.[] n h = cc
strip-join (String.◌∷◌ c s) n h = elim (Bool-cases (String.◌∷◌ c s == "_builtin")) [
  | inl whole ↦
      let e : some "" ≡ some n = sym (rw (whole, strip_builtin) refl) ∙ h in
      let same : "" ≡ n = cc in
      (text_key.same_iff (String.◌∷◌ c s) "_builtin").0 whole ∙ ap (λ x. join x "_builtin") same
  | inr part ↦ elim (Option-cases (strip_builtin s)) [
    | inl other ↦
        let e : none ≡ some n =
          sym (rw (part, strip_builtin) (rw (other, strip_builtin) refl)) ∙ h in
        cc
    | inr (m, found) ↦
        let e : some (String.◌∷◌ c m) ≡ some n =
          sym (rw (part, strip_builtin) (rw (found, strip_builtin) refl)) ∙ h in
        let same : String.◌∷◌ c m ≡ n = cc in
        ap (λ x. String.◌∷◌ c x) (strip-join s m found) ∙ ap (λ x. join x "_builtin") same
  ]
]

strip_inj : (j k n : String) → strip_builtin j ≡ some n → strip_builtin k ≡ some n → (j == k) ≡ true
strip_inj j k n h h' = (text_key.same_iff j k).1 (strip-join j n h ∙ sym (strip-join k n h'))

get-del_member :
    (key other : String) (d : Members)
    → (key == other) ≡ false
    → get other (del_member key d) ≡ get other d
unfolding get del_member
get-del_member key other empty h = refl
get-del_member key other (member k v d) h =
    ground (arith, get-del_member key other d h, text_key.same_iff k key, text_key.same_iff k other)

contains-member_keys : (k : String) (d : Members) → contains k (member_keys d) ≡ is_some (get k d)
unfolding get member_keys
contains-member_keys k empty = refl
contains-member_keys k (member j v d) = ground (arith, contains-member_keys k d)

-- An entry with the built-in one behind, if there is one.
abbrev pub combined : Option Node → Option Node → Option Node
combined a none = a
combined a (some b) = extended a b

-- No name ends in `_builtin` twice.
abbrev pub Single : String → Type 0
Single k = (n : String) → strip_builtin k ≡ some n → strip_builtin n ≡ none

pub parsed-cases :
    {A : Type 0} (p : Parsed A) → ((e : Failure) × (p ≡ fails e)) ⊎ ((a : A) × (p ≡ parsed a))
parsed-cases (parsed a) = inr (a, refl)
parsed-cases (fails e) = inl (e, refl)

merge_round :
    (j m : String) (ks : List String) (d d' : Members)
    → strip_builtin j ≡ some m
    → merge_builtin (j ∷ ks) d ≡ parsed d'
    → (c : Node) × (combined (get m d) (get j d) ≡ some c)
      × (merge_builtin ks (del_member j (set_member m c d)) ≡ parsed d')
unfolding merge_builtin
merge_round j m ks d d' suffix h = elim (Option-cases (get j d)) [
  | inl gone ↦
      let e : fails other_exception ≡ parsed d' =
        sym (rw (suffix, merge_builtin) (rw (gone, merge_builtin) refl)) ∙ h in
      cc
  | inr (b, there) ↦ elim (Option-cases (extended (get m d) b)) [
    | inl wrong ↦
        let e : fails (entry_type m b) ≡ parsed d' =
          sym (
            rw (suffix, merge_builtin) (rw (there, merge_builtin) (rw (wrong, merge_builtin) refl)))
          ∙ h in
        cc
    | inr (c, made) ↦ (
      c,
      ap (combined (get m d)) there ∙ made,
      sym (rw (suffix, merge_builtin) (rw (there, merge_builtin) (rw (made, merge_builtin) refl)))
          ∙ h,
    )
  ]
]

module _ (k n : String) (suffix : strip_builtin k ≡ some n) (plain : strip_builtin n ≡ none) where
  abbrev merged : Bool → Members → Option Node
  merged b d = if b then combined (get n d) (get k d) else get n d

  -- what another entry leaves alone
  others :
      (j m : String) (c : Node) (d : Members)
      → strip_builtin j ≡ some m
      → strip_builtin m ≡ none
      → (j == k) ≡ false
      → (b : Bool) → merged b (del_member j (set_member m c d)) ≡ merged b d
  others j m c d h single differs b =
      let jn : (j == n) ≡ false = elim (Bool-cases (j == n)) [
        | inl same ↦ let e : j ≡ n = (text_key.same_iff j n).0 same in cc
        | inr apart ↦ apart
      ] in
      let mn : (m == n) ≡ false = elim (Bool-cases (m == n)) [
        | inl same ↦
            let e : m ≡ n = (text_key.same_iff m n).0 same in
            absurd (ground (arith, strip_inj j k n (h ∙ ap some e) suffix, differs))
        | inr apart ↦ apart
      ] in
      let mk : (m == k) ≡ false = elim (Bool-cases (m == k)) [
        | inl same ↦ let e : m ≡ k = (text_key.same_iff m k).0 same in cc
        | inr apart ↦ apart
      ] in
      let at_n : get n (del_member j (set_member m c d)) ≡ get n d =
        get-del_member j n (set_member m c d) jn
        ∙ get-set_member m n c d
        ∙ ap (λ x. if x then some c else get n d) mn in
      let at_k : get k (del_member j (set_member m c d)) ≡ get k d =
        get-del_member j k (set_member m c d) differs
        ∙ get-set_member m k c d
        ∙ ap (λ x. if x then some c else get k d) mk in
      rw (at_n, at_k) refl

  -- and what its own entry leaves
  own :
      (j m : String) (c : Node) (d : Members)
      → strip_builtin j ≡ some m
      → strip_builtin m ≡ none
      → m ≡ n
      → get n (del_member j (set_member m c d)) ≡ some c
  own j m c d h single mn =
      let jn : (j == n) ≡ false = elim (Bool-cases (j == n)) [
        | inl same ↦ let e : j ≡ n = (text_key.same_iff j n).0 same in cc
        | inr apart ↦ apart
      ] in
      get-del_member j n (set_member m c d) jn
      ∙ get-set_member m n c d
      ∙ ap (λ b. if b then some c else get n d) ((text_key.same_iff m n).1 mn)

  merge_builtin-entry :
      (ks : List String) (d d' : Members)
      → Distinct ks
      → All Single ks
      → merge_builtin ks d ≡ parsed d'
      → get n d' ≡ merged (contains k ks) d
  unfolding merge_builtin
  merge_builtin-entry [] d d' u single h = let e : d ≡ d' = cc in ap (get n) (sym e)
  merge_builtin-entry (j ∷ ks) d d' (fresh, u) (here, single) h =
      elim (Option-cases (strip_builtin j)) [
        | inl free ↦
            let differs : (j == k) ≡ false = elim (Bool-cases (j == k)) [
              | inl same ↦ let e : j ≡ k = (text_key.same_iff j k).0 same in cc
              | inr apart ↦ apart
            ] in
            let later = sym (rw (free, merge_builtin) refl) ∙ h in
            merge_builtin-entry ks d d' u single later
            ∙ ap (λ b. merged (b || contains k ks) d) (sym differs)
        | inr (m, ends) ↦
            let (c, made, later) = merge_round j m ks d d' ends h in
            let next = del_member j (set_member m c d) in
            let rest = merge_builtin-entry ks next d' u single later in
            elim (Bool-cases (j == k)) [
              | inr differs ↦
                  rest
                  ∙ others j m c d ends (here m ends) differs (contains k ks)
                  ∙ ap (λ b. merged (b || contains k ks) d) (sym differs)
              | inl same ↦
                  let e : j ≡ k = (text_key.same_iff j k).0 same in
                  let mn : m ≡ n = cc in
                  let gone : contains k ks ≡ false = ap (λ x. contains x ks) (sym e) ∙ fresh in
                  rest
                  ∙ ap (λ b. merged b next) gone
                  ∙ own j m c d ends (here m ends) mn
                  ∙ sym made
                  ∙ ap₂ (λ x y. combined (get x d) (get y d)) mn e
                  ∙ ap (λ b. merged (b || contains k ks) d) (sym same)
            ]
      ]

  -- the same for the ignore settings as a whole
  pub merge_ignore-entry :
      (d : Members) (i : Node)
      → Distinct (member_keys d)
      → All Single (member_keys d)
      → merge_ignore (dict d) ≡ parsed i
      → (d' : Members) × (i ≡ dict d') × (get n d' ≡ combined (get n d) (get k d))
  unfolding merge_ignore
  merge_ignore-entry d i u single h = elim (parsed-cases (merge_builtin (member_keys d) d)) [
    | inl (e, failed) ↦ let e' : fails e ≡ parsed i = sym (rw (failed, merge_ignore) refl) ∙ h in cc
    | inr (d', made) ↦
        let e' : parsed (dict d') ≡ parsed i = sym (rw (made, merge_ignore) refl) ∙ h in
        let same : dict d' ≡ i = cc in
        (
          d',
          sym same,
          merge_builtin-entry (member_keys d) d d' u single made
              ∙ ap (λ b. merged b d) (contains-member_keys k d)
              ∙ merged_there d,
        )
  ]
    where
      merged_there : (d : Members) → merged (is_some (get k d)) d ≡ combined (get n d) (get k d)
      merged_there d = elim (Option-cases (get k d)) [
        | inl gone ↦ rw gone refl
        | inr (b, there) ↦ rw there refl
      ]
