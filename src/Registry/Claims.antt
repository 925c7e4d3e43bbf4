-- ===== src/Registry/Claims.antt =====
-- Which items the links of a configuration claim.
use ifstate.Prelude.{
  ℕ, zero, suc, String, ◌≡◌, refl, sym, ap, ◌∙◌, ◌⊎◌, Bool, true, false, ◌||◌, Option, none, some,
  List, [], ◌∷◌, ◌++◌, ◌==◌, if◌then◌else◌, text_key, option_key, number_key, arith, Bool-cases,
  Option-cases, inl, inr, any,
}
use ifstate.Registry.{
  Item, Args, Settings, matches, get_link, bare, when_given, when, search_args, search, mark, claim,
  item_at,
}

-- Whether the item at a position is claimed.
abbrev pub linked_at : ℕ → List Item → Bool
linked_at n [] = false
linked_at zero (i ∷ items) = i.linked
linked_at (suc n) (i ∷ items) = linked_at n items

-- A claim changes no search.
get_link-mark :
    (a : Args) (n : ℕ) (items : List Item) → get_link a (mark n items) ≡ get_link a items
unfolding get_link mark matches
get_link-mark a n [] = refl
get_link-mark a zero (i ∷ items) = refl
get_link-mark a (suc n) (i ∷ items) = rw (get_link-mark a n items) refl

search-mark :
    (args : List Args) (n : ℕ) (items : List Item) → search args (mark n items) ≡ search args items
unfolding search
search-mark [] n items = refl
search-mark (a ∷ args) n items =
    let same = get_link-mark a n items in
    elim (Option-cases (get_link a items)) [
      | inl missing ↦
          let missing' : get_link a (mark n items) ≡ none = same ∙ missing in
          rw (missing, missing', search) (search-mark args n items)
      | inr (m, found) ↦
          let found' : get_link a (mark n items) ≡ some m = same ∙ found in
          rw (found, found', search) refl
    ]

linked_at-mark :
    (n m : ℕ) (items : List Item) (i : Item)
    → item_at n items ≡ some i
    → linked_at m (mark n items) ≡ (linked_at m items || (n == m))
unfolding mark
linked_at-mark n m [] i h = cc
linked_at-mark zero zero (i ∷ items) j h = ground arith
linked_at-mark zero (suc m) (i ∷ items) j h = ground arith
linked_at-mark (suc n) zero (i ∷ items) j h = ground arith
linked_at-mark (suc n) (suc m) (i ∷ items) j h = linked_at-mark n m items j h ∙ ground arith

abbrev ContainsArgs : Args → List Args → Type 0
ContainsArgs a [] = ⊥
ContainsArgs a (b ∷ bs) = (b ≡ a) ⊎ ContainsArgs a bs

any-search-mark :
    (links : List (List Args)) (m n : ℕ) (items : List Item)
    → any (λ args. search args (mark m items) == some n) links
      ≡ any (λ args. search args items == some n) links
any-search-mark [] m n items = refl
any-search-mark (args ∷ links) m n items =
    rw (search-mark args m items, any-search-mark links m n items) refl

-- What is found is there, and matches.
get_link-matches :
    (a : Args) (items : List Item) (n : ℕ)
    → get_link a items ≡ some n
    → (i : Item) × (item_at n items ≡ some i) × (matches a i ≡ true)
unfolding get_link
get_link-matches a [] n h = cc
get_link-matches a (i ∷ items) n h = elim (Bool-cases (matches a i)) [
  | inl fits ↦
      let both : some 0 ≡ some n = sym (rw fits refl) ∙ h in
      let e : 0 ≡ n = cc in (i, ap (λ m. item_at m (i ∷ items)) (sym e), fits)
  | inr no' ↦ elim (Option-cases (get_link a items)) [
    | inl missing ↦ let absurd : none ≡ some n = sym (rw (no', missing) refl) ∙ h in cc
    | inr (m, found) ↦
        let both : some (suc m) ≡ some n = sym (rw (no', found) refl) ∙ h in
        let e : suc m ≡ n = cc in
        let (j, at', ok) = get_link-matches a items m found in
        (j, ap (λ x. item_at x (i ∷ items)) (sym e) ∙ at', ok)
  ]
]

search-matches :
    (args : List Args) (items : List Item) (n : ℕ)
    → search args items ≡ some n
    → (a : Args) × (i : Item) × (ContainsArgs a args)
      × (item_at n items ≡ some i)
      × (matches a i ≡ true)
unfolding search
search-matches [] items n h = cc
search-matches (a ∷ args) items n h = elim (Option-cases (get_link a items)) [
  | inl missing ↦
      let later : search args items ≡ some n = sym (rw (missing, search) refl) ∙ h in
      let (b, i, inside, at', ok) = search-matches args items n later in (b, i, inr inside, at', ok)
  | inr (m, found) ↦
      let both : some m ≡ some n = sym (rw (found, search) refl) ∙ h in
      let e : m ≡ n = cc in
      let (i, at', ok) = get_link-matches a items m found in
      (a, i, inl refl, ap (λ x. item_at x items) (sym e) ∙ at', ok)
]

-- After the links of a configuration have searched the registry, an item has a link exactly if it
-- had one before or one of the links finds it: what an earlier link has claimed does not change
-- what a later one finds.
pub linked_at-claim :
    (links : List (List Args)) (items : List Item) (n : ℕ)
    → linked_at n (claim links items)
      ≡ (linked_at n items || any (λ args. search args items == some n) links)
unfolding claim
linked_at-claim [] items n = ground arith
linked_at-claim (args ∷ links) items n = elim (Option-cases (search args items)) [
  | inl missing ↦ rw (missing, claim) (linked_at-claim links items n)
  | inr (m, found) ↦
      let (a, i, inside, at', ok) = search-matches args items m found in
      rw (found, claim)
        (linked_at-claim links (mark m items) n
          ∙ ap (λ b. b || any (λ args. search args (mark m items) == some n) links)
              (linked_at-mark m n items i at')
          ∙ ap (λ b. (linked_at n items || (m == n)) || b) (any-search-mark links m n items)
          ∙ ground arith)
]

-- Searches by a kind.
abbrev Kinds : String → List Args → Type 0
Kinds k [] = Unit
Kinds k (a ∷ as') = (a.kind ≡ k) × Kinds k as'

Kinds-append : (k : String) (xs ys : List Args) → Kinds k xs → Kinds k ys → Kinds k (xs ++ ys)
Kinds-append k [] ys a b = b
Kinds-append k (x ∷ xs) ys (e, a) b = (e, Kinds-append k xs ys a b)

Kinds-given :
    (k : String) (o : Option String) (args : String → Args)
    → ((v : String) → (args v).kind ≡ k)
    → Kinds k (when_given o args)
unfolding when_given
Kinds-given k none args h = tt
Kinds-given k (some v) args h = (h v, tt)

Kinds-when : (k : String) (b : Bool) (a : Args) → (b ≡ true → a.kind ≡ k) → Kinds k (when b a)
unfolding when
Kinds-when k false a h = tt
Kinds-when k true a h = (h refl, tt)

search_args-Kinds :
    (lower format : String → String) (s : Settings) → Kinds s.kind (search_args lower format s)
unfolding search_args
search_args-Kinds lower format s =
    let by_businfo : String → Args = λ b. record (bare s.kind) { businfo = some (lower b) } in
    let by_permaddr : String → Args = λ p. record (bare s.kind) { permaddr = some (format p) } in
    let by_address : String → Args =
      λ a. record (bare s.kind) { address = some (format a); netns = some s.netns } in
    let by_name : Args = record (bare s.kind) { ifname = some s.name; netns = some s.netns } in
    let by_orphan : Args = record (bare "physical") { ifname = some s.name; orphan = true } in
    let address : Option String = if s.kind == "physical" then s.address else none in
    let named = by_name ∷ when (s.kind == "physical") by_orphan in
    let addressed = when_given address by_address ++ named in
    Kinds-append s.kind (when_given s.businfo by_businfo)
      (when_given s.permaddr by_permaddr ++ addressed)
      (Kinds-given s.kind s.businfo by_businfo (λ v. refl))
      (Kinds-append s.kind (when_given s.permaddr by_permaddr) addressed
        (Kinds-given s.kind s.permaddr by_permaddr (λ v. refl))
        (Kinds-append s.kind (when_given address by_address) named
          (Kinds-given s.kind address by_address (λ v. refl))
          (
            refl,
            Kinds-when s.kind (s.kind == "physical") by_orphan
                (λ h. sym ((text_key.same_iff s.kind "physical").0 h)),
          )))

Kinds-inside :
    (k : String) (a : Args) (args : List Args) → Kinds k args → ContainsArgs a args → a.kind ≡ k
Kinds-inside k a [] kinds inside = elim inside [ ]
Kinds-inside k a (b ∷ bs) (e, rest) (inl same) = ap (λ (x : Args). x.kind) (sym same) ∙ e
Kinds-inside k a (b ∷ bs) (e, rest) (inr inside) = Kinds-inside k a bs rest inside

-- The item that a configured link finds in the registry is of the kind of the link, by whichever of
-- its settings it is found.
pub search-kind :
    (lower format : String → String) (s : Settings) (items : List Item) (n : ℕ)
    → search (search_args lower format s) items ≡ some n
    → (i : Item) × (item_at n items ≡ some i) × (i.kind ≡ s.kind)
unfolding matches
search-kind lower format s items n found =
    let (a, i, inside, at', ok) = search-matches (search_args lower format s) items n found in
    let e : a.kind ≡ s.kind = Kinds-inside s.kind a _ (search_args-Kinds lower format s) inside in
    let both : (i.kind == a.kind) ≡ true = ground (arith, ok) in
    (i, at', (text_key.same_iff i.kind a.kind).0 both ∙ e)
