-- ===== src/Update/Provided.antt =====
-- What the objects of an interface are, in terms of the configuration and the defaults.
use ifstate.Prelude.{
  String, ◌≡◌, refl, sym, ap, ◌∙◌, ◌⊎◌, Bool, true, false, ◌&&◌, ◌==◌, arith, Option, none, some,
  List, [], ◌∷◌, text_key, In, All, inl, inr, Bool-cases, Option-cases, any, Distinct, contains,
  if◌then◌else◌,
}
use ifstate.Prelude.Dict.{Dict, lookup, insert, keys, from_pairs, lookup-insert}
use ifstate.Value.{Value, Fields}
use ifstate.Registry.{Item}
use ifstate.Links.Init.{Config, init}
use ifstate.Update.{
  Part, addresses, fdb, neighbours, sysctl, tc, wireguard, xdp, Interface, Default, Env, Objects,
  updated, all_match, no_default, get_defaults, default_of, configured, part_of, link_of,
  update_interfaces, no_objects,
}
use ifstate.Update.Collected.{update_interfaces-objects}

module _ (re_match : String → String → Bool) (kwargs : Dict String String) where
  -- Every option of a dictionary is given, with a text that fits its expression.
  abbrev pub Fits : Dict String String → Type 0
  Fits m =
      All
        (λ (o : String × String).
          (s : String) × (lookup o.0 kwargs ≡ some s) × (re_match o.1 s ≡ true))
        m

  -- One dictionary of the list `match` fits.
  abbrev pub Matches : Default → Type 0
  Matches d = (m : Dict String String) × In m d.matches × Fits m

  -- The first default that matches, or the empty one.
  abbrev pub IsFirst : List Default → Default → Type 0
  IsFirst [] d = d ≡ no_default
  IsFirst (x ∷ xs) d = (Matches x × (d ≡ x)) ⊎ ((¬ Matches x) × IsFirst xs d)

  all_match-Fits : (m : Dict String String) → all_match re_match kwargs m ≡ true → Fits m
  unfolding all_match
  all_match-Fits [] h = tt
  all_match-Fits ((option, regex) ∷ m) h = elim (Option-cases (lookup option kwargs)) [
    | inl missing ↦ let e : false ≡ true = sym (rw (missing, all_match) refl) ∙ h in absurd cc
    | inr (s, given) ↦
        let both : (re_match regex s && all_match re_match kwargs m) ≡ true =
          sym (rw (given, all_match) refl) ∙ h in
        ((s, given, ground (arith, both)), all_match-Fits m (ground (arith, both)))
  ]

  Fits-all_match : (m : Dict String String) → Fits m → all_match re_match kwargs m ≡ true
  unfolding all_match
  Fits-all_match [] h = refl
  Fits-all_match ((option, regex) ∷ m) ((s, given, fits), rest) =
      rw (given, all_match) (rw (fits) (Fits-all_match m rest))

  any-Fits :
      (ms : List (Dict String String))
      → any (all_match re_match kwargs) ms ≡ true
      → (m : Dict String String) × In m ms × Fits m
  any-Fits [] h = absurd (ground (arith, h))
  any-Fits (m ∷ ms) h = elim (Bool-cases (all_match re_match kwargs m)) [
    | inl fits ↦ (m, inl refl, all_match-Fits m fits)
    | inr fails ↦
        let (n, there, fits) = any-Fits ms (ground (arith, h, fails)) in (n, inr there, fits)
  ]

  Fits-any :
      (ms : List (Dict String String)) (m : Dict String String)
      → In m ms
      → Fits m
      → any (all_match re_match kwargs) ms ≡ true
  Fits-any [] m h fits = elim h [ ]
  Fits-any (x ∷ ms) m (inl e) fits =
      rw (ap (all_match re_match kwargs) (sym e) ∙ Fits-all_match m fits) refl
  Fits-any (x ∷ ms) m (inr h) fits = ground (arith, Fits-any ms m h fits)

  get_defaults-IsFirst : (ds : List Default) → IsFirst ds (get_defaults re_match ds kwargs)
  unfolding get_defaults
  get_defaults-IsFirst [] = refl
  get_defaults-IsFirst (d ∷ ds) = elim (Bool-cases (any (all_match re_match kwargs) d.matches)) [
    | inl hit ↦ inl (any-Fits d.matches hit, rw hit refl)
    | inr miss ↦ inr (
      λ (m, there, fits). absurd (ground (arith, miss, Fits-any d.matches m there fits)),
      rw miss (get_defaults-IsFirst ds),
    )
  ]

-- The parts of which a default has an entry `clear_<part>` that is read.
abbrev pub clears : Default → Part → Bool
clears d addresses = d.clear addresses
clears d fdb = d.clear fdb
clears d neighbours = d.clear neighbours
clears d tc = d.clear tc
clears d sysctl = false
clears d wireguard = false
clears d xdp = false

-- An option of two dictionaries, the first over the second.
abbrev pub over : Option Value → Option Value → Option Value
over (some v) w = some v
over none w = w

missing-lookup : (k : String) (d : Fields) → contains k (keys d) ≡ false → lookup k d ≡ none
unfolding lookup
missing-lookup k [] h = refl
missing-lookup k ((j, v) ∷ d) h = ground (arith, missing-lookup k d)

lookup-from_pairs :
    (k : String) (own d : Fields)
    → Distinct (keys own)
    → lookup k (from_pairs own d) ≡ over (lookup k own) (lookup k d)
unfolding lookup from_pairs
lookup-from_pairs k [] d u = refl
lookup-from_pairs k ((j, v) ∷ own) d (out, u) =
    let rest = lookup-from_pairs k own (insert j v d) u in
    elim (Bool-cases (j == k)) [
      | inl same ↦
          let e : j ≡ k = (text_key.same_iff j k).0 same in
          let gone : lookup k own ≡ none =
            missing-lookup k own (ap (λ x. contains x (keys own)) (sym e) ∙ out) in
          rest
          ∙ ap (λ x. over x (lookup k (insert j v d))) gone
          ∙ lookup-insert j k v d
          ∙ rw same refl
      | inr differs ↦
          rest
          ∙ ap (over (lookup k own))
              (lookup-insert j k v d ∙ ap (λ b. if b then some v else lookup k d) differs)
          ∙ rw differs refl
    ]

module _ {C : Type 0} (env : Env C) where
  -- What an interface has of a part, given its default.
  abbrev pub expected : Interface C → Default → Part → Option C
  expected i d p = elim (i.conf p) [
    | some c ↦ some c
    | none ↦ if clears d p then some (env.cleared p) else none
  ]

  configured-expected :
      (own : Option C) (b : Bool) (empty : C)
      → configured own b empty
        ≡ elim own [ some c ↦ some c | none ↦ if b then some empty else none ]
  unfolding configured
  configured-expected none true empty = refl
  configured-expected none false empty = refl
  configured-expected (some c) b empty = refl

  part_of-expected :
      (i : Interface C) (p : Part) → part_of env i p ≡ expected i (default_of env i) p
  unfolding part_of
  part_of-expected i addresses = configured-expected (i.conf addresses) _ _
  part_of-expected i fdb = configured-expected (i.conf fdb) _ _
  part_of-expected i neighbours = configured-expected (i.conf neighbours) _ _
  part_of-expected i tc = configured-expected (i.conf tc) _ _
  part_of-expected i sysctl = configured-expected (i.conf sysctl) _ _
  part_of-expected i wireguard = configured-expected (i.conf wireguard) _ _
  part_of-expected i xdp = configured-expected (i.conf xdp) _ _

  -- If the update of a namespace without objects succeeds and an interface has no link setting
  -- twice, the interface has its objects by the first default with a dictionary of which all
  -- options fit its name and kind, or by an empty default if there is none: a link that is made of
  -- its own link settings over those of the default, and for each part what it configures, or else
  -- a cleared part if the part is one of addresses, fdb, neighbours and tc and the default clears
  -- it, or else nothing.
  pub update_interfaces-provides :
      (is : List (Interface C)) (items : List Item) (o : Objects C) (i : Interface C)
      → update_interfaces env is (no_objects items) ≡ updated o
      → In i is
      → Distinct (keys i.link)
      → (d : Default) × (c : Config) × IsFirst env.re_match
          (("ifname", i.name) ∷ ("kind", i.kind) ∷ [])
          env.defaults
          d
        × ((c.name ≡ i.name) × (c.kind ≡ i.kind) × (c.netns ≡ env.netns) × (c.brport ≡ i.brport))
        × ((k : String) → lookup k c.link ≡ over (lookup k i.link) (lookup k d.link))
        × (lookup i.name o.links ≡ some (init env.library c))
        × ((p : Part) → lookup i.name (o.parts p) ≡ expected i d p)
  unfolding default_of link_of
  update_interfaces-provides is items o i h m u =
      let d = default_of env i in
      let c : Config = record {
        netns = env.netns;
        name = i.name;
        kind = i.kind;
        link = from_pairs i.link d.link;
        brport = i.brport;
        namespaces = env.namespaces;
      } in
      (
        d,
        c,
        get_defaults-IsFirst env.re_match (("ifname", i.name) ∷ ("kind", i.kind) ∷ []) env.defaults,
        (refl, refl, refl, refl),
        λ k. lookup-from_pairs k i.link d.link u,
        (update_interfaces-objects env is items o i addresses h m).0,
        λ p. (update_interfaces-objects env is items o i p h m).1 ∙ part_of-expected i p,
      )
