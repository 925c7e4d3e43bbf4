-- ===== src/Update/Duplicates.antt =====
-- When `_update` fails: two interfaces with one name.
use ifstate.Prelude.{
  String, ◌≡◌, refl, sym, ap, ◌∙◌, Bool, true, false, not, ◌&&◌, ◌||◌, Option, none, some, List, [],
  ◌∷◌, arith, if◌then◌else◌, map, contains, text_key, All, inl, inr, Bool-cases, any,
}
use ifstate.Prelude.Dict.{Dict, insert, has, keys, has-keys, contains-keys-insert}
use ifstate.Registry.{Item}
use ifstate.Update.{
  Part, addresses, fdb, neighbours, sysctl, tc, wireguard, xdp, raises_at, lacks, Interface, Env,
  Objects, Failure, link_duplicate, Updated, updated, failed, next_round, obstacle, link_of,
  with_interface, update_interface, update_interfaces, no_objects,
}

abbrev pub failure : {C : Type 0} → Updated C → Option Failure
failure (updated o) = none
failure (failed e) = some e

-- No name is there twice.
abbrev pub all_distinct : List String → Bool
all_distinct [] = true
all_distinct (n ∷ ns) = not (contains n ns) && all_distinct ns

pub updated-inj : {C : Type 0} (x y : Objects C) → updated x ≡ updated y → x ≡ y
updated-inj x y h = cc

pub first_round :
    {C : Type 0} (round : Objects C → Updated C) (u : Updated C) (o : Objects C)
    → next_round round u ≡ updated o
    → (o1 : Objects C) × (u ≡ updated o1) × (round o1 ≡ updated o)
first_round round (updated o1) o h = (o1, refl, h)
first_round round (failed e) o h = cc

module _ {C : Type 0} (env : Env C) where
  -- An interface that uses no shaper and no feature that is missing, and whose objects can be made.
  abbrev pub Supported : Interface C → Type 0
  Supported i =
      (i.cshaper ≡ false)
      × (env.link_raises i ≡ false)
      × ((p : Part) → raises_at env i p ≡ false)
      × (lacks env i wireguard "wireguard" ≡ false)
      × (lacks env i xdp "xdp" ≡ false)

  obstacle-none :
      (i : Interface C) (o : Objects C)
      → Supported i
      → has i.name o.links ≡ false
      → obstacle env i o ≡ none
  unfolding obstacle
  obstacle-none i o (s, l, p, w, x) fresh =
      rw (fresh, l, p addresses, p fdb, p neighbours, p sysctl)
        (rw (s, p tc, w, p wireguard, x, p xdp) refl)

  update_fresh :
      (i : Interface C) (o : Objects C)
      → Supported i
      → has i.name o.links ≡ false
      → update_interface env i o ≡ updated (with_interface env i o)
  unfolding update_interface
  update_fresh i o supported fresh =
      ap (λ f. elim f [ none ↦ updated (with_interface env i o) | some e ↦ failed e ])
        (obstacle-none i o supported fresh)

  obstacle_taken :
      (i : Interface C) (o : Objects C)
      → has i.name o.links ≡ true
      → obstacle env i o ≡ some link_duplicate
  unfolding obstacle
  obstacle_taken i o taken = rw (taken) refl

  pub update_taken :
      (i : Interface C) (o : Objects C)
      → has i.name o.links ≡ true
      → update_interface env i o ≡ failed link_duplicate
  unfolding update_interface
  update_taken i o taken =
      ap (λ f. elim f [ none ↦ updated (with_interface env i o) | some e ↦ failed e ])
        (obstacle_taken i o taken)

  none_inside : (ns : List String) → any (λ n. contains n []) ns ≡ false
  none_inside [] = refl
  none_inside (n ∷ ns) = none_inside ns

  -- names that are neither there already nor there twice
  abbrev fresh_names : List String → List String → Bool
  fresh_names ns ks = not (any (λ n. contains n ks) ns) && all_distinct ns

  any-insert :
      {V : Type 0} (k : String) (v : V) (d : Dict String V) (ns : List String)
      → any (λ n. contains n (keys (insert k v d))) ns
        ≡ (contains k ns || any (λ n. contains n (keys d)) ns)
  any-insert k v d [] = refl
  any-insert k v d (n ∷ ns) = ground (
    arith,
    contains-keys-insert n k v d,
    any-insert k v d ns,
    text_key.same_iff k n,
    text_key.same_iff n k,
  )

  failure-fresh_names :
      (is : List (Interface C)) (o : Objects C)
      → All Supported is
      → failure (update_interfaces env is o)
        ≡ (if fresh_names (map (λ i. i.name) is) (keys o.links) then none else some link_duplicate)
  unfolding update_interfaces
  failure-fresh_names [] o supported = refl
  failure-fresh_names (i ∷ is) o (here, rest) = elim (Bool-cases (has i.name o.links)) [
    | inl taken ↦
        let inside : contains i.name (keys o.links) ≡ true =
          sym (has-keys i.name o.links) ∙ taken in
        ap (λ r. failure (next_round (update_interfaces env is) r)) (update_taken i o taken)
        ∙ rw inside refl
    | inr fresh ↦
        let outside : contains i.name (keys o.links) ≡ false =
          sym (has-keys i.name o.links) ∙ fresh in
        ap (λ r. failure (next_round (update_interfaces env is) r)) (update_fresh i o here fresh)
        ∙ failure-fresh_names is (with_interface env i o) rest
        ∙ ap
            (λ b.
              if not b && all_distinct (map (λ j. j.name) is) then none else some link_duplicate)
            (any-insert i.name (link_of env i) o.links (map (λ j. j.name) is))
        ∙ rw outside (ground arith)
  ]

  -- For interfaces that use no shaper and no feature that is missing and whose objects are
  -- constructed without an exception, the update of a namespace without objects fails exactly when
  -- two interfaces have one name, and then it fails with the error for a duplicate link.
  pub update_interfaces-failure :
      (is : List (Interface C)) (items : List Item)
      → All Supported is
      → failure (update_interfaces env is (no_objects items))
        ≡ (if all_distinct (map (λ i. i.name) is) then none else some link_duplicate)
  update_interfaces-failure is items supported =
      failure-fresh_names is (no_objects items) supported
      ∙ ap (λ b. if not b && all_distinct (map (λ i. i.name) is) then none else some link_duplicate)
          (none_inside (map (λ i. i.name) is))
