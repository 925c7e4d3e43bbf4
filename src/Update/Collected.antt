-- ===== src/Update/Collected.antt =====
-- What `_update` makes of the interfaces of a configuration.
use mathlib.Core.Path.{ap₂}
use ifstate.Links.{Link}
use ifstate.Prelude.{
  String, ◌≡◌, refl, sym, ap, ◌∙◌, true, false, Option, none, some, List, [], ◌∷◌, ◌==◌, arith,
  if◌then◌else◌, is_some, map, text_key, In, inl, inr, Bool-cases, subst,
}
use ifstate.Prelude.Dict.{Dict, lookup, has, lookup-insert}
use ifstate.Registry.{Item}
use ifstate.Netlink.{for_each}
use ifstate.Apply.Vrrps.{add_interface, vrrp_index}
use ifstate.Update.{
  Part, Interface, Env, Objects, Failure, updated, failed, obstacle, store, part_of, link_of,
  with_interface, update_interface, update_interfaces, no_objects,
}
use ifstate.Update.Duplicates.{updated-inj, first_round}

module _ {C : Type 0} (env : Env C) where
  -- A round that succeeds.
  update_ok :
      (i : Interface C) (o o' : Objects C)
      → update_interface env i o ≡ updated o'
      → (has i.name o.links ≡ false) × (with_interface env i o ≡ o')
  unfolding update_interface obstacle
  update_ok i o o' h = elim (Bool-cases (has i.name o.links)) [
    | inl taken ↦ cc
    | inr fresh ↦ (fresh, made (obstacle env i o) h)
  ]
    where
      made :
          (f : Option Failure)
          → elim f [ none ↦ updated (with_interface env i o) | some e ↦ failed e ] ≡ updated o'
          → with_interface env i o ≡ o'
      made none h = updated-inj _ _ h
      made (some e) h = cc

  update_goes_on :
      (i : Interface C) (is : List (Interface C)) (o o' : Objects C)
      → update_interfaces env (i ∷ is) o ≡ updated o'
      → (has i.name o.links ≡ false)
        × (update_interfaces env is (with_interface env i o) ≡ updated o')
  unfolding update_interfaces
  update_goes_on i is o o' h =
      let (o1, first, later) =
        first_round (update_interfaces env is) (update_interface env i o) o' h in
      let (fresh, same) = update_ok i o o1 first in
      (fresh, ap (update_interfaces env is) same ∙ later)

  -- What an interface has, and another one leaves alone.
  module _ (p : Part) where
    lookup-store :
        (name n : String) (c : Option C) (d : Dict String C)
        → (name == n) ≡ false
        → lookup n (store name c d) ≡ lookup n d
    unfolding store
    lookup-store name n none d other = refl
    lookup-store name n (some c) d other =
        lookup-insert name n c d ∙ ap (λ b. if b then some c else lookup n d) other

    lookup-store_self :
        (name : String) (c : Option C) (d : Dict String C)
        → lookup name d ≡ none
        → lookup name (store name c d) ≡ c
    unfolding store
    lookup-store_self name none d absent = absent
    lookup-store_self name (some c) d absent =
        lookup-insert name name c d
        ∙ ap (λ b. if b then some c else lookup name d) ((text_key.same_iff name name).1 refl)

    -- the objects of a name: those of its link and of the part
    abbrev objects_of : String → Objects C → Option Link × Option C
    objects_of n o = (lookup n o.links, lookup n (o.parts p))

    others :
        (i : Interface C) (n : String) (o : Objects C)
        → (i.name == n) ≡ false
        → objects_of n (with_interface env i o) ≡ objects_of n o
    unfolding with_interface
    others i n o other =
        ap₂ (λ a b. (a, b))
          (lookup-insert i.name n (link_of env i) o.links
            ∙ ap (λ b. if b then some (link_of env i) else lookup n o.links) other)
          (lookup-store i.name n (part_of env i p) (o.parts p) other)

    differ :
        {V : Type 0} (a b : String) (d : Dict String V)
        → has a d ≡ false
        → has b d ≡ true
        → (a == b) ≡ false
    differ a b d out inside = elim (Bool-cases (a == b)) [
      | inl same ↦
          let e : a ≡ b = (text_key.same_iff a b).0 same in
          absurd (ground (arith, sym out ∙ ap (λ x. has x d) e ∙ inside))
      | inr apart ↦ apart
    ]

    kept :
        (is : List (Interface C)) (n : String) (o o' : Objects C)
        → update_interfaces env is o ≡ updated o'
        → has n o.links ≡ true
        → objects_of n o' ≡ objects_of n o
    unfolding update_interfaces
    kept [] n o o' h there = ap (objects_of n) (sym (updated-inj o o' h))
    kept (i ∷ is) n o o' h there =
        let (fresh, later) = update_goes_on i is o o' h in
        let other = differ i.name n o.links fresh there in
        let same = others i n o other in
        kept is n (with_interface env i o) o' later (ap (λ x. is_some x.0) same ∙ there) ∙ same

    own :
        (i : Interface C) (o : Objects C)
        → lookup i.name (o.parts p) ≡ none
        → objects_of i.name (with_interface env i o) ≡ (some (link_of env i), part_of env i p)
    unfolding with_interface
    own i o absent =
        ap₂ (λ a b. (a, b))
          (lookup-insert i.name i.name (link_of env i) o.links
            ∙ ap (λ b. if b then some (link_of env i) else lookup i.name o.links)
                ((text_key.same_iff i.name i.name).1 refl))
          (lookup-store_self i.name (part_of env i p) (o.parts p) absent)

    -- a part is only there with its link
    abbrev Linked : Objects C → Type 0
    Linked o = (n : String) → has n o.links ≡ false → lookup n (o.parts p) ≡ none

    with_interface-Linked :
        (i : Interface C) (o : Objects C) → Linked o → Linked (with_interface env i o)
    unfolding with_interface
    with_interface-Linked i o linked n out = elim (Bool-cases (i.name == n)) [
      | inl same ↦ absurd (
          ground
            (arith, sym out ∙ ap is_some (lookup-insert i.name n (link_of env i) o.links), same))
      | inr other ↦
          ap (λ x. x.1) (others i n o other)
          ∙ linked n (sym (ap (λ x. is_some x.0) (others i n o other)) ∙ out)
    ]

    inside :
        (is : List (Interface C)) (i : Interface C) (o o' : Objects C)
        → Linked o
        → update_interfaces env is o ≡ updated o'
        → In i is
        → objects_of i.name o' ≡ (some (link_of env i), part_of env i p)
    inside [] i o o' linked h m = elim m [ ]
    inside (j ∷ is) i o o' linked h (inl e) =
        let (fresh, later) = update_goes_on j is o o' h in
        let made = own j o (linked j.name fresh) in
        subst (λ (x : Interface C). objects_of x.name o' ≡ (some (link_of env x), part_of env x p))
          (sym e)
          (kept is j.name (with_interface env j o) o' later (ap (λ x. is_some x.0) made) ∙ made)
    inside (j ∷ is) i o o' linked h (inr m) =
        let (fresh, later) = update_goes_on j is o o' h in
        inside is i (with_interface env j o) o' (with_interface-Linked j o linked) later m

  -- If the update of a namespace without objects succeeds, each interface of the configuration has
  -- its own link, and for each part what it configures, or else what a default clears it to, or
  -- else nothing.
  pub update_interfaces-objects :
      (is : List (Interface C)) (items : List Item) (o : Objects C) (i : Interface C) (p : Part)
      → update_interfaces env is (no_objects items) ≡ updated o
      → In i is
      → (lookup i.name o.links ≡ some (link_of env i))
        × (lookup i.name (o.parts p) ≡ part_of env i p)
  unfolding lookup
  update_interfaces-objects is items o i p h m =
      let both = inside p is i (no_objects items) o (λ n out. refl) h m in
      (ap (λ x. x.0) both, ap (λ x. x.1) both)

  vrrp_with :
      (i : Interface C) (is : List (Interface C)) (o : Objects C)
      → for_each (map (λ j. (j.name, j.vrrp)) is) add_interface (with_interface env i o).vrrp
        ≡ for_each
            (map (λ j. (j.name, j.vrrp)) is)
            add_interface
            (add_interface (i.name, i.vrrp) o.vrrp)
  unfolding with_interface
  vrrp_with i is o = refl

  vrrp_after :
      (is : List (Interface C)) (o o' : Objects C)
      → update_interfaces env is o ≡ updated o'
      → o'.vrrp ≡ for_each (map (λ i. (i.name, i.vrrp)) is) add_interface o.vrrp
  unfolding update_interfaces for_each
  vrrp_after [] o o' h = ap (λ x. x.vrrp) (sym (updated-inj o o' h))
  vrrp_after (i ∷ is) o o' h =
      let (fresh, later) = update_goes_on i is o o' h in
      vrrp_after is (with_interface env i o) o' later ∙ vrrp_with i is o

  -- After a successful update the index of the vrrp settings is that of the interfaces.
  pub update_interfaces-vrrp :
      (is : List (Interface C)) (items : List Item) (o : Objects C)
      → update_interfaces env is (no_objects items) ≡ updated o
      → o.vrrp ≡ vrrp_index (map (λ i. (i.name, i.vrrp)) is)
  unfolding vrrp_index
  update_interfaces-vrrp is items o h = vrrp_after is (no_objects items) o h
