-- ===== src/Parser/Loopback.antt =====
-- What `Parser._update_lo` leaves of the interfaces.
use ifstate.Prelude.{
  ◌≡◌, refl, sym, ◌∙◌, ap, Bool, true, false, ◌||◌, ◌==◌, Option, none, some, [], ◌∷◌, arith,
  text_key, Option-cases, inl, inr,
}
use ifstate.Value.{null, num, text, vrrp}
use ifstate.Parser.{
  Node, leaf, list, dict, Items, nil, item, Members, get, merge_value, is_lo, update_items,
}
use ifstate.Parser.Merge.{IsProper, walk, merge_value-configured}

abbrev named_lo : Option Bool → Bool
named_lo none = false
named_lo (some b) = b

abbrev pub has_lo : Items → Bool
has_lo nil = false
has_lo (item n rest) = named_lo (is_lo n) || has_lo rest

-- No interface has a key twice.
abbrev pub AllProper : Items → Type 0
AllProper nil = Unit
AllProper (item n rest) = IsProper n × AllProper rest

lo_of_walk : (n : Node) → walk ("name" ∷ []) n ≡ some (leaf (text "lo")) → is_lo n ≡ some true
unfolding walk is_lo
lo_of_walk (leaf v) h = cc
lo_of_walk (list xs) h = cc
lo_of_walk (dict d) h = elim (Option-cases (get "name" d)) [
  | inl gone ↦ ground (arith, rw (gone, walk) at h)
  | inr (m, found) ↦
      let at' : m ≡ leaf (text "lo") = ground (arith, rw (found, walk) at h) in
      rw (found ∙ ap some at', is_lo) refl
]

walk_of_lo : (n : Node) → is_lo n ≡ some true → walk ("name" ∷ []) n ≡ some (leaf (text "lo"))
unfolding walk is_lo
walk_of_lo (leaf v) h = cc
walk_of_lo (list xs) h = cc
walk_of_lo (dict d) h = elim (Option-cases (get "name" d)) [
  | inl gone ↦ ground (arith, rw (gone, is_lo) at h)
  | inr (leaf null, found) ↦ ground (arith, rw (found, is_lo) at h)
  | inr (leaf (num n), found) ↦ ground (arith, rw (found, is_lo) at h)
  | inr (leaf (vrrp v), found) ↦ ground (arith, rw (found, is_lo) at h)
  | inr (list xs, found) ↦ ground (arith, rw (found, is_lo) at h)
  | inr (dict e, found) ↦ ground (arith, rw (found, is_lo) at h)
  | inr (leaf (text name), found) ↦
      let same : (name == "lo") ≡ true = ground (arith, rw (found, is_lo) at h) in
      let at' : name ≡ "lo" = (text_key.same_iff name "lo").0 same in
      rw (found, walk) (ap (λ t. some (leaf (text t))) at')
]

-- If the default interface is the loopback, no interface has a key twice and the update raises no
-- exception, it leaves a loopback interface among the interfaces, merged or appended.
pub update_items-has_lo :
    (default_lo : Members) (ifaces updated : Items)
    → is_lo (dict default_lo) ≡ some true
    → AllProper ifaces
    → update_items default_lo ifaces ≡ some updated
    → has_lo updated ≡ true
unfolding update_items
update_items-has_lo default_lo nil updated h ok e =
    let same : item (dict default_lo) nil ≡ updated = cc in ap has_lo (sym same) ∙ rw h refl
update_items-has_lo default_lo (item n rest) updated h (here, ok) e =
    elim (Option-cases (is_lo n)) [
      | inl broken ↦ let e' : none ≡ some updated = sym (rw (broken, update_items) refl) ∙ e in cc
      | inr (true, lo) ↦
          let made = merge_value (some (dict default_lo)) n in
          let e' : some (item made rest) ≡ some updated = sym (rw (lo, update_items) refl) ∙ e in
          let same : item made rest ≡ updated = cc in
          let named : is_lo made ≡ some true = lo_of_walk made (
            merge_value-configured ("name" ∷ []) (some (dict default_lo)) n (text "lo") here
              (walk_of_lo n lo)) in
          ap has_lo (sym same) ∙ rw named refl
      | inr (false, other) ↦ elim (Option-cases (update_items default_lo rest)) [
        | inl broken ↦
            let e' : none ≡ some updated =
              sym (rw (other, update_items) (rw (broken, update_items) refl)) ∙ e in
            cc
        | inr (later, found) ↦
            let e' : some (item n later) ≡ some updated =
              sym (rw (other, update_items) (rw (found, update_items) refl)) ∙ e in
            let same : item n later ≡ updated = cc in
            ap has_lo (sym same) ∙ rw other (update_items-has_lo default_lo rest later h ok found)
      ]
    ]
