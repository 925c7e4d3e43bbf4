-- ===== src/Links/Resolved.antt =====
-- The references of a link after the search for their indexes.
use ifstate.Prelude.{
  ℕ, String, ◌≡◌, refl, sym, ap, ◌∙◌, true, false, Option, none, some, List, [], ◌∷◌, arith, inl,
  inr, Bool-cases, Option-cases, if◌then◌else◌, text_key, ◌==◌, contains, subst, number_key,
}
use ifstate.Prelude.Dict.{lookup, insert, delete, lookup-insert, lookup-delete}
use ifstate.Value.{Value, null, num, text, Fields}
use ifstate.Netlink.{for_each, for_each_keeps}
use ifstate.Links.{Host, Session, send, catch, note_at}
use ifstate.Links.References.{
  attr_idx, get_netnsid, resolve_index, resolve_peer, resolve_value, resolve_attr,
  resolve_references, netns_attr, netnsid_attr, netns_of, name_of,
}

-- A reference is not there, or is an index.
abbrev pub IsIndex : Option Value → Type 0
IsIndex none = Unit
IsIndex (some (num n)) = Unit
IsIndex (some _) = ⊥

IsIndex-insert :
    (a key : String) (n : ℕ) (d : Fields)
    → IsIndex (lookup a d)
    → IsIndex (lookup a (insert key (num n) d))
IsIndex-insert a key n d h =
    subst IsIndex (sym (lookup-insert key a (num n) d))
      (elim (key == a) as (λ b. IsIndex (if b then some (num n) else lookup a d)) [
        | true ↦ tt
        | false ↦ h
      ])

IsIndex-state :
    (a : String) (v : Value) (d : Fields)
    → ("state" == a) ≡ false
    → IsIndex (lookup a d)
    → IsIndex (lookup a (insert "state" v d))
IsIndex-state a v d other h =
    subst IsIndex
      (sym (lookup-insert "state" a v d ∙ ap (λ b. if b then some v else lookup a d) other)) h

IsIndex-delete :
    (a key : String) (d : Fields) → IsIndex (lookup a d) → IsIndex (lookup a (delete key d))
IsIndex-delete a key d h =
    subst IsIndex (sym (lookup-delete key a d))
      (elim (key == a) as (λ b. IsIndex (if b then none else lookup a d)) [ true ↦ tt | false ↦ h ])

IsIndex-inserted : (a : String) (n : ℕ) (d : Fields) → IsIndex (lookup a (insert a (num n) d))
IsIndex-inserted a n d =
    subst IsIndex
      (sym (
        lookup-insert a a (num n) d
        ∙ ap (λ b. if b then some (num n) else lookup a d) ((text_key.same_iff a a).1 refl)))
      tt

IsIndex-deleted : (a : String) (d : Fields) → IsIndex (lookup a (delete a d))
IsIndex-deleted a d =
    subst IsIndex
      (sym (
        lookup-delete a a d
        ∙ ap (λ b. if b then none else lookup a d) ((text_key.same_iff a a).1 refl)))
      tt

module _ {K : Type 0} (host : Host K) where
  get_netnsid-settings :
      (netns peer : Option String) (s : Session K)
      → (get_netnsid host netns peer s).1.settings ≡ s.settings
  unfolding get_netnsid catch send
  get_netnsid-settings netns peer s = ground arith

  abbrev Indexed : String → Session K → Type 0
  Indexed a s = IsIndex (lookup a s.settings)

  -- an index stays one
  module _ (a : String) (other : ("state" == a) ≡ false) where
    index_keeps :
        (attr : String) (v : Value) (netns : Option String) (s : Session K)
        → Indexed a s
        → Indexed a (resolve_index host attr v netns s)
    unfolding resolve_index note_at
    index_keeps attr v netns s h =
        elim (Option-cases (host.link_lookup s.task.run.kernel netns (name_of v))) [
          | inl missing ↦
              rw (missing, resolve_index)
                (IsIndex-delete a attr _ (
                  IsIndex-delete a (netnsid_attr attr) _
                    (IsIndex-state a (text "down") s.settings other h)))
          | inr (idx, there) ↦ rw (there, resolve_index) (IsIndex-insert a attr idx s.settings h)
        ]

    peer_keeps :
        (netns : Option String) (attr : String) (v : Value) (peer : Option String) (s : Session K)
        → Indexed a s
        → Indexed a (resolve_peer host netns attr v peer s)
    unfolding resolve_peer
    peer_keeps netns attr v peer s h = index_keeps attr v peer _ (
        IsIndex-delete a (netns_attr attr) _ (
          IsIndex-insert a (netnsid_attr attr) _ _
            (subst (λ d. IsIndex (lookup a d)) (sym (get_netnsid-settings netns peer s)) h)))

    value_keeps :
        (netns : Option String) (attr : String) (v : Value) (s : Session K)
        → Indexed a s
        → Indexed a (resolve_value host netns attr v s)
    unfolding resolve_value
    value_keeps netns attr null s h = IsIndex-insert a attr 0 s.settings h
    value_keeps netns attr v s h = elim (Option-cases (lookup (netns_attr attr) s.settings)) [
      | inl here ↦ rw (here, resolve_value) (index_keeps attr v netns s h)
      | inr (n, there) ↦ rw (there, resolve_value) (peer_keeps netns attr v (netns_of n) s h)
    ]

    attr_keeps :
        (netns : Option String) (attr : String) (s : Session K)
        → Indexed a s
        → Indexed a (resolve_attr host netns attr s)
    unfolding resolve_attr
    attr_keeps netns attr s h = elim (Option-cases (lookup attr s.settings)) [
      | inl unset ↦ rw (unset, resolve_attr) h
      | inr (v, given) ↦ rw (given, resolve_attr) (value_keeps netns attr v s h)
    ]

  -- the round of a reference makes it an index
  index_makes :
      (attr : String) (v : Value) (netns : Option String) (s : Session K)
      → Indexed attr (resolve_index host attr v netns s)
  unfolding resolve_index note_at
  index_makes attr v netns s =
      elim (Option-cases (host.link_lookup s.task.run.kernel netns (name_of v))) [
        | inl missing ↦ rw (missing, resolve_index) (IsIndex-deleted attr _)
        | inr (idx, there) ↦ rw (there, resolve_index) (IsIndex-inserted attr idx s.settings)
      ]

  value_makes :
      (netns : Option String) (attr : String) (v : Value) (s : Session K)
      → Indexed attr (resolve_value host netns attr v s)
  unfolding resolve_value resolve_peer
  value_makes netns attr null s = IsIndex-inserted attr 0 s.settings
  value_makes netns attr v s = elim (Option-cases (lookup (netns_attr attr) s.settings)) [
    | inl here ↦ rw (here, resolve_value) (index_makes attr v netns s)
    | inr (n, there) ↦ rw (there, resolve_value) (index_makes attr v (netns_of n) _)
  ]

  attr_makes :
      (netns : Option String) (attr : String) (s : Session K)
      → Indexed attr (resolve_attr host netns attr s)
  unfolding resolve_attr
  attr_makes netns attr s = elim (Option-cases (lookup attr s.settings)) [
    | inl unset ↦ rw (unset, resolve_attr) (rw unset tt)
    | inr (v, given) ↦ rw (given, resolve_attr) (value_makes netns attr v s)
  ]

  loop_makes :
      (a : String) (netns : Option String) (attrs : List String) (s : Session K)
      → ("state" == a) ≡ false
      → contains a attrs ≡ true
      → Indexed a (for_each attrs (resolve_attr host netns) s)
  unfolding for_each
  loop_makes a netns [] s other inside = absurd (ground arith)
  loop_makes a netns (x ∷ attrs) s other inside = elim (Bool-cases (x == a)) [
    | inl here ↦
        let e : x ≡ a = (text_key.same_iff x a).0 here in
        for_each_keeps (Indexed a) (resolve_attr host netns) (attr_keeps a other netns) attrs
          (resolve_attr host netns x s)
          (subst (λ y. Indexed y (resolve_attr host netns x s)) e (attr_makes netns x s))
    | inr there ↦
        loop_makes a netns attrs (resolve_attr host netns x s) other (ground (arith, there))
  ]

  -- After the search for the indexes, each setting that refers to a link is an index or is gone,
  -- whatever the configuration had there and wherever the links are.
  pub resolve-IsIndex :
      (netns : Option String) (a : String) (s : Session K)
      → contains a attr_idx ≡ true
      → IsIndex (lookup a (resolve_references host netns s).settings)
  unfolding resolve_references
  resolve-IsIndex netns a s inside = elim (Bool-cases ("state" == a)) [
    | inl state ↦ absurd (
        ground (
          arith,
          subst (λ x. contains x attr_idx ≡ true) (sym ((text_key.same_iff "state" a).0 state))
              inside,
        ))
    | inr other ↦ loop_makes a netns attr_idx s other inside
  ]
