-- ===== src/Links/Dry.antt =====
-- The steps of a link that a check takes as well: the references, the name, the port.
use ifstate.Prelude.{
  ℕ, String, ◌≡◌, refl, sym, ◌∙◌, Bool, true, false, Option, arith, inl, inr, Bool-cases,
  Option-cases, if◌then◌else◌, text_key, ◌==◌, number_key, option_key, subst,
}
use ifstate.Prelude.Dict.{lookup}
use ifstate.Value.{Value, null, Fields}
use ifstate.Netlink.{for_each_keeps, note}
use ifstate.BrPort as Port
use ifstate.Registry.{Item}
use ifstate.Links.{Host, Link, Session, excpt, note_at}
use ifstate.Links.Parts.{apply_port}
use ifstate.Links.References.{
  attr_idx, get_netnsid, resolve_index, resolve_peer, resolve_value, resolve_attr,
  resolve_references, netns_attr, netns_of,
}
use ifstate.Links.Update.{default_state, shut_down}
use ifstate.Links.Apply.{move_link, free_name}
use ifstate.Links.Harmless.{after}

abbrev pub kernel_of : {K : Type 0} → Session K → K
kernel_of s = s.task.run.kernel

module _ {K : Type 0} where
  pub kernel-if :
      (b : Bool) (t u : Session K) (k : K)
      → kernel_of t ≡ k
      → kernel_of u ≡ k
      → kernel_of (if b then t else u) ≡ k
  kernel-if true t u k h h' = h
  kernel-if false t u k h h' = h'

  pub excpt-kernel :
      (op : String) (code : Option ℕ) (args : Fields) (s : Session K)
      → kernel_of (excpt op code args s) ≡ kernel_of s
  unfolding excpt
  excpt-kernel op code args s = ground arith

module _ {K : Type 0} (host : Host K) where
  resolve_index-dry :
      (attr : String) (v : Value) (netns : Option String) (s : Session K)
      → kernel_of (resolve_index host attr v netns s) ≡ kernel_of s
  unfolding resolve_index note_at note
  resolve_index-dry attr v netns s = ground arith

  module _ (netns : Option String) where
    -- each namespace has an id already
    abbrev pub Known : K → Type 0
    Known k = (peer : Option String) → (host.get_netnsid k netns peer == 4294967295) ≡ false

    resolve_peer-dry :
        (attr : String) (v : Value) (peer : Option String) (s : Session K)
        → Known (kernel_of s)
        → kernel_of (resolve_peer host netns attr v peer s) ≡ kernel_of s
    unfolding resolve_peer get_netnsid
    resolve_peer-dry attr v peer s known = resolve_index-dry attr v peer _ ∙ rw (known peer) refl

    resolve_value-dry :
        (attr : String) (v : Value) (s : Session K)
        → Known (kernel_of s)
        → kernel_of (resolve_value host netns attr v s) ≡ kernel_of s
    unfolding resolve_value
    resolve_value-dry attr null s known = refl
    resolve_value-dry attr v s known = elim (Option-cases (lookup (netns_attr attr) s.settings)) [
      | inl here ↦ rw (here, resolve_value) (resolve_index-dry attr v netns s)
      | inr (n, there) ↦ rw (there, resolve_value) (resolve_peer-dry attr v (netns_of n) s known)
    ]

    resolve_attr-dry :
        (attr : String) (s : Session K)
        → Known (kernel_of s)
        → kernel_of (resolve_attr host netns attr s) ≡ kernel_of s
    unfolding resolve_attr
    resolve_attr-dry attr s known = elim (Option-cases (lookup attr s.settings)) [
      | inl unset ↦ rw (unset, resolve_attr) refl
      | inr (v, given) ↦ rw (given, resolve_attr) (resolve_value-dry attr v s known)
    ]

    pub resolve-dry :
        (s : Session K)
        → Known (kernel_of s)
        → kernel_of (resolve_references host netns s) ≡ kernel_of s
    unfolding resolve_references
    resolve-dry s known =
        for_each_keeps (λ (t : Session K). kernel_of t ≡ kernel_of s) (resolve_attr host netns)
          (λ attr t h. resolve_attr-dry attr t (subst Known (sym h) known) ∙ h) attr_idx s refl

  pub move_link-dry :
      (c : Link) (n : ℕ) (item : Item) (s : Session K)
      → kernel_of (after host (move_link host false c n item s)) ≡ kernel_of s
  unfolding move_link note_at note
  move_link-dry c n item s = elim (Bool-cases (item.netns == c.netns)) [
    | inl here ↦ rw here refl
    | inr away ↦ rw away refl
  ]

  pub free_name-dry :
      (c : Link) (idx : ℕ) (s : Session K) → kernel_of (free_name host false c idx s) ≡ kernel_of s
  unfolding free_name
  free_name-dry c idx s = elim (Option-cases (host.link_lookup s.task.run.kernel c.netns c.name)) [
    | inl free ↦ rw (free, free_name) refl
    | inr (other, taken) ↦ rw (taken, free_name) (ground arith)
  ]

  pub shut_down-dry :
      (c : Link) (idx : ℕ) (s : Session K) → kernel_of (shut_down host false c idx s) ≡ kernel_of s
  unfolding shut_down default_state
  shut_down-dry c idx s = ground arith

  pub apply_port-dry :
      (c : Link) (idx : ℕ) (s : Session K) → kernel_of (apply_port host false c idx s) ≡ kernel_of s
  unfolding apply_port Port.apply note
  apply_port-dry c idx s = elim (Option-cases c.brport) [
    | inl absent ↦ rw (absent, apply_port) refl
    | inr (p, given) ↦ rw (given, apply_port) refl
  ]
