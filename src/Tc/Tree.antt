-- ===== src/Tc/Tree.antt =====
-- `apply_ingress` and `apply_qtree` of libifstate/tc/__init__.py.
pub mod Laws
use ifstate.Prelude.{
  ℕ, zero, suc, String, Bool, true, false, not, ◌&&◌, ◌||◌, Option, none, some, List, [], ◌∷◌,
  Comparable, ◌==◌, if◌then◌else◌, number_key, text_key, option_key, bit_or,
}
use ifstate.Prelude.Dict.{Dict, lookup, insert}
use ifstate.Value.{Value, num, text, Fields, value_key}
use ifstate.Netlink.{Answer, for_each}
use ifstate.Tc.{
  Request, del_qdisc, add_ingress, add_qdisc, change_qdisc, Tasks, attempt_warn, del_parent,
}
use ifstate.Tc.Handle.{int2handle, handle2int}

-- A configured tree: the settings of a qdisc without `children`, and its children.
mutual
  pub data Qdisc : Type 0 where
    node : Fields → Qdiscs → Qdisc

  pub data Qdiscs : Type 0 where
    leaf : Qdiscs
    child : Qdisc → Qdiscs → Qdiscs

-- A qdisc of the kernel.
pub record KernelQdisc : Type 0 where
  pub parent : ℕ
  pub handle : ℕ
  pub kind : Option Value

abbrev pub ingress_parent : ℕ
ingress_parent = 4294967281

-- `get_qdisc`; `get_qchild` looks for the parent `parent | slot`
unfoldable pub get_qdisc : List KernelQdisc → ℕ → Option KernelQdisc
get_qdisc [] parent = none
get_qdisc (q ∷ qs) parent = if q.parent == parent then some q else get_qdisc qs parent

unfoldable pub get_qchild : List KernelQdisc → ℕ → ℕ → Option KernelQdisc
unfolding get_qdisc
get_qchild qs parent slot = get_qdisc qs (bit_or parent slot)

-- `handle2int(tc["handle"])`. Without a handle, and for a text that is none, which the schema does not
-- exclude, the source raises an exception: such runs are not modelled, and 0 stands for the value.
unfoldable pub handle_of : Fields → ℕ
handle_of tc = elim (lookup "handle" tc) [
  | none ↦ 0
  | some v ↦ elim (handle2int v) [ none ↦ 0 | some n ↦ n ]
]

-- another kind or another handle
unfoldable pub differs : Fields → KernelQdisc → Bool
unfolding handle_of
differs tc q = not (lookup "kind" tc == q.kind) || not (handle_of tc == q.handle)

unfoldable pub needs_recreate : Bool → Fields → Option KernelQdisc → Bool
unfolding differs
needs_recreate recreate tc none = true
needs_recreate recreate tc (some q) = recreate || differs tc q

-- `opts`
unfoldable pub options : ℕ → ℕ → Fields → Fields
options idx parent tc =
    for_each tc (λ p opts. insert p.0 p.1 opts)
      (("index", num idx) ∷ ("parent", text (int2handle parent)) ∷ [])

module _ {K : Type 0} (send : Request → K → Answer × K) (idx : ℕ) where
  unfoldable pub apply_ingress : Bool → Option KernelQdisc → Bool → Tasks send → Bool × Tasks send
  apply_ingress false none do_apply t = (false, t)
  apply_ingress false (some q) do_apply t =
      (true, if do_apply then attempt_warn send "del" (del_qdisc idx ingress_parent) t else t)
  apply_ingress true none do_apply t =
      (true, if do_apply then attempt_warn send "add" (add_ingress idx) t else t)
  apply_ingress true (some q) do_apply t = (false, t)

  -- the part of `apply_qtree` for the qdisc itself, `recreate` being known
  unfoldable pub apply_qdisc :
      Bool → Bool → Fields → Option KernelQdisc → ℕ → Tasks send → Tasks send
  unfolding options
  apply_qdisc false recreate tc qdisc parent t = t
  apply_qdisc true recreate tc qdisc parent t =
      let opts = options idx parent tc in
      let t' : Tasks send =
        if recreate
        then elim qdisc [ none ↦ t | some q ↦ (del_parent send idx q.parent t).1 ]
        else t in
      if recreate
      then attempt_warn send "add" (add_qdisc opts) t'
      else attempt_warn send "change" (change_qdisc opts) t'

  -- The recursive call of the source gives five arguments and the flag `recreate` where the function takes
  -- the collector before `do_apply`: the child is called with `recreate` for `do_apply`, and with `recreate`
  -- at its default. `changes or ...` makes the call only as long as nothing has changed.
  unfoldable mutual
    unfolding needs_recreate apply_qdisc get_qchild

    pub apply_qtree :
        Qdisc
        → Option KernelQdisc
        → List KernelQdisc
        → ℕ
        → Bool
        → Bool
        → Tasks send
        → Bool × Tasks send
    apply_qtree (node tc children) qdisc ipr_qdiscs parent do_apply recreate t =
        let recreate' = needs_recreate recreate tc qdisc in
        apply_children children 1 tc qdisc ipr_qdiscs recreate' recreate'
          (apply_qdisc do_apply recreate' tc qdisc parent t)

    pub apply_children :
        Qdiscs
        → ℕ
        → Fields
        → Option KernelQdisc
        → List KernelQdisc
        → Bool
        → Bool
        → Tasks send
        → Bool × Tasks send
    apply_children leaf i tc qdisc ipr_qdiscs recreate changes t = (changes, t)
    apply_children (child q rest) i tc qdisc ipr_qdiscs recreate changes t =
        let slot : Option KernelQdisc = elim qdisc [
          | none ↦ none
          | some k ↦ get_qchild ipr_qdiscs k.handle i
        ] in
        let (changes', t') =
          apply_qtree q slot ipr_qdiscs (bit_or (handle_of tc) i) recreate false t in
        let next =
          apply_children rest (suc i) tc qdisc ipr_qdiscs recreate
            (if changes then changes else changes') (if changes then t else t') in
        next

  -- `apply_qtree` at the root, where `tc` may be `None`
  unfoldable pub apply_root :
      Option Qdisc
      → Option KernelQdisc
      → List KernelQdisc
      → ℕ
      → Bool
      → Tasks send
      → Bool × Tasks send
  apply_root none qdisc ipr_qdiscs parent true t = del_parent send idx parent t
  apply_root none qdisc ipr_qdiscs parent false t = (false, t)
  apply_root (some tc) qdisc ipr_qdiscs parent do_apply t =
      apply_qtree tc qdisc ipr_qdiscs parent do_apply false t
