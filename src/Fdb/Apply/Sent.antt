-- ===== src/Fdb/Apply/Sent.antt =====
-- The requests that `FDB.apply` sends.
use ifstate.Prelude.{ℕ, ◌≡◌, ◌∙◌, ap, true, some, List, [], ◌∷◌, ◌++◌, arith, ◌==◌, if◌then◌else◌}
use mathlib.Core.List.{append-nil}
use ifstate.Prelude.Dict.{Dict}
use ifstate.Value.{Value, Fields, value_key}
use ifstate.Netlink.{Event, Run, note, request, for_each, flat_map, for_each-sent, start}
use ifstate.Fdb.{Library, Fdb, Link, Host, Request, append, del, listed}
use ifstate.Fdb.Apply.{
  get_kernel_fdb, add_entry, del_entry, add_entries, del_entries, complete, apply_at, apply,
}

-- What is missing in the kernel, and what the kernel has beyond the configuration and the own address.
abbrev pub missing : ℕ → Dict Value (List Fields) → Value × List Fields → List Request
missing idx ipr (lladdr, entries) =
    flat_map (λ e. if listed lladdr e ipr then [] else append idx e ∷ []) entries

abbrev pub orphans : ℕ → Value → Dict Value (List Fields) → Value × List Fields → List Request
orphans idx own configured (lladdr, entries) =
    let all = flat_map (λ e. if listed lladdr e configured then [] else del idx e ∷ []) entries in
    if lladdr == own then [] else all

module _ {K : Type 0} (lib : Library) (host : Host K) where
  add_entry-sent :
      (idx : ℕ) (ipr : Dict Value (List Fields)) (l : Value) (x : Fields)
      (s : Run K Request (Event Value))
      → (add_entry lib host true idx ipr l x s).sent
        ≡ s.sent ++ (if listed l x ipr then [] else append idx x ∷ [])
  unfolding add_entry request note
  add_entry-sent idx ipr l x s = ground (arith, append-nil s.sent)

  del_entry-sent :
      (idx : ℕ) (conf : Dict Value (List Fields)) (l : Value) (x : Fields)
      (s : Run K Request (Event Value))
      → (del_entry lib host true idx conf l x s).sent
        ≡ s.sent ++ (if listed l x conf then [] else del idx x ∷ [])
  unfolding del_entry request note
  del_entry-sent idx conf l x s = ground (arith, append-nil s.sent)

  add_entries-sent :
      (idx : ℕ) (ipr : Dict Value (List Fields)) (p : Value × List Fields)
      (s : Run K Request (Event Value))
      → (add_entries lib host true idx ipr p s).sent ≡ s.sent ++ missing idx ipr p
  unfolding add_entries
  add_entries-sent idx ipr (l, xs) s =
      for_each-sent (λ x. if listed l x ipr then [] else append idx x ∷ [])
        (add_entry lib host true idx ipr l) (add_entry-sent idx ipr l) xs s

  del_entries-sent :
      (idx : ℕ) (own : Value) (conf : Dict Value (List Fields)) (p : Value × List Fields)
      (s : Run K Request (Event Value))
      → (del_entries lib host true idx own conf p s).sent ≡ s.sent ++ orphans idx own conf p
  unfolding del_entries
  del_entries-sent idx own conf (l, xs) s = ground (
    arith,
    append-nil s.sent,
    for_each-sent (λ x. if listed l x conf then [] else del idx x ∷ [])
        (del_entry lib host true idx conf l) (del_entry-sent idx conf l) xs s,
  )

  -- If the interface exists, an apply sends an append for each configured entry that the kernel
  -- lacks, and then, for what the kernel lists from then on, a removal for each entry that is not
  -- configured and not of the own address of the interface; it sends nothing else, whether requests
  -- are accepted or refused.
  pub apply-sent :
      (link : Link) (c : Fdb) (k : K)
      → host.get_link k c.iface ≡ some link
      → let added =
          for_each
            (complete lib host link c)
            (add_entries lib host true link.index (get_kernel_fdb lib host link.index k))
            (start k) in
        (apply lib host true c (start k)).sent
        ≡ flat_map
            (missing link.index (get_kernel_fdb lib host link.index k))
            (complete lib host link c)
          ++ flat_map
              (orphans link.index link.address (complete lib host link c))
              (get_kernel_fdb lib host link.index added.kernel)
  unfolding apply apply_at
  apply-sent link c k found =
      let conf = complete lib host link c in
      let ipr = get_kernel_fdb lib host link.index k in
      let added = for_each conf (add_entries lib host true link.index ipr) (start k) in
      rw (found, apply)
        (for_each-sent (orphans link.index link.address conf)
            (del_entries lib host true link.index link.address conf)
            (del_entries-sent link.index link.address conf)
            (get_kernel_fdb lib host link.index added.kernel) added
          ∙ ap
              (λ l.
                l
                ++ flat_map (orphans link.index link.address conf)
                    (get_kernel_fdb lib host link.index added.kernel))
              (for_each-sent (missing link.index ipr) (add_entries lib host true link.index ipr)
                (add_entries-sent link.index ipr) conf (start k)))
