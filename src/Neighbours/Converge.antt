-- ===== src/Neighbours/Converge.antt =====
-- What `Neighbours.apply` makes of the kernel's table.
use ifstate.Prelude.{
  ℕ, String, ◌≡◌, refl, ◌∙◌, ap, true, false, ◌&&◌, not, Option, none, some, List, [], ◌∷◌, arith,
  Comparable, ◌==◌, if◌then◌else◌, text_key, option_key, option_beq_iff, Distinct, map, is_some,
  Option-cases, inl, inr,
}
use ifstate.Prelude.Dict.{
  Dict, keys, lookup, has, has-keys, Distinct-keys-from_pairs, eq_nil_of_lookup, lookup-nil,
}
use ifstate.Netlink.{Run, Event, note, request, for_each, for_each-kernel}
use ifstate.Neighbours.{
  Request, Host, del, replace, Neighbours, Diff, by_ip, new, compare_entry, del_entry, add_entry,
  apply_at, apply,
}
use ifstate.Neighbours.Compare.{matches, compare_ipr, compare_add, compare_Distinct, compare_kernel}

-- The three loops put together, at one address: `c` is the configured entry, `k` the kernel's.
settle :
    (c k : Option (Option String))
    → (if is_some (if is_some c && not (matches c k) then c else none)
        then (if is_some c && not (matches c k) then c else none)
        else (if is_some (if matches c k then none else k) then none else k))
      ≡ c
settle none none = refl
settle none (some m) = refl
settle (some l) none = refl
settle (some l) (some m) = ground (arith, option_beq_iff l m)

matches_self : (c : Option (Option String)) → (if matches c c then none else c) ≡ none
matches_self none = refl
matches_self (some l) = ground (arith, option_beq_iff l l)

-- What the code relies on: `table k i` is the table of permanent entries of the interface `i`, a dump
-- lists it, and the two requests write to it.
pub record IsServed {K Ip : Type 0} ⦃e : Comparable Ip⦄ (host : Host K Ip)
    (table : K → ℕ → Ip → Option (Option String)) : Type 0 where
  pub round_trip : (ip : Ip) → host.ip_address (host.ip_str ip) ≡ ip
  pub dump :
      (k : K) (i : ℕ) (j : Ip) → lookup j (by_ip host (host.get_neighbours k i)) ≡ table k i j
  pub del_effect :
      (k : K) (i : ℕ) (a : String) (j : Ip)
      → table (host.send (del i a) k).1 i j ≡ (if host.ip_address a == j then none else table k i j)
  pub replace_effect :
      (k : K) (i : ℕ) (a : String) (l : Option String) (j : Ip)
      → table (host.send (replace i a l) k).1 i j
        ≡ (if host.ip_address a == j then some l else table k i j)

module _ {K Ip : Type 0} ⦃e : Comparable Ip⦄ (host : Host K Ip) where
  by_ip-Distinct : (entries : List (String × Option String)) → Distinct (keys (by_ip host entries))
  unfolding by_ip
  by_ip-Distinct entries =
      Distinct-keys-from_pairs (map (λ p. (host.ip_address p.0, p.1)) entries) [] tt

  pub new-Distinct :
      (iface : String) (entries : List (String × Option String))
      → Distinct (keys (new host iface entries).neighbours)
  unfolding new
  new-Distinct iface entries = by_ip-Distinct entries

  module _ (table : K → ℕ → Ip → Option (Option String)) (served : IsServed host table) (i : ℕ)
      (j : Ip) where
    del_entry_effect :
        (ip : Ip) (l : Option String) (s : Run K Request (Event Ip))
        → table (del_entry host true i (ip, l) s).kernel i j
          ≡ (if ip == j then none else table s.kernel i j)
    unfolding del_entry request note
    del_entry_effect ip l s = ground (
      arith,
      served.del_effect s.kernel i (host.ip_str ip) j,
      served.round_trip ip,
      ap (λ a. a == j) (served.round_trip ip),
    )

    add_entry_effect :
        (ip : Ip) (l : Option String) (s : Run K Request (Event Ip))
        → table (add_entry host true i (ip, l) s).kernel i j
          ≡ (if ip == j then some l else table s.kernel i j)
    unfolding add_entry request note
    add_entry_effect ip l s = ground (
      arith,
      served.replace_effect s.kernel i (host.ip_str ip) l j,
      served.round_trip ip,
      ap (λ a. a == j) (served.round_trip ip),
    )

    del_loop :
        (d : Dict Ip (Option String)) (s : Run K Request (Event Ip))
        → table (for_each d (del_entry host true i) s).kernel i j
          ≡ (if has j d then none else table s.kernel i j)
    unfolding for_each lookup
    del_loop [] s = refl
    del_loop ((ip, l) ∷ d) s =
        ground (arith, del_loop d (del_entry host true i (ip, l) s), del_entry_effect ip l s)

    add_loop :
        (d : Dict Ip (Option String)) (s : Run K Request (Event Ip))
        → Distinct (keys d)
        → table (for_each d (add_entry host true i) s).kernel i j
          ≡ (if has j d then lookup j d else table s.kernel i j)
    unfolding for_each lookup
    add_loop [] s u = refl
    add_loop ((ip, l) ∷ d) s u = ground (
      arith,
      add_loop d (add_entry host true i (ip, l) s) u.1,
      add_entry_effect ip l s,
      has-keys j d,
      e.same_iff ip j,
    )

  module _ (table : K → ℕ → Ip → Option (Option String)) (served : IsServed host table) where
    table-apply_at :
        (i : ℕ) (n : Neighbours Ip) (s : Run K Request (Event Ip)) (j : Ip)
        → Distinct (keys n.neighbours)
        → table (apply_at host true i n s).kernel i j ≡ lookup j n.neighbours
    unfolding apply_at
    table-apply_at i n s j u =
        let seen : Diff K Ip = record {
          ipr_neigh = by_ip host (host.get_neighbours s.kernel i);
          neigh_add = [];
          run = s;
        } in
        let diff = for_each n.neighbours compare_entry seen in
        let cleaned = for_each diff.ipr_neigh (del_entry host true i) diff.run in
        ground (
          arith,
          add_loop table served i j diff.neigh_add cleaned (compare_Distinct n.neighbours seen tt),
          del_loop table served i j diff.ipr_neigh diff.run,
          compare_add j n.neighbours seen u,
          compare_ipr j n.neighbours seen u,
          ap (λ k. table k i j) (compare_kernel n.neighbours seen),
          served.dump s.kernel i j,
          lookup-nil (Option String) j,
          settle (lookup j n.neighbours) (table s.kernel i j),
        )

    -- If the kernel serves the dump and the two requests as documented, the configured addresses
    -- are distinct and the interface exists, an apply leaves exactly the configured entries in its
    -- table of permanent neighbours.
    pub apply-table :
        (n : Neighbours Ip) (s : Run K Request (Event Ip)) (i : ℕ) (j : Ip)
        → Distinct (keys n.neighbours)
        → host.link_lookup s.kernel n.iface ≡ some i
        → table (apply host true n s).kernel i j ≡ lookup j n.neighbours
    unfolding apply
    apply-table n s i j u found = rw (found, apply) (table-apply_at i n s j u)

  del_entry_dry :
      (i : ℕ) (p : Ip × Option String) (s : Run K Request (Event Ip))
      → (del_entry host false i p s).kernel ≡ s.kernel
  unfolding del_entry request note
  del_entry_dry i (ip, l) s = refl

  add_entry_dry :
      (i : ℕ) (p : Ip × Option String) (s : Run K Request (Event Ip))
      → (add_entry host false i p s).kernel ≡ s.kernel
  unfolding add_entry request note
  add_entry_dry i (ip, l) s = refl

  -- A check of the neighbours leaves the kernel as it was, whether or not the interface exists.
  pub check-kernel :
      (n : Neighbours Ip) (s : Run K Request (Event Ip)) → (apply host false n s).kernel ≡ s.kernel
  unfolding apply apply_at note
  check-kernel n s = elim (Option-cases (host.link_lookup s.kernel n.iface)) [
    | inl missing ↦ rw (missing, apply)
    | inr (i, found) ↦
        rw (found, apply)
          (for_each-kernel (add_entry host false i) (add_entry_dry i) _ _
            ∙ for_each-kernel (del_entry host false i) (del_entry_dry i) _ _
            ∙ compare_kernel n.neighbours _)
  ]

  module _ (table : K → ℕ → Ip → Option (Option String)) (served : IsServed host table) where
    -- If the kernel serves the dump and the requests as documented, and the table of the interface
    -- holds exactly the configured entries already, an apply sends nothing to the kernel.
    pub apply_again :
        (n : Neighbours Ip) (s : Run K Request (Event Ip)) (i : ℕ)
        → Distinct (keys n.neighbours)
        → host.link_lookup s.kernel n.iface ≡ some i
        → ((j : Ip) → table s.kernel i j ≡ lookup j n.neighbours)
        → (apply host true n s).kernel ≡ s.kernel
    unfolding apply apply_at
    apply_again n s i u found same =
        let seen : Diff K Ip = record {
          ipr_neigh = by_ip host (host.get_neighbours s.kernel i);
          neigh_add = [];
          run = s;
        } in
        let diff = for_each n.neighbours compare_entry seen in
        let no_ipr : diff.ipr_neigh ≡ [] = eq_nil_of_lookup diff.ipr_neigh λ j. ground (
          arith,
          compare_ipr j n.neighbours seen u,
          served.dump s.kernel i j,
          same j,
          matches_self (lookup j n.neighbours),
        ) in
        let no_add : diff.neigh_add ≡ [] = eq_nil_of_lookup diff.neigh_add λ j. ground (
          arith,
          compare_add j n.neighbours seen u,
          served.dump s.kernel i j,
          same j,
          lookup-nil (Option String) j,
          matches_self (lookup j n.neighbours),
        ) in
        rw (found, apply)
          (rw (no_ipr, no_add) (unfold for_each in compare_kernel n.neighbours seen))
