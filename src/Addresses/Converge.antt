-- ===== src/Addresses/Converge.antt =====
-- The addresses that an apply leaves on the interface.
use ifstate.Prelude.{
  ℕ, ◌≡◌, refl, ◌∙◌, ap, ◌⊎◌, inl, inr, Bool, true, false, not, ◌&&◌, ◌||◌, some, List, [], ◌∷◌,
  Comparable, ◌==◌, any, contains, map, arith, Bool-cases, contains-append, is_some,
}
use ifstate.Prelude.Dict.{Dict, lookup, has, lookup-insert, lookup-delete, lookup-nil}
use ifstate.Netlink.{Event, Run, note, request, for_each}
use ifstate.Addresses.{
  Address, Request, del, add, Host, Addresses, Plan, collect, compare_addr, del_addr, add_addr,
  apply_at, apply,
}

-- What the kernel promises of the addresses `table k i` of an interface: it lists them, and a request adds
-- or removes the one that it names and no other (the setting promote_secondaries is on).
pub record IsServed {K Ip Net : Type 0} ⦃e : Comparable Ip⦄ (host : Host K Ip Net)
    (table : K → ℕ → Ip → Bool) : Type 0 where
  pub dump :
      (k : K) (i : ℕ) (j : Ip) → contains j (map (λ a. a.ip) (host.get_addr k i)) ≡ table k i j
  pub del_effect :
      (k : K) (i : ℕ) (a j : Ip)
      → table (host.send (del i a) k).1 i j ≡ (not (a == j) && table k i j)
  pub add_effect :
      (k : K) (i : ℕ) (a j : Ip) → table (host.send (add i a) k).1 i j ≡ ((a == j) || table k i j)

module _ {K Ip Net : Type 0} ⦃e : Comparable Ip⦄ (host : Host K Ip Net) (j : Ip) where
  collect_loop :
      (xs : List (Address Ip)) (p : Plan K Ip)
      → let q = for_each xs (collect host) p in
        (has j q.ipr_addr ≡ (contains j (map (λ a. a.ip) xs) || has j p.ipr_addr))
        × (q.run ≡ p.run)
        × (q.addr_add ≡ p.addr_add)
  unfolding for_each collect
  collect_loop [] p = (refl, refl, refl)
  collect_loop (a ∷ xs) p =
      let (h, r, d) = collect_loop xs (collect host a p) in
      (ground (arith, h, lookup-insert a.ip j a p.ipr_addr), r, d)

  -- A configured address is to be added, or the kernel has it and it is off the list of orphans.
  compare_loop :
      (xs : List Ip) (p : Plan K Ip)
      → let q = for_each xs (compare_addr host) p in
        (has j q.ipr_addr ≡ true → has j p.ipr_addr ≡ true)
        × (contains j p.addr_add ≡ true → contains j q.addr_add ≡ true)
        × (contains j xs ≡ true
            → (contains j q.addr_add ≡ true)
              ⊎ (has j q.ipr_addr ≡ false) × (has j p.ipr_addr ≡ true))
        × (contains j xs ≡ false
            → (lookup j q.ipr_addr ≡ lookup j p.ipr_addr)
              × (contains j q.addr_add ≡ contains j p.addr_add))
        × (q.run.kernel ≡ p.run.kernel)
  unfolding for_each compare_addr note
  compare_loop [] p = (λ h. h, λ h. h, λ h. cc, λ h. (refl, refl), refl)
  compare_loop (a ∷ xs) p =
      let (down, up, settled, other, kernel) = compare_loop xs (compare_addr host a p) in
      let del' = lookup-delete a j p.ipr_addr in
      let app = contains-append j p.addr_add (a ∷ []) in
      (
        λ h. ground (arith, down h, del'),
        λ h. up (ground (arith, app)),
        λ h. ground (arith, settled, e.same_iff a j, down, up, del', app),
        λ h. ground (arith, other, del', app),
        kernel ∙ ground arith,
      )

  module _ (table : K → ℕ → Ip → Bool) (served : IsServed host table) (i : ℕ) (ignore : List Net)
      (ign_dynamic : Bool) (renew : List Ip) where
    -- An address that is gone stays gone, and one that is no orphan stays.
    del_loop :
        (d : Dict Ip (Address Ip)) (s : Run K (Request Ip) (Event Ip))
        → let s' = for_each d (del_addr host ignore ign_dynamic true i renew) s in
          (table s.kernel i j ≡ false → table s'.kernel i j ≡ false)
          × (has j d ≡ false → table s'.kernel i j ≡ table s.kernel i j)
          × (has j d ≡ true
              → any (λ net. host.within net j) ignore ≡ false
              → ign_dynamic ≡ false
              → table s'.kernel i j ≡ false)
    unfolding for_each del_addr request note lookup
    del_loop [] s = (λ h. h, λ h. refl, λ h. cc)
    del_loop ((ip, a) ∷ d) s =
        let (gone, kept, orphan) =
          del_loop d (del_addr host ignore ign_dynamic true i renew (ip, a) s) in
        let effect = served.del_effect s.kernel i ip j in
        (
          λ h. gone (ground (arith, effect)),
          λ h. ground (arith, kept, effect, e.same_iff ip j),
          λ h out dynamic. elim (Bool-cases (ip == j)) [
            | inl same ↦
                let at' : ip ≡ j = (e.same_iff ip j).0 same in
                gone (ground (arith, effect, ap (λ x. any (λ net. host.within net x) ignore) at'))
            | inr differs ↦ orphan (ground arith) out dynamic
          ],
        )

    add_loop :
        (xs : List Ip) (s : Run K (Request Ip) (Event Ip))
        → table (for_each xs (add_addr host true i) s).kernel i j
          ≡ (contains j xs || table s.kernel i j)
    unfolding for_each add_addr request note
    add_loop [] s = refl
    add_loop (x ∷ xs) s =
        ground (arith, add_loop xs (add_addr host true i x s), served.add_effect s.kernel i x j)

module _ {K Ip Net : Type 0} ⦃e : Comparable Ip⦄ (host : Host K Ip Net) (table : K → ℕ → Ip → Bool)
    (served : IsServed host table) where
  at_idx :
      (ignore : List Net) (ign_dynamic : Bool) (i : ℕ) (c : Addresses Ip)
      (s : Run K (Request Ip) (Event Ip)) (j : Ip)
      → let s' = apply_at host ignore ign_dynamic true i c s in
        (contains j c.addresses ≡ true → table s'.kernel i j ≡ true)
        × (contains j c.addresses ≡ false
            → any (λ net. host.within net j) ignore ≡ false
            → ign_dynamic ≡ false
            → table s'.kernel i j ≡ false)
  unfolding apply_at
  at_idx ignore ign_dynamic i c s j =
      let empty : Plan K Ip = record { ipr_addr = []; addr_add = []; addr_renew = []; run = s } in
      let seen = for_each (host.get_addr s.kernel i) (collect host) empty in
      let plan = for_each c.addresses (compare_addr host) seen in
      let cleaned =
        for_each plan.ipr_addr (del_addr host ignore ign_dynamic true i plan.addr_renew) plan.run in
      let (listed, run', none') = collect_loop host j (host.get_addr s.kernel i) empty in
      let (down, up, settled, other, kernel) = compare_loop host j c.addresses seen in
      let (gone, kept, orphan) =
        del_loop host j table served i ignore ign_dynamic plan.addr_renew plan.ipr_addr plan.run in
      let added =
        add_loop host j table served i ignore ign_dynamic plan.addr_renew plan.addr_add cleaned in
      let same : table plan.run.kernel i j ≡ table s.kernel i j =
        ap (λ k. table k i j) (kernel ∙ ap (λ r. r.kernel) run') in
      let dumped = served.dump s.kernel i j in
      let nil = lookup-nil (Address Ip) j in
      let no_add : contains j seen.addr_add ≡ false = ap (contains j) none' in
      (
        λ h. elim (settled h) [
          | inl adding ↦ added ∙ ground (arith, adding)
          | inr (off, on) ↦ added ∙ ground (arith, kept off, same, dumped, listed, nil, on)
        ],
        λ h out dynamic.
            let (left, adds) = other h in
            added ∙ elim (Bool-cases (has j plan.ipr_addr)) [
              | inl on ↦ ground (arith, orphan on out dynamic, adds, no_add)
              | inr off ↦
                  ground (arith, kept off, same, dumped, listed, nil, adds, no_add, ap is_some left)
            ],
      )

  -- If the kernel lists the addresses and serves the two requests as documented, and the interface
  -- exists, each configured address is on the interface after an apply, also one that is renewed or
  -- that failed its duplicate detection.
  pub apply-present :
      (ignore : List Net) (ign_dynamic : Bool) (i : ℕ) (c : Addresses Ip)
      (s : Run K (Request Ip) (Event Ip)) (j : Ip)
      → host.link_lookup s.kernel c.iface ≡ some i
      → contains j c.addresses ≡ true
      → table (apply host ignore ign_dynamic true c s).kernel i j ≡ true
  unfolding apply
  apply-present ignore ign_dynamic i c s j found h =
      rw (found, apply) ((at_idx ignore ign_dynamic i c s j).0 h)

  -- If the kernel lists the addresses and serves the two requests as documented, and the interface
  -- exists, an address that is not configured and in no ignored network is off the interface after
  -- an apply that does not spare dynamic addresses.
  pub apply-orphan :
      (ignore : List Net) (i : ℕ) (c : Addresses Ip) (s : Run K (Request Ip) (Event Ip)) (j : Ip)
      → host.link_lookup s.kernel c.iface ≡ some i
      → contains j c.addresses ≡ false
      → any (λ net. host.within net j) ignore ≡ false
      → table (apply host ignore false true c s).kernel i j ≡ false
  unfolding apply
  apply-orphan ignore i c s j found h out =
      rw (found, apply) ((at_idx ignore false i c s j).1 h out refl)
