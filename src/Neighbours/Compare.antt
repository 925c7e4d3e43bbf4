-- ===== src/Neighbours/Compare.antt =====
-- What the comparing loop of `Neighbours.apply` leaves in `ipr_neigh` and in `neigh_add`.
use ifstate.Prelude.{
  String, ◌≡◌, refl, Bool, false, ◌&&◌, not, Option, none, some, [], ◌∷◌, arith, Comparable, ◌==◌,
  if◌then◌else◌, text_key, option_key, Distinct,
}
use ifstate.Prelude.Dict.{
  Dict, keys, lookup, has, lookup-insert, lookup-delete, has-keys, Distinct-keys-insert,
}
use ifstate.Netlink.{note, for_each}
use ifstate.Neighbours.{Diff, compare_entry}

-- the configured entry stands in the kernel already
abbrev pub matches : Option (Option String) → Option (Option String) → Bool
matches none k = false
matches (some l) none = false
matches (some l) (some k) = l == k

module _ {K Ip : Type 0} ⦃e : Comparable Ip⦄ where
  module _ (j : Ip) where
    entry_ipr :
        (ip : Ip) (l : Option String) (s : Diff K Ip)
        → lookup j (compare_entry (ip, l) s).ipr_neigh ≡ (
            if (ip == j) && matches (some l) (lookup j s.ipr_neigh)
            then none
            else lookup j s.ipr_neigh)
    unfolding compare_entry
    entry_ipr ip l s = ground (arith, lookup-delete ip j s.ipr_neigh, e.same_iff ip j)

    entry_add :
        (ip : Ip) (l : Option String) (s : Diff K Ip)
        → lookup j (compare_entry (ip, l) s).neigh_add ≡ (
            if (ip == j) && not (matches (some l) (lookup j s.ipr_neigh))
            then some l
            else lookup j s.neigh_add)
    unfolding compare_entry
    entry_add ip l s = ground (arith, lookup-insert ip j l s.neigh_add, e.same_iff ip j)

    pub compare_ipr :
        (c : Dict Ip (Option String)) (s : Diff K Ip)
        → Distinct (keys c)
        → lookup j (for_each c compare_entry s).ipr_neigh
          ≡ (if matches (lookup j c) (lookup j s.ipr_neigh) then none else lookup j s.ipr_neigh)
    unfolding for_each lookup
    compare_ipr [] s u = refl
    compare_ipr ((ip, l) ∷ c) s u = ground (
      arith,
      compare_ipr c (compare_entry (ip, l) s) u.1,
      entry_ipr ip l s,
      has-keys j c,
      e.same_iff ip j,
    )

    pub compare_add :
        (c : Dict Ip (Option String)) (s : Diff K Ip)
        → Distinct (keys c)
        → lookup j (for_each c compare_entry s).neigh_add ≡ (
            if has j c && not (matches (lookup j c) (lookup j s.ipr_neigh))
            then lookup j c
            else lookup j s.neigh_add)
    unfolding for_each lookup
    compare_add [] s u = refl
    compare_add ((ip, l) ∷ c) s u = ground (
      arith,
      compare_add c (compare_entry (ip, l) s) u.1,
      entry_ipr ip l s,
      entry_add ip l s,
      has-keys j c,
      e.same_iff ip j,
    )

  entry_Distinct :
      (p : Ip × Option String) (s : Diff K Ip)
      → Distinct (keys s.neigh_add)
      → Distinct (keys (compare_entry p s).neigh_add)
  unfolding compare_entry
  entry_Distinct (ip, l) s u = ground (arith, Distinct-keys-insert ip l s.neigh_add u)

  pub compare_Distinct :
      (c : Dict Ip (Option String)) (s : Diff K Ip)
      → Distinct (keys s.neigh_add)
      → Distinct (keys (for_each c compare_entry s).neigh_add)
  unfolding for_each
  compare_Distinct [] s u = u
  compare_Distinct (p ∷ c) s u = compare_Distinct c (compare_entry p s) (entry_Distinct p s u)

  entry_kernel :
      (p : Ip × Option String) (s : Diff K Ip) → (compare_entry p s).run.kernel ≡ s.run.kernel
  unfolding compare_entry note
  entry_kernel (ip, l) s = ground arith

  pub compare_kernel :
      (c : Dict Ip (Option String)) (s : Diff K Ip)
      → (for_each c compare_entry s).run.kernel ≡ s.run.kernel
  unfolding for_each
  compare_kernel [] s = refl
  compare_kernel (p ∷ c) s = cc (compare_kernel c (compare_entry p s), entry_kernel p s)
