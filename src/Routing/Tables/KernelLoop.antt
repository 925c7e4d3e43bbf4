-- ===== src/Routing/Tables/KernelLoop.antt =====
-- What the loop over the kernel's routes does to their list.
use ifstate.Prelude.{
  ◌≡◌, refl, ap, inl, inr, Bool, true, false, Option, List, [], ◌∷◌, arith, In, Bool-cases,
}
use ifstate.Value.{Fields}
use ifstate.Routing.Match.{route_matches, Verdict, present}
use ifstate.Routing.Tables.{scan, identical}

module _ (matched : Option Verdict) (route : Fields) where
  -- Nothing gets into the list,
  pub scan-In :
      (skip : Bool) (x : Fields) (ks : List Fields)
      → In x (scan matched route skip ks).kroutes
      → In x ks
  unfolding scan
  scan-In skip x [] m = m
  scan-In true x (k ∷ ks) (inl e) = inl e
  scan-In true x (k ∷ ks) (inr m) = inr (scan-In false x ks m)
  scan-In false x (k ∷ ks) m = ground (arith, scan-In false x ks, scan-In true x ks)

  -- and what the route does not match stays in it.
  pub In-scan :
      (skip : Bool) (x : Fields) (ks : List Fields)
      → route_matches route x ≡ false
      → In x ks
      → In x (scan matched route skip ks).kroutes
  unfolding scan
  In-scan skip x [] h m = m
  In-scan true x (k ∷ ks) h (inl e) = inl e
  In-scan true x (k ∷ ks) h (inr m) = inr (In-scan false x ks h m)
  In-scan false x (k ∷ ks) h (inl e) = ground (arith, ap (route_matches route) e)
  In-scan false x (k ∷ ks) h (inr m) = ground (arith, In-scan false x ks h m, In-scan true x ks h m)

  -- Behind a deletion that does not end the loop, the next route stays whatever it is.
  pub scan_skips :
      (k1 k2 : Fields) (ks : List Fields)
      → present matched ≡ true
      → route_matches route k1 ≡ true
      → identical route k1 ≡ false
      → In k2 (scan matched route false (k1 ∷ k2 ∷ ks)).kroutes
  unfolding scan present
  scan_skips k1 k2 ks p h d = ground arith

  -- The loop only says `identical` of a route that the kernel has.
  pub scan_identical :
      (skip : Bool) (ks : List Fields)
      → (scan matched route skip ks).identical ≡ true
      → (k : Fields) × In k ks × (identical route k ≡ true)
  unfolding scan
  scan_identical skip [] h = cc
  scan_identical true (k ∷ ks) h =
      let (k', m, same) = scan_identical false ks h in (k', inr m, same)
  scan_identical false (k ∷ ks) h = elim (Bool-cases (route_matches route k)) [
    | inr other ↦ let (k', m, same) = scan_identical false ks (ground arith) in (k', inr m, same)
    | inl hit ↦ elim (Bool-cases (identical route k)) [
      | inl same ↦ (k, inl refl, same)
      | inr differs ↦ let (k', m, same) = scan_identical true ks (ground arith) in (k', inr m, same)
    ]
  ]
