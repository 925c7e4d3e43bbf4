-- ===== src/Namespaces/Names.antt =====
-- The namespaces that a preparation leaves.
use ifstate.Prelude.{
  ℕ, String, ◌≡◌, refl, ap, ◌∙◌, true, false, not, ◌&&◌, List, [], ◌∷◌, ◌==◌, text_key, arith,
  contains, union, contains-union, str_lt, Bool-cases, inl, inr,
}
use ifstate.Prelude.Dict.{Dict}
use ifstate.Prelude.Sort.{sorted, contains-sorted}
use ifstate.Netlink.{for_each, for_each_keeps}
use ifstate.Namespaces.{Host, Prepared, prepare_one, prepare_netns}

module _ {K : Type 0} (host : Host K) where
  one_dry :
      (target current new : List String) (pids : Dict String (List ℕ)) (name : String)
      (s : Prepared K)
      → (prepare_one host false target current new pids name s).kernel ≡ s.kernel
  unfolding prepare_one
  one_dry target current new pids name s = ground arith

  -- A check leaves the kernel as it was.
  pub prepare-dry :
      (target new : List String) (k : K) → (prepare_netns host false target new k).kernel ≡ k
  unfolding prepare_netns
  prepare-dry target new k =
      for_each_keeps (λ (s : Prepared K). s.kernel ≡ k) _
        (λ name s h. one_dry target (host.listnetns k) new (host.ns_pids k) name s ∙ h) _ _ refl

  -- The kernel removes a namespace and no other one.
  module _
      (removes : (p : String) (k : K) (q : String)
        → contains q (host.listnetns (host.remove p k))
          ≡ (not (p == q) && contains q (host.listnetns k))) where
    one_names :
        (target current new : List String) (pids : Dict String (List ℕ)) (name : String)
        (s : Prepared K) (q : String)
        → contains q (host.listnetns (prepare_one host true target current new pids name s).kernel)
          ≡ (not (not (contains name target) && (name == q))
              && contains q (host.listnetns s.kernel))
    unfolding prepare_one
    one_names target current new pids name s q = ground (arith, removes name s.kernel q)

    loop_names :
        (target current new : List String) (pids : Dict String (List ℕ)) (names : List String)
        (s : Prepared K) (q : String)
        → contains q (
            host.listnetns
              (for_each names (prepare_one host true target current new pids) s).kernel)
          ≡ (not (not (contains q target) && contains q names)
              && contains q (host.listnetns s.kernel))
    unfolding for_each
    loop_names target current new pids [] s q = ground arith
    loop_names target current new pids (name ∷ names) s q =
        let s' = prepare_one host true target current new pids name s in
        loop_names target current new pids names s' q
        ∙ ap (λ b. not (not (contains q target) && contains q names) && b)
            (one_names target current new pids name s q)
        ∙ elim (Bool-cases (name == q)) [
          | inl same ↦
              let e : name ≡ q = (text_key.same_iff name q).0 same in rw (same, e) (ground arith)
          | inr differs ↦ rw differs (ground arith)
        ]

    -- If the removal of a namespace takes that one away and no other, the namespaces after a
    -- preparation that applies are those that were there and are configured, so that a configured
    -- one that was missing is still missing.
    pub prepare_netns-names :
        (target new : List String) (k : K) (q : String)
        → contains q (host.listnetns (prepare_netns host true target new k).kernel)
          ≡ (contains q (host.listnetns k) && contains q target)
    unfolding prepare_netns
    prepare_netns-names target new k q =
        let current = host.listnetns k in
        let all = union target (union current []) in
        loop_names target current new (host.ns_pids k) (sorted str_lt all)
          (record { kernel = k; log = [] }) q
        ∙ ground (
          arith,
          contains-sorted str_lt q all,
          contains-union q target (union current []),
          contains-union q current [],
        )
