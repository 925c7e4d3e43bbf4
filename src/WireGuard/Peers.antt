-- ===== src/WireGuard/Peers.antt =====
-- The peers that an apply leaves in the kernel.
use ifstate.Prelude.{
  String, ◌≡◌, refl, ap, subst, ◌∙◌, Bool, true, false, not, ◌&&◌, ◌||◌, some, List, [], ◌∷◌,
  Comparable, ◌==◌, text_key, arith, Option-cases, Bool-cases, inl, inr, map, contains,
}
use ifstate.Prelude.Dict.{Dict, keys, lookup, has, has-keys}
use ifstate.Netlink.{note, for_each}
use ifstate.WireGuard.{
  accepted, Peer, KernelPeer, State, Request, set_interface, set_peer, remove_peers, Host, WgRun,
  pchange, sent_to, safe_set_peer, apply_settings, apply_peer, remove_peer, apply_peers, apply,
}

-- What the kernel promises for an interface: each request is accepted, a peer that is set is there from
-- then on, one that is removed is not, and nothing else changes which peers there are.
pub record IsServed {K V Net : Type 0} (host : Host K V Net) (iface : String)
    (peers : K → Dict String (KernelPeer V Net)) : Type 0 where
  pub attr : K → String → V
  pub lists :
      (k : K) → host.get_interface k iface ≡ some (record { attr = attr k; peers = peers k })
  pub accepts : (r : Request V Net) (k : K) → (host.send r k).0 ≡ accepted
  pub sets :
      (d : Dict String V) (k : K) (q : String)
      → has q (peers (host.send (set_interface d) k).1) ≡ has q (peers k)
  pub adds :
      (p : Peer V Net) (k : K) (q : String)
      → has q (peers (host.send (set_peer p) k).1) ≡ ((p.public_key == q) || has q (peers k))
  pub removes :
      (p : String) (k : K) (q : String)
      → has q (peers (host.send (remove_peers p) k).1) ≡ (not (p == q) && has q (peers k))

module _ {K V Net : Type 0} ⦃v : Comparable V⦄ ⦃n : Comparable Net⦄ (host : Host K V Net)
    (iface : String) (peers : K → Dict String (KernelPeer V Net))
    (served : IsServed host iface peers) where
  settings_has :
      (d : Dict String V) (state : State V Net) (s : WgRun host) (q : String)
      → has q (peers (apply_settings host true d state s).kernel) ≡ has q (peers s.kernel)
  unfolding apply_settings sent_to note
  settings_has d state s q =
      ground (arith, served.accepts (set_interface d) s.kernel, served.sets d s.kernel q)

  set_has :
      (p : Peer V Net) (s : WgRun host) (q : String)
      → has q (peers (safe_set_peer host p s).kernel)
        ≡ ((p.public_key == q) || has q (peers s.kernel))
  unfolding safe_set_peer sent_to note
  set_has p s q = ground (arith, served.accepts (set_peer p) s.kernel, served.adds p s.kernel q)

  -- A configured peer is there after its turn, if those of the kernel at the start still are.
  peer_has :
      (d : Dict String (KernelPeer V Net)) (p : Peer V Net) (st : Bool × WgRun host) (q : String)
      → ((q' : String) → has q' d ≡ true → has q' (peers st.1.kernel) ≡ true)
      → has q (peers (apply_peer host true d p st).1.kernel)
        ≡ ((p.public_key == q) || has q (peers st.1.kernel))
  unfolding apply_peer
  peer_has d p (b, s) q still = elim (Option-cases (lookup p.public_key d)) [
    | inl missing ↦ rw (missing, apply_peer) (set_has p s q)
    | inr (k, found) ↦
        let here : has p.public_key d ≡ true = rw (has, found) refl in
        elim (Bool-cases (pchange host.str p k)) [
          | inl differs ↦ rw (found, apply_peer) (rw differs (set_has p s q))
          | inr same ↦
              rw (found, apply_peer)
                (rw same (elim (Bool-cases (p.public_key == q)) [
                  | inl own ↦
                      let e : p.public_key ≡ q = (text_key.same_iff p.public_key q).0 own in
                      still q (subst (λ x. has x d ≡ true) e here) ∙ rw own refl
                  | inr other ↦ rw other refl
                ]))
        ]
  ]

  removed_has :
      (avail : List String) (key : String) (st : Bool × WgRun host) (q : String)
      → has q (peers (remove_peer host true avail key st).1.kernel)
        ≡ (not ((key == q) && not (contains key avail)) && has q (peers st.1.kernel))
  unfolding remove_peer sent_to note
  removed_has avail key (b, s) q =
      ground (arith, served.accepts (remove_peers key) s.kernel, served.removes key s.kernel q)

  -- the loop over the configured peers
  set_loop :
      (d : Dict String (KernelPeer V Net)) (ps : List (Peer V Net)) (st : Bool × WgRun host)
      (q : String)
      → ((q' : String) → has q' d ≡ true → has q' (peers st.1.kernel) ≡ true)
      → has q (peers (for_each ps (apply_peer host true d) st).1.kernel)
        ≡ (contains q (map (λ p. p.public_key) ps) || has q (peers st.1.kernel))
  unfolding for_each
  set_loop d [] st q still = refl
  set_loop d (p ∷ ps) st q still =
      let st' = apply_peer host true d p st in
      let still' : (q' : String) → has q' d ≡ true → has q' (peers st'.1.kernel) ≡ true =
        λ q' h. peer_has d p st q' still ∙ ground (arith, still q' h) in
      set_loop d ps st' q still'
      ∙ ap (λ b. contains q (map (λ p. p.public_key) ps) || b) (peer_has d p st q still)
      ∙ ground arith

  -- the loop over the peers of the kernel
  remove_loop :
      (avail ks : List String) (st : Bool × WgRun host) (q : String)
      → has q (peers (for_each ks (remove_peer host true avail) st).1.kernel)
        ≡ (not (contains q ks && not (contains q avail)) && has q (peers st.1.kernel))
  unfolding for_each
  remove_loop avail [] st q = refl
  remove_loop avail (k ∷ ks) st q = elim (Bool-cases (k == q)) [
    | inl same ↦
        let e : k ≡ q = (text_key.same_iff k q).0 same in
        remove_loop avail ks (remove_peer host true avail k st) q
        ∙ ap (λ b. not (contains q ks && not (contains q avail)) && b) (removed_has avail k st q)
        ∙ rw (same, e) (ground arith)
    | inr differs ↦
        remove_loop avail ks (remove_peer host true avail k st) q
        ∙ ap (λ b. not (contains q ks && not (contains q avail)) && b) (removed_has avail k st q)
        ∙ rw differs (ground arith)
  ]

  -- If the kernel accepts each request and serves those on peers as documented, and no other
  -- request changes which peers there are, an apply of a configuration with peers leaves exactly
  -- the configured ones, by their keys, on the interface.
  pub apply-peers :
      (settings : Dict String V) (ps : List (Peer V Net)) (s : WgRun host) (q : String)
      → has q (
          peers
            (apply host true
              (record { iface = iface; settings = settings; peers = some ps })
              s).kernel)
        ≡ contains q (map (λ p. p.public_key) ps)
  unfolding apply apply_peers note
  apply-peers settings ps s q =
      let state : State V Net = record { attr = served.attr s.kernel; peers = peers s.kernel } in
      let s1 = apply_settings host true settings state s in
      let avail = map (λ (p : Peer V Net). p.public_key) ps in
      let set = for_each ps (apply_peer host true (peers s.kernel)) (false, s1) in
      rw (served.lists s.kernel, apply)
        (remove_loop avail (keys (peers s.kernel)) set q
          ∙ ap (λ b. not (contains q (keys (peers s.kernel)) && not (contains q avail)) && b)
              (set_loop (peers s.kernel) ps (false, s1) q
                  (λ q' h. settings_has settings state s q' ∙ h)
                ∙ ap (λ b. contains q avail || b)
                    (settings_has settings state s q ∙ has-keys q (peers s.kernel)))
          ∙ ground arith)
