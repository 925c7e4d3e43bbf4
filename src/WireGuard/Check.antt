-- ===== src/WireGuard/Check.antt =====
-- A check of the WireGuard settings.
use ifstate.Prelude.{
  String, ◌≡◌, refl, ◌∙◌, Bool, false, Option, none, some, List, Comparable, arith, Option-cases,
  inl, inr, map,
}
use ifstate.Prelude.Dict.{Dict, keys}
use ifstate.Netlink.{note, for_each_keeps}
use ifstate.WireGuard.{
  Peer, KernelPeer, State, Host, WireGuard, WgRun, apply_settings, apply_peer, remove_peer,
  apply_peers, apply,
}

module _ {K V Net : Type 0} ⦃v : Comparable V⦄ ⦃n : Comparable Net⦄ (host : Host K V Net) where
  settings_dry :
      (settings : Dict String V) (state : State V Net) (s : WgRun host)
      → (apply_settings host false settings state s).kernel ≡ s.kernel
  unfolding apply_settings note
  settings_dry settings state s = ground arith

  peer_dry :
      (peers : Dict String (KernelPeer V Net)) (p : Peer V Net) (st : Bool × WgRun host)
      → (apply_peer host false peers p st).1.kernel ≡ st.1.kernel
  unfolding apply_peer
  peer_dry peers p (b, s) = ground arith

  remove_dry :
      (avail : List String) (key : String) (st : Bool × WgRun host)
      → (remove_peer host false avail key st).1.kernel ≡ st.1.kernel
  unfolding remove_peer
  remove_dry avail key (b, s) = ground arith

  peers_dry :
      (ps : Option (List (Peer V Net))) (peers : Dict String (KernelPeer V Net)) (s : WgRun host)
      → (apply_peers host false ps peers s).kernel ≡ s.kernel
  unfolding apply_peers note
  peers_dry none peers s = refl
  peers_dry (some ps) peers s =
      for_each_keeps (λ (st : Bool × WgRun host). st.1.kernel ≡ s.kernel) _
        (λ key st h. remove_dry (map (λ p. p.public_key) ps) key st ∙ h) (keys peers) _
        (for_each_keeps (λ (st : Bool × WgRun host). st.1.kernel ≡ s.kernel) _
          (λ p st h. peer_dry peers p st ∙ h) ps (false, s) refl)

  -- A check leaves the kernel as it was.
  pub apply-dry : (c : WireGuard V Net) (s : WgRun host) → (apply host false c s).kernel ≡ s.kernel
  unfolding apply note
  apply-dry c s = elim (Option-cases (host.get_interface s.kernel c.iface)) [
    | inl missing ↦ rw (missing, apply) refl
    | inr (state, found) ↦
        rw (found, apply)
          (peers_dry c.peers state.peers (apply_settings host false c.settings state s)
            ∙ settings_dry c.settings state s)
  ]
