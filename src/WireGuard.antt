-- ===== src/WireGuard.antt =====
-- The class `WireGuard` of libifstate/wireguard/__init__.py against a kernel given by its answers.
pub mod Peers
pub mod Check
mod Tests
use ifstate.Prelude.{
  String, Bool, true, false, not, ◌&&◌, ◌||◌, Option, none, some, List, [], ◌∷◌, ◌++◌, Comparable,
  ◌==◌, text_key, if◌then◌else◌, any, contains, map,
}
use ifstate.Prelude.Dict.{Dict, lookup, insert, has, keys, delete}
use ifstate.Netlink.{Run, Event, log_ok, log_change, warning, note, for_each}

-- A request is accepted, refused with a netlink error, or ends in a `gaierror` or `ValueError`.
pub data Reply : Type 0 where
  accepted refused invalid : Reply

-- A configured peer: the settings but `public_key` and `allowedips`, and the networks if they are given.
pub record Peer (V Net : Type 0) : Type 0 where
  pub public_key : String
  pub settings : Dict String V
  pub allowedips : Option (List Net)

-- A peer of the kernel by its attributes.
pub record KernelPeer (V Net : Type 0) : Type 0 where
  pub attr : String → V
  pub allowedips : List Net

-- What `get_interface` has: the attributes of the interface and its peers by their keys.
pub record State (V Net : Type 0) : Type 0 where
  pub attr : String → V
  pub peers : Dict String (KernelPeer V Net)

pub data Request (V Net : Type 0) : Type 0 where
  set_interface : Dict String V → Request V Net
  set_peer : Peer V Net → Request V Net
  remove_peers : String → Request V Net

-- The package wgnlpy in the namespace of the class; `str` is the text of a value.
pub record Host (K V Net : Type 0) : Type 0 where
  pub get_interface : K → String → Option (State V Net)
  pub send : Request V Net → K → Reply × K
  pub str : V → String

-- The configuration: the settings but `peers`, and the peers if they are given.
pub record WireGuard (V Net : Type 0) : Type 0 where
  pub iface : String
  pub settings : Dict String V
  pub peers : Option (List (Peer V Net))

-- The subject of a line of the log.
pub data Subject : Type 0 where
  wireguard wg_peers iface peer : Subject

-- `attr == peer[setting]` of two sets
unfoldable pub same_set : {Net : Type 0} ⦃n : Comparable Net⦄ → List Net → List Net → Bool
same_set xs ys = not (any (λ x. not (contains x ys)) xs) && not (any (λ y. not (contains y xs)) ys)

-- the loop over the settings but the peers
unfoldable pub has_changes : {V : Type 0} ⦃v : Comparable V⦄ → Dict String V → (String → V) → Bool
has_changes settings attr = any (λ p. not (p.1 == attr p.0)) settings

module _ {V Net : Type 0} ⦃v : Comparable V⦄ ⦃n : Comparable Net⦄ where
  -- the loop over the settings of a peer; `public_key` is the same in both
  unfoldable pub pchange : (V → String) → Peer V Net → KernelPeer V Net → Bool
  unfolding same_set
  pchange str p k =
      any (λ s. not (str s.1 == str (k.attr s.0))) p.settings
      || elim p.allowedips [ none ↦ false | some ips ↦ not (same_set k.allowedips ips) ]

  module _ {K : Type 0} (host : Host K V Net) where
    open host use {get_interface, send, str}

    abbrev pub WgRun : Type 0
    WgRun = Run K (Request V Net) (Event Subject)

    unfoldable pub sent_to : Request V Net → WgRun → Reply × WgRun
    sent_to r s =
        let (reply, k) = send r s.kernel in
        (reply, record s { kernel = k; sent = s.sent ++ r ∷ [] })

    -- `safe_set_peer` in the `try` of its callers. An invalid endpoint is left out in a second request; a
    -- second failure of that kind, a missing endpoint, and an invalid reply to another request end the program
    -- in the source, which also takes the endpoint out of the configuration.
    unfoldable pub safe_set_peer : Peer V Net → WgRun → WgRun
    unfolding sent_to
    safe_set_peer p s =
        let (reply, s1) = sent_to (set_peer p) s in
        let p' : Peer V Net = record p { settings = delete "endpoint" p.settings } in
        let (reply', s2) = sent_to (set_peer p') (note (warning iface) s1) in
        elim reply [
          | accepted ↦ s1
          | refused ↦ note (warning peer) s1
          | invalid ↦ elim reply' [
            | accepted ↦ s2
            | refused ↦ note (warning peer) s2
            | invalid ↦ s2
          ]
        ]

    -- the first part of `apply`
    unfoldable pub apply_settings : Bool → Dict String V → State V Net → WgRun → WgRun
    unfolding has_changes sent_to
    apply_settings do_apply settings state s =
        let (reply, s') = sent_to (set_interface settings) (note (log_change wireguard) s) in
        if has_changes settings state.attr
        then (if do_apply
            then elim reply [ accepted ↦ s' | refused ↦ note (warning iface) s' | invalid ↦ s' ]
            else note (log_change wireguard) s)
        else note (log_ok wireguard) s

    -- the body of the loop over the configured peers, with `has_pchanges`
    unfoldable pub apply_peer :
        Bool → Dict String (KernelPeer V Net) → Peer V Net → Bool × WgRun → Bool × WgRun
    unfolding pchange safe_set_peer
    apply_peer do_apply peers p (has_pchanges, s) =
        let differs : Bool = elim (lookup p.public_key peers) [
          | none ↦ true
          | some k ↦ pchange str p k
        ] in
        if differs then (true, if do_apply then safe_set_peer p s else s) else (has_pchanges, s)

    -- the body of the loop over the peers of the kernel
    unfoldable pub remove_peer : Bool → List String → String → Bool × WgRun → Bool × WgRun
    unfolding sent_to
    remove_peer do_apply avail key (has_pchanges, s) =
        let (reply, s') = sent_to (remove_peers key) s in
        if contains key avail then (has_pchanges, s) else (
          true,
          if do_apply
              then elim reply [ accepted ↦ s' | refused ↦ note (warning peer) s' | invalid ↦ s' ]
              else s,
        )

    unfoldable pub apply_peers :
        Bool → Option (List (Peer V Net)) → Dict String (KernelPeer V Net) → WgRun → WgRun
    unfolding apply_peer remove_peer
    apply_peers do_apply none peers s = s
    apply_peers do_apply (some ps) peers s =
        let set = for_each ps (apply_peer do_apply peers) (false, s) in
        let (has_pchanges, s') =
          for_each (keys peers) (remove_peer do_apply (map (λ p. p.public_key) ps)) set in
        note (if has_pchanges then log_change wg_peers else log_ok wg_peers) s'

    unfoldable pub apply : Bool → WireGuard V Net → WgRun → WgRun
    unfolding apply_settings apply_peers
    apply do_apply c s = elim (get_interface s.kernel c.iface) [
      | none ↦ note (warning wireguard) s
      | some state ↦
          apply_peers do_apply c.peers state.peers (apply_settings do_apply c.settings state s)
    ]
