-- ===== src/Links/Move.antt =====
-- An item of the registry that moves to another namespace or gets another name: `update_netns` and
-- `update_ifname` of libifstate/netns/__init__.py, with the conflict of alternative names of the class `Link`.
use ifstate.Prelude.{ℕ, String, Option, none, some, [], ◌∷◌, if◌then◌else◌, text_key, contains}
use ifstate.Value.{text}
use ifstate.Registry.{Item, on_item}
use ifstate.Links.{
  Host, Link, Session, Block, ◌>>◌, ok, step, send, catch, set, property_del, set_wiphy_netns,
}

module _ {K : Type 0} where
  -- a change of the item at a position
  abbrev pub change_item : (Item → Item) → ℕ → Session K → Session K
  change_item f n s = record s { items = on_item f n s.items }

module _ {K : Type 0} (host : Host K) where
  -- `update_ifname`: the attribute is set before the requests
  unfoldable pub update_ifname : ℕ → Item → String → Block K (Unit {0})
  unfolding send
  update_ifname n item ifname = do
    step (change_item (λ i. record i { ifname = ifname }) n)
    send host (set item.netns item.index (("state", text "down") ∷ []))
    send host (set item.netns item.index (("ifname", text ifname) ∷ []))

  -- the name of a namespace for `net_ns_fd`; the name of the root namespace is that of `get_netns_root`
  unfoldable pub netns_fd : Option String → String
  netns_fd none = host.root_name
  netns_fd (some n) = n

  -- the request that moves the link, or the phy of a wireless one
  unfoldable pub move : Item → Option String → Block K (Unit {0})
  unfolding send netns_fd
  move item target = elim item.wiphy [
    | some phy ↦ send host (set_wiphy_netns item.netns phy target)
    | none ↦ send host (set item.netns item.index (("net_ns_fd", text (netns_fd target)) ∷ []))
  ]

  -- the end of `update_netns`: the item is in the namespace, by the index that its name has there
  unfoldable pub arrive : ℕ → Option String → Session K → Session K
  arrive n target s =
      change_item
        (λ i. record i {
          netns = target;
          index = host.link_lookup s.task.run.kernel target i.ifname;
        })
        n s

  -- a link of the name in the target makes the item take another name first
  unfoldable pub make_room : ℕ → Item → Option String → Block K (Unit {0})
  unfolding update_ifname
  make_room n item target s = elim (host.link_lookup s.task.run.kernel target item.ifname) [
    | none ↦ (ok tt, s)
    | some idx ↦ update_ifname n item (host.unique_name "__netns__" s.items s.task.run.kernel) s
  ]

  -- `update_netns`
  unfoldable pub update_netns : ℕ → Item → Option String → Block K (Unit {0})
  unfolding make_room move arrive
  update_netns n item target = do make_room n item target; move item target; step (arrive n target)

  -- `prevent_altname_conflict`; both of its errors are ignored
  unfoldable pub prevent_altname_conflict : Link → Session K → Session K
  unfolding send catch
  prevent_altname_conflict c s = elim (host.by_altname s.task.run.kernel c.netns c.name) [
    | none ↦ s
    | some link ↦
        let freed = catch (send host (property_del c.netns link.index c.name)) (λ code t. t) s in
        if contains c.name link.altnames then freed else s
  ]
