-- ===== src/Apply/Iface.antt =====
-- `IfState._apply_iface` of libifstate/__init__.py, and how a vrrp setting decides whether it goes on.
use ifstate.Prelude.{
  String, Bool, false, not, ◌&&◌, Option, none, some, [], ◌==◌, if◌then◌else◌, text_key, contains,
}
use ifstate.Prelude.Dict.{Dict, lookup, insert}
use ifstate.Value.{text, Vrrp}
use ifstate.Apply.{Applier, Selector, VrrpIndex, Link, TcPart, Netns, get_or}

-- `_apply_iface` returns, goes on, or goes on with the link set to down.
pub data Gate : Type 0 where
  skip enable disable : Gate

-- `match_vrrp_select` and `match_vrrp_state` of a link
unfoldable pub match_vrrp_select : Selector → Option Vrrp → Bool
match_vrrp_select s none = false
match_vrrp_select s (some v) = (v.kind == s.vrrp_type) && (v.name == s.vrrp_name)

unfoldable pub match_vrrp_state : Selector → Option Vrrp → Bool
unfolding match_vrrp_select
match_vrrp_state s none = false
match_vrrp_state s (some v) = match_vrrp_select s (some v) && contains s.vrrp_state v.states

-- `ifname in netns.vrrp[vrrp_type][vrrp_name][vrrp_state]`, each level being there
unfoldable pub is_up : Selector → String → VrrpIndex → Bool
unfolding get_or
is_up s ifname index =
    contains ifname
      (get_or [] s.vrrp_state (get_or [] s.vrrp_name (get_or [] s.vrrp_type index.types)))

-- `vrrp` is the setting of the link. The links of the index are among the links of the namespace.
unfoldable pub gate : Option Selector → String → Option Vrrp → VrrpIndex → Gate
unfolding match_vrrp_select is_up
gate sel ifname vrrp index =
    if contains ifname index.links
    then elim sel [
      | none ↦ skip
      | some s ↦
          if not (match_vrrp_select s vrrp)
          then skip
          else if is_up s ifname index
          then enable
          else disable
    ]
    else elim sel [ none ↦ enable | some s ↦ skip ]

module _ {K : Type 0} where
  -- `if ifname in d: d[ifname].apply(do_apply)`
  unfoldable pub apply_part : Bool → String → Dict String (Applier K) → K → K
  apply_part do_apply ifname parts k = elim (lookup ifname parts) [
    | none ↦ k
    | some a ↦ a.apply do_apply k
  ]

  unfoldable pub apply_link : Bool → Option (Link K) → K → K
  apply_link do_apply none k = k
  apply_link do_apply (some l) k = (l.applier l.settings).apply do_apply k

  unfoldable pub apply_tc : Bool → Option (TcPart K) → K → K
  apply_tc do_apply none k = k
  apply_tc do_apply (some t) k = t.applier.apply do_apply k

  -- the parts of an interface in their order
  unfoldable pub apply_parts : Bool → String → Netns K → K → K
  unfolding apply_part apply_link apply_tc
  apply_parts do_apply ifname netns k =
      let linked = apply_link do_apply (lookup ifname netns.links) k in
      let shaped = apply_tc do_apply (lookup ifname netns.tc) linked in
      let filtered = apply_part do_apply ifname netns.xdp shaped in
      let addressed = apply_part do_apply ifname netns.addresses filtered in
      let bridged = apply_part do_apply ifname netns.fdb addressed in
      let resolved = apply_part do_apply ifname netns.neighbours bridged in
      apply_part do_apply ifname netns.wireguard resolved

  -- `link.settings['state'] = 'down'`
  unfoldable pub set_down : String → Netns K → Netns K
  set_down ifname netns = elim (lookup ifname netns.links) [
    | none ↦ netns
    | some l ↦ record netns {
      links =
          insert ifname (record l { settings = insert "state" (text "down") l.settings })
            netns.links;
    }
  ]

  unfoldable pub vrrp_of : String → Netns K → Option Vrrp
  vrrp_of ifname netns = elim (lookup ifname netns.links) [ none ↦ none | some l ↦ l.vrrp ]

  unfoldable pub apply_iface : Bool → Option Selector → String → Netns K → K → Netns K × K
  unfolding gate apply_parts set_down vrrp_of
  apply_iface do_apply sel ifname netns k =
      elim (gate sel ifname (vrrp_of ifname netns) netns.vrrp) [
        | skip ↦ (netns, k)
        | enable ↦ (netns, apply_parts do_apply ifname netns k)
        | disable ↦ (set_down ifname netns, apply_parts do_apply ifname (set_down ifname netns) k)
      ]
