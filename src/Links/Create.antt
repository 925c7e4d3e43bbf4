-- ===== src/Links/Create.antt =====
-- The methods `create` and `recreate` of the class `Link` of libifstate/link/base.py, with the `create` of
-- libifstate/link/physical.py and libifstate/link/tun.py.
use ifstate.Prelude.{
  ℕ, String, Bool, false, Option, none, some, [], ◌∷◌, ◌++◌, ◌==◌, if◌then◌else◌, text_key,
  option_key, length, not,
}
use ifstate.Prelude.Dict.{lookup, insert, delete}
use ifstate.Value.{Value, null, text, Fields}
use ifstate.Netlink.{log_add, warning}
use ifstate.Collector.{has_op}
use ifstate.Sysctl.{Sysctl}
use ifstate.Registry.{Item, item_at}
use ifstate.Links.{
  Host, Class, generic, physical, tun, Link, Session, Block, ok, ◌>>=◌, ◌>>◌, step, read, skip,
  send, catch, note_at, excpt, subject, add, set, del, Bind, unknown, bound, get_bind_netns,
}
use ifstate.Links.Attr.{Iface, Attr, get_attr, drill_attr, attr_text}
use ifstate.Links.Move.{update_netns, update_ifname, prevent_altname_conflict}
use ifstate.Links.Parts.{apply_sysctl, port_changes, apply_port, set_bind_state}

-- `settings.pop(key, None)`, of which `None` is left out
unfoldable pub given : String → Fields → Option Value
given key settings = elim (lookup key settings) [ none ↦ none | some null ↦ none | some v ↦ some v ]

abbrev text_of : Option Attr → Option String
text_of none = none
text_of (some a) = some (attr_text (some a))

-- The item of a new link (`LinkRegistryItem.__init__`): a link without a kind is physical.
unfoldable pub new_item : {K : Type 0} → Host K → K → Option String → Iface → Item
unfolding attr_text get_attr drill_attr
new_item host k netns iface =
    let ifname = attr_text (get_attr "IFLA_IFNAME" iface.attrs) in
    let kind = text_of (drill_attr ("IFLA_LINKINFO" ∷ "IFLA_INFO_KIND" ∷ []) iface.attrs) in
    record {
      kind = elim kind [ none ↦ "physical" | some s ↦ s ];
      ifname = ifname;
      netns = netns;
      businfo = elim kind [ none ↦ host.get_businfo k netns ifname | some s ↦ none ];
      permaddr = elim kind [
        | none ↦ text_of (get_attr "IFLA_PERM_ADDRESS" iface.attrs)
        | some s ↦ none
      ];
      address = text_of (get_attr "IFLA_ADDRESS" iface.attrs);
      orphan = false;
      linked = false;
      index = some iface.index;
      wiphy = host.iw_phy iface.index;
    }

module _ {K : Type 0} (host : Host K) where
  -- `item = link_registry.add_link(netns, link)`
  unfoldable pub add_link : Option String → Iface → Session K → Session K
  unfolding new_item
  add_link netns iface s = record s {
    items = s.items ++ new_item host s.task.run.kernel netns iface ∷ [];
  }

  -- the new link is put into the registry
  unfoldable pub register : Link → Block K (Unit {0})
  unfolding add_link
  register c s = elim (host.get_link s.task.run.kernel c.netns c.name) [
    | none ↦ (ok tt, s)
    | some link ↦ (ok tt, add_link c.netns link s)
  ]

  -- the link is added where it belongs
  unfoldable pub add_here : Link → Fields → Block K (Unit {0})
  unfolding send register
  add_here c settings = do send host (add c.netns settings); register c

  -- the link is added to the namespace that it is bound to, and moved
  unfoldable pub add_there : Link → Option String → String → Fields → Block K (Unit {0})
  unfolding send add_link update_netns update_ifname new_item
  add_there c there temporary settings = do
    send host (add there settings)
    n ← read (λ s. length s.items)
    link ← read (λ s. host.get_link s.task.run.kernel there temporary)
    elim link [
      | none ↦ skip
      | some l ↦ do
        step (add_link there l)
        item ← read (λ s. new_item host s.task.run.kernel there l)
        update_netns host n item c.netns
        moved ← read (λ s. item_at n s.items)
        elim moved [ none ↦ skip | some i ↦ update_ifname host n i c.name ]
    ]

  -- `try: ipr.link('set', ...) except: excpts.add('set', ...)`
  unfoldable pub set_or_note : Link → Option ℕ → Fields → Session K → Session K
  unfolding send catch excpt
  set_or_note c idx args =
      catch (send host (set c.netns idx args)) (λ code. excpt "set" (some code) args)

  unfoldable pub set_given : Link → Option ℕ → String → Option Value → Session K → Session K
  unfolding set_or_note
  set_given c idx key none s = s
  set_given c idx key (some v) s = set_or_note c idx ((key, v) ∷ []) s

  -- `if bind_netns is not None: self.set_bind_state(bind_netns.mount)`
  unfoldable pub set_binding : Link → ℕ → Bind → Session K → Session K
  unfolding set_bind_state
  set_binding c idx (bound n) s = set_bind_state host c (some idx) (host.mount n) s
  set_binding c idx _ s = s

  -- `if self.brport: if self.brport.has_changes(self.idx): self.brport.apply(...)`
  unfoldable pub set_port : Bool → Link → ℕ → Session K → Session K
  unfolding port_changes apply_port
  set_port do_apply c idx s =
      if port_changes host c idx s.task.run.kernel then apply_port host do_apply c idx s else s

  -- `if not excpts.has_op('brport'): if state is not None: ...`
  unfoldable pub set_last : Link → ℕ → Option Value → Session K → Session K
  unfolding has_op set_given
  set_last c idx state s =
      if has_op "brport" s.task.excpts then s else set_given c (some idx) "state" state s

  module _ {V : Type 0} (str : V → String) (sysctl : Sysctl V) where
    -- the settings of a link that is there: binding, sysctl, master, bridge port, state
    unfoldable pub finish :
        Bool → Link → Bind → Option Value → Option Value → ℕ → Session K → Session K
    unfolding set_binding set_given apply_sysctl set_port set_last
    finish do_apply c bind master state idx s =
        let tuned = apply_sysctl host str sysctl c.name do_apply none (set_binding c idx bind s) in
        set_last c idx state
          (set_port do_apply c idx (set_given c (some idx) "master" master tuned))

    -- the index of the new link
    unfoldable pub settle : Bool → Link → Bind → Option Value → Option Value → Session K → Session K
    unfolding finish
    settle do_apply c bind master state s =
        let idx = host.link_lookup s.task.run.kernel c.netns c.name in
        let numbered : Session K = record s { idx = idx } in
        elim idx [ none ↦ numbered | some i ↦ finish do_apply c bind master state i numbered ]

    abbrev elsewhere : Link → Bind → Bool
    elsewhere c (bound n) = not (n == c.netns)
    elsewhere c _ = false

    abbrev place : Bind → Option String
    place (bound n) = n
    place _ = none

    -- the block of `create`
    unfoldable pub create_block : Bool → Link → Bind → Fields → Block K (Unit {0})
    unfolding given prevent_altname_conflict add_here add_there settle
    create_block do_apply c bind settings = do
      name ← read (λ s. host.unique_name "ifs.tmp." s.items s.task.run.kernel)
      let sent = delete "state" (delete "master" settings)
      step (prevent_altname_conflict host c)
      if elsewhere c bind
          then add_there c (place bind) name (insert "ifname" (text name) sent)
          else add_here c sent
      step (settle do_apply c bind (given "master" settings) (given "state" settings))

    -- `create` with the result of `get_bind_netns`
    unfoldable pub create_bound : Bool → Link → String → Bind → Session K → Session K
    unfolding excpt create_block catch
    create_bound do_apply c oper unknown s = excpt oper none [] s
    create_bound do_apply c oper bind s =
        if do_apply
        then catch (create_block do_apply c bind s.settings)
            (λ code t. excpt "add" (some code) t.settings t) s
        else s

    -- `Link.create`
    unfoldable pub create_link : Bool → Link → String → Session K → Session K
    unfolding note_at get_bind_netns create_bound
    create_link do_apply c oper s =
        create_bound do_apply c oper (get_bind_netns c) (note_at (log_add (subject oper)) s)

    -- `create` of a class
    unfoldable pub create_as : Class → Bool → Link → String → Session K → Session K
    unfolding create_link note_at
    create_as generic do_apply c oper s = create_link do_apply c oper s
    create_as physical do_apply c oper s = note_at (warning (subject "create")) s
    create_as tun do_apply c oper s =
        if c.cap_create
        then create_link do_apply c oper s
        else note_at (warning (subject "create")) s

    -- `create`
    unfoldable pub create : Bool → Link → String → Session K → Session K
    unfolding create_as
    create do_apply c oper s = create_as c.class do_apply c oper s

    -- `recreate`
    unfoldable pub recreate : Bool → Link → Session K → Session K
    unfolding send catch excpt create
    recreate do_apply c s =
        let deleted =
          if do_apply
          then catch (send host (del c.netns s.idx)) (λ code. excpt "del" (some code) []) s
          else s in
        create do_apply c "replace" (record deleted { idx = none })
