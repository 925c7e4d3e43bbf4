-- ===== src/Links/Apply.antt =====
-- The method `apply` of the class `Link` of libifstate/link/base.py, for a link that has no index yet.
use ifstate.Prelude.{
  ℕ, String, Bool, true, false, not, ◌&&◌, Option, none, some, List, [], ◌∷◌, ◌==◌, if◌then◌else◌,
  text_key, option_key, number_key,
}
use ifstate.Prelude.Dict.{lookup}
use ifstate.Value.{null, text, Fields}
use ifstate.Netlink.{log_change, start}
use ifstate.Collector.{Collector, new, get_all, set_quiet, reset}
use ifstate.Sysctl.{Sysctl}
use ifstate.Registry.{Item, search, item_at}
use ifstate.Links.{
  Host, Link, Session, ◌>>◌, step, send, catch, note_at, excpt, subject, set, found, missing,
  failed, Outcome, ok, raised,
}
use ifstate.Links.Attr.{Iface, append, get_attr, get_if_attr, is_value, attr_text}
use ifstate.Links.References.{resolve_references}
use ifstate.Links.Move.{update_netns}
use ifstate.Links.Parts.{bind_needs_recreate}
use ifstate.Links.Create.{create, recreate}
use ifstate.Links.Update.{update}

-- How a step of `apply` ends: it goes on, or `apply` returns.
pub data Next (K : Type 0) : Type 0 where
  go_on returns : Session K → Next K

module _ {K : Type 0} where
  abbrev pub with_excpts : (Collector Fields → Collector Fields) → Session K → Session K
  with_excpts f s = record s { task = record s.task { excpts = f s.task.excpts } }

  -- `self.settings = osettings`
  abbrev pub give_back : Fields → Session K → Session K
  give_back settings s = record s { settings = settings }

  -- errors after which a link is created again: all but those of the bridge port
  unfoldable pub has_errors : Session K → Bool
  unfolding get_all
  has_errors s = elim (get_all (λ e. not (e.op == "brport")) s.task.excpts) [
    | [] ↦ false
    | e ∷ es ↦ true
  ]

  -- the item at the position, which is there
  abbrev pub item_or : Item → ℕ → Session K → Item
  item_or item n s = elim (item_at n s.items) [ none ↦ item | some i ↦ i ]

  -- the session in which a link is applied
  unfoldable pub begin : Link → List Item → K → Session K
  unfolding new
  begin c items k = record {
    settings = c.settings;
    idx = none;
    iface = none;
    items = items;
    task = record { run = start k; excpts = new c.name };
    ended = false;
  }

module _ {K : Type 0} (host : Host K) where
  -- The message of the link with its two addresses; `get_link` is `none` for an error.
  unfoldable pub read_iface : K → Option String → ℕ → Option Iface
  unfolding get_attr attr_text
  read_iface k netns idx = elim (host.get_links k netns idx) [
    | found iface ↦
        let ifname = attr_text (get_attr "IFLA_IFNAME" iface.attrs) in
        some (record iface {
          permaddr = host.get_permaddr k netns ifname;
          businfo = host.get_businfo k netns ifname;
        })
    | missing ↦ none
    | failed code ↦ none
  ]

  -- the refused move of a link: it is set down where it is, and a refusal of that is not caught
  unfoldable pub move_failed : Link → Item → ℕ → Session K → Session K
  unfolding send catch excpt
  move_failed c item code =
      let args : Fields = ("netns", elim c.netns [ none ↦ null | some n ↦ text n ]) ∷ [] in
      catch
        (send host (set item.netns item.index (("state", text "down") ∷ []))
          >> step (excpt "set" (some code) args))
        (λ code' t. record t { ended = true })

  -- the end of the `try` around the move
  unfoldable pub end_move : Link → ℕ → Item → Outcome (Unit {0}) × Session K → Next K
  unfolding move_failed
  end_move c n item (ok u, s) = go_on s
  end_move c n item (raised code, s) = returns (move_failed c (item_or item n s) code s)

  -- `if item.netns.netns != self.netns.netns`
  unfoldable pub move_link : Bool → Link → ℕ → Item → Session K → Next K
  unfolding note_at update_netns end_move
  move_link do_apply c n item s =
      let noted = note_at (log_change (subject "netns")) s in
      if item.netns == c.netns
      then go_on s
      else if do_apply
      then end_move c n item (update_netns host n item c.netns noted)
      else go_on noted

  -- `ipr.link('set', ...)` twice, for the link with the name
  unfoldable pub rename_other : Link → ℕ → Session K → Session K
  unfolding send catch excpt append
  rename_other c other =
      catch
        (do
          send host (set c.netns (some other) (("state", text "down") ∷ []))
          send host (set c.netns (some other) (("ifname", text (append c.name "!")) ∷ [])))
        (λ code. excpt "set" (some code) (("state", text "down") ∷ ("ifname", text "{}!") ∷ []))

  -- another link that has the name is set down and renamed
  unfoldable pub free_name : Bool → Link → ℕ → Session K → Session K
  unfolding rename_other
  free_name do_apply c idx s = elim (host.link_lookup s.task.run.kernel c.netns c.name) [
    | none ↦ s
    | some other ↦ if not (other == idx) && do_apply then rename_other c other s else s
  ]

  -- `self.get_if_attr('kind') != self.settings['kind']`
  unfoldable pub kind_differs : Iface → Session K → Bool
  unfolding get_if_attr is_value
  kind_differs iface s = not (
      is_value (get_if_attr host.upper iface "kind")
        (elim (lookup "kind" s.settings) [ none ↦ null | some v ↦ v ]))

  module _ {V : Type 0} (str : V → String) (sysctl : Sysctl V) where
    -- the link is there: it is created again if it is of another kind or cannot be changed
    unfoldable pub bring_about : Bool → Link → ℕ → Iface → Session K → Session K
    unfolding kind_differs recreate update has_errors set_quiet reset
    bring_about do_apply c idx iface s =
        let updated =
          update host str sysctl do_apply c idx iface (with_excpts (set_quiet c.cap_create) s) in
        if c.cap_create && kind_differs iface s
        then recreate host str sysctl do_apply c s
        else if c.cap_create && (has_errors updated && not updated.ended)
        then recreate host str sysctl do_apply c (with_excpts reset updated)
        else updated

    -- the end of `apply`, for the item that was found
    unfoldable pub apply_found : Bool → Link → Item → Session K → Session K
    unfolding read_iface free_name bring_about create
    apply_found do_apply c item s =
        let numbered : Session K = record s { idx = item.index } in
        let absent = create host str sysctl do_apply c "add" numbered in
        elim item.index [
          | none ↦ absent
          | some idx ↦ elim (read_iface s.task.run.kernel item.netns idx) [
            | none ↦ absent
            | some iface ↦
                bring_about do_apply c idx iface
                  (free_name do_apply c idx (record numbered { iface = some iface }))
          ]
        ]

    -- `apply` after the move of the link
    unfoldable pub apply_moved : Bool → Link → Fields → ℕ → Item → Next K → Session K
    unfolding apply_found
    apply_moved do_apply c settings n item (returns s) = s
    apply_moved do_apply c settings n item (go_on s) =
        give_back settings (apply_found do_apply c (item_or item n s) s)

    -- `apply` after the search in the registry, with the settings to give back
    unfoldable pub apply_item : Bool → Link → Fields → ℕ → Item → Session K → Session K
    unfolding bind_needs_recreate recreate excpt move_link apply_moved
    apply_item do_apply c settings n item s =
        elim (bind_needs_recreate host c item s.task.run.kernel) [
          | none ↦ excpt "apply" none [] s
          | some true ↦
              give_back settings
                (recreate host str sysctl do_apply c (record s { idx = item.index }))
          | some false ↦ apply_moved do_apply c settings n item (move_link do_apply c n item s)
        ]

    -- `apply`
    unfoldable pub apply : Bool → Link → Session K → Session K
    unfolding resolve_references apply_item create
    apply do_apply c s =
        let resolved = resolve_references host c.netns s in
        let absent = give_back s.settings (create host str sysctl do_apply c "add" resolved) in
        elim (search c.search_args resolved.items) [
          | none ↦ absent
          | some n ↦ elim (item_at n resolved.items) [
            | none ↦ absent
            | some item ↦ apply_item do_apply c s.settings n item resolved
          ]
        ]
