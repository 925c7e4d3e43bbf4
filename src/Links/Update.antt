-- ===== src/Links/Update.antt =====
-- The method `update` of the class `Link` of libifstate/link/base.py.
use ifstate.Prelude.{
  ℕ, String, Bool, not, ◌&&◌, ◌||◌, Option, none, some, List, [], option_key, number_key, ◌∷◌, ◌==◌,
  if◌then◌else◌, text_key, contains, any, filter, true,
}
use ifstate.Prelude.Dict.{lookup, insert, has}
use ifstate.Value.{Value, num, text, Fields, value_key}
use ifstate.Netlink.{log_ok, log_change, warning, for_each}
use ifstate.Sysctl.{Sysctl}
use ifstate.Links.{
  Host, Link, Session, Block, ◌>>=◌, ◌>>◌, read, send, catch, note_at, excpt, subject, set, found,
  missing, failed, ok, raised,
}
use ifstate.Links.Attr.{Attr, Iface, get_if_attr, is_value, is_index, attr_text}
use ifstate.Links.References.{attr_idx, netns_attr}
use ifstate.Links.Move.{prevent_altname_conflict}
use ifstate.Links.Parts.{apply_sysctl, port_changes, apply_port}
use ifstate.Links.Create.{set_or_note, set_given}

-- `differs` for a setting
unfoldable pub differs : (String → String) → Bool → Iface → String × Value → Bool
unfolding get_if_attr is_value is_index
differs upper cap_create iface (setting, v) =
    if setting == "state"
    then not (is_value (get_if_attr upper iface setting) v)
    else if contains setting attr_idx
    then not (is_index (get_if_attr upper iface setting) v)
    else (not (setting == "kind") || cap_create)
      && not (is_value (get_if_attr upper iface setting) v)

-- `has_link_changes` and `has_state_changes`
unfoldable pub link_changes : (String → String) → Bool → Iface → Fields → Bool
unfolding differs
link_changes upper cap_create iface settings =
    any (λ p. not (p.0 == "state") && differs upper cap_create iface p) settings

unfoldable pub state_changes : (String → String) → Bool → Iface → Fields → Bool
unfolding differs
state_changes upper cap_create iface settings =
    any (λ p. (p.0 == "state") && differs upper cap_create iface p) settings

-- the settings that are not part of the request
abbrev pub special_settings : List String
special_settings = "state" ∷ "peer" ∷ "kind" ∷ "businfo" ∷ "permaddr" ∷ []

abbrev pub special : String → Bool
special key = contains key special_settings

-- `setting.endswith('_netns') and setting[:-6] in self.attr_idx`
unfoldable pub is_netns_attr : String → Bool
unfolding netns_attr
is_netns_attr setting = any (λ attr. setting == netns_attr attr) attr_idx

-- The value of a reference that is read back; one that is not there is the index 0.
unfoldable pub is_reference : Option Attr → Value → Bool
unfolding is_value
is_reference none v = v == num 0
is_reference (some a) v = is_value (some a) v

-- a setting that the link has after the request
unfoldable pub is_set : (String → String) → Iface → String × Value → Bool
unfolding get_if_attr is_value is_reference
is_set upper iface (setting, v) =
    if contains setting attr_idx
    then is_reference (get_if_attr upper iface setting) v
    else is_value (get_if_attr upper iface setting) v

-- the settings but those that are taken out of the request, and those put back
unfoldable pub plain_settings : Fields → Fields
plain_settings settings = filter (λ p. not (special p.0)) settings

unfoldable pub restore : Fields → Fields → Fields
restore all settings =
    for_each special_settings
      (λ key d. elim (lookup key all) [ none ↦ d | some v ↦ insert key v d ]) settings

module _ {K : Type 0} (host : Host K) where
  -- a setting that is read back: what could not be changed is an error of a link that can be created again
  unfoldable pub verify : Link → Iface → String × Value → Session K → Session K
  unfolding excpt note_at is_set is_netns_attr
  verify c iface (setting, v) s =
      if is_netns_attr setting || is_set host.upper iface (setting, v)
      then s
      else if c.cap_create
      then excpt "set" none ((setting, v) ∷ []) s
      else note_at (warning ((setting, v) ∷ [])) s

  -- the message after the request; without the link in the dump, the attributes of None are read for the name
  unfoldable pub read_back : Link → ℕ → Block K (Unit {0})
  unfolding verify
  read_back c idx s = elim (host.get_links s.task.run.kernel c.netns idx) [
    | found iface ↦ (ok tt, for_each s.settings (verify c iface) (record s { iface = some iface }))
    | missing ↦ (ok tt, record s { iface = none; ended = true })
    | failed code ↦ (raised code, s)
  ]

  unfoldable pub set_settings : Link → ℕ → Block K (Unit {0})
  unfolding send read_back
  set_settings c idx = do
    settings ← read (λ s. s.settings)
    send host (set c.netns (some idx) settings)
    read_back c idx

  -- `ipr.link('set', index=self.idx, state=self.settings['state'])`
  unfoldable pub set_state : Link → ℕ → Session K → Session K
  unfolding set_given
  set_state c idx s = set_given host c (some idx) "state" (lookup "state" s.settings) s

  -- the request for the settings, without those that are no part of it, which are put back
  unfoldable pub send_settings : Link → ℕ → Bool → Session K → Session K
  unfolding prevent_altname_conflict set_settings catch excpt plain_settings restore
  send_settings c idx renamed s =
      let plain : Session K = record s { settings = plain_settings s.settings } in
      let freed = if renamed then prevent_altname_conflict host c plain else plain in
      let changed =
        catch (set_settings c idx) (λ code t. excpt "set" (some code) t.settings t) freed in
      record changed { settings = restore s.settings changed.settings }

  -- the settings, and then the state
  unfoldable pub change_settings : Link → ℕ → Bool → Session K → Session K
  unfolding send_settings set_state
  change_settings c idx renamed s =
      let sent = send_settings c idx renamed s in if sent.ended then sent else set_state c idx sent

  -- `if not 'state' in self.settings: self.settings['state'] = 'up'`
  unfoldable pub default_state : Session K → Session K
  default_state s =
      if has "state" s.settings
      then s
      else record s { settings = insert "state" (text "up") s.settings }

  -- `if do_apply: ipr.link('set', index=self.idx, state='down')`, and the state to come back to
  unfoldable pub shut_down : Bool → Link → ℕ → Session K → Session K
  unfolding set_or_note default_state
  shut_down do_apply c idx s =
      default_state
        (if do_apply then set_or_note host c (some idx) (("state", text "down") ∷ []) s else s)

  -- `self.settings['state'] == 'up'`
  unfoldable pub state_is_up : Session K → Bool
  state_is_up s = lookup "state" s.settings == some (text "up")

  abbrev pub ifname_of : Iface → String
  ifname_of iface = attr_text (get_if_attr host.upper iface "ifname")

  module _ {V : Type 0} (str : V → String) (sysctl : Sysctl V) where
    -- the branch of `update` for a link with other settings
    unfoldable pub update_changed : Bool → Link → ℕ → Iface → Bool → Session K → Session K
    unfolding shut_down apply_sysctl note_at change_settings apply_port get_if_attr attr_text
        is_value
    update_changed do_apply c idx iface port_differs s =
        let closed = if iface.state == "down" then s else shut_down do_apply c idx s in
        let tuned = apply_sysctl host str sysctl (ifname_of iface) do_apply (some c.name) closed in
        let renamed = not (is_value (get_if_attr host.upper iface "ifname") (text c.name)) in
        let noted =
          note_at (log_change (subject "link"))
            (if renamed then note_at (log_change (subject "ifname")) tuned else tuned) in
        let changed = if do_apply then change_settings c idx renamed noted else noted in
        if port_differs && not changed.ended
        then apply_port host do_apply c idx changed
        else changed

    -- the branch for a link with the same settings
    unfoldable pub update_same : Bool → Link → ℕ → Iface → Bool → Bool → Session K → Session K
    unfolding shut_down apply_sysctl note_at apply_port get_if_attr attr_text set_state state_is_up
    update_same do_apply c idx iface port_differs state_differs s =
        let tuned = apply_sysctl host str sysctl (ifname_of iface) do_apply none s in
        let was_up = not (iface.state == "") in
        let closed = if was_up then shut_down do_apply c idx tuned else tuned in
        let ported = if port_differs then apply_port host do_apply c idx closed else tuned in
        let differs = if port_differs && was_up then state_is_up closed else state_differs in
        if differs
        then note_at (log_change (subject "link"))
            (if do_apply then set_state c idx ported else ported)
        else note_at (log_ok (subject "link")) ported

    -- `update`
    unfoldable pub update : Bool → Link → ℕ → Iface → Session K → Session K
    unfolding link_changes state_changes port_changes update_changed update_same
    update do_apply c idx iface s =
        let port_differs = port_changes host c idx s.task.run.kernel in
        if link_changes host.upper c.cap_create iface s.settings
        then update_changed do_apply c idx iface port_differs s
        else update_same do_apply c idx iface port_differs
            (state_changes host.upper c.cap_create iface s.settings) s
