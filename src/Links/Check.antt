-- ===== src/Links/Check.antt =====
-- A check of a link.
use ifstate.Prelude.{
  ℕ, String, ◌≡◌, refl, ◌∙◌, Bool, true, false, not, Option, none, some, [], inl, inr, Option-cases,
  if◌then◌else◌, text_key, ◌==◌, ◌&&◌, number_key, option_key,
}
use ifstate.Value.{text, Fields}
use ifstate.Netlink.{log_change, log_ok, note}
use ifstate.Collector.{set_quiet, reset}
use ifstate.Sysctl.{Sysctl}
use ifstate.Sysctl.Check as SettingsCheck
use ifstate.Registry.{Item, search, item_at}
use ifstate.Links.{
  Host, Link, Class, generic, physical, tun, Session, note_at, subject, Bind, unbound, unknown,
  bound, get_bind_netns,
}
use ifstate.Links.Attr.{Iface, is_value, get_if_attr}
use ifstate.Links.Parts.{apply_sysctl, apply_port, port_changes, bind_needs_recreate, proc}
use ifstate.Links.References.{resolve_references}
use ifstate.Links.Create.{create_bound, create_link, create_as, create, recreate}
use ifstate.Links.Update.{
  shut_down, ifname_of, state_is_up, update_changed, update_same, update, link_changes,
  state_changes,
}
use ifstate.Links.Apply.{
  Next, go_on, returns, item_or, with_excpts, move_link, free_name, has_errors, kind_differs,
  bring_about, read_iface, apply_found, apply_moved, apply_item, apply,
}
use ifstate.Links.Harmless.{after}
use ifstate.Links.Dry.{
  kernel_of, kernel-if, excpt-kernel, Known, resolve-dry, move_link-dry, free_name-dry,
  shut_down-dry, apply_port-dry,
}

module _ {K : Type 0} (host : Host K) where
  module _ {V : Type 0} (str : V → String) (sysctl : Sysctl V) (c : Link) where
    sysctl-dry :
        (iface : String) (config : Option String) (s : Session K)
        → kernel_of (apply_sysctl host str sysctl iface false config s) ≡ kernel_of s
    unfolding apply_sysctl
    sysctl-dry iface config s = SettingsCheck.apply-dry (proc host) str iface config sysctl _

    create_bound-dry :
        (oper : String) (bind : Bind) (s : Session K)
        → kernel_of (create_bound host str sysctl false c oper bind s) ≡ kernel_of s
    unfolding create_bound
    create_bound-dry oper unknown s = excpt-kernel oper none [] s
    create_bound-dry oper unbound s = refl
    create_bound-dry oper (bound n) s = refl

    create_link-dry :
        (oper : String) (s : Session K)
        → kernel_of (create_link host str sysctl false c oper s) ≡ kernel_of s
    unfolding create_link note_at note
    create_link-dry oper s = create_bound-dry oper (get_bind_netns c) _

    create_as-dry :
        (k : Class) (oper : String) (s : Session K)
        → kernel_of (create_as host str sysctl k false c oper s) ≡ kernel_of s
    unfolding create_as note_at note
    create_as-dry generic oper s = create_link-dry oper s
    create_as-dry physical oper s = refl
    create_as-dry tun oper s =
        kernel-if c.cap_create (create_link host str sysctl false c oper s) _ (kernel_of s)
          (create_link-dry oper s) refl

    create-dry :
        (oper : String) (s : Session K)
        → kernel_of (create host str sysctl false c oper s) ≡ kernel_of s
    unfolding create
    create-dry oper s = create_as-dry c.class oper s

    recreate-dry : (s : Session K) → kernel_of (recreate host str sysctl false c s) ≡ kernel_of s
    unfolding recreate
    recreate-dry s = create-dry "replace" (record s { idx = none })

    update_changed-dry :
        (idx : ℕ) (iface : Iface) (differs : Bool) (s : Session K)
        → kernel_of (update_changed host str sysctl false c idx iface differs s) ≡ kernel_of s
    unfolding update_changed note_at note
    update_changed-dry idx iface differs s =
        let closed = if iface.state == "down" then s else shut_down host false c idx s in
        let tuned =
          apply_sysctl host str sysctl (ifname_of host iface) false (some c.name) closed in
        let renamed = not (is_value (get_if_attr host.upper iface "ifname") (text c.name)) in
        let named = if renamed then note_at (log_change (subject "ifname")) tuned else tuned in
        let noted = note_at (log_change (subject "link")) named in
        let tuned' : kernel_of tuned ≡ kernel_of s =
          sysctl-dry (ifname_of host iface) (some c.name) closed
          ∙ kernel-if (iface.state == "down") s (shut_down host false c idx s) (kernel_of s) refl
              (shut_down-dry host c idx s) in
        let noted' : kernel_of noted ≡ kernel_of s =
          kernel-if renamed (note_at (log_change (subject "ifname")) tuned) tuned (kernel_of s)
            tuned' tuned' in
        kernel-if (differs && not noted.ended) (apply_port host false c idx noted) noted
          (kernel_of s) (apply_port-dry host c idx noted ∙ noted') noted'

    update_same-dry :
        (idx : ℕ) (iface : Iface) (port_differs state_differs : Bool) (s : Session K)
        → kernel_of (update_same host str sysctl false c idx iface port_differs state_differs s)
          ≡ kernel_of s
    unfolding update_same note_at note
    update_same-dry idx iface port_differs state_differs s =
        let tuned = apply_sysctl host str sysctl (ifname_of host iface) false none s in
        let was_up = not (iface.state == "") in
        let closed = if was_up then shut_down host false c idx tuned else tuned in
        let ported = if port_differs then apply_port host false c idx closed else tuned in
        let differs = if port_differs && was_up then state_is_up host closed else state_differs in
        let tuned' : kernel_of tuned ≡ kernel_of s = sysctl-dry (ifname_of host iface) none s in
        let closed' : kernel_of closed ≡ kernel_of s =
          kernel-if was_up (shut_down host false c idx tuned) tuned (kernel_of s)
            (shut_down-dry host c idx tuned ∙ tuned') tuned' in
        let ported' : kernel_of ported ≡ kernel_of s =
          kernel-if port_differs (apply_port host false c idx closed) tuned (kernel_of s)
            (apply_port-dry host c idx closed ∙ closed') tuned' in
        kernel-if differs (note_at (log_change (subject "link")) ported)
          (note_at (log_ok (subject "link")) ported) (kernel_of s) ported' ported'

    update-dry :
        (idx : ℕ) (iface : Iface) (s : Session K)
        → kernel_of (update host str sysctl false c idx iface s) ≡ kernel_of s
    unfolding update
    update-dry idx iface s =
        let port_differs = port_changes host c idx s.task.run.kernel in
        let state_differs = state_changes host.upper c.cap_create iface s.settings in
        kernel-if (link_changes host.upper c.cap_create iface s.settings)
          (update_changed host str sysctl false c idx iface port_differs s)
          (update_same host str sysctl false c idx iface port_differs state_differs s) (kernel_of s)
          (update_changed-dry idx iface port_differs s)
          (update_same-dry idx iface port_differs state_differs s)

    bring_about-dry :
        (idx : ℕ) (iface : Iface) (s : Session K)
        → kernel_of (bring_about host str sysctl false c idx iface s) ≡ kernel_of s
    unfolding bring_about
    bring_about-dry idx iface s =
        let quiet = with_excpts (set_quiet c.cap_create) s in
        let updated = update host str sysctl false c idx iface quiet in
        let reset_s = with_excpts reset updated in
        let updated' : kernel_of updated ≡ kernel_of s = update-dry idx iface quiet in
        let fallback = recreate host str sysctl false c reset_s in
        kernel-if (c.cap_create && kind_differs host iface s) (recreate host str sysctl false c s) _
          (kernel_of s) (recreate-dry s)
          (kernel-if (c.cap_create && (has_errors updated && not updated.ended)) fallback updated
            (kernel_of s) (recreate-dry reset_s ∙ updated') updated')

    apply_found-dry :
        (item : Item) (s : Session K)
        → kernel_of (apply_found host str sysctl false c item s) ≡ kernel_of s
    unfolding apply_found
    apply_found-dry item s =
        let numbered : Session K = record s { idx = item.index } in
        let absent = create-dry "add" numbered in
        elim (Option-cases item.index) [
          | inl lost ↦ rw (lost, apply_found) absent
          | inr (idx, known) ↦
              elim (Option-cases (read_iface host s.task.run.kernel item.netns idx)) [
                | inl gone ↦ rw (known, apply_found) (rw (gone, apply_found) absent)
                | inr (iface, there) ↦
                    let seen : Session K = record numbered { iface = some iface } in
                    rw (known, apply_found)
                      (rw (there, apply_found)
                        (bring_about-dry idx iface (free_name host false c idx seen)
                          ∙ free_name-dry host c idx seen))
              ]
        ]

    apply_moved-dry :
        (settings : Fields) (n : ℕ) (item : Item) (next : Next K)
        → kernel_of (apply_moved host str sysctl false c settings n item next)
          ≡ kernel_of (after host next)
    unfolding apply_moved
    apply_moved-dry settings n item (returns s) = refl
    apply_moved-dry settings n item (go_on s) = apply_found-dry (item_or item n s) s

    apply_item-dry :
        (settings : Fields) (n : ℕ) (item : Item) (s : Session K)
        → kernel_of (apply_item host str sysctl false c settings n item s) ≡ kernel_of s
    unfolding apply_item
    apply_item-dry settings n item s =
        elim (Option-cases (bind_needs_recreate host c item s.task.run.kernel)) [
          | inl lost ↦ rw (lost, apply_item) (excpt-kernel "apply" none [] s)
          | inr (true, needed) ↦
              rw (needed, apply_item) (recreate-dry (record s { idx = item.index }))
          | inr (false, kept) ↦
              rw (kept, apply_item)
                (apply_moved-dry settings n item (move_link host false c n item s)
                  ∙ move_link-dry host c n item s)
        ]

    -- If every namespace already has an id in the namespace of the link, a check of the link leaves
    -- the kernel as it was, on every path of apply.
    pub apply-dry :
        (s : Session K)
        → Known host c.netns (kernel_of s)
        → kernel_of (apply host str sysctl false c s) ≡ kernel_of s
    unfolding apply
    apply-dry s known =
        let resolved = resolve_references host c.netns s in
        let resolved' : kernel_of resolved ≡ kernel_of s = resolve-dry host c.netns s known in
        elim (Option-cases (search c.search_args resolved.items)) [
          | inl missing ↦ rw (missing, apply) (create-dry "add" resolved ∙ resolved')
          | inr (n, found) ↦ elim (Option-cases (item_at n resolved.items)) [
            | inl nowhere ↦
                rw (found, apply) (rw (nowhere, apply) (create-dry "add" resolved ∙ resolved'))
            | inr (item, there) ↦
                rw (found, apply)
                  (rw (there, apply) (apply_item-dry s.settings n item resolved ∙ resolved'))
          ]
        ]
