-- ===== src/Links/Kept.antt =====
-- A physical link is neither made nor removed by `apply`.
use ifstate.Prelude.{
  ℕ, String, refl, Bool, not, none, some, [], ◌∷◌, arith, inl, inr, Option-cases, if◌then◌else◌,
  text_key, contains, ◌==◌, ◌&&◌, number_key, option_key, true,
}
use ifstate.Prelude.Dict.{lookup}
use ifstate.Value.{Value, text}
use ifstate.Netlink.{for_each, log_change}
use ifstate.Sysctl.{Sysctl}
use ifstate.Links.{
  Host, Link, Session, set, property_del, Outcome, ok, raised, send, catch, excpt, note_at, subject,
  found, missing, failed,
}
use ifstate.Links.Attr.{Iface, is_value, get_if_attr}
use ifstate.Links.Parts.{apply_sysctl, apply_port, port_changes}
use ifstate.Links.Move.{prevent_altname_conflict}
use ifstate.Links.Update.{
  verify, read_back, set_settings, set_state, send_settings, change_settings, plain_settings,
  default_state, shut_down, ifname_of, update_changed, update_same, update, link_changes,
  state_changes, state_is_up,
}
use ifstate.Links.Sent.{
  Sends, Sends-same, Sends-trans, Sends-for_each, Sends-if, catch-Sends, excpt-Sends, note-Sends,
  >>=-Sends, send-Sends, set_or_note-Sends, set_given-Sends, apply_sysctl-Sends, apply_port-Sends,
}

module _ {K : Type 0} (host : Host K) where
  verify-Sends :
      (c : Link) (iface : Iface) (p : String × Value) (s : Session K)
      → Sends s (verify host c iface p s)
  unfolding verify excpt note_at
  verify-Sends c iface (k, v) s = Sends-same s (verify host c iface (k, v) s) (ground arith)

  read_back-Sends : (c : Link) (idx : ℕ) (s : Session K) → Sends s (read_back host c idx s).1
  unfolding read_back
  read_back-Sends c idx s =
      elim (host.get_links s.task.run.kernel c.netns idx)
        as (λ d.
          Sends s
            (elim d as (λ o. Outcome (Unit {0}) × Session K) [
              | found iface ↦ (
                ok tt,
                for_each s.settings (verify host c iface) (record s { iface = some iface }),
              )
              | missing ↦ (ok tt, record s { iface = none; ended = true })
              | failed code ↦ (raised code, s)
            ]).1) [
              | found iface ↦
                  Sends-trans s (record s { iface = some iface }) _ (Sends-same s _ refl)
                    (Sends-for_each (verify host c iface) (verify-Sends c iface) s.settings
                      (record s { iface = some iface }))
              | missing ↦ Sends-same s _ refl
              | failed code ↦ Sends-same s _ refl
            ]

  set_settings-Sends : (c : Link) (idx : ℕ) (s : Session K) → Sends s (set_settings host c idx s).1
  unfolding set_settings
  set_settings-Sends c idx s =
      >>=-Sends (send host (set c.netns (some idx) s.settings)) (λ u. read_back host c idx) s
        (send-Sends host (set c.netns (some idx) s.settings) s refl)
        (λ u. read_back-Sends c idx (send host (set c.netns (some idx) s.settings) s).1)

  prevent-Sends : (c : Link) (s : Session K) → Sends s (prevent_altname_conflict host c s)
  unfolding prevent_altname_conflict
  prevent-Sends c s = elim (Option-cases (host.by_altname s.task.run.kernel c.netns c.name)) [
    | inl free ↦ rw (free, prevent_altname_conflict) (Sends-same s s refl)
    | inr (link, taken) ↦
        rw (taken, prevent_altname_conflict)
          (Sends-if (contains c.name link.altnames) s _ _
            (catch-Sends (send host (property_del c.netns link.index c.name)) (λ code t. t) s
              (send-Sends host (property_del c.netns link.index c.name) s refl)
              (λ code t. Sends-same t t refl))
            (Sends-same s s refl))
  ]

  set_state-Sends : (c : Link) (idx : ℕ) (s : Session K) → Sends s (set_state host c idx s)
  unfolding set_state
  set_state-Sends c idx s = set_given-Sends host c (some idx) "state" (lookup "state" s.settings) s

  pub send_settings-Sends :
      (c : Link) (idx : ℕ) (renamed : Bool) (s : Session K)
      → Sends s (send_settings host c idx renamed s)
  unfolding send_settings
  send_settings-Sends c idx renamed s =
      let plain : Session K = record s { settings = plain_settings s.settings } in
      let freed = if renamed then prevent_altname_conflict host c plain else plain in
      let handler : ℕ → Session K → Session K = λ code t. excpt "set" (some code) t.settings t in
      let changed = catch (set_settings host c idx) handler freed in
      Sends-trans s plain _ (Sends-same s plain refl) (
        Sends-trans plain freed _
          (Sends-if renamed plain _ _ (prevent-Sends c plain) (Sends-same plain plain refl))
          (Sends-trans freed changed _
            (catch-Sends (set_settings host c idx) handler freed (set_settings-Sends c idx freed)
              (λ code t. excpt-Sends "set" (some code) t.settings t))
            (Sends-same changed _ refl)))

  change_settings-Sends :
      (c : Link) (idx : ℕ) (renamed : Bool) (s : Session K)
      → Sends s (change_settings host c idx renamed s)
  unfolding change_settings
  change_settings-Sends c idx renamed s =
      let sent = send_settings host c idx renamed s in
      let first = send_settings-Sends c idx renamed s in
      Sends-if sent.ended s _ _ first (Sends-trans s sent _ first (set_state-Sends c idx sent))

  default_state-Sends : (s : Session K) → Sends s (default_state host s)
  unfolding default_state
  default_state-Sends s = Sends-same s (default_state host s) (ground arith)

  shut_down-Sends :
      (do_apply : Bool) (c : Link) (idx : ℕ) (s : Session K)
      → Sends s (shut_down host do_apply c idx s)
  unfolding shut_down
  shut_down-Sends do_apply c idx s =
      Sends-trans s _ _
        (Sends-if do_apply s _ s
          (set_or_note-Sends host c (some idx) (("state", text "down") ∷ []) s)
          (Sends-same s s refl))
        (default_state-Sends _)

  port-if :
      (port_differs do_apply : Bool) (c : Link) (idx : ℕ) (s t : Session K)
      → Sends s t
      → Sends s (if port_differs then apply_port host do_apply c idx t else t)
  port-if port_differs do_apply c idx s t h =
      Sends-if port_differs s _ _ (Sends-trans s t _ h (apply_port-Sends host do_apply c idx t)) h

  module _ {V : Type 0} (str : V → String) (sysctl : Sysctl V) where
    update_changed-Sends :
        (do_apply : Bool) (c : Link) (idx : ℕ) (iface : Iface) (port_differs : Bool) (s : Session K)
        → Sends s (update_changed host str sysctl do_apply c idx iface port_differs s)
    unfolding update_changed
    update_changed-Sends do_apply c idx iface port_differs s =
        let closed = if iface.state == "down" then s else shut_down host do_apply c idx s in
        let tuned =
          apply_sysctl host str sysctl (ifname_of host iface) do_apply (some c.name) closed in
        let renamed = not (is_value (get_if_attr host.upper iface "ifname") (text c.name)) in
        let named = if renamed then note_at (log_change (subject "ifname")) tuned else tuned in
        let noted = note_at (log_change (subject "link")) named in
        let changed = if do_apply then change_settings host c idx renamed noted else noted in
        Sends-trans s closed _
          (Sends-if (iface.state == "down") s _ _ (Sends-same s s refl)
            (shut_down-Sends do_apply c idx s))
          (Sends-trans closed tuned _ (apply_sysctl-Sends host str sysctl _ do_apply _ closed) (
            Sends-trans tuned named _
              (Sends-if renamed tuned _ _ (note-Sends _ tuned) (Sends-same tuned tuned refl))
              (Sends-trans named noted _ (note-Sends _ named) (
                port-if (port_differs && not changed.ended) do_apply c idx noted changed (
                  Sends-if do_apply noted _ _ (change_settings-Sends c idx renamed noted)
                    (Sends-same noted noted refl))))))

    update_same-Sends :
        (do_apply : Bool) (c : Link) (idx : ℕ) (iface : Iface) (port_differs state_differs : Bool)
        (s : Session K)
        → Sends s (update_same host str sysctl do_apply c idx iface port_differs state_differs s)
    unfolding update_same
    update_same-Sends do_apply c idx iface port_differs state_differs s =
        let tuned = apply_sysctl host str sysctl (ifname_of host iface) do_apply none s in
        let was_up = not (iface.state == "") in
        let closed = if was_up then shut_down host do_apply c idx tuned else tuned in
        let ported = if port_differs then apply_port host do_apply c idx closed else tuned in
        let differs = if port_differs && was_up then state_is_up host closed else state_differs in
        let set_s = if do_apply then set_state host c idx ported else ported in
        Sends-trans s tuned _ (apply_sysctl-Sends host str sysctl _ do_apply none s) (
          Sends-trans tuned ported _
            (Sends-if port_differs tuned _ _
              (Sends-trans tuned closed _
                (Sends-if was_up tuned _ _ (shut_down-Sends do_apply c idx tuned)
                  (Sends-same tuned tuned refl))
                (apply_port-Sends host do_apply c idx closed))
              (Sends-same tuned tuned refl))
            (Sends-if differs ported _ _
              (Sends-trans ported set_s _
                (Sends-if do_apply ported _ _ (set_state-Sends c idx ported)
                  (Sends-same ported ported refl))
                (note-Sends _ set_s))
              (note-Sends _ ported)))

    pub update-Sends :
        (do_apply : Bool) (c : Link) (idx : ℕ) (iface : Iface) (s : Session K)
        → Sends s (update host str sysctl do_apply c idx iface s)
    unfolding update
    update-Sends do_apply c idx iface s =
        Sends-if (link_changes host.upper c.cap_create iface s.settings) s _ _
          (update_changed-Sends do_apply c idx iface (port_changes host c idx s.task.run.kernel) s)
          (update_same-Sends do_apply c idx iface (port_changes host c idx s.task.run.kernel)
            (state_changes host.upper c.cap_create iface s.settings) s)
