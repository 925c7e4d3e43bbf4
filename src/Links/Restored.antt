-- ===== src/Links/Restored.antt =====
-- A link that `update` shuts down is given a state again.
use mathlib.Core.List.{append_assoc}
use ifstate.Prelude.{
  ℕ, String, ◌≡◌, refl, ap, ◌∙◌, Bool, true, false, not, Option, none, some, List, [], ◌∷◌, ◌++◌,
  arith, inl, inr, Option-cases, if◌then◌else◌, text_key, ◌==◌, ◌&&◌,
}
use ifstate.Prelude.Dict.{lookup, insert, lookup-insert}
use ifstate.Value.{Value, text, Fields}
use ifstate.Netlink.{for_each, log_change}
use ifstate.Sysctl.{Sysctl}
use ifstate.Links.{Host, Link, Session, Request, set, catch, send, excpt, note_at, subject}
use ifstate.Links.Attr.{Iface, is_value, get_if_attr}
use ifstate.Links.Parts.{apply_sysctl, apply_port, port_changes}
use ifstate.Links.Create.{set_or_note, set_given}
use ifstate.Links.Update.{
  restore, default_state, shut_down, set_state, send_settings, change_settings, ifname_of,
  update_changed, update, link_changes,
}
use ifstate.Links.Sent.{
  Sends, sends, Sends-same, Sends-trans, Sends-if, apply_sysctl-Sends, apply_port-Sends,
}
use ifstate.Links.Kept.{send_settings-Sends}
use ifstate.Links.Ended.{Listed, send_settings-ended, shut_down-ended}

-- One round of `restore` keeps the state, unless it puts it back.
abbrev put : Fields → String → Fields → Fields
put all key d = elim (lookup key all) [ none ↦ d | some v ↦ insert key v d ]

put-other :
    (all : Fields) (key : String) (d : Fields)
    → (key == "state") ≡ false
    → lookup "state" (put all key d) ≡ lookup "state" d
put-other all key d other = elim (Option-cases (lookup key all)) [
  | inl gone ↦ rw (gone, put) refl
  | inr (v, given) ↦
      rw (given, put)
        (lookup-insert key "state" v d ∙ ap (λ b. if b then some v else lookup "state" d) other)
]

put-state :
    (all d : Fields) (v : Value)
    → lookup "state" all ≡ some v
    → lookup "state" (put all "state" d) ≡ some v
put-state all d v given = rw (given, put) (lookup-insert "state" "state" v d)

restore-state :
    (all d : Fields) (v : Value)
    → lookup "state" all ≡ some v
    → lookup "state" (restore all d) ≡ some v
unfolding restore for_each
restore-state all d v given =
    put-other all "permaddr" _ refl
    ∙ put-other all "businfo" _ refl
    ∙ put-other all "kind" _ refl
    ∙ put-other all "peer" _ refl
    ∙ put-state all d v given

regroup :
    (xs : List Request) (a : Request) (ys : List Request) (b : Request) (zs : List Request)
    → (((xs ++ a ∷ []) ++ ys) ++ b ∷ []) ++ zs ≡ xs ++ (a ∷ ys ++ (b ∷ zs))
regroup xs a ys b zs = simp append_assoc

-- The state that is configured, or up.
abbrev pub state_or_up : Fields → Value
state_or_up settings = elim (lookup "state" settings) [ none ↦ text "up" | some v ↦ v ]

module _ {K : Type 0} (host : Host K) where
  -- the request, whether or not it is refused
  set_or_note-sent :
      (c : Link) (idx : Option ℕ) (args : Fields) (s : Session K)
      → (set_or_note host c idx args s).task.run.sent ≡ s.task.run.sent ++ set c.netns idx args ∷ []
  unfolding set_or_note catch excpt send
  set_or_note-sent c idx args s = ground arith

  set_state-sent :
      (c : Link) (idx : ℕ) (v : Value) (s : Session K)
      → lookup "state" s.settings ≡ some v
      → (set_state host c idx s).task.run.sent
        ≡ s.task.run.sent ++ set c.netns (some idx) (("state", v) ∷ []) ∷ []
  unfolding set_state set_given
  set_state-sent c idx v s given =
      rw (given, set_given) (set_or_note-sent c (some idx) (("state", v) ∷ []) s)

  set_or_note-settings :
      (c : Link) (idx : Option ℕ) (args : Fields) (s : Session K)
      → (set_or_note host c idx args s).settings ≡ s.settings
  unfolding set_or_note catch excpt send
  set_or_note-settings c idx args s = ground arith

  default_state-state :
      (s : Session K)
      → lookup "state" (default_state host s).settings ≡ some (state_or_up s.settings)
  unfolding default_state
  default_state-state s = elim (Option-cases (lookup "state" s.settings)) [
    | inl gone ↦ rw (gone, state_or_up) (lookup-insert "state" "state" (text "up") s.settings)
    | inr (v, given) ↦ rw (given, state_or_up) given
  ]

  default_state-sent : (s : Session K) → (default_state host s).task.run.sent ≡ s.task.run.sent
  unfolding default_state
  default_state-sent s = ground arith

  -- the link is closed
  closed-state :
      (c : Link) (idx : ℕ) (s : Session K)
      → lookup "state" (shut_down host true c idx s).settings ≡ some (state_or_up s.settings)
  unfolding shut_down
  closed-state c idx s =
      let down = set_or_note host c (some idx) (("state", text "down") ∷ []) s in
      default_state-state down
      ∙ ap (λ d. some (state_or_up d))
          (set_or_note-settings c (some idx) (("state", text "down") ∷ []) s)

  closed-sent :
      (c : Link) (idx : ℕ) (s : Session K)
      → (shut_down host true c idx s).task.run.sent
        ≡ s.task.run.sent ++ set c.netns (some idx) (("state", text "down") ∷ []) ∷ []
  unfolding shut_down
  closed-sent c idx s =
      default_state-sent (set_or_note host c (some idx) (("state", text "down") ∷ []) s)
      ∙ set_or_note-sent c (some idx) (("state", text "down") ∷ []) s

  send_settings-state :
      (c : Link) (idx : ℕ) (renamed : Bool) (s : Session K) (v : Value)
      → lookup "state" s.settings ≡ some v
      → lookup "state" (send_settings host c idx renamed s).settings ≡ some v
  unfolding send_settings
  send_settings-state c idx renamed s v given = restore-state s.settings _ v given

  -- What is sent from one session to another.
  between :
      (s t : Session K) → Sends s t → (l : List Request) × (t.task.run.sent ≡ s.task.run.sent ++ l)
  between s t (sends l e a) = (l, e)

  -- The parts of `update_changed`: the logged change, and what comes of it.
  noted : Bool → Session K → Session K
  noted renamed s =
      note_at (log_change (subject "link"))
        (if renamed then note_at (log_change (subject "ifname")) s else s)

  noted-settings : (renamed : Bool) (s : Session K) → (noted renamed s).settings ≡ s.settings
  unfolding noted note_at
  noted-settings true s = refl
  noted-settings false s = refl

  noted-ended : (renamed : Bool) (s : Session K) → (noted renamed s).ended ≡ s.ended
  unfolding noted note_at
  noted-ended true s = refl
  noted-ended false s = refl

  noted-Sends : (renamed : Bool) (s : Session K) → Sends s (noted renamed s)
  unfolding noted note_at
  noted-Sends true s = Sends-same s _ refl
  noted-Sends false s = Sends-same s _ refl

  module _ {V : Type 0} (str : V → String) (sysctl : Sysctl V) (c : Link) (idx : ℕ)
      (iface : Iface) where
    tuned : Session K → Session K
    tuned s =
        apply_sysctl host str sysctl (ifname_of host iface) true (some c.name)
          (shut_down host true c idx s)

    tuned-settings : (s : Session K) → (tuned s).settings ≡ (shut_down host true c idx s).settings
    unfolding tuned apply_sysctl
    tuned-settings s = refl

    renamed : Bool
    renamed = not (is_value (get_if_attr host.upper iface "ifname") (text c.name))

    requested : Session K → Session K
    requested s = send_settings host c idx renamed (noted renamed (tuned s))

    requested-state :
        (s : Session K) → lookup "state" (requested s).settings ≡ some (state_or_up s.settings)
    unfolding requested
    requested-state s =
        send_settings-state c idx renamed (noted renamed (tuned s)) (state_or_up s.settings) (
          ap (lookup "state") (noted-settings renamed (tuned s) ∙ tuned-settings s)
          ∙ closed-state c idx s)

    requested-Sends : (s : Session K) → Sends (shut_down host true c idx s) (requested s)
    unfolding requested tuned
    requested-Sends s =
        let closed = shut_down host true c idx s in
        Sends-trans closed (tuned s) _
          (apply_sysctl-Sends host str sysctl (ifname_of host iface) true (some c.name) closed)
          (Sends-trans (tuned s) (noted renamed (tuned s)) _ (noted-Sends renamed (tuned s))
            (send_settings-Sends host c idx renamed (noted renamed (tuned s))))

    requested-ended : (s : Session K) → Listed host c idx → (requested s).ended ≡ s.ended
    unfolding requested noted note_at tuned apply_sysctl
    requested-ended s listed =
        send_settings-ended host c idx renamed (noted renamed (tuned s)) listed
        ∙ noted-ended renamed (tuned s)
        ∙ shut_down-ended host c idx s

    finished : Session K → Session K
    finished s =
        let stated = set_state host c idx (requested s) in
        if port_changes host c idx s.task.run.kernel && not stated.ended
        then apply_port host true c idx stated
        else stated

    updated :
        (s : Session K)
        → link_changes host.upper c.cap_create iface s.settings ≡ true
        → (iface.state == "down") ≡ false
        → (requested s).ended ≡ false
        → update host str sysctl true c idx iface s ≡ finished s
    unfolding update update_changed change_settings finished requested tuned noted renamed
    updated s changes up goes_on =
        let asked = requested s in
        rw changes (
          rw up (
            ap
              (λ b.
                let changed = if b then asked else set_state host c idx asked in
                if port_changes host c idx s.task.run.kernel && not changed.ended
                then apply_port host true c idx changed
                else changed)
              goes_on))

    finished-Sends : (s : Session K) → Sends (set_state host c idx (requested s)) (finished s)
    unfolding finished
    finished-Sends s =
        let stated = set_state host c idx (requested s) in
        Sends-if (port_changes host c idx s.task.run.kernel && not stated.ended) stated _ _
          (apply_port-Sends host true c idx stated) (Sends-same stated stated refl)

    -- If a link is not down and has settings other than the configured ones, no exception has ended
    -- the program before, and each dump for its index has the link or is refused, an update that
    -- applies first asks for it to be set down, and later asks for its configured state, or for up
    -- if none is configured, whichever requests the kernel refuses in between.
    pub update-restores :
        (s : Session K)
        → link_changes host.upper c.cap_create iface s.settings ≡ true
        → (iface.state == "down") ≡ false
        → s.ended ≡ false
        → Listed host c idx
        → let state = λ (v : Value). set c.netns (some idx) (("state", v) ∷ []) in
          (mid : List Request) × (rest : List Request) × ((update host str sysctl true c idx iface
              s).task.run.sent
            ≡ s.task.run.sent
              ++ (state (text "down") ∷ mid ++ (state (state_or_up s.settings) ∷ rest)))
    update-restores s changes up goes_on listed =
        let (mid, e) = between (shut_down host true c idx s) (requested s) (requested-Sends s) in
        let (rest, f) =
          between (set_state host c idx (requested s)) (finished s) (finished-Sends s) in
        let last = set c.netns (some idx) (("state", state_or_up s.settings) ∷ []) in
        let before = e ∙ ap (λ l. l ++ mid) (closed-sent c idx s) in
        let asked =
          set_state-sent c idx (state_or_up s.settings) (requested s) (requested-state s) in
        (
          mid,
          rest,
          ap (λ t. t.task.run.sent) (updated s changes up (requested-ended s listed ∙ goes_on))
              ∙ f
              ∙ ap (λ l. l ++ rest) (asked ∙ ap (λ l. l ++ last ∷ []) before)
              ∙ regroup s.task.run.sent _ mid last rest,
        )
