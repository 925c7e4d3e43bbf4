-- ===== src/Links/Harmless.antt =====
-- The steps of `apply` that make and remove no link.
use ifstate.Prelude.{
  ℕ, String, refl, Bool, true, false, not, Option, some, [], ◌∷◌, arith, inl, inr, Bool-cases,
  Option-cases, if◌then◌else◌, text_key, ◌==◌, ◌&&◌, option_key, number_key, none,
}
use ifstate.Prelude.Dict.{lookup}
use ifstate.Value.{Fields, Value, null, text}
use ifstate.Netlink.{log_change}
use ifstate.Registry.{Item}
use ifstate.Links.{
  Host, Link, Session, ◌>>◌, set, set_netnsid, Outcome, ok, raised, step, send, note_at, subject,
  ◌>>=◌, excpt,
}
use ifstate.Links.Attr.{append}
use ifstate.Links.References.{
  attr_idx, get_netnsid, resolve_index, resolve_peer, resolve_value, resolve_attr,
  resolve_references, netns_attr, netns_of,
}
use ifstate.Links.Move.{update_ifname, move, make_room, arrive, update_netns, change_item}
use ifstate.Links.Apply.{
  Next, go_on, returns, item_or, move_failed, end_move, move_link, rename_other, free_name,
}
use ifstate.Links.Sent.{
  Sends, Sends-same, Sends-trans, Sends-for_each, Sends-if, catch-Sends, excpt-Sends, note-Sends,
  >>=-Sends, send-Sends,
}

module _ {K : Type 0} (host : Host K) where
  get_netnsid-Sends :
      (netns peer : Option String) (s : Session K) → Sends s (get_netnsid host netns peer s).1
  unfolding get_netnsid
  get_netnsid-Sends netns peer s =
      elim (Bool-cases (host.get_netnsid s.task.run.kernel netns peer == 4294967295)) [
        | inl new ↦
            rw (new, get_netnsid)
              (catch-Sends (send host (set_netnsid netns peer)) (λ code t. t) s
                (send-Sends host (set_netnsid netns peer) s refl) (λ code t. Sends-same t t refl))
        | inr known ↦ rw (known, get_netnsid) (Sends-same s s refl)
      ]

  resolve_index-Sends :
      (attr : String) (v : Value) (netns : Option String) (s : Session K)
      → Sends s (resolve_index host attr v netns s)
  unfolding resolve_index note_at
  resolve_index-Sends attr v netns s =
      Sends-same s (resolve_index host attr v netns s) (ground arith)

  resolve_peer-Sends :
      (netns : Option String) (attr : String) (v : Value) (peer : Option String) (s : Session K)
      → Sends s (resolve_peer host netns attr v peer s)
  unfolding resolve_peer
  resolve_peer-Sends netns attr v peer s =
      let asked = (get_netnsid host netns peer s).1 in
      Sends-trans s asked _ (get_netnsid-Sends netns peer s)
        (Sends-trans asked _ _ (Sends-same asked _ refl) (resolve_index-Sends attr v peer _))

  resolve_value-Sends :
      (netns : Option String) (attr : String) (v : Value) (s : Session K)
      → Sends s (resolve_value host netns attr v s)
  unfolding resolve_value
  resolve_value-Sends netns attr null s = Sends-same s _ refl
  resolve_value-Sends netns attr v s = elim (Option-cases (lookup (netns_attr attr) s.settings)) [
    | inl here ↦ rw (here, resolve_value) (resolve_index-Sends attr v netns s)
    | inr (n, there) ↦ rw (there, resolve_value) (resolve_peer-Sends netns attr v (netns_of n) s)
  ]

  resolve_attr-Sends :
      (netns : Option String) (attr : String) (s : Session K)
      → Sends s (resolve_attr host netns attr s)
  unfolding resolve_attr
  resolve_attr-Sends netns attr s = elim (Option-cases (lookup attr s.settings)) [
    | inl unset ↦ rw (unset, resolve_attr) (Sends-same s s refl)
    | inr (v, given) ↦ rw (given, resolve_attr) (resolve_value-Sends netns attr v s)
  ]

  pub resolve-Sends :
      (netns : Option String) (s : Session K) → Sends s (resolve_references host netns s)
  unfolding resolve_references
  resolve-Sends netns s =
      Sends-for_each (resolve_attr host netns) (resolve_attr-Sends netns) attr_idx s

  update_ifname-Sends :
      (n : ℕ) (item : Item) (ifname : String) (s : Session K)
      → Sends s (update_ifname host n item ifname s).1
  unfolding update_ifname
  update_ifname-Sends n item ifname s =
      let renamed : Session K = change_item (λ i. record i { ifname = ifname }) n s in
      let down = set item.netns item.index (("state", text "down") ∷ []) in
      let named = set item.netns item.index (("ifname", text ifname) ∷ []) in
      Sends-trans s renamed _ (Sends-same s renamed refl) (
        >>=-Sends (send host down) (λ u. send host named) renamed
          (send-Sends host down renamed refl)
          (λ u. send-Sends host named (send host down renamed).1 refl))

  move-Sends :
      (item : Item) (target : Option String) (s : Session K) → Sends s (move host item target s).1
  unfolding move
  move-Sends item target s = elim (Option-cases item.wiphy) [
    | inl wired ↦ rw (wired, move) (send-Sends host _ s refl)
    | inr (phy, wireless) ↦ rw (wireless, move) (send-Sends host _ s refl)
  ]

  make_room-Sends :
      (n : ℕ) (item : Item) (target : Option String) (s : Session K)
      → Sends s (make_room host n item target s).1
  unfolding make_room
  make_room-Sends n item target s =
      elim (Option-cases (host.link_lookup s.task.run.kernel target item.ifname)) [
        | inl free ↦ rw (free, make_room) (Sends-same s s refl)
        | inr (idx, taken) ↦ rw (taken, make_room) (update_ifname-Sends n item _ s)
      ]

  update_netns-Sends :
      (n : ℕ) (item : Item) (target : Option String) (s : Session K)
      → Sends s (update_netns host n item target s).1
  unfolding update_netns
  update_netns-Sends n item target s =
      let room = (make_room host n item target s).1 in
      let moved = (move host item target room).1 in
      >>=-Sends (make_room host n item target)
        (λ u. move host item target >> step (arrive host n target)) s
        (make_room-Sends n item target s)
        (λ u.
          >>=-Sends (move host item target) (λ v. step (arrive host n target)) room
            (move-Sends item target room) (λ v. Sends-same moved _ (ground arith)))

  move_failed-Sends :
      (c : Link) (item : Item) (code : ℕ) (s : Session K) → Sends s (move_failed host c item code s)
  unfolding move_failed
  move_failed-Sends c item code s =
      let down = set item.netns item.index (("state", text "down") ∷ []) in
      let args : Fields = ("netns", elim c.netns [ none ↦ null | some n ↦ text n ]) ∷ [] in
      let noted = λ (u : Unit {0}). step (excpt "set" (some code) args) in
      catch-Sends (send host down >>= noted) (λ code' t. record t { ended = true }) s
        (>>=-Sends (send host down) noted s (send-Sends host down s refl)
          (λ u. excpt-Sends "set" (some code) args (send host down s).1))
        (λ code' t. Sends-same t _ refl)

  -- the session of a step
  abbrev pub after : Next K → Session K
  after (go_on s) = s
  after (returns s) = s

  end_move-Sends :
      (c : Link) (n : ℕ) (item : Item) (o : Outcome (Unit {0})) (s : Session K)
      → Sends s (after (end_move host c n item (o, s)))
  unfolding end_move
  end_move-Sends c n item (ok u) s = Sends-same s s refl
  end_move-Sends c n item (raised code) s = move_failed-Sends c (item_or item n s) code s

  pub move_link-Sends :
      (do_apply : Bool) (c : Link) (n : ℕ) (item : Item) (s : Session K)
      → Sends s (after (move_link host do_apply c n item s))
  unfolding move_link
  move_link-Sends do_apply c n item s =
      let noted = note_at (log_change (subject "netns")) s in
      let (o, moved) = update_netns host n item c.netns noted in
      elim (Bool-cases (item.netns == c.netns)) [
        | inl here ↦ rw here (Sends-same s s refl)
        | inr away ↦
            rw away
              (elim do_apply
                as (λ b. Sends s (
                  after (
                    if b
                    then end_move host c n item (update_netns host n item c.netns noted)
                    else go_on noted))) [
                      | true ↦ Sends-trans s noted _ (note-Sends _ s) (
                          Sends-trans noted moved _ (update_netns-Sends n item c.netns noted)
                            (end_move-Sends c n item o moved))
                      | false ↦ note-Sends _ s
                    ])
      ]

  rename_other-Sends :
      (c : Link) (other : ℕ) (s : Session K) → Sends s (rename_other host c other s)
  unfolding rename_other
  rename_other-Sends c other s =
      let down = set c.netns (some other) (("state", text "down") ∷ []) in
      let named = set c.netns (some other) (("ifname", text (append c.name "!")) ∷ []) in
      catch-Sends (send host down >> send host named) _ s
        (>>=-Sends (send host down) (λ u. send host named) s (send-Sends host down s refl)
          (λ u. send-Sends host named (send host down s).1 refl))
        (λ code t.
          excpt-Sends "set" (some code) (("state", text "down") ∷ ("ifname", text "{}!") ∷ []) t)

  pub free_name-Sends :
      (do_apply : Bool) (c : Link) (idx : ℕ) (s : Session K)
      → Sends s (free_name host do_apply c idx s)
  unfolding free_name
  free_name-Sends do_apply c idx s =
      elim (Option-cases (host.link_lookup s.task.run.kernel c.netns c.name)) [
        | inl free ↦ rw (free, free_name) (Sends-same s s refl)
        | inr (other, taken) ↦
            rw (taken, free_name)
              (Sends-if (not (other == idx) && do_apply) s _ _ (rename_other-Sends c other s)
                (Sends-same s s refl))
      ]
