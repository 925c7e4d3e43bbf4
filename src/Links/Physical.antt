-- ===== src/Links/Physical.antt =====
-- A physical link is neither made nor removed by `apply`.
use ifstate.Prelude.{
  ℕ, String, ◌≡◌, refl, sym, ap, ◌∙◌, Bool, false, some, inl, inr, Option-cases, text_key, ◌&&◌,
  subst, option_key, number_key, not,
}
use ifstate.Value.{Fields}
use ifstate.Collector.{set_quiet, reset}
use ifstate.Sysctl.{Sysctl}
use ifstate.Registry.{Item, Settings, search, search_args}
use ifstate.Registry.Claims.{search-kind}
use ifstate.Links.{Host, Link, physical, Session}
use ifstate.Links.Attr.{Iface}
use ifstate.Links.Parts.{bind_needs_recreate}
use ifstate.Links.References.{resolve_references}
use ifstate.Links.Create.{create_as, create, recreate}
use ifstate.Links.Update.{update}
use ifstate.Links.Apply.{
  Next, go_on, returns, item_or, with_excpts, move_link, free_name, kind_differs, has_errors,
  bring_about, read_iface, apply_found, apply_moved, apply_item, apply,
}
use ifstate.Links.Sent.{Sends, Sends-same, Sends-trans, Sends-unless, note-Sends}
use ifstate.Links.Kept.{update-Sends}
use ifstate.Links.Harmless.{resolve-Sends, after, move_link-Sends, free_name-Sends}

module _ {K : Type 0} (host : Host K) where
  module _ {V : Type 0} (str : V → String) (sysctl : Sysctl V) (do_apply : Bool) (c : Link)
      (class' : c.class ≡ physical) (cap : c.cap_create ≡ false) where
    create-Sends :
        (oper : String) (s : Session K) → Sends s (create host str sysctl do_apply c oper s)
    unfolding create create_as
    create-Sends oper s =
        subst (λ k. Sends s (create_as host str sysctl k do_apply c oper s)) (sym class')
          (note-Sends _ s)

    bring_about-Sends :
        (idx : ℕ) (iface : Iface) (s : Session K)
        → Sends s (bring_about host str sysctl do_apply c idx iface s)
    unfolding bring_about
    bring_about-Sends idx iface s =
        let quiet = with_excpts (set_quiet c.cap_create) s in
        let updated = update host str sysctl do_apply c idx iface quiet in
        Sends-unless (c.cap_create && kind_differs host iface s) s
          (recreate host str sysctl do_apply c s) _ (ap (λ b. b && kind_differs host iface s) cap)
          (Sends-unless (c.cap_create && (has_errors updated && not updated.ended)) s
            (recreate host str sysctl do_apply c (with_excpts reset updated)) _
            (ap (λ b. b && (has_errors updated && not updated.ended)) cap)
            (Sends-trans s quiet _ (Sends-same s quiet refl)
              (update-Sends host str sysctl do_apply c idx iface quiet)))

    apply_found-Sends :
        (item : Item) (s : Session K) → Sends s (apply_found host str sysctl do_apply c item s)
    unfolding apply_found
    apply_found-Sends item s =
        let numbered : Session K = record s { idx = item.index } in
        let absent : Sends s (create host str sysctl do_apply c "add" numbered) =
          Sends-trans s numbered _ (Sends-same s numbered refl) (create-Sends "add" numbered) in
        elim (Option-cases item.index) [
          | inl lost ↦ rw (lost, apply_found) absent
          | inr (idx, known) ↦
              elim (Option-cases (read_iface host s.task.run.kernel item.netns idx)) [
                | inl gone ↦ rw (known, apply_found) (rw (gone, apply_found) absent)
                | inr (iface, there) ↦
                    let seen : Session K = record numbered { iface = some iface } in
                    let freed = free_name host do_apply c idx seen in
                    rw (known, apply_found)
                      (rw (there, apply_found)
                        (Sends-trans s seen _ (Sends-same s seen refl) (
                          Sends-trans seen freed _ (free_name-Sends host do_apply c idx seen)
                            (bring_about-Sends idx iface freed))))
              ]
        ]

    -- a physical link is not bound to a namespace
    not_bound :
        (item : Item) (k : K)
        → item.kind ≡ "physical"
        → bind_needs_recreate host c item k ≡ some false
    unfolding bind_needs_recreate
    not_bound item k kind = rw (kind, bind_needs_recreate) refl

    apply_moved-Sends :
        (settings : Fields) (n : ℕ) (item : Item) (next : Next K)
        → Sends (after host next) (apply_moved host str sysctl do_apply c settings n item next)
    unfolding apply_moved
    apply_moved-Sends settings n item (returns s) = Sends-same s s refl
    apply_moved-Sends settings n item (go_on s) =
        let done = apply_found host str sysctl do_apply c (item_or item n s) s in
        Sends-trans s done _ (apply_found-Sends (item_or item n s) s) (Sends-same done _ refl)

    apply_item-Sends :
        (settings : Fields) (n : ℕ) (item : Item) (s : Session K)
        → item.kind ≡ "physical"
        → Sends s (apply_item host str sysctl do_apply c settings n item s)
    unfolding apply_item
    apply_item-Sends settings n item s kind =
        let moved = move_link host do_apply c n item s in
        rw (not_bound item s.task.run.kernel kind, apply_item)
          (Sends-trans s (after host moved) _ (move_link-Sends host do_apply c n item s)
            (apply_moved-Sends settings n item moved))

    -- If a link is of the class of physical links, which cannot be created, and its search
    -- arguments are those of settings of the kind physical, an apply or a check of it sends no
    -- request that makes or removes a link, whatever the kernel answers.
    pub apply-Sends :
        (lower format : String → String) (given : Settings) (s : Session K)
        → c.search_args ≡ search_args lower format given
        → given.kind ≡ "physical"
        → Sends s (apply host str sysctl do_apply c s)
    unfolding apply
    apply-Sends lower format given s args kind =
        let resolved = resolve_references host c.netns s in
        let absent = create host str sysctl do_apply c "add" resolved in
        elim (Option-cases (search c.search_args resolved.items)) [
          | inl missing ↦
              rw (missing, apply)
                (Sends-trans s resolved _ (resolve-Sends host c.netns s) (
                  Sends-trans resolved absent _ (create-Sends "add" resolved)
                    (Sends-same absent _ refl)))
          | inr (n, found) ↦
              let (item, there, same) =
                search-kind lower format given resolved.items n
                  (subst (λ a. search a resolved.items ≡ some n) args found) in
              rw (found, apply)
                (rw (there, apply)
                  (Sends-trans s resolved _ (resolve-Sends host c.netns s)
                    (apply_item-Sends s.settings n item resolved (same ∙ kind))))
        ]
