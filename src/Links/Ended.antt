-- ===== src/Links/Ended.antt =====
-- When an update goes on: no exception ends the program if the dumps have the link.
use ifstate.Prelude.{
  ℕ, String, ◌≡◌, refl, ◌∙◌, Bool, true, false, Option, none, some, [], ◌∷◌, arith, inl, inr,
  Option-cases, if◌then◌else◌, text_key, contains,
}
use ifstate.Value.{Value, text, Fields}
use ifstate.Netlink.{for_each, for_each_keeps}
use ifstate.Links.{
  Host, Link, Session, Request, set, catch, send, excpt, note_at, Dump, found, missing, failed,
  Outcome, ok, raised, Block, property_del,
}
use ifstate.Links.Attr.{Iface}
use ifstate.Links.Move.{prevent_altname_conflict}
use ifstate.Links.Create.{set_or_note}
use ifstate.Links.Update.{
  default_state, shut_down, send_settings, verify, read_back, set_settings, plain_settings,
}

module _ {K : Type 0} (host : Host K) where
  -- A dump for the index has the link, or is refused.
  abbrev pub is_missing : Dump → Bool
  is_missing (found iface) = false
  is_missing missing = true
  is_missing (failed code) = false

  abbrev pub Listed : Link → ℕ → Type 0
  Listed c idx = (k : K) → is_missing (host.get_links k c.netns idx) ≡ false

  -- What goes on: no exception ends the program.
  verify-ended :
      (c : Link) (iface : Iface) (p : String × Value) (s : Session K)
      → (verify host c iface p s).ended ≡ s.ended
  unfolding verify excpt note_at
  verify-ended c iface (k, v) s = ground arith

  read_back-ended :
      (c : Link) (idx : ℕ) (s : Session K)
      → Listed c idx
      → (read_back host c idx s).1.ended ≡ s.ended
  unfolding read_back
  read_back-ended c idx s listed =
      go (host.get_links s.task.run.kernel c.netns idx) (listed s.task.run.kernel)
    where
      go :
          (d : Dump)
          → is_missing d ≡ false
          → (elim d as (λ o. Outcome (Unit {0}) × Session K) [
            | found iface ↦
                (ok tt, for_each s.settings (verify host c iface) (record s { iface = some iface }))
            | missing ↦ (ok tt, record s { iface = none; ended = true })
            | failed code ↦ (raised code, s)
          ]).1.ended
            ≡ s.ended
      go (found iface) h =
          for_each_keeps (λ (t : Session K). t.ended ≡ s.ended) (verify host c iface)
            (λ p t e. verify-ended c iface p t ∙ e) s.settings (record s { iface = some iface })
            refl
      go missing h = absurd (ground (arith, h))
      go (failed code) h = refl

  send-ended : (r : Request) (s : Session K) → (send host r s).1.ended ≡ s.ended
  unfolding send
  send-ended r s = ground arith

  catch-ended :
      (m : Block K (Unit {0})) (handler : ℕ → Session K → Session K) (s : Session K)
      → (m s).1.ended ≡ s.ended
      → ((code : ℕ) (t : Session K) → (handler code t).ended ≡ t.ended)
      → (catch m handler s).ended ≡ s.ended
  unfolding catch
  catch-ended m handler s first handled =
      elim (m s).0
        as (λ r.
          (elim r as (λ _. Session K) [ ok u ↦ (m s).1 | raised code ↦ handler code (m s).1 ]).ended
          ≡ s.ended) [ ok u ↦ first | raised code ↦ handled code (m s).1 ∙ first ]

  set_settings-ended :
      (c : Link) (idx : ℕ) (s : Session K)
      → Listed c idx
      → (set_settings host c idx s).1.ended ≡ s.ended
  unfolding set_settings
  set_settings-ended c idx s listed =
      let r = set c.netns (some idx) s.settings in
      let t = (send host r s).1 in
      elim (send host r s).0
        as (λ o.
          (elim o as (λ _. Outcome (Unit {0}) × Session K) [
            | ok u ↦ read_back host c idx t
            | raised code ↦ (raised code, t)
          ]).1.ended
          ≡ s.ended) [
            | ok u ↦ read_back-ended c idx t listed ∙ send-ended r s
            | raised code ↦ send-ended r s
          ]

  prevent-ended : (c : Link) (s : Session K) → (prevent_altname_conflict host c s).ended ≡ s.ended
  unfolding prevent_altname_conflict
  prevent-ended c s = elim (Option-cases (host.by_altname s.task.run.kernel c.netns c.name)) [
    | inl free ↦ rw (free, prevent_altname_conflict) refl
    | inr (link, taken) ↦
        rw (taken, prevent_altname_conflict)
          (ended-if (contains c.name link.altnames) _ s s.ended
            (catch-ended (send host (property_del c.netns link.index c.name)) (λ code t. t) s
              (send-ended (property_del c.netns link.index c.name) s) (λ code t. refl))
            refl)
  ]
    where
      ended-if :
          (b : Bool) (t u : Session K) (e : Bool)
          → t.ended ≡ e
          → u.ended ≡ e
          → (if b then t else u).ended ≡ e
      ended-if true t u e h h' = h
      ended-if false t u e h h' = h'

  excpt-ended :
      (op : String) (code : Option ℕ) (args : Fields) (s : Session K)
      → (excpt op code args s).ended ≡ s.ended
  unfolding excpt
  excpt-ended op code args s = refl

  pub send_settings-ended :
      (c : Link) (idx : ℕ) (renamed : Bool) (s : Session K)
      → Listed c idx
      → (send_settings host c idx renamed s).ended ≡ s.ended
  unfolding send_settings
  send_settings-ended c idx renamed s listed =
      let plain : Session K = record s { settings = plain_settings s.settings } in
      let freed = if renamed then prevent_altname_conflict host c plain else plain in
      catch-ended (set_settings host c idx) (λ code t. excpt "set" (some code) t.settings t) freed
        (set_settings-ended c idx freed listed)
        (λ code t. excpt-ended "set" (some code) t.settings t)
      ∙ elim renamed
          as (λ b. (if b then prevent_altname_conflict host c plain else plain).ended ≡ s.ended) [
            | true ↦ prevent-ended c plain
            | false ↦ refl
          ]

  default_state-ended : (s : Session K) → (default_state host s).ended ≡ s.ended
  unfolding default_state
  default_state-ended s = ground arith

  pub shut_down-ended :
      (c : Link) (idx : ℕ) (s : Session K) → (shut_down host true c idx s).ended ≡ s.ended
  unfolding shut_down default_state set_or_note
  shut_down-ended c idx s =
      let down = set c.netns (some idx) (("state", text "down") ∷ []) in
      let closed =
        catch (send host down) (λ code. excpt "set" (some code) (("state", text "down") ∷ [])) s in
      default_state-ended closed
      ∙ catch-ended (send host down) (λ code. excpt "set" (some code) (("state", text "down") ∷ []))
          s (send-ended down s)
          (λ code t. excpt-ended "set" (some code) (("state", text "down") ∷ []) t)
