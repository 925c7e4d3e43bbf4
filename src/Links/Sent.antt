-- ===== src/Links/Sent.antt =====
-- What the parts of `apply` send, whatever the kernel answers: behind what was sent before, and neither a new
-- link nor a removal where none is created.
use mathlib.Core.List.{append-nil, append_assoc}
use ifstate.Prelude.{
  ℕ, String, ◌≡◌, refl, sym, ap, ◌∙◌, Bool, true, false, Option, none, some, List, [], ◌∷◌, ◌++◌,
  arith, map, All, All-append, inl, inr, Option-cases, if◌then◌else◌,
}
use ifstate.Value.{Value, Fields}
use ifstate.Netlink.{Event, for_each, for_each_keeps}
use ifstate.Sysctl.{Sysctl}
use ifstate.BrPort as Port
use ifstate.Sysctl as Setting
use ifstate.Links.{
  Host, Link, Session, Block, Request, add, set, del, port, sysctl, Outcome, ok, raised, ◌>>=◌,
  send, catch, note_at, excpt,
}
use ifstate.Links.Parts.{apply_sysctl, apply_port}
use ifstate.Links.Create.{set_or_note, set_given}

-- A request that neither makes nor removes a link.
abbrev pub keeps : Request → Bool
keeps (add ns d) = false
keeps (del ns i) = false
keeps _ = true

-- From one session to another only such requests are sent.
pub data Sends {K : Type 0} (s t : Session K) : Type 0 where
  sends :
      (l : List Request)
      → t.task.run.sent ≡ s.task.run.sent ++ l
      → All (λ r. keeps r ≡ true) l
      → Sends s t

keeps-sysctl : (rs : List Setting.Request) → All (λ r. keeps r ≡ true) (map sysctl rs)
keeps-sysctl [] = tt
keeps-sysctl (r ∷ rs) = (refl, keeps-sysctl rs)

keeps-port : (rs : List Port.Request) → All (λ r. keeps r ≡ true) (map port rs)
keeps-port [] = tt
keeps-port (r ∷ rs) = (refl, keeps-port rs)

module _ {K : Type 0} where
  pub Sends-same : (s t : Session K) → t.task.run.sent ≡ s.task.run.sent → Sends s t
  Sends-same s t h = sends [] (h ∙ sym (append-nil s.task.run.sent)) tt

  pub Sends-trans : (s t u : Session K) → Sends s t → Sends t u → Sends s u
  Sends-trans s t u (sends l e a) (sends m f b) =
      sends (l ++ m) (f ∙ ap (λ x. x ++ m) e ∙ append_assoc s.task.run.sent l m)
        (All-append (λ r. keeps r ≡ true) l m a b)

  pub Sends-for_each :
      {A : Type 0} (body : A → Session K → Session K)
      → ((a : A) (s : Session K) → Sends s (body a s))
      → (xs : List A) (s : Session K) → Sends s (for_each xs body s)
  Sends-for_each body each xs s =
      for_each_keeps (Sends s) body (λ a t h. Sends-trans s t (body a t) h (each a t)) xs s
        (Sends-same s s refl)

  pub Sends-if :
      (b : Bool) (s t u : Session K) → Sends s t → Sends s u → Sends s (if b then t else u)
  Sends-if true s t u h k = h
  Sends-if false s t u h k = k

  pub Sends-unless :
      (b : Bool) (s t u : Session K) → b ≡ false → Sends s u → Sends s (if b then t else u)
  Sends-unless true s t u off h = absurd (ground (arith, off))
  Sends-unless false s t u off h = h

  pub catch-Sends :
      (m : Block K (Unit {0})) (handler : ℕ → Session K → Session K) (s : Session K)
      → Sends s (m s).1
      → ((code : ℕ) (t : Session K) → Sends t (handler code t))
      → Sends s (catch m handler s)
  unfolding catch
  catch-Sends m handler s first handled =
      elim (m s).0
        as (λ r. Sends s (elim r [ ok u ↦ (m s).1 | raised code ↦ handler code (m s).1 ])) [
          | ok u ↦ first
          | raised code ↦ Sends-trans s (m s).1 (handler code (m s).1) first (handled code (m s).1)
        ]

  pub excpt-Sends :
      (op : String) (code : Option ℕ) (args : Fields) (s : Session K)
      → Sends s (excpt op code args s)
  unfolding excpt
  excpt-Sends op code args s = Sends-same s (excpt op code args s) (ground arith)

  pub note-Sends : (ev : Event Fields) (s : Session K) → Sends s (note_at ev s)
  unfolding note_at
  note-Sends ev s = Sends-same s (note_at ev s) refl

  -- A block that goes on with another.
  pub >>=-Sends :
      {A B : Type 0} (m : Block K A) (f : A → Block K B) (s : Session K)
      → Sends s (m s).1
      → ((a : A) → Sends (m s).1 (f a (m s).1).1)
      → Sends s ((m >>= f) s).1
  >>=-Sends {B} m f s first next =
      elim (m s).0
        as (λ r.
          Sends s
            (elim r as (λ o. Outcome B × Session K) [
              | ok a ↦ f a (m s).1
              | raised code ↦ (raised code, (m s).1)
            ]).1) [
              | ok a ↦ Sends-trans s (m s).1 (f a (m s).1).1 first (next a)
              | raised code ↦ first
            ]

  pub send-sent :
      (host : Host K) (r : Request) (s : Session K)
      → (send host r s).1.task.run.sent ≡ s.task.run.sent ++ r ∷ []
  unfolding send
  send-sent host r s = ground arith

  pub send-Sends :
      (host : Host K) (r : Request) (s : Session K) → keeps r ≡ true → Sends s (send host r s).1
  send-Sends host r s h = sends (r ∷ []) (send-sent host r s) (h, tt)

  pub set_or_note-Sends :
      (host : Host K) (c : Link) (idx : Option ℕ) (args : Fields) (s : Session K)
      → Sends s (set_or_note host c idx args s)
  unfolding set_or_note
  set_or_note-Sends host c idx args s =
      catch-Sends (send host (set c.netns idx args)) (λ code. excpt "set" (some code) args) s
        (send-Sends host (set c.netns idx args) s refl)
        (λ code t. excpt-Sends "set" (some code) args t)

  pub set_given-Sends :
      (host : Host K) (c : Link) (idx : Option ℕ) (key : String) (v : Option Value) (s : Session K)
      → Sends s (set_given host c idx key v s)
  unfolding set_given
  set_given-Sends host c idx key none s = Sends-same s s refl
  set_given-Sends host c idx key (some v) s = set_or_note-Sends host c idx ((key, v) ∷ []) s

  pub apply_sysctl-Sends :
      {V : Type 0} (host : Host K) (str : V → String) (sysctls : Sysctl V) (iface : String)
      (do_apply : Bool) (config : Option String) (s : Session K)
      → Sends s (apply_sysctl host str sysctls iface do_apply config s)
  unfolding apply_sysctl
  apply_sysctl-Sends host str sysctls iface do_apply config s = sends _ refl (keeps-sysctl _)

  pub apply_port-Sends :
      (host : Host K) (do_apply : Bool) (c : Link) (idx : ℕ) (s : Session K)
      → Sends s (apply_port host do_apply c idx s)
  unfolding apply_port
  apply_port-Sends host do_apply c idx s = elim (Option-cases c.brport) [
    | inl absent ↦ rw (absent, apply_port) (Sends-same s s refl)
    | inr (p, found) ↦ rw (found, apply_port) (sends _ refl (keeps-port _))
  ]
