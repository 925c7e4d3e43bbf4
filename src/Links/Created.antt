-- ===== src/Links/Created.antt =====
-- What is sent for a new link, by a kernel that accepts the requests.
use mathlib.Core.List.{append-nil, append_assoc}
use ifstate.Prelude.{
  ℕ, String, ◌≡◌, refl, sym, ap, ◌∙◌, true, false, Option, none, some, List, [], ◌∷◌, ◌++◌, arith,
  inl, inr, Option-cases, text_key,
}
use ifstate.Prelude.Dict.{lookup, delete}
use ifstate.Value.{Value, Fields}
use ifstate.Netlink.{accepted, log_add, note}
use ifstate.Collector.{has_op}
use ifstate.Sysctl as Setting
use ifstate.Sysctl.{Sysctl}
use ifstate.Links.{
  Host, Link, generic, Session, Request, add, set, catch, send, excpt, note_at, subject, unbound,
  get_bind_netns, Block, Outcome, ok, raised, ◌>>=◌, step,
}
use ifstate.Links.Attr.{Iface}
use ifstate.Links.Parts.{apply_sysctl, port_changes}
use ifstate.Links.Create.{
  given, add_link, register, add_here, set_or_note, set_given, set_binding, set_port, set_last,
  finish, settle, create_block, create_bound, create_link, create_as, create,
}
use ifstate.Links.Move.{prevent_altname_conflict}

-- The requests of a setting that may be missing.
abbrev pub asked : Link → ℕ → String → Option Value → List Request
asked c idx key none = []
asked c idx key (some v) = set c.netns (some idx) ((key, v) ∷ []) ∷ []

-- A kernel that accepts the requests on links, in which a new link has an index at once, and an
-- environment without other names for links.
pub record Serves {K : Type 0} (host : Host K) (c : Link) (idx : ℕ) : Type 0 where
  pub accepts : (r : Request) (k : K) → (host.send r k).0 ≡ accepted
  pub appears :
      (k : K) (settings : Fields)
      → host.link_lookup (host.send (add c.netns settings) k).1 c.netns c.name ≡ some idx
  pub no_altname : (k : K) → host.by_altname k c.netns c.name ≡ none

module _ {K : Type 0} (host : Host K) where
  set_given-sent :
      (c : Link) (idx : ℕ) (key : String) (v : Option Value) (s : Session K)
      → (set_given host c (some idx) key v s).task.run.sent ≡ s.task.run.sent ++ asked c idx key v
  unfolding set_given set_or_note catch excpt send
  set_given-sent c idx key none s = sym (append-nil s.task.run.sent)
  set_given-sent c idx key (some v) s = ground arith

  set_given-excpts :
      (c : Link) (idx : ℕ) (key : String) (v : Option Value) (s : Session K)
      → ((r : Request) (k : K) → (host.send r k).0 ≡ accepted)
      → (set_given host c (some idx) key v s).task.excpts ≡ s.task.excpts
  unfolding set_given set_or_note catch excpt send
  set_given-excpts c idx key none s accepts = refl
  set_given-excpts c idx key (some v) s accepts =
      ground (arith, accepts (set c.netns (some idx) ((key, v) ∷ [])) s.task.run.kernel)

  set_port-none :
      (c : Link) (idx : ℕ) (s : Session K) → c.brport ≡ none → set_port host true c idx s ≡ s
  unfolding set_port port_changes
  set_port-none c idx s absent = rw (absent, set_port) refl

  set_last-sent :
      (c : Link) (idx : ℕ) (state : Option Value) (s : Session K)
      → has_op "brport" s.task.excpts ≡ false
      → (set_last host c idx state s).task.run.sent ≡ s.task.run.sent ++ asked c idx "state" state
  unfolding set_last
  set_last-sent c idx state s quiet = rw quiet (set_given-sent c idx "state" state s)

  >>=-ok :
      {A B : Type 0} (m : Block K A) (f : A → Block K B) (s : Session K) (a : A) (t : Session K)
      → m s ≡ (ok a, t)
      → (m >>= f) s ≡ f a t
  >>=-ok {B} m f s a t e =
      ap
        (λ (p : Outcome _ × Session K). elim p.0 as (λ o. Outcome B × Session K) [
          | ok b ↦ f b p.1
          | raised code ↦ (raised code, p.1)
        ])
        e

  prevent-none :
      (c : Link) (s : Session K)
      → host.by_altname s.task.run.kernel c.netns c.name ≡ none
      → prevent_altname_conflict host c s ≡ s
  unfolding prevent_altname_conflict
  prevent-none c s free = rw (free, prevent_altname_conflict) refl

  -- the session after an accepted request, and after a new link
  delivered : Request → Session K → Session K
  delivered r s = record s {
    task = record s.task {
      run = record s.task.run {
        kernel = (host.send r s.task.run.kernel).1;
        sent = s.task.run.sent ++ r ∷ [];
      };
    };
  }

  send-ok :
      (r : Request) (s : Session K)
      → (host.send r s.task.run.kernel).0 ≡ accepted
      → send host r s ≡ (ok tt, delivered r s)
  unfolding send delivered
  send-ok r s taken = rw (taken, send) refl

  registered : Link → Option Iface → Session K → Session K
  registered c none s = s
  registered c (some l) s = add_link host c.netns l s

  added : Link → Fields → Session K → Session K
  added c settings s =
      let t = delivered (add c.netns settings) s in
      registered c (host.get_link t.task.run.kernel c.netns c.name) t

  registered-run : (c : Link) (l : Option Iface) (s : Session K) → (registered c l s).task ≡ s.task
  unfolding registered add_link
  registered-run c none s = refl
  registered-run c (some l) s = refl

  added-task :
      (c : Link) (settings : Fields) (s : Session K)
      → (added c settings s).task ≡ (delivered (add c.netns settings) s).task
  unfolding added
  added-task c settings s = registered-run c _ (delivered (add c.netns settings) s)

  added-kernel :
      (c : Link) (settings : Fields) (s : Session K)
      → (added c settings s).task.run.kernel
        ≡ (host.send (add c.netns settings) s.task.run.kernel).1
  unfolding delivered
  added-kernel c settings s = ap (λ t. t.run.kernel) (added-task c settings s)

  added-sent :
      (c : Link) (settings : Fields) (s : Session K)
      → (added c settings s).task.run.sent ≡ s.task.run.sent ++ add c.netns settings ∷ []
  unfolding delivered
  added-sent c settings s = ap (λ t. t.run.sent) (added-task c settings s)

  added-excpts :
      (c : Link) (settings : Fields) (s : Session K)
      → (added c settings s).task.excpts ≡ s.task.excpts
  unfolding delivered
  added-excpts c settings s = ap (λ t. t.excpts) (added-task c settings s)

  register-ok :
      (c : Link) (s : Session K)
      → register host c s ≡ (ok tt, registered c (host.get_link s.task.run.kernel c.netns c.name) s)
  unfolding register registered
  register-ok c s = elim (Option-cases (host.get_link s.task.run.kernel c.netns c.name)) [
    | inl unseen ↦ rw (unseen, register, registered) refl
    | inr (link, seen) ↦ rw (seen, register, registered) refl
  ]

  add_here-ok :
      (c : Link) (settings : Fields) (s : Session K)
      → (host.send (add c.netns settings) s.task.run.kernel).0 ≡ accepted
      → add_here host c settings s ≡ (ok tt, added c settings s)
  unfolding add_here added
  add_here-ok c settings s taken =
      let t = delivered (add c.netns settings) s in
      >>=-ok (send host (add c.netns settings)) (λ u. register host c) s tt t
        (send-ok (add c.netns settings) s taken)
      ∙ register-ok c t

  module _ {V : Type 0} (str : V → String) (sysctl : Sysctl V) (c : Link) (idx : ℕ)
      (serves : Serves host c idx) (class' : c.class ≡ generic) (free : c.bind_netns ≡ none)
      (no_port : c.brport ≡ none) (no_sysctl : lookup c.name sysctl.sysctls ≡ none) where
    tuned : Session K → Session K
    tuned s = apply_sysctl host str sysctl c.name true none s

    tuned-sent : (s : Session K) → (tuned s).task.run.sent ≡ s.task.run.sent
    unfolding tuned apply_sysctl Setting.apply
    tuned-sent s = rw (no_sysctl, Setting.apply) (append-nil s.task.run.sent)

    tuned-excpts : (s : Session K) → (tuned s).task.excpts ≡ s.task.excpts
    unfolding tuned apply_sysctl
    tuned-excpts s = refl

    finish-sent :
        (master state : Option Value) (s : Session K)
        → has_op "brport" s.task.excpts ≡ false
        → (finish host str sysctl true c unbound master state idx s).task.run.sent
          ≡ s.task.run.sent ++ (asked c idx "master" master ++ asked c idx "state" state)
    unfolding finish tuned set_binding
    finish-sent master state s quiet =
        let joined = set_given host c (some idx) "master" master (tuned s) in
        let quiet' : has_op "brport" joined.task.excpts ≡ false =
          ap (has_op "brport")
            (set_given-excpts c idx "master" master (tuned s) serves.accepts ∙ tuned-excpts s)
          ∙ quiet in
        ap (λ t. (set_last host c idx state t).task.run.sent) (set_port-none c idx joined no_port)
        ∙ set_last-sent c idx state joined quiet'
        ∙ ap (λ l. l ++ asked c idx "state" state)
            (set_given-sent c idx "master" master (tuned s)
              ∙ ap (λ l. l ++ asked c idx "master" master) (tuned-sent s))
        ∙ append_assoc s.task.run.sent (asked c idx "master" master) (asked c idx "state" state)

    settle-sent :
        (master state : Option Value) (s : Session K)
        → host.link_lookup s.task.run.kernel c.netns c.name ≡ some idx
        → has_op "brport" s.task.excpts ≡ false
        → (settle host str sysctl true c unbound master state s).task.run.sent
          ≡ s.task.run.sent ++ (asked c idx "master" master ++ asked c idx "state" state)
    unfolding settle
    settle-sent master state s there quiet =
        rw (there, settle)
          (finish-sent master state
            (record s { idx = host.link_lookup s.task.run.kernel c.netns c.name }) quiet)

    block-sent :
        (settings : Fields) (s : Session K)
        → has_op "brport" s.task.excpts ≡ false
        → (create_block host str sysctl true c unbound settings s).0 ≡ ok tt
          × ((create_block host str sysctl true c unbound settings s).1.task.run.sent
              ≡ s.task.run.sent
                ++ (add c.netns (delete "state" (delete "master" settings))
                      ∷ asked c idx "master" (given "master" settings)
                    ++ asked c idx "state" (given "state" settings)))
    unfolding create_block
    block-sent settings s quiet =
        let sent = delete "state" (delete "master" settings) in
        let t = added c sent s in
        let master = given "master" settings in
        let state = given "state" settings in
        let rest : Block K (Unit {0}) = step (settle host str sysctl true c unbound master state) in
        let e =
          >>=-ok (add_here host c sent) (λ u. rest) (prevent_altname_conflict host c s) tt t
            (ap (add_here host c sent) (prevent-none c s (serves.no_altname s.task.run.kernel))
              ∙ add_here-ok c sent s (serves.accepts (add c.netns sent) s.task.run.kernel)) in
        (
          ap (λ p. p.0) e,
          ap (λ p. p.1.task.run.sent) e
              ∙ settle-sent master state t
                  (ap (λ k. host.link_lookup k c.netns c.name) (added-kernel c sent s)
                    ∙ serves.appears s.task.run.kernel sent)
                  (ap (has_op "brport") (added-excpts c sent s) ∙ quiet)
              ∙ ap (λ l. l ++ (asked c idx "master" master ++ asked c idx "state" state))
                  (added-sent c sent s)
              ∙ append_assoc s.task.run.sent (add c.netns sent ∷ [])
                  (asked c idx "master" master ++ asked c idx "state" state),
        )

    unbound' : get_bind_netns c ≡ unbound
    unfolding get_bind_netns
    unbound' = rw (free, get_bind_netns) refl

    catch-ok :
        (m : Block K (Unit {0})) (handler : ℕ → Session K → Session K) (s : Session K)
        → (m s).0 ≡ ok tt
        → catch m handler s ≡ (m s).1
    unfolding catch
    catch-ok m handler s fine = rw (fine, catch) refl

    -- If the kernel accepts the requests, no other link has the name of the link as an alternative
    -- name, and the new link has an index, the creation of a link that has no binding, no bridge
    -- port and no sysctl settings, and of a class without a create of its own, sends the settings
    -- without the master and the state, and then the master and then the state, where they are
    -- given.
    pub create-sent :
        (oper : String) (s : Session K)
        → has_op "brport" s.task.excpts ≡ false
        → (create host str sysctl true c oper s).task.run.sent
          ≡ s.task.run.sent
            ++ (add c.netns (delete "state" (delete "master" s.settings))
                  ∷ asked c idx "master" (given "master" s.settings)
                ++ asked c idx "state" (given "state" s.settings))
    unfolding create create_as create_link create_bound note_at note
    create-sent oper s quiet =
        let noted = note_at (log_add (subject oper)) s in
        let (fine, sent) = block-sent s.settings noted quiet in
        ap (λ k. (create_as host str sysctl k true c oper s).task.run.sent) class'
        ∙ ap (λ b. (create_bound host str sysctl true c oper b noted).task.run.sent) unbound'
        ∙ ap (λ t. t.task.run.sent)
            (catch-ok (create_block host str sysctl true c unbound s.settings)
              (λ code t. excpt "add" (some code) t.settings t) noted fine)
        ∙ sent
