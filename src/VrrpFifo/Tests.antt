-- ===== src/VrrpFifo/Tests.antt =====
-- A reader that is told of two states, with a turn of the worker and a new configuration between them.
use ifstate.Prelude.{
  ℕ, suc, String, Option, ◌≡◌, refl, sym, subst, true, false, none, some, [], text_key, pair_key,
  number_key,
}
use ifstate.Prelude.Dict.{lookup, insert, from_pairs}
use ifstate.Stages.{resolve, rounds, as_sets}
use ifstate.Netlink.{Answer, accepted, for_each}
use ifstate.Apply.{Netns, Selector, no_vrrp}
use ifstate.Apply.Orphans.{LinkRequest}
use ifstate.Apply.Run.{IfState, apply, apply_with}
use ifstate.VrrpFifo.{
  Key, Process, System, new, update, reconfigure, work, reported, reconfigured, worked, Steps, stop,
  more, spawn, ensure, vrrp_update, respawn, take, run_state,
}
use ifstate.VrrpFifo.Frames.{Runs}
use ifstate.VrrpFifo.Reached.{Steps-Serves}
use ifstate.VrrpFifo.Alive.{Steps-alive}

abbrev serve : LinkRequest → ℕ → Answer × ℕ
serve r k = (accepted, suc k)

abbrev empty : Netns ℕ
empty = record {
  netns = none;
  links = [];
  vrrp = no_vrrp;
  bpf_progs = none;
  sysctl = record { ifaces = []; globals = none };
  tc = [];
  xdp = [];
  addresses = [];
  fdb = [];
  neighbours = [];
  wireguard = [];
  tables = none;
  rules = none;
}

abbrev config : IfState ℕ
config = record {
  root_netns = empty;
  namespaces = none;
  registry = [];
  is_ignored = λ name. false;
  prepare = record { apply = λ do_apply k. k; check = λ k. refl };
}

abbrev vi1 : Key
vi1 = ("instance", "vi1")

abbrev lower : String → String
lower s = s

-- no exceptions
abbrev no_crash : Selector → IfState ℕ → ℕ → Option ℕ
no_crash by i k = none

abbrev told : System ℕ
told = update vi1 "master" (new config 0)

abbrev reached : System ℕ
reached = update vi1 "backup" (reconfigure config (work serve lower no_crash (vi1, 0) told))

abbrev path : Steps serve lower no_crash (new config 0) reached
path = more (reported vi1 "master" (new config 0)) (
    more (worked (vi1, 0) told) (
      more (reconfigured config (work serve lower no_crash (vi1, 0) told)) (
        more (reported vi1 "backup" (reconfigure config (work serve lower no_crash (vi1, 0) told)))
          (stop reached))))

reached_state : lookup vi1 reached.states ≡ some "backup"
unfolding new update reconfigure work spawn ensure vrrp_update respawn take run_state lookup insert
    for_each
reached_state = refl

Steps-Serves_example :
    (pid : ℕ) × (p : Process ℕ) × (lookup vi1 reached.processes ≡ some pid)
    × (lookup (vi1, pid) reached.workers ≡ some p)
    × Runs reached.ifstate vi1 "backup" p
Steps-Serves_example =
    Steps-Serves serve lower no_crash config 0 reached vi1 "backup" path reached_state

-- The configuration is that one.
abbrev Same : IfState ℕ → Type 0
Same i = i ≡ config

config_quiet :
    (by : Selector) (i : IfState ℕ) (k : ℕ)
    → Same i
    → (run_state serve lower no_crash by i k).0 ≡ false
unfolding run_state apply apply_with resolve rounds as_sets for_each from_pairs
config_quiet by i k same =
    subst (λ (x : IfState ℕ). (run_state serve lower no_crash by x k).0 ≡ false) (sym same) refl

Steps-alive_example :
    (pid : ℕ) × (p : Process ℕ) × (lookup vi1 reached.processes ≡ some pid)
    × (lookup (vi1, pid) reached.workers ≡ some p)
    × (p.alive ≡ true)
    × Runs reached.ifstate vi1 "backup" p
Steps-alive_example =
    Steps-alive Same serve lower no_crash config_quiet config 0 reached vi1 "backup" path refl
      (refl, tt) reached_state
