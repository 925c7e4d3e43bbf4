-- ===== src/VrrpFifo.antt =====
-- ifstate/vrrp.py: the processes that apply the configuration for the states of vrrp groups and instances.
-- The workers run beside the reader of the fifo: `System` has all of them with their queues, and a `Step`
-- is an event of the reader or a turn of one worker.
pub mod Frames
pub mod Served
pub mod Reached
pub mod Alive
mod Tests
use ifstate.Prelude.{
  ℕ, suc, String, Bool, true, false, not, is_some, Option, none, some, List, [], ◌∷◌, ◌++◌,
  Comparable, text_key, pair_key, number_key, if◌then◌else◌,
}
use ifstate.Prelude.Dict.{Dict, lookup, insert}
use ifstate.Netlink.{Answer, for_each, start}
use ifstate.Apply.{Selector}
use ifstate.Apply.Orphans.{LinkRequest}
use ifstate.Apply.Run.{
  IfState, Ending, finished, circular_links, no_stages, type_error, unknown_netns, apply,
}

-- The type and the name of a group or an instance.
abbrev pub Key : Type 0
Key = String × String

-- `VrrpFifoProcess`: its queue (`none` is `None`), the states that it has taken from it, whether it runs, and
-- whether an exception has ended it.
pub record Process (K : Type 0) : Type 0 where
  pub key : Key
  pub ifstate : IfState K
  pub queue : List (Option String)
  pub taken : List String
  pub alive : Bool
  pub failed : Bool

-- `VrrpStates`, all processes that were started, and the kernel. A process is known by its key and a
-- number, and `processes` has the number.
pub record System (K : Type 0) : Type 0 where
  pub ifstate : IfState K
  pub processes : Dict Key ℕ
  pub states : Dict Key String
  pub workers : Dict (Key × ℕ) (Process K)
  pub next_pid : ℕ
  pub kernel : K

-- An ending that is an exception; a link of an unknown namespace ends the run with a `return`.
unfoldable pub is_raised : Ending → Bool
is_raised finished = false
is_raised (unknown_netns name) = false
is_raised circular_links = true
is_raised no_stages = true
is_raised type_error = true

module _ {K : Type 0} where
  -- `VrrpStates.__init__`
  unfoldable pub new : IfState K → K → System K
  new ifstate k = record {
    ifstate = ifstate;
    processes = [];
    states = [];
    workers = [];
    next_pid = 0;
    kernel = k;
  }

  -- `VrrpFifoProcess(...)` with `start`, put at its key
  unfoldable pub spawn : Key → IfState K → System K → System K
  spawn key ifstate s =
      let p : Process K = record {
        key = key;
        ifstate = ifstate;
        queue = [];
        taken = [];
        alive = true;
        failed = false;
      } in
      record s {
        processes = insert key s.next_pid s.processes;
        workers = insert (key, s.next_pid) p s.workers;
        next_pid = suc s.next_pid;
      }

  -- `self.processes[key].vrrp_update(entry)`; a missing key, which raises an exception, does not occur
  unfoldable pub vrrp_update : Key → Option String → System K → System K
  vrrp_update key entry s = elim (lookup key s.processes) [
    | none ↦ s
    | some pid ↦ elim (lookup (key, pid) s.workers) [
      | none ↦ s
      | some p ↦ record s {
        workers = insert (key, pid) (record p { queue = p.queue ++ entry ∷ [] }) s.workers;
      }
    ]
  ]

  -- `if not key in self.processes: ...`
  unfoldable pub ensure : Key → System K → System K
  ensure key s = elim (lookup key s.processes) [ none ↦ spawn key s.ifstate s | some pid ↦ s ]

  unfoldable pub update : Key → String → System K → System K
  update key state s =
      let s' = ensure key s in
      vrrp_update key (some state) (record s' { states = insert key state s'.states })

  -- the body of the loop of `reconfigure`
  unfoldable pub respawn : IfState K → Key × String → System K → System K
  respawn ifstate (key, state) s =
      vrrp_update key (some state) (spawn key ifstate (vrrp_update key none s))

  unfoldable pub reconfigure : IfState K → System K → System K
  reconfigure ifstate s = for_each s.states (respawn ifstate) (record s { ifstate = ifstate })

  -- `crash` is what other exceptions of an apply leave of the kernel, `none` if there is none.
  module _ (send : LinkRequest → K → Answer × K) (lower : String → String)
      (crash : Selector → IfState K → K → Option K) where
    -- `ifstate.apply(...)` on a copy of the configuration: whether it raises, and the kernel
    unfoldable pub run_state : Selector → IfState K → K → Bool × K
    unfolding is_raised
    run_state by ifstate k = elim (crash by ifstate k) [
      | some k' ↦ (true, k')
      | none ↦
          let done = apply send lower true (some by) ifstate (start k) in
          (is_raised done.0, done.2.kernel)
    ]

    -- what `vrrp_worker` does with what it gets: it ends at `None`, and an exception of an apply ends it
    unfoldable pub take : Process K → List (Option String) → K → Process K × K
    unfolding run_state
    take p [] k = (p, k)
    take p (none ∷ queue) k = (record p { queue = queue; alive = false }, k)
    take p (some state ∷ queue) k =
        let by : Selector = record {
          vrrp_type = p.key.0;
          vrrp_name = p.key.1;
          vrrp_state = state;
        } in
        let (raised, k') = run_state by p.ifstate k in
        (
          record p {
            queue = queue;
            taken = p.taken ++ state ∷ [];
            alive = not raised;
            failed = raised;
          },
          k',
        )

    -- a turn of a worker, if it runs
    unfoldable pub work : Key × ℕ → System K → System K
    work id s = elim (lookup id s.workers) [
      | none ↦ s
      | some p ↦
          let (p', k) = take p p.queue s.kernel in
          if p.alive then record s { workers = insert id p' s.workers; kernel = k } else s
    ]

    -- The reader and the workers in any order.
    pub data Step : System K → System K → Type 0 where
      reported : (key : Key) (state : String) (s : System K) → Step s (update key state s)
      reconfigured : (ifstate : IfState K) (s : System K) → Step s (reconfigure ifstate s)
      worked : (id : Key × ℕ) (s : System K) → Step s (work id s)

    pub data Steps : System K → System K → Type 0 where
      stop : (s : System K) → Steps s s
      more : {s t u : System K} → Step s t → Steps t u → Steps s u
