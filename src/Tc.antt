-- ===== src/Tc.antt =====
-- The class `TC` of libifstate/tc/__init__.py: queueing disciplines and filters of an interface.
pub mod Handle
pub mod Tree
pub mod Filters
pub mod Apply
mod Tests
use ifstate.Prelude.{
  ℕ, String, Bool, true, false, Option, none, some, List, [], ◌∷◌, ◌++◌, ◌==◌, if◌then◌else◌,
  number_key,
}
use ifstate.Value.{Value, Fields}
use ifstate.Netlink.{Answer, accepted, refused, warning, note}
use ifstate.Collector.{Task, add_excpt}

pub record Action : Type 0 where
  pub kind : String
  pub dev : String
  pub ifindex : Option ℕ
  pub options : Fields

pub record Filter : Type 0 where
  pub index : Option ℕ
  pub prio : Option ℕ
  pub parent : Option Value
  pub actions : List Action
  pub options : Fields

-- The requests through `ipr.tc` and `ipr.del_filter_by_info`, the first number being the interface.
pub data Request : Type 0 where
  del_qdisc : ℕ → ℕ → Request
  add_ingress : ℕ → Request
  add_qdisc change_qdisc : Fields → Request
  del_filter : ℕ → ℕ → ℕ → Request
  replace_filter add_filter : Filter → Request

abbrev pub enoent : ℕ
enoent = 2

module _ {K : Type 0} (send : Request → K → Answer × K) where
  abbrev pub Tasks : Type 0
  Tasks = Task K Request Request

  -- `try: <request> except netlinkerror: logger.warning(...); excpts.add(op, err, **opts)`
  unfoldable pub attempt_warn : String → Request → Tasks → Tasks
  attempt_warn op r t =
      let (answer, k) = send r t.run.kernel in
      let t' : Tasks = record t {
        run = record t.run { kernel = k; sent = t.run.sent ++ r ∷ [] };
      } in
      elim answer [
        | accepted ↦ t'
        | refused code ↦ add_excpt op (some code) r (record t' { run = note (warning r) t'.run })
      ]

  -- `try: ipr.tc("del", ...) except NetlinkError`: ENOENT is ignored, and another error logged. The
  -- Boolean is whether the request was accepted.
  unfoldable pub del_parent : ℕ → ℕ → Tasks → Bool × Tasks
  del_parent idx parent t =
      let r = del_qdisc idx parent in
      let (answer, k) = send r t.run.kernel in
      let t' : Tasks = record t {
        run = record t.run { kernel = k; sent = t.run.sent ++ r ∷ [] };
      } in
      elim answer [
        | accepted ↦ (true, t')
        | refused code ↦
            (false, if code == enoent then t' else record t' { run = note (warning r) t'.run })
      ]
