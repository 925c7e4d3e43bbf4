-- ===== src/Collector.antt =====
-- `ExceptionCollector` of libifstate/exception.py: what went wrong on one link.
use ifstate.Prelude.{
  ℕ, String, Bool, false, Option, some, List, [], ◌∷◌, ◌++◌, ◌==◌, if◌then◌else◌, any, filter,
  text_key, number_key, option_key,
}
use ifstate.Netlink.{Answer, accepted, refused, Run, Event, warning, note}

-- The operation, the error number if the exception is of the class NetlinkError itself, and the arguments.
pub record Excpt (A : Type 0) : Type 0 where
  pub op : String
  pub code : Option ℕ
  pub args : A

pub record Collector (A : Type 0) : Type 0 where
  pub ifname : String
  pub excpts : List (Excpt A)
  pub quiet : Bool

module _ {A : Type 0} where
  unfoldable pub reset : Collector A → Collector A
  reset c = record c { excpts = []; quiet = false }

  unfoldable pub new : String → Collector A
  unfolding reset
  new ifname = reset (record { ifname = ifname; excpts = []; quiet = false })

  unfoldable pub set_quiet : Bool → Collector A → Collector A
  set_quiet quiet c = record c { quiet = quiet }

  unfoldable pub add : String → Option ℕ → A → Collector A → Collector A
  add op code args c = record c {
    excpts = c.excpts ++ record { op = op; code = code; args = args } ∷ [];
  }

  unfoldable pub has_op : String → Collector A → Bool
  has_op op c = any (λ e. e.op == op) c.excpts

  -- an exception of another class has no `code` here
  unfoldable pub has_errno : ℕ → Collector A → Bool
  has_errno errno c = any (λ e. e.code == some errno) c.excpts

  -- `get_all(cb)`
  unfoldable pub get_all : (Excpt A → Bool) → Collector A → List (Excpt A)
  get_all cb c = filter cb c.excpts

-- A run together with its collector.
pub record Task (K R A : Type 0) : Type 0 where
  pub run : Run K R (Event A)
  pub excpts : Collector A

module _ {K R A : Type 0} where
  -- `excpts.add(...)` with its line of the log
  unfoldable pub add_excpt : String → Option ℕ → A → Task K R A → Task K R A
  unfolding add note
  add_excpt op code args t = record {
    run = if t.excpts.quiet then t.run else note (warning args) t.run;
    excpts = add op code args t.excpts;
  }

  -- `try: <request> except netlinkerror: excpts.add(op, err, args)`
  unfoldable pub attempt : (R → K → Answer × K) → String → R → A → Task K R A → Task K R A
  unfolding add_excpt
  attempt send op r args t =
      let (answer, k) = send r t.run.kernel in
      let t' : Task K R A = record t {
        run = record t.run { kernel = k; sent = t.run.sent ++ r ∷ [] };
      } in
      elim answer [ accepted ↦ t' | refused code ↦ add_excpt op (some code) args t' ]
