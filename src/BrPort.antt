-- ===== src/BrPort.antt =====
-- The class `BRPort` of libifstate/brport/__init__.py: the settings of a bridge port.
pub mod Settled
mod Tests
use ifstate.Prelude.{
  ℕ, String, Bool, true, false, not, Option, none, some, List, [], ◌∷◌, Comparable, ◌==◌,
  if◌then◌else◌, any, text_key,
}
use ifstate.Prelude.Dict.{Dict, lookup}
use ifstate.Value.{Value, text, Fields, value_key}
use ifstate.Dependency.{LinkDependency}
use ifstate.Netlink.{Answer, Event, log_change, note}
use ifstate.Collector.{Task, attempt}

-- `brport('set', index, **brport)`
pub data Request : Type 0 where
  set : ℕ → Fields → Request

-- `dump` has the attributes of the port, by the name of the setting, if the link is a port of a bridge.
pub record Host (K : Type 0) : Type 0 where
  pub dump : K → ℕ → Option (String → Value)
  pub send : Request → K → Answer × K

pub record BrPort : Type 0 where
  pub iface : String
  pub brport : Fields

-- The text is not empty.
abbrev given : String → Bool
given s = not (s == "")

-- `depends`; `none` is the AttributeError for `self.settings`, which the class does not have.
unfoldable pub depends : BrPort → Option (List LinkDependency)
depends c = elim (lookup "backup_port" c.brport) [
  | none ↦ some []
  | some v ↦ elim v [ text s ↦ (if given s then none else some []) | _ ↦ some [] ]
]

module _ {K : Type 0} (host : Host K) where
  open host use {dump, send}

  unfoldable pub has_changes : BrPort → ℕ → K → Bool
  has_changes c idx k = elim (dump k idx) [
    | none ↦ true
    | some attr ↦ any (λ p. not (attr p.0 == p.1)) c.brport
  ]

  abbrev pub PortTask : Type 0
  PortTask = Task K Request Fields

  -- `apply`; what `dump` returns is never `None` itself
  unfoldable pub apply : Bool → BrPort → ℕ → PortTask → PortTask
  apply do_apply c idx t =
      let noted : PortTask = record t { run = note (log_change c.brport) t.run } in
      if do_apply then attempt send "brport" (set idx c.brport) c.brport noted else noted

  -- the part of `Link.create` and `Link.update` that configures the port
  unfoldable pub configure : Bool → BrPort → ℕ → PortTask → PortTask
  configure do_apply c idx t = if has_changes c idx t.run.kernel then apply do_apply c idx t else t
