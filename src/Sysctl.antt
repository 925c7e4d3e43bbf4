-- ===== src/Sysctl.antt =====
-- The class `Sysctl` of libifstate/sysctl/__init__.py: kernel settings in files below /proc/sys/net.
pub mod Globals
pub mod Writes
pub mod Check
mod Tests
use ifstate.Prelude.{
  String, Bool, true, false, Option, none, some, List, [], ◌∷◌, ◌++◌, Comparable, ◌==◌,
  if◌then◌else◌, text_key,
}
use ifstate.Prelude.Dict.{Dict, lookup, insert, has}
use ifstate.Netlink.{Answer, Event, log_ok, log_change, warning, Run, note, request, for_each}

-- A write of a value to the file /proc/sys/net/<family>/conf/<iface>/<key>.
pub data Request : Type 0 where
  write : String → String → String → String → Request

-- The files, in the namespace of the class: the first line of one (`none` is an `OSError`), and a write.
pub record Proc (K : Type 0) : Type 0 where
  pub read : K → String → String → String → Option String
  pub send : Request → K → Answer × K

pub record Sysctl (V : Type 0) : Type 0 where
  pub sysctls : Dict String (Dict String (Dict String V))
  pub globals : Dict String (Dict String V)

unfoldable pub truthy : Option Bool → Bool
truthy (some true) = true
truthy _ = false

module _ {V : Type 0} where
  unfoldable pub add : String → Dict String (Dict String V) → Sysctl V → Sysctl V
  add iface sysctl c = record c { sysctls = insert iface sysctl c.sysctls }

  unfoldable pub add_global : String → Dict String V → Sysctl V → Sysctl V
  add_global proto sysctl c = record c { globals = insert proto sysctl c.globals }

  unfoldable pub has_settings : String → Sysctl V → Bool
  has_settings iface c = has iface c.sysctls

  unfoldable pub has_globals : Sysctl V → Bool
  has_globals c = elim c.globals [ [] ↦ false | g ∷ gs ↦ true ]

module _ {K V : Type 0} (proc : Proc K) (str : V → String) where
  -- `set_sysctl`; `none` is Python's `None`
  unfoldable pub set_sysctl :
      String
      → String
      → String
      → V
      → Bool
      → Run K Request (Event (String × String))
      → Option Bool × Run K Request (Event (String × String))
  set_sysctl iface family key val do_apply s = elim (proc.read s.kernel family iface key) [
    | none ↦ (none, note (warning (family, key)) s)
    | some current ↦ if current == str val then (some false, note (log_ok (family, key)) s) else (
      some true,
      note (log_change (family, key))
          (request proc.send do_apply (write family iface key (str val)) (warning (family, key)) s),
    )
  ]

  abbrev pub Changes : Type 0
  Changes = Option Bool × Run K Request (Event (String × String))

  -- `changes = changes or self.set_sysctl(...)`
  unfoldable pub set_next : String → Bool → String → String × V → Changes → Changes
  unfolding truthy
  set_next iface do_apply family (key, val) (changes, s) =
      if truthy changes then (changes, s) else set_sysctl iface family key val do_apply s

  unfoldable pub set_family : String → Bool → String × Dict String V → Changes → Changes
  set_family iface do_apply (family, sysctl) st =
      for_each sysctl (set_next iface do_apply family) st

  unfoldable pub apply :
      String
      → Bool
      → Option String
      → Sysctl V
      → Run K Request (Event (String × String))
      → Run K Request (Event (String × String))
  apply iface_current do_apply iface_config c s =
      let iface : String = elim iface_config [ none ↦ iface_current | some i ↦ i ] in
      elim (lookup iface c.sysctls) [
        | none ↦ s
        | some families ↦ (for_each families (set_family iface_current do_apply) (some false, s)).1
      ]

  abbrev pub Changed : Type 0
  Changed = List String × Run K Request (Event (String × String))

  unfoldable pub set_global : Bool → String → String × V → Changed → Changed
  unfolding truthy
  set_global do_apply proto (key, val) (changes, s) =
      let (changed, s') = set_sysctl ".." proto key val do_apply s in
      (if truthy changed then changes ++ proto ∷ [] else changes, s')

  unfoldable pub set_proto : Bool → String × Dict String V → Changed → Changed
  set_proto do_apply (proto, sysctl) st = for_each sysctl (set_global do_apply proto) st

  unfoldable pub apply_globals : Bool → Sysctl V → Run K Request (Event (String × String)) → Changed
  apply_globals do_apply c s = for_each c.globals (set_proto do_apply) ([], s)
