-- ===== src/Apply.antt =====
-- The objects of a configuration as `IfState._apply` of libifstate/__init__.py goes through them.
pub mod Iface
pub mod Orphans
pub mod Run
pub mod Check
pub mod Vrrps
pub mod Appliers
mod Tests
use ifstate.Prelude.{
  String, ◌≡◌, Bool, true, false, Comparable, text_key, Option, none, some, List, [], ◌∷◌, ◌++◌,
}
use ifstate.Prelude.Dict.{Dict, lookup, insert}
use ifstate.Value.{Vrrp, Fields}
use ifstate.Dependency.{LinkDependency}

-- What a run asks of a part of the configuration: `apply(do_apply)`, which leaves the kernel alone in a
-- check.
pub record Applier (K : Type 0) : Type 0 where
  pub apply : Bool → K → K
  pub check : (k : K) → apply false k ≡ k

-- The three arguments of a run that is triggered by a vrrp state update.
pub record Selector : Type 0 where
  pub vrrp_type : String
  pub vrrp_name : String
  pub vrrp_state : String

-- `netns.vrrp`: the links with a vrrp setting, and by type (`group` or `instance`), name and state the
-- links that are up in the state.
pub record VrrpIndex : Type 0 where
  pub links : List String
  pub types : Dict String (Dict String (Dict String (List String)))

-- A link; its applier depends on its settings, of which a vrrp run changes the state.
pub record Link (K : Type 0) : Type 0 where
  pub vrrp : Option Vrrp
  pub settings : Fields
  pub depends : List LinkDependency
  pub applier : Fields → Applier K

-- A TC object: the devices that the actions of its filters name, and its applier.
pub record TcPart (K : Type 0) : Type 0 where
  pub devs : List String
  pub applier : Applier K

-- `has_settings` and `apply` of `all` and `default`, where there are settings, and the global ones.
pub record SysctlPart (K : Type 0) : Type 0 where
  pub ifaces : Dict String (Applier K)
  pub globals : Option (Applier K)

-- A namespace with its objects by the name of the interface.
pub record Netns (K : Type 0) : Type 0 where
  pub netns : Option String
  pub links : Dict String (Link K)
  pub vrrp : VrrpIndex
  pub bpf_progs : Option (Applier K)
  pub sysctl : SysctlPart K
  pub tc : Dict String (TcPart K)
  pub xdp : Dict String (Applier K)
  pub addresses : Dict String (Applier K)
  pub fdb : Dict String (Applier K)
  pub neighbours : Dict String (Applier K)
  pub wireguard : Dict String (Applier K)
  pub tables : Option (Option Selector → Applier K)
  pub rules : Option (Option Selector → Applier K)

-- the value at a key, with the default of `dict.get`
unfoldable pub get_or : {V : Type 0} → V → String → Dict String V → V
get_or d k m = elim (lookup k m) [ none ↦ d | some v ↦ v ]

abbrev pub no_vrrp : VrrpIndex
no_vrrp = record { links = []; types = ("group", []) ∷ ("instance", []) ∷ [] }
