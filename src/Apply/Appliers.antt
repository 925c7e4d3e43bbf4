-- ===== src/Apply/Appliers.antt =====
-- The modelled classes as the parts of a run: the interface `Applier`, filled by each of them.
use ifstate.Prelude.{
  ℕ, String, ◌≡◌, refl, ap, Bool, true, false, Option, none, some, List, Comparable,
}
use ifstate.Prelude.Dict.{Dict}
use ifstate.Value.{Fields}
use ifstate.Netlink.{Answer, start}
use ifstate.Neighbours.{Host, Neighbours, apply}
use ifstate.Neighbours.Converge.{check-kernel}
use ifstate.Addresses as Address
use ifstate.Addresses.Check as AddressCheck
use ifstate.Fdb as Bridge
use ifstate.Fdb.Apply as BridgeApply
use ifstate.Fdb.Apply.Check as BridgeCheck
use ifstate.Sysctl as Settings
use ifstate.Sysctl.Check as SettingsCheck
use ifstate.Routing.Tables as Routes
use ifstate.Routing.Tables.Dry as RoutesCheck
use ifstate.Routing.Rules.Apply as RulesApply
use ifstate.Routing.Rules.Check as RulesCheck
use ifstate.Tc.Apply as Traffic
use ifstate.WireGuard as Guard
use ifstate.WireGuard.Check as GuardCheck
use ifstate.Namespaces as Names
use ifstate.Namespaces.Names as NamesCheck
use ifstate.Registry.{Item}
use ifstate.Links as Device
use ifstate.Links.Apply as DeviceApply
use ifstate.Links.Dry as Dry
use ifstate.Links.Check as DeviceCheck
use ifstate.Apply.{Applier, Selector}

-- The arguments of a run of the routing; a plain run has no use for the last three.
unfoldable pub mode_of : Bool → Option Selector → Routes.Mode
mode_of do_apply none = record {
  do_apply = do_apply;
  by_vrrp = false;
  vrrp_type = "";
  vrrp_name = "";
  vrrp_state = "";
}
mode_of do_apply (some s) = record {
  do_apply = do_apply;
  by_vrrp = true;
  vrrp_type = s.vrrp_type;
  vrrp_name = s.vrrp_name;
  vrrp_state = s.vrrp_state;
}

pub mode_of-dry : (sel : Option Selector) → (mode_of false sel).do_apply ≡ false
unfolding mode_of
mode_of-dry none = refl
mode_of-dry (some s) = refl

module _ {K : Type 0} where
  abbrev pub neighbours_applier :
      {Ip : Type 0} ⦃e : Comparable Ip⦄ → Host K Ip → Neighbours Ip → Applier K
  neighbours_applier host n = record {
    apply = λ do_apply k. (apply host do_apply n (start k)).kernel;
    check = λ k. check-kernel host n (start k);
  }

  abbrev pub addresses_applier :
      {Ip Net : Type 0} ⦃e : Comparable Ip⦄
      → Address.Host K Ip Net
      → List Net
      → Bool
      → Address.Addresses Ip
      → Applier K
  addresses_applier host ignore ign_dynamic c = record {
    apply = λ do_apply k. (Address.apply host ignore ign_dynamic do_apply c (start k)).kernel;
    check = λ k. AddressCheck.apply-dry host ignore ign_dynamic c (start k);
  }

  abbrev pub fdb_applier : Bridge.Library → Bridge.Host K → Bridge.Fdb → Applier K
  fdb_applier lib host c = record {
    apply = λ do_apply k. (BridgeApply.apply lib host do_apply c (start k)).kernel;
    check = λ k. BridgeCheck.apply-dry lib host c (start k);
  }

  abbrev pub tc_applier : Traffic.Host K → Traffic.Tc → Applier K
  tc_applier host tc = record {
    apply = λ do_apply k. (Traffic.apply host do_apply tc (start k)).1.kernel;
    check = λ k. ap (λ (s : Traffic.TcRun K). s.kernel) (Traffic.check_unchanged host tc (start k));
  }

  -- The settings of an interface, and the global ones.
  abbrev pub sysctl_applier :
      {V : Type 0} → Settings.Proc K → (V → String) → String → Settings.Sysctl V → Applier K
  sysctl_applier proc str iface c = record {
    apply = λ do_apply k. (Settings.apply proc str iface do_apply none c (start k)).kernel;
    check = λ k. SettingsCheck.apply-dry proc str iface none c (start k);
  }

  abbrev pub globals_applier :
      {V : Type 0} → Settings.Proc K → (V → String) → Settings.Sysctl V → Applier K
  globals_applier proc str c = record {
    apply = λ do_apply k. (Settings.apply_globals proc str do_apply c (start k)).1.kernel;
    check = λ k. SettingsCheck.apply_globals-dry proc str c (start k);
  }

  abbrev pub tables_applier :
      (K → String → Option ℕ)
      → (Routes.Request → K → Answer × K)
      → (K → ℕ → List Fields)
      → List Fields
      → Dict ℕ (List Fields)
      → Option Selector
      → Applier K
  tables_applier link_lookup send dump ignores tables sel = record {
    apply = λ do_apply k.
        (Routes.apply link_lookup send dump (mode_of do_apply sel) ignores tables (start k)).kernel;
    check = λ k.
        (RoutesCheck.check-sends_nothing link_lookup send dump (mode_of false sel) (mode_of-dry sel)
          ignores tables (start k)).0;
  }

  abbrev pub rules_applier :
      (RulesApply.Request → K → Answer × K)
      → (K → List Fields)
      → List Fields
      → List Fields
      → Option Selector
      → Applier K
  rules_applier send dump ignores rules sel = record {
    apply = λ do_apply k.
        (RulesApply.apply send dump (mode_of do_apply sel) ignores rules (start k)).kernel;
    check = λ k.
        RulesCheck.apply-dry send dump (mode_of false sel) (mode_of-dry sel) ignores rules
          (start k);
  }

  abbrev pub wireguard_applier :
      {V Net : Type 0} ⦃v : Comparable V⦄ ⦃n : Comparable Net⦄
      → Guard.Host K V Net
      → Guard.WireGuard V Net
      → Applier K
  wireguard_applier host c = record {
    apply = λ do_apply k. (Guard.apply host do_apply c (start k)).kernel;
    check = λ k. GuardCheck.apply-dry host c (start k);
  }

  module _ {V : Type 0} (host : Device.Host K) (str : V → String) (sysctl : Settings.Sysctl V)
      (c : Device.Link) (items : List Item) where
    -- the kernel after `apply` of a link with these settings
    pub apply_device : Fields → Bool → K → K
    unfolding DeviceApply.begin
    apply_device settings do_apply k = Dry.kernel_of (
        DeviceApply.apply host str sysctl do_apply c
          (DeviceApply.begin (record c { settings = settings }) items k))

    pub apply_device-dry :
        (settings : Fields) (k : K) → Dry.Known host c.netns k → apply_device settings false k ≡ k
    unfolding apply_device DeviceApply.begin
    apply_device-dry settings k known =
        DeviceCheck.apply-dry host str sysctl c
          (DeviceApply.begin (record c { settings = settings }) items k) known

    -- A link with the registry that it finds; a check of it asks for no new id of a namespace if
    -- each has one.
    abbrev pub link_applier : ((k : K) → Dry.Known host c.netns k) → Fields → Applier K
    link_applier known settings = record {
      apply = apply_device settings;
      check = λ k. apply_device-dry settings k (known k);
    }

  -- `prepare_netns` as the preparation of a run.
  abbrev pub prepare_applier : Names.Host K → List String → List String → Applier K
  prepare_applier host target new = record {
    apply = λ do_apply k. (Names.prepare_netns host do_apply target new k).kernel;
    check = λ k. NamesCheck.prepare-dry host target new k;
  }
