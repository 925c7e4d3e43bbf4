-- ===== src/Addresses.antt =====
-- The class `Addresses` of libifstate/address/__init__.py: the addresses of an interface.
pub mod Converge
pub mod Check
mod Tests
use ifstate.Prelude.{
  ℕ, String, Bool, true, false, not, ◌&&◌, ◌||◌, Option, none, some, List, [], ◌∷◌, ◌++◌,
  Comparable, ◌==◌, if◌then◌else◌, any, contains, map,
}
use ifstate.Prelude.Dict.{Dict, keys, has, insert, delete}
use ifstate.Netlink.{
  Answer, Event, log_ok, log_change, log_del, warning, link_missing, Run, note, request, for_each,
}

-- An address message of the kernel: `ip_interface` of its address and prefix length, IFA_FLAGS, and the
-- flags of its header.
pub record Address (Ip : Type 0) : Type 0 where
  pub ip : Ip
  pub ifa_flags : Option ℕ
  pub flags : ℕ

-- The requests `addr("del", ...)` and `addr("add", ...)`, with the address and its prefix length.
pub data Request (Ip : Type 0) : Type 0 where
  del add : ℕ → Ip → Request Ip

-- The kernel, `ipaddress` and the flags of pyroute2: `same_ip a b` is `a.ip == b.ip`, `within net a` is
-- `a in net`, and a flag is tested by `flags & IFA_F_... == IFA_F_...`.
pub record Host (K Ip Net : Type 0) : Type 0 where
  pub link_lookup : K → String → Option ℕ
  pub get_addr : K → ℕ → List (Address Ip)
  pub send : Request Ip → K → Answer × K
  pub same_ip : Ip → Ip → Bool
  pub within : Net → Ip → Bool
  pub is_dadfailed : ℕ → Bool
  pub is_permanent : ℕ → Bool

pub record Addresses (Ip : Type 0) : Type 0 where
  pub iface : String
  pub addresses : List Ip

unfoldable pub new : {Ip : Type 0} → (String → Ip) → String → List String → Addresses Ip
new ip_interface iface addresses = record { iface = iface; addresses = map ip_interface addresses }

-- The variables of `apply` that its loops share.
pub record Plan (K Ip : Type 0) : Type 0 where
  pub ipr_addr : Dict Ip (Address Ip)
  pub addr_add : List Ip
  pub addr_renew : List Ip
  pub run : Run K (Request Ip) (Event Ip)

module _ {K Ip Net : Type 0} ⦃e : Comparable Ip⦄ (host : Host K Ip Net) where
  open host use {link_lookup, get_addr, send, same_ip, within, is_dadfailed, is_permanent}

  -- the loop over the kernel's addresses
  unfoldable pub collect : Address Ip → Plan K Ip → Plan K Ip
  collect addr p =
      let failed = is_dadfailed (elim addr.ifa_flags as (λ _. ℕ) [ none ↦ 0 | some f ↦ f ]) in
      record p {
        ipr_addr = insert addr.ip addr p.ipr_addr;
        addr_renew = if failed then p.addr_renew ++ addr.ip ∷ [] else p.addr_renew;
      }

  -- `for ip in ipr_addr.keys(): if addr.ip == ip.ip: addr_renew.append(ip); break`
  unfoldable pub renew_same : Ip → List Ip → List Ip → List Ip
  renew_same addr [] renew = renew
  renew_same addr (ip ∷ ips) renew =
      if same_ip addr ip then renew ++ ip ∷ [] else renew_same addr ips renew

  -- the loop over the configured addresses
  unfoldable pub compare_addr : Ip → Plan K Ip → Plan K Ip
  unfolding renew_same
  compare_addr addr p =
      if has addr p.ipr_addr && not (contains addr p.addr_renew)
      then record p { ipr_addr = delete addr p.ipr_addr; run = note (log_ok addr) p.run }
      else record p {
        addr_add = p.addr_add ++ addr ∷ [];
        addr_renew = renew_same addr (keys p.ipr_addr) p.addr_renew;
      }

  unfoldable pub del_addr :
      List Net
      → Bool
      → Bool
      → ℕ
      → List Ip
      → Ip × Address Ip
      → Run K (Request Ip) (Event Ip)
      → Run K (Request Ip) (Event Ip)
  del_addr ignore ign_dynamic do_apply idx renew (ip, addr) s =
      if (contains ip renew || not (any (λ net. within net ip) ignore))
        && (not ign_dynamic || is_permanent addr.flags)
      then request send do_apply (del idx ip) (warning ip) (note (log_del ip) s)
      else s

  unfoldable pub add_addr :
      Bool → ℕ → Ip → Run K (Request Ip) (Event Ip) → Run K (Request Ip) (Event Ip)
  add_addr do_apply idx ip s =
      request send do_apply (add idx ip) (warning ip) (note (log_change ip) s)

  -- `apply` behind the lookup of the interface
  unfoldable pub apply_at :
      List Net
      → Bool
      → Bool
      → ℕ
      → Addresses Ip
      → Run K (Request Ip) (Event Ip)
      → Run K (Request Ip) (Event Ip)
  apply_at ignore ign_dynamic do_apply idx c s =
      let empty : Plan K Ip = record { ipr_addr = []; addr_add = []; addr_renew = []; run = s } in
      let seen = for_each (get_addr s.kernel idx) collect empty in
      let plan = for_each c.addresses compare_addr seen in
      let cleaned =
        for_each plan.ipr_addr (del_addr ignore ign_dynamic do_apply idx plan.addr_renew)
          plan.run in
      for_each plan.addr_add (add_addr do_apply idx) cleaned

  unfoldable pub apply :
      List Net
      → Bool
      → Bool
      → Addresses Ip
      → Run K (Request Ip) (Event Ip)
      → Run K (Request Ip) (Event Ip)
  apply ignore ign_dynamic do_apply c s = elim (link_lookup s.kernel c.iface) [
    | none ↦ note link_missing s
    | some idx ↦ apply_at ignore ign_dynamic do_apply idx c s
  ]
