-- ===== src/Neighbours.antt =====
-- `Neighbours` of libifstate/neighbour/__init__.py: the permanent neighbour entries of one interface.
mod Compare
pub mod Converge
pub mod Tests
use ifstate.Prelude.{
  ℕ, String, ◌≡◌, Bool, true, false, Option, none, some, List, [], ◌∷◌, ◌++◌, Comparable, ◌==◌,
  if◌then◌else◌, map, text_key, option_key,
}
use ifstate.Prelude.Dict.{Dict, lookup, insert, delete, from_pairs}
use ifstate.Netlink.{
  Answer, Event, log_ok, log_add, log_del, warning, link_missing, Run, note, request, for_each,
}

-- The requests, with the interface's index.
pub data Request : Type 0 where
  del : ℕ → String → Request
  replace : ℕ → String → Option String → Request

-- What pyroute2 and the module `ipaddress` give.
pub record Host (K Ip : Type 0) : Type 0 where
  pub ip_address : String → Ip
  pub ip_str : Ip → String
  pub link_lookup : K → String → Option ℕ
  pub get_neighbours : K → ℕ → List (String × Option String)
  pub send : Request → K → Answer × K

pub record Neighbours (Ip : Type 0) : Type 0 where
  pub iface : String
  pub neighbours : Dict Ip (Option String)

-- `ipr_neigh`, `neigh_add` and the log of the comparing loop
pub record Diff (K Ip : Type 0) : Type 0 where
  pub ipr_neigh : Dict Ip (Option String)
  pub neigh_add : Dict Ip (Option String)
  pub run : Run K Request (Event Ip)

module _ {K Ip : Type 0} ⦃e : Comparable Ip⦄ where
  -- the body of the comparing loop
  unfoldable pub compare_entry : Ip × Option String → Diff K Ip → Diff K Ip
  compare_entry (ip, lladdr) s =
      let differs = record s { neigh_add = insert ip lladdr s.neigh_add } in
      elim (lookup ip s.ipr_neigh) [
        | none ↦ differs
        | some current ↦
            if lladdr == current
            then record s { ipr_neigh = delete ip s.ipr_neigh; run = note (log_ok ip) s.run }
            else differs
      ]

module _ {K Ip : Type 0} ⦃e : Comparable Ip⦄ (host : Host K Ip) where
  open host use {ip_address, ip_str, link_lookup, get_neighbours, send}

  -- the pairs of `dst` and `lladdr`, by address
  unfoldable pub by_ip : List (String × Option String) → Dict Ip (Option String)
  by_ip entries = from_pairs (map (λ p. (ip_address p.0, p.1)) entries) []

  -- `__init__`
  unfoldable pub new : String → List (String × Option String) → Neighbours Ip
  unfolding by_ip
  new iface entries = record { iface = iface; neighbours = by_ip entries }

  unfoldable pub del_entry :
      Bool → ℕ → Ip × Option String → Run K Request (Event Ip) → Run K Request (Event Ip)
  del_entry do_apply idx (ip, lladdr) s =
      request send do_apply (del idx (ip_str ip)) (warning ip) (note (log_del ip) s)

  unfoldable pub add_entry :
      Bool → ℕ → Ip × Option String → Run K Request (Event Ip) → Run K Request (Event Ip)
  add_entry do_apply idx (ip, lladdr) s =
      request send do_apply (replace idx (ip_str ip) lladdr) (warning ip) (note (log_add ip) s)

  -- `apply` behind the lookup of the interface
  unfoldable pub apply_at :
      Bool → ℕ → Neighbours Ip → Run K Request (Event Ip) → Run K Request (Event Ip)
  apply_at do_apply idx n s =
      let seen : Diff K Ip = record {
        ipr_neigh = by_ip (get_neighbours s.kernel idx);
        neigh_add = [];
        run = s;
      } in
      let diff = for_each n.neighbours compare_entry seen in
      let cleaned = for_each diff.ipr_neigh (del_entry do_apply idx) diff.run in
      for_each diff.neigh_add (add_entry do_apply idx) cleaned

  unfoldable pub apply : Bool → Neighbours Ip → Run K Request (Event Ip) → Run K Request (Event Ip)
  apply do_apply n s = elim (link_lookup s.kernel n.iface) [
    | none ↦ note link_missing s
    | some idx ↦ apply_at do_apply idx n s
  ]
