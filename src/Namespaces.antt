-- ===== src/Namespaces.antt =====
-- `prepare_netns` of libifstate/netns/__init__.py: the network namespaces before a run.
pub mod Names
mod Tests
use ifstate.Prelude.{
  ℕ, String, Bool, true, false, not, ◌&&◌, ◌||◌, Option, none, some, List, [], ◌∷◌, ◌++◌,
  Comparable, text_key, if◌then◌else◌, contains, union, str_lt,
}
use ifstate.Prelude.Dict.{Dict, has}
use ifstate.Prelude.Sort.{sorted}
use ifstate.Netlink.{Event, log_add, log_del, log_ok, warning, for_each}

-- The functions of pyroute2.netns; an error of `remove` ends the program.
pub record Host (K : Type 0) : Type 0 where
  pub ns_pids : K → Dict String (List ℕ)
  pub listnetns : K → List String
  pub remove : String → K → K

pub record Prepared (K : Type 0) : Type 0 where
  pub kernel : K
  pub log : List (Event String)

module _ {K : Type 0} (host : Host K) where
  open host use {ns_pids, listnetns, remove}

  -- the body of the loop over the names
  unfoldable pub prepare_one :
      Bool
      → List String
      → List String
      → List String
      → Dict String (List ℕ)
      → String
      → Prepared K
      → Prepared K
  prepare_one do_apply target current new pids name s =
      if not (contains name target)
      then record {
        kernel = if do_apply then remove name s.kernel else s.kernel;
        log = (if has name pids then s.log ++ warning name ∷ [] else s.log) ++ log_del name ∷ [];
      }
      else if not (contains name current) || contains name new
      then record s { log = s.log ++ log_add name ∷ [] }
      else record s { log = s.log ++ log_ok name ∷ [] }

  unfoldable pub prepare_netns : Bool → List String → List String → K → Prepared K
  prepare_netns do_apply target new k =
      let current = listnetns k in
      for_each (sorted str_lt (union target (union current [])))
        (prepare_one do_apply target current new (ns_pids k)) (record { kernel = k; log = [] })
