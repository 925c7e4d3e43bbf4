-- ===== src/Links.antt =====
-- The class `Link` of libifstate/link/base.py, and how it brings a link into its configuration. A link without
-- ethtool settings is modelled; the classes of the kinds differ in `create` (libifstate/link/physical.py and
-- libifstate/link/tun.py), and the class of veth is left out.
pub mod Attr
pub mod References
pub mod Move
pub mod Parts
pub mod Create
pub mod Update
pub mod Apply
pub mod Init
pub mod Sent
pub mod Kept
pub mod Harmless
pub mod Physical
pub mod Ended
pub mod Restored
pub mod Created
pub mod Resolved
mod Tests
pub mod Dry
pub mod Check
use ifstate.Prelude.{
  ℕ, zero, suc, String, Bool, true, false, Option, none, some, List, [], ◌∷◌, ◌++◌, if◌then◌else◌,
  map, Comparable, text_key, contains,
}
use ifstate.Prelude.Dict.{Dict, lookup}
use ifstate.Value.{Value, null, text, Fields}
use ifstate.Netlink.{
  Answer, accepted, refused, Run, Event, log_ok, log_add, log_change, log_del, log_warn, log_err,
  warning, link_missing, note,
}
use ifstate.Collector.{Collector, Task, add_excpt}
use ifstate.Registry.{Item, Args}
use ifstate.BrPort as Port
use ifstate.Sysctl as Setting
use ifstate.Links.Attr.{Iface}

-- The requests, each with the namespace in which it is made: those on links and phys, the id of another
-- namespace, the file that keeps the namespace that a link is bound to, and those of the parts.
pub data Request : Type 0 where
  add : Option String → Fields → Request
  set : Option String → Option ℕ → Fields → Request
  del : Option String → Option ℕ → Request
  property_del : Option String → ℕ → String → Request
  set_netnsid : Option String → Option String → Request
  set_wiphy_netns : Option String → ℕ → Option String → Request
  write_bind : Option String → Option ℕ → String → Request
  port : Port.Request → Request
  sysctl : Setting.Request → Request

-- What `get_links` of an index ends in.
pub data Dump : Type 0 where
  found : Iface → Dump
  missing : Dump
  failed : ℕ → Dump

-- The kernel and the files, by namespace. `link_lookup` is the first index, `get_permaddr` and `get_businfo`
-- are those of IPRouteExt, and `by_altname` is `none` for an error. `mount` is the text by which a namespace
-- is known to a binding, `root_name` the name of `get_netns_root`, and `unique_name` the name at which the
-- random draws of `get_random_name` and `gen_unique_ifname` end, for a prefix and a registry. `iw_phy` is
-- iw_ifindex_phy_map of libifstate/netns/__init__.py, and `upper` is `str.upper`.
pub record Host (K : Type 0) : Type 0 where
  pub link_lookup : K → Option String → String → Option ℕ
  pub get_links : K → Option String → ℕ → Dump
  pub get_link : K → Option String → String → Option Iface
  pub by_altname : K → Option String → String → Option Iface
  pub get_permaddr : K → Option String → String → Option String
  pub get_businfo : K → Option String → String → Option String
  pub get_netnsid : K → Option String → Option String → ℕ
  pub read_bind : K → Option String → Option ℕ → Option String
  pub read_sysctl : K → String → String → String → Option String
  pub dump_port : K → ℕ → Option (String → Value)
  pub mount : Option String → String
  pub root_name : String
  pub iw_phy : ℕ → Option ℕ
  pub upper : String → String
  pub unique_name : String → List Item → K → String
  pub send : Request → K → Answer × K

-- The subclasses, by their method `create`.
pub data Class : Type 0 where
  generic physical tun : Class

-- A link after `__init__`. `bind_netns` is the attribute, if the link has it; `namespaces` are the configured
-- ones. A named `bind_netns` without configured namespaces ends the program and is not modelled.
pub record Link : Type 0 where
  pub class : Class
  pub netns : Option String
  pub name : String
  pub cap_create : Bool
  pub settings : Fields
  pub search_args : List Args
  pub bind_netns : Option (Option String)
  pub namespaces : List String
  pub brport : Option Port.BrPort

-- The state of a run over one link: its settings, index and message, the registry, and the run with its
-- collector. Lines of the log have their subject as a dictionary. `ended` is whether an exception that nothing
-- catches has ended the program.
pub record Session (K : Type 0) : Type 0 where
  pub settings : Fields
  pub idx : Option ℕ
  pub iface : Option Iface
  pub items : List Item
  pub task : Task K Request Fields
  pub ended : Bool

-- A block of a `try`: it goes on, or a request is refused with an error of netlink.
pub data Outcome (A : Type 0) : Type 0 where
  ok : A → Outcome A
  raised : ℕ → Outcome A

abbrev pub Block : Type 0 → Type 0 → Type 0
Block K A = Session K → Outcome A × Session K

infixl 5 ◌>>=◌ ◌>>◌
abbrev pub ◌>>=◌ : {K A B : Type 0} → Block K A → (A → Block K B) → Block K B
◌>>=◌ m f s = let (r, s') = m s in elim r [ ok a ↦ f a s' | raised code ↦ (raised code, s') ]

abbrev pub ◌>>◌ : {K B : Type 0} → Block K (Unit {0}) → Block K B → Block K B
m >> k = m >>= λ _. k

module _ {K : Type 0} where
  -- code that raises nothing, and a value that is read
  abbrev pub step : (Session K → Session K) → Block K (Unit {0})
  step f s = (ok tt, f s)

  abbrev pub read : {A : Type 0} → (Session K → A) → Block K A
  read f s = (ok (f s), s)

  abbrev pub skip : Block K (Unit {0})
  skip s = (ok tt, s)

  -- `try: <block> except netlinkerror: <handler>`
  unfoldable pub catch : Block K (Unit {0}) → (ℕ → Session K → Session K) → Session K → Session K
  catch m handler s = let (r, s') = m s in elim r [ ok u ↦ s' | raised code ↦ handler code s' ]

  unfoldable pub send : Host K → Request → Block K (Unit {0})
  send host r s =
      let (answer, k) = host.send r s.task.run.kernel in
      let s' : Session K = record s {
        task = record s.task {
          run = record s.task.run { kernel = k; sent = s.task.run.sent ++ r ∷ [] };
        };
      } in
      elim answer [ accepted ↦ (ok tt, s') | refused code ↦ (raised code, s') ]

  unfoldable pub note_at : Event Fields → Session K → Session K
  unfolding note
  note_at ev s = record s { task = record s.task { run = note ev s.task.run } }

  unfoldable pub excpt : String → Option ℕ → Fields → Session K → Session K
  unfolding add_excpt
  excpt op code args s = record s { task = add_excpt op code args s.task }

abbrev pub subject : String → Fields
subject s = ("subject", text s) ∷ []

-- `get_bind_netns`: no attribute, the namespace, or `NetnsUnknown`
pub data Bind : Type 0 where
  unbound unknown : Bind
  bound : Option String → Bind

unfoldable pub get_bind_netns : Link → Bind
get_bind_netns c = elim c.bind_netns [
  | none ↦ unbound
  | some none ↦ bound none
  | some (some n) ↦ if contains n c.namespaces then bound (some n) else unknown
]
