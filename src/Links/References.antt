-- ===== src/Links/References.antt =====
-- References of a link to other links: `depends`, the search for the indexes at the start of `apply`, and
-- `NetNameSpace.get_netnsid` of libifstate/netns/__init__.py.
use ifstate.Prelude.{
  ℕ, String, Option, none, some, List, [], ◌∷◌, ◌++◌, ◌==◌, if◌then◌else◌, text_key, number_key,
}
use ifstate.Prelude.Dict.{lookup, insert, delete}
use ifstate.Value.{Value, null, num, text, Fields}
use ifstate.Dependency.{LinkDependency}
use ifstate.Netlink.{for_each, warning}
use ifstate.BrPort as Port
use ifstate.Links.{Host, Link, Session, send, catch, note_at, subject, set_netnsid}
use ifstate.Links.Attr.{append}

abbrev pub attr_idx : List String
attr_idx = "link" ∷ "master" ∷ "gre_link" ∷ "ip6gre_link" ∷ "vxlan_link" ∷ "xfrm_link" ∷ []

-- `"{}_netns".format(attr)` and `"{}_netnsid".format(attr)`
unfoldable pub netns_attr : String → String
unfolding append
netns_attr attr = append attr "_netns"

unfoldable pub netnsid_attr : String → String
unfolding append
netnsid_attr attr = append attr "_netnsid"

-- A namespace as a setting: its name, or `None` for the root namespace.
unfoldable pub netns_of : Value → Option String
netns_of (text n) = some n
netns_of _ = none

-- The name of a link as a setting.
unfoldable pub name_of : Value → String
name_of (text n) = n
name_of _ = ""

-- the body of the loop of `depends`
unfoldable pub reference : Option String → Fields → String → List LinkDependency
unfolding netns_attr netns_of name_of
reference netns settings attr = elim (lookup attr settings) [
  | none ↦ []
  | some null ↦ []
  | some v ↦
      record {
        ifname = name_of v;
        netns = elim (lookup (netns_attr attr) settings) [ none ↦ netns | some n ↦ netns_of n ];
      }
      ∷ []
]

unfoldable pub references : Option String → Fields → List String → List LinkDependency
unfolding reference
references netns settings [] = []
references netns settings (attr ∷ attrs) =
    reference netns settings attr ++ references netns settings attrs

-- `depends`; `none` if that of the bridge port ends the program
unfoldable pub depends : Link → Option (List LinkDependency)
unfolding references
depends c =
    let deps = references c.netns c.settings attr_idx in
    elim c.brport [
      | none ↦ some deps
      | some p ↦ elim (Port.depends p) [ none ↦ none | some more ↦ some (deps ++ more) ]
    ]

module _ {K : Type 0} (host : Host K) where
  -- `get_netnsid`: an id is asked for if the kernel has none. A refusal ends the program; the state is kept.
  unfoldable pub get_netnsid : Option String → Option String → Session K → ℕ × Session K
  unfolding send catch
  get_netnsid netns peer s =
      let nsid = host.get_netnsid s.task.run.kernel netns peer in
      let s' = catch (send host (set_netnsid netns peer)) (λ code t. t) s in
      if nsid == 4294967295 then (host.get_netnsid s'.task.run.kernel netns peer, s') else (nsid, s)

  -- `next(iter(ipr.link_lookup(ifname=...)), None)` and what is made of it
  unfoldable pub resolve_index : String → Value → Option String → Session K → Session K
  unfolding netnsid_attr name_of note_at
  resolve_index attr v netns s = elim (host.link_lookup s.task.run.kernel netns (name_of v)) [
    | some idx ↦ record s { settings = insert attr (num idx) s.settings }
    | none ↦ note_at (warning (subject attr)) (record s {
      settings = delete attr (delete (netnsid_attr attr) (insert "state" (text "down") s.settings));
    })
  ]

  -- a reference into another namespace
  unfoldable pub resolve_peer :
      Option String → String → Value → Option String → Session K → Session K
  unfolding netns_attr netnsid_attr get_netnsid resolve_index
  resolve_peer netns attr v peer s =
      let (nsid, s') = get_netnsid netns peer s in
      resolve_index attr v peer (record s' {
        settings = delete (netns_attr attr) (insert (netnsid_attr attr) (num nsid) s'.settings);
      })

  -- a reference; an unset one needs the invalid index 0
  unfoldable pub resolve_value : Option String → String → Value → Session K → Session K
  unfolding resolve_peer
  resolve_value netns attr null s = record s { settings = insert attr (num 0) s.settings }
  resolve_value netns attr v s = elim (lookup (netns_attr attr) s.settings) [
    | none ↦ resolve_index attr v netns s
    | some n ↦ resolve_peer netns attr v (netns_of n) s
  ]

  -- the body of the loop over `attr_idx`; a peer namespace that is not configured ends the program
  unfoldable pub resolve_attr : Option String → String → Session K → Session K
  unfolding resolve_value
  resolve_attr netns attr s = elim (lookup attr s.settings) [
    | none ↦ s
    | some v ↦ resolve_value netns attr v s
  ]

  unfoldable pub resolve_references : Option String → Session K → Session K
  unfolding resolve_attr
  resolve_references netns s = for_each attr_idx (resolve_attr netns) s
