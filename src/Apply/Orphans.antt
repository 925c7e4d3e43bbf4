-- ===== src/Apply/Orphans.antt =====
-- `IfState.free_registry_item` of libifstate/__init__.py and the loop of `_apply` over the registry.
pub mod Sent
use ifstate.Prelude.{
  ℕ, String, Bool, true, false, not, ◌&&◌, ◌||◌, Option, none, some, List, [], ◌∷◌, ◌++◌,
  Comparable, ◌==◌, if◌then◌else◌, text_key, number_key, option_key,
}
use ifstate.Netlink.{Answer, accepted, refused, Run, Event, warning, log_del, log_ok, note, request}

-- An item of the link registry: a link of the kernel, and whether a configured link stands behind it.
pub record Item : Type 0 where
  pub ifname : String
  pub kind : String
  pub index : ℕ
  pub netns : Option String
  pub state : String
  pub linked : Bool
  pub orphan : Bool

-- The requests by the namespace and the index of a link.
pub data LinkRequest : Type 0 where
  set_down del_link : Option String → ℕ → LinkRequest

abbrev pub enodev : ℕ
enodev = 19

-- What `_apply` has of the configuration here: whether a name is matched by the list of names to ignore,
-- and whether there is a setting `namespaces`.
pub record Cleanup : Type 0 where
  pub is_ignored : String → Bool
  pub has_namespaces : Bool

unfoldable pub is_orphan : Cleanup → Item → Bool
is_orphan c item =
    not item.linked && not (c.is_ignored item.ifname) && (c.has_namespaces || (item.netns == none))

module _ {K : Type 0} (send : LinkRequest → K → Answer × K) where
  abbrev pub LinkRun : Type 0
  LinkRun = Run K LinkRequest (Event String)

  -- the removal of a virtual link: down, and then away, in one `try`
  unfoldable pub remove_link : Item → LinkRun → LinkRun
  remove_link item s =
      let down = set_down item.netns item.index in
      let away = del_link item.netns item.index in
      let failed : ℕ → LinkRun → LinkRun =
        λ code s. if code == enodev then s else note (warning item.ifname) s in
      let (answer, k) = send down s.kernel in
      let s1 : LinkRun = record s { kernel = k; sent = s.sent ++ down ∷ [] } in
      let (answer', k') = send away k in
      let s2 : LinkRun = record s1 { kernel = k'; sent = s1.sent ++ away ∷ [] } in
      elim answer [
        | refused code ↦ failed code s1
        | accepted ↦ elim answer' [ refused code ↦ failed code s2 | accepted ↦ s2 ]
      ]

  unfoldable pub free_registry_item : Bool → Item → LinkRun → Bool × LinkRun
  unfolding remove_link
  free_registry_item do_apply item s =
      if not (item.kind == "physical")
      then (
        true,
        if do_apply
            then remove_link item (note (log_del item.ifname) s)
            else note (log_del item.ifname) s,
      )
      else if item.state == "down"
      then (false, note (log_ok item.ifname) s)
      else (
        false,
        request send do_apply (set_down item.netns item.index) (warning item.ifname)
            (note (log_del item.ifname) s),
      )

  -- The loop over the registry and the removals after it: what stays in the registry, and the run.
  unfoldable pub cleanup : Bool → Cleanup → List Item → LinkRun → List Item × LinkRun
  unfolding free_registry_item is_orphan
  cleanup do_apply c [] s = ([], s)
  cleanup do_apply c (item ∷ items) s =
      let (removed, freed) = free_registry_item do_apply item s in
      let (kept, s') = cleanup do_apply c items (if is_orphan c item then freed else s) in
      (
        if is_orphan c item
            then (if removed then kept else record item { orphan = true } ∷ kept)
            else item ∷ kept,
        s',
      )
