-- ===== src/Links/Init/Bound.antt =====
-- What the configuration of a link decides for `apply`.
use ifstate.Prelude.{
  ℕ, List, String, ◌≡◌, ◌≢◌, refl, sym, ap, ◌∙◌, Bool, true, false, Option, none, some, arith,
  if◌then◌else◌, text_key, contains, subst, ◌==◌,
}
use ifstate.Value.{Fields}
use ifstate.Sysctl.{Sysctl}
use ifstate.Registry.{Item, search, item_at}
use ifstate.Registry.Claims.{search-kind}
use ifstate.Links.{Host, Class, generic, physical, tun, Link, Session, unbound, get_bind_netns}
use ifstate.Links.Parts.{attr_bind_kinds}
use ifstate.Links.Apply.{apply}
use ifstate.Links.Sent.{Sends}
use ifstate.Links.Physical.{apply-Sends}
use ifstate.Links.Init.{
  Library, Config, class_of, cap_create_of, bind_of, resolve_owners, search_settings, init,
}

class_of-physical :
    (lower : String → String) (kind : String)
    → kind ≡ "physical"
    → lower "physical" ≡ "physical"
    → class_of lower kind ≡ physical
unfolding class_of
class_of-physical lower kind e same =
    rw (e, class_of)
      (ap (λ b. if b then physical else if lower "physical" == "tun" then tun else generic)
        ((text_key.same_iff (lower "physical") "physical").1 same))

cap_create-physical : (k : Class) (link : Fields) → k ≡ physical → cap_create_of k link ≡ false
unfolding cap_create_of
cap_create-physical k link e = rw (e, cap_create_of) refl

module _ (lib : Library) (c : Config) where
  -- a kind that binds has the attribute
  bind_of-some :
      (netns : Option String) (kind : String) (settings : Fields)
      → contains kind attr_bind_kinds ≡ true
      → bind_of netns kind settings ≢ none
  unfolding bind_of
  bind_of-some netns kind settings binds = ground (arith, binds)

  bound : (l : Link) → l.bind_netns ≢ none → get_bind_netns l ≢ unbound
  unfolding get_bind_netns
  bound l has = ground (arith, has)

  -- If a configured link finds an item in the registry that is of a kind that is bound to a
  -- namespace, the link has the attribute of the binding that is then read.
  pub found-bound :
      (items : List Item) (n : ℕ) (item : Item)
      → search (init lib c).search_args items ≡ some n
      → item_at n items ≡ some item
      → contains item.kind attr_bind_kinds ≡ true
      → get_bind_netns (init lib c) ≢ unbound
  unfolding init search_settings
  found-bound items n item found there binds =
      let link = resolve_owners lib (class_of lib.lower c.kind) c.link in
      let (item', there', kind) =
        search-kind lib.lower lib.format_ether_address (search_settings c link) items n found in
      let both : some item' ≡ some item = sym there' ∙ there in
      let e : item' ≡ item = cc in
      let kind' : item.kind ≡ c.kind = ap (λ (i : Item). i.kind) (sym e) ∙ kind in
      bound (init lib c)
        (bind_of-some c.netns c.kind _ (subst (λ k. contains k attr_bind_kinds ≡ true) kind' binds))

  -- If the lower case of physical is physical, an apply or a check of a link that is configured
  -- with the kind physical sends no request that makes or removes a link, whatever the other
  -- settings are and whatever the kernel answers.
  pub configured-Sends :
      {K V : Type 0} (host : Host K) (str : V → String) (sysctl : Sysctl V) (do_apply : Bool)
      (s : Session K)
      → c.kind ≡ "physical"
      → lib.lower "physical" ≡ "physical"
      → Sends s (apply host str sysctl do_apply (init lib c) s)
  unfolding init search_settings
  configured-Sends host str sysctl do_apply s kind lower =
      let class' = class_of-physical lib.lower c.kind kind lower in
      apply-Sends host str sysctl do_apply (init lib c) class' (cap_create-physical _ _ class')
        lib.lower lib.format_ether_address _ s refl kind
