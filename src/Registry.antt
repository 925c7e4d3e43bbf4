-- ===== src/Registry.antt =====
-- The search of a configured link in the registry: the end of `Link.__init__` and `search_link_registry` of
-- libifstate/link/base.py, with `LinkRegistry.get_link` and `LinkRegistryItem.match` of
-- libifstate/netns/__init__.py.
pub mod Claims
mod Tests
use ifstate.Prelude.{
  ℕ, zero, suc, String, Bool, true, false, not, ◌&&◌, Option, none, some, List, [], ◌∷◌, ◌++◌,
  Comparable, ◌==◌, if◌then◌else◌, text_key, option_key, number_key,
}

-- An item: its attributes, of which `orphan` is set by a cleanup and `index` is `None` if the link was not
-- found again in another namespace, and whether a link has claimed it.
pub record Item : Type 0 where
  pub kind : String
  pub ifname : String
  pub netns : Option String
  pub businfo : Option String
  pub permaddr : Option String
  pub address : Option String
  pub orphan : Bool
  pub linked : Bool
  pub index : Option ℕ
  pub wiphy : Option ℕ

-- The keyword arguments of a search; `none` is an argument that is not given.
pub record Args : Type 0 where
  pub kind : String
  pub ifname : Option String
  pub netns : Option (Option String)
  pub businfo : Option String
  pub permaddr : Option String
  pub address : Option String
  pub orphan : Bool

-- What `Link.__init__` has of a link: the settings that it searches by.
pub record Settings : Type 0 where
  pub kind : String
  pub name : String
  pub netns : Option String
  pub businfo : Option String
  pub permaddr : Option String
  pub address : Option String

-- `self.attributes.get(attr) != value` for an argument that may be missing
unfoldable pub given_is : Option String → Option String → Bool
given_is none attribute = true
given_is (some v) attribute = attribute == some v

unfoldable pub netns_is : Option (Option String) → Option String → Bool
netns_is none netns = true
netns_is (some n) netns = netns == n

-- `match`
unfoldable pub matches : Args → Item → Bool
unfolding given_is netns_is
matches a i =
    (i.kind == a.kind)
    && given_is a.ifname (some i.ifname)
    && netns_is a.netns i.netns
    && given_is a.businfo i.businfo
    && given_is a.permaddr i.permaddr
    && given_is a.address i.address
    && (if a.orphan then i.orphan else true)

-- `get_link`, as the position of the item
unfoldable pub get_link : Args → List Item → Option ℕ
unfolding matches
get_link a [] = none
get_link a (i ∷ items) =
    let later : Option ℕ = elim (get_link a items) [ none ↦ none | some n ↦ some (suc n) ] in
    if matches a i then some 0 else later

abbrev bare : String → Args
bare kind = record {
  kind = kind;
  ifname = none;
  netns = none;
  businfo = none;
  permaddr = none;
  address = none;
  orphan = false;
}

-- `if key in self.settings: self.link_registry_search_args.append(...)`
unfoldable pub when_given : Option String → (String → Args) → List Args
when_given none args = []
when_given (some v) args = args v ∷ []

unfoldable pub when : Bool → Args → List Args
when false args = []
when true args = args ∷ []

-- `link_registry_search_args`. `lower` is `str.lower`, and `format` is format_ether_address.
unfoldable pub search_args : (String → String) → (String → String) → Settings → List Args
unfolding when_given when
search_args lower format s =
    let physical = s.kind == "physical" in
    when_given s.businfo (λ b. record (bare s.kind) { businfo = some (lower b) })
    ++ (when_given s.permaddr (λ p. record (bare s.kind) { permaddr = some (format p) })
        ++ (when_given (if physical then s.address else none)
              (λ a. record (bare s.kind) { address = some (format a); netns = some s.netns })
            ++ (record (bare s.kind) { ifname = some s.name; netns = some s.netns }
                ∷ when physical
                    (record (bare "physical") { ifname = some s.name; orphan = true }))))

-- `search_link_registry`
unfoldable pub search : List Args → List Item → Option ℕ
unfolding get_link
search [] items = none
search (a ∷ args) items = elim (get_link a items) [ none ↦ search args items | some n ↦ some n ]

-- `item.link = self`
unfoldable pub mark : ℕ → List Item → List Item
mark n [] = []
mark zero (i ∷ items) = record i { linked = true } ∷ items
mark (suc n) (i ∷ items) = i ∷ mark n items

-- a change of one item
unfoldable pub on_item : (Item → Item) → ℕ → List Item → List Item
on_item f n [] = []
on_item f zero (i ∷ items) = f i ∷ items
on_item f (suc n) (i ∷ items) = i ∷ on_item f n items

-- the item at a position
abbrev pub item_at : ℕ → List Item → Option Item
item_at n [] = none
item_at zero (i ∷ items) = some i
item_at (suc n) (i ∷ items) = item_at n items

-- the links that a configuration makes, in their order
unfoldable pub claim : List (List Args) → List Item → List Item
unfolding search mark
claim [] items = items
claim (args ∷ links) items =
    claim links (elim (search args items) [ none ↦ items | some n ↦ mark n items ])
