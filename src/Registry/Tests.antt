-- ===== src/Registry/Tests.antt =====
-- A registry with a bridge and a physical interface, and a link that is found by its permanent address.
use ifstate.Prelude.{
  String, ◌≡◌, refl, ◌||◌, false, none, some, List, [], ◌∷◌, any, ◌==◌, number_key, option_key,
}
use ifstate.Registry.{
  Item, Settings, search_args, search, claim, when_given, when, matches, get_link, given_is,
  netns_is,
}
use ifstate.Registry.Claims.{linked_at, linked_at-claim}

abbrev bridge : Item
bridge = record {
  kind = "bridge";
  ifname = "eth0";
  netns = none;
  businfo = none;
  permaddr = none;
  address = none;
  orphan = false;
  linked = false;
  index = some 2;
  wiphy = none;
}

abbrev nic : Item
nic = record {
  kind = "physical";
  ifname = "enp1s0";
  netns = none;
  businfo = some "0000:01:00.0";
  permaddr = some "52:54:00:00:00:01";
  address = some "52:54:00:00:00:01";
  orphan = false;
  linked = false;
  index = some 2;
  wiphy = none;
}

abbrev eth0 : Settings
eth0 = record {
  kind = "physical";
  name = "eth0";
  netns = none;
  businfo = none;
  permaddr = some "52:54:00:00:00:01";
  address = none;
}

abbrev same : String → String
same s = s

abbrev items : List Item
items = bridge ∷ nic ∷ []

found : search (search_args same same eth0) items ≡ some 1
unfolding search search_args when_given when matches get_link given_is netns_is
found = refl

linked_at-claim_example : linked_at 1 (claim (search_args same same eth0 ∷ []) items) ≡ (
    linked_at 1 items
    || any (λ args. search args items == some 1) (search_args same same eth0 ∷ []))
linked_at-claim_example = linked_at-claim (search_args same same eth0 ∷ []) items 1
