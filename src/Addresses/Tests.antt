-- ===== src/Addresses/Tests.antt =====
-- A kernel that is the list of the addresses of one interface, and the class on it.
use ifstate.Prelude.{
  ℕ, String, ◌≡◌, refl, Bool, true, false, not, none, some, List, [], ◌∷◌, arith, contains,
  contains-filter, filter, map, if◌then◌else◌, ◌==◌, text_key,
}
use ifstate.Netlink.{Answer, accepted, start}
use ifstate.Addresses.{Request, del, add, Host, Addresses, apply}
use ifstate.Addresses.Converge.{IsServed, apply-present, apply-orphan}

abbrev serve : Request String → List String → Answer × List String
serve (del i a) k = (accepted, filter (λ x. not (a == x)) k)
serve (add i a) k = (accepted, a ∷ k)

abbrev host : Host (List String) String String
host = record {
  link_lookup = λ k name. if name == "eth0" then some 2 else none;
  get_addr = λ k i. map (λ a. record { ip = a; ifa_flags = none; flags = 128 }) k;
  send = serve;
  same_ip = λ a b. a == b;
  within = λ net a. net == a;
  is_dadfailed = λ f. false;
  is_permanent = λ f. true;
}

abbrev table : List String → ℕ → String → Bool
table k i j = contains j k

listed :
    (k : List String) (j : String) → contains j (map (λ a. a.ip) (host.get_addr k 2)) ≡ contains j k
listed [] j = refl
listed (a ∷ k) j = ground (arith, listed k j)

host-IsServed : IsServed host table
host-IsServed = record {
  dump = λ k i j. listed k j;
  del_effect = λ k i a j. ground (arith, contains-filter (λ x. not (a == x)) j k);
  add_effect = λ k i a j. refl;
}

abbrev config : Addresses String
config = record { iface = "eth0"; addresses = "10.0.0.1/8" ∷ [] }

abbrev other_address : List String
other_address = "10.0.0.2/8" ∷ []

apply-present_example :
    table (apply host [] true true config (start other_address)).kernel 2 "10.0.0.1/8" ≡ true
apply-present_example =
    apply-present host table host-IsServed [] true 2 config (start other_address) "10.0.0.1/8" refl
      refl

apply-orphan_example :
    table (apply host [] false true config (start other_address)).kernel 2 "10.0.0.2/8" ≡ false
apply-orphan_example =
    apply-orphan host table host-IsServed [] 2 config (start other_address) "10.0.0.2/8" refl refl
      refl
