-- ===== src/Dependency/Order.antt =====
-- The order of `LinkDependency` is a strict total order.
use ifstate.Prelude.{
  String, ◌≡◌, ◌≢◌, refl, true, false, Option, none, some, arith, str_lt_irrefl, str_lt_trans,
  str_lt_total, text_key, option_key,
}
use ifstate.Dependency.{ifname_lt, key_lt, link_lt}
use ifstate.Prelude.Sort.{IsStrictOrder}

ifname_lt_irrefl : (a : String) → ifname_lt a a ≡ false
unfolding ifname_lt
ifname_lt_irrefl a = ground (arith, text_key.same_iff a a)

ifname_lt_trans :
    (a b c : String) → ifname_lt a b ≡ true → ifname_lt b c ≡ true → ifname_lt a c ≡ true
unfolding ifname_lt
ifname_lt_trans a b c h k = ground (
  arith,
  text_key.same_iff a b,
  text_key.same_iff b c,
  text_key.same_iff a c,
  text_key.same_iff a "lo",
  text_key.same_iff b "lo",
  text_key.same_iff c "lo",
  str_lt_trans a b c,
  str_lt_irrefl a,
  str_lt_trans b a b,
)

ifname_lt_total : (a b : String) → ifname_lt a b ≡ false → ifname_lt b a ≡ false → a ≡ b
unfolding ifname_lt
ifname_lt_total a b h k = ground (
  arith,
  text_key.same_iff a b,
  text_key.same_iff b a,
  text_key.same_iff a "lo",
  text_key.same_iff b "lo",
  str_lt_total a b,
)

key_lt_irrefl : (n : Option String) (a : String) → key_lt n a n a ≡ false
unfolding key_lt
key_lt_irrefl none a = ifname_lt_irrefl a
key_lt_irrefl (some n) a = ground (arith, ifname_lt_irrefl a, str_lt_irrefl n)

key_lt_trans :
    (n m p : Option String) (a b c : String)
    → key_lt n a m b ≡ true
    → key_lt m b p c ≡ true
    → key_lt n a p c ≡ true
unfolding key_lt
key_lt_trans none none none a b c h k = ifname_lt_trans a b c h k
key_lt_trans none none (some p) a b c h k = refl
key_lt_trans none (some m) none a b c h k = cc
key_lt_trans none (some m) (some p) a b c h k = refl
key_lt_trans (some n) none p a b c h k = cc
key_lt_trans (some n) (some m) none a b c h k = cc
key_lt_trans (some n) (some m) (some p) a b c h k = ground (
  arith,
  ifname_lt_trans a b c,
  text_key.same_iff n m,
  text_key.same_iff m p,
  text_key.same_iff n p,
  str_lt_trans n m p,
  str_lt_irrefl n,
  str_lt_irrefl m,
  str_lt_trans m n m,
)

key_lt_total :
    (n m : Option String) (a b : String)
    → key_lt n a m b ≡ false
    → key_lt m b n a ≡ false
    → (n ≡ m) × (a ≡ b)
unfolding key_lt
key_lt_total none none a b h k = (refl, ifname_lt_total a b h k)
key_lt_total none (some m) a b h k = cc
key_lt_total (some n) none a b h k = cc
key_lt_total (some n) (some m) a b h k =
    ground
      (arith, ifname_lt_total a b, text_key.same_iff n m, text_key.same_iff m n, str_lt_total n m)

-- `__lt__` of links is irreflexive and transitive, and of two different links one is below the
-- other.
pub link_lt-IsStrictOrder : IsStrictOrder link_lt
unfolding link_lt
link_lt-IsStrictOrder = record {
  irrefl = λ a. key_lt_irrefl a.netns a.ifname;
  trans = λ a b c. key_lt_trans a.netns b.netns c.netns a.ifname b.ifname c.ifname;
  total = λ a b h k. let (p, q) = key_lt_total a.netns b.netns a.ifname b.ifname h k in cc;
}

-- In one namespace the loopback interface stands below every other link.
pub lo_first :
    (n : Option String) (a : String)
    → a ≢ "lo"
    → link_lt (record { ifname = "lo"; netns = n }) (record { ifname = a; netns = n }) ≡ true
unfolding link_lt key_lt ifname_lt
lo_first none a h =
    ground (arith, text_key.same_iff "lo" a, text_key.same_iff a "lo", text_key.same_iff "lo" "lo")
lo_first (some n) a h = ground (
  arith,
  text_key.same_iff "lo" a,
  text_key.same_iff a "lo",
  text_key.same_iff "lo" "lo",
  text_key.same_iff n n,
)
