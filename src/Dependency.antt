-- ===== src/Dependency.antt =====
-- `LinkDependency` of libifstate/util.py: a link by its name and the network namespace that it is in,
-- with the order in which the links of one stage are configured.
pub mod Order
use ifstate.Prelude.{
  String, ◌≡◌, ◌↔◌, Bool, true, false, ◌&&◌, Option, none, some, arith, Comparable, ◌==◌,
  option_beq, option_beq_iff, str_lt, if◌then◌else◌, ap, text_key, option_key,
}

pub record LinkDependency : Type 0 where
  pub ifname : String
  pub netns : Option String

-- `__eq__`
unfoldable pub link_beq : LinkDependency → LinkDependency → Bool
link_beq a b = (a.ifname == b.ifname) && (a.netns == b.netns)

pub link_beq_iff : (a b : LinkDependency) → (link_beq a b ≡ true) ↔ (a ≡ b)
unfolding link_beq
link_beq_iff a b =
    ground (arith, text_key.same_iff a.ifname b.ifname, option_beq_iff a.netns b.netns)

instance abbrev pub link_key : Comparable LinkDependency
link_key = record { same = link_beq; same_iff = link_beq_iff }

-- the end of `__lt__`: within a namespace the loopback interface comes first
unfoldable pub ifname_lt : String → String → Bool
ifname_lt a b =
    if a == b then false else if a == "lo" then true else if b == "lo" then false else str_lt a b

-- the body of `__lt__`, on the two fields of either link
unfoldable pub key_lt : Option String → String → Option String → String → Bool
key_lt none a none b = ifname_lt a b
key_lt none a (some m) b = true
key_lt (some n) a none b = false
key_lt (some n) a (some m) b = if n == m then ifname_lt a b else str_lt n m

-- `__lt__`
unfoldable pub link_lt : LinkDependency → LinkDependency → Bool
link_lt a b = key_lt a.netns a.ifname b.netns b.ifname
