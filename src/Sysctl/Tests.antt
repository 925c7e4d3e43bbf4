-- ===== src/Sysctl/Tests.antt =====
-- The files as a dictionary, and the class on them.
use ifstate.Prelude.{
  ◌≤◌, ◌≡◌, refl, String, true, none, some, [], ◌∷◌, arith, length, text_key, pair_key,
}
use ifstate.Prelude.Dict.{Dict, lookup, insert, lookup-insert}
use ifstate.Netlink.{Answer, accepted, start}
use ifstate.Sysctl.{Request, write, Proc, Sysctl, apply, apply_globals}
use ifstate.Sysctl.Writes.{apply-one_write}
use ifstate.Sysctl.Globals.{IsServed, apply_globals-settings}

abbrev Files : Type 0
Files = Dict ((String × String) × String) String

abbrev serve : Request → Files → Answer × Files
serve (write f i n v) k = (accepted, insert ((f, i), n) v k)

abbrev proc : Proc Files
proc = record { read = λ k f i n. lookup ((f, i), n) k; send = serve }

proc-IsServed : IsServed proc
proc-IsServed = record {
  write_effect = λ k family iface key value f i n.
      ground (arith, lookup-insert ((family, iface), key) ((f, i), n) value k);
}

abbrev str : String → String
str v = v

abbrev config : Sysctl String
config = record {
  sysctls = ("eth0", ("ipv4", ("arp_filter", "1") ∷ ("rp_filter", "2") ∷ []) ∷ []) ∷ [];
  globals = ("ipv4", ("arp_filter", "1") ∷ []) ∷ [];
}

abbrev files : Files
files =
    ((("ipv4", ".."), "arp_filter"), "0")
    ∷ ((("ipv4", "eth0"), "arp_filter"), "0")
    ∷ ((("ipv4", "eth0"), "rp_filter"), "0")
    ∷ []

apply_globals-settings_example :
    lookup
      (("ipv4", ".."), "arp_filter")
      (apply_globals proc str true config (start files)).1.kernel
    ≡ some "1"
unfolding lookup
apply_globals-settings_example =
    apply_globals-settings proc str proc-IsServed config (start files) (refl, tt)
      (λ f key m gone.
        ground (arith, m, gone, text_key.same_iff "ipv4" f, text_key.same_iff "arp_filter" key))
      "ipv4" "arp_filter"

apply-one_write_example : length (apply proc str "eth0" true none config (start files)).sent ≤ 1
apply-one_write_example = apply-one_write proc str "eth0" true none config (start files)
