-- ===== src/Parser/Builtin.antt =====
-- The built-in configuration of libifstate/parser/base.py. `True` is the number 1, which it equals.
use ifstate.Prelude.{String, List, [], ◌∷◌}
use ifstate.Value.{null, num, text}
use ifstate.Parser.{Node, leaf, list, dict, Items, nil, item, Members, empty, member}
use ifstate.Prelude.{ℕ}

abbrev pub texts : List String → Items
texts [] = nil
texts (w ∷ ws) = item (leaf (text w)) (texts ws)

-- `{'proto': n}` for each number
abbrev protos : List ℕ → Items → Items
protos [] rest = rest
protos (n ∷ ns) rest = item (dict (member "proto" (leaf (num n)) empty)) (protos ns rest)

abbrev proto_numbers : List ℕ
proto_numbers =
    1 ∷ 2 ∷ 8 ∷ 9 ∷ 10 ∷ 11 ∷ 12 ∷ 13 ∷ 14 ∷ 15 ∷ 16 ∷ 18 ∷ 42 ∷ 186 ∷ 187 ∷ 188 ∷ 189 ∷ 192 ∷ []

abbrev pub default_lo_link : Members
default_lo_link = member "name" (leaf (text "lo")) (
    member "addresses" (list (texts ("127.0.0.1/8" ∷ "::1/128" ∷ []))) (
      member "link"
        (dict (
          member "kind" (leaf (text "physical"))
            (member "state" (leaf (text "up")) (member "mtu" (leaf (num 65536)) empty))))
        empty))

abbrev cake : Node
cake = dict (member "kind" (leaf (text "cake")) (member "handle" (leaf (text "1:")) empty))

abbrev cshaper_builtin : Members
cshaper_builtin =
    member "default"
      (dict (
        member "egress_qdisc" cake (
          member "ingress_qdisc" cake (
            member "ingress_ifname"
              (dict (
                member "search" (leaf (text "^\\D{1,3}"))
                  (member "replace" (leaf (text "ifb")) empty)))
              empty))))
      empty

-- the defaults of an interface whose name matches the empty expression, which is each
abbrev pub defaults_builtin : Items
defaults_builtin =
    item
      (dict (
        member "match" (list (item (dict (member "ifname" (leaf (text "")) empty)) nil)) (
          member "clear_addresses" (leaf (num 1)) (
            member "clear_fdb" (leaf (num 1)) (
              member "clear_neighbours" (leaf (num 1)) (
                member "clear_tc" (leaf (num 1)) (
                  member "link"
                    (dict (member "state" (leaf (text "down")) (member "master" (leaf null) empty)))
                    empty)))))))
      nil

abbrev pub ignore_builtin : Members
ignore_builtin = member "ipaddr_builtin" (list (texts ("fe80::/10" ∷ []))) (
    member "ipaddr_dynamic" (leaf (num 1)) (
      member "ifname_builtin"
        (list (
          texts (
            "^br-[\\da-f]{12}" ∷ "^docker\\d+" ∷ "^ppp\\d+$" ∷ "^veth" ∷ "^virbr\\d+"
            ∷ "^vrrp\\d*\\.\\d+$" ∷ [])))
        (member "fdb_builtin" (list (texts ("^33:33:" ∷ "^01:00:5e:" ∷ []))) (
          member "routes_builtin"
            (list
              (protos proto_numbers (item (dict (member "to" (leaf (text "ff00::/8")) empty)) nil)))
            (member "rules_builtin" (list (protos proto_numbers nil)) empty)))))

abbrev pub default_ifstates : Members
default_ifstates =
    member "parameters"
      (dict (
        member "cshaper" (dict cshaper_builtin) (
          member "defaults_builtin" (list defaults_builtin)
            (member "ignore" (dict ignore_builtin) empty))))
      empty
