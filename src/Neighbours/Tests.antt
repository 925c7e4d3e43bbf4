-- ===== src/Neighbours/Tests.antt =====
-- A kernel with one interface whose table is a list of pairs, and the applier on it.
use ifstate.Prelude.{
  ℕ, String, ◌≡◌, refl, Option, none, some, [], ◌∷◌, ◌++◌, arith, ◌==◌, if◌then◌else◌, text_key,
  map, ap, ◌∙◌, true,
}
use ifstate.Prelude.Dict.{Dict, lookup, insert, delete, from_pairs, lookup-insert, lookup-nil}
use ifstate.Netlink.{Answer, accepted, start, log_ok, log_add, log_del, note, request, for_each}
use ifstate.Neighbours.{
  Host, Request, del, replace, Neighbours, by_ip, new, compare_entry, del_entry, add_entry,
  apply_at, apply,
}
use ifstate.Neighbours.Converge.{IsServed, new-Distinct, apply-table}

abbrev Table : Type 0
Table = Dict String (Option String)

abbrev serve : Request → Table → Answer × Table
serve (del i a) k = (accepted, delete a k)
serve (replace i a l) k = (accepted, k ++ (a, l) ∷ [])

abbrev eth_index : Table → String → Option ℕ
eth_index k name = if name == "eth0" then some 2 else none

abbrev host : Host Table String
host = record {
  ip_address = λ s. s;
  ip_str = λ s. s;
  link_lookup = eth_index;
  get_neighbours = λ k i. k;
  send = serve;
}

abbrev table : Table → ℕ → String → Option (Option String)
table k i j = lookup j (by_ip host k)

from_pairs_cong :
    (j : String) (k c d : Table)
    → lookup j c ≡ lookup j d
    → lookup j (from_pairs (map (λ p. (p.0, p.1)) k) c)
      ≡ lookup j (from_pairs (map (λ p. (p.0, p.1)) k) d)
unfolding from_pairs
from_pairs_cong j [] c d h = h
from_pairs_cong j ((i, l) ∷ k) c d h =
    from_pairs_cong j k (insert i l c) (insert i l d)
      (ground (arith, lookup-insert i j l c, lookup-insert i j l d))

from_pairs-delete :
    (a j : String) (k d : Table)
    → lookup j (from_pairs (map (λ p. (p.0, p.1)) (delete a k)) d)
      ≡ (if a == j then lookup j d else lookup j (from_pairs (map (λ p. (p.0, p.1)) k) d))
unfolding delete from_pairs
from_pairs-delete a j [] d = ground arith
from_pairs-delete a j ((i, l) ∷ k) d = ground (
  arith,
  from_pairs-delete a j k d,
  from_pairs-delete a j k (insert i l d),
  from_pairs_cong j k d (insert i l d),
  lookup-insert i j l d,
  text_key.same_iff i a,
  text_key.same_iff i j,
  text_key.same_iff a j,
)

from_pairs-snoc :
    (a : String) (l : Option String) (k d : Table)
    → from_pairs (map (λ p. (p.0, p.1)) (k ++ (a, l) ∷ [])) d
      ≡ insert a l (from_pairs (map (λ p. (p.0, p.1)) k) d)
unfolding from_pairs
from_pairs-snoc a l [] d = refl
from_pairs-snoc a l ((i, m) ∷ k) d = from_pairs-snoc a l k (insert i m d)

host-IsServed : IsServed host table
unfolding by_ip
host-IsServed = record {
  round_trip = λ ip. refl;
  dump = λ k i j. refl;
  del_effect = λ k i a j. ground (arith, from_pairs-delete a j k [], lookup-nil (Option String) j);
  replace_effect = λ k i a l j.
      ap (lookup j) (from_pairs-snoc a l k [])
      ∙ lookup-insert a j l (from_pairs (map (λ p. (p.0, p.1)) k) []);
}

abbrev before : Table
before = ("10.0.0.1", some "aa") ∷ ("10.0.0.9", none) ∷ []

abbrev settled : Table
settled = ("10.0.0.1", some "aa") ∷ ("10.0.0.2", some "bb") ∷ []

abbrev wanted : Neighbours String
wanted = new host "eth0" settled

program : Unit {0}
unfolding new by_ip from_pairs lookup insert delete apply apply_at for_each compare_entry del_entry
    add_entry request note
program = tt

-- One entry stays, one is removed, one is added.
wanted_applied :
    (apply host true wanted (start before)).log
    ≡ log_ok "10.0.0.1" ∷ log_del "10.0.0.9" ∷ log_add "10.0.0.2" ∷ []
unfolding program
wanted_applied = refl

apply-table_example :
    table (apply host true wanted (start before)).kernel 2 "10.0.0.9"
    ≡ lookup "10.0.0.9" wanted.neighbours
unfolding program
apply-table_example =
    apply-table host table host-IsServed wanted (start before) 2 "10.0.0.9"
      (new-Distinct host "eth0" settled) refl
