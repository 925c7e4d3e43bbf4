-- ===== src/WireGuard/Tests.antt =====
-- A kernel that keeps the peers of one interface, with a peer to remove and one to add.
use ifstate.Prelude.{
  ℕ, String, ◌≡◌, refl, true, not, ◌&&◌, ◌||◌, some, [], ◌∷◌, ◌==◌, text_key, number_key, arith,
  map, contains,
}
use ifstate.Prelude.Dict.{Dict, has, insert, delete, lookup-insert, lookup-delete}
use ifstate.Netlink.{start}
use ifstate.WireGuard.{
  Reply, accepted, Peer, KernelPeer, Request, set_interface, set_peer, remove_peers, Host, apply,
}
use ifstate.WireGuard.Peers.{IsServed, apply-peers}

abbrev Table : Type 0
Table = Dict String (KernelPeer ℕ ℕ)

abbrev made : Peer ℕ ℕ → KernelPeer ℕ ℕ
made p = record { attr = λ s. 0; allowedips = [] }

abbrev serve : Request ℕ ℕ → Table → Reply × Table
serve (set_interface d) k = (accepted, k)
serve (set_peer p) k = (accepted, insert p.public_key (made p) k)
serve (remove_peers p) k = (accepted, delete p k)

abbrev host : Host Table ℕ ℕ
host = record {
  get_interface = λ k iface. some (record { attr = λ s. 0; peers = k });
  send = serve;
  str = λ n. "";
}

table_accepts : (r : Request ℕ ℕ) (k : Table) → (serve r k).0 ≡ accepted
table_accepts (set_interface d) k = refl
table_accepts (set_peer p) k = refl
table_accepts (remove_peers p) k = refl

table_adds :
    (p : Peer ℕ ℕ) (k : Table) (q : String)
    → has q (insert p.public_key (made p) k) ≡ ((p.public_key == q) || has q k)
table_adds p k q = ground (arith, lookup-insert p.public_key q (made p) k)

table_removes :
    (p : String) (k : Table) (q : String) → has q (delete p k) ≡ (not (p == q) && has q k)
table_removes p k q = ground (arith, lookup-delete p q k)

table-IsServed : IsServed host "wg0" (λ k. k)
table-IsServed = record {
  attr = λ k s. 0;
  lists = λ k. refl;
  accepts = table_accepts;
  sets = λ d k q. refl;
  adds = table_adds;
  removes = table_removes;
}

abbrev wanted : Peer ℕ ℕ
wanted = record { public_key = "key-a"; settings = []; allowedips = some (1 ∷ []) }

abbrev before : Table
before = ("key-b", made wanted) ∷ []

apply-peers_example :
    has "key-b"
      (apply host true
        (record { iface = "wg0"; settings = []; peers = some (wanted ∷ []) })
        (start before)).kernel
    ≡ contains "key-b" (map (λ p. p.public_key) (wanted ∷ []))
apply-peers_example =
    apply-peers host "wg0" (λ k. k) table-IsServed [] (wanted ∷ []) (start before) "key-b"
