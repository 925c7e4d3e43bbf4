-- ===== src/Namespaces/Tests.antt =====
-- A host with two namespaces, of which one is configured.
use ifstate.Prelude.{
  String, ◌≡◌, true, not, ◌&&◌, List, [], ◌∷◌, ◌==◌, text_key, contains, diff, contains-diff, arith,
}
use ifstate.Namespaces.{Host, prepare_netns}
use ifstate.Namespaces.Names.{prepare_netns-names}

abbrev old : String
old = "old"

abbrev host : Host (List String)
host = record { ns_pids = λ k. []; listnetns = λ k. k; remove = λ name k. diff k (name ∷ []) }

removes :
    (p : String) (k : List String) (q : String)
    → contains q (diff k (p ∷ [])) ≡ (not (p == q) && contains q k)
removes p k q = ground (arith, contains-diff q k (p ∷ []))

prepare_netns-names_example :
    contains old
      (prepare_netns host true ("blue" ∷ "new" ∷ []) ("new" ∷ []) ("old" ∷ "blue" ∷ [])).kernel
    ≡ (contains old ("old" ∷ "blue" ∷ []) && contains old ("blue" ∷ "new" ∷ []))
prepare_netns-names_example =
    prepare_netns-names host removes ("blue" ∷ "new" ∷ []) ("new" ∷ []) ("old" ∷ "blue" ∷ []) old
