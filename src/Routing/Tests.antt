-- ===== src/Routing/Tests.antt =====
-- Kernels that are lists of routes or of rules, and the appliers on them.
use ifstate.Prelude.{
  ℕ, String, ◌≡◌, refl, true, false, Option, none, some, List, [], ◌∷◌, ◌++◌, ◌==◌, if◌then◌else◌,
  text_key, list_key, pair_key, filter, not, inl, inr, In, number_key, option_key,
}
use ifstate.Prelude.Dict.{lookup}
use ifstate.Prelude.Numeral.{read}
use ifstate.Value.{num, text, vrrp, Fields, value_key, value_beq}
use ifstate.Netlink.{Run, Event, Answer, accepted, start}
use ifstate.Routing.Match.{matches, route_matches}
use ifstate.Routing.Lookup.{no_names, parse, lookup_id, lookup_str, lookup_id-lookup_str}
use ifstate.Routing.Tables.{Mode, Request, replace, del, apply, apply_table, is_ignored}
use ifstate.Routing.Tables.Sent.{dels, apply_table-removes, apply_table_strays}

abbrev home : Fields
home = ("dst", text "10.0.0.0/8") ∷ ("proto", num 3) ∷ ("priority", num 0) ∷ ("oif", num 2) ∷ []

abbrev stray : Fields
stray = ("dst", text "10.9.0.0/16") ∷ ("proto", num 3) ∷ ("priority", num 0) ∷ ("oif", num 2) ∷ []

abbrev real : Mode
real = record { do_apply = true; by_vrrp = false; vrrp_type = ""; vrrp_name = ""; vrrp_state = "" }

abbrev dry : Mode
dry = record { do_apply = false; by_vrrp = false; vrrp_type = ""; vrrp_name = ""; vrrp_state = "" }

abbrev links : List Fields → String → Option ℕ
links k name = if name == "eth0" then some 2 else none

abbrev serve : Request → List Fields → Answer × List Fields
serve (replace r) k = (accepted, k ++ r ∷ [])
serve (del r) k = (accepted, filter (λ x. not (x == r)) k)

abbrev routes : List Fields → ℕ → List Fields
routes k t = k

abbrev watched : Fields
watched =
    ("_vrrp", vrrp (record { kind = "instance"; name = "VI_1"; states = "master" ∷ [] })) ∷ stray

-- a comment, and two tables
abbrev lines : List (Option (ℕ × String))
lines = none ∷ some (255, "local") ∷ some (254, "main") ∷ []

lookup_id-lookup_str_example :
    lookup_id (parse lines no_names) (text (lookup_str (parse lines no_names) 254)) ≡ some 254
unfolding read
lookup_id-lookup_str_example = lookup_id-lookup_str lines 254 (refl, (refl, tt)) (refl, (refl, tt))

abbrev after : List Fields
after =
    dels (apply_table links serve routes real [] (254, home ∷ []) (start (home ∷ stray ∷ []))).sent

apply_table_strays_example : In stray after
unfolding is_ignored route_matches matches lookup value_beq
apply_table_strays_example =
    apply_table_strays links serve routes real [] 254 (home ∷ []) (home ∷ stray ∷ []) stray refl
      (inr (inl refl)) refl (refl, tt)

apply_table-removes_example : In stray (home ∷ stray ∷ []) × (is_ignored [] stray ≡ false)
unfolding is_ignored route_matches matches lookup value_beq
apply_table-removes_example =
    apply_table-removes links serve routes real [] 254 (home ∷ []) (home ∷ stray ∷ []) stray refl (
      apply_table_strays links serve routes real [] 254 (home ∷ []) (home ∷ stray ∷ []) stray refl
        (inr (inl refl)) refl (refl, tt))

abbrev checked : Run (List Fields) Request (Event Fields)
checked = apply links serve routes dry [] ((254, home ∷ []) ∷ []) (start (stray ∷ []))
