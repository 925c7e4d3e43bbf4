-- ===== src/Sysctl/Globals.antt =====
-- What `Sysctl.apply_globals` leaves in the files.
use ifstate.Prelude.{
  ◌≡◌, ◌≢◌, refl, sym, ◌∙◌, ap, String, true, Option, none, some, [], ◌∷◌, ◌++◌, arith, map,
  contains, if◌then◌else◌, ◌==◌, ◌&&◌, text_key, pair_key, Distinct, beq_self, inl, inr,
  Option-cases,
}
use ifstate.Prelude.Dict.{Dict, lookup, keys, has-keys}
use ifstate.Netlink.{Event, Run, note, request, for_each, for_each-append, for_each-map}
use ifstate.Sysctl.{
  Request, write, Proc, Sysctl, truthy, set_sysctl, set_global, set_proto, apply_globals, Changed,
}

-- A write that is sent is what is read from then on, and no other file changes.
pub record IsServed {K : Type 0} (proc : Proc K) : Type 0 where
  pub write_effect :
      (k : K) (family iface key value f i n : String)
      → proc.read (proc.send (write family iface key value) k).1 f i n
        ≡ (if (family == f) && (iface == i) && (key == n) then some value else proc.read k f i n)

module _ {V : Type 0} where
  -- the configured values by protocol and key
  abbrev pub settings : Dict String (Dict String V) → Dict (String × String) V
  settings [] = []
  settings ((f, sysctl) ∷ d) = map (λ p. ((f, p.0), p.1)) sysctl ++ settings d

module _ {K V : Type 0} (proc : Proc K) (str : V → String) where
  abbrev set_one : (String × String) × V → Changed proc str → Changed proc str
  set_one ((f, key), v) st = set_global proc str true f (key, v) st

  flat :
      (d : Dict String (Dict String V)) (st : Changed proc str)
      → for_each d (set_proto proc str true) st ≡ for_each (settings d) set_one st
  unfolding for_each set_proto
  flat [] st = refl
  flat ((f, sysctl) ∷ d) st =
      flat d (for_each sysctl (set_global proc str true f) st)
      ∙ ap (for_each (settings d) set_one)
          (sym (for_each-map (λ p. ((f, p.0), p.1)) set_one sysctl st))
      ∙ sym (for_each-append set_one (map (λ p. ((f, p.0), p.1)) sysctl) (settings d) st)

  module _ (served : IsServed proc) where
    set_one_effect :
        (f key : String) (v : V) (st : Changed proc str) (f' key' : String)
        → proc.read st.1.kernel f ".." key ≢ none
        → proc.read (set_one ((f, key), v) st).1.kernel f' ".." key' ≡ (
            if (f == f') && (key == key') then some (str v) else proc.read st.1.kernel f' ".." key')
    unfolding set_global set_sysctl request note truthy
    set_one_effect f key v (changes, s) f' key' there =
        elim (Option-cases (proc.read s.kernel f ".." key)) [
          | inl gone ↦ absurd (there gone)
          | inr (current, found) ↦ ground (
            arith,
            served.write_effect s.kernel f ".." key (str v) f' ".." key',
            text_key.same_iff f f',
            text_key.same_iff key key',
            text_key.same_iff current (str v),
          )
        ]

    loop_effect :
        (d : Dict (String × String) V) (st : Changed proc str)
        → Distinct (keys d)
        → ((f key : String)
            → contains (f, key) (keys d) ≡ true
            → proc.read st.1.kernel f ".." key ≢ none)
        → (f key : String)
        → proc.read (for_each d set_one st).1.kernel f ".." key
          ≡ elim (lookup (f, key) d) as (λ _. Option String) [
            | none ↦ proc.read st.1.kernel f ".." key
            | some v ↦ some (str v)
          ]
    unfolding for_each lookup
    loop_effect [] st dist there f key = refl
    loop_effect (((g, name), v) ∷ d) st dist there f key =
        let here = there g name (ground (arith, beq_self g, beq_self name)) in
        let rest =
          loop_effect d (set_one ((g, name), v) st) dist.1
            (λ f' key' m gone.
              there f' key' (ground (arith, m))
                (ground (arith, set_one_effect g name v st f' key' here)))
            f key in
        elim (Option-cases (lookup (f, key) d)) [
          | inl none' ↦ ground (arith, rest, set_one_effect g name v st f key here)
          | inr (w, found) ↦
              ground (
                arith,
                rest,
                has-keys (f, key) d,
                text_key.same_iff g f,
                text_key.same_iff name key,
              )
        ]

    -- If a write is what is read from then on and changes no other file, the settings are distinct
    -- and their files readable, an apply of the global settings leaves each configured setting with
    -- its value, and each other one as it was.
    pub apply_globals-settings :
        (c : Sysctl V) (s : Run K Request (Event (String × String)))
        → Distinct (keys (settings c.globals))
        → ((f key : String)
            → contains (f, key) (keys (settings c.globals)) ≡ true
            → proc.read s.kernel f ".." key ≢ none)
        → (f key : String)
        → proc.read (apply_globals proc str true c s).1.kernel f ".." key
          ≡ elim (lookup (f, key) (settings c.globals)) as (λ _. Option String) [
            | none ↦ proc.read s.kernel f ".." key
            | some v ↦ some (str v)
          ]
    unfolding apply_globals
    apply_globals-settings c s dist there f key =
        ap (λ (st : Changed proc str). proc.read st.1.kernel f ".." key) (flat c.globals ([], s))
        ∙ loop_effect (settings c.globals) ([], s) dist there f key
