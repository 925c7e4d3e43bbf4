-- ===== src/Netlink.antt =====
-- The kernel as the appliers of libifstate/ see it: requests through pyroute2 that are accepted or end in
-- one of `netlinkerror_classes` (libifstate/exception.py), which every applier catches and logs. Another
-- exception ends the whole program; runs in which one is raised are not modelled.
use mathlib.Core.List.{append-nil, append_assoc}
use ifstate.Prelude.{ℕ, map, sym, ap, ◌≡◌, refl, ◌∙◌, Bool, true, false, List, [], ◌∷◌, ◌++◌}

pub data Answer : Type 0 where
  accepted : Answer
  -- an exception of the class NetlinkError itself, with its error number; the class of pr2modules, which old
  -- releases of pyroute2 raise as well, is left out
  refused : ℕ → Answer

-- The calls of the logger that an applier makes (`log_ok`, `log_add`, ... of libifstate/log.py).
pub data Event (A : Type 0) : Type 0 where
  log_ok log_add log_change log_del : A → Event A
  log_warn log_err warning : A → Event A
  link_missing : Event A

-- What a run has done: the kernel that it leaves, the requests that it sent, and its log.
pub record Run (K R E : Type 0) : Type 0 where
  pub kernel : K
  pub sent : List R
  pub log : List E

abbrev pub start : {K R E : Type 0} → K → Run K R E
start k = record { kernel = k; sent = []; log = [] }

-- `for x in xs: body(x)`
unfoldable pub for_each {ℓ} : {A : Type ℓ} {S : Type 0} → List A → (A → S → S) → S → S
for_each [] body s = s
for_each (x ∷ xs) body s = for_each xs body (body x s)

module _ {K R E : Type 0} (send : R → K → Answer × K) where
  -- `if do_apply: try: ipr.<request> except netlinkerror: logger.warning(...)`
  unfoldable pub request : Bool → R → E → Run K R E → Run K R E
  request false r warn s = s
  request true r warn s =
      let (a, k) = send r s.kernel in
      elim a [
        | accepted ↦ record s { kernel = k; sent = s.sent ++ r ∷ [] }
        | refused code ↦ record { kernel = k; sent = s.sent ++ r ∷ []; log = s.log ++ warn ∷ [] }
      ]

module _ {K R E : Type 0} where
  unfoldable pub note : E → Run K R E → Run K R E
  note ev s = record s { log = s.log ++ ev ∷ [] }

-- A loop whose body leaves the kernel alone does so too.
pub for_each-kernel {ℓ} :
    {A : Type ℓ} {K R E : Type 0} (body : A → Run K R E → Run K R E)
    → ((a : A) (s : Run K R E) → (body a s).kernel ≡ s.kernel)
    → (xs : List A) (s : Run K R E) → (for_each xs body s).kernel ≡ s.kernel
unfolding for_each
for_each-kernel body same [] s = refl
for_each-kernel body same (x ∷ xs) s = for_each-kernel body same xs (body x s) ∙ same x s

-- What each round keeps, the loop keeps.
pub for_each_keeps {ℓ κ} :
    {A : Type ℓ} {S : Type 0} (P : S → Type κ) (body : A → S → S)
    → ((a : A) (s : S) → P s → P (body a s))
    → (xs : List A) (s : S) → P s
    → P (for_each xs body s)
unfolding for_each
for_each_keeps P body keeps [] s p = p
for_each_keeps P body keeps (x ∷ xs) s p = for_each_keeps P body keeps xs (body x s) (keeps x s p)

pub for_each-append {ℓ} :
    {A : Type ℓ} {S : Type 0} (body : A → S → S) (xs ys : List A) (s : S)
    → for_each (xs ++ ys) body s ≡ for_each ys body (for_each xs body s)
unfolding for_each
for_each-append body [] ys s = refl
for_each-append body (x ∷ xs) ys s = for_each-append body xs ys (body x s)

pub for_each-map {ℓ κ} :
    {A : Type ℓ} {B : Type κ} {S : Type 0} (f : A → B) (body : B → S → S) (xs : List A) (s : S)
    → for_each (map f xs) body s ≡ for_each xs (λ a. body (f a)) s
unfolding for_each
for_each-map f body [] s = refl
for_each-map f body (x ∷ xs) s = for_each-map f body xs (body (f x) s)

abbrev pub flat_map {ℓ} : {A : Type ℓ} {B : Type 0} → (A → List B) → List A → List B
flat_map f [] = []
flat_map f (x ∷ xs) = f x ++ flat_map f xs

-- What each round sends, the loop sends.
pub for_each-sent {ℓ} :
    {A : Type ℓ} {K R E : Type 0} (f : A → List R) (body : A → Run K R E → Run K R E)
    → ((a : A) (s : Run K R E) → (body a s).sent ≡ s.sent ++ f a)
    → (xs : List A) (s : Run K R E) → (for_each xs body s).sent ≡ s.sent ++ flat_map f xs
unfolding for_each
for_each-sent f body each [] s = sym (append-nil s.sent)
for_each-sent f body each (x ∷ xs) s =
    for_each-sent f body each xs (body x s)
    ∙ ap (λ l. l ++ flat_map f xs) (each x s)
    ∙ append_assoc s.sent (f x) (flat_map f xs)
