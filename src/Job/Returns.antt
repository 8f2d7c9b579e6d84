-- ===== src/Job/Returns.antt =====
-- What holds of the result and of the transaction where an action returns without an error.
use mathlib.Core.Path.{subst}
use pixur.Base.{ap, sym, ◌≡◌, refl, Option, none, some, List, [], ◌∷◌}
use pixur.Base.Result.{Result, ok, err}
use pixur.Schema.{Tables}
use pixur.Job.{
  Fault, Status, Job, Action, ◌>>=◌, pure, require, require_none, call, get_tables, put_tables,
  raise, or_internal, with_cause, revert,
}

module _ {E : Type 0} where
  abbrev pub Holds : {A : Type 0} → Result (Status E) A × Job E → (A → Job E → Type 0) → Type 0
  Holds r Q = elim (r.0) [ ok a ↦ Q a r.1 | err st ↦ Unit ]

  -- Shut, so that a proof follows the steps of the action by the laws below.
  pub Returns : {A : Type 0} → Action E A → Job E → (A → Job E → Type 0) → Type 0
  Returns m s Q = Holds (m s) Q

  pub Returns_holds :
      {A : Type 0} (m : Action E A) (s : Job E) (Q : A → Job E → Type 0)
      → Returns m s Q
      → Holds (m s) Q
  unfolding Returns
  Returns_holds m s Q h = h

  pub Returns-pure :
      {A : Type 0} (a : A) (s : Job E) (Q : A → Job E → Type 0) → Q a s → Returns (pure a) s Q
  unfolding pure Returns
  Returns-pure a s Q h = h

  pub Returns-raise :
      {A : Type 0} (st : Status E) (s : Job E) (Q : A → Job E → Type 0) → Returns (raise st) s Q
  unfolding raise Returns
  Returns-raise st s Q = tt

  pub Returns-put_tables :
      (t : Tables) (s : Job E) (Q : Unit {0} → Job E → Type 0)
      → Q tt (record { tables = t; faults = s.faults })
      → Returns (put_tables t) s Q
  unfolding put_tables Returns
  Returns-put_tables t s Q h = h

  pub Returns-bind :
      {A B : Type 0} (m : Action E A) (f : A → Action E B) (s : Job E) (Q : B → Job E → Type 0)
      → Returns m s (λ a s'. Returns (f a) s' Q)
      → Returns (m >>= f) s Q
  unfolding ◌>>=◌ Returns
  Returns-bind {A} {B} m f s Q h = go (m s) h
    where
      go :
          (r : Result (Status E) A × Job E)
          → Holds r (λ a s'. Holds (f a s') Q)
          → Holds (let (x, s') = r in elim x [ ok a ↦ f a s' | err st ↦ (err st, s') ]) Q
      go (ok a, s') h = h
      go (err st, s') h = tt

  pub Returns-weaken :
      {A : Type 0} (m : Action E A) (s : Job E) (P Q : A → Job E → Type 0)
      → ((a : A) (s' : Job E) → P a s' → Q a s')
      → Returns m s P
      → Returns m s Q
  unfolding Returns
  Returns-weaken {A} m s P Q imp h = go (m s) h
    where
      go : (r : Result (Status E) A × Job E) → Holds r P → Holds r Q
      go (ok a, s') h = imp a s' h
      go (err st, s') h = tt

  -- An action that leaves the tables alone.
  pub Returns_same :
      {A : Type 0} (m : Action E A) (s : Job E)
      → (m s).1.tables ≡ s.tables
      → Returns m s (λ a s'. s'.tables ≡ s.tables)
  unfolding Returns
  Returns_same {A} m s e = go (m s) e
    where
      go :
          (r : Result (Status E) A × Job E)
          → r.1.tables ≡ s.tables
          → Holds r (λ a s'. s'.tables ≡ s.tables)
      go (ok a, s') same = same
      go (err st, s') same = tt

  -- The use of a law where the action did return.
  pub Returns_use :
      {A : Type 0} (m : Action E A) (s s' : Job E) (a : A) (Q : A → Job E → Type 0)
      → Returns m s Q
      → m s ≡ (ok a, s')
      → Q a s'
  unfolding Returns
  Returns_use {A} m s s' a Q h e = subst (λ r. Holds r Q) e h

  pub Returns-require_none :
      (o : Option (Status E)) (s : Job E) (Q : Unit {0} → Job E → Type 0)
      → (o ≡ none → Q tt s)
      → Returns (require_none o) s Q
  unfolding require_none pure raise Returns
  Returns-require_none none s Q h = h refl
  Returns-require_none (some st) s Q h = tt

  pub Returns-require :
      {A : Type 0} (r : Result (Status E) A) (s : Job E) (Q : A → Job E → Type 0)
      → ((a : A) → r ≡ ok a → Q a s)
      → Returns (require r) s Q
  unfolding require Returns
  Returns-require (ok a) s Q h = h a refl
  Returns-require (err st) s Q h = tt

  -- A call that works leaves the tables alone.
  pub Returns-call :
      (wrap : Fault E → Status E) (s : Job E) (Q : Unit {0} → Job E → Type 0)
      → ((fs : List (Option E)) → Q tt (record { tables = s.tables; faults = fs }))
      → Returns (call wrap) s Q
  unfolding call Returns
  Returns-call wrap s Q h = go s.faults h
    where
      go :
          (fs : List (Option E))
          → ((fs' : List (Option E)) → Q tt (record { tables = s.tables; faults = fs' }))
          → Returns (call wrap) (record { tables = s.tables; faults = fs }) Q
      go [] h = h []
      go (none ∷ fs) h = h fs
      go (some e ∷ fs) h = tt

  pub Returns-or_internal :
      {A : Type 0} (m : Action E A) (s : Job E) (Q : A → Job E → Type 0)
      → Returns m s Q
      → Returns (or_internal m) s Q
  unfolding or_internal Returns
  Returns-or_internal {A} m s Q h = go (m s) h
    where
      go :
          (r : Result (Status E) A × Job E)
          → Holds r Q
          → Holds
              (let (x, s') = r in elim x [ ok a ↦ (ok a, s') | err st ↦ (err (with_cause st), s') ])
              Q
      go (ok a, s') h = h
      go (err st, s') h = tt

  pub Returns-revert :
      {A : Type 0} (m : Action E A) (s : Job E) (Q : A → Job E → Type 0)
      → Returns m s Q
      → Returns (revert m) s Q
  unfolding revert Returns
  Returns-revert {A} m s Q h = go (m s) h
    where
      go :
          (r : Result (Status E) A × Job E)
          → Holds r Q
          → Holds
              (let (x, s') = r in
                elim x [ ok a ↦ (ok a, s') | err st ↦ (err st, record s' { tables = s.tables }) ])
              Q
      go (ok a, s') h = h
      go (err st, s') h = tt

  -- A transaction that ends with an error leaves the tables as they were at its start.
  pub revert-tables :
      {A : Type 0} (m : Action E A) (s s' : Job E) (st : Status E)
      → revert m s ≡ (err st, s')
      → s'.tables ≡ s.tables
  unfolding revert
  revert-tables {A} m s s' st e = go (m s) e
    where
      go :
          (r : Result (Status E) A × Job E)
          → (let reverted : Result (Status E) A × Job E =
                let (x, s1) = r in
                elim x [
                  | ok a ↦ (ok a, s1)
                  | err st1 ↦ (err st1, record s1 { tables = s.tables })
                ] in
              reverted ≡ (err st, s'))
          → s'.tables ≡ s.tables
      go (ok a, s1) p = cc
      go (err st1, s1) p = ap (λ q. q.1.tables) (sym p)

  -- The same laws, for an action that goes on.
  module _ {B : Type 0} (s : Job E) (Q : B → Job E → Type 0) where
    pub Returns-bind-require_none :
        (o : Option (Status E)) (f : Unit {0} → Action E B)
        → (o ≡ none → Returns (f tt) s Q)
        → Returns (require_none o >>= f) s Q
    Returns-bind-require_none o f h =
        Returns-bind (require_none o) f s Q
          (Returns-require_none o s (λ a s'. Returns (f a) s' Q) h)

    pub Returns-bind-require :
        {A : Type 0} (r : Result (Status E) A) (f : A → Action E B)
        → ((a : A) → r ≡ ok a → Returns (f a) s Q)
        → Returns (require r >>= f) s Q
    Returns-bind-require r f h =
        Returns-bind (require r) f s Q (Returns-require r s (λ a s'. Returns (f a) s' Q) h)

    pub Returns-bind-pure :
        {A : Type 0} (a : A) (f : A → Action E B) → Returns (f a) s Q → Returns (pure a >>= f) s Q
    Returns-bind-pure a f h =
        Returns-bind (pure a) f s Q (Returns-pure a s (λ a' s'. Returns (f a') s' Q) h)

    pub Returns-bind-get_tables :
        (f : Tables → Action E B) → Returns (f s.tables) s Q → Returns (get_tables >>= f) s Q
    unfolding get_tables ◌>>=◌ Returns
    Returns-bind-get_tables f h = h

    pub Returns-bind-call :
        (wrap : Fault E → Status E) (f : Unit {0} → Action E B)
        → ((fs : List (Option E)) → Returns (f tt) (record { tables = s.tables; faults = fs }) Q)
        → Returns (call wrap >>= f) s Q
    Returns-bind-call wrap f h =
        Returns-bind (call wrap) f s Q (Returns-call wrap s (λ a s'. Returns (f a) s' Q) h)
