-- ===== src/Job/Keeps.antt =====
-- What an action keeps true of the tables, whether it returns or fails.
use mathlib.Core.Path.{subst}
use pixur.Base.{◌≡◌, sym, ap, Option, none, some, List, [], ◌∷◌}
use pixur.Base.Result.{Result, ok, err}
use pixur.Schema.{Tables}
use pixur.Job.{
  Fault, Status, Job, Action, ◌>>=◌, pure, raise, require, require_none, get_tables, put_tables,
  call, or_internal, revert,
}
use pixur.Job.Returns.{Holds, Returns, Returns_holds, revert-tables}

module _ (E : Type 0) (P : Tables → Type 0) where
  -- Shut, like `Returns`.
  pub Keeps : {A : Type 0} → Action E A → Type 0
  Keeps m = (s : Job E) → P s.tables → P (m s).1.tables

  pub Keeps_use :
      {A : Type 0} (m : Action E A) → Keeps m → (s : Job E) → P s.tables → P (m s).1.tables
  unfolding Keeps
  Keeps_use m k = k

  pub Keeps-bind :
      {A B : Type 0} (m : Action E A) (f : A → Action E B)
      → Keeps m
      → ((a : A) → Keeps (f a))
      → Keeps (m >>= f)
  unfolding Keeps ◌>>=◌
  Keeps-bind {A} {B} m f k l s h = go (m s) (k s h)
    where
      go :
          (r : Result (Status E) A × Job E)
          → P r.1.tables
          → P (
              (let (x, s') = r in
                let out : Result (Status E) B × Job E = elim x [
                  | ok a ↦ f a s'
                  | err st ↦ (err st, s')
                ] in
                out).1.tables)
      go (ok a, s') h = l a s' h
      go (err st, s') h = h

  pub Keeps-pure : {A : Type 0} (a : A) → Keeps (pure {E = E} a)
  unfolding Keeps pure
  Keeps-pure a s h = h

  pub Keeps-raise : (A : Type 0) (st : Status E) → Keeps (raise {A = A} st)
  unfolding Keeps raise
  Keeps-raise A st s h = h

  pub Keeps-require : {A : Type 0} (r : Result (Status E) A) → Keeps (require r)
  unfolding Keeps require
  Keeps-require r s h = h

  pub Keeps-require_none : (o : Option (Status E)) → Keeps (require_none o)
  unfolding Keeps require_none pure raise
  Keeps-require_none none s h = h
  Keeps-require_none (some st) s h = h

  pub Keeps-put_tables : (t : Tables) → P t → Keeps (put_tables {E = E} t)
  unfolding Keeps put_tables
  Keeps-put_tables t p s h = p

  pub Keeps-bind-get_tables :
      {B : Type 0} (f : Tables → Action E B)
      → ((t : Tables) → P t → Keeps (f t))
      → Keeps (get_tables >>= f)
  unfolding Keeps get_tables ◌>>=◌
  Keeps-bind-get_tables f k s h = k s.tables h s h

  pub Keeps-call : (wrap : Fault E → Status E) → Keeps (call wrap)
  unfolding Keeps call
  Keeps-call wrap s h = go s.faults
    where
      go :
          (fs : List (Option E))
          → P (call wrap (record { tables = s.tables; faults = fs })).1.tables
      go [] = h
      go (none ∷ fs) = h
      go (some e ∷ fs) = h

  pub Keeps-or_internal : {A : Type 0} (m : Action E A) → Keeps m → Keeps (or_internal m)
  unfolding Keeps or_internal
  Keeps-or_internal {A} m k s h = go (m s) (k s h)
    where
      go : (r : Result (Status E) A × Job E) → P r.1.tables → P (or_internal (λ _. r) s).1.tables
      go (ok a, s') h = h
      go (err st, s') h = h

  pub Keeps-revert : {A : Type 0} (m : Action E A) → Keeps m → Keeps (revert m)
  unfolding Keeps revert
  Keeps-revert {A} m k s h = go (m s) (k s h)
    where
      go : (r : Result (Status E) A × Job E) → P r.1.tables → P (revert (λ _. r) s).1.tables
      go (ok a, s') h' = h'
      go (err st, s') h' = h

  -- A transaction that fails is rolled back: only what it leaves where it returns matters.
  pub Keeps-revert-Returns :
      {A : Type 0} (m : Action E A)
      → ((s : Job E) → P s.tables → Returns m s (λ a s'. P s'.tables))
      → Keeps (revert m)
  unfolding Keeps revert
  Keeps-revert-Returns {A} m k s h = go (m s) (Returns_holds m s _ (k s h))
    where
      go :
          (r : Result (Status E) A × Job E)
          → Holds r (λ a s'. P s'.tables)
          → P (revert (λ _. r) s).1.tables
      go (ok a, s') h' = h'
      go (err st, s') h' = h

  -- A transaction that fails after the start of a task leaves what the start left.
  pub Keeps-bind-revert :
      {A B : Type 0} (m : Action E A) (f : A → Action E B) (s s' : Job E) (st : Status E)
      → Keeps m
      → P s.tables
      → (m >>= λ a. revert (f a)) s ≡ (err st, s')
      → P s'.tables
  unfolding Keeps ◌>>=◌
  Keeps-bind-revert {A} {B} m f s s' st k h = go (m s) (k s h)
    where
      go :
          (r : Result (Status E) A × Job E)
          → P r.1.tables
          → (let out : Result (Status E) B × Job E =
                let (x, s1) = r in elim x [ ok a ↦ revert (f a) s1 | err st1 ↦ (err st1, s1) ] in
              out ≡ (err st, s'))
          → P s'.tables
      go (ok a, s1) p e = subst P (sym (revert-tables (f a) s1 s' st e)) p
      go (err st1, s1) p e = subst P (ap (λ q. q.1.tables) e) p

  pub Keeps-bind-require_none :
      {B : Type 0} (o : Option (Status E)) (f : Unit {0} → Action E B) (s s' : Job E)
      (st : Status E)
      → P s.tables
      → (f tt s ≡ (err st, s') → P s'.tables)
      → (require_none o >>= f) s ≡ (err st, s')
      → P s'.tables
  unfolding ◌>>=◌ require_none pure raise
  Keeps-bind-require_none none f s s' st p h e = h e
  Keeps-bind-require_none (some st1) f s s' st p h e = subst P (ap (λ q. q.1.tables) e) p
