-- ===== src/Job.antt =====
-- A transaction (a `Job` of be/schema/tables/tables.tab.go) and the errors of be/status that a task
-- returns. Each call of the database takes the next answer of `faults`; where none is left it works.
pub mod Returns
pub mod Keeps
use pixur.Base.{ℕ, Option, none, some, List, [], ◌∷◌}
use pixur.Base.Result.{Result, ok, err}
use pixur.CapSet.{Capability}
use pixur.Schema.{Tables}

-- What the database reports: a key that a row has already, or `E`, an error of its own.
pub data Fault (E : Type 0) : Type 0 where
  duplicate_key : Fault E
  broken : E → Fault E

-- A status by its code; messages and suppressed errors are left out.
pub data Status (E : Type 0) : Type 0 where
  internal : Status E
  -- `status.Internal` with a cause.
  caused : Status E → Status E
  invalid_argument not_found already_exists unauthenticated data_loss aborted deadline_exceeded
        canceled :
      Status E
  permission_denied : List Capability → Status E
  -- The database's error as it is: `status.From`.
  from : Fault E → Status E
  -- The program stops.
  panic : Status E

pub record Job (E : Type 0) : Type 0 where
  pub tables : Tables
  pub faults : List (Option E)

abbrev pub Action : Type 0 → Type 0 → Type 0
Action E A = Job E → Result (Status E) A × Job E

module _ {E : Type 0} where
  unfoldable pub pure : {A : Type 0} → A → Action E A
  pure a s = (ok a, s)

  unfoldable pub raise : {A : Type 0} → Status E → Action E A
  raise st s = (err st, s)

  infixl 5 ◌>>=◌
  unfoldable pub ◌>>=◌ : {A B : Type 0} → Action E A → (A → Action E B) → Action E B
  ◌>>=◌ m f s = let (r, s') = m s in elim r [ ok a ↦ f a s' | err st ↦ (err st, s') ]

  infixl 5 ◌>>◌
  abbrev pub ◌>>◌ : {B : Type 0} → Action E (Unit {0}) → Action E B → Action E B
  m >> k = m >>= λ _. k

  -- `if sts != nil { return sts }`
  unfoldable pub require_none : Option (Status E) → Action E (Unit {0})
  unfolding pure raise
  require_none none = pure tt
  require_none (some st) = raise st

  unfoldable pub require : {A : Type 0} → Result (Status E) A → Action E A
  require r s = (r, s)

  -- A call of the database that may fail, `wrap` makes the status of its error.
  unfoldable pub call : (Fault E → Status E) → Action E (Unit {0})
  call wrap s = elim s.faults [
    | [] ↦ (ok tt, s)
    | ◌∷◌ f fs ↦ elim f [
      | none ↦ (ok tt, record s { faults = fs })
      | some e ↦ (err (wrap (broken e)), record s { faults = fs })
    ]
  ]

  unfoldable pub get_tables : Action E Tables
  get_tables s = (ok s.tables, s)

  unfoldable pub put_tables : Tables → Action E (Unit {0})
  put_tables t s = (ok tt, record s { tables = t })

  abbrev pub with_cause : Status E → Status E
  with_cause panic = panic
  with_cause st = caused st

  -- `if err := m; err != nil { return status.Internal(err, …) }`
  unfoldable pub or_internal : {A : Type 0} → Action E A → Action E A
  or_internal m s =
      let (r, s') = m s in elim r [ ok a ↦ (ok a, s') | err st ↦ (err (with_cause st), s') ]

  -- A transaction that ends with an error is rolled back.
  unfoldable pub revert : {A : Type 0} → Action E A → Action E A
  revert m s =
      let (r, s') = m s in
      elim r [ ok a ↦ (ok a, s') | err st ↦ (err st, record s' { tables = s.tables }) ]
