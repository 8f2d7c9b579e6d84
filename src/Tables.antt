-- ===== src/Tables.antt =====
-- be/schema/tables/tables.tab.go over be/schema/db/db.go: reading and writing the rows of a table. A
-- table is the list of its rows, each with the values of its key columns; an index is given by a value
-- or nil for each of its columns. A scan's order and its lock are left out.
pub mod Rows
pub mod Pics
pub mod Comments
pub mod Users
pub mod Laws
pub mod Removal
pub mod Sample
use pixur.Base.{
  ℕ, Bool, true, false, ◌&&◌, ◌||◌, not, Option, none, some, List, [], ◌∷◌, ◌++◌, map, length, take,
  ◌==◌, if◌then◌else◌,
}
use pixur.Base.Result.{Result, ok, err}
use pixur.Schema.{Tables}
use pixur.Job.{
  Fault, duplicate_key, Status, invalid_argument, from, panic, Job, Action, pure, raise, ◌>>=◌,
  ◌>>◌, require, call, get_tables, put_tables,
}

-- The value of a column that is part of a key.
pub data Value : Type 0 where
  int : ℕ → Value
  bytes : List ℕ → Value

abbrev pub eqb_bytes : List ℕ → List ℕ → Bool
eqb_bytes [] [] = true
eqb_bytes [] (b ∷ bs) = false
eqb_bytes (a ∷ as') [] = false
eqb_bytes (a ∷ as') (b ∷ bs) = a == b && eqb_bytes as' bs

abbrev pub eqb_Value : Value → Value → Bool
eqb_Value (int a) (int b) = a == b
eqb_Value (int a) (bytes b) = false
eqb_Value (bytes a) (int b) = false
eqb_Value (bytes a) (bytes b) = eqb_bytes a b

abbrev pub Key : Type 0
Key = List Value

abbrev pub eqb_Key : Key → Key → Bool
eqb_Key [] [] = true
eqb_Key [] (v ∷ vs) = false
eqb_Key (u ∷ us) [] = false
eqb_Key (u ∷ us) (v ∷ vs) = eqb_Value u v && eqb_Key us vs

-- The columns of an index that a scan or a statement names.
abbrev pub Index : Type 0
Index = List (Option Value)

-- A column of a key with its kind of value.
abbrev pub column : {A : Type 0} → (A → Value) → Option A → Option Value
column kind none = none
column kind (some a) = some (kind a)

-- `Vals`; `done` is set at the first nil, and a value behind it is the panic, `none`.
abbrev pub vals_from : Bool → Index → Option (List Value)
vals_from done [] = some []
vals_from done (none ∷ cols) = vals_from true cols
vals_from true (some v ∷ cols) = none
vals_from false (some v ∷ cols) = elim (vals_from false cols) [
  | none ↦ none
  | some vs ↦ some (v ∷ vs)
]

abbrev pub vals : Index → Option (List Value)
vals idx = vals_from false idx

-- `appendPrefix`: each column with a value is compared with it.
abbrev pub has_prefix : List Value → Key → Bool
has_prefix [] key = true
has_prefix (v ∷ vs) [] = false
has_prefix (v ∷ vs) (k ∷ ks) = eqb_Value v k && has_prefix vs ks

module _ {R : Type 0} (key : R → Key) where
  abbrev pub select : List Value → List R → List R
  select vs [] = []
  select vs (r ∷ rs) = if has_prefix vs (key r) then r ∷ select vs rs else select vs rs

  abbrev pub has_key : Key → List R → Bool
  has_key k [] = false
  has_key k (r ∷ rs) = eqb_Key k (key r) || has_key k rs

  abbrev pub replace : Key → R → List R → List R
  replace k new [] = []
  replace k new (r ∷ rs) = (if eqb_Key k (key r) then new else r) ∷ replace k new rs

  abbrev pub remove : Key → List R → List R
  remove k [] = []
  remove k (r ∷ rs) = if eqb_Key k (key r) then remove k rs else r ∷ remove k rs

-- A table of the database: its rows, and the columns of its primary key.
pub record Table (R : Type 0) : Type 0 where
  pub rows : Tables → List R
  pub put_rows : List R → Tables → Tables
  pub key : R → Key

-- A limit of 0 is none.
abbrev pub limited : {R : Type 0} → ℕ → List R → List R
limited limit rs = if limit == 0 then rs else take limit rs

module _ {E R : Type 0} (t : Table R) where
  -- `db.Scan` with a prefix, collected by the `Find` functions.
  unfoldable pub find : Index → ℕ → Action E (List R)
  find idx limit s = elim (vals idx) [
    | none ↦ (err panic, s)
    | some vs ↦
        (do call from; tables ← get_tables; pure (limited limit (select t.key vs (t.rows tables))))
          s
  ]

  -- `db.Insert`. The database refuses a row whose key is there.
  unfoldable pub insert : R → Action E (Unit {0})
  insert r = do
    call from
    tables ← get_tables
    if has_key t.key (t.key r) (t.rows tables)
        then raise (from duplicate_key)
        else put_tables (t.put_rows (t.rows tables ++ (r ∷ [])) tables)

  -- `db.Update` of the row with the key of the new one.
  unfoldable pub update : R → Action E (Unit {0})
  update r = do
    call from
    tables ← get_tables
    put_tables (t.put_rows (replace t.key (t.key r) r (t.rows tables)) tables)

  -- `db.Delete`, which wants a value for each column of the key.
  unfoldable pub delete : Index → Action E (Unit {0})
  delete idx s = elim (vals idx) [
    | none ↦ (err panic, s)
    | some vs ↦
        (if length vs == length idx
            then (do
              call from
              tables ← get_tables
              put_tables (t.put_rows (remove t.key vs (t.rows tables)) tables))
            else raise invalid_argument)
          s
  ]
