-- ===== src/Scan.antt =====
-- be/schema/db/db.go: the condition by which a scan of an index starts or stops. A condition is kept
-- as its comparisons with a placeholder, and the arguments as the list that the placeholders take in
-- order.
pub mod Lexicographic
pub mod Tests
use pixur.Base.{ℕ, Bool, true, false, List, [], ◌∷◌, ◌++◌, map, length, ltb, if◌then◌else◌}
use pixur.Base.Result.{Result, ok, err}

-- The operators of a comparison.
pub data Op : Type 0 where
  equal less at_most greater at_least : Op

-- `Quote(col) + " " + op + " ?"`
pub record Comparison (C : Type 0) : Type 0 where
  pub col : C
  pub op : Op

pub data RangeFault : Type 0 where
  more_vals_than_cols : RangeFault

module _ {C V : Type 0} where
  -- The columns that have a value, each with it.
  abbrev pub zip : List C → List V → List (C × V)
  zip [] vs = []
  zip (c ∷ cs) [] = []
  zip (c ∷ cs) (v ∷ vs) = (c, v) ∷ zip cs vs

  -- The loop over `k`.
  pub equals : List (C × V) → List (Comparison C)
  equals [] = []
  equals ((c, v) ∷ before) = record { col = c; op = equal } ∷ equals before

  abbrev pub values : List (C × V) → List V
  values [] = []
  values ((c, v) ∷ before) = v ∷ values before

  abbrev pub group : List (C × V) → C → Op → List (Comparison C)
  group before c op = equals before ++ (record { col = c; op = op } ∷ [])

  -- The loop over `i`: `before` has the columns up to `i`. The groups of ANDs, and the arguments.
  pub build_ors : Op → Op → List (C × V) → List (C × V) → List (List (Comparison C)) × List V
  build_ors midop lastop before [] = ([], [])
  build_ors midop lastop before ((c, v) ∷ []) =
      (group before c lastop ∷ [], values before ++ (v ∷ []))
  build_ors midop lastop before ((c, v) ∷ d ∷ rest) =
      let (ors, args) = build_ors midop lastop (before ++ ((c, v) ∷ [])) (d ∷ rest) in
      (group before c midop ∷ ors, values before ++ (v ∷ args))

  -- `buildRange`
  pub build_range :
      List C → List V → Op → Op → Result RangeFault (List (List (Comparison C)) × List V)
  build_range cols vals midop lastop =
      if ltb (length cols) (length vals)
      then err more_vals_than_cols
      else ok (build_ors midop lastop [] (zip cols vals))
