-- ===== src/Scan/Tests.antt =====
-- Runs of the range conditions, and the theorem on them at a concrete input.
use Prim.Native.Nat.{Ordering, compare}
use pixur.Base.{ℕ, ◌*◌, ◌≡◌, refl, arith, true, List, [], ◌∷◌}
use pixur.Base.Result.{ok}
use pixur.Scan.{greater, at_least, equal, zip, equals, build_ors, build_range}
use pixur.Scan.Lexicographic.{Selects, lexicographic, build_range-lexicographic}

-- A row whose column `c` has the value 10 * c.
abbrev row : ℕ → ℕ → Ordering
row c v = compare (10 * c) v

abbrev start_cols : List ℕ
start_cols = 1 ∷ 2 ∷ 3 ∷ []

abbrev start_vals : List ℕ
start_vals = 10 ∷ 20 ∷ []

-- `((A > ?) OR (A = ? AND B >= ?))`
build_range_run :
    build_range start_cols start_vals greater at_least
    ≡ ok (
      (record { col = 1; op = greater } ∷ [])
          ∷ (record { col = 1; op = equal } ∷ record { col = 2; op = at_least } ∷ [])
          ∷ [],
      10 ∷ 10 ∷ 20 ∷ [],
    )
unfolding build_range build_ors equals
build_range_run = refl

selected : lexicographic row greater at_least (zip start_cols start_vals) ≡ true
selected = refl

build_range-lexicographic_example :
    Selects row
      (build_range start_cols start_vals greater at_least)
      (lexicographic row greater at_least (zip start_cols start_vals))
build_range-lexicographic_example =
    build_range-lexicographic row greater at_least 1 (2 ∷ 3 ∷ []) 10 (20 ∷ []) (omega arith)
