-- ===== src/IdAlloc/Tests.antt =====
-- Runs of the id allocator, and the theorems on it at concrete inputs.
use pixur.Base.{ℕ, ap, ◌≡◌, refl, none, some, [], ◌∷◌, arith, ◌⊎◌}
use pixur.Base.Int.{pos}
use pixur.IdAlloc.{
  World, Answers, committed, lost, get_watermark, reserve_ids, commit_range, finish_refill, refill,
  preallocate_ids, scan_rows, take_id, allocated, alloc_id_job,
}
use pixur.IdAlloc.Refill.{
  IsValid, Grows, IsFilled, IsOrdered, preallocate_ids-Grows, preallocate_ids-IsFilled,
}
use pixur.IdAlloc.Take.{Handed, alloc_id_job-Handed}
use pixur.IdAlloc.Unique.{System, handed, Reach, here, next, IsFresh, IsDistinct, Reach-IsDistinct}

-- A new allocator on a new table.
abbrev start : World
start = record {
  alloc = record { idrs = []; total = 0; lowat = some (pos 1); hiwat = some (pos 2) };
  rows = 1 ∷ [];
}

abbrev answers : Answers ℕ
answers = record {
  begin = none;
  query = none;
  scan = none;
  rows_err = none;
  exec = none;
  commit = committed;
  rollback = none;
}

-- The connection breaks after the commit.
abbrev broken : Answers ℕ
broken = record answers { commit = lost 7 }

abbrev two_left : World
two_left = record start {
  alloc = record start.alloc { idrs = record { next = 1; available = 2 } ∷ []; total = 2 };
  rows = 3 ∷ [];
}

abbrev one_left : World
one_left = record two_left {
  alloc = record two_left.alloc { idrs = record { next = 2; available = 1 } ∷ []; total = 1 };
}

refill_run : refill answers start ≡ (none, two_left)
unfolding refill get_watermark reserve_ids scan_rows finish_refill commit_range
refill_run = refl

alloc_id_job_run : alloc_id_job answers two_left ≡ (allocated 1, one_left)
unfolding alloc_id_job take_id
alloc_id_job_run = refl

-- Without a cached id the table serves one.
alloc_id_job_empty : alloc_id_job answers start ≡ (allocated 1, record start { rows = 2 ∷ [] })
unfolding alloc_id_job reserve_ids scan_rows
alloc_id_job_empty = refl

-- The ids of a commit that is lost are lost.
refill_lost : (refill broken start).1 ≡ record start { rows = 3 ∷ [] }
unfolding refill get_watermark reserve_ids scan_rows finish_refill commit_range
refill_lost = refl

start-IsValid : IsValid start 1
start-IsValid = record { table = refl; bound = omega arith; ascending = omega arith; total = refl }

two_left-IsValid : IsValid two_left 3
two_left-IsValid = record {
  table = refl;
  bound = omega arith;
  ascending = (omega arith, omega arith);
  total = refl;
}

abbrev idle : World → World
idle w = w

preallocate_ids_run : preallocate_ids answers idle start ≡ (none, two_left)
unfolding preallocate_ids get_watermark refill reserve_ids scan_rows finish_refill commit_range
preallocate_ids_run = refl

start-IsOrdered : IsOrdered start
unfolding get_watermark
start-IsOrdered = refl

preallocate_ids-Grows_example :
    Grows start (preallocate_ids answers idle start).1 1
    ⊎ Grows start (preallocate_ids answers idle start).1 1
preallocate_ids-Grows_example =
    preallocate_ids-Grows answers idle start 1 1 start-IsValid start-IsValid

preallocate_ids-IsFilled_example : IsFilled (preallocate_ids answers idle start).1
preallocate_ids-IsFilled_example =
    preallocate_ids-IsFilled answers idle start start-IsOrdered (ap (λ r. r.0) preallocate_ids_run)

alloc_id_job-Handed_example : Handed two_left 3 1 one_left
alloc_id_job-Handed_example =
    alloc_id_job-Handed answers two_left 3 two_left-IsValid 1 one_left alloc_id_job_run

abbrev initial : System
initial = record { world = start; issued = [] }

initial-IsFresh : IsFresh initial
initial-IsFresh = record { seq = 1; valid = start-IsValid; spent = tt; distinct = tt }

abbrev handed_one : System
handed_one = record { world = record start { rows = 2 ∷ [] }; issued = 1 ∷ [] }

-- An id from the empty cache, and then one more.
two_steps : Reach ℕ initial (record { world = record start { rows = 3 ∷ [] }; issued = 2 ∷ 1 ∷ [] })
unfolding alloc_id_job reserve_ids scan_rows
two_steps =
    next (next here (handed answers 1 (record start { rows = 2 ∷ [] }) refl))
      (handed answers 2 (record start { rows = 3 ∷ [] }) refl)

Reach-IsDistinct_example : IsDistinct (2 ∷ 1 ∷ [])
Reach-IsDistinct_example = Reach-IsDistinct initial-IsFresh two_steps
