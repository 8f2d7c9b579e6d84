-- ===== src/IdAlloc.antt =====
-- be/schema/db/idalloc.go: ids for new rows, from a cache of ranges that is filled from a sequence
-- table. An id is a non-negative int64, a watermark any int64; the lock makes each locked section
-- one step. What the database answers, and what the other goroutines do while the lock is free, are
-- arguments.
pub mod Ranges
pub mod Refill
pub mod Take
pub mod Unique
pub mod Tests
use pixur.Base.{
  ℕ, suc, ◌+◌, ◌-◌, ◌^◌, Bool, true, false, Option, none, some, List, [], ◌∷◌, ◌++◌, map, ltb, leb,
  ◌==◌, if◌then◌else◌,
}
use pixur.Base.Int.{ℤ, pos, negsuc, ltb_ℤ}
use pixur.Base.Result.{Result, ok, err, ◌>>=◌, ◌>>◌}

-- `idRange`
pub record Range : Type 0 where
  pub next : ℕ
  pub available : ℕ

pub record IdAlloc : Type 0 where
  pub idrs : List Range
  pub total : ℕ
  pub lowat : Option ℤ
  pub hiwat : Option ℤ

-- The allocator and the rows of the sequence table.
pub record World : Type 0 where
  pub alloc : IdAlloc
  pub rows : List ℕ

abbrev pub max_int64 : ℕ
max_int64 = 2 ^ 63 - 1

-- `getWatermarkLocked`, with the defaults 1 and 10.
pub get_watermark : IdAlloc → ℤ × ℤ
get_watermark a = elim a.lowat [
  | none ↦ (pos 1, pos 10)
  | some lo ↦ elim a.hiwat [ none ↦ (pos 1, pos 10) | some hi ↦ (lo, hi) ]
]

-- `SetWatermark`; `none` is the panic.
pub set_watermark : ℤ → ℤ → IdAlloc → Option IdAlloc
set_watermark newlo newhi a =
    if ltb_ℤ newhi newlo then none else some (record a { lowat = some newlo; hiwat = some newhi })

-- `available >= lowat`
abbrev pub enough : ℕ → ℤ → Bool
enough available (pos lowat) = leb lowat available
enough available (negsuc lowat) = true

-- `hiwat - available`
abbrev pub shortage : ℤ → ℕ → ℤ
shortage (pos hiwat) available =
    if leb available hiwat then pos (hiwat - available) else negsuc (available - hiwat - 1)
shortage (negsuc hiwat) available = negsuc (hiwat + available)

-- `grab` as a size, once it is known to be positive.
abbrev pub count : ℤ → ℕ
count (pos n) = n
count (negsuc n) = 0

-- What the allocator reports; `E` is the type of the database's own errors.
pub data Reason (E : Type 0) : Type 0 where
  database : E → Reason E
  grab_too_low too_many_rows too_few_rows overflow : Reason E

-- A status with the errors that it suppressed.
pub record Failure (E : Type 0) : Type 0 where
  pub reason : Reason E
  pub suppressed : List (Reason E)

-- How a commit ends: `lost` is an error after the database has taken the changes.
pub data CommitAnswer (E : Type 0) : Type 0 where
  committed : CommitAnswer E
  refused lost : E → CommitAnswer E

-- The database's answers in one transaction.
pub record Answers (E : Type 0) : Type 0 where
  pub begin : Option E
  pub query : Option E
  pub scan : Option E
  pub rows_err : Option E
  pub exec : Option E
  pub commit : CommitAnswer E
  pub rollback : Option E

module _ {E : Type 0} (ans : Answers E) where
  -- `if err != nil { return status.From(err) }`
  abbrev check : Option E → Result (Reason E) (Unit {0})
  check none = ok tt
  check (some e) = err (database e)

  -- The loop over the rows of the query; `done` is set once a number has been read.
  scan_rows : List ℕ → Option ℕ → Result (Reason E) (Option ℕ)
  scan_rows [] num = ok num
  scan_rows (r ∷ rs) (some num) = err too_many_rows
  scan_rows (r ∷ rs) none = elim ans.scan [
    | some e ↦ err (database e)
    | none ↦ scan_rows rs (some r)
  ]

  abbrev require : Option ℕ → Result (Reason E) ℕ
  require none = err too_few_rows
  require (some num) = ok num

  -- `reserveIds`: the first id of the range, and the table as the transaction leaves it.
  pub reserve_ids : ℤ → List ℕ → Result (Reason E) (ℕ × List ℕ)
  unfolding scan_rows
  reserve_ids (negsuc grab) rows = err grab_too_low
  reserve_ids (pos grab) rows = if ltb grab 1 then err grab_too_low else (do
    check ans.query
    scanned ← scan_rows rows none
    check ans.rows_err
    num ← require scanned
    if ltb (max_int64 - num) grab
        then err overflow
        else (do check ans.exec; ok (num, map (λ _. num + grab) rows)))

  -- The deferred rollback of a transaction that is not committed.
  abbrev roll_back : Option (Reason E) → Option (Failure E)
  roll_back o = elim ans.rollback [
    | none ↦ elim o [ none ↦ none | some r ↦ some (record { reason = r; suppressed = [] }) ]
    | some e ↦ elim o [
      | none ↦ some (record { reason = database e; suppressed = [] })
      | some r ↦ some (record { reason = r; suppressed = database e ∷ [] })
    ]
  ]

  -- The end of `preallocateIds`: the commit, and what it adds to the allocator.
  pub commit_range : World → ℕ → ℕ → List ℕ → CommitAnswer E → Option (Failure E) × World
  commit_range w grab next rows (refused e) = (roll_back (some (database e)), w)
  commit_range w grab next rows (lost e) = (roll_back (some (database e)), record w { rows = rows })
  commit_range w grab next rows committed = (
    none,
    record {
      alloc = record w.alloc {
        idrs = w.alloc.idrs ++ (record { next = next; available = grab } ∷ []);
        total = w.alloc.total + grab;
      };
      rows = rows;
    },
  )

  pub finish_refill : World → ℕ → Result (Reason E) (ℕ × List ℕ) → Option (Failure E) × World
  unfolding commit_range
  finish_refill w grab (err r) = (roll_back (some r), w)
  finish_refill w grab (ok (next, rows)) = commit_range w grab next rows ans.commit

  -- The part of `preallocateIds` that holds both the transaction and the lock.
  pub refill : World → Option (Failure E) × World
  refill w =
      let (lowat, hiwat) = get_watermark w.alloc in
      let grab = shortage hiwat w.alloc.total in
      if enough w.alloc.total lowat
      then (roll_back none, w)
      else finish_refill w (count grab) (reserve_ids grab w.rows)

  -- `preallocateIds`. `others` is what happens between the two locked sections.
  pub preallocate_ids : (World → World) → World → Option (Failure E) × World
  preallocate_ids others w =
      if enough w.alloc.total (get_watermark w.alloc).0 then (none, w) else elim ans.begin [
        | some e ↦ (some (record { reason = database e; suppressed = [] }), others w)
        | none ↦ refill (others w)
      ]

-- The loop of `allocIdJob` over the ranges: the id and the ranges that are left, from the one that
-- served it on. `none` is the panic.
pub take_id : List Range → Option (ℕ × List Range)
take_id [] = none
take_id (idr ∷ idrs) =
    if ltb 0 idr.available
    then some (idr.next, record { next = idr.next + 1; available = idr.available - 1 } ∷ idrs)
    else take_id idrs

-- What a call of `allocIdJob` returns.
pub data Outcome (E : Type 0) : Type 0 where
  panic : Outcome E
  failed : Reason E → Outcome E
  allocated : ℕ → Outcome E

-- Where the cache is empty `allocIdJob` returns the id that it reserved, and the cache stays.
abbrev pub finish_job : {E : Type 0} → World → Result (Reason E) (ℕ × List ℕ) → Outcome E × World
finish_job w (err r) = (failed r, w)
finish_job w (ok (id, rows)) = (allocated id, record w { rows = rows })

-- `allocIdJob` in a transaction that the caller commits: the world's rows are the transaction's.
pub alloc_id_job : {E : Type 0} → Answers E → World → Outcome E × World
alloc_id_job ans w =
    if ltb 0 w.alloc.total
    then elim (take_id w.alloc.idrs) [
      | none ↦ (panic, w)
      | some (id, idrs) ↦ (
        allocated id,
        record w { alloc = record w.alloc { idrs = idrs; total = w.alloc.total - 1 } },
      )
    ]
    else finish_job w (reserve_ids ans (pos 1) w.rows)
