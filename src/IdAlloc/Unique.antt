-- ===== src/IdAlloc/Unique.antt =====
-- be/schema/db/idalloc.go: a server's life as a sequence of steps of its allocator, with other servers
-- on the same table: no id is handed out twice.
use pixur.Base.{
  ℕ, ◌+◌, ◌≤◌, ◌<◌, ◌≡◌, ◌≢◌, ◌∙◌, sym, ap, ◌⊎◌, true, false, none, some, List, [], ◌∷◌, arith, inl,
  inr, Bool-cases, All,
}
use pixur.Base.Int.{ℤ, ltb_ℤ}
use pixur.IdAlloc.{
  IdAlloc, World, Answers, max_int64, set_watermark, allocated, alloc_id_job, refill,
}
use pixur.IdAlloc.Ranges.{cached}
use pixur.IdAlloc.Refill.{IsValid, Grows, Grows-rows, refill-Grows}
use pixur.IdAlloc.Take.{Handed, alloc_id_job-Handed}

-- The world, with the ids that went into committed transactions, the last one first.
pub record System : Type 0 where
  pub world : World
  pub issued : List ℕ

-- A refill; an id in a transaction that commits, or in one that is rolled back; new watermarks; and
-- another server that takes `n` ids from the table.
pub data Step (E : Type 0) (s : System) : System → Type 0 where
  refilled : (ans : Answers E) → Step E s (record s { world = (refill ans s.world).1 })
  handed :
      (ans : Answers E) (id : ℕ) (w' : World)
      → alloc_id_job ans s.world ≡ (allocated id, w')
      → Step E s (record { world = w'; issued = id ∷ s.issued })
  dropped :
      (ans : Answers E) (id : ℕ) (w' : World)
      → alloc_id_job ans s.world ≡ (allocated id, w')
      → Step E s (record s { world = record s.world { alloc = w'.alloc } })
  marked :
      (lowat hiwat : ℤ) (a : IdAlloc)
      → set_watermark lowat hiwat s.world.alloc ≡ some a
      → Step E s (record s { world = record s.world { alloc = a } })
  elsewhere :
      (seq n : ℕ)
      → s.world.rows ≡ seq ∷ []
      → seq + n ≤ max_int64
      → Step E s (record s { world = record s.world { rows = (seq + n) ∷ [] } })

pub data Reach (E : Type 0) (s : System) : System → Type 0 where
  here : Reach E s s
  next : {t u : System} → Reach E s t → Step E t u → Reach E s u

-- All ids of the list differ.
abbrev pub IsDistinct : List ℕ → Type 0
IsDistinct [] = Unit
IsDistinct (i ∷ is) = All (λ j. i ≢ j) is × IsDistinct is

-- An id that is spent is below the sequence and in no range.
abbrev Spent : World → ℕ → List ℕ → Type 0
Spent w seq = All (λ i. (i < seq) × (cached w.alloc.idrs i ≡ false))

pub record IsFresh (s : System) : Type 0 where
  pub seq : ℕ
  pub valid : IsValid s.world seq
  pub spent : Spent s.world seq s.issued
  pub distinct : IsDistinct s.issued

Spent-Grows :
    (w w' : World) (seq : ℕ) (is : List ℕ) (g : Grows w w' seq)
    → Spent w seq is
    → Spent w' g.seq' is
Spent-Grows w w' seq [] g h = tt
Spent-Grows w w' seq (i ∷ is) g ((lt, out), h) =
    ((omega (arith, g.later), g.fresh i lt ∙ out), Spent-Grows w w' seq is g h)

-- Ids stay spent where ranges lose ids and the sequence grows.
Spent-shrink :
    (w w' : World) (seq seq' : ℕ) (is : List ℕ)
    → seq ≤ seq'
    → ((i : ℕ) → cached w'.alloc.idrs i ≡ true → cached w.alloc.idrs i ≡ true)
    → Spent w seq is
    → Spent w' seq' is
Spent-shrink w w' seq seq' [] le sub h = tt
Spent-shrink w w' seq seq' (i ∷ is) le sub ((lt, out), h) = (
  (omega arith, still (Bool-cases (cached w'.alloc.idrs i))),
  Spent-shrink w w' seq seq' is le sub h,
)
  where
    still :
        (cached w'.alloc.idrs i ≡ true) ⊎ (cached w'.alloc.idrs i ≡ false)
        → cached w'.alloc.idrs i ≡ false
    still (inl c) = absurd (clash (sub i c) out)
      where
        clash : cached w.alloc.idrs i ≡ true → cached w.alloc.idrs i ≡ false → ⊥
        clash p q = cc
    still (inr c) = c

-- A handed id differs from all that are spent.
Handed-ne :
    (w w' : World) (seq id : ℕ) (is : List ℕ)
    → Handed w seq id w'
    → Spent w seq is
    → All (λ j. id ≢ j) is
Handed-ne w w' seq id [] h s = tt
Handed-ne w w' seq id (j ∷ is) h ((lt, out), s) = (differs h.source, Handed-ne w w' seq id is h s)
  where
    differs : (cached w.alloc.idrs id ≡ true) ⊎ (id ≡ seq) → id ≢ j
    differs (inl c) e = clash (sym (ap (cached w.alloc.idrs) e) ∙ c) out
      where
        clash : cached w.alloc.idrs j ≡ true → cached w.alloc.idrs j ≡ false → ⊥
        clash p q = cc
    differs (inr at) e = omega arith

-- New watermarks leave the cache alone.
set_watermark_keeps :
    (lowat hiwat : ℤ) (a a' : IdAlloc)
    → set_watermark lowat hiwat a ≡ some a'
    → (a'.idrs ≡ a.idrs) × (a'.total ≡ a.total)
unfolding set_watermark
set_watermark_keeps lowat hiwat a a' e = elim (Bool-cases (ltb_ℤ hiwat lowat)) [
  | inl wrong ↦ absurd (clash (rw wrong at e))
  | inr fine ↦ let e' = rw fine at e in (ground (arith, e'), ground (arith, e'))
]
  where
    clash : ¬ (none ≡ some a')
    clash p = cc

pub Step-IsFresh : {E : Type 0} {s t : System} → Step E s t → IsFresh s → IsFresh t
Step-IsFresh {s = s} (refilled ans) f =
    let g = refill-Grows ans s.world f.seq f.valid in
    record {
      seq = g.seq';
      valid = g.valid;
      spent = Spent-Grows s.world (refill ans s.world).1 f.seq s.issued g f.spent;
      distinct = f.distinct;
    }
Step-IsFresh {s = s} (handed ans id w' e) f =
    let h = alloc_id_job-Handed ans s.world f.seq f.valid id w' e in
    record {
      seq = h.seq';
      valid = h.valid;
      spent = (
        (h.below, h.gone),
        Spent-shrink s.world w' f.seq h.seq' s.issued h.later h.others f.spent,
      );
      distinct = (Handed-ne s.world w' f.seq id s.issued h f.spent, f.distinct);
    }
Step-IsFresh {s = s} (dropped ans id w' e) f =
    let h = alloc_id_job-Handed ans s.world f.seq f.valid id w' e in
    record {
      seq = f.seq;
      valid = h.given_up;
      spent = Spent-shrink s.world w' f.seq f.seq s.issued (omega arith) h.others f.spent;
      distinct = f.distinct;
    }
Step-IsFresh {s = s} (marked lowat hiwat a e) f =
    let (idrs, total) = set_watermark_keeps lowat hiwat s.world.alloc a e in
    record {
      seq = f.seq;
      valid = record {
        table = f.valid.table;
        bound = f.valid.bound;
        ascending = rw idrs f.valid.ascending;
        total = rw (idrs, total) f.valid.total;
      };
      spent =
          Spent-shrink s.world (record s.world { alloc = a }) f.seq f.seq s.issued (omega arith)
            (λ i c. rw idrs at c) f.spent;
      distinct = f.distinct;
    }
Step-IsFresh {s = s} (elsewhere seq n e h) f =
    let here_too : seq ≡ f.seq = ground (arith, sym e ∙ f.valid.table) in
    let g = Grows-rows s.world f.seq n f.valid (omega arith) in
    let after = record s.world { rows = (f.seq + n) ∷ [] } in
    rw here_too (record {
      seq = g.seq';
      valid = g.valid;
      spent = Spent-Grows s.world after f.seq s.issued g f.spent;
      distinct = f.distinct;
    })

Reach-IsFresh : {E : Type 0} {s t : System} → IsFresh s → Reach E s t → IsFresh t
Reach-IsFresh f here = f
Reach-IsFresh f (next r st) = Step-IsFresh st (Reach-IsFresh f r)

-- From a fresh system, after any steps of the allocator (a refill, an id in a transaction that
-- commits or is rolled back, new watermarks, another server that takes ids from the table), the ids
-- in committed transactions all differ.
pub Reach-IsDistinct : {E : Type 0} {s t : System} → IsFresh s → Reach E s t → IsDistinct t.issued
Reach-IsDistinct f r = (Reach-IsFresh f r).distinct
