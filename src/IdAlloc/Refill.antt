-- ===== src/IdAlloc/Refill.antt =====
-- be/schema/db/idalloc.go: `reserveIds` and `preallocateIds`: what is cached stays cached, and what is
-- new to the cache is new to the sequence.
use mathlib.Core.Path.{subst}
use pixur.Base.{
  ℕ, ◌+◌, ◌≤◌, ◌<◌, ◌≡◌, ◌⊎◌, refl, true, false, none, some, List, [], ◌∷◌, ◌++◌, arith, inl, inr,
  Bool-cases, Option-cases,
}
use pixur.Base.Int.{ℤ, pos, negsuc, ltb_ℤ}
use pixur.Base.Result.{Result, ok, err}
use pixur.IdAlloc.{
  Range, World, Answers, Reason, Failure, CommitAnswer, committed, refused, lost, max_int64, count,
  shortage, enough, get_watermark, reserve_ids, commit_range, finish_refill, refill,
  preallocate_ids,
}
use pixur.IdAlloc.Ranges.{
  cached, sum_available, IsAscending, IsAscending-append, cached-append, sum_available-append,
}

-- The sequence table has its one row, `seq`; the cached ranges lie below it, one behind the other;
-- and the total is their sum.
pub record IsValid (w : World) (seq : ℕ) : Type 0 where
  pub table : w.rows ≡ seq ∷ []
  pub bound : seq ≤ max_int64
  pub ascending : IsAscending 0 w.alloc.idrs seq
  pub total : w.alloc.total ≡ sum_available w.alloc.idrs

-- What `reserveIds` returns and leaves in the table, if it succeeds.
pub reserve_ids_ok :
    {E : Type 0} (ans : Answers E) (grab : ℤ) (seq num : ℕ) (rows : List ℕ)
    → seq ≤ max_int64
    → reserve_ids ans grab (seq ∷ []) ≡ ok (num, rows)
    → (num ≡ seq)
      × (rows ≡ (seq + count grab) ∷ [])
      × (1 ≤ count grab)
      × (seq + count grab ≤ max_int64)
unfolding reserve_ids
reserve_ids_ok ans (negsuc grab) seq num rows h e = cc
reserve_ids_ok ans (pos grab) seq num rows h e = ground arith

-- The world after a step of the allocator: it is valid again, the sequence has not gone back, no id
-- has left the cache, and an id that is new to it was not below the old sequence.
pub record Grows (w w' : World) (seq : ℕ) : Type 0 where
  pub seq' : ℕ
  pub valid : IsValid w' seq'
  pub later : seq ≤ seq'
  pub kept : (i : ℕ) → cached w.alloc.idrs i ≡ true → cached w'.alloc.idrs i ≡ true
  pub fresh : (i : ℕ) → i < seq → cached w'.alloc.idrs i ≡ cached w.alloc.idrs i

Grows-refl : (w : World) (seq : ℕ) → IsValid w seq → Grows w w seq
Grows-refl w seq v = record {
  seq' = seq;
  valid = v;
  later = omega arith;
  kept = λ i c. c;
  fresh = λ i lt. refl;
}

-- The table moves on and the allocator stays.
pub Grows-rows :
    (w : World) (seq n : ℕ)
    → IsValid w seq
    → seq + n ≤ max_int64
    → Grows w (record w { rows = (seq + n) ∷ [] }) seq
Grows-rows w seq n v h = record {
  seq' = seq + n;
  valid = record {
    table = refl;
    bound = h;
    ascending = raise 0 w.alloc.idrs v.ascending;
    total = v.total;
  };
  later = omega arith;
  kept = λ i c. c;
  fresh = λ i lt. refl;
}
  where
    raise : (lo : ℕ) (rs : List Range) → IsAscending lo rs seq → IsAscending lo rs (seq + n)
    raise lo [] h = omega arith
    raise lo (r ∷ rs) (h, hs) = (h, raise (r.next + r.available) rs hs)

abbrev grown : World → ℕ → ℕ → World
grown w seq n = record {
  alloc = record w.alloc {
    idrs = w.alloc.idrs ++ (record { next = seq; available = n } ∷ []);
    total = w.alloc.total + n;
  };
  rows = (seq + n) ∷ [];
}

Grows-grown :
    (w : World) (seq n : ℕ) → IsValid w seq → seq + n ≤ max_int64 → Grows w (grown w seq n) seq
Grows-grown w seq n v h = record {
  seq' = seq + n;
  valid = record {
    table = refl;
    bound = h;
    ascending = IsAscending-append 0 w.alloc.idrs seq n v.ascending;
    total = omega (
      arith,
      v.total,
      sum_available-append w.alloc.idrs (record { next = seq; available = n } ∷ []),
    );
  };
  later = omega arith;
  kept = λ i c. rw (cached-append w.alloc.idrs (record { next = seq; available = n } ∷ []) i, c);
  fresh = λ i lt.
      ground (arith, cached-append w.alloc.idrs (record { next = seq; available = n } ∷ []) i);
}

module _ {E : Type 0} (ans : Answers E) (w : World) (seq : ℕ) (v : IsValid w seq) where
  commit_range-Grows :
      (grab : ℕ) (c : CommitAnswer E)
      → seq + grab ≤ max_int64
      → Grows w (commit_range ans w grab seq ((seq + grab) ∷ []) c).1 seq
  unfolding commit_range
  commit_range-Grows grab (refused e) h = Grows-refl w seq v
  commit_range-Grows grab (lost e) h = Grows-rows w seq grab v h
  commit_range-Grows grab committed h = Grows-grown w seq grab v h

  finish_refill-Grows :
      (grab : ℤ) (r : Result (Reason E) (ℕ × List ℕ))
      → reserve_ids ans grab w.rows ≡ r
      → Grows w (finish_refill ans w (count grab) r).1 seq
  unfolding finish_refill
  finish_refill-Grows grab (err r) e = Grows-refl w seq v
  finish_refill-Grows grab (ok (num, rows)) e =
      let (first, table, some_ids, bound) =
        reserve_ids_ok ans grab seq num rows v.bound
          (subst (λ t. reserve_ids ans grab t ≡ ok (num, rows)) v.table e) in
      rw (first, table) (commit_range-Grows (count grab) ans.commit bound)

  -- The locked part of `preallocateIds`.
  pub refill-Grows : Grows w (refill ans w).1 seq
  unfolding refill
  refill-Grows =
      let (lowat, hiwat) = get_watermark w.alloc in
      let grab = shortage hiwat w.alloc.total in
      elim (Bool-cases (enough w.alloc.total lowat)) [
        | inl full ↦ rw full (Grows-refl w seq v)
        | inr short ↦ rw short (finish_refill-Grows grab (reserve_ids ans grab w.rows) refl)
      ]

-- From valid states, preallocateIds keeps the state valid whatever the database answers: no cached
-- id is lost, the sequence does not go back, and an id that is new to the cache was not below it.
-- What it starts from is the state before the call, or the one at the second lock.
pub preallocate_ids-Grows :
    {E : Type 0} (ans : Answers E) (others : World → World) (w : World) (seq seq' : ℕ)
    → IsValid w seq
    → IsValid (others w) seq'
    → Grows w (preallocate_ids ans others w).1 seq
      ⊎ Grows (others w) (preallocate_ids ans others w).1 seq'
unfolding preallocate_ids
preallocate_ids-Grows ans others w seq seq' v v' =
    elim (Bool-cases (enough w.alloc.total (get_watermark w.alloc).0)) [
      | inl full ↦ inl (rw full (Grows-refl w seq v))
      | inr short ↦ elim (Option-cases ans.begin) [
        | inl started ↦ inr (rw (short, started) (refill-Grows ans (others w) seq' v'))
        | inr (e, fault) ↦ inr (rw (short, fault) (Grows-refl (others w) seq' v'))
      ]
    ]

shortage_fills :
    (lowat hiwat : ℤ) (total : ℕ)
    → ltb_ℤ hiwat lowat ≡ false
    → enough total lowat ≡ false
    → enough (total + count (shortage hiwat total)) lowat ≡ true
shortage_fills (pos lowat) (pos hiwat) total h k = ground arith
shortage_fills (pos lowat) (negsuc hiwat) total h k = cc
shortage_fills (negsuc lowat) hiwat total h k = cc

-- The cache holds as many ids as the low watermark asks for.
abbrev pub IsFilled : World → Type 0
IsFilled w = enough w.alloc.total (get_watermark w.alloc).0 ≡ true

-- The watermarks are in order, as `SetWatermark` leaves them.
abbrev pub IsOrdered : World → Type 0
IsOrdered w = let (lowat, hiwat) = get_watermark w.alloc in ltb_ℤ hiwat lowat ≡ false

module _ {E : Type 0} (ans : Answers E) (w : World) where
  finish_refill-IsFilled :
      (grab : ℕ) (r : Result (Reason E) (ℕ × List ℕ))
      → enough (w.alloc.total + grab) (get_watermark w.alloc).0 ≡ true
      → (finish_refill ans w grab r).0 ≡ none
      → IsFilled (finish_refill ans w grab r).1
  unfolding finish_refill commit_range get_watermark
  finish_refill-IsFilled grab (err r) h e = ground arith
  finish_refill-IsFilled grab (ok (num, rows)) h e = ground arith

  refill-IsFilled : IsOrdered w → (refill ans w).0 ≡ none → IsFilled (refill ans w).1
  unfolding refill
  refill-IsFilled ordered e =
      let (lowat, hiwat) = get_watermark w.alloc in
      let grab = shortage hiwat w.alloc.total in
      elim (Bool-cases (enough w.alloc.total lowat)) [
        | inl full ↦ rw full full
        | inr short ↦ rw short (
            finish_refill-IsFilled (count grab) (reserve_ids ans grab w.rows)
              (shortage_fills lowat hiwat w.alloc.total ordered short) (rw short at e))
      ]

-- With the watermarks in order, when preallocateIds returns no error the cache holds at least the
-- low watermark.
pub preallocate_ids-IsFilled :
    {E : Type 0} (ans : Answers E) (others : World → World) (w : World)
    → IsOrdered (others w)
    → (preallocate_ids ans others w).0 ≡ none
    → IsFilled (preallocate_ids ans others w).1
unfolding preallocate_ids
preallocate_ids-IsFilled {E} ans others w ordered e =
    elim (Bool-cases (enough w.alloc.total (get_watermark w.alloc).0)) [
      | inl full ↦ rw full full
      | inr short ↦ elim (Option-cases ans.begin) [
        | inl started ↦
            rw (short, started) (refill-IsFilled ans (others w) ordered (rw (short, started) at e))
        | inr (x, fault) ↦ absurd (some_none (rw (short, fault) at e))
      ]
    ]
  where
    some_none : {a : Failure E} → ¬ (some a ≡ none)
    some_none p = cc
