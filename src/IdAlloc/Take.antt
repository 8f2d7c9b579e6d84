-- ===== src/IdAlloc/Take.antt =====
-- be/schema/db/idalloc.go: `allocIdJob`, and that no id is handed out twice.
use mathlib.Core.Path.{subst}
use pixur.Base.{
  ℕ, suc, ◌+◌, ◌-◌, ◌≤◌, ◌<◌, ◌≡◌, ◌⊎◌, ◌≢◌, refl, ◌∙◌, ap, Bool, true, false, ◌||◌, some, List, [],
  ◌∷◌, arith, ltb, ◌==◌, ==_refl, inl, inr, Bool-cases, Option-cases,
}
use pixur.Base.Int.{pos}
use pixur.Base.Result.{Result, ok, err}
use pixur.IdAlloc.{
  Range, World, Answers, Reason, reserve_ids, take_id, Outcome, panic, allocated, finish_job,
  alloc_id_job,
}
use pixur.IdAlloc.Ranges.{
  cached, IsAscending, IsAscending-weaken, cached_below, cached-lt, take_id-Takes, take_id-none,
}
use pixur.IdAlloc.Refill.{IsValid, reserve_ids_ok}

-- After a call that returned `id`: the world is valid, the id has left the cache for good, since it
-- lies below the sequence, and it was in the cache or was the next of the sequence.
pub record Handed (w : World) (seq id : ℕ) (w' : World) : Type 0 where
  pub seq' : ℕ
  pub valid : IsValid w' seq'
  pub later : seq ≤ seq'
  pub below : id < seq'
  pub gone : cached w'.alloc.idrs id ≡ false
  pub source : (cached w.alloc.idrs id ≡ true) ⊎ (id ≡ seq)
  pub given_up : IsValid (record w { alloc = w'.alloc }) seq
  pub others : (i : ℕ) → cached w'.alloc.idrs i ≡ true → cached w.alloc.idrs i ≡ true

module _ {E : Type 0} (ans : Answers E) (w : World) (seq : ℕ) (v : IsValid w seq) where
  from_cache :
      (id : ℕ) (idrs : List Range)
      → take_id w.alloc.idrs ≡ some (id, idrs)
      → Handed w seq id
          (record w { alloc = record w.alloc { idrs = idrs; total = w.alloc.total - 1 } })
  from_cache id idrs e =
      let t = take_id-Takes 0 w.alloc.idrs seq id idrs v.ascending e in
      let was : cached w.alloc.idrs id ≡ true = t.members id ∙ rw (==_refl id) in
      record {
        seq' = seq;
        valid = record {
          table = v.table;
          bound = v.bound;
          ascending = IsAscending-weaken (suc id) 0 idrs seq (omega arith) t.ascending;
          total = omega (arith, v.total, t.sum);
        };
        later = omega arith;
        below = cached-lt 0 w.alloc.idrs seq id v.ascending was;
        gone = cached_below (suc id) idrs seq id t.ascending (omega arith);
        source = inl was;
        given_up = record {
          table = v.table;
          bound = v.bound;
          ascending = IsAscending-weaken (suc id) 0 idrs seq (omega arith) t.ascending;
          total = omega (arith, v.total, t.sum);
        };
        others = λ i c. t.members i ∙ rw c (or_true (i == id));
      }
    where
      or_true : (b : Bool) → (b || true) ≡ true
      or_true b = ground arith

  from_table :
      (num : ℕ) (rows : List ℕ)
      → reserve_ids ans (pos 1) w.rows ≡ ok (num, rows)
      → Handed w seq num (record w { rows = rows })
  from_table num rows e =
      let (first, table, some_ids, bound) =
        reserve_ids_ok ans (pos 1) seq num rows v.bound
          (subst (λ t. reserve_ids ans (pos 1) t ≡ ok (num, rows)) v.table e) in
      record {
        seq' = seq + 1;
        valid = record {
          table = table;
          bound = bound;
          ascending = raise 0 w.alloc.idrs v.ascending;
          total = v.total;
        };
        later = omega arith;
        below = omega arith;
        gone = not_cached num first;
        source = inr first;
        given_up = v;
        others = λ i c. c;
      }
    where
      raise : (lo : ℕ) (rs : List Range) → IsAscending lo rs seq → IsAscending lo rs (seq + 1)
      raise lo [] h = omega arith
      raise lo (r ∷ rs) (h, hs) = (h, raise (r.next + r.available) rs hs)

      not_cached : (n : ℕ) → n ≡ seq → cached w.alloc.idrs n ≡ false
      not_cached n e = elim (Bool-cases (cached w.alloc.idrs n)) [
        | inl c ↦ absurd (omega (arith, cached-lt 0 w.alloc.idrs seq n v.ascending c))
        | inr c ↦ c
      ]

  allocated_parts :
      (id id' : ℕ) (w1 w2 : World)
      → (let r : Outcome E × World = (allocated id', w1) in r) ≡ (allocated id, w2)
      → Handed w seq id' w1
      → Handed w seq id w2
  allocated_parts id id' w1 w2 e h =
      let same_world : w1 ≡ w2 = ap (λ r. r.1) e in
      let same_id : id' ≡ id = ground (arith, e) in
      subst (λ k. Handed w seq k w2) same_id (subst (Handed w seq id') same_world h)

  -- From a valid state, an id that allocIdJob returns was cached or next in the table, is not
  -- cached afterwards and lies below the sequence, and the state stays valid, also where the
  -- transaction is rolled back.
  pub alloc_id_job-Handed :
      (id : ℕ) (w' : World) → alloc_id_job ans w ≡ (allocated id, w') → Handed w seq id w'
  unfolding alloc_id_job
  alloc_id_job-Handed id w' e = elim (Bool-cases (ltb 0 w.alloc.total)) [
    | inl some_left ↦ elim (Option-cases (take_id w.alloc.idrs)) [
      | inl nothing ↦ absurd (not_panic (rw (some_left, nothing) at e))
      | inr ((id', idrs), found) ↦
          allocated_parts id id'
            (record w { alloc = record w.alloc { idrs = idrs; total = w.alloc.total - 1 } }) w'
            (rw (some_left, found) at e) (from_cache id' idrs found)
    ]
    | inr empty ↦ from_reserve (reserve_ids ans (pos 1) w.rows) refl (rw empty at e)
  ]
    where
      not_panic : ¬ ((let r : Outcome E × World = (panic, w) in r) ≡ (allocated id, w'))
      not_panic p = cc

      from_reserve :
          (r : Result (Reason E) (ℕ × List ℕ))
          → reserve_ids ans (pos 1) w.rows ≡ r
          → finish_job w r ≡ (allocated id, w')
          → Handed w seq id w'
      from_reserve (ok (num, rows)) found p =
          allocated_parts id num (record w { rows = rows }) w' p (from_table num rows found)
      from_reserve (err reason) found p = cc

-- From a valid state allocIdJob does not reach its panic.
pub alloc_id_job-ne-panic :
    {E : Type 0} (ans : Answers E) (w : World) (seq : ℕ)
    → IsValid w seq
    → (alloc_id_job ans w).0 ≢ panic
unfolding alloc_id_job
alloc_id_job-ne-panic ans w seq v e = ground (arith, v.total, take_id-none w.alloc.idrs)
