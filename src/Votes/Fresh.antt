-- ===== src/Votes/Fresh.antt =====
-- be/tasks/add_pic_vote.go, be/tasks/add_pic_comment_task.go: the index of a new row is a new one.
use mathlib.Core.Path.{subst}
use pixur.Base.{
  ℕ, ◌+◌, ◌≤◌, ◌<◌, ◌≡◌, refl, ap, arith, true, false, List, [], ◌∷◌, All, ◌==◌, Bool-cases, inl,
  inr,
}
use pixur.Base.Int.{ℤ, pos, negsuc, ltb_ℤ, eqb_ℤ}
use pixur.Base.Result.{Result, ok, err}
use pixur.Schema.{anonymous_user_id}
use pixur.Job.{Status}
use pixur.Votes.{max_int64, biggest_index, succ_ℤ, next_index, vote_index}

-- The result is not below where the loop starts, above every index, and not above all bounds.
biggest_index_bounds :
    (is : List ℕ) (b m : ℤ)
    → biggest_index is b ≡ m
    → (succ_ℤ b ≤ succ_ℤ m) × All (λ i. i < succ_ℤ m) is
unfolding biggest_index
biggest_index_bounds [] b m e = (rw e (omega arith), tt)
biggest_index_bounds (i ∷ is) b m e = elim (Bool-cases (ltb_ℤ b (pos i))) [
  | inl more ↦
      let (low, all) = biggest_index_bounds is (pos i) m (rw more at e) in
      (rises b i (succ_ℤ m) more low, (omega (arith, low), all))
  | inr less ↦
      let (low, all) = biggest_index_bounds is b m (rw less at e) in
      (low, (falls b i (succ_ℤ m) less low, all))
]
  where
    rises : (b : ℤ) (i m : ℕ) → ltb_ℤ b (pos i) ≡ true → i + 1 ≤ m → succ_ℤ b ≤ m
    rises (pos b) i m h le = ground arith
    rises (negsuc b) i m h le = omega arith

    falls : (b : ℤ) (i m : ℕ) → ltb_ℤ b (pos i) ≡ false → succ_ℤ b ≤ m → i < m
    falls (pos b) i m h le = ground arith
    falls (negsuc b) i m h le = cc

biggest_index-le :
    (is : List ℕ) (b m : ℤ) (top : ℕ)
    → All (λ j. j ≤ top) is
    → succ_ℤ b ≤ top + 1
    → biggest_index is b ≡ m
    → succ_ℤ m ≤ top + 1
unfolding biggest_index
biggest_index-le [] b m top h low e = rw (← e) low
biggest_index-le (i ∷ is) b m top (hi, h) low e = elim (Bool-cases (ltb_ℤ b (pos i))) [
  | inl more ↦ biggest_index-le is (pos i) m top h (omega arith) (rw more at e)
  | inr less ↦ biggest_index-le is b m top h low (rw less at e)
]

abbrev index_or : {E : Type 0} → ℕ → Result (Status E) ℕ → ℕ
index_or d (ok j) = j
index_or d (err st) = d

-- An index that is chosen lies above all indexes in use.
pub next_index_bounds :
    {E : Type 0} (is : List ℕ) (i : ℕ) → next_index {E = E} is ≡ ok i → All (λ j. j < i) is
unfolding next_index
next_index_bounds {E} is i e =
    elim (Bool-cases (eqb_ℤ (biggest_index is (negsuc 0)) (pos max_int64))) [
      | inl full ↦ absurd (clash (rw full at e))
      | inr room ↦
          let e' = rw room at e in
          subst (λ k. All (λ j. j < k) is) (ap (λ r. index_or i r) e')
            (biggest_index_bounds is (negsuc 0) (biggest_index is (negsuc 0)) refl).1
    ]
  where
    clash : {st : Status E} → ¬ (err st ≡ ok i)
    clash p = cc

-- A named user gets an index only for the first vote, and any other gets a new one.
pub vote_index_first :
    {E : Type 0} (user_id i : ℕ) (is : List ℕ)
    → vote_index {E = E} user_id is ≡ ok i
    → (user_id == anonymous_user_id) ≡ false
    → is ≡ []
unfolding vote_index
vote_index_first user_id i [] e named = refl
vote_index_first user_id i (j ∷ js) e named = cc (rw named at e)

pub vote_index_bounds :
    {E : Type 0} (user_id i : ℕ) (is : List ℕ)
    → vote_index {E = E} user_id is ≡ ok i
    → All (λ j. j < i) is
unfolding vote_index
vote_index_bounds {E} user_id i is e = elim (Bool-cases (user_id == anonymous_user_id)) [
  | inl anonymous ↦ next_index_bounds {E = E} is i (rw anonymous at e)
  | inr named ↦ rw (vote_index_first {E = E} user_id i is e named) tt
]

-- If all indexes in use are int64 numbers, an index that is chosen is one too: the sum does not
-- overflow.
pub next_index-le :
    {E : Type 0} (is : List ℕ) (i : ℕ)
    → All (λ j. j ≤ max_int64) is
    → next_index {E = E} is ≡ ok i
    → i ≤ max_int64
unfolding next_index
next_index-le {E} is i h e =
    elim (Bool-cases (eqb_ℤ (biggest_index is (negsuc 0)) (pos max_int64))) [
      | inl full ↦ absurd (clash (rw full at e))
      | inr room ↦
          subst (λ k. k ≤ max_int64) (ap (λ r. index_or i r) (rw room at e))
            (below (biggest_index is (negsuc 0)) room (
              biggest_index-le is (negsuc 0) (biggest_index is (negsuc 0)) max_int64 h (omega arith)
                refl))
    ]
  where
    clash : {st : Status E} → ¬ (err st ≡ ok i)
    clash p = cc

    below :
        (m : ℤ) → eqb_ℤ m (pos max_int64) ≡ false → succ_ℤ m ≤ max_int64 + 1 → succ_ℤ m ≤ max_int64
    below (pos m) h le = ground arith
    below (negsuc m) h le = omega arith

-- If all indexes in use are int64 numbers, an index that is chosen lies above all of them and is an
-- int64 number too: the sum does not overflow.
pub next_index_range :
    {E : Type 0} (is : List ℕ) (i : ℕ)
    → All (λ j. j ≤ max_int64) is
    → next_index {E = E} is ≡ ok i
    → All (λ j. j < i) is × (i ≤ max_int64)
next_index_range {E} is i h e = (next_index_bounds {E = E} is i e, next_index-le {E = E} is i h e)
