-- ===== src/IdAlloc/Ranges.antt =====
-- be/schema/db/idalloc.go: the cached ranges, which ids they hold and how an id is taken.
use pixur.Base.{
  ℕ, suc, ◌+◌, ◌-◌, ◌≤◌, ◌<◌, ◌≡◌, refl, Bool, true, false, ◌&&◌, ◌||◌, none, some, List, [], ◌∷◌,
  ◌++◌, arith, ltb, leb, ◌==◌, inl, inr, Bool-cases,
}
use pixur.IdAlloc.{Range, take_id}

-- The ids that the cache holds.
abbrev pub cached : List Range → ℕ → Bool
cached [] i = false
cached (r ∷ rs) i = leb r.next i && ltb i (r.next + r.available) || cached rs i

abbrev pub sum_available : List Range → ℕ
sum_available [] = 0
sum_available (r ∷ rs) = r.available + sum_available rs

-- The ranges lie one behind the other between `lo` and `hi`.
abbrev pub IsAscending : ℕ → List Range → ℕ → Type 0
IsAscending lo [] hi = lo ≤ hi
IsAscending lo (r ∷ rs) hi = (lo ≤ r.next) × IsAscending (r.next + r.available) rs hi

pub IsAscending-le : (lo : ℕ) (rs : List Range) (hi : ℕ) → IsAscending lo rs hi → lo ≤ hi
IsAscending-le lo [] hi h = h
IsAscending-le lo (r ∷ rs) hi (h, hs) =
    omega (arith, IsAscending-le (r.next + r.available) rs hi hs)

pub IsAscending-weaken :
    (lo lo' : ℕ) (rs : List Range) (hi : ℕ)
    → lo' ≤ lo
    → IsAscending lo rs hi
    → IsAscending lo' rs hi
IsAscending-weaken lo lo' [] hi le h = omega arith
IsAscending-weaken lo lo' (r ∷ rs) hi le (h, hs) = (omega arith, hs)

-- No id below the ranges is cached, and none above.
pub cached_below :
    (lo : ℕ) (rs : List Range) (hi i : ℕ) → IsAscending lo rs hi → i < lo → cached rs i ≡ false
cached_below lo [] hi i h lt = refl
cached_below lo (r ∷ rs) hi i (h, hs) lt =
    ground (arith, cached_below (r.next + r.available) rs hi i hs (omega arith))

pub cached-lt :
    (lo : ℕ) (rs : List Range) (hi i : ℕ) → IsAscending lo rs hi → cached rs i ≡ true → i < hi
cached-lt lo [] hi i h c = cc
cached-lt lo (r ∷ rs) hi i (h, hs) c = ground (
  arith,
  cached-lt (r.next + r.available) rs hi i hs,
  IsAscending-le (r.next + r.available) rs hi hs,
)

pub cached-append :
    (rs ts : List Range) (i : ℕ) → cached (rs ++ ts) i ≡ (cached rs i || cached ts i)
cached-append [] ts i = refl
cached-append (r ∷ rs) ts i = ground (arith, cached-append rs ts i)

pub sum_available-append :
    (rs ts : List Range) → sum_available (rs ++ ts) ≡ sum_available rs + sum_available ts
sum_available-append [] ts = omega arith
sum_available-append (r ∷ rs) ts = omega (arith, sum_available-append rs ts)

-- A new range goes behind the others.
pub IsAscending-append :
    (lo : ℕ) (rs : List Range) (hi n : ℕ)
    → IsAscending lo rs hi
    → IsAscending lo (rs ++ (record { next = hi; available = n } ∷ [])) (hi + n)
IsAscending-append lo [] hi n h = (h, omega arith)
IsAscending-append lo (r ∷ rs) hi n (h, hs) =
    (h, IsAscending-append (r.next + r.available) rs hi n hs)

-- What taking an id does to the ranges.
pub record Takes (lo : ℕ) (rs : List Range) (hi id : ℕ) (rest : List Range) : Type 0 where
  pub above : lo ≤ id
  pub ascending : IsAscending (suc id) rest hi
  pub sum : sum_available rs ≡ suc (sum_available rest)
  pub members : (i : ℕ) → cached rs i ≡ (i == id || cached rest i)

-- A range after an id is taken from it.
abbrev used_once : Range → Range
used_once r = record { next = r.next + 1; available = r.available - 1 }

Takes-head :
    (lo : ℕ) (r : Range) (rs : List Range) (hi : ℕ)
    → IsAscending lo (r ∷ rs) hi
    → 0 < r.available
    → Takes lo (r ∷ rs) hi r.next (used_once r ∷ rs)
Takes-head lo r rs hi (h, hs) some_left = record {
  above = h;
  ascending = (
    omega arith,
    IsAscending-weaken (r.next + r.available) (r.next + 1 + (r.available - 1)) rs hi (omega arith)
        hs,
  );
  sum = omega arith;
  members = λ i. ground arith;
}

Takes-later :
    (lo : ℕ) (r : Range) (rs : List Range) (hi id : ℕ) (rest : List Range)
    → lo ≤ r.next
    → r.available ≡ 0
    → Takes (r.next + r.available) rs hi id rest
    → Takes lo (r ∷ rs) hi id rest
Takes-later lo r rs hi id rest h none_left t = record {
  above = omega (arith, t.above);
  ascending = t.ascending;
  sum = omega (arith, t.sum);
  members = λ i. ground (arith, t.members i);
}

pub take_id-Takes :
    (lo : ℕ) (rs : List Range) (hi id : ℕ) (rest : List Range)
    → IsAscending lo rs hi
    → take_id rs ≡ some (id, rest)
    → Takes lo rs hi id rest
unfolding take_id
take_id-Takes lo [] hi id rest h e = cc
take_id-Takes lo (r ∷ rs) hi id rest (h, hs) e = elim (Bool-cases (ltb 0 r.available)) [
  | inl full ↦
      let e' = rw full at e in
      let id_lem : id ≡ r.next = ground (arith, e') in
      let rest_lem : rest ≡ used_once r ∷ rs = ground (arith, e') in
      rw (id_lem, rest_lem) (Takes-head lo r rs hi (h, hs) (ground arith))
  | inr empty ↦
      let later = take_id-Takes (r.next + r.available) rs hi id rest hs (rw empty at e) in
      Takes-later lo r rs hi id rest h (ground arith) later
]

-- The panic is reached only with nothing left.
pub take_id-none : (rs : List Range) → take_id rs ≡ none → sum_available rs ≡ 0
unfolding take_id
take_id-none [] e = refl
take_id-none (r ∷ rs) e = ground (arith, take_id-none rs)
