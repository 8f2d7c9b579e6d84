-- ===== src/CapSet/Extra.antt =====
-- be/schema/user.go: the sorted slice of the capabilities outside the word.
use pixur.Base.{
  ◌≡◌, refl, inl, inr, true, false, List, [], ◌∷◌, ◌||◌, arith, if◌then◌else◌, Bool-cases, All,
}
use pixur.Base.Int.{eqb_ℤ, ltb_ℤ, eqb_ℤ_iff, ltb_ℤ_trans, ltb_ℤ_irrefl, ltb_ℤ_total}
use pixur.CapSet.{Capability, contains, add_extra}

-- The capability lies below the whole slice.
abbrev pub Below : Capability → List Capability → Type 0
Below x xs = All (λ y. ltb_ℤ x y ≡ true) xs

-- Strictly ascending: sorted and unique.
abbrev pub IsSorted : List Capability → Type 0
IsSorted [] = Unit
IsSorted (x ∷ xs) = All (λ y. ltb_ℤ x y ≡ true) xs × IsSorted xs

-- `add_extra` as an insertion by recursion.
insert : Capability → List Capability → List Capability
insert c [] = c ∷ []
insert c (x ∷ xs) = if ltb_ℤ x c then x ∷ insert c xs else if eqb_ℤ x c then x ∷ xs else c ∷ x ∷ xs

add_extra-eq-insert : (c : Capability) (xs : List Capability) → add_extra xs c ≡ insert c xs
unfolding add_extra insert
add_extra-eq-insert c [] = refl
add_extra-eq-insert c (x ∷ xs) = ground (arith, add_extra-eq-insert c xs)

contains-insert :
    (c d : Capability) (xs : List Capability)
    → contains (insert c xs) d ≡ (eqb_ℤ c d || contains xs d)
unfolding insert
contains-insert c d [] = refl
contains-insert c d (x ∷ xs) =
    ground (arith, contains-insert c d xs, eqb_ℤ_iff x c, eqb_ℤ_iff c d, eqb_ℤ_iff x d)

pub contains-add_extra :
    (c d : Capability) (xs : List Capability)
    → contains (add_extra xs c) d ≡ (eqb_ℤ c d || contains xs d)
contains-add_extra c d xs = rw (add_extra-eq-insert c xs) (contains-insert c d xs)

All-insert {ℓ} :
    (P : Capability → Type ℓ) (c : Capability) (xs : List Capability)
    → P c
    → All P xs
    → All P (insert c xs)
unfolding insert
All-insert P c [] h hs = (h, tt)
All-insert P c (x ∷ xs) h (hx, hs) = elim (Bool-cases (ltb_ℤ x c)) [
  | inl less ↦ rw less (hx, All-insert P c xs h hs)
  | inr notless ↦ elim (Bool-cases (eqb_ℤ x c)) [
    | inl same ↦ rw (notless, same) (hx, hs)
    | inr other ↦ rw (notless, other) (h, (hx, hs))
  ]
]

-- What lies below the head of a sorted slice lies below all of it.
pub All-lt :
    (c x : Capability) (xs : List Capability)
    → ltb_ℤ c x ≡ true
    → All (λ y. ltb_ℤ x y ≡ true) xs
    → All (λ y. ltb_ℤ c y ≡ true) xs
All-lt c x [] h hs = tt
All-lt c x (y ∷ ys) h (hy, hs) = (ltb_ℤ_trans c x y h hy, All-lt c x ys h hs)

insert-IsSorted : (c : Capability) (xs : List Capability) → IsSorted xs → IsSorted (insert c xs)
unfolding insert
insert-IsSorted c [] s = (tt, tt)
insert-IsSorted c (x ∷ xs) (hx, s) = elim (Bool-cases (ltb_ℤ x c)) [
  | inl less ↦ rw less (All-insert (λ y. ltb_ℤ x y ≡ true) c xs less hx, insert-IsSorted c xs s)
  | inr notless ↦ elim (Bool-cases (eqb_ℤ x c)) [
    | inl same ↦ rw (notless, same) (hx, s)
    | inr other ↦
        let above = ltb_ℤ_total x c other notless in
        rw (notless, other) ((above, All-lt c x xs above hx), (hx, s))
  ]
]

pub add_extra-IsSorted :
    (c : Capability) (xs : List Capability) → IsSorted xs → IsSorted (add_extra xs c)
add_extra-IsSorted c xs s = rw (add_extra-eq-insert c xs) (insert-IsSorted c xs s)

pub All-add_extra {ℓ} :
    (P : Capability → Type ℓ) (c : Capability) (xs : List Capability)
    → P c
    → All P xs
    → All P (add_extra xs c)
All-add_extra P c xs h hs = rw (add_extra-eq-insert c xs) (All-insert P c xs h hs)

-- A capability below every element is not in the slice.
pub contains-below :
    (d : Capability) (xs : List Capability) → All (λ y. ltb_ℤ d y ≡ true) xs → contains xs d ≡ false
contains-below d [] h = refl
contains-below d (x ∷ xs) (hx, hs) =
    ground (arith, contains-below d xs hs, eqb_ℤ_iff x d, ltb_ℤ_irrefl d)
