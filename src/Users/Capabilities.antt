-- ===== src/Users/Capabilities.antt =====
-- be/tasks/update_user_task.go: the capabilities of a user after a change.
use pixur.Base.{
  ◌≡◌, ◌∙◌, refl, sym, ap, arith, Bool, true, false, ◌&&◌, ◌||◌, not, Option, none, some, List, [],
  ◌∷◌, Bool-cases, inl, inr,
}
use pixur.Base.Int.{eqb_ℤ, ltb_ℤ, eqb_ℤ_iff}
use pixur.CapSet.{Capability, contains}
use pixur.Schema.{Time, User}
use pixur.Users.{
  insert_cap, insert_caps, delete_cap, delete_caps, insert_sorted, sort_caps, same_caps,
  change_caps, changed_user,
}

eqb_at : (c x d : Capability) → eqb_ℤ c x ≡ true → eqb_ℤ x d ≡ eqb_ℤ c d
eqb_at c x d e = ap (λ y. eqb_ℤ y d) (sym ((eqb_ℤ_iff c x).0 e))

contains-insert_cap :
    (c d : Capability) (xs : List Capability)
    → contains (insert_cap c xs) d ≡ (eqb_ℤ c d || contains xs d)
contains-insert_cap c d [] = refl
contains-insert_cap c d (x ∷ xs) = elim (Bool-cases (eqb_ℤ c x)) [
  | inl same ↦ rw (same, eqb_at c x d same) (twice (eqb_ℤ c d) (contains xs d))
  | inr other ↦ elim (Bool-cases (ltb_ℤ c x)) [
    | inl less ↦ rw (other, less) refl
    | inr more ↦
        rw (other, more, contains-insert_cap c d xs) (swap (eqb_ℤ x d) (eqb_ℤ c d) (contains xs d))
  ]
]
  where
    twice : (a b : Bool) → (a || b) ≡ (a || (a || b))
    twice a b = ground arith

    swap : (a b c : Bool) → (a || (b || c)) ≡ (b || (a || c))
    swap a b c = ground arith

contains-insert_caps :
    (cs xs : List Capability) (d : Capability)
    → contains (insert_caps cs xs) d ≡ (contains xs d || contains cs d)
contains-insert_caps [] xs d = ground arith
contains-insert_caps (c ∷ cs) xs d =
    contains-insert_caps cs (insert_cap c xs) d ∙ rw (contains-insert_cap c d xs) (ground arith)

contains-delete_cap :
    (c d : Capability) (xs : List Capability)
    → contains (delete_cap c xs) d ≡ (contains xs d && not (eqb_ℤ c d))
contains-delete_cap c d [] = refl
contains-delete_cap c d (x ∷ xs) = elim (Bool-cases (eqb_ℤ c x)) [
  | inl same ↦
      rw (same, eqb_at c x d same, contains-delete_cap c d xs) (gone (eqb_ℤ c d) (contains xs d))
  | inr other ↦
      rw (other, contains-delete_cap c d xs)
        (stays (eqb_ℤ x d) (eqb_ℤ c d) (contains xs d) (apart other))
]
  where
    gone : (a b : Bool) → (b && not a) ≡ ((a || b) && not a)
    gone a b = ground arith

    stays : (a b c : Bool) → (a && b) ≡ false → (a || (c && not b)) ≡ ((a || c) && not b)
    stays a b c e = ground arith

    clash : {b : Bool} → b ≡ true → b ≡ false → ⊥
    clash p q = cc

    apart : eqb_ℤ c x ≡ false → (eqb_ℤ x d && eqb_ℤ c d) ≡ false
    apart ne = elim (Bool-cases (eqb_ℤ x d)) [
      | inr no_hit ↦ rw no_hit refl
      | inl hit ↦ elim (Bool-cases (eqb_ℤ c d)) [
        | inr no_hit ↦ rw (hit, no_hit) refl
        | inl both ↦
            absurd
              (clash ((eqb_ℤ_iff c x).1 ((eqb_ℤ_iff c d).0 both ∙ sym ((eqb_ℤ_iff x d).0 hit))) ne)
      ]
    ]

contains-delete_caps :
    (cs xs : List Capability) (d : Capability)
    → contains (delete_caps cs xs) d ≡ (contains xs d && not (contains cs d))
contains-delete_caps [] xs d = ground arith
contains-delete_caps (c ∷ cs) xs d =
    contains-delete_caps cs (delete_cap c xs) d ∙ rw (contains-delete_cap c d xs) (ground arith)

-- A change adds and then takes away.
abbrev pub Grants : List Capability → List Capability → List Capability → List Capability → Type 0
Grants set clear old new =
    (c : Capability)
    → contains new c ≡ ((contains old c || contains set c) && not (contains clear c))

pub contains-change_caps :
    (set clear old : List Capability) → Grants set clear old (change_caps set clear old)
unfolding change_caps
contains-change_caps set clear old c =
    contains-delete_caps clear (insert_caps set (insert_caps old [])) c
    ∙ rw (contains-insert_caps set (insert_caps old []) c, contains-insert_caps old [] c) refl

contains-insert_sorted :
    (c d : Capability) (xs : List Capability)
    → contains (insert_sorted c xs) d ≡ (eqb_ℤ c d || contains xs d)
contains-insert_sorted c d [] = refl
contains-insert_sorted c d (x ∷ xs) = elim (Bool-cases (ltb_ℤ x c)) [
  | inl less ↦
      rw (less, contains-insert_sorted c d xs) (swap (eqb_ℤ x d) (eqb_ℤ c d) (contains xs d))
  | inr more ↦ rw more refl
]
  where
    swap : (a b c : Bool) → (a || (b || c)) ≡ (b || (a || c))
    swap a b c = ground arith

contains-sort_caps :
    (xs : List Capability) (d : Capability) → contains (sort_caps xs) d ≡ contains xs d
contains-sort_caps [] d = refl
contains-sort_caps (x ∷ xs) d =
    contains-insert_sorted x d (sort_caps xs) ∙ ap (λ b. eqb_ℤ x d || b) (contains-sort_caps xs d)

same_caps-eq : (xs ys : List Capability) → same_caps xs ys ≡ true → xs ≡ ys
same_caps-eq [] [] e = refl
same_caps-eq [] (y ∷ ys) e = cc
same_caps-eq (x ∷ xs) [] e = cc
same_caps-eq (x ∷ xs) (y ∷ ys) e =
    both ((eqb_ℤ_iff x y).0 (left (eqb_ℤ x y) (same_caps xs ys) e))
      (same_caps-eq xs ys (right (eqb_ℤ x y) (same_caps xs ys) e))
  where
    left : (a b : Bool) → (a && b) ≡ true → a ≡ true
    left a b e = ground arith

    right : (a b : Bool) → (a && b) ≡ true → b ≡ true
    right a b e = ground arith

    both : x ≡ y → xs ≡ ys → x ∷ xs ≡ y ∷ ys
    both p q = cc

pub changed_user-none :
    (now : Time) (set clear : List Capability) (ou : User)
    → changed_user now set clear ou ≡ none
    → Grants set clear ou.capability ou.capability
unfolding changed_user
changed_user-none now set clear ou e c =
    elim (Bool-cases (same_caps (change_caps set clear ou.capability) (sort_caps ou.capability))) [
      | inl same ↦
          sym (contains-sort_caps ou.capability c)
          ∙ ap (λ xs. contains xs c) (sym (same_caps-eq _ (sort_caps ou.capability) same))
          ∙ contains-change_caps set clear ou.capability c
      | inr other ↦ absurd (clash (rw (other, changed_user) at e))
    ]
  where
    clash : {u : User} → ¬ (some u ≡ none)
    clash p = cc

pub changed_user-some :
    (now : Time) (set clear : List Capability) (ou v : User)
    → changed_user now set clear ou ≡ some v
    → v ≡ record ou { capability = change_caps set clear ou.capability; modified_ts = now }
unfolding changed_user
changed_user-some now set clear ou v e =
    elim (Bool-cases (same_caps (change_caps set clear ou.capability) (sort_caps ou.capability))) [
      | inl same ↦ absurd (clash (rw (same, changed_user) at e))
      | inr other ↦ ap (λ o. user_or ou o) (sym (rw (other, changed_user) at e))
    ]
  where
    clash : ¬ (none ≡ some v)
    clash p = cc

    user_or : User → Option User → User
    user_or d none = d
    user_or d (some w) = w
