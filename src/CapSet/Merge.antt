-- ===== src/CapSet/Merge.antt =====
-- be/schema/user.go: the merge of the two sorted slices in `CapIntersect`.
use mathlib.Core.Path.{subst}
use pixur.Base.{◌≡◌, sym, inl, inr, true, false, not, ◌&&◌, List, [], ◌∷◌, arith, Bool-cases, All}
use pixur.Base.Int.{eqb_ℤ, ltb_ℤ, eqb_ℤ_iff, ltb_ℤ_total}
use pixur.CapSet.{Capability, contains, Parts, merge}
use pixur.CapSet.Extra.{Below, IsSorted, All-lt, contains-below}

-- What the three slices of the merge hold, for one capability.
abbrev pub IsSplit :
    List Capability → List Capability → Parts (List Capability) → Capability → Type 0
IsSplit left right p d =
    (contains p.both d ≡ (contains left d && contains right d))
    × (contains p.leftonly d ≡ (contains left d && not (contains right d)))
    × (contains p.rightonly d ≡ (contains right d && not (contains left d)))

module _ (lv rv d : Capability) (left right : List Capability) (p : Parts (List Capability)) where
  IsSplit-same :
      IsSplit left right p d
      → contains left lv ≡ false
      → contains right rv ≡ false
      → eqb_ℤ lv rv ≡ true
      → IsSplit (lv ∷ left) (rv ∷ right) (record p { both = lv ∷ p.both }) d
  IsSplit-same (b, l, r) hl hr same = ground (arith, eqb_ℤ_iff lv rv, eqb_ℤ_iff lv d)

  IsSplit-left :
      IsSplit left (rv ∷ right) p d
      → contains (rv ∷ right) lv ≡ false
      → IsSplit (lv ∷ left) (rv ∷ right) (record p { leftonly = lv ∷ p.leftonly }) d
  IsSplit-left (b, l, r) hr = ground (arith, eqb_ℤ_iff lv d)

  IsSplit-right :
      IsSplit (lv ∷ left) right p d
      → contains (lv ∷ left) rv ≡ false
      → IsSplit (lv ∷ left) (rv ∷ right) (record p { rightonly = rv ∷ p.rightonly }) d
  IsSplit-right (b, l, r) hl = ground (arith, eqb_ℤ_iff rv d)

module _ (lv rv : Capability) (left right : List Capability) where
  merge-same :
      eqb_ℤ lv rv ≡ true
      → merge (lv ∷ left) (rv ∷ right)
        ≡ record (merge left right) { both = lv ∷ (merge left right).both }
  unfolding merge
  merge-same e = rw (e, merge)

  merge-left :
      eqb_ℤ lv rv ≡ false
      → ltb_ℤ lv rv ≡ true
      → merge (lv ∷ left) (rv ∷ right)
        ≡ record (merge left (rv ∷ right)) { leftonly = lv ∷ (merge left (rv ∷ right)).leftonly }
  unfolding merge
  merge-left e f = rw (e, f, merge)

  merge-right :
      eqb_ℤ lv rv ≡ false
      → ltb_ℤ lv rv ≡ false
      → merge (lv ∷ left) (rv ∷ right)
        ≡ record (merge (lv ∷ left) right) { rightonly = rv ∷ (merge (lv ∷ left) right).rightonly }
  unfolding merge
  merge-right e f = rw (e, f, merge)

merge_cases :
    (lv rv d : Capability) (left right : List Capability)
    → Below lv left
    → Below rv right
    → IsSplit left right (merge left right) d
    → IsSplit left (rv ∷ right) (merge left (rv ∷ right)) d
    → IsSplit (lv ∷ left) right (merge (lv ∷ left) right) d
    → IsSplit (lv ∷ left) (rv ∷ right) (merge (lv ∷ left) (rv ∷ right)) d
merge_cases lv rv d left right hl hr same skip_left skip_right = elim (Bool-cases (eqb_ℤ lv rv)) [
  | inl e ↦ rw (merge-same lv rv left right e) (
      IsSplit-same lv rv d left right (merge left right) same (contains-below lv left hl)
        (contains-below rv right hr) e)
  | inr other ↦ elim (Bool-cases (ltb_ℤ lv rv)) [
    | inl less ↦ rw (merge-left lv rv left right other less) (
        IsSplit-left lv rv d left right (merge left (rv ∷ right)) skip_left
          (contains-below lv (rv ∷ right) (less, All-lt lv rv right less hr)))
    | inr notless ↦
        let more = ltb_ℤ_total lv rv other notless in
        rw (merge-right lv rv left right other notless) (
          IsSplit-right lv rv d left right (merge (lv ∷ left) right) skip_right
            (contains-below rv (lv ∷ left) (more, All-lt rv lv left more hl)))
  ]
]

-- The merge splits two sorted slices into what both hold and what one alone holds.
pub merge-IsSplit :
    (left right : List Capability) (d : Capability)
    → IsSorted left
    → IsSorted right
    → IsSplit left right (merge left right) d
unfolding merge
merge-IsSplit [] right d sl sr = ground arith
merge-IsSplit (lv ∷ left) [] d sl sr = ground arith
merge-IsSplit (lv ∷ left) (rv ∷ right) d (hl, sl) (hr, sr) =
    let same = merge-IsSplit left right d sl sr in
    let skip_left = merge-IsSplit left (rv ∷ right) d sl (hr, sr) in
    let skip_right = merge-IsSplit (lv ∷ left) right d (hl, sl) sr in
    merge_cases lv rv d left right hl hr same skip_left skip_right

-- What holds of all that goes in holds of all that comes out.
module _ {ℓ} (P : Capability → Type ℓ) where
  abbrev AllParts : Parts (List Capability) → Type ℓ
  AllParts p = All P p.both × All P p.leftonly × All P p.rightonly

  pub All-merge :
      (left right : List Capability) → All P left → All P right → AllParts (merge left right)
  unfolding merge
  All-merge [] right hl hr = (tt, tt, hr)
  All-merge (lv ∷ left) [] hl hr = (tt, hl, tt)
  All-merge (lv ∷ left) (rv ∷ right) (hlv, hl) (hrv, hr) =
      let same = All-merge left right hl hr in
      let skip_left = All-merge left (rv ∷ right) hl (hrv, hr) in
      let skip_right = All-merge (lv ∷ left) right (hlv, hl) hr in
      elim (Bool-cases (eqb_ℤ lv rv)) [
        | inl e ↦ rw (merge-same lv rv left right e) ((hlv, same.0), same.1, same.2)
        | inr e ↦ elim (Bool-cases (ltb_ℤ lv rv)) [
          | inl f ↦
              rw (merge-left lv rv left right e f) (skip_left.0, (hlv, skip_left.1), skip_left.2)
          | inr f ↦
              rw (merge-right lv rv left right e f)
                (skip_right.0, skip_right.1, (hrv, skip_right.2))
        ]
      ]

abbrev SortedParts : Parts (List Capability) → Type 0
SortedParts p = IsSorted p.both × IsSorted p.leftonly × IsSorted p.rightonly

-- Each of the three slices is sorted and unique again.
pub merge-IsSorted :
    (left right : List Capability) → IsSorted left → IsSorted right → SortedParts (merge left right)
merge-IsSorted [] right sl sr = unfold merge in (tt, tt, sr)
merge-IsSorted (lv ∷ left) [] sl sr = unfold merge in (tt, sl, tt)
merge-IsSorted (lv ∷ left) (rv ∷ right) (hl, sl) (hr, sr) =
    let same = merge-IsSorted left right sl sr in
    let skip_left = merge-IsSorted left (rv ∷ right) sl (hr, sr) in
    let skip_right = merge-IsSorted (lv ∷ left) right (hl, sl) sr in
    elim (Bool-cases (eqb_ℤ lv rv)) [
      | inl e ↦
          let eq : lv ≡ rv = (eqb_ℤ_iff lv rv).0 e in
          let below : Below lv right = subst (λ x. Below x right) (sym eq) hr in
          rw (merge-same lv rv left right e)
            (((All-merge (λ y. ltb_ℤ lv y ≡ true) left right hl below).0, same.0), same.1, same.2)
      | inr e ↦ elim (Bool-cases (ltb_ℤ lv rv)) [
        | inl f ↦
            let below : Below lv (rv ∷ right) = (f, All-lt lv rv right f hr) in
            rw (merge-left lv rv left right e f) (
              skip_left.0,
              ((All-merge (λ y. ltb_ℤ lv y ≡ true) left (rv ∷ right) hl below).1, skip_left.1),
              skip_left.2,
            )
        | inr f ↦
            let more = ltb_ℤ_total lv rv e f in
            let below : Below rv (lv ∷ left) = (more, All-lt rv lv left more hl) in
            rw (merge-right lv rv left right e f) (
              skip_right.0,
              skip_right.1,
              ((All-merge (λ y. ltb_ℤ rv y ≡ true) (lv ∷ left) right below hr).2, skip_right.2),
            )
      ]
    ]
