-- ===== src/CapSet/Contents.antt =====
-- be/schema/user.go: `Size` and `Slice` against membership.
use pixur.Base.{
  ◌+◌, ◌≡◌, refl, ◌∙◌, sym, inl, inr, ◌↔◌, Bool, true, false, ◌||◌, List, [], ◌∷◌, ◌++◌, arith, ltb,
  Bool-cases, length, All,
}
use pixur.Base.Bits.{test_bit}
use pixur.Base.Int.{pos, negsuc, eqb_ℤ, eqb_ℤ_iff}
use pixur.CapSet.{Capability, CapSet, contains, in_word, has, size, slice, slice_word, ones_count}
use pixur.CapSet.Words.{
  ones_count-zero, ones_count-eq_zero, contains-slice_word, slice_word-in_word,
}
use pixur.CapSet.Members.{IsValid, has_word, has_extra}

contains-append :
    (xs ys : List Capability) (d : Capability)
    → contains (xs ++ ys) d ≡ (contains xs d || contains ys d)
contains-append [] ys d = refl
contains-append (x ∷ xs) ys d = ground (arith, contains-append xs ys d)

contains_outside :
    (xs : List Capability) (d : Capability)
    → All (λ x. in_word x ≡ false) xs
    → in_word d ≡ true
    → contains xs d ≡ false
contains_outside [] d h dw = refl
contains_outside (x ∷ xs) d (hx, hs) dw = elim (Bool-cases (eqb_ℤ x d)) [
  | inl same ↦ let e : x ≡ d = (eqb_ℤ_iff x d).0 same in cc
  | inr other ↦ rw (other, contains_outside xs d hs dw)
]

-- Slice lists exactly the members of a well formed set.
pub contains-slice : (cs : CapSet) (d : Capability) → IsValid cs → contains (slice cs) d ≡ has cs d
unfolding slice
contains-slice cs d v = elim (Bool-cases (in_word d)) [
  | inl dw ↦ rw (contains-append (slice_word 64 cs.c) cs.extra d) (inside d dw)
  | inr dx ↦ rw (
    contains-append (slice_word 64 cs.c) cs.extra d,
    slice_word-in_word 64 cs.c d dx,
    has_extra cs d dx,
  )
]
  where
    inside :
        (d : Capability)
        → in_word d ≡ true
        → (contains (slice_word 64 cs.c) d || contains cs.extra d) ≡ has cs d
    inside (pos n) dw =
        rw
          (
            contains_outside cs.extra (pos n) v.outside dw,
            contains-slice_word n cs.c (ground arith),
            has_word cs n dw,
          )
          (or_false (test_bit n cs.c))
      where
        or_false : (b : Bool) → (b || false) ≡ b
        or_false b = ground arith
    inside (negsuc n) dw = cc

eqb_refl : (x : Capability) → eqb_ℤ x x ≡ true
eqb_refl x = (eqb_ℤ_iff x x).1 refl

-- `Size` is zero exactly for a set with no member.
pub size_zero : (cs : CapSet) → IsValid cs → (size cs ≡ 0) ↔ ((d : Capability) → has cs d ≡ false)
unfolding size
size_zero cs v = (empty, counted cs.extra v.outside refl)
  where
    none_in : (xs : List Capability) → length xs ≡ 0 → (d : Capability) → contains xs d ≡ false
    none_in [] e d = refl
    none_in (x ∷ xs) e d = absurd (omega arith)

    empty : ones_count 64 cs.c + length cs.extra ≡ 0 → (d : Capability) → has cs d ≡ false
    empty e (pos n) = elim (Bool-cases (ltb n 64)) [
      | inl dw ↦ rw (has_word cs n dw) (ones_count-zero 64 n cs.c (omega arith) (ground arith))
      | inr dx ↦ rw (has_extra cs (pos n) dx) (none_in cs.extra (omega arith) (pos n))
    ]
    empty e (negsuc n) =
        rw (has_extra cs (negsuc n) refl) (none_in cs.extra (omega arith) (negsuc n))

    counted :
        (xs : List Capability)
        → All (λ x. in_word x ≡ false) xs
        → cs.extra ≡ xs
        → ((d : Capability) → has cs d ≡ false)
        → ones_count 64 cs.c + length xs ≡ 0
    counted [] out e h = omega (
      arith,
      ones_count-eq_zero 64 cs.c
          (λ i lt. let dw : ltb i 64 ≡ true = ground arith in sym (has_word cs i dw) ∙ h (pos i)),
    )
    counted (x ∷ xs) out e h = absurd (false_true (sym (h x) ∙ (has_extra cs x out.0 ∙ rw e here)))
      where
        here : contains (x ∷ xs) x ≡ true
        here = rw (eqb_refl x)

        false_true : ¬ (false ≡ true)
        false_true p = cc
