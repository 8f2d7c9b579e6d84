-- ===== src/CapSet/Subset.antt =====
-- be/schema/user.go: `CapIntersect` and `VerifyCapSubset` against membership.
use Prim.Native.Nat.{bit_and}
use pixur.Base.{
  ℕ, ◌^◌, ◌<◌, ◌==◌, if◌then◌else◌, ◌≡◌, refl, ◌∙◌, sym, inl, inr, ◌↔◌, Bool, true, false, not,
  ◌&&◌, none, some, List, arith, ltb, ltb→lt, Bool-cases,
}
use pixur.Base.Bits.{test_bit, test_bit-bit_and, test_bit-complement, bit_and-le}
use pixur.Base.Int.{pos, negsuc}
use pixur.CapSet.{
  Capability, CapSet, contains, in_word, has, size, slice, complement, Parts, cap_intersect,
  verify_cap_subset,
}
use pixur.CapSet.Merge.{merge-IsSplit, All-merge, merge-IsSorted}
use pixur.CapSet.Members.{IsValid, has_word, has_extra}
use pixur.CapSet.Contents.{contains-slice, size_zero}

-- What `CapIntersect` promises of one capability.
abbrev pub IsIntersection : CapSet → CapSet → Parts CapSet → Capability → Type 0
IsIntersection left right p d =
    (has p.both d ≡ (has left d && has right d))
    × (has p.leftonly d ≡ (has left d && not (has right d)))
    × (has p.rightonly d ≡ (has right d && not (has left d)))

-- Word `&` and `& ^`, bit by bit.
bit_and-not :
    (n w both : ℕ)
    → n < 64
    → both < 2 ^ 64
    → test_bit n (bit_and w (complement both)) ≡ (test_bit n w && not (test_bit n both))
bit_and-not n w both h fits =
    rw (test_bit-bit_and n w (complement both), test_bit-complement 64 n both fits h)

outside_word :
    (left right : CapSet) (d : Capability)
    → in_word d ≡ false
    → IsValid left
    → IsValid right
    → IsIntersection left right (cap_intersect left right) d
outside_word left right d dx vl vr =
    let p = cap_intersect left right in
    rw
      (
        has_extra left d dx,
        has_extra right d dx,
        has_extra p.both d dx,
        has_extra p.leftonly d dx,
        has_extra p.rightonly d dx,
      )
      (unfold cap_intersect in merge-IsSplit left.extra right.extra d vl.sorted vr.sorted)

-- CapIntersect splits the members of two sets into the common ones and those of one side.
pub cap_intersect-IsIntersection :
    (left right : CapSet) (d : Capability)
    → IsValid left
    → IsValid right
    → IsIntersection left right (cap_intersect left right) d
cap_intersect-IsIntersection left right (pos n) vl vr = elim (Bool-cases (ltb n 64)) [
  | inl dw ↦
      let p = cap_intersect left right in
      let w = bit_and left.c right.c in
      let fits : w < 2 ^ 64 = omega (arith, bit_and-le left.c right.c, vl.word) in
      rw
        (
          has_word left n dw,
          has_word right n dw,
          has_word p.both n dw,
          has_word p.leftonly n dw,
          has_word p.rightonly n dw,
        )
        (unfold cap_intersect in
          ground (
            arith,
            test_bit-bit_and n left.c right.c,
            bit_and-not n left.c w (ltb→lt n 64 dw) fits,
            bit_and-not n right.c w (ltb→lt n 64 dw) fits,
          ))
  | inr dx ↦ outside_word left right (pos n) dx vl vr
]
cap_intersect-IsIntersection left right (negsuc n) vl vr =
    outside_word left right (negsuc n) refl vl vr

-- The three results are well formed sets.
pub cap_intersect-IsValid :
    (left right : CapSet)
    → IsValid left
    → IsValid right
    → let p = cap_intersect left right in IsValid p.both × IsValid p.leftonly × IsValid p.rightonly
unfolding cap_intersect
cap_intersect-IsValid left right vl vr =
    let sorted = merge-IsSorted left.extra right.extra vl.sorted vr.sorted in
    let outside = All-merge (λ x. in_word x ≡ false) left.extra right.extra vl.outside vr.outside in
    let w = bit_and left.c right.c in
    (
      record {
        word = omega (arith, bit_and-le left.c right.c, vl.word);
        sorted = sorted.0;
        outside = outside.0;
      },
      record {
        word = omega (arith, bit_and-le left.c (complement w), vl.word);
        sorted = sorted.1;
        outside = outside.1;
      },
      record {
        word = omega (arith, bit_and-le right.c (complement w), vr.word);
        sorted = sorted.2;
        outside = outside.2;
      },
    )

-- A test for the missing part, read as an implication.
covered_iff : (h w : Bool) → ((w && not h) ≡ false) ↔ (w ≡ true → h ≡ true)
covered_iff true true = ground arith
covered_iff true false = ground arith
covered_iff false true = ground arith
covered_iff false false = ground arith

refusal_none : (n : ℕ) (l : List Capability) → ((if n == 0 then none else some l) ≡ none) ↔ (n ≡ 0)
refusal_none n l = ground arith

refusal_some : (n : ℕ) (l m : List Capability) → (if n == 0 then none else some l) ≡ some m → m ≡ l
refusal_some n l m e = ground arith

verify_cap_subset-none :
    (have want : CapSet)
    → (verify_cap_subset have want ≡ none) ↔ (size (cap_intersect have want).rightonly ≡ 0)
unfolding verify_cap_subset
verify_cap_subset-none have want =
    let right = (cap_intersect have want).rightonly in refusal_none (size right) (slice right)

-- VerifyCapSubset accepts exactly when every wanted capability is held.
pub verify_cap_subset_iff :
    (have want : CapSet)
    → IsValid have
    → IsValid want
    → (verify_cap_subset have want ≡ none)
      ↔ ((d : Capability) → has want d ≡ true → has have d ≡ true)
verify_cap_subset_iff have want vh vw =
    let right = (cap_intersect have want).rightonly in
    let empty = size_zero right (cap_intersect-IsValid have want vh vw).2 in
    let missing = λ (d : Capability). (cap_intersect-IsIntersection have want d vh vw).2 in
    let none_iff = verify_cap_subset-none have want in
    (
      λ e d. (covered_iff (has have d) (has want d)).0 (sym (missing d) ∙ empty.0 (none_iff.0 e) d),
      λ all.
          none_iff.1 (empty.1 (λ d. missing d ∙ (covered_iff (has have d) (has want d)).1 (all d))),
    )

-- A permission error lists exactly the wanted capabilities that are not held.
pub verify_cap_subset-missing :
    (have want : CapSet) (missing : List Capability) (d : Capability)
    → IsValid have
    → IsValid want
    → verify_cap_subset have want ≡ some missing
    → contains missing d ≡ (has want d && not (has have d))
verify_cap_subset-missing have want missing d vh vw e =
    let right = (cap_intersect have want).rightonly in
    let listed : missing ≡ slice right =
      unfold verify_cap_subset in refusal_some (size right) (slice right) missing e in
    rw (listed, contains-slice right d (cap_intersect-IsValid have want vh vw).2)
      (cap_intersect-IsIntersection have want d vh vw).2
