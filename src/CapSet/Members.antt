-- ===== src/CapSet/Members.antt =====
-- be/schema/user.go: `Has`, `Add`, `CapSetOf`, `Size` and `Slice` against membership in a list.
use Prim.Native.Nat.{bit_and, bit_or}
use mathlib.Core.List.{foldl}
use pixur.Base.{
  ℕ, ◌^◌, ◌<◌, ◌≡◌, refl, ◌∙◌, inl, inr, true, false, ◌||◌, List, [], ◌∷◌, arith, ltb, ◌==◌,
  Bool-cases, All,
}
use pixur.Base.Bits.{test_bit, mask_test, test_bit-bit_or, test_bit-pow, bit_and-le}
use pixur.Base.Int.{pos, negsuc, eqb_ℤ}
use pixur.CapSet.{
  Capability, CapSet, new_cap_set, contains, in_word, mask, has, add, cap_set_of, add_extra,
}
use pixur.CapSet.Extra.{IsSorted, contains-add_extra, add_extra-IsSorted, All-add_extra}
use pixur.CapSet.Words.{pow_lt_word, bit_or-lt}

-- The word has 64 bits, and `extra` is sorted, unique and outside the word.
pub record IsValid (cs : CapSet) : Type 0 where
  pub word : cs.c < 2 ^ 64
  pub sorted : IsSorted cs.extra
  pub outside : All (λ x. in_word x ≡ false) cs.extra

-- Membership in the word is a bit.
pub has_word : (cs : CapSet) (n : ℕ) → ltb n 64 ≡ true → has cs (pos n) ≡ test_bit n cs.c
unfolding has
has_word cs n h = rw h (mask_test n cs.c)

pub has_extra : (cs : CapSet) (c : Capability) → in_word c ≡ false → has cs c ≡ contains cs.extra c
unfolding has
has_extra cs c h = rw h

add_word :
    (cs : CapSet) (c : Capability)
    → in_word c ≡ true
    → add cs c ≡ record cs { c = bit_or cs.c (mask c) }
unfolding add
add_word cs c h = rw h

add_outside :
    (cs : CapSet) (c : Capability)
    → in_word c ≡ false
    → add cs c ≡ record cs { extra = add_extra cs.extra c }
unfolding add
add_outside cs c h = rw h

has-add_word :
    (cs : CapSet) (m n : ℕ)
    → ltb m 64 ≡ true
    → ltb n 64 ≡ true
    → has (add cs (pos m)) (pos n) ≡ (m == n || has cs (pos n))
has-add_word cs m n hm hn =
    rw
      (
        add_word cs (pos m) hm,
        has_word (record cs { c = bit_or cs.c (2 ^ m) }) n hn,
        has_word cs n hn,
        test_bit-bit_or n cs.c (2 ^ m),
        test_bit-pow n m,
      )
      (ground arith)

-- A capability on one side of the bound is not one on the other.
eqb_apart :
    (c d : Capability)
    → in_word c ≡ true
    → in_word d ≡ false
    → (eqb_ℤ c d ≡ false) × (eqb_ℤ d c ≡ false)
eqb_apart (pos m) (pos n) h k = ground arith
eqb_apart (pos m) (negsuc n) h k = (refl, refl)
eqb_apart (negsuc m) d h k = cc

has-add_apart :
    (cs : CapSet) (c d : Capability)
    → in_word c ≡ true
    → in_word d ≡ false
    → (has (add cs c) d ≡ has cs d) × (has (add cs d) c ≡ has cs c)
has-add_apart cs c d hc hd = (
  rw (add_word cs c hc, has_extra cs d hd)
      (has_extra (record cs { c = bit_or cs.c (mask c) }) d hd),
  rw (add_outside cs d hd) (unfold has in rw hc),
)

-- `Add` puts in the capability and no other, wherever it is kept.
pub has-add : (cs : CapSet) (c d : Capability) → has (add cs c) d ≡ (eqb_ℤ c d || has cs d)
has-add cs c d = elim (Bool-cases (in_word c)) [
  | inl cw ↦ elim (Bool-cases (in_word d)) [
    | inl dw ↦ both_words c d cw dw
    | inr dx ↦ rw ((eqb_apart c d cw dx).0) (has-add_apart cs c d cw dx).0
  ]
  | inr cx ↦ elim (Bool-cases (in_word d)) [
    | inl dw ↦ rw ((eqb_apart d c dw cx).1) (has-add_apart cs d c dw cx).1
    | inr dx ↦
        rw (add_outside cs c cx, has_extra cs d dx)
          (has_extra (record cs { extra = add_extra cs.extra c }) d dx
            ∙ contains-add_extra c d cs.extra)
  ]
]
  where
    both_words :
        (c d : Capability)
        → in_word c ≡ true
        → in_word d ≡ true
        → has (add cs c) d ≡ (eqb_ℤ c d || has cs d)
    both_words (pos m) (pos n) h k = has-add_word cs m n h k
    both_words (pos m) (negsuc n) h k = cc
    both_words (negsuc m) d h k = cc

mask-lt : (c : Capability) → in_word c ≡ true → mask c < 2 ^ 64
mask-lt (pos n) h = pow_lt_word n (ground arith)
mask-lt (negsuc n) h = cc

-- `Add` keeps the set well formed.
pub add-IsValid : (cs : CapSet) (c : Capability) → IsValid cs → IsValid (add cs c)
add-IsValid cs c v = elim (Bool-cases (in_word c)) [
  | inl cw ↦ rw (add_word cs c cw) (record {
    word = bit_or-lt 64 cs.c (mask c) v.word (mask-lt c cw);
    sorted = v.sorted;
    outside = v.outside;
  })
  | inr cx ↦ rw (add_outside cs c cx) (record {
    word = v.word;
    sorted = add_extra-IsSorted c cs.extra v.sorted;
    outside = All-add_extra (λ x. in_word x ≡ false) c cs.extra cx v.outside;
  })
]

has-foldl :
    (caps : List Capability) (cs : CapSet) (d : Capability)
    → has (foldl add cs caps) d ≡ (contains caps d || has cs d)
has-foldl [] cs d = refl
has-foldl (c ∷ caps) cs d = has-foldl caps (add cs c) d ∙ rw (has-add cs c d) (ground arith)

foldl-IsValid : (caps : List Capability) (cs : CapSet) → IsValid cs → IsValid (foldl add cs caps)
foldl-IsValid [] cs v = v
foldl-IsValid (c ∷ caps) cs v = foldl-IsValid caps (add cs c) (add-IsValid cs c v)

has-new : (d : Capability) → has new_cap_set d ≡ false
has-new d = elim (Bool-cases (in_word d)) [
  | inl dw ↦ unfold has in rw dw (none_set (mask d))
  | inr dx ↦ rw (has_extra new_cap_set d dx)
]
  where
    none_set : (m : ℕ) → ltb 0 (bit_and 0 m) ≡ false
    none_set m = ground (arith, bit_and-le 0 m)

-- CapSetOf of any list gives a well formed set whose members are the elements of the list.
pub has-cap_set_of :
    (caps : List Capability)
    → IsValid (cap_set_of caps) × ((d : Capability) → has (cap_set_of caps) d ≡ contains caps d)
has-cap_set_of caps = (
  unfold cap_set_of in
      foldl-IsValid caps new_cap_set (record { word = omega arith; sorted = tt; outside = tt }),
  λ d. unfold cap_set_of in rw (has-foldl caps new_cap_set d, has-new d) (ground arith),
)
