-- ===== src/CapSet.antt =====
-- be/schema/user.go: the set of capabilities that a user holds, a 64-bit word for the
-- capabilities 0 to 63 and a sorted slice for the others. `User_Capability` is a signed number,
-- the word is a number below 2 ^ 64, and `*CapSet` methods that write return the new set.
pub mod Extra
pub mod Merge
pub mod Words
pub mod Members
pub mod Contents
pub mod Subset
pub mod Tests
use Prim.Native.Nat.{bit_and, bit_or}
use mathlib.Core.List.{foldl}
use pixur.Base.{
  ℕ, zero, suc, ◌+◌, ◌-◌, ◌/◌, ◌%◌, ◌^◌, Bool, true, false, not, ◌||◌, Option, none, some, List, [],
  ◌∷◌, ◌++◌, ltb, ◌==◌, if◌then◌else◌, length, get_elem?, take, drop, map,
}
use pixur.Base.Int.{ℤ, pos, negsuc, eqb_ℤ, ltb_ℤ}

abbrev pub Capability : Type 0
Capability = ℤ

pub record CapSet : Type 0 where
  pub c : ℕ
  pub extra : List Capability

-- `new(CapSet)`
abbrev pub new_cap_set : CapSet
new_cap_set = record { c = 0; extra = [] }

-- The loop of `Has` over `extra`.
abbrev pub contains : List Capability → Capability → Bool
contains [] c = false
contains (ec ∷ ecs) c = eqb_ℤ ec c || contains ecs c

-- `c >= 0 && c < 64`
abbrev pub in_word : Capability → Bool
in_word (pos n) = ltb n 64
in_word (negsuc n) = false

-- `uint64(1 << uint64(c))`, which the code computes only for 0 to 63.
abbrev pub mask : Capability → ℕ
mask (pos n) = 2 ^ n
mask (negsuc n) = 0

unfoldable pub has : CapSet → Capability → Bool
has cs c = if in_word c then ltb 0 (bit_and cs.c (mask c)) else contains cs.extra c

-- `sort.Search(n, f)` over the elements: the least index at which `f` holds, or `n`.
abbrev search_index : (Capability → Bool) → List Capability → ℕ
search_index f [] = 0
search_index f (x ∷ xs) = if f x then 0 else suc (search_index f xs)

-- The `else` branch of `Add`.
pub add_extra : List Capability → Capability → List Capability
add_extra extra c =
    let i = search_index (λ x. not (ltb_ℤ x c)) extra in
    let grown = take i extra ++ (c ∷ drop i extra) in
    elim (get_elem? extra i) [ some x ↦ (if eqb_ℤ x c then extra else grown) | none ↦ grown ]

unfoldable pub add : CapSet → Capability → CapSet
unfolding add_extra
add cs c =
    if in_word c
    then record cs { c = bit_or cs.c (mask c) }
    else record cs { extra = add_extra cs.extra c }

unfoldable pub cap_set_of : List Capability → CapSet
unfolding add
cap_set_of caps = foldl add new_cap_set caps

-- `bits.OnesCount64`, on the lowest `k` bits.
pub ones_count : ℕ → ℕ → ℕ
ones_count zero w = 0
ones_count (suc k) w = w % 2 + ones_count k (w / 2)

unfoldable pub size : CapSet → ℕ
unfolding ones_count
size cs = ones_count 64 cs.c + length cs.extra

-- `bits.TrailingZeros64`, on the lowest `k` bits: `k` if they are all zero.
pub trailing_zeros : ℕ → ℕ → ℕ
trailing_zeros zero w = 0
trailing_zeros (suc k) w = if w % 2 == 1 then 0 else suc (trailing_zeros k (w / 2))

-- `^x` on uint64.
abbrev pub complement : ℕ → ℕ
complement x = 2 ^ 64 - 1 - x

-- The loop of `Slice` over the word; each round clears a bit, so 64 rounds are enough.
pub slice_word : ℕ → ℕ → List Capability
slice_word zero c = []
slice_word (suc fuel) c =
    let trail = trailing_zeros 64 c in
    let rest = slice_word fuel (bit_and c (complement (2 ^ trail))) in
    if trail == 64 then [] else pos trail ∷ rest

unfoldable pub slice : CapSet → List Capability
unfolding slice_word trailing_zeros
slice cs = slice_word 64 cs.c ++ cs.extra

-- The three results of `CapIntersect`.
pub record Parts (A : Type 0) : Type 0 where
  pub both : A
  pub leftonly : A
  pub rightonly : A

-- The loop of `CapIntersect` over both `extra` slices, with the two appends behind it.
pub merge : List Capability → List Capability → Parts (List Capability)
merge [] right = record { both = []; leftonly = []; rightonly = right }
merge (lv ∷ left) [] = record { both = []; leftonly = lv ∷ left; rightonly = [] }
merge (lv ∷ left) (rv ∷ right) =
    let same = merge left right in
    let skip_left = merge left (rv ∷ right) in
    let skip_right = merge (lv ∷ left) right in
    elim (eqb_ℤ lv rv) [
      | true ↦ record same { both = lv ∷ same.both }
      | false ↦ elim (ltb_ℤ lv rv) [
        | true ↦ record skip_left { leftonly = lv ∷ skip_left.leftonly }
        | false ↦ record skip_right { rightonly = rv ∷ skip_right.rightonly }
      ]
    ]

unfoldable pub cap_intersect : CapSet → CapSet → Parts CapSet
unfolding merge
cap_intersect left right =
    let word = bit_and left.c right.c in
    let extras = merge left.extra right.extra in
    record {
      both = record { c = word; extra = extras.both };
      leftonly = record { c = bit_and left.c (complement word); extra = extras.leftonly };
      rightonly = record { c = bit_and right.c (complement word); extra = extras.rightonly };
    }

-- `none` is the nil status; `some` carries the capabilities that the permission error lists.
unfoldable pub verify_cap_subset : CapSet → CapSet → Option (List Capability)
verify_cap_subset have want =
    let right = (cap_intersect have want).rightonly in
    if size right == 0 then none else some (slice right)
