-- ===== src/CapSet/Tests.antt =====
-- be/schema/user.go: runs at small sets, and the theorems about the capability set at them.
use pixur.Base.{◌≡◌, refl, ◌↔◌, true, ◌||◌, none, some, List, [], ◌∷◌}
use pixur.Base.Int.{pos, negsuc, eqb_ℤ}
use pixur.CapSet.{
  Capability, contains, has, add, cap_set_of, slice, size, cap_intersect, verify_cap_subset,
}
use pixur.CapSet.Members.{IsValid, has-cap_set_of, has-add}
use pixur.CapSet.Subset.{verify_cap_subset_iff}

abbrev held_caps : List Capability
held_caps = pos 3 ∷ pos 70 ∷ pos 63 ∷ negsuc 1 ∷ pos 3 ∷ []

abbrev wanted_caps : List Capability
wanted_caps = pos 3 ∷ pos 4 ∷ pos 70 ∷ pos 71 ∷ []

held_slice : slice (cap_set_of held_caps) ≡ pos 3 ∷ pos 63 ∷ negsuc 1 ∷ pos 70 ∷ []
unfolding slice cap_set_of
held_slice = refl

refused :
    verify_cap_subset (cap_set_of held_caps) (cap_set_of wanted_caps) ≡ some (pos 4 ∷ pos 71 ∷ [])
unfolding verify_cap_subset cap_set_of cap_intersect size slice
refused = refl

held_IsValid : IsValid (cap_set_of held_caps)
held_IsValid = (has-cap_set_of held_caps).0

wanted_IsValid : IsValid (cap_set_of wanted_caps)
wanted_IsValid = (has-cap_set_of wanted_caps).0

has-cap_set_of_example :
    IsValid (cap_set_of held_caps)
    × ((d : Capability) → has (cap_set_of held_caps) d ≡ contains held_caps d)
has-cap_set_of_example = has-cap_set_of held_caps

has-add_example :
    has (add (cap_set_of held_caps) (pos 71)) (pos 70)
    ≡ (eqb_ℤ (pos 71) (pos 70) || has (cap_set_of held_caps) (pos 70))
has-add_example = has-add (cap_set_of held_caps) (pos 71) (pos 70)

verify_cap_subset_iff_example :
    (verify_cap_subset (cap_set_of held_caps) (cap_set_of wanted_caps) ≡ none) ↔ (
      (d : Capability)
      → has (cap_set_of wanted_caps) d ≡ true
      → has (cap_set_of held_caps) d ≡ true)
verify_cap_subset_iff_example =
    verify_cap_subset_iff (cap_set_of held_caps) (cap_set_of wanted_caps) held_IsValid
      wanted_IsValid
