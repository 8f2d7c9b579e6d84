-- ===== src/Auth/Capabilities.antt =====
-- be/tasks/auth.go: the checks of capabilities and of users.
use pixur.Base.{◌≡◌, ◌↔◌, refl, sym, ◌∙◌, true, Option, none, some, List}
use pixur.CapSet.{Capability, contains, cap_set_of, verify_cap_subset}
use pixur.CapSet.Members.{has-cap_set_of}
use pixur.CapSet.Subset.{verify_cap_subset_iff}
use pixur.Schema.{User, Configuration}
use pixur.Auth.{capabilities_of, denied, validate_cap_set, validate_capability}

-- A capability check passes exactly when the user, or the anonymous user if there is none, has
-- every capability that is asked for.
pub validate_capability_iff :
    {E : Type 0} (u : Option User) (conf : Configuration) (caps : List Capability)
    → (validate_capability {E = E} u conf caps ≡ none)
      ↔ ((d : Capability) → contains caps d ≡ true → contains (capabilities_of u conf) d ≡ true)
unfolding validate_capability validate_cap_set
validate_capability_iff {E} u conf caps =
    let (valid_have, has_have) = has-cap_set_of (capabilities_of u conf) in
    let (valid_want, has_want) = has-cap_set_of caps in
    let (to, back) =
      verify_cap_subset_iff (cap_set_of (capabilities_of u conf)) (cap_set_of caps) valid_have
        valid_want in
    (
      λ e d c.
          sym (has_have d)
          ∙ to
              (accepted (verify_cap_subset (cap_set_of (capabilities_of u conf)) (cap_set_of caps))
                e)
              d (has_want d ∙ c),
      λ h. rw (back (λ d c. has_have d ∙ h d (sym (has_want d) ∙ c))) refl,
    )
  where
    accepted : (o : Option (List Capability)) → denied {E = E} o ≡ none → o ≡ none
    accepted none e = refl
    accepted (some missing) e = cc
