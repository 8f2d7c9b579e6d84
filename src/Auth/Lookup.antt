-- ===== src/Auth/Lookup.antt =====
-- be/tasks/auth.go: the user that a task is about.
use pixur.Base.{
  ℕ, ◌≡◌, ◌⊎◌, refl, arith, true, Option, none, some, List, [], ◌∷◌, ◌==◌, Bool-cases, inl, inr,
}
use pixur.Base.Result.{ok}
use pixur.Schema.{Tables, User}
use pixur.Job.{not_found, Job, Action, ◌>>=◌}
use pixur.Job.Returns.{Returns, Returns-bind, Returns-pure, Returns-bind-require, Returns-require}
use pixur.Tables.{int, select}
use pixur.Tables.Users.{users_table, users_primary}
use pixur.Tables.Rows.{after, Returns-bind-find}
use pixur.Auth.{derive_object_user_id, subject_or_row, lookup_object_user}
use pixur.Auth.Refresh.{single_ok}

-- The user found: the subject user with the id that is asked for, or the only row with it.
abbrev pub FoundUser : (E : Type 0) → ℕ → Option User → Tables → User → Type 0
FoundUser E requested su t ou =
    (id : ℕ) × (derive_object_user_id {E = E} requested su ≡ ok id)
    × (((su ≡ some ou) × (ou.user_id ≡ id))
        ⊎ (select (users_table.key) (int id ∷ []) t.users ≡ ou ∷ []))

module _ {E B : Type 0} (s : Job E) (Q : B → Job E → Type 0) where
  pub Returns-bind-lookup_object_user :
      (requested : ℕ) (su : Option User) (f : User → Action E B)
      → ((ou : User) (fs : List (Option E))
          → FoundUser E requested su s.tables ou
          → Returns (f ou) (after s.tables fs) Q)
      → Returns (lookup_object_user requested su >>= f) s Q
  unfolding lookup_object_user
  Returns-bind-lookup_object_user requested su f h =
      Returns-bind (lookup_object_user requested su) f s Q
        (Returns-bind-require s _ _ _ (λ id derived. found id derived su refl))
    where
      row :
          (id : ℕ)
          → derive_object_user_id {E = E} requested su ≡ ok id
          → Returns (subject_or_row id none) s (λ ou s'. Returns (f ou) s' Q)
      row id derived =
          Returns-bind-find users_table s _ (users_primary (record { id = some id })) 0
            (int id ∷ []) _ refl
            (λ fs.
              Returns-require _ _ _
                (λ ou only. h ou fs (id, derived, inr (single_ok not_found _ ou only))))

      found :
          (id : ℕ)
          → derive_object_user_id {E = E} requested su ≡ ok id
          → (o : Option User) → su ≡ o
          → Returns (subject_or_row id o) s (λ ou s'. Returns (f ou) s' Q)
      found id derived none e = row id derived
      found id derived (some u) e = elim (Bool-cases (u.user_id == id)) [
        | inl same ↦
            rw same (Returns-pure _ _ _ (h u s.faults (id, derived, inl (e, eq u.user_id id same))))
        | inr other ↦ rw other (row id derived)
      ]
        where
          eq : (a b : ℕ) → (a == b) ≡ true → a ≡ b
          eq a b q = ground arith
