-- ===== src/Auth/Users.antt =====
-- be/tasks/auth.go: what the start of a task does to the table of users.
use pixur.Base.{ℕ, zero, suc, ◌≡◌, refl, Bool, Option, none, some, [], ◌∷◌, Bool-cases, inl, inr}
use pixur.Base.Result.{ok}
use pixur.Schema.{Time, User, Tables}
use pixur.Job.{panic, Job}
use pixur.Job.Returns.{Returns, Returns-pure, Returns-raise}
use pixur.Job.Keeps.{Keeps, Keeps-bind, Keeps-pure, Keeps-raise, Keeps-revert-Returns}
use pixur.Tables.{int, select, replace}
use pixur.Tables.Users.{users_table}
use pixur.Tables.Rows.{Returns-bind-update, Returns-bind-internal_call}
use pixur.Auth.{refresh_user, authed_round, go_on, authed_rounds, found_user, authed_job}
use pixur.Auth.Session.{Returns-bind-validate, Returns-bind-upgrade}

-- The only row with an id is stored again after its refresh.
abbrev pub Refreshed : Type 0 → Time → Tables → Tables → Type 0
Refreshed E now t t' =
    (user_id token_id : ℕ) × (u u' : User) × (b : Bool) × (select (users_table.key)
        (int user_id ∷ []) t.users
      ≡ u ∷ [])
    × (refresh_user {E = E} now token_id u ≡ ok (u', b))
    × (t' ≡ record t { users = replace (users_table.key) (int u'.user_id ∷ []) u' t.users })

module _ (E : Type 0) (P : Tables → Type 0) (now : Time)
    (stable : (t t' : Tables) → Refreshed E now t t' → P t → P t') where
  Returns-authed_round :
      (readonly : Bool) (tok : Option (ℕ × ℕ)) (s : Job E)
      → P s.tables
      → Returns (authed_round {E = E} now readonly tok) s (λ _ s'. P s'.tables)
  unfolding authed_round
  Returns-authed_round readonly none s h =
      Returns-bind-internal_call s _ _ (λ fs. Returns-pure _ _ _ h)
  Returns-authed_round readonly (some (user_id, token_id)) s h =
      Returns-bind-internal_call s _ _ (λ fs.
        Returns-bind-validate now _ _ user_id token_id _ (λ u u' b only e fs'. elim (Bool-cases b) [
          | inl stale ↦ rw stale (
              Returns-bind-upgrade now _ _ readonly _ (λ fs2.
                Returns-bind-validate now _ _ user_id token_id _ (λ u2 u2' b2 only2 e2 fs3.
                  elim (Bool-cases b2) [
                    | inl stale2 ↦ rw stale2 (
                        Returns-bind-update users_table _ _ u2' _ (λ fs4.
                          Returns-bind-internal_call _ _ _ (λ fs5. Returns-pure _ _ _ (
                            stable s.tables _ (user_id, token_id, u2, u2', b2, only2, e2, refl)
                              h))))
                    | inr current2 ↦ rw current2 (Returns-raise _ _ _)
                  ])))
          | inr current ↦ rw current (Returns-pure _ _ _ h)
        ]))

  Keeps-rounds :
      (fuel : ℕ) (readonly : Bool) (tok : Option (ℕ × ℕ))
      → Keeps E P (authed_rounds now fuel readonly tok)
  unfolding authed_rounds
  Keeps-rounds zero readonly tok = Keeps-pure E P none
  Keeps-rounds (suc fuel) readonly tok =
      Keeps-bind E P _ _ (Keeps-revert-Returns E P _ (Returns-authed_round readonly tok))
        (λ found. again found (Keeps-rounds fuel readonly tok))
    where
      again :
          (o : Option (Option User))
          → Keeps E P (authed_rounds now fuel readonly tok)
          → Keeps E P (go_on now o (authed_rounds now fuel readonly tok))
      again none more = more
      again (some u) more = Keeps-pure E P _

  -- What every refresh keeps, the start of a task keeps.
  pub Keeps-authed_job-Refreshed :
      (readonly : Bool) (tok : Option (ℕ × ℕ)) → Keeps E P (authed_job now readonly tok)
  unfolding authed_job
  Keeps-authed_job-Refreshed readonly tok =
      Keeps-bind E P _ _ (Keeps-rounds 2 readonly tok) (λ o. found o)
    where
      found : (o : Option (Option User)) → Keeps E P (found_user now o)
      found none = Keeps-raise E P _ panic
      found (some u) = Keeps-pure E P u
