-- ===== src/Users/Update.antt =====
-- be/tasks/update_user_task.go: who may change the capabilities of a user, and what the change is.
use mathlib.Core.Path.{subst}
use pixur.Base.{
  ℕ, ◌+◌, ◌≡◌, ◌⊎◌, refl, sym, ap, arith, true, false, not, Option, none, some, List, [], ◌∷◌,
  length, ◌==◌, Bool-cases, inl, inr,
}
use pixur.Base.Result.{ok}
use pixur.CapSet.{Capability}
use pixur.Schema.{Time, Tables, User, Configuration}
use pixur.Job.{aborted, Job}
use pixur.Job.Returns.{
  Returns, Returns-bind, Returns-weaken, Returns-pure, Returns-bind-require_none, Returns-revert,
  Returns_use,
}
use pixur.Tables.{int, replace}
use pixur.Tables.Users.{users_table}
use pixur.Tables.Rows.{Returns-bind-update, Returns-bind-internal_call}
use pixur.Auth.{authed_job, validate_capability}
use pixur.Auth.Lookup.{FoundUser, Returns-bind-lookup_object_user}
use pixur.Auth.Session.{RunsFor, SameButUsers, Returns-authed_job}
use pixur.Votes.Run.{refuse_if-none}
use pixur.Users.{user_update_capability, changed_user}
use pixur.Users.Tasks.{store_change, update_user_job, update_user_task}
use pixur.Users.Capabilities.{Grants, contains-change_caps, changed_user-none, changed_user-some}

-- Either nothing is stored, and nothing had to be changed, or the user is stored again.
abbrev pub Stored : List Capability → List Capability → User → Tables → User → Tables → Type 0
Stored set clear before t v t' =
    ((t' ≡ t) × Grants set clear before.capability before.capability)
    ⊎ (t' ≡ record t { users = replace (users_table.key) (int v.user_id ∷ []) v t.users })

-- What an update of a user has done.
pub record Updated (E : Type 0) (conf : Configuration) (now : Time) (requested : ℕ) (version : Time)
    (set clear : List Capability) (su : Option User) (t : Tables) (v : User) (t' : Tables)
    : Type 0 where
  pub before : User
  pub found : FoundUser E requested su t before
  pub current : before.modified_ts ≡ version
  pub allowed :
      (length set + length clear ≡ 0)
      ⊎ (validate_capability {E = E} su conf (user_update_capability ∷ []) ≡ none)
  pub same_id : v.user_id ≡ before.user_id
  pub same_tokens : v.user_token ≡ before.user_token
  pub grants : Grants set clear before.capability v.capability
  pub stored : Stored set clear before t v t'

not_equal : (a b : ℕ) → not (a == b) ≡ false → a ≡ b
not_equal a b e = ground arith

no_change :
    (set clear xs : List Capability) → length set + length clear ≡ 0 → Grants set clear xs xs
no_change [] [] xs e c = ground arith
no_change [] (d ∷ ds) xs e c = absurd (omega (arith, e))
no_change (d ∷ ds) clear xs e c = absurd (omega (arith, e))

-- The same from the session of the user on.
abbrev pub UpdateDone :
    Type 0
    → Configuration
    → Time
    → ℕ
    → Time
    → List Capability
    → List Capability
    → Option (ℕ × ℕ)
    → Tables
    → User
    → Tables
    → Type 0
UpdateDone E conf now requested version set clear tok t v t' =
    (su : Option User) × (t1 : Tables) × RunsFor E now tok t1 su
    × SameButUsers t t1
    × Updated E conf now requested version set clear su t1 v t'

module _ {E : Type 0} (conf : Configuration) (now : Time) (requested : ℕ) (version : Time)
    (set clear : List Capability) where
  Returns-store_change :
      (s : Job E) (ou : User) (o : Option User) (P : User → Tables → Type 0)
      → (o ≡ none → P ou s.tables)
      → ((v : User)
          → o ≡ some v
          → P v (record (s.tables) {
            users = replace (users_table.key) (int v.user_id ∷ []) v (s.tables).users;
          }))
      → Returns (store_change now ou o) s (λ v s'. P v s'.tables)
  Returns-store_change s ou none P p q =
      Returns-bind-internal_call s _ _ (λ fs. Returns-pure _ _ _ (p refl))
  Returns-store_change s ou (some v) P p q =
      Returns-bind-update users_table s _ v _
        (λ fs. Returns-bind-internal_call _ _ _ (λ fs1. Returns-pure _ _ _ (q v refl)))

  Returns-update_user_job :
      (su : Option User) (s : Job E)
      → Returns
          (update_user_job now conf requested version set clear su)
          s
          (λ v s'. Updated E conf now requested version set clear su s.tables v s'.tables)
  unfolding update_user_job
  Returns-update_user_job su s = Returns-bind-lookup_object_user s _ requested su _ (λ ou fs found.
      Returns-bind-require_none _ _ _ _ (λ current.
        elim (Bool-cases (length set + length clear == 0)) [
          | inl nothing ↦
              let same =
                no_change set clear ou.capability (eq (length set + length clear) nothing) in
              rw nothing (
                Returns-store_change _ ou none
                  (λ v t'. Updated E conf now requested version set clear su s.tables v t')
                  (λ _. record {
                    before = ou;
                    found = found;
                    current = not_equal ou.modified_ts version (refuse_if-none _ aborted current);
                    allowed = inl (eq (length set + length clear) nothing);
                    same_id = refl;
                    same_tokens = refl;
                    grants = same;
                    stored = inl (refl, same);
                  })
                  (λ v e. absurd (clash e)))
          | inr something ↦ rw something (
              Returns-bind-require_none _ _ _ _ (λ allowed.
                Returns-bind-require_none _ _ _ _ (λ checked.
                  Returns-store_change _ _ (changed_user now set clear ou)
                    (λ v t'. Updated E conf now requested version set clear su s.tables v t')
                    (λ e. record {
                      before = ou;
                      found = found;
                      current = not_equal ou.modified_ts version (refuse_if-none _ aborted current);
                      allowed = inr allowed;
                      same_id = refl;
                      same_tokens = refl;
                      grants = contains-change_caps set clear ou.capability;
                      stored = inl (refl, changed_user-none now set clear ou e);
                    })
                    (λ v e.
                      let v_lem = changed_user-some now set clear ou v e in
                      record {
                        before = ou;
                        found = found;
                        current =
                            not_equal ou.modified_ts version (refuse_if-none _ aborted current);
                        allowed = inr allowed;
                        same_id = ap (λ w. w.user_id) v_lem;
                        same_tokens = ap (λ w. w.user_token) v_lem;
                        grants =
                            subst (λ w. Grants set clear ou.capability w.capability) (sym v_lem)
                              (contains-change_caps set clear ou.capability);
                        stored = inr refl;
                      }))))
        ]))
    where
      eq : (n : ℕ) → (n == 0) ≡ true → n ≡ 0
      eq n e = ground arith

      clash : {v : User} → ¬ (none ≡ some v)
      clash p = cc

  -- Where a change of a user succeeds, the user was found, in tables where only users differ from
  -- those at the start, with the version that was asked for; unless no capability was named, the
  -- caller has the capability for the change; the user of the result has the same id and tokens and
  -- exactly the old and added capabilities but for the removed ones; and either that user is
  -- stored, with nothing else changed, or nothing is stored and the change makes no difference to
  -- the capabilities as they were.
  pub update_user_task-UpdateDone :
      (tok : Option (ℕ × ℕ)) (s s' : Job E) (v : User)
      → update_user_task now conf tok requested version set clear s ≡ (ok v, s')
      → UpdateDone E conf now requested version set clear tok s.tables v s'.tables
  unfolding update_user_task
  update_user_task-UpdateDone tok s s' v =
      Returns_use (update_user_task now conf tok requested version set clear) s s' v
        (λ w s1. UpdateDone E conf now requested version set clear tok s.tables w s1.tables)
        (Returns-bind (authed_job now false tok) _ s _ (
          Returns-weaken _ s _ _
            (λ su s1 (session, same). Returns-revert _ s1 _ (
              Returns-weaken _ s1 _ _ (λ w s2 u. (su, s1.tables, session, same, u))
                (Returns-update_user_job su s1)))
            (Returns-authed_job now false tok s)))
