-- ===== src/Auth/Session.antt =====
-- be/tasks/auth.go: the loop of `authedJobInternal` ends, and what it returns.
use mathlib.Core.Path.{subst}
use pixur.Base.{
  ℕ, ◌≡◌, ◌≢◌, ◌∙◌, refl, sym, ap, arith, Bool, true, false, Option, none, some, List, [], ◌∷◌, map,
  All, Bool-cases, inl, inr,
}
use pixur.Base.Result.{ok}
use pixur.Schema.{Time, User, Tables}
use pixur.Job.{unauthenticated, Job, Action, ◌>>=◌, revert}
use pixur.Job.Returns.{
  Returns, Returns-bind, Returns_use, Returns-weaken, Returns-pure, Returns-raise,
  Returns-bind-pure, Returns-require, Returns-bind-require, Returns-revert,
}
use pixur.Tables.{int, select, replace, has_prefix}
use pixur.Tables.Users.{users_table, users_primary}
use pixur.Tables.Rows.{
  after, Returns-bind-find, Returns-bind-update, Returns-bind-internal_call, Returns-internal_call,
}
use pixur.Tables.Laws.{select-replace, select-All, eqb_Key_refl}
use pixur.Auth.{
  refresh_user, validate_and_update_user_and_token, upgrade, authed_round, go_on, authed_rounds,
  authed_job,
}
use pixur.Auth.Fresh.{FreshToken, IsFresh, refresh_user-FreshToken}
use pixur.Auth.Refresh.{single_ok, user_or, flag_or, refresh_user_again, refresh_user_same}

module _ {E B : Type 0} (now : Time) (s : Job E) (Q : B → Job E → Type 0) where
  pub Returns-bind-validate :
      (user_id token_id : ℕ) (f : User × Bool → Action E B)
      → ((u u' : User) (b : Bool)
          → select (users_table.key) (int user_id ∷ []) s.tables.users ≡ u ∷ []
          → refresh_user {E = E} now token_id u ≡ ok (u', b)
          → (fs : List (Option E)) → Returns (f (u', b)) (after s.tables fs) Q)
      → Returns (validate_and_update_user_and_token now user_id token_id >>= f) s Q
  unfolding validate_and_update_user_and_token
  Returns-bind-validate user_id token_id f h =
      Returns-bind (validate_and_update_user_and_token now user_id token_id) f s Q (
        Returns-bind-find users_table s _ (users_primary (record { id = some user_id })) 0
          (int user_id ∷ []) _ refl
          (λ fs. Returns-bind-require _ _ _ _ (λ u only.
            Returns-require _ _ _
              (λ (u', b) e. h u u' b (single_ok unauthenticated _ u only) e fs))))

  pub Returns-bind-upgrade :
      (readonly : Bool) (f : Unit {0} → Action E B)
      → ((fs : List (Option E)) → Returns (f tt) (after s.tables fs) Q)
      → Returns (upgrade now readonly >>= f) s Q
  unfolding upgrade
  Returns-bind-upgrade false f h = Returns-bind-pure s Q tt f (h s.faults)
  Returns-bind-upgrade true f h =
      Returns-bind (upgrade now true) f s Q
        (Returns-bind-internal_call s _ _ (λ fs. Returns-internal_call _ _ h))

-- The user is in the table, has the token, and needs no refresh.
abbrev pub Session : (E : Type 0) → Time → ℕ → ℕ → Tables → User → Type 0
Session E now user_id token_id t v =
    (select (users_table.key) (int user_id ∷ []) t.users ≡ v ∷ [])
    × (refresh_user {E = E} now token_id v ≡ ok (v, false))

-- All tables but the users are as before.
abbrev pub SameButUsers : Tables → Tables → Type 0
SameButUsers t t' = t' ≡ record t { users = t'.users }

abbrev head_or : User → List User → User
head_or v [] = v
head_or v (u ∷ us) = u

module _ {E : Type 0} (now : Time) (user_id token_id : ℕ) (t : Tables) (u u' : User)
    (b : Bool) where
  -- A user that needs no refresh is unchanged.
  only_self :
      b ≡ false
      → select (users_table.key) (int user_id ∷ []) t.users ≡ u ∷ []
      → refresh_user {E = E} now token_id u ≡ ok (u', b)
      → Session E now user_id token_id t u'
  only_self current only e =
      let same : u' ≡ u =
        refresh_user_same {E = E} now token_id u u' (e ∙ ap (λ c. ok (u', c)) current) in
      (only ∙ ap (λ w. w ∷ []) (sym same), (refresh_user_again {E = E} now token_id u u' b e).0)

  refreshed-Session :
      select (users_table.key) (int user_id ∷ []) t.users ≡ u ∷ []
      → refresh_user {E = E} now token_id u ≡ ok (u', b)
      → Session E now user_id token_id
          (record t { users = replace (users_table.key) (int u'.user_id ∷ []) u' t.users })
          u'
  refreshed-Session only e =
      let (again, same_id, same_capability) = refresh_user_again {E = E} now token_id u u' b e in
      let (hit, rest) =
        subst (λ us. All (λ r. has_prefix (int user_id ∷ []) (users_table.key r) ≡ true) us) only
          (select-All (users_table.key) (int user_id ∷ []) t.users) in
      let id_lem : user_id ≡ u'.user_id = ground (arith, hit, same_id) in
      (
        subst
            (λ k.
              select (users_table.key) (int k ∷ [])
                (replace (users_table.key) (int u'.user_id ∷ []) u' t.users)
              ≡ u' ∷ [])
            (sym id_lem)
            (select-replace (users_table.key) (int u'.user_id ∷ []) u' (λ r. refl)
                (eqb_Key_refl (int u'.user_id ∷ [])) t.users
              ∙ subst (λ k. map (λ _. u') (select (users_table.key) (int k ∷ []) t.users) ≡ u' ∷ [])
                  id_lem (ap (λ us. map (λ _. u') us) only)),
        again,
      )

module _ {E : Type 0} (now : Time) (user_id token_id : ℕ) (readonly : Bool) where
  -- What one round leaves: the user of the job, or a refreshed one for the next round.
  abbrev Round : Job E → Option (Option User) → Job E → Type 0
  Round s none s' =
      ((v : User) × Session E now user_id token_id s'.tables v) × SameButUsers s.tables s'.tables
  Round s (some o) s' =
      ((v : User) × (o ≡ some v) × Session E now user_id token_id s'.tables v)
      × (s'.tables ≡ s.tables)

  authed_round_lem :
      (s : Job E) → Returns (authed_round now readonly (some (user_id, token_id))) s (Round s)
  unfolding authed_round
  authed_round_lem s = Returns-bind-internal_call s _ _ (λ fs.
      Returns-bind-validate now _ _ user_id token_id _ (λ u u' b only e fs'. elim (Bool-cases b) [
        | inl stale ↦ rw stale (
            Returns-bind-upgrade now _ _ readonly _ (λ fs2.
              Returns-bind-validate now _ _ user_id token_id _ (λ u2 u2' b2 only2 e2 fs3.
                elim (Bool-cases b2) [
                  | inl stale2 ↦ rw stale2 (
                      Returns-bind-update users_table _ _ u2' _ (λ fs4.
                        Returns-bind-internal_call _ _ _ (λ fs5. Returns-pure _ _ _ (
                          (u2', refreshed-Session now user_id token_id s.tables u2 u2' b2 only2 e2),
                          refl,
                        ))))
                  | inr current2 ↦ rw current2 (Returns-raise _ _ _)
                ])))
        | inr current ↦ rw current (
            Returns-pure _ _ _
              ((u', refl, only_self now user_id token_id s.tables u u' b current only e), refl))
      ]))

  -- A round on a refreshed user is the last.
  authed_round_last :
      (s : Job E) (v : User)
      → Session E now user_id token_id s.tables v
      → Returns
          (authed_round now readonly (some (user_id, token_id)))
          s
          (λ o s'. (o ≡ some (some v)) × (s'.tables ≡ s.tables))
  unfolding authed_round
  authed_round_last s v (only, current) = Returns-bind-internal_call s _ _ (λ fs.
      Returns-bind-validate now _ _ user_id token_id _ (λ u u' b only' e fs'.
        let same_user : v ≡ u = ap (λ us. head_or v us) (sym only ∙ only') in
        let same =
          sym current
          ∙ subst (λ w. refresh_user {E = E} now token_id w ≡ ok (u', b)) (sym same_user) e in
        let done : b ≡ false = sym (ap (λ r. flag_or true r) same) in
        let same' : v ≡ u' = ap (λ r. user_or v r) same in
        rw done (Returns-pure _ _ _ (ap (λ w. some (some w)) (sym same'), refl))))

  abbrev Found : Job E → Option (Option User) → Job E → Type 0
  Found s r s' =
      ((v : User) × (r ≡ some (some v)) × Session E now user_id token_id s'.tables v)
      × SameButUsers s.tables s'.tables

  second-Round :
      (s s' : Job E) (r : Option (Option User))
      → Round s r s'
      → Returns (go_on now r (authed_rounds now 1 readonly (some (user_id, token_id)))) s' (Found s)
  unfolding authed_rounds
  second-Round s s' (some o) ((v, e, session), same) = Returns-pure _ _ _ (
    (v, ap some e, session),
    subst (λ t. t ≡ record s.tables { users = t.users }) (sym same) refl,
  )
  second-Round s s' none ((v, session), same) =
      Returns-bind (revert (authed_round now readonly (some (user_id, token_id)))) _ s' _ (
        Returns-weaken _ s' _ _
          (λ o s2 (e, same2). rw e (
            Returns-pure _ _ _ (
              (v, refl, subst (λ t. Session E now user_id token_id t v) (sym same2) session),
              subst (SameButUsers s.tables) (sym same2) same,
            )))
          (Returns-revert _ s' _ (authed_round_last s' v session)))

  -- Two rounds are enough.
  pub authed_rounds_lem :
      (s : Job E) → Returns (authed_rounds now 2 readonly (some (user_id, token_id))) s (Found s)
  unfolding authed_rounds
  authed_rounds_lem s =
      Returns-bind (revert (authed_round now readonly (some (user_id, token_id)))) _ s _ (
        Returns-weaken _ s _ _ (λ r s' h. second-Round s s' r h)
          (Returns-revert _ s _ (authed_round_lem s)))

-- Without a token the first round is the last.
anonymous_rounds :
    {E : Type 0} (now : Time) (readonly : Bool) (s : Job E)
    → Returns
        (authed_rounds now 2 readonly none)
        s
        (λ r s'. (r ≡ some none) × (s'.tables ≡ s.tables))
unfolding authed_rounds authed_round
anonymous_rounds now readonly s = Returns-bind (revert (authed_round now readonly none)) _ s _ (
    Returns-revert _ s _ (
      Returns-bind-internal_call s _ _
        (λ fs. Returns-pure _ _ _ (Returns-pure _ _ _ (refl, refl)))))

-- The loop that starts a task does not go past its second round, whatever the database answers.
pub authed_rounds-ne-none :
    {E : Type 0} (now : Time) (readonly : Bool) (tok : Option (ℕ × ℕ)) (s s' : Job E)
    (r : Option (Option User))
    → authed_rounds now 2 readonly tok s ≡ (ok r, s')
    → r ≢ none
authed_rounds-ne-none now readonly none s s' r e =
    let (found, same) = Returns_use _ s s' r _ (anonymous_rounds now readonly s) e in
    λ out. clash (sym found ∙ out)
  where
    clash : {o : Option User} → ¬ (some o ≡ none)
    clash p = cc
authed_rounds-ne-none {E} now readonly (some (user_id, token_id)) s s' r e =
    let ((v, found, session), same) =
      Returns_use _ s s' r _ (authed_rounds_lem now user_id token_id readonly s) e in
    λ out. clash (sym found ∙ out)
  where
    clash : {o : Option User} → ¬ (some o ≡ none)
    clash p = cc

-- Who a task runs for: no one, or a user with the token of the request, where neither the token nor the
-- user was seen longer ago than the threshold.
abbrev pub RunsFor : (E : Type 0) → Time → Option (ℕ × ℕ) → Tables → Option User → Type 0
RunsFor E now none t u = u ≡ none
RunsFor E now (some (user_id, token_id)) t u =
    (v : User) × (u ≡ some v)
    × Session E now user_id token_id t v
    × FreshToken now token_id v.user_token
    × IsFresh now v.last_seen_ts

Session-RunsFor :
    {E : Type 0} (now : Time) (user_id token_id : ℕ) (t : Tables) (v : User)
    → Session E now user_id token_id t v
    → RunsFor E now (some (user_id, token_id)) t (some v)
Session-RunsFor {E} now user_id token_id t v (only, current) =
    let (token, fresh) = refresh_user-FreshToken {E = E} now token_id v v current in
    (v, refl, (only, current), token, fresh)

pub Returns-authed_job :
    {E : Type 0} (now : Time) (readonly : Bool) (tok : Option (ℕ × ℕ)) (s : Job E)
    → Returns
        (authed_job now readonly tok)
        s
        (λ u s'. RunsFor E now tok s'.tables u × SameButUsers s.tables s'.tables)
unfolding authed_job
Returns-authed_job now readonly none s = Returns-bind (authed_rounds now 2 readonly none) _ s _ (
    Returns-weaken _ s _ _
      (λ r s' (e, same). rw e (
        Returns-pure _ _ _
          (refl, subst (λ t. t ≡ record s.tables { users = t.users }) (sym same) refl)))
      (anonymous_rounds now readonly s))
Returns-authed_job {E} now readonly (some (user_id, token_id)) s =
    Returns-bind (authed_rounds now 2 readonly (some (user_id, token_id))) _ s _ (
      Returns-weaken _ s _ _
        (λ r s' ((v, e, session), same).
          rw e
            (Returns-pure _ _ _ (Session-RunsFor now user_id token_id s'.tables v session, same)))
        (authed_rounds_lem now user_id token_id readonly s))

-- Where the start of a task succeeds, the task runs for no user if there is no token, and else for
-- the one row with the id of the user, which needs no refresh any more: among its tokens there is
-- one with the id asked for, and neither the first such token nor the user was last seen longer ago
-- than a day; no table but that of the users has changed.
pub authed_job-RunsFor :
    {E : Type 0} (now : Time) (readonly : Bool) (tok : Option (ℕ × ℕ)) (s s' : Job E)
    (u : Option User)
    → authed_job now readonly tok s ≡ (ok u, s')
    → RunsFor E now tok s'.tables u × SameButUsers s.tables s'.tables
authed_job-RunsFor {E} now readonly tok s s' u =
    Returns_use (authed_job now readonly tok) s s' u
      (λ v s1. RunsFor E now tok s1.tables v × SameButUsers s.tables s1.tables)
      (Returns-authed_job now readonly tok s)
