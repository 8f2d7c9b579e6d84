-- ===== src/Users/Login.antt =====
-- be/tasks/auth_user_task.go: who can log in, and what a login leaves.
use mathlib.Core.Path.{subst}
use pixur.Base.{
  ℕ, ◌≢◌, ◌+◌, ◌≡◌, ◌⊎◌, ◌∙◌, ◌%◌, ◌^◌, refl, sym, arith, Bool, true, false, ◌||◌, Option, none,
  some, List, [], ◌∷◌, ◌==◌, Bool-cases, inl, inr,
}
use pixur.Base.Result.{ok}
use pixur.Text.{Text, Library, Ranges}
use pixur.Schema.{Time, Tables, User, UserToken, Configuration}
use pixur.Job.{unauthenticated, Job}
use pixur.Job.Returns.{
  Returns, Returns-bind, Returns-weaken, Returns-pure, Returns-raise, Returns-bind-require,
  Returns-bind-require_none, Returns-revert, Returns_use,
}
use pixur.Tables.{int, bytes, select, limited}
use pixur.Tables.Users.{users_table, users_primary}
use pixur.Tables.Rows.{Returns-bind-find, Returns-bind-update, Returns-bind-internal_call}
use pixur.Auth.{authed_job}
use pixur.Auth.Refresh.{single_ok}
use pixur.Auth.Session.{SameButUsers, Returns-authed_job}
use pixur.Votes.Run.{refuse_if-none}
use pixur.Users.{refuse_login, check_secret, has_token, users_ident_table}
use pixur.Users.Tasks.{
  user_unique_ident, clean_ident, auth_by_ident, auth_by_token, store_login, find_login, auth_user,
}
use pixur.Users.Tokens.{
  KeepsTokens, LoggedIn, has_token-append, limit_tokens-LoggedIn, limit_tokens-same,
  use_token-has_token, or_refused-ok,
}

-- How the user of a login was found: by an ident with its secret, or by the id of a token.
abbrev pub ProvenByIdent :
    (E : Type 0)
    → Library
    → Ranges
    → Configuration
    → (Text → Text → Option E)
    → Text
    → Text
    → Tables
    → User
    → Type 0
ProvenByIdent E lib ranges conf compare_hash ident secret t u =
    (clean key : Text) × (clean_ident {E = E} lib ranges conf ident ≡ ok clean)
    × (user_unique_ident {E = E} lib ranges clean ≡ ok key)
    × (limited 1 (select ((users_ident_table lib).key) (bytes key ∷ []) t.users) ≡ u ∷ [])
    × (check_secret {E = E} secret ≡ none)
    × (compare_hash u.secret secret ≡ none)

abbrev pub ProvenByToken : ℕ → ℕ → Tables → User → ℕ → Type 0
ProvenByToken user_id token_id t u used =
    (limited 1 (select (users_table.key) (int user_id ∷ []) t.users) ≡ u ∷ [])
    × (has_token token_id u.user_token ≡ true)
    × ((token_id == 0) ≡ false)
    × (used ≡ token_id)

abbrev pub Proven :
    (E : Type 0)
    → Library
    → Ranges
    → Configuration
    → (Text → Text → Option E)
    → Text
    → Text
    → ℕ
    → ℕ
    → Tables
    → User
    → ℕ
    → Type 0
Proven E lib ranges conf compare_hash ident secret user_id token_id t u used =
    ((ident ≢ []) × ProvenByIdent E lib ranges conf compare_hash ident secret t u)
    ⊎ ((ident ≡ []) × ProvenByToken user_id token_id t u used)

no_error : {E : Type 0} (o : Option E) → refuse_login o ≡ none → o ≡ none
no_error none e = refl
no_error (some x) e = cc

module _ {E : Type 0} (lib : Library) (ranges : Ranges) (conf : Configuration) (now : Time)
    (compare_hash : Text → Text → Option E) (ident secret : Text) (user_id token_id : ℕ) where
  -- The user found, as it was, and with the token in use.
  abbrev Login : Tables → User × ℕ → Tables → Type 0
  Login t (v, used) t' =
      ((u : User) × Proven E lib ranges conf compare_hash ident secret user_id token_id t u used
        × (v.user_id ≡ u.user_id)
        × (v.capability ≡ u.capability)
        × (has_token used v.user_token ≡ true))
      × (t' ≡ t)

  by_token :
      (s : Job E)
      → ident ≡ []
      → Returns (auth_by_token now user_id token_id) s (λ r s'. Login s.tables r s'.tables)
  unfolding auth_by_token
  by_token s none_given =
      Returns-bind-find users_table s _ (users_primary (record { id = some user_id })) 1
        (int user_id ∷ []) _ refl
        (λ fs. Returns-bind-require _ _ _ _ (λ u only. Returns-bind-require _ _ _ _ (λ uts used.
          Returns-bind-require_none _ _ _ _ (λ nonzero.
            let (before, behind) =
              use_token-has_token now token_id u.user_token uts
                (or_refused-ok {E = E} unauthenticated _ uts used) in
            Returns-pure _ _ _ (
              (
                u,
                inr (
                  none_given,
                  (
                    single_ok unauthenticated _ u only,
                    before,
                    refuse_if-none {E = E} _ unauthenticated nonzero,
                    refl,
                  ),
                ),
                refl,
                refl,
                behind,
              ),
              refl,
            )))))

  by_ident :
      (s : Job E)
      → ident ≢ []
      → Returns
          (auth_by_ident lib ranges conf now compare_hash ident secret)
          s
          (λ r s'. Login s.tables r s'.tables)
  unfolding auth_by_ident
  by_ident s given = Returns-bind-require _ _ _ _ (λ clean cleaned.
      Returns-bind-require _ _ _ _ (λ key keyed.
        Returns-bind-find (users_ident_table lib) s _ _ 1 (bytes key ∷ []) _ refl (λ fs.
          Returns-bind-require _ _ _ _ (λ u only. Returns-bind-require_none _ _ _ _ (λ secret_ok.
            Returns-bind-require_none _ _ _ _ (λ compared. Returns-pure _ _ _ (
              (
                u,
                inl (
                  given,
                  (
                    clean,
                    key,
                    cleaned,
                    keyed,
                    single_ok unauthenticated _ u only,
                    secret_ok,
                    no_error {E = E} _ compared,
                  ),
                ),
                refl,
                refl,
                has_token-append ((u.next_token_id + 1) % 2 ^ 64) u.user_token _
                    ∙ last (has_token ((u.next_token_id + 1) % 2 ^ 64) u.user_token)
                        ((u.next_token_id + 1) % 2 ^ 64),
              ),
              refl,
            )))))))
    where
      last : (b : Bool) (n : ℕ) → (b || (n == n || false)) ≡ true
      last b n = ground arith

  Returns-find_login :
      (s : Job E)
      → Returns
          (find_login lib ranges conf now compare_hash ident secret user_id token_id)
          s
          (λ r s'. Login s.tables r s'.tables)
  Returns-find_login s = at ident refl
    where
      some_text : {b : ℕ} {bs : List ℕ} → ident ≡ b ∷ bs → ident ≢ []
      some_text {b} {bs} e p = clash (sym e ∙ p)
        where
          clash : ¬ (b ∷ bs ≡ [])
          clash q = cc

      at :
          (x : Text)
          → ident ≡ x
          → Returns
              (find_login lib ranges conf now compare_hash x secret user_id token_id)
              s
              (λ r s'. Login s.tables r s'.tables)
      at [] e = elim (Bool-cases (user_id == 0)) [
        | inl missing ↦ rw missing (Returns-raise _ _ _)
        | inr given ↦ rw given (by_token s e)
      ]
      at (b ∷ bs) e =
          subst
            (λ x.
              Returns (auth_by_ident lib ranges conf now compare_hash x secret) s
                (λ r s'. Login s.tables r s'.tables))
            e (by_ident s (some_text e))

-- What a login has done: the user was proven in the tables behind the session, has few tokens and the one
-- in use, and the same capabilities.
abbrev pub LoginDone :
    (E : Type 0)
    → Library
    → Ranges
    → Configuration
    → (Text → Text → Option E)
    → Text
    → Text
    → ℕ
    → ℕ
    → Tables
    → User
    → ℕ
    → Type 0
LoginDone E lib ranges conf compare_hash ident secret user_id token_id t v used =
    (u : User) × (t1 : Tables) × SameButUsers t t1
    × Proven E lib ranges conf compare_hash ident secret user_id token_id t1 u used
    × (v.user_id ≡ u.user_id)
    × (v.capability ≡ u.capability)
    × LoggedIn used v

module _ {E : Type 0} (lib : Library) (ranges : Ranges) (conf : Configuration) (now : Time)
    (compare_hash : Text → Text → Option E) (sort : List UserToken → List UserToken)
    (keeps : KeepsTokens sort) (ident secret : Text) (user_id token_id : ℕ) where
  Returns-store_login :
      (s : Job E) (v : User) (used : ℕ)
      → has_token used v.user_token ≡ true
      → Returns (store_login now sort (v, used)) s (λ r s'.
        (r.0.user_id ≡ v.user_id)
        × (r.0.capability ≡ v.capability)
        × LoggedIn r.1 r.0
        × (r.1 ≡ used))
  unfolding store_login
  Returns-store_login s v used has = Returns-bind-require s _ _ _ (λ kept limited.
      Returns-bind-update users_table s _ _ _ (λ fs. Returns-bind-internal_call _ _ _ (λ fs1.
        let (few, there) = limit_tokens-LoggedIn {E = E} sort used v kept keeps has limited in
        let (id, caps) = limit_tokens-same {E = E} sort used v kept limited in
        Returns-pure _ _ _ (id, caps, (few, there), refl))))

  -- Where a login succeeds and the sort of the tokens loses none, the user was proven before it, in
  -- tables where only users differ from those at the start: by the one row with the caseless ident
  -- and an accepted secret, or by the one row with the id, which has the token, whose id is not 0;
  -- the user of the result has the same id and capabilities, at most ten tokens, and among them the
  -- one in use.
  pub auth_user-LoginDone :
      (tok : Option (ℕ × ℕ)) (s s' : Job E) (v : User) (used : ℕ)
      → auth_user lib ranges conf now compare_hash sort tok ident secret user_id token_id s
        ≡ (ok (v, used), s')
      → LoginDone E lib ranges conf compare_hash ident secret user_id token_id s.tables v used
  unfolding auth_user
  auth_user-LoginDone tok s s' v used =
      Returns_use
        (auth_user lib ranges conf now compare_hash sort tok ident secret user_id token_id) s s'
        (v, used)
        (λ r s1.
          LoginDone E lib ranges conf compare_hash ident secret user_id token_id s.tables r.0 r.1)
        (Returns-bind (authed_job now false tok) _ s _ (
          Returns-weaken _ s _ _
            (λ su s1 (session, same). Returns-revert _ s1 _ (
              Returns-bind
                (find_login lib ranges conf now compare_hash ident secret user_id token_id) _ s1 _
                (Returns-weaken _ s1 _ _
                  (λ (w, in_use) s2 ((u, proven, id, caps, has), kept).
                    Returns-weaken _ s2 _ _
                      (λ (x, in_use') s3 (id', caps', logged, same_use). (
                        u,
                        s1.tables,
                        same,
                        subst
                            (Proven E lib ranges conf compare_hash ident secret user_id token_id
                              s1.tables u)
                            (sym same_use) proven,
                        id' ∙ id,
                        caps' ∙ caps,
                        logged,
                      ))
                      (Returns-store_login s2 w in_use has))
                  (Returns-find_login lib ranges conf now compare_hash ident secret user_id token_id
                    s1))))
            (Returns-authed_job now false tok s)))
