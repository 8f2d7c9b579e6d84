-- ===== src/Auth/Fresh.antt =====
-- be/tasks/auth.go: what it means that a user has a token and needs no refresh.
use pixur.Base.{
  ℕ, ◌+◌, ◌≤◌, ◌≡◌, ◌≢◌, ◌∙◌, refl, ap, arith, Bool, true, false, ◌||◌, Option, none, some, List,
  [], ◌∷◌, ◌++◌, All, ◌==◌, Bool-cases, Option-cases, inl, inr,
}
use pixur.Base.Result.{Result, ok, err}
use pixur.Schema.{Time, User, UserToken}
use pixur.Job.{Status, unauthenticated}
use pixur.Auth.{last_seen_update_threshold, refresh, refresh_token, refresh_user}
use pixur.Auth.Refresh.{token_flag_or, flag_or}

-- A time that was seen not longer ago than the threshold.
abbrev pub IsFresh : Time → Option Time → Type 0
IsFresh now none = Unit
IsFresh now (some seen) = now ≤ seen + last_seen_update_threshold

-- The first of the tokens with an id, which was seen not longer ago than the threshold.
pub record FreshToken (now : Time) (token_id : ℕ) (uts : List UserToken) : Type 0 where
  pub before : List UserToken
  pub token : UserToken
  pub after : List UserToken
  pub split : uts ≡ before ++ (token ∷ after)
  pub same_id : token.token_id ≡ token_id
  pub first : All (λ ut. ut.token_id ≢ token_id) before
  pub fresh : IsFresh now token.last_seen_ts

refresh-IsFresh : (now : Time) (o : Option Time) → (refresh now o).1 ≡ false → IsFresh now o
refresh-IsFresh now none e = tt
refresh-IsFresh now (some seen) e = ground arith

no_tokens : {p : List UserToken × Bool} → ¬ (none ≡ some p)
no_tokens p = cc

refresh_token-FreshToken :
    (now : Time) (token_id : ℕ) (uts uts' : List UserToken)
    → refresh_token now token_id uts ≡ some (uts', false)
    → FreshToken now token_id uts
refresh_token-FreshToken now token_id [] uts' e = cc
refresh_token-FreshToken now token_id (ut ∷ uts) uts' e =
    elim (Bool-cases (ut.token_id == token_id)) [
      | inl hit ↦ record {
        before = [];
        token = ut;
        after = uts;
        split = refl;
        same_id = ground (arith, hit);
        first = tt;
        fresh = refresh-IsFresh now ut.last_seen_ts (ap (λ o. token_flag_or true o) (rw hit at e));
      }
      | inr miss ↦ elim (Option-cases (refresh_token now token_id uts)) [
        | inl nothing ↦ absurd (no_tokens (rw (miss, nothing) at e))
        | inr ((uts1, b1), found) ↦
            let flag : b1 ≡ false = ap (λ o. token_flag_or true o) (rw (miss, found) at e) in
            let rest =
              refresh_token-FreshToken now token_id uts uts1
                (found ∙ ap (λ c. some (uts1, c)) flag) in
            record {
              before = ut ∷ rest.before;
              token = rest.token;
              after = rest.after;
              split = ap (λ l. ut ∷ l) rest.split;
              same_id = rest.same_id;
              first = ((λ p. other ut.token_id token_id miss p), rest.first);
              fresh = rest.fresh;
            }
      ]
    ]
  where
    other : (a b : ℕ) → (a == b) ≡ false → a ≢ b
    other a b h p = ground (arith, h, p)

-- A user that the refresh leaves alone has the token, and neither the token nor the user was seen longer
-- ago than the threshold.
pub refresh_user-FreshToken :
    {E : Type 0} (now : Time) (token_id : ℕ) (u u' : User)
    → refresh_user {E = E} now token_id u ≡ ok (u', false)
    → FreshToken now token_id u.user_token × IsFresh now u.last_seen_ts
unfolding refresh_user
refresh_user-FreshToken {E} now token_id u u' e =
    elim (Option-cases (refresh_token now token_id u.user_token)) [
      | inl nothing ↦ absurd (clash (rw (nothing, refresh_user) at e))
      | inr ((uts, tb), found) ↦
          let e' = rw (found, refresh_user) at e in
          let flag : (tb || (refresh now u.last_seen_ts).1) ≡ false = ap (λ r. flag_or true r) e' in
          let (flag_t, flag_u) = neither tb (refresh now u.last_seen_ts).1 flag in
          (
            refresh_token-FreshToken now token_id u.user_token uts
                (found ∙ ap (λ c. some (uts, c)) flag_t),
            refresh-IsFresh now u.last_seen_ts flag_u,
          )
    ]
  where
    clash :
        ¬ ((let r : Result (Status E) (User × Bool) = err unauthenticated in r) ≡ ok (u', false))
    clash p = cc

    neither : (a c : Bool) → (a || c) ≡ false → (a ≡ false) × (c ≡ false)
    neither a c p = (ground arith, ground arith)
