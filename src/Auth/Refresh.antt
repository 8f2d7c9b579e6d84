-- ===== src/Auth/Refresh.antt =====
-- be/tasks/auth.go: what is refreshed of a user needs no refresh again.
use mathlib.Core.Path.{subst}
use pixur.Base.{
  ℕ, ◌+◌, ◌≡◌, ◌∙◌, refl, sym, ap, arith, Bool, true, false, ◌||◌, Option, none, some, List, [],
  ◌∷◌, ltb, ◌==◌, if◌then◌else◌, Bool-cases, Option-cases, inl, inr,
}
use pixur.Base.Result.{Result, ok, err}
use pixur.Schema.{Time, User, UserToken}
use pixur.Job.{Status, unauthenticated}
use pixur.Auth.{last_seen_update_threshold, refresh, refresh_token, single, refresh_user}

refresh-refresh :
    (now : Time) (o : Option Time) → refresh now (refresh now o).0 ≡ ((refresh now o).0, false)
refresh-refresh now none = refl
refresh-refresh now (some seen) = elim (Bool-cases (ltb (seen + last_seen_update_threshold) now)) [
  | inl old ↦ rw old (rw (fresh now) refl)
  | inr new ↦ rw new (rw new refl)
]
  where
    fresh : (t : ℕ) → ltb (t + last_seen_update_threshold) t ≡ false
    fresh t = ground arith

abbrev tokens_or : List UserToken → Option (List UserToken × Bool) → List UserToken
tokens_or uts none = uts
tokens_or uts (some p) = p.0

refresh_token_again :
    (now : Time) (token_id : ℕ) (uts uts' : List UserToken) (b : Bool)
    → refresh_token now token_id uts ≡ some (uts', b)
    → refresh_token now token_id uts' ≡ some (uts', false)
refresh_token_again now token_id [] uts' b e = cc
refresh_token_again now token_id (ut ∷ uts) uts' b e = elim (Bool-cases (ut.token_id == token_id)) [
  | inl hit ↦
      subst (λ l. refresh_token now token_id l ≡ some (l, false))
        (ap (λ o. tokens_or uts o) (rw hit at e))
        (rw hit (
          ap (λ p. some (record ut { last_seen_ts = p.0 } ∷ uts, p.1))
            (refresh-refresh now ut.last_seen_ts)))
  | inr miss ↦ elim (Option-cases (refresh_token now token_id uts)) [
    | inl nothing ↦ absurd (clash (rw (miss, nothing) at e))
    | inr ((uts1, b1), found) ↦
        subst (λ l. refresh_token now token_id l ≡ some (l, false))
          (ap (λ o. tokens_or uts o) (rw (miss, found) at e))
          (rw (miss, refresh_token_again now token_id uts uts1 b1 found) refl)
  ]
]
  where
    clash : {p : List UserToken × Bool} → ¬ (none ≡ some p)
    clash p = cc

pub single_ok :
    {E A : Type 0} (st : Status E) (as' : List A) (a : A) → single st as' ≡ ok a → as' ≡ a ∷ []
single_ok st [] a e = cc
single_ok st (x ∷ []) a e = ground (arith, e)
single_ok st (x ∷ y ∷ as') a e = cc

abbrev pub user_or : {E : Type 0} → User → Result (Status E) (User × Bool) → User
user_or v (ok p) = p.0
user_or v (err st) = v

-- A user that was refreshed needs no refresh, and is the same user.
pub refresh_user_again :
    {E : Type 0} (now : Time) (token_id : ℕ) (u u' : User) (b : Bool)
    → refresh_user {E = E} now token_id u ≡ ok (u', b)
    → (refresh_user {E = E} now token_id u' ≡ ok (u', false))
      × (u'.user_id ≡ u.user_id)
      × (u'.capability ≡ u.capability)
unfolding refresh_user
refresh_user_again {E} now token_id u u' b e =
    elim (Option-cases (refresh_token now token_id u.user_token)) [
      | inl nothing ↦ absurd (clash (rw (nothing, refresh_user) at e))
      | inr ((uts, tb), found) ↦
          let e' = rw (found, refresh_user) at e in
          let stamp = if tb || (refresh now u.last_seen_ts).1 then now else u.modified_ts in
          subst
            (λ v.
              (refresh_user {E = E} now token_id v ≡ ok (v, false))
              × (v.user_id ≡ u.user_id)
              × (v.capability ≡ u.capability))
            (ap (λ r. user_or u r) e')
            (
              rw (refresh_token_again now token_id u.user_token uts tb found, refresh_user)
                  (ap
                    (λ p. ok (
                      record u {
                        user_token = uts;
                        last_seen_ts = p.0;
                        modified_ts = if false || p.1 then now else stamp;
                      },
                      false || p.1,
                    ))
                    (refresh-refresh now u.last_seen_ts)),
              refl,
              refl,
            )
    ]
  where
    clash : ¬ ((let r : Result (Status E) (User × Bool) = err unauthenticated in r) ≡ ok (u', b))
    clash p = cc

abbrev pub flag_or : {E : Type 0} → Bool → Result (Status E) (User × Bool) → Bool
flag_or b (ok p) = p.1
flag_or b (err st) = b

abbrev pub token_flag_or : Bool → Option (List UserToken × Bool) → Bool
token_flag_or b none = b
token_flag_or b (some p) = p.1

refresh_same : (now : Time) (o : Option Time) → (refresh now o).1 ≡ false → (refresh now o).0 ≡ o
refresh_same now none e = refl
refresh_same now (some seen) e = ground arith

refresh_token_same :
    (now : Time) (token_id : ℕ) (uts uts' : List UserToken)
    → refresh_token now token_id uts ≡ some (uts', false)
    → uts' ≡ uts
refresh_token_same now token_id [] uts' e = cc
refresh_token_same now token_id (ut ∷ uts) uts' e = elim (Bool-cases (ut.token_id == token_id)) [
  | inl hit ↦
      let e' = rw hit at e in
      sym (ap (λ o. tokens_or uts o) e')
      ∙ ap (λ o. record ut { last_seen_ts = o } ∷ uts)
          (refresh_same now ut.last_seen_ts (ap (λ o. token_flag_or true o) e'))
  | inr miss ↦ elim (Option-cases (refresh_token now token_id uts)) [
    | inl nothing ↦ absurd (clash (rw (miss, nothing) at e))
    | inr ((uts1, b1), found) ↦
        let e' = rw (miss, found) at e in
        let flag : b1 ≡ false = ap (λ o. token_flag_or true o) e' in
        sym (ap (λ o. tokens_or uts o) e')
        ∙ ap (λ l. ut ∷ l)
            (refresh_token_same now token_id uts uts1 (found ∙ ap (λ c. some (uts1, c)) flag))
  ]
]
  where
    clash : {p : List UserToken × Bool} → ¬ (none ≡ some p)
    clash p = cc

pub refresh_user_same :
    {E : Type 0} (now : Time) (token_id : ℕ) (u u' : User)
    → refresh_user {E = E} now token_id u ≡ ok (u', false)
    → u' ≡ u
unfolding refresh_user
refresh_user_same {E} now token_id u u' e =
    elim (Option-cases (refresh_token now token_id u.user_token)) [
      | inl nothing ↦ absurd (clash (rw (nothing, refresh_user) at e))
      | inr ((uts, tb), found) ↦
          let e' = rw (found, refresh_user) at e in
          let flag : (tb || (refresh now u.last_seen_ts).1) ≡ false = ap (λ r. flag_or true r) e' in
          let flag_t : tb ≡ false = or_left tb (refresh now u.last_seen_ts).1 flag in
          let flag_u = or_right tb (refresh now u.last_seen_ts).1 flag in
          let uts_lem =
            refresh_token_same now token_id u.user_token uts
              (found ∙ ap (λ c. some (uts, c)) flag_t) in
          sym (ap (λ r. user_or u r) e')
          ∙ rw (flag, uts_lem, refresh_same now u.last_seen_ts flag_u) refl
    ]
  where
    clash :
        ¬ ((let r : Result (Status E) (User × Bool) = err unauthenticated in r) ≡ ok (u', false))
    clash p = cc

    or_left : (a c : Bool) → (a || c) ≡ false → a ≡ false
    or_left a c p = ground arith

    or_right : (a c : Bool) → (a || c) ≡ false → c ≡ false
    or_right a c p = ground arith
