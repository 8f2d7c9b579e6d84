-- ===== src/Users/Tokens.antt =====
-- be/tasks/auth_user_task.go, unauth_user_task.go: what a login and a logout leave.
use mathlib.Core.Path.{subst}
use pixur.Base.{
  ℕ, zero, suc, ◌≡◌, ◌≤◌, ◌∙◌, refl, sym, ap, arith, Bool, true, false, ◌||◌, Option, none, some,
  List, [], ◌∷◌, ◌++◌, length, take, drop, ◌==◌, Bool-cases, Option-cases, inl, inr,
}
use pixur.Base.Result.{Result, ok, err}
use pixur.Schema.{Time, User, UserToken}
use pixur.Job.{Status}
use pixur.Users.{max_user_tokens, use_token, has_token, or_refused, limit_tokens}

-- Sorting loses no token.
abbrev pub KeepsTokens : (List UserToken → List UserToken) → Type 0
KeepsTokens sort = (ts : List UserToken) (id : ℕ) → has_token id (sort ts) ≡ has_token id ts

pub has_token-append :
    (id : ℕ) (xs ys : List UserToken)
    → has_token id (xs ++ ys) ≡ (has_token id xs || has_token id ys)
has_token-append id [] ys = refl
has_token-append id (x ∷ xs) ys = rw (has_token-append id xs ys) (ground arith)

has_token-split :
    (id n : ℕ) (xs : List UserToken)
    → has_token id xs ≡ (has_token id (take n xs) || has_token id (drop n xs))
has_token-split id zero xs = refl
has_token-split id (suc n) [] = refl
has_token-split id (suc n) (x ∷ xs) = rw (has_token-split id n xs) (ground arith)

length-take-le : (n : ℕ) (xs : List UserToken) → length (take n xs) ≤ n
length-take-le zero xs = omega arith
length-take-le (suc n) [] = omega arith
length-take-le (suc n) (x ∷ xs) = omega (arith, length-take-le n xs)

-- After a login: few tokens, and among them the one in use.
abbrev pub LoggedIn : ℕ → User → Type 0
LoggedIn token_id u =
    (length u.user_token ≤ max_user_tokens) × (has_token token_id u.user_token ≡ true)

pub limit_tokens-LoggedIn :
    {E : Type 0} (sort : List UserToken → List UserToken) (token_id : ℕ) (u v : User)
    → KeepsTokens sort
    → has_token token_id u.user_token ≡ true
    → limit_tokens {E = E} sort token_id u ≡ ok v
    → LoggedIn token_id v
unfolding limit_tokens
limit_tokens-LoggedIn {E} sort token_id u v keeps has e =
    elim (Bool-cases (has_token token_id (drop max_user_tokens (sort u.user_token)))) [
      | inl lost ↦ absurd (clash (rw (lost, limit_tokens) at e))
      | inr kept ↦
          subst (LoggedIn token_id) (ap (λ r. user_or u r) (rw (kept, limit_tokens) at e)) (
            length-take-le max_user_tokens (sort u.user_token),
            left (has_token token_id (take max_user_tokens (sort u.user_token)))
                (has_token token_id (drop max_user_tokens (sort u.user_token)))
                (sym (has_token-split token_id max_user_tokens (sort u.user_token))
                  ∙ keeps u.user_token token_id
                  ∙ has)
                kept,
          )
    ]
  where
    clash : {st : Status E} → ¬ (err st ≡ ok v)
    clash p = cc

    user_or : User → Result (Status E) User → User
    user_or d (ok w) = w
    user_or d (err st) = d

    left : (a b : Bool) → (a || b) ≡ true → b ≡ false → a ≡ true
    left a b p q = ground arith

pub limit_tokens-same :
    {E : Type 0} (sort : List UserToken → List UserToken) (token_id : ℕ) (u v : User)
    → limit_tokens {E = E} sort token_id u ≡ ok v
    → (v.user_id ≡ u.user_id) × (v.capability ≡ u.capability)
unfolding limit_tokens
limit_tokens-same {E} sort token_id u v e =
    elim (Bool-cases (has_token token_id (drop max_user_tokens (sort u.user_token)))) [
      | inl lost ↦ absurd (clash (rw (lost, limit_tokens) at e))
      | inr kept ↦
          subst (λ w. (w.user_id ≡ u.user_id) × (w.capability ≡ u.capability))
            (ap (λ r. user_or u r) (rw (kept, limit_tokens) at e)) (refl, refl)
    ]
  where
    clash : {st : Status E} → ¬ (err st ≡ ok v)
    clash p = cc

    user_or : User → Result (Status E) User → User
    user_or d (ok w) = w
    user_or d (err st) = d

-- A token that is used was there and stays.
pub use_token-has_token :
    (now : Time) (id : ℕ) (ts us : List UserToken)
    → use_token now id ts ≡ some us
    → (has_token id ts ≡ true) × (has_token id us ≡ true)
use_token-has_token now id [] us e = cc
use_token-has_token now id (t ∷ ts) us e = elim (Bool-cases (t.token_id == id)) [
  | inl hit ↦ (
    rw hit refl,
    subst (λ xs. has_token id xs ≡ true) (ap (λ o. tokens_or ts o) (rw hit at e)) (rw hit refl),
  )
  | inr miss ↦ elim (Option-cases (use_token now id ts)) [
    | inl nothing ↦ absurd (clash (rw (miss, nothing) at e))
    | inr (xs, found) ↦
        let (before, behind) = use_token-has_token now id ts xs found in
        (
          rw before (ground arith),
          subst (λ ys. has_token id ys ≡ true) (ap (λ o. tokens_or ts o) (rw (miss, found) at e))
              (rw behind (ground arith)),
        )
  ]
]
  where
    clash : ¬ (none ≡ some us)
    clash p = cc

    tokens_or : List UserToken → Option (List UserToken) → List UserToken
    tokens_or d none = d
    tokens_or d (some xs) = xs

pub or_refused-ok :
    {E A : Type 0} (st : Status E) (o : Option A) (a : A) → or_refused st o ≡ ok a → o ≡ some a
or_refused-ok {E} {A} st none a e = cc
or_refused-ok {E} {A} st (some b) a e = ap (λ r. some_or b r) e
  where
    some_or : A → Result (Status E) A → Option A
    some_or d (ok x) = some x
    some_or d (err q) = some d
