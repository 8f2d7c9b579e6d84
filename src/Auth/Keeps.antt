-- ===== src/Auth/Keeps.antt =====
-- be/tasks/auth.go: the start of a task writes to the users and to no other table.
use pixur.Base.{ap, ℕ, zero, suc, Bool, true, false, not, Option, none, some, List, if◌then◌else◌}
use pixur.Schema.{Time, User, Tables}
use pixur.Job.{from, internal, panic, unauthenticated, Action, call, or_internal}
use pixur.Job.Keeps.{
  Keeps, Keeps-bind, Keeps-pure, Keeps-raise, Keeps-require, Keeps-call, Keeps-or_internal,
  Keeps-revert,
}
use pixur.Tables.Users.{users_table, users_primary}
use pixur.Tables.Rows.{Keeps-find, Keeps-update}
use pixur.Auth.Session.{SameButUsers}
use pixur.Auth.{
  single, refresh_user, validate_and_update_user_and_token, upgrade, authed_round, go_on,
  authed_rounds, found_user, authed_job,
}

pub SameButUsers-stable :
    (t0 t : Tables) (us : List User) → SameButUsers t0 t → SameButUsers t0 (record t { users = us })
SameButUsers-stable t0 t us h = ap {A = Tables} {B = Tables} (λ x. record x { users = us }) h

module _ (E : Type 0) (P : Tables → Type 0)
    (stable : (t : Tables) (us : List User) → P t → P (record t { users = us })) (now : Time) where
  Keeps-validate :
      (user_id token_id : ℕ) → Keeps E P (validate_and_update_user_and_token now user_id token_id)
  unfolding validate_and_update_user_and_token
  Keeps-validate user_id token_id =
      Keeps-bind E P _ _
        (Keeps-or_internal E P _
          (Keeps-find E P users_table (users_primary (record { id = some user_id })) 0))
        (λ us.
          Keeps-bind E P _ _ (Keeps-require E P (single unauthenticated us))
            (λ u. Keeps-require E P (refresh_user now token_id u)))

  Keeps-call_from : Keeps E P (or_internal (call from))
  Keeps-call_from = Keeps-or_internal E P _ (Keeps-call E P from)

  Keeps-upgrade : (readonly : Bool) → Keeps E P (upgrade now readonly)
  unfolding upgrade
  Keeps-upgrade false = Keeps-pure E P tt
  Keeps-upgrade true = Keeps-bind E P _ _ Keeps-call_from (λ _. Keeps-call_from)

  Keeps-if :
      {A : Type 0} (b : Bool) (m k : Action E A)
      → Keeps E P m
      → Keeps E P k
      → Keeps E P (if b then m else k)
  Keeps-if true m k hm hk = hm
  Keeps-if false m k hm hk = hk

  Keeps-authed_round :
      (readonly : Bool) (tok : Option (ℕ × ℕ)) → Keeps E P (authed_round now readonly tok)
  unfolding authed_round
  Keeps-authed_round readonly none = Keeps-bind E P _ _ Keeps-call_from (λ _. Keeps-pure E P _)
  Keeps-authed_round readonly (some (user_id, token_id)) = Keeps-bind E P _ _ Keeps-call_from (λ _.
      Keeps-bind E P _ _ (Keeps-validate user_id token_id) (λ found.
        Keeps-if (not found.1) _ _ (Keeps-pure E P _) (
          Keeps-bind E P _ _ (Keeps-upgrade readonly) (λ _.
            Keeps-bind E P _ _ (Keeps-validate user_id token_id) (λ found'.
              Keeps-if (not found'.1) _ _ (Keeps-raise E P _ internal) (
                Keeps-bind E P _ _
                  (Keeps-or_internal E P _
                    (Keeps-update E P users_table found'.0 (λ t rs h. stable t rs h)))
                  (λ _. Keeps-bind E P _ _ Keeps-call_from (λ _. Keeps-pure E P _))))))))

  Keeps-authed_rounds :
      (fuel : ℕ) (readonly : Bool) (tok : Option (ℕ × ℕ))
      → Keeps E P (authed_rounds now fuel readonly tok)
  unfolding authed_rounds
  Keeps-authed_rounds zero readonly tok = Keeps-pure E P none
  Keeps-authed_rounds (suc fuel) readonly tok =
      Keeps-bind E P _ _ (Keeps-revert E P _ (Keeps-authed_round readonly tok))
        (λ found. again found (Keeps-authed_rounds fuel readonly tok))
    where
      again :
          (o : Option (Option User))
          → Keeps E P (authed_rounds now fuel readonly tok)
          → Keeps E P (go_on now o (authed_rounds now fuel readonly tok))
      again none more = more
      again (some u) more = Keeps-pure E P _

  pub Keeps-authed_job :
      (readonly : Bool) (tok : Option (ℕ × ℕ)) → Keeps E P (authed_job now readonly tok)
  unfolding authed_job
  Keeps-authed_job readonly tok =
      Keeps-bind E P _ _ (Keeps-authed_rounds 2 readonly tok) (λ o. found o)
    where
      found : (o : Option (Option User)) → Keeps E P (found_user now o)
      found none = Keeps-raise E P _ panic
      found (some u) = Keeps-pure E P u
