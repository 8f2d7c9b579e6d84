-- ===== src/Auth/Tests.antt =====
-- The theorems on sessions and capabilities at concrete users.
use pixur.Base.{ℕ, ◌≡◌, ◌≢◌, ◌↔◌, refl, true, none, some, [], ◌∷◌}
use pixur.Base.Int.{pos}
use pixur.Base.Result.{ok}
use pixur.CapSet.{Capability, contains}
use pixur.Schema.{User}
use pixur.Job.{◌>>=◌, pure, raise, require, call, get_tables, put_tables, or_internal, revert, Job}
use pixur.Tables.{find, update}
use pixur.Tables.Sample.{sample, sample_user, sample_configuration, sample_now, sample_job}
use pixur.Auth.{
  validate_and_update_user_and_token, refresh_user, upgrade, authed_round, authed_rounds,
  authed_job, capabilities_of, validate_capability,
}
use pixur.Auth.Session.{RunsFor, SameButUsers, authed_rounds-ne-none, authed_job-RunsFor}
use pixur.Auth.Capabilities.{validate_capability_iff}

-- The user of the sample after the refresh of the token.
abbrev seen_user : User
seen_user = record sample_user {
  user_token = record { token_id = 1; created_ts = some 5; last_seen_ts = some sample_now } ∷ [];
  modified_ts = sample_now;
}

abbrev seen_job : Job ℕ
seen_job = record sample_job { tables = record sample { users = seen_user ∷ [] } }

-- Two rounds: the first one refreshes the token.
run_two_rounds :
    authed_rounds sample_now 2 true (some (7, 1)) sample_job
    ≡ (ok (some (some seen_user)), seen_job)
unfolding authed_rounds authed_round validate_and_update_user_and_token refresh_user upgrade find
    update ◌>>=◌ pure raise require call get_tables put_tables or_internal revert
run_two_rounds = refl

authed_rounds-ne-none_example : some (some seen_user) ≢ none
authed_rounds-ne-none_example =
    authed_rounds-ne-none sample_now true (some (7, 1)) sample_job seen_job (some (some seen_user))
      run_two_rounds

run_session : authed_job sample_now true (some (7, 1)) sample_job ≡ (ok (some seen_user), seen_job)
unfolding authed_job authed_rounds authed_round validate_and_update_user_and_token refresh_user
    upgrade find update ◌>>=◌ pure raise require call get_tables put_tables or_internal revert
run_session = refl

authed_job-RunsFor_example :
    RunsFor ℕ sample_now (some (7, 1)) seen_job.tables (some seen_user)
    × SameButUsers sample seen_job.tables
authed_job-RunsFor_example =
    authed_job-RunsFor sample_now true (some (7, 1)) sample_job seen_job (some seen_user)
      run_session

validate_capability_iff_example :
    (validate_capability {E = ℕ} (some sample_user) sample_configuration (pos 5 ∷ pos 6 ∷ [])
      ≡ none)
    ↔ ((d : Capability)
        → contains (pos 5 ∷ pos 6 ∷ []) d ≡ true
        → contains (capabilities_of (some sample_user) sample_configuration) d ≡ true)
validate_capability_iff_example =
    validate_capability_iff {E = ℕ} (some sample_user) sample_configuration (pos 5 ∷ pos 6 ∷ [])
