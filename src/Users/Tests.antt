-- ===== src/Users/Tests.antt =====
-- The tasks on users at the sample: a login by token, a change of capabilities, a new user.
use pixur.Base.{ℕ, ◌≡◌, refl, none, some, Option, List, [], ◌∷◌}
use pixur.Base.Int.{pos}
use pixur.Base.Result.{Result, ok, err}
use pixur.CapSet.{cap_set_of, add, cap_intersect, verify_cap_subset, has, size, slice}
use pixur.Text.{Text, validate_and_normalize, normalize, validate, validate_max_bytes}
use pixur.Text.Rules.{
  default_validate_no_newline_and_normalize, default_validate_and_normalize, default_validators,
  to_nfc_unsafe, validate_encoding, validate_codepoints, validate_runes, validate_decoded,
  validate_codepoint_unsafe, validate_no_newlines_unsafe, validate_lines, to_caseless_nfkc, checked,
  to_caseless_nfkc_unsafe,
}
use pixur.Text.Rules.Tests.{ascii, ascii_ranges}
use pixur.Schema.{User, UserToken}
use pixur.Job.{
  aborted, already_exists, Action, ◌>>=◌, pure, raise, require, require_none, call, get_tables,
  put_tables, or_internal, revert, Job,
}
use pixur.Tables.{find, insert, update}
use pixur.Tables.Sample.{sample, sample_user, sample_configuration, sample_job}
use pixur.Auth.{
  validate_and_update_user_and_token, refresh_user, upgrade, authed_round, authed_rounds,
  authed_job, validate_cap_set, validate_capability, derive_object_user_id, lookup_object_user,
}
use pixur.Users.{change_caps, check_change, changed_user, limit_tokens}
use pixur.Users.Tasks.{
  auth_by_token, store_login, auth_user, unauth_user_job, unauth_user, update_user_job,
  update_user_task, user_unique_ident, clean_ident, create_user_job, create_user_task,
}
use pixur.Users.Idents.{IdentsUnique, create_user_task-IdentsUnique}
use pixur.Users.Update.{UpdateDone, update_user_task-UpdateDone}
use pixur.Users.Login.{LoginDone, auth_user-LoginDone}

-- Five minutes, so that nothing is refreshed.
abbrev soon : ℕ
soon = 300

-- A user that may change the capabilities of others.
abbrev admin : User
admin = record sample_user { capability = pos 12 ∷ pos 22 ∷ [] }

abbrev admin_job : Job ℕ
admin_job = record sample_job { tables = record sample { users = admin ∷ [] } }

abbrev admin_after : User
admin_after = record admin { capability = pos 5 ∷ pos 12 ∷ []; modified_ts = soon }

run_update :
    update_user_task soon sample_configuration
      (some (7, 1))
      0
      5
      (pos 5 ∷ [])
      (pos 22 ∷ [])
      admin_job
    ≡ (ok admin_after, record sample_job { tables = record sample { users = admin_after ∷ [] } })
unfolding update_user_task update_user_job lookup_object_user derive_object_user_id change_caps
    check_change changed_user authed_job authed_rounds authed_round
    validate_and_update_user_and_token refresh_user upgrade validate_cap_set validate_capability
    cap_set_of add cap_intersect verify_cap_subset has size slice find insert update ◌>>=◌ pure
    raise require require_none call get_tables put_tables or_internal revert
run_update = refl

-- A version that has gone by.
run_aborted :
    update_user_task soon sample_configuration (some (7, 1)) 0 4 (pos 5 ∷ []) [] admin_job
    ≡ (err aborted, admin_job)
unfolding update_user_task update_user_job lookup_object_user derive_object_user_id change_caps
    check_change changed_user authed_job authed_rounds authed_round
    validate_and_update_user_and_token refresh_user upgrade validate_cap_set validate_capability
    cap_set_of add cap_intersect verify_cap_subset has size slice find insert update ◌>>=◌ pure
    raise require require_none call get_tables put_tables or_internal revert
run_aborted = refl

update_user_task-UpdateDone_example :
    UpdateDone ℕ sample_configuration soon 0 5
      (pos 5 ∷ [])
      (pos 22 ∷ [])
      (some (7, 1))
      admin_job.tables
      admin_after
      (record sample { users = admin_after ∷ [] })
update_user_task-UpdateDone_example =
    update_user_task-UpdateDone sample_configuration soon 0 5 (pos 5 ∷ []) (pos 22 ∷ [])
      (some (7, 1)) admin_job
      (record sample_job { tables = record sample { users = admin_after ∷ [] } }) admin_after
      run_update

abbrev no_hash : Text → Text → Option ℕ
no_hash h p = some 0

abbrev as_is : List UserToken → List UserToken
as_is ts = ts

abbrev user_after : User
user_after = record sample_user {
  user_token = record { token_id = 1; created_ts = some 5; last_seen_ts = some soon } ∷ [];
  last_seen_ts = some soon;
  modified_ts = soon;
}

run_login :
    auth_user ascii ascii_ranges sample_configuration soon no_hash as_is none [] [] 7 1 sample_job
    ≡ (ok (user_after, 1), record sample_job { tables = record sample { users = user_after ∷ [] } })
unfolding auth_user auth_by_token store_login limit_tokens authed_job authed_rounds authed_round
    validate_and_update_user_and_token refresh_user upgrade find update ◌>>=◌ pure raise require
    require_none call get_tables put_tables or_internal revert
run_login = refl

auth_user-LoginDone_example :
    LoginDone ℕ ascii ascii_ranges sample_configuration no_hash [] [] 7 1 sample user_after 1
auth_user-LoginDone_example =
    auth_user-LoginDone ascii ascii_ranges sample_configuration soon no_hash as_is (λ ts id. refl)
      [] [] 7 1 none sample_job
      (record sample_job { tables = record sample { users = user_after ∷ [] } }) user_after 1
      run_login

-- Any caller may take a token away.
run_logout : unauth_user {E = ℕ} soon none 7 1 sample_job ≡ (
  ok tt,
  record sample_job {
    tables = record sample {
      users =
          record sample_user { user_token = []; last_seen_ts = some soon; modified_ts = soon } ∷ [];
    };
  },
)
unfolding unauth_user unauth_user_job authed_job authed_rounds authed_round
    validate_and_update_user_and_token refresh_user upgrade find update ◌>>=◌ pure raise require
    require_none call get_tables put_tables or_internal revert
run_logout = refl

abbrev as_text : Text → Result ℕ Text
as_text secret = ok secret

abbrev next_id : Action ℕ ℕ
next_id s = (ok 8, s)

abbrev maker : User
maker = record sample_user { capability = pos 4 ∷ [] }

abbrev maker_job : Job ℕ
maker_job = record sample_job { tables = record sample { users = maker ∷ [] } }

-- The ident `b` is new, and `a` is in use.
abbrev made : User
made = record {
  user_id = 8;
  secret = 3 ∷ [];
  ident = 98 ∷ [];
  created_ts = soon;
  modified_ts = soon;
  last_seen_ts = none;
  capability = pos 11 ∷ [];
  next_token_id = 0;
  user_token = [];
  ext = [];
}

run_create :
    create_user_task ascii ascii_ranges sample_configuration soon next_id as_text
      (some (7, 1))
      (98 ∷ [])
      (3 ∷ [])
      none
      []
      maker_job
    ≡ (ok made, record sample_job { tables = record sample { users = maker ∷ made ∷ [] } })
unfolding create_user_task create_user_job user_unique_ident clean_ident
    default_validate_no_newline_and_normalize default_validate_and_normalize default_validators
    validate_and_normalize normalize to_nfc_unsafe validate validate_max_bytes validate_encoding
    validate_codepoints validate_runes validate_decoded validate_codepoint_unsafe
    validate_no_newlines_unsafe validate_lines to_caseless_nfkc checked to_caseless_nfkc_unsafe
    authed_job authed_rounds authed_round validate_and_update_user_and_token refresh_user upgrade
    validate_cap_set validate_capability cap_set_of add cap_intersect verify_cap_subset has size
    slice find insert ◌>>=◌ pure raise require require_none call get_tables put_tables or_internal
    revert
run_create = refl

run_taken :
    create_user_task ascii ascii_ranges sample_configuration soon next_id as_text
      (some (7, 1))
      (97 ∷ [])
      (3 ∷ [])
      none
      []
      maker_job
    ≡ (err already_exists, maker_job)
unfolding create_user_task create_user_job user_unique_ident clean_ident
    default_validate_no_newline_and_normalize default_validate_and_normalize default_validators
    validate_and_normalize normalize to_nfc_unsafe validate validate_max_bytes validate_encoding
    validate_codepoints validate_runes validate_decoded validate_codepoint_unsafe
    validate_no_newlines_unsafe validate_lines to_caseless_nfkc checked to_caseless_nfkc_unsafe
    authed_job authed_rounds authed_round validate_and_update_user_and_token refresh_user upgrade
    validate_cap_set validate_capability cap_set_of add cap_intersect verify_cap_subset has size
    slice find insert ◌>>=◌ pure raise require require_none call get_tables put_tables or_internal
    revert
run_taken = refl

create_user_task-IdentsUnique_example :
    IdentsUnique ascii
      (create_user_task ascii ascii_ranges sample_configuration soon next_id as_text
        (some (7, 1))
        (98 ∷ [])
        (3 ∷ [])
        none
        []
        maker_job).1.tables
create_user_task-IdentsUnique_example =
    create_user_task-IdentsUnique ℕ ascii ascii_ranges sample_configuration soon next_id (λ s. refl)
      as_text (98 ∷ []) (3 ∷ []) none [] (some (7, 1)) maker_job (tt, tt)
