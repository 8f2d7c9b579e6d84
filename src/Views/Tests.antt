-- ===== src/Views/Tests.antt =====
-- A view of the sample picture.
use pixur.Base.{ℕ, ◌≡◌, refl, some, [], ◌∷◌}
use pixur.Base.Int.{pos}
use pixur.Base.Result.{ok}
use pixur.CapSet.{cap_set_of, add, cap_intersect, verify_cap_subset, has, size, slice}
use pixur.Schema.{User}
use pixur.Job.{
  ◌>>=◌, pure, raise, require, require_none, call, get_tables, put_tables, or_internal, revert, Job,
}
use pixur.Tables.{find, update}
use pixur.Tables.Sample.{sample, sample_pic, sample_user, sample_configuration, sample_job}
use pixur.Auth.{
  validate_and_update_user_and_token, refresh_user, upgrade, authed_round, authed_rounds,
  authed_job, validate_cap_set, validate_capability,
}
use pixur.Views.{increment_view_count_job, increment_view_count}
use pixur.Views.Run.{ViewCounted, increment_view_count-ViewCounted}

abbrev viewer : User
viewer = record sample_user { capability = pos 8 ∷ [] }

abbrev before : Job ℕ
before = record sample_job { tables = record sample { users = viewer ∷ [] } }

abbrev behind : Job ℕ
behind = record sample_job {
  tables = record sample {
    users = viewer ∷ [];
    pics = record sample_pic { view_count = 1; modified_ts = 300 } ∷ [];
  };
}

run_viewed : increment_view_count sample_configuration 300 (some (7, 1)) 3 before ≡ (ok tt, behind)
unfolding increment_view_count increment_view_count_job authed_job authed_rounds authed_round
    validate_and_update_user_and_token refresh_user upgrade validate_cap_set validate_capability
    cap_set_of add cap_intersect verify_cap_subset has size slice find update ◌>>=◌ pure raise
    require require_none call get_tables put_tables or_internal revert
run_viewed = refl

increment_view_count-ViewCounted_example :
    ViewCounted ℕ sample_configuration 300 (some (7, 1)) 3 before.tables behind.tables
increment_view_count-ViewCounted_example =
    increment_view_count-ViewCounted sample_configuration 300 3 (some (7, 1)) before behind
      run_viewed
