-- ===== src/Deletion/Tests.antt =====
-- The theorems on deletions at the sample.
use pixur.Base.{ℕ, ◌≡◌, ◌++◌, refl, false, none, some, List, [], ◌∷◌}
use pixur.Base.Result.{ok, err}
use pixur.CapSet.{cap_set_of, add, cap_intersect, verify_cap_subset, has, size, slice}
use pixur.Schema.{PicCommentVote, User, up, Pic, DeletionStatus}
use pixur.Job.{
  internal, ◌>>=◌, pure, raise, require, require_none, call, get_tables, put_tables, or_internal,
  revert, Job,
}
use pixur.Tables.{delete, find, insert, update}
use pixur.Tables.Sample.{sample_user, sample, sample_pic, sample_configuration, sample_job}
use pixur.Auth.{
  validate_and_update_user_and_token, refresh_user, upgrade, authed_round, authed_rounds,
  authed_job, validate_cap_set, validate_capability,
}
use pixur.Votes.Sample.{sample-VotesValid}
use pixur.Votes.Task.{VotesValid}
use pixur.Deletion.{
  purge_job, for_each, lookup_tags, release_tag, Request, marked_before, soft_mark, hard_mark,
  lookup_pic, soft_delete_job, soft_delete, hard_delete_job,
}
use pixur.Deletion.Files.{
  FilePath, mime_ext, pic_file_path, pic_file_derived_path, pic_paths, remove_files, hard_delete,
}
use pixur.Deletion.Purge.{IsGone, purge_job-IsGone}
use pixur.Base.Int.{pos}
use pixur.Deletion.States.{Reach, soft, hard, here, next, Reach-deleted, Reach-marked}
use pixur.Deletion.Task.{
  SoftDeleted, HardDeleted, soft_delete-SoftDeleted, hard_delete-HardDeleted,
  hard_delete-VotesValid,
}

abbrev soon : ℕ
soon = 300

abbrev request : Request
request = record { reason = 4; details = []; temporary = false; pending_deletion_time = some 900 }

abbrev mark : DeletionStatus
mark = record {
  marked_deleted_ts = some soon;
  pending_deleted_ts = some 900;
  actual_deleted_ts = none;
  details = [];
  reason = 4;
  temporary = false;
}

abbrev marked_pic : Pic
marked_pic = record sample_pic { deletion_status = some mark; modified_ts = soon }

abbrev marked_job : Job ℕ
marked_job = record sample_job { tables = record sample { pics = marked_pic ∷ [] } }

abbrev deleted_pic : Pic
deleted_pic = record sample_pic {
  deletion_status = some (record mark { actual_deleted_ts = some 400 });
  thumbnail = [];
  modified_ts = 400;
}

abbrev deleted_job : Job ℕ
deleted_job = record sample_job { tables = record sample { pics = deleted_pic ∷ [] } }

abbrev join_all : List FilePath → FilePath
join_all [] = []
join_all (part ∷ parts) = part ++ join_all parts

run_soft_mark : soft_mark {E = ℕ} request soon sample_pic ≡ ok marked_pic
unfolding soft_mark
run_soft_mark = refl

run_hard_mark : hard_mark {E = ℕ} 400 marked_pic ≡ ok deleted_pic
unfolding hard_mark
run_hard_mark = refl

run_both : Reach ℕ sample_pic deleted_pic
run_both =
    next (next here (soft request soon marked_pic run_soft_mark))
      (hard 400 deleted_pic run_hard_mark)

Reach-deleted_example : deleted_pic ≡ deleted_pic
Reach-deleted_example = Reach-deleted {E = ℕ} {p = deleted_pic} here refl

Reach-marked_example :
    (marked_before deleted_pic.deletion_status ≡ some soon)
    × (deleted_pic.pic_id ≡ marked_pic.pic_id)
Reach-marked_example =
    Reach-marked {E = ℕ} {p = marked_pic} {q = deleted_pic} soon
      (next here (hard 400 deleted_pic run_hard_mark)) refl

run_soft_delete :
    soft_delete sample_configuration soon (some (7, 1)) 3 request sample_job ≡ (ok tt, marked_job)
unfolding soft_delete soft_delete_job soft_mark lookup_pic authed_job authed_rounds authed_round
    validate_and_update_user_and_token refresh_user upgrade validate_cap_set validate_capability
    cap_set_of add cap_intersect verify_cap_subset has size slice find insert update ◌>>=◌ pure
    raise require require_none call get_tables put_tables or_internal revert
run_soft_delete = refl

-- A deletion for an unknown reason.
run_refused :
    soft_delete sample_configuration soon (some (7, 1)) 3 (record request { reason = 0 }) sample_job
    ≡ (err internal, sample_job)
unfolding soft_delete authed_job authed_rounds authed_round validate_and_update_user_and_token
    refresh_user upgrade validate_cap_set validate_capability cap_set_of add cap_intersect
    verify_cap_subset has size slice find insert update ◌>>=◌ pure raise require require_none call
    get_tables put_tables or_internal revert
run_refused = refl

soft_delete-SoftDeleted_example :
    SoftDeleted ℕ sample_configuration soon (some (7, 1)) 3 request sample marked_job.tables
soft_delete-SoftDeleted_example =
    soft_delete-SoftDeleted sample_configuration soon (some (7, 1)) 3 sample_job request marked_job
      run_soft_delete

run_hard_delete :
    hard_delete join_all [] (λ path. none) sample_configuration 400 (some (7, 1)) 3 marked_job
    ≡ (ok tt, deleted_job)
unfolding hard_delete hard_delete_job hard_mark lookup_pic remove_files pic_paths pic_file_path
    pic_file_derived_path mime_ext authed_job authed_rounds authed_round
    validate_and_update_user_and_token refresh_user upgrade validate_cap_set validate_capability
    cap_set_of add cap_intersect verify_cap_subset has size slice find insert update ◌>>=◌ pure
    raise require require_none call get_tables put_tables or_internal revert
run_hard_delete = refl

hard_delete-HardDeleted_example :
    HardDeleted ℕ join_all []
      (λ path. none)
      sample_configuration
      400
      (some (7, 1))
      3
      marked_job.tables
      deleted_job.tables
hard_delete-HardDeleted_example =
    hard_delete-HardDeleted sample_configuration 400 (some (7, 1)) 3 marked_job join_all []
      (λ path. none) deleted_job run_hard_delete

hard_delete-VotesValid_example :
    VotesValid
      (hard_delete join_all []
        (λ path. some 1)
        sample_configuration
        soon
        (some (7, 1))
        3
        sample_job).1.tables
hard_delete-VotesValid_example =
    hard_delete-VotesValid sample_configuration soon (some (7, 1)) 3 sample_job join_all []
      (λ path. some 1) sample-VotesValid

-- The picture with a comment that has a vote.
abbrev comment_vote : PicCommentVote
comment_vote = record {
  pic_id = 3;
  comment_id = 8;
  user_id = 9;
  index = 0;
  vote = up;
  created_ts = 30;
  modified_ts = 30;
  ext = [];
}

abbrev purger : User
purger = record sample_user { capability = pos 7 ∷ [] }

abbrev commented_job : Job ℕ
commented_job = record sample_job {
  tables = record sample { pic_comment_votes = comment_vote ∷ [] };
}

abbrev purged_job : Job ℕ
purged_job = record sample_job {
  tables = record sample { pics = []; pic_votes = []; pic_comment_votes = comment_vote ∷ [] };
}

run_purge :
    purge_job sample_configuration soon 3 (some purger) commented_job ≡ (ok sample_pic, purged_job)
unfolding purge_job lookup_pic for_each lookup_tags release_tag delete validate_cap_set
    validate_capability cap_set_of add cap_intersect verify_cap_subset has size slice find insert
    update ◌>>=◌ pure raise require require_none call get_tables put_tables or_internal revert
run_purge = refl

purge_job-IsGone_example :
    IsGone 3 purged_job.tables
    × (purged_job.tables.pic_comment_votes ≡ comment_vote ∷ [])
    × (purged_job.tables.users ≡ sample.users)
    × (purged_job.tables.user_events ≡ [])
purge_job-IsGone_example =
    purge_job-IsGone sample_configuration soon 3 (some purger) commented_job purged_job sample_pic
      run_purge
