-- ===== src/Votes/Tests.antt =====
-- The theorems on votes at the sample.
use pixur.Base.{ℕ, ◌≡◌, ◌≤◌, ◌<◌, refl, arith, some, List, [], ◌∷◌, All}
use pixur.Base.Result.{ok, err}
use pixur.Schema.{Pic, PicVote, UserEvent, up, outgoing_upsert_pic_vote, incoming_upsert_pic_vote}
use pixur.CapSet.{cap_set_of, add, cap_intersect, verify_cap_subset, has, size, slice}
use pixur.Job.{
  already_exists, ◌>>=◌, pure, raise, require, require_none, call, get_tables, put_tables,
  or_internal, revert, Job,
}
use pixur.Tables.{find, insert, update}
use pixur.Tables.Sample.{sample, sample_pic, sample_vote, sample_configuration, sample_job}
use pixur.Auth.{
  validate_and_update_user_and_token, refresh_user, upgrade, authed_round, authed_rounds,
  authed_job, validate_cap_set, validate_capability,
}
use pixur.Votes.{
  biggest_index, next_index, vote_index, notified, next_user_event_index, make_events,
  insert_events, tell_users, vote_events, store_counters, add_pic_vote_job, add_pic_vote, max_int64,
}
use pixur.Votes.Sample.{sample-VotesValid}
use pixur.Votes.Fresh.{next_index_range}
use pixur.Votes.Run.{Accepted, add_pic_vote-Accepted}
use pixur.Votes.Task.{VotesValid, add_pic_vote-VotesValid}

-- A user of five minutes ago, so that nothing is refreshed.
abbrev soon : ℕ
soon = 300

abbrev pic_after : Pic
pic_after = record sample_pic { vote_up = 2; modified_ts = soon }

abbrev vote_after : PicVote
vote_after = record {
  pic_id = 3;
  user_id = 7;
  index = 0;
  vote = up;
  created_ts = soon;
  modified_ts = soon;
  ext = [];
}

abbrev events_after : List UserEvent
events_after =
    record {
      user_id = 7;
      index = 0;
      created_ts = soon;
      modified_ts = soon;
      evt = outgoing_upsert_pic_vote 3;
    }
    ∷ record {
      user_id = 9;
      index = 0;
      created_ts = soon;
      modified_ts = soon;
      evt = incoming_upsert_pic_vote 3 7;
    }
    ∷ []

abbrev job_after : Job ℕ
job_after = record sample_job {
  tables = record sample {
    pics = pic_after ∷ [];
    pic_votes = sample_vote ∷ vote_after ∷ [];
    user_events = events_after;
  };
}

run_accepted :
    add_pic_vote sample_configuration soon (some (7, 1)) 3 up [] sample_job
    ≡ (ok vote_after, job_after)
unfolding add_pic_vote add_pic_vote_job biggest_index next_index vote_index notified
    next_user_event_index make_events insert_events tell_users vote_events store_counters authed_job
    authed_rounds authed_round validate_and_update_user_and_token refresh_user upgrade
    validate_cap_set validate_capability cap_set_of add cap_intersect verify_cap_subset has size
    slice find insert update ◌>>=◌ pure raise require require_none call get_tables put_tables
    or_internal revert
run_accepted = refl

-- The second vote of the same user.
run_refused :
    add_pic_vote sample_configuration soon (some (7, 1)) 3 up [] job_after
    ≡ (err already_exists, job_after)
unfolding add_pic_vote add_pic_vote_job biggest_index next_index vote_index notified
    next_user_event_index make_events insert_events tell_users vote_events store_counters authed_job
    authed_rounds authed_round validate_and_update_user_and_token refresh_user upgrade
    validate_cap_set validate_capability cap_set_of add cap_intersect verify_cap_subset has size
    slice find insert update ◌>>=◌ pure raise require require_none call get_tables put_tables
    or_internal revert
run_refused = refl

add_pic_vote-Accepted_example :
    Accepted ℕ sample_configuration soon (some (7, 1)) 3 up [] sample vote_after job_after.tables
add_pic_vote-Accepted_example =
    add_pic_vote-Accepted sample_configuration soon (some (7, 1)) 3 up [] sample_job job_after
      vote_after run_accepted

add_pic_vote-VotesValid_example :
    VotesValid (add_pic_vote sample_configuration soon (some (7, 1)) 3 up [] sample_job).1.tables
add_pic_vote-VotesValid_example =
    add_pic_vote-VotesValid sample_configuration soon (some (7, 1)) 3 up [] sample_job
      sample-VotesValid

run_next_index : next_index {E = ℕ} (4 ∷ 0 ∷ 2 ∷ []) ≡ ok 5
unfolding next_index biggest_index
run_next_index = refl

next_index_range_example : All (λ j. j < 5) (4 ∷ 0 ∷ 2 ∷ []) × (5 ≤ max_int64)
next_index_range_example =
    next_index_range {E = ℕ} (4 ∷ 0 ∷ 2 ∷ []) 5 (omega arith, (omega arith, (omega arith, tt)))
      run_next_index
