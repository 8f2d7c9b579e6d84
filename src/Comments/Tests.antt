-- ===== src/Comments/Tests.antt =====
-- The theorems on comments at the sample, with one comment.
use pixur.Base.{ℕ, ◌≡◌, ◌≤◌, refl, arith, length, none, some, List, [], ◌∷◌, Bool-cases, inl, inr}
use pixur.Base.Int.{pos}
use pixur.Base.Result.{ok, err}
use pixur.CapSet.{cap_set_of, add, cap_intersect, verify_cap_subset, has, size, slice}
use pixur.Text.{validate_and_normalize, normalize, validate, validate_max_bytes}
use pixur.Text.Rules.{
  default_validate_and_normalize, default_validators, to_nfc_unsafe, validate_encoding,
  validate_codepoints, validate_runes, validate_decoded, validate_codepoint_unsafe,
}
use pixur.Text.Rules.Tests.{ascii, ascii_ranges}
use pixur.Schema.{
  up, PicComment, PicCommentVote, User, UserEvent, outgoing_pic_comment, incoming_pic_comment,
}
use pixur.Job.{
  already_exists, invalid_argument, ◌>>=◌, pure, raise, require, require_none, call, get_tables,
  put_tables, or_internal, revert, Job, Action,
}
use pixur.Tables.{int, has_prefix, select, find, insert, update}
use pixur.Tables.Comments.{pic_comment_votes_table}
use pixur.Tables.Sample.{sample, sample_user, sample_configuration, sample_job}
use pixur.Auth.{
  validate_and_update_user_and_token, refresh_user, upgrade, authed_round, authed_rounds,
  authed_job, validate_cap_set, validate_capability,
}
use pixur.Votes.{
  biggest_index, next_index, vote_index, notified, next_user_event_index, make_events,
  insert_events, tell_users,
}
use pixur.Comments.{
  add_pic_comment_vote_job, add_pic_comment_vote, find_parent, check_siblings, clean_comment,
  add_pic_comment_job, add_pic_comment,
}
use pixur.Comments.Task.{
  CommentVotesValid, CommentAccepted, add_pic_comment_vote-CommentVotesValid,
  add_pic_comment_vote-CommentAccepted,
}
use pixur.Comments.Done.{CommentDone, add_pic_comment-CommentDone}
use pixur.Comments.Threads.{IsThreaded, add_pic_comment-IsThreaded}

abbrev soon : ℕ
soon = 300

-- A user that may comment and vote on comments.
abbrev speaker : User
speaker = record sample_user { capability = pos 10 ∷ pos 28 ∷ [] }

abbrev comment : PicComment
comment = record {
  pic_id = 3;
  comment_id = 4;
  comment_parent_id = 0;
  user_id = 9;
  text = 104 ∷ 105 ∷ [];
  vote_up = 0;
  vote_down = 0;
  created_ts = 20;
  modified_ts = 20;
  ext = [];
}

abbrev talk : Job ℕ
talk = record sample_job {
  tables = record sample { users = speaker ∷ []; pic_comments = comment ∷ [] };
}

abbrev comment_vote : PicCommentVote
comment_vote = record {
  pic_id = 3;
  comment_id = 4;
  user_id = 7;
  index = 0;
  vote = up;
  created_ts = soon;
  modified_ts = soon;
  ext = [];
}

abbrev talk_voted : Job ℕ
talk_voted = record sample_job {
  tables = record sample {
    users = speaker ∷ [];
    pic_comments = record comment { vote_up = 1; modified_ts = soon } ∷ [];
    pic_comment_votes = comment_vote ∷ [];
  };
}

run_voted :
    add_pic_comment_vote sample_configuration soon (some (7, 1)) 3 4 up [] talk
    ≡ (ok comment_vote, talk_voted)
unfolding add_pic_comment_vote add_pic_comment_vote_job biggest_index next_index vote_index
    authed_job authed_rounds authed_round validate_and_update_user_and_token refresh_user upgrade
    validate_cap_set validate_capability cap_set_of add cap_intersect verify_cap_subset has size
    slice find insert update ◌>>=◌ pure raise require require_none call get_tables put_tables
    or_internal revert
run_voted = refl

-- The second vote of the same user.
run_twice :
    add_pic_comment_vote sample_configuration soon (some (7, 1)) 3 4 up [] talk_voted
    ≡ (err already_exists, talk_voted)
unfolding add_pic_comment_vote add_pic_comment_vote_job biggest_index next_index vote_index
    authed_job authed_rounds authed_round validate_and_update_user_and_token refresh_user upgrade
    validate_cap_set validate_capability cap_set_of add cap_intersect verify_cap_subset has size
    slice find insert update ◌>>=◌ pure raise require require_none call get_tables put_tables
    or_internal revert
run_twice = refl

add_pic_comment_vote-CommentAccepted_example :
    CommentAccepted ℕ sample_configuration soon
      (some (7, 1))
      3
      4
      up
      []
      talk.tables
      comment_vote
      talk_voted.tables
add_pic_comment_vote-CommentAccepted_example =
    add_pic_comment_vote-CommentAccepted sample_configuration soon (some (7, 1)) 3 4 up [] talk
      talk_voted comment_vote run_voted

voted-CommentVotesValid : CommentVotesValid talk_voted.tables
voted-CommentVotesValid = (((refl, refl), tt), λ i j k named. one i j k)
  where
    one :
        (i j k : ℕ)
        → length
            (select (pic_comment_votes_table.key) (int i ∷ int j ∷ int k ∷ []) (comment_vote ∷ []))
          ≤ 1
    one i j k =
        elim (Bool-cases
          (has_prefix (int i ∷ int j ∷ int k ∷ []) (pic_comment_votes_table.key comment_vote))) [
            | inl hit ↦ rw hit (omega arith)
            | inr miss ↦ rw miss (omega arith)
          ]

add_pic_comment_vote-CommentVotesValid_example :
    CommentVotesValid
      (add_pic_comment_vote sample_configuration soon none 3 4 up [] talk_voted).1.tables
add_pic_comment_vote-CommentVotesValid_example =
    add_pic_comment_vote-CommentVotesValid sample_configuration soon none 3 4 up [] talk_voted
      voted-CommentVotesValid

abbrev next_id : Action ℕ ℕ
next_id s = (ok 5, s)

abbrev answer : PicComment
answer = record {
  pic_id = 3;
  comment_id = 5;
  comment_parent_id = 4;
  user_id = 7;
  text = 111 ∷ 107 ∷ [];
  vote_up = 0;
  vote_down = 0;
  created_ts = soon;
  modified_ts = soon;
  ext = [];
}

abbrev answer_events : List UserEvent
answer_events =
    record {
      user_id = 7;
      index = 0;
      created_ts = soon;
      modified_ts = soon;
      evt = outgoing_pic_comment 3 5;
    }
    ∷ record {
      user_id = 9;
      index = 0;
      created_ts = soon;
      modified_ts = soon;
      evt = incoming_pic_comment 3 5;
    }
    ∷ []

abbrev answered : Job ℕ
answered = record sample_job {
  tables = record sample {
    users = speaker ∷ [];
    pic_comments = comment ∷ answer ∷ [];
    user_events = answer_events;
  };
}

run_answered :
    add_pic_comment ascii ascii_ranges sample_configuration soon next_id
      (some (7, 1))
      3
      4
      (111 ∷ 107 ∷ [])
      []
      talk
    ≡ (ok answer, answered)
unfolding add_pic_comment add_pic_comment_job clean_comment find_parent check_siblings biggest_index
    next_index notified next_user_event_index make_events insert_events tell_users
    default_validate_and_normalize default_validators validate_and_normalize normalize to_nfc_unsafe
    validate validate_max_bytes validate_encoding validate_codepoints validate_runes
    validate_decoded validate_codepoint_unsafe authed_job authed_rounds authed_round
    validate_and_update_user_and_token refresh_user upgrade validate_cap_set validate_capability
    cap_set_of add cap_intersect verify_cap_subset has size slice find insert update ◌>>=◌ pure
    raise require require_none call get_tables put_tables or_internal revert
run_answered = refl

-- The second answer of the same user, with sibling replies switched off.
run_sibling :
    add_pic_comment ascii ascii_ranges sample_configuration soon next_id
      (some (7, 1))
      3
      4
      (111 ∷ 107 ∷ [])
      []
      answered
    ≡ (err invalid_argument, answered)
unfolding add_pic_comment add_pic_comment_job clean_comment find_parent check_siblings biggest_index
    next_index notified next_user_event_index make_events insert_events tell_users
    default_validate_and_normalize default_validators validate_and_normalize normalize to_nfc_unsafe
    validate validate_max_bytes validate_encoding validate_codepoints validate_runes
    validate_decoded validate_codepoint_unsafe authed_job authed_rounds authed_round
    validate_and_update_user_and_token refresh_user upgrade validate_cap_set validate_capability
    cap_set_of add cap_intersect verify_cap_subset has size slice find insert update ◌>>=◌ pure
    raise require require_none call get_tables put_tables or_internal revert
run_sibling = refl

add_pic_comment-CommentDone_example :
    CommentDone ℕ ascii ascii_ranges sample_configuration soon
      (some (7, 1))
      3
      4
      (111 ∷ 107 ∷ [])
      []
      talk.tables
      answer
      answered.tables
add_pic_comment-CommentDone_example =
    add_pic_comment-CommentDone ascii ascii_ranges sample_configuration soon next_id (λ s. refl) 3 4
      (111 ∷ 107 ∷ []) [] (some (7, 1)) talk answered answer run_answered

add_pic_comment-IsThreaded_example :
    IsThreaded
      (add_pic_comment ascii ascii_ranges sample_configuration soon next_id
        (some (7, 1))
        3
        4
        (111 ∷ 107 ∷ [])
        []
        answered).1.tables
add_pic_comment-IsThreaded_example =
    add_pic_comment-IsThreaded ascii ascii_ranges sample_configuration soon next_id (λ s. refl) 3 4
      (111 ∷ 107 ∷ []) [] (some (7, 1)) answered (inl refl, (inr refl, tt))
