-- ===== src/Reads.antt =====
-- be/tasks/add_pic_comment_task.go, add_pic_vote.go, find_pic_comment_votes_task.go, lookup_user_task.go,
-- lookup_pic_vote_task.go: what a user may read of the rows of others.
pub mod Visible
pub mod Tests
use pixur.Base.{
  ℕ, Bool, true, false, ◌&&◌, ◌||◌, Option, none, some, List, [], ◌∷◌, map, ◌==◌, if◌then◌else◌,
}
use pixur.Base.Int.{pos}
use pixur.Base.Result.{err}
use pixur.CapSet.{Capability, CapSet, cap_set_of, has}
use pixur.Schema.{
  Time, Ext, PicVote, PicComment, PicCommentVote, User, Configuration, anonymous_user_id,
}
use pixur.Job.{
  Status, invalid_argument, not_found, permission_denied, from, Action, pure, ◌>>=◌, ◌>>◌, require,
  require_none, call, or_internal, revert,
}
use pixur.Tables.Pics.{find_pics}
use pixur.Tables.Comments.{find_pic_comments, find_pic_comment_votes}
use pixur.Auth.{single, authed_job, capabilities_of, user_id_of, lookup_object_user}

-- `User_USER_READ_SELF` and the others.
abbrev pub user_read_self : Capability
user_read_self = pos 13

abbrev pub user_read_all : Capability
user_read_all = pos 14

abbrev pub pic_comment_extension_read : Capability
pic_comment_extension_read = pos 18

abbrev pub pic_vote_extension_read : Capability
pic_vote_extension_read = pos 22

abbrev pub user_read_public : Capability
user_read_public = pos 23

abbrev pub user_read_pic_comment : Capability
user_read_pic_comment = pos 26

abbrev pub user_read_pic_vote : Capability
user_read_pic_vote = pos 27

-- `userCred`
pub record UserCred : Type 0 where
  pub subject_user_id : ℕ
  pub cs : CapSet

-- `userCredOf`
abbrev pub user_cred_of : Option User → Configuration → UserCred
user_cred_of su conf = record {
  subject_user_id = user_id_of su;
  cs = cap_set_of (capabilities_of su conf);
}

-- The switch of the filters: whether the user of a row is shown.
pub shows_user : Capability → ℕ → UserCred → Bool
shows_user kind user_id uc =
    has uc.cs user_read_all
    || ((has uc.cs user_read_public && has uc.cs kind)
        || (uc.subject_user_id == user_id && has uc.cs user_read_self))

abbrev pub shown_ext : Capability → Ext → UserCred → Ext
shown_ext kind ext uc = if has uc.cs kind then ext else []

-- `filterPicVoteInternal`: the filtered vote, and whether its user was filtered.
abbrev pub filter_pic_vote_internal : PicVote → UserCred → PicVote × Bool
filter_pic_vote_internal pv uc =
    let dpv = record pv { ext = shown_ext pic_vote_extension_read pv.ext uc } in
    if shows_user user_read_pic_vote pv.user_id uc
    then (dpv, false)
    else (record dpv { user_id = anonymous_user_id }, true)

abbrev pub keep_unfiltered : {A : Type 0} → A × Bool → List A → List A
keep_unfiltered (a, filtered) as' = if filtered then as' else a ∷ as'

abbrev pub filter_pic_votes_with : List PicVote → UserCred → List PicVote
filter_pic_votes_with [] uc = []
filter_pic_votes_with (pv ∷ pvs) uc =
    keep_unfiltered (filter_pic_vote_internal pv uc) (filter_pic_votes_with pvs uc)

-- `filterPicVote`
pub filter_pic_vote : PicVote → Option User → Configuration → PicVote
filter_pic_vote pv su conf = (filter_pic_vote_internal pv (user_cred_of su conf)).0

-- `filterPicVotes`
pub filter_pic_votes : List PicVote → Option User → Configuration → List PicVote
filter_pic_votes pvs su conf = filter_pic_votes_with pvs (user_cred_of su conf)

-- `filterPicCommentInternal`
abbrev pub filter_pic_comment_internal : PicComment → UserCred → PicComment
filter_pic_comment_internal pc uc = record pc {
  ext = shown_ext pic_comment_extension_read pc.ext uc;
  user_id =
      if shows_user user_read_pic_comment pc.user_id uc then pc.user_id else anonymous_user_id;
}

-- `filterPicComment`
pub filter_pic_comment : PicComment → Option User → Configuration → PicComment
filter_pic_comment pc su conf = filter_pic_comment_internal pc (user_cred_of su conf)

-- `filterPicComments`
pub filter_pic_comments : List PicComment → Option User → Configuration → List PicComment
filter_pic_comments pcs su conf =
    map (λ pc. filter_pic_comment_internal pc (user_cred_of su conf)) pcs

-- `filterPicCommentVoteInternal`
abbrev pub filter_pic_comment_vote_internal : PicCommentVote → UserCred → PicCommentVote × Bool
filter_pic_comment_vote_internal pcv uc =
    let dpcv = record pcv { ext = shown_ext pic_vote_extension_read pcv.ext uc } in
    if shows_user user_read_pic_vote pcv.user_id uc
    then (dpcv, false)
    else (record dpcv { user_id = anonymous_user_id }, true)

abbrev pub filter_pic_comment_votes_with : List PicCommentVote → UserCred → List PicCommentVote
filter_pic_comment_votes_with [] uc = []
filter_pic_comment_votes_with (pcv ∷ pcvs) uc =
    keep_unfiltered (filter_pic_comment_vote_internal pcv uc)
      (filter_pic_comment_votes_with pcvs uc)

-- `filterPicCommentVotes`
pub filter_pic_comment_votes :
    List PicCommentVote → Option User → Configuration → List PicCommentVote
filter_pic_comment_votes pcvs su conf = filter_pic_comment_votes_with pcvs (user_cred_of su conf)

-- What `LookupUserTask.Run` shows of a user to everyone.
abbrev pub public_user : User → User
public_user u = record {
  user_id = u.user_id;
  secret = [];
  ident = u.ident;
  created_ts = u.created_ts;
  modified_ts = 0;
  last_seen_ts = none;
  capability = [];
  next_token_id = 0;
  user_token = [];
  ext = [];
}

-- The switch of `LookupUserTask.Run`; `none` where the capability is missing.
pub shown_user : Bool → User → UserCred → Option User
shown_user public_only ou uc =
    if has uc.cs user_read_all || (uc.subject_user_id == ou.user_id && has uc.cs user_read_self)
    then some ou
    else if public_only && has uc.cs user_read_public
    then some (public_user ou)
    else none

abbrev pub or_denied : {E A : Type 0} → Option A → Action E A
or_denied none = require (err (permission_denied []))
or_denied (some a) = pure a

module _ {E : Type 0} (conf : Configuration) (now : Time) (tok : Option (ℕ × ℕ)) where
  -- `LookupUserTask.Run`; its job is rolled back at the end.
  pub lookup_user : ℕ → Bool → Action E User
  lookup_user object_user_id public_only = do
    su ← authed_job now true tok
    revert (do
      ou ← lookup_object_user object_user_id su
      shown ← or_denied (shown_user public_only ou (user_cred_of su conf))
      or_internal (call from)
      pure shown)

  abbrev pub check_comment : ℕ → Option ℕ → Action E (Unit {0})
  check_comment pic_id none = pure tt
  check_comment pic_id (some comment_id) = do
    comments ←
        or_internal
          (find_pic_comments (record { pic_id = some pic_id; comment_id = some comment_id }) 1)
    c ← require (single not_found comments)
    pure tt

  abbrev pub check_object : Option ℕ → Option ℕ → Option (Status E)
  check_object comment_id none = none
  check_object none (some u) = some invalid_argument
  check_object (some c) (some u) = none

  -- `FindPicCommentVotesTask.Run`
  pub find_votes_of_comment : ℕ → Option ℕ → Option ℕ → Action E (List PicCommentVote)
  find_votes_of_comment pic_id comment_id object_user_id = do
    su ← authed_job now true tok
    revert (do
      pics ← or_internal (find_pics (record { id = some pic_id }) 0)
      p ← require (single not_found pics)
      check_comment pic_id comment_id
      require_none (check_object comment_id object_user_id)
      pcvs ← or_internal (
          find_pic_comment_votes
            (record {
              pic_id = some pic_id;
              comment_id = comment_id;
              user_id = object_user_id;
              index = none;
            })
            0)
      or_internal (call from)
      pure (filter_pic_comment_votes pcvs su conf))
