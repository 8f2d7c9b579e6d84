-- ===== src/Comments.antt =====
-- be/tasks/add_pic_comment_task.go, be/tasks/add_pic_comment_vote_task.go: comments on pictures and the
-- votes on them. The source of new ids is a parameter.
pub mod Run
pub mod Tally
pub mod Once
pub mod Task
pub mod Done
pub mod Threads
pub mod Tests
use pixur.Base.{
  ℕ, Bool, false, ◌&&◌, ◌||◌, not, Option, none, some, List, [], ◌∷◌, length, ◌==◌, if◌then◌else◌,
}
use pixur.Base.Int.{pos}
use pixur.Base.Result.{Result}
use pixur.CapSet.{Capability}
use pixur.Text.{Text, Library, Ranges}
use pixur.Text.Rules.{default_validate_and_normalize}
use pixur.Schema.{
  Time, Ext, Vote, up, down, neutral, other, Pic, PicComment, PicCommentVote, User,
  outgoing_pic_comment, incoming_pic_comment, Configuration, anonymous_user_id,
}
use pixur.Job.{
  Status, invalid_argument, not_found, from, Action, pure, ◌>>=◌, ◌>>◌, require, require_none, call,
  or_internal, revert,
}
use pixur.Tables.Pics.{find_pics}
use pixur.Tables.Comments.{
  find_pic_comments, insert_pic_comment, update_pic_comment, find_pic_comment_votes,
  insert_pic_comment_vote,
}
use pixur.Auth.{single, authed_job, validate_capability, user_id_of}
use pixur.Votes.{hard_deleted, check_vote, refuse_if, vote_index, increment, tell_users}
use pixur.Users.{min_bound, max_bound, or_invalid}

abbrev pub pic_comment_create : Capability
pic_comment_create = pos 10

abbrev pub pic_comment_extension_create : Capability
pic_comment_extension_create = pos 17

abbrev pub pic_comment_vote_create : Capability
pic_comment_vote_create = pos 28

abbrev pub pic_comment_vote_extension_create : Capability
pic_comment_vote_extension_create = pos 29

abbrev pub pic_comment_vote_indexes : List PicCommentVote → List ℕ
pic_comment_vote_indexes [] = []
pic_comment_vote_indexes (pcv ∷ pcvs) = pcv.index ∷ pic_comment_vote_indexes pcvs

-- The counters of a comment after a vote; `none` where they stay.
abbrev pub count_comment_vote : Vote → Time → PicComment → Option PicComment
count_comment_vote up now c = some (record c { vote_up = increment c.vote_up; modified_ts = now })
count_comment_vote down now c =
    some (record c { vote_down = increment c.vote_down; modified_ts = now })
count_comment_vote neutral now c = none
count_comment_vote (other n) now c = none

-- A setting that is there and false.
abbrev pub is_off : Option Bool → Bool
is_off none = false
is_off (some b) = not b

-- A comment of the user with the same parent.
abbrev pub has_sibling : ℕ → ℕ → List PicComment → Bool
has_sibling parent_id user_id [] = false
has_sibling parent_id user_id (c ∷ cs) =
    (c.comment_parent_id == parent_id && c.user_id == user_id) || has_sibling parent_id user_id cs

-- The users to be told of a comment: the one of the parent, or those of the picture.
abbrev pub told_of_comment : Pic → Option PicComment → List ℕ
told_of_comment p none = p.source
told_of_comment p (some parent) = parent.user_id ∷ []

module _ {E : Type 0} where
  -- `if commentUpdated`
  abbrev pub store_comment : Option PicComment → Action E (Unit {0})
  store_comment none = pure tt
  store_comment (some c) = or_internal (update_pic_comment c)

  -- `AddPicCommentVoteTask.Run` in its transaction, with the user known. The direction is checked
  -- there too.
  unfoldable pub add_pic_comment_vote_job :
      Configuration → Time → ℕ → ℕ → Vote → Ext → Option User → Action E PicCommentVote
  add_pic_comment_vote_job conf now pic_id comment_id vote ext u = do
    require_none (check_vote vote)
    require_none (validate_capability u conf (pic_comment_vote_create ∷ []))
    require_none (
        if length ext == 0
        then none
        else validate_capability u conf (pic_comment_vote_extension_create ∷ []))
    ps ← or_internal (find_pics (record { id = some pic_id }) 0)
    p ← require (single not_found ps)
    require_none (refuse_if (hard_deleted p) invalid_argument)
    cs ←
        or_internal
          (find_pic_comments (record { pic_id = some pic_id; comment_id = some comment_id }) 0)
    c ← require (single not_found cs)
    pcvs ← or_internal (
        find_pic_comment_votes
          (record {
            pic_id = some pic_id;
            comment_id = some comment_id;
            user_id = some (user_id_of u);
            index = none;
          })
          0)
    index ← require (vote_index (user_id_of u) (pic_comment_vote_indexes pcvs))
    let pcv : PicCommentVote = record {
      pic_id = p.pic_id;
      comment_id = c.comment_id;
      user_id = user_id_of u;
      index = index;
      vote = vote;
      created_ts = now;
      modified_ts = now;
      ext = ext;
    }
    or_internal (insert_pic_comment_vote pcv)
    store_comment (count_comment_vote vote now c)
    or_internal (call from)
    pure pcv

  -- `AddPicCommentVoteTask.Run`
  unfoldable pub add_pic_comment_vote :
      Configuration → Time → Option (ℕ × ℕ) → ℕ → ℕ → Vote → Ext → Action E PicCommentVote
  add_pic_comment_vote conf now tok pic_id comment_id vote ext = do
    u ← authed_job now false tok
    revert (add_pic_comment_vote_job conf now pic_id comment_id vote ext u)

  -- The comment that is answered; id 0 is none.
  unfoldable pub find_parent : Configuration → ℕ → ℕ → ℕ → Action E (Option PicComment)
  find_parent conf pic_id parent_id user_id = if parent_id == 0 then pure none else do
    comments ←
        or_internal
          (find_pic_comments (record { pic_id = some pic_id; comment_id = some parent_id }) 0)
    parent ← require (single not_found comments)
    require_none (
        refuse_if
          (is_off conf.enable_pic_comment_self_reply
            && (user_id == parent.user_id && not (user_id == anonymous_user_id)))
          invalid_argument)
    pure (some parent)

  unfoldable pub check_siblings : Configuration → ℕ → ℕ → ℕ → Action E (Unit {0})
  check_siblings conf pic_id parent_id user_id =
      if not (is_off conf.enable_pic_comment_sibling_reply && not (user_id == anonymous_user_id))
      then pure tt
      else do
        comments ←
            or_internal (find_pic_comments (record { pic_id = some pic_id; comment_id = none }) 0)
        require_none (refuse_if (has_sibling parent_id user_id comments) invalid_argument)

  module _ (lib : Library) (ranges : Ranges) (conf : Configuration) where
    -- `DefaultValidateAndNormalize` with the bounds of the configuration.
    unfoldable pub clean_comment : Text → Result (Status E) Text
    clean_comment text = or_invalid (
        default_validate_and_normalize {E = E} lib ranges (min_bound conf.min_comment_length)
          (max_bound conf.max_comment_length) [] [] text
          (b'c' ∷ b'o' ∷ b'm' ∷ b'm' ∷ b'e' ∷ b'n' ∷ b't' ∷ []))

  module _ (lib : Library) (ranges : Ranges) (conf : Configuration) (now : Time)
      (alloc_id : Action E ℕ) where
    -- `AddPicCommentTask.Run` in its transaction, with the user known: the comment before it is filtered.
    unfoldable pub add_pic_comment_job : ℕ → ℕ → Text → Ext → Option User → Action E PicComment
    add_pic_comment_job pic_id parent_id text ext u = do
      txt ← require (clean_comment lib ranges conf text)
      require_none (validate_capability u conf (pic_comment_create ∷ []))
      require_none (
          if length ext == 0
          then none
          else validate_capability u conf (pic_comment_extension_create ∷ []))
      pics ← or_internal (find_pics (record { id = some pic_id }) 0)
      p ← require (single not_found pics)
      require_none (refuse_if (hard_deleted p) invalid_argument)
      parent ← find_parent conf pic_id parent_id (user_id_of u)
      check_siblings conf pic_id parent_id (user_id_of u)
      comment_id ← or_internal alloc_id
      let pc : PicComment = record {
        pic_id = p.pic_id;
        comment_id = comment_id;
        comment_parent_id = parent_id;
        user_id = user_id_of u;
        text = txt;
        vote_up = 0;
        vote_down = 0;
        created_ts = now;
        modified_ts = now;
        ext = ext;
      }
      or_internal (insert_pic_comment pc)
      tell_users (λ v. outgoing_pic_comment p.pic_id comment_id)
          (λ v. incoming_pic_comment p.pic_id comment_id) (user_id_of u) (told_of_comment p parent)
          now
      or_internal (call from)
      pure pc

    -- `AddPicCommentTask.Run`
    unfoldable pub add_pic_comment : Option (ℕ × ℕ) → ℕ → ℕ → Text → Ext → Action E PicComment
    add_pic_comment tok pic_id parent_id text ext = do
      u ← authed_job now false tok
      revert (add_pic_comment_job pic_id parent_id text ext u)
