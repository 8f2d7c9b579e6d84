-- ===== src/Comments/Run.antt =====
-- be/tasks/add_pic_comment_vote_task.go: what a vote on a comment that was accepted has done.
use pixur.Base.{ℕ, ◌≡◌, refl, false, Option, none, some, List, [], ◌∷◌, ◌++◌}
use pixur.Base.Result.{ok}
use pixur.Schema.{Time, Ext, Tables, Vote, Pic, PicComment, PicCommentVote, User, Configuration}
use pixur.Job.{not_found, invalid_argument, Job, Action, ◌>>=◌}
use pixur.Job.Returns.{
  Returns, Returns-pure, Returns-bind-pure, Returns-bind-require, Returns-bind-require_none,
}
use pixur.Tables.{int, select, replace}
use pixur.Tables.Pics.{pics_table, pics_primary}
use pixur.Tables.Comments.{
  pic_comments_table, pic_comments_primary, pic_comment_votes_table, pic_comment_votes_primary,
}
use pixur.Tables.Rows.{
  after, Returns-bind-find, Returns-bind-insert, Returns-bind-update, Returns-bind-internal_call,
}
use pixur.Auth.{validate_capability, user_id_of}
use pixur.Auth.Refresh.{single_ok}
use pixur.Votes.{hard_deleted, check_vote, vote_index}
use pixur.Votes.Run.{refuse_if-none}
use pixur.Comments.{
  pic_comment_vote_create, pic_comment_vote_indexes, count_comment_vote, store_comment,
  add_pic_comment_vote_job,
}

-- The comments after one of them got new counters.
abbrev pub stored_comment : Option PicComment → List PicComment → List PicComment
stored_comment none cs = cs
stored_comment (some c) cs =
    replace (pic_comments_table.key) (int c.pic_id ∷ int c.comment_id ∷ []) c cs

-- A vote on a comment that was accepted: on the only comment with the ids, of a picture that is there and
-- not deleted, by a user that may vote on comments, with a new index, and counted.
pub record CommentVoted (E : Type 0) (conf : Configuration) (now : Time) (pic_id comment_id : ℕ)
    (vote : Vote) (ext : Ext) (u : Option User) (t : Tables) (pcv : PicCommentVote) (t' : Tables)
    : Type 0 where
  pub pic : Pic
  pub only_pic : select (pics_table.key) (int pic_id ∷ []) t.pics ≡ pic ∷ []
  pub alive : hard_deleted pic ≡ false
  pub comment : PicComment
  pub only_comment :
      select (pic_comments_table.key) (int pic_id ∷ int comment_id ∷ []) t.pic_comments
      ≡ comment ∷ []
  pub known : check_vote {E = E} vote ≡ none
  pub allowed : validate_capability {E = E} u conf (pic_comment_vote_create ∷ []) ≡ none
  pub index : ℕ
  pub index_lem :
      vote_index {E = E} (user_id_of u) (
        pic_comment_vote_indexes (
          select
            (pic_comment_votes_table.key)
            (int pic_id ∷ int comment_id ∷ int (user_id_of u) ∷ [])
            t.pic_comment_votes))
      ≡ ok index
  pub row : pcv ≡ record {
    pic_id = pic.pic_id;
    comment_id = comment.comment_id;
    user_id = user_id_of u;
    index = index;
    vote = vote;
    created_ts = now;
    modified_ts = now;
    ext = ext;
  }
  pub tables : t' ≡ record t {
    pic_comments = stored_comment (count_comment_vote vote now comment) t.pic_comments;
    pic_comment_votes = t.pic_comment_votes ++ (pcv ∷ []);
  }

module _ {E : Type 0} where
  Returns-bind-store_comment :
      {B : Type 0} (o : Option PicComment) (s : Job E) (Q : B → Job E → Type 0)
      (f : Unit {0} → Action E B)
      → ((fs : List (Option E))
          → Returns
              (f tt)
              (after
                (record (s.tables) { pic_comments = stored_comment o (s.tables).pic_comments })
                fs)
              Q)
      → Returns (store_comment o >>= f) s Q
  Returns-bind-store_comment none s Q f h = Returns-bind-pure s Q tt f (h s.faults)
  Returns-bind-store_comment (some c) s Q f h = Returns-bind-update pic_comments_table s Q c f h

  pub Returns-add_pic_comment_vote_job :
      (conf : Configuration) (now : Time) (pic_id comment_id : ℕ) (vote : Vote) (ext : Ext)
      (u : Option User) (s : Job E)
      → Returns
          (add_pic_comment_vote_job conf now pic_id comment_id vote ext u)
          s
          (λ pcv s'. CommentVoted E conf now pic_id comment_id vote ext u s.tables pcv s'.tables)
  unfolding add_pic_comment_vote_job
  Returns-add_pic_comment_vote_job conf now pic_id comment_id vote ext u s =
      Returns-bind-require_none s _ _ _ (λ known. Returns-bind-require_none s _ _ _ (λ allowed.
        Returns-bind-require_none s _ _ _ (λ allowed_ext.
          Returns-bind-find pics_table s _ (pics_primary (record { id = some pic_id })) 0
            (int pic_id ∷ []) _ refl
            (λ fs1. Returns-bind-require _ _ _ _ (λ p only.
              Returns-bind-require_none _ _ _ _ (λ alive.
                Returns-bind-find pic_comments_table _ _
                  (pic_comments_primary
                    (record { pic_id = some pic_id; comment_id = some comment_id }))
                  0 (int pic_id ∷ int comment_id ∷ []) _ refl
                  (λ fs2. Returns-bind-require _ _ _ _ (λ c only_c.
                    Returns-bind-find pic_comment_votes_table _ _
                      (pic_comment_votes_primary (record {
                        pic_id = some pic_id;
                        comment_id = some comment_id;
                        user_id = some (user_id_of u);
                        index = none;
                      }))
                      0 (int pic_id ∷ int comment_id ∷ int (user_id_of u) ∷ []) _ refl
                      (λ fs3. Returns-bind-require _ _ _ _ (λ index fresh.
                        Returns-bind-insert pic_comment_votes_table _ _ _ _ (λ new fs4.
                          Returns-bind-store_comment (count_comment_vote vote now c) _ _ _ (λ fs5.
                            Returns-bind-internal_call _ _ _ (λ fs6. Returns-pure _ _ _ (record {
                              pic = p;
                              only_pic = single_ok not_found _ p only;
                              alive = refuse_if-none (hard_deleted p) invalid_argument alive;
                              comment = c;
                              only_comment = single_ok not_found _ c only_c;
                              known = known;
                              allowed = allowed;
                              index = index;
                              index_lem = fresh;
                              row = refl;
                              tables = refl;
                            }))))))))))))))
