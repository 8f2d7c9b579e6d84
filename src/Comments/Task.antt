-- ===== src/Comments/Task.antt =====
-- be/tasks/add_pic_comment_vote_task.go: a vote on a comment, accepted or not, keeps what holds of the
-- votes and the counters.
use pixur.Base.{ℕ, ◌≡◌, false, Option}
use pixur.Base.Result.{ok}
use pixur.Schema.{Time, Ext, Tables, Vote, PicCommentVote, Configuration, User}
use pixur.Job.{Job}
use pixur.Job.Returns.{Returns-bind, Returns-weaken, Returns-revert, Returns_use}
use pixur.Job.Keeps.{Keeps_use, Keeps-bind, Keeps-revert-Returns}
use pixur.Auth.{authed_job}
use pixur.Auth.Session.{RunsFor, SameButUsers, Returns-authed_job}
use pixur.Auth.Keeps.{Keeps-authed_job}
use pixur.Comments.{add_pic_comment_vote}
use pixur.Comments.Run.{CommentVoted, Returns-add_pic_comment_vote_job}
use pixur.Comments.Tally.{CommentsTallied, CommentVoted-CommentsTallied}
use pixur.Comments.Once.{CommentVotesOnce, CommentVoted-CommentVotesOnce}

-- The counters of every comment stand for its votes, and a named user votes once.
abbrev pub CommentVotesValid : Tables → Type 0
CommentVotesValid t = CommentsTallied t × CommentVotesOnce t

-- A vote on a comment, whether it is accepted or fails at any point, keeps two facts about the
-- tables: the counters of every comment are the numbers of its up and down votes modulo 2^64, and
-- no named user has two votes on a comment.
pub add_pic_comment_vote-CommentVotesValid :
    {E : Type 0} (conf : Configuration) (now : Time) (tok : Option (ℕ × ℕ)) (pic_id comment_id : ℕ)
    (vote : Vote) (ext : Ext) (s : Job E)
    → CommentVotesValid s.tables
    → CommentVotesValid (add_pic_comment_vote conf now tok pic_id comment_id vote ext s).1.tables
unfolding add_pic_comment_vote
add_pic_comment_vote-CommentVotesValid {E} conf now tok pic_id comment_id vote ext =
    Keeps_use E CommentVotesValid (add_pic_comment_vote conf now tok pic_id comment_id vote ext) (
      Keeps-bind E CommentVotesValid _ _
        (Keeps-authed_job E CommentVotesValid (λ t us h. h) now false tok)
        (λ u. Keeps-revert-Returns E CommentVotesValid _ (λ s (tallied, once).
          Returns-weaken _ s _ _
            (λ v s' d. (
              CommentVoted-CommentsTallied conf now pic_id comment_id vote ext u s.tables s'.tables
                  v d tallied,
              CommentVoted-CommentVotesOnce conf now pic_id comment_id vote ext u s.tables s'.tables
                  v d once,
            ))
            (Returns-add_pic_comment_vote_job conf now pic_id comment_id vote ext u s))))

-- A vote on a comment that was accepted as a whole: after the session of the user was refreshed.
abbrev pub CommentAccepted :
    Type 0
    → Configuration
    → Time
    → Option (ℕ × ℕ)
    → ℕ
    → ℕ
    → Vote
    → Ext
    → Tables
    → PicCommentVote
    → Tables
    → Type 0
CommentAccepted E conf now tok pic_id comment_id vote ext t v t' =
    (u : Option User) × (t1 : Tables) × RunsFor E now tok t1 u
    × SameButUsers t t1
    × CommentVoted E conf now pic_id comment_id vote ext u t1 v t'

-- Where a vote on a comment is accepted, its direction is known, the user of the session has the
-- capability to vote on comments, there is one picture with the id, which is not hard deleted, and
-- one comment with the ids; the new row, with the index chosen for the user, is stored behind the
-- others, and the counters of the comment are those after the vote; but for the users, nothing else
-- has changed.
pub add_pic_comment_vote-CommentAccepted :
    {E : Type 0} (conf : Configuration) (now : Time) (tok : Option (ℕ × ℕ)) (pic_id comment_id : ℕ)
    (vote : Vote) (ext : Ext) (s s' : Job E) (v : PicCommentVote)
    → add_pic_comment_vote conf now tok pic_id comment_id vote ext s ≡ (ok v, s')
    → CommentAccepted E conf now tok pic_id comment_id vote ext s.tables v s'.tables
unfolding add_pic_comment_vote
add_pic_comment_vote-CommentAccepted {E} conf now tok pic_id comment_id vote ext s s' v =
    Returns_use (add_pic_comment_vote conf now tok pic_id comment_id vote ext) s s' v
      (λ w s1. CommentAccepted E conf now tok pic_id comment_id vote ext s.tables w s1.tables)
      (Returns-bind (authed_job now false tok) _ s _ (
        Returns-weaken _ s _ _
          (λ u s1 (session, same). Returns-revert _ s1 _ (
            Returns-weaken _ s1 _ _ (λ w s2 d. (u, s1.tables, session, same, d))
              (Returns-add_pic_comment_vote_job conf now pic_id comment_id vote ext u s1)))
          (Returns-authed_job now false tok s)))
