-- ===== src/Votes/Task.antt =====
-- be/tasks/add_pic_vote.go: a vote, accepted or not, keeps what holds of the votes and the counters.
use pixur.Base.{refl, ℕ, ◌≡◌, false, Option}
use pixur.Base.Result.{err}
use pixur.Schema.{Time, Ext, Tables, Vote, Configuration}
use pixur.Job.{Status, Job}
use pixur.Job.Returns.{Returns-weaken}
use pixur.Job.Keeps.{
  Keeps_use, Keeps-bind, Keeps-require_none, Keeps-revert-Returns, Keeps-bind-revert,
  Keeps-bind-require_none,
}
use pixur.Auth.{authed_job}
use pixur.Auth.Session.{SameButUsers}
use pixur.Auth.Keeps.{SameButUsers-stable, Keeps-authed_job}
use pixur.Votes.{check_vote, add_pic_vote_job, add_pic_vote}
use pixur.Votes.Run.{Returns-add_pic_vote_job}
use pixur.Votes.Tally.{IsTallied, VotesOnce, Voted-IsTallied, Voted-VotesOnce}

-- The counters of every picture stand for its votes, and a named user votes once.
abbrev pub VotesValid : Tables → Type 0
VotesValid t = IsTallied t × VotesOnce t

-- A vote, whether it is accepted or fails at any point, keeps two facts about the tables: the
-- counters of every picture are the numbers of its up and down votes modulo 2^64, and no named user
-- has two votes on a picture.
pub add_pic_vote-VotesValid :
    {E : Type 0} (conf : Configuration) (now : Time) (tok : Option (ℕ × ℕ)) (pic_id : ℕ)
    (vote : Vote) (ext : Ext) (s : Job E)
    → VotesValid s.tables
    → VotesValid (add_pic_vote conf now tok pic_id vote ext s).1.tables
unfolding add_pic_vote
add_pic_vote-VotesValid {E} conf now tok pic_id vote ext =
    Keeps_use E VotesValid (add_pic_vote conf now tok pic_id vote ext) (
      Keeps-bind E VotesValid _ _ (Keeps-require_none E VotesValid (check_vote vote)) (λ _.
        Keeps-bind E VotesValid _ _ (Keeps-authed_job E VotesValid (λ t us h. h) now false tok)
          (λ u. Keeps-revert-Returns E VotesValid _ (λ s (tallied, once).
            Returns-weaken _ s _ _
              (λ pv s' v. (
                Voted-IsTallied conf now pic_id vote ext u s.tables s'.tables pv v tallied,
                Voted-VotesOnce conf now pic_id vote ext u s.tables s'.tables pv v once,
              ))
              (Returns-add_pic_vote_job conf now pic_id vote ext u s)))))

-- A vote that fails leaves all tables but that of the users as they were.
pub add_pic_vote-SameButUsers :
    {E : Type 0} (conf : Configuration) (now : Time) (tok : Option (ℕ × ℕ)) (pic_id : ℕ)
    (vote : Vote) (ext : Ext) (s s' : Job E) (st : Status E)
    → add_pic_vote conf now tok pic_id vote ext s ≡ (err st, s')
    → SameButUsers s.tables s'.tables
unfolding add_pic_vote
add_pic_vote-SameButUsers {E} conf now tok pic_id vote ext s s' st =
    Keeps-bind-require_none E (SameButUsers s.tables) (check_vote vote) _ s s' st refl (
      Keeps-bind-revert E (SameButUsers s.tables) (authed_job now false tok)
        (add_pic_vote_job conf now pic_id vote ext) s s' st
        (Keeps-authed_job E (SameButUsers s.tables) (SameButUsers-stable s.tables) now false tok)
        refl)
