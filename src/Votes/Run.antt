-- ===== src/Votes/Run.antt =====
-- be/tasks/add_pic_vote.go: what a vote that was accepted has done.
use mathlib.Core.Path.{subst}
use pixur.Base.{ℕ, ◌≡◌, refl, sym, Bool, true, false, Option, none, some, List, [], ◌∷◌, ◌++◌}
use pixur.Base.Result.{ok}
use pixur.Schema.{UserEvent, Time, Ext, Tables, Vote, Pic, PicVote, User, Configuration}
use pixur.Job.{Status, not_found, invalid_argument, Job}
use pixur.Job.Returns.{
  Returns, Returns-bind, Returns-weaken, Returns-pure, Returns-bind-require,
  Returns-bind-require_none, Returns-revert, Returns_use,
}
use pixur.Tables.{int, select, replace}
use pixur.Tables.Pics.{pics_table, pics_primary}
use pixur.Tables.Comments.{pic_votes_table, pic_votes_primary}
use pixur.Tables.Rows.{
  after, Returns-bind-find, Returns-bind-insert, Returns-bind-update, Returns-bind-internal_call,
}
use pixur.Auth.{authed_job, validate_capability, user_id_of}
use pixur.Auth.Session.{RunsFor, SameButUsers, Returns-authed_job}
use pixur.Auth.Refresh.{single_ok}
use pixur.Votes.{
  seen_first, notified, pic_vote_create, hard_deleted, refuse_if, vote_index, pic_vote_indexes,
  count_vote, store_counters, add_pic_vote_job, add_pic_vote, check_vote,
}
use pixur.Votes.Events.{event_users, vote_events_lem}

-- The pictures after one of them got new counters.
abbrev pub stored : Option Pic → List Pic → List Pic
stored none pics = pics
stored (some p) pics = replace (pics_table.key) (int p.pic_id ∷ []) p pics

-- The events after a vote: new ones only where the counters of the picture changed.
abbrev pub Announced : ℕ → Option Pic → List UserEvent → List UserEvent → Type 0
Announced user_id none old new = new ≡ old
Announced user_id (some p) old new =
    (ues : List UserEvent) × (new ≡ old ++ ues)
    × (event_users ues ≡ seen_first user_id ++ notified (seen_first user_id) p.source)

pub refuse_if-none : {E : Type 0} (b : Bool) (st : Status E) → refuse_if b st ≡ none → b ≡ false
refuse_if-none false st e = refl
refuse_if-none true st e = cc

-- A vote that was accepted: on a picture that is there and not deleted, by a user that may vote, with a
-- new index, and counted.
pub record Voted (E : Type 0) (conf : Configuration) (now : Time) (pic_id : ℕ) (vote : Vote)
    (ext : Ext) (u : Option User) (t : Tables) (pv : PicVote) (t' : Tables) : Type 0 where
  pub pic : Pic
  pub only : select (pics_table.key) (int pic_id ∷ []) t.pics ≡ pic ∷ []
  pub alive : hard_deleted pic ≡ false
  pub allowed : validate_capability {E = E} u conf (pic_vote_create ∷ []) ≡ none
  pub index : ℕ
  pub index_lem :
      vote_index {E = E} (user_id_of u) (
        pic_vote_indexes
          (select (pic_votes_table.key) (int pic_id ∷ int (user_id_of u) ∷ []) t.pic_votes))
      ≡ ok index
  pub row : pv ≡ record {
    pic_id = pic.pic_id;
    user_id = user_id_of u;
    index = index;
    vote = vote;
    created_ts = now;
    modified_ts = now;
    ext = ext;
  }
  pub tables : t' ≡ record t {
    pics = stored (count_vote vote now pic) t.pics;
    pic_votes = t.pic_votes ++ (pv ∷ []);
    user_events = t'.user_events;
  }
  pub events : Announced (user_id_of u) (count_vote vote now pic) t.user_events t'.user_events

-- A vote that was accepted as a whole: after the session of the user was refreshed.
abbrev pub Accepted :
    Type 0
    → Configuration
    → Time
    → Option (ℕ × ℕ)
    → ℕ
    → Vote
    → Ext
    → Tables
    → PicVote
    → Tables
    → Type 0
Accepted E conf now tok pic_id vote ext t pv t' =
    (u : Option User) × (t1 : Tables) × (check_vote {E = E} vote ≡ none)
    × RunsFor E now tok t1 u
    × SameButUsers t t1
    × Voted E conf now pic_id vote ext u t1 pv t'

abbrev Stored : ℕ → Option Pic → Tables → Tables → Type 0
Stored user_id o t t' =
    (t' ≡ record t { pics = stored o t.pics; user_events = t'.user_events })
    × Announced user_id o t.user_events t'.user_events

module _ {E : Type 0} where
  store_counters_lem :
      (user_id : ℕ) (now : Time) (o : Option Pic) (s : Job E)
      → Returns (store_counters user_id now o) s (λ _ s'. Stored user_id o s.tables s'.tables)
  unfolding store_counters
  store_counters_lem user_id now none s = Returns-pure _ _ _ (refl, refl)
  store_counters_lem user_id now (some p) s = Returns-bind-update pics_table s _ p _ (λ fs.
      Returns-weaken _ _ _ _
        (λ _ s' (ues, e, users).
          subst (Stored user_id (some p) s.tables) (sym e) (refl, (ues, refl, users)))
        (vote_events_lem user_id p now (after _ fs)))

  pub Returns-add_pic_vote_job :
      (conf : Configuration) (now : Time) (pic_id : ℕ) (vote : Vote) (ext : Ext) (u : Option User)
      (s : Job E)
      → Returns
          (add_pic_vote_job conf now pic_id vote ext u)
          s
          (λ pv s'. Voted E conf now pic_id vote ext u s.tables pv s'.tables)
  unfolding add_pic_vote_job
  Returns-add_pic_vote_job conf now pic_id vote ext u s =
      Returns-bind-require_none s _ _ _ (λ allowed.
        Returns-bind-require_none s _ _ _ (λ allowed_ext.
          Returns-bind-find pics_table s _ (pics_primary (record { id = some pic_id })) 0
            (int pic_id ∷ []) _ refl
            (λ fs1. Returns-bind-require _ _ _ _ (λ p only.
              Returns-bind-require_none _ _ _ _ (λ alive.
                Returns-bind-find pic_votes_table _ _
                  (pic_votes_primary
                    (record { pic_id = some pic_id; user_id = some (user_id_of u); index = none }))
                  0 (int pic_id ∷ int (user_id_of u) ∷ []) _ refl
                  (λ fs2. Returns-bind-require _ _ _ _ (λ index fresh.
                    Returns-bind-insert pic_votes_table _ _ _ _ (λ new fs3.
                      Returns-bind (store_counters (user_id_of u) now (count_vote vote now p)) _ _ _
                        (Returns-weaken _ _ _ _
                          (λ _ s4 e4. Returns-bind-internal_call _ _ _ (λ fs5.
                            Returns-pure _ _ _ (record {
                              pic = p;
                              only = single_ok not_found _ p only;
                              alive = refuse_if-none (hard_deleted p) invalid_argument alive;
                              allowed = allowed;
                              index = index;
                              index_lem = fresh;
                              row = refl;
                              tables = e4.0;
                              events = e4.1;
                            })))
                          (store_counters_lem (user_id_of u) now (count_vote vote now p)
                            (after _ fs3)))))))))))

  module _ (conf : Configuration) (now : Time) (tok : Option (ℕ × ℕ)) (pic_id : ℕ) (vote : Vote)
      (ext : Ext) (s : Job E) where
    Returns-add_pic_vote :
        Returns
          (add_pic_vote conf now tok pic_id vote ext)
          s
          (λ pv s'. Accepted E conf now tok pic_id vote ext s.tables pv s'.tables)
    unfolding add_pic_vote
    Returns-add_pic_vote = Returns-bind-require_none s _ (check_vote vote) _ (λ good.
        Returns-bind (authed_job now false tok) _ s _ (
          Returns-weaken _ s _ _
            (λ u s1 (session, same). Returns-revert _ s1 _ (
              Returns-weaken _ s1 _ _ (λ pv s' v. (u, s1.tables, good, session, same, v))
                (Returns-add_pic_vote_job conf now pic_id vote ext u s1)))
            (Returns-authed_job now false tok s)))

    -- Where a vote is accepted, its direction is known, the user of the session has the capability
    -- to vote, there is one picture with the id and it is not hard deleted; the new row, with the
    -- index chosen for the user, is stored behind the others, the counters of the picture are those
    -- after the vote, and, only if they changed, there is one new event for the voter, unless that
    -- is the anonymous user, and behind it one for each user to be told; but for the users, nothing
    -- else has changed.
    pub add_pic_vote-Accepted :
        (s' : Job E) (pv : PicVote)
        → add_pic_vote conf now tok pic_id vote ext s ≡ (ok pv, s')
        → Accepted E conf now tok pic_id vote ext s.tables pv s'.tables
    add_pic_vote-Accepted s' pv =
        Returns_use (add_pic_vote conf now tok pic_id vote ext) s s' pv
          (λ pv1 s1. Accepted E conf now tok pic_id vote ext s.tables pv1 s1.tables)
          Returns-add_pic_vote
