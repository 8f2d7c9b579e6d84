-- ===== src/Votes.antt =====
-- be/tasks/add_pic_vote.go, be/tasks/add_pic_comment_task.go (the index of an event): votes on pictures,
-- with the events that tell the users of a picture.
pub mod Fresh
pub mod Events
pub mod Run
pub mod Tally
pub mod Task
pub mod Sample
pub mod Tests
use pixur.Base.{
  ℕ, ◌+◌, ◌-◌, ◌%◌, ◌^◌, Bool, true, false, ◌&&◌, ◌||◌, not, Option, none, some, List, [], ◌∷◌,
  ◌++◌, length, ◌==◌, if◌then◌else◌,
}
use pixur.Base.Int.{ℤ, pos, negsuc, ltb_ℤ, eqb_ℤ}
use pixur.Base.Result.{Result, ok, err}
use pixur.CapSet.{Capability}
use pixur.Schema.{
  Time, Ext, Vote, up, down, neutral, other, Pic, PicVote, PicComment, PicCommentVote, User,
  UserEvent, Event, outgoing_upsert_pic_vote, incoming_upsert_pic_vote, Configuration,
  anonymous_user_id, DeletionStatus,
}
use pixur.Job.{
  Status, internal, invalid_argument, not_found, already_exists, from, Action, pure, raise, ◌>>=◌,
  ◌>>◌, require, require_none, call, or_internal, revert,
}
use pixur.Tables.Pics.{find_pics, update_pic}
use pixur.Tables.Comments.{
  find_pic_comments, update_pic_comment, find_pic_votes, insert_pic_vote, find_pic_comment_votes,
  insert_pic_comment_vote,
}
use pixur.Tables.Users.{find_user_events, insert_user_event}
use pixur.Auth.{single, authed_job, validate_capability, user_id_of}

abbrev pub max_int64 : ℕ
max_int64 = 2 ^ 63 - 1

-- `User_PIC_VOTE_CREATE` and the others.
abbrev pub pic_vote_create : Capability
pic_vote_create = pos 11

abbrev pub pic_vote_extension_create : Capability
pic_vote_extension_create = pos 21

-- `Pic.HardDeleted`
abbrev pub hard_deleted : Pic → Bool
hard_deleted p = elim p.deletion_status [
  | none ↦ false
  | some d ↦ elim d.actual_deleted_ts [ none ↦ false | some t ↦ true ]
]

abbrev pub check_vote : {E : Type 0} → Vote → Option (Status E)
check_vote up = none
check_vote down = none
check_vote neutral = none
check_vote (other n) = some invalid_argument

abbrev pub refuse_if : {E : Type 0} → Bool → Status E → Option (Status E)
refuse_if b st = if b then some st else none

-- The loop for the biggest index, from -1 on.
unfoldable pub biggest_index : List ℕ → ℤ → ℤ
biggest_index [] biggest = biggest
biggest_index (i ∷ is) biggest =
    if ltb_ℤ biggest (pos i) then biggest_index is (pos i) else biggest_index is biggest

-- `biggest + 1`, for a number from -1 on.
abbrev pub succ_ℤ : ℤ → ℕ
succ_ℤ (pos n) = n + 1
succ_ℤ (negsuc n) = 0

-- The index behind the biggest, unless that overflows.
unfoldable pub next_index : {E : Type 0} → List ℕ → Result (Status E) ℕ
unfolding biggest_index
next_index is =
    let biggest = biggest_index is (negsuc 0) in
    if eqb_ℤ biggest (pos max_int64) then err internal else ok (succ_ℤ biggest)

abbrev pub pic_vote_indexes : List PicVote → List ℕ
pic_vote_indexes [] = []
pic_vote_indexes (pv ∷ pvs) = pv.index ∷ pic_vote_indexes pvs

abbrev pub user_event_indexes : List UserEvent → List ℕ
user_event_indexes [] = []
user_event_indexes (ue ∷ ues) = ue.index ∷ user_event_indexes ues

-- The index of a new vote, given those of the user: a named user votes once, with index 0.
unfoldable pub vote_index : {E : Type 0} → ℕ → List ℕ → Result (Status E) ℕ
vote_index user_id is =
    if not (user_id == anonymous_user_id)
    then elim is [ [] ↦ ok 0 | ◌∷◌ i rest ↦ err already_exists ]
    else next_index is

-- `++` on an int64.
abbrev pub increment : ℕ → ℕ
increment n = (n + 1) % 2 ^ 64

-- The counters of a picture after a vote; `none` where they stay.
abbrev pub count_vote : Vote → Time → Pic → Option Pic
count_vote up now p = some (record p { vote_up = increment p.vote_up; modified_ts = now })
count_vote down now p = some (record p { vote_down = increment p.vote_down; modified_ts = now })
count_vote neutral now p = none
count_vote (other n) now p = none

abbrev pub contains_id : List ℕ → ℕ → Bool
contains_id [] i = false
contains_id (j ∷ js) i = j == i || contains_id js i

-- The users of a picture that get an event: each once, and not the voter or the anonymous one.
unfoldable pub notified : List ℕ → List ℕ → List ℕ
notified seen [] = []
notified seen (u ∷ us) =
    if not (u == anonymous_user_id) && not (contains_id seen u)
    then u ∷ notified (u ∷ seen) us
    else notified seen us

-- Those that have had an event: `notifications`.
abbrev pub seen_first : ℕ → List ℕ
seen_first user_id = if user_id == anonymous_user_id then [] else user_id ∷ []

module _ {E : Type 0} where
  -- `nextUserEventIndex`
  unfoldable pub next_user_event_index : ℕ → Time → Action E ℕ
  next_user_event_index user_id created_ts = do
    ues ← or_internal (
        find_user_events
          (record { user_id = some user_id; created_ts = some created_ts; index = none }) 0)
    require (next_index (user_event_indexes ues))

  -- The events for those users, each with its index.
  unfoldable pub make_events : (ℕ → Event) → Time → List ℕ → Action E (List UserEvent)
  make_events evt now [] = pure []
  make_events evt now (u ∷ us) = do
    idx ← next_user_event_index u now
    ues ← make_events evt now us
    pure (
        record { user_id = u; index = idx; created_ts = now; modified_ts = now; evt = evt u } ∷ ues)

  unfoldable pub insert_events : List UserEvent → Action E (Unit {0})
  insert_events [] = pure tt
  insert_events (ue ∷ ues) = do or_internal (insert_user_event ue); insert_events ues

  -- The event of the user that acts, unless anonymous, and behind it those of the users that are told.
  unfoldable pub tell_users : (ℕ → Event) → (ℕ → Event) → ℕ → List ℕ → Time → Action E (Unit {0})
  tell_users outgoing_evt incoming_evt user_id told now = do
    outgoing ← make_events outgoing_evt now (seen_first user_id)
    incoming ← make_events incoming_evt now (notified (seen_first user_id) told)
    insert_events outgoing
    insert_events incoming

  -- The events of a vote that changed the picture.
  pub vote_events : ℕ → Pic → Time → Action E (Unit {0})
  vote_events user_id p now =
      tell_users (λ u. outgoing_upsert_pic_vote p.pic_id)
        (λ u. incoming_upsert_pic_vote p.pic_id user_id) user_id p.source now

  -- `if pic_updated`, for the picture with its new counters.
  pub store_counters : ℕ → Time → Option Pic → Action E (Unit {0})
  store_counters user_id now none = pure tt
  store_counters user_id now (some p) = do or_internal (update_pic p); vote_events user_id p now

  -- `AddPicVoteTask.Run` in its transaction, after the user is known, up to the commit.
  pub add_pic_vote_job : Configuration → Time → ℕ → Vote → Ext → Option User → Action E PicVote
  add_pic_vote_job conf now pic_id vote ext u = do
    require_none (validate_capability u conf (pic_vote_create ∷ []))
    require_none (
        if length ext == 0
        then none
        else validate_capability u conf (pic_vote_extension_create ∷ []))
    pics ← or_internal (find_pics (record { id = some pic_id }) 0)
    p ← require (single not_found pics)
    require_none (refuse_if (hard_deleted p) invalid_argument)
    pvs ← or_internal (
        find_pic_votes
          (record { pic_id = some pic_id; user_id = some (user_id_of u); index = none }) 0)
    index ← require (vote_index (user_id_of u) (pic_vote_indexes pvs))
    let pv : PicVote = record {
      pic_id = p.pic_id;
      user_id = user_id_of u;
      index = index;
      vote = vote;
      created_ts = now;
      modified_ts = now;
      ext = ext;
    }
    or_internal (insert_pic_vote pv)
    store_counters (user_id_of u) now (count_vote vote now p)
    or_internal (call from)
    pure pv

  -- `AddPicVoteTask.Run`: the vote before it is filtered.
  pub add_pic_vote : Configuration → Time → Option (ℕ × ℕ) → ℕ → Vote → Ext → Action E PicVote
  add_pic_vote conf now tok pic_id vote ext = do
    require_none (check_vote vote)
    u ← authed_job now false tok
    revert (add_pic_vote_job conf now pic_id vote ext u)
