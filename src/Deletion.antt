-- ===== src/Deletion.antt =====
-- be/tasks/soft_delete_pic_task.go, hard_delete_pic_task.go, purge_pic_task.go: a picture that is marked
-- for deletion, whose data is deleted, and that is forgotten. Removing a file is a parameter.
pub mod Files
pub mod Marks
pub mod States
pub mod Task
pub mod Loops
pub mod Purge
pub mod Tests
use pixur.Base.{
  ℕ, ◌-◌, ◌^◌, Bool, true, false, ◌&&◌, not, Option, none, some, List, [], ◌∷◌, ◌++◌, ltb, ◌==◌,
  if◌then◌else◌,
}
use pixur.Base.Int.{pos}
use pixur.Base.Result.{Result, ok, err}
use pixur.CapSet.{Capability}
use pixur.Schema.{
  Time, Pic, PicFile, DeletionStatus, Tag, PicTag, PicIdent, PicComment, PicVote, User,
  Configuration,
}
use pixur.Job.{
  Fault, broken, Status, internal, invalid_argument, not_found, data_loss, from, Action, pure,
  raise, ◌>>=◌, ◌>>◌, require, require_none, call, or_internal, revert,
}
use pixur.Tables.Pics.{
  find_pics, update_pic, delete_pic, key_for_pic, find_pic_idents, delete_pic_ident,
  key_for_pic_ident, find_pic_tags, delete_pic_tag, key_for_pic_tag, find_tags, update_tag,
  delete_tag, key_for_tag,
}
use pixur.Tables.Comments.{
  find_pic_comments, delete_pic_comment, key_for_pic_comment, find_pic_votes, delete_pic_vote,
  key_for_pic_vote,
}
use pixur.Auth.{single, authed_job, validate_capability}
use pixur.Votes.{hard_deleted}

-- `User_PIC_SOFT_DELETE` and the others.
abbrev pub pic_soft_delete : Capability
pic_soft_delete = pos 5

abbrev pub pic_hard_delete : Capability
pic_hard_delete = pos 6

abbrev pub pic_purge : Capability
pic_purge = pos 7

-- What a soft deletion is asked for: `Reason`, `Details`, `Temporary`, `PendingDeletionTime`.
pub record Request : Type 0 where
  pub reason : ℕ
  pub details : List ℕ
  pub temporary : Bool
  pub pending_deletion_time : Option Time

abbrev pub first_mark : Time → Option Time → Time
first_mark now none = now
first_mark now (some t) = t

abbrev pub marked_before : Option DeletionStatus → Option Time
marked_before none = none
marked_before (some d) = d.marked_deleted_ts

-- The change of a soft deletion; the mark stays that of the first.
pub soft_mark : {E : Type 0} → Request → Time → Pic → Result (Status E) Pic
soft_mark req now p =
    if hard_deleted p
    then err invalid_argument
    else ok (record p {
      deletion_status = some (record {
        marked_deleted_ts = some (first_mark now (marked_before p.deletion_status));
        pending_deleted_ts = req.pending_deletion_time;
        actual_deleted_ts = none;
        details = req.details;
        reason = req.reason;
        temporary = req.temporary;
      });
      modified_ts = now;
    })

-- The status that a hard deletion starts from; 1 is `Pic_DeletionStatus_NONE`.
abbrev pub status_or_new : Time → Option DeletionStatus → DeletionStatus
status_or_new now none = record {
  marked_deleted_ts = some now;
  pending_deleted_ts = some now;
  actual_deleted_ts = none;
  details = [];
  reason = 1;
  temporary = false;
}
status_or_new now (some d) = d

-- The change of a hard deletion.
pub hard_mark : {E : Type 0} → Time → Pic → Result (Status E) Pic
hard_mark now p =
    if hard_deleted p
    then err invalid_argument
    else ok (record p {
      deletion_status =
          some (record (status_or_new now p.deletion_status) { actual_deleted_ts = some now });
      thumbnail = [];
      modified_ts = now;
    })

-- `UsageCount > 1` of an int64.
abbrev pub more_than_one : ℕ → Bool
more_than_one n = ltb 1 n && ltb n (2 ^ 63)

module _ {E : Type 0} where
  -- A loop over rows with a statement for each.
  pub for_each : {A : Type 0} → (A → Action E (Unit {0})) → List A → Action E (Unit {0})
  for_each f [] = pure tt
  for_each f (a ∷ as') = do f a; for_each f as'

  -- The picture that a task is about.
  pub lookup_pic : ℕ → Action E Pic
  lookup_pic pic_id = do
    pics ← or_internal (find_pics (record { id = some pic_id }) 1)
    require (single not_found pics)

  -- The transaction of `SoftDeletePicTask.Run`.
  pub soft_delete_job : Configuration → Time → ℕ → Request → Option User → Action E (Unit {0})
  soft_delete_job conf now pic_id req u = do
    require_none (validate_capability u conf (pic_soft_delete ∷ []))
    p ← lookup_pic pic_id
    p' ← require (soft_mark req now p)
    or_internal (update_pic p')
    or_internal (call from)

  -- `SoftDeletePicTask.Run`; the reason 0 is `UNKNOWN`.
  pub soft_delete : Configuration → Time → Option (ℕ × ℕ) → ℕ → Request → Action E (Unit {0})
  soft_delete conf now tok pic_id req = do
    require_none (if req.reason == 0 then some internal else none)
    u ← authed_job now false tok
    revert (soft_delete_job conf now pic_id req u)

  -- The transaction of `HardDeletePicTask.Run`: the picture as it was, whose files are to be removed.
  pub hard_delete_job : Configuration → Time → ℕ → Option User → Action E Pic
  hard_delete_job conf now pic_id u = do
    require_none (validate_capability u conf (pic_hard_delete ∷ []))
    p ← lookup_pic pic_id
    p' ← require (hard_mark now p)
    or_internal (update_pic p')
    or_internal (call from)
    pure p

  -- The tag of a row, which has to be there.
  pub lookup_tags : List PicTag → Action E (List Tag)
  lookup_tags [] = pure []
  lookup_tags (pt ∷ pts) = do
    tags ← or_internal (find_tags (record { id = some pt.tag_id }) 1)
    t ← require (single internal tags)
    ts ← lookup_tags pts
    pure (t ∷ ts)

  -- A tag after one of its uses is gone.
  pub release_tag : Time → Tag → Action E (Unit {0})
  release_tag now t =
      if more_than_one t.usage_count
      then or_internal
          (update_tag (record t { usage_count = t.usage_count - 1; modified_ts = now }))
      else or_internal (delete_tag (key_for_tag t))

  -- The transaction of `PurgePicTask.Run`.
  pub purge_job : Configuration → Time → ℕ → Option User → Action E Pic
  purge_job conf now pic_id u = do
    require_none (validate_capability u conf (pic_purge ∷ []))
    p ← lookup_pic pic_id
    or_internal (delete_pic (key_for_pic p))
    pis ←
        or_internal
          (find_pic_idents (record { pic_id = some pic_id; key_type = none; value = none }) 0)
    for_each (λ pi. or_internal (delete_pic_ident (key_for_pic_ident pi))) pis
    pts ← or_internal (find_pic_tags (record { pic_id = some pic_id; tag_id = none }) 0)
    for_each (λ pt. or_internal (delete_pic_tag (key_for_pic_tag pt))) pts
    ts ← lookup_tags pts
    for_each (release_tag now) ts
    pcs ← or_internal (find_pic_comments (record { pic_id = some pic_id; comment_id = none }) 0)
    for_each (λ pc. or_internal (delete_pic_comment (key_for_pic_comment pc))) pcs
    pvs ←
        or_internal
          (find_pic_votes (record { pic_id = some pic_id; user_id = none; index = none }) 0)
    for_each (λ pv. or_internal (delete_pic_vote (key_for_pic_vote pv))) pvs
    or_internal (call from)
    pure p
