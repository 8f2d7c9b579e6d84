-- ===== src/Views.antt =====
-- be/tasks/increment_view_count_task.go: the counter of the views of a picture.
pub mod Run
pub mod Tests
use pixur.Base.{ℕ, false, Option, some, [], ◌∷◌}
use pixur.Base.Int.{pos}
use pixur.CapSet.{Capability}
use pixur.Schema.{Time, Pic, User, Configuration}
use pixur.Job.{
  invalid_argument, not_found, from, Action, ◌>>=◌, ◌>>◌, require, require_none, call, or_internal,
  revert,
}
use pixur.Tables.Pics.{find_pics, update_pic}
use pixur.Auth.{single, authed_job, validate_capability}
use pixur.Votes.{hard_deleted, refuse_if, increment}

abbrev pub pic_update_view_counter : Capability
pic_update_view_counter = pos 8

abbrev pub viewed : Time → Pic → Pic
viewed now p = record p { view_count = increment p.view_count; modified_ts = now }

module _ {E : Type 0} (conf : Configuration) (now : Time) where
  -- `IncrementViewCountTask.Run` in its transaction, with the user known.
  unfoldable pub increment_view_count_job : ℕ → Option User → Action E (Unit {0})
  increment_view_count_job pic_id u = do
    require_none (validate_capability u conf (pic_update_view_counter ∷ []))
    pics ← or_internal (find_pics (record { id = some pic_id }) 1)
    p ← require (single not_found pics)
    require_none (refuse_if (hard_deleted p) invalid_argument)
    or_internal (update_pic (viewed now p))
    or_internal (call from)

  -- `IncrementViewCountTask.Run`
  unfoldable pub increment_view_count : Option (ℕ × ℕ) → ℕ → Action E (Unit {0})
  increment_view_count tok pic_id = do
    u ← authed_job now false tok
    revert (increment_view_count_job pic_id u)
