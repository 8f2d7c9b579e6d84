-- ===== src/Views/Run.antt =====
-- be/tasks/increment_view_count_task.go: what a view that is counted has done, and what it keeps.
use pixur.Base.{ℕ, ◌+◌, ◌%◌, ◌^◌, ◌≡◌, refl, false, Option, none, some, [], ◌∷◌}
use pixur.Base.Result.{ok}
use pixur.Schema.{Time, Tables, Pic, User, Configuration}
use pixur.Job.{not_found, invalid_argument, Job}
use pixur.Job.Returns.{
  Returns, Returns-bind, Returns-weaken, Returns-bind-require, Returns-bind-require_none,
  Returns-revert, Returns_use,
}
use pixur.Tables.{int, select, replace, limited}
use pixur.Tables.Pics.{pics_table, pics_primary}
use pixur.Tables.Rows.{Returns-bind-find, Returns-bind-update, Returns-internal_call}
use pixur.Auth.{authed_job, validate_capability}
use pixur.Auth.Session.{RunsFor, SameButUsers, Returns-authed_job}
use pixur.Auth.Refresh.{single_ok}
use pixur.Votes.{hard_deleted}
use pixur.Votes.Run.{refuse_if-none}
use pixur.Views.{pic_update_view_counter, viewed, increment_view_count_job, increment_view_count}

-- A view that was counted, on a picture that is there and not deleted, for a user that may count views.
pub record Viewed (E : Type 0) (conf : Configuration) (now : Time) (pic_id : ℕ) (u : Option User)
    (t t' : Tables) : Type 0 where
  pub pic : Pic
  pub found : limited 1 (select (pics_table.key) (int pic_id ∷ []) t.pics) ≡ pic ∷ []
  pub alive : hard_deleted pic ≡ false
  pub allowed : validate_capability {E = E} u conf (pic_update_view_counter ∷ []) ≡ none
  pub tables : t' ≡ record t {
    pics =
        replace
          (pics_table.key)
          (int pic.pic_id ∷ [])
          (record pic { view_count = (pic.view_count + 1) % 2 ^ 64; modified_ts = now })
          t.pics;
  }

-- The same from the session of the user on.
abbrev pub ViewCounted :
    Type 0 → Configuration → Time → Option (ℕ × ℕ) → ℕ → Tables → Tables → Type 0
ViewCounted E conf now tok pic_id t t' =
    (u : Option User) × (t1 : Tables) × RunsFor E now tok t1 u
    × SameButUsers t t1
    × Viewed E conf now pic_id u t1 t'

module _ {E : Type 0} (conf : Configuration) (now : Time) (pic_id : ℕ) where
  Returns-increment_view_count_job :
      (u : Option User) (s : Job E)
      → Returns
          (increment_view_count_job conf now pic_id u)
          s
          (λ _ s'. Viewed E conf now pic_id u s.tables s'.tables)
  unfolding increment_view_count_job
  Returns-increment_view_count_job u s = Returns-bind-require_none s _ _ _ (λ allowed.
      Returns-bind-find pics_table s _ (pics_primary (record { id = some pic_id })) 1
        (int pic_id ∷ []) _ refl
        (λ fs. Returns-bind-require _ _ _ _ (λ p only. Returns-bind-require_none _ _ _ _ (λ alive.
          Returns-bind-update pics_table _ _ (viewed now p) _ (λ fs1.
            Returns-internal_call _ _ (λ fs2. record {
              pic = p;
              found = single_ok not_found _ p only;
              alive = refuse_if-none (hard_deleted p) invalid_argument alive;
              allowed = allowed;
              tables = refl;
            }))))))

  -- Where a view is counted, the user of the session has the capability for it, the picture found
  -- is not hard deleted and is stored again with one view more, modulo 2^64, and modified now; but
  -- for the users, nothing else has changed.
  pub increment_view_count-ViewCounted :
      (tok : Option (ℕ × ℕ)) (s s' : Job E)
      → increment_view_count conf now tok pic_id s ≡ (ok tt, s')
      → ViewCounted E conf now tok pic_id s.tables s'.tables
  unfolding increment_view_count
  increment_view_count-ViewCounted tok s s' =
      Returns_use (increment_view_count conf now tok pic_id) s s' tt
        (λ _ s1. ViewCounted E conf now tok pic_id s.tables s1.tables)
        (Returns-bind (authed_job now false tok) _ s _ (
          Returns-weaken _ s _ _
            (λ u s1 (session, same). Returns-revert _ s1 _ (
              Returns-weaken _ s1 _ _ (λ _ s2 d. (u, s1.tables, session, same, d))
                (Returns-increment_view_count_job u s1)))
            (Returns-authed_job now false tok s)))
