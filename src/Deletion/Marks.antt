-- ===== src/Deletion/Marks.antt =====
-- be/tasks/soft_delete_pic_task.go, hard_delete_pic_task.go: the states of a picture.
use mathlib.Core.Path.{subst}
use pixur.Base.{◌≡◌, ◌≢◌, ◌↔◌, refl, ap, true, false, Option, none, some, [], Bool-cases, inl, inr}
use pixur.Base.Result.{Result, ok, err}
use pixur.Schema.{Time, Pic, DeletionStatus}
use pixur.Job.{Status, invalid_argument}
use pixur.Votes.{hard_deleted}
use pixur.Deletion.{Request, first_mark, marked_before, soft_mark, status_or_new, hard_mark}

pub data Phase : Type 0 where
  live marked deleted : Phase

abbrev phase_of_status : DeletionStatus → Phase
phase_of_status d = elim d.actual_deleted_ts [ none ↦ marked | some t ↦ deleted ]

-- The phase of a picture by its deletion status.
abbrev pub phase : Pic → Phase
phase p = elim p.deletion_status [ none ↦ live | some d ↦ phase_of_status d ]

pub hard_deleted_iff : (p : Pic) → (hard_deleted p ≡ true) ↔ (phase p ≡ deleted)
hard_deleted_iff p = go p.deletion_status
  where
    at : Option DeletionStatus → Pic
    at o = record p { deletion_status = o }

    actual :
        (o : Option Time) (d : DeletionStatus)
        → (hard_deleted (at (some (record d { actual_deleted_ts = o }))) ≡ true)
          ↔ (phase (at (some (record d { actual_deleted_ts = o }))) ≡ deleted)
    actual none d = ((λ e. cc), λ e. cc)
    actual (some t) d = ((λ e. refl), λ e. refl)

    go : (o : Option DeletionStatus) → (hard_deleted (at o) ≡ true) ↔ (phase (at o) ≡ deleted)
    go none = ((λ e. cc), λ e. cc)
    go (some d) = actual d.actual_deleted_ts d

-- What a change leaves: the other fields of the picture, and the time of the first mark.
pub record Deletes (now : Time) (p p' : Pic) : Type 0 where
  pub id : p'.pic_id ≡ p.pic_id
  pub ups : p'.vote_up ≡ p.vote_up
  pub downs : p'.vote_down ≡ p.vote_down
  pub before : phase p ≢ deleted
  pub after : phase p' ≢ live
  pub stamped : p'.modified_ts ≡ now
  pub mark :
      (t : Time)
      → marked_before p.deletion_status ≡ some t
      → marked_before p'.deletion_status ≡ some t

made_or : {E : Type 0} → Pic → Result (Status E) Pic → Pic
made_or p (ok q) = q
made_or p (err st) = p

not_deleted : (p : Pic) → hard_deleted p ≡ false → phase p ≢ deleted
not_deleted p h e = clash h ((hard_deleted_iff p).1 e)
  where
    clash : hard_deleted p ≡ false → hard_deleted p ≡ true → ⊥
    clash a b = cc

first_mark_before :
    (now : Time) (o : Option Time) (t : Time) → o ≡ some t → some (first_mark now o) ≡ some t
first_mark_before now none t e = cc
first_mark_before now (some u) t e = e

module _ {E : Type 0} (now : Time) (p p' : Pic) where
  -- A soft deletion is done only on a picture that is not hard deleted and leaves it marked, with
  -- its id, its counters and the time of its first mark kept and the time of its modification set.
  pub soft_mark-Deletes :
      (req : Request) → soft_mark {E = E} req now p ≡ ok p' → Deletes now p p' × (phase p' ≡ marked)
  unfolding soft_mark made_or
  soft_mark-Deletes req e = elim (Bool-cases (hard_deleted p)) [
    | inl gone ↦ absurd (clash (rw (gone, soft_mark) at e))
    | inr there ↦
        subst (λ q. Deletes now p q × (phase q ≡ marked))
          (ap (made_or p) (rw (there, soft_mark) at e))
          (
            record {
              id = refl;
              ups = refl;
              downs = refl;
              before = not_deleted p there;
              after = λ l. cc;
              stamped = refl;
              mark = first_mark_before now (marked_before p.deletion_status);
            },
            refl,
          )
  ]
    where
      clash : ¬ ((let r : Result (Status E) Pic = err invalid_argument in r) ≡ ok p')
      clash q = cc

  -- A hard deletion is done only on a picture that is not hard deleted and leaves it deleted,
  -- without thumbnails, with its id, its counters and the time of its first mark kept and the time
  -- of its modification set.
  pub hard_mark-Deletes :
      hard_mark {E = E} now p ≡ ok p'
      → Deletes now p p' × (phase p' ≡ deleted) × (p'.thumbnail ≡ [])
  unfolding hard_mark made_or
  hard_mark-Deletes e = elim (Bool-cases (hard_deleted p)) [
    | inl gone ↦ absurd (clash (rw (gone, hard_mark) at e))
    | inr there ↦
        subst (λ q. Deletes now p q × (phase q ≡ deleted) × (q.thumbnail ≡ []))
          (ap (made_or p) (rw (there, hard_mark) at e))
          (
            record {
              id = refl;
              ups = refl;
              downs = refl;
              before = not_deleted p there;
              after = λ l. cc;
              stamped = refl;
              mark = mark_kept p.deletion_status;
            },
            refl,
            refl,
          )
  ]
    where
      clash : ¬ ((let r : Result (Status E) Pic = err invalid_argument in r) ≡ ok p')
      clash q = cc

      mark_kept :
          (o : Option DeletionStatus) (t : Time)
          → marked_before o ≡ some t
          → (status_or_new now o).marked_deleted_ts ≡ some t
      mark_kept none t e = cc
      mark_kept (some d) t e = e
