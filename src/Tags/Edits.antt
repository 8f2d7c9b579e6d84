-- ===== src/Tags/Edits.antt =====
-- be/tasks/update_pic_tag_task.go: a change of the data of a tag on a picture keeps the counters of all tags.
use pixur.Base.{
  ℕ, ◌+◌, ◌≡◌, refl, ap, arith, Bool, true, false, ◌&&◌, Option, some, List, [], ◌∷◌, ◌==◌,
  if◌then◌else◌, Bool-cases, inl, inr,
}
use pixur.Schema.{Time, Ext, PicTag, User, Configuration}
use pixur.Job.{Job}
use pixur.Job.Returns.{Returns, Returns-bind-require, Returns-bind-require_none}
use pixur.Job.Keeps.{Keeps_use, Keeps-bind, Keeps-revert-Returns}
use pixur.Tables.{int, replace}
use pixur.Tables.Pics.{
  pics_table, pics_primary, tags_table, tags_primary, pic_tags_table, pic_tags_primary,
}
use pixur.Tables.Rows.{Returns-bind-find, Returns-bind-update, Returns-internal_call}
use pixur.Auth.Keeps.{Keeps-authed_job}
use pixur.Tags.Tasks.{change_pic_tag_job, change_pic_tag}
use pixur.Tags.Writes.{count_uses, TagsValid, IsCounted-same}

-- A row that is written over with the same key is a use of the same tag.
count_uses-replace :
    (i : ℕ) (pt : PicTag) (pts : List PicTag)
    → count_uses i pts
      ≡ count_uses i (replace (pic_tags_table.key) (int pt.pic_id ∷ int pt.tag_id ∷ []) pt pts)
count_uses-replace i pt [] = refl
count_uses-replace i pt (q ∷ qs) =
    elim (Bool-cases (pt.pic_id == q.pic_id && (pt.tag_id == q.tag_id && true))) [
      | inl hit ↦
          rw (hit, same (pt.pic_id == q.pic_id) pt.tag_id q.tag_id hit)
            (ap (λ n. (if i == q.tag_id then 1 else 0) + n) (count_uses-replace i pt qs))
      | inr miss ↦
          rw miss (ap (λ n. (if i == q.tag_id then 1 else 0) + n) (count_uses-replace i pt qs))
    ]
  where
    same : (r : Bool) (a b : ℕ) → (r && (a == b && true)) ≡ true → a ≡ b
    same r a b e = ground (arith, e)

module _ {E : Type 0} (conf : Configuration) (now : Time) (pic_id tag_id : ℕ) (version : Time)
    (ext : Ext) where
  Returns-change_pic_tag_job :
      (u : Option User) (s : Job E)
      → TagsValid s.tables
      → Returns
          (change_pic_tag_job conf now pic_id tag_id version ext u)
          s
          (λ _ s'. TagsValid s'.tables)
  unfolding change_pic_tag_job
  Returns-change_pic_tag_job u s valid = Returns-bind-require_none s _ _ _ (λ _.
      Returns-bind-find pics_table s _ (pics_primary (record { id = some pic_id })) 1
        (int pic_id ∷ []) _ refl
        (λ fs. Returns-bind-require _ _ _ _ (λ p _.
          Returns-bind-find tags_table _ _ (tags_primary (record { id = some tag_id })) 1
            (int tag_id ∷ []) _ refl
            (λ fs1. Returns-bind-require _ _ _ _ (λ t _.
              Returns-bind-find pic_tags_table _ _
                (pic_tags_primary (record { pic_id = some pic_id; tag_id = some tag_id })) 1
                (int pic_id ∷ int tag_id ∷ []) _ refl
                (λ fs2. Returns-bind-require _ _ _ _ (λ pt _.
                  Returns-bind-require_none _ _ _ _ (λ _.
                    Returns-bind-update pic_tags_table _ _ _ _ (λ fs3.
                      Returns-internal_call _ _ (λ fs4.
                        IsCounted-same _ _ s.tables.tags
                          (λ i.
                            count_uses-replace i (record pt { ext = ext; modified_ts = now })
                              s.tables.pic_tags)
                          valid))))))))))

  pub change_pic_tag-TagsValid :
      (tok : Option (ℕ × ℕ)) (s : Job E)
      → TagsValid s.tables
      → TagsValid (change_pic_tag conf now tok pic_id tag_id version ext s).1.tables
  unfolding change_pic_tag
  change_pic_tag-TagsValid tok =
      Keeps_use E TagsValid (change_pic_tag conf now tok pic_id tag_id version ext) (
        Keeps-bind E TagsValid _ _ (Keeps-authed_job E TagsValid (λ t us h. h) now false tok)
          (λ u. Keeps-revert-Returns E TagsValid _ (Returns-change_pic_tag_job u)))
