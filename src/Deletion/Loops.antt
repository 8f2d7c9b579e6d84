-- ===== src/Deletion/Loops.antt =====
-- be/tasks/purge_pic_task.go: the loops that delete the rows of a picture and release its tags.
use mathlib.Core.Path.{subst}
use pixur.Base.{◌≡◌, ◌∙◌, refl, sym, ap, Option, some, List, [], ◌∷◌, Bool-cases, inl, inr}
use pixur.Schema.{Time, Tables, Tag, PicTag}
use pixur.Job.{Job, Action, ◌>>=◌, or_internal}
use pixur.Job.Returns.{
  Returns, Returns-bind, Returns-weaken, Returns-pure, Returns-bind-require, Returns-or_internal,
}
use pixur.Tables.{Index, vals, int, remove, Table, delete}
use pixur.Tables.Pics.{tags_table, tags_primary, key_for_tag}
use pixur.Tables.Rows.{
  after, Returns-bind-find, Returns-bind-delete, Returns-update, Returns-delete,
}
use pixur.Tables.Removal.{remove_all}
use pixur.Deletion.{for_each, more_than_one, lookup_tags, release_tag}

-- A table whose rows are a part of the tables of their own.
pub record IsLens {R : Type 0} (t : Table R) : Type 0 where
  pub get : (rs : List R) (tables : Tables) → t.rows (t.put_rows rs tables) ≡ rs
  pub put :
      (rs ts : List R) (tables : Tables)
      → t.put_rows rs (t.put_rows ts tables) ≡ t.put_rows rs tables
  pub same : (tables : Tables) → t.put_rows (t.rows tables) tables ≡ tables

module _ {E R : Type 0} (t : Table R) (lens : IsLens t) (idx : R → Index)
    (full : (r : R) → vals (idx r) ≡ some (t.key r)) where
  Returns-delete_each :
      (ds : List R) (s : Job E)
      → Returns
          (for_each (λ r. or_internal (delete t (idx r))) ds)
          s
          (λ _ s'. s'.tables ≡ t.put_rows (remove_all t.key ds (t.rows s.tables)) s.tables)
  unfolding for_each
  Returns-delete_each [] s = Returns-pure _ _ _ (sym (lens.same s.tables))
  Returns-delete_each (d ∷ ds) s = Returns-bind-delete t s _ (idx d) (t.key d) _ (full d) (λ fs.
      let less = remove t.key (t.key d) (t.rows s.tables) in
      Returns-weaken _ _ _ _
        (λ _ s' e.
          e
          ∙ lens.put _ less s.tables
          ∙ ap (λ rs. t.put_rows (remove_all t.key ds rs) s.tables) (lens.get less s.tables))
        (Returns-delete_each ds (after (t.put_rows less s.tables) fs)))

  pub Returns-bind-delete_each :
      {B : Type 0} (ds : List R) (s : Job E) (Q : B → Job E → Type 0) (f : Unit {0} → Action E B)
      → ((fs : List (Option E))
          → Returns
              (f tt)
              (after (t.put_rows (remove_all t.key ds (t.rows s.tables)) s.tables) fs)
              Q)
      → Returns (for_each (λ r. or_internal (delete t (idx r))) ds >>= f) s Q
  Returns-bind-delete_each ds s Q f h =
      Returns-bind (for_each (λ r. or_internal (delete t (idx r))) ds) f s Q (
        Returns-weaken _ s _ _
          (λ _ s' e.
            subst (λ tables. Returns (f tt) (after tables s'.faults) Q) (sym e) (h s'.faults))
          (Returns-delete_each ds s))

-- Only the tags change.
abbrev SameButTags : Tables → Tables → Type 0
SameButTags t t' = t' ≡ record t { tags = t'.tags }

module _ {E : Type 0} where
  Returns-lookup_tags :
      (pts : List PicTag) (s : Job E) → Returns (lookup_tags pts) s (λ _ s'. s'.tables ≡ s.tables)
  unfolding lookup_tags
  Returns-lookup_tags [] s = Returns-pure _ _ _ refl
  Returns-lookup_tags (pt ∷ pts) s =
      Returns-bind-find tags_table s _ (tags_primary (record { id = some pt.tag_id })) 1
        (int pt.tag_id ∷ []) _ refl
        (λ fs. Returns-bind-require _ _ _ _ (λ t found. Returns-bind (lookup_tags pts) _ _ _ (
          Returns-weaken _ _ _ _ (λ ts s' e. Returns-pure _ _ _ e)
            (Returns-lookup_tags pts (after s.tables fs)))))

  Returns-release_tag :
      (now : Time) (t : Tag) (s : Job E)
      → Returns (release_tag now t) s (λ _ s'. SameButTags s.tables s'.tables)
  unfolding release_tag
  Returns-release_tag now t s = elim (Bool-cases (more_than_one t.usage_count)) [
    | inl used ↦ rw used (Returns-or_internal _ s _ (Returns-update tags_table s _ _ (λ fs. refl)))
    | inr last ↦ rw last (
        Returns-or_internal _ s _ (
          Returns-delete tags_table s (tags_primary (key_for_tag t)) (int t.tag_id ∷ []) _ refl
            (λ fs. refl)))
  ]

  Returns-release_tags :
      (now : Time) (ts : List Tag) (s : Job E)
      → Returns (for_each (release_tag now) ts) s (λ _ s'. SameButTags s.tables s'.tables)
  unfolding for_each
  Returns-release_tags now [] s = Returns-pure _ _ _ refl
  Returns-release_tags now (t ∷ ts) s = Returns-bind (release_tag now t) _ s _ (
      Returns-weaken _ s _ _
        (λ _ s1 e1.
          Returns-weaken _ s1 _ _
            (λ _ s2 e2.
              e2 ∙ ap {A = Tables} {B = Tables} (λ x. record x { tags = s2.tables.tags }) e1)
            (Returns-release_tags now ts s1))
        (Returns-release_tag now t s))

  module _ {B : Type 0} (s : Job E) (Q : B → Job E → Type 0) where
    pub Returns-bind-lookup_tags :
        (pts : List PicTag) (f : List Tag → Action E B)
        → ((ts : List Tag) (fs : List (Option E)) → Returns (f ts) (after s.tables fs) Q)
        → Returns (lookup_tags pts >>= f) s Q
    Returns-bind-lookup_tags pts f h = Returns-bind (lookup_tags pts) f s Q (
        Returns-weaken _ s _ _
          (λ ts s' e. subst (λ t. Returns (f ts) (after t s'.faults) Q) (sym e) (h ts s'.faults))
          (Returns-lookup_tags pts s))

    pub Returns-bind-release_tags :
        (now : Time) (ts : List Tag) (f : Unit {0} → Action E B)
        → ((tags : List Tag) (fs : List (Option E))
            → Returns (f tt) (after (record s.tables { tags = tags }) fs) Q)
        → Returns (for_each (release_tag now) ts >>= f) s Q
    Returns-bind-release_tags now ts f h = Returns-bind (for_each (release_tag now) ts) f s Q (
        Returns-weaken _ s _ _
          (λ _ s' e.
            subst (λ t. Returns (f tt) (after t s'.faults) Q) (sym e) (h s'.tables.tags s'.faults))
          (Returns-release_tags now ts s))
