-- ===== src/Tags/Finds.antt =====
-- be/tasks/add_pic_tags_task.go: the steps that only read, and what they find.
use pixur.Base.{ℕ, ◌≡◌, ◌∙◌, refl, none, some, List, [], ◌∷◌}
use pixur.Base.Int.{ℤ}
use pixur.Text.{Text, Library, Ranges}
use pixur.Schema.{Tag, PicTag}
use pixur.Job.{Job}
use pixur.Job.Returns.{
  Returns, Returns-bind, Returns-weaken, Returns-pure, Returns-bind-require,
  Returns-bind-require_none,
}
use pixur.Tables.{int, bytes, column}
use pixur.Tables.Pics.{tags_table, tags_primary, pic_tags_table, pic_tags_primary}
use pixur.Tables.Rows.{after, Returns-bind-find}
use pixur.Tags.{TagNameAndUniq, tags_name_table}
use pixur.Tags.Tasks.{
  clean_tags, clean_tag_names, unique_names, find_unattached_tag_names, tag_ids, find_tags_of,
  find_attached_pic_tags, find_existing_tags_by_name, name_ids, build_tag_id_list,
}
use pixur.Tags.Usage.{IsCounted}
use pixur.Tags.Names.{
  NamesDistinct, validate_no_duplicate_tags-NamesDistinct, unattached-NamesDistinct, FoundFor,
  sort_found-FoundFor,
}

module _ {E : Type 0} where
  Returns-clean_tags :
      (lib : Library) (ranges : Ranges) (min max : ℤ) (raws : List Text) (s : Job E)
      → Returns (clean_tags lib ranges min max raws) s (λ _ s'. s'.tables ≡ s.tables)
  unfolding clean_tags
  Returns-clean_tags lib ranges min max [] s = Returns-pure _ _ _ refl
  Returns-clean_tags lib ranges min max (raw ∷ raws) s = Returns-bind-require s _ _ _ (λ name _.
      Returns-bind-require s _ _ _ (λ uniq _.
        Returns-bind (clean_tags lib ranges min max raws) _ s _ (
          Returns-weaken _ s _ _ (λ tns s' same. Returns-pure _ _ _ same)
            (Returns-clean_tags lib ranges min max raws s))))

  pub Returns-clean_tag_names :
      (lib : Library) (ranges : Ranges) (min max : ℤ) (raws : List Text) (s : Job E)
      → Returns
          (clean_tag_names lib ranges min max raws)
          s
          (λ tns s'. NamesDistinct tns × (s'.tables ≡ s.tables))
  unfolding clean_tag_names
  Returns-clean_tag_names lib ranges min max raws s =
      Returns-bind (clean_tags lib ranges min max raws) _ s _ (
        Returns-weaken _ s _ _
          (λ tns s' same. Returns-bind-require_none s' _ _ _ (λ e.
            Returns-pure _ _ _ (validate_no_duplicate_tags-NamesDistinct {E = E} tns e, same)))
          (Returns-clean_tags lib ranges min max raws s))

  Returns-find_tags_of :
      (pts : List PicTag) (s : Job E) → Returns (find_tags_of pts) s (λ _ s'. s'.tables ≡ s.tables)
  unfolding find_tags_of
  Returns-find_tags_of [] s = Returns-pure _ _ _ refl
  Returns-find_tags_of (pt ∷ pts) s =
      Returns-bind-find tags_table s _ (tags_primary (record { id = some pt.tag_id })) 1
        (int pt.tag_id ∷ []) _ refl
        (λ fs. Returns-bind-require _ _ _ _ (λ t _. Returns-bind (find_tags_of pts) _ _ _ (
          Returns-weaken _ _ _ _ (λ ts s' same. Returns-pure _ _ _ same)
            (Returns-find_tags_of pts _))))

  pub Returns-find_attached_pic_tags :
      (pic_id : ℕ) (s : Job E)
      → Returns (find_attached_pic_tags pic_id) s (λ _ s'. s'.tables ≡ s.tables)
  unfolding find_attached_pic_tags
  Returns-find_attached_pic_tags pic_id s =
      Returns-bind-find pic_tags_table s _
        (pic_tags_primary (record { pic_id = some pic_id; tag_id = none })) 0 (int pic_id ∷ []) _
        refl (λ fs. Returns-find_tags_of _ _)

  Returns-unique_names :
      (lib : Library) (ranges : Ranges) (ts : List Tag) (s : Job E)
      → Returns (unique_names lib ranges ts) s (λ _ s'. s'.tables ≡ s.tables)
  unfolding unique_names
  Returns-unique_names lib ranges [] s = Returns-pure _ _ _ refl
  Returns-unique_names lib ranges (t ∷ ts) s = Returns-bind-require s _ _ _ (λ uniq _.
      Returns-bind (unique_names lib ranges ts) _ s _ (
        Returns-weaken _ s _ _ (λ us s' same. Returns-pure _ _ _ same)
          (Returns-unique_names lib ranges ts s)))

  pub Returns-find_unattached_tag_names :
      (lib : Library) (ranges : Ranges) (attached : List Tag) (tns : List TagNameAndUniq)
      (s : Job E)
      → NamesDistinct tns
      → Returns
          (find_unattached_tag_names lib ranges attached tns)
          s
          (λ missing s'. NamesDistinct missing × (s'.tables ≡ s.tables))
  unfolding find_unattached_tag_names
  Returns-find_unattached_tag_names lib ranges attached tns s d =
      Returns-bind (unique_names lib ranges attached) _ s _ (
        Returns-weaken _ s _ _
          (λ names s' same. Returns-pure _ _ _ (unattached-NamesDistinct names tns d, same))
          (Returns-unique_names lib ranges attached s))

  pub Returns-find_existing_tags_by_name :
      (lib : Library) (uses : ℕ → ℕ) (tns : List TagNameAndUniq) (s : Job E)
      (c : IsCounted uses s.tables.tags)
      → Returns
          (find_existing_tags_by_name lib tns)
          s
          (λ found s'. FoundFor lib s.tables.tags uses c tns (found.0) × (s'.tables ≡ s.tables))
  unfolding find_existing_tags_by_name
  Returns-find_existing_tags_by_name lib uses [] s c = Returns-pure _ _ _ (tt, refl)
  Returns-find_existing_tags_by_name lib uses (tn ∷ tns) s c =
      Returns-bind-find (tags_name_table lib) s _ (column bytes (some tn.uniq) ∷ []) 1
        (bytes tn.uniq ∷ []) _ refl
        (λ fs. Returns-bind (find_existing_tags_by_name lib tns) _ _ _ (
          Returns-weaken _ _ _ _
            (λ rest s' (f, same).
              Returns-pure _ _ _ (sort_found-FoundFor lib s.tables.tags uses c tn tns rest f, same))
            (Returns-find_existing_tags_by_name lib uses tns (after s.tables fs) c)))

  Returns-tag_ids :
      (lib : Library) (ranges : Ranges) (ts : List Tag) (ids : List (Text × ℕ)) (s : Job E)
      → Returns (tag_ids lib ranges ts ids) s (λ _ s'. s'.tables ≡ s.tables)
  unfolding tag_ids
  Returns-tag_ids lib ranges [] ids s = Returns-pure _ _ _ refl
  Returns-tag_ids lib ranges (t ∷ ts) ids s =
      Returns-bind-require s _ _ _
        (λ uniq _. Returns-bind-require_none s _ _ _ (λ _. Returns-tag_ids lib ranges ts _ s))

  Returns-name_ids :
      (tns : List TagNameAndUniq) (ids names : List (Text × ℕ)) (s : Job E)
      → Returns (name_ids tns ids names) s (λ _ s'. s'.tables ≡ s.tables)
  unfolding name_ids
  Returns-name_ids [] ids names s = Returns-pure _ _ _ refl
  Returns-name_ids (tn ∷ tns) ids names s =
      Returns-bind-require s _ _ _
        (λ id _. Returns-bind-require_none s _ _ _ (λ _. Returns-name_ids tns ids _ s))

  pub Returns-build_tag_id_list :
      (lib : Library) (ranges : Ranges) (tns : List TagNameAndUniq) (existing created : List Tag)
      (s : Job E)
      → Returns (build_tag_id_list lib ranges tns existing created) s (λ _ s'. s'.tables ≡ s.tables)
  unfolding build_tag_id_list
  Returns-build_tag_id_list lib ranges tns existing created s =
      Returns-bind (tag_ids lib ranges existing []) _ s _ (
        Returns-weaken _ s _ _
          (λ ids s1 same. Returns-bind (tag_ids lib ranges created ids) _ s1 _ (
            Returns-weaken _ s1 _ _
              (λ all_ids s2 same1.
                Returns-weaken _ s2 _ _ (λ names s3 same2. same2 ∙ same1 ∙ same)
                  (Returns-name_ids tns all_ids [] s2))
              (Returns-tag_ids lib ranges created ids s1)))
          (Returns-tag_ids lib ranges existing [] s))
