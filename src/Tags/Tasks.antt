-- ===== src/Tags/Tasks.antt =====
-- be/tasks/add_pic_tags_task.go, be/tasks/update_pic_tag_task.go, be/schema/tag.go: the tasks on tags.
use pixur.Base.{ℕ, false, not, Option, none, some, List, [], ◌∷◌, ◌++◌, ◌==◌}
use pixur.Base.Int.{ℤ}
use pixur.Base.Result.{Result, ok}
use pixur.Text.{Text, Library, Ranges, TextValidator, validate_and_normalize}
use pixur.Text.Rules.{to_nfc, default_validate, validate_no_newlines, to_caseless_nfkc}
use pixur.Schema.{Time, Ext, Tag, PicTag, User, Configuration}
use pixur.Job.{
  aborted, internal, invalid_argument, not_found, from, Action, pure, ◌>>=◌, ◌>>◌, require,
  require_none, call, or_internal, revert,
}
use pixur.Tables.{bytes, column, find}
use pixur.Tables.Pics.{
  update_pic_tag, find_pics, find_tags, insert_tag, update_tag, find_pic_tags, insert_pic_tag,
}
use pixur.Auth.{single, authed_job, validate_capability, user_id_of}
use pixur.Votes.{hard_deleted, refuse_if}
use pixur.Users.{min_bound, max_bound, or_invalid, or_panic, or_refused}
use pixur.Tags.{
  pic_tag_create, TagNameAndUniq, validate_no_duplicate_tags, unattached, sort_found, used_again,
  new_tag, new_pic_tag, id_of, is_in, tags_name_table, pic_tag_extension_create,
}

module _ {E : Type 0} (lib : Library) (ranges : Ranges) where
  -- `TagUniqueName`
  unfoldable pub tag_unique_name : Text → Result (pixur.Job.Status E) Text
  tag_unique_name s = or_panic (to_caseless_nfkc {E = E} lib ranges s (b't' ∷ b'a' ∷ b'g' ∷ []))

  -- One round of `cleanTagNames`.
  unfoldable pub clean_tag : ℤ → ℤ → Text → Result (pixur.Job.Status E) Text
  clean_tag min max raw =
      let validators : List (TextValidator E) =
        default_validate lib ranges min max ∷ validate_no_newlines lib ranges ∷ [] in
      or_invalid (
        validate_and_normalize (to_nfc lib ranges ∷ (λ txt _. ok (lib.trim_space txt)) ∷ [])
          validators validators raw (b't' ∷ b'a' ∷ b'g' ∷ []))

  unfoldable pub clean_tags : ℤ → ℤ → List Text → Action E (List TagNameAndUniq)
  clean_tags min max [] = pure []
  clean_tags min max (raw ∷ raws) = do
    name ← require (clean_tag min max raw)
    uniq ← require (tag_unique_name name)
    tns ← clean_tags min max raws
    pure (record { name = name; orig = raw; uniq = uniq } ∷ tns)

  -- `cleanTagNames`
  unfoldable pub clean_tag_names : ℤ → ℤ → List Text → Action E (List TagNameAndUniq)
  clean_tag_names min max raws = do
    tns ← clean_tags min max raws
    require_none (validate_no_duplicate_tags [] tns)
    pure tns

  unfoldable pub unique_names : List Tag → Action E (List Text)
  unique_names [] = pure []
  unique_names (t ∷ ts) = do
    uniq ← require (tag_unique_name t.name)
    uniqs ← unique_names ts
    pure (uniq ∷ uniqs)

  -- `findUnattachedTagNames`
  unfoldable pub find_unattached_tag_names :
      List Tag → List TagNameAndUniq → Action E (List TagNameAndUniq)
  find_unattached_tag_names attached tns = do
    names ← unique_names attached
    pure (unattached names tns)

  -- One loop over tags of `buildTagIdList`.
  unfoldable pub tag_ids : List Tag → List (Text × ℕ) → Action E (List (Text × ℕ))
  tag_ids [] entries = pure entries
  tag_ids (t ∷ ts) entries = do
    uniq ← require (tag_unique_name t.name)
    require_none (refuse_if (is_in uniq entries) internal)
    tag_ids ts ((uniq, t.tag_id) ∷ entries)

module _ {E : Type 0} where
  -- The tags of the rows of `findAttachedPicTags`.
  unfoldable pub find_tags_of : List PicTag → Action E (List Tag)
  find_tags_of [] = pure []
  find_tags_of (pt ∷ pts) = do
    found ← or_internal (find_tags (record { id = some pt.tag_id }) 1)
    t ← require (single internal found)
    ts ← find_tags_of pts
    pure (t ∷ ts)

  -- `findAttachedPicTags`
  unfoldable pub find_attached_pic_tags : ℕ → Action E (List Tag)
  find_attached_pic_tags pic_id = do
    pts ← or_internal (find_pic_tags (record { pic_id = some pic_id; tag_id = none }) 0)
    find_tags_of pts

  -- `findExistingTagsByName`: the tags, and the names without one.
  unfoldable pub find_existing_tags_by_name :
      Library → List TagNameAndUniq → Action E (List Tag × List TagNameAndUniq)
  find_existing_tags_by_name lib [] = pure ([], [])
  find_existing_tags_by_name lib (tn ∷ tns) = do
    found ← or_internal (find (tags_name_table lib) (column bytes (some tn.uniq) ∷ []) 1)
    rest ← find_existing_tags_by_name lib tns
    pure (sort_found tn found rest)

  -- `updateExistingTags`, with the tags as they are then.
  unfoldable pub update_existing_tags : Time → List Tag → Action E (List Tag)
  update_existing_tags now [] = pure []
  update_existing_tags now (t ∷ ts) = do
    or_internal (update_tag (used_again now t))
    us ← update_existing_tags now ts
    pure (used_again now t ∷ us)

  -- `createNewTags`
  unfoldable pub create_new_tags : Action E ℕ → Time → List TagNameAndUniq → Action E (List Tag)
  create_new_tags alloc_id now [] = pure []
  create_new_tags alloc_id now (tn ∷ tns) = do
    id ← or_internal alloc_id
    or_internal (insert_tag (new_tag now id tn.name))
    ts ← create_new_tags alloc_id now tns
    pure (new_tag now id tn.name ∷ ts)

  -- `createPicTags`
  unfoldable pub create_pic_tags : ℕ → Time → ℕ → List Tag → Action E (List PicTag)
  create_pic_tags pic_id now user_id [] = pure []
  create_pic_tags pic_id now user_id (t ∷ ts) = do
    or_internal (insert_pic_tag (new_pic_tag pic_id now user_id t))
    pts ← create_pic_tags pic_id now user_id ts
    pure (new_pic_tag pic_id now user_id t ∷ pts)

  -- The loop over names of `buildTagIdList`.
  unfoldable pub name_ids :
      List TagNameAndUniq → List (Text × ℕ) → List (Text × ℕ) → Action E (List (Text × ℕ))
  name_ids [] ids names = pure names
  name_ids (tn ∷ tns) ids names = do
    id ← require (or_refused internal (id_of tn.uniq ids))
    require_none (refuse_if (is_in tn.uniq names) internal)
    name_ids tns ids ((tn.orig, id) ∷ names)

module _ {E : Type 0} (lib : Library) (ranges : Ranges) where
  -- `buildTagIdList`
  unfoldable pub build_tag_id_list :
      List TagNameAndUniq → List Tag → List Tag → Action E (List (Text × ℕ))
  build_tag_id_list tns existing created = do
    ids ← tag_ids lib ranges existing []
    all_ids ← tag_ids lib ranges created ids
    name_ids tns all_ids []

  module _ (alloc_id : Action E ℕ) (now : Time) where
    -- `upsertTags`
    unfoldable pub upsert_tags : List Text → ℕ → ℕ → ℤ → ℤ → Action E (List (Text × ℕ))
    upsert_tags raws pic_id user_id min max = do
      tns ← clean_tag_names lib ranges min max raws
      attached ← find_attached_pic_tags pic_id
      missing ← find_unattached_tag_names lib ranges attached tns
      found ← find_existing_tags_by_name lib missing
      existing ← update_existing_tags now (found.0)
      created ← create_new_tags alloc_id now (found.1)
      pts ← create_pic_tags pic_id now user_id (existing ++ created)
      build_tag_id_list tns attached (existing ++ created)

    -- `AddPicTagsTask.Run` in its transaction, with the user known.
    unfoldable pub add_pic_tags_job :
        Configuration → ℕ → List Text → Option User → Action E (List (Text × ℕ))
    add_pic_tags_job conf pic_id raws u = do
      require_none (validate_capability u conf (pic_tag_create ∷ []))
      pics ← or_internal (find_pics (record { id = some pic_id }) 0)
      p ← require (single not_found pics)
      require_none (refuse_if (hard_deleted p) invalid_argument)
      ids ←
          upsert_tags raws p.pic_id (user_id_of u) (min_bound conf.min_tag_length)
            (max_bound conf.max_tag_length)
      or_internal (call from)
      pure ids

    -- `AddPicTagsTask.Run`: the map from the names to the ids of their tags.
    unfoldable pub add_pic_tags :
        Configuration → Option (ℕ × ℕ) → ℕ → List Text → Action E (List (Text × ℕ))
    add_pic_tags conf tok pic_id raws = do
      u ← authed_job now false tok
      revert (add_pic_tags_job conf pic_id raws u)

module _ {E : Type 0} (conf : Configuration) (now : Time) where
  -- `UpdatePicTagTask.Run` in its transaction, with the user known.
  unfoldable pub change_pic_tag_job : ℕ → ℕ → Time → Ext → Option User → Action E (Unit {0})
  change_pic_tag_job pic_id tag_id version ext u = do
    require_none (validate_capability u conf (pic_tag_extension_create ∷ []))
    ps ← or_internal (find_pics (record { id = some pic_id }) 1)
    p ← require (single not_found ps)
    ts ← or_internal (find_tags (record { id = some tag_id }) 1)
    t ← require (single not_found ts)
    pts ← or_internal (find_pic_tags (record { pic_id = some pic_id; tag_id = some tag_id }) 1)
    pt ← require (single not_found pts)
    require_none (refuse_if (not (pt.modified_ts == version)) aborted)
    or_internal (update_pic_tag (record pt { ext = ext; modified_ts = now }))
    or_internal (call from)

  -- `UpdatePicTagTask.Run`
  unfoldable pub change_pic_tag : Option (ℕ × ℕ) → ℕ → ℕ → Time → Ext → Action E (Unit {0})
  change_pic_tag tok pic_id tag_id version ext = do
    u ← authed_job now false tok
    revert (change_pic_tag_job pic_id tag_id version ext u)
