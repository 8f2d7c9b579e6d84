-- ===== src/Tags/Tests.antt =====
-- The tags of the sample picture: one that is there and one that is new.
use pixur.Base.{
  ℕ, ◌≡◌, ◌≤◌, refl, arith, length, true, some, [], ◌∷◌, Bool-cases, inl, inr, ◌==◌, ◌&&◌,
}
use pixur.Base.Int.{pos}
use pixur.Base.Result.{ok, err}
use pixur.CapSet.{cap_set_of, add, cap_intersect, verify_cap_subset, has, size, slice}
use pixur.Text.{validate_and_normalize, normalize, validate, validate_max_bytes}
use pixur.Text.Rules.{
  default_validate, default_validators, to_nfc, checked, to_caseless_nfkc, to_caseless_nfkc_unsafe,
  validate_no_newlines, validate_no_newlines_unsafe, validate_lines, validate_encoding,
  validate_codepoints, validate_runes, validate_decoded, validate_codepoint_unsafe,
}
use pixur.Text.Rules.Tests.{ascii, ascii_ranges}
use pixur.Schema.{Tag, PicTag, User}
use pixur.Job.{
  invalid_argument, ◌>>=◌, pure, raise, require, require_none, call, get_tables, put_tables,
  or_internal, revert, Job, Action,
}
use pixur.Tables.{find, insert, update}
use pixur.Tables.Sample.{sample, sample_user, sample_configuration, sample_job}
use pixur.Auth.{
  validate_and_update_user_and_token, refresh_user, upgrade, authed_round, authed_rounds,
  authed_job, validate_cap_set, validate_capability,
}
use pixur.Tags.Tasks.{
  tag_unique_name, clean_tag, clean_tags, clean_tag_names, unique_names, find_unattached_tag_names,
  tag_ids, find_tags_of, find_attached_pic_tags, find_existing_tags_by_name, update_existing_tags,
  create_new_tags, create_pic_tags, name_ids, build_tag_id_list, upsert_tags, add_pic_tags_job,
  add_pic_tags,
}
use pixur.Tags.Usage.{with_id}
use pixur.Tags.Writes.{TagsValid}
use pixur.Tags.Task.{add_pic_tags-TagsValid}

abbrev soon : ℕ
soon = 300

abbrev tagger : User
tagger = record sample_user { capability = pos 9 ∷ [] }

abbrev tag_b : Tag
tag_b = record { tag_id = 4; name = 98 ∷ []; usage_count = 0; created_ts = 20; modified_ts = 20 }

abbrev tagged : Job ℕ
tagged = record sample_job { tables = record sample { users = tagger ∷ []; tags = tag_b ∷ [] } }

abbrev next_id : Action ℕ ℕ
next_id s = (ok 5, s)

abbrev pic_tag : ℕ → ℕ → PicTag
pic_tag id letter = record {
  pic_id = 3;
  tag_id = id;
  name = letter ∷ [];
  user_id = 7;
  created_ts = soon;
  modified_ts = soon;
  ext = [];
}

abbrev tagged_after : Job ℕ
tagged_after = record sample_job {
  tables = record sample {
    users = tagger ∷ [];
    tags =
        record tag_b { usage_count = 1; modified_ts = soon }
        ∷ record {
          tag_id = 5;
          name = 99 ∷ [];
          usage_count = 1;
          created_ts = soon;
          modified_ts = soon;
        }
        ∷ [];
    pic_tags = pic_tag 4 98 ∷ pic_tag 5 99 ∷ [];
  };
}

run_tagged :
    add_pic_tags ascii ascii_ranges next_id soon sample_configuration
      (some (7, 1))
      3
      ((99 ∷ []) ∷ (98 ∷ []) ∷ [])
      tagged
    ≡ (ok ((98 ∷ [], 4) ∷ (99 ∷ [], 5) ∷ []), tagged_after)
unfolding tag_unique_name clean_tag clean_tags clean_tag_names unique_names
    find_unattached_tag_names tag_ids find_tags_of find_attached_pic_tags find_existing_tags_by_name
    update_existing_tags create_new_tags create_pic_tags name_ids build_tag_id_list upsert_tags
    add_pic_tags_job add_pic_tags default_validate default_validators validate_and_normalize
    normalize to_nfc checked to_caseless_nfkc to_caseless_nfkc_unsafe validate validate_max_bytes
    validate_no_newlines validate_no_newlines_unsafe validate_lines validate_encoding
    validate_codepoints validate_runes validate_decoded validate_codepoint_unsafe authed_job
    authed_rounds authed_round validate_and_update_user_and_token refresh_user upgrade
    validate_cap_set validate_capability cap_set_of add cap_intersect verify_cap_subset has size
    slice find insert update ◌>>=◌ pure raise require require_none call get_tables put_tables
    or_internal revert
run_tagged = refl

-- One name twice.
run_duplicate :
    add_pic_tags ascii ascii_ranges next_id soon sample_configuration
      (some (7, 1))
      3
      ((99 ∷ []) ∷ (99 ∷ []) ∷ [])
      tagged
    ≡ (err invalid_argument, tagged)
unfolding tag_unique_name clean_tag clean_tags clean_tag_names unique_names
    find_unattached_tag_names tag_ids find_tags_of find_attached_pic_tags find_existing_tags_by_name
    update_existing_tags create_new_tags create_pic_tags name_ids build_tag_id_list upsert_tags
    add_pic_tags_job add_pic_tags default_validate default_validators validate_and_normalize
    normalize to_nfc checked to_caseless_nfkc to_caseless_nfkc_unsafe validate validate_max_bytes
    validate_no_newlines validate_no_newlines_unsafe validate_lines validate_encoding
    validate_codepoints validate_runes validate_decoded validate_codepoint_unsafe authed_job
    authed_rounds authed_round validate_and_update_user_and_token refresh_user upgrade
    validate_cap_set validate_capability cap_set_of add cap_intersect verify_cap_subset has size
    slice find insert update ◌>>=◌ pure raise require require_none call get_tables put_tables
    or_internal revert
run_duplicate = refl

tagged-TagsValid : TagsValid tagged.tables
tagged-TagsValid = record { once = λ i. one i; counted = (refl, tt); known = λ i unknown. refl }
  where
    one : (i : ℕ) → length (with_id i (tag_b ∷ [])) ≤ 1
    one i = elim (Bool-cases (i == 4 && true)) [
      | inl hit ↦ rw hit (omega arith)
      | inr miss ↦ rw miss (omega arith)
    ]

add_pic_tags-TagsValid_example :
    TagsValid
      (add_pic_tags ascii ascii_ranges next_id soon sample_configuration
        (some (7, 1))
        3
        ((99 ∷ []) ∷ (98 ∷ []) ∷ [])
        tagged).1.tables
add_pic_tags-TagsValid_example =
    add_pic_tags-TagsValid ascii ascii_ranges next_id (λ s. refl) soon sample_configuration
      (some (7, 1)) 3 ((99 ∷ []) ∷ (98 ∷ []) ∷ []) tagged tagged-TagsValid
