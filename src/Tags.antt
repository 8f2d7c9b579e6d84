-- ===== src/Tags.antt =====
-- be/tasks/add_pic_tags_task.go, be/schema/tag.go: tags on pictures, with the counters of their use. The
-- source of new ids is a parameter; the maps of the code are lists with the newest entry first.
pub mod Tasks
pub mod Usage
pub mod Names
pub mod Writes
pub mod Finds
pub mod Task
pub mod Edits
pub mod Tests
use pixur.Base.{ℕ, Bool, false, ◌||◌, Option, none, some, List, [], ◌∷◌, if◌then◌else◌}
use pixur.Base.Int.{pos}
use pixur.CapSet.{Capability}
use pixur.Text.{Text, Library}
use pixur.Text.Rules.{to_caseless_nfkc_unsafe}
use pixur.Schema.{Time, Tag, PicTag}
use pixur.Job.{invalid_argument}
use pixur.Tables.{bytes, eqb_bytes, Table}
use pixur.Tables.Pics.{tags_table}
use pixur.Votes.{increment}

abbrev pub pic_tag_create : Capability
pic_tag_create = pos 9

-- `tagNameAndUniq`
pub record TagNameAndUniq : Type 0 where
  pub name : Text
  pub orig : Text
  pub uniq : Text

abbrev pub contains_text : List Text → Text → Bool
contains_text [] k = false
contains_text (s ∷ ss) k = eqb_bytes s k || contains_text ss k

-- `validateNoDuplicateTags`, behind the texts that were seen.
abbrev pub validate_no_duplicate_tags :
    {E : Type 0} → List Text → List TagNameAndUniq → Option (pixur.Job.Status E)
validate_no_duplicate_tags seen [] = none
validate_no_duplicate_tags seen (tn ∷ tns) =
    if contains_text seen tn.uniq
    then some invalid_argument
    else validate_no_duplicate_tags (tn.uniq ∷ seen) tns

-- The names that no attached tag has.
abbrev pub unattached : List Text → List TagNameAndUniq → List TagNameAndUniq
unattached attached [] = []
unattached attached (tn ∷ tns) =
    if contains_text attached tn.uniq then unattached attached tns else tn ∷ unattached attached tns

-- `len(ts) == 1`
abbrev pub sort_found :
    TagNameAndUniq → List Tag → List Tag × List TagNameAndUniq → List Tag × List TagNameAndUniq
sort_found tn [] (tags, unknown) = (tags, tn ∷ unknown)
sort_found tn (t ∷ []) (tags, unknown) = (t ∷ tags, unknown)
sort_found tn (t ∷ u ∷ ts) (tags, unknown) = (tags, tn ∷ unknown)

-- An existing tag that gets one more use.
abbrev pub used_again : Time → Tag → Tag
used_again now t = record t { modified_ts = now; usage_count = increment t.usage_count }

abbrev pub new_tag : Time → ℕ → Text → Tag
new_tag now id name = record {
  tag_id = id;
  name = name;
  usage_count = 1;
  created_ts = now;
  modified_ts = now;
}

abbrev pub new_pic_tag : ℕ → Time → ℕ → Tag → PicTag
new_pic_tag pic_id now user_id t = record {
  pic_id = pic_id;
  tag_id = t.tag_id;
  name = t.name;
  user_id = user_id;
  created_ts = now;
  modified_ts = now;
  ext = [];
}

-- A map from texts to ids.
abbrev pub id_of : Text → List (Text × ℕ) → Option ℕ
id_of k [] = none
id_of k (entry ∷ entries) = if eqb_bytes (entry.0) k then some (entry.1) else id_of k entries

abbrev pub is_in : Text → List (Text × ℕ) → Bool
is_in k [] = false
is_in k (entry ∷ entries) = eqb_bytes (entry.0) k || is_in k entries

-- The index `TagsName`.
abbrev pub tags_name_table : Library → Table Tag
tags_name_table lib = record tags_table {
  key = λ r. bytes (to_caseless_nfkc_unsafe lib r.name) ∷ [];
}

abbrev pub pic_tag_extension_create : Capability
pic_tag_extension_create = pos 19
