-- ===== src/Tables/Pics.antt =====
-- be/schema/tables/tables.tab.go: the tables of pictures, tags and identities. A `…Primary` is the index on the primary key,
-- with nil for the columns that are not named.
use pixur.Base.{ℕ, Option, some, List, [], ◌∷◌}
use pixur.Schema.{Pic, Tag, PicTag, PicIdent}
use pixur.Job.{Action}
use pixur.Tables.{Index, column, int, bytes, Table, find, insert, update, delete}

pub record PicsPrimary : Type 0 where
  pub id : Option ℕ

-- `PicsPrimary.Vals` is `vals` of these columns.
abbrev pub pics_primary : PicsPrimary → Index
pics_primary idx = column int idx.id ∷ []

abbrev pub pics_table : Table Pic
pics_table = record {
  rows = λ t. t.pics;
  put_rows = λ rs t. record t { pics = rs };
  key = λ r. int r.pic_id ∷ [];
}

-- `KeyForPic`
abbrev pub key_for_pic : Pic → PicsPrimary
key_for_pic pb = record { id = some pb.pic_id }

abbrev pub find_pics : {E : Type 0} → PicsPrimary → ℕ → Action E (List Pic)
find_pics idx limit = find pics_table (pics_primary idx) limit

abbrev pub insert_pic : {E : Type 0} → Pic → Action E (Unit {0})
insert_pic pb = insert pics_table pb

abbrev pub update_pic : {E : Type 0} → Pic → Action E (Unit {0})
update_pic pb = update pics_table pb

abbrev pub delete_pic : {E : Type 0} → PicsPrimary → Action E (Unit {0})
delete_pic key = delete pics_table (pics_primary key)

pub record TagsPrimary : Type 0 where
  pub id : Option ℕ

-- `TagsPrimary.Vals` is `vals` of these columns.
abbrev pub tags_primary : TagsPrimary → Index
tags_primary idx = column int idx.id ∷ []

abbrev pub tags_table : Table Tag
tags_table = record {
  rows = λ t. t.tags;
  put_rows = λ rs t. record t { tags = rs };
  key = λ r. int r.tag_id ∷ [];
}

-- `KeyForTag`
abbrev pub key_for_tag : Tag → TagsPrimary
key_for_tag pb = record { id = some pb.tag_id }

abbrev pub find_tags : {E : Type 0} → TagsPrimary → ℕ → Action E (List Tag)
find_tags idx limit = find tags_table (tags_primary idx) limit

abbrev pub insert_tag : {E : Type 0} → Tag → Action E (Unit {0})
insert_tag pb = insert tags_table pb

abbrev pub update_tag : {E : Type 0} → Tag → Action E (Unit {0})
update_tag pb = update tags_table pb

abbrev pub delete_tag : {E : Type 0} → TagsPrimary → Action E (Unit {0})
delete_tag key = delete tags_table (tags_primary key)

pub record PicTagsPrimary : Type 0 where
  pub pic_id : Option ℕ
  pub tag_id : Option ℕ

-- `PicTagsPrimary.Vals` is `vals` of these columns.
abbrev pub pic_tags_primary : PicTagsPrimary → Index
pic_tags_primary idx = column int idx.pic_id ∷ column int idx.tag_id ∷ []

abbrev pub pic_tags_table : Table PicTag
pic_tags_table = record {
  rows = λ t. t.pic_tags;
  put_rows = λ rs t. record t { pic_tags = rs };
  key = λ r. int r.pic_id ∷ int r.tag_id ∷ [];
}

-- `KeyForPicTag`
abbrev pub key_for_pic_tag : PicTag → PicTagsPrimary
key_for_pic_tag pb = record { pic_id = some pb.pic_id; tag_id = some pb.tag_id }

abbrev pub find_pic_tags : {E : Type 0} → PicTagsPrimary → ℕ → Action E (List PicTag)
find_pic_tags idx limit = find pic_tags_table (pic_tags_primary idx) limit

abbrev pub insert_pic_tag : {E : Type 0} → PicTag → Action E (Unit {0})
insert_pic_tag pb = insert pic_tags_table pb

abbrev pub update_pic_tag : {E : Type 0} → PicTag → Action E (Unit {0})
update_pic_tag pb = update pic_tags_table pb

abbrev pub delete_pic_tag : {E : Type 0} → PicTagsPrimary → Action E (Unit {0})
delete_pic_tag key = delete pic_tags_table (pic_tags_primary key)

pub record PicIdentsPrimary : Type 0 where
  pub pic_id : Option ℕ
  pub key_type : Option ℕ
  pub value : Option (List ℕ)

-- `PicIdentsPrimary.Vals` is `vals` of these columns.
abbrev pub pic_idents_primary : PicIdentsPrimary → Index
pic_idents_primary idx =
    column int idx.pic_id ∷ column int idx.key_type ∷ column bytes idx.value ∷ []

abbrev pub pic_idents_table : Table PicIdent
pic_idents_table = record {
  rows = λ t. t.pic_idents;
  put_rows = λ rs t. record t { pic_idents = rs };
  key = λ r. int r.pic_id ∷ int r.ident_type ∷ bytes r.value ∷ [];
}

-- `KeyForPicIdent`
abbrev pub key_for_pic_ident : PicIdent → PicIdentsPrimary
key_for_pic_ident pb = record {
  pic_id = some pb.pic_id;
  key_type = some pb.ident_type;
  value = some pb.value;
}

abbrev pub find_pic_idents : {E : Type 0} → PicIdentsPrimary → ℕ → Action E (List PicIdent)
find_pic_idents idx limit = find pic_idents_table (pic_idents_primary idx) limit

abbrev pub insert_pic_ident : {E : Type 0} → PicIdent → Action E (Unit {0})
insert_pic_ident pb = insert pic_idents_table pb

abbrev pub update_pic_ident : {E : Type 0} → PicIdent → Action E (Unit {0})
update_pic_ident pb = update pic_idents_table pb

abbrev pub delete_pic_ident : {E : Type 0} → PicIdentsPrimary → Action E (Unit {0})
delete_pic_ident key = delete pic_idents_table (pic_idents_primary key)
