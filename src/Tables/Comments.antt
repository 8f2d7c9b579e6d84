-- ===== src/Tables/Comments.antt =====
-- be/schema/tables/tables.tab.go: the tables of comments and votes. A `…Primary` is the index on the primary key,
-- with nil for the columns that are not named.
use pixur.Base.{ℕ, Option, some, List, [], ◌∷◌}
use pixur.Schema.{PicComment, PicVote, PicCommentVote}
use pixur.Job.{Action}
use pixur.Tables.{Index, column, int, Table, find, insert, update, delete}

pub record PicCommentsPrimary : Type 0 where
  pub pic_id : Option ℕ
  pub comment_id : Option ℕ

-- `PicCommentsPrimary.Vals` is `vals` of these columns.
abbrev pub pic_comments_primary : PicCommentsPrimary → Index
pic_comments_primary idx = column int idx.pic_id ∷ column int idx.comment_id ∷ []

abbrev pub pic_comments_table : Table PicComment
pic_comments_table = record {
  rows = λ t. t.pic_comments;
  put_rows = λ rs t. record t { pic_comments = rs };
  key = λ r. int r.pic_id ∷ int r.comment_id ∷ [];
}

-- `KeyForPicComment`
abbrev pub key_for_pic_comment : PicComment → PicCommentsPrimary
key_for_pic_comment pb = record { pic_id = some pb.pic_id; comment_id = some pb.comment_id }

abbrev pub find_pic_comments : {E : Type 0} → PicCommentsPrimary → ℕ → Action E (List PicComment)
find_pic_comments idx limit = find pic_comments_table (pic_comments_primary idx) limit

abbrev pub insert_pic_comment : {E : Type 0} → PicComment → Action E (Unit {0})
insert_pic_comment pb = insert pic_comments_table pb

abbrev pub update_pic_comment : {E : Type 0} → PicComment → Action E (Unit {0})
update_pic_comment pb = update pic_comments_table pb

abbrev pub delete_pic_comment : {E : Type 0} → PicCommentsPrimary → Action E (Unit {0})
delete_pic_comment key = delete pic_comments_table (pic_comments_primary key)

pub record PicVotesPrimary : Type 0 where
  pub pic_id : Option ℕ
  pub user_id : Option ℕ
  pub index : Option ℕ

-- `PicVotesPrimary.Vals` is `vals` of these columns.
abbrev pub pic_votes_primary : PicVotesPrimary → Index
pic_votes_primary idx = column int idx.pic_id ∷ column int idx.user_id ∷ column int idx.index ∷ []

abbrev pub pic_votes_table : Table PicVote
pic_votes_table = record {
  rows = λ t. t.pic_votes;
  put_rows = λ rs t. record t { pic_votes = rs };
  key = λ r. int r.pic_id ∷ int r.user_id ∷ int r.index ∷ [];
}

-- `KeyForPicVote`
abbrev pub key_for_pic_vote : PicVote → PicVotesPrimary
key_for_pic_vote pb = record {
  pic_id = some pb.pic_id;
  user_id = some pb.user_id;
  index = some pb.index;
}

abbrev pub find_pic_votes : {E : Type 0} → PicVotesPrimary → ℕ → Action E (List PicVote)
find_pic_votes idx limit = find pic_votes_table (pic_votes_primary idx) limit

abbrev pub insert_pic_vote : {E : Type 0} → PicVote → Action E (Unit {0})
insert_pic_vote pb = insert pic_votes_table pb

abbrev pub update_pic_vote : {E : Type 0} → PicVote → Action E (Unit {0})
update_pic_vote pb = update pic_votes_table pb

abbrev pub delete_pic_vote : {E : Type 0} → PicVotesPrimary → Action E (Unit {0})
delete_pic_vote key = delete pic_votes_table (pic_votes_primary key)

pub record PicCommentVotesPrimary : Type 0 where
  pub pic_id : Option ℕ
  pub comment_id : Option ℕ
  pub user_id : Option ℕ
  pub index : Option ℕ

-- `PicCommentVotesPrimary.Vals` is `vals` of these columns.
abbrev pub pic_comment_votes_primary : PicCommentVotesPrimary → Index
pic_comment_votes_primary idx =
    column int idx.pic_id
    ∷ column int idx.comment_id
    ∷ column int idx.user_id
    ∷ column int idx.index
    ∷ []

abbrev pub pic_comment_votes_table : Table PicCommentVote
pic_comment_votes_table = record {
  rows = λ t. t.pic_comment_votes;
  put_rows = λ rs t. record t { pic_comment_votes = rs };
  key = λ r. int r.pic_id ∷ int r.comment_id ∷ int r.user_id ∷ int r.index ∷ [];
}

-- `KeyForPicCommentVote`
abbrev pub key_for_pic_comment_vote : PicCommentVote → PicCommentVotesPrimary
key_for_pic_comment_vote pb = record {
  pic_id = some pb.pic_id;
  comment_id = some pb.comment_id;
  user_id = some pb.user_id;
  index = some pb.index;
}

abbrev pub find_pic_comment_votes :
    {E : Type 0} → PicCommentVotesPrimary → ℕ → Action E (List PicCommentVote)
find_pic_comment_votes idx limit =
    find pic_comment_votes_table (pic_comment_votes_primary idx) limit

abbrev pub insert_pic_comment_vote : {E : Type 0} → PicCommentVote → Action E (Unit {0})
insert_pic_comment_vote pb = insert pic_comment_votes_table pb

abbrev pub update_pic_comment_vote : {E : Type 0} → PicCommentVote → Action E (Unit {0})
update_pic_comment_vote pb = update pic_comment_votes_table pb

abbrev pub delete_pic_comment_vote : {E : Type 0} → PicCommentVotesPrimary → Action E (Unit {0})
delete_pic_comment_vote key = delete pic_comment_votes_table (pic_comment_votes_primary key)
