-- ===== src/Schema.antt =====
-- be/schema/pixur.pb.go: the rows of the tables, with the fields that the modelled tasks read or write.
-- An id, a counter and a proto enum are numbers (an int64 is kept as its bit pattern), a time is the
-- number of nanoseconds since 1970, a text is its bytes.
use pixur.Base.{ℕ, Bool, Option, List}
use pixur.Base.Int.{ℤ}
use pixur.CapSet.{Capability}

abbrev pub Time : Type 0
Time = ℕ

abbrev pub anonymous_user_id : ℕ
anonymous_user_id = 0

-- The data that clients attach: names with opaque values.
abbrev pub Ext : Type 0
Ext = List (List ℕ × List ℕ)

-- `Pic_DeletionStatus`
pub record DeletionStatus : Type 0 where
  pub marked_deleted_ts : Option Time
  pub pending_deleted_ts : Option Time
  pub actual_deleted_ts : Option Time
  pub details : List ℕ
  pub reason : ℕ
  pub temporary : Bool

-- `Pic_File`
pub record PicFile : Type 0 where
  pub index : ℕ
  pub mime : ℕ

pub record Pic : Type 0 where
  pub pic_id : ℕ
  pub file : PicFile
  pub created_ts : Time
  pub modified_ts : Time
  pub deletion_status : Option DeletionStatus
  pub view_count : ℕ
  -- The users of `Source`.
  pub source : List ℕ
  pub vote_up : ℕ
  pub vote_down : ℕ
  pub thumbnail : List PicFile

pub record Tag : Type 0 where
  pub tag_id : ℕ
  pub name : List ℕ
  pub usage_count : ℕ
  pub created_ts : Time
  pub modified_ts : Time

pub record PicTag : Type 0 where
  pub pic_id : ℕ
  pub tag_id : ℕ
  pub name : List ℕ
  pub user_id : ℕ
  pub created_ts : Time
  pub modified_ts : Time
  pub ext : Ext

pub record PicIdent : Type 0 where
  pub pic_id : ℕ
  pub ident_type : ℕ
  pub value : List ℕ

pub record PicComment : Type 0 where
  pub pic_id : ℕ
  pub comment_id : ℕ
  pub comment_parent_id : ℕ
  pub user_id : ℕ
  pub text : List ℕ
  pub vote_up : ℕ
  pub vote_down : ℕ
  pub created_ts : Time
  pub modified_ts : Time
  pub ext : Ext

-- `PicVote_Vote`, and `PicCommentVote_Vote`: `other` is any number that is not named.
pub data Vote : Type 0 where
  up down neutral : Vote
  other : ℕ → Vote

pub record PicVote : Type 0 where
  pub pic_id : ℕ
  pub user_id : ℕ
  pub index : ℕ
  pub vote : Vote
  pub created_ts : Time
  pub modified_ts : Time
  pub ext : Ext

pub record PicCommentVote : Type 0 where
  pub pic_id : ℕ
  pub comment_id : ℕ
  pub user_id : ℕ
  pub index : ℕ
  pub vote : Vote
  pub created_ts : Time
  pub modified_ts : Time
  pub ext : Ext

pub record UserToken : Type 0 where
  pub token_id : ℕ
  pub created_ts : Option Time
  pub last_seen_ts : Option Time

pub record User : Type 0 where
  pub user_id : ℕ
  pub secret : List ℕ
  pub ident : List ℕ
  pub created_ts : Time
  pub modified_ts : Time
  pub last_seen_ts : Option Time
  pub capability : List Capability
  pub next_token_id : ℕ
  pub user_token : List UserToken
  pub ext : Ext

-- The variants of `UserEvent.Evt` that the tasks write, with the ids in them.
pub data Event : Type 0 where
  outgoing_upsert_pic_vote : ℕ → Event
  incoming_upsert_pic_vote : ℕ → ℕ → Event
  outgoing_pic_comment incoming_pic_comment : ℕ → ℕ → Event
  upsert_pic : ℕ → Event

pub record UserEvent : Type 0 where
  pub user_id : ℕ
  pub index : ℕ
  pub created_ts : Time
  pub modified_ts : Time
  pub evt : Event

-- The fields of `Configuration` that the modelled tasks read.
pub record Configuration : Type 0 where
  pub min_comment_length : Option ℤ
  pub max_comment_length : Option ℤ
  pub min_ident_length : Option ℤ
  pub max_ident_length : Option ℤ
  pub min_tag_length : Option ℤ
  pub max_tag_length : Option ℤ
  pub anonymous_capability : List Capability
  pub new_user_capability : List Capability
  pub enable_pic_comment_self_reply : Option Bool
  pub enable_pic_comment_sibling_reply : Option Bool

-- The tables of the database.
pub record Tables : Type 0 where
  pub pics : List Pic
  pub tags : List Tag
  pub pic_tags : List PicTag
  pub pic_idents : List PicIdent
  pub pic_comments : List PicComment
  pub pic_votes : List PicVote
  pub pic_comment_votes : List PicCommentVote
  pub users : List User
  pub user_events : List UserEvent
