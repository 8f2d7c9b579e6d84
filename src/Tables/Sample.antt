-- ===== src/Tables/Sample.antt =====
-- Rows for the tests: one picture with one vote, one user with one token, and a working database.
use pixur.Base.{false, ℕ, none, some, [], ◌∷◌, ◌*◌, ◌^◌}
use pixur.Base.Int.{pos}
use pixur.Schema.{Tables, Pic, PicFile, PicVote, up, User, Configuration}
use pixur.Job.{Job}

abbrev pub sample_file : PicFile
sample_file = record { index = 0; mime = 1 }

abbrev pub sample_pic : Pic
sample_pic = record {
  pic_id = 3;
  file = sample_file;
  created_ts = 10;
  modified_ts = 10;
  deletion_status = none;
  view_count = 0;
  source = 7 ∷ 9 ∷ 0 ∷ 9 ∷ [];
  vote_up = 1;
  vote_down = 0;
  thumbnail = sample_file ∷ [];
}

abbrev pub sample_vote : PicVote
sample_vote = record {
  pic_id = 3;
  user_id = 9;
  index = 0;
  vote = up;
  created_ts = 20;
  modified_ts = 20;
  ext = [];
}

-- The user may vote, mark and delete.
abbrev pub sample_user : User
sample_user = record {
  user_id = 7;
  secret = 1 ∷ 2 ∷ [];
  ident = 97 ∷ [];
  created_ts = 5;
  next_token_id = 1;
  ext = [];
  capability = pos 11 ∷ pos 5 ∷ pos 6 ∷ [];
  user_token = record { token_id = 1; created_ts = some 5; last_seen_ts = some 5 } ∷ [];
  last_seen_ts = none;
  modified_ts = 5;
}

abbrev pub sample : Tables
sample = record {
  pics = sample_pic ∷ [];
  tags = [];
  pic_tags = [];
  pic_idents = [];
  pic_comments = [];
  pic_votes = sample_vote ∷ [];
  pic_comment_votes = [];
  users = sample_user ∷ [];
  user_events = [];
}

abbrev pub sample_configuration : Configuration
sample_configuration = record {
  min_comment_length = some (pos 1);
  max_comment_length = some (pos 100);
  min_ident_length = some (pos 1);
  max_ident_length = some (pos 20);
  min_tag_length = some (pos 1);
  max_tag_length = some (pos 20);
  anonymous_capability = [];
  new_user_capability = pos 11 ∷ [];
  enable_pic_comment_self_reply = some false;
  enable_pic_comment_sibling_reply = some false;
}

-- A hundred hours after 1970, so that the token is stale.
abbrev pub sample_now : ℕ
sample_now = 360000 * 10 ^ 9

abbrev pub sample_job : Job ℕ
sample_job = record { tables = sample; faults = [] }
