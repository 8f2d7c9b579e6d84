-- ===== src/Tables/Users.antt =====
-- be/schema/tables/tables.tab.go: the tables of users and their events. A `…Primary` is the index on the primary key,
-- with nil for the columns that are not named.
use pixur.Base.{ℕ, Option, some, List, [], ◌∷◌}
use pixur.Schema.{User, UserEvent}
use pixur.Job.{Action}
use pixur.Tables.{Index, column, int, Table, find, insert, update, delete}

pub record UsersPrimary : Type 0 where
  pub id : Option ℕ

-- `UsersPrimary.Vals` is `vals` of these columns.
abbrev pub users_primary : UsersPrimary → Index
users_primary idx = column int idx.id ∷ []

abbrev pub users_table : Table User
users_table = record {
  rows = λ t. t.users;
  put_rows = λ rs t. record t { users = rs };
  key = λ r. int r.user_id ∷ [];
}

-- `KeyForUser`
abbrev pub key_for_user : User → UsersPrimary
key_for_user pb = record { id = some pb.user_id }

abbrev pub find_users : {E : Type 0} → UsersPrimary → ℕ → Action E (List User)
find_users idx limit = find users_table (users_primary idx) limit

abbrev pub insert_user : {E : Type 0} → User → Action E (Unit {0})
insert_user pb = insert users_table pb

abbrev pub update_user : {E : Type 0} → User → Action E (Unit {0})
update_user pb = update users_table pb

abbrev pub delete_user : {E : Type 0} → UsersPrimary → Action E (Unit {0})
delete_user key = delete users_table (users_primary key)

pub record UserEventsPrimary : Type 0 where
  pub user_id : Option ℕ
  pub created_ts : Option ℕ
  pub index : Option ℕ

-- `UserEventsPrimary.Vals` is `vals` of these columns.
abbrev pub user_events_primary : UserEventsPrimary → Index
user_events_primary idx =
    column int idx.user_id ∷ column int idx.created_ts ∷ column int idx.index ∷ []

abbrev pub user_events_table : Table UserEvent
user_events_table = record {
  rows = λ t. t.user_events;
  put_rows = λ rs t. record t { user_events = rs };
  key = λ r. int r.user_id ∷ int r.created_ts ∷ int r.index ∷ [];
}

-- `KeyForUserEvent`
abbrev pub key_for_user_event : UserEvent → UserEventsPrimary
key_for_user_event pb = record {
  user_id = some pb.user_id;
  created_ts = some pb.created_ts;
  index = some pb.index;
}

abbrev pub find_user_events : {E : Type 0} → UserEventsPrimary → ℕ → Action E (List UserEvent)
find_user_events idx limit = find user_events_table (user_events_primary idx) limit

abbrev pub insert_user_event : {E : Type 0} → UserEvent → Action E (Unit {0})
insert_user_event pb = insert user_events_table pb

abbrev pub update_user_event : {E : Type 0} → UserEvent → Action E (Unit {0})
update_user_event pb = update user_events_table pb

abbrev pub delete_user_event : {E : Type 0} → UserEventsPrimary → Action E (Unit {0})
delete_user_event key = delete user_events_table (user_events_primary key)
