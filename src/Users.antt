-- ===== src/Users.antt =====
-- be/tasks/create_user_task.go, update_user_task.go, auth_user_task.go, unauth_user_task.go: the users of the
-- site, with their capabilities and their tokens. The hash of secrets, the order of a sort and the source
-- of new ids are parameters.
pub mod Tasks
pub mod Idents
pub mod Capabilities
pub mod Update
pub mod Tokens
pub mod Login
pub mod Tests
use pixur.Base.{
  ℕ, ◌+◌, ◌-◌, ◌%◌, ◌^◌, Bool, true, false, ◌&&◌, ◌||◌, not, Option, none, some, List, [], ◌∷◌,
  ◌++◌, length, take, drop, ltb, ◌==◌, if◌then◌else◌,
}
use pixur.Base.Int.{ℤ, pos, negsuc, eqb_ℤ, ltb_ℤ}
use pixur.Base.Result.{Result, ok, err}
use pixur.CapSet.{Capability}
use pixur.Text.{Text, Library, Status}
use pixur.Text.Rules.{to_caseless_nfkc_unsafe}
use pixur.Schema.{Time, User, UserToken, Configuration}
use pixur.Job.{broken, internal, caused, invalid_argument, unauthenticated, panic, from}
use pixur.Tables.{bytes, Table}
use pixur.Tables.Users.{users_table}

-- `User_USER_CREATE` and `User_USER_UPDATE_CAPABILITY`.
abbrev pub user_create : Capability
user_create = pos 4

abbrev pub user_update_capability : Capability
user_update_capability = pos 12

abbrev pub max_user_secret_length : ℕ
max_user_secret_length = 255

abbrev pub max_user_tokens : ℕ
max_user_tokens = 10

-- A configured bound, or `math.MinInt64` and `math.MaxInt64`.
abbrev pub min_bound : Option ℤ → ℤ
min_bound none = negsuc (2 ^ 63 - 1)
min_bound (some n) = n

abbrev pub max_bound : Option ℤ → ℤ
max_bound none = pos (2 ^ 63 - 1)
max_bound (some n) = n

-- The errors of the text rules are `InvalidArgument`.
abbrev pub or_invalid : {E A : Type 0} → Result (Status E) A → Result (pixur.Job.Status E) A
or_invalid (ok a) = ok a
or_invalid (err st) = err invalid_argument

-- `TagUniqueName` and `UserUniqueIdent` stop the program on a text that is refused.
abbrev pub or_panic : {E A : Type 0} → Result (Status E) A → Result (pixur.Job.Status E) A
or_panic (ok a) = ok a
or_panic (err st) = err panic

abbrev pub check_secret : {E : Type 0} → Text → Option (pixur.Job.Status E)
check_secret [] = some invalid_argument
check_secret (b ∷ bs) =
    if ltb max_user_secret_length (length (b ∷ bs)) then some invalid_argument else none

-- A function of the caller that may fail, as `status.Internal`.
abbrev pub foreign_or_internal : {E A : Type 0} → Result E A → Result (pixur.Job.Status E) A
foreign_or_internal (ok a) = ok a
foreign_or_internal (err e) = err (caused (from (broken e)))

-- The capabilities of a new user.
abbrev pub new_capability : Option (List Capability) → Configuration → List Capability
new_capability none conf = conf.new_user_capability
new_capability (some caps) conf = caps

-- The set of capabilities as the sorted slice that the code makes of its map.
abbrev pub insert_cap : Capability → List Capability → List Capability
insert_cap c [] = c ∷ []
insert_cap c (x ∷ xs) =
    if eqb_ℤ c x then x ∷ xs else if ltb_ℤ c x then c ∷ x ∷ xs else x ∷ insert_cap c xs

abbrev pub insert_caps : List Capability → List Capability → List Capability
insert_caps [] set = set
insert_caps (c ∷ cs) set = insert_caps cs (insert_cap c set)

-- `delete`
abbrev pub delete_cap : Capability → List Capability → List Capability
delete_cap c [] = []
delete_cap c (x ∷ xs) = if eqb_ℤ c x then delete_cap c xs else x ∷ delete_cap c xs

abbrev pub delete_caps : List Capability → List Capability → List Capability
delete_caps [] set = set
delete_caps (c ∷ cs) set = delete_caps cs (delete_cap c set)

-- `sort.Sort(userCaps(oldcap))`, which keeps what occurs twice.
abbrev pub insert_sorted : Capability → List Capability → List Capability
insert_sorted c [] = c ∷ []
insert_sorted c (x ∷ xs) = if ltb_ℤ x c then x ∷ insert_sorted c xs else c ∷ x ∷ xs

abbrev pub sort_caps : List Capability → List Capability
sort_caps [] = []
sort_caps (c ∷ cs) = insert_sorted c (sort_caps cs)

abbrev pub same_caps : List Capability → List Capability → Bool
same_caps [] [] = true
same_caps [] (y ∷ ys) = false
same_caps (x ∷ xs) [] = false
same_caps (x ∷ xs) (y ∷ ys) = eqb_ℤ x y && same_caps xs ys

-- A capability with a name, but `UNKNOWN`.
abbrev pub is_known : Capability → Bool
is_known (pos n) = ltb 0 n && ltb n 30
is_known (negsuc n) = false

abbrev pub all_known : List Capability → Bool
all_known [] = true
all_known (c ∷ cs) = is_known c && all_known cs

-- The capabilities after the change.
pub change_caps : List Capability → List Capability → List Capability → List Capability
change_caps set clear old = delete_caps clear (insert_caps set (insert_caps old []))

-- `len(both) != capchange`, behind the checks of the names.
pub check_change : {E : Type 0} → List Capability → List Capability → Option (pixur.Job.Status E)
check_change set clear =
    if not (all_known set && all_known clear)
    then some invalid_argument
    else if not (length (insert_caps clear (insert_caps set [])) == length set + length clear)
    then some invalid_argument
    else none

-- The user with new capabilities; `none` where they are as before.
pub changed_user : Time → List Capability → List Capability → User → Option User
changed_user now set clear ou =
    let caps = change_caps set clear ou.capability in
    if same_caps caps (sort_caps ou.capability)
    then none
    else some (record ou { capability = caps; modified_ts = now })

-- A token with its time of use.
abbrev pub use_token : Time → ℕ → List UserToken → Option (List UserToken)
use_token now token_id [] = none
use_token now token_id (ut ∷ uts) =
    let rest = use_token now token_id uts in
    if ut.token_id == token_id
    then some (record ut { last_seen_ts = some now } ∷ uts)
    else elim rest [ none ↦ none | some uts' ↦ some (ut ∷ uts') ]

-- The tokens without the first one with that id.
abbrev pub drop_token : ℕ → List UserToken → Option (List UserToken)
drop_token token_id [] = none
drop_token token_id (ut ∷ uts) =
    let rest = drop_token token_id uts in
    if ut.token_id == token_id
    then some uts
    else elim rest [ none ↦ none | some uts' ↦ some (ut ∷ uts') ]

abbrev pub has_token : ℕ → List UserToken → Bool
has_token token_id [] = false
has_token token_id (ut ∷ uts) = ut.token_id == token_id || has_token token_id uts

-- The error of a comparison of secrets.
abbrev pub refuse_login : {E : Type 0} → Option E → Option (pixur.Job.Status E)
refuse_login none = none
refuse_login (some e) = some unauthenticated

abbrev pub or_refused :
    {E A : Type 0} → pixur.Job.Status E → Option A → Result (pixur.Job.Status E) A
or_refused st none = err st
or_refused st (some a) = ok a

-- The user with one more token, behind `user.NextTokenId++` of an int64.
abbrev pub add_token : Time → User → User
add_token now u = record u {
  next_token_id = (u.next_token_id + 1) % 2 ^ 64;
  user_token =
      u.user_token
      ++ (record {
        token_id = (u.next_token_id + 1) % 2 ^ 64;
        created_ts = some now;
        last_seen_ts = some now;
      }
          ∷ []);
}

-- The tokens that a user may keep, given the id of the one in use.
pub limit_tokens :
    {E : Type 0} → (List UserToken → List UserToken) → ℕ → User → Result (pixur.Job.Status E) User
limit_tokens sort new_token_id u =
    let sorted = sort u.user_token in
    if has_token new_token_id (drop max_user_tokens sorted)
    then err internal
    else ok (record u { user_token = take max_user_tokens sorted })

abbrev pub touch : Time → User → User
touch now u = record u { last_seen_ts = some now; modified_ts = now }

-- The index `UsersIdent`.
abbrev pub users_ident_table : Library → Table User
users_ident_table lib = record users_table {
  key = λ r. bytes (to_caseless_nfkc_unsafe lib r.ident) ∷ [];
}
