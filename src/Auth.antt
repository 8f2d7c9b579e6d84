-- ===== src/Auth.antt =====
-- be/tasks/auth.go: who runs a task, and what that user may do. A time is a number of nanoseconds.
pub mod Refresh
pub mod Fresh
pub mod Session
pub mod Keeps
pub mod Capabilities
pub mod Lookup
pub mod Users
pub mod Tests
use pixur.Base.{
  ℕ, zero, suc, ◌+◌, ◌*◌, ◌^◌, Bool, true, false, ◌||◌, not, Option, none, some, List, [], ◌∷◌, ltb,
  ◌==◌, if◌then◌else◌,
}
use pixur.Base.Result.{Result, ok, err}
use pixur.CapSet.{Capability, CapSet, cap_set_of, verify_cap_subset}
use pixur.Schema.{Time, User, UserToken, Configuration, anonymous_user_id}
use pixur.Job.{
  Status, internal, invalid_argument, not_found, unauthenticated, permission_denied, from, panic,
  Action, pure, raise, ◌>>=◌, ◌>>◌, require, require_none, call, or_internal, revert,
}
use pixur.Tables.Users.{find_users, update_user}

-- `lastSeenUpdateThreshold`
abbrev pub last_seen_update_threshold : ℕ
last_seen_update_threshold = 24 * 3600 * 10 ^ 9

-- A seen timestamp that is older than the threshold becomes `now`; whether it does.
abbrev pub refresh : Time → Option Time → Option Time × Bool
refresh now none = (none, false)
refresh now (some seen) =
    if ltb (seen + last_seen_update_threshold) now then (some now, true) else (some seen, false)

-- The first token with that id, refreshed; `none` where there is none.
abbrev pub refresh_token : Time → ℕ → List UserToken → Option (List UserToken × Bool)
refresh_token now token_id [] = none
refresh_token now token_id (ut ∷ uts) =
    let (seen, updated) = refresh now ut.last_seen_ts in
    let rest = refresh_token now token_id uts in
    if ut.token_id == token_id
    then some (record ut { last_seen_ts = seen } ∷ uts, updated)
    else elim rest [ none ↦ none | some (uts', updated') ↦ some (ut ∷ uts', updated') ]

-- The only row of a scan.
abbrev pub single : {E A : Type 0} → Status E → List A → Result (Status E) A
single st [] = err st
single st (a ∷ []) = ok a
single st (a ∷ b ∷ as') = err st

-- What `validateAndUpdateUserAndToken` makes of the user.
unfoldable pub refresh_user : {E : Type 0} → Time → ℕ → User → Result (Status E) (User × Bool)
refresh_user now token_id u = elim (refresh_token now token_id u.user_token) [
  | none ↦ err unauthenticated
  | some (uts, token_updated) ↦
      (let (seen, user_updated) = refresh now u.last_seen_ts in
        let updated = token_updated || user_updated in
        ok (
          record u {
            user_token = uts;
            last_seen_ts = seen;
            modified_ts = if updated then now else u.modified_ts;
          },
          updated,
        ))
]

module _ {E : Type 0} (now : Time) where
  -- `validateAndUpdateUserAndToken`
  unfoldable pub validate_and_update_user_and_token : ℕ → ℕ → Action E (User × Bool)
  validate_and_update_user_and_token user_id token_id = do
    us ← or_internal (find_users (record { id = some user_id }) 0)
    u ← require (single unauthenticated us)
    require (refresh_user now token_id u)

  -- A readonly job gives way to one that can write: `Rollback` and `NewJob`.
  unfoldable pub upgrade : Bool → Action E (Unit {0})
  upgrade false = pure tt
  upgrade true = do or_internal (call from); or_internal (call from)

  -- One round of the loop of `authedJobInternal`, without the deferred rollback: the user of the job
  -- that it returns, or `none` where it goes on after a commit.
  unfoldable pub authed_round : Bool → Option (ℕ × ℕ) → Action E (Option (Option User))
  authed_round readonly none = do or_internal (call from); pure (some none)
  authed_round readonly (some (user_id, token_id)) = do
    or_internal (call from)
    found ← validate_and_update_user_and_token user_id token_id
    if not found.1 then pure (some (some found.0)) else do
      upgrade readonly
      found' ← validate_and_update_user_and_token user_id token_id
      if not found'.1
          then raise internal
          else do or_internal (update_user found'.0); or_internal (call from); pure none

  abbrev pub go_on :
      Option (Option User) → Action E (Option (Option User)) → Action E (Option (Option User))
  go_on (some u) again = pure (some u)
  go_on none again = again

  -- The loop; `none` is the end of the fuel.
  unfoldable pub authed_rounds : ℕ → Bool → Option (ℕ × ℕ) → Action E (Option (Option User))
  authed_rounds zero readonly tok = pure none
  authed_rounds (suc fuel) readonly tok = do
    found ← revert (authed_round readonly tok)
    go_on found (authed_rounds fuel readonly tok)

  abbrev pub found_user : Option (Option User) → Action E (Option User)
  found_user (some u) = pure u
  found_user none = raise panic

  -- `authedJobInternal`, in the two rounds that it takes.
  unfoldable pub authed_job : Bool → Option (ℕ × ℕ) → Action E (Option User)
  authed_job readonly tok = do found ← authed_rounds 2 readonly tok; found_user found

-- The capabilities of a user, or those of the anonymous one.
abbrev pub capabilities_of : Option User → Configuration → List Capability
capabilities_of (some u) conf = u.capability
capabilities_of none conf = conf.anonymous_capability

abbrev pub denied : {E : Type 0} → Option (List Capability) → Option (Status E)
denied none = none
denied (some missing) = some (permission_denied missing)

-- `validateCapSet`
unfoldable pub validate_cap_set :
    {E : Type 0} → Option User → Configuration → CapSet → Option (Status E)
validate_cap_set u conf want = denied (verify_cap_subset (cap_set_of (capabilities_of u conf)) want)

-- `validateCapability`
unfoldable pub validate_capability :
    {E : Type 0} → Option User → Configuration → List Capability → Option (Status E)
validate_capability u conf caps = validate_cap_set u conf (cap_set_of caps)

-- The id of a subject user.
abbrev pub user_id_of : Option User → ℕ
user_id_of none = anonymous_user_id
user_id_of (some u) = u.user_id

-- `deriveObjectUserId`
unfoldable pub derive_object_user_id : {E : Type 0} → ℕ → Option User → Result (Status E) ℕ
derive_object_user_id object_user_id subject_user =
    if not (object_user_id == anonymous_user_id)
    then ok object_user_id
    else elim subject_user [ some u ↦ ok u.user_id | none ↦ err invalid_argument ]

-- The user with an id, who has to be there.
abbrev pub look_up_user : {E : Type 0} → ℕ → Action E User
look_up_user object_user_id = do
  us ← or_internal (find_users (record { id = some object_user_id }) 0)
  require (single not_found us)

-- The subject user where that is the one, or the row.
abbrev pub subject_or_row : {E : Type 0} → ℕ → Option User → Action E User
subject_or_row object_user_id none = look_up_user object_user_id
subject_or_row object_user_id (some u) =
    if u.user_id == object_user_id then pure u else look_up_user object_user_id

-- `lookupObjectUser`
unfoldable pub lookup_object_user : {E : Type 0} → ℕ → Option User → Action E User
lookup_object_user requested subject_user = do
  object_user_id ← require (derive_object_user_id requested subject_user)
  subject_or_row object_user_id subject_user
