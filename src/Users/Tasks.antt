-- ===== src/Users/Tasks.antt =====
-- be/tasks/create_user_task.go, update_user_task.go, auth_user_task.go, unauth_user_task.go: the tasks.
use pixur.Base.{
  ℕ, ◌+◌, ◌%◌, ◌^◌, false, not, Option, none, some, List, [], ◌∷◌, length, ◌==◌, if◌then◌else◌,
}
use pixur.Base.Result.{Result}
use pixur.CapSet.{Capability}
use pixur.Text.{Text, Library, Ranges}
use pixur.Text.Rules.{to_caseless_nfkc, default_validate_no_newline_and_normalize}
use pixur.Schema.{Time, Ext, User, UserToken, Configuration}
use pixur.Job.{
  broken, internal, caused, invalid_argument, already_exists, unauthenticated, aborted, panic, from,
  Action, pure, raise, ◌>>=◌, ◌>>◌, require, require_none, call, or_internal, revert,
}
use pixur.Tables.{bytes, column, find}
use pixur.Tables.Users.{find_users, insert_user, update_user}
use pixur.Auth.{single, authed_job, validate_capability, lookup_object_user}
use pixur.Votes.{refuse_if}
use pixur.Users.{
  refuse_login, user_create, user_update_capability, min_bound, max_bound, or_invalid, or_panic,
  check_secret, foreign_or_internal, new_capability, change_caps, check_change, changed_user,
  use_token, drop_token, or_refused, add_token, limit_tokens, touch, users_ident_table,
}

module _ {E : Type 0} (lib : Library) (ranges : Ranges) where
  -- `UserUniqueIdent`
  unfoldable pub user_unique_ident : Text → Result (pixur.Job.Status E) Text
  user_unique_ident ident =
      or_panic (to_caseless_nfkc {E = E} lib ranges ident (b'i' ∷ b'd' ∷ b'e' ∷ b'n' ∷ b't' ∷ []))

  -- `DefaultValidateNoNewlineAndNormalize` with the bounds of the configuration.
  unfoldable pub clean_ident : Configuration → Text → Result (pixur.Job.Status E) Text
  clean_ident conf ident = or_invalid (
      default_validate_no_newline_and_normalize {E = E} lib ranges (min_bound conf.min_ident_length)
        (max_bound conf.max_ident_length) [] ident (b'i' ∷ b'd' ∷ b'e' ∷ b'n' ∷ b't' ∷ []))

  abbrev pub find_users_by_ident : Text → ℕ → Action E (List User)
  find_users_by_ident key limit = find (users_ident_table lib) (column bytes (some key) ∷ []) limit

  module _ (conf : Configuration) (now : Time) where
    -- The transaction of `CreateUserTask.Run`.
    unfoldable pub create_user_job :
        Action E ℕ
        → (Text → Result E Text)
        → Text
        → Text
        → Option (List Capability)
        → Ext
        → Option User
        → Action E User
    create_user_job alloc_id hash_password raw_ident secret capability ext su = do
      require_none (validate_capability su conf (user_create ∷ []))
      ident ← require (clean_ident conf raw_ident)
      keyident ← require (user_unique_ident ident)
      users ← or_internal (find_users_by_ident keyident 1)
      require_none (refuse_if (not (length users == 0)) already_exists)
      require_none (check_secret secret)
      user_id ← or_internal alloc_id
      hashed ← require (foreign_or_internal (hash_password secret))
      let user : User = record {
        user_id = user_id;
        secret = hashed;
        ident = ident;
        created_ts = now;
        modified_ts = now;
        last_seen_ts = none;
        capability = new_capability capability conf;
        next_token_id = 0;
        user_token = [];
        ext = ext;
      }
      or_internal (insert_user user)
      or_internal (call from)
      pure user

    -- The user that `AuthUserTask.Run` is about, with the token in use: by ident and secret, which makes a
    -- new token, or by the ids of the user and of a token.
    unfoldable pub auth_by_ident : (Text → Text → Option E) → Text → Text → Action E (User × ℕ)
    auth_by_ident compare_hash raw_ident secret = do
      ident ← require (clean_ident conf raw_ident)
      keyident ← require (user_unique_ident ident)
      users ← or_internal (find_users_by_ident keyident 1)
      u ← require (single unauthenticated users)
      require_none (check_secret secret)
      require_none (refuse_login (compare_hash u.secret secret))
      pure (add_token now u, (u.next_token_id + 1) % 2 ^ 64)

module _ {E : Type 0} (now : Time) where
  unfoldable pub auth_by_token : ℕ → ℕ → Action E (User × ℕ)
  auth_by_token user_id token_id = do
    users ← or_internal (find_users (record { id = some user_id }) 1)
    u ← require (single unauthenticated users)
    uts ← require (or_refused unauthenticated (use_token now token_id u.user_token))
    require_none (refuse_if (token_id == 0) unauthenticated)
    pure (record u { user_token = uts }, token_id)

  -- The end of `AuthUserTask.Run`.
  unfoldable pub store_login : (List UserToken → List UserToken) → User × ℕ → Action E (User × ℕ)
  store_login sort (u, new_token_id) = do
    kept ← require (limit_tokens sort new_token_id u)
    or_internal (update_user (touch now kept))
    or_internal (call from)
    pure (touch now kept, new_token_id)

  -- The transaction of `UnauthUserTask.Run`.
  unfoldable pub unauth_user_job : ℕ → ℕ → Action E (Unit {0})
  unauth_user_job user_id token_id = do
    users ← or_internal (find_users (record { id = some user_id }) 1)
    u ← require (single unauthenticated users)
    uts ← require (or_refused invalid_argument (drop_token token_id u.user_token))
    or_internal (update_user (touch now (record u { user_token = uts })))
    or_internal (call from)

  -- `UnauthUserTask.Run`
  unfoldable pub unauth_user : Option (ℕ × ℕ) → ℕ → ℕ → Action E (Unit {0})
  unauth_user tok user_id token_id = do
    su ← authed_job now false tok
    revert (unauth_user_job user_id token_id)

  -- The end of `UpdateUserTask.Run`; a user that is not changed is not stored.
  abbrev pub store_change : User → Option User → Action E User
  store_change ou none = do or_internal (call from); pure ou
  store_change ou (some changed) = do
    or_internal (update_user changed)
    or_internal (call from)
    pure changed

  -- The transaction of `UpdateUserTask.Run`.
  unfoldable pub update_user_job :
      Configuration → ℕ → Time → List Capability → List Capability → Option User → Action E User
  update_user_job conf object_user_id version set clear su = do
    ou ← lookup_object_user object_user_id su
    require_none (refuse_if (not (ou.modified_ts == version)) aborted)
    if length set + length clear == 0 then store_change ou none else do
      require_none (validate_capability su conf (user_update_capability ∷ []))
      require_none (check_change set clear)
      store_change (record ou { capability = change_caps set clear ou.capability })
          (changed_user now set clear ou)

  -- `UpdateUserTask.Run`
  unfoldable pub update_user_task :
      Configuration → Option (ℕ × ℕ) → ℕ → Time → List Capability → List Capability → Action E User
  update_user_task conf tok object_user_id version set clear = do
    su ← authed_job now false tok
    revert (update_user_job conf object_user_id version set clear su)

module _ {E : Type 0} (lib : Library) (ranges : Ranges) (conf : Configuration) (now : Time) where
  -- By ident if there is one, and else by the id of a user.
  abbrev pub find_login : (Text → Text → Option E) → Text → Text → ℕ → ℕ → Action E (User × ℕ)
  find_login compare_hash [] secret user_id token_id =
      if user_id == 0 then raise invalid_argument else auth_by_token now user_id token_id
  find_login compare_hash (b ∷ bs) secret user_id token_id =
      auth_by_ident lib ranges conf now compare_hash (b ∷ bs) secret

  -- `AuthUserTask.Run`: the user, and the token in use.
  unfoldable pub auth_user :
      (Text → Text → Option E)
      → (List UserToken → List UserToken)
      → Option (ℕ × ℕ)
      → Text
      → Text
      → ℕ
      → ℕ
      → Action E (User × ℕ)
  auth_user compare_hash sort tok ident secret user_id token_id = do
    su ← authed_job now false tok
    revert (find_login compare_hash ident secret user_id token_id >>= store_login now sort)

  -- `CreateUserTask.Run`
  unfoldable pub create_user_task :
      Action E ℕ
      → (Text → Result E Text)
      → Option (ℕ × ℕ)
      → Text
      → Text
      → Option (List Capability)
      → Ext
      → Action E User
  create_user_task alloc_id hash_password tok ident secret capability ext = do
    su ← authed_job now false tok
    revert
        (create_user_job lib ranges conf now alloc_id hash_password ident secret capability ext su)
