-- ===== src/Users/Idents.antt =====
-- be/tasks/create_user_task.go, be/schema/user.go: the idents of the users.
use mathlib.Core.Path.{subst}
use pixur.Base.{
  ℕ, ◌≡◌, ◌∙◌, refl, sym, ap, arith, Bool, true, false, not, Option, List, [], ◌∷◌, ◌++◌, map, All,
  length, ◌==◌, Bool-cases, Option-cases, inl, inr,
}
use pixur.Base.Result.{Result, ok, err}
use pixur.CapSet.{Capability}
use pixur.Text.{Text, Library, Ranges}
use pixur.Text.Rules.{to_caseless_nfkc_unsafe, to_caseless_nfkc}
use pixur.Text.Rules.Chain.{to_caseless_nfkc_lem}
use pixur.Schema.{Time, Ext, Tables, User, Configuration}
use pixur.Job.{Status, unauthenticated, already_exists, Job, Action, or_internal}
use pixur.Job.Returns.{
  Returns, Returns-bind, Returns-weaken, Returns-pure, Returns-bind-require,
  Returns-bind-require_none, Returns-or_internal, Returns_same,
}
use pixur.Job.Keeps.{Keeps-bind, Keeps-revert-Returns, Keeps_use}
use pixur.Tables.{int, bytes, eqb_bytes, Key, has_prefix, eqb_Key, select, replace, limited}
use pixur.Tables.Users.{users_table}
use pixur.Tables.Laws.{select-All, select-only}
use pixur.Tables.Rows.{Returns-bind-find, Returns-bind-insert, Returns-bind-internal_call}
use pixur.Auth.{refresh_token, refresh_user}
use pixur.Auth.Refresh.{refresh_user_again, user_or}
use pixur.Auth.Users.{Refreshed, Keeps-authed_job-Refreshed}
use pixur.Votes.Run.{refuse_if-none}
use pixur.Users.{or_panic, users_ident_table}
use pixur.Users.Tasks.{user_unique_ident, create_user_job, create_user_task}

module _ (lib : Library) where
  -- The texts that are another ident than the key.
  abbrev Others : Text → List Text → Type 0
  Others key idents = All (λ i. eqb_bytes key (to_caseless_nfkc_unsafe lib i) ≡ false) idents

  -- No later ident is an earlier one again, with the case and the form of the letters left aside.
  abbrev pub Distinct : List Text → Type 0
  Distinct [] = Unit
  Distinct (i ∷ is) =
      All (λ j. eqb_bytes (to_caseless_nfkc_unsafe lib j) (to_caseless_nfkc_unsafe lib i) ≡ false)
        is
      × Distinct is

  abbrev idents : List User → List Text
  idents us = map (λ u. u.ident) us

  -- No two users have the same ident.
  abbrev pub IdentsUnique : Tables → Type 0
  IdentsUnique t = Distinct (idents t.users)

  Distinct-append :
      (is : List Text) (i : Text)
      → Distinct is
      → Others (to_caseless_nfkc_unsafe lib i) is
      → Distinct (is ++ (i ∷ []))
  Distinct-append [] i d o = (tt, tt)
  Distinct-append (j ∷ js) i (later, d) (other, o) = (last js later, Distinct-append js i d o)
    where
      last :
          (ks : List Text)
          → All
              (λ k.
                eqb_bytes (to_caseless_nfkc_unsafe lib k) (to_caseless_nfkc_unsafe lib j) ≡ false)
              ks
          → All
              (λ k.
                eqb_bytes (to_caseless_nfkc_unsafe lib k) (to_caseless_nfkc_unsafe lib j) ≡ false)
              (ks ++ (i ∷ []))
      last [] h = (other, tt)
      last (k ∷ ks) (h, hs) = (h, last ks hs)

  idents-append :
      (us : List User) (u : User) → idents (us ++ (u ∷ [])) ≡ idents us ++ (u.ident ∷ [])
  idents-append [] u = refl
  idents-append (v ∷ vs) u = ap (λ l. v.ident ∷ l) (idents-append vs u)

  -- No user is found under the key.
  none_found :
      (key : Text) (us : List User)
      → not (length (limited 1 (select ((users_ident_table lib).key) (bytes key ∷ []) us)) == 0)
        ≡ false
      → Others key (idents us)
  none_found key [] e = tt
  none_found key (u ∷ us) e =
      elim (Bool-cases (eqb_bytes key (to_caseless_nfkc_unsafe lib u.ident))) [
        | inl hit ↦ absurd (clash (rw hit at e))
        | inr miss ↦ (miss, none_found key us (rw miss at e))
      ]
    where
      clash : ¬ (true ≡ false)
      clash p = cc

  idents-replace :
      (k : Key) (new : User) (us : List User)
      → All (λ u. eqb_Key k (users_table.key u) ≡ true → u.ident ≡ new.ident) us
      → idents (replace (users_table.key) k new us) ≡ idents us
  idents-replace k new [] h = refl
  idents-replace k new (u ∷ us) (same, rest) = elim (Bool-cases (eqb_Key k (users_table.key u))) [
    | inl hit ↦ rw (hit, same hit, idents-replace k new us rest) refl
    | inr miss ↦ rw (miss, idents-replace k new us rest) refl
  ]

refresh_user-ident :
    {E : Type 0} (now : Time) (token_id : ℕ) (u u' : User) (b : Bool)
    → refresh_user {E = E} now token_id u ≡ ok (u', b)
    → u'.ident ≡ u.ident
unfolding refresh_user
refresh_user-ident {E} now token_id u u' b e =
    elim (Option-cases (refresh_token now token_id u.user_token)) [
      | inl nothing ↦ absurd (clash (rw (nothing, refresh_user) at e))
      | inr ((uts, tb), found) ↦ sym (ap (λ r. (user_or u r).ident) (rw (found, refresh_user) at e))
    ]
  where
    clash : ¬ ((let r : Result (Status E) (User × Bool) = err unauthenticated in r) ≡ ok (u', b))
    clash p = cc

module _ (E : Type 0) (lib : Library) where
  Refreshed-IdentsUnique :
      (now : Time) (t t' : Tables) → Refreshed E now t t' → IdentsUnique lib t → IdentsUnique lib t'
  Refreshed-IdentsUnique now t t' (user_id, token_id, u, u', b, only, e, to) d =
      let (again, same_id, caps) = refresh_user_again {E = E} now token_id u u' b e in
      let (hit, rest) =
        subst (All (λ r. has_prefix (int user_id ∷ []) (users_table.key r) ≡ true)) only
          (select-All (users_table.key) (int user_id ∷ []) t.users) in
      let id : u.user_id ≡ user_id = ground (arith, hit) in
      let only_one = select-only (users_table.key) (int user_id ∷ []) t.users u only in
      subst (IdentsUnique lib) (sym to) (
        subst (Distinct lib)
          (sym (
            idents-replace lib (int u'.user_id ∷ []) u' t.users (
              same_idents t.users (
                subst
                  (λ n.
                    All (λ q. has_prefix (int n ∷ []) (users_table.key q) ≡ true → q ≡ u) t.users)
                  (sym id ∙ sym same_id) only_one))))
          d)
    where
      same_ident : u'.ident ≡ u.ident
      same_ident = refresh_user-ident {E = E} now token_id u u' b e

      same_idents :
          (us : List User)
          → All (λ q. has_prefix (int u'.user_id ∷ []) (users_table.key q) ≡ true → q ≡ u) us
          → All
              (λ q. eqb_Key (int u'.user_id ∷ []) (users_table.key q) ≡ true → q.ident ≡ u'.ident)
              us
      same_idents [] h = tt
      same_idents (q ∷ qs) (h, hs) =
          (λ hit. ap (λ v. v.ident) (h hit) ∙ sym same_ident, same_idents qs hs)

user_unique_ident_lem :
    {E : Type 0} (lib : Library) (ranges : Ranges) (ident key : Text)
    → user_unique_ident {E = E} lib ranges ident ≡ ok key
    → key ≡ to_caseless_nfkc_unsafe lib ident
unfolding user_unique_ident
user_unique_ident_lem {E} lib ranges ident key e =
    go (to_caseless_nfkc {E = E} lib ranges ident _)
      (λ out f. to_caseless_nfkc_lem lib ranges ident _ out f) e
  where
    go :
        (r : Result (pixur.Text.Status E) Text)
        → ((out : Text) → r ≡ ok out → out ≡ to_caseless_nfkc_unsafe lib ident)
        → or_panic r ≡ ok key
        → key ≡ to_caseless_nfkc_unsafe lib ident
    go (ok out) h p = ap (λ q. text_or q) (sym p) ∙ h out refl
      where
        text_or : Result (Status E) Text → Text
        text_or (ok x) = x
        text_or (err st) = []
    go (err st) h p = cc

module _ (E : Type 0) (lib : Library) (ranges : Ranges) (conf : Configuration) (now : Time)
    (alloc_id : Action E ℕ) (apart : (s : Job E) → (alloc_id s).1.tables ≡ s.tables)
    (hash_password : Text → Result E Text) (ident secret : Text)
    (capability : Option (List Capability)) (ext : Ext) where
  Returns-create_user_job :
      (su : Option User) (s : Job E)
      → IdentsUnique lib s.tables
      → Returns
          (create_user_job lib ranges conf now alloc_id hash_password ident secret capability ext
            su)
          s
          (λ _ s'. IdentsUnique lib s'.tables)
  unfolding create_user_job
  Returns-create_user_job su s h = Returns-bind-require_none _ _ _ _ (λ _.
      Returns-bind-require _ _ _ _ (λ clean _. Returns-bind-require _ _ _ _ (λ key keyed.
        Returns-bind-find (users_ident_table lib) s _ _ 1 (bytes key ∷ []) _ refl (λ fs.
          Returns-bind-require_none _ _ _ _ (λ new. Returns-bind-require_none _ _ _ _ (λ _.
            Returns-bind (or_internal alloc_id) _ _ _ (
              Returns-or_internal alloc_id _ _ (
                Returns-weaken alloc_id _ _ _
                  (λ id s1 same. Returns-bind-require s1 _ _ _ (λ hashed _.
                    Returns-bind-insert users_table s1 _ _ _ (λ _ fs1.
                      Returns-bind-internal_call _ _ _ (λ fs2. Returns-pure _ _ _ (
                        subst (Distinct lib) (sym (idents-append lib s1.tables.users _)) (
                          Distinct-append lib (idents lib s1.tables.users) clean
                            (subst (IdentsUnique lib) (sym same) h)
                            (subst
                              (λ t.
                                Others lib (to_caseless_nfkc_unsafe lib clean) (idents lib t.users))
                              (sym same)
                              (subst (λ k. Others lib k (idents lib s.tables.users))
                                (user_unique_ident_lem {E = E} lib ranges clean key keyed)
                                (none_found lib key s.tables.users
                                  (refuse_if-none {E = E} _ already_exists new))))))))))
                  (Returns_same alloc_id _ (apart _))))))))))

  -- If the source of ids leaves the tables alone, a task that creates a user, whether it succeeds
  -- or fails, keeps it true that no two users have the same caseless ident.
  pub create_user_task-IdentsUnique :
      (tok : Option (ℕ × ℕ)) (s : Job E)
      → IdentsUnique lib s.tables
      → IdentsUnique lib
          (create_user_task lib ranges conf now alloc_id hash_password tok ident secret capability
            ext s).1.tables
  unfolding create_user_task
  create_user_task-IdentsUnique tok = Keeps_use E (IdentsUnique lib) _ (
      Keeps-bind E (IdentsUnique lib) _ _
        (Keeps-authed_job-Refreshed E (IdentsUnique lib) now (Refreshed-IdentsUnique E lib now)
          false tok)
        (λ su. Keeps-revert-Returns E (IdentsUnique lib) _ (Returns-create_user_job su)))
