-- ===== src/Tables/Rows.antt =====
-- be/schema/tables/tables.tab.go: what a statement on a table does where it returns.
use mathlib.Core.Path.{subst}
use pixur.Base.{
  sym, ℕ, ◌≡◌, true, false, Option, some, List, [], ◌∷◌, ◌++◌, if◌then◌else◌, length, ◌==◌,
  Bool-cases, Option-cases, inl, inr, ◌⊎◌,
}
use pixur.Schema.{Tables}
use pixur.Job.{
  duplicate_key, from, panic, invalid_argument, Job, Action, pure, raise, ◌>>=◌, call, or_internal,
  get_tables, put_tables,
}
use pixur.Job.Returns.{
  Returns, Returns-weaken, Returns_same, Returns-bind, Returns-bind-call, Returns-pure,
  Returns-raise, Returns-put_tables, Returns-bind-get_tables, Returns-call, Returns-or_internal,
}
use pixur.Job.Keeps.{
  Keeps, Keeps-bind, Keeps-pure, Keeps-raise, Keeps-call, Keeps-put_tables, Keeps-bind-get_tables,
}
use pixur.Tables.{
  Key, Index, vals, select, has_key, replace, remove, Table, limited, find, insert, update, delete,
}

abbrev pub after : {E : Type 0} → Tables → List (Option E) → Job E
after tables fs = record { tables = tables; faults = fs }

module _ {E R : Type 0} (t : Table R) (s : Job E) where
  pub Returns-find :
      (idx : Index) (limit : ℕ) (vs : Key) (Q : List R → Job E → Type 0)
      → vals idx ≡ some vs
      → ((fs : List (Option E))
          → Q (limited limit (select t.key vs (t.rows s.tables))) (after s.tables fs))
      → Returns (find t idx limit) s Q
  unfolding find
  Returns-find idx limit vs Q e h =
      rw (e, find)
        (Returns-bind-call s Q from
          (λ _. get_tables >>= λ tables. pure (limited limit (select t.key vs (t.rows tables))))
          (λ fs. Returns-bind-get_tables (after s.tables fs) Q _ (Returns-pure _ _ Q (h fs))))

  pub Returns-insert :
      (r : R) (Q : Unit {0} → Job E → Type 0)
      → (has_key t.key (t.key r) (t.rows s.tables) ≡ false
          → (fs : List (Option E))
          → Q tt (after (t.put_rows (t.rows s.tables ++ (r ∷ [])) s.tables) fs))
      → Returns (insert t r) s Q
  unfolding insert
  Returns-insert r Q h =
      Returns-bind-call s Q from (λ _. get_tables >>= λ tables. write tables)
        (λ fs.
          Returns-bind-get_tables (after s.tables fs) Q write
            (written fs (Bool-cases (has_key t.key (t.key r) (t.rows s.tables)))))
    where
      write : Tables → Action E (Unit {0})
      write tables =
          if has_key t.key (t.key r) (t.rows tables)
          then raise (from duplicate_key)
          else put_tables (t.put_rows (t.rows tables ++ (r ∷ [])) tables)

      written :
          (fs : List (Option E))
          → (has_key t.key (t.key r) (t.rows s.tables) ≡ true)
            ⊎ (has_key t.key (t.key r) (t.rows s.tables) ≡ false)
          → Returns (write s.tables) (after s.tables fs) Q
      written fs (inl old) = rw old (Returns-raise _ _ Q)
      written fs (inr new) = rw new (Returns-put_tables _ _ Q (h new fs))

  pub Returns-update :
      (r : R) (Q : Unit {0} → Job E → Type 0)
      → ((fs : List (Option E))
          → Q tt (after (t.put_rows (replace t.key (t.key r) r (t.rows s.tables)) s.tables) fs))
      → Returns (update t r) s Q
  unfolding update
  Returns-update r Q h =
      Returns-bind-call s Q from
        (λ _. get_tables >>= λ tables.
          put_tables (t.put_rows (replace t.key (t.key r) r (t.rows tables)) tables))
        (λ fs. Returns-bind-get_tables (after s.tables fs) Q _ (Returns-put_tables _ _ Q (h fs)))

  pub Returns-delete :
      (idx : Index) (vs : Key) (Q : Unit {0} → Job E → Type 0)
      → vals idx ≡ some vs
      → ((fs : List (Option E))
          → Q tt (after (t.put_rows (remove t.key vs (t.rows s.tables)) s.tables) fs))
      → Returns (delete t idx) s Q
  unfolding delete
  Returns-delete idx vs Q e h = rw (e, delete) (full (Bool-cases (length vs == length idx)))
    where
      rest : Unit {0} → Action E (Unit {0})
      rest _ =
          get_tables >>= λ tables. put_tables (t.put_rows (remove t.key vs (t.rows tables)) tables)

      full :
          ((length vs == length idx) ≡ true) ⊎ ((length vs == length idx) ≡ false)
          → Returns
              (if length vs == length idx then call from >>= rest else raise invalid_argument)
              s
              Q
      full (inl all) = rw all (
          Returns-bind-call s Q from rest (λ fs.
            Returns-bind-get_tables (after s.tables fs) Q _ (Returns-put_tables _ _ Q (h fs))))
      full (inr some_missing) = rw some_missing (Returns-raise _ _ Q)

-- The same with the error wrapped, for an action that goes on.
module _ {E R B : Type 0} (t : Table R) (s : Job E) (Q : B → Job E → Type 0) where
  pub Returns-bind-find :
      (idx : Index) (limit : ℕ) (vs : Key) (f : List R → Action E B)
      → vals idx ≡ some vs
      → ((fs : List (Option E))
          → Returns (f (limited limit (select t.key vs (t.rows s.tables)))) (after s.tables fs) Q)
      → Returns (or_internal (find t idx limit) >>= f) s Q
  Returns-bind-find idx limit vs f e h = Returns-bind (or_internal (find t idx limit)) f s Q (
      Returns-or_internal (find t idx limit) s (λ a s'. Returns (f a) s' Q)
        (Returns-find t s idx limit vs (λ a s'. Returns (f a) s' Q) e h))

  pub Returns-bind-insert :
      (r : R) (f : Unit {0} → Action E B)
      → (has_key t.key (t.key r) (t.rows s.tables) ≡ false
          → (fs : List (Option E))
          → Returns (f tt) (after (t.put_rows (t.rows s.tables ++ (r ∷ [])) s.tables) fs) Q)
      → Returns (or_internal (insert t r) >>= f) s Q
  Returns-bind-insert r f h = Returns-bind (or_internal (insert t r)) f s Q (
      Returns-or_internal (insert t r) s (λ a s'. Returns (f a) s' Q)
        (Returns-insert t s r (λ a s'. Returns (f a) s' Q) h))

  pub Returns-bind-update :
      (r : R) (f : Unit {0} → Action E B)
      → ((fs : List (Option E))
          → Returns
              (f tt)
              (after (t.put_rows (replace t.key (t.key r) r (t.rows s.tables)) s.tables) fs)
              Q)
      → Returns (or_internal (update t r) >>= f) s Q
  Returns-bind-update r f h = Returns-bind (or_internal (update t r)) f s Q (
      Returns-or_internal (update t r) s (λ a s'. Returns (f a) s' Q)
        (Returns-update t s r (λ a s'. Returns (f a) s' Q) h))

  pub Returns-bind-delete :
      (idx : Index) (vs : Key) (f : Unit {0} → Action E B)
      → vals idx ≡ some vs
      → ((fs : List (Option E))
          → Returns (f tt) (after (t.put_rows (remove t.key vs (t.rows s.tables)) s.tables) fs) Q)
      → Returns (or_internal (delete t idx) >>= f) s Q
  Returns-bind-delete idx vs f e h = Returns-bind (or_internal (delete t idx)) f s Q (
      Returns-or_internal (delete t idx) s (λ a s'. Returns (f a) s' Q)
        (Returns-delete t s idx vs (λ a s'. Returns (f a) s' Q) e h))

-- The same for a call that is no statement on a table.
pub Returns-bind-internal_call :
    {E B : Type 0} (s : Job E) (Q : B → Job E → Type 0) (f : Unit {0} → Action E B)
    → ((fs : List (Option E)) → Returns (f tt) (after s.tables fs) Q)
    → Returns (or_internal (call from) >>= f) s Q
Returns-bind-internal_call s Q f h = Returns-bind (or_internal (call from)) f s Q (
    Returns-or_internal (call from) s (λ a s'. Returns (f a) s' Q)
      (Returns-call from s (λ a s'. Returns (f a) s' Q) h))

pub Returns-internal_call :
    {E : Type 0} (s : Job E) (Q : Unit {0} → Job E → Type 0)
    → ((fs : List (Option E)) → Q tt (after s.tables fs))
    → Returns (or_internal (call from)) s Q
Returns-internal_call s Q h = Returns-or_internal (call from) s Q (Returns-call from s Q h)

-- The same for an action that leaves the tables alone.
pub Returns-bind-apart :
    {E A B : Type 0} (m : Action E A)
    → ((s : Job E) → (m s).1.tables ≡ s.tables)
    → (s : Job E) (Q : B → Job E → Type 0) (f : A → Action E B)
    → ((a : A) (fs : List (Option E)) → Returns (f a) (after s.tables fs) Q)
    → Returns (or_internal m >>= f) s Q
Returns-bind-apart m apart s Q f h = Returns-bind (or_internal m) f s Q (
    Returns-or_internal m s _ (
      Returns-weaken m s _ _
        (λ a s1 same. subst (λ t. Returns (f a) (after t s1.faults) Q) (sym same) (h a s1.faults))
        (Returns_same m s (apart s))))

module _ (E : Type 0) (P : Tables → Type 0) {R : Type 0} (t : Table R) where
  pub Keeps-find : (idx : Index) (limit : ℕ) → Keeps E P (find t idx limit)
  unfolding find raise
  Keeps-find idx limit = elim (Option-cases (vals idx)) [
    | inl extra ↦ rw (extra, find) (Keeps-raise E P _ panic)
    | inr (vs, e) ↦
        rw (e, find)
          (Keeps-bind E P _ _ (Keeps-call E P from)
            (λ _. Keeps-bind-get_tables E P _ (λ tables h. Keeps-pure E P _)))
  ]

  pub Keeps-update :
      (r : R)
      → ((tables : Tables) (rs : List R) → P tables → P (t.put_rows rs tables))
      → Keeps E P (update t r)
  unfolding update
  Keeps-update r stable =
      Keeps-bind E P _ _ (Keeps-call E P from)
        (λ _. Keeps-bind-get_tables E P _ (λ tables h. Keeps-put_tables E P _ (stable tables _ h)))
