-- ===== src/Deletion/States.antt =====
-- be/tasks/soft_delete_pic_task.go, hard_delete_pic_task.go: the life of a picture under these tasks, and
-- what they leave in the tables.
use mathlib.Core.Path.{subst}
use pixur.Base.{
  ℕ, ◌≡◌, ◌∙◌, refl, sym, ap, Option, none, some, List, [], ◌∷◌, All, Bool-cases, inl, inr,
}
use pixur.Base.Result.{ok}
use pixur.Schema.{Time, Tables, Pic, User, Configuration}
use pixur.Job.{not_found, from, Job, Action, ◌>>=◌, call, or_internal}
use pixur.Job.Returns.{
  Returns, Returns-bind, Returns-weaken, Returns-pure, Returns-require, Returns-bind-require,
  Returns-bind-require_none,
}
use pixur.Tables.{Value, eqb_Key, int, select, replace, has_prefix, limited}
use pixur.Tables.Pics.{pics_table, pics_primary, update_pic}
use pixur.Tables.Rows.{
  after, Returns-bind-find, Returns-bind-update, Returns-bind-internal_call, Returns-internal_call,
}
use pixur.Auth.{validate_capability}
use pixur.Auth.Refresh.{single_ok}
use pixur.Votes.Tally.{Counts}
use pixur.Votes.Task.{VotesValid}
use pixur.Deletion.{
  Request, pic_soft_delete, pic_hard_delete, marked_before, soft_mark, hard_mark, lookup_pic,
  soft_delete_job, hard_delete_job,
}
use pixur.Deletion.Marks.{deleted, phase, Deletes, soft_mark-Deletes, hard_mark-Deletes}

-- A soft or a hard deletion of a picture.
pub data Step (E : Type 0) (p : Pic) : Pic → Type 0 where
  soft : (req : Request) (now : Time) (p' : Pic) → soft_mark {E = E} req now p ≡ ok p' → Step E p p'
  hard : (now : Time) (p' : Pic) → hard_mark {E = E} now p ≡ ok p' → Step E p p'

pub data Reach (E : Type 0) (p : Pic) : Pic → Type 0 where
  here : Reach E p p
  next : {q r : Pic} → Reach E p q → Step E q r → Reach E p r

Step-Deletes : {E : Type 0} {p p' : Pic} → Step E p p' → (now : Time) × Deletes now p p'
Step-Deletes {E} {p} (soft req now p' e) = (now, (soft_mark-Deletes {E = E} now p p' req e).0)
Step-Deletes {E} {p} (hard now p' e) = (now, (hard_mark-Deletes {E = E} now p p' e).0)

-- Under any sequence of soft and hard deletions, a picture that is hard deleted stays as it is.
pub Reach-deleted : {E : Type 0} {p q : Pic} → Reach E p q → phase p ≡ deleted → q ≡ p
Reach-deleted here gone = refl
Reach-deleted (next {q} r st) gone =
    let (now, d) = Step-Deletes st in
    absurd (d.before (subst (λ x. phase x ≡ deleted) (sym (Reach-deleted r gone)) gone))

-- Under any sequence of soft and hard deletions, the time at which a picture was first marked is
-- kept, and so is its id.
pub Reach-marked :
    {E : Type 0} {p q : Pic} (t : Time)
    → Reach E p q
    → marked_before p.deletion_status ≡ some t
    → (marked_before q.deletion_status ≡ some t) × (q.pic_id ≡ p.pic_id)
Reach-marked t here m = (m, refl)
Reach-marked t (next r st) m =
    let (now, d) = Step-Deletes st in
    let (before, id) = Reach-marked t r m in (d.mark t before, d.id ∙ id)

-- The tables after a task that changed one picture.
pub record Changed (pic_id : ℕ) (t t' : Tables) (p p' : Pic) : Type 0 where
  pub found : limited 1 (select (pics_table.key) (int pic_id ∷ []) t.pics) ≡ p ∷ []
  pub tables : t' ≡ record t { pics = replace (pics_table.key) (int p'.pic_id ∷ []) p' t.pics }

module _ {E : Type 0} (s : Job E) (pic_id : ℕ) where
  pub Returns-bind-lookup_pic :
      {B : Type 0} (Q : B → Job E → Type 0) (f : Pic → Action E B)
      → ((p : Pic) (fs : List (Option E))
          → limited 1 (select (pics_table.key) (int pic_id ∷ []) s.tables.pics) ≡ p ∷ []
          → Returns (f p) (after s.tables fs) Q)
      → Returns (lookup_pic pic_id >>= f) s Q
  unfolding lookup_pic
  Returns-bind-lookup_pic Q f h = Returns-bind (lookup_pic pic_id) f s Q (
      Returns-bind-find pics_table s _ (pics_primary (record { id = some pic_id })) 1
        (int pic_id ∷ []) _ refl
        (λ fs. Returns-require _ _ _ (λ p e. h p fs (single_ok not_found _ p e))))

  -- The picture is stored again after its change.
  store_lem :
      (p p' : Pic) (fs : List (Option E))
      → limited 1 (select (pics_table.key) (int pic_id ∷ []) s.tables.pics) ≡ p ∷ []
      → Returns
          (or_internal (update_pic p') >>= λ _. or_internal (call from))
          (after s.tables fs)
          (λ _ s'. Changed pic_id s.tables s'.tables p p')
  store_lem p p' fs found =
      Returns-bind-update pics_table _ _ p' _
        (λ fs1. Returns-internal_call _ _ (λ fs2. record { found = found; tables = refl }))

  -- A soft deletion that returned has marked the picture.
  pub Returns-soft_delete_job :
      (conf : Configuration) (now : Time) (req : Request) (u : Option User)
      → Returns (soft_delete_job conf now pic_id req u) s (λ _ s'.
        (p p' : Pic) × (validate_capability {E = E} u conf (pic_soft_delete ∷ []) ≡ none)
        × Changed pic_id s.tables s'.tables p p'
        × (soft_mark {E = E} req now p ≡ ok p'))
  unfolding soft_delete_job
  Returns-soft_delete_job conf now req u = Returns-bind-require_none s _ _ _ (λ allowed.
      Returns-bind-lookup_pic _ _ (λ p fs found. Returns-bind-require _ _ _ _ (λ p' e.
        Returns-weaken _ _ _ _ (λ _ s' changed. (p, p', allowed, changed, e))
          (store_lem p p' fs found))))

  -- A hard deletion that returned has deleted it, and its files are those of the picture before.
  pub Returns-hard_delete_job :
      (conf : Configuration) (now : Time) (u : Option User)
      → Returns (hard_delete_job conf now pic_id u) s (λ p s'.
        (p' : Pic) × (validate_capability {E = E} u conf (pic_hard_delete ∷ []) ≡ none)
        × Changed pic_id s.tables s'.tables p p'
        × (hard_mark {E = E} now p ≡ ok p'))
  unfolding hard_delete_job
  Returns-hard_delete_job conf now u = Returns-bind-require_none s _ _ _ (λ allowed.
      Returns-bind-lookup_pic _ _ (λ p fs found. Returns-bind-require _ _ _ _ (λ p' e.
        Returns-bind-update pics_table _ _ p' _ (λ fs1.
          Returns-bind-internal_call _ _ _ (λ fs2.
            Returns-pure _ _ _ (p', allowed, record { found = found; tables = refl }, e))))))

All-select :
    (P : Pic → Type 0) (k : List Value) (ps : List Pic)
    → All P ps
    → All P (select (pics_table.key) k ps)
All-select P k [] h = tt
All-select P k (p ∷ ps) (h, hs) = elim (Bool-cases (has_prefix k (pics_table.key p))) [
  | inl hit ↦ rw hit (h, All-select P k ps hs)
  | inr miss ↦ rw miss (All-select P k ps hs)
]

pub All-limited :
    (P : Pic → Type 0) (ps : List Pic) (p : Pic) → limited 1 ps ≡ p ∷ [] → All P ps → P p
All-limited P [] p e h = cc
All-limited P (q ∷ qs) p e (h, hs) = subst P (ap (head_or q) e) h
  where
    head_or : Pic → List Pic → Pic
    head_or d [] = d
    head_or d (x ∷ xs) = x

All-replace :
    (P : Pic → Type 0) (k : List Value) (p' : Pic) (ps : List Pic)
    → P p'
    → All P ps
    → All P (replace (pics_table.key) k p' ps)
All-replace P k p' [] new h = tt
All-replace P k p' (p ∷ ps) new (h, hs) = elim (Bool-cases (eqb_Key k (pics_table.key p))) [
  | inl hit ↦ rw hit (new, All-replace P k p' ps new hs)
  | inr miss ↦ rw miss (h, All-replace P k p' ps new hs)
]

-- Such a change keeps the counters right.
pub Changed-VotesValid :
    (now : Time) (pic_id : ℕ) (t t' : Tables) (p p' : Pic)
    → Changed pic_id t t' p p'
    → Deletes now p p'
    → VotesValid t
    → VotesValid t'
Changed-VotesValid now pic_id t t' p p' c d (tallied, once) =
    subst VotesValid (sym c.tables)
      (All-replace (Counts t.pic_votes) (int p'.pic_id ∷ []) p' t.pics counts tallied, once)
  where
    old : Counts t.pic_votes p
    old =
        All-limited (Counts t.pic_votes) _ p c.found
          (All-select (Counts t.pic_votes) (int pic_id ∷ []) t.pics tallied)

    counts : Counts t.pic_votes p'
    counts = rw (d.id, d.ups, d.downs) old
