-- ===== src/Deletion/Task.antt =====
-- be/tasks/soft_delete_pic_task.go, hard_delete_pic_task.go: the tasks as a whole, from the session of the
-- user to the files.
use pixur.Base.{ℕ, ◌≡◌, ◌↔◌, refl, false, Option, none, some, List, [], ◌∷◌, All}
use pixur.Base.Result.{Result, ok, err}
use pixur.Schema.{Time, Tables, Pic, User, Configuration}
use pixur.Job.{Status, Job, revert}
use pixur.Job.Returns.{
  Returns, Returns-bind, Returns_use, Returns-weaken, Returns-require_none,
  Returns-bind-require_none, Returns-revert,
}
use pixur.Job.Keeps.{
  Keeps_use, Keeps-bind, Keeps-require_none, Keeps-revert-Returns, Keeps-bind-revert,
  Keeps-bind-require_none,
}
use pixur.Auth.{authed_job, validate_capability}
use pixur.Auth.Session.{RunsFor, SameButUsers, Returns-authed_job}
use pixur.Auth.Keeps.{SameButUsers-stable, Keeps-authed_job}
use pixur.Votes.Task.{VotesValid}
use pixur.Deletion.{
  Request, pic_soft_delete, pic_hard_delete, soft_mark, hard_mark, soft_delete_job, soft_delete,
  hard_delete_job,
}
use pixur.Deletion.Files.{FilePath, pic_paths, remove_file, remove_files, hard_delete}
use pixur.Deletion.Marks.{Deletes, marked, deleted, phase, soft_mark-Deletes, hard_mark-Deletes}
use pixur.Deletion.States.{
  Changed, Changed-VotesValid, Returns-soft_delete_job, Returns-hard_delete_job,
}

-- The removal of files reports no error exactly when no single removal failed.
pub remove_files_iff :
    {E : Type 0} (remove : FilePath → Option E) (paths : List (Result (Status E) FilePath))
    → (remove_files remove paths ≡ none) ↔ All (λ path. remove_file remove path ≡ none) paths
unfolding remove_files
remove_files_iff remove [] = ((λ e. tt), λ h. refl)
remove_files_iff {E} remove (path ∷ paths) =
    go (remove_files remove paths) (remove_files_iff remove paths)
  where
    last : Option (Status E) → Option (Status E)
    last o = elim o [ some st ↦ some st | none ↦ remove_file remove path ]

    go :
        (o : Option (Status E))
        → (o ≡ none) ↔ All (λ p. remove_file remove p ≡ none) paths
        → (last o ≡ none) ↔ All (λ p. remove_file remove p ≡ none) (path ∷ paths)
    go none (to, back) = ((λ e. (e, to refl)), λ (h, hs). h)
    go (some st) (to, back) = ((λ e. cc), λ (h, hs). absurd (cc (back hs)))

-- What a soft deletion that was accepted has done.
abbrev pub SoftDeleted :
    Type 0 → Configuration → Time → Option (ℕ × ℕ) → ℕ → Request → Tables → Tables → Type 0
SoftDeleted E conf now tok pic_id req t t' =
    (u : Option User) × (t1 : Tables) × (p p' : Pic) × RunsFor E now tok t1 u
    × SameButUsers t t1
    × (validate_capability {E = E} u conf (pic_soft_delete ∷ []) ≡ none)
    × Changed pic_id t1 t' p p'
    × (soft_mark {E = E} req now p ≡ ok p')
    × Deletes now p p'
    × (phase p' ≡ marked)

-- What a hard deletion has done: the files of the picture as it was are removed.
abbrev pub HardDeleted :
    (E : Type 0)
    → (List FilePath → FilePath)
    → FilePath
    → (FilePath → Option E)
    → Configuration
    → Time
    → Option (ℕ × ℕ)
    → ℕ
    → Tables
    → Tables
    → Type 0
HardDeleted E join pix_path remove conf now tok pic_id t t' =
    (u : Option User) × (t1 : Tables) × (p p' : Pic) × RunsFor E now tok t1 u
    × SameButUsers t t1
    × (validate_capability {E = E} u conf (pic_hard_delete ∷ []) ≡ none)
    × Changed pic_id t1 t' p p'
    × (hard_mark {E = E} now p ≡ ok p')
    × Deletes now p p'
    × (phase p' ≡ deleted)
    × (p'.thumbnail ≡ [])
    × All (λ path. remove_file remove path ≡ none) (pic_paths join pix_path p)

module _ {E : Type 0} (conf : Configuration) (now : Time) (tok : Option (ℕ × ℕ)) (pic_id : ℕ)
    (s : Job E) where
  module _ (req : Request) where
    Returns-soft_delete :
        Returns
          (soft_delete conf now tok pic_id req)
          s
          (λ _ s'. SoftDeleted E conf now tok pic_id req s.tables s'.tables)
    unfolding soft_delete
    Returns-soft_delete = Returns-bind-require_none s _ _ _ (λ good.
        Returns-bind (authed_job now false tok) _ s _ (
          Returns-weaken _ s _ _
            (λ u s1 (session, same). Returns-revert _ s1 _ (
              Returns-weaken _ s1 _ _
                (λ _ s' (p, p', allowed, c, e).
                  let (d, m) = soft_mark-Deletes {E = E} now p p' req e in
                  (u, s1.tables, p, p', session, same, allowed, c, e, d, m))
                (Returns-soft_delete_job s1 pic_id conf now req u)))
            (Returns-authed_job now false tok s)))

    -- Where a soft deletion succeeds, the user of the session has the capability for it, the
    -- picture found was not hard deleted and is stored again as the marked one, with its id, its
    -- counters and the time of its first mark kept, and no other row but those of users has
    -- changed.
    pub soft_delete-SoftDeleted :
        (s' : Job E)
        → soft_delete conf now tok pic_id req s ≡ (ok tt, s')
        → SoftDeleted E conf now tok pic_id req s.tables s'.tables
    soft_delete-SoftDeleted s' =
        Returns_use (soft_delete conf now tok pic_id req) s s' tt
          (λ _ s1. SoftDeleted E conf now tok pic_id req s.tables s1.tables) Returns-soft_delete

    -- A soft deletion that fails leaves all tables but that of the users as they were.
    pub soft_delete-SameButUsers :
        (s' : Job E) (st : Status E)
        → soft_delete conf now tok pic_id req s ≡ (err st, s')
        → SameButUsers s.tables s'.tables
    unfolding soft_delete
    soft_delete-SameButUsers s' st =
        Keeps-bind-require_none E (SameButUsers s.tables) _ _ s s' st refl (
          Keeps-bind-revert E (SameButUsers s.tables) (authed_job now false tok)
            (soft_delete_job conf now pic_id req) s s' st
            (Keeps-authed_job E (SameButUsers s.tables) (SameButUsers-stable s.tables) now false
              tok)
            refl)

    -- A soft deletion, successful or not, keeps the counters of all pictures equal to their votes
    -- and the votes of named users single.
    pub soft_delete-VotesValid :
        VotesValid s.tables → VotesValid (soft_delete conf now tok pic_id req s).1.tables
    unfolding soft_delete
    soft_delete-VotesValid =
        Keeps_use E VotesValid (soft_delete conf now tok pic_id req)
          (Keeps-bind E VotesValid _ _ (Keeps-require_none E VotesValid _) (λ _.
            Keeps-bind E VotesValid _ _ (Keeps-authed_job E VotesValid (λ t us h. h) now false tok)
              (λ u. Keeps-revert-Returns E VotesValid _ (λ s1 h.
                Returns-weaken _ s1 _ _
                  (λ _ s' (p, p', allowed, c, e).
                    Changed-VotesValid now pic_id s1.tables s'.tables p p' c
                      (soft_mark-Deletes {E = E} now p p' req e).0 h)
                  (Returns-soft_delete_job s1 pic_id conf now req u)))))
          s

  module _ (join : List FilePath → FilePath) (pix_path : FilePath)
      (remove : FilePath → Option E) where
    Returns-hard_delete :
        Returns
          (hard_delete join pix_path remove conf now tok pic_id)
          s
          (λ _ s'. HardDeleted E join pix_path remove conf now tok pic_id s.tables s'.tables)
    unfolding hard_delete
    Returns-hard_delete = Returns-bind (authed_job now false tok) _ s _ (
        Returns-weaken _ s _ _
          (λ u s1 (session, same).
            Returns-bind (revert (hard_delete_job conf now pic_id u)) _ s1 _ (
              Returns-revert _ s1 _ (
                Returns-weaken _ s1 _ _
                  (λ p s' (p', allowed, c, e).
                    let (d, m, th) = hard_mark-Deletes {E = E} now p p' e in
                    Returns-require_none _ s' _ (λ gone. (
                      u,
                      s1.tables,
                      p,
                      p',
                      session,
                      same,
                      allowed,
                      c,
                      e,
                      d,
                      m,
                      th,
                      (remove_files_iff remove (pic_paths join pix_path p)).0 gone,
                    )))
                  (Returns-hard_delete_job s1 pic_id conf now u))))
          (Returns-authed_job now false tok s))

    -- Where a hard deletion succeeds, the user of the session has the capability for it, the
    -- picture found was not hard deleted and is stored again as the deleted one, without
    -- thumbnails, with its id, its counters and the time of its first mark kept, no other row but
    -- those of users has changed, and the file and every thumbnail of the picture as it was were
    -- removed without an error.
    pub hard_delete-HardDeleted :
        (s' : Job E)
        → hard_delete join pix_path remove conf now tok pic_id s ≡ (ok tt, s')
        → HardDeleted E join pix_path remove conf now tok pic_id s.tables s'.tables
    hard_delete-HardDeleted s' =
        Returns_use (hard_delete join pix_path remove conf now tok pic_id) s s' tt
          (λ _ s1. HardDeleted E join pix_path remove conf now tok pic_id s.tables s1.tables)
          Returns-hard_delete

    -- A hard deletion, successful or not, keeps the counters of all pictures equal to their votes
    -- and the votes of named users single.
    pub hard_delete-VotesValid :
        VotesValid s.tables
        → VotesValid (hard_delete join pix_path remove conf now tok pic_id s).1.tables
    unfolding hard_delete
    hard_delete-VotesValid =
        Keeps_use E VotesValid (hard_delete join pix_path remove conf now tok pic_id)
          (Keeps-bind E VotesValid _ _ (Keeps-authed_job E VotesValid (λ t us h. h) now false tok)
            (λ u.
              Keeps-bind E VotesValid _ _
                (Keeps-revert-Returns E VotesValid _ (λ s1 h.
                  Returns-weaken _ s1 _ _
                    (λ p s' (p', allowed, c, e).
                      Changed-VotesValid now pic_id s1.tables s'.tables p p' c
                        (hard_mark-Deletes {E = E} now p p' e).0 h)
                    (Returns-hard_delete_job s1 pic_id conf now u)))
                (λ p. Keeps-require_none E VotesValid _)))
          s
