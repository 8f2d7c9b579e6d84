-- ===== src/Comments/Done.antt =====
-- be/tasks/add_pic_comment_task.go: what a comment that was accepted has done.
use pixur.Base.{
  ℕ, ◌≡◌, ◌⊎◌, refl, arith, true, false, ◌&&◌, not, Option, none, some, List, [], ◌∷◌, ◌++◌, ◌==◌,
  Bool-cases, inl, inr,
}
use pixur.Base.Result.{ok}
use pixur.Text.{Text, Library, Ranges}
use pixur.Schema.{
  Time, Ext, Tables, Pic, PicComment, User, UserEvent, Configuration, anonymous_user_id,
}
use pixur.Job.{not_found, invalid_argument, Job, Action, ◌>>=◌}
use pixur.Job.Returns.{
  Returns, Returns-bind, Returns-weaken, Returns-pure, Returns-bind-require, Returns-require_none,
  Returns-bind-require_none, Returns-revert, Returns_use,
}
use pixur.Tables.{int, select}
use pixur.Tables.Pics.{pics_table, pics_primary}
use pixur.Tables.Comments.{pic_comments_table, pic_comments_primary}
use pixur.Tables.Rows.{
  after, Returns-bind-apart, Returns-bind-find, Returns-bind-insert, Returns-bind-internal_call,
}
use pixur.Auth.{authed_job, validate_capability, user_id_of}
use pixur.Auth.Session.{RunsFor, SameButUsers, Returns-authed_job}
use pixur.Auth.Refresh.{single_ok}
use pixur.Votes.{hard_deleted, seen_first, notified, tell_users}
use pixur.Votes.Events.{event_users, tell_users_lem}
use pixur.Votes.Run.{refuse_if-none}
use pixur.Comments.{
  pic_comment_create, is_off, has_sibling, told_of_comment, find_parent, check_siblings,
  clean_comment, add_pic_comment_job, add_pic_comment,
}

-- The comment that is answered: none, or the only one with the ids, which the user may answer.
abbrev pub Answers : Configuration → ℕ → ℕ → ℕ → Tables → Option PicComment → Type 0
Answers conf pic_id parent_id user_id t none = parent_id ≡ 0
Answers conf pic_id parent_id user_id t (some c) =
    (select (pic_comments_table.key) (int pic_id ∷ int parent_id ∷ []) t.pic_comments ≡ c ∷ [])
    × ((is_off conf.enable_pic_comment_self_reply
          && (user_id == c.user_id && not (user_id == anonymous_user_id)))
        ≡ false)

-- Where sibling replies are switched off, a named user has not answered the same comment before.
abbrev pub NoSibling : Configuration → ℕ → ℕ → ℕ → Tables → Type 0
NoSibling conf pic_id parent_id user_id t =
    ((is_off conf.enable_pic_comment_sibling_reply && not (user_id == anonymous_user_id)) ≡ false)
    ⊎ (has_sibling parent_id user_id
          (select (pic_comments_table.key) (int pic_id ∷ []) t.pic_comments)
        ≡ false)

-- A comment that was accepted.
pub record Commented (E : Type 0) (lib : Library) (ranges : Ranges) (conf : Configuration)
    (now : Time) (pic_id parent_id : ℕ) (text : Text) (ext : Ext) (u : Option User) (t : Tables)
    (pc : PicComment) (t' : Tables) : Type 0 where
  pub pic : Pic
  pub only : select (pics_table.key) (int pic_id ∷ []) t.pics ≡ pic ∷ []
  pub alive : hard_deleted pic ≡ false
  pub allowed : validate_capability {E = E} u conf (pic_comment_create ∷ []) ≡ none
  pub clean : Text
  pub cleaned : clean_comment {E = E} lib ranges conf text ≡ ok clean
  pub parent : Option PicComment
  pub answers : Answers conf pic_id parent_id (user_id_of u) t parent
  pub siblings : NoSibling conf pic_id parent_id (user_id_of u) t
  pub row : pc ≡ record {
    pic_id = pic.pic_id;
    comment_id = pc.comment_id;
    comment_parent_id = parent_id;
    user_id = user_id_of u;
    text = clean;
    vote_up = 0;
    vote_down = 0;
    created_ts = now;
    modified_ts = now;
    ext = ext;
  }
  pub events : List UserEvent
  pub told :
      event_users events
      ≡ seen_first (user_id_of u)
        ++ notified (seen_first (user_id_of u)) (told_of_comment pic parent)
  pub tables : t' ≡ record t {
    pic_comments = t.pic_comments ++ (pc ∷ []);
    user_events = t.user_events ++ events;
  }

module _ {E B : Type 0} (s : Job E) (Q : B → Job E → Type 0) (conf : Configuration)
    (pic_id parent_id user_id : ℕ) where
  Returns-bind-find_parent :
      (f : Option PicComment → Action E B)
      → ((o : Option PicComment) (fs : List (Option E))
          → Answers conf pic_id parent_id user_id s.tables o
          → Returns (f o) (after s.tables fs) Q)
      → Returns (find_parent conf pic_id parent_id user_id >>= f) s Q
  unfolding find_parent
  Returns-bind-find_parent f h =
      Returns-bind (find_parent conf pic_id parent_id user_id) f s Q
        (elim (Bool-cases (parent_id == 0)) [
          | inl top ↦ rw top (Returns-pure none s _ (h none s.faults (zero_id parent_id top)))
          | inr answer ↦ rw answer (
              Returns-bind-find pic_comments_table s _
                (pic_comments_primary
                  (record { pic_id = some pic_id; comment_id = some parent_id }))
                0 (int pic_id ∷ int parent_id ∷ []) _ refl
                (λ fs. Returns-bind-require _ _ _ _ (λ c only.
                  Returns-bind-require_none _ _ _ _ (λ may. Returns-pure _ _ _ (
                    h (some c) fs (
                      single_ok not_found _ c only,
                      refuse_if-none {E = E} _ invalid_argument may,
                    ))))))
        ])
    where
      zero_id : (n : ℕ) → (n == 0) ≡ true → n ≡ 0
      zero_id n e = ground arith

  Returns-bind-check_siblings :
      (f : Unit {0} → Action E B)
      → ((fs : List (Option E))
          → NoSibling conf pic_id parent_id user_id s.tables
          → Returns (f tt) (after s.tables fs) Q)
      → Returns (check_siblings conf pic_id parent_id user_id >>= f) s Q
  unfolding check_siblings
  Returns-bind-check_siblings f h =
      Returns-bind (check_siblings conf pic_id parent_id user_id) f s Q
        (elim (Bool-cases
          (is_off conf.enable_pic_comment_sibling_reply && not (user_id == anonymous_user_id))) [
            | inr free ↦ rw free (Returns-pure tt s _ (h s.faults (inl free)))
            | inl strict ↦ rw strict (
                Returns-bind-find pic_comments_table s _
                  (pic_comments_primary (record { pic_id = some pic_id; comment_id = none })) 0
                  (int pic_id ∷ []) _ refl
                  (λ fs.
                    Returns-require_none _ _ _
                      (λ unique. h fs (inr (refuse_if-none {E = E} _ invalid_argument unique)))))
          ])

-- The same from the session of the user on.
abbrev pub CommentDone :
    Type 0
    → Library
    → Ranges
    → Configuration
    → Time
    → Option (ℕ × ℕ)
    → ℕ
    → ℕ
    → Text
    → Ext
    → Tables
    → PicComment
    → Tables
    → Type 0
CommentDone E lib ranges conf now tok pic_id parent_id text ext t pc t' =
    (u : Option User) × (t1 : Tables) × RunsFor E now tok t1 u
    × SameButUsers t t1
    × Commented E lib ranges conf now pic_id parent_id text ext u t1 pc t'

module _ {E : Type 0} (lib : Library) (ranges : Ranges) (conf : Configuration) (now : Time)
    (alloc_id : Action E ℕ) (apart : (s : Job E) → (alloc_id s).1.tables ≡ s.tables)
    (pic_id parent_id : ℕ) (text : Text) (ext : Ext) where
  pub Returns-add_pic_comment_job :
      (u : Option User) (s : Job E)
      → Returns
          (add_pic_comment_job lib ranges conf now alloc_id pic_id parent_id text ext u)
          s
          (λ pc s'.
            Commented E lib ranges conf now pic_id parent_id text ext u s.tables pc s'.tables)
  unfolding add_pic_comment_job
  Returns-add_pic_comment_job u s = Returns-bind-require s _ _ _ (λ clean cleaned.
      Returns-bind-require_none s _ _ _ (λ allowed.
        Returns-bind-require_none s _ _ _ (λ allowed_ext.
          Returns-bind-find pics_table s _ (pics_primary (record { id = some pic_id })) 0
            (int pic_id ∷ []) _ refl
            (λ fs1. Returns-bind-require _ _ _ _ (λ p only.
              Returns-bind-require_none _ _ _ _ (λ alive.
                Returns-bind-find_parent _ _ conf pic_id parent_id (user_id_of u) _
                  (λ parent fs2 answers.
                    Returns-bind-check_siblings _ _ conf pic_id parent_id (user_id_of u) _
                      (λ fs3 siblings. Returns-bind-apart alloc_id apart _ _ _ (λ comment_id fs4.
                        Returns-bind-insert pic_comments_table _ _ _ _ (λ new fs5.
                          Returns-bind
                            (tell_users _ _ (user_id_of u) (told_of_comment p parent) now) _ _ _
                            (Returns-weaken _ _ _ _
                              (λ _ s6 (ues, moved, users). Returns-bind-internal_call _ _ _ (λ fs7.
                                Returns-pure _ _ _ (record {
                                  pic = p;
                                  only = single_ok not_found _ p only;
                                  alive = refuse_if-none (hard_deleted p) invalid_argument alive;
                                  allowed = allowed;
                                  clean = clean;
                                  cleaned = cleaned;
                                  parent = parent;
                                  answers = answers;
                                  siblings = siblings;
                                  row = refl;
                                  events = ues;
                                  told = users;
                                  tables = moved;
                                })))
                              (tell_users_lem _ _ (user_id_of u) (told_of_comment p parent) now
                                _))))))))))))

  -- If the source of ids leaves the tables alone and a comment is accepted, then the user of the
  -- session has the capability to comment, there is one picture with the id and it is not hard
  -- deleted, the text is the one that the rules accept, the comment answers none or the only one
  -- with the id of the parent on that picture, within the rules on answers to oneself and second
  -- answers that are switched on; the new row is stored behind the others, with one new event for
  -- the user, unless that is the anonymous user, and behind it one for the user of the parent, or
  -- for each user of the picture if there is no parent; but for the users, nothing else has
  -- changed.
  pub add_pic_comment-CommentDone :
      (tok : Option (ℕ × ℕ)) (s s' : Job E) (pc : PicComment)
      → add_pic_comment lib ranges conf now alloc_id tok pic_id parent_id text ext s ≡ (ok pc, s')
      → CommentDone E lib ranges conf now tok pic_id parent_id text ext s.tables pc s'.tables
  unfolding add_pic_comment
  add_pic_comment-CommentDone tok s s' pc =
      Returns_use (add_pic_comment lib ranges conf now alloc_id tok pic_id parent_id text ext) s s'
        pc
        (λ w s1.
          CommentDone E lib ranges conf now tok pic_id parent_id text ext s.tables w s1.tables)
        (Returns-bind (authed_job now false tok) _ s _ (
          Returns-weaken _ s _ _
            (λ u s1 (session, same). Returns-revert _ s1 _ (
              Returns-weaken _ s1 _ _ (λ w s2 d. (u, s1.tables, session, same, d))
                (Returns-add_pic_comment_job u s1)))
            (Returns-authed_job now false tok s)))
