-- ===== src/Comments/Threads.antt =====
-- be/tasks/add_pic_comment_task.go: the threads of comments.
use mathlib.Core.Path.{subst}
use pixur.Base.{
  ℕ, ◌≡◌, ◌⊎◌, ◌∙◌, refl, sym, ap, true, false, Option, none, some, List, [], ◌∷◌, ◌++◌, All,
  Bool-cases, inl, inr,
}
use pixur.Text.{Text, Library, Ranges}
use pixur.Schema.{Time, Ext, Tables, PicComment, User, Configuration}
use pixur.Job.{Job, Action}
use pixur.Job.Returns.{Returns-weaken}
use pixur.Job.Keeps.{Keeps_use, Keeps-bind, Keeps-revert-Returns}
use pixur.Tables.{int, Key, eqb_Key, has_prefix, has_key, select}
use pixur.Tables.Laws.{only_pic}
use pixur.Tables.Comments.{pic_comments_table}
use pixur.Auth.{user_id_of}
use pixur.Auth.Keeps.{Keeps-authed_job}
use pixur.Comments.{add_pic_comment}
use pixur.Comments.Done.{Answers, Commented, Returns-add_pic_comment_job}

-- A comment answers nothing, or a comment on the same picture.
abbrev pub HasParent : List PicComment → PicComment → Type 0
HasParent cs c =
    (c.comment_parent_id ≡ 0)
    ⊎ (has_key (pic_comments_table.key) (int c.pic_id ∷ int c.comment_parent_id ∷ []) cs ≡ true)

abbrev pub IsThreaded : Tables → Type 0
IsThreaded t = All (HasParent t.pic_comments) t.pic_comments

has_key-append :
    (k : Key) (cs : List PicComment) (c : PicComment)
    → has_key (pic_comments_table.key) k cs ≡ true
    → has_key (pic_comments_table.key) k (cs ++ (c ∷ [])) ≡ true
has_key-append k [] c e = cc
has_key-append k (d ∷ ds) c e = elim (Bool-cases (eqb_Key k (pic_comments_table.key d))) [
  | inl hit ↦ rw hit refl
  | inr miss ↦ rw miss (has_key-append k ds c (rw miss at e))
]

has_key-select :
    (i j : ℕ) (cs : List PicComment) (c : PicComment) (ds : List PicComment)
    → select (pic_comments_table.key) (int i ∷ int j ∷ []) cs ≡ c ∷ ds
    → has_key (pic_comments_table.key) (int i ∷ int j ∷ []) cs ≡ true
has_key-select i j [] c ds e = cc
has_key-select i j (d ∷ cs) c ds e =
    elim (Bool-cases (has_prefix (int i ∷ int j ∷ []) (pic_comments_table.key d))) [
      | inl hit ↦ rw hit refl
      | inr miss ↦ rw miss (has_key-select i j cs c ds (rw miss at e))
    ]

All-append :
    (cs ds : List PicComment) (c : PicComment)
    → All (HasParent ds) cs
    → HasParent (ds ++ (c ∷ [])) c
    → All (HasParent (ds ++ (c ∷ []))) (cs ++ (c ∷ []))
All-append [] ds c h new = (new, tt)
All-append (b ∷ bs) ds c (h, hs) new = (stays h, All-append bs ds c hs new)
  where
    stays : HasParent ds b → HasParent (ds ++ (c ∷ [])) b
    stays (inl top) = inl top
    stays (inr there) =
        inr (has_key-append (int b.pic_id ∷ int b.comment_parent_id ∷ []) ds c there)

Commented-IsThreaded :
    {E : Type 0} (lib : Library) (ranges : Ranges) (conf : Configuration) (now : Time)
    (pic_id parent_id : ℕ) (text : Text) (ext : Ext) (u : Option User) (t t' : Tables)
    (pc : PicComment)
    → Commented E lib ranges conf now pic_id parent_id text ext u t pc t'
    → IsThreaded t
    → IsThreaded t'
Commented-IsThreaded lib ranges conf now pic_id parent_id text ext u t t' pc d h =
    subst IsThreaded (sym d.tables)
      (All-append t.pic_comments t.pic_comments pc h (parented d.parent d.answers))
  where
    at : pc.pic_id ≡ pic_id
    at = ap (λ r. r.pic_id) d.row ∙ (only_pic pic_id d.pic t.pics d.only).0

    below : pc.comment_parent_id ≡ parent_id
    below = ap (λ r. r.comment_parent_id) d.row

    parented :
        (o : Option PicComment)
        → Answers conf pic_id parent_id (user_id_of u) t o
        → HasParent (t.pic_comments ++ (pc ∷ [])) pc
    parented none top = inl (below ∙ top)
    parented (some c) (only, may) = inr (
        has_key-append (int pc.pic_id ∷ int pc.comment_parent_id ∷ []) t.pic_comments pc (
          subst
            (λ i.
              has_key (pic_comments_table.key) (int i ∷ int pc.comment_parent_id ∷ [])
                t.pic_comments
              ≡ true)
            (sym at)
            (subst
              (λ j.
                has_key (pic_comments_table.key) (int pic_id ∷ int j ∷ []) t.pic_comments ≡ true)
              (sym below) (has_key-select pic_id parent_id t.pic_comments c [] only))))

module _ {E : Type 0} (lib : Library) (ranges : Ranges) (conf : Configuration) (now : Time)
    (alloc_id : Action E ℕ) (apart : (s : Job E) → (alloc_id s).1.tables ≡ s.tables)
    (pic_id parent_id : ℕ) (text : Text) (ext : Ext) where
  -- If the source of ids leaves the tables alone, a task that adds a comment, whether it succeeds
  -- or fails, keeps it true that every comment answers none or a comment on the same picture.
  pub add_pic_comment-IsThreaded :
      (tok : Option (ℕ × ℕ)) (s : Job E)
      → IsThreaded s.tables
      → IsThreaded
          (add_pic_comment lib ranges conf now alloc_id tok pic_id parent_id text ext s).1.tables
  unfolding add_pic_comment
  add_pic_comment-IsThreaded tok =
      Keeps_use E IsThreaded
        (add_pic_comment lib ranges conf now alloc_id tok pic_id parent_id text ext)
        (Keeps-bind E IsThreaded _ _ (Keeps-authed_job E IsThreaded (λ t us h. h) now false tok)
          (λ u. Keeps-revert-Returns E IsThreaded _ (λ s h.
            Returns-weaken _ s _ _
              (λ pc s' d.
                Commented-IsThreaded lib ranges conf now pic_id parent_id text ext u s.tables
                  s'.tables pc d h)
              (Returns-add_pic_comment_job lib ranges conf now alloc_id apart pic_id parent_id text
                ext u s))))
