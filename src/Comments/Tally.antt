-- ===== src/Comments/Tally.antt =====
-- be/tasks/add_pic_comment_vote_task.go: the counters of a comment are the numbers of its votes, and a
-- named user votes once on a comment.
use mathlib.Core.Path.{subst}
use pixur.Base.{
  ℕ, ◌+◌, ◌%◌, ◌^◌, ◌≡◌, ◌∙◌, refl, sym, ap, arith, Bool, true, false, ◌&&◌, Option, List, [], ◌∷◌,
  ◌++◌, All, ◌==◌, if◌then◌else◌, Bool-cases, inl, inr,
}
use pixur.Schema.{
  Time, Ext, Tables, Vote, up, down, neutral, other, PicComment, PicCommentVote, User,
  Configuration,
}
use pixur.Tables.{int, select, has_prefix, replace}
use pixur.Tables.Comments.{pic_comments_table}
use pixur.Tables.Laws.{only_pic, select-All, select-only}
use pixur.Votes.{increment}
use pixur.Votes.Tally.{is_up, is_down, bump}
use pixur.Comments.{count_comment_vote}
use pixur.Comments.Run.{stored_comment, CommentVoted}

-- Whether a vote is on a comment.
abbrev pub is_on : ℕ → ℕ → PicCommentVote → Bool
is_on pic_id comment_id v = v.pic_id == pic_id && v.comment_id == comment_id

-- How many votes on the comment are of that kind.
abbrev pub comment_tally : (Vote → Bool) → ℕ → ℕ → List PicCommentVote → ℕ
comment_tally kind pic_id comment_id [] = 0
comment_tally kind pic_id comment_id (v ∷ vs) =
    (if kind v.vote && is_on pic_id comment_id v then 1 else 0)
    + comment_tally kind pic_id comment_id vs

tally-append :
    (kind : Vote → Bool) (i j : ℕ) (vs : List PicCommentVote) (v : PicCommentVote)
    → comment_tally kind i j (vs ++ (v ∷ []))
      ≡ comment_tally kind i j vs + (if kind v.vote && is_on i j v then 1 else 0)
tally-append kind i j [] v = omega arith
tally-append kind i j (w ∷ vs) v = omega (arith, tally-append kind i j vs v)

-- The counters, which are int64, stand for the votes.
abbrev pub CommentCounts : List PicCommentVote → PicComment → Type 0
CommentCounts vs c =
    (c.vote_up ≡ comment_tally is_up c.pic_id c.comment_id vs % 2 ^ 64)
    × (c.vote_down ≡ comment_tally is_down c.pic_id c.comment_id vs % 2 ^ 64)

abbrev pub CommentsTallied : Tables → Type 0
CommentsTallied t = All (CommentCounts t.pic_comment_votes) t.pic_comments

-- What a new vote adds to a number of votes.
counted :
    (kind : Vote → Bool) (i j : ℕ) (vs : List PicCommentVote) (v : PicCommentVote)
    → (kind v.vote && is_on i j v) ≡ true
    → comment_tally kind i j (vs ++ (v ∷ [])) ≡ comment_tally kind i j vs + 1
counted kind i j vs v hit = tally-append kind i j vs v ∙ rw hit refl

passed_by :
    (kind : Vote → Bool) (i j : ℕ) (vs : List PicCommentVote) (v : PicCommentVote)
    → (kind v.vote && is_on i j v) ≡ false
    → comment_tally kind i j (vs ++ (v ∷ [])) ≡ comment_tally kind i j vs
passed_by kind i j vs v miss = tally-append kind i j vs v ∙ rw miss (omega arith)

left_false : (a b : Bool) → a ≡ false → (a && b) ≡ false
left_false a b e = ground arith

right_false : (a b : Bool) → b ≡ false → (a && b) ≡ false
right_false a b e = ground arith

both_true : (a b : Bool) → a ≡ true → b ≡ true → (a && b) ≡ true
both_true a b p q = ground arith

module _ (vs : List PicCommentVote) (v : PicCommentVote) where
  -- A vote that moves neither counter of the comment.
  Counts-same :
      (c : PicComment)
      → (is_up v.vote && is_on c.pic_id c.comment_id v) ≡ false
      → (is_down v.vote && is_on c.pic_id c.comment_id v) ≡ false
      → CommentCounts vs c
      → CommentCounts (vs ++ (v ∷ [])) c
  Counts-same c nu nd (ups, downs) = (
    ups ∙ ap (λ n. n % 2 ^ 64) (sym (passed_by is_up c.pic_id c.comment_id vs v nu)),
    downs ∙ ap (λ n. n % 2 ^ 64) (sym (passed_by is_down c.pic_id c.comment_id vs v nd)),
  )

  All-neutral :
      (cs : List PicComment)
      → is_up v.vote ≡ false
      → is_down v.vote ≡ false
      → All (CommentCounts vs) cs
      → All (CommentCounts (vs ++ (v ∷ []))) cs
  All-neutral [] nu nd h = tt
  All-neutral (c ∷ cs) nu nd (h, hs) = (
    Counts-same c (left_false (is_up v.vote) _ nu) (left_false (is_down v.vote) _ nd) h,
    All-neutral cs nu nd hs,
  )

  -- A vote on the only comment with those ids, which gets new counters.
  All-replace :
      (c c' : PicComment) (cs : List PicComment)
      → v.pic_id ≡ c.pic_id
      → v.comment_id ≡ c.comment_id
      → All
          (λ q.
            has_prefix (int c.pic_id ∷ int c.comment_id ∷ []) (pic_comments_table.key q) ≡ true
            → q ≡ c)
          cs
      → (CommentCounts vs c → CommentCounts (vs ++ (v ∷ [])) c')
      → All (CommentCounts vs) cs
      → All
          (CommentCounts (vs ++ (v ∷ [])))
          (replace (pic_comments_table.key) (int c.pic_id ∷ int c.comment_id ∷ []) c' cs)
  All-replace c c' [] at on only new h = tt
  All-replace c c' (q ∷ qs) at on (same, only) new (h, hs) =
      elim (Bool-cases (c.pic_id == q.pic_id && (c.comment_id == q.comment_id && true))) [
        | inl hit ↦
            rw hit
              (new (subst (CommentCounts vs) (same hit) h), All-replace c c' qs at on only new hs)
        | inr miss ↦
            let elsewhere =
              off v.pic_id c.pic_id q.pic_id v.comment_id c.comment_id q.comment_id at on miss in
            rw miss (
              Counts-same q (right_false (is_up v.vote) _ elsewhere)
                  (right_false (is_down v.vote) _ elsewhere) h,
              All-replace c c' qs at on only new hs,
            )
      ]
    where
      off :
          (a b d x y z : ℕ)
          → a ≡ b
          → x ≡ y
          → (b == d && (y == z && true)) ≡ false
          → (a == d && x == z) ≡ false
      off a b d x y z p q m = ground (arith, p, q, m)

-- The only comment with the ids.
pub only_comment_lem :
    (pic_id comment_id : ℕ) (c : PicComment) (cs : List PicComment)
    → select (pic_comments_table.key) (int pic_id ∷ int comment_id ∷ []) cs ≡ c ∷ []
    → (c.pic_id ≡ pic_id)
      × (c.comment_id ≡ comment_id)
      × All
          (λ q.
            has_prefix (int c.pic_id ∷ int c.comment_id ∷ []) (pic_comments_table.key q) ≡ true
            → q ≡ c)
          cs
only_comment_lem pic_id comment_id c cs only =
    let (hit, rest) =
      subst
        (All (λ r. has_prefix (int pic_id ∷ int comment_id ∷ []) (pic_comments_table.key r) ≡ true))
        only (select-All (pic_comments_table.key) (int pic_id ∷ int comment_id ∷ []) cs) in
    let (p_lem, c_lem) = ids pic_id comment_id c.pic_id c.comment_id hit in
    (
      p_lem,
      c_lem,
      subst
          (λ i.
            All
              (λ q.
                has_prefix (int i ∷ int c.comment_id ∷ []) (pic_comments_table.key q) ≡ true
                → q ≡ c)
              cs)
          (sym p_lem)
          (subst
            (λ j.
              All
                (λ q.
                  has_prefix (int pic_id ∷ int j ∷ []) (pic_comments_table.key q) ≡ true → q ≡ c)
                cs)
            (sym c_lem)
            (select-only (pic_comments_table.key) (int pic_id ∷ int comment_id ∷ []) cs c only)),
    )
  where
    ids : (i j a b : ℕ) → (i == a && (j == b && true)) ≡ true → (a ≡ i) × (b ≡ j)
    ids i j a b p = ground arith

module _ {E : Type 0} (conf : Configuration) (now : Time) (pic_id comment_id : ℕ) (vote : Vote)
    (ext : Ext) (u : Option User) (t t' : Tables) (v : PicCommentVote)
    (d : CommentVoted E conf now pic_id comment_id vote ext u t v t') where
  on_pic : v.pic_id ≡ d.comment.pic_id
  on_pic =
      let (p_lem, rest) = only_pic pic_id d.pic t.pics d.only_pic in
      let (c_lem, _, more) =
        only_comment_lem pic_id comment_id d.comment t.pic_comments d.only_comment in
      ap (λ r. r.pic_id) d.row ∙ p_lem ∙ sym c_lem

  on_comment : v.comment_id ≡ d.comment.comment_id
  on_comment = ap (λ r. r.comment_id) d.row

  here : is_on d.comment.pic_id d.comment.comment_id v ≡ true
  here = same v.pic_id d.comment.pic_id v.comment_id d.comment.comment_id on_pic on_comment
    where
      same : (a b x y : ℕ) → a ≡ b → x ≡ y → (a == b && x == y) ≡ true
      same a b x y p q = ground (arith, p, q)

  -- Every vote keeps the counters right.
  pub CommentVoted-CommentsTallied : CommentsTallied t → CommentsTallied t'
  CommentVoted-CommentsTallied h =
      subst CommentsTallied (sym d.tables) (moved vote (ap (λ r. r.vote) d.row))
    where
      only :
          All
            (λ q.
              has_prefix
                  (int d.comment.pic_id ∷ int d.comment.comment_id ∷ [])
                  (pic_comments_table.key q)
                ≡ true
              → q ≡ d.comment)
            t.pic_comments
      only =
          let (_, _, rest) =
            only_comment_lem pic_id comment_id d.comment t.pic_comments d.only_comment in
          rest

      plus :
          (kind : Vote → Bool) (m : ℕ)
          → kind v.vote ≡ true
          → m
            ≡ comment_tally kind d.comment.pic_id d.comment.comment_id t.pic_comment_votes % 2 ^ 64
          → increment m
            ≡ comment_tally kind d.comment.pic_id d.comment.comment_id
                (t.pic_comment_votes ++ (v ∷ []))
              % 2 ^ 64
      plus kind m is e =
          bump (comment_tally kind d.comment.pic_id d.comment.comment_id t.pic_comment_votes) m e
          ∙ ap (λ n. n % 2 ^ 64)
              (sym (
                counted kind d.comment.pic_id d.comment.comment_id t.pic_comment_votes v
                  (both_true (kind v.vote) _ is here)))

      still :
          (kind : Vote → Bool) (m : ℕ)
          → kind v.vote ≡ false
          → m
            ≡ comment_tally kind d.comment.pic_id d.comment.comment_id t.pic_comment_votes % 2 ^ 64
          → m
            ≡ comment_tally kind d.comment.pic_id d.comment.comment_id
                (t.pic_comment_votes ++ (v ∷ []))
              % 2 ^ 64
      still kind m is e =
          e
          ∙ ap (λ n. n % 2 ^ 64)
              (sym (
                passed_by kind d.comment.pic_id d.comment.comment_id t.pic_comment_votes v
                  (left_false (kind v.vote) _ is)))

      moved :
          (w : Vote)
          → v.vote ≡ w
          → All
              (CommentCounts (t.pic_comment_votes ++ (v ∷ [])))
              (stored_comment (count_comment_vote w now d.comment) t.pic_comments)
      moved up is =
          All-replace t.pic_comment_votes v d.comment
            (record d.comment { vote_up = increment d.comment.vote_up; modified_ts = now })
            t.pic_comments on_pic on_comment only
            (λ (ups, downs). (
              plus is_up d.comment.vote_up (ap is_up is) ups,
              still is_down d.comment.vote_down (ap is_down is) downs,
            ))
            h
      moved down is =
          All-replace t.pic_comment_votes v d.comment
            (record d.comment { vote_down = increment d.comment.vote_down; modified_ts = now })
            t.pic_comments on_pic on_comment only
            (λ (ups, downs). (
              still is_up d.comment.vote_up (ap is_up is) ups,
              plus is_down d.comment.vote_down (ap is_down is) downs,
            ))
            h
      moved neutral is =
          All-neutral t.pic_comment_votes v t.pic_comments (ap is_up is) (ap is_down is) h
      moved (other n) is =
          All-neutral t.pic_comment_votes v t.pic_comments (ap is_up is) (ap is_down is) h
