-- ===== src/Comments/Once.antt =====
-- be/tasks/add_pic_comment_vote_task.go: a named user votes once on a comment.
use mathlib.Core.Path.{subst}
use mathlib.Core.List.{append-nil}
use pixur.Base.{
  ℕ, ◌≤◌, ◌≡◌, ◌∙◌, refl, sym, ap, arith, true, false, ◌&&◌, Option, List, [], ◌∷◌, ◌++◌, length,
  ◌==◌, Bool-cases, inl, inr,
}
use pixur.Schema.{Time, Ext, Tables, Vote, PicCommentVote, User, Configuration, anonymous_user_id}
use pixur.Tables.{int, select, has_prefix}
use pixur.Tables.Comments.{pic_comment_votes_table}
use pixur.Tables.Laws.{only_pic, select-append}
use pixur.Auth.{user_id_of}
use pixur.Votes.Fresh.{vote_index_first}
use pixur.Comments.{pic_comment_vote_indexes}
use pixur.Comments.Run.{CommentVoted}
use pixur.Comments.Tally.{only_comment_lem}

-- A named user has at most one vote on a comment.
abbrev pub CommentVotesOnce : Tables → Type 0
CommentVotesOnce t =
    (pic_id comment_id user_id : ℕ)
    → (user_id == anonymous_user_id) ≡ false
    → length (
        select (pic_comment_votes_table.key) (int pic_id ∷ int comment_id ∷ int user_id ∷ [])
          t.pic_comment_votes)
      ≤ 1

no_indexes : (vs : List PicCommentVote) → pic_comment_vote_indexes vs ≡ [] → vs ≡ []
no_indexes [] e = refl
no_indexes (v ∷ vs) e = cc

module _ {E : Type 0} (conf : Configuration) (now : Time) (pic_id comment_id : ℕ) (vote : Vote)
    (ext : Ext) (u : Option User) (t t' : Tables) (v : PicCommentVote)
    (d : CommentVoted E conf now pic_id comment_id vote ext u t v t') where
  before : ℕ → ℕ → ℕ → List PicCommentVote
  before i j k =
      select (pic_comment_votes_table.key) (int i ∷ int j ∷ int k ∷ []) t.pic_comment_votes

  none_before :
      (user_id_of u == anonymous_user_id) ≡ false → before pic_id comment_id (user_id_of u) ≡ []
  unfolding before
  none_before named = no_indexes (before pic_id comment_id (user_id_of u)) (
      vote_index_first {E = E} (user_id_of u) d.index
        (pic_comment_vote_indexes (before pic_id comment_id (user_id_of u))) d.index_lem named)

  -- A row with the ids of the new vote is a first one.
  first :
      (i j k : ℕ)
      → (k == anonymous_user_id) ≡ false
      → has_prefix (int i ∷ int j ∷ int k ∷ []) (pic_comment_votes_table.key v) ≡ true
      → before i j k ≡ []
  first i j k named hit =
      let (at, on, by) = same_ids i j k v.pic_id v.comment_id v.user_id hit in
      let (p_lem, rest) = only_pic pic_id d.pic t.pics d.only_pic in
      let (_, c_lem, more) =
        only_comment_lem pic_id comment_id d.comment t.pic_comments d.only_comment in
      let i_lem : pic_id ≡ i = sym p_lem ∙ sym (ap (λ r. r.pic_id) d.row) ∙ at in
      let j_lem : comment_id ≡ j = sym c_lem ∙ sym (ap (λ r. r.comment_id) d.row) ∙ on in
      let k_lem : user_id_of u ≡ k = sym (ap (λ r. r.user_id) d.row) ∙ by in
      subst (λ l. before l j k ≡ []) i_lem
        (subst (λ l. before pic_id l k ≡ []) j_lem
          (subst (λ l. before pic_id comment_id l ≡ []) k_lem
            (none_before (ap (λ l. l == anonymous_user_id) k_lem ∙ named))))
    where
      same_ids :
          (i j k a b c : ℕ)
          → (i == a && (j == b && (k == c && true))) ≡ true
          → (a ≡ i) × (b ≡ j) × (c ≡ k)
      same_ids i j k a b c p = ground arith

  pub CommentVoted-CommentVotesOnce : CommentVotesOnce t → CommentVotesOnce t'
  unfolding before
  CommentVoted-CommentVotesOnce h =
      subst CommentVotesOnce (sym d.tables) (λ i j k named. once i j k named)
    where
      once :
          (i j k : ℕ)
          → (k == anonymous_user_id) ≡ false
          → length (
              select
                (pic_comment_votes_table.key)
                (int i ∷ int j ∷ int k ∷ [])
                (t.pic_comment_votes ++ (v ∷ [])))
            ≤ 1
      once i j k named =
          rw
            (select-append (pic_comment_votes_table.key) (int i ∷ int j ∷ int k ∷ [])
              t.pic_comment_votes (v ∷ []))
            (elim (Bool-cases
              (has_prefix (int i ∷ int j ∷ int k ∷ []) (pic_comment_votes_table.key v))) [
                | inl hit ↦ rw (hit, first i j k named hit) (omega arith)
                | inr miss ↦
                    rw
                      (
                        miss,
                        append-nil (
                            select (pic_comment_votes_table.key) (int i ∷ int j ∷ int k ∷ [])
                              t.pic_comment_votes),
                      )
                      (h i j k named)
              ])
