-- ===== src/Votes/Tally.antt =====
-- be/tasks/add_pic_vote.go: the counters of a picture are the numbers of its votes, and a named user
-- votes once on a picture.
use mathlib.Core.Path.{subst}
use mathlib.Core.List.{append-nil}
use pixur.Base.{
  ℕ, ◌+◌, ◌≤◌, ◌%◌, ◌^◌, ◌≡◌, ◌∙◌, refl, sym, ap, arith, Bool, true, false, ◌&&◌, Option, List, [],
  ◌∷◌, ◌++◌, All, length, ◌==◌, if◌then◌else◌, Bool-cases, inl, inr,
}
use pixur.Schema.{
  Time, Ext, Tables, Vote, up, down, neutral, other, Pic, PicVote, User, Configuration,
  anonymous_user_id,
}
use pixur.Tables.{int, select, has_prefix, replace}
use pixur.Tables.Pics.{pics_table}
use pixur.Tables.Comments.{pic_votes_table}
use pixur.Tables.Laws.{only_pic, select-append}
use pixur.Auth.{user_id_of}
use pixur.Votes.{increment, count_vote, pic_vote_indexes}
use pixur.Votes.Fresh.{vote_index_first}
use pixur.Votes.Run.{stored, Voted}

abbrev pub is_up : Vote → Bool
is_up up = true
is_up down = false
is_up neutral = false
is_up (other n) = false

abbrev pub is_down : Vote → Bool
is_down up = false
is_down down = true
is_down neutral = false
is_down (other n) = false

-- How many votes on the picture are of that kind.
abbrev pub tally : (Vote → Bool) → ℕ → List PicVote → ℕ
tally kind pic_id [] = 0
tally kind pic_id (pv ∷ pvs) =
    (if kind pv.vote && pv.pic_id == pic_id then 1 else 0) + tally kind pic_id pvs

tally-append :
    (kind : Vote → Bool) (pic_id : ℕ) (pvs : List PicVote) (pv : PicVote)
    → tally kind pic_id (pvs ++ (pv ∷ []))
      ≡ tally kind pic_id pvs + (if kind pv.vote && pv.pic_id == pic_id then 1 else 0)
tally-append kind pic_id [] pv = omega arith
tally-append kind pic_id (v ∷ pvs) pv = omega (arith, tally-append kind pic_id pvs pv)

-- The counters, which are int64, stand for the votes.
abbrev pub Counts : List PicVote → Pic → Type 0
Counts pvs p =
    (p.vote_up ≡ tally is_up p.pic_id pvs % 2 ^ 64)
    × (p.vote_down ≡ tally is_down p.pic_id pvs % 2 ^ 64)

abbrev pub IsTallied : Tables → Type 0
IsTallied t = All (Counts t.pic_votes) t.pics

pub bump : (n m : ℕ) → m ≡ n % 2 ^ 64 → increment m ≡ (n + 1) % 2 ^ 64
bump n m e = omega (arith, e)

-- A vote on the picture, of the kind or not.
tally_one :
    (kind : Vote → Bool) (pic_id : ℕ) (pvs : List PicVote) (pv : PicVote)
    → pv.pic_id ≡ pic_id
    → kind pv.vote ≡ true
    → tally kind pic_id (pvs ++ (pv ∷ [])) ≡ tally kind pic_id pvs + 1
tally_one kind pic_id pvs pv at is =
    tally-append kind pic_id pvs pv
    ∙ ap (λ b. tally kind pic_id pvs + (if b then 1 else 0))
        (hit (kind pv.vote) pv.pic_id pic_id is at)
  where
    hit : (b : Bool) (i j : ℕ) → b ≡ true → i ≡ j → (b && i == j) ≡ true
    hit b i j p q = ground arith

tally_same :
    (kind : Vote → Bool) (pic_id : ℕ) (pvs : List PicVote) (pv : PicVote)
    → kind pv.vote ≡ false
    → tally kind pic_id (pvs ++ (pv ∷ [])) ≡ tally kind pic_id pvs
tally_same kind pic_id pvs pv is = tally-append kind pic_id pvs pv ∙ rw is (omega arith)

-- A vote on another picture.
Counts-other :
    (pvs : List PicVote) (pv : PicVote) (p : Pic)
    → (pv.pic_id == p.pic_id) ≡ false
    → Counts pvs p
    → Counts (pvs ++ (pv ∷ [])) p
Counts-other pvs pv p ne (ups, downs) = (
  ups
      ∙ ap (λ n. n % 2 ^ 64)
          (sym (
            tally-append is_up p.pic_id pvs pv
            ∙ unmoved (is_up pv.vote) (tally is_up p.pic_id pvs))),
  downs
      ∙ ap (λ n. n % 2 ^ 64)
          (sym (
            tally-append is_down p.pic_id pvs pv
            ∙ unmoved (is_down pv.vote) (tally is_down p.pic_id pvs))),
)
  where
    unmoved : (b : Bool) (n : ℕ) → n + (if b && pv.pic_id == p.pic_id then 1 else 0) ≡ n
    unmoved b n = ground arith

module _ (pvs : List PicVote) (pv : PicVote) where
  -- A vote that moves no counter.
  Counts-neutral :
      (p : Pic)
      → is_up pv.vote ≡ false
      → is_down pv.vote ≡ false
      → Counts pvs p
      → Counts (pvs ++ (pv ∷ [])) p
  Counts-neutral p nu nd (ups, downs) = (
    ups ∙ ap (λ n. n % 2 ^ 64) (sym (tally_same is_up p.pic_id pvs pv nu)),
    downs ∙ ap (λ n. n % 2 ^ 64) (sym (tally_same is_down p.pic_id pvs pv nd)),
  )

  All-neutral :
      (ps : List Pic)
      → is_up pv.vote ≡ false
      → is_down pv.vote ≡ false
      → All (Counts pvs) ps
      → All (Counts (pvs ++ (pv ∷ []))) ps
  All-neutral [] nu nd h = tt
  All-neutral (p ∷ ps) nu nd (h, hs) = (Counts-neutral p nu nd h, All-neutral ps nu nd hs)

  -- A vote on the only picture with that id, which gets new counters.
  All-replace :
      (pic p' : Pic) (ps : List Pic)
      → pv.pic_id ≡ pic.pic_id
      → All (λ q. has_prefix (int pic.pic_id ∷ []) (pics_table.key q) ≡ true → q ≡ pic) ps
      → (Counts pvs pic → Counts (pvs ++ (pv ∷ [])) p')
      → All (Counts pvs) ps
      → All (Counts (pvs ++ (pv ∷ []))) (replace (pics_table.key) (int pic.pic_id ∷ []) p' ps)
  All-replace pic p' [] at only new h = tt
  All-replace pic p' (q ∷ qs) at (same, only) new (h, hs) =
      elim (Bool-cases (pic.pic_id == q.pic_id)) [
        | inl hit ↦
            rw hit (
              new (subst (Counts pvs) (same (rw hit refl)) h),
              All-replace pic p' qs at only new hs,
            )
        | inr miss ↦ rw miss (
          Counts-other pvs pv q (ap (λ n. n == q.pic_id) at ∙ miss) h,
          All-replace pic p' qs at only new hs,
        )
      ]

-- Every vote keeps the counters right.
pub Voted-IsTallied :
    {E : Type 0} (conf : Configuration) (now : Time) (pic_id : ℕ) (vote : Vote) (ext : Ext)
    (u : Option User) (t t' : Tables) (pv : PicVote)
    → Voted E conf now pic_id vote ext u t pv t'
    → IsTallied t
    → IsTallied t'
Voted-IsTallied conf now pic_id vote ext u t t' pv v h =
    subst IsTallied (sym v.tables) (moved vote (ap (λ r. r.vote) v.row))
  where
    on_pic : pv.pic_id ≡ v.pic.pic_id
    on_pic = ap (λ r. r.pic_id) v.row

    only :
        All (λ q. has_prefix (int v.pic.pic_id ∷ []) (pics_table.key q) ≡ true → q ≡ v.pic) t.pics
    only = (only_pic pic_id v.pic t.pics v.only).1

    moved :
        (w : Vote)
        → pv.vote ≡ w
        → All (Counts (t.pic_votes ++ (pv ∷ []))) (stored (count_vote w now v.pic) t.pics)
    moved up is =
        All-replace t.pic_votes pv v.pic
          (record v.pic { vote_up = increment v.pic.vote_up; modified_ts = now }) t.pics on_pic only
          (λ (ups, downs). (
            bump (tally is_up v.pic.pic_id t.pic_votes) v.pic.vote_up ups
                ∙ ap (λ n. n % 2 ^ 64)
                    (sym (tally_one is_up v.pic.pic_id t.pic_votes pv on_pic (ap is_up is))),
            downs
                ∙ ap (λ n. n % 2 ^ 64)
                    (sym (tally_same is_down v.pic.pic_id t.pic_votes pv (ap is_down is))),
          ))
          h
    moved down is =
        All-replace t.pic_votes pv v.pic
          (record v.pic { vote_down = increment v.pic.vote_down; modified_ts = now }) t.pics on_pic
          only
          (λ (ups, downs). (
            ups
                ∙ ap (λ n. n % 2 ^ 64)
                    (sym (tally_same is_up v.pic.pic_id t.pic_votes pv (ap is_up is))),
            bump (tally is_down v.pic.pic_id t.pic_votes) v.pic.vote_down downs
                ∙ ap (λ n. n % 2 ^ 64)
                    (sym (tally_one is_down v.pic.pic_id t.pic_votes pv on_pic (ap is_down is))),
          ))
          h
    moved neutral is = All-neutral t.pic_votes pv t.pics (ap is_up is) (ap is_down is) h
    moved (other n) is = All-neutral t.pic_votes pv t.pics (ap is_up is) (ap is_down is) h

-- A named user has at most one vote on a picture.
abbrev pub VotesOnce : Tables → Type 0
VotesOnce t =
    (pic_id user_id : ℕ)
    → (user_id == anonymous_user_id) ≡ false
    → length (select (pic_votes_table.key) (int pic_id ∷ int user_id ∷ []) t.pic_votes) ≤ 1

no_indexes : (pvs : List PicVote) → pic_vote_indexes pvs ≡ [] → pvs ≡ []
no_indexes [] e = refl
no_indexes (pv ∷ pvs) e = cc

pub Voted-VotesOnce :
    {E : Type 0} (conf : Configuration) (now : Time) (pic_id : ℕ) (vote : Vote) (ext : Ext)
    (u : Option User) (t t' : Tables) (pv : PicVote)
    → Voted E conf now pic_id vote ext u t pv t'
    → VotesOnce t
    → VotesOnce t'
Voted-VotesOnce {E} conf now pic_id vote ext u t t' pv v h =
    subst VotesOnce (sym v.tables) (λ i j named. once i j named)
  where
    at_pic : pv.pic_id ≡ pic_id
    at_pic = ap (λ r. r.pic_id) v.row ∙ (only_pic pic_id v.pic t.pics v.only).0

    at_user : pv.user_id ≡ user_id_of u
    at_user = ap (λ r. r.user_id) v.row

    voted_before : ℕ → ℕ → List PicVote
    voted_before i j = select (pic_votes_table.key) (int i ∷ int j ∷ []) t.pic_votes

    none_before :
        (user_id_of u == anonymous_user_id) ≡ false → voted_before pic_id (user_id_of u) ≡ []
    none_before named = no_indexes (voted_before pic_id (user_id_of u)) (
        vote_index_first {E = E} (user_id_of u) v.index
          (pic_vote_indexes (voted_before pic_id (user_id_of u))) v.index_lem named)

    same_pair : (i j a b : ℕ) → (i == a && (j == b && true)) ≡ true → (a ≡ i) × (b ≡ j)
    same_pair i j a b p = ground arith

    first :
        (i j : ℕ)
        → (j == anonymous_user_id) ≡ false
        → has_prefix (int i ∷ int j ∷ []) (pic_votes_table.key pv) ≡ true
        → voted_before i j ≡ []
    first i j named hit =
        let (on, by) = same_pair i j pv.pic_id pv.user_id hit in
        let i_lem : pic_id ≡ i = sym at_pic ∙ on in
        let j_lem : user_id_of u ≡ j = sym at_user ∙ by in
        subst (λ k. voted_before k j ≡ []) i_lem
          (subst (λ k. voted_before pic_id k ≡ []) j_lem
            (none_before (ap (λ k. k == anonymous_user_id) j_lem ∙ named)))

    once :
        (i j : ℕ)
        → (j == anonymous_user_id) ≡ false
        → length (select (pic_votes_table.key) (int i ∷ int j ∷ []) (t.pic_votes ++ (pv ∷ []))) ≤ 1
    once i j named =
        rw (select-append (pic_votes_table.key) (int i ∷ int j ∷ []) t.pic_votes (pv ∷ []))
          (elim (Bool-cases (has_prefix (int i ∷ int j ∷ []) (pic_votes_table.key pv))) [
            | inl hit ↦ rw (hit, first i j named hit) (omega arith)
            | inr miss ↦
                rw
                  (miss, append-nil (select (pic_votes_table.key) (int i ∷ int j ∷ []) t.pic_votes))
                  (h i j named)
          ])
