-- ===== src/Votes/Sample.antt =====
-- The rows of the tests are what the tasks expect.
use pixur.Base.{ℕ, ◌≤◌, refl, arith, [], ◌∷◌, length, Bool-cases, inl, inr}
use pixur.Tables.{int, has_prefix, select}
use pixur.Tables.Comments.{pic_votes_table}
use pixur.Tables.Sample.{sample, sample_vote}
use pixur.Votes.Task.{VotesValid}

pub sample-VotesValid : VotesValid sample
sample-VotesValid = (((refl, refl), tt), λ pic_id user_id named. one pic_id user_id)
  where
    one :
        (pic_id user_id : ℕ)
        → length (select (pic_votes_table.key) (int pic_id ∷ int user_id ∷ []) (sample_vote ∷ []))
          ≤ 1
    one pic_id user_id =
        elim (Bool-cases
          (has_prefix (int pic_id ∷ int user_id ∷ []) (pic_votes_table.key sample_vote))) [
            | inl hit ↦ rw hit (omega arith)
            | inr miss ↦ rw miss (omega arith)
          ]
