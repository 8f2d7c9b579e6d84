-- ===== src/Reads/Tests.antt =====
-- The filters at the sample, for a user that may read the votes of others and for the anonymous one.
use pixur.Base.{◌≡◌, ◌⊎◌, refl, true, some, [], ◌∷◌, All}
use pixur.Base.Int.{pos}
use pixur.CapSet.{has, add, cap_set_of}
use pixur.Schema.{PicVote, User}
use pixur.Tables.Sample.{sample_vote, sample_user, sample_configuration}
use pixur.Auth.{user_id_of}
use pixur.Reads.{
  user_read_all, user_read_self, user_read_public, user_read_pic_vote, pic_vote_extension_read,
  user_cred_of, shows_user, filter_pic_votes, public_user, shown_user,
}
use pixur.Reads.Visible.{MaySee, Holds, filter_pic_votes-All, shown_user-MaySee}

abbrev reader : User
reader = record sample_user { capability = pos 23 ∷ pos 27 ∷ [] }

abbrev own_vote : PicVote
own_vote = record sample_vote { user_id = 7 }

run_reader :
    filter_pic_votes (sample_vote ∷ own_vote ∷ []) (some reader) sample_configuration
    ≡ sample_vote ∷ own_vote ∷ []
unfolding filter_pic_votes shows_user has add cap_set_of
run_reader = refl

run_hidden :
    filter_pic_votes (sample_vote ∷ own_vote ∷ []) (some sample_user) sample_configuration ≡ []
unfolding filter_pic_votes shows_user has add cap_set_of
run_hidden = refl

run_shown :
    shown_user true sample_user (user_cred_of (some reader) sample_configuration)
    ≡ some (public_user sample_user)
unfolding shown_user has add cap_set_of
run_shown = refl

filter_pic_votes-All_example :
    All
      (λ pv.
        MaySee (some reader) sample_configuration user_read_pic_vote pv.user_id
        × ((pv.ext ≡ []) ⊎ Holds (some reader) sample_configuration pic_vote_extension_read))
      (filter_pic_votes (sample_vote ∷ own_vote ∷ []) (some reader) sample_configuration)
filter_pic_votes-All_example =
    filter_pic_votes-All (some reader) sample_configuration (sample_vote ∷ own_vote ∷ [])

shown_user-MaySee_example :
    ((public_user sample_user ≡ sample_user)
      × (Holds (some reader) sample_configuration user_read_all
          ⊎ ((user_id_of (some reader) ≡ 7)
              × Holds (some reader) sample_configuration user_read_self)))
    ⊎ ((public_user sample_user ≡ public_user sample_user)
        × (true ≡ true)
        × Holds (some reader) sample_configuration user_read_public)
shown_user-MaySee_example =
    shown_user-MaySee (some reader) sample_configuration true sample_user (public_user sample_user)
      run_shown
