-- ===== src/Reads/Visible.antt =====
-- be/tasks/add_pic_vote.go, add_pic_comment_task.go, find_pic_comment_votes_task.go: no row shows more than
-- the capabilities of the reader.
use pixur.Base.{
  ℕ, ◌≡◌, ◌⊎◌, refl, sym, ap, ◌∙◌, arith, Bool, true, false, ◌&&◌, ◌||◌, Option, none, some, List,
  [], ◌∷◌, All, ◌==◌, if◌then◌else◌, Bool-cases, inl, inr,
}
use pixur.CapSet.{Capability, CapSet, contains, has, cap_set_of}
use pixur.CapSet.Members.{has-cap_set_of}
use pixur.Schema.{Ext, PicVote, PicComment, PicCommentVote, User, Configuration, anonymous_user_id}
use pixur.Auth.{capabilities_of, user_id_of}
use pixur.Reads.{
  user_read_self, user_read_all, user_read_public, user_read_pic_vote, user_read_pic_comment,
  pic_vote_extension_read, pic_comment_extension_read, user_cred_of, shows_user, shown_ext,
  public_user, shown_user, filter_pic_vote, filter_pic_votes, filter_pic_comment,
  filter_pic_comment_votes,
}

module _ (su : Option User) (conf : Configuration) where
  abbrev pub Holds : Capability → Type 0
  Holds c = contains (capabilities_of su conf) c ≡ true

  -- Who may see the user of a row: a reader of everything, a reader of that kind of rows, and the user.
  abbrev pub MaySee : Capability → ℕ → Type 0
  MaySee kind user_id =
      Holds user_read_all
      ⊎ ((Holds user_read_public × Holds kind) ⊎ ((user_id_of su ≡ user_id) × Holds user_read_self))

  held : (c : Capability) → has (cap_set_of (capabilities_of su conf)) c ≡ true → Holds c
  held c e = sym ((has-cap_set_of (capabilities_of su conf)).1 c) ∙ e

  shows_user-MaySee :
      (kind : Capability) (user_id : ℕ)
      → shows_user kind user_id (user_cred_of su conf) ≡ true
      → MaySee kind user_id
  unfolding shows_user
  shows_user-MaySee kind user_id e =
      cases (has cs user_read_all) (has cs user_read_public) (has cs kind) (has cs user_read_self)
        (user_id_of su) e (held user_read_all) (held user_read_public) (held kind)
        (held user_read_self)
    where
      cs : CapSet
      cs = cap_set_of (capabilities_of su conf)

      cases :
          (a p k o : Bool) (me : ℕ)
          → (a || ((p && k) || (me == user_id && o))) ≡ true
          → (a ≡ true → Holds user_read_all)
          → (p ≡ true → Holds user_read_public)
          → (k ≡ true → Holds kind)
          → (o ≡ true → Holds user_read_self)
          → Holds user_read_all
            ⊎ ((Holds user_read_public × Holds kind) ⊎ ((me ≡ user_id) × Holds user_read_self))
      cases true p k o me e ha hp hk ho = inl (ha refl)
      cases false true true o me e ha hp hk ho = inr (inl (hp refl, hk refl))
      cases false true false true me e ha hp hk ho = inr (inr (ground arith, ho refl))
      cases false true false false me e ha hp hk ho = absurd (ground arith)
      cases false false k true me e ha hp hk ho = inr (inr (ground arith, ho refl))
      cases false false k false me e ha hp hk ho = absurd (ground arith)

  -- A row shows its user only to those who may see it, and its data only to a reader of such data.
  abbrev pub Shown : Capability → Capability → ℕ → Ext → Type 0
  Shown kind ext_kind user_id ext =
      ((user_id ≡ anonymous_user_id) ⊎ MaySee kind user_id) × ((ext ≡ []) ⊎ Holds ext_kind)

  shown_ext-Holds :
      (kind : Capability) (ext : Ext)
      → (shown_ext kind ext (user_cred_of su conf) ≡ []) ⊎ Holds kind
  shown_ext-Holds kind ext = elim (Bool-cases (has (cap_set_of (capabilities_of su conf)) kind)) [
    | inl seen ↦ inr (held kind seen)
    | inr hidden ↦ inl (rw hidden refl)
  ]

  -- A vote that is shown to a reader names the anonymous user, unless the reader may see its user,
  -- and an extension is there only if the reader may read extensions.
  pub filter_pic_vote-Shown :
      (pv : PicVote)
      → Shown user_read_pic_vote pic_vote_extension_read
          (filter_pic_vote pv su conf).user_id
          (filter_pic_vote pv su conf).ext
  unfolding filter_pic_vote
  filter_pic_vote-Shown pv =
      elim (Bool-cases (shows_user user_read_pic_vote pv.user_id (user_cred_of su conf))) [
        | inl seen ↦
            rw (seen, filter_pic_vote)
              (
                inr (shows_user-MaySee user_read_pic_vote pv.user_id seen),
                shown_ext-Holds pic_vote_extension_read pv.ext,
              )
        | inr hidden ↦
            rw (hidden, filter_pic_vote) (inl refl, shown_ext-Holds pic_vote_extension_read pv.ext)
      ]

  pub filter_pic_comment-Shown :
      (pc : PicComment)
      → Shown user_read_pic_comment pic_comment_extension_read
          (filter_pic_comment pc su conf).user_id
          (filter_pic_comment pc su conf).ext
  unfolding filter_pic_comment
  filter_pic_comment-Shown pc =
      elim (Bool-cases (shows_user user_read_pic_comment pc.user_id (user_cred_of su conf))) [
        | inl seen ↦ rw seen (
          inr (shows_user-MaySee user_read_pic_comment pc.user_id seen),
          shown_ext-Holds pic_comment_extension_read pc.ext,
        )
        | inr hidden ↦ rw hidden (inl refl, shown_ext-Holds pic_comment_extension_read pc.ext)
      ]

  -- The list of votes that a reader gets has only votes whose user the reader may see, and an
  -- extension is there only if the reader may read extensions.
  pub filter_pic_votes-All :
      (pvs : List PicVote)
      → All
          (λ pv.
            MaySee user_read_pic_vote pv.user_id × ((pv.ext ≡ []) ⊎ Holds pic_vote_extension_read))
          (filter_pic_votes pvs su conf)
  unfolding filter_pic_votes
  filter_pic_votes-All [] = tt
  filter_pic_votes-All (pv ∷ pvs) =
      elim (Bool-cases (shows_user user_read_pic_vote pv.user_id (user_cred_of su conf))) [
        | inl seen ↦ rw seen (
          (
            shows_user-MaySee user_read_pic_vote pv.user_id seen,
            shown_ext-Holds pic_vote_extension_read pv.ext,
          ),
          filter_pic_votes-All pvs,
        )
        | inr hidden ↦ rw hidden (filter_pic_votes-All pvs)
      ]

  pub filter_pic_comment_votes-All :
      (pcvs : List PicCommentVote)
      → All
          (λ pcv.
            MaySee user_read_pic_vote pcv.user_id
            × ((pcv.ext ≡ []) ⊎ Holds pic_vote_extension_read))
          (filter_pic_comment_votes pcvs su conf)
  unfolding filter_pic_comment_votes
  filter_pic_comment_votes-All [] = tt
  filter_pic_comment_votes-All (pcv ∷ pcvs) =
      elim (Bool-cases (shows_user user_read_pic_vote pcv.user_id (user_cred_of su conf))) [
        | inl seen ↦ rw seen (
          (
            shows_user-MaySee user_read_pic_vote pcv.user_id seen,
            shown_ext-Holds pic_vote_extension_read pcv.ext,
          ),
          filter_pic_comment_votes-All pcvs,
        )
        | inr hidden ↦ rw hidden (filter_pic_comment_votes-All pcvs)
      ]

  -- Where a lookup shows a user, it is the whole user to a reader who may read all users, or who is
  -- that user and may read it, or else only the public part of the user, if that was asked for and
  -- the reader may read public users. The first two get the whole user also where only the public
  -- part was asked for.
  pub shown_user-MaySee :
      (public_only : Bool) (ou v : User)
      → shown_user public_only ou (user_cred_of su conf) ≡ some v
      → ((v ≡ ou) × (Holds user_read_all ⊎ ((user_id_of su ≡ ou.user_id) × Holds user_read_self)))
        ⊎ ((v ≡ public_user ou) × (public_only ≡ true) × Holds user_read_public)
  unfolding shown_user
  shown_user-MaySee public_only ou v e =
      cases (has cs user_read_all) (has cs user_read_self) (has cs user_read_public) public_only
        (user_id_of su) e (held user_read_all) (held user_read_self) (held user_read_public)
    where
      cs : CapSet
      cs = cap_set_of (capabilities_of su conf)

      inner : {a b : User} → some a ≡ some b → b ≡ a
      inner {a} {b} q = ap (λ o. user_or a o) (sym q)
        where
          user_or : User → Option User → User
          user_or d none = d
          user_or d (some w) = w

      cases :
          (a o p w : Bool) (me : ℕ)
          → (let shown : Option User =
                (if a || (me == ou.user_id && o)
                  then some ou
                  else if w && p
                  then some (public_user ou)
                  else none) in
              shown)
            ≡ some v
          → (a ≡ true → Holds user_read_all)
          → (o ≡ true → Holds user_read_self)
          → (p ≡ true → Holds user_read_public)
          → ((v ≡ ou) × (Holds user_read_all ⊎ ((me ≡ ou.user_id) × Holds user_read_self)))
            ⊎ ((v ≡ public_user ou) × (w ≡ true) × Holds user_read_public)
      cases true o p w me e ha ho hp = inl (inner e, inl (ha refl))
      cases false o p w me e ha ho hp = elim (Bool-cases (me == ou.user_id && o)) [
        | inl self ↦ inl (
          inner (rw self at e),
          inr (both me ou.user_id o self, ho (right (me == ou.user_id) o self)),
        )
        | inr not_self ↦ other p w (rw not_self at e) hp
      ]
        where
          both : (a b : ℕ) (o : Bool) → (a == b && o) ≡ true → a ≡ b
          both a b o q = ground arith

          right : (a o : Bool) → (a && o) ≡ true → o ≡ true
          right a o q = ground arith

          other :
              (p w : Bool)
              → (let shown : Option User = (if w && p then some (public_user ou) else none) in
                  shown)
                ≡ some v
              → (p ≡ true → Holds user_read_public)
              → ((v ≡ ou) × (Holds user_read_all ⊎ ((me ≡ ou.user_id) × Holds user_read_self)))
                ⊎ ((v ≡ public_user ou) × (w ≡ true) × Holds user_read_public)
          other true true q hp = inr (inner q, refl, hp refl)
          other true false q hp = cc
          other false true q hp = cc
          other false false q hp = cc
