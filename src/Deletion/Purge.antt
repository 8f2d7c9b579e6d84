-- ===== src/Deletion/Purge.antt =====
-- be/tasks/purge_pic_task.go: what is left of a picture after a purge.
use mathlib.Core.Path.{subst}
use pixur.Base.{
  ◌==◌, ℕ, ◌≡◌, refl, sym, ap, arith, true, ◌&&◌, Option, List, [], ◌∷◌, Bool-cases, inl, inr,
}
use pixur.Base.Result.{ok}
use pixur.Schema.{Time, Tables, Pic, User, Configuration}
use pixur.Job.{Job}
use pixur.Job.Returns.{Returns, Returns-pure, Returns-bind-require_none, Returns_use}
use pixur.Tables.{int, select, remove, has_prefix, Table, limited}
use pixur.Tables.Pics.{pics_table, pics_primary, pic_idents_table, pic_tags_table, key_for_pic}
use pixur.Tables.Comments.{pic_comments_table, pic_votes_table}
use pixur.Tables.Rows.{Returns-bind-find, Returns-bind-delete, Returns-bind-internal_call}
use pixur.Tables.Removal.{remove_all, select-remove_all-select}
use pixur.Tables.Laws.{select-All}
use pixur.Deletion.Loops.{
  IsLens, Returns-bind-delete_each, Returns-bind-lookup_tags, Returns-bind-release_tags,
}
use pixur.Deletion.{purge_job}
use pixur.Deletion.States.{All-limited, Returns-bind-lookup_pic}

pic_idents_table-IsLens : IsLens pic_idents_table
pic_idents_table-IsLens = record { get = λ rs t. refl; put = λ rs ts t. refl; same = λ t. refl }

pic_tags_table-IsLens : IsLens pic_tags_table
pic_tags_table-IsLens = record { get = λ rs t. refl; put = λ rs ts t. refl; same = λ t. refl }

pic_comments_table-IsLens : IsLens pic_comments_table
pic_comments_table-IsLens = record { get = λ rs t. refl; put = λ rs ts t. refl; same = λ t. refl }

pic_votes_table-IsLens : IsLens pic_votes_table
pic_votes_table-IsLens = record { get = λ rs t. refl; put = λ rs ts t. refl; same = λ t. refl }

-- The rows of a table without those of a picture.
abbrev pub without : {R : Type 0} → Table R → ℕ → List R → List R
without table pic_id rs = remove_all table.key (select table.key (int pic_id ∷ []) rs) rs

-- The tables after a purge: the picture and the rows that belong to it are gone from five tables, its
-- tags are released, and all else is as before.
abbrev pub Purged : Pic → ℕ → Tables → Tables → Type 0
Purged p pic_id t t' = t' ≡ record t {
  pics = remove (pics_table.key) (int p.pic_id ∷ []) t.pics;
  pic_idents = without pic_idents_table pic_id t.pic_idents;
  pic_tags = without pic_tags_table pic_id t.pic_tags;
  tags = t'.tags;
  pic_comments = without pic_comments_table pic_id t.pic_comments;
  pic_votes = without pic_votes_table pic_id t.pic_votes;
}

module _ {E : Type 0} (conf : Configuration) (now : Time) (pic_id : ℕ) (u : Option User)
    (s : Job E) where
  Returns-purge_job : Returns (purge_job conf now pic_id u) s (λ p s'.
      (limited 1 (select (pics_table.key) (int pic_id ∷ []) s.tables.pics) ≡ p ∷ [])
      × Purged p pic_id s.tables s'.tables)
  unfolding purge_job
  Returns-purge_job = Returns-bind-require_none s _ _ _ (λ allowed.
      Returns-bind-lookup_pic s pic_id _ _ (λ p fs found.
        Returns-bind-delete pics_table _ _ (pics_primary (key_for_pic p)) (int p.pic_id ∷ []) _ refl
          (λ fs1. Returns-bind-find pic_idents_table _ _ _ 0 (int pic_id ∷ []) _ refl (λ fs2.
            Returns-bind-delete_each pic_idents_table pic_idents_table-IsLens _ (λ r. refl) _ _ _ _
              (λ fs3. Returns-bind-find pic_tags_table _ _ _ 0 (int pic_id ∷ []) _ refl (λ fs4.
                Returns-bind-delete_each pic_tags_table pic_tags_table-IsLens _ (λ r. refl) _ _ _ _
                  (λ fs5. Returns-bind-lookup_tags _ _ _ _ (λ ts fs6.
                    Returns-bind-release_tags _ _ now ts _ (λ tags fs7.
                      Returns-bind-find pic_comments_table _ _ _ 0 (int pic_id ∷ []) _ refl (λ fs8.
                        Returns-bind-delete_each pic_comments_table pic_comments_table-IsLens _
                          (λ r. refl) _ _ _ _
                          (λ fs9.
                            Returns-bind-find pic_votes_table _ _ _ 0 (int pic_id ∷ []) _ refl
                              (λ fs10.
                                Returns-bind-delete_each pic_votes_table pic_votes_table-IsLens _
                                  (λ r. refl) _ _ _ _
                                  (λ fs11.
                                    Returns-bind-internal_call _ _ _
                                      (λ fs12. Returns-pure _ _ _ (found, refl)))))))))))))))

  pub purge_job-Purged :
      (s' : Job E) (p : Pic)
      → purge_job conf now pic_id u s ≡ (ok p, s')
      → (limited 1 (select (pics_table.key) (int pic_id ∷ []) s.tables.pics) ≡ p ∷ [])
        × Purged p pic_id s.tables s'.tables
  purge_job-Purged s' p =
      Returns_use (purge_job conf now pic_id u) s s' p
        (λ p1 s1.
          (limited 1 (select (pics_table.key) (int pic_id ∷ []) s.tables.pics) ≡ p1 ∷ [])
          × Purged p1 pic_id s.tables s1.tables)
        Returns-purge_job

-- Nothing of the picture is found any more in its tables.
pub record IsGone (pic_id : ℕ) (t : Tables) : Type 0 where
  pub pics : select (pics_table.key) (int pic_id ∷ []) t.pics ≡ []
  pub idents : select (pic_idents_table.key) (int pic_id ∷ []) t.pic_idents ≡ []
  pub tags : select (pic_tags_table.key) (int pic_id ∷ []) t.pic_tags ≡ []
  pub comments : select (pic_comments_table.key) (int pic_id ∷ []) t.pic_comments ≡ []
  pub votes : select (pic_votes_table.key) (int pic_id ∷ []) t.pic_votes ≡ []

-- A picture that is removed is not found.
select-remove_pic :
    (pic_id : ℕ) (ps : List Pic)
    → select (pics_table.key) (int pic_id ∷ []) (remove (pics_table.key) (int pic_id ∷ []) ps) ≡ []
select-remove_pic pic_id [] = refl
select-remove_pic pic_id (p ∷ ps) = elim (Bool-cases (pic_id == p.pic_id)) [
  | inl hit ↦ rw hit (select-remove_pic pic_id ps)
  | inr miss ↦ rw (miss, miss) (select-remove_pic pic_id ps)
]

found_id :
    (pic_id : ℕ) (p : Pic) (ps : List Pic)
    → limited 1 (select (pics_table.key) (int pic_id ∷ []) ps) ≡ p ∷ []
    → p.pic_id ≡ pic_id
found_id pic_id p ps found = same pic_id p.pic_id (
    All-limited (λ r. has_prefix (int pic_id ∷ []) (pics_table.key r) ≡ true) _ p found
      (select-All (pics_table.key) (int pic_id ∷ []) ps))
  where
    same : (a b : ℕ) → (a == b && true) ≡ true → b ≡ a
    same a b e = ground arith

Purged-IsGone :
    (p : Pic) (pic_id : ℕ) (t t' : Tables)
    → limited 1 (select (pics_table.key) (int pic_id ∷ []) t.pics) ≡ p ∷ []
    → Purged p pic_id t t'
    → IsGone pic_id t'
Purged-IsGone p pic_id t t' found e = subst (IsGone pic_id) (sym e) (record {
  pics =
      subst
        (λ k.
          select (pics_table.key) (int pic_id ∷ []) (remove (pics_table.key) (int k ∷ []) t.pics)
          ≡ [])
        (sym (found_id pic_id p t.pics found)) (select-remove_pic pic_id t.pics);
  idents = select-remove_all-select (pic_idents_table.key) (int pic_id ∷ []) t.pic_idents;
  tags = select-remove_all-select (pic_tags_table.key) (int pic_id ∷ []) t.pic_tags;
  comments = select-remove_all-select (pic_comments_table.key) (int pic_id ∷ []) t.pic_comments;
  votes = select-remove_all-select (pic_votes_table.key) (int pic_id ∷ []) t.pic_votes;
})

-- Where the transaction of a purge succeeds, no row of the picture is left among the pictures,
-- their identities, tags, comments and votes; the votes on comments, the users and the events are
-- all as before.
pub purge_job-IsGone :
    {E : Type 0} (conf : Configuration) (now : Time) (pic_id : ℕ) (u : Option User) (s s' : Job E)
    (p : Pic)
    → purge_job conf now pic_id u s ≡ (ok p, s')
    → IsGone pic_id s'.tables
      × (s'.tables.pic_comment_votes ≡ s.tables.pic_comment_votes)
      × (s'.tables.users ≡ s.tables.users)
      × (s'.tables.user_events ≡ s.tables.user_events)
purge_job-IsGone conf now pic_id u s s' p e =
    let (found, purged) = purge_job-Purged conf now pic_id u s s' p e in
    (
      Purged-IsGone p pic_id s.tables s'.tables found purged,
      ap (λ t. t.pic_comment_votes) purged,
      ap (λ t. t.users) purged,
      ap (λ t. t.user_events) purged,
    )
