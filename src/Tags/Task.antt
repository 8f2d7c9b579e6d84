-- ===== src/Tags/Task.antt =====
-- be/tasks/add_pic_tags_task.go: a task that adds tags keeps the counters of all tags right.
use mathlib.Core.Path.{subst}
use pixur.Base.{ℕ, ◌+◌, ◌≡◌, ◌∙◌, refl, sym, ap, arith, false, Option, some, List, [], ◌∷◌, ◌++◌}
use pixur.Base.Int.{ℤ}
use pixur.Text.{Text, Library, Ranges}
use pixur.Schema.{Time, Tables, Tag, User, Configuration}
use pixur.Job.{Job, Action, ◌>>=◌}
use pixur.Job.Returns.{
  Returns, Returns-bind, Returns-weaken, Returns-pure, Returns-bind-require,
  Returns-bind-require_none,
}
use pixur.Job.Keeps.{Keeps_use, Keeps-bind, Keeps-revert-Returns}
use pixur.Tables.{int}
use pixur.Tables.Pics.{pics_table, pics_primary}
use pixur.Tables.Rows.{after, Returns-bind-find, Returns-bind-internal_call}
use pixur.Auth.Keeps.{Keeps-authed_job}
use pixur.Tags.{TagNameAndUniq}
use pixur.Tags.Tasks.{
  clean_tag_names, find_unattached_tag_names, find_attached_pic_tags, find_existing_tags_by_name,
  update_existing_tags, create_new_tags, create_pic_tags, build_tag_id_list, upsert_tags,
  add_pic_tags_job, add_pic_tags,
}
use pixur.Tags.Usage.{IsCounted}
use pixur.Tags.Names.{NamesDistinct, IsFound, FoundFor, FoundFor-IsFound}
use pixur.Tags.Writes.{
  count_uses, count_tags, plus, TagsValid, IsCounted-same, Returns-update_existing_tags,
  Returns-create_new_tags, Returns-create_pic_tags,
}
use pixur.Tags.Finds.{
  Returns-clean_tag_names, Returns-find_attached_pic_tags, Returns-find_unattached_tag_names,
  Returns-find_existing_tags_by_name, Returns-build_tag_id_list,
}

count_tags-append :
    (i : ℕ) (xs ys : List Tag) → count_tags i (xs ++ ys) ≡ count_tags i xs + count_tags i ys
count_tags-append i [] ys = omega arith
count_tags-append i (x ∷ xs) ys = omega (arith, count_tags-append i xs ys)

-- The uses of the rows, after the tags that are counted are attached.
attached-IsCounted :
    (uses uses' : ℕ → ℕ) (us ts tags : List Tag)
    → ((i : ℕ) → uses' i ≡ uses i + count_tags i (us ++ ts))
    → IsCounted (plus (plus uses us) ts) tags
    → IsCounted uses' tags
attached-IsCounted uses uses' us ts tags e c =
    IsCounted-same (plus (plus uses us) ts) uses' tags
      (λ i.
        regroup (uses i) (count_tags i us) (count_tags i ts) (count_tags-append i us ts)
        ∙ sym (e i))
      c
  where
    regroup : (a b d : ℕ) {n : ℕ} → n ≡ b + d → (a + b) + d ≡ a + n
    regroup a b d p = omega (arith, p)

module _ {E : Type 0} (lib : Library) (ranges : Ranges) (alloc_id : Action E ℕ)
    (apart : (s : Job E) → (alloc_id s).1.tables ≡ s.tables) (now : Time) where
  Returns-upsert_tags :
      (raws : List Text) (pic_id user_id : ℕ) (min max : ℤ) (s : Job E)
      → TagsValid s.tables
      → Returns
          (upsert_tags lib ranges alloc_id now raws pic_id user_id min max)
          s
          (λ _ s'. TagsValid s'.tables)
  unfolding upsert_tags
  Returns-upsert_tags raws pic_id user_id min max s valid =
      Returns-bind (clean_tag_names lib ranges min max raws) _ s _ (
        Returns-weaken _ s _ _
          (λ tns s1 (d, same1). Returns-bind (find_attached_pic_tags pic_id) _ s1 _ (
            Returns-weaken _ s1 _ _
              (λ attached s2 same2.
                Returns-bind (find_unattached_tag_names lib ranges attached tns) _ s2 _ (
                  Returns-weaken _ s2 _ _
                    (λ missing s3 (d', same3).
                      let c3 : TagsValid s3.tables =
                        subst TagsValid (sym (same3 ∙ same2 ∙ same1)) valid in
                      Returns-bind (find_existing_tags_by_name lib missing) _ s3 _ (
                        Returns-weaken _ s3 _ _
                          (λ found s4 (f, same4).
                            stored s3.tables c3 missing d' found f attached tns s4 same4)
                          (Returns-find_existing_tags_by_name lib
                            (λ i. count_uses i s3.tables.pic_tags) missing s3 c3)))
                    (Returns-find_unattached_tag_names lib ranges attached tns s2 d)))
              (Returns-find_attached_pic_tags pic_id s1)))
          (Returns-clean_tag_names lib ranges min max raws s))
    where
      stored :
          (t : Tables) (c : TagsValid t) (missing : List TagNameAndUniq)
          → NamesDistinct missing
          → (found : List Tag × List TagNameAndUniq)
          → FoundFor lib t.tags (λ i. count_uses i t.pic_tags) c missing (found.0)
          → (attached : List Tag) (tns : List TagNameAndUniq) (s4 : Job E) → s4.tables ≡ t
          → Returns
              (update_existing_tags now (found.0) >>= λ existing.
                create_new_tags alloc_id now (found.1) >>= λ created.
                create_pic_tags pic_id now user_id (existing ++ created) >>= λ pts.
                build_tag_id_list lib ranges tns attached (existing ++ created))
              s4
              (λ _ s'. TagsValid s'.tables)
      stored t c missing d found f attached tns s4 same =
          let uses : ℕ → ℕ = λ i. count_uses i t.pic_tags in
          let c4 : IsCounted uses s4.tables.tags =
            subst (λ x. IsCounted uses x.tags) (sym same) c in
          let f4 : IsFound s4.tables.tags (found.0) =
            subst (λ x. IsFound x.tags (found.0)) (sym same)
              (FoundFor-IsFound lib t.tags uses c missing (found.0) d f) in
          Returns-bind (update_existing_tags now (found.0)) _ s4 _ (
            Returns-weaken _ s4 _ _
              (λ us s5 (c5, same5). Returns-bind (create_new_tags alloc_id now (found.1)) _ s5 _ (
                Returns-weaken _ s5 _ _
                  (λ ts s6 (c6, same6).
                    Returns-bind (create_pic_tags pic_id now user_id (us ++ ts)) _ s6 _ (
                      Returns-weaken _ s6 _ _
                        (λ pts s7 (tags7, counts).
                          Returns-weaken _ s7 _ _
                            (λ ids s8 same8. subst TagsValid (sym same8) (
                              attached-IsCounted uses (λ i. count_uses i s7.tables.pic_tags) us ts
                                s7.tables.tags
                                (λ i.
                                  counts i
                                  ∙ ap (λ rows. count_uses i rows + count_tags i (us ++ ts))
                                      (same6 ∙ same5 ∙ ap (λ x. x.pic_tags) same))
                                (subst (λ l. IsCounted (plus (plus uses us) ts) l) (sym tags7) c6)))
                            (Returns-build_tag_id_list lib ranges tns attached (us ++ ts) s7))
                        (Returns-create_pic_tags pic_id now user_id (us ++ ts) s6)))
                  (Returns-create_new_tags alloc_id apart now (plus uses us) (found.1) s5 c5)))
              (Returns-update_existing_tags now uses (found.0) s4 f4 c4))

  Returns-add_pic_tags_job :
      (conf : Configuration) (pic_id : ℕ) (raws : List Text) (u : Option User) (s : Job E)
      → TagsValid s.tables
      → Returns
          (add_pic_tags_job lib ranges alloc_id now conf pic_id raws u)
          s
          (λ _ s'. TagsValid s'.tables)
  unfolding add_pic_tags_job
  Returns-add_pic_tags_job conf pic_id raws u s valid = Returns-bind-require_none s _ _ _ (λ _.
      Returns-bind-find pics_table s _ (pics_primary (record { id = some pic_id })) 0
        (int pic_id ∷ []) _ refl
        (λ fs. Returns-bind-require _ _ _ _ (λ p _. Returns-bind-require_none _ _ _ _ (λ _.
          Returns-bind (upsert_tags lib ranges alloc_id now raws p.pic_id _ _ _) _ _ _ (
            Returns-weaken _ _ _ _
              (λ ids s1 valid1. Returns-bind-internal_call _ _ _ (λ fs1. Returns-pure _ _ _ valid1))
              (Returns-upsert_tags raws p.pic_id _ _ _ (after s.tables fs) valid))))))

  -- If the source of ids leaves the tables alone, a task that adds tags to a picture, whether it
  -- succeeds or fails at any point, keeps it true that the counter of every tag is the number of
  -- pictures with it modulo 2^64, that no id stands for two tags, and that no picture has a tag
  -- that is not there.
  pub add_pic_tags-TagsValid :
      (conf : Configuration) (tok : Option (ℕ × ℕ)) (pic_id : ℕ) (raws : List Text) (s : Job E)
      → TagsValid s.tables
      → TagsValid (add_pic_tags lib ranges alloc_id now conf tok pic_id raws s).1.tables
  unfolding add_pic_tags
  add_pic_tags-TagsValid conf tok pic_id raws =
      Keeps_use E TagsValid (add_pic_tags lib ranges alloc_id now conf tok pic_id raws) (
        Keeps-bind E TagsValid _ _ (Keeps-authed_job E TagsValid (λ t us h. h) now false tok)
          (λ u. Keeps-revert-Returns E TagsValid _ (Returns-add_pic_tags_job conf pic_id raws u)))
