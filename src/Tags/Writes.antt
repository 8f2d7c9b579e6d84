-- ===== src/Tags/Writes.antt =====
-- be/tasks/add_pic_tags_task.go: what the statements on tags do to their counters.
use pixur.Base.{
  ℕ, ◌+◌, ◌%◌, ◌^◌, ◌≡◌, ◌∙◌, refl, sym, ap, arith, false, List, [], ◌∷◌, ◌++◌, All, ◌==◌,
  if◌then◌else◌,
}
use pixur.Schema.{Time, Tables, Tag, PicTag}
use pixur.Job.{Job, Action}
use pixur.Job.Returns.{Returns, Returns-bind, Returns-weaken, Returns-pure}
use pixur.Tables.{int, replace}
use pixur.Tables.Pics.{tags_table, pic_tags_table}
use pixur.Tables.Rows.{Returns-bind-insert, Returns-bind-update, Returns-bind-apart}
use pixur.Tags.{TagNameAndUniq, used_again, new_tag}
use pixur.Tags.Tasks.{update_existing_tags, create_new_tags, create_pic_tags}
use pixur.Tags.Usage.{with_id-put, one_more, IsCounted, IsCounted-used_again, IsCounted-new_tag}
use pixur.Tags.Names.{IsFound}

-- How many of the rows are of the tag.
abbrev pub count_uses : ℕ → List PicTag → ℕ
count_uses i [] = 0
count_uses i (pt ∷ pts) = (if i == pt.tag_id then 1 else 0) + count_uses i pts

-- The counter of every tag is the number of pictures with it, no id stands for two tags, and no picture
-- has a tag that is not there.
abbrev pub TagsValid : Tables → Type 0
TagsValid t = IsCounted (λ i. count_uses i t.pic_tags) t.tags

abbrev pub count_tags : ℕ → List Tag → ℕ
count_tags i [] = 0
count_tags i (x ∷ xs) = (if i == x.tag_id then 1 else 0) + count_tags i xs

abbrev pub plus : (ℕ → ℕ) → List Tag → ℕ → ℕ
plus uses xs i = uses i + count_tags i xs

pub IsCounted-same :
    (uses uses' : ℕ → ℕ) (tags : List Tag)
    → ((i : ℕ) → uses i ≡ uses' i)
    → IsCounted uses tags
    → IsCounted uses' tags
IsCounted-same uses uses' tags e c = record {
  once = c.once;
  counted = all tags c.counted;
  known = λ i unknown. sym (e i) ∙ c.known i unknown;
}
  where
    all :
        (ts : List Tag)
        → All (λ x. x.usage_count ≡ uses x.tag_id % 2 ^ 64) ts
        → All (λ x. x.usage_count ≡ uses' x.tag_id % 2 ^ 64) ts
    all [] h = tt
    all (x ∷ xs) (h, hs) = (h ∙ ap (λ n. n % 2 ^ 64) (e x.tag_id), all xs hs)

count_uses-append :
    (i : ℕ) (pts : List PicTag) (pt : PicTag)
    → count_uses i (pts ++ (pt ∷ [])) ≡ count_uses i pts + (if i == pt.tag_id then 1 else 0)
count_uses-append i [] pt = omega arith
count_uses-append i (p ∷ pts) pt = omega (arith, count_uses-append i pts pt)

module _ {E : Type 0} where
  pub Returns-update_existing_tags :
      (now : Time) (uses : ℕ → ℕ) (xs : List Tag) (s : Job E)
      → IsFound s.tables.tags xs
      → IsCounted uses s.tables.tags
      → Returns (update_existing_tags now xs) s (λ us s'.
        IsCounted (plus uses us) s'.tables.tags × (s'.tables.pic_tags ≡ s.tables.pic_tags))
  unfolding update_existing_tags
  Returns-update_existing_tags now uses [] s f c =
      Returns-pure _ _ _
        (IsCounted-same uses (plus uses []) s.tables.tags (λ i. zero_right (uses i)) c, refl)
    where
      zero_right : (n : ℕ) → n ≡ n + 0
      zero_right n = omega arith
  Returns-update_existing_tags now uses (x ∷ xs) s (only, apart, f) c =
      Returns-bind-update tags_table s _ (used_again now x) _ (λ fs.
        Returns-bind (update_existing_tags now xs) _ _ _ (
          Returns-weaken _ _ _ _
            (λ us s' (c', same). Returns-pure _ _ _ (
              IsCounted-same (plus (one_more x.tag_id uses) us) (plus uses (used_again now x ∷ us))
                  s'.tables.tags
                  (λ i. regroup (uses i) (if i == x.tag_id then 1 else 0) (count_tags i us)) c',
              same,
            ))
            (Returns-update_existing_tags now (one_more x.tag_id uses) xs _ (moved xs apart f)
              (IsCounted-used_again now uses s.tables.tags x only c))))
    where
      regroup : (a b d : ℕ) → (a + b) + d ≡ a + (b + d)
      regroup a b d = omega arith

      turned : (a b : ℕ) → (a == b) ≡ false → (b == a) ≡ false
      turned a b e = ground (arith, e)

      moved :
          (ys : List Tag)
          → All (λ y. (x.tag_id == y.tag_id) ≡ false) ys
          → IsFound s.tables.tags ys
          → IsFound
              (replace (tags_table.key) (int x.tag_id ∷ []) (used_again now x) s.tables.tags)
              ys
      moved [] h k = tt
      moved (y ∷ ys) (ne, h) (one, others, k) = (
        with_id-put y.tag_id (used_again now x) s.tables.tags (turned x.tag_id y.tag_id ne) ∙ one,
        others,
        moved ys h k,
      )

  pub Returns-create_new_tags :
      (alloc_id : Action E ℕ) (apart : (s : Job E) → (alloc_id s).1.tables ≡ s.tables) (now : Time)
      (uses : ℕ → ℕ) (tns : List TagNameAndUniq) (s : Job E)
      → IsCounted uses s.tables.tags
      → Returns (create_new_tags alloc_id now tns) s (λ ts s'.
        IsCounted (plus uses ts) s'.tables.tags × (s'.tables.pic_tags ≡ s.tables.pic_tags))
  unfolding create_new_tags
  Returns-create_new_tags alloc_id apart now uses [] s c =
      Returns-pure _ _ _
        (IsCounted-same uses (plus uses []) s.tables.tags (λ i. zero_right (uses i)) c, refl)
    where
      zero_right : (n : ℕ) → n ≡ n + 0
      zero_right n = omega arith
  Returns-create_new_tags alloc_id apart now uses (tn ∷ tns) s c =
      Returns-bind-apart alloc_id apart s _ _ (λ id fs.
        Returns-bind-insert tags_table _ _ (new_tag now id tn.name) _ (λ new fs1.
          Returns-bind (create_new_tags alloc_id now tns) _ _ _ (
            Returns-weaken _ _ _ _
              (λ ts s' (c', same). Returns-pure _ _ _ (
                IsCounted-same (plus (one_more id uses) ts)
                    (plus uses (new_tag now id tn.name ∷ ts)) s'.tables.tags
                    (λ i. regroup (uses i) (if i == id then 1 else 0) (count_tags i ts)) c',
                same,
              ))
              (Returns-create_new_tags alloc_id apart now (one_more id uses) tns _
                (IsCounted-new_tag uses s.tables.tags (new_tag now id tn.name) refl new c)))))
    where
      regroup : (a b d : ℕ) → (a + b) + d ≡ a + (b + d)
      regroup a b d = omega arith

  pub Returns-create_pic_tags :
      (pic_id : ℕ) (now : Time) (user_id : ℕ) (ts : List Tag) (s : Job E)
      → Returns (create_pic_tags pic_id now user_id ts) s (λ _ s'.
        (s'.tables.tags ≡ s.tables.tags)
        × ((i : ℕ)
            → count_uses i s'.tables.pic_tags ≡ count_uses i s.tables.pic_tags + count_tags i ts))
  unfolding create_pic_tags
  Returns-create_pic_tags pic_id now user_id [] s =
      Returns-pure _ _ _ (refl, λ i. zero_right (count_uses i s.tables.pic_tags))
    where
      zero_right : (n : ℕ) → n ≡ n + 0
      zero_right n = omega arith
  Returns-create_pic_tags pic_id now user_id (t ∷ ts) s =
      Returns-bind-insert pic_tags_table s _ _ _ (λ new fs.
        Returns-bind (create_pic_tags pic_id now user_id ts) _ _ _ (
          Returns-weaken _ _ _ _
            (λ _ s' (same, counts).
              Returns-pure _ _ _
                (same, λ i. counts i ∙ step i (count_uses-append i s.tables.pic_tags _)))
            (Returns-create_pic_tags pic_id now user_id ts _)))
    where
      step :
          (i : ℕ) {n : ℕ}
          → n ≡ count_uses i s.tables.pic_tags + (if i == t.tag_id then 1 else 0)
          → n + count_tags i ts
            ≡ count_uses i s.tables.pic_tags + ((if i == t.tag_id then 1 else 0) + count_tags i ts)
      step i e = omega (arith, e)
