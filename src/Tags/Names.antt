-- ===== src/Tags/Names.antt =====
-- be/tasks/add_pic_tags_task.go: names without duplicates find tags with different ids.
use mathlib.Core.Path.{subst}
use pixur.Base.{
  ℕ, ◌≤◌, ◌≡◌, ◌∙◌, ◌⊎◌, ==_refl, ◌++◌, refl, sym, ap, arith, Bool, true, false, ◌&&◌, ◌||◌, none,
  some, List, [], ◌∷◌, All, length, ◌==◌, Bool-cases, inl, inr,
}
use pixur.Text.{Text, Library}
use pixur.Text.Rules.{to_caseless_nfkc_unsafe}
use pixur.Schema.{Tag}
use pixur.Job.{Status}
use pixur.Tables.{bytes, eqb_bytes, select, limited}
use pixur.Tables.Laws.{eqb_bytes_refl}
use pixur.Tags.{
  TagNameAndUniq, contains_text, validate_no_duplicate_tags, unattached, sort_found,
  tags_name_table,
}
use pixur.Tags.Usage.{with_id, IsCounted}

pub eqb_bytes_eq : (a b : List ℕ) → eqb_bytes a b ≡ true → a ≡ b
eqb_bytes_eq [] [] e = refl
eqb_bytes_eq [] (b ∷ bs) e = cc
eqb_bytes_eq (a ∷ as') [] e = cc
eqb_bytes_eq (a ∷ as') (b ∷ bs) e =
    let (p, q) = both (a == b) (eqb_bytes as' bs) e in cons (number a b p) (eqb_bytes_eq as' bs q)
  where
    both : (x y : Bool) → (x && y) ≡ true → (x ≡ true) × (y ≡ true)
    both x y e = ground (arith, e)

    number : (x y : ℕ) → (x == y) ≡ true → x ≡ y
    number x y e = ground (arith, e)

    cons : a ≡ b → as' ≡ bs → a ∷ as' ≡ b ∷ bs
    cons p q = cc

-- No later name has the form of an earlier one.
abbrev pub NamesDistinct : List TagNameAndUniq → Type 0
NamesDistinct [] = Unit
NamesDistinct (tn ∷ tns) = All (λ m. eqb_bytes tn.uniq m.uniq ≡ false) tns × NamesDistinct tns

unseen :
    {E : Type 0} (seen : List Text) (tns : List TagNameAndUniq)
    → validate_no_duplicate_tags {E = E} seen tns ≡ none
    → NamesDistinct tns × All (λ m. contains_text seen m.uniq ≡ false) tns
unseen seen [] e = (tt, tt)
unseen {E} seen (tn ∷ tns) e = elim (Bool-cases (contains_text seen tn.uniq)) [
  | inl hit ↦ absurd (clash (rw hit at e))
  | inr miss ↦
      let (rest, later) = unseen {E = E} (tn.uniq ∷ seen) tns (rw miss at e) in
      ((left tns later, rest), (miss, right tns later))
]
  where
    clash : {st : Status E} → ¬ (some st ≡ none)
    clash p = cc

    neither : (a b : Bool) → (a || b) ≡ false → (a ≡ false) × (b ≡ false)
    neither a b e = ground (arith, e)

    left :
        (ms : List TagNameAndUniq)
        → All (λ m. contains_text (tn.uniq ∷ seen) m.uniq ≡ false) ms
        → All (λ m. eqb_bytes tn.uniq m.uniq ≡ false) ms
    left [] h = tt
    left (m ∷ ms) (h, hs) =
        ((neither (eqb_bytes tn.uniq m.uniq) (contains_text seen m.uniq) h).0, left ms hs)

    right :
        (ms : List TagNameAndUniq)
        → All (λ m. contains_text (tn.uniq ∷ seen) m.uniq ≡ false) ms
        → All (λ m. contains_text seen m.uniq ≡ false) ms
    right [] h = tt
    right (m ∷ ms) (h, hs) =
        ((neither (eqb_bytes tn.uniq m.uniq) (contains_text seen m.uniq) h).1, right ms hs)

-- The check for duplicates lets only different names through.
pub validate_no_duplicate_tags-NamesDistinct :
    {E : Type 0} (tns : List TagNameAndUniq)
    → validate_no_duplicate_tags {E = E} [] tns ≡ none
    → NamesDistinct tns
validate_no_duplicate_tags-NamesDistinct {E} tns e = (unseen {E = E} [] tns e).0

All-unattached :
    (P : TagNameAndUniq → Type 0) (attached : List Text) (tns : List TagNameAndUniq)
    → All P tns
    → All P (unattached attached tns)
All-unattached P attached [] h = tt
All-unattached P attached (tn ∷ tns) (h, hs) = elim (Bool-cases (contains_text attached tn.uniq)) [
  | inl there ↦ rw there (All-unattached P attached tns hs)
  | inr missing ↦ rw missing (h, All-unattached P attached tns hs)
]

pub unattached-NamesDistinct :
    (attached : List Text) (tns : List TagNameAndUniq)
    → NamesDistinct tns
    → NamesDistinct (unattached attached tns)
unattached-NamesDistinct attached [] d = tt
unattached-NamesDistinct attached (tn ∷ tns) (h, d) =
    elim (Bool-cases (contains_text attached tn.uniq)) [
      | inl there ↦ rw there (unattached-NamesDistinct attached tns d)
      | inr missing ↦ rw missing (
        All-unattached (λ m. eqb_bytes tn.uniq m.uniq ≡ false) attached tns h,
        unattached-NamesDistinct attached tns d,
      )
    ]

-- Tags that are the only rows with their ids, no two with one id.
abbrev pub IsFound : List Tag → List Tag → Type 0
IsFound tags [] = Unit
IsFound tags (x ∷ xs) =
    (with_id x.tag_id tags ≡ x ∷ [])
    × All (λ y. (x.tag_id == y.tag_id) ≡ false) xs
    × IsFound tags xs

-- A tag that stands among those with its id.
abbrev Among : Tag → List Tag → Type 0
Among x ts = (ys zs : List Tag) × (with_id x.tag_id ts ≡ ys ++ (x ∷ zs))

head_or : Tag → List Tag → Tag
head_or d [] = d
head_or d (t ∷ ts) = t

module _ (lib : Library) where
  select-Among :
      (key : Text) (x : Tag) (xs ts : List Tag)
      → select ((tags_name_table lib).key) (bytes key ∷ []) ts ≡ x ∷ xs
      → Among x ts × (eqb_bytes key (to_caseless_nfkc_unsafe lib x.name) ≡ true)
  unfolding head_or
  select-Among key x xs [] e = cc
  select-Among key x xs (t ∷ ts) e =
      elim (Bool-cases (eqb_bytes key (to_caseless_nfkc_unsafe lib t.name))) [
        | inl hit ↦
            let same : t ≡ x = ap (λ l. head_or x l) (rw hit at e) in
            subst
              (λ y. Among y (t ∷ ts) × (eqb_bytes key (to_caseless_nfkc_unsafe lib y.name) ≡ true))
              same (([], with_id t.tag_id ts, rw (==_refl t.tag_id) refl), hit)
        | inr miss ↦
            let ((ys, zs, found), right) = select-Among key x xs ts (rw miss at e) in
            elim (Bool-cases (x.tag_id == t.tag_id && true)) [
              | inl mine ↦ ((t ∷ ys, zs, rw mine (ap (λ l. t ∷ l) found)), right)
              | inr other ↦ ((ys, zs, rw other found), right)
            ]
      ]

  only_one : (x : Tag) (ys zs : List Tag) → length (ys ++ (x ∷ zs)) ≤ 1 → ys ++ (x ∷ zs) ≡ x ∷ []
  only_one x [] [] h = refl
  only_one x [] (z ∷ zs) h = absurd (omega (arith, h))
  only_one x (y ∷ []) zs h = absurd (omega (arith, h))
  only_one x (y ∷ w ∷ ys) zs h = absurd (omega (arith, h))

  module _ (tags : List Tag) (uses : ℕ → ℕ) (c : IsCounted uses tags) where
    -- A tag that was found by its name.
    abbrev pub Named : Text → Tag → Type 0
    Named key x =
        (with_id x.tag_id tags ≡ x ∷ [])
        × (eqb_bytes key (to_caseless_nfkc_unsafe lib x.name) ≡ true)

    found-Named :
        (key : Text) (x : Tag) (xs : List Tag)
        → select ((tags_name_table lib).key) (bytes key ∷ []) tags ≡ x ∷ xs
        → Named key x
    found-Named key x xs e =
        let ((ys, zs, found), right) = select-Among key x xs tags e in
        (found ∙ only_one x ys zs (subst (λ l. length l ≤ 1) found (c.once x.tag_id)), right)

    -- Tags found by different names have different ids.
    different :
        (j k : Text) (x y : Tag)
        → eqb_bytes j k ≡ false
        → Named j x
        → Named k y
        → (x.tag_id == y.tag_id) ≡ false
    unfolding head_or
    different j k x y ne (only_x, name_x) (only_y, name_y) =
        elim (Bool-cases (x.tag_id == y.tag_id)) [
          | inr apart ↦ apart
          | inl hit ↦
              let same : x ≡ y =
                ap (λ l. head_or x l)
                  (sym only_x ∙ ap (λ i. with_id i tags) (number x.tag_id y.tag_id hit) ∙ only_y) in
              let texts : j ≡ k =
                eqb_bytes_eq j (to_caseless_nfkc_unsafe lib x.name) name_x
                ∙ ap (λ t. to_caseless_nfkc_unsafe lib t.name) same
                ∙ sym (eqb_bytes_eq k (to_caseless_nfkc_unsafe lib y.name) name_y) in
              absurd (clash (sym (eqb_bytes_refl j) ∙ ap (eqb_bytes j) texts) ne)
        ]
      where
        number : (a b : ℕ) → (a == b) ≡ true → a ≡ b
        number a b e = ground (arith, e)

        clash : {b : Bool} → true ≡ b → b ≡ false → ⊥
        clash p q = cc

    -- The tags that were found for some of the names, in their order.
    abbrev pub FoundFor : List TagNameAndUniq → List Tag → Type 0
    FoundFor [] [] = Unit
    FoundFor [] (x ∷ xs) = ⊥
    FoundFor (tn ∷ tns) [] = Unit
    FoundFor (tn ∷ tns) (x ∷ xs) = (Named tn.uniq x × FoundFor tns xs) ⊎ FoundFor tns (x ∷ xs)

    FoundFor-skip :
        (tn : TagNameAndUniq) (tns : List TagNameAndUniq) (xs : List Tag)
        → FoundFor tns xs
        → FoundFor (tn ∷ tns) xs
    FoundFor-skip tn tns [] h = tt
    FoundFor-skip tn tns (x ∷ xs) h = inr h

    -- One round of the search keeps that.
    pub sort_found-FoundFor :
        (tn : TagNameAndUniq) (tns : List TagNameAndUniq) (rest : List Tag × List TagNameAndUniq)
        → FoundFor tns (rest.0)
        → FoundFor (tn ∷ tns) (
            (sort_found tn
              (limited 1 (select ((tags_name_table lib).key) (bytes tn.uniq ∷ []) tags))
              rest).0)
    sort_found-FoundFor tn tns rest h =
        go (select ((tags_name_table lib).key) (bytes tn.uniq ∷ []) tags) refl rest h
      where
        go :
            (l : List Tag)
            → select ((tags_name_table lib).key) (bytes tn.uniq ∷ []) tags ≡ l
            → (r : List Tag × List TagNameAndUniq) → FoundFor tns (r.0)
            → FoundFor (tn ∷ tns) ((sort_found tn (limited 1 l) r).0)
        go [] e (xs, unknown) k = FoundFor-skip tn tns xs k
        go (x ∷ l) e (xs, unknown) k = inl (found-Named tn.uniq x l e, k)

    apart_from :
        (key : Text) (x : Tag)
        → Named key x
        → (tns : List TagNameAndUniq) (ys : List Tag) → All (λ m. eqb_bytes key m.uniq ≡ false) tns
        → FoundFor tns ys
        → All (λ y. (x.tag_id == y.tag_id) ≡ false) ys
    apart_from key x n [] [] h f = tt
    apart_from key x n [] (y ∷ ys) h f = absurd f
    apart_from key x n (tn ∷ tns) [] h f = tt
    apart_from key x n (tn ∷ tns) (y ∷ ys) (ne, h) (inl (m, f)) =
        (different key tn.uniq x y ne n m, apart_from key x n tns ys h f)
    apart_from key x n (tn ∷ tns) (y ∷ ys) (ne, h) (inr f) = apart_from key x n tns (y ∷ ys) h f

    pub FoundFor-IsFound :
        (tns : List TagNameAndUniq) (xs : List Tag)
        → NamesDistinct tns
        → FoundFor tns xs
        → IsFound tags xs
    FoundFor-IsFound [] [] d f = tt
    FoundFor-IsFound [] (x ∷ xs) d f = absurd f
    FoundFor-IsFound (tn ∷ tns) [] d f = tt
    FoundFor-IsFound (tn ∷ tns) (x ∷ xs) (h, d) (inl (n, f)) =
        (n.0, apart_from tn.uniq x n tns xs h f, FoundFor-IsFound tns xs d f)
    FoundFor-IsFound (tn ∷ tns) (x ∷ xs) (h, d) (inr f) = FoundFor-IsFound tns (x ∷ xs) d f
