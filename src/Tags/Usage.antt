-- ===== src/Tags/Usage.antt =====
-- be/tasks/add_pic_tags_task.go: the counter of a tag is the number of its uses, step by step.
use mathlib.Core.Path.{subst}
use pixur.Base.{
  ℕ, ◌+◌, ◌≤◌, ◌%◌, ◌^◌, ◌≡◌, ◌⊎◌, ◌∙◌, refl, sym, ap, arith, Bool, true, false, ◌&&◌, ◌||◌, List,
  [], ◌∷◌, ◌++◌, All, length, length-append, ◌==◌, ==_refl, if◌then◌else◌, Bool-cases, inl, inr,
}
use pixur.Schema.{Time, Tag}
use pixur.Tables.{int, select, has_prefix, has_key, replace}
use pixur.Tables.Pics.{tags_table}
use pixur.Tables.Laws.{select-only, select-append}
use pixur.Votes.{increment}
use pixur.Votes.Tally.{bump}
use pixur.Tags.{used_again}

-- The rows with an id.
abbrev pub with_id : ℕ → List Tag → List Tag
with_id i tags = select (tags_table.key) (int i ∷ []) tags

abbrev pub has_tag : ℕ → List Tag → Bool
has_tag i tags = has_key (tags_table.key) (int i ∷ []) tags

-- The uses with one more of a tag.
abbrev pub one_more : ℕ → (ℕ → ℕ) → ℕ → ℕ
one_more j uses i = uses i + (if i == j then 1 else 0)

-- Every id stands once, every counter, an int64, stands for the uses, and nothing else is used.
pub record IsCounted (uses : ℕ → ℕ) (tags : List Tag) : Type 0 where
  pub once : (i : ℕ) → length (with_id i tags) ≤ 1
  pub counted : All (λ x. x.usage_count ≡ uses x.tag_id % 2 ^ 64) tags
  pub known : (i : ℕ) → has_tag i tags ≡ false → uses i ≡ 0

abbrev put : Tag → List Tag → List Tag
put x tags = replace (tags_table.key) (int x.tag_id ∷ []) x tags

-- A row that is written over stays where it was.
pub with_id-put :
    (i : ℕ) (x : Tag) (tags : List Tag)
    → (i == x.tag_id) ≡ false
    → with_id i (put x tags) ≡ with_id i tags
with_id-put i x [] ne = refl
with_id-put i x (t ∷ ts) ne = elim (Bool-cases (x.tag_id == t.tag_id && true)) [
  | inl hit ↦
      rw (hit, apart i x.tag_id ne, apart i t.tag_id (moved i x.tag_id t.tag_id hit ne))
        (with_id-put i x ts ne)
  | inr miss ↦ elim (Bool-cases (i == t.tag_id && true)) [
    | inl mine ↦ rw (miss, mine) (ap (λ l. t ∷ l) (with_id-put i x ts ne))
    | inr other ↦ rw (miss, other) (with_id-put i x ts ne)
  ]
]
  where
    apart : (a b : ℕ) → (a == b) ≡ false → (a == b && true) ≡ false
    apart a b e = ground arith

    moved : (a b c : ℕ) → (b == c && true) ≡ true → (a == b) ≡ false → (a == c) ≡ false
    moved a b c p q = ground (arith, p, q)

length-with_id-put :
    (i : ℕ) (x : Tag) (tags : List Tag) → length (with_id i (put x tags)) ≡ length (with_id i tags)
length-with_id-put i x [] = refl
length-with_id-put i x (t ∷ ts) = elim (Bool-cases (x.tag_id == t.tag_id && true)) [
  | inl hit ↦ elim (Bool-cases (i == t.tag_id && true)) [
    | inl mine ↦
        rw (hit, mine, moved i x.tag_id t.tag_id true hit mine)
          (omega (arith, length-with_id-put i x ts))
    | inr other ↦
        rw (hit, other, moved i x.tag_id t.tag_id false hit other) (length-with_id-put i x ts)
  ]
  | inr miss ↦ elim (Bool-cases (i == t.tag_id && true)) [
    | inl mine ↦ rw (miss, mine) (omega (arith, length-with_id-put i x ts))
    | inr other ↦ rw (miss, other) (length-with_id-put i x ts)
  ]
]
  where
    moved :
        (a b c : ℕ) (r : Bool)
        → (b == c && true) ≡ true
        → (a == c && true) ≡ r
        → (a == b && true) ≡ r
    moved a b c r p q = ground (arith, p, q)

has_tag-put : (i : ℕ) (x : Tag) (tags : List Tag) → has_tag i (put x tags) ≡ has_tag i tags
has_tag-put i x [] = refl
has_tag-put i x (t ∷ ts) = elim (Bool-cases (x.tag_id == t.tag_id && true)) [
  | inl hit ↦ rw (hit, has_tag-put i x ts) (same i x.tag_id t.tag_id (has_tag i ts) hit)
  | inr miss ↦ rw (miss, has_tag-put i x ts) refl
]
  where
    same :
        (a b c : ℕ) (r : Bool)
        → (b == c && true) ≡ true
        → ((a == b && true) || r) ≡ ((a == c && true) || r)
    same a b c r p = ground (arith, p)

has_tag-with_id :
    (i : ℕ) (x : Tag) (tags rest : List Tag) → with_id i tags ≡ x ∷ rest → has_tag i tags ≡ true
has_tag-with_id i x [] rest e = cc
has_tag-with_id i x (t ∷ ts) rest e = elim (Bool-cases (i == t.tag_id && true)) [
  | inl hit ↦ rw hit refl
  | inr miss ↦ rw miss (has_tag-with_id i x ts rest (rw miss at e))
]

-- A tag that is used again.
pub IsCounted-used_again :
    (now : Time) (uses : ℕ → ℕ) (tags : List Tag) (x : Tag)
    → with_id x.tag_id tags ≡ x ∷ []
    → IsCounted uses tags
    → IsCounted (one_more x.tag_id uses) (put (used_again now x) tags)
IsCounted-used_again now uses tags x only c = record {
  once = λ i. subst (λ n. n ≤ 1) (sym (length-with_id-put i (used_again now x) tags)) (c.once i);
  counted = all tags (select-only (tags_table.key) (int x.tag_id ∷ []) tags x only) c.counted;
  known = λ i unknown.
      let before : has_tag i tags ≡ false = sym (has_tag-put i (used_again now x) tags) ∙ unknown in
      zero_plus (uses i) (i == x.tag_id) (c.known i before) (other i before);
}
  where
    zero_plus : (n : ℕ) (b : Bool) → n ≡ 0 → b ≡ false → n + (if b then 1 else 0) ≡ 0
    zero_plus n b p q = ground (arith, p, q)

    clash : {b : Bool} → b ≡ true → b ≡ false → ⊥
    clash p q = cc

    same_id : (a b : ℕ) → (a == b) ≡ true → b ≡ a
    same_id a b e = ground (arith, e)

    other : (i : ℕ) → has_tag i tags ≡ false → (i == x.tag_id) ≡ false
    other i unknown = elim (Bool-cases (i == x.tag_id)) [
      | inl hit ↦ absurd (
          clash (has_tag-with_id x.tag_id x tags [] only)
            (subst (λ j. has_tag j tags ≡ false) (sym (same_id i x.tag_id hit)) unknown))
      | inr miss ↦ miss
    ]

    at_x :
        (m u : ℕ)
        → m ≡ u % 2 ^ 64
        → increment m ≡ (u + (if x.tag_id == x.tag_id then 1 else 0)) % 2 ^ 64
    at_x m u e = bump u m e ∙ ap (λ b. (u + (if b then 1 else 0)) % 2 ^ 64) (sym (==_refl x.tag_id))

    at_other :
        (i m u : ℕ)
        → (x.tag_id == i && true) ≡ false
        → m ≡ u % 2 ^ 64
        → m ≡ (u + (if i == x.tag_id then 1 else 0)) % 2 ^ 64
    at_other i m u miss e = e ∙ ap (λ n. n % 2 ^ 64) (stays i u miss)
      where
        stays :
            (i u : ℕ) → (x.tag_id == i && true) ≡ false → u ≡ u + (if i == x.tag_id then 1 else 0)
        stays i u p = ground (arith, p)

    all :
        (ts : List Tag)
        → All (λ q. has_prefix (int x.tag_id ∷ []) (tags_table.key q) ≡ true → q ≡ x) ts
        → All (λ q. q.usage_count ≡ uses q.tag_id % 2 ^ 64) ts
        → All
            (λ q. q.usage_count ≡ one_more x.tag_id uses q.tag_id % 2 ^ 64)
            (put (used_again now x) ts)
    all [] h k = tt
    all (q ∷ qs) (same, h) (e, k) = elim (Bool-cases (x.tag_id == q.tag_id && true)) [
      | inl hit ↦ rw hit (
        at_x x.usage_count (uses x.tag_id)
            (subst (λ y. y.usage_count ≡ uses y.tag_id % 2 ^ 64) (same hit) e),
        all qs h k,
      )
      | inr miss ↦ rw miss (at_other q.tag_id q.usage_count (uses q.tag_id) miss e, all qs h k)
    ]

has_tag-none : (i : ℕ) (tags : List Tag) → has_tag i tags ≡ false → with_id i tags ≡ []
has_tag-none i [] e = refl
has_tag-none i (t ∷ ts) e = elim (Bool-cases (i == t.tag_id && true)) [
  | inl hit ↦ absurd (clash (rw hit at e))
  | inr miss ↦ rw miss (has_tag-none i ts (rw miss at e))
]
  where
    clash : ¬ (true ≡ false)
    clash p = cc

has_tag-append :
    (i : ℕ) (tags : List Tag) (x : Tag)
    → has_tag i (tags ++ (x ∷ [])) ≡ (has_tag i tags || i == x.tag_id)
has_tag-append i [] x = last (i == x.tag_id)
  where
    last : (b : Bool) → ((b && true) || false) ≡ (false || b)
    last b = ground arith
has_tag-append i (t ∷ ts) x = rw (has_tag-append i ts x) (ground arith)

-- A new tag, with one use.
pub IsCounted-new_tag :
    (uses : ℕ → ℕ) (tags : List Tag) (x : Tag)
    → x.usage_count ≡ 1
    → has_tag x.tag_id tags ≡ false
    → IsCounted uses tags
    → IsCounted (one_more x.tag_id uses) (tags ++ (x ∷ []))
IsCounted-new_tag uses tags x first new c = record {
  once = λ i. once_at i (Bool-cases (i == x.tag_id && true));
  counted = all tags c.counted new;
  known = λ i unknown.
      let (before, other) =
        neither (has_tag i tags) (i == x.tag_id) (sym (has_tag-append i tags x) ∙ unknown) in
      zero_plus (uses i) (i == x.tag_id) (c.known i before) other;
}
  where
    zero_plus : (n : ℕ) (b : Bool) → n ≡ 0 → b ≡ false → n + (if b then 1 else 0) ≡ 0
    zero_plus n b p q = ground (arith, p, q)

    neither : (a b : Bool) → (a || b) ≡ false → (a ≡ false) × (b ≡ false)
    neither a b e = ground (arith, e)

    same_id : (a b : ℕ) → (a == b && true) ≡ true → a ≡ b
    same_id a b e = ground (arith, e)

    once_at :
        (i : ℕ)
        → ((i == x.tag_id && true) ≡ true) ⊎ ((i == x.tag_id && true) ≡ false)
        → length (with_id i (tags ++ (x ∷ []))) ≤ 1
    once_at i (inl hit) = rw (select-append (tags_table.key) (int i ∷ []) tags (x ∷ [])) (
        rw hit (
          rw
            (has_tag-none i tags
              (subst (λ j. has_tag j tags ≡ false) (sym (same_id i x.tag_id hit)) new))
            (omega arith)))
    once_at i (inr miss) =
        rw (select-append (tags_table.key) (int i ∷ []) tags (x ∷ []))
          (rw miss (omega (arith, length-append (with_id i tags) [], c.once i)))

    at_new :
        (u : ℕ) → u ≡ 0 → x.usage_count ≡ (u + (if x.tag_id == x.tag_id then 1 else 0)) % 2 ^ 64
    at_new u z = first ∙ rw (z, ==_refl x.tag_id) refl

    all :
        (ts : List Tag)
        → All (λ q. q.usage_count ≡ uses q.tag_id % 2 ^ 64) ts
        → has_tag x.tag_id ts ≡ false
        → All (λ q. q.usage_count ≡ one_more x.tag_id uses q.tag_id % 2 ^ 64) (ts ++ (x ∷ []))
    all [] k e = (at_new (uses x.tag_id) (c.known x.tag_id new), tt)
    all (q ∷ qs) (h, k) e =
        let (apart, rest) = neither (x.tag_id == q.tag_id && true) (has_tag x.tag_id qs) e in
        (h ∙ ap (λ n. n % 2 ^ 64) (stays q.tag_id (uses q.tag_id) apart), all qs k rest)
      where
        stays :
            (i u : ℕ) → (x.tag_id == i && true) ≡ false → u ≡ u + (if i == x.tag_id then 1 else 0)
        stays i u p = ground (arith, p)
