-- ===== src/Scan/Lexicographic.antt =====
-- be/schema/db/db.go: `buildRange` selects the rows that compare lexicographically.
use Prim.Native.Nat.{Ordering}
use pixur.Base.{
  ◌≤◌, ◌≡◌, refl, ap, ◌∙◌, arith, Bool, true, false, ◌&&◌, ◌||◌, List, [], ◌∷◌, ◌++◌, length, ltb,
}
use pixur.Base.Result.{Result, ok}
use pixur.Scan.{
  Op, equal, less, at_most, greater, at_least, Comparison, RangeFault, zip, equals, values, group,
  build_ors, build_range,
}

-- Whether a column's value that compares so with the argument satisfies the operator.
abbrev pub holds : Op → Ordering → Bool
holds equal o = elim o [ Ordering.lt ↦ false | Ordering.eq ↦ true | Ordering.gt ↦ false ]
holds less o = elim o [ Ordering.lt ↦ true | Ordering.eq ↦ false | Ordering.gt ↦ false ]
holds at_most o = elim o [ Ordering.lt ↦ true | Ordering.eq ↦ true | Ordering.gt ↦ false ]
holds greater o = elim o [ Ordering.lt ↦ false | Ordering.eq ↦ false | Ordering.gt ↦ true ]
holds at_least o = elim o [ Ordering.lt ↦ false | Ordering.eq ↦ true | Ordering.gt ↦ true ]

-- `against c v` is how the value of a row's column `c` compares with `v`.
module _ {C V : Type 0} (against : C → V → Ordering) where
  -- A group of ANDs, with the arguments that it leaves for the next.
  abbrev pub eval_ands : List (Comparison C) → List V → Bool × List V
  eval_ands [] args = (true, args)
  eval_ands (x ∷ xs) [] = (false, [])
  eval_ands (x ∷ xs) (v ∷ args) =
      let (rest, left) = eval_ands xs args in (holds x.op (against x.col v) && rest, left)

  abbrev pub eval_ors : List (List (Comparison C)) → List V → Bool × List V
  eval_ors [] args = (false, args)
  eval_ors (g ∷ gs) args =
      let (first, left) = eval_ands g args in
      let (rest, left') = eval_ors gs left in (first || rest, left')

  -- The first column that differs decides, by `midop`; the last one by `lastop`.
  abbrev pub lexicographic : Op → Op → List (C × V) → Bool
  lexicographic midop lastop [] = false
  lexicographic midop lastop ((c, v) ∷ []) = holds lastop (against c v)
  lexicographic midop lastop ((c, v) ∷ d ∷ rest) =
      holds midop (against c v)
      || (holds equal (against c v) && lexicographic midop lastop (d ∷ rest))

  abbrev all_equal : List (C × V) → Bool
  all_equal [] = true
  all_equal ((c, v) ∷ before) = holds equal (against c v) && all_equal before

  all_equal-append :
      (before : List (C × V)) (c : C) (v : V)
      → all_equal (before ++ ((c, v) ∷ [])) ≡ (all_equal before && holds equal (against c v))
  all_equal-append [] c v = and_true (holds equal (against c v))
    where
      and_true : (b : Bool) → (b && true) ≡ b
      and_true b = ground arith
  all_equal-append ((d, w) ∷ before) c v =
      ap (λ b. holds equal (against d w) && b) (all_equal-append before c v)
      ∙ assoc (holds equal (against d w)) (all_equal before) (holds equal (against c v))
    where
      assoc : (a b c : Bool) → (a && (b && c)) ≡ ((a && b) && c)
      assoc a b c = ground arith

  -- A group takes the arguments that were added for it.
  eval_ands-group :
      (before : List (C × V)) (c : C) (op : Op) (v : V) (args : List V)
      → eval_ands (group before c op) (values before ++ (v ∷ args))
        ≡ (all_equal before && holds op (against c v), args)
  unfolding equals
  eval_ands-group [] c op v args = ap (λ b. (b, args)) (and_true (holds op (against c v)))
    where
      and_true : (b : Bool) → (b && true) ≡ b
      and_true b = ground arith
  eval_ands-group ((d, w) ∷ before) c op v args =
      ap (λ r. (holds equal (against d w) && r.0, r.1)) (eval_ands-group before c op v args)
      ∙ ap (λ b. (b, args))
          (assoc (holds equal (against d w)) (all_equal before) (holds op (against c v)))
    where
      assoc : (a b c : Bool) → (a && (b && c)) ≡ ((a && b) && c)
      assoc a b c = ground arith

  eval_ors-build_ors :
      (midop lastop : Op) (before : List (C × V)) (c : C) (v : V) (rest : List (C × V))
      → (let (ors, args) = build_ors midop lastop before ((c, v) ∷ rest) in eval_ors ors args)
        ≡ (all_equal before && lexicographic midop lastop ((c, v) ∷ rest), [])
  unfolding build_ors
  eval_ors-build_ors midop lastop before c v [] =
      ap (λ r. (r.0 || false, r.1)) (eval_ands-group before c lastop v [])
      ∙ ap (λ b. (b, [])) (or_false (all_equal before && holds lastop (against c v)))
    where
      or_false : (b : Bool) → (b || false) ≡ b
      or_false b = ground arith
  eval_ors-build_ors midop lastop before c v ((d, w) ∷ rest) =
      let next = build_ors midop lastop (before ++ ((c, v) ∷ [])) ((d, w) ∷ rest) in
      let later = lexicographic midop lastop ((d, w) ∷ rest) in
      ap (λ r. let (more, left) = eval_ors next.0 r.1 in (r.0 || more, left))
        (eval_ands-group before c midop v next.1)
      ∙ ap (λ r. ((all_equal before && holds midop (against c v)) || r.0, r.1))
          (eval_ors-build_ors midop lastop (before ++ ((c, v) ∷ [])) d w rest)
      ∙ ap (λ b. ((all_equal before && holds midop (against c v)) || (b && later), []))
          (all_equal-append before c v)
      ∙ ap (λ b. (b, []))
          (factor (all_equal before) (holds midop (against c v)) (holds equal (against c v)) later)
    where
      factor : (p m e l : Bool) → ((p && m) || ((p && e) && l)) ≡ (p && (m || (e && l)))
      factor p m e l = ground arith

  -- The result is a condition that is `b` on the row, and every argument has its placeholder.
  pub record Selects (r : Result RangeFault (List (List (Comparison C)) × List V)) (b : Bool)
      : Type 0 where
    pub ors : List (List (Comparison C))
    pub args : List V
    pub returned : r ≡ ok (ors, args)
    pub evaluated : eval_ors ors args ≡ (b, [])

  -- With one value or more, and no more values than columns, buildRange returns a condition that
  -- uses up its arguments in order and that holds of a row exactly when the columns compare
  -- lexicographically with the values: the first that differs decides by the middle operator, the
  -- last one by the last.
  pub build_range-lexicographic :
      (midop lastop : Op) (c : C) (cols : List C) (v : V) (vals : List V)
      → length vals ≤ length cols
      → Selects
          (build_range (c ∷ cols) (v ∷ vals) midop lastop)
          (lexicographic midop lastop (zip (c ∷ cols) (v ∷ vals)))
  unfolding build_range
  build_range-lexicographic midop lastop c cols v vals h =
      let made = build_ors midop lastop [] (zip (c ∷ cols) (v ∷ vals)) in
      let fits : ltb (length (c ∷ cols)) (length (v ∷ vals)) ≡ false = ground arith in
      record {
        ors = made.0;
        args = made.1;
        returned = rw fits refl;
        evaluated = eval_ors-build_ors midop lastop [] c v (zip cols vals);
      }
