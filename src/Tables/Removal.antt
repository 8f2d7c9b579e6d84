-- ===== src/Tables/Removal.antt =====
-- be/schema/tables/tables.tab.go: the rows of a table after several of them are deleted.
use pixur.Base.{◌≡◌, ◌∙◌, refl, ap, List, [], ◌∷◌, Bool-cases, inl, inr}
use pixur.Tables.{Key, eqb_Key, has_prefix, select, remove}
use pixur.Tables.Laws.{eqb_Key_refl}

-- The rows but those with the keys of some others.
abbrev pub remove_all : {R : Type 0} → (R → Key) → List R → List R → List R
remove_all key [] rs = rs
remove_all key (d ∷ ds) rs = remove_all key ds (remove key (key d) rs)

module _ {R : Type 0} (key : R → Key) where
  select-remove :
      (k pre : Key) (rs : List R)
      → select key pre (remove key k rs) ≡ remove key k (select key pre rs)
  select-remove k pre [] = refl
  select-remove k pre (r ∷ rs) = elim (Bool-cases (eqb_Key k (key r))) [
    | inl gone ↦ elim (Bool-cases (has_prefix pre (key r))) [
      | inl hit ↦ rw (gone, hit, gone) (select-remove k pre rs)
      | inr miss ↦ rw (gone, miss) (select-remove k pre rs)
    ]
    | inr stays ↦ elim (Bool-cases (has_prefix pre (key r))) [
      | inl hit ↦ rw (stays, hit, stays) (ap (λ l. r ∷ l) (select-remove k pre rs))
      | inr miss ↦ rw (stays, miss) (select-remove k pre rs)
    ]
  ]

  select-remove_all :
      (pre : Key) (ds rs : List R)
      → select key pre (remove_all key ds rs) ≡ remove_all key ds (select key pre rs)
  select-remove_all pre [] rs = refl
  select-remove_all pre (d ∷ ds) rs =
      select-remove_all pre ds (remove key (key d) rs)
      ∙ ap (remove_all key ds) (select-remove (key d) pre rs)

  remove_comm :
      (k j : Key) (rs : List R) → remove key k (remove key j rs) ≡ remove key j (remove key k rs)
  remove_comm k j [] = refl
  remove_comm k j (r ∷ rs) = elim (Bool-cases (eqb_Key k (key r))) [
    | inl k_hit ↦ elim (Bool-cases (eqb_Key j (key r))) [
      | inl j_hit ↦ rw (j_hit, k_hit) (remove_comm k j rs)
      | inr j_miss ↦ rw (j_miss, k_hit) (remove_comm k j rs)
    ]
    | inr k_miss ↦ elim (Bool-cases (eqb_Key j (key r))) [
      | inl j_hit ↦ rw (j_hit, k_miss, j_hit) (remove_comm k j rs)
      | inr j_miss ↦ rw (j_miss, k_miss, j_miss) (ap (λ l. r ∷ l) (remove_comm k j rs))
    ]
  ]

  remove_all-remove :
      (k : Key) (ds rs : List R)
      → remove_all key ds (remove key k rs) ≡ remove key k (remove_all key ds rs)
  remove_all-remove k [] rs = refl
  remove_all-remove k (d ∷ ds) rs =
      ap (remove_all key ds) (remove_comm (key d) k rs)
      ∙ remove_all-remove k ds (remove key (key d) rs)

  remove_all_self : (rs : List R) → remove_all key rs rs ≡ []
  remove_all_self [] = refl
  remove_all_self (r ∷ rs) =
      rw (eqb_Key_refl (key r))
        (remove_all-remove (key r) rs rs ∙ ap (remove key (key r)) (remove_all_self rs))

  -- Nothing with the prefix is left where all that it finds is removed.
  pub select-remove_all-select :
      (pre : Key) (rs : List R) → select key pre (remove_all key (select key pre rs) rs) ≡ []
  select-remove_all-select pre rs =
      select-remove_all pre (select key pre rs) rs ∙ remove_all_self (select key pre rs)
