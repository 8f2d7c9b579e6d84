-- ===== src/Tables/Laws.antt =====
-- be/schema/tables/tables.tab.go: the rows of a table after a statement. A key is full if it names all
-- columns: then a prefix is the key itself.
use mathlib.Core.Path.{subst}
use pixur.Base.{
  ℕ, ◌≡◌, refl, sym, ap, arith, Bool, true, false, List, [], ◌∷◌, ◌++◌, map, All, Bool-cases, inl,
  inr, ==_refl,
}
use pixur.Schema.{Pic}
use pixur.Tables.Pics.{pics_table}
use pixur.Tables.{
  Value, int, bytes, eqb_bytes, eqb_Value, Key, eqb_Key, has_prefix, select, has_key, replace,
  remove,
}

pub eqb_bytes_refl : (a : List ℕ) → eqb_bytes a a ≡ true
eqb_bytes_refl [] = refl
eqb_bytes_refl (b ∷ bs) = rw (==_refl b, eqb_bytes_refl bs) refl

pub eqb_Value_refl : (v : Value) → eqb_Value v v ≡ true
eqb_Value_refl (int a) = ==_refl a
eqb_Value_refl (bytes a) = eqb_bytes_refl a

pub eqb_Key_refl : (k : Key) → eqb_Key k k ≡ true
eqb_Key_refl [] = refl
eqb_Key_refl (v ∷ vs) = rw (eqb_Value_refl v, eqb_Key_refl vs) refl

module _ {R : Type 0} (key : R → Key) where
  -- The rows with a full key, after a row is written over.
  pub select-replace :
      (k : Key) (new : R)
      → ((r : R) → has_prefix k (key r) ≡ eqb_Key k (key r))
      → eqb_Key k (key new) ≡ true
      → (rs : List R) → select key k (replace key k new rs) ≡ map (λ _. new) (select key k rs)
  select-replace k new full same [] = refl
  select-replace k new full same (r ∷ rs) = elim (Bool-cases (eqb_Key k (key r))) [
    | inl hit ↦
        rw (hit, full new, same, full r, hit)
          (ap (λ l. new ∷ l) (select-replace k new full same rs))
    | inr miss ↦ rw (miss, full r, miss) (select-replace k new full same rs)
  ]

  -- Every row that is found has the prefix.
  pub select-All :
      (k : Key) (rs : List R) → All (λ r. has_prefix k (key r) ≡ true) (select key k rs)
  select-All k [] = tt
  select-All k (r ∷ rs) = elim (Bool-cases (has_prefix k (key r))) [
    | inl hit ↦ rw hit (hit, select-All k rs)
    | inr miss ↦ rw miss (select-All k rs)
  ]

  pub select-append :
      (k : Key) (rs ts : List R) → select key k (rs ++ ts) ≡ select key k rs ++ select key k ts
  select-append k [] ts = refl
  select-append k (r ∷ rs) ts = elim (Bool-cases (has_prefix k (key r))) [
    | inl hit ↦ rw hit (ap (λ l. r ∷ l) (select-append k rs ts))
    | inr miss ↦ rw miss (select-append k rs ts)
  ]

  -- No row with the key is left.
  pub has_key-remove : (k : Key) (rs : List R) → has_key key k (remove key k rs) ≡ false
  has_key-remove k [] = refl
  has_key-remove k (r ∷ rs) = elim (Bool-cases (eqb_Key k (key r))) [
    | inl hit ↦ rw hit (has_key-remove k rs)
    | inr miss ↦ rw (miss, has_key-remove k rs) (rw miss refl)
  ]

  -- The only row with the prefix.
  pub select-only :
      (k : Key) (rs : List R) (r : R)
      → select key k rs ≡ r ∷ []
      → All (λ q. has_prefix k (key q) ≡ true → q ≡ r) rs
  select-only k rs r e = only_rows rs (subst (λ l. All (λ q. q ≡ r) l) (sym e) (refl, tt))
    where
      clash : {b : Bool} → b ≡ false → b ≡ true → ⊥
      clash p q = cc

      only_rows :
          (rs : List R)
          → All (λ q. q ≡ r) (select key k rs)
          → All (λ q. has_prefix k (key q) ≡ true → q ≡ r) rs
      only_rows [] h = tt
      only_rows (q ∷ qs) h = elim (Bool-cases (has_prefix k (key q))) [
        | inl hit ↦ let (same, rest) = rw hit at h in (λ _. same, only_rows qs rest)
        | inr miss ↦ (λ hit. absurd (clash miss hit), only_rows qs (rw miss at h))
      ]

-- The only picture with an id.
pub only_pic :
    (pic_id : ℕ) (p : Pic) (pics : List Pic)
    → select (pics_table.key) (int pic_id ∷ []) pics ≡ p ∷ []
    → (p.pic_id ≡ pic_id)
      × All (λ q. has_prefix (int p.pic_id ∷ []) (pics_table.key q) ≡ true → q ≡ p) pics
only_pic pic_id p pics only =
    let (hit, rest) =
      subst (All (λ r. has_prefix (int pic_id ∷ []) (pics_table.key r) ≡ true)) only
        (select-All (pics_table.key) (int pic_id ∷ []) pics) in
    let id_lem : p.pic_id ≡ pic_id = ground (arith, hit) in
    (
      id_lem,
      subst (λ k. All (λ q. has_prefix (int k ∷ []) (pics_table.key q) ≡ true → q ≡ p) pics)
          (sym id_lem) (select-only (pics_table.key) (int pic_id ∷ []) pics p only),
    )
