-- ===== src/Text/Tables.antt =====
-- be/text/text.go: the characters in the tables that `buildCc` and `init` make.
use pixur.Base.{
  ℕ, suc, ◌+◌, ◌-◌, ◌%◌, ◌≤◌, ◌<◌, ◌≡◌, All, refl, sym, ◌∙◌, ap, arith, Bool, true, false, ◌&&◌,
  ◌||◌, not, none, some, List, [], ◌∷◌, leb, ◌==◌, if◌then◌else◌, Bool-cases, inl, inr,
}
use pixur.Text.{
  Span, RangeTable, Library, Ranges, cc_is_known, cc_allowed, cc_not_allowed, build_cc, newlines,
  init,
}

abbrev pub in_spans : List Span → ℕ → Bool
in_spans [] r = false
in_spans (s ∷ ss) r = (leb s.lo r && (leb r s.hi && (r - s.lo) % s.stride == 0)) || in_spans ss r

abbrev pub in_any : Library → List RangeTable → ℕ → Bool
in_any lib [] r = false
in_any lib (t ∷ ts) r = lib.is t r || in_any lib ts r

-- Sorted spans that do not overlap, from `lowest` on.
abbrev pub IsSorted : ℕ → List Span → Type 0
IsSorted lowest [] = Unit
IsSorted lowest (s ∷ ss) = (lowest ≤ s.lo) × (s.lo ≤ s.hi) × (1 ≤ s.stride) × IsSorted (s.hi + 1) ss

-- The spans that end in Latin-1.
abbrev pub latin_spans : List Span → ℕ
latin_spans [] = 0
latin_spans (s ∷ ss) = if leb s.hi 0xff then suc (latin_spans ss) else latin_spans ss

-- What the documentation of `unicode.RangeTable` asks of a table: its two slices are sorted and do not
-- overlap, the first one has values of 16 bits, the second one only greater values, and `LatinOffset`
-- is the number of entries of the first one that end in Latin-1.
abbrev pub IsTable : RangeTable → Type 0
IsTable t =
    IsSorted 0 t.r16
    × All (λ s. s.hi < 0x10000) t.r16
    × IsSorted 0x10000 t.r32
    × (t.latin_offset ≡ latin_spans t.r16)

-- What the documentation of the packages unicode and rangetable says of `Is` and `Merge` on such tables,
-- and that the tables of the package unicode are such tables.
pub record IsUnicode (lib : Library) : Type 0 where
  pub is_lem :
      (t : RangeTable) (r : ℕ) → IsTable t → lib.is t r ≡ (in_spans t.r16 r || in_spans t.r32 r)
  pub merge_lem :
      (ts : List RangeTable) (r : ℕ) → All IsTable ts → lib.is (lib.merge ts) r ≡ in_any lib ts r
  pub cc_lem : IsTable lib.cc
  pub co_lem : IsTable lib.co
  pub cs_lem : IsTable lib.cs
  pub noncharacter_code_point_lem : IsTable lib.noncharacter_code_point
  pub zl_lem : IsTable lib.zl
  pub zp_lem : IsTable lib.zp

cc_allowed-IsTable : IsTable cc_allowed
cc_allowed-IsTable = ground arith

cc_not_allowed-IsTable : IsTable cc_not_allowed
cc_not_allowed-IsTable = ground arith

newlines-IsTable : IsTable newlines
newlines-IsTable = ground arith

known_numbers :
    (al ah as' bl bh bs r : ℕ)
    → al ≡ 0
    → ah ≡ 0x1f
    → as' ≡ 1
    → bl ≡ 0x7f
    → bh ≡ 0x9f
    → bs ≡ 1
    → (in_spans
          (record { lo = al; hi = ah; stride = as' }
            ∷ record { lo = bl; hi = bh; stride = bs }
            ∷ [])
          r
        || false)
      ≡ (leb r 0x1f || (leb 0x7f r && leb r 0x9f))
known_numbers al ah as' bl bh bs r e1 e2 e3 e4 e5 e6 = rw (e1, e2, e3, e4, e5, e6) (ground arith)

-- The table of the control characters that the fast path knows.
in_known :
    (r16 r32 : List Span) (latin_offset r : ℕ)
    → cc_is_known r16 r32 latin_offset ≡ true
    → (in_spans r16 r || in_spans r32 r) ≡ (leb r 0x1f || (leb 0x7f r && leb r 0x9f))
in_known (a ∷ b ∷ []) [] latin_offset r h =
    known_numbers a.lo a.hi a.stride b.lo b.hi b.stride r (ground arith) (ground arith)
      (ground arith) (ground arith) (ground arith) (ground arith)
in_known [] r32 latin_offset r h = cc
in_known (a ∷ []) r32 latin_offset r h = cc
in_known (a ∷ b ∷ []) (c ∷ r32) latin_offset r h = cc
in_known (a ∷ b ∷ c ∷ r16) r32 latin_offset r h = cc

abbrev pub is_kept : ℕ → Bool
is_kept r = r == 0x09 || (r == 0x0a || r == 0x0d)

in_allowed : (r : ℕ) → (in_spans cc_allowed.r16 r || in_spans cc_allowed.r32 r) ≡ is_kept r
in_allowed r = ground arith

in_not_allowed :
    (r : ℕ)
    → (in_spans cc_not_allowed.r16 r || in_spans cc_not_allowed.r32 r)
      ≡ ((leb r 0x1f || (leb 0x7f r && leb r 0x9f)) && not (is_kept r))
in_not_allowed r = ground arith

abbrev pub is_control : ℕ → Bool
is_control r = leb r 0x1f || (leb 0x7f r && leb r 0x9f)

chosen :
    {A B : Type 0} (b : Bool) (x a : A) (y n : B)
    → (let xy : A × B = (x, y) in
        let an : A × B = (a, n) in (if b then some xy else none) ≡ some an)
    → (b ≡ true) × (x ≡ a) × (y ≡ n)
chosen true x a y n e = (refl, ground (arith, e), ground (arith, e))
chosen false x a y n e = cc

-- When the Unicode library keeps its documentation and buildCc returns, its two tables split the
-- control characters, and the allowed ones are tab, line feed and carriage return.
pub build_cc-partition :
    (lib : Library) (allowed ncc : RangeTable) (r : ℕ)
    → IsUnicode lib
    → build_cc lib ≡ some (allowed, ncc)
    → (lib.is lib.cc r ≡ (lib.is allowed r || lib.is ncc r))
      × ((lib.is allowed r && lib.is ncc r) ≡ false)
      × (lib.is allowed r ≡ is_kept r)
unfolding build_cc
build_cc-partition lib allowed ncc r u e =
    let (known, a, n) =
      chosen (cc_is_known lib.cc.r16 lib.cc.r32 lib.cc.latin_offset) cc_allowed allowed
        cc_not_allowed ncc e in
    let in_cc =
      u.is_lem lib.cc r u.cc_lem ∙ in_known lib.cc.r16 lib.cc.r32 lib.cc.latin_offset r known in
    let in_a =
      ap (λ t. lib.is t r) (sym a) ∙ u.is_lem cc_allowed r cc_allowed-IsTable ∙ in_allowed r in
    let in_n =
      ap (λ t. lib.is t r) (sym n)
      ∙ u.is_lem cc_not_allowed r cc_not_allowed-IsTable
      ∙ in_not_allowed r in
    (
      in_cc ∙ kept_are_controls r ∙ sym (rw (in_a, in_n) refl),
      rw (in_a, in_n) (apart (is_kept r) (is_control r)),
      in_a,
    )
  where
    kept_are_controls : (r : ℕ) → is_control r ≡ (is_kept r || (is_control r && not (is_kept r)))
    kept_are_controls r = ground arith

    apart : (k c : Bool) → (k && (c && not k)) ≡ false
    apart k c = ground arith

-- What `init` makes of the table of forbidden controls.
made : Library → RangeTable → Ranges
made lib ncc = record {
  not_allowed = lib.merge (ncc ∷ lib.co ∷ lib.cs ∷ lib.noncharacter_code_point ∷ []);
  no_newline = lib.merge (newlines ∷ lib.zl ∷ lib.zp ∷ []);
}

init-made :
    (lib : Library) (ranges : Ranges) → init lib ≡ some ranges → made lib cc_not_allowed ≡ ranges
unfolding init build_cc made
init-made lib ranges e = elim (Bool-cases (cc_is_known lib.cc.r16 lib.cc.r32 lib.cc.latin_offset)) [
  | inl known ↦ let e' = rw (known, init) at e in some_injective e'
  | inr unknown ↦ absurd (clash (rw (unknown, init) at e))
]
  where
    some_injective : {a b : Ranges} → some a ≡ some b → a ≡ b
    some_injective p = ground (arith, p)

    clash : ¬ (none ≡ some ranges)
    clash p = cc

-- When the Unicode library keeps its documentation, of Is and Merge on well formed tables only, and
-- the program starts, the forbidden characters are the controls but tab, line feed and carriage
-- return, the private use characters, the surrogates and the noncharacters; the newlines are line
-- feed, carriage return, and the line and paragraph separators.
pub init_lem :
    (lib : Library) (ranges : Ranges) (r : ℕ)
    → IsUnicode lib
    → init lib ≡ some ranges
    → (lib.is ranges.not_allowed r ≡ (
        (is_control r && not (is_kept r))
        || (lib.is lib.co r || (lib.is lib.cs r || lib.is lib.noncharacter_code_point r))))
      × (lib.is ranges.no_newline r
          ≡ ((r == 0x0a || r == 0x0d) || (lib.is lib.zl r || lib.is lib.zp r)))
unfolding made
init_lem lib ranges r u e =
    let m = init-made lib ranges e in
    let in_n = u.is_lem cc_not_allowed r cc_not_allowed-IsTable ∙ in_not_allowed r in
    let in_l : lib.is newlines r ≡ (r == 0x0a || r == 0x0d) =
      u.is_lem newlines r newlines-IsTable ∙ in_newlines r in
    (
      ap (λ x. lib.is x.not_allowed r) (sym m)
          ∙ u.merge_lem (cc_not_allowed ∷ lib.co ∷ lib.cs ∷ lib.noncharacter_code_point ∷ []) r
              (cc_not_allowed-IsTable, (u.co_lem, (u.cs_lem, (u.noncharacter_code_point_lem, tt))))
          ∙ rw in_n (
              last (is_control r && not (is_kept r)) (lib.is lib.co r) (lib.is lib.cs r)
                (lib.is lib.noncharacter_code_point r)),
      ap (λ x. lib.is x.no_newline r) (sym m)
          ∙ u.merge_lem (newlines ∷ lib.zl ∷ lib.zp ∷ []) r
              (newlines-IsTable, (u.zl_lem, (u.zp_lem, tt)))
          ∙ rw in_l (last_two (r == 0x0a || r == 0x0d) (lib.is lib.zl r) (lib.is lib.zp r)),
    )
  where
    in_newlines :
        (r : ℕ) → (in_spans newlines.r16 r || in_spans newlines.r32 r) ≡ (r == 0x0a || r == 0x0d)
    in_newlines r = ground arith

    last : (a b c d : Bool) → (a || (b || (c || (d || false)))) ≡ (a || (b || (c || d)))
    last a b c d = ground arith

    last_two : (a b c : Bool) → (a || (b || (c || false))) ≡ (a || (b || c))
    last_two a b c = ground arith
