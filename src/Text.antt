-- ===== src/Text.antt =====
-- be/text/text.go: validation and normalization of the text that users send. The Unicode tables and
-- functions of the Go libraries are the record `Library`; a text is its list of bytes.
pub mod Tables
pub mod Rules
use pixur.Base.{
  ℕ, ◌-◌, ◌%◌, Bool, true, false, ◌&&◌, ◌||◌, not, Option, none, some, List, [], ◌∷◌, ◌++◌, leb,
  ltb, ◌==◌, if◌then◌else◌, length,
}
use pixur.Base.Int.{ℤ, pos, ltb_ℤ}
use pixur.Base.Result.{Result, ok, err, ◌>>=◌, ◌>>◌}

-- `unicode.Range16` and `unicode.Range32`
pub record Span : Type 0 where
  pub lo : ℕ
  pub hi : ℕ
  pub stride : ℕ

-- `unicode.RangeTable`
pub record RangeTable : Type 0 where
  pub r16 : List Span
  pub r32 : List Span
  pub latin_offset : ℕ

-- One round of `range text`: where it starts, the rune, and how many bytes it was decoded from.
pub record Decoded : Type 0 where
  pub index : ℕ
  pub rune : ℕ
  pub width : ℕ

abbrev pub Text : Type 0
Text = List ℕ

-- What the code calls: `range` over a string, the packages utf8, unicode, rangetable, norm, cases
-- and strings.
pub record Library : Type 0 where
  pub valid_string : Text → Bool
  pub decode : Text → List Decoded
  pub is : RangeTable → ℕ → Bool
  pub merge : List RangeTable → RangeTable
  pub cc : RangeTable
  pub co : RangeTable
  pub cs : RangeTable
  pub noncharacter_code_point : RangeTable
  pub zl : RangeTable
  pub zp : RangeTable
  pub nfc : Text → Text
  pub nfd : Text → Text
  pub nfkc : Text → Text
  pub nfkd : Text → Text
  pub fold : Text → Text
  pub trim_space : Text → Text

abbrev span : ℕ → ℕ → Span
span lo hi = record { lo = lo; hi = hi; stride = 1 }

abbrev pub same_span : Span → Span → Bool
same_span s t = s.lo == t.lo && s.hi == t.hi && s.stride == t.stride

abbrev pub cc_allowed : RangeTable
cc_allowed = record { r16 = span 0x09 0x0a ∷ span 0x0d 0x0d ∷ []; r32 = []; latin_offset = 2 }

abbrev pub cc_not_allowed : RangeTable
cc_not_allowed = record {
  r16 = span 0 0x08 ∷ span 0x0b 0x0c ∷ span 0x0e 0x1f ∷ span 0x7f 0x9f ∷ [];
  r32 = [];
  latin_offset = 4;
}

-- The test on `unicode.Cc` for the fast path.
abbrev pub cc_is_known : List Span → List Span → ℕ → Bool
cc_is_known (a ∷ b ∷ []) [] latin_offset =
    latin_offset == 2 && (same_span a (span 0 0x1f) && same_span b (span 0x7f 0x9f))
cc_is_known [] r32 latin_offset = false
cc_is_known (a ∷ []) r32 latin_offset = false
cc_is_known (a ∷ b ∷ []) (c ∷ r32) latin_offset = false
cc_is_known (a ∷ b ∷ c ∷ r16) r32 latin_offset = false

-- `buildCc`; `none` is the panic.
pub build_cc : Library → Option (RangeTable × RangeTable)
build_cc lib =
    if cc_is_known lib.cc.r16 lib.cc.r32 lib.cc.latin_offset
    then some (cc_allowed, cc_not_allowed)
    else none

-- `notAllowedRange` and `noNewlineRange`
pub record Ranges : Type 0 where
  pub not_allowed : RangeTable
  pub no_newline : RangeTable

abbrev pub newlines : RangeTable
newlines = record { r16 = span 0x0a 0x0a ∷ span 0x0d 0x0d ∷ []; r32 = []; latin_offset = 2 }

-- `init`
pub init : Library → Option Ranges
init lib = elim (build_cc lib) [
  | none ↦ none
  | some (allowed, ncc) ↦ some (record {
    not_allowed = lib.merge (ncc ∷ lib.co ∷ lib.cs ∷ lib.noncharacter_code_point ∷ []);
    no_newline = lib.merge (newlines ∷ lib.zl ∷ lib.zp ∷ []);
  })
]

-- What is wrong with a text; `foreign` is the error of a caller's own validator or normalizer.
pub data Fault (E : Type 0) : Type 0 where
  invalid_encoding : Fault E
  bad_rune : ℕ → Fault E
  unsupported_char unsupported_newline : ℕ → ℕ → Fault E
  too_short too_long : ℕ → ℤ → Fault E
  foreign : E → Fault E

-- An error about the field of that name.
pub record Status (E : Type 0) : Type 0 where
  pub fieldname : Text
  pub fault : Fault E

abbrev pub TextValidator : Type 0 → Type 0
TextValidator E = Text → Text → Option (Status E)

abbrev pub TextNormalizer : Type 0 → Type 0
TextNormalizer E = Text → Text → Result (Status E) Text

abbrev pub refuse : {E : Type 0} → Text → Fault E → Option (Status E)
refuse fieldname f = some (record { fieldname = fieldname; fault = f })

-- `if sts := first; sts != nil { return sts }`, and then `rest`.
abbrev pub or_else : {E : Type 0} → Option (Status E) → Option (Status E) → Option (Status E)
or_else none rest = rest
or_else (some s) rest = some s

abbrev pub guard : {E : Type 0} → Option (Status E) → Result (Status E) (Unit {0})
guard none = ok tt
guard (some s) = err s

module _ {E : Type 0} where
  -- `validateMaxBytes`
  unfoldable pub validate_max_bytes : ℤ → ℤ → TextValidator E
  validate_max_bytes min max text fieldname =
      if ltb_ℤ (pos (length text)) min
      then refuse fieldname (too_short (length text) min)
      else if ltb_ℤ max (pos (length text))
      then refuse fieldname (too_long (length text) max)
      else none

  -- `validate`
  unfoldable pub validate : List (TextValidator E) → TextValidator E
  validate [] text fieldname = none
  validate (v ∷ vs) text fieldname = or_else (v text fieldname) (validate vs text fieldname)

  -- `normalize`
  unfoldable pub normalize : List (TextNormalizer E) → TextNormalizer E
  normalize [] text fieldname = ok text
  normalize (n ∷ ns) text fieldname = n text fieldname >>= λ text'. normalize ns text' fieldname

  -- `validateAndNormalize`
  unfoldable pub validate_and_normalize :
      List (TextNormalizer E) → List (TextValidator E) → List (TextValidator E) → TextNormalizer E
  validate_and_normalize ns prevalid postvalid text fieldname = do
    guard (validate prevalid text fieldname)
    newtext ← normalize ns text fieldname
    guard (validate postvalid newtext fieldname)
    ok newtext
