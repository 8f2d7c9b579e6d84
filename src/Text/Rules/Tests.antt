-- ===== src/Text/Rules/Tests.antt =====
-- Runs of the text rules on ASCII texts, and the theorems on them at concrete inputs.
use pixur.Base.{
  ℕ, ◌+◌, ◌≡◌, ◌↔◌, ◌∙◌, refl, arith, Bool, true, false, ◌&&◌, ◌||◌, not, some, List, [], ◌∷◌, ◌++◌,
  ltb, ◌==◌, All,
}
use pixur.Base.Int.{pos}
use pixur.Base.Result.{ok}
use pixur.Text.{
  Text, Span, RangeTable, Library, Ranges, Decoded, init, build_cc, cc_allowed, cc_not_allowed,
  newlines, unsupported_char, validate, validate_max_bytes, normalize, validate_and_normalize,
}
use pixur.Text.Tables.{in_spans, in_any, IsUnicode, is_kept, is_control, init_lem}
use pixur.Text.Rules.{
  validate_encoding, validate_codepoints, validate_codepoint_unsafe, validate_decoded,
  validate_runes, validate_lines, validate_no_newlines_unsafe, to_nfc_unsafe,
  exported_trim_space_unsafe, default_validators, default_validate_and_normalize,
  default_validate_no_newline_and_normalize,
}
use pixur.Text.Rules.Runes.{IsClean}
use pixur.Text.Rules.Chain.{
  exported_trim_space_unsafe_iff, Accepts, default_validate_and_normalize_iff,
}

abbrev is_ascii : Text → Bool
is_ascii [] = true
is_ascii (b ∷ bs) = ltb b 0x80 && is_ascii bs

abbrev decode_from : ℕ → Text → List Decoded
decode_from i [] = []
decode_from i (b ∷ bs) = record { index = i; rune = b; width = 1 } ∷ decode_from (i + 1) bs

abbrev spans_of : List RangeTable → List Span
spans_of [] = []
spans_of (t ∷ ts) = t.r16 ++ (t.r32 ++ spans_of ts)

abbrev table_of : List Span → RangeTable
table_of spans = record { r16 = spans; r32 = []; latin_offset = 0 }

-- A library for ASCII, with the tables of Go 1.11 as far as they go.
abbrev pub ascii : Library
ascii = record {
  valid_string = is_ascii;
  decode = decode_from 0;
  is = λ t r. in_spans t.r16 r || in_spans t.r32 r;
  merge = λ ts. table_of (spans_of ts);
  cc = record {
    r16 =
        record { lo = 0; hi = 0x1f; stride = 1 } ∷ record { lo = 0x7f; hi = 0x9f; stride = 1 } ∷ [];
    r32 = [];
    latin_offset = 2;
  };
  co = table_of (record { lo = 0xe000; hi = 0xf8ff; stride = 1 } ∷ []);
  cs = table_of (record { lo = 0xd800; hi = 0xdfff; stride = 1 } ∷ []);
  noncharacter_code_point = table_of (record { lo = 0xfdd0; hi = 0xfdef; stride = 1 } ∷ []);
  zl = table_of (record { lo = 0x2028; hi = 0x2028; stride = 1 } ∷ []);
  zp = table_of (record { lo = 0x2029; hi = 0x2029; stride = 1 } ∷ []);
  nfc = λ t. t;
  nfd = λ t. t;
  nfkc = λ t. t;
  nfkd = λ t. t;
  fold = λ t. t;
  trim_space = λ t. t;
}

in_spans-append :
    (ss ts : List Span) (r : ℕ) → in_spans (ss ++ ts) r ≡ (in_spans ss r || in_spans ts r)
in_spans-append [] ts r = refl
in_spans-append (s ∷ ss) ts r = ground (arith, in_spans-append ss ts r)

in_spans-spans_of : (ts : List RangeTable) (r : ℕ) → in_spans (spans_of ts) r ≡ in_any ascii ts r
in_spans-spans_of [] r = refl
in_spans-spans_of (t ∷ ts) r =
    in_spans-append t.r16 (t.r32 ++ spans_of ts) r
    ∙ rw (in_spans-append t.r32 (spans_of ts) r, in_spans-spans_of ts r)
        (regroup (in_spans t.r16 r) (in_spans t.r32 r) (in_any ascii ts r))
  where
    regroup : (a b c : Bool) → (a || (b || c)) ≡ ((a || b) || c)
    regroup a b c = ground arith

ascii-IsUnicode : IsUnicode ascii
ascii-IsUnicode = record {
  is_lem = λ t r ordered. refl;
  merge_lem = λ ts r ordered. or_false (in_spans (spans_of ts) r) ∙ in_spans-spans_of ts r;
  cc_lem = ground arith;
  co_lem = ground arith;
  cs_lem = ground arith;
  noncharacter_code_point_lem = ground arith;
  zl_lem = ground arith;
  zp_lem = ground arith;
}
  where
    or_false : (a : Bool) → (a || false) ≡ a
    or_false a = ground arith

abbrev pub ascii_ranges : Ranges
ascii_ranges = record {
  not_allowed =
      ascii.merge (cc_not_allowed ∷ ascii.co ∷ ascii.cs ∷ ascii.noncharacter_code_point ∷ []);
  no_newline = ascii.merge (newlines ∷ ascii.zl ∷ ascii.zp ∷ []);
}

init_run : init ascii ≡ some ascii_ranges
unfolding init build_cc
init_run = refl

build_cc_run : build_cc ascii ≡ some (cc_allowed, cc_not_allowed)
unfolding build_cc
build_cc_run = refl

-- A bell character is refused where it stands.
bell_refused :
    validate_codepoints {E = ℕ} ascii ascii_ranges (0x68 ∷ 0x07 ∷ []) (0x6e ∷ [])
    ≡ some (record { fieldname = 0x6e ∷ []; fault = unsupported_char 1 0x07 })
unfolding validate_codepoints validate_runes validate_decoded validate_codepoint_unsafe
bell_refused = refl

init_lem_example :
    (ascii.is ascii_ranges.not_allowed 0x2028 ≡ (
      (is_control 0x2028 && not (is_kept 0x2028))
      || (ascii.is ascii.co 0x2028
          || (ascii.is ascii.cs 0x2028 || ascii.is ascii.noncharacter_code_point 0x2028))))
    × (ascii.is ascii_ranges.no_newline 0x2028 ≡ (
        (0x2028 == 0x0a || 0x2028 == 0x0d)
        || (ascii.is ascii.zl 0x2028 || ascii.is ascii.zp 0x2028)))
init_lem_example = init_lem ascii ascii_ranges 0x2028 ascii-IsUnicode init_run

abbrev two_lines : Text
two_lines = 0x68 ∷ 0x0a ∷ 0x69 ∷ []

abbrev one_line : Text
one_line = 0x68 ∷ 0x69 ∷ []

abbrev title : Text
title = 0x74 ∷ []

default_validate_and_normalize_iff_example :
    (default_validate_and_normalize {E = ℕ} ascii ascii_ranges (pos 1) (pos 5) [] [] two_lines title
      ≡ ok two_lines)
    ↔ Accepts {E = ℕ} ascii ascii_ranges (pos 1) (pos 5) [] [] two_lines title two_lines
default_validate_and_normalize_iff_example =
    default_validate_and_normalize_iff ascii ascii_ranges (pos 1) (pos 5) [] [] two_lines title
      two_lines

one_line_run :
    default_validate_no_newline_and_normalize {E = ℕ} ascii ascii_ranges
      (pos 1)
      (pos 5)
      []
      one_line
      title
    ≡ ok one_line
unfolding default_validate_no_newline_and_normalize default_validate_and_normalize
    default_validators validate_and_normalize normalize to_nfc_unsafe validate validate_max_bytes
    validate_encoding validate_codepoints validate_runes validate_decoded validate_codepoint_unsafe
    validate_no_newlines_unsafe validate_lines
one_line_run = refl

exported_trim_space_unsafe_iff_example :
    (exported_trim_space_unsafe {E = ℕ} ascii ascii_ranges one_line title ≡ ok one_line) ↔ (
      (ascii.valid_string one_line ≡ true)
      × All (IsClean ascii ascii_ranges) (ascii.decode one_line)
      × (ascii.trim_space one_line ≡ one_line))
exported_trim_space_unsafe_iff_example =
    exported_trim_space_unsafe_iff {E = ℕ} ascii ascii_ranges one_line title one_line
