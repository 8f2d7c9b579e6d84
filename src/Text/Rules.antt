-- ===== src/Text/Rules.antt =====
-- be/text/text.go: the validators and normalizers, and the default rules made of them.
pub mod Runes
pub mod Chain
pub mod Tests
use pixur.Base.{
  ℕ, Bool, true, false, ◌&&◌, Option, none, some, List, [], ◌∷◌, ◌++◌, leb, ◌==◌, if◌then◌else◌,
}
use pixur.Base.Int.{ℤ}
use pixur.Base.Result.{Result, ok, err, ◌>>=◌, ◌>>◌}
use pixur.Text.{
  Text, Library, Ranges, Decoded, Status, TextValidator, TextNormalizer, refuse, or_else, guard,
  invalid_encoding, bad_rune, unsupported_char, unsupported_newline, validate, validate_max_bytes,
  validate_and_normalize,
}

-- `trimSpaceUnsafe`, which only `trimSpace` calls.
pub trim_space_unsafe : Library → Text → Text
trim_space_unsafe lib text = lib.trim_space text

-- `toCaselessNFKCUnsafe`
unfoldable pub to_caseless_nfkc_unsafe : Library → Text → Text
to_caseless_nfkc_unsafe lib text = lib.nfkc (lib.fold (lib.nfkd (lib.fold (lib.nfd text))))

module _ {E : Type 0} (lib : Library) (ranges : Ranges) where
  -- `validateEncoding`
  unfoldable pub validate_encoding : TextValidator E
  validate_encoding text fieldname =
      if lib.valid_string text then none else refuse fieldname invalid_encoding

  -- `validateCodepointUnsafe`
  unfoldable pub validate_codepoint_unsafe : ℕ → ℕ → Text → Option (Status E)
  validate_codepoint_unsafe i r fieldname =
      if lib.is ranges.not_allowed r then refuse fieldname (unsupported_char i r) else none

  -- One round of `validateCodepoints`; 0xfffd is `utf8.RuneError`.
  unfoldable pub validate_decoded : Decoded → Text → Option (Status E)
  validate_decoded d fieldname =
      if d.rune == 0xfffd && leb d.width 1
      then refuse fieldname (bad_rune d.index)
      else validate_codepoint_unsafe d.index d.rune fieldname

  unfoldable pub validate_runes : List Decoded → Text → Option (Status E)
  validate_runes [] fieldname = none
  validate_runes (d ∷ ds) fieldname =
      or_else (validate_decoded d fieldname) (validate_runes ds fieldname)

  -- `validateCodepoints`
  unfoldable pub validate_codepoints : TextValidator E
  validate_codepoints text fieldname = validate_runes (lib.decode text) fieldname

  unfoldable pub validate_lines : List Decoded → Text → Option (Status E)
  validate_lines [] fieldname = none
  validate_lines (d ∷ ds) fieldname =
      if lib.is ranges.no_newline d.rune
      then refuse fieldname (unsupported_newline d.index d.rune)
      else validate_lines ds fieldname

  -- `validateNoNewlinesUnsafe`
  unfoldable pub validate_no_newlines_unsafe : TextValidator E
  validate_no_newlines_unsafe text fieldname = validate_lines (lib.decode text) fieldname

  -- `validateNoNewlines`
  unfoldable pub validate_no_newlines : TextValidator E
  validate_no_newlines text fieldname =
      or_else (validate_encoding text fieldname)
        (or_else (validate_codepoints text fieldname) (validate_no_newlines_unsafe text fieldname))

  -- What `toNFC`, `trimSpace` and `toCaselessNFKC` have in common.
  unfoldable pub checked : (Text → Text) → TextNormalizer E
  checked convert text fieldname = do
    guard (validate_encoding text fieldname)
    guard (validate_codepoints text fieldname)
    ok (convert text)

  -- `ToNFC` and `ToNFCUnsafe`
  unfoldable pub to_nfc : TextNormalizer E
  to_nfc = checked lib.nfc

  unfoldable pub to_nfc_unsafe : TextNormalizer E
  to_nfc_unsafe text fieldname = ok (lib.nfc text)

  -- `TrimSpace`
  pub trim_space : TextNormalizer E
  trim_space = checked (trim_space_unsafe lib)

  -- `TrimSpaceUnsafe`
  pub exported_trim_space_unsafe : TextNormalizer E
  exported_trim_space_unsafe = trim_space

  -- `toCaselessNFKC`
  unfoldable pub to_caseless_nfkc : TextNormalizer E
  to_caseless_nfkc = checked (to_caseless_nfkc_unsafe lib)

  -- `defaultValidators`: `pre` and `post`.
  unfoldable pub default_validators :
      ℤ → ℤ → List (TextValidator E) → List (TextValidator E) × List (TextValidator E)
  default_validators min max unsafe_pre =
      let post : List (TextValidator E) = validate_max_bytes min max ∷ [] in
      (((post ++ (validate_encoding ∷ validate_codepoints ∷ [])) ++ unsafe_pre), post)

  -- `defaultValidateAndNormalize`
  unfoldable pub default_validate_and_normalize :
      ℤ → ℤ → List (TextValidator E) → List (TextValidator E) → TextNormalizer E
  default_validate_and_normalize minbytes maxbytes unsafe_pre extra =
      let (pre, post) = default_validators minbytes maxbytes [] in
      validate_and_normalize (to_nfc_unsafe ∷ []) ((pre ++ unsafe_pre) ++ extra) (post ++ extra)

  -- `defaultValidate`
  unfoldable pub default_validate : ℤ → ℤ → TextValidator E
  default_validate minbytes maxbytes = validate ((default_validators minbytes maxbytes []).0)

  -- `DefaultValidateNoNewlineAndNormalize`
  unfoldable pub default_validate_no_newline_and_normalize :
      ℤ → ℤ → List (TextValidator E) → TextNormalizer E
  default_validate_no_newline_and_normalize minbytes maxbytes =
      default_validate_and_normalize minbytes maxbytes (validate_no_newlines_unsafe ∷ [])
