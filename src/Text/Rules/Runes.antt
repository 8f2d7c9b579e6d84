-- ===== src/Text/Rules/Runes.antt =====
-- be/text/text.go: which texts each validator takes.
use pixur.Base.{
  ◌≡◌, ◌↔◌, refl, Bool, true, false, ◌&&◌, Option, none, some, List, [], ◌∷◌, leb, ◌==◌,
  if◌then◌else◌, Bool-cases, inl, inr, All, length,
}
use pixur.Base.Int.{ℤ, pos, ltb_ℤ}
use pixur.Text.{
  Text, Library, Ranges, Decoded, Status, or_else, refuse, validate_max_bytes, too_short, too_long,
  bad_rune, unsupported_char, unsupported_newline,
}
use pixur.Text.Rules.{
  validate_encoding, validate_codepoint_unsafe, validate_decoded, validate_runes,
  validate_codepoints, validate_lines, validate_no_newlines_unsafe,
}

module _ (lib : Library) (ranges : Ranges) where
  -- The rune is well formed, and not one of the forbidden ones.
  abbrev pub IsClean : Decoded → Type 0
  IsClean d =
      ((d.rune == 0xfffd && leb d.width 1) ≡ false) × (lib.is ranges.not_allowed d.rune ≡ false)

  abbrev pub IsInline : Decoded → Type 0
  IsInline d = lib.is ranges.no_newline d.rune ≡ false

abbrev pub IsBounded : ℤ → ℤ → Text → Type 0
IsBounded min max text =
    (ltb_ℤ (pos (length text)) min ≡ false) × (ltb_ℤ max (pos (length text)) ≡ false)

pub or_else-none :
    {E : Type 0} (a b : Option (Status E)) → (or_else a b ≡ none) ↔ ((a ≡ none) × (b ≡ none))
or_else-none none b = ((λ e. (refl, e)), λ (p, q). q)
or_else-none (some s) b = ((λ e. absurd (clash e)), λ (p, q). p)
  where
    clash : ¬ (some s ≡ none)
    clash p = cc

-- The shape of a test that refuses.
if_none :
    {E : Type 0} (b : Bool) (s : Status E) (o : Option (Status E))
    → ((if b then some s else o) ≡ none) ↔ ((b ≡ false) × (o ≡ none))
if_none true s o = ((λ e. absurd (clash e)), λ (p, q). absurd (truth p))
  where
    clash : ¬ (some s ≡ none)
    clash p = cc

    truth : ¬ (true ≡ false)
    truth p = cc
if_none false s o = ((λ e. (refl, e)), λ (p, q). q)

pub validate_max_bytes_iff :
    {E : Type 0} (min max : ℤ) (text fieldname : Text)
    → (validate_max_bytes {E = E} min max text fieldname ≡ none) ↔ IsBounded min max text
unfolding validate_max_bytes
validate_max_bytes_iff {E = E} min max text fieldname =
    let long = ltb_ℤ max (pos (length text)) in
    let short = ltb_ℤ (pos (length text)) min in
    let on_long =
      if_none long (record { fieldname = fieldname; fault = too_long (length text) max }) none in
    let on_short =
      if_none short (record { fieldname = fieldname; fault = too_short (length text) min })
        (if long then refuse fieldname (too_long (length text) max) else none) in
    (
      (λ e. let (a, b) = on_short.0 e in (a, (on_long.0 b).0)),
      λ (a, b). on_short.1 (a, on_long.1 (b, refl)),
    )

module _ {E : Type 0} (lib : Library) (ranges : Ranges) (fieldname : Text) where
  pub validate_encoding_iff :
      (text : Text)
      → (validate_encoding {E = E} lib ranges text fieldname ≡ none)
        ↔ (lib.valid_string text ≡ true)
  unfolding validate_encoding
  validate_encoding_iff text = elim (Bool-cases (lib.valid_string text)) [
    | inl valid ↦ ((λ e. valid), λ v. rw v refl)
    | inr invalid ↦ ((λ e. absurd (clash (rw invalid at e))), λ v. rw v refl)
  ]
    where
      clash : {s : Status E} → ¬ (some s ≡ none)
      clash p = cc

  validate_decoded_iff :
      (d : Decoded)
      → (validate_decoded {E = E} lib ranges d fieldname ≡ none) ↔ IsClean lib ranges d
  unfolding validate_decoded validate_codepoint_unsafe
  validate_decoded_iff d =
      let bad = d.rune == 0xfffd && leb d.width 1 in
      let on_bad =
        if_none bad (record { fieldname = fieldname; fault = bad_rune d.index })
          (validate_codepoint_unsafe lib ranges d.index d.rune fieldname) in
      let on_char =
        if_none (lib.is ranges.not_allowed d.rune)
          (record { fieldname = fieldname; fault = unsupported_char d.index d.rune }) none in
      (
        (λ e. let (a, b) = on_bad.0 e in (a, (on_char.0 b).0)),
        λ (a, b). on_bad.1 (a, on_char.1 (b, refl)),
      )

  validate_runes_iff :
      (ds : List Decoded)
      → (validate_runes {E = E} lib ranges ds fieldname ≡ none) ↔ All (IsClean lib ranges) ds
  unfolding validate_runes
  validate_runes_iff [] = ((λ e. tt), λ a. refl)
  validate_runes_iff (d ∷ ds) =
      let both =
        or_else-none (validate_decoded lib ranges d fieldname)
          (validate_runes lib ranges ds fieldname) in
      let head = validate_decoded_iff d in
      let tail = validate_runes_iff ds in
      ((λ e. let (a, b) = both.0 e in (head.0 a, tail.0 b)), λ (a, b). both.1 (head.1 a, tail.1 b))

  -- Every rune is well formed and allowed.
  pub validate_codepoints_iff :
      (text : Text)
      → (validate_codepoints {E = E} lib ranges text fieldname ≡ none)
        ↔ All (IsClean lib ranges) (lib.decode text)
  unfolding validate_codepoints
  validate_codepoints_iff text = validate_runes_iff (lib.decode text)

  validate_lines_iff :
      (ds : List Decoded)
      → (validate_lines {E = E} lib ranges ds fieldname ≡ none) ↔ All (IsInline lib ranges) ds
  unfolding validate_lines
  validate_lines_iff [] = ((λ e. tt), λ a. refl)
  validate_lines_iff (d ∷ ds) =
      let on_line =
        if_none (lib.is ranges.no_newline d.rune)
          (record { fieldname = fieldname; fault = unsupported_newline d.index d.rune })
          (validate_lines lib ranges ds fieldname) in
      let tail = validate_lines_iff ds in
      ((λ e. let (a, b) = on_line.0 e in (a, tail.0 b)), λ (a, b). on_line.1 (a, tail.1 b))

  pub validate_no_newlines_unsafe_iff :
      (text : Text)
      → (validate_no_newlines_unsafe {E = E} lib ranges text fieldname ≡ none)
        ↔ All (IsInline lib ranges) (lib.decode text)
  unfolding validate_no_newlines_unsafe
  validate_no_newlines_unsafe_iff text = validate_lines_iff (lib.decode text)
