-- ===== src/Text/Rules/Chain.antt =====
-- be/text/text.go: the chains of validators and normalizers, and the default ones.
use mathlib.Core.Path.{subst}
use pixur.Base.{
  arith, ◌≡◌, ◌↔◌, refl, sym, ap, ◌∙◌, true, Option, none, some, List, [], ◌∷◌, ◌++◌, All,
  Option-cases, inl, inr,
}
use pixur.Base.Int.{ℤ}
use pixur.Base.Result.{Result, ok, ◌>>◌}
use pixur.Text.{
  Text, Library, Ranges, Status, TextValidator, guard, validate, validate_max_bytes, normalize,
  validate_and_normalize,
}
use pixur.Text.Rules.{
  validate_encoding, validate_codepoints, validate_no_newlines_unsafe, to_nfc_unsafe, checked,
  to_caseless_nfkc, to_caseless_nfkc_unsafe, trim_space, trim_space_unsafe,
  exported_trim_space_unsafe, default_validators, default_validate_and_normalize,
  default_validate_no_newline_and_normalize,
}
use pixur.Text.Rules.Runes.{
  IsClean, IsInline, IsBounded, or_else-none, validate_max_bytes_iff, validate_encoding_iff,
  validate_codepoints_iff, validate_no_newlines_unsafe_iff,
}

-- All validators take the text.
abbrev pub Passes : {E : Type 0} → List (TextValidator E) → Text → Text → Type 0
Passes vs text fieldname = All (λ v. v text fieldname ≡ none) vs

module _ {E : Type 0} (text fieldname : Text) where
  pub validate_iff :
      (vs : List (TextValidator E)) → (validate vs text fieldname ≡ none) ↔ Passes vs text fieldname
  unfolding validate
  validate_iff [] = ((λ e. tt), λ a. refl)
  validate_iff (v ∷ vs) =
      let both = or_else-none (v text fieldname) (validate vs text fieldname) in
      let tail = validate_iff vs in
      ((λ e. let (a, b) = both.0 e in (a, tail.0 b)), λ (a, b). both.1 (a, tail.1 b))

  -- The validators that stand before the one that refused.
  pub record Refused (vs : List (TextValidator E)) (s : Status E) : Type 0 where
    pub before : List (TextValidator E)
    pub first : TextValidator E
    pub after : List (TextValidator E)
    pub order : vs ≡ before ++ (first ∷ after)
    pub passed : Passes before text fieldname
    pub refused : first text fieldname ≡ some s

  -- When a chain of validators refuses a text, the error is that of a validator in the chain, and
  -- all before it pass.
  pub validate-Refused :
      (vs : List (TextValidator E)) (s : Status E)
      → validate vs text fieldname ≡ some s
      → Refused vs s
  unfolding validate
  validate-Refused [] s e = cc
  validate-Refused (v ∷ vs) s e = elim (Option-cases (v text fieldname)) [
    | inl fine ↦
        let r = validate-Refused vs s (rw fine at e) in
        record {
          before = v ∷ r.before;
          first = r.first;
          after = r.after;
          order = ap (λ ws. v ∷ ws) r.order;
          passed = (fine, r.passed);
          refused = r.refused;
        }
    | inr (t, fault) ↦ record {
      before = [];
      first = v;
      after = vs;
      order = refl;
      passed = tt;
      refused = fault ∙ (rw fault at e);
    }
  ]

  Passes-append :
      (vs ws : List (TextValidator E))
      → Passes (vs ++ ws) text fieldname ↔ (Passes vs text fieldname × Passes ws text fieldname)
  Passes-append [] ws = ((λ p. (tt, p)), λ (p, q). q)
  Passes-append (v ∷ vs) ws =
      let tail = Passes-append vs ws in
      ((λ (p, ps). let (a, b) = tail.0 ps in ((p, a), b)), λ ((p, a), b). (p, tail.1 (a, b)))

-- A chain succeeds where both validations pass.
guarded :
    {E : Type 0} (pre post : Option (Status E)) (new out : Text)
    → ((do guard pre; guard post; ok new) ≡ ok out) ↔ ((pre ≡ none) × (post ≡ none) × (new ≡ out))
guarded {E} none none new out = ((λ e. (refl, refl, ok_injective e)), λ (p, q, e). ap ok e)
  where
    ok_injective : {a b : Text} → (let x : Result (Status E) Text = ok a in x) ≡ ok b → a ≡ b
    ok_injective p = ground (arith, p)
guarded none (some s) new out = ((λ e. cc), λ (p, q, e). cc)
guarded (some s) post new out = ((λ e. cc), λ (p, q, e). cc)

-- What the default rules ask of a text and of its normal form.
pub record Accepts {E : Type 0} (lib : Library) (ranges : Ranges) (min max : ℤ)
    (unsafe_pre extra : List (TextValidator E)) (text fieldname out : Text) : Type 0 where
  pub normal : lib.nfc text ≡ out
  pub bounded : IsBounded min max text
  pub encoded : lib.valid_string text ≡ true
  pub clean : All (IsClean lib ranges) (lib.decode text)
  pub unsafe_passed : Passes unsafe_pre text fieldname
  pub extra_passed : Passes extra text fieldname
  pub out_bounded : IsBounded min max out
  pub out_passed : Passes extra out fieldname

module _ {E : Type 0} (lib : Library) (ranges : Ranges) (min max : ℤ)
    (unsafe_pre extra : List (TextValidator E)) (text fieldname out : Text) where
  abbrev pre_rules : List (TextValidator E)
  pre_rules =
      validate_max_bytes min max
      ∷ validate_encoding lib ranges
      ∷ validate_codepoints lib ranges
      ∷ (unsafe_pre ++ extra)

  chain-Accepts :
      Passes pre_rules text fieldname
      → Passes (validate_max_bytes min max ∷ extra) (lib.nfc text) fieldname
      → lib.nfc text ≡ out
      → Accepts lib ranges min max unsafe_pre extra text fieldname out
  chain-Accepts (bounded, (encoded, (clean, others))) (out_bounded, out_passed) normal =
      let (unsafe_passed, extra_passed) =
        (Passes-append text fieldname unsafe_pre extra).0 others in
      record {
        normal = normal;
        bounded = (validate_max_bytes_iff {E = E} min max text fieldname).0 bounded;
        encoded = (validate_encoding_iff {E = E} lib ranges fieldname text).0 encoded;
        clean = (validate_codepoints_iff {E = E} lib ranges fieldname text).0 clean;
        unsafe_passed = unsafe_passed;
        extra_passed = extra_passed;
        out_bounded =
            subst (IsBounded min max) normal
              ((validate_max_bytes_iff {E = E} min max (lib.nfc text) fieldname).0 out_bounded);
        out_passed = subst (λ t. Passes extra t fieldname) normal out_passed;
      }

  Accepts-pre :
      Accepts lib ranges min max unsafe_pre extra text fieldname out
      → Passes pre_rules text fieldname
  Accepts-pre a = (
    (validate_max_bytes_iff {E = E} min max text fieldname).1 a.bounded,
    (
      (validate_encoding_iff {E = E} lib ranges fieldname text).1 a.encoded,
      (
        (validate_codepoints_iff {E = E} lib ranges fieldname text).1 a.clean,
        (Passes-append text fieldname unsafe_pre extra).1 (a.unsafe_passed, a.extra_passed),
      ),
    ),
  )

  Accepts-post :
      Accepts lib ranges min max unsafe_pre extra text fieldname out
      → Passes (validate_max_bytes min max ∷ extra) (lib.nfc text) fieldname
  Accepts-post a =
      subst (λ t. Passes (validate_max_bytes min max ∷ extra) t fieldname) (sym a.normal)
        ((validate_max_bytes_iff {E = E} min max out fieldname).1 a.out_bounded, a.out_passed)

  -- The default rules return a text exactly when it is the NFC form of the input, both lengths are
  -- within the bounds, the input is valid UTF-8 with well formed and allowed runes only, the
  -- additional rules pass on the input, and the extra ones on the result too.
  pub default_validate_and_normalize_iff :
      (default_validate_and_normalize lib ranges min max unsafe_pre extra text fieldname ≡ ok out)
      ↔ Accepts lib ranges min max unsafe_pre extra text fieldname out
  unfolding default_validate_and_normalize default_validators validate_and_normalize normalize
      to_nfc_unsafe
  default_validate_and_normalize_iff =
      let pre = validate_iff text fieldname pre_rules in
      let post = validate_iff (lib.nfc text) fieldname (validate_max_bytes min max ∷ extra) in
      let both =
        guarded (validate pre_rules text fieldname)
          (validate (validate_max_bytes min max ∷ extra) (lib.nfc text) fieldname) (lib.nfc text)
          out in
      (
        (λ e. let (p, q, n) = both.0 e in chain-Accepts (pre.0 p) (post.0 q) n),
        λ a. both.1 (pre.1 (Accepts-pre a), post.1 (Accepts-post a), a.normal),
      )

-- When the default rules for a single line return a text, the input has no newline character and
-- the result is within the bounds.
pub default_validate_no_newline_and_normalize-IsInline :
    {E : Type 0} (lib : Library) (ranges : Ranges) (min max : ℤ) (extra : List (TextValidator E))
    (text fieldname out : Text)
    → default_validate_no_newline_and_normalize lib ranges min max extra text fieldname ≡ ok out
    → All (IsInline lib ranges) (lib.decode text) × IsBounded min max out
unfolding default_validate_no_newline_and_normalize
default_validate_no_newline_and_normalize-IsInline {E = E} lib ranges min max extra text fieldname
      out e =
    let a =
      (default_validate_and_normalize_iff lib ranges min max
          (validate_no_newlines_unsafe lib ranges ∷ []) extra text fieldname out).0
        e in
    let (inline, rest) = a.unsafe_passed in
    ((validate_no_newlines_unsafe_iff {E = E} lib ranges fieldname text).0 inline, a.out_bounded)

module _ {E : Type 0} (lib : Library) (ranges : Ranges) (text fieldname out : Text) where
  -- A conversion that validates first.
  checked_iff :
      (convert : Text → Text)
      → (checked {E = E} lib ranges convert text fieldname ≡ ok out) ↔ (
          (lib.valid_string text ≡ true)
          × All (IsClean lib ranges) (lib.decode text)
          × (convert text ≡ out))
  unfolding checked
  checked_iff convert =
      let encoded = validate_encoding_iff {E = E} lib ranges fieldname text in
      let clean = validate_codepoints_iff {E = E} lib ranges fieldname text in
      let both =
        guarded (validate_encoding {E = E} lib ranges text fieldname)
          (validate_codepoints {E = E} lib ranges text fieldname) (convert text) out in
      (
        (λ e. let (p, q, n) = both.0 e in (encoded.0 p, clean.0 q, n)),
        λ (p, q, n). both.1 (encoded.1 p, clean.1 q, n),
      )

  -- TrimSpaceUnsafe returns a text exactly when the input is valid UTF-8 with well formed and
  -- allowed runes only, and the text is the trimmed input.
  pub exported_trim_space_unsafe_iff :
      (exported_trim_space_unsafe {E = E} lib ranges text fieldname ≡ ok out) ↔ (
        (lib.valid_string text ≡ true)
        × All (IsClean lib ranges) (lib.decode text)
        × (lib.trim_space text ≡ out))
  unfolding exported_trim_space_unsafe trim_space trim_space_unsafe
  exported_trim_space_unsafe_iff = checked_iff lib.trim_space

  pub to_caseless_nfkc_lem :
      to_caseless_nfkc {E = E} lib ranges text fieldname ≡ ok out
      → out ≡ to_caseless_nfkc_unsafe lib text
  unfolding to_caseless_nfkc
  to_caseless_nfkc_lem e =
      let (_, _, same) = (checked_iff (to_caseless_nfkc_unsafe lib)).0 e in sym same
