-- ===== src/Varint/Reads.antt =====
-- be/schema/varint.go: what it says of an input that `DecodeBytes` accepts it: the checks that it
-- passed, and what the loop made of it.
use mathlib.Core.List.{append-nil, append_assoc}
use native.Mathlib.Nat.{pow-suc}
use pixur.Base.{
  ℕ, suc, ◌+◌, ◌-◌, ◌*◌, ◌%◌, ◌^◌, ◌≤◌, ◌<◌, ◌≡◌, ◌≢◌, refl, ◌∙◌, inl, inr, false, ◌&&◌, Bool,
  Option, none, some, List, [], ◌∷◌, ◌++◌, arith, ltb, leb, ◌==◌, length, take, All, if◌then◌else◌,
  map, Bool-cases,
}
use pixur.Base.Result.{Result, ok, err}
use pixur.Varint.{
  Error, overflow, invalid_length, invalid_symbol, eof, length_table, value_table,
  prefix_decode_table, compare_bytes, is_gt, max_value, max_length, decode_loop, decode_bytes,
}
use pixur.Varint.Tables.{is_bad, lower_byte, byte_symbol}
use pixur.Varint.Digits.{digits, digits_push}

-- What the loop reads, with no wrap-around.
pub plain : List ℕ → ℕ → ℕ
plain [] a = a
plain (b ∷ bs) a = plain bs (a * 32 + value_table b)

-- What a run of the loop over `bs` that returned `num` says, from `j` digits that hold `a`.
pub record Reads (bs : List ℕ) (j a num : ℕ) : Type 0 where
  pub wrapped : num ≡ plain bs a % 2 ^ 64
  pub symbols : digits (j + length bs) (plain bs a) ≡ digits j a ++ map lower_byte bs
  pub bound : a < 32 ^ j → plain bs a < 32 ^ (j + length bs)

Reads-cons :
    (b : ℕ) (bs : List ℕ) (j a num : ℕ)
    → b < 128
    → is_bad b ≡ false
    → Reads bs (suc j) (a * 32 + value_table b) num
    → Reads (b ∷ bs) j a num
unfolding plain
Reads-cons b bs j a num hb good r =
    let (low, small) = byte_symbol b hb good in
    let len : j + suc (length bs) ≡ suc j + length bs = omega arith in
    record {
      wrapped = r.wrapped;
      symbols = rw len (
          r.symbols
          ∙ rw (
            digits_push j a (value_table b) small,
            ← low,
            append_assoc (digits j a) (lower_byte b ∷ []) (map lower_byte bs),
          ));
      bound = λ lt. rw len (r.bound (omega (arith, pow-suc 32 j)));
    }

-- A run that accepts every byte computes the plain value modulo 2 ^ 64, and the bytes are its digits.
pub decode_loop-Reads :
    (bs : List ℕ) (j a num : ℕ)
    → All (λ b. b < 128) bs
    → decode_loop bs (a % 2 ^ 64) ≡ some num
    → Reads bs j a num
unfolding decode_loop
decode_loop-Reads [] j a num h e =
    let len : j + 0 ≡ j = omega arith in
    record {
      wrapped = unfold plain in ground arith;
      symbols = unfold plain in rw (len, append-nil (digits j a));
      bound = λ lt. unfold plain in rw len lt;
    }
decode_loop-Reads (b ∷ bs) j a num (hb, h) e = elim (Bool-cases (is_bad b)) [
  | inl bad ↦ absurd (none_some num (rw bad at e))
  | inr good ↦
      let step : (a % 2 ^ 64 * 32 % 2 ^ 64 + value_table b) % 2 ^ 64
          ≡ (a * 32 + value_table b) % 2 ^ 64 =
        omega arith in
      Reads-cons b bs j a num hb good
        (decode_loop-Reads bs (suc j) (a * 32 + value_table b) num h (rw (good, step) at e))
]
  where
    none_some : (n : ℕ) → ¬ (none ≡ some n)
    none_some n p = cc

-- The end of `DecodeBytes`, and the three checks in front of it.
abbrev finish : Option ℕ → ℕ → ℕ → Result Error (ℕ × ℕ)
finish o p len = elim o [ none ↦ err invalid_symbol | some num ↦ ok ((num + p) % 2 ^ 64, len) ]

finish_ok :
    (o : Option ℕ) (p len v n : ℕ)
    → finish o p len ≡ ok (v, n)
    → (num : ℕ) × (o ≡ some num) × (v ≡ (num + p) % 2 ^ 64) × (n ≡ len)
finish_ok none p len v n e = cc
finish_ok (some num) p len v n e = (num, refl, ground arith, ground arith)

guarded_ok :
    (len room : ℕ) (above : Bool) (r : Result Error (ℕ × ℕ)) (v n : ℕ)
    → (if len == 0
        then err invalid_length
        else if ltb room len
        then err eof
        else if above
        then err overflow
        else r)
      ≡ ok (v, n)
    → (len ≢ 0) × (len ≤ room) × (above ≡ false) × (r ≡ ok (v, n))
guarded_ok len room above r v n e = ground arith

module _ (to_lower : List ℕ → List ℕ) where
  -- The checks that an accepted input has passed.
  pub record Accepts (b : ℕ) (bs : List ℕ) (v n : ℕ) : Type 0 where
    pub num : ℕ
    pub loop : decode_loop (take (length_table b - 1) bs) 0 ≡ some num
    pub value : v ≡ (num + prefix_decode_table b) % 2 ^ 64
    pub consumed : n ≡ length_table b
    pub known : length_table b ≢ 0
    pub room : length_table b ≤ suc (length bs)
    pub not_above :
        (leb max_length (length_table b) && is_gt (compare_bytes (to_lower (b ∷ bs)) max_value))
        ≡ false

  pub decode_bytes-Accepts :
      (b : ℕ) (bs : List ℕ) (v n : ℕ)
      → decode_bytes to_lower (b ∷ bs) ≡ ok (v, n)
      → Accepts b bs v n
  unfolding decode_bytes
  decode_bytes-Accepts b bs v n e =
      let len = length_table b in
      let above = leb max_length len && is_gt (compare_bytes (to_lower (b ∷ bs)) max_value) in
      let o = decode_loop (take (len - 1) bs) 0 in
      let (known, room, not_above, read) =
        guarded_ok len (suc (length bs)) above (finish o (prefix_decode_table b) len) v n e in
      let (num, loop, value, consumed) = finish_ok o (prefix_decode_table b) len v n read in
      record {
        num = num;
        loop = loop;
        value = value;
        consumed = consumed;
        known = known;
        room = room;
        not_above = not_above;
      }
