-- ===== src/Varint/RoundTrip.antt =====
-- be/schema/varint.go: `DecodeBytes` and `DecodeAll` read back what `Append` wrote.
use Prim.Native.Nat.{compare}
use mathlib.Core.List.{append-nil}
use pixur.Base.{
  ℕ, suc, ◌+◌, ◌-◌, ◌%◌, ◌^◌, ◌≤◌, ◌<◌, ◌≡◌, ◌≢◌, ◌⊎◌, refl, ◌∙◌, ap, sym, inl, inr, true, false,
  ◌&&◌, Bool, some, List, [], ◌∷◌, ◌++◌, arith, ltb, leb, ◌==◌, ==_refl, length, take, All, map,
  length-append,
}
use pixur.Base.Result.{ok, err}
use pixur.Varint.{
  overflow, length_table, encode_table, prefix_decode_table, encode, compare_bytes, is_gt,
  max_value, max_length, decode_loop, decode_bytes, decode_all,
}
use pixur.Varint.Tables.{
  base, last_base-le, word_fits, base_lem, width, lower_byte, symbol_facts, prefix_facts,
}
use pixur.Varint.Digits.{
  digits, length-digits, digits_ascii, map-digits, decode_loop-digits, then_by,
}
use pixur.Varint.Encode.{InRange, encoding, encode-encoding, encode_high, base28_big}
use pixur.Varint.Max.{
  max_word, LowersAscii, max_length_lem, All-append, map-append_bytes, take-length, encoding_max,
}

module _ (to_lower : List ℕ → List ℕ) where
  -- `DecodeBytes` where all its checks pass.
  pub decode_bytes_passes :
      (b w num : ℕ) (bs : List ℕ)
      → length_table b ≡ suc w
      → w ≤ length bs
      → (leb max_length (suc w) && is_gt (compare_bytes (to_lower (b ∷ bs)) max_value)) ≡ false
      → decode_loop (take w bs) 0 ≡ some num
      → decode_bytes to_lower (b ∷ bs) ≡ ok ((num + prefix_decode_table b) % 2 ^ 64, suc w)
  unfolding decode_bytes
  decode_bytes_passes b w num bs len room below loop =
      let fits : ltb (suc (length bs)) (suc w) ≡ false = ground arith in
      let k : suc w - 1 ≡ w = omega arith in
      let some_symbol : (suc w == 0) ≡ false = ground arith in
      rw (len, some_symbol, fits, below, k, loop, len)

  -- `DecodeBytes` where the comparison with the greatest encoding fails.
  pub decode_bytes_overflow :
      (b w : ℕ) (bs : List ℕ)
      → length_table b ≡ suc w
      → w ≤ length bs
      → max_length ≤ suc w
      → is_gt (compare_bytes (to_lower (b ∷ bs)) max_value) ≡ true
      → decode_bytes to_lower (b ∷ bs) ≡ err overflow
  unfolding decode_bytes
  decode_bytes_overflow b w bs len room long above =
      let fits : ltb (suc (length bs)) (suc w) ≡ false = ground arith in
      let test : leb max_length (suc w) ≡ true = ground arith in
      let some_symbol : (suc w == 0) ≡ false = ground arith in
      rw (len, some_symbol, fits, test, above)

module _ (to_lower : List ℕ → List ℕ) (lowers : LowersAscii to_lower) where
  -- The comparison that `DecodeBytes` makes, on an encoding with more text behind it.
  lowered_max :
      (i n : ℕ) (rest : List ℕ)
      → InRange i n
      → n < 2 ^ 64
      → All (λ b. b < 128) rest
      → compare_bytes (to_lower (encoding i n ++ rest)) max_value
        ≡ then_by (compare n max_word) (compare_bytes (map lower_byte rest) [])
  lowered_max i n rest range fits ascii =
      rw
        (
          lowers (encoding i n ++ rest) (All-append (encoding i n) rest encoding_ascii ascii),
          map-append_bytes (encoding i n) rest,
          (symbol_facts i (omega (arith, range.known))).2,
          map-digits (width i) (n - base i),
        )
        (encoding_max i n (map lower_byte rest) range fits)
    where
      encoding_ascii : All (λ b. b < 128) (encoding i n)
      encoding_ascii =
          ((symbol_facts i (omega (arith, range.known))).3, digits_ascii (width i) (n - base i))

  decode_bytes-encoding :
      (i n : ℕ) (rest : List ℕ)
      → InRange i n
      → n < 2 ^ 64
      → All (λ b. b < 128) rest
      → is_gt (then_by (compare n max_word) (compare_bytes (map lower_byte rest) [])) ≡ false
      → decode_bytes to_lower (encoding i n ++ rest) ≡ ok (n, suc (width i))
  decode_bytes-encoding i n rest range fits ascii below =
      let w = width i in
      let ds = digits w (n - base i) in
      let len = (prefix_facts i range.known).0 in
      let loop : decode_loop (take w (ds ++ rest)) 0 ≡ some (n - base i) =
        rw (take-length ds rest w (length-digits w (n - base i))) (
          ap (λ t. decode_loop t 0) (sym (append-nil ds))
          ∙ decode_loop-digits w (n - base i) [] (omega (arith, range.above, range.below))
              (omega arith)
          ∙ unfold decode_loop in refl) in
      decode_bytes_passes to_lower (encode_table i) w (n - base i) (ds ++ rest) (omega (arith, len))
        (omega (arith, length-append ds rest, length-digits w (n - base i)))
        (rw (lowered_max i n rest range fits ascii, below) (and_false (leb max_length (suc w))))
        loop
      ∙ rw (base_lem i) (ap (λ v. ok (v, suc w)) (whole n (base i) range.above fits))
    where
      and_false : (b : Bool) → (b && false) ≡ false
      and_false b = ground arith

      whole : (n k : ℕ) → k ≤ n → n < 2 ^ 64 → (n - k + k) % 2 ^ 64 ≡ n
      whole n k h fits = omega arith

  -- DecodeBytes reads back an encoding with ASCII text behind it and consumes just the encoding,
  -- unless it is the greatest number and text follows.
  pub decode_bytes-encode :
      (n : ℕ) (rest : List ℕ)
      → n < 2 ^ 64
      → All (λ b. b < 128) rest
      → (n ≢ max_word) ⊎ (rest ≡ [])
      → decode_bytes to_lower (encode n ++ rest) ≡ ok (n, length (encode n))
  decode_bytes-encode n rest fits ascii alone =
      let (i, range, e) = encode-encoding n fits in
      let len : length (encoding i n) ≡ suc (width i) =
        omega (arith, length-digits (width i) (n - base i)) in
      rw (e, len) (decode_bytes-encoding i n rest range fits ascii (not_above n rest fits alone))
    where
      not_above :
          (n : ℕ) (rest : List ℕ)
          → n < 2 ^ 64
          → (n ≢ max_word) ⊎ (rest ≡ [])
          → is_gt (then_by (compare n max_word) (compare_bytes (map lower_byte rest) [])) ≡ false
      not_above n rest fits (inl ne) = ground arith
      not_above n rest fits (inr e) = rw e (unfold compare_bytes in ground arith)

  -- DecodeBytes refuses the encoding of the greatest number as an overflow when any ASCII text
  -- follows it.
  pub decode_bytes-encode_max :
      (b : ℕ) (rest : List ℕ)
      → b < 128
      → All (λ b. b < 128) rest
      → decode_bytes to_lower (encode max_word ++ b ∷ rest) ≡ err overflow
  decode_bytes-encode_max b rest hb ascii =
      let range : InRange 28 max_word = record {
        known = omega arith;
        above = last_base-le;
        below = omega (arith, word_fits);
      } in
      let ds = digits (width 28) (max_word - base 28) in
      let long = prefix_facts 28 (omega arith) in
      rw (encode_high max_word (omega (arith, base28_big, last_base-le)) last_base-le) (
        decode_bytes_overflow to_lower (encode_table 28) (width 28) (ds ++ b ∷ rest)
          (omega (arith, long.0))
          (omega
            (arith, length-append ds (b ∷ rest), length-digits (width 28) (max_word - base 28)))
          (omega (arith, max_length_lem, (long.3 (omega arith)).1))
          (rw (lowered_max 28 max_word (b ∷ rest) range (omega arith) (hb, ascii))
            (unfold compare_bytes in refl)))

  -- DecodeAll of the encoding of a 64-bit number returns the number.
  pub decode_all-encode : (n : ℕ) → n < 2 ^ 64 → decode_all to_lower (encode n) ≡ ok n
  decode_all-encode n fits =
      unfold decode_all in
      rw (
        sym (append-nil (encode n)),
        decode_bytes-encode n [] fits tt (inr refl),
        append-nil (encode n),
        ==_refl (length (encode n)),
      )
