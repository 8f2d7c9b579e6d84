-- ===== src/Varint/Canonical.antt =====
-- be/schema/varint.go: what `DecodeBytes` accepts is, but for the case of its letters, what `Append`
-- writes.
use Prim.Native.Nat.{compare, Ordering}
use native.Mathlib.Decide.{dec_lt}
use mathlib.Core.Path.{subst}
use pixur.Base.{
  ℕ, zero, suc, ◌+◌, ◌-◌, ◌^◌, ◌≤◌, ◌<◌, ◌≡◌, ◌⊎◌, refl, ◌∙◌, ap, sym, inl, inr, true, false, ◌&&◌,
  some, List, [], ◌∷◌, ◌++◌, arith, leb, length, take, drop, All, map,
}
use pixur.Base.Result.{ok}
use pixur.Varint.{
  length_table, value_table, encode_table, encode, compare_bytes, is_gt, max_value, max_length,
  decode_loop, decode_bytes,
}
use pixur.Varint.Tables.{
  base, base_lem, last_base-le, width, lower_byte, byte_prefix, prefix_facts, base_apart,
}
use pixur.Varint.Digits.{digits, digits-zero, compare_symbols, then_by}
use pixur.Varint.Encode.{InRange, encoding, encode-encoding}
use pixur.Varint.Reads.{plain, Reads, decode_loop-Reads, Accepts, decode_bytes-Accepts}
use pixur.Varint.Max.{
  max_word, LowersAscii, max_length_lem, map-append_bytes, last_prefix, max_value-encoding,
}

take-All : (k : ℕ) (xs : List ℕ) → All (λ x. x < 128) xs → All (λ x. x < 128) (take k xs)
take-All zero xs h = tt
take-All (suc k) [] h = tt
take-All (suc k) (x ∷ xs) (hx, h) = (hx, take-All k xs h)

length-take : (k : ℕ) (xs : List ℕ) → k ≤ length xs → length (take k xs) ≡ k
length-take zero xs h = refl
length-take (suc k) [] h = absurd (omega arith)
length-take (suc k) (x ∷ xs) h = ap suc (length-take k xs (omega arith))

take-append-drop : (k : ℕ) (xs : List ℕ) → take k xs ++ drop k xs ≡ xs
take-append-drop zero xs = refl
take-append-drop (suc k) [] = refl
take-append-drop (suc k) (x ∷ xs) = rw (take-append-drop k xs)

-- A number lies in the range of one prefix.
InRange-unique : (i j n : ℕ) → InRange i n → InRange j n → i ≡ j
InRange-unique i j n a b = elim (lt_cases i j) [
  | inl lt ↦ absurd (omega (arith, base_apart i j lt b.known, a.below, b.above))
  | inr (inl gt) ↦ absurd (omega (arith, base_apart j i gt a.known, b.below, a.above))
  | inr (inr e) ↦ e
]
  where
    lt_cases : (i j : ℕ) → (i < j) ⊎ ((j < i) ⊎ (i ≡ j))
    lt_cases i j = ground arith

module _ (to_lower : List ℕ → List ℕ) (lowers : LowersAscii to_lower) (b : ℕ) (bs : List ℕ)
    (v n : ℕ) (ascii : All (λ x. x < 128) (b ∷ bs)) (a : Accepts to_lower b bs v n) where
  -- The prefix is no letter above `w`: such an input is above the greatest encoding.
  prefix_known : value_table b < 29
  prefix_known = elim (byte_prefix b ascii.0 a.known).4 [
    | inl small ↦ small
    | inr long ↦ not_above (byte_prefix b ascii.0 a.known).0 long (dec_lt (value_table b) 29)
  ]
    where
      not_above :
          lower_byte b ≡ encode_table (value_table b)
          → 14 ≤ length_table b
          → Dec (value_table b < 29)
          → value_table b < 29
      not_above low long (yes h) = h
      not_above low long (no h) = absurd (false_true (sym a.not_above ∙ above))
        where
          i : ℕ
          i = value_table b

          symbols :
              compare_bytes (to_lower (b ∷ bs)) max_value
              ≡ then_by
                  (compare i 28)
                  (compare_bytes (map lower_byte bs) (digits (width 28) (max_word - base 28)))
          symbols =
              rw (lowers (b ∷ bs) ascii, max_value-encoding, low)
                (compare_symbols i 28 (map lower_byte bs) (digits (width 28) (max_word - base 28))
                  (byte_prefix b ascii.0 a.known).1 (omega arith))

          greater : compare i 28 ≡ Ordering.gt
          greater = ground arith

          long_enough : leb max_length (length_table b) ≡ true
          long_enough = ground (arith, max_length_lem)

          above :
              (leb max_length (length_table b)
                && is_gt (compare_bytes (to_lower (b ∷ bs)) max_value))
              ≡ true
          above = rw (long_enough, symbols, greater)

          false_true : ¬ (false ≡ true)
          false_true p = cc

  -- The prefix symbol, the symbols behind it and what they hold.
  abbrev index : ℕ
  index = value_table b

  abbrev behind : List ℕ
  behind = take (width index) bs

  abbrev held : ℕ
  held = plain behind 0

  len_width : length_table b ≡ width index + 1
  len_width = (byte_prefix b ascii.0 a.known).2 ∙ (prefix_facts index prefix_known).0

  reads : Reads behind 0 0 a.num
  reads =
      decode_loop-Reads behind 0 0 a.num (take-All (width index) bs ascii.1)
        (subst (λ k. decode_loop (take k bs) 0 ≡ some a.num) (omega (arith, len_width)) a.loop)

  length-behind : length behind ≡ width index
  length-behind = length-take (width index) bs (omega (arith, a.room, len_width))

  held-digits : digits (width index) held ≡ map lower_byte behind
  held-digits =
      subst (λ k. digits k held ≡ map lower_byte behind) (omega (arith, length-behind))
        (reads.symbols ∙ rw (digits-zero 0))

  held_range : InRange index (held + base index)
  held_range =
      let bound : held < 32 ^ width index =
        subst (λ k. held < 32 ^ k) (omega (arith, length-behind)) (reads.bound (omega arith)) in
      record { known = prefix_known; above = omega arith; below = omega (arith, bound) }

  symbols : lower_byte b ∷ map lower_byte behind ≡ encoding index (held + base index)
  symbols =
      let back : held + base index - base index ≡ held = omega arith in
      rw ((byte_prefix b ascii.0 a.known).0, back, held-digits)

  symbols_all :
      map lower_byte (b ∷ bs)
      ≡ encoding index (held + base index) ++ map lower_byte (drop (width index) bs)
  symbols_all =
      let more = drop (width index) bs in
      ap (λ xs. map lower_byte (b ∷ xs)) (sym (take-append-drop (width index) bs))
      ∙ map-append_bytes (b ∷ behind) more
      ∙ ap (λ xs. xs ++ map lower_byte more) symbols

  -- What it holds is below 2 ^ 64, so nothing has wrapped around.
  held_fits : held + base index < 2 ^ 64
  held_fits = elim (dec_lt index 28) [
    | yes small ↦
        omega (arith, held_range.below, base_apart index 28 small (omega arith), last_base-le)
    | no last ↦ last_fits (omega (arith, prefix_known))
  ]
    where
      last_fits : index ≡ 28 → held + base index < 2 ^ 64
      last_fits e = omega (arith, not_greater (held + base 28) (compare_bytes more []) below, e')
        where
          more : List ℕ
          more = map lower_byte (drop (width index) bs)

          e' : base index ≡ base 28
          e' = ap base e

          last_width : width 28 ≡ 13
          last_width = ((prefix_facts 28 (omega arith)).3 (omega arith)).1

          long_enough : leb max_length (length_table b) ≡ true
          long_enough = ground (arith, max_length_lem, len_width, ap width e, last_width)

          range : InRange 28 (held + base 28)
          range = subst (λ k. InRange k (held + base k)) e held_range

          shape : map lower_byte (b ∷ bs) ≡ encoding 28 (held + base 28) ++ more
          shape =
              subst (λ k. map lower_byte (b ∷ bs) ≡ encoding k (held + base k) ++ more) e
                symbols_all

          below :
              is_gt (then_by (compare (held + base 28) max_word) (compare_bytes more [])) ≡ false
          below =
              sym (
                ap is_gt
                  (rw (lowers (b ∷ bs) ascii, shape) (last_prefix (held + base 28) more range)))
              ∙ (rw long_enough at a.not_above)

          not_greater :
              (m : ℕ) (o : Ordering) → is_gt (then_by (compare m max_word) o) ≡ false → m ≤ max_word
          not_greater m o h = ground arith

  accepted_value : v ≡ held + base index
  accepted_value =
      let fits = held_fits in
      let pre = (byte_prefix b ascii.0 a.known).3 ∙ base_lem index in
      omega (arith, a.value, reads.wrapped, pre)

  accepted_symbols : map lower_byte (take n (b ∷ bs)) ≡ encode v
  accepted_symbols =
      let (i, range, e) = encode-encoding v (omega (arith, held_fits, accepted_value)) in
      let here : InRange index v = subst (InRange index) (sym accepted_value) held_range in
      let n_lem : n ≡ suc (width index) = omega (arith, a.consumed, len_width) in
      rw (n_lem, e, InRange-unique i index v range here, accepted_value) symbols

-- Whatever ASCII input DecodeBytes accepts, the consumed part is, up to letter case, the encoding
-- of the returned value, lies within the input, and no arithmetic has wrapped.
pub decode_bytes_canonical :
    (to_lower : List ℕ → List ℕ) (lowers : LowersAscii to_lower) (raw : List ℕ) (v n : ℕ)
    → All (λ x. x < 128) raw
    → decode_bytes to_lower raw ≡ ok (v, n)
    → (map lower_byte (take n raw) ≡ encode v) × (n ≤ length raw) × (v < 2 ^ 64)
decode_bytes_canonical to_lower lowers [] v n ascii e = absurd (refused e)
  where
    refused : ¬ (decode_bytes to_lower [] ≡ ok (v, n))
    refused p = unfold decode_bytes in cc
decode_bytes_canonical to_lower lowers (b ∷ bs) v n ascii e =
    let a = decode_bytes-Accepts to_lower b bs v n e in
    (
      accepted_symbols to_lower lowers b bs v n ascii a,
      omega (arith, a.consumed, a.room),
      omega (
        arith,
        held_fits to_lower lowers b bs v n ascii a,
        accepted_value to_lower lowers b bs v n ascii a,
      ),
    )
