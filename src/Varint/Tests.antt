-- ===== src/Varint/Tests.antt =====
-- be/schema/varint.go: runs of the codec, with `bytes.ToLower` as the map over ASCII text, and the
-- theorems about it at concrete inputs.
use Prim.Native.Nat.{compare}
use pixur.Base.{ℕ, ◌≤◌, ◌<◌, ◌^◌, ◌≡◌, inl, refl, List, [], ◌∷◌, ◌++◌, arith, length, take, map}
use pixur.Base.Result.{ok, err}
use pixur.Varint.{
  overflow, eof, append, encode, find_prefix, suffix_of, fill, decode_bytes, decode_all,
  decode_loop, compare_bytes, max_length, length_table, encode_table, prefix_encode_table,
  prefix_decode_table, value_table,
}
use pixur.Varint.Tables.{lower_byte}
use pixur.Varint.Encode.{InRange, encoding, append-encoding}
use pixur.Varint.Order.{compare_bytes-encode}
use pixur.Varint.Max.{max_word, LowersAscii}
use pixur.Varint.RoundTrip.{decode_bytes-encode, decode_bytes-encode_max, decode_all-encode}
use pixur.Varint.Canonical.{decode_bytes_canonical}

abbrev lower_ascii : List ℕ → List ℕ
lower_ascii raw = map lower_byte raw

lower_ascii-LowersAscii : LowersAscii lower_ascii
lower_ascii-LowersAscii raw h = refl

encode_1000 : encode 1000 ≡ b'h' ∷ b'x' ∷ b'r' ∷ []
unfolding encode find_prefix fill suffix_of encode_table prefix_encode_table length_table
encode_1000 = refl

upper_case : decode_bytes lower_ascii (b'H' ∷ b'X' ∷ b'R' ∷ b'/' ∷ []) ≡ ok (1000, 3)
unfolding decode_bytes decode_loop compare_bytes max_length length_table prefix_decode_table
    value_table find_prefix fill suffix_of encode_table prefix_encode_table
upper_case = refl

abbrev letter_z : List ℕ
letter_z = b'z' ∷ []

cut_letter_z : decode_bytes lower_ascii letter_z ≡ err eof
unfolding decode_bytes length_table
cut_letter_z = refl

abbrev upper_1000 : List ℕ
upper_1000 = b'H' ∷ b'X' ∷ b'R' ∷ b'/' ∷ []

append-encoding_example :
    (i : ℕ) × InRange i 1000 × (append (b'/' ∷ []) 1000 ≡ (b'/' ∷ []) ++ encoding i 1000)
append-encoding_example = append-encoding (b'/' ∷ []) 1000 (omega arith)

compare_bytes-encode_example : compare_bytes (encode 1000) (encode max_word) ≡ compare 1000 max_word
compare_bytes-encode_example = compare_bytes-encode 1000 max_word (omega arith) (omega arith)

decode_bytes-encode_example :
    decode_bytes lower_ascii (encode 1000 ++ b'/' ∷ []) ≡ ok (1000, length (encode 1000))
decode_bytes-encode_example =
    decode_bytes-encode lower_ascii lower_ascii-LowersAscii 1000 (b'/' ∷ []) (omega arith)
      (omega arith) (inl (omega arith))

decode_bytes-encode_max_example :
    decode_bytes lower_ascii (encode max_word ++ b'/' ∷ []) ≡ err overflow
decode_bytes-encode_max_example =
    decode_bytes-encode_max lower_ascii lower_ascii-LowersAscii b'/' [] (omega arith) tt

decode_all-encode_example : decode_all lower_ascii (encode max_word) ≡ ok max_word
decode_all-encode_example =
    decode_all-encode lower_ascii lower_ascii-LowersAscii max_word (omega arith)

decode_bytes_canonical_example :
    (map lower_byte (take 3 upper_1000) ≡ encode 1000) × (3 ≤ length upper_1000) × (1000 < 2 ^ 64)
decode_bytes_canonical_example =
    decode_bytes_canonical lower_ascii lower_ascii-LowersAscii upper_1000 1000 3 (omega arith)
      upper_case
