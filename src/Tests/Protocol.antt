-- ===== src/Tests/Protocol.antt =====
-- Replies on the wire, after the tests of response_value.rs and resp.rs.
use cache_cat.Prelude.{
  ℕ, ◌+◌, ◌*◌, ◌^◌, ◌≡◌, refl, arith, true, Option, none, some, [], ◌++◌, Bytes, ◌==◌, same,
  bytes_eq, if◌then◌else◌, length, ◌*◌,
}
use cache_cat.Value.{Value, Values, ValuePairs}
use cache_cat.Value.Print.{to_string, print_digits}
use cache_cat.Value.Number as Number
use cache_cat.Value.Number.{read_number, read_digits}
use cache_cat.Value.Utf8.{as_bytes, from_utf8_lossy, read_text}
use cache_cat.Protocol.Encode.{format_double, encode_to}
use cache_cat.Protocol.Parse.{
  len_of, parse_meta, parse_header, parse_aggregate, read_line, read_i64, read_blob,
}
use cache_cat.Protocol.Take.{take_from_bytes_stream, take_value}
use cache_cat.Protocol.Sent.{sent, IsFrame}
use cache_cat.Protocol.Extent.{Placed}
use cache_cat.Protocol.Fuel.{parse_meta-total}
use cache_cat.Protocol.RoundTrip.{take_from_bytes_stream-encode_to}

-- 2.5, and how the standard library prints and reads it; the tests need no other.
abbrev two_and_a_half : ℕ
two_and_a_half = 4612811918334230528

abbrev display : ℕ → Bytes
display d = as_bytes "2.5"

abbrev parse_f64 : Bytes → Option ℕ
parse_f64 text = if same text (as_bytes "2.5") then some two_and_a_half else none

abbrev decode : Bytes → Option (Value × Bytes)
decode buffer = take_from_bytes_stream parse_f64 buffer

printed :
    (format_double display two_and_a_half ≡ as_bytes "2.5")
    × (format_double display (1023 * 2 ^ 52) ≡ as_bytes "1")
    × (format_double display (2 ^ 63 + 1023 * 2 ^ 52) ≡ as_bytes "-1")
    × (format_double display 4658815484840378368 ≡ as_bytes "3000")
    × (format_double display (2 ^ 63) ≡ as_bytes "-0")
    × (format_double display (2 ^ 63 + 2047 * 2 ^ 52) ≡ as_bytes "-inf")
unfolding format_double to_string print_digits as_bytes
printed = (refl, refl, refl, refl, refl, refl)

encoded :
    (encode_to display 3 Value.null ≡ as_bytes "_\r\n")
    × (encode_to display 2 (Value.bulk_string none) ≡ as_bytes "$-1\r\n")
    × (encode_to display 2 (Value.boolean true) ≡ as_bytes ":1\r\n")
    × (encode_to display 3 (Value.verbatim_string "txt" (as_bytes "Some string"))
        ≡ as_bytes "=15\r\ntxt:Some string\r\n")
    × (encode_to display 3 (Value.bulk_error "SYNTAX invalid syntax")
        ≡ as_bytes "!21\r\nSYNTAX invalid syntax\r\n")
unfolding encode_to to_string print_digits as_bytes
encoded = (refl, refl, refl, refl, refl)

decoded :
    (decode (as_bytes "+OK\r\n") ≡ some (Value.simple_string "OK", []))
    × (decode (as_bytes "_x\r\n") ≡ none)
    × (decode (as_bytes "%2\r\n+first\r\n:1\r\n") ≡ none)
    × (decode (as_bytes "|1\r\n+key-popularity\r\n:90\r\n:42\r\n") ≡ some (Value.integer 42, []))
unfolding take_from_bytes_stream parse_meta take_value parse_header parse_aggregate read_line
    read_i64 read_blob Number.read_i64 read_number read_digits from_utf8_lossy read_text as_bytes
decoded = (refl, refl, refl, refl)

-- A map from a text to a set of a number and a boolean.
abbrev reply : Value
reply = Value.map (
    ValuePairs.more_pairs (Value.bulk_string (some (as_bytes "né")))
      (Value.set (
        Values.more (Value.double two_and_a_half)
          (Values.more (Value.boolean true) (Values.more Value.null Values.nil))))
      ValuePairs.nil_pairs)

reply-IsFrame : IsFrame display parse_f64 reply
unfolding IsFrame format_double as_bytes
reply-IsFrame = (
  omega arith,
  (
    omega arith,
    (omega arith, (((refl, (refl, (refl, tt))), refl, omega arith), (tt, (tt, tt)))),
    tt,
  ),
)

take_from_bytes_stream-encode_to_example :
    decode (encode_to display 2 reply ++ as_bytes ":1\r\n")
    ≡ some (sent display (2 == 3) reply, as_bytes ":1\r\n")
take_from_bytes_stream-encode_to_example =
    take_from_bytes_stream-encode_to display parse_f64 2 reply (as_bytes ":1\r\n") reply-IsFrame

-- An attribute, an array whose second element is not complete, and a blob that is cut off.
abbrev streamed : Bytes
streamed = as_bytes "|1\r\n+ttl\r\n:3600\r\n*2\r\n:1\r\n$5\r\nab"

parse_meta-total_example :
    (parse_meta parse_f64 100 streamed ≡ parse_meta parse_f64 (2 * length streamed + 1) streamed)
    × Placed (length streamed) len_of (parse_meta parse_f64 100 streamed)
unfolding as_bytes
parse_meta-total_example = parse_meta-total parse_f64 streamed 100 (omega arith)
