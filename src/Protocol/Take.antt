-- ===== src/Protocol/Take.antt =====
-- cache_cat/src/protocol/resp.rs: `take` cuts the values out of the buffer, after `parse_meta`.
use cache_cat.Prelude.{
  ℕ, ◌+◌, ◌-◌, ◌*◌, Option, none, some, [], ◌∷◌, Bytes, bytes_eq, ◌==◌, if◌then◌else◌, length, take,
  drop,
}
use cache_cat.Value.{Value, Values, ValuePairs}
use cache_cat.Value.Utf8.{from_utf8_lossy}
use cache_cat.Protocol.Parse.{AggregateKind, Parser, Parsers, len_of, parse_meta}

abbrev pub pairs_of : Values → ValuePairs
pairs_of Values.nil = ValuePairs.nil_pairs
pairs_of (Values.more k Values.nil) = ValuePairs.nil_pairs
pairs_of (Values.more k (Values.more v values)) = ValuePairs.more_pairs k v (pairs_of values)

abbrev last_value : Value → Values → Value
last_value v Values.nil = v
last_value v (Values.more w values) = last_value w values

abbrev pub collect : AggregateKind → Values → Value
collect AggregateKind.array values = Value.array values
collect AggregateKind.set values = Value.set values
collect AggregateKind.push values = Value.push values
collect AggregateKind.map values = Value.map (pairs_of values)
collect AggregateKind.attribute values = last_value Value.null values

abbrev pub verbatim_of : Bytes → Value
verbatim_of (a ∷ b ∷ c ∷ d ∷ payload) =
    if d == b':'
    then Value.verbatim_string (from_utf8_lossy (a ∷ b ∷ c ∷ [])) payload
    else Value.verbatim_string "" (a ∷ b ∷ c ∷ d ∷ payload)
verbatim_of payload = Value.verbatim_string "" payload

-- `buffer[1..len - 2]`
abbrev pub line_of : ℕ → Bytes → Bytes
line_of len buffer = drop 1 (take (len - 2) buffer)

abbrev pub blob_of : ℕ × ℕ → Bytes → Bytes
blob_of (pos, len) buffer = take len (drop pos buffer)

unfoldable mutual
  pub take_value : Parser → Bytes → Value
  take_value (Parser.string len) buffer = Value.simple_string (from_utf8_lossy (line_of len buffer))
  take_value (Parser.error len) buffer = Value.error (from_utf8_lossy (line_of len buffer))
  take_value (Parser.integer len value) buffer = Value.integer value
  take_value (Parser.bytes len none) buffer = Value.bulk_string none
  take_value (Parser.bytes len (some b)) buffer = Value.bulk_string (some (blob_of b buffer))
  take_value (Parser.bulk_error len b) buffer =
      Value.bulk_error (from_utf8_lossy (blob_of b buffer))
  take_value (Parser.verbatim len b) buffer = verbatim_of (blob_of b buffer)
  take_value (Parser.null len) buffer = Value.null
  take_value (Parser.boolean len value) buffer = Value.boolean value
  take_value (Parser.double len value) buffer = Value.double value
  take_value (Parser.big_number len) buffer =
      Value.big_number (from_utf8_lossy (line_of len buffer))
  take_value (Parser.null_array len) buffer = Value.null_array
  take_value (Parser.aggregate kind len pos elements) buffer =
      collect kind (take_values elements (drop pos buffer))

  pub take_values : Parsers → Bytes → Values
  take_values Parsers.last_element buffer = Values.nil
  take_values (Parsers.element meta elements) buffer =
      Values.more (take_value meta (take (len_of meta) buffer))
        (take_values elements (drop (len_of meta) buffer))

-- A value and the rest of the stream, or nothing: what is there is not complete, or not RESP.
unfoldable pub take_from_bytes_stream : (Bytes → Option ℕ) → Bytes → Option (Value × Bytes)
unfolding parse_meta take_value
take_from_bytes_stream parse_f64 buffer =
    elim (parse_meta parse_f64 (2 * length buffer + 1) buffer) [
      | none ↦ none
      | some meta ↦ some (take_value meta (take (len_of meta) buffer), drop (len_of meta) buffer)
    ]
