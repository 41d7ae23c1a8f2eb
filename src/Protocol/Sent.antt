-- ===== src/Protocol/Sent.antt =====
-- What the wire can carry of a reply: the table of types at the head of
-- cache_cat/src/raft/types/core/response_value.rs, as a function, and the replies that fit in a
-- frame.
use cache_cat.Prelude.{
  ℕ, suc, ◌*◌, ◌^◌, ◌<◌, ◌≡◌, Bool, true, false, Option, none, some, List, [], ◌∷◌, Bytes, bit,
  if◌then◌else◌, length,
}
use cache_cat.Value.{Value, Values, ValuePairs}
use cache_cat.Value.Utf8.{as_bytes, from_utf8_lossy}
use cache_cat.Protocol.Encode.{fmt, format_double, count_of, count_pairs}
use cache_cat.Protocol.Parse.{double_of, is_big_number}
use cache_cat.Protocol.Lines.{IsLine}

module _ (display : ℕ → Bytes) where
  abbrev pub bulk : Bytes → Value
  bulk bytes = Value.bulk_string (some bytes)

  abbrev pub sent_scores : Bool → List (Bytes × ℕ) → Values
  sent_scores three [] = Values.nil
  sent_scores true ((member, score) ∷ pairs) =
      Values.more
        (Value.array (Values.more (bulk member) (Values.more (Value.double score) Values.nil)))
        (sent_scores true pairs)
  sent_scores false ((member, score) ∷ pairs) =
      Values.more (bulk member)
        (Values.more (bulk (format_double display score)) (sent_scores false pairs))

  -- In RESP3 where the test is true, in RESP2 where it is false.
  unfoldable mutual
    pub sent : Bool → Value → Value
    sent three (Value.simple_string s) = Value.simple_string s
    sent three (Value.error e) = Value.error e
    sent three (Value.integer i) = Value.integer i
    sent three Value.null = if three then Value.null else Value.bulk_string none
    sent three (Value.bulk_string none) = if three then Value.null else Value.bulk_string none
    sent three (Value.bulk_string (some bytes)) = bulk bytes
    sent three Value.null_array = if three then Value.null else Value.null_array
    sent three (Value.array items) = Value.array (sent_items three items)
    sent three (Value.map pairs) =
        if three then Value.map (sent_pairs three pairs) else Value.array (flat three pairs)
    sent three (Value.set items) =
        if three then Value.set (sent_items three items) else Value.array (sent_items three items)
    sent three (Value.push items) =
        if three then Value.push (sent_items three items) else Value.array (sent_items three items)
    sent three (Value.boolean val) = if three then Value.boolean val else Value.integer (bit val)
    sent three (Value.double d) = if three then Value.double d else bulk (format_double display d)
    sent three (Value.big_number n) = if three then Value.big_number n else bulk (as_bytes n)
    sent three (Value.verbatim_string format bytes) =
        if three
        then Value.verbatim_string (from_utf8_lossy (fmt (as_bytes format))) bytes
        else bulk bytes
    sent three (Value.bulk_error e) = if three then Value.bulk_error e else Value.error e
    sent three (Value.member_scores pairs) = Value.array (sent_scores three pairs)
    sent three (Value.batch frames) = Value.batch frames

    pub sent_items : Bool → Values → Values
    sent_items three Values.nil = Values.nil
    sent_items three (Values.more v items) = Values.more (sent three v) (sent_items three items)

    pub sent_pairs : Bool → ValuePairs → ValuePairs
    sent_pairs three ValuePairs.nil_pairs = ValuePairs.nil_pairs
    sent_pairs three (ValuePairs.more_pairs k v pairs) =
        ValuePairs.more_pairs (sent three k) (sent three v) (sent_pairs three pairs)

    pub flat : Bool → ValuePairs → Values
    flat three ValuePairs.nil_pairs = Values.nil
    flat three (ValuePairs.more_pairs k v pairs) =
        Values.more (sent three k) (Values.more (sent three v) (flat three pairs))

  module _ (parse_f64 : Bytes → Option ℕ) where
    -- A double whose printed form is a line that is read as the double.
    abbrev pub IsDouble : ℕ → Type 0
    IsDouble d =
        IsLine (format_double display d)
        × (double_of parse_f64 (format_double display d) ≡ some d)
        × (length (format_double display d) < 2 ^ 63)

    abbrev pub AreScores : List (Bytes × ℕ) → Type 0
    AreScores [] = Unit
    AreScores ((member, score) ∷ pairs) =
        (length member < 2 ^ 63) × IsDouble score × AreScores pairs

    -- A reply of one frame: what stands on a line has no carriage return, the sizes are those of
    -- an i64, an integer is one of 64 bits, a big number is one and doubles are read back.
    unfoldable mutual
      pub IsFrame : Value → Type 0
      IsFrame (Value.simple_string s) = IsLine (as_bytes s)
      IsFrame (Value.error e) = IsLine (as_bytes e)
      IsFrame (Value.integer i) = i < 2 ^ 64
      IsFrame Value.null = Unit
      IsFrame (Value.bulk_string none) = Unit
      IsFrame (Value.bulk_string (some bytes)) = length bytes < 2 ^ 63
      IsFrame Value.null_array = Unit
      IsFrame (Value.array items) = (count_of items < 2 ^ 63) × AreFrames items
      IsFrame (Value.map pairs) = (count_pairs pairs * 2 < 2 ^ 63) × ArePairs pairs
      IsFrame (Value.set items) = (count_of items < 2 ^ 63) × AreFrames items
      IsFrame (Value.push items) = (count_of items < 2 ^ 63) × AreFrames items
      IsFrame (Value.boolean val) = Unit
      IsFrame (Value.double d) = IsDouble d
      IsFrame (Value.big_number n) =
          IsLine (as_bytes n) × (is_big_number (as_bytes n) ≡ true) × (length (as_bytes n) < 2 ^ 63)
      IsFrame (Value.verbatim_string format bytes) = suc (suc (suc (suc (length bytes)))) < 2 ^ 63
      IsFrame (Value.bulk_error e) = IsLine (as_bytes e) × (length (as_bytes e) < 2 ^ 63)
      IsFrame (Value.member_scores pairs) = (length pairs * 2 < 2 ^ 63) × AreScores pairs
      IsFrame (Value.batch frames) = ⊥

      pub AreFrames : Values → Type 0
      AreFrames Values.nil = Unit
      AreFrames (Values.more v items) = IsFrame v × AreFrames items

      pub ArePairs : ValuePairs → Type 0
      ArePairs ValuePairs.nil_pairs = Unit
      ArePairs (ValuePairs.more_pairs k v pairs) = IsFrame k × IsFrame v × ArePairs pairs
