-- ===== src/Protocol/RoundTrip.antt =====
-- What is encoded is read back: a reply of one frame, in RESP2 and in RESP3.
use cache_cat.Prelude.{
  ℕ, ◌+◌, ◌*◌, ◌≡◌, refl, ◌∙◌, ap, subst, Bool, Option, none, some, ◌++◌, Bytes, ◌==◌,
  if◌then◌else◌, length, length-append, take, drop, arith,
}
use cache_cat.Value.{Value, Values, ValuePairs}
use cache_cat.Value.Print.{to_string}
use cache_cat.Value.Utf8.{as_bytes, from_utf8_lossy}
use cache_cat.Protocol.Encode.{
  put_line, count_of, count_pairs, fmt, format_double, encode_scores, encode_to, encode_items,
  encode_pairs,
}
use cache_cat.Protocol.Take.{take_value, take_from_bytes_stream}
use cache_cat.Protocol.Sent.{
  sent, sent_items, sent_pairs, flat, sent_scores, IsFrame, AreFrames, ArePairs,
}
use cache_cat.Protocol.Lines.{take-length, drop-length}
use cache_cat.Protocol.Scalars.{
  ReadsAs, string-ReadsAs, error-ReadsAs, integer-ReadsAs, bulk-ReadsAs, bulk_error-ReadsAs,
  verbatim-ReadsAs, verbatim_blob, null-ReadsAs, null_bulk-ReadsAs, null_array-ReadsAs,
  boolean-ReadsAs, double-ReadsAs, big_number-ReadsAs,
}
use cache_cat.Protocol.Aggregates.{ReadsAll, nil-ReadsAll, more-ReadsAll}
use cache_cat.Protocol.Kinds.{
  by_test, pairs_of-flat, boolean_integer-ReadsAs, array-ReadsAs, set-ReadsAs, push-ReadsAs,
  map-ReadsAs, two-ReadsAll, scores-ReadsAll, downgraded-ReadsAs, either-ReadsAs,
}

module _ (display : ℕ → Bytes) (parse_f64 : Bytes → Option ℕ) where
  module _ (proto : ℕ) (three : Bool) (e : (proto == 3) ≡ three) where
    abbrev Reads : Value → Type 0
    Reads v =
        IsFrame display parse_f64 v
        → ReadsAs parse_f64 (encode_to display proto v) (sent display three v)

    abbrev ReadsItems : Values → Type 0
    ReadsItems items =
        AreFrames display parse_f64 items
        → ReadsAll parse_f64 (count_of items) (encode_items display proto items)
            (sent_items display three items)

    abbrev ReadsPairs : ValuePairs → Type 0
    ReadsPairs pairs =
        ArePairs display parse_f64 pairs
        → ReadsAll parse_f64 (count_pairs pairs * 2) (encode_pairs display proto pairs)
            (flat display three pairs)

    encode_to-Reads : (v : Value) → Reads v
    unfolding encode_to sent IsFrame
    encode_to-Reads v = elim v as Reads ReadsItems ReadsPairs [
      | Value.simple_string s ↦ λ h. string-ReadsAs parse_f64 s h
      | Value.error s ↦ λ h. error-ReadsAs parse_f64 s h
      | Value.integer i ↦ λ h. integer-ReadsAs parse_f64 i h
      | Value.bulk_string o ↦ elim o as (λ k. Reads (Value.bulk_string k)) [
        | none ↦ λ h.
            either-ReadsAs display parse_f64 proto three e _ _ _ _ (null-ReadsAs parse_f64)
              (null_bulk-ReadsAs parse_f64)
        | some bytes ↦ λ h. bulk-ReadsAs parse_f64 bytes h
      ]
      | Value.array (items → ih) ↦
          λ h. array-ReadsAs display parse_f64 (count_of items) _ _ h.0 (ih h.1)
      | Value.null_array ↦ λ h.
          either-ReadsAs display parse_f64 proto three e _ _ _ _ (null-ReadsAs parse_f64)
            (null_array-ReadsAs parse_f64)
      | Value.null ↦ λ h.
          either-ReadsAs display parse_f64 proto three e _ _ _ _ (null-ReadsAs parse_f64)
            (null_bulk-ReadsAs parse_f64)
      | Value.map (pairs → ih) ↦ λ h.
          downgraded-ReadsAs display parse_f64 proto three e _ _ (encode_pairs display proto pairs)
            (Value.map (sent_pairs display three pairs)) (Value.array (flat display three pairs))
            (subst
              (λ p.
                ReadsAs parse_f64
                  (put_line b'%' (to_string (count_pairs pairs))
                    ++ encode_pairs display proto pairs)
                  (Value.map p))
              (pairs_of-flat display parse_f64 three pairs)
              (map-ReadsAs display parse_f64 (count_pairs pairs) _ _ h.0 (ih h.1)))
            (array-ReadsAs display parse_f64 (count_pairs pairs * 2) _ _ h.0 (ih h.1))
      | Value.set (items → ih) ↦ λ h.
          by_test
            (λ b c.
              ReadsAs parse_f64
                (put_line (if b then b'~' else b'*') (to_string (count_of items))
                  ++ encode_items display proto items)
                (if c
                  then Value.set (sent_items display three items)
                  else Value.array (sent_items display three items)))
            (set-ReadsAs display parse_f64 (count_of items) _ _ h.0 (ih h.1))
            (array-ReadsAs display parse_f64 (count_of items) _ _ h.0 (ih h.1)) (proto == 3) three e
      | Value.push (items → ih) ↦ λ h.
          by_test
            (λ b c.
              ReadsAs parse_f64
                (put_line (if b then b'>' else b'*') (to_string (count_of items))
                  ++ encode_items display proto items)
                (if c
                  then Value.push (sent_items display three items)
                  else Value.array (sent_items display three items)))
            (push-ReadsAs display parse_f64 (count_of items) _ _ h.0 (ih h.1))
            (array-ReadsAs display parse_f64 (count_of items) _ _ h.0 (ih h.1)) (proto == 3) three e
      | Value.boolean val ↦ λ h.
          either-ReadsAs display parse_f64 proto three e _ _ _ _ (boolean-ReadsAs parse_f64 val)
            (boolean_integer-ReadsAs display parse_f64 val)
      | Value.double d ↦ λ h.
          either-ReadsAs display parse_f64 proto three e _ _ _ _
            (double-ReadsAs parse_f64 d (format_double display d) h.0 h.1)
            (bulk-ReadsAs parse_f64 (format_double display d) h.2)
      | Value.big_number n ↦ λ h.
          either-ReadsAs display parse_f64 proto three e _ _ _ _
            (big_number-ReadsAs parse_f64 n h.0 h.1) (bulk-ReadsAs parse_f64 (as_bytes n) h.2)
      | Value.verbatim_string format bytes ↦ λ h.
          either-ReadsAs display parse_f64 proto three e _ _ _ _
            (subst
              (λ b.
                ReadsAs parse_f64 b
                  (Value.verbatim_string (from_utf8_lossy (fmt (as_bytes format))) bytes))
              (verbatim_blob parse_f64 (as_bytes format) bytes)
              (verbatim-ReadsAs parse_f64 (as_bytes format) bytes (omega (arith, h))))
            (bulk-ReadsAs parse_f64 bytes (omega (arith, h)))
      | Value.bulk_error s ↦ λ h.
          either-ReadsAs display parse_f64 proto three e _ _ _ _
            (bulk_error-ReadsAs parse_f64 s h.1) (error-ReadsAs parse_f64 s h.0)
      | Value.member_scores pairs ↦ λ h.
          by_test
            (λ b c.
              ReadsAs parse_f64
                (put_line b'*' (to_string (if b then length pairs else length pairs * 2))
                  ++ encode_scores display b pairs)
                (Value.array (sent_scores display c pairs)))
            (array-ReadsAs display parse_f64 (length pairs) _ _ (omega (arith, h.0))
              (scores-ReadsAll display parse_f64 pairs h.1).0)
            (array-ReadsAs display parse_f64 (length pairs * 2) _ _ h.0
              (scores-ReadsAll display parse_f64 pairs h.1).1)
            (proto == 3) three e
      | Value.batch (frames → ih) ↦ λ h. absurd h
      | Values.nil ↦ λ h. nil-ReadsAll parse_f64
      | Values.more (v → ih) (items → ihs) ↦
          λ h. more-ReadsAll parse_f64 (count_of items) _ _ _ _ (ih h.0) (ihs h.1)
      | ValuePairs.nil_pairs ↦ λ h. nil-ReadsAll parse_f64
      | ValuePairs.more_pairs (k → ih) (v → ih') (pairs → ihs) ↦ λ h.
          two-ReadsAll display parse_f64 (count_pairs pairs) _ _ _ _ _ _ (ih h.0) (ih' h.1)
            (ihs h.2)
    ]

  -- A reply of one frame that is encoded in RESP2 or RESP3, with whatever follows it in the stream,
  -- is read back as what the protocol has for it, and what follows is left: RESP3 has each type but
  -- the nulls, which become one, and RESP2 has an array of keys and values for a map, an array for
  -- a set and a push, an integer for a boolean, a bulk string for a double, a big number and a
  -- verbatim string, and an error for a bulk error.
  pub take_from_bytes_stream-encode_to :
      (proto : ℕ) (v : Value) (rest : Bytes)
      → IsFrame display parse_f64 v
      → take_from_bytes_stream parse_f64 (encode_to display proto v ++ rest)
        ≡ some (sent display (proto == 3) v, rest)
  unfolding take_from_bytes_stream
  take_from_bytes_stream-encode_to proto v rest h =
      let bytes = encode_to display proto v in
      let (meta, read, len, value) =
        (encode_to-Reads proto (proto == 3) refl v h).1 rest (2 * length (bytes ++ rest) + 1)
          (omega (arith, length-append bytes rest)) in
      rw (read, take_from_bytes_stream)
        (ap (λ n. some (take_value meta (take n (bytes ++ rest)), drop n (bytes ++ rest))) len
          ∙ ap (λ b. some (take_value meta b, drop (length bytes) (bytes ++ rest)))
              (take-length bytes rest)
          ∙ ap (λ b. some (take_value meta bytes, b)) (drop-length bytes rest)
          ∙ ap (λ w. some (w, rest)) value)
