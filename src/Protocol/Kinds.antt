-- ===== src/Protocol/Kinds.antt =====
-- What is encoded is read back, for each kind of collection, and for what RESP2 and RESP3 encode in
-- two ways.
use mathlib.Core.List.{append-nil, append_assoc}
use cache_cat.Prelude.{
  ℕ, suc, ◌*◌, ◌^◌, ◌<◌, ◌≡◌, refl, ap, sym, subst, Bool, true, false, Option, some, List, [], ◌∷◌,
  ◌++◌, Bytes, bit, ◌==◌, if◌then◌else◌, length, arith,
}
use cache_cat.Value.{Value, Values, ValuePairs}
use cache_cat.Value.Print.{to_string, print_digits}
use cache_cat.Protocol.Encode.{put_line, put_bulk, format_double, encode_scores}
use cache_cat.Protocol.Parse.{AggregateKind, parse_header}
use cache_cat.Protocol.Take.{pairs_of}
use cache_cat.Protocol.Sent.{sent, sent_pairs, flat, sent_scores, AreScores, IsDouble}
use cache_cat.Protocol.Scalars.{ReadsAs, integer-ReadsAs, bulk-ReadsAs, double-ReadsAs}
use cache_cat.Protocol.Aggregates.{ReadsAll, nil-ReadsAll, more-ReadsAll, aggregate-ReadsAs}

-- In two tests that agree.
pub by_test :
    (P : Bool → Bool → Type 0) → P true true → P false false → (b c : Bool) → b ≡ c → P b c
by_test P p q true true e = p
by_test P p q true false e = absurd (ground (arith, e))
by_test P p q false true e = absurd (ground (arith, e))
by_test P p q false false e = q

module _ (display : ℕ → Bytes) (parse_f64 : Bytes → Option ℕ) where
  pub pairs_of-flat :
      (three : Bool) (pairs : ValuePairs)
      → pairs_of (flat display three pairs) ≡ sent_pairs display three pairs
  unfolding flat sent_pairs
  pairs_of-flat three ValuePairs.nil_pairs = refl
  pairs_of-flat three (ValuePairs.more_pairs k v pairs) =
      ap (ValuePairs.more_pairs (sent display three k) (sent display three v))
        (pairs_of-flat three pairs)

  pub boolean_integer-ReadsAs :
      (val : Bool)
      → ReadsAs parse_f64
          (put_line b':' (if val then b'1' ∷ [] else b'0' ∷ []))
          (Value.integer (bit val))
  unfolding to_string print_digits
  boolean_integer-ReadsAs true = integer-ReadsAs parse_f64 1 (omega arith)
  boolean_integer-ReadsAs false = integer-ReadsAs parse_f64 0 (omega arith)

  pub array-ReadsAs :
      (n : ℕ) (bytes : Bytes) (values : Values)
      → n < 2 ^ 63
      → ReadsAll parse_f64 n bytes values
      → ReadsAs parse_f64 (put_line b'*' (to_string n) ++ bytes) (Value.array values)
  unfolding parse_header
  array-ReadsAs n bytes values h all =
      aggregate-ReadsAs parse_f64 b'*' n n bytes AggregateKind.array values h refl refl (λ b. refl)
        all

  pub set-ReadsAs :
      (n : ℕ) (bytes : Bytes) (values : Values)
      → n < 2 ^ 63
      → ReadsAll parse_f64 n bytes values
      → ReadsAs parse_f64 (put_line b'~' (to_string n) ++ bytes) (Value.set values)
  unfolding parse_header
  set-ReadsAs n bytes values h all =
      aggregate-ReadsAs parse_f64 b'~' n n bytes AggregateKind.set values h refl refl (λ b. refl)
        all

  pub push-ReadsAs :
      (n : ℕ) (bytes : Bytes) (values : Values)
      → n < 2 ^ 63
      → ReadsAll parse_f64 n bytes values
      → ReadsAs parse_f64 (put_line b'>' (to_string n) ++ bytes) (Value.push values)
  unfolding parse_header
  push-ReadsAs n bytes values h all =
      aggregate-ReadsAs parse_f64 b'>' n n bytes AggregateKind.push values h refl refl (λ b. refl)
        all

  pub map-ReadsAs :
      (n : ℕ) (bytes : Bytes) (values : Values)
      → n * 2 < 2 ^ 63
      → ReadsAll parse_f64 (n * 2) bytes values
      → ReadsAs parse_f64 (put_line b'%' (to_string n) ++ bytes) (Value.map (pairs_of values))
  unfolding parse_header
  map-ReadsAs n bytes values h all =
      aggregate-ReadsAs parse_f64 b'%' n (n * 2) bytes AggregateKind.map values (omega (arith, h))
        (ground (arith, h)) refl (λ b. refl) all

  pub one-ReadsAll :
      (bytes : Bytes) (v : Value)
      → ReadsAs parse_f64 bytes v
      → ReadsAll parse_f64 1 bytes (Values.more v Values.nil)
  one-ReadsAll bytes v h =
      subst (λ b. ReadsAll parse_f64 1 b (Values.more v Values.nil)) (append-nil bytes)
        (more-ReadsAll parse_f64 0 bytes [] v Values.nil h (nil-ReadsAll parse_f64))

  pub two-ReadsAll :
      (n : ℕ) (a b bytes : Bytes) (v w : Value) (values : Values)
      → ReadsAs parse_f64 a v
      → ReadsAs parse_f64 b w
      → ReadsAll parse_f64 (n * 2) bytes values
      → ReadsAll parse_f64 (suc n * 2) (a ++ (b ++ bytes)) (Values.more v (Values.more w values))
  two-ReadsAll n a b bytes v w values p q all =
      let twice : suc (suc (n * 2)) ≡ suc n * 2 = omega arith in
      subst (λ k. ReadsAll parse_f64 k (a ++ (b ++ bytes)) (Values.more v (Values.more w values)))
        twice
        (more-ReadsAll parse_f64 (suc (n * 2)) a (b ++ bytes) v (Values.more w values) p
          (more-ReadsAll parse_f64 (n * 2) b bytes w values q all))

  -- A member with its score, as an array of the two.
  pub pair-ReadsAs :
      (member : Bytes) (score : ℕ)
      → length member < 2 ^ 63
      → IsDouble display parse_f64 score
      → ReadsAs parse_f64
          (put_line b'*' (b'2' ∷ [])
            ++ (put_bulk member ++ put_line b',' (format_double display score)))
          (Value.array (
            Values.more
              (Value.bulk_string (some member))
              (Values.more (Value.double score) Values.nil)))
  unfolding to_string print_digits
  pair-ReadsAs member score h k =
      array-ReadsAs 2 (put_bulk member ++ put_line b',' (format_double display score)) _
        (omega arith)
        (more-ReadsAll parse_f64 1 _ _ _ _ (bulk-ReadsAs parse_f64 member h)
          (one-ReadsAll _ _ (double-ReadsAs parse_f64 score (format_double display score) k.0 k.1)))

  pub scores-ReadsAll :
      (pairs : List (Bytes × ℕ))
      → AreScores display parse_f64 pairs
      → ReadsAll parse_f64
          (length pairs)
          (encode_scores display true pairs)
          (sent_scores display true pairs)
        × ReadsAll parse_f64
            (length pairs * 2)
            (encode_scores display false pairs)
            (sent_scores display false pairs)
  scores-ReadsAll [] h = (nil-ReadsAll parse_f64, nil-ReadsAll parse_f64)
  scores-ReadsAll ((member, score) ∷ pairs) h =
      let rest = scores-ReadsAll pairs h.2 in
      let text = format_double display score in
      (
        more-ReadsAll parse_f64 (length pairs) _ _ _ _ (pair-ReadsAs member score h.0 h.1) rest.0,
        subst
            (λ b.
              ReadsAll parse_f64 (suc (length pairs) * 2) b
                (sent_scores display false ((member, score) ∷ pairs)))
            (sym
              (append_assoc (put_bulk member) (put_bulk text) (encode_scores display false pairs)))
            (two-ReadsAll (length pairs) _ _ _ _ _ _ (bulk-ReadsAs parse_f64 member h.0)
              (bulk-ReadsAs parse_f64 text h.1.2) rest.1),
      )

  -- The first line of a collection that RESP2 has as an array.
  pub downgraded-ReadsAs :
      (proto : ℕ) (three : Bool)
      → (proto == 3) ≡ three
      → (a b bytes : Bytes) (v w : Value) → ReadsAs parse_f64 (a ++ bytes) v
      → ReadsAs parse_f64 (b ++ bytes) w
      → ReadsAs parse_f64 ((if proto == 3 then a else b) ++ bytes) (if three then v else w)
  downgraded-ReadsAs proto three e a b bytes v w p q =
      by_test (λ t u. ReadsAs parse_f64 ((if t then a else b) ++ bytes) (if u then v else w)) p q
        (proto == 3) three e

  pub either-ReadsAs :
      (proto : ℕ) (three : Bool)
      → (proto == 3) ≡ three
      → (a b : Bytes) (v w : Value) → ReadsAs parse_f64 a v
      → ReadsAs parse_f64 b w
      → ReadsAs parse_f64 (if proto == 3 then a else b) (if three then v else w)
  either-ReadsAs proto three e a b v w p q =
      by_test (λ t u. ReadsAs parse_f64 (if t then a else b) (if u then v else w)) p q (proto == 3)
        three e
