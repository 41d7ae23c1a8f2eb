-- ===== src/Protocol/Encode.antt =====
-- cache_cat/src/raft/types/core/response_value.rs: `encode_to`, in RESP2 and RESP3. What the
-- standard library prints for an f64 that is finite and not a whole number is a parameter.
use cache_cat.Prelude.{
  ℕ, Option, suc, ◌+◌, ◌-◌, ◌*◌, ◌/◌, ◌%◌, ◌^◌, Bool, ◌||◌, none, some, List, [], ◌∷◌, ◌++◌, Bytes,
  ltb, leb, ◌==◌, if◌then◌else◌, length,
}
use cache_cat.Value.{Value, Values, ValuePairs}
use cache_cat.Value.Double.{is_nan}
use cache_cat.Value.Print.{to_string}
use cache_cat.Value.Utf8.{as_bytes}

abbrev pub eof : Bytes
eof = 13 ∷ 10 ∷ []

abbrev pub put_line : ℕ → Bytes → Bytes
put_line mode line = mode ∷ (line ++ eof)

-- The layout of `put_bulk`, which has the mode `$`, and of the other blobs.
abbrev pub put_blob : ℕ → Bytes → Bytes
put_blob mode bytes = put_line mode (to_string (length bytes)) ++ (bytes ++ eof)

abbrev pub put_bulk : Bytes → Bytes
put_bulk bytes = put_blob b'$' bytes

abbrev pub count_of : Values → ℕ
count_of Values.nil = 0
count_of (Values.more v items) = suc (count_of items)

abbrev pub count_pairs : ValuePairs → ℕ
count_pairs ValuePairs.nil_pairs = 0
count_pairs (ValuePairs.more_pairs k v pairs) = suc (count_pairs pairs)

-- The three bytes of a format: cut off, or filled up with blanks.
abbrev pub fmt : Bytes → Bytes
fmt [] = b' ' ∷ b' ' ∷ b' ' ∷ []
fmt (a ∷ []) = a ∷ b' ' ∷ b' ' ∷ []
fmt (a ∷ b ∷ []) = a ∷ b ∷ b' ' ∷ []
fmt (a ∷ b ∷ c ∷ more) = a ∷ b ∷ c ∷ []

-- The size of an f64 that is a whole number, from its bits without the sign; `none` also from
-- 2 ^ 64 on.
abbrev pub whole : ℕ → Option ℕ
whole m =
    let e = m / 2 ^ 52 in
    let digits = 2 ^ 52 + m % 2 ^ 52 in
    if ltb e 1023 || leb 1087 e
    then none
    else if leb 1075 e
    then some (digits * 2 ^ (e - 1075))
    else if digits % 2 ^ (1075 - e) == 0
    then some (digits / 2 ^ (1075 - e))
    else none

module _ (display : ℕ → Bytes) where
  -- A whole number in the range of i64 is printed as one.
  unfoldable pub format_double : ℕ → Bytes
  unfolding to_string
  format_double d =
      let negative = leb (2 ^ 63) d in
      let m = d % 2 ^ 63 in
      if is_nan d
      then as_bytes "nan"
      else if m == 2047 * 2 ^ 52
      then as_bytes (if negative then "-inf" else "inf")
      else if m == 0
      then as_bytes (if negative then "-0" else "0")
      else elim (whole m) [
        | none ↦ display d
        | some n ↦
            if negative
            then (if leb n (2 ^ 63) then to_string ((2 ^ 64 - n) % 2 ^ 64) else display d)
            else (if ltb n (2 ^ 63) then to_string n else display d)
      ]

  abbrev pub encode_scores : Bool → List (Bytes × ℕ) → Bytes
  encode_scores three [] = []
  encode_scores three ((member, score) ∷ pairs) =
      (if three
        then put_line b'*' (b'2' ∷ []) ++ (put_bulk member ++ put_line b',' (format_double score))
        else put_bulk member ++ put_bulk (format_double score))
      ++ encode_scores three pairs

  unfoldable mutual
    pub encode_to : ℕ → Value → Bytes
    encode_to proto (Value.simple_string s) = put_line b'+' (as_bytes s)
    encode_to proto (Value.error e) = put_line b'-' (as_bytes e)
    encode_to proto (Value.integer i) = put_line b':' (to_string i)
    encode_to proto Value.null =
        if proto == 3 then put_line b'_' [] else put_line b'$' (b'-' ∷ b'1' ∷ [])
    encode_to proto (Value.bulk_string none) =
        if proto == 3 then put_line b'_' [] else put_line b'$' (b'-' ∷ b'1' ∷ [])
    encode_to proto (Value.bulk_string (some bytes)) = put_bulk bytes
    encode_to proto Value.null_array =
        if proto == 3 then put_line b'_' [] else put_line b'*' (b'-' ∷ b'1' ∷ [])
    encode_to proto (Value.array items) =
        put_line b'*' (to_string (count_of items)) ++ encode_items proto items
    encode_to proto (Value.map pairs) =
        (if proto == 3
          then put_line b'%' (to_string (count_pairs pairs))
          else put_line b'*' (to_string (count_pairs pairs * 2)))
        ++ encode_pairs proto pairs
    encode_to proto (Value.set items) =
        put_line (if proto == 3 then b'~' else b'*') (to_string (count_of items))
        ++ encode_items proto items
    encode_to proto (Value.push items) =
        put_line (if proto == 3 then b'>' else b'*') (to_string (count_of items))
        ++ encode_items proto items
    encode_to proto (Value.boolean val) =
        if proto == 3
        then put_line b'#' (if val then b't' ∷ [] else b'f' ∷ [])
        else put_line b':' (if val then b'1' ∷ [] else b'0' ∷ [])
    encode_to proto (Value.double d) =
        if proto == 3 then put_line b',' (format_double d) else put_bulk (format_double d)
    encode_to proto (Value.big_number n) =
        if proto == 3 then put_line b'(' (as_bytes n) else put_bulk (as_bytes n)
    encode_to proto (Value.verbatim_string format bytes) =
        if proto == 3
        then put_line b'=' (to_string (length bytes + 4))
          ++ ((fmt (as_bytes format) ++ (b':' ∷ bytes)) ++ eof)
        else put_bulk bytes
    encode_to proto (Value.bulk_error e) =
        if proto == 3 then put_blob b'!' (as_bytes e) else put_line b'-' (as_bytes e)
    encode_to proto (Value.member_scores pairs) =
        put_line b'*' (to_string (if proto == 3 then length pairs else length pairs * 2))
        ++ encode_scores (proto == 3) pairs
    encode_to proto (Value.batch frames) = encode_items proto frames

    pub encode_items : ℕ → Values → Bytes
    encode_items proto Values.nil = []
    encode_items proto (Values.more v items) = encode_to proto v ++ encode_items proto items

    pub encode_pairs : ℕ → ValuePairs → Bytes
    encode_pairs proto ValuePairs.nil_pairs = []
    encode_pairs proto (ValuePairs.more_pairs k v pairs) =
        encode_to proto k ++ (encode_to proto v ++ encode_pairs proto pairs)
