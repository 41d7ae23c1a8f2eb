-- ===== src/Protocol/Scalars.antt =====
-- How the parser reads an element without parts off the front of a buffer.
use cache_cat.Prelude.{
  ℕ, zero, suc, ◌+◌, ◌-◌, ◌*◌, ◌^◌, ◌<◌, ◌≤◌, ◌≡◌, refl, ◌∙◌, ap, String, Bool, true, false, Option,
  none, some, [], ◌∷◌, ◌++◌, Bytes, ltb, ◌==◌, if◌then◌else◌, length, length-append, take, arith,
}
use cache_cat.Value.{Value}
use cache_cat.Value.Print.{to_string}
use cache_cat.Value.Utf8.{as_bytes, from_utf8_lossy}
use cache_cat.Value.Utf8.Read.{from_utf8_lossy-as_bytes}
use cache_cat.Protocol.Encode.{eof, put_line, put_blob, put_bulk, fmt}
use cache_cat.Value.Number as Number
use cache_cat.Value.Number.{read_number, read_digits}
use cache_cat.Protocol.Parse.{
  read_line, read_i64, read_blob, parse_aggregate, on_line, Parser, Header, len_of, header_of,
  parse_header, parse_meta, boolean_of, double_of, is_big_number,
}
use cache_cat.Protocol.Take.{line_of, blob_of, take_value, verbatim_of}
use cache_cat.Protocol.Lines.{
  IsLine, take-length, drop-length, length-put_line, read_line-put_line, read_i64-put_line,
  read_blob-put_blob,
}

line_of-put_line :
    (mode : ℕ) (line : Bytes) → line_of (length (put_line mode line)) (put_line mode line) ≡ line
line_of-put_line mode line =
    let size : length (put_line mode line) - 2 ≡ suc (length line) =
      omega (arith, length-put_line mode line) in
    rw size (take-length line eof)

blob_of-put_blob :
    (mode : ℕ) (bytes : Bytes)
    → blob_of
        (length (put_line mode (to_string (length bytes))), length bytes)
        (put_blob mode bytes)
      ≡ bytes
blob_of-put_blob mode bytes =
    ap (take (length bytes)) (drop-length (put_line mode (to_string (length bytes))) (bytes ++ eof))
    ∙ take-length bytes eof

on_line-put_line :
    (mode : ℕ) (line rest : Bytes) (make : Bytes → ℕ → Option Parser)
    → IsLine line
    → on_line (put_line mode line ++ rest) make ≡ make line (length (put_line mode line))
on_line-put_line mode line rest make h = rw (read_line-put_line mode line rest h, on_line) refl

module _ (parse_f64 : Bytes → Option ℕ) where
  -- With fuel for its length, the parser reads the value off the bytes and leaves what follows.
  abbrev pub ReadsAs : Bytes → Value → Type 0
  ReadsAs bytes v =
      (3 ≤ length bytes)
      × ((rest : Bytes) (fuel : ℕ)
          → 2 * length bytes ≤ fuel
          → (meta : Parser) × (parse_meta parse_f64 fuel (bytes ++ rest) ≡ some meta)
            × (len_of meta ≡ length bytes)
            × (take_value meta bytes ≡ v))

  pub header_of-long :
      (mode : ℕ) (line rest : Bytes)
      → 2 ≤ length line
      → header_of parse_f64 ((mode ∷ line) ++ rest)
        ≡ parse_header parse_f64 mode ((mode ∷ line) ++ rest)
  header_of-long mode line rest size =
      let long : ltb (length ((mode ∷ line) ++ rest)) 3 ≡ false =
        ground (arith, size, length-append line rest) in
      rw long refl

  whole-ReadsAs :
      (mode : ℕ) (line : Bytes) (v : Value) (meta : Parser)
      → 2 ≤ length line
      → ((rest : Bytes)
          → parse_header parse_f64 mode ((mode ∷ line) ++ rest) ≡ Header.whole (some meta))
      → len_of meta ≡ length (mode ∷ line)
      → take_value meta (mode ∷ line) ≡ v
      → ReadsAs (mode ∷ line) v
  unfolding parse_meta
  whole-ReadsAs mode line v meta size header len value = (omega (arith, size), read)
    where
      read :
          (rest : Bytes) (fuel : ℕ)
          → 2 * length (mode ∷ line) ≤ fuel
          → (meta : Parser) × (parse_meta parse_f64 fuel ((mode ∷ line) ++ rest) ≡ some meta)
            × (len_of meta ≡ length (mode ∷ line))
            × (take_value meta (mode ∷ line) ≡ v)
      read rest zero enough = absurd (omega (arith, enough))
      read rest (suc fuel) enough =
          (meta, rw (header_of-long mode line rest size ∙ header rest, parse_meta) refl, len, value)

  line_size : (line : Bytes) → 2 ≤ length (line ++ eof)
  line_size line = omega (arith, length-append line eof)

  pub string-ReadsAs :
      (s : String)
      → IsLine (as_bytes s)
      → ReadsAs (put_line b'+' (as_bytes s)) (Value.simple_string s)
  unfolding parse_header take_value
  string-ReadsAs s h =
      whole-ReadsAs b'+' (as_bytes s ++ eof) (Value.simple_string s)
        (Parser.string (length (put_line b'+' (as_bytes s)))) (line_size (as_bytes s))
        (λ rest.
          ap Header.whole
            (on_line-put_line b'+' (as_bytes s) rest (λ line len. some (Parser.string len)) h))
        refl
        (ap Value.simple_string
          (ap from_utf8_lossy (line_of-put_line b'+' (as_bytes s)) ∙ from_utf8_lossy-as_bytes s))

  pub error-ReadsAs :
      (s : String) → IsLine (as_bytes s) → ReadsAs (put_line b'-' (as_bytes s)) (Value.error s)
  unfolding parse_header take_value
  error-ReadsAs s h =
      whole-ReadsAs b'-' (as_bytes s ++ eof) (Value.error s)
        (Parser.error (length (put_line b'-' (as_bytes s)))) (line_size (as_bytes s))
        (λ rest.
          ap Header.whole
            (on_line-put_line b'-' (as_bytes s) rest (λ line len. some (Parser.error len)) h))
        refl
        (ap Value.error
          (ap from_utf8_lossy (line_of-put_line b'-' (as_bytes s)) ∙ from_utf8_lossy-as_bytes s))

  pub integer-ReadsAs :
      (n : ℕ) → n < 2 ^ 64 → ReadsAs (put_line b':' (to_string n)) (Value.integer n)
  unfolding parse_header take_value
  integer-ReadsAs n h =
      whole-ReadsAs b':' (to_string n ++ eof) (Value.integer n)
        (Parser.integer (length (put_line b':' (to_string n))) n) (line_size (to_string n))
        (λ rest. rw (read_i64-put_line b':' n rest h, parse_header) refl) refl refl

  pub bulk-ReadsAs :
      (bytes : Bytes)
      → length bytes < 2 ^ 63
      → ReadsAs (put_bulk bytes) (Value.bulk_string (some bytes))
  unfolding parse_header take_value
  bulk-ReadsAs bytes h =
      whole-ReadsAs b'$' ((to_string (length bytes) ++ eof) ++ (bytes ++ eof))
        (Value.bulk_string (some bytes))
        (Parser.bytes (length (put_bulk bytes))
          (some (length (put_line b'$' (to_string (length bytes))), length bytes)))
        (omega
          (arith, line_size bytes, length-append (to_string (length bytes) ++ eof) (bytes ++ eof)))
        (λ rest. rw (read_blob-put_blob b'$' bytes rest true h, parse_header) refl) refl
        (ap (λ b. Value.bulk_string (some b)) (blob_of-put_blob b'$' bytes))

  pub bulk_error-ReadsAs :
      (s : String)
      → length (as_bytes s) < 2 ^ 63
      → ReadsAs (put_blob b'!' (as_bytes s)) (Value.bulk_error s)
  unfolding parse_header take_value
  bulk_error-ReadsAs s h =
      let bytes = as_bytes s in
      whole-ReadsAs b'!' ((to_string (length bytes) ++ eof) ++ (bytes ++ eof)) (Value.bulk_error s)
        (Parser.bulk_error (length (put_blob b'!' bytes))
          (length (put_line b'!' (to_string (length bytes))), length bytes))
        (omega
          (arith, line_size bytes, length-append (to_string (length bytes) ++ eof) (bytes ++ eof)))
        (λ rest. rw (read_blob-put_blob b'!' bytes rest false h, parse_header) refl) refl
        (ap Value.bulk_error
          (ap from_utf8_lossy (blob_of-put_blob b'!' bytes) ∙ from_utf8_lossy-as_bytes s))

  length-fmt : (format : Bytes) → length (fmt format) ≡ 3
  length-fmt [] = refl
  length-fmt (a ∷ []) = refl
  length-fmt (a ∷ b ∷ []) = refl
  length-fmt (a ∷ b ∷ c ∷ more) = refl

  verbatim_of-fmt :
      (format bytes : Bytes)
      → verbatim_of (fmt format ++ (b':' ∷ bytes))
        ≡ Value.verbatim_string (from_utf8_lossy (fmt format)) bytes
  verbatim_of-fmt [] bytes = refl
  verbatim_of-fmt (a ∷ []) bytes = refl
  verbatim_of-fmt (a ∷ b ∷ []) bytes = refl
  verbatim_of-fmt (a ∷ b ∷ c ∷ more) bytes = refl

  -- A verbatim string is the blob of its format, a colon and its text.
  pub verbatim_blob :
      (format bytes : Bytes)
      → put_blob b'=' (fmt format ++ (b':' ∷ bytes))
        ≡ put_line b'=' (to_string (length bytes + 4)) ++ ((fmt format ++ (b':' ∷ bytes)) ++ eof)
  verbatim_blob format bytes =
      let size : length (fmt format ++ (b':' ∷ bytes)) ≡ length bytes + 4 =
        omega (arith, length-append (fmt format) (b':' ∷ bytes), length-fmt format) in
      ap (λ n. put_line b'=' (to_string n) ++ ((fmt format ++ (b':' ∷ bytes)) ++ eof)) size

  pub verbatim-ReadsAs :
      (format bytes : Bytes)
      → length bytes + 4 < 2 ^ 63
      → ReadsAs
          (put_blob b'=' (fmt format ++ (b':' ∷ bytes)))
          (Value.verbatim_string (from_utf8_lossy (fmt format)) bytes)
  unfolding parse_header take_value
  verbatim-ReadsAs format text h =
      let bytes = fmt format ++ (b':' ∷ text) in
      let size : length bytes < 2 ^ 63 =
        omega (arith, h, length-append (fmt format) (b':' ∷ text), length-fmt format) in
      whole-ReadsAs b'=' ((to_string (length bytes) ++ eof) ++ (bytes ++ eof)) _
        (Parser.verbatim (length (put_blob b'=' bytes))
          (length (put_line b'=' (to_string (length bytes))), length bytes))
        (omega
          (arith, line_size bytes, length-append (to_string (length bytes) ++ eof) (bytes ++ eof)))
        (λ rest. rw (read_blob-put_blob b'=' bytes rest false size, parse_header) refl) refl
        (ap verbatim_of (blob_of-put_blob b'=' bytes) ∙ verbatim_of-fmt format text)

  pub null-ReadsAs : ReadsAs (put_line b'_' []) Value.null
  unfolding parse_header take_value
  null-ReadsAs =
      whole-ReadsAs b'_' eof Value.null (Parser.null 3) (omega arith)
        (λ rest. ap Header.whole (
          on_line-put_line b'_' [] rest
            (λ line len. if length line == 0 then some (Parser.null len) else none) tt))
        refl refl

  pub null_bulk-ReadsAs : ReadsAs (put_line b'$' (b'-' ∷ b'1' ∷ [])) (Value.bulk_string none)
  unfolding parse_header take_value read_blob read_i64 read_line Number.read_i64 read_number
      read_digits
  null_bulk-ReadsAs =
      whole-ReadsAs b'$' (b'-' ∷ b'1' ∷ eof) (Value.bulk_string none) (Parser.bytes 5 none)
        (omega arith) (λ rest. refl) refl refl

  pub null_array-ReadsAs : ReadsAs (put_line b'*' (b'-' ∷ b'1' ∷ [])) Value.null_array
  unfolding parse_header take_value parse_aggregate read_i64 read_line Number.read_i64 read_number
      read_digits
  null_array-ReadsAs =
      whole-ReadsAs b'*' (b'-' ∷ b'1' ∷ eof) Value.null_array (Parser.null_array 5) (omega arith)
        (λ rest. refl) refl refl

  pub boolean-ReadsAs :
      (val : Bool)
      → ReadsAs (put_line b'#' (if val then b't' ∷ [] else b'f' ∷ [])) (Value.boolean val)
  unfolding parse_header take_value
  boolean-ReadsAs true =
      whole-ReadsAs b'#' (b't' ∷ eof) (Value.boolean true) (Parser.boolean 4 true) (omega arith)
        (λ rest. ap Header.whole (
          on_line-put_line b'#' (b't' ∷ []) rest
            (λ line len. elim (boolean_of line) [
              | none ↦ none
              | some value ↦ some (Parser.boolean len value)
            ])
            (refl, tt)))
        refl refl
  boolean-ReadsAs false =
      whole-ReadsAs b'#' (b'f' ∷ eof) (Value.boolean false) (Parser.boolean 4 false) (omega arith)
        (λ rest. ap Header.whole (
          on_line-put_line b'#' (b'f' ∷ []) rest
            (λ line len. elim (boolean_of line) [
              | none ↦ none
              | some value ↦ some (Parser.boolean len value)
            ])
            (refl, tt)))
        refl refl

  pub double-ReadsAs :
      (d : ℕ) (text : Bytes)
      → IsLine text
      → double_of parse_f64 text ≡ some d
      → ReadsAs (put_line b',' text) (Value.double d)
  unfolding parse_header take_value
  double-ReadsAs d text h e =
      whole-ReadsAs b',' (text ++ eof) (Value.double d)
        (Parser.double (length (put_line b',' text)) d) (line_size text)
        (λ rest. ap Header.whole (
          on_line-put_line b',' text rest
            (λ line len. elim (double_of parse_f64 line) [
              | none ↦ none
              | some value ↦ some (Parser.double len value)
            ])
            h
          ∙ rw e refl))
        refl refl

  pub big_number-ReadsAs :
      (n : String)
      → IsLine (as_bytes n)
      → is_big_number (as_bytes n) ≡ true
      → ReadsAs (put_line b'(' (as_bytes n)) (Value.big_number n)
  unfolding parse_header take_value
  big_number-ReadsAs n h e =
      whole-ReadsAs b'(' (as_bytes n ++ eof) (Value.big_number n)
        (Parser.big_number (length (put_line b'(' (as_bytes n)))) (line_size (as_bytes n))
        (λ rest. ap Header.whole (
          on_line-put_line b'(' (as_bytes n) rest
            (λ line len. if is_big_number line then some (Parser.big_number len) else none) h
          ∙ rw e refl))
        refl
        (ap Value.big_number
          (ap from_utf8_lossy (line_of-put_line b'(' (as_bytes n)) ∙ from_utf8_lossy-as_bytes n))
