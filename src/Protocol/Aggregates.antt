-- ===== src/Protocol/Aggregates.antt =====
-- How the parser reads the elements of an aggregate, one after the other, off the front of a
-- buffer.
use mathlib.Core.List.{append_assoc}
use cache_cat.Prelude.{
  ℕ, zero, suc, ◌+◌, ◌-◌, ◌*◌, ◌^◌, ◌<◌, ◌≤◌, ◌≡◌, refl, ◌∙◌, ap, sym, false, Option, some, [],
  ◌++◌, Bytes, leb, ◌==◌, length, length-append, take, drop, arith,
}
use cache_cat.Value.{Value, Values}
use cache_cat.Value.Print.{to_string}
use cache_cat.Protocol.Encode.{eof, put_line}
use cache_cat.Protocol.Parse.{
  AggregateKind, Parser, Parsers, Header, len_of, element_count, parse_aggregate, parse_header,
  header_of, parse_meta, parse_elements, is_attribute,
}
use cache_cat.Protocol.Take.{collect, take_value, take_values}
use cache_cat.Protocol.Lines.{take-length, drop-length, read_i64-put_line, length-put_line}
use cache_cat.Protocol.Scalars.{ReadsAs, header_of-long}

parse_aggregate-put_line :
    (mode count n : ℕ) (rest : Bytes) (kind : AggregateKind)
    → count < 2 ^ 63
    → element_count kind count ≡ some n
    → parse_aggregate (put_line mode (to_string count) ++ rest) kind
      ≡ Header.parts kind n (length (put_line mode (to_string count)))
unfolding parse_aggregate
parse_aggregate-put_line mode count n rest kind h e =
    let not_null : (count == 2 ^ 64 - 1) ≡ false = ground (arith, h) in
    let not_negative : leb (2 ^ 63) count ≡ false = ground (arith, h) in
    rw (read_i64-put_line mode count rest (omega (arith, h)), parse_aggregate)
      (rw (not_negative, e) (ground (arith, not_null)))

module _ (parse_f64 : Bytes → Option ℕ) where
  abbrev pub ReadsAll : ℕ → Bytes → Values → Type 0
  ReadsAll n bytes values =
      (rest : Bytes) (fuel full : ℕ)
      → 2 * length bytes < fuel
      → (elements : Parsers) × (parse_elements parse_f64 fuel n full (bytes ++ rest)
          ≡ some (full + length bytes, elements))
        × (take_values elements bytes ≡ values)

  parse_elements-step :
      (fuel n full full' : ℕ) (buffer : Bytes) (meta : Parser) (elements : Parsers)
      → parse_meta parse_f64 fuel buffer ≡ some meta
      → parse_elements parse_f64 fuel n (full + len_of meta) (drop (len_of meta) buffer)
        ≡ some (full', elements)
      → parse_elements parse_f64 (suc fuel) (suc n) full buffer
        ≡ some (full', Parsers.element meta elements)
  unfolding parse_elements
  parse_elements-step fuel n full full' buffer meta elements e f =
      rw (e, parse_elements) (rw f refl)

  pub nil-ReadsAll : ReadsAll 0 [] Values.nil
  unfolding parse_elements take_values
  nil-ReadsAll rest zero full h = absurd (omega (arith, h))
  nil-ReadsAll rest (suc fuel) full h =
      (Parsers.last_element, ap (λ n. some (n, Parsers.last_element)) (omega arith), refl)

  pub more-ReadsAll :
      (n : ℕ) (bytes more : Bytes) (v : Value) (values : Values)
      → ReadsAs parse_f64 bytes v
      → ReadsAll n more values
      → ReadsAll (suc n) (bytes ++ more) (Values.more v values)
  unfolding parse_elements take_values
  more-ReadsAll n bytes more v values first others rest zero full h = absurd (omega (arith, h))
  more-ReadsAll n bytes more v values first others rest (suc fuel) full h =
      let size = length-append bytes more in
      let (meta, read, len, value) = first.1 (more ++ rest) fuel (omega (arith, h, size)) in
      let (elements, reads, collected) =
        others rest fuel (full + length bytes) (omega (arith, h, size, first.0)) in
      let whole : full + length bytes + length more ≡ full + length (bytes ++ more) =
        omega (arith, size) in
      (
        Parsers.element meta elements,
        ap (parse_elements parse_f64 (suc fuel) (suc n) full) (append_assoc bytes more rest)
            ∙ parse_elements-step fuel n full (full + length bytes + length more)
                (bytes ++ (more ++ rest)) meta elements read
                (ap
                    (λ l.
                      parse_elements parse_f64 fuel n (full + l) (drop l (bytes ++ (more ++ rest))))
                    len
                  ∙ ap (parse_elements parse_f64 fuel n (full + length bytes))
                      (drop-length bytes (more ++ rest))
                  ∙ reads)
            ∙ ap (λ n. some (n, Parsers.element meta elements)) whole,
        ap
              (λ n.
                Values.more (take_value meta (take n (bytes ++ more)))
                  (take_values elements (drop n (bytes ++ more))))
              len
            ∙ ap
                (λ b.
                  Values.more (take_value meta b)
                    (take_values elements (drop (length bytes) (bytes ++ more))))
                (take-length bytes more)
            ∙ ap (λ b. Values.more (take_value meta bytes) (take_values elements b))
                (drop-length bytes more)
            ∙ ap (λ w. Values.more w (take_values elements more)) value
            ∙ ap (Values.more v) collected,
      )

  parse_meta-parts :
      (fuel n pos full : ℕ) (buffer : Bytes) (kind : AggregateKind) (elements : Parsers)
      → header_of parse_f64 buffer ≡ Header.parts kind n pos
      → is_attribute kind ≡ false
      → parse_elements parse_f64 fuel n pos (drop pos buffer) ≡ some (full, elements)
      → parse_meta parse_f64 (suc fuel) buffer ≡ some (Parser.aggregate kind full pos elements)
  unfolding parse_meta
  parse_meta-parts fuel n pos full buffer kind elements e plain f =
      rw (e, parse_meta) (rw f (rw plain refl))

  -- An aggregate of a kind that is not an attribute.
  pub aggregate-ReadsAs :
      (mode count n : ℕ) (bytes : Bytes) (kind : AggregateKind) (values : Values)
      → count < 2 ^ 63
      → element_count kind count ≡ some n
      → is_attribute kind ≡ false
      → ((buffer : Bytes) → parse_header parse_f64 mode buffer ≡ parse_aggregate buffer kind)
      → ReadsAll n bytes values
      → ReadsAs parse_f64 (put_line mode (to_string count) ++ bytes) (collect kind values)
  unfolding parse_meta take_value
  aggregate-ReadsAs mode count n bytes kind values small e plain header all =
      (omega (arith, size, length-put_line mode (to_string count)), read)
    where
      first : Bytes
      first = put_line mode (to_string count)

      line : Bytes
      line = (to_string count ++ eof) ++ bytes

      size : length (first ++ bytes) ≡ length first + length bytes
      size = length-append first bytes

      read :
          (rest : Bytes) (fuel : ℕ)
          → 2 * length (first ++ bytes) ≤ fuel
          → (meta : Parser) × (parse_meta parse_f64 fuel ((first ++ bytes) ++ rest) ≡ some meta)
            × (len_of meta ≡ length (first ++ bytes))
            × (take_value meta (first ++ bytes) ≡ collect kind values)
      read rest zero h = absurd (omega (arith, h, size, length-put_line mode (to_string count)))
      read rest (suc fuel) h =
          let (elements, reads, collected) =
            all rest fuel (length first)
              (omega (arith, h, size, length-put_line mode (to_string count))) in
          let split = append_assoc first bytes rest in
          let found : header_of parse_f64 (first ++ (bytes ++ rest))
              ≡ Header.parts kind n (length first) =
            header_of-long parse_f64 mode (to_string count ++ eof) (bytes ++ rest)
              (omega (arith, length-put_line mode (to_string count)))
            ∙ header (first ++ (bytes ++ rest))
            ∙ parse_aggregate-put_line mode count n (bytes ++ rest) kind small e in
          (
            Parser.aggregate kind (length first + length bytes) (length first) elements,
            ap (parse_meta parse_f64 (suc fuel)) split
                ∙ parse_meta-parts fuel n (length first) (length first + length bytes)
                    (first ++ (bytes ++ rest)) kind elements found plain
                    (ap (parse_elements parse_f64 fuel n (length first))
                        (drop-length first (bytes ++ rest))
                      ∙ reads),
            sym size,
            ap (λ b. collect kind (take_values elements b)) (drop-length first bytes)
                ∙ ap (collect kind) collected,
          )
