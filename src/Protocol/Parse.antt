-- ===== src/Protocol/Parse.antt =====
-- cache_cat/src/protocol/resp.rs: `parse_meta` finds the extent of an element and of its parts,
-- by which `take` then
-- cuts the values out (Protocol/Take.antt). How the standard library reads an f64 is a parameter.
-- The loop over the elements of an aggregate takes the buffer from where it stands.
use cache_cat.Prelude.{
  ℕ, zero, suc, ◌+◌, ◌-◌, ◌*◌, ◌^◌, Bool, true, false, ◌&&◌, ◌||◌, Option, none, some, [], ◌∷◌,
  Bytes, same, bytes_eq, ltb, leb, ◌==◌, if◌then◌else◌, length, take, drop,
}
use cache_cat.Value.Number.{digit}
use cache_cat.Value.Number as Number
use cache_cat.Value.Utf8.{as_bytes}

pub data AggregateKind : Type 0 where
  array : AggregateKind
  map : AggregateKind
  set : AggregateKind
  push : AggregateKind
  attribute : AggregateKind

-- The first number is `len`; `null_array` is the aggregate without a value.
mutual
  pub data Parser : Type 0 where
    string : ℕ → Parser
    error : ℕ → Parser
    integer : ℕ → ℕ → Parser
    bytes : ℕ → Option (ℕ × ℕ) → Parser
    bulk_error : ℕ → ℕ × ℕ → Parser
    verbatim : ℕ → ℕ × ℕ → Parser
    null : ℕ → Parser
    boolean : ℕ → Bool → Parser
    double : ℕ → ℕ → Parser
    big_number : ℕ → Parser
    null_array : ℕ → Parser
    aggregate : AggregateKind → ℕ → ℕ → Parsers → Parser

  pub data Parsers : Type 0 where
    last_element : Parsers
    element : Parser → Parsers → Parsers

abbrev pub len_of : Parser → ℕ
len_of (Parser.string len) = len
len_of (Parser.error len) = len
len_of (Parser.integer len value) = len
len_of (Parser.bytes len value) = len
len_of (Parser.bulk_error len value) = len
len_of (Parser.verbatim len value) = len
len_of (Parser.null len) = len
len_of (Parser.boolean len value) = len
len_of (Parser.double len value) = len
len_of (Parser.big_number len) = len
len_of (Parser.null_array len) = len
len_of (Parser.aggregate kind len pos elements) = len

abbrev pub find_line : Bytes → Option ℕ
find_line [] = none
find_line (a ∷ []) = none
find_line (a ∷ b ∷ buffer) =
    let rest = find_line (b ∷ buffer) in
    if (a == 13) && (b == 10)
    then some 0
    else elim rest [ none ↦ none | some index ↦ some (suc index) ]

unfoldable pub read_line : Bytes → Option (Bytes × ℕ)
read_line buffer = elim (find_line (drop 1 buffer)) [
  | none ↦ none
  | some index ↦ some (take index (drop 1 buffer), index + 3)
]

unfoldable pub read_i64 : Bytes → Option (ℕ × ℕ)
unfolding read_line
read_i64 buffer = elim (read_line buffer) [
  | none ↦ none
  | some (line, len) ↦ elim (Number.read_i64 line) [ none ↦ none | some value ↦ some (value, len) ]
]

-- `some (full, none)` is the null of a bulk string.
unfoldable pub read_blob : Bytes → Bool → Option (ℕ × Option (ℕ × ℕ))
unfolding read_i64
read_blob buffer allow_null = elim (read_i64 buffer) [
  | none ↦ none
  | some (len, pos) ↦
      if allow_null && (len == 2 ^ 64 - 1)
      then some (pos, none)
      else if leb (2 ^ 63) len
      then none
      else if ltb (length buffer) (pos + len + 2)
      then none
      else some (pos + len + 2, some (pos, len))
]

-- With what a line is read as.
abbrev pub on_line : Bytes → (Bytes → ℕ → Option Parser) → Option Parser
on_line buffer make = elim (read_line buffer) [ none ↦ none | some (line, len) ↦ make line len ]

abbrev pub bytes_of : Option (ℕ × Option (ℕ × ℕ)) → (ℕ → ℕ × ℕ → Parser) → Option Parser
bytes_of none make = none
bytes_of (some (len, none)) make = none
bytes_of (some (len, some b)) make = some (make len b)

abbrev pub boolean_of : Bytes → Option Bool
boolean_of line =
    if same line (b't' ∷ []) then some true else if same line (b'f' ∷ []) then some false else none

abbrev all_digits : Bytes → Bool
all_digits [] = true
all_digits (b ∷ line) = digit b && all_digits line

abbrev some_digits : Bytes → Bool
some_digits [] = false
some_digits (b ∷ line) = all_digits (b ∷ line)

-- A sign, if there is one, and at least one digit.
abbrev pub is_big_number : Bytes → Bool
is_big_number [] = false
is_big_number (b ∷ line) =
    if (b == b'+') || (b == b'-') then some_digits line else all_digits (b ∷ line)

-- What the first line says: an element without parts, or the kind, the number of the elements and
-- where they begin.
pub data Header : Type 0 where
  whole : Option Parser → Header
  parts : AggregateKind → ℕ → ℕ → Header

abbrev pub is_array : AggregateKind → Bool
is_array AggregateKind.array = true
is_array kind = false

abbrev pub is_attribute : AggregateKind → Bool
is_attribute AggregateKind.attribute = true
is_attribute kind = false

abbrev pub element_count : AggregateKind → ℕ → Option ℕ
element_count AggregateKind.map count = if ltb (count * 2) (2 ^ 64) then some (count * 2) else none
element_count AggregateKind.attribute count =
    if ltb (count * 2) (2 ^ 64) then some (count * 2) else none
element_count kind count = some count

unfoldable pub parse_aggregate : Bytes → AggregateKind → Header
unfolding read_i64
parse_aggregate buffer kind = elim (read_i64 buffer) [
  | none ↦ Header.whole none
  | some (count, pos) ↦
      if is_array kind && (count == 2 ^ 64 - 1)
      then Header.whole (some (Parser.null_array pos))
      else if leb (2 ^ 63) count
      then Header.whole none
      else elim (element_count kind count) [
        | none ↦ Header.whole none
        | some n ↦ Header.parts kind n pos
      ]
]

abbrev pub infinity : ℕ
infinity = 2047 * 2 ^ 52

module _ (parse_f64 : Bytes → Option ℕ) where
  abbrev pub double_of : Bytes → Option ℕ
  double_of text =
      if same text (as_bytes "inf") || same text (as_bytes "+inf")
      then some infinity
      else if same text (as_bytes "-inf")
      then some (2 ^ 63 + infinity)
      else if same text (as_bytes "nan") || same text (as_bytes "-nan")
      then some (infinity + 2 ^ 51)
      else parse_f64 text

  unfoldable pub parse_header : ℕ → Bytes → Header
  unfolding read_line read_i64 read_blob parse_aggregate
  parse_header mode buffer =
      if mode == b'+'
      then Header.whole (on_line buffer (λ line len. some (Parser.string len)))
      else if mode == b'-'
      then Header.whole (on_line buffer (λ line len. some (Parser.error len)))
      else if mode == b':'
      then Header.whole (elim (read_i64 buffer) [
        | none ↦ none
        | some (value, len) ↦ some (Parser.integer len value)
      ])
      else if mode == b'$'
      then Header.whole
          (elim (read_blob buffer true) [ none ↦ none | some (len, b) ↦ some (Parser.bytes len b) ])
      else if mode == b'*'
      then parse_aggregate buffer AggregateKind.array
      else if mode == b'_'
      then Header.whole
          (on_line buffer (λ line len. if length line == 0 then some (Parser.null len) else none))
      else if mode == b'#'
      then Header.whole (
          on_line buffer (λ line len. elim (boolean_of line) [
            | none ↦ none
            | some value ↦ some (Parser.boolean len value)
          ]))
      else if mode == b','
      then Header.whole (
          on_line buffer (λ line len. elim (double_of line) [
            | none ↦ none
            | some value ↦ some (Parser.double len value)
          ]))
      else if mode == b'('
      then Header.whole (
          on_line buffer
            (λ line len. if is_big_number line then some (Parser.big_number len) else none))
      else if mode == b'!'
      then Header.whole (bytes_of (read_blob buffer false) Parser.bulk_error)
      else if mode == b'='
      then Header.whole (bytes_of (read_blob buffer false) Parser.verbatim)
      else if mode == b'%'
      then parse_aggregate buffer AggregateKind.map
      else if mode == b'~'
      then parse_aggregate buffer AggregateKind.set
      else if mode == b'>'
      then parse_aggregate buffer AggregateKind.push
      else if mode == b'|'
      then parse_aggregate buffer AggregateKind.attribute
      else Header.whole none

  abbrev pub header_of : Bytes → Header
  header_of [] = Header.whole none
  header_of (mode ∷ line) =
      if ltb (length (mode ∷ line)) 3 then Header.whole none else parse_header mode (mode ∷ line)

  abbrev push_last : Parsers → Parser → Parsers
  push_last Parsers.last_element inner = Parsers.element inner Parsers.last_element
  push_last (Parsers.element meta elements) inner = Parsers.element meta (push_last elements inner)

  -- Each call costs a unit of fuel.
  unfoldable mutual
    pub parse_meta : ℕ → Bytes → Option Parser
    parse_meta zero buffer = none
    parse_meta (suc fuel) buffer = elim (header_of buffer) [
      | Header.whole meta ↦ meta
      | Header.parts kind n pos ↦ elim (parse_elements fuel n pos (drop pos buffer)) [
        | none ↦ none
        | some (full, elements) ↦ elim (is_attribute kind) [
          | false ↦ some (Parser.aggregate kind full pos elements)
          | true ↦ elim (parse_meta fuel (drop full buffer)) [
            | none ↦ none
            | some inner ↦
                some (Parser.aggregate kind (full + len_of inner) pos (push_last elements inner))
          ]
        ]
      ]
    ]

    pub parse_elements : ℕ → ℕ → ℕ → Bytes → Option (ℕ × Parsers)
    parse_elements zero n full buffer = none
    parse_elements (suc fuel) zero full buffer = some (full, Parsers.last_element)
    parse_elements (suc fuel) (suc n) full buffer = elim (parse_meta fuel buffer) [
      | none ↦ none
      | some meta ↦ elim (parse_elements fuel n (full + len_of meta) (drop (len_of meta) buffer)) [
        | none ↦ none
        | some (full', elements) ↦ some (full', Parsers.element meta elements)
      ]
    ]
