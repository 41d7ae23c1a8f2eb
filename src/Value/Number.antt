-- ===== src/Value/Number.antt =====
-- cache_cat/src/utils/number.rs, `parse_i64`: a text is trimmed and read as an i64. An i64 is its
-- 64 bits in two's complement. The text is walked byte by byte: `from_utf8` refuses a text that is
-- not UTF-8, and so does the reading of digits, since what is trimmed are whole encoded characters
-- and what is left has to be ASCII.
use cache_cat.Prelude.{
  ℕ, zero, suc, ◌+◌, ◌-◌, ◌*◌, ◌%◌, ◌^◌, Bool, true, false, ◌&&◌, ◌||◌, Option, none, some, [], ◌∷◌,
  Bytes, ltb, leb, ◌==◌, if◌then◌else◌, reverse, length,
}

-- White space of one byte, as `char::is_whitespace` has it.
abbrev space1 : ℕ → Bool
space1 b = (leb 9 b && leb b 13) || (b == 32)

-- U+0085 and U+00A0.
abbrev space2 : ℕ → ℕ → Bool
space2 a b = (a == 194) && ((b == 133) || (b == 160))

-- U+1680, U+2000 to U+200A, U+2028, U+2029, U+202F, U+205F and U+3000.
abbrev space3 : ℕ → ℕ → ℕ → Bool
space3 a b c =
    ((a == 225) && (b == 154) && (c == 128))
    || ((a == 226)
        && (b == 128)
        && ((leb 128 c && leb c 138) || (c == 168) || (c == 169) || (c == 175)))
    || ((a == 226) && (b == 129) && (c == 159))
    || ((a == 227) && (b == 128) && (c == 128))

-- A round takes at most one character; `rounds` is the number of bytes.
unfoldable pub trim_start : ℕ → Bytes → Bytes
trim_start zero s = s
trim_start (suc rounds) [] = []
trim_start (suc rounds) (a ∷ s) = elim (space1 a) [
  | true ↦ trim_start rounds s
  | false ↦ elim s [
    | [] ↦ a ∷ []
    | b ∷ s ↦ elim (space2 a b) [
      | true ↦ trim_start rounds s
      | false ↦ elim s [
        | [] ↦ a ∷ b ∷ []
        | c ∷ s ↦ elim (space3 a b c) [ true ↦ trim_start rounds s | false ↦ a ∷ b ∷ c ∷ s ]
      ]
    ]
  ]
]

-- The same from the end, on the text in reverse.
unfoldable pub trim_end : ℕ → Bytes → Bytes
trim_end zero s = s
trim_end (suc rounds) [] = []
trim_end (suc rounds) (c ∷ s) = elim (space1 c) [
  | true ↦ trim_end rounds s
  | false ↦ elim s [
    | [] ↦ c ∷ []
    | b ∷ s ↦ elim (space2 b c) [
      | true ↦ trim_end rounds s
      | false ↦ elim s [
        | [] ↦ c ∷ b ∷ []
        | a ∷ s ↦ elim (space3 a b c) [ true ↦ trim_end rounds s | false ↦ c ∷ b ∷ a ∷ s ]
      ]
    ]
  ]
]

abbrev pub digit : ℕ → Bool
digit b = leb 48 b && leb b 57

-- The digits, read into the number of those before them.
unfoldable pub read_digits : ℕ → Bytes → Option ℕ
read_digits n [] = some n
read_digits n (b ∷ s) =
    let rest = read_digits (n * 10 + (b - 48)) s in if digit b then rest else none

-- At least one digit.
unfoldable pub read_number : Bytes → Option ℕ
unfolding read_digits
read_number [] = none
read_number (b ∷ s) = read_digits 0 (b ∷ s)

abbrev positive : Option ℕ → Option ℕ
positive none = none
positive (some n) = if ltb n (2 ^ 63) then some n else none

abbrev negative : Option ℕ → Option ℕ
negative none = none
negative (some n) = if leb n (2 ^ 63) then some ((2 ^ 64 - n) % 2 ^ 64) else none

-- `str::parse::<i64>`: a sign may stand before the digits.
unfoldable pub read_i64 : Bytes → Option ℕ
unfolding read_number
read_i64 [] = none
read_i64 (b ∷ s) =
    if b == 45
    then negative (read_number s)
    else if b == 43
    then positive (read_number s)
    else positive (read_number (b ∷ s))

unfoldable pub trim : Bytes → Bytes
unfolding trim_start trim_end
trim s = let start = trim_start (length s) s in reverse (trim_end (length start) (reverse start))

unfoldable pub parse_i64 : Bytes → Option ℕ
unfolding trim read_i64
parse_i64 bytes = read_i64 (trim bytes)
