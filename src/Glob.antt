-- ===== src/Glob.antt =====
-- cache_cat/src/utils/glob.rs: the patterns of KEYS. The indices into the pattern and the value are
-- the suffixes that they start. An index past the end, which Rust answers with a panic, is `panics`.
pub mod Total
pub mod Unclosed
use cache_cat.Prelude.{
  ℕ, zero, suc, ◌+◌, length, Bool, true, false, not, ◌&&◌, ◌||◌, List, [], ◌∷◌, Bytes, leb, ◌==◌,
  if◌then◌else◌,
}

pub data Match : Type 0 where
  answer : Bool → Match
  panics : Match
  no_fuel : Match

-- The `while` loop of `match_bracket`: whether a character or a range has matched so far, and the
-- pattern from the closing bracket on.
unfoldable pub bracket_loop : ℕ → Bytes → ℕ → Bool → Bool × Bytes
bracket_loop zero p value matched = (matched, p)
bracket_loop (suc rounds) [] value matched = (matched, [])
bracket_loop (suc rounds) (c ∷ p) value matched =
    let one = bracket_loop rounds p value (matched || (c == value)) in
    elim (c == b']') [
      | true ↦ (matched, c ∷ p)
      | false ↦ elim p [
        | [] ↦ one
        | d ∷ q ↦ elim q [
          | [] ↦ one
          | e ∷ r ↦ elim (d == b'-') [
            | true ↦ bracket_loop rounds r value (matched || (leb c value && leb value e))
            | false ↦ one
          ]
        ]
      ]
    ]

abbrev pub negates : Bytes → Bool
negates [] = false
negates (c ∷ p) = (c == b'^') || (c == b'!')

abbrev pub tail : Bytes → Bytes
tail [] = []
tail (c ∷ p) = p

-- A round takes at least one character; `length p` rounds are enough.
unfoldable pub match_bracket : Bytes → ℕ → Bool × Bytes
unfolding bracket_loop
match_bracket p value =
    if negates p
    then (let (matched, rest) = bracket_loop (length p) (tail p) value false in (not matched, rest))
    else bracket_loop (length p) p value false

abbrev pub either : Match → Match → Match
either (answer true) other = answer true
either (answer false) other = other
either panics other = panics
either no_fuel other = no_fuel

-- `pi == pattern.len()` is the empty suffix; `end + 1` is past the end where no bracket closes.
unfoldable pub match_inner : ℕ → Bytes → Bytes → Match
unfolding match_bracket
match_inner zero p v = no_fuel
match_inner (suc fuel) [] [] = answer true
match_inner (suc fuel) [] (x ∷ v) = answer false
match_inner (suc fuel) (c ∷ p) v = elim (c == b'*') [
  | true ↦
      either (match_inner fuel p v)
        (elim v [ [] ↦ answer false | x ∷ w ↦ match_inner fuel (c ∷ p) w ])
  | false ↦ elim (c == b'?') [
    | true ↦ elim v [ [] ↦ answer false | x ∷ w ↦ match_inner fuel p w ]
    | false ↦ elim (c == b'[') [
      | true ↦ elim v [
        | [] ↦ answer false
        | x ∷ w ↦ elim ((match_bracket p x).0) [
          | true ↦ elim ((match_bracket p x).1) [ [] ↦ panics | d ∷ q ↦ match_inner fuel q w ]
          | false ↦ answer false
        ]
      ]
      | false ↦ elim (c == b'\\') [
        | true ↦ elim p [
          | [] ↦ answer false
          | d ∷ q ↦ elim v [
            | [] ↦ answer false
            | x ∷ w ↦ elim (d == x) [ true ↦ match_inner fuel q w | false ↦ answer false ]
          ]
        ]
        | false ↦ elim v [
          | [] ↦ answer false
          | x ∷ w ↦ elim (c == x) [ true ↦ match_inner fuel p w | false ↦ answer false ]
        ]
      ]
    ]
  ]
]

unfoldable pub matches : Bytes → Bytes → Match
unfolding match_inner
matches pattern value = match_inner (suc (length pattern + length value)) pattern value
