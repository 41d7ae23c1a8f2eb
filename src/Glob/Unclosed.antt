-- ===== src/Glob/Unclosed.antt =====
-- cache_cat/src/utils/glob.rs: a bracket that is not closed.
use cache_cat.Prelude.{
  ℕ, zero, suc, ◌+◌, ◌≤◌, ◌≡◌, ◌≢◌, refl, ◌∙◌, ap, Bool, true, false, not, ◌||◌, [], ◌∷◌, ◌++◌,
  Bytes, bytes_eq, nat_eq, ◌==◌, if◌then◌else◌, length, length-append, arith, All,
}
use cache_cat.Value.Table.{names}
use cache_cat.Glob.{Match, answer, panics, bracket_loop, match_bracket, match_inner, matches}
use cache_cat.Glob.Total.{IsPlain}

-- A character that stands for itself in a bracket.
abbrev pub IsMember : ℕ → Type 0
IsMember c = (c ≢ b']') × (c ≢ b'-') × (c ≢ b'^') × (c ≢ b'!')

-- The loop goes to the end of the pattern, and tells whether the character is one of those it met.
bracket_loop-members :
    (rounds : ℕ) (q : Bytes) (x : ℕ) (matched : Bool)
    → length q ≤ rounds
    → All IsMember q
    → bracket_loop rounds q x matched ≡ (matched || names q x, [])
unfolding bracket_loop
bracket_loop-members zero [] x matched h k = ground arith
bracket_loop-members zero (c ∷ q) x matched h k = absurd (omega (arith, h))
bracket_loop-members (suc rounds) [] x matched h k = ground arith
bracket_loop-members (suc rounds) (c ∷ []) x matched h k =
    ground (arith, k, bracket_loop-members rounds [] x (matched || (c == x)) (omega (arith, h)) k.1)
bracket_loop-members (suc rounds) (c ∷ d ∷ []) x matched h k =
    ground (
      arith,
      k,
      bracket_loop-members rounds (d ∷ []) x (matched || (c == x)) (omega (arith, h)) k.1,
    )
bracket_loop-members (suc rounds) (c ∷ d ∷ e ∷ q) x matched h k = ground (
  arith,
  k,
  bracket_loop-members rounds (d ∷ e ∷ q) x (matched || (c == x)) (omega (arith, h)) k.1,
)

match_bracket-members : (q : Bytes) (x : ℕ) → All IsMember q → match_bracket q x ≡ (names q x, [])
unfolding match_bracket
match_bracket-members [] x k = bracket_loop-members 0 [] x false (omega arith) k
match_bracket-members (c ∷ q) x k =
    ground (arith, k, bracket_loop-members (suc (length q)) (c ∷ q) x false (omega arith) k)

match_bracket-negated :
    (n : ℕ) (q : Bytes) (x : ℕ)
    → ((n == b'^') || (n == b'!')) ≡ true
    → All IsMember q
    → match_bracket (n ∷ q) x ≡ (not (names q x), [])
unfolding match_bracket
match_bracket-negated n q x h k =
    rw h
      (ap (λ r. (not r.0, r.1)) (bracket_loop-members (suc (length q)) q x false (omega arith) k))

-- Plain characters are passed one by one.
plain_prefix :
    (fuel : ℕ) (p s v : Bytes)
    → All IsPlain p
    → match_inner (length p + fuel) (p ++ s) (p ++ v) ≡ match_inner fuel s v
unfolding match_inner
plain_prefix fuel [] s v plain = ap (λ n. match_inner n s v) (omega arith)
plain_prefix fuel (c ∷ p) s v plain =
    let one_more : length (c ∷ p) + fuel ≡ suc (length p + fuel) = omega arith in
    ap (λ n. match_inner n (c ∷ (p ++ s)) (c ∷ (p ++ v))) one_more
    ∙ ground (arith, plain.0, plain_prefix fuel p s v plain.1)

at_bracket :
    (fuel : ℕ) (b w : Bytes) (x : ℕ) (matched : Bool)
    → match_bracket b x ≡ (matched, [])
    → match_inner (suc fuel) (b'[' ∷ b) (x ∷ w) ≡ (if matched then panics else answer false)
unfolding match_inner
at_bracket fuel b w x matched e =
    ap
      (λ r. elim r.0 as (λ _. Match) [
        | true ↦ elim r.1 as (λ _. Match) [ [] ↦ panics | d ∷ q ↦ match_inner fuel q w ]
        | false ↦ answer false
      ])
      e
    ∙ elim matched
        as (λ m.
          (elim m as (λ _. Match) [ true ↦ panics | false ↦ answer false ])
          ≡ (if m then panics else answer false)) [ true ↦ refl | false ↦ refl ]

matches-at :
    (p b w : Bytes) (x : ℕ) (matched : Bool)
    → All IsPlain p
    → match_bracket b x ≡ (matched, [])
    → matches (p ++ (b'[' ∷ b)) (p ++ (x ∷ w)) ≡ (if matched then panics else answer false)
unfolding matches
matches-at p b w x matched plain e =
    let fuel = length p + (length b + suc (length w) + 1) in
    let enough : suc (length (p ++ (b'[' ∷ b)) + length (p ++ (x ∷ w))) ≡ length p + suc fuel =
      omega (arith, length-append p (b'[' ∷ b), length-append p (x ∷ w)) in
    ap (λ n. match_inner n (p ++ (b'[' ∷ b)) (p ++ (x ∷ w))) enough
    ∙ plain_prefix (suc fuel) p (b'[' ∷ b) (x ∷ w) plain
    ∙ at_bracket fuel b w x matched e

-- A pattern of plain characters and then a bracket that is not closed, with members but no range,
-- on a value that begins with the same characters and has one more, `x`, where the bracket stands:
-- the matcher panics if `x` is one of the members, and answers no if it is not. If the bracket is
-- negated, the matcher panics just if `x` is none of the members.
pub matches-unclosed :
    (p q w : Bytes) (x n : ℕ)
    → All IsPlain p
    → All IsMember q
    → ((n == b'^') || (n == b'!')) ≡ true
    → (matches (p ++ (b'[' ∷ q)) (p ++ (x ∷ w)) ≡ (if names q x then panics else answer false))
      × (matches (p ++ (b'[' ∷ n ∷ q)) (p ++ (x ∷ w))
          ≡ (if names q x then answer false else panics))
matches-unclosed p q w x n plain members negated = (
  matches-at p q w x (names q x) plain (match_bracket-members q x members),
  matches-at p (n ∷ q) w x (not (names q x)) plain (match_bracket-negated n q x negated members)
      ∙ ground arith,
)
