-- ===== src/Glob/Total.antt =====
-- The matcher of patterns comes to an end, and what it does on patterns without special characters.
use cache_cat.Prelude.{
  ℕ, zero, suc, ◌+◌, ◌<◌, ◌≤◌, ◌≡◌, ◌≢◌, refl, Bool, false, ◌&&◌, ◌||◌, [], ◌∷◌, Bytes, bytes_eq,
  same, leb, ◌==◌, length, arith, All,
}
use cache_cat.Glob.{
  Match, answer, panics, no_fuel, bracket_loop, match_bracket, match_inner, matches,
}

bracket_loop-length :
    (rounds : ℕ) (p : Bytes) (x : ℕ) (matched : Bool)
    → length (bracket_loop rounds p x matched).1 ≤ length p
unfolding bracket_loop
bracket_loop-length zero p x matched = omega arith
bracket_loop-length (suc rounds) [] x matched = omega arith
bracket_loop-length (suc rounds) (c ∷ []) x matched =
    ground (arith, bracket_loop-length rounds [] x (matched || (c == x)))
bracket_loop-length (suc rounds) (c ∷ d ∷ []) x matched =
    ground (arith, bracket_loop-length rounds (d ∷ []) x (matched || (c == x)))
bracket_loop-length (suc rounds) (c ∷ d ∷ e ∷ p) x matched = ground (
  arith,
  bracket_loop-length rounds (d ∷ e ∷ p) x (matched || (c == x)),
  bracket_loop-length rounds p x (matched || (leb c x && leb x e)),
)

match_bracket-length : (p : Bytes) (x : ℕ) → length (match_bracket p x).1 ≤ length p
unfolding match_bracket
match_bracket-length [] x = ground (arith, bracket_loop-length 0 [] x false)
match_bracket-length (c ∷ p) x = ground (
  arith,
  bracket_loop-length (suc (length p)) p x false,
  bracket_loop-length (suc (length p)) (c ∷ p) x false,
)

abbrev closed : ℕ → Bytes → Bytes → Match
closed fuel [] v = panics
closed fuel (d ∷ q) v = match_inner fuel q v

closed-enough :
    (fuel : ℕ) (o v : Bytes)
    → ((q : Bytes) → length q + length v < fuel → match_inner fuel q v ≢ no_fuel)
    → length o + length v < suc fuel
    → closed fuel o v ≢ no_fuel
closed-enough fuel [] v f h = ground arith
closed-enough fuel (d ∷ q) v f h = f q (omega (arith, h))

-- Fuel that exceeds the two lengths is enough.
enough : (fuel : ℕ) (p v : Bytes) → length p + length v < fuel → match_inner fuel p v ≢ no_fuel
unfolding match_inner
enough zero p v h = ground (arith, h)
enough (suc fuel) [] [] h = ground arith
enough (suc fuel) [] (x ∷ v) h = ground arith
enough (suc fuel) (c ∷ []) [] h = ground (arith, h, enough fuel [] [])
enough (suc fuel) (c ∷ []) (x ∷ v) h = ground (
  arith,
  h,
  enough fuel [] v,
  enough fuel [] (x ∷ v),
  enough fuel (c ∷ []) v,
  closed-enough fuel (match_bracket [] x).1 v (λ q. enough fuel q v)
      (omega (arith, h, match_bracket-length [] x)),
)
enough (suc fuel) (c ∷ d ∷ p) [] h = ground (arith, h, enough fuel (d ∷ p) [])
enough (suc fuel) (c ∷ d ∷ p) (x ∷ v) h = ground (
  arith,
  h,
  enough fuel (d ∷ p) v,
  enough fuel p v,
  enough fuel (d ∷ p) (x ∷ v),
  enough fuel (c ∷ d ∷ p) v,
  closed-enough fuel (match_bracket (d ∷ p) x).1 v (λ q. enough fuel q v)
      (omega (arith, h, match_bracket-length (d ∷ p) x)),
)

-- The matcher comes to an end on every pattern and value.
pub matches-total : (pattern value : Bytes) → matches pattern value ≢ no_fuel
unfolding matches
matches-total pattern value =
    enough (suc (length pattern + length value)) pattern value (omega arith)

-- A character that stands for itself.
abbrev pub IsPlain : ℕ → Type 0
IsPlain c = (c ≢ b'*') × (c ≢ b'?') × (c ≢ b'[') × (c ≢ b'\\')

plain_inner :
    (fuel : ℕ) (p v : Bytes)
    → length p < fuel
    → All IsPlain p
    → match_inner fuel p v ≡ answer (same p v)
unfolding match_inner
plain_inner zero p v h plain = absurd (omega (arith, h))
plain_inner (suc fuel) [] [] h plain = refl
plain_inner (suc fuel) [] (x ∷ v) h plain = refl
plain_inner (suc fuel) (c ∷ p) [] h plain = ground (arith, plain.0)
plain_inner (suc fuel) (c ∷ p) (x ∷ v) h plain =
    ground (arith, plain.0, plain_inner fuel p v (omega (arith, h)) plain.1)

-- A pattern without special characters matches exactly the value that is equal to it.
pub matches-plain :
    (pattern value : Bytes)
    → All IsPlain pattern
    → matches pattern value ≡ answer (same pattern value)
unfolding matches
matches-plain pattern value plain =
    plain_inner (suc (length pattern + length value)) pattern value (omega arith) plain
