-- ===== src/Tests/Globs.antt =====
-- The matcher of Glob.antt on a few patterns.
use cache_cat.Prelude.{◌≡◌, ◌≢◌, refl, arith, true, false, [], ◌∷◌, Bytes, bytes_eq, same}
use cache_cat.Glob.{answer, panics, no_fuel, bracket_loop, match_bracket, match_inner, matches}
use cache_cat.Glob.Total.{matches-total, matches-plain}
use cache_cat.Glob.Unclosed.{matches-unclosed}

some_patterns :
    (matches (b'a' ∷ b'*' ∷ b'c' ∷ []) (b'a' ∷ b'b' ∷ b'c' ∷ b'c' ∷ []) ≡ answer true)
    × (matches (b'[' ∷ b'a' ∷ b'-' ∷ b'c' ∷ b']' ∷ b'?' ∷ []) (b'b' ∷ b'x' ∷ []) ≡ answer true)
    × (matches (b'[' ∷ b'^' ∷ b'a' ∷ b']' ∷ []) (b'a' ∷ []) ≡ answer false)
unfolding matches match_inner match_bracket bracket_loop
some_patterns = (refl, refl, refl)

matches-total_example : matches (b'*' ∷ b'a' ∷ []) (b'b' ∷ b'a' ∷ []) ≢ no_fuel
matches-total_example = matches-total (b'*' ∷ b'a' ∷ []) (b'b' ∷ b'a' ∷ [])

abbrev ab : Bytes
ab = b'a' ∷ b'b' ∷ []

matches-plain_example : matches ab ab ≡ answer (same ab ab)
matches-plain_example = matches-plain ab ab (ground arith)

matches-unclosed_example :
    (matches (b'k' ∷ b'[' ∷ b'a' ∷ b'b' ∷ []) (b'k' ∷ b'b' ∷ []) ≡ panics)
    × (matches (b'k' ∷ b'[' ∷ b'^' ∷ b'a' ∷ b'b' ∷ []) (b'k' ∷ b'b' ∷ []) ≡ answer false)
matches-unclosed_example =
    matches-unclosed (b'k' ∷ []) (b'a' ∷ b'b' ∷ []) [] b'b' b'^' (ground arith) (ground arith) refl
