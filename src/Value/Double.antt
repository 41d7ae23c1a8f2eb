-- ===== src/Value/Double.antt =====
-- An f64 as its 64 bits: the comparisons of the language, which no NaN passes.
use cache_cat.Prelude.{ℕ, ◌+◌, ◌-◌, ◌*◌, ◌%◌, ◌^◌, Bool, not, ◌&&◌, ltb, leb, ◌==◌, if◌then◌else◌}

-- All ones in the exponent, and a fraction.
abbrev pub is_nan : ℕ → Bool
is_nan x = ltb (2047 * 2 ^ 52) (x % 2 ^ 63)

-- The place of a number that is no NaN: both zeros have the same.
abbrev pub place : ℕ → ℕ
place x = if leb (2 ^ 63) x then 2 ^ 63 - x % 2 ^ 63 else 2 ^ 63 + x

abbrev pub lt_f64 : ℕ → ℕ → Bool
lt_f64 a b = not (is_nan a) && not (is_nan b) && ltb (place a) (place b)

abbrev pub le_f64 : ℕ → ℕ → Bool
le_f64 a b = not (is_nan a) && not (is_nan b) && leb (place a) (place b)

abbrev pub eq_f64 : ℕ → ℕ → Bool
eq_f64 a b = not (is_nan a) && not (is_nan b) && (place a == place b)
