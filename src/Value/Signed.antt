-- ===== src/Value/Signed.antt =====
-- An i64 as its 64 bits in two's complement: the sums, differences and comparisons that the
-- commands use. Sums and differences wrap around, as a release build has them.
use cache_cat.Prelude.{ℕ, ◌+◌, ◌-◌, ◌%◌, ◌^◌, Bool, ltb, leb, if◌then◌else◌}

abbrev pub add_i64 : ℕ → ℕ → ℕ
add_i64 a b = (a + b) % 2 ^ 64

abbrev pub sub_i64 : ℕ → ℕ → ℕ
sub_i64 a b = (a + (2 ^ 64 - b)) % 2 ^ 64

abbrev pub is_negative : ℕ → Bool
is_negative a = leb (2 ^ 63) a

-- The order of i64: that of the bits with the first one flipped.
abbrev pub lt_i64 : ℕ → ℕ → Bool
lt_i64 a b = ltb ((a + 2 ^ 63) % 2 ^ 64) ((b + 2 ^ 63) % 2 ^ 64)

abbrev pub max_i64 : ℕ → ℕ → ℕ
max_i64 a b = if lt_i64 a b then b else a

abbrev pub min_i64 : ℕ → ℕ → ℕ
min_i64 a b = if lt_i64 b a then b else a
