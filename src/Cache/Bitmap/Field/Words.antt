-- ===== src/Cache/Bitmap/Field/Words.antt =====
-- Powers of two and residues: the numbers that a field of some width can hold.
use cache_cat.Prelude.{
  ℕ, zero, suc, ◌+◌, ◌-◌, ◌*◌, ◌/◌, ◌%◌, ◌^◌, ◌<◌, ◌≤◌, ◌≡◌, ◌∙◌, ap, sym, subst, ltb, ◌==◌, arith,
  Bool-cases, inl, inr,
}
use Prim.Native.Nat.{◌∣◌}
use native.Mathlib.Nat.{
  dvd-mul_right, mul-le-mul_left, mul_comm, mul_assoc, mul-add, mod-mod_of_dvd,
  mul-add-mod_self_left, mod-eq_of_lt, div-add-mod, pow-le-pow_right, pow-suc, mod-lt,
}
use cache_cat.Value.Field.{ℤ, as_i64, rem_euclid}

pub pow-pos : (n : ℕ) → 0 < 2 ^ n
pow-pos n = omega (arith, pow-le-pow_right {n = 2} (omega arith) {i = 0} {j = n} (omega arith))

-- The number of values, and that a bit of the sign halves it.
pub half : (n : ℕ) → 0 < n → 2 ^ n ≡ 2 * 2 ^ (n - 1)
half zero h = absurd (omega (arith, h))
half (suc n) h =
    let less : suc n - 1 ≡ n = omega arith in
    pow-suc 2 n ∙ mul_comm (2 ^ n) 2 ∙ ap (λ m. 2 * 2 ^ m) (sym less)

pub mod-double : (d x : ℕ) → 0 < d → x % (d * 2) ≡ x / d % 2 * d + x % d
mod-double d x h =
    let q : ℕ = x / d in
    let r : ℕ = x % d in
    let whole : d * q + r ≡ x = div-add-mod x d in
    let two : 2 * (q / 2) + q % 2 ≡ q = div-add-mod q 2 in
    let below : r < d = mod-lt x h in
    let split : x ≡ d * 2 * (q / 2) + (q % 2 * d + r) =
      sym whole
      ∙ ap (λ k. d * k + r) (sym two)
      ∙ omega (arith, mul-add d (2 * (q / 2)) (q % 2), mul_assoc d 2 (q / 2), mul_comm d (q % 2)) in
    let fits : q % 2 * d + r < d * 2 = elim (Bool-cases (q % 2 == 0)) [
      | inl even ↦ (let b : q % 2 ≡ 0 = ground (arith, even) in rw b (omega (arith, below)))
      | inr odd ↦ (let b : q % 2 ≡ 1 = ground (arith, odd) in rw b (omega (arith, below)))
    ] in
    ap (λ y. y % (d * 2)) split
    ∙ mul-add-mod_self_left (d * 2) (q / 2) (q % 2 * d + r)
    ∙ mod-eq_of_lt fits

-- The facts on a width that the proofs below read: the number of values divides that of an i64.
pub pow-split : (n k : ℕ) → 2 ^ (n + k) ≡ 2 ^ n * 2 ^ k
pow-split n zero = ap (λ m. 2 ^ m) {y = n} (omega arith) ∙ omega arith
pow-split n (suc k) =
    ap (λ m. 2 ^ m) {y = suc (n + k)} (omega arith)
    ∙ pow-suc 2 (n + k)
    ∙ ap (λ m. m * 2) (pow-split n k)
    ∙ mul_assoc (2 ^ n) (2 ^ k) 2
    ∙ ap (λ m. 2 ^ n * m) (sym (pow-suc 2 k))

pub whole_words : (n : ℕ) → n ≤ 64 → 2 ^ 64 ≡ 2 ^ n * 2 ^ (64 - n)
whole_words n h =
    ap (λ m. 2 ^ m) {x = 64} {y = n + (64 - n)} (omega (arith, h)) ∙ pow-split n (64 - n)

pub words : (n : ℕ) → n ≤ 64 → 2 ^ n ∣ 2 ^ 64
words n h = subst (λ m. 2 ^ n ∣ m) (sym (whole_words n h)) (dvd-mul_right (2 ^ n) (2 ^ (64 - n)))

-- Taken from all ones, each residue is taken from all ones.
pub complement : (d k m : ℕ) → 0 < d → m < d * k → (d * k - 1 - m) % d ≡ d - 1 - m % d
complement d k m pos below =
    let q : ℕ = m / d in
    let r : ℕ = m % d in
    let whole : d * q + r ≡ m = div-add-mod m d in
    let small : r < d = mod-lt m pos in
    let fewer : q < k = elim (Bool-cases (ltb q k)) [
      | inl less ↦ ground (arith, less)
      | inr most ↦
          let le : k ≤ q = ground (arith, most) in
          absurd (omega (arith, below, whole, mul-le-mul_left d le))
    ] in
    let rest : ℕ = k - 1 - q in
    let parts : k ≡ q + (1 + rest) = omega (arith, fewer) in
    let product : d * k ≡ d * q + (d + d * rest) =
      ap (λ x. d * x) parts ∙ omega (arith, mul-add d q (1 + rest), mul-add d 1 rest) in
    let split : d * k - 1 - m ≡ d * rest + (d - 1 - r) = omega (arith, product, whole, small) in
    ap (λ x. x % d) split
    ∙ mul-add-mod_self_left d rest (d - 1 - r)
    ∙ mod-eq_of_lt (omega (arith, small))

-- What the least bits of the 64 bits of an integer are.
pub as_i64-mod : (n : ℕ) (value : ℤ) → n ≤ 64 → as_i64 value % 2 ^ n ≡ rem_euclid value (2 ^ n)
as_i64-mod n (ℤ.pos v) h = mod-mod_of_dvd (2 ^ n) v (words n h)
as_i64-mod n (ℤ.negsuc v) h =
    let m : ℕ = v % 2 ^ 64 in
    let below : m < 2 ^ n * 2 ^ (64 - n) = subst (λ w. m < w) (whole_words n h) (omega arith) in
    ap (λ w. (w - 1 - m) % 2 ^ n) (whole_words n h)
    ∙ complement (2 ^ n) (2 ^ (64 - n)) m (pow-pos n) below
    ∙ ap (λ r. 2 ^ n - 1 - r) (mod-mod_of_dvd (2 ^ n) v (words n h))

-- The sign halves the values, and what is left of them is at most half of an i64.
pub halves :
    (n : ℕ)
    → 0 < n
    → n ≤ 64
    → (2 ^ n ≡ 2 * 2 ^ (n - 1)) × (0 < 2 ^ (n - 1)) × (2 ^ (n - 1) ≤ 2 ^ 63)
halves n h k = (
  half n h,
  pow-pos (n - 1),
  pow-le-pow_right {n = 2} (omega arith) {i = n - 1} {j = 63} (omega (arith, k)),
)

pub narrow : (n : ℕ) → n ≤ 63 → (0 < 2 ^ n) × (2 ^ n ≤ 2 ^ 63)
narrow n h = (pow-pos n, pow-le-pow_right {n = 2} (omega arith) {i = n} {j = 63} h)
