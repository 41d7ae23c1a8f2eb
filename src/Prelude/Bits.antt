-- ===== src/Prelude/Bits.antt =====
-- The bits of a word: shifts, and a bit set to one or to zero. `set_bit x p` is `x | 1 << p`, and
-- `clear_bit x p` is `x & !(1 << p)`.
use Prim.Native.Nat.{ℕ, zero, suc, ◌+◌, ◌*◌, ◌/◌, ◌%◌, ◌^◌, ◌<◌}
use mathlib.Core.Path.{◌≡◌, refl, ap, ◌∙◌}
use native.Mathlib.Omega.{arith}
use cache_cat.Prelude.Tests.{◌==◌, if◌then◌else◌}

abbrev pub shr : ℕ → ℕ → ℕ
shr x zero = x
shr x (suc p) = shr (x / 2) p

abbrev pub set_bit : ℕ → ℕ → ℕ
set_bit x zero = x / 2 * 2 + 1
set_bit x (suc p) = set_bit (x / 2) p * 2 + x % 2

abbrev pub clear_bit : ℕ → ℕ → ℕ
clear_bit x zero = x / 2 * 2
clear_bit x (suc p) = clear_bit (x / 2) p * 2 + x % 2

abbrev pub write_bit : ℕ → ℕ → ℕ → ℕ
write_bit x p bit = if bit == 1 then set_bit x p else clear_bit x p

-- A bit that was written reads as it was written, and every other bit as before.
pub shr-set_bit : (x p q : ℕ) → shr (set_bit x p) q % 2 ≡ (if p == q then 1 else shr x q % 2)
shr-set_bit x zero zero = omega arith
shr-set_bit x zero (suc q) =
    let half : (x / 2 * 2 + 1) / 2 ≡ x / 2 = omega arith in
    ap (λ y. shr y q % 2) half ∙ ground arith
shr-set_bit x (suc p) zero = ground arith
shr-set_bit x (suc p) (suc q) =
    let half : (set_bit (x / 2) p * 2 + x % 2) / 2 ≡ set_bit (x / 2) p = omega arith in
    ap (λ y. shr y q % 2) half ∙ shr-set_bit (x / 2) p q ∙ ground arith

pub shr-clear_bit : (x p q : ℕ) → shr (clear_bit x p) q % 2 ≡ (if p == q then 0 else shr x q % 2)
shr-clear_bit x zero zero = omega arith
shr-clear_bit x zero (suc q) =
    let half : (x / 2 * 2) / 2 ≡ x / 2 = omega arith in ap (λ y. shr y q % 2) half ∙ ground arith
shr-clear_bit x (suc p) zero = ground arith
shr-clear_bit x (suc p) (suc q) =
    let half : (clear_bit (x / 2) p * 2 + x % 2) / 2 ≡ clear_bit (x / 2) p = omega arith in
    ap (λ y. shr y q % 2) half ∙ shr-clear_bit (x / 2) p q ∙ ground arith

pub shr-write_bit :
    (x p q bit : ℕ)
    → bit < 2
    → shr (write_bit x p bit) q % 2 ≡ (if p == q then bit else shr x q % 2)
shr-write_bit x p q zero h = shr-clear_bit x p q
shr-write_bit x p q (suc zero) h = shr-set_bit x p q
shr-write_bit x p q (suc (suc bit)) h = absurd (omega (arith, h))

-- `1 << p`
pub set_bit-zero : (p : ℕ) → set_bit 0 p ≡ 2 ^ p
set_bit-zero zero = refl
set_bit-zero (suc p) = omega (arith, set_bit-zero p)

pub clear_bit-zero : (p : ℕ) → clear_bit 0 p ≡ 0
clear_bit-zero zero = refl
clear_bit-zero (suc p) = omega (arith, clear_bit-zero p)
