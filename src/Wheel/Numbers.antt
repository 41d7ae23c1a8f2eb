-- ===== src/Wheel/Numbers.antt =====
-- The arithmetic of the wheel: what a level's span and a shift by a level say of two instants.
use cache_cat.Prelude.{
  ℕ, zero, suc, ◌+◌, ◌*◌, ◌/◌, ◌%◌, ◌^◌, ◌≤◌, ◌<◌, ◌≡◌, ◌≢◌, sym, ◌⊎◌, inl, inr, arith,
}
use cache_cat.Wheel.{level_for_delta}
use native.Mathlib.Decide.{dec_lt}
use native.Mathlib.Numerals.{towards_suc}
use native.Mathlib.Nat.{
  div-lt_iff_lt-mul, lt-div-mul-add, mul_comm, div-div-eq-div-mul, pow-le-pow_right,
}

-- The width of a slot of a level.
abbrev pub width : ℕ → ℕ
width level = 2 ^ (level * 8)

pub width-suc : (level : ℕ) → width (suc level) ≡ 256 * width level
width-suc level =
    let e : suc level * 8 ≡ level * 8 + 8 = omega arith in rw e (simp towards_suc (omega arith))

pub next-div : (c d : ℕ) → 0 < d → (c + 1) % d ≢ 0 → (c + 1) / d ≡ c / d
next-div c d h n = grind arith

pub next-div_zero : (c d : ℕ) → 0 < d → (c + 1) % d ≡ 0 → (c + 1) / d ≡ c / d + 1
next-div_zero c d h n = grind arith

pub same_slot : (e c d : ℕ) → 0 < d → e / d ≡ c / d → c % d ≡ 0 → (c ≤ e) × (e < c + d)
same_slot e c d h n z = grind arith

pub far_apart : (e c d : ℕ) → 0 < d → c + d ≤ e → c / d < e / d
far_apart e c d h n = grind arith

pub not_too_far : (e c d : ℕ) → 0 < d → e < c + 256 * d → e / d ≤ c / d + 256
not_too_far e c d h n =
    let below : e / d < c / d + 257 =
      (div-lt_iff_lt-mul h).1 (omega (arith, lt-div-mul-add {a = c} h)) in
    omega arith

pub width_pos : (level : ℕ) → 0 < width level
width_pos zero = omega arith
width_pos (suc level) = omega (arith, width-suc level, width_pos level)

pub div-width-suc : (c level : ℕ) → c / width (suc level) ≡ c / width level / 256
div-width-suc c level =
    rw (width-suc level, mul_comm 256 (width level)) (sym (div-div-eq-div-mul c (width level) 256))

-- Where the lower bits of a level are not all zero after a step, no higher level moves either.
pub next-div_above :
    (c level more : ℕ)
    → (c + 1) % width level ≢ 0
    → (c + 1) / width (more + level) ≡ c / width (more + level)
next-div_above c level zero n =
    let e : 0 + level ≡ level = omega arith in rw e (next-div c (width level) (width_pos level) n)
next-div_above c level (suc more) n =
    let e : suc more + level ≡ suc (more + level) = omega arith in
    rw e (
      omega (
        arith,
        div-width-suc c (more + level),
        div-width-suc (c + 1) (more + level),
        next-div_above c level more n,
      ))

pub level-lt : (delta : ℕ) → level_for_delta delta < 8
unfolding level_for_delta
level-lt delta = ground arith

-- The level of a distance: its width is reached, that of the next level is not.
pub level-width : (delta : ℕ) → delta < 2 ^ 64 → delta < 256 * width (level_for_delta delta)
unfolding level_for_delta
level-width delta h = ground arith

pub width-level :
    (delta : ℕ) → (level_for_delta delta ≡ 0) ⊎ (width (level_for_delta delta) ≤ delta)
unfolding level_for_delta
width-level delta = ground arith

pub width_mono : (level level' : ℕ) → level ≤ level' → width level ≤ width level'
width_mono level level' h = pow-le-pow_right (omega arith) (omega arith)

-- A distance below the width of a level is filed below that level.
pub level-lt_of_width : (delta j : ℕ) → 0 < j → delta < width j → level_for_delta delta < j
level-lt_of_width delta j hj h = elim (width-level delta) [
  | inl z ↦ omega arith
  | inr far ↦ elim (dec_lt (level_for_delta delta) j) [
    | yes l ↦ l
    | no nl ↦ absurd (omega (arith, width_mono j (level_for_delta delta) (omega arith)))
  ]
]

pub lt_of_div-lt : (c e d : ℕ) → 0 < d → c / d < e / d → c < e
lt_of_div-lt c e d h lt = grind arith
