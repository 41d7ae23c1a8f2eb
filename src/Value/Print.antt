-- ===== src/Value/Print.antt =====
-- `i64::to_string`, as the commands use it, and that `parse_i64` reads it back.
use cache_cat.Prelude.{
  ℕ, zero, suc, ◌+◌, ◌-◌, ◌*◌, ◌/◌, ◌%◌, ◌^◌, ◌<◌, ◌≤◌, ◌≡◌, refl, ◌∙◌, ap, sym, subst, true, false,
  some, [], ◌∷◌, ◌++◌, Bytes, ltb, leb, ◌==◌, if◌then◌else◌, reverse, reverse-cons, arith, All,
  All-map, Bool-cases, inl, inr, length,
}
use mathlib.Core.List.{reverse-reverse}
use cache_cat.Value.Number.{
  digit, read_digits, read_number, read_i64, trim, trim_start, trim_end, parse_i64,
}

-- The decimal digits; 20 rounds are enough for any u64.
unfoldable pub print_digits : ℕ → ℕ → Bytes → Bytes
print_digits zero n rest = rest
print_digits (suc rounds) n rest =
    let more = print_digits rounds (n / 10) ((48 + n % 10) ∷ rest) in
    if ltb n 10 then (48 + n) ∷ rest else more

unfoldable pub to_string : ℕ → Bytes
unfolding print_digits
to_string n = if ltb n (2 ^ 63) then print_digits 20 n [] else 45 ∷ print_digits 20 (2 ^ 64 - n) []

abbrev pub IsDigit : ℕ → Type 0
IsDigit b = (48 ≤ b) × (b ≤ 57)

-- What has at most one digit more than `rounds`.
abbrev tens : ℕ → ℕ
tens zero = 10
tens (suc rounds) = 10 * tens rounds

read-digit :
    (n : ℕ) (rest : Bytes) → read_digits (n / 10) ((48 + n % 10) ∷ rest) ≡ read_digits n rest
unfolding read_digits
read-digit n rest =
    let value : n / 10 * 10 + ((48 + n % 10) - 48) ≡ n = omega arith in
    let ok : digit (48 + n % 10) ≡ true = ground arith in rw (ok, value, read_digits) refl

read-print_digits :
    (rounds n : ℕ) (rest : Bytes)
    → n < tens rounds
    → read_digits 0 (print_digits (suc rounds) n rest) ≡ read_digits n rest
unfolding print_digits read_digits
read-print_digits zero n rest h = ground (arith, h)
read-print_digits (suc rounds) n rest h = elim (Bool-cases (ltb n 10)) [
  | inl small ↦ ground (arith, small)
  | inr big ↦
      simp (big, print_digits)
        (read-print_digits rounds (n / 10) ((48 + n % 10) ∷ rest) (omega (arith, h))
          ∙ read-digit n rest)
]

print_digits-All :
    (rounds n : ℕ) (rest : Bytes) → All IsDigit rest → All IsDigit (print_digits rounds n rest)
unfolding print_digits
print_digits-All zero n rest h = h
print_digits-All (suc rounds) n rest h = elim (Bool-cases (ltb n 10)) [
  | inl small ↦ rw (small, print_digits) ((omega arith, ground (arith, small)), h)
  | inr big ↦
      rw (big, print_digits) (print_digits-All rounds (n / 10) _ ((omega arith, omega arith), h))
]

print_digits-more :
    (rounds n : ℕ) (d : ℕ) (rest : Bytes)
    → (x : ℕ) × (xs : Bytes) × (print_digits rounds n (d ∷ rest) ≡ x ∷ xs)
unfolding print_digits
print_digits-more zero n d rest = (d, rest, refl)
print_digits-more (suc rounds) n d rest = elim (Bool-cases (ltb n 10)) [
  | inl small ↦ (48 + n, d ∷ rest, rw (small, print_digits) refl)
  | inr big ↦ rw (big, print_digits) (print_digits-more rounds (n / 10) (48 + n % 10) (d ∷ rest))
]

print_digits-some : (n : ℕ) → (x : ℕ) × (xs : Bytes) × (print_digits 20 n [] ≡ x ∷ xs)
unfolding print_digits
print_digits-some n = elim (Bool-cases (ltb n 10)) [
  | inl small ↦ (48 + n, [], rw (small, print_digits) refl)
  | inr big ↦ rw (big, print_digits) (print_digits-more 19 (n / 10) (48 + n % 10) [])
]

reverse-IsDigit :
    (x : ℕ) (xs : Bytes)
    → All IsDigit (x ∷ xs)
    → (c : ℕ) × (t : Bytes) × (reverse (x ∷ xs) ≡ c ∷ t) × IsDigit c
reverse-IsDigit x [] h = (x, [], refl, h.0)
reverse-IsDigit x (y ∷ ys) h =
    let (c, t, eq, d) = reverse-IsDigit y ys h.1 in
    (c, t ++ (x ∷ []), reverse-cons x (y ∷ ys) ∙ ap (λ l. l ++ (x ∷ [])) eq, d)

trim_start-same : (rounds a : ℕ) (s : Bytes) → 33 ≤ a → a < 128 → trim_start rounds (a ∷ s) ≡ a ∷ s
unfolding trim_start
trim_start-same zero a s lo hi = refl
trim_start-same (suc rounds) a [] lo hi = ground (arith, lo, hi)
trim_start-same (suc rounds) a (b ∷ []) lo hi = ground (arith, lo, hi)
trim_start-same (suc rounds) a (b ∷ c ∷ s) lo hi = ground (arith, lo, hi)

trim_end-same : (rounds a : ℕ) (s : Bytes) → 33 ≤ a → a < 128 → trim_end rounds (a ∷ s) ≡ a ∷ s
unfolding trim_end
trim_end-same zero a s lo hi = refl
trim_end-same (suc rounds) a [] lo hi = ground (arith, lo, hi)
trim_end-same (suc rounds) a (b ∷ []) lo hi = ground (arith, lo, hi)
trim_end-same (suc rounds) a (b ∷ c ∷ s) lo hi = ground (arith, lo, hi)

-- A text of digits, with one more character in front or without, is not trimmed.
trim-same :
    (a x : ℕ) (xs : Bytes)
    → 33 ≤ a
    → a < 128
    → All IsDigit (x ∷ xs)
    → (trim (x ∷ xs) ≡ x ∷ xs) × (trim (a ∷ x ∷ xs) ≡ a ∷ x ∷ xs)
unfolding trim
trim-same a x xs lo hi digits =
    let (c, t, eq, d) = reverse-IsDigit x xs digits in
    let eq' : reverse (a ∷ x ∷ xs) ≡ c ∷ (t ++ (a ∷ [])) =
      reverse-cons a (x ∷ xs) ∙ ap (λ l. l ++ (a ∷ [])) eq in
    (
      rw
          (
            trim_start-same (length (x ∷ xs)) x xs (omega (arith, digits)) (omega (arith, digits)),
            trim,
          )
          (ap reverse (
              ap (trim_end (length (x ∷ xs))) eq
              ∙ trim_end-same (length (x ∷ xs)) c t (omega (arith, d)) (omega (arith, d))
              ∙ sym eq)
            ∙ reverse-reverse (x ∷ xs)),
      rw (trim_start-same (length (a ∷ x ∷ xs)) a (x ∷ xs) lo hi, trim)
          (ap reverse (
              ap (trim_end (length (a ∷ x ∷ xs))) eq'
              ∙ trim_end-same (length (a ∷ x ∷ xs)) c (t ++ (a ∷ [])) (omega (arith, d))
                  (omega (arith, d))
              ∙ sym eq')
            ∙ reverse-reverse (a ∷ x ∷ xs)),
    )

-- The digits of a number that fits are some digits, and read as the number.
printed :
    (n : ℕ)
    → n < 2 ^ 64
    → (x : ℕ) × (xs : Bytes) × (print_digits 20 n [] ≡ x ∷ xs)
      × (read_digits 0 (x ∷ xs) ≡ some n)
      × All IsDigit (x ∷ xs)
printed n h =
    let (x, xs, eq) = print_digits-some n in
    (
      x,
      xs,
      eq,
      ap (read_digits 0) (sym eq)
          ∙ read-print_digits 19 n [] (omega (arith, h))
          ∙ (unfold read_digits in refl),
      subst (All IsDigit) eq (print_digits-All 20 n [] tt),
    )

read_i64-digits :
    (x n : ℕ) (xs : Bytes)
    → All IsDigit (x ∷ xs)
    → read_digits 0 (x ∷ xs) ≡ some n
    → n < 2 ^ 63
    → read_i64 (x ∷ xs) ≡ some n
unfolding read_i64 read_number
read_i64-digits x n xs digits value h =
    let not_minus : (x == 45) ≡ false = ground (arith, digits.0) in
    let not_plus : (x == 43) ≡ false = ground (arith, digits.0) in
    let fits : ltb n (2 ^ 63) ≡ true = ground (arith, h) in
    rw (not_minus, not_plus, read_i64) (rw (value, read_number) (rw fits refl))

read_i64-minus :
    (x n : ℕ) (xs : Bytes)
    → read_digits 0 (x ∷ xs) ≡ some n
    → n ≤ 2 ^ 63
    → read_i64 (45 ∷ x ∷ xs) ≡ some ((2 ^ 64 - n) % 2 ^ 64)
unfolding read_i64 read_number
read_i64-minus x n xs value h =
    let fits : leb n (2 ^ 63) ≡ true = ground (arith, h) in
    rw (value, read_i64, read_number) (rw fits refl)

-- A number that is printed is read back: on the 64 bits of any i64, `parse_i64` undoes `to_string`.
pub parse_i64-to_string : (n : ℕ) → n < 2 ^ 64 → parse_i64 (to_string n) ≡ some n
unfolding parse_i64 to_string
parse_i64-to_string n h = elim (Bool-cases (ltb n (2 ^ 63))) [
  | inl small ↦
      (let (x, xs, eq, value, digits) = printed n h in
        rw (small, eq, (trim-same 45 x xs (omega arith) (omega arith) digits).0, to_string)
          (read_i64-digits x n xs digits value (ground (arith, small))))
  | inr big ↦
      (let (x, xs, eq, value, digits) = printed (2 ^ 64 - n) (ground (arith, big)) in
        rw (big, eq, (trim-same 45 x xs (omega arith) (omega arith) digits).1, to_string)
          (read_i64-minus x (2 ^ 64 - n) xs value (ground (arith, big))
            ∙ ap some (ground (arith, big, h))))
]

-- The same without the trimming, and what a printed number is made of.
pub read_i64-to_string : (n : ℕ) → n < 2 ^ 64 → read_i64 (to_string n) ≡ some n
unfolding to_string
read_i64-to_string n h = elim (Bool-cases (ltb n (2 ^ 63))) [
  | inl small ↦
      (let (x, xs, eq, value, digits) = printed n h in
        rw (small, eq, to_string) (read_i64-digits x n xs digits value (ground (arith, small))))
  | inr big ↦
      (let (x, xs, eq, value, digits) = printed (2 ^ 64 - n) (ground (arith, big)) in
        rw (big, eq, to_string)
          (read_i64-minus x (2 ^ 64 - n) xs value (ground (arith, big))
            ∙ ap some (ground (arith, big, h))))
]

pub to_string-All :
    (P : ℕ → Type 0) → ((b : ℕ) → IsDigit b → P b) → P 45 → (n : ℕ) → All P (to_string n)
unfolding to_string
to_string-All P f minus n = elim (Bool-cases (ltb n (2 ^ 63))) [
  | inl small ↦ rw (small, to_string) (All-map IsDigit P _ f (print_digits-All 20 n [] tt))
  | inr big ↦
      rw (big, to_string) (minus, All-map IsDigit P _ f (print_digits-All 20 (2 ^ 64 - n) [] tt))
]

pub to_string-some : (n : ℕ) → 1 ≤ length (to_string n)
unfolding to_string
to_string-some n = elim (Bool-cases (ltb n (2 ^ 63))) [
  | inl small ↦
      (let (x, xs, eq) = print_digits-some n in rw (small, to_string) (rw eq (omega arith)))
  | inr big ↦ rw (big, to_string) (omega arith)
]
