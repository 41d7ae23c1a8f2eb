-- ===== src/Value/Utf8/Read.antt =====
-- A text that is written in UTF-8 is read back.
use Prim.Native.Char.{Char, char, code}
use Prim.Native.Nat.{Ordering, compare}
use Prim.Native.String.{String}
use native.Mathlib.Omega.{compare-lt}
use cache_cat.Prelude.{
  ℕ, zero, suc, ◌+◌, ◌-◌, ◌*◌, ◌/◌, ◌%◌, ◌<◌, ◌≤◌, ◌≡◌, refl, ◌⊎◌, inl, inr, true, false, ◌&&◌, ◌∷◌,
  ◌++◌, Bytes, ltb, leb, length, length-append, arith, Bool-cases,
}
use cache_cat.Value.Utf8.{
  encode_code, as_bytes, continues, second3, second4, next_code, Both, Scalar, pick_both, pick,
  char_of, read_text, from_utf8_lossy,
}

pick_both-same :
    (p q : Ordering) (make : Both p q → Char) (s : Both p q) → pick_both p q make ≡ make s
pick_both-same Ordering.lt Ordering.lt make s = refl
pick_both-same Ordering.lt Ordering.eq make s = absurd s
pick_both-same Ordering.lt Ordering.gt make s = absurd s
pick_both-same Ordering.eq q make s = absurd s
pick_both-same Ordering.gt q make s = absurd s

pick-same :
    (o p q : Ordering) (make : Scalar o p q → Char) (s : Scalar o p q) → pick o p q make ≡ make s
pick-same Ordering.lt p q make s = refl
pick-same Ordering.eq p q make s = pick_both-same p q make s
pick-same Ordering.gt p q make s = pick_both-same p q make s

char_of-code : (c : Char) → char_of (code c) ≡ c
char_of-code (char n s) =
    pick-same (compare n 55296) (compare 57343 n) (compare n 1114112) (λ s. char n s) s

-- What a character's number is.
abbrev InRange : ℕ → Type 0
InRange n = (n < 55296) ⊎ ((57343 < n) × (n < 1114112))

Both-range :
    (n : ℕ) (p q : Ordering) → compare 57343 n ≡ p → compare n 1114112 ≡ q → Both p q → InRange n
Both-range n Ordering.lt Ordering.lt e f s = inr (compare-lt 57343 n e, compare-lt n 1114112 f)
Both-range n Ordering.lt Ordering.eq e f s = absurd s
Both-range n Ordering.lt Ordering.gt e f s = absurd s
Both-range n Ordering.eq q e f s = absurd s
Both-range n Ordering.gt q e f s = absurd s

Scalar-range :
    (n : ℕ) (o p q : Ordering)
    → compare n 55296 ≡ o
    → compare 57343 n ≡ p
    → compare n 1114112 ≡ q
    → Scalar o p q
    → InRange n
Scalar-range n Ordering.lt p q d e f s = inl (compare-lt n 55296 d)
Scalar-range n Ordering.eq p q d e f s = Both-range n p q e f s
Scalar-range n Ordering.gt p q d e f s = Both-range n p q e f s

code_range : (c : Char) → InRange (code c)
code_range (char n s) =
    Scalar-range n (compare n 55296) (compare 57343 n) (compare n 1114112) refl refl refl s

next_code-two :
    (a b n : ℕ) (s : Bytes)
    → 194 ≤ a
    → a ≤ 223
    → continues b ≡ true
    → (a - 192) * 64 + (b - 128) ≡ n
    → next_code a (b ∷ s) ≡ (n, s)
unfolding next_code
next_code-two a b n s lo hi c e =
    let big : ltb a 128 ≡ false = ground (arith, lo) in
    let here : (leb 194 a && leb a 223) ≡ true = ground (arith, lo, hi) in
    rw (big, here, next_code) (rw c (rw e refl))

next_code-three :
    (a b c n : ℕ) (s : Bytes)
    → 224 ≤ a
    → a ≤ 239
    → second3 a b ≡ true
    → continues c ≡ true
    → (a - 224) * 4096 + (b - 128) * 64 + (c - 128) ≡ n
    → next_code a (b ∷ c ∷ s) ≡ (n, s)
unfolding next_code
next_code-three a b c n s lo hi x y e =
    let big : ltb a 128 ≡ false = ground (arith, lo) in
    let past : (leb 194 a && leb a 223) ≡ false = ground (arith, lo) in
    let here : (leb 224 a && leb a 239) ≡ true = ground (arith, lo, hi) in
    rw (big, past, here, next_code) (rw x (rw y (rw e refl)))

next_code-four :
    (a b c d n : ℕ) (s : Bytes)
    → 240 ≤ a
    → a ≤ 244
    → second4 a b ≡ true
    → continues c ≡ true
    → continues d ≡ true
    → (a - 240) * 262144 + (b - 128) * 4096 + (c - 128) * 64 + (d - 128) ≡ n
    → next_code a (b ∷ c ∷ d ∷ s) ≡ (n, s)
unfolding next_code
next_code-four a b c d n s lo hi x y z e =
    let big : ltb a 128 ≡ false = ground (arith, lo) in
    let past : (leb 194 a && leb a 223) ≡ false = ground (arith, lo) in
    let past' : (leb 224 a && leb a 239) ≡ false = ground (arith, lo) in
    let here : (leb 240 a && leb a 244) ≡ true = ground (arith, lo, hi) in
    rw (big, past, past', here, next_code) (rw x (rw y (rw z (rw e refl))))

continues_rest : (n : ℕ) → continues (128 + n % 64) ≡ true
continues_rest n = ground arith

second3_lem :
    (n : ℕ) → 2048 ≤ n → n < 65536 → InRange n → second3 (224 + n / 4096) (128 + n / 64 % 64) ≡ true
second3_lem n lo hi h = ground (arith, lo, hi, h)

second4_lem :
    (n : ℕ) → 65536 ≤ n → InRange n → second4 (240 + n / 262144) (128 + n / 4096 % 64) ≡ true
second4_lem n lo h = ground (arith, lo, h)

next_code-encode :
    (n : ℕ) (s : Bytes)
    → InRange n
    → (a : ℕ) × (t : Bytes) × (encode_code n ++ s ≡ a ∷ t) × (next_code a t ≡ (n, s))
unfolding next_code
next_code-encode n s h = elim (Bool-cases (ltb n 128)) [
  | inl one ↦ rw one (n, s, refl, rw one refl)
  | inr more ↦ elim (Bool-cases (ltb n 2048)) [
    | inl two ↦
        rw (more, two)
          (
            192 + n / 64,
            (128 + n % 64) ∷ s,
            refl,
            next_code-two (192 + n / 64) (128 + n % 64) n s (ground (arith, more))
                (ground (arith, two)) (continues_rest n) (omega arith),
          )
    | inr more' ↦ elim (Bool-cases (ltb n 65536)) [
      | inl three ↦
          rw (more, more', three)
            (
              224 + n / 4096,
              (128 + n / 64 % 64) ∷ (128 + n % 64) ∷ s,
              refl,
              next_code-three (224 + n / 4096) (128 + n / 64 % 64) (128 + n % 64) n s (omega arith)
                  (ground (arith, three))
                  (second3_lem n (ground (arith, more')) (ground (arith, three)) h)
                  (continues_rest n) (omega arith),
            )
      | inr four ↦
          rw (more, more', four)
            (
              240 + n / 262144,
              (128 + n / 4096 % 64) ∷ (128 + n / 64 % 64) ∷ (128 + n % 64) ∷ s,
              refl,
              next_code-four (240 + n / 262144) (128 + n / 4096 % 64) (128 + n / 64 % 64)
                  (128 + n % 64) n s (omega arith) (ground (arith, h))
                  (second4_lem n (ground (arith, four)) h) (continues_rest (n / 64))
                  (continues_rest n) (omega arith),
            )
    ]
  ]
]

encode_code-pos : (n : ℕ) → 1 ≤ length (encode_code n)
encode_code-pos n = ground arith

read_text-as_bytes :
    (s : String) (rounds : ℕ) → length (as_bytes s) ≤ rounds → read_text rounds (as_bytes s) ≡ s
unfolding read_text as_bytes
read_text-as_bytes String.[] zero h = refl
read_text-as_bytes String.[] (suc rounds) h = refl
read_text-as_bytes (String.◌∷◌ c s) zero h =
    absurd (
      omega (arith, h, length-append (encode_code (code c)) (as_bytes s), encode_code-pos (code c)))
read_text-as_bytes (String.◌∷◌ c s) (suc rounds) h =
    let (a, t, whole, next) = next_code-encode (code c) (as_bytes s) (code_range c) in
    let rest = read_text-as_bytes s rounds (
      omega
        (arith, h, length-append (encode_code (code c)) (as_bytes s), encode_code-pos (code c))) in
    rw whole (rw (next, read_text) (rw (rest, char_of-code c) refl))

-- A text reads back from its bytes.
pub from_utf8_lossy-as_bytes : (s : String) → from_utf8_lossy (as_bytes s) ≡ s
unfolding from_utf8_lossy
from_utf8_lossy-as_bytes s = read_text-as_bytes s (length (as_bytes s)) (omega arith)
