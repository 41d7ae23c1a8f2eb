-- ===== src/Value/Utf8.antt =====
-- `String::as_bytes` and `String::from_utf8_lossy`, as cache_cat/src/protocol/resp.rs and
-- cache_cat/src/raft/types/core/response_value.rs use them: UTF-8, where a part that is not UTF-8
-- reads as U+FFFD.
pub mod Read
use Prim.Native.Char.{Char, char, code, IsLt}
use Prim.Native.Nat.{Ordering, compare}
use Prim.Native.String.{String}
use native.Mathlib.Omega.{compare-lt}
use cache_cat.Prelude.{
  ℕ, zero, suc, ◌+◌, ◌-◌, ◌*◌, ◌/◌, ◌%◌, ◌<◌, ◌≤◌, ◌≡◌, refl, ◌⊎◌, inl, inr, Bool, true, false,
  ◌&&◌, [], ◌∷◌, ◌++◌, Bytes, ltb, leb, ◌==◌, if◌then◌else◌, length, length-append, arith,
  Bool-cases,
}

abbrev pub encode_code : ℕ → Bytes
encode_code n =
    if ltb n 128
    then n ∷ []
    else if ltb n 2048
    then (192 + n / 64) ∷ (128 + n % 64) ∷ []
    else if ltb n 65536
    then (224 + n / 4096) ∷ (128 + n / 64 % 64) ∷ (128 + n % 64) ∷ []
    else (240 + n / 262144) ∷ (128 + n / 4096 % 64) ∷ (128 + n / 64 % 64) ∷ (128 + n % 64) ∷ []

unfoldable pub as_bytes : String → Bytes
as_bytes String.[] = []
as_bytes (String.◌∷◌ c s) = encode_code (code c) ++ as_bytes s

-- A byte that may continue a character, and the second byte after a first one of three or of four.
abbrev pub continues : ℕ → Bool
continues b = leb 128 b && leb b 191

abbrev pub second3 : ℕ → ℕ → Bool
second3 a b =
    if a == 224
    then leb 160 b && leb b 191
    else if a == 237
    then leb 128 b && leb b 159
    else continues b

abbrev pub second4 : ℕ → ℕ → Bool
second4 a b =
    if a == 240
    then leb 144 b && leb b 191
    else if a == 244
    then leb 128 b && leb b 143
    else continues b

abbrev replacement : ℕ
replacement = 65533

-- The character after a first byte that is not ASCII, and what follows it.
abbrev next2 : ℕ → Bytes → ℕ × Bytes
next2 a [] = (replacement, [])
next2 a (b ∷ s) = if continues b then ((a - 192) * 64 + (b - 128), s) else (replacement, b ∷ s)

abbrev next3 : ℕ → Bytes → ℕ × Bytes
next3 a [] = (replacement, [])
next3 a (b ∷ []) = if second3 a b then (replacement, []) else (replacement, b ∷ [])
next3 a (b ∷ c ∷ s) =
    if second3 a b
    then (if continues c
        then ((a - 224) * 4096 + (b - 128) * 64 + (c - 128), s)
        else (replacement, c ∷ s))
    else (replacement, b ∷ c ∷ s)

abbrev next4 : ℕ → Bytes → ℕ × Bytes
next4 a [] = (replacement, [])
next4 a (b ∷ []) = if second4 a b then (replacement, []) else (replacement, b ∷ [])
next4 a (b ∷ c ∷ []) =
    if second4 a b
    then (if continues c then (replacement, []) else (replacement, c ∷ []))
    else (replacement, b ∷ c ∷ [])
next4 a (b ∷ c ∷ d ∷ s) =
    if second4 a b
    then (if continues c
        then (if continues d
            then ((a - 240) * 262144 + (b - 128) * 4096 + (c - 128) * 64 + (d - 128), s)
            else (replacement, d ∷ s))
        else (replacement, c ∷ d ∷ s))
    else (replacement, b ∷ c ∷ d ∷ s)

unfoldable pub next_code : ℕ → Bytes → ℕ × Bytes
next_code a s =
    if ltb a 128
    then (a, s)
    else if leb 194 a && leb a 223
    then next2 a s
    else if leb 224 a && leb a 239
    then next3 a s
    else if leb 240 a && leb a 244
    then next4 a s
    else (replacement, s)

-- `IsScalar n` is `Scalar` of three comparisons.
abbrev pub Both : Ordering → Ordering → Type 0
Both Ordering.lt o = IsLt o
Both Ordering.eq o = ⊥
Both Ordering.gt o = ⊥

abbrev pub Scalar : Ordering → Ordering → Ordering → Type 0
Scalar Ordering.lt p q = Unit
Scalar Ordering.eq p q = Both p q
Scalar Ordering.gt p q = Both p q

abbrev pub pick_both : (p q : Ordering) → (Both p q → Char) → Char
pick_both Ordering.lt Ordering.lt make = make tt
pick_both Ordering.lt Ordering.eq make = char 65533 tt
pick_both Ordering.lt Ordering.gt make = char 65533 tt
pick_both Ordering.eq q make = char 65533 tt
pick_both Ordering.gt q make = char 65533 tt

abbrev pub pick : (o p q : Ordering) → (Scalar o p q → Char) → Char
pick Ordering.lt p q make = make tt
pick Ordering.eq p q make = pick_both p q make
pick Ordering.gt p q make = pick_both p q make

abbrev pub char_of : ℕ → Char
char_of n = pick (compare n 55296) (compare 57343 n) (compare n 1114112) (λ s. char n s)

-- Each round takes one byte or more; `rounds` is the number of bytes.
unfoldable pub read_text : ℕ → Bytes → String
unfolding next_code
read_text zero s = String.[]
read_text (suc rounds) [] = String.[]
read_text (suc rounds) (a ∷ s) =
    let (n, rest) = next_code a s in String.◌∷◌ (char_of n) (read_text rounds rest)

unfoldable pub from_utf8_lossy : Bytes → String
unfolding read_text
from_utf8_lossy bytes = read_text (length bytes) bytes
