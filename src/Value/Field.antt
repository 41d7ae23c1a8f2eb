-- ===== src/Value/Field.antt =====
-- The integers of BITFIELD, the types and their conversions: the first part of
-- cache_cat/src/protocol/bitmap/bitfield.rs. An i64 and a u64 are their 64 bits; the i128 that the
-- sums and the bounds are taken in is an integer, which no sum of two i64 leaves.
use cache_cat.Prelude.{
  ℕ, ◌+◌, ◌-◌, ◌/◌, ◌%◌, ◌^◌, Bool, true, false, not, ◌&&◌, Option, none, some, ltb, leb, ◌==◌,
  if◌then◌else◌,
}
use cache_cat.Value.Signed.{is_negative}

-- `negsuc n` is `-(n + 1)`.
pub data ℤ : Type 0 where
  pos : ℕ → ℤ
  negsuc : ℕ → ℤ

abbrev pub lt_int : ℤ → ℤ → Bool
lt_int (ℤ.pos a) (ℤ.pos b) = ltb a b
lt_int (ℤ.pos a) (ℤ.negsuc b) = false
lt_int (ℤ.negsuc a) (ℤ.pos b) = true
lt_int (ℤ.negsuc a) (ℤ.negsuc b) = ltb b a

abbrev pub le_int : ℤ → ℤ → Bool
le_int (ℤ.pos a) (ℤ.pos b) = leb a b
le_int (ℤ.pos a) (ℤ.negsuc b) = false
le_int (ℤ.negsuc a) (ℤ.pos b) = true
le_int (ℤ.negsuc a) (ℤ.negsuc b) = leb b a

infixl 65 ◌+ℤ◌
abbrev pub ◌+ℤ◌ : ℤ → ℤ → ℤ
ℤ.pos a +ℤ ℤ.pos b = ℤ.pos (a + b)
ℤ.pos a +ℤ ℤ.negsuc b = if ltb b a then ℤ.pos (a - (b + 1)) else ℤ.negsuc (b - a)
ℤ.negsuc a +ℤ ℤ.pos b = if ltb a b then ℤ.pos (b - (a + 1)) else ℤ.negsuc (a - b)
ℤ.negsuc a +ℤ ℤ.negsuc b = ℤ.negsuc (a + b + 1)

abbrev pub as_i128 : ℕ → ℤ
as_i128 a = if is_negative a then ℤ.negsuc (2 ^ 64 - 1 - a) else ℤ.pos a

abbrev pub as_i64 : ℤ → ℕ
as_i64 (ℤ.pos n) = n % 2 ^ 64
as_i64 (ℤ.negsuc n) = 2 ^ 64 - 1 - n % 2 ^ 64

abbrev pub rem_euclid : ℤ → ℕ → ℕ
rem_euclid (ℤ.pos n) m = n % m
rem_euclid (ℤ.negsuc n) m = m - 1 - n % m

pub record BitFieldEncoding : Type 0 where
  pub signed : Bool
  pub bits : ℕ

pub data BitFieldOverflow : Type 0 where
  wrap : BitFieldOverflow
  sat : BitFieldOverflow
  fail : BitFieldOverflow

pub data BitFieldSubCommand : Type 0 where
  get : BitFieldEncoding → ℕ → BitFieldSubCommand
  set : BitFieldEncoding → ℕ → ℕ → BitFieldOverflow → BitFieldSubCommand
  incr_by : BitFieldEncoding → ℕ → ℕ → BitFieldOverflow → BitFieldSubCommand

-- `bounds`: the least and the greatest value.
abbrev pub least : BitFieldEncoding → ℤ
least e = if e.signed then ℤ.negsuc (2 ^ (e.bits - 1) - 1) else ℤ.pos 0

abbrev pub greatest : BitFieldEncoding → ℤ
greatest e = if e.signed then ℤ.pos (2 ^ (e.bits - 1) - 1) else ℤ.pos (2 ^ e.bits - 1)

abbrev pub is_within : BitFieldEncoding → ℤ → Bool
is_within e value = le_int (least e) value && le_int value (greatest e)

unfoldable pub decode : BitFieldEncoding → ℕ → ℕ
decode e raw =
    if not e.signed
    then raw
    else if e.bits == 64
    then raw
    else if raw / 2 ^ (e.bits - 1) % 2 == 1
    then raw % 2 ^ e.bits + (2 ^ 64 - 2 ^ e.bits)
    else raw

unfoldable pub encode : BitFieldEncoding → ℕ → ℕ
encode e value = if e.bits == 64 then value else value % 2 ^ e.bits

-- The value that WRAP makes of one out of bounds.
abbrev pub wrapped : BitFieldEncoding → ℤ → ℤ
wrapped e value =
    let r = rem_euclid value (2 ^ e.bits) in
    if e.signed && leb (2 ^ (e.bits - 1)) r then ℤ.negsuc (2 ^ e.bits - 1 - r) else ℤ.pos r

unfoldable pub normalize : BitFieldEncoding → ℤ → BitFieldOverflow → Option ℕ
normalize e value overflow = if is_within e value then some (as_i64 value) else elim overflow [
  | BitFieldOverflow.fail ↦ none
  | BitFieldOverflow.sat ↦
      if lt_int value (least e) then some (as_i64 (least e)) else some (as_i64 (greatest e))
  | BitFieldOverflow.wrap ↦ some (as_i64 (wrapped e value))
]
