-- ===== src/Cache/Bitmap.antt =====
-- The commands on single bits: setbit.rs, getbit.rs and bitcount.rs of
-- cache_cat/src/protocol/bitmap. A string is its bytes, and offset 0 is the first bit of the first
-- byte, the most significant one. An offset is a u64, the number of a byte a usize of the same width.
pub mod Field
pub mod Single
use cache_cat.Prelude.{
  ℕ, zero, suc, ◌+◌, ◌-◌, ◌/◌, ◌%◌, ◌^◌, Bool, ◌&&◌, Option, none, some, List, [], ◌∷◌, Bytes,
  if◌then◌else◌, length, get_elem?, set_elem, take, drop, ltb, leb, ◌==◌, shr, write_bit,
}
use cache_cat.Value.{Value, ValueObject, MyValue}
use cache_cat.Value.Print.{to_string}
use cache_cat.Value.Signed.{add_i64, sub_i64, is_negative, lt_i64, max_i64, min_i64}
use cache_cat.Mocha.{EntrySnapshot, MochaOperation, insert, abort, persistent, get_expire_policy}
use cache_cat.Cache.{BaseOperation, new_value, wrong_type}
use cache_cat.Cache.Compute.{ComputeCommand}
use cache_cat.Cache.Read.{ReadCommand}

-- The text that the commands read: a number stands for its decimal digits.
unfoldable pub text_of : ValueObject → Option Bytes
unfolding to_string
text_of (ValueObject.string s) = some s
text_of (ValueObject.int i) = some (to_string i)
text_of _ = none

-- The bit at an offset; what lies past the end of the string is zero.
unfoldable pub bit_of : Bytes → ℕ → ℕ
bit_of bytes offset = elim (get_elem? bytes (offset / 8)) [
  | none ↦ 0
  | some byte ↦ shr byte (7 - offset % 8) % 2
]

unfoldable pub get_bit : ℕ → Option (EntrySnapshot MyValue) → Value
unfolding text_of bit_of
get_bit offset none = Value.integer 0
get_bit offset (some v) = elim (text_of v.value.data_) [
  | none ↦ wrong_type
  | some bytes ↦ Value.integer (bit_of bytes offset)
]

unfoldable pub get_bit_params : Bytes → ℕ → ReadCommand
unfolding get_bit
get_bit_params key offset = record { key = key; execute = get_bit offset }

-- `bytes.resize(n, 0)`
abbrev pub resize : Bytes → ℕ → Bytes
resize bytes zero = []
resize [] (suc n) = 0 ∷ resize [] n
resize (b ∷ bytes) (suc n) = b ∷ resize bytes n

-- The bytes with room for the one at an index.
unfoldable pub grown : Bytes → ℕ → Bytes
grown bytes byte_index =
    if leb (length bytes) byte_index then resize bytes (byte_index + 1) else bytes

-- One bit written, in the byte that is there.
unfoldable pub put_bit : Bytes → ℕ → ℕ → Bytes
put_bit bytes offset bit = elim (get_elem? bytes (offset / 8)) [
  | none ↦ bytes
  | some byte ↦ set_elem bytes (offset / 8) (write_bit byte (7 - offset % 8) bit)
]

-- What SETBIT does to the bytes of an entry, and the reply, which is the old bit.
unfoldable pub set_bit_bytes : Bytes → ℕ → ℕ → Bytes × ℕ
unfolding grown put_bit bit_of
set_bit_bytes bytes offset value = (
  put_bit (grown bytes (offset / 8)) offset (value % 2),
  bit_of (grown bytes (offset / 8)) offset,
)

unfoldable pub set_bit_req : Bytes → ℕ → ℕ → ComputeCommand
unfolding text_of set_bit_bytes get_expire_policy
set_bit_req key offset value = record {
  key = key;
  into_base_op = BaseOperation.set_bit key offset value;
  mutate = λ entry write_clock. elim (text_of entry.value.data_) [
    | none ↦ (abort, wrong_type)
    | some bytes ↦ (
      insert (new_value (ValueObject.string (set_bit_bytes bytes offset value).0))
          (get_expire_policy entry),
      Value.integer (set_bit_bytes bytes offset value).1,
    )
  ];
  init = (
    insert
        (new_value (
          ValueObject.string (
            set_elem (resize [] (offset / 8 + 1)) (offset / 8)
              (if value % 2 == 1 then 2 ^ (7 - offset % 8) else 0))))
        persistent,
    Value.integer 0,
  );
}

-- `byte.count_ones()`, of a byte.
abbrev pub count_ones : ℕ → ℕ
count_ones byte = ones 8 byte
  where
    ones : ℕ → ℕ → ℕ
    ones zero word = 0
    ones (suc bits) word = word % 2 + ones bits (word / 2)

abbrev pub sum_ones : Bytes → ℕ
sum_ones [] = 0
sum_ones (b ∷ bytes) = count_ones b + sum_ones bytes

-- `start.max(0).min(len - 1)`
abbrev pub clamp : ℕ → ℕ → ℕ
clamp len index =
    let counted = if is_negative index then add_i64 index len else index in
    min_i64 (max_i64 counted 0) (sub_i64 len 1)

unfoldable pub bit_count_bytes : Option ℕ → Option ℕ → Bytes → ℕ
bit_count_bytes none none bytes = sum_ones bytes
bit_count_bytes start end bytes =
    let first = clamp (length bytes) (elim start [ none ↦ 0 | some i ↦ i ]) in
    let last = clamp (length bytes) (elim end [ none ↦ 2 ^ 64 - 1 | some i ↦ i ]) in
    if ltb last first then 0 else sum_ones (take (last + 1 - first) (drop first bytes))

unfoldable pub bit_count : Option ℕ → Option ℕ → Option (EntrySnapshot MyValue) → Value
unfolding text_of bit_count_bytes
bit_count start end none = Value.integer 0
bit_count start end (some v) = elim (text_of v.value.data_) [
  | none ↦ wrong_type
  | some bytes ↦ Value.integer (if length bytes == 0 then 0 else bit_count_bytes start end bytes)
]

unfoldable pub bit_count_params : Bytes → Option ℕ → Option ℕ → ReadCommand
unfolding bit_count
bit_count_params key start end = record { key = key; execute = bit_count start end }
