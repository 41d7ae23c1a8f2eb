-- ===== src/Cache/Bitmap/Field.antt =====
-- BITFIELD: cache_cat/src/protocol/bitmap/bitfield.rs, from a parsed request on.
pub mod Words
pub mod Bounds
pub mod Written
pub mod Room
use cache_cat.Prelude.{
  ℕ, zero, suc, ◌+◌, ◌-◌, ◌*◌, ◌/◌, ◌%◌, ◌^◌, Bool, true, false, ◌||◌, Option, none, some, List, [],
  ◌∷◌, Bytes, if◌then◌else◌, length, ltb, max,
}
use cache_cat.Value.{Value, Values, ValueObject, MyValue}
use cache_cat.Value.Field.{
  BitFieldEncoding, BitFieldOverflow, BitFieldSubCommand, as_i128, ◌+ℤ◌, encode, decode, normalize,
}
use cache_cat.Mocha.{EntrySnapshot, MochaOperation, insert, abort, persistent, get_expire_policy}
use cache_cat.Cache.{BaseOperation, new_value, wrong_type}
use cache_cat.Cache.Compute.{ComputeCommand}
use cache_cat.Cache.Bitmap.{text_of, bit_of, put_bit, resize}

unfoldable pub is_write : BitFieldSubCommand → Bool
is_write (BitFieldSubCommand.get e offset) = false
is_write _ = true

-- `checked_add` of two u64.
abbrev pub checked_add : ℕ → ℕ → Option ℕ
checked_add a b = if ltb (a + b) (2 ^ 64) then some (a + b) else none

unfoldable pub end_bit : BitFieldSubCommand → Option ℕ
end_bit (BitFieldSubCommand.get e offset) = checked_add offset (e.bits - 1)
end_bit (BitFieldSubCommand.set e offset value overflow) = checked_add offset (e.bits - 1)
end_bit (BitFieldSubCommand.incr_by e offset increment overflow) = checked_add offset (e.bits - 1)

unfoldable pub has_write_operation : List BitFieldSubCommand → Bool
unfolding is_write
has_write_operation [] = false
has_write_operation (op ∷ ops) = is_write op || has_write_operation ops

abbrev pub max_option : Option ℕ → Option ℕ → Option ℕ
max_option none b = b
max_option (some a) none = some a
max_option (some a) (some b) = some (max a b)

unfoldable pub highest_write_end_bit : List BitFieldSubCommand → Option ℕ
unfolding is_write end_bit
highest_write_end_bit [] = none
highest_write_end_bit (op ∷ ops) =
    max_option (if is_write op then end_bit op else none) (highest_write_end_bit ops)

unfoldable pub prepare_write_buffer : List BitFieldSubCommand → Bytes → Bytes
unfolding highest_write_end_bit
prepare_write_buffer ops bytes = elim (highest_write_end_bit ops) [
  | none ↦ bytes
  | some last ↦ if ltb (length bytes) (last / 8 + 1) then resize bytes (last / 8 + 1) else bytes
]

-- The loop of `read_bitfield`: `left` bits from `absolute_bit` on are shifted into `raw`.
unfoldable pub read_bits : Bytes → ℕ → ℕ → ℕ → ℕ
unfolding bit_of
read_bits bytes zero absolute_bit raw = raw
read_bits bytes (suc left) absolute_bit raw =
    read_bits bytes left (suc absolute_bit) (raw * 2 % 2 ^ 64 + bit_of bytes absolute_bit)

unfoldable pub read_bitfield : Bytes → BitFieldEncoding → ℕ → ℕ
unfolding read_bits decode
read_bitfield bytes e offset = decode e (read_bits bytes e.bits offset 0)

-- The loop of `write_bitfield`: the first bit that is left goes to `absolute_bit`.
unfoldable pub write_bits : Bytes → ℕ → ℕ → ℕ → Bytes
unfolding put_bit
write_bits bytes raw zero absolute_bit = bytes
write_bits bytes raw (suc left) absolute_bit =
    write_bits (put_bit bytes absolute_bit (raw / 2 ^ left % 2)) raw left (suc absolute_bit)

unfoldable pub write_bitfield : Bytes → BitFieldEncoding → ℕ → ℕ → Bytes
unfolding write_bits encode
write_bitfield bytes e offset value = write_bits bytes (encode e value) e.bits offset

unfoldable pub execute_operation : Bytes → BitFieldSubCommand → Value × Bytes
unfolding read_bitfield write_bitfield normalize
execute_operation bytes (BitFieldSubCommand.get e offset) =
    (Value.integer (read_bitfield bytes e offset), bytes)
execute_operation bytes (BitFieldSubCommand.set e offset value overflow) =
    elim (normalize e (as_i128 value) overflow) [
      | none ↦ (Value.null_array, bytes)
      | some new ↦ (Value.integer (read_bitfield bytes e offset), write_bitfield bytes e offset new)
    ]
execute_operation bytes (BitFieldSubCommand.incr_by e offset increment overflow) =
    elim (normalize e (as_i128 (read_bitfield bytes e offset) +ℤ as_i128 increment) overflow) [
      | none ↦ (Value.null_array, bytes)
      | some new ↦ (Value.integer new, write_bitfield bytes e offset new)
    ]

unfoldable pub run_operations : List BitFieldSubCommand → Bytes → Values × Bytes
unfolding execute_operation
run_operations [] bytes = (Values.nil, bytes)
run_operations (op ∷ ops) bytes =
    let (reply, bytes') = execute_operation bytes op in
    let (replies, bytes'') = run_operations ops bytes' in (Values.more reply replies, bytes'')

unfoldable pub execute_operations : List BitFieldSubCommand → Bytes → Values × Bytes
unfolding prepare_write_buffer run_operations
execute_operations ops bytes = run_operations ops (prepare_write_buffer ops bytes)

unfoldable pub bit_field_req : Bytes → List BitFieldSubCommand → ComputeCommand
unfolding text_of execute_operations has_write_operation get_expire_policy
bit_field_req key operations = record {
  key = key;
  into_base_op = BaseOperation.bit_field key operations;
  mutate = λ entry write_clock. elim (text_of entry.value.data_) [
    | none ↦ (abort, wrong_type)
    | some source ↦
        let (replies, bytes) = execute_operations operations source in
        (
          if has_write_operation operations
              then insert (new_value (ValueObject.string bytes)) (get_expire_policy entry)
              else abort,
          Value.array replies,
        )
  ];
  init = (
    if has_write_operation operations
        then insert (new_value (ValueObject.string (execute_operations operations []).1)) persistent
        else abort,
    Value.array (execute_operations operations []).0,
  );
}
