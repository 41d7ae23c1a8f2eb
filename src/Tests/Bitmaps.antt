-- ===== src/Tests/Bitmaps.antt =====
-- The commands on bits, on short strings.
use cache_cat.Prelude.{
  ℕ, ◌+◌, ◌-◌, ◌/◌, ◌%◌, ◌^◌, ◌≡◌, refl, arith, true, false, ◌&&◌, ◌==◌, leb, ltb, none, some, List,
  [], ◌∷◌, Bytes, length, All, if◌then◌else◌,
}
use cache_cat.Value.{Value, Values, ValueObject, MyValue}
use cache_cat.Value.Field.{
  ℤ, rem_euclid, BitFieldEncoding, BitFieldOverflow, BitFieldSubCommand, encode, decode, is_within,
  normalize,
}
use cache_cat.Mocha.{EntrySnapshot}
use cache_cat.Cache.{new_value}
use cache_cat.Cache.Read.{left_by}
use cache_cat.Cache.Bitmap.{text_of, bit_of, get_bit, set_bit_req, bit_count_bytes}
use cache_cat.Cache.Bitmap.Single.{set_bit_req-get_bit}
use cache_cat.Cache.Bitmap.Field.{
  prepare_write_buffer, read_bitfield, write_bitfield, execute_operations, run_operations,
  execute_operation, highest_write_end_bit, is_write, end_bit,
}
use cache_cat.Cache.Bitmap.Field.Bounds.{IsInBounds, read_as, nearest, normalize_lem}
use cache_cat.Cache.Bitmap.Field.Written.{write_bitfield-read_bitfield}
use cache_cat.Cache.Bitmap.Field.Room.{HasRoom, prepare_write_buffer-HasRoom}

abbrev key : Bytes
key = b'k' ∷ []

abbrev entry : EntrySnapshot MyValue
entry = record { value = new_value (ValueObject.string (129 ∷ 7 ∷ [])); expire_at = none }

abbrev i8 : BitFieldEncoding
i8 = record { signed = true; bits = 8 }

abbrev u5 : BitFieldEncoding
u5 = record { signed = false; bits = 5 }

ones :
    (bit_count_bytes none none (129 ∷ 7 ∷ []) ≡ 5)
    × (bit_count_bytes (some 1) none (129 ∷ 7 ∷ []) ≡ 3)
unfolding bit_count_bytes
ones = (refl, refl)

-- A field of 5 bits that is set, and one of 8 that saturates.
replies :
    (execute_operations
      (BitFieldSubCommand.set u5 3 21 BitFieldOverflow.wrap
        ∷ BitFieldSubCommand.incr_by i8 8 (2 ^ 64 - 100) BitFieldOverflow.sat
        ∷ BitFieldSubCommand.incr_by i8 8 (2 ^ 64 - 100) BitFieldOverflow.sat
        ∷ BitFieldSubCommand.get u5 3
        ∷ [])
      [])
    ≡ (
      Values.more (Value.integer 0) (
          Values.more (Value.integer (2 ^ 64 - 100)) (
            Values.more
              (Value.integer (2 ^ 64 - 128))
              (Values.more (Value.integer 21) Values.nil))),
      21 ∷ 128 ∷ [],
    )
unfolding execute_operations prepare_write_buffer highest_write_end_bit is_write end_bit
    run_operations execute_operation read_bitfield write_bitfield normalize encode decode bit_of
replies = refl

set_bit_req-get_bit_example :
    (((set_bit_req key 20 1).mutate entry 100).1 ≡ get_bit 20 (some entry))
    × (get_bit 7 (some (left_by ((set_bit_req key 20 1).mutate entry 100) entry))
        ≡ (if 20 == 7 then Value.integer (1 % 2) else get_bit 7 (some entry)))
    × ((set_bit_req key 20 1).init.1 ≡ get_bit 20 none)
    × (get_bit 7 (some (left_by (set_bit_req key 20 1).init entry))
        ≡ (if 20 == 7 then Value.integer (1 % 2) else get_bit 7 none))
unfolding text_of
set_bit_req-get_bit_example = set_bit_req-get_bit entry key (129 ∷ 7 ∷ []) 20 1 7 100 refl

normalize_lem_example :
    IsInBounds i8 (ℤ.pos 200) BitFieldOverflow.wrap (normalize i8 (ℤ.pos 200) BitFieldOverflow.wrap)
    × (read_as (normalize i8 (ℤ.pos 200) BitFieldOverflow.sat) ≡ some (nearest i8 (ℤ.pos 200)))
    × ((r : ℕ) × (normalize i8 (ℤ.pos 200) BitFieldOverflow.wrap ≡ some r)
        × (encode i8 r ≡ rem_euclid (ℤ.pos 200) (2 ^ 8)))
    × (read_as (
          if is_within i8 (ℤ.pos 200) then normalize i8 (ℤ.pos 200) BitFieldOverflow.wrap else none)
        ≡ (if is_within i8 (ℤ.pos 200) then some (ℤ.pos 200) else none))
normalize_lem_example = normalize_lem i8 (ℤ.pos 200) BitFieldOverflow.wrap (omega arith)

write_bitfield-read_bitfield_example :
    (read_bitfield (write_bitfield (129 ∷ 7 ∷ []) i8 3 (2 ^ 64 - 100)) i8 3 ≡ 2 ^ 64 - 100)
    × (bit_of (write_bitfield (129 ∷ 7 ∷ []) i8 3 (2 ^ 64 - 100)) 2 ≡ (
        if leb 3 2 && ltb 2 (3 + 8)
        then encode i8 (2 ^ 64 - 100) / 2 ^ (8 - 1 - (2 - 3)) % 2
        else bit_of (129 ∷ 7 ∷ []) 2))
write_bitfield-read_bitfield_example =
    write_bitfield-read_bitfield (129 ∷ 7 ∷ []) i8 3 (2 ^ 64 - 100) 2 (omega arith) (omega arith)
      refl (omega arith)

abbrev ops : List BitFieldSubCommand
ops = BitFieldSubCommand.get i8 90 ∷ BitFieldSubCommand.set u5 13 21 BitFieldOverflow.wrap ∷ []

prepare_write_buffer-HasRoom_example :
    All (HasRoom (length (prepare_write_buffer ops (129 ∷ [])))) ops
prepare_write_buffer-HasRoom_example =
    prepare_write_buffer-HasRoom ops (129 ∷ [])
      ((omega arith, omega arith), ((omega arith, omega arith), tt))
