-- ===== src/Cache/Bitmap/Field/Room.antt =====
-- The room that the buffer of a BITFIELD request has for its writes.
use cache_cat.Prelude.{
  ℕ, ◌+◌, ◌-◌, ◌*◌, ◌/◌, ◌^◌, ◌<◌, ◌≤◌, ◌≡◌, refl, ◌∙◌, ap, sym, Bool, true, Option, none, some,
  List, [], ◌∷◌, Bytes, if◌then◌else◌, length, ltb, arith, Bool-cases, inl, inr, All, Option-cases,
}
use cache_cat.Value.Field.{BitFieldSubCommand}
use cache_cat.Cache.Bitmap.{resize}
use cache_cat.Cache.Bitmap.Single.{length-resize}
use cache_cat.Cache.Bitmap.Field.{
  is_write, end_bit, checked_add, max_option, highest_write_end_bit, prepare_write_buffer,
}

-- What the parser makes sure of: the last bit of a field has a u64 for its offset.
abbrev pub IsPlaced : BitFieldSubCommand → Type 0
IsPlaced (BitFieldSubCommand.get e offset) = (0 < e.bits) × (offset + e.bits ≤ 2 ^ 64)
IsPlaced (BitFieldSubCommand.set e offset value overflow) =
    (0 < e.bits) × (offset + e.bits ≤ 2 ^ 64)
IsPlaced (BitFieldSubCommand.incr_by e offset increment overflow) =
    (0 < e.bits) × (offset + e.bits ≤ 2 ^ 64)

-- The bits that a subcommand writes are bits of a string of some length.
abbrev pub HasRoom : ℕ → BitFieldSubCommand → Type 0
HasRoom len (BitFieldSubCommand.get e offset) = Unit
HasRoom len (BitFieldSubCommand.set e offset value overflow) = offset + e.bits ≤ 8 * len
HasRoom len (BitFieldSubCommand.incr_by e offset increment overflow) = offset + e.bits ≤ 8 * len

-- The last bit to write, if there is one, is in a string of some length.
abbrev covers : ℕ → Option ℕ → Bool
covers len none = true
covers len (some last) = ltb (last / 8) len

covers-max_option :
    (len : ℕ) (a b : Option ℕ)
    → covers len (max_option a b) ≡ true
    → (covers len a ≡ true) × (covers len b ≡ true)
covers-max_option len none b h = (refl, h)
covers-max_option len (some a) none h = (h, refl)
covers-max_option len (some a) (some b) h = (ground (arith, h), ground (arith, h))

covers-placed :
    (len offset bits : ℕ)
    → 0 < bits
    → offset + bits ≤ 2 ^ 64
    → covers len (checked_add offset (bits - 1)) ≡ true
    → offset + bits ≤ 8 * len
covers-placed len offset bits pos placed h =
    let fits : ltb (offset + (bits - 1)) (2 ^ 64) ≡ true = ground (arith, pos, placed) in
    let covered : ltb ((offset + (bits - 1)) / 8) len ≡ true =
      sym (ap (λ t. covers len (if t then some (offset + (bits - 1)) else none)) fits) ∙ h in
    ground (arith, covered, pos)

covers-HasRoom :
    (len : ℕ) (op : BitFieldSubCommand)
    → IsPlaced op
    → covers len (if is_write op then end_bit op else none) ≡ true
    → HasRoom len op
unfolding is_write end_bit
covers-HasRoom len (BitFieldSubCommand.get e offset) p h = tt
covers-HasRoom len (BitFieldSubCommand.set e offset value overflow) p h =
    covers-placed len offset e.bits p.0 p.1 h
covers-HasRoom len (BitFieldSubCommand.incr_by e offset increment overflow) p h =
    covers-placed len offset e.bits p.0 p.1 h

covers-All :
    (len : ℕ) (ops : List BitFieldSubCommand)
    → All IsPlaced ops
    → covers len (highest_write_end_bit ops) ≡ true
    → All (HasRoom len) ops
unfolding highest_write_end_bit
covers-All len [] p h = tt
covers-All len (op ∷ ops) p h =
    let (first, others) =
      covers-max_option len (if is_write op then end_bit op else none) (highest_write_end_bit ops)
        h in
    (covers-HasRoom len op p.0 first, covers-All len ops p.1 others)

grown_to :
    (bytes : Bytes) (n : ℕ) → n ≤ length (if ltb (length bytes) n then resize bytes n else bytes)
grown_to bytes n = elim (Bool-cases (ltb (length bytes) n)) [
  | inl short ↦ rw short (omega (arith, length-resize bytes n))
  | inr long ↦ rw long (ground (arith, long))
]

-- The buffer of a request has room for every bit that one of its subcommands writes, where the
-- last bit of each field has an offset that a u64 holds: no write is past the end of the buffer.
pub prepare_write_buffer-HasRoom :
    (ops : List BitFieldSubCommand) (bytes : Bytes)
    → All IsPlaced ops
    → All (HasRoom (length (prepare_write_buffer ops bytes))) ops
unfolding prepare_write_buffer
prepare_write_buffer-HasRoom ops bytes p =
    covers-All (length (prepare_write_buffer ops bytes)) ops p
      (elim (Option-cases (highest_write_end_bit ops)) [
        | inl nothing ↦ rw (nothing, prepare_write_buffer) refl
        | inr (last, e) ↦
            rw (e, prepare_write_buffer) (ground (arith, grown_to bytes (last / 8 + 1)))
      ])
