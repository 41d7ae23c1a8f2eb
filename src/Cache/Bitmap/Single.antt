-- ===== src/Cache/Bitmap/Single.antt =====
-- Bits that are written and read: what SETBIT leaves for GETBIT, for all offsets.
use cache_cat.Prelude.{
  ℕ, zero, suc, ◌+◌, ◌-◌, ◌/◌, ◌%◌, ◌^◌, ◌<◌, ◌≤◌, ◌≡◌, refl, ◌∙◌, ap, sym, false, none, some, [],
  ◌∷◌, Bytes, if◌then◌else◌, length, get_elem?, set_elem, length-set_elem, get_elem?-set_elem,
  get_elem?-set_elem_other, get_elem?-some, get_elem?-none, ltb, leb, ◌==◌, arith, Bool-cases, inl,
  inr, shr, write_bit, set_bit, shr-write_bit, set_bit-zero, clear_bit-zero,
}
use cache_cat.Value.{Value, MyValue}
use cache_cat.Mocha.{EntrySnapshot}
use cache_cat.Cache.Read.{left_by}
use cache_cat.Cache.Bitmap.{
  text_of, bit_of, get_bit, resize, grown, put_bit, set_bit_bytes, set_bit_req,
}

pub length-resize : (bytes : Bytes) (n : ℕ) → length (resize bytes n) ≡ n
length-resize bytes zero = refl
length-resize [] (suc n) = ap suc (length-resize [] n)
length-resize (b ∷ bytes) (suc n) = ap suc (length-resize bytes n)

-- The bytes past the old end are zero.
get_elem?-resize :
    (bytes : Bytes) (n i : ℕ)
    → i < n
    → get_elem? (resize bytes n) i ≡ some (elim (get_elem? bytes i) [ none ↦ 0 | some b ↦ b ])
get_elem?-resize bytes zero i h = absurd (omega (arith, h))
get_elem?-resize [] (suc n) zero h = refl
get_elem?-resize [] (suc n) (suc i) h = get_elem?-resize [] n i (omega (arith, h))
get_elem?-resize (b ∷ bytes) (suc n) zero h = refl
get_elem?-resize (b ∷ bytes) (suc n) (suc i) h = get_elem?-resize bytes n i (omega (arith, h))

shr-zero : (q : ℕ) → shr 0 q ≡ 0
shr-zero zero = refl
shr-zero (suc q) = shr-zero q

bit_of-byte :
    (bytes : Bytes) (j b : ℕ)
    → get_elem? bytes (j / 8) ≡ some b
    → bit_of bytes j ≡ shr b (7 - j % 8) % 2
unfolding bit_of
bit_of-byte bytes j b e = rw (e, bit_of) refl

bit_of-none : (bytes : Bytes) (j : ℕ) → get_elem? bytes (j / 8) ≡ none → bit_of bytes j ≡ 0
unfolding bit_of
bit_of-none bytes j e = rw (e, bit_of) refl

bit_of-same :
    (xs ys : Bytes) (j : ℕ)
    → get_elem? xs (j / 8) ≡ get_elem? ys (j / 8)
    → bit_of xs j ≡ bit_of ys j
unfolding bit_of
bit_of-same xs ys j e = ap (λ o. elim o [ none ↦ 0 | some b ↦ shr b (7 - j % 8) % 2 ]) e

-- Room at the end changes no bit.
pub bit_of-resize :
    (bytes : Bytes) (n j : ℕ) → length bytes ≤ n → bit_of (resize bytes n) j ≡ bit_of bytes j
bit_of-resize bytes n j h = elim (Bool-cases (ltb (j / 8) n)) [
  | inr out ↦
      let past : n ≤ j / 8 = ground (arith, out) in
      bit_of-none (resize bytes n) j
        (get_elem?-none (resize bytes n) (j / 8) (omega (arith, length-resize bytes n)))
      ∙ sym (bit_of-none bytes j (get_elem?-none bytes (j / 8) (omega (arith, h))))
  | inl within ↦
      let here = get_elem?-resize bytes n (j / 8) (ground (arith, within)) in
      elim (Bool-cases (ltb (j / 8) (length bytes))) [
        | inl old ↦
            let (b, e) = get_elem?-some bytes (j / 8) (ground (arith, old)) in
            bit_of-byte (resize bytes n) j b
              (here ∙ ap (λ o. some (elim o [ none ↦ 0 | some b ↦ b ])) e)
            ∙ sym (bit_of-byte bytes j b e)
        | inr new ↦
            let e = get_elem?-none bytes (j / 8) (ground (arith, new)) in
            bit_of-byte (resize bytes n) j 0
              (here ∙ ap (λ o. some (elim o [ none ↦ 0 | some b ↦ b ])) e)
            ∙ ap (λ x. x % 2) (shr-zero (7 - j % 8))
            ∙ sym (bit_of-none bytes j e)
      ]
]

pub length-put_bit :
    (bytes : Bytes) (offset bit : ℕ) → length (put_bit bytes offset bit) ≡ length bytes
unfolding put_bit
length-put_bit bytes offset bit =
    elim (get_elem? bytes (offset / 8))
      as (λ o.
        length (elim o [
          | none ↦ bytes
          | some byte ↦ set_elem bytes (offset / 8) (write_bit byte (7 - offset % 8) bit)
        ])
        ≡ length bytes) [
          | none ↦ refl
          | some byte ↦ length-set_elem bytes (offset / 8) (write_bit byte (7 - offset % 8) bit)
        ]

same_place : (i j : ℕ) → i / 8 ≡ j / 8 → ((7 - i % 8) == (7 - j % 8)) ≡ (i == j)
same_place i j e = ground (arith, e)

-- A bit that was written reads as written, and every other as before.
pub bit_of-put_bit :
    (bytes : Bytes) (offset bit j : ℕ)
    → offset / 8 < length bytes
    → bit < 2
    → bit_of (put_bit bytes offset bit) j ≡ (if offset == j then bit else bit_of bytes j)
unfolding put_bit
bit_of-put_bit bytes offset bit j h small =
    let (b, e) = get_elem?-some bytes (offset / 8) h in
    let p : ℕ = 7 - offset % 8 in
    let new : Bytes = set_elem bytes (offset / 8) (write_bit b p bit) in
    let written : put_bit bytes offset bit ≡ new = rw (e, put_bit) refl in
    ap (λ bs. bit_of bs j) written ∙ elim (Bool-cases (offset / 8 == j / 8)) [
      | inl same ↦
          let place : offset / 8 ≡ j / 8 = ground (arith, same) in
          bit_of-byte new j (write_bit b p bit) (
            ap (get_elem? new) (sym place)
            ∙ get_elem?-set_elem bytes (offset / 8) (write_bit b p bit) h)
          ∙ shr-write_bit b p (7 - j % 8) bit small
          ∙ ap (λ t. if t then bit else shr b (7 - j % 8) % 2) (same_place offset j place)
          ∙ ap (λ y. if offset == j then bit else y)
              (sym (bit_of-byte bytes j b (ap (get_elem? bytes) (sym place) ∙ e)))
      | inr other ↦
          let apart : (offset == j) ≡ false = ground (arith, other) in
          let kept : get_elem? new (j / 8) ≡ get_elem? bytes (j / 8) =
            get_elem?-set_elem_other bytes (offset / 8) (j / 8) (write_bit b p bit)
              (ground (arith, other)) in
          bit_of-same new bytes j kept ∙ rw apart refl
    ]

length-grown : (bytes : Bytes) (i : ℕ) → i < length (grown bytes i)
unfolding grown
length-grown bytes i = elim (Bool-cases (leb (length bytes) i)) [
  | inl short ↦ rw (short, grown) (omega (arith, length-resize bytes (i + 1)))
  | inr long ↦ rw (long, grown) (ground (arith, long))
]

bit_of-grown : (bytes : Bytes) (i j : ℕ) → bit_of (grown bytes i) j ≡ bit_of bytes j
unfolding grown
bit_of-grown bytes i j = elim (Bool-cases (leb (length bytes) i)) [
  | inl short ↦ rw (short, grown) (bit_of-resize bytes (i + 1) j (ground (arith, short)))
  | inr long ↦ rw (long, grown) refl
]

bit_of-set_bit_bytes :
    (bytes : Bytes) (offset value j : ℕ)
    → bit_of (set_bit_bytes bytes offset value).0 j
      ≡ (if offset == j then value % 2 else bit_of bytes j)
unfolding set_bit_bytes
bit_of-set_bit_bytes bytes offset value j =
    bit_of-put_bit (grown bytes (offset / 8)) offset (value % 2) j (length-grown bytes (offset / 8))
      (omega arith)
    ∙ ap (λ y. if offset == j then value % 2 else y) (bit_of-grown bytes (offset / 8) j)

-- The bytes of a key that SETBIT makes.
first_bytes :
    (offset value : ℕ)
    → set_elem
        (resize [] (offset / 8 + 1))
        (offset / 8)
        (if value % 2 == 1 then 2 ^ (7 - offset % 8) else 0)
      ≡ put_bit (resize [] (offset / 8 + 1)) offset (value % 2)
unfolding put_bit
first_bytes offset value =
    let i : ℕ = offset / 8 in
    let zero_byte = get_elem?-resize [] (i + 1) i (omega arith) in
    rw (zero_byte, put_bit)
      (ap (set_elem (resize [] (i + 1)) i) (
        ap (λ y. if value % 2 == 1 then y else 0) (sym (set_bit-zero (7 - offset % 8)))
        ∙ ap (λ y. if value % 2 == 1 then set_bit 0 (7 - offset % 8) else y)
            (sym (clear_bit-zero (7 - offset % 8)))))

bit_of-first :
    (offset value j : ℕ)
    → bit_of
        (set_elem
          (resize [] (offset / 8 + 1))
          (offset / 8)
          (if value % 2 == 1 then 2 ^ (7 - offset % 8) else 0))
        j
      ≡ (if offset == j then value % 2 else 0)
bit_of-first offset value j =
    ap (λ bs. bit_of bs j) (first_bytes offset value)
    ∙ bit_of-put_bit (resize [] (offset / 8 + 1)) offset (value % 2) j
        (omega (arith, length-resize [] (offset / 8 + 1))) (omega arith)
    ∙ ap (λ y. if offset == j then value % 2 else y)
        (bit_of-resize [] (offset / 8 + 1) j (omega arith) ∙ bit_of-none [] j refl)

-- SETBIT then GETBIT, for all offsets: the bit at the offset of SETBIT reads as it was set, and
-- every other bit as before, past the old end of the string too; the reply of SETBIT is what GETBIT
-- found there before. This holds for a key with a text or a number, and for one that is missing.
pub set_bit_req-get_bit :
    (entry : EntrySnapshot MyValue) (key bytes : Bytes) (offset value j write_clock : ℕ)
    → text_of entry.value.data_ ≡ some bytes
    → (((set_bit_req key offset value).mutate entry write_clock).1 ≡ get_bit offset (some entry))
      × (get_bit j (some (left_by ((set_bit_req key offset value).mutate entry write_clock) entry))
          ≡ (if offset == j then Value.integer (value % 2) else get_bit j (some entry)))
      × ((set_bit_req key offset value).init.1 ≡ get_bit offset none)
      × (get_bit j (some (left_by (set_bit_req key offset value).init entry))
          ≡ (if offset == j then Value.integer (value % 2) else get_bit j none))
unfolding set_bit_req get_bit set_bit_bytes
set_bit_req-get_bit entry key bytes offset value j write_clock e =
    rw (e, set_bit_req, get_bit)
      (
        ap Value.integer (bit_of-grown bytes (offset / 8) offset),
        ap Value.integer (bit_of-set_bit_bytes bytes offset value j) ∙ ground arith,
        refl,
        ap Value.integer (bit_of-first offset value j) ∙ ground arith,
      )
