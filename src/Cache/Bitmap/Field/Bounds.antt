-- ===== src/Cache/Bitmap/Field/Bounds.antt =====
-- The integers of BITFIELD: what OVERFLOW makes of a value that a field cannot hold, and that the
-- bits of a value that it can hold read as the value again.
use cache_cat.Prelude.{
  ℕ, ◌-◌, ◌%◌, ◌^◌, ◌<◌, ◌≤◌, ◌≡◌, refl, ◌∙◌, ap, sym, subst, Bool, true, false, Option, none, some,
  if◌then◌else◌, leb, ◌==◌, arith, Bool-cases, inl, inr,
}
use native.Mathlib.Nat.{mod-eq_of_lt, mod-lt}
use cache_cat.Cache.Bitmap.Field.Words.{pow-pos, as_i64-mod, halves, narrow}
use cache_cat.Value.Field.{
  ℤ, lt_int, as_i128, as_i64, rem_euclid, BitFieldEncoding, BitFieldOverflow, least, greatest,
  is_within, encode, wrapped, normalize,
}

-- The widths that the parser of the command lets through.
abbrev pub IsEncoding : BitFieldEncoding → Type 0
IsEncoding e = (0 < e.bits) × (e.bits ≤ (if e.signed then 64 else 63))

abbrev pub enc : Bool → ℕ → BitFieldEncoding
enc s n = record { signed = s; bits = n }

-- A value within the bounds is an i64.
fits :
    (s : Bool) (n : ℕ) (value : ℤ)
    → IsEncoding (enc s n)
    → is_within (enc s n) value ≡ true
    → as_i128 (as_i64 value) ≡ value
fits true n (ℤ.pos v) h w =
    let (two, pos, top) = halves n h.0 h.1 in ground (arith, w, two, pos, top)
fits true n (ℤ.negsuc v) h w =
    let (two, pos, top) = halves n h.0 h.1 in ground (arith, w, two, pos, top)
fits false n (ℤ.pos v) h w = let (pos, top) = narrow n h.1 in ground (arith, w, pos, top)
fits false n (ℤ.negsuc v) h w = ground (arith, w)

ends_within :
    (s : Bool) (n : ℕ)
    → IsEncoding (enc s n)
    → (is_within (enc s n) (least (enc s n)) ≡ true)
      × (is_within (enc s n) (greatest (enc s n)) ≡ true)
ends_within true n h = let (two, pos, top) = halves n h.0 h.1 in ground (arith, two, pos, top)
ends_within false n h = let (pos, top) = narrow n h.1 in ground (arith, pos, top)

outside :
    (s : Bool) (n : ℕ) (value : ℤ)
    → IsEncoding (enc s n)
    → is_within (enc s n) value ≡ false
    → lt_int value (least (enc s n)) ≡ false
    → lt_int (greatest (enc s n)) value ≡ true
outside true n (ℤ.pos v) h w k = ground (arith, w, k)
outside true n (ℤ.negsuc v) h w k = ground (arith, w, k)
outside false n (ℤ.pos v) h w k = ground (arith, w, k)
outside false n (ℤ.negsuc v) h w k = ground (arith, w, k)

inside :
    (s : Bool) (n : ℕ) (value : ℤ)
    → is_within (enc s n) value ≡ true
    → (lt_int value (least (enc s n)) ≡ false) × (lt_int (greatest (enc s n)) value ≡ false)
inside true n (ℤ.pos v) w = ground (arith, w)
inside true n (ℤ.negsuc v) w = ground (arith, w)
inside false n (ℤ.pos v) w = ground (arith, w)
inside false n (ℤ.negsuc v) w = ground (arith, w)

pub at_most_64 : (s : Bool) (n : ℕ) → IsEncoding (enc s n) → n ≤ 64
at_most_64 true n h = h.1
at_most_64 false n h = omega (arith, h)

residue : (value : ℤ) (m : ℕ) → 0 < m → rem_euclid value m < m
residue (ℤ.pos v) m h = mod-lt v h
residue (ℤ.negsuc v) m h = omega (arith, h)

wrapped-within :
    (s : Bool) (n : ℕ) (value : ℤ)
    → IsEncoding (enc s n)
    → is_within (enc s n) (wrapped (enc s n) value) ≡ true
wrapped-within true n value h =
    let (two, pos, top) = halves n h.0 h.1 in
    let r = residue value (2 ^ n) (pow-pos n) in ground (arith, two, pos, r)
wrapped-within false n value h = let r = residue value (2 ^ n) (pow-pos n) in ground (arith, r)

wrapped-rem :
    (s : Bool) (n : ℕ) (value : ℤ)
    → rem_euclid (wrapped (enc s n) value) (2 ^ n) ≡ rem_euclid value (2 ^ n)
wrapped-rem true n value =
    let r : ℕ = rem_euclid value (2 ^ n) in
    let small = residue value (2 ^ n) (pow-pos n) in
    elim (Bool-cases (leb (2 ^ (n - 1)) r)) [
      | inl over ↦ rw over (
          ap (λ x. 2 ^ n - 1 - x)
            (mod-eq_of_lt {n = 2 ^ n - 1 - r} {m = 2 ^ n} (omega (arith, small)))
          ∙ omega (arith, small))
      | inr under ↦ rw under (mod-eq_of_lt small)
    ]
wrapped-rem false n value = mod-eq_of_lt (residue value (2 ^ n) (pow-pos n))

-- The option of an i64, each read as an integer.
abbrev pub read_as : Option ℕ → Option ℤ
read_as none = none
read_as (some r) = some (as_i128 r)

-- The value nearest to the given one within the bounds.
abbrev pub nearest : BitFieldEncoding → ℤ → ℤ
nearest e value =
    if lt_int value (least e)
    then least e
    else if lt_int (greatest e) value
    then greatest e
    else value

-- The outcome is within the bounds, or there is none, under FAIL and for a value out of bounds.
abbrev pub IsInBounds : BitFieldEncoding → ℤ → BitFieldOverflow → Option ℕ → Type 0
IsInBounds e value overflow none = (overflow ≡ BitFieldOverflow.fail) × (is_within e value ≡ false)
IsInBounds e value overflow (some r) = is_within e (as_i128 r) ≡ true

pub encode-mod : (e : BitFieldEncoding) (r : ℕ) → r < 2 ^ 64 → encode e r ≡ r % 2 ^ e.bits
unfolding encode
encode-mod e r h = elim (Bool-cases (e.bits == 64)) [
  | inl all ↦
      let full : e.bits ≡ 64 = ground (arith, all) in
      rw (all, encode) (sym (ap (λ n. r % 2 ^ n) full ∙ mod-eq_of_lt h))
  | inr part ↦ rw (part, encode) refl
]

as_i64-small : (value : ℤ) → as_i64 value < 2 ^ 64
as_i64-small (ℤ.pos n) = omega arith
as_i64-small (ℤ.negsuc n) = omega arith

normalize-within :
    (e : BitFieldEncoding) (value : ℤ) (overflow : BitFieldOverflow)
    → IsEncoding e
    → is_within e value ≡ true
    → normalize e value overflow ≡ some (as_i64 value)
unfolding normalize
normalize-within e value overflow h w = rw (w, normalize) refl

keeps :
    (e : BitFieldEncoding) (value : ℤ)
    → IsEncoding e
    → is_within e value ≡ true
    → is_within e (as_i128 (as_i64 value)) ≡ true
keeps e value h w = ap (is_within e) (fits e.signed e.bits value h w) ∙ w

normalize-bounds :
    (e : BitFieldEncoding) (value : ℤ) (overflow : BitFieldOverflow)
    → IsEncoding e
    → is_within e value ≡ false
    → IsInBounds e value overflow (normalize e value overflow)
unfolding normalize
normalize-bounds e value BitFieldOverflow.fail h w = rw (w, normalize) (refl, w)
normalize-bounds e value BitFieldOverflow.wrap h w =
    rw (w, normalize) (keeps e (wrapped e value) h (wrapped-within e.signed e.bits value h))
normalize-bounds e value BitFieldOverflow.sat h w =
    let (low, high) = ends_within e.signed e.bits h in
    elim (Bool-cases (lt_int value (least e))) [
      | inl under ↦ rw (w, under, normalize) (keeps e (least e) h low)
      | inr over ↦ rw (w, over, normalize) (keeps e (greatest e) h high)
    ]

normalize-wrap :
    (e : BitFieldEncoding) (value : ℤ)
    → IsEncoding e
    → (r : ℕ) × (normalize e value BitFieldOverflow.wrap ≡ some r)
      × (encode e r ≡ rem_euclid value (2 ^ e.bits))
unfolding normalize
normalize-wrap e value h =
    let low_bits : (v : ℤ) → encode e (as_i64 v) ≡ rem_euclid v (2 ^ e.bits) = λ v.
      encode-mod e (as_i64 v) (as_i64-small v)
      ∙ as_i64-mod e.bits v (at_most_64 e.signed e.bits h) in
    elim (Bool-cases (is_within e value)) [
      | inl w ↦ (as_i64 value, rw (w, normalize) refl, low_bits value)
      | inr w ↦ (
        as_i64 (wrapped e value),
        rw (w, normalize) refl,
        low_bits (wrapped e value) ∙ wrapped-rem e.signed e.bits value,
      )
    ]

normalize-sat :
    (e : BitFieldEncoding) (value : ℤ)
    → IsEncoding e
    → read_as (normalize e value BitFieldOverflow.sat) ≡ some (nearest e value)
unfolding normalize
normalize-sat e value h = elim (Bool-cases (is_within e value)) [
  | inl w ↦
      let (above, below) = inside e.signed e.bits value w in
      let near : nearest e value ≡ value = rw (above, below) refl in
      ap read_as (normalize-within e value BitFieldOverflow.sat h w)
      ∙ ap some (fits e.signed e.bits value h w ∙ sym near)
  | inr w ↦
      let (low, high) = ends_within e.signed e.bits h in
      elim (Bool-cases (lt_int value (least e))) [
        | inl under ↦ rw (w, under, normalize) (ap some (fits e.signed e.bits (least e) h low))
        | inr over ↦
            let past = outside e.signed e.bits value h w over in
            rw (w, over, past, normalize) (ap some (fits e.signed e.bits (greatest e) h high))
      ]
]

-- BITFIELD on a value of any size, for each width that a request can name. What SET and INCRBY
-- store is within the bounds of the field, and nothing is stored just under FAIL with a value out
-- of bounds; under SAT it is the value of the field nearest to the given one; under WRAP its bits
-- are the last bits of the given one; and under each a value within the bounds is stored as it is.
pub normalize_lem :
    (e : BitFieldEncoding) (value : ℤ) (overflow : BitFieldOverflow)
    → IsEncoding e
    → IsInBounds e value overflow (normalize e value overflow)
      × (read_as (normalize e value BitFieldOverflow.sat) ≡ some (nearest e value))
      × ((r : ℕ) × (normalize e value BitFieldOverflow.wrap ≡ some r)
          × (encode e r ≡ rem_euclid value (2 ^ e.bits)))
      × (read_as (if is_within e value then normalize e value overflow else none)
          ≡ (if is_within e value then some value else none))
unfolding normalize
normalize_lem e value overflow h = elim (Bool-cases (is_within e value)) [
  | inl w ↦ (
    subst (IsInBounds e value overflow) (sym (normalize-within e value overflow h w))
        (keeps e value h w),
    normalize-sat e value h,
    normalize-wrap e value h,
    rw (w, normalize) (ap some (fits e.signed e.bits value h w)),
  )
  | inr w ↦ (
    normalize-bounds e value overflow h w,
    normalize-sat e value h,
    normalize-wrap e value h,
    rw w refl,
  )
]
