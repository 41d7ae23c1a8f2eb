-- ===== src/Cache/Bitmap/Field/Written.antt =====
-- The bits of a field in a string: what `write_bitfield` leaves for `read_bitfield` and for the
-- other bits.
use cache_cat.Prelude.{
  ℕ, zero, suc, ◌+◌, ◌-◌, ◌*◌, ◌/◌, ◌%◌, ◌^◌, ◌<◌, ◌≤◌, ◌≡◌, ◌∙◌, ap, sym, Bool, true, false, ◌&&◌,
  Bytes, if◌then◌else◌, length, ltb, leb, ◌==◌, arith, Bool-cases, inl, inr,
}
use native.Mathlib.Nat.{
  mod-eq_of_lt, div-eq_of_lt, div-eq_of_lt-le, pow-suc, add-mul, mul-add, mul_assoc, mul_comm,
  pow-le-pow_right, mul-add-mod_self_left, mod-lt,
}
use cache_cat.Value.Field.{as_i128, is_within, BitFieldEncoding, encode, decode}
use cache_cat.Cache.Bitmap.{bit_of, put_bit}
use cache_cat.Cache.Bitmap.Single.{bit_of-put_bit, length-put_bit}
use cache_cat.Cache.Bitmap.Field.{read_bits, read_bitfield, write_bits, write_bitfield}
use cache_cat.Cache.Bitmap.Field.Words.{pow-pos, mod-double, whole_words, halves, narrow}
use cache_cat.Cache.Bitmap.Field.Bounds.{IsEncoding, enc, encode-mod, at_most_64}

-- The bits from an offset on are those of the number, the first of them the most significant, and
-- the others are as they were.
bit_of-write_bits :
    (bytes : Bytes) (raw n o j : ℕ)
    → o + n ≤ 8 * length bytes
    → bit_of (write_bits bytes raw n o) j
      ≡ (if leb o j && ltb j (o + n) then raw / 2 ^ (n - 1 - (j - o)) % 2 else bit_of bytes j)
unfolding write_bits
bit_of-write_bits bytes raw zero o j h = ground arith
bit_of-write_bits bytes raw (suc n) o j h =
    let b : ℕ = raw / 2 ^ n % 2 in
    let first = bit_of-put_bit bytes o b j (omega (arith, h)) (omega arith) in
    let ih =
      bit_of-write_bits (put_bit bytes o b) raw n (suc o) j
        (omega (arith, h, length-put_bit bytes o b)) in
    ih ∙ elim (Bool-cases (o == j)) [
      | inl here ↦
          let place : n ≡ suc n - 1 - (j - o) = ground (arith, here) in
          let bit = ap (λ m. raw / 2 ^ m % 2) place in ground (arith, here, first, bit)
      | inr other ↦ elim (Bool-cases (leb (suc o) j && ltb j (suc o + n))) [
        | inl within ↦
            let place : n - 1 - (j - suc o) ≡ suc n - 1 - (j - o) = ground (arith, within) in
            let bit = ap (λ m. raw / 2 ^ m % 2) place in ground (arith, within, bit)
        | inr out ↦ ground (arith, other, out, first)
      ]
    ]

double_up :
    (acc n raw : ℕ)
    → (acc * 2 + raw / 2 ^ n % 2) * 2 ^ n + raw % 2 ^ n ≡ acc * 2 ^ suc n + raw % 2 ^ suc n
double_up acc n raw =
    let d : ℕ = 2 ^ n in
    let b : ℕ = raw / 2 ^ n % 2 in
    let product : acc * (d * 2) ≡ acc * 2 * d =
      ap (λ m. acc * m) (mul_comm d 2) ∙ sym (mul_assoc acc 2 d) in
    let split : (acc * 2 + b) * d + raw % d ≡ acc * (d * 2) + raw % (d * 2) =
      omega (arith, add-mul (acc * 2) b d, mod-double d raw (pow-pos n), product) in
    split ∙ ap (λ m. acc * m + raw % m) (sym (pow-suc 2 n))

read_bits-value :
    (bytes : Bytes) (n o acc k raw : ℕ)
    → ((i : ℕ) → i < n → bit_of bytes (o + i) ≡ raw / 2 ^ (n - 1 - i) % 2)
    → acc < 2 ^ k
    → k + n ≤ 64
    → read_bits bytes n o acc ≡ acc * 2 ^ n + raw % 2 ^ n
unfolding read_bits
read_bits-value bytes zero o acc k raw bits h le = omega arith
read_bits-value bytes (suc n) o acc k raw bits h le =
    let first : bit_of bytes o ≡ raw / 2 ^ n % 2 =
      ap (bit_of bytes) {x = o} {y = o + 0} (omega arith)
      ∙ bits 0 (omega arith)
      ∙ ap (λ m. raw / 2 ^ m % 2) {y = n} (omega arith) in
    let power = pow-suc 2 k in
    let top = pow-le-pow_right {n = 2} (omega arith) {i = suc k} {j = 64} (omega (arith, le)) in
    let shifted : acc * 2 % 2 ^ 64 ≡ acc * 2 = mod-eq_of_lt (omega (arith, h, power, top)) in
    let next : acc * 2 % 2 ^ 64 + bit_of bytes o ≡ acc * 2 + raw / 2 ^ n % 2 =
      omega (arith, shifted, first) in
    ap (read_bits bytes n (suc o)) next
    ∙ read_bits-value bytes n (suc o) (acc * 2 + raw / 2 ^ n % 2) (suc k) raw
        (λ i lt.
          ap (bit_of bytes) {x = suc o + i} {y = o + suc i} (omega arith)
          ∙ bits (suc i) (omega (arith, lt))
          ∙ ap (λ m. raw / 2 ^ m % 2) {x = suc n - 1 - suc i} {y = n - 1 - i} (omega arith))
        (omega (arith, h, power)) (omega (arith, le))
    ∙ double_up acc n raw

-- The last bits of a negative number: the other bits are all ones.
last_bits :
    (n value : ℕ)
    → n ≤ 64
    → 2 ^ 64 ≤ value + 2 ^ n
    → value < 2 ^ 64
    → value % 2 ^ n ≡ value - (2 ^ 64 - 2 ^ n)
last_bits n value h above small =
    let d : ℕ = 2 ^ n in
    let k : ℕ = 2 ^ (64 - n) in
    let parts : k ≡ k - 1 + 1 = omega (arith, pow-pos (64 - n)) in
    let product : 2 ^ 64 ≡ d * (k - 1) + d =
      whole_words n h ∙ ap (λ m. d * m) parts ∙ omega (arith, mul-add d (k - 1) 1) in
    let split : value ≡ d * (k - 1) + (value - (2 ^ 64 - d)) =
      omega (arith, product, above, small) in
    ap (λ v. v % d) split
    ∙ mul-add-mod_self_left d (k - 1) (value - (2 ^ 64 - d))
    ∙ mod-eq_of_lt (omega (arith, product, above, small, pow-pos n))

-- The bits of a value that fits read as the value.
decode-encode :
    (s : Bool) (n value : ℕ)
    → IsEncoding (enc s n)
    → value < 2 ^ 64
    → is_within (enc s n) (as_i128 value) ≡ true
    → decode (enc s n) (value % 2 ^ n) ≡ value
unfolding decode
decode-encode false n value h small w =
    let (pos, top) = narrow n h.1 in mod-eq_of_lt (ground (arith, w, small, pos, top))
decode-encode true n value h small w = elim (Bool-cases (n == 64)) [
  | inl all ↦
      let full : n ≡ 64 = ground (arith, all) in
      rw (all, decode) (ap (λ m. value % 2 ^ m) full ∙ mod-eq_of_lt small)
  | inr part ↦
      let (two, pos, top) = halves n h.0 h.1 in
      let p : ℕ = 2 ^ (n - 1) in
      elim (Bool-cases (ltb value (2 ^ 63))) [
        | inl plus ↦
            let below : value < p = ground (arith, w, plus, pos, top) in
            let whole : value % 2 ^ n ≡ value = mod-eq_of_lt (omega (arith, below, two)) in
            let sign : value % 2 ^ n / p ≡ 0 = ap (λ v. v / p) whole ∙ div-eq_of_lt below in
            let bit : (value % 2 ^ n / p % 2 == 1) ≡ false = ground (arith, sign) in
            rw (part, bit, decode) whole
        | inr minus ↦
            let above : 2 ^ 64 ≤ value + p = ground (arith, w, minus, small, pos, top) in
            let rest : value % 2 ^ n ≡ value - (2 ^ 64 - 2 ^ n) =
              last_bits n value h.1 (omega (arith, above, two)) small in
            let size = pow-le-pow_right {n = 2} (omega arith) {i = n} {j = 64} h.1 in
            let sign : value % 2 ^ n / p ≡ 1 =
              div-eq_of_lt-le p {m = value % 2 ^ n} (omega (arith, rest, above, two, size))
                (omega (arith, rest, small, two, size)) in
            let bit : (value % 2 ^ n / p % 2 == 1) ≡ true = ground (arith, sign) in
            let same : value % 2 ^ n % 2 ^ n ≡ value % 2 ^ n =
              mod-eq_of_lt (mod-lt value (pow-pos n)) in
            rw (part, bit, decode) (omega (arith, same, rest, above, two, size))
      ]
]

-- SET and then GET of a field, for each width and each value that the field can hold, where the
-- string has room: the value reads as it was written, and no bit outside the field has changed.
pub write_bitfield-read_bitfield :
    (bytes : Bytes) (e : BitFieldEncoding) (offset value j : ℕ)
    → IsEncoding e
    → value < 2 ^ 64
    → is_within e (as_i128 value) ≡ true
    → offset + e.bits ≤ 8 * length bytes
    → (read_bitfield (write_bitfield bytes e offset value) e offset ≡ value)
      × (bit_of (write_bitfield bytes e offset value) j ≡ (
          if leb offset j && ltb j (offset + e.bits)
          then encode e value / 2 ^ (e.bits - 1 - (j - offset)) % 2
          else bit_of bytes j))
unfolding read_bitfield write_bitfield
write_bitfield-read_bitfield bytes e offset value j h small w room =
    let raw : ℕ = encode e value in
    let new : Bytes = write_bits bytes raw e.bits offset in
    let bits : (i : ℕ) → i < e.bits → bit_of new (offset + i) ≡ raw / 2 ^ (e.bits - 1 - i) % 2 =
      λ i lt.
        let inside : (leb offset (offset + i) && ltb (offset + i) (offset + e.bits)) ≡ true =
          ground (arith, lt) in
        bit_of-write_bits bytes raw e.bits offset (offset + i) room
        ∙ rw inside (
            ap (λ m. raw / 2 ^ (e.bits - 1 - m) % 2) {x = offset + i - offset} {y = i}
              (omega arith)) in
    let again : value % 2 ^ e.bits % 2 ^ e.bits ≡ value % 2 ^ e.bits =
      mod-eq_of_lt (mod-lt value (pow-pos e.bits)) in
    let read : read_bits new e.bits offset 0 ≡ value % 2 ^ e.bits =
      read_bits-value new e.bits offset 0 0 raw bits (omega arith)
        (omega (arith, at_most_64 e.signed e.bits h))
      ∙ ap (λ r. 0 * 2 ^ e.bits + r % 2 ^ e.bits) (encode-mod e value small)
      ∙ omega (arith, again) in
    (
      ap (decode e) read ∙ decode-encode e.signed e.bits value h small w,
      bit_of-write_bits bytes raw e.bits offset j room,
    )
