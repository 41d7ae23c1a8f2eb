-- ===== src/Protocol/Lines.antt =====
-- Lines and blobs of the wire: what `read_line`, `read_i64` and `read_blob` find in front of a
-- buffer that begins with one.
use mathlib.Core.List.{append_assoc}
use cache_cat.Prelude.{
  ℕ, ◌+◌, ◌-◌, ◌^◌, ◌<◌, ◌≤◌, ◌≡◌, refl, ◌∙◌, ap, Bool, false, some, List, [], ◌∷◌, ◌++◌, Bytes,
  ltb, leb, ◌==◌, length, length-append, take, drop, arith, All,
}
use cache_cat.Value.Print.{to_string, read_i64-to_string, to_string-All}
use cache_cat.Protocol.Encode.{eof, put_line, put_blob}
use cache_cat.Protocol.Parse.{find_line, read_line, read_i64, read_blob}

-- No byte of it is a carriage return.
abbrev pub IsLine : Bytes → Type 0
IsLine line = All (λ b. (b == 13) ≡ false) line

pub take-length {ℓ} : {A : Type ℓ} (xs ys : List A) → take (length xs) (xs ++ ys) ≡ xs
take-length [] ys = refl
take-length (x ∷ xs) ys = ap (λ l. x ∷ l) (take-length xs ys)

pub drop-length {ℓ} : {A : Type ℓ} (xs ys : List A) → drop (length xs) (xs ++ ys) ≡ ys
drop-length [] ys = refl
drop-length (x ∷ xs) ys = drop-length xs ys

find_line-eof :
    (line rest : Bytes) → IsLine line → find_line (line ++ (13 ∷ 10 ∷ rest)) ≡ some (length line)
find_line-eof [] rest h = refl
find_line-eof (a ∷ []) rest h = ground (arith, h)
find_line-eof (a ∷ b ∷ line) rest h = rw (h.0) (rw (find_line-eof (b ∷ line) rest h.1) refl)

pub to_string-IsLine : (n : ℕ) → IsLine (to_string n)
to_string-IsLine n = to_string-All (λ b. (b == 13) ≡ false) (λ b d. ground (arith, d)) refl n

pub length-put_line : (mode : ℕ) (line : Bytes) → length (put_line mode line) ≡ length line + 3
length-put_line mode line = omega (arith, length-append line eof)

pub read_line-put_line :
    (mode : ℕ) (line rest : Bytes)
    → IsLine line
    → read_line (put_line mode line ++ rest) ≡ some (line, length (put_line mode line))
unfolding read_line
read_line-put_line mode line rest h =
    let size : length line + 3 ≡ length (put_line mode line) =
      omega (arith, length-put_line mode line) in
    rw (append_assoc line eof rest) (
      rw (find_line-eof line rest h, read_line)
        (rw (take-length line (eof ++ rest)) (ap (λ n. some (line, n)) size)))

pub read_i64-put_line :
    (mode n : ℕ) (rest : Bytes)
    → n < 2 ^ 64
    → read_i64 (put_line mode (to_string n) ++ rest)
      ≡ some (n, length (put_line mode (to_string n)))
unfolding read_i64
read_i64-put_line mode n rest h =
    rw (read_line-put_line mode (to_string n) rest (to_string-IsLine n), read_i64)
      (rw (read_i64-to_string n h) refl)

read_blob_lem :
    (buffer : Bytes) (allow_null : Bool) (len pos : ℕ)
    → read_i64 buffer ≡ some (len, pos)
    → len < 2 ^ 63
    → pos + len + 2 ≤ length buffer
    → read_blob buffer allow_null ≡ some (pos + len + 2, some (pos, len))
unfolding read_blob
read_blob_lem buffer allow_null len pos e h k =
    let not_null : (len == 2 ^ 64 - 1) ≡ false = ground (arith, h) in
    let not_negative : leb (2 ^ 63) len ≡ false = ground (arith, h) in
    let there : ltb (length buffer) (pos + len + 2) ≡ false = ground (arith, k) in
    rw (e, read_blob) (rw (not_negative, there) (ground (arith, not_null)))

pub length-put_blob :
    (mode : ℕ) (bytes : Bytes)
    → length (put_blob mode bytes)
      ≡ length (put_line mode (to_string (length bytes))) + length bytes + 2
length-put_blob mode bytes = omega (
  arith,
  length-append (put_line mode (to_string (length bytes))) (bytes ++ eof),
  length-append bytes eof,
)

-- The blob, its length and where it begins.
pub read_blob-put_blob :
    (mode : ℕ) (bytes rest : Bytes) (allow_null : Bool)
    → length bytes < 2 ^ 63
    → read_blob (put_blob mode bytes ++ rest) allow_null
      ≡ some (
        length (put_blob mode bytes),
        some (length (put_line mode (to_string (length bytes))), length bytes),
      )
read_blob-put_blob mode bytes rest allow_null h =
    let first = put_line mode (to_string (length bytes)) in
    let read : read_i64 (put_blob mode bytes ++ rest) ≡ some (length bytes, length first) =
      ap read_i64 (append_assoc first (bytes ++ eof) rest)
      ∙ read_i64-put_line mode (length bytes) ((bytes ++ eof) ++ rest) (omega (arith, h)) in
    read_blob_lem (put_blob mode bytes ++ rest) allow_null (length bytes) (length first) read h
      (omega (arith, length-append (put_blob mode bytes) rest, length-put_blob mode bytes))
    ∙ ap (λ n. some (n, some (length first, length bytes)))
        (omega (arith, length-put_blob mode bytes))
