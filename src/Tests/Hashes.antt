-- ===== src/Tests/Hashes.antt =====
-- The commands on hashes, on a hash of one field.
use cache_cat.Prelude.{
  bytes_eq, ℕ, ◌+◌, ◌≡◌, refl, none, some, List, [], ◌∷◌, Bytes, if◌then◌else◌, length,
}
use cache_cat.Value.{Value, HashValue, ValueObject, MyValue}
use cache_cat.Value.Number.{
  parse_i64, trim, trim_start, trim_end, read_i64, read_number, read_digits,
}
use cache_cat.Value.Print.{to_string, print_digits}
use cache_cat.Value.Table.{names}
use cache_cat.Mocha.{EntrySnapshot}
use cache_cat.Cache.{new_value}
use cache_cat.Cache.Read.{left_by}
use cache_cat.Cache.Hashes.{
  Hash, on_hash, write_hash, set_all, h_set_req, h_del_req, h_m_set_req, put_texts, h_incr_req,
  h_get, h_len,
}
use cache_cat.Cache.Hashes.Fields.{with_hash, last_of, printed, h_set-h_get}

abbrev a : Bytes
a = b'a' ∷ []

abbrev b : Bytes
b = b'b' ∷ []

abbrev map : Hash
map = (a, HashValue.str (b'x' ∷ [])) ∷ []

abbrev entry : EntrySnapshot MyValue
entry = record { value = new_value (ValueObject.hash map); expire_at = some 150 }

abbrev elements : List (Bytes × Bytes)
elements = (a, b'1' ∷ []) ∷ (b, b' ' ∷ b'7' ∷ []) ∷ []

-- A text with a blank before a number comes back without it.
trimmed_value : printed (b' ' ∷ b'7' ∷ []) ≡ b'7' ∷ []
unfolding parse_i64 trim trim_start trim_end read_i64 read_number read_digits to_string print_digits
trimmed_value = refl

-- A field that is named twice counts twice on a key that is missing, and once on one that is there.
twice :
    ((h_set_req a ((b, a) ∷ (b, a) ∷ [])).init.1 ≡ Value.integer 2)
    × (((h_set_req a ((b, a) ∷ (b, a) ∷ [])).mutate entry 100).1 ≡ Value.integer 1)
unfolding h_set_req on_hash write_hash set_all
twice = (refl, refl)

-- A number that HMSET has set is a text for HINCRBY.
no_number :
    ((h_incr_req a a 1).mutate (left_by (h_m_set_req a ((a, b'5' ∷ []) ∷ [])).init entry) 100).1
    ≡ Value.error "ERR hash value is not an integer"
unfolding h_incr_req h_m_set_req put_texts on_hash
no_number = refl

h_set-h_get_example :
    (h_get b (
        some
          (left_by ((h_set_req a elements).mutate (with_hash entry map) 100) (with_hash entry map)))
      ≡ elim (last_of elements b) [
        | none ↦ h_get b (some (with_hash entry map))
        | some value ↦ Value.bulk_string (some (printed value))
      ])
    × ((count : ℕ) × (((h_set_req a elements).mutate (with_hash entry map) 100).1
          ≡ Value.integer count)
        × (h_len (
              some (
                left_by
                  ((h_set_req a elements).mutate (with_hash entry map) 100)
                  (with_hash entry map)))
            ≡ Value.integer (length map + count)))
    × (h_get b (
          some (
            left_by
              ((h_del_req a (a ∷ [])).mutate (with_hash entry map) 100)
              (with_hash entry map)))
        ≡ (if names (a ∷ []) b
            then Value.bulk_string none
            else h_get b (some (with_hash entry map))))
    × ((count : ℕ) × (((h_del_req a (a ∷ [])).mutate (with_hash entry map) 100).1
          ≡ Value.integer count)
        × ((rest : ℕ) × (h_len (
                some (
                  left_by
                    ((h_del_req a (a ∷ [])).mutate (with_hash entry map) 100)
                    (with_hash entry map)))
              ≡ Value.integer rest)
            × (rest + count ≡ length map)))
h_set-h_get_example = h_set-h_get entry 100 a map elements (a ∷ []) b (refl, tt)
