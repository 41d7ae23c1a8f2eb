-- ===== src/Cache/Hashes/Fields.antt =====
-- The fields of a hash: HSET and HDEL against HGET and HLEN.
use cache_cat.Prelude.{
  ℕ, ◌+◌, ◌≤◌, ◌≡◌, refl, ◌∙◌, ap, sym, Option, none, some, List, [], ◌∷◌, Bytes, same, bytes_eq,
  if◌then◌else◌, length, ◌==◌, arith, Bool-cases, Option-cases, inl, inr,
}
use cache_cat.Value.{Value, HashValue, ValueObject, MyValue}
use cache_cat.Value.Number.{parse_i64}
use cache_cat.Value.Print.{to_string}
use cache_cat.Value.Table.{
  lookup, put, forget, is_some, names, IsTable, lookup-put, length-put, lookup-forget,
  forget-IsTable, length-forget, forget_missing,
}
use cache_cat.Mocha.{EntrySnapshot}
use cache_cat.Cache.Read.{left_by}
use cache_cat.Cache.Hashes.{
  Hash, to_bytes, hash_value_of, write_hash, on_hash, set_all, h_set_req, delete_all, h_del_req,
  field_reply, h_get, h_len,
}

-- An entry of a hash.
abbrev pub with_hash : EntrySnapshot MyValue → Hash → EntrySnapshot MyValue
with_hash entry map = record entry { value = record entry.value { data_ = ValueObject.hash map } }

-- The value of the last pair that names a field.
abbrev pub last_of : List (Bytes × Bytes) → Bytes → Option Bytes
last_of [] field = none
last_of (e ∷ elements) field = elim (last_of elements field) [
  | none ↦ if same e.0 field then some e.1 else none
  | some value ↦ some value
]

-- The text that a value reads as: the decimal digits of a text that is a number.
abbrev pub printed : Bytes → Bytes
printed value = elim (parse_i64 value) [ none ↦ value | some i ↦ to_string i ]

lookup-set_all :
    (map : Hash) (elements : List (Bytes × Bytes)) (count : ℕ) (field : Bytes)
    → lookup (set_all map elements count).0 field ≡ elim (last_of elements field) [
      | none ↦ lookup map field
      | some value ↦ some (hash_value_of value)
    ]
unfolding set_all
lookup-set_all map [] count field = refl
lookup-set_all map (e ∷ elements) count field =
    let count' : ℕ = count + (if is_some (lookup map e.0) then 0 else 1) in
    lookup-set_all (put map e.0 (hash_value_of e.1)) elements count' field
    ∙ elim (Option-cases (last_of elements field)) [
      | inr (value, later) ↦ rw later refl
      | inl none_later ↦ rw none_later (
          lookup-put map e.0 (hash_value_of e.1) field ∙ elim (Bool-cases (same e.0 field)) [
            | inl here ↦ rw here refl
            | inr past ↦ rw past refl
          ])
    ]

length-set_all :
    (map : Hash) (elements : List (Bytes × Bytes)) (count : ℕ)
    → length (set_all map elements count).0 + count ≡ length map + (set_all map elements count).1
unfolding set_all
length-set_all map [] count = refl
length-set_all map (e ∷ elements) count =
    let count' : ℕ = count + (if is_some (lookup map e.0) then 0 else 1) in
    omega (
      arith,
      length-set_all (put map e.0 (hash_value_of e.1)) elements count',
      length-put map e.0 (hash_value_of e.1),
    )

lookup-delete_all :
    (map : Hash) (fields : List Bytes) (count : ℕ) (field : Bytes)
    → IsTable map
    → lookup (delete_all map fields count).0 field
      ≡ (if names fields field then none else lookup map field)
unfolding delete_all
lookup-delete_all map [] count field h = refl
lookup-delete_all map (x ∷ fields) count field h =
    lookup-delete_all (forget map x) fields (count + (if is_some (lookup map x) then 1 else 0))
      field (forget-IsTable map x h)
    ∙ ground (arith, lookup-forget map x field h)

length-delete_all :
    (map : Hash) (fields : List Bytes) (count : ℕ)
    → length (delete_all map fields count).0 + (delete_all map fields count).1 ≡ length map + count
unfolding delete_all
length-delete_all map [] count = refl
length-delete_all map (x ∷ fields) count = omega (
  arith,
  length-delete_all (forget map x) fields (count + (if is_some (lookup map x) then 1 else 0)),
  length-forget map x,
)

delete_all-grows :
    (map : Hash) (fields : List Bytes) (count : ℕ) → count ≤ (delete_all map fields count).1
unfolding delete_all
delete_all-grows map [] count = omega arith
delete_all-grows map (x ∷ fields) count = omega (
  arith,
  delete_all-grows (forget map x) fields (count + (if is_some (lookup map x) then 1 else 0)),
)

-- Where no field was there, the hash is as it was.
delete_all-none :
    (map : Hash) (fields : List Bytes) (count : ℕ)
    → (delete_all map fields count).1 ≡ count
    → (delete_all map fields count).0 ≡ map
unfolding delete_all
delete_all-none map [] count h = refl
delete_all-none map (x ∷ fields) count h = elim (Bool-cases (is_some (lookup map x))) [
  | inl there ↦
      let new : ℕ = if is_some (lookup map x) then 1 else 0 in
      let one : new ≡ 1 = rw there refl in
      absurd (
        omega (
          arith,
          h,
          one,
          delete_all-grows (forget map x) fields
              (count + (if is_some (lookup map x) then 1 else 0)),
        ))
  | inr missing ↦
      let same_count : count + (if is_some (lookup map x) then 1 else 0) ≡ count =
        rw missing (omega arith) in
      delete_all-none (forget map x) fields (count + (if is_some (lookup map x) then 1 else 0))
        (h ∙ sym same_count)
      ∙ forget_missing map x missing
]

-- What HDEL leaves, whether it writes the hash or not.
h_del-left :
    (entry : EntrySnapshot MyValue) (write_clock : ℕ) (key : Bytes) (map : Hash)
    (fields : List Bytes)
    → ((h_del_req key fields).mutate (with_hash entry map) write_clock).1
        ≡ Value.integer (delete_all map fields 0).1
      × (left_by
          ((h_del_req key fields).mutate (with_hash entry map) write_clock)
          (with_hash entry map)).value.data_
        ≡ ValueObject.hash (delete_all map fields 0).0
unfolding h_del_req on_hash write_hash
h_del-left entry write_clock key map fields = elim (Bool-cases ((delete_all map fields 0).1 == 0)) [
  | inl nothing ↦
      let zero_count : (delete_all map fields 0).1 ≡ 0 = ground (arith, nothing) in
      rw (nothing, h_del_req)
        (
          ap Value.integer (sym zero_count),
          ap ValueObject.hash (sym (delete_all-none map fields 0 zero_count)),
        )
  | inr gone ↦ rw (gone, h_del_req) (refl, refl)
]

h_get-hash :
    (v : EntrySnapshot MyValue) (map : Hash) (field : Bytes)
    → v.value.data_ ≡ ValueObject.hash map
    → h_get field (some v) ≡ field_reply map field
unfolding h_get
h_get-hash v map field e = rw (e, h_get) refl

h_len-hash :
    (v : EntrySnapshot MyValue) (map : Hash)
    → v.value.data_ ≡ ValueObject.hash map
    → h_len (some v) ≡ Value.integer (length map)
unfolding h_len
h_len-hash v map e = rw (e, h_len) refl

text_of_value : (value : Bytes) → to_bytes (hash_value_of value) ≡ printed value
unfolding to_bytes hash_value_of
text_of_value value = elim (Option-cases (parse_i64 value)) [
  | inl text ↦ rw (text, hash_value_of, printed) refl
  | inr (i, e) ↦ rw (e, hash_value_of, printed) refl
]

abbrev reply_of : Option HashValue → Value
reply_of none = Value.bulk_string none
reply_of (some v) = Value.bulk_string (some (to_bytes v))

field_reply-lookup :
    (map : Hash) (field : Bytes) → field_reply map field ≡ reply_of (lookup map field)
unfolding field_reply
field_reply-lookup map field = elim (Option-cases (lookup map field)) [
  | inl missing ↦ rw (missing, field_reply) refl
  | inr (v, e) ↦ rw (e, field_reply) refl
]

-- HSET and HDEL on a key with a hash, for every field. After HSET, HGET finds of a field that is
-- named the last value that it was given, as its decimal digits where the value reads as a number,
-- and of any other field what it found before; the reply is by how many fields HLEN has grown.
-- After HDEL, HGET finds none of the fields that are named and of any other field what it found
-- before; the reply is by how many fields HLEN has shrunk.
pub h_set-h_get :
    (entry : EntrySnapshot MyValue) (write_clock : ℕ) (key : Bytes) (map : Hash)
    (elements : List (Bytes × Bytes)) (fields : List Bytes) (field : Bytes)
    → IsTable map
    → (h_get field (
          some (
            left_by
              ((h_set_req key elements).mutate (with_hash entry map) write_clock)
              (with_hash entry map)))
        ≡ elim (last_of elements field) [
          | none ↦ h_get field (some (with_hash entry map))
          | some value ↦ Value.bulk_string (some (printed value))
        ])
      × ((count : ℕ) × (((h_set_req key elements).mutate (with_hash entry map) write_clock).1
            ≡ Value.integer count)
          × (h_len (
                some (
                  left_by
                    ((h_set_req key elements).mutate (with_hash entry map) write_clock)
                    (with_hash entry map)))
              ≡ Value.integer (length map + count)))
      × (h_get field (
            some (
              left_by
                ((h_del_req key fields).mutate (with_hash entry map) write_clock)
                (with_hash entry map)))
          ≡ (if names fields field
              then Value.bulk_string none
              else h_get field (some (with_hash entry map))))
      × ((count : ℕ) × (((h_del_req key fields).mutate (with_hash entry map) write_clock).1
            ≡ Value.integer count)
          × ((rest : ℕ) × (h_len (
                  some (
                    left_by
                      ((h_del_req key fields).mutate (with_hash entry map) write_clock)
                      (with_hash entry map)))
                ≡ Value.integer rest)
              × (rest + count ≡ length map)))
unfolding h_set_req on_hash write_hash h_get h_len field_reply
h_set-h_get entry write_clock key map elements fields field h =
    let (replied, left) = h_del-left entry write_clock key map fields in
    let after_del : EntrySnapshot MyValue =
      left_by ((h_del_req key fields).mutate (with_hash entry map) write_clock)
        (with_hash entry map) in
    (
      field_reply-lookup (set_all map elements 0).0 field
          ∙ ap reply_of (lookup-set_all map elements 0 field)
          ∙ elim (Option-cases (last_of elements field)) [
            | inl kept ↦ rw kept (sym (field_reply-lookup map field))
            | inr (value, e) ↦ rw e (ap (λ b. Value.bulk_string (some b)) (text_of_value value))
          ],
      (
        (set_all map elements 0).1,
        refl,
        ap Value.integer (omega (arith, length-set_all map elements 0)),
      ),
      h_get-hash after_del (delete_all map fields 0).0 field left
          ∙ field_reply-lookup (delete_all map fields 0).0 field
          ∙ ap reply_of (lookup-delete_all map fields 0 field h)
          ∙ elim (Bool-cases (names fields field)) [
            | inl gone ↦ rw gone refl
            | inr kept ↦ rw kept (sym (field_reply-lookup map field))
          ],
      (
        (delete_all map fields 0).1,
        replied,
        (
          length (delete_all map fields 0).0,
          h_len-hash after_del (delete_all map fields 0).0 left,
          omega (arith, length-delete_all map fields 0),
        ),
      ),
    )
