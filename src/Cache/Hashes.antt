-- ===== src/Cache/Hashes.antt =====
-- The commands on hashes: cache_cat/src/protocol/hash. A hash is changed in place, behind the `Arc`
-- that the entry and its copies share; here the entry that is written has the new content.
pub mod Fields
use cache_cat.Prelude.{
  bytes_eq, ℕ, ◌+◌, Option, none, some, List, [], ◌∷◌, Bytes, if◌then◌else◌, length, ◌==◌,
}
use cache_cat.Value.{Value, Values, ValuePairs, HashValue, ValueObject, MyValue, ok}
use cache_cat.Value.Number.{parse_i64}
use cache_cat.Value.Print.{to_string}
use cache_cat.Value.Signed.{add_i64}
use cache_cat.Value.Table.{lookup, put, forget, is_some}
use cache_cat.Mocha.{EntrySnapshot, MochaOperation, insert, abort, persistent, get_expire_policy}
use cache_cat.Cache.{BaseOperation, new_value, wrong_type}
use cache_cat.Cache.Compute.{ComputeCommand}
use cache_cat.Cache.Read.{ReadCommand}

abbrev pub Hash : Type 0
Hash = List (Bytes × HashValue)

unfoldable pub to_bytes : HashValue → Bytes
unfolding to_string
to_bytes (HashValue.str value) = value
to_bytes (HashValue.int value) = to_string value

-- A text that reads as an i64 is kept as the number.
unfoldable pub hash_value_of : Bytes → HashValue
unfolding parse_i64
hash_value_of value = elim (parse_i64 value) [
  | none ↦ HashValue.str value
  | some i ↦ HashValue.int i
]

-- `entry.value.clone()` once the hash behind it has changed.
unfoldable pub write_hash : EntrySnapshot MyValue → Hash → Value → MochaOperation MyValue × Value
unfolding get_expire_policy
write_hash entry map reply =
    (insert (record entry.value { data_ = ValueObject.hash map }) (get_expire_policy entry), reply)

-- What a command does to the entry of a hash.
unfoldable pub on_hash :
    EntrySnapshot MyValue → (Hash → MochaOperation MyValue × Value) → MochaOperation MyValue × Value
on_hash entry run = elim entry.value.data_ [
  | ValueObject.hash map ↦ run map
  | _ ↦ (abort, wrong_type)
]

-- The loop of `mutate`: the hash, and the count of the fields that are new.
unfoldable pub set_all : Hash → List (Bytes × Bytes) → ℕ → Hash × ℕ
unfolding hash_value_of
set_all map [] count = (map, count)
set_all map (e ∷ elements) count =
    set_all (put map e.0 (hash_value_of e.1)) elements
      (count + (if is_some (lookup map e.0) then 0 else 1))

unfoldable pub h_set_req : Bytes → List (Bytes × Bytes) → ComputeCommand
unfolding on_hash write_hash set_all
h_set_req key elements = record {
  key = key;
  into_base_op = BaseOperation.h_set key elements;
  mutate = λ entry write_clock. on_hash entry (λ map.
      let (map', count) = set_all map elements 0 in write_hash entry map' (Value.integer count));
  init = (
    insert (new_value (ValueObject.hash (set_all [] elements 0).0)) persistent,
    Value.integer (length elements),
  );
}

unfoldable pub delete_all : Hash → List Bytes → ℕ → Hash × ℕ
delete_all map [] count = (map, count)
delete_all map (field ∷ fields) count =
    delete_all (forget map field) fields (count + (if is_some (lookup map field) then 1 else 0))

unfoldable pub h_del_req : Bytes → List Bytes → ComputeCommand
unfolding on_hash write_hash delete_all
h_del_req key fields = record {
  key = key;
  into_base_op = BaseOperation.h_del key fields;
  mutate = λ entry write_clock. on_hash entry (λ map.
      let (map', count) = delete_all map fields 0 in
      if count == 0 then (abort, Value.integer 0) else write_hash entry map' (Value.integer count));
  init = (abort, Value.integer 0);
}

unfoldable pub h_incr_req : Bytes → Bytes → ℕ → ComputeCommand
unfolding on_hash write_hash
h_incr_req key field value = record {
  key = key;
  into_base_op = BaseOperation.h_incr key field value;
  mutate = λ entry write_clock. on_hash entry (λ map. elim (lookup map field) [
    | none ↦ write_hash entry (put map field (HashValue.int value)) (Value.integer value)
    | some v ↦ elim v [
      | HashValue.str text ↦ (abort, Value.error "ERR hash value is not an integer")
      | HashValue.int i ↦
          write_hash entry (put map field (HashValue.int (add_i64 i value)))
            (Value.integer (add_i64 i value))
    ]
  ]);
  init = (
    insert (new_value (ValueObject.hash ((field, HashValue.int value) ∷ []))) persistent,
    Value.integer value,
  );
}

unfoldable pub h_set_nx_req : Bytes → Bytes → Bytes → ComputeCommand
unfolding on_hash write_hash hash_value_of
h_set_nx_req key field value = record {
  key = key;
  into_base_op = BaseOperation.h_set_nx key field value;
  mutate = λ entry write_clock. on_hash entry (λ map.
      if is_some (lookup map field)
      then (abort, Value.integer 0)
      else write_hash entry (put map field (hash_value_of value)) (Value.integer 1));
  init = (
    insert (new_value (ValueObject.hash ((field, hash_value_of value) ∷ []))) persistent,
    Value.integer 1,
  );
}

-- HMSET keeps each value as the text that it is.
unfoldable pub put_texts : Hash → List (Bytes × Bytes) → Hash
put_texts map [] = map
put_texts map (e ∷ fields) = put_texts (put map e.0 (HashValue.str e.1)) fields

unfoldable pub h_m_set_req : Bytes → List (Bytes × Bytes) → ComputeCommand
unfolding on_hash write_hash put_texts
h_m_set_req key fields = record {
  key = key;
  into_base_op = BaseOperation.h_m_set key fields;
  mutate = λ entry write_clock. on_hash entry (λ map. write_hash entry (put_texts map fields) ok);
  init = (insert (new_value (ValueObject.hash (put_texts [] fields))) persistent, ok);
}

unfoldable pub field_reply : Hash → Bytes → Value
unfolding to_bytes
field_reply map field = elim (lookup map field) [
  | none ↦ Value.bulk_string none
  | some v ↦ Value.bulk_string (some (to_bytes v))
]

unfoldable pub h_get : Bytes → Option (EntrySnapshot MyValue) → Value
unfolding field_reply
h_get field none = Value.bulk_string none
h_get field (some v) = elim v.value.data_ [
  | ValueObject.hash map ↦ field_reply map field
  | _ ↦ wrong_type
]

unfoldable pub field_replies : Hash → List Bytes → Values
unfolding field_reply
field_replies map [] = Values.nil
field_replies map (field ∷ fields) = Values.more (field_reply map field) (field_replies map fields)

unfoldable pub h_m_get : List Bytes → Option (EntrySnapshot MyValue) → Value
unfolding field_replies
h_m_get fields none = Value.bulk_string none
h_m_get fields (some v) = elim v.value.data_ [
  | ValueObject.hash map ↦ Value.array (field_replies map fields)
  | _ ↦ wrong_type
]

unfoldable pub all_pairs : Hash → ValuePairs
unfolding to_bytes
all_pairs [] = ValuePairs.nil_pairs
all_pairs (e ∷ map) =
    ValuePairs.more_pairs (Value.bulk_string (some e.0)) (Value.bulk_string (some (to_bytes e.1)))
      (all_pairs map)

unfoldable pub h_get_all : Option (EntrySnapshot MyValue) → Value
unfolding all_pairs
h_get_all none = Value.map ValuePairs.nil_pairs
h_get_all (some v) = elim v.value.data_ [
  | ValueObject.hash map ↦ Value.map (all_pairs map)
  | _ ↦ wrong_type
]

abbrev pub all_fields : Hash → Values
all_fields [] = Values.nil
all_fields (e ∷ map) = Values.more (Value.bulk_string (some e.0)) (all_fields map)

unfoldable pub h_keys : Option (EntrySnapshot MyValue) → Value
h_keys none = Value.array Values.nil
h_keys (some v) = elim v.value.data_ [
  | ValueObject.hash map ↦ Value.array (all_fields map)
  | _ ↦ wrong_type
]

unfoldable pub all_values : Hash → Values
unfolding to_bytes
all_values [] = Values.nil
all_values (e ∷ map) = Values.more (Value.bulk_string (some (to_bytes e.1))) (all_values map)

unfoldable pub h_vals : Option (EntrySnapshot MyValue) → Value
unfolding all_values
h_vals none = Value.array Values.nil
h_vals (some v) = elim v.value.data_ [
  | ValueObject.hash map ↦ Value.array (all_values map)
  | _ ↦ wrong_type
]

unfoldable pub h_len : Option (EntrySnapshot MyValue) → Value
h_len none = Value.integer 0
h_len (some v) = elim v.value.data_ [
  | ValueObject.hash map ↦ Value.integer (length map)
  | _ ↦ wrong_type
]

unfoldable pub h_exists : Bytes → Option (EntrySnapshot MyValue) → Value
h_exists field none = Value.integer 0
h_exists field (some v) = elim v.value.data_ [
  | ValueObject.hash map ↦ if is_some (lookup map field) then Value.integer 1 else Value.integer 0
  | _ ↦ wrong_type
]
