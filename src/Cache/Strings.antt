-- ===== src/Cache/Strings.antt =====
-- The commands on strings and numbers, as `execute_compute` runs them: `SetReq`, `IncrReq`,
-- `IncrByReq`, `DecrReq`, `DecrByReq` and `AppendReq` of cache_cat/src/protocol/string.
-- Additions of i64 wrap around, as a release build has them.
use cache_cat.Prelude.{ℕ, ◌-◌, ◌^◌, none, some, ◌++◌, Bytes, ◌==◌, if◌then◌else◌, length, String}
use cache_cat.Value.{Value, ValueObject, MyValue, ok}
use cache_cat.Value.Number.{parse_i64}
use cache_cat.Value.Signed.{add_i64, sub_i64}
use cache_cat.Mocha.{
  EntrySnapshot, MochaOperation, insert, abort, ExpirePolicy, persistent, absolute,
  get_expire_policy,
}
use cache_cat.Cache.{BaseOperation, new_value}
use cache_cat.Cache.Compute.{ComputeCommand, next_u32}

-- `self.ex_time == 0` stands for no expiry.
unfoldable pub policy_of : ℕ → ExpirePolicy
policy_of ex_time = if ex_time == 0 then persistent else absolute ex_time

-- A text that reads as an i64 is kept as the number.
unfoldable pub object_of : Bytes → ValueObject
object_of value = elim (parse_i64 value) [
  | none ↦ ValueObject.string value
  | some v ↦ ValueObject.int v
]

unfoldable pub set_req : Bytes → Bytes → ℕ → ComputeCommand
unfolding policy_of object_of
set_req key value ex_time = record {
  key = key;
  into_base_op = BaseOperation.set key value ex_time;
  mutate = λ entry write_clock. (
    insert (record { version = next_u32 entry.value.version; data_ = object_of value })
        (policy_of ex_time),
    ok,
  );
  init = (insert (record { version = 1; data_ = object_of value }) (policy_of ex_time), ok);
}

abbrev not_a_number : String
not_a_number = "Value is not an integer"

abbrev not_numeric : String
not_numeric = "Key exists but is not an Integer"

-- The part of `mutate` that the four counters share: `step` is what each does to the number.
unfoldable pub count_up : (ℕ → ℕ) → EntrySnapshot MyValue → MochaOperation MyValue × Value
unfolding get_expire_policy
count_up step entry = elim entry.value.data_ [
  | ValueObject.int n ↦ (
    insert (new_value (ValueObject.int (step n))) (get_expire_policy entry),
    Value.integer (step n),
  )
  | ValueObject.string s ↦ elim (parse_i64 s) [
    | none ↦ (abort, Value.error not_a_number)
    | some n ↦ (
      insert (new_value (ValueObject.int (step n))) (get_expire_policy entry),
      Value.integer (step n),
    )
  ]
  | _ ↦ (abort, Value.error not_numeric)
]

abbrev first : ℕ → MochaOperation MyValue × Value
first n = (insert (new_value (ValueObject.int n)) persistent, Value.integer n)

unfoldable pub incr_req : Bytes → ComputeCommand
unfolding count_up
incr_req key = record {
  key = key;
  into_base_op = BaseOperation.incr key;
  mutate = λ entry write_clock. count_up (λ n. add_i64 n 1) entry;
  init = first 1;
}

unfoldable pub incr_by_req : Bytes → ℕ → ComputeCommand
unfolding count_up
incr_by_req key increment = record {
  key = key;
  into_base_op = BaseOperation.incr_by key increment;
  mutate = λ entry write_clock. count_up (λ n. add_i64 n increment) entry;
  init = first increment;
}

unfoldable pub decr_req : Bytes → ComputeCommand
unfolding count_up
decr_req key = record {
  key = key;
  into_base_op = BaseOperation.decr key;
  mutate = λ entry write_clock. count_up (λ n. sub_i64 n 1) entry;
  init = first (2 ^ 64 - 1);
}

unfoldable pub decr_by_req : Bytes → ℕ → ComputeCommand
unfolding count_up
decr_by_req key decrement = record {
  key = key;
  into_base_op = BaseOperation.decr_by key decrement;
  mutate = λ entry write_clock. count_up (λ n. sub_i64 n decrement) entry;
  init = first (sub_i64 0 decrement);
}

unfoldable pub append_req : Bytes → Bytes → ComputeCommand
unfolding get_expire_policy
append_req key value = record {
  key = key;
  into_base_op = BaseOperation.append key value;
  mutate = λ entry write_clock. elim entry.value.data_ [
    | ValueObject.string old ↦ (
      insert (new_value (ValueObject.string (old ++ value))) (get_expire_policy entry),
      Value.integer (length (old ++ value)),
    )
    | _ ↦ (abort, Value.error "Key exists but is not a String")
  ];
  init = (insert (new_value (ValueObject.string value)) persistent, Value.integer (length value));
}
