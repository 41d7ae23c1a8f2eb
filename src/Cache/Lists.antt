-- ===== src/Cache/Lists.antt =====
-- The commands on lists: cache_cat/src/protocol/list and cache_cat/src/utils/list.rs. A list is
-- changed in place, behind the `Arc` that the entry and its copies share; here the entry that is
-- written has the new content. The push and pop loops of a `VecDeque` are those of a list.
pub mod Ends
pub mod Ranges
pub mod Removal
use cache_cat.Prelude.{
  ℕ, zero, suc, ◌+◌, ◌-◌, ◌%◌, ◌^◌, Bool, true, false, ◌&&◌, ◌||◌, not, Option, none, some, List,
  [], ◌∷◌, ◌++◌, reverse, Bytes, bytes_eq, same, if◌then◌else◌, length, get_elem?, set_elem, take,
  drop, ltb, ◌==◌, String,
}
use cache_cat.Value.{Value, Values, ValueObject, MyValue, ok}
use cache_cat.Value.Signed.{add_i64, sub_i64, is_negative, lt_i64, max_i64, min_i64}
use cache_cat.Mocha.{EntrySnapshot, MochaOperation, insert, abort, persistent, get_expire_policy}
use cache_cat.Cache.{BaseOperation, new_value, wrong_type}
use cache_cat.Cache.Compute.{ComputeCommand}
use cache_cat.Cache.Read.{ReadCommand}

-- `entry.value.clone()` once the list behind it has changed: the version stays.
unfoldable pub write_list :
    EntrySnapshot MyValue → List Bytes → Value → MochaOperation MyValue × Value
unfolding get_expire_policy
write_list entry list reply =
    (insert (record entry.value { data_ = ValueObject.list list }) (get_expire_policy entry), reply)

abbrev not_a_list : String
not_a_list = "Key exists but is not a List"

-- What a command does to the entry of a list; `other` is the reply to an entry of another type.
unfoldable pub on_list :
    EntrySnapshot MyValue
    → Value
    → (List Bytes → MochaOperation MyValue × Value)
    → MochaOperation MyValue × Value
on_list entry other run = elim entry.value.data_ [
  | ValueObject.list list ↦ run list
  | _ ↦ (abort, other)
]

unfoldable pub push_front_all : List Bytes → List Bytes → List Bytes
push_front_all [] list = list
push_front_all (element ∷ elements) list = push_front_all elements (element ∷ list)

unfoldable pub l_push_req : Bytes → List Bytes → ComputeCommand
unfolding on_list write_list push_front_all
l_push_req key elements = record {
  key = key;
  into_base_op = BaseOperation.l_push key elements;
  mutate = λ entry write_clock. on_list entry (Value.error not_a_list) (λ list.
      write_list entry (push_front_all elements list)
        (Value.integer (length (push_front_all elements list))));
  init =
      (insert (new_value (ValueObject.list elements)) persistent, Value.integer (length elements));
}

unfoldable pub r_push_req : Bytes → List Bytes → ComputeCommand
unfolding on_list write_list
r_push_req key elements = record {
  key = key;
  into_base_op = BaseOperation.r_push key elements;
  mutate = λ entry write_clock.
      on_list entry (Value.error not_a_list)
        (λ list. write_list entry (list ++ elements) (Value.integer (length (list ++ elements))));
  init =
      (insert (new_value (ValueObject.list elements)) persistent, Value.integer (length elements));
}

-- `pop_front`, and `pop_back` by the last element.
unfoldable pub pop_front : List Bytes → Option Bytes × List Bytes
pop_front [] = (none, [])
pop_front (x ∷ xs) = (some x, xs)

unfoldable pub pop_back : List Bytes → Option Bytes × List Bytes
pop_back [] = (none, [])
pop_back (x ∷ xs) = elim xs [
  | [] ↦ (some x, [])
  | y ∷ ys ↦ (let (last, rest) = pop_back xs in (last, x ∷ rest))
]

-- `count` is a field of the requests that `mutate` does not read.
unfoldable pub l_pop_req : Bytes → ℕ → ComputeCommand
unfolding on_list write_list pop_front
l_pop_req key count = record {
  key = key;
  into_base_op = BaseOperation.l_pop key count;
  mutate = λ entry write_clock.
      on_list entry (Value.error not_a_list)
        (λ list. write_list entry (pop_front list).1 (Value.bulk_string (pop_front list).0));
  init = (abort, Value.bulk_string none);
}

unfoldable pub r_pop_req : Bytes → ℕ → ComputeCommand
unfolding on_list write_list pop_back
r_pop_req key count = record {
  key = key;
  into_base_op = BaseOperation.r_pop key count;
  mutate = λ entry write_clock.
      on_list entry (Value.error not_a_list)
        (λ list. write_list entry (pop_back list).1 (Value.bulk_string (pop_back list).0));
  init = (abort, Value.bulk_string none);
}

-- A negative index counts from the end.
abbrev pub from_end : ℕ → ℕ → ℕ
from_end len index = if is_negative index then add_i64 len index else index

-- `index < 0 || index >= len`
abbrev pub is_outside : ℕ → ℕ → Bool
is_outside len index = is_negative index || not (lt_i64 index len)

unfoldable pub l_set_list :
    EntrySnapshot MyValue → ℕ → Bytes → List Bytes → MochaOperation MyValue × Value
unfolding write_list
l_set_list entry index value list =
    let idx = from_end (length list) index in
    if is_outside (length list) idx
    then (abort, Value.error "ERR index out of range")
    else write_list entry (set_elem list idx value) ok

unfoldable pub l_set_req : Bytes → ℕ → Bytes → ComputeCommand
unfolding on_list l_set_list
l_set_req key index value = record {
  key = key;
  into_base_op = BaseOperation.l_set key index value;
  mutate =
      λ entry write_clock. on_list entry wrong_type (λ list. l_set_list entry index value list);
  init = (abort, Value.error "ERR no such key");
}

unfoldable pub l_index : ℕ → Option (EntrySnapshot MyValue) → Value
l_index index none = Value.bulk_string none
l_index index (some v) = elim v.value.data_ [
  | ValueObject.list list ↦
      (let idx = from_end (length list) index in
        if is_outside (length list) idx
        then Value.bulk_string none
        else Value.bulk_string (get_elem? list idx))
  | _ ↦ wrong_type
]

unfoldable pub l_index_params : Bytes → ℕ → ReadCommand
unfolding l_index
l_index_params key index = record { key = key; execute = l_index index }

unfoldable pub l_len : Option (EntrySnapshot MyValue) → Value
l_len none = Value.integer 0
l_len (some v) = elim v.value.data_ [
  | ValueObject.list list ↦ Value.integer (length list)
  | _ ↦ wrong_type
]

-- `lrange` of utils/list.rs: the part between two indices, and the indices.
unfoldable pub lrange_from {ℓ} : {A : Type ℓ} → List A → ℕ → ℕ → List A
lrange_from deque start end =
    if lt_i64 end start then [] else take (add_i64 (sub_i64 end start) 1) (drop start deque)

unfoldable pub lrange {ℓ} : {A : Type ℓ} → List A → ℕ → ℕ → List A
unfolding lrange_from
lrange deque start end =
    let len = length deque in
    if len == 0
    then []
    else lrange_from deque (max_i64 (from_end len start) 0)
        (min_i64 (from_end len end) (sub_i64 len 1))

abbrev pub bulk_values : List Bytes → Values
bulk_values [] = Values.nil
bulk_values (x ∷ xs) = Values.more (Value.bulk_string (some x)) (bulk_values xs)

unfoldable pub l_range : ℕ → ℕ → Option (EntrySnapshot MyValue) → Value
unfolding lrange
l_range start stop none = Value.bulk_string none
l_range start stop (some v) = elim v.value.data_ [
  | ValueObject.list list ↦ Value.array (bulk_values (lrange list start stop))
  | _ ↦ wrong_type
]

unfoldable pub l_range_params : Bytes → ℕ → ℕ → ReadCommand
unfolding l_range
l_range_params key start stop = record { key = key; execute = l_range start stop }

-- The list that LTRIM leaves: `truncate` and then `drain`.
unfoldable pub trimmed_to : List Bytes → ℕ → ℕ → List Bytes
trimmed_to list start stop =
    let kept = take (add_i64 stop 1) list in
    if lt_i64 stop start then [] else if lt_i64 0 start then drop start kept else kept

abbrev pub clamp_start : ℕ → ℕ → ℕ
clamp_start len start = if is_negative (from_end len start) then 0 else from_end len start

abbrev pub clamp_stop : ℕ → ℕ → ℕ
clamp_stop len stop = if lt_i64 (from_end len stop) len then from_end len stop else sub_i64 len 1

unfoldable pub trimmed : List Bytes → ℕ → ℕ → List Bytes
unfolding trimmed_to
trimmed list start stop =
    let len = length list in
    if len == 0 then list else trimmed_to list (clamp_start len start) (clamp_stop len stop)

unfoldable pub l_trim_req : Bytes → ℕ → ℕ → ComputeCommand
unfolding on_list write_list trimmed
l_trim_req key start stop = record {
  key = key;
  into_base_op = BaseOperation.l_trim key start stop;
  mutate = λ entry write_clock.
      on_list entry wrong_type (λ list. write_list entry (trimmed list start stop) ok);
  init = (abort, ok);
}

abbrev pub remove_at : List Bytes → ℕ → List Bytes
remove_at [] i = []
remove_at (x ∷ xs) zero = xs
remove_at (x ∷ xs) (suc i) = x ∷ remove_at xs i

abbrev pub is_at : List Bytes → ℕ → Bytes → Bool
is_at list i element = elim (get_elem? list i) [ none ↦ false | some x ↦ same x element ]

-- The loop from the front. `count` is the number of elements that may still go. Each round passes
-- one element, so as many rounds as the list has elements are enough.
unfoldable pub remove_front : ℕ → List Bytes → ℕ → ℕ → Bytes → ℕ → ℕ × List Bytes
remove_front zero list i count element removed = (removed, list)
remove_front (suc rounds) list i count element removed =
    elim (ltb i (length list) && lt_i64 0 count) [
      | false ↦ (removed, list)
      | true ↦ elim (is_at list i element) [
        | true ↦ remove_front rounds (remove_at list i) i (count - 1) element (removed + 1)
        | false ↦ remove_front rounds list (suc i) count element removed
      ]
    ]

-- The loop from the back: `i` counts down.
unfoldable pub remove_back : List Bytes → ℕ → ℕ → Bytes → ℕ → ℕ × List Bytes
remove_back list zero count element removed = (removed, list)
remove_back list (suc i) count element removed = elim (lt_i64 0 count) [
  | false ↦ (removed, list)
  | true ↦ elim (is_at list i element) [
    | true ↦ remove_back (remove_at list i) i (count - 1) element (removed + 1)
    | false ↦ remove_back list i count element removed
  ]
]

-- The loop that takes all of them.
unfoldable pub remove_each : ℕ → List Bytes → ℕ → Bytes → ℕ → ℕ × List Bytes
remove_each zero list i element removed = (removed, list)
remove_each (suc rounds) list i element removed = elim (ltb i (length list)) [
  | false ↦ (removed, list)
  | true ↦ elim (is_at list i element) [
    | true ↦ remove_each rounds (remove_at list i) i element (removed + 1)
    | false ↦ remove_each rounds list (suc i) element removed
  ]
]

unfoldable pub remove_elements : List Bytes → ℕ → Bytes → ℕ × List Bytes
unfolding remove_front remove_back remove_each
remove_elements list count element =
    if count == 0
    then remove_each (length list) list 0 element 0
    else if is_negative count
    then remove_back list (length list) (sub_i64 0 count) element 0
    else remove_front (length list) list 0 count element 0

unfoldable pub l_rem_req : Bytes → ℕ → Bytes → ComputeCommand
unfolding on_list write_list remove_elements
l_rem_req key count element = record {
  key = key;
  into_base_op = BaseOperation.l_rem key count element;
  mutate = λ entry write_clock. on_list entry wrong_type (λ list.
      write_list entry (remove_elements list count element).1
        (Value.integer (remove_elements list count element).0));
  init = (abort, Value.integer 0);
}
