-- ===== src/Cache/Sets.antt =====
-- The commands on sets: cache_cat/src/protocol/set. A set is changed in place, behind the `Arc` that
-- the entry and its copies share; here the entry that is written has the new content. A `HashSet`
-- is the list of its members in the order of a pass over it.
pub mod Members
pub mod Drawn
pub mod Several
pub mod Stores
use Prim.Native.Nat.{bit_xor}
use cache_cat.Prelude.{
  ℕ, zero, suc, ◌+◌, ◌-◌, ◌*◌, ◌/◌, ◌%◌, ◌^◌, Bool, true, false, Option, none, some, List, [], ◌∷◌,
  Bytes, Eq, same, bytes_eq, if◌then◌else◌, length, get_elem?, set_elem, leb, ◌==◌,
}
use cache_cat.Value.{Value, Values, ValueObject, MyValue}
use cache_cat.Value.HashSet.{set_insert, set_remove}
use cache_cat.Value.Table.{names}
use cache_cat.Value.ZSet.{lex}
use cache_cat.Mocha.{
  EntrySnapshot, MochaOperation, insert, remove, abort, persistent, get_expire_policy,
}
use cache_cat.Cache.{BaseOperation, new_value, wrong_type}
use cache_cat.Cache.Compute.{ComputeCommand}
use cache_cat.Cache.Lists.{pop_back}

-- `entry.value.clone()` once the set behind it has changed.
unfoldable pub write_members :
    EntrySnapshot MyValue → List Bytes → Value → MochaOperation MyValue × Value
unfolding get_expire_policy
write_members entry set reply =
    (insert (record entry.value { data_ = ValueObject.set set }) (get_expire_policy entry), reply)

-- What a command does to the entry of a set.
unfoldable pub on_members :
    EntrySnapshot MyValue
    → (List Bytes → MochaOperation MyValue × Value)
    → MochaOperation MyValue × Value
on_members entry run = elim entry.value.data_ [
  | ValueObject.set set ↦ run set
  | _ ↦ (abort, wrong_type)
]

unfoldable pub add_all : List Bytes → List Bytes → ℕ → List Bytes × ℕ
add_all set [] count = (set, count)
add_all set (m ∷ elements) count =
    add_all (set_insert set m) elements (count + (if names set m then 0 else 1))

unfoldable pub s_add_req : Bytes → List Bytes → ComputeCommand
unfolding on_members write_members add_all
s_add_req key elements = record {
  key = key;
  into_base_op = BaseOperation.s_add key elements;
  mutate = λ entry write_clock. on_members entry (λ set.
      let (set', count) = add_all set elements 0 in write_members entry set' (Value.integer count));
  init = (
    insert (new_value (ValueObject.set (add_all [] elements 0).0)) persistent,
    Value.integer (length elements),
  );
}

unfoldable pub remove_all : List Bytes → List Bytes → ℕ → List Bytes × ℕ
remove_all set [] count = (set, count)
remove_all set (m ∷ members) count =
    remove_all (set_remove set m) members (count + (if names set m then 1 else 0))

-- A set that has become empty takes its key along.
unfoldable pub s_rem_req : Bytes → List Bytes → ComputeCommand
unfolding on_members write_members remove_all
s_rem_req key members = record {
  key = key;
  into_base_op = BaseOperation.s_rem key members;
  mutate = λ entry write_clock. on_members entry (λ set.
      let (set', count) = remove_all set members 0 in
      if count == 0
      then write_members entry set' (Value.integer 0)
      else if length set' == 0
      then (remove, Value.integer count)
      else write_members entry set' (Value.integer count));
  init = (abort, Value.integer 0);
}

abbrev pub member_list : List Bytes → Values
member_list [] = Values.nil
member_list (m ∷ set) = Values.more (Value.bulk_string (some m)) (member_list set)

unfoldable pub s_card : Option (EntrySnapshot MyValue) → Value
s_card none = Value.integer 0
s_card (some v) = elim v.value.data_ [
  | ValueObject.set set ↦ Value.integer (length set)
  | _ ↦ wrong_type
]

unfoldable pub s_is_member : Bytes → Option (EntrySnapshot MyValue) → Value
s_is_member m none = Value.integer 0
s_is_member m (some v) = elim v.value.data_ [
  | ValueObject.set set ↦ if names set m then Value.integer 1 else Value.integer 0
  | _ ↦ wrong_type
]

unfoldable pub s_members : Option (EntrySnapshot MyValue) → Value
s_members none = Value.set Values.nil
s_members (some v) = elim v.value.data_ [
  | ValueObject.set set ↦ Value.set (member_list set)
  | _ ↦ wrong_type
]

-- The next number of DeterministicRng, and its state.
unfoldable pub next_u64 : ℕ → ℕ × ℕ
next_u64 state =
    let state' = (state + 11400714819323198485) % 2 ^ 64 in
    let mixed = (bit_xor state' (state' / 2 ^ 30) * 13787848793156543929) % 2 ^ 64 in
    let mixed' = (bit_xor mixed (mixed / 2 ^ 27) * 10723151780598845931) % 2 ^ 64 in
    (bit_xor mixed' (mixed' / 2 ^ 31), state')

unfoldable pub next_index : ℕ → ℕ → ℕ × ℕ
unfolding next_u64
next_index state upper_bound =
    let (random, state') = next_u64 state in (random * upper_bound / 2 ^ 64, state')

abbrev pub fnv : ℕ → Bytes → ℕ
fnv hash [] = hash
fnv hash (byte ∷ key) = fnv (bit_xor hash byte * 1099511628211 % 2 ^ 64) key

unfoldable pub random_seed : Bytes → ℕ → ℕ
random_seed key write_clock =
    let rotated = write_clock * 2 ^ 17 % 2 ^ 64 + write_clock / 2 ^ 47 in
    bit_xor (bit_xor (fnv 14695981039346656037 key) rotated) 11562461410679940143

-- `sort_unstable_by` on the bytes.
abbrev pub insert_sorted : Bytes → List Bytes → List Bytes
insert_sorted m [] = m ∷ []
insert_sorted m (x ∷ sorted) =
    let rest = insert_sorted m sorted in if lex m x then m ∷ x ∷ sorted else x ∷ rest

abbrev pub sort : List Bytes → List Bytes
sort [] = []
sort (m ∷ set) = insert_sorted m (sort set)

-- `Vec::swap_remove`, where the index is in range.
abbrev pub swap_remove : List Bytes → ℕ → List Bytes
swap_remove candidates index =
    let (last, front) = pop_back candidates in
    elim last [
      | none ↦ []
      | some x ↦ if index == length front then front else set_elem front index x
    ]

-- The rounds: the members that are popped, and the set that is left.
unfoldable pub draw : ℕ → ℕ → List Bytes → List Bytes → List Bytes × List Bytes
unfolding next_index
draw zero state candidates set = ([], set)
draw (suc rounds) state candidates set =
    let (index, state') = next_index state (length candidates) in
    elim (get_elem? candidates index) [
      | none ↦ ([], set)
      | some m ↦
          let (popped, set') =
            draw rounds state' (swap_remove candidates index) (set_remove set m) in
          (m ∷ popped, set')
    ]

unfoldable pub missing_key_response : Option ℕ → Value
missing_key_response none = Value.bulk_string none
missing_key_response (some count) = Value.set Values.nil

unfoldable pub popped_response : Option ℕ → List Bytes → Value
popped_response none members = Value.bulk_string (get_elem? members 0)
popped_response (some count) members = Value.set (member_list members)

abbrev pub pop_count : Option ℕ → ℕ → ℕ
pop_count none len = 1
pop_count (some count) len = if leb len count then len else count

-- What SPOP draws from a set that is not empty.
unfoldable pub drawn : Bytes → Option ℕ → ℕ → List Bytes → List Bytes × List Bytes
unfolding draw random_seed
drawn key count write_clock set =
    draw (pop_count count (length set)) (random_seed key write_clock) (sort set) set

unfoldable pub is_zero : Option ℕ → Bool
is_zero none = false
is_zero (some count) = count == 0

unfoldable pub s_pop_req : Bytes → Option ℕ → ComputeCommand
unfolding on_members write_members drawn popped_response missing_key_response is_zero
s_pop_req key count = record {
  key = key;
  into_base_op = BaseOperation.s_pop key count;
  mutate = λ entry write_clock. on_members entry (λ set.
      if is_zero count
      then (abort, Value.set Values.nil)
      else if length set == 0
      then (remove, missing_key_response count)
      else let (popped, set') = drawn key count write_clock set in
        if length set' == 0
        then (remove, popped_response count popped)
        else write_members entry set' (popped_response count popped));
  init = (abort, missing_key_response count);
}
