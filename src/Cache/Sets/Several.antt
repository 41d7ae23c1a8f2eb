-- ===== src/Cache/Sets/Several.antt =====
-- The commands on several sets: cache_cat/src/protocol/set/sinter.rs, sunion.rs, sdiff.rs and
-- sinterstore.rs. A `HashSet` is the list of its members, as in Cache/Sets.antt.
pub mod Stored
use cache_cat.Prelude.{
  ℕ, Bool, true, false, not, Option, none, some, List, [], ◌∷◌, Bytes, bytes_eq, if◌then◌else◌,
  length, ◌==◌,
}
use cache_cat.Value.{Value, ValueObject, MyValue}
use cache_cat.Value.HashSet.{set_insert}
use cache_cat.Value.Table.{names}
use cache_cat.Mocha.{EntrySnapshot, MochaOperation, insert, remove, abort, persistent}
use cache_cat.Cache.{BaseOperation, new_value, wrong_type}
use cache_cat.Cache.Sets.{member_list}
use cache_cat.Cache.Several.{MultiReadComputeCommand}

-- `ProtocolError::InvalidArgument` and `WrongArgCount` as replies.
abbrev pub not_a_set : Value
not_a_set = Value.error "ERR invalid There is a value that is not a set"

abbrev pub no_sets : Value
no_sets =
    Value.error "ERR wrong number of arguments for 'wrong number of arguments for command' command"

-- `HashSet::retain`, of the members that are in `other` or of those that are not.
abbrev pub retain : List Bytes → Bool → List Bytes → List Bytes
retain [] there other = []
retain (m ∷ set) there other =
    let rest = retain set there other in
    if names other m then (if there then m ∷ rest else rest) else (if there then rest else m ∷ rest)

-- `HashSet::extend`.
abbrev pub extend : List Bytes → List Bytes → List Bytes
extend results [] = results
extend results (m ∷ other) = extend (set_insert results m) other

-- What the match on the data of a value finds: its set, or nothing.
unfoldable pub data_of : EntrySnapshot MyValue → Option (List Bytes)
data_of value = elim value.value.data_ [ ValueObject.set other ↦ some other | _ ↦ none ]

-- The members of the sets so far and those of one more.
unfoldable pub met : Option (List Bytes) → List Bytes → List Bytes
met none other = other
met (some set) other = if length set == 0 then set else retain set true other

-- The loop of SINTER: `none` for its early return.
unfoldable pub inter_all :
    List (Option (EntrySnapshot MyValue)) → Option (List Bytes) → Option (Option (List Bytes))
unfolding data_of met
inter_all [] results = some results
inter_all (none ∷ values) results = inter_all values (some [])
inter_all (some value ∷ values) results = elim (data_of value) [
  | none ↦ none
  | some other ↦ inter_all values (some (met results other))
]

abbrev pub or_default : Option (List Bytes) → List Bytes
or_default none = []
or_default (some results) = results

abbrev pub members_reply : Option (Option (List Bytes)) → Value
members_reply none = not_a_set
members_reply (some results) = Value.set (member_list (or_default results))

unfoldable pub s_inter : List (Option (EntrySnapshot MyValue)) → Value
unfolding inter_all
s_inter values = members_reply (inter_all values none)

-- The loop of SUNION.
unfoldable pub union_all : List (Option (EntrySnapshot MyValue)) → List Bytes → Option (List Bytes)
unfolding data_of
union_all [] results = some results
union_all (none ∷ values) results = union_all values results
union_all (some value ∷ values) results = elim (data_of value) [
  | none ↦ none
  | some other ↦ union_all values (extend results other)
]

abbrev pub union_reply : Option (List Bytes) → Value
union_reply none = not_a_set
union_reply (some results) = Value.set (member_list results)

unfoldable pub s_union : List (Option (EntrySnapshot MyValue)) → Value
unfolding union_all
s_union values = union_reply (union_all values [])

abbrev pub without : Option (List Bytes) → List Bytes → Option (List Bytes)
without none other = none
without (some results) other = some (retain results false other)

-- The loop of SDIFF, over all but the first.
unfoldable pub diff_all :
    List (Option (EntrySnapshot MyValue)) → Option (List Bytes) → Option (Option (List Bytes))
unfolding data_of
diff_all [] results = some results
diff_all (none ∷ values) results = diff_all values results
diff_all (some value ∷ values) results = elim (data_of value) [
  | none ↦ none
  | some other ↦ diff_all values (without results other)
]

unfoldable pub s_diff : List (Option (EntrySnapshot MyValue)) → Value
unfolding diff_all data_of
s_diff [] = no_sets
s_diff (none ∷ values) = members_reply (diff_all values none)
s_diff (some value ∷ values) = elim (data_of value) [
  | none ↦ not_a_set
  | some other ↦ members_reply (diff_all values (some other))
]

-- The loop of SINTERSTORE, which ends at a key that is missing; `none` for its early return.
unfoldable pub store_all :
    List (Option (EntrySnapshot MyValue)) → Option (List Bytes) → Option (Option (List Bytes))
unfolding data_of
store_all [] results = some results
store_all (none ∷ values) results = some (some [])
store_all (some value ∷ values) results = elim (data_of value) [
  | none ↦ none
  | some other ↦ elim results [
    | none ↦ store_all values (some other)
    | some set ↦ store_all values (some (retain set true other))
  ]
]

abbrev pub stored : List Bytes → MochaOperation MyValue × Value
stored result =
    if length result == 0
    then (remove, Value.integer 0)
    else (insert (new_value (ValueObject.set result)) persistent, Value.integer (length result))

abbrev pub store_reply : Option (Option (List Bytes)) → MochaOperation MyValue × Value
store_reply none = (abort, wrong_type)
store_reply (some intersection) = stored (or_default intersection)

unfoldable pub s_inter_store_req : Bytes → List Bytes → MultiReadComputeCommand
unfolding store_all
s_inter_store_req key keys = record {
  write_key = key;
  read_keys = keys;
  into_base_op = BaseOperation.s_inter_store key keys;
  mutate = λ read_entries write_clock. store_reply (store_all read_entries none);
}
