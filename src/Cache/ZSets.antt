-- ===== src/Cache/ZSets.antt =====
-- The commands on sorted sets: cache_cat/src/protocol/zset. A set is changed in place, behind the
-- `Arc` that the entry and its copies share; here the entry that is written has the new content.
-- `rank` and `add` are those of Value/ZSet.antt.
pub mod Ranges
use cache_cat.Prelude.{
  ℕ, ◌^◌, Bool, Option, none, some, List, [], ◌∷◌, Bytes, if◌then◌else◌, String,
}
use cache_cat.Value.{Value, Values, ValueObject, SortedSet, MyValue}
use cache_cat.Value.ZSet.{
  ZAddReq, empty, zadd, zrem, zincrby, zrank, zrevrank, zscore, len, is_empty, zpop_min, zrange,
  zcount,
}
use cache_cat.Mocha.{
  EntrySnapshot, MochaOperation, insert, remove, abort, persistent, get_expire_policy,
}
use cache_cat.Cache.{BaseOperation, new_value, wrong_type}
use cache_cat.Cache.Compute.{ComputeCommand}
use cache_cat.Cache.Read.{ReadCommand}

-- `entry.value.clone()` once the set behind it has changed.
unfoldable pub write_set :
    EntrySnapshot MyValue → SortedSet → Value → MochaOperation MyValue × Value
unfolding get_expire_policy
write_set entry z reply =
    (insert (record entry.value { data_ = ValueObject.z_set z }) (get_expire_policy entry), reply)

-- What a command does to the entry of a sorted set, and the reply to an entry of another type.
unfoldable pub on_set :
    EntrySnapshot MyValue
    → Value
    → (SortedSet → MochaOperation MyValue × Value)
    → MochaOperation MyValue × Value
on_set entry other run = elim entry.value.data_ [ ValueObject.z_set z ↦ run z | _ ↦ (abort, other) ]

abbrev not_a_zset : String
not_a_zset = "zadd: key is not a zset"

abbrev nan_score : Value
nan_score = Value.error "ERR resulting score is not a number (NaN)"

module _ (rank : ℕ → ℕ) where
  unfoldable pub z_add_req : ZAddReq → ComputeCommand
  unfolding on_set write_set zadd
  z_add_req req = record {
    key = req.key;
    into_base_op = BaseOperation.z_add req;
    mutate = λ entry write_clock.
        on_set entry (Value.error not_a_zset)
          (λ z. let (z', changed) = zadd rank z req in write_set entry z' (Value.integer changed));
    init = (
      insert (new_value (ValueObject.z_set (zadd rank empty req).0)) persistent,
      Value.integer (zadd rank empty req).1,
    );
  }

  -- A set that has become empty takes its key along.
  unfoldable pub z_rem_req : Bytes → List Bytes → ComputeCommand
  unfolding on_set write_set zrem is_empty
  z_rem_req key members = record {
    key = key;
    into_base_op = BaseOperation.z_rem key members;
    mutate = λ entry write_clock. on_set entry (Value.error "zrem: key is not a zset") (λ z.
        let (z', removed) = zrem rank z members in
        if is_empty z'
        then (remove, Value.integer removed)
        else write_set entry z' (Value.integer removed));
    init = (abort, Value.integer 0);
  }

  -- `Double` of the new score, or the error and nothing written.
  unfoldable pub z_incr_by_req : (ℕ → ℕ → ℕ) → Bytes → ℕ → Bytes → ComputeCommand
  unfolding on_set write_set zincrby
  z_incr_by_req add key increment member = record {
    key = key;
    into_base_op = BaseOperation.z_incr_by key increment member;
    mutate = λ entry write_clock. on_set entry wrong_type (λ z.
        let (z', new_score) = zincrby rank add z member increment in
        elim new_score [
          | none ↦ (abort, nan_score)
          | some score ↦ write_set entry z' (Value.double score)
        ]);
    init =
        let (z, new_score) = zincrby rank add empty member increment in
        elim new_score [
          | none ↦ (abort, nan_score)
          | some score ↦ (insert (new_value (ValueObject.z_set z)) persistent, Value.double score)
        ];
  }

  unfoldable pub z_rank : Bytes → Option (EntrySnapshot MyValue) → Value
  unfolding zrank
  z_rank member none = Value.bulk_string none
  z_rank member (some v) = elim v.value.data_ [
    | ValueObject.z_set z ↦ elim (zrank rank z member) [
      | none ↦ Value.bulk_string none
      | some i ↦ Value.integer i
    ]
    | _ ↦ wrong_type
  ]

  unfoldable pub z_rev_rank : Bytes → Option (EntrySnapshot MyValue) → Value
  unfolding zrevrank
  z_rev_rank member none = Value.bulk_string none
  z_rev_rank member (some v) = elim v.value.data_ [
    | ValueObject.z_set z ↦ elim (zrevrank rank z member) [
      | none ↦ Value.bulk_string none
      | some i ↦ Value.integer i
    ]
    | _ ↦ wrong_type
  ]

-- The reply of ZPOPMIN: one member and its score, or the pairs.
unfoldable pub popped_reply : Option ℕ → List (Bytes × ℕ) → Value
popped_reply (some count) popped = Value.member_scores popped
popped_reply none [] = Value.array Values.nil
popped_reply none (e ∷ popped) =
    Value.array
      (Values.more (Value.bulk_string (some e.0)) (Values.more (Value.double e.1) Values.nil))

unfoldable pub z_pop_min_req : Bytes → Option ℕ → ComputeCommand
unfolding on_set write_set zpop_min popped_reply
z_pop_min_req key count = record {
  key = key;
  into_base_op = BaseOperation.z_pop_min key count;
  mutate = λ entry write_clock.
      on_set entry (Value.error not_a_zset) (λ z.
        let (z', popped) = zpop_min z count in write_set entry z' (popped_reply count popped));
  init = (abort, Value.array Values.nil);
}

abbrev pub member_values : List (Bytes × ℕ) → Values
member_values [] = Values.nil
member_values (e ∷ members) = Values.more (Value.bulk_string (some e.0)) (member_values members)

unfoldable pub z_range : ℕ → ℕ → Bool → Option (EntrySnapshot MyValue) → Value
unfolding zrange
z_range start stop with_scores none = Value.array Values.nil
z_range start stop with_scores (some v) = elim v.value.data_ [
  | ValueObject.z_set z ↦
      if with_scores
      then Value.member_scores (zrange z start stop)
      else Value.array (member_values (zrange z start stop))
  | _ ↦ wrong_type
]

unfoldable pub z_score : Bytes → Option (EntrySnapshot MyValue) → Value
unfolding zscore
z_score member none = Value.null
z_score member (some v) = elim v.value.data_ [
  | ValueObject.z_set z ↦ elim (zscore z member) [
    | none ↦ Value.null
    | some score ↦ Value.double score
  ]
  | _ ↦ wrong_type
]

unfoldable pub z_card : Option (EntrySnapshot MyValue) → Value
unfolding len
z_card none = Value.integer 0
z_card (some v) = elim v.value.data_ [
  | ValueObject.z_set z ↦ Value.integer (len z)
  | _ ↦ wrong_type
]

unfoldable pub z_count : ℕ → ℕ → Bool → Bool → Option (EntrySnapshot MyValue) → Value
unfolding zcount
z_count min max min_exclusive max_exclusive none = Value.integer 0
z_count min max min_exclusive max_exclusive (some v) = elim v.value.data_ [
  | ValueObject.z_set z ↦ Value.integer (zcount z min max min_exclusive max_exclusive)
  | _ ↦ wrong_type
]
