-- ===== src/Cache/Keys.antt =====
-- The commands on any key, as `execute_compute` runs them: `InsertReq` of
-- cache_cat/src/raft/types/core/cache/key.rs, and `ExpireReq`, `PExpireReq` and `PersistReq` of
-- cache_cat/src/protocol/key. Products and sums of u64 wrap around, as a release build has them.
use cache_cat.Prelude.{
  ℕ, ◌+◌, ◌*◌, ◌%◌, ◌^◌, Bool, true, false, Option, none, some, Bytes, ltb, if◌then◌else◌,
}
use cache_cat.Value.{Value, ValueObject, MyValue, ok}
use cache_cat.Mocha.{EntrySnapshot, MochaOperation, insert, abort, persistent, absolute}
use cache_cat.Cache.{BaseOperation, ExpireCondition, nx, xx, gt, lt}
use cache_cat.Cache.Compute.{ComputeCommand, next_u32}
use cache_cat.Cache.Strings.{policy_of}

unfoldable pub insert_req : Bytes → ValueObject → ℕ → ComputeCommand
unfolding policy_of
insert_req key value expires_at = record {
  key = key;
  into_base_op = BaseOperation.insert key value expires_at;
  mutate = λ entry write_clock. (
    insert (record { version = next_u32 entry.value.version; data_ = value })
        (policy_of expires_at),
    ok,
  );
  init = (insert (record { version = 1; data_ = value }) (policy_of expires_at), ok);
}

-- `should_update`: no expiry counts as one that is later than any other.
unfoldable pub should_update : Option ExpireCondition → Option ℕ → ℕ → Bool
should_update none expire_at expires_at = true
should_update (some nx) none expires_at = true
should_update (some nx) (some expire) expires_at = false
should_update (some xx) none expires_at = false
should_update (some xx) (some expire) expires_at = true
should_update (some gt) none expires_at = false
should_update (some gt) (some expire) expires_at = ltb expire expires_at
should_update (some lt) none expires_at = true
should_update (some lt) (some expire) expires_at = ltb expires_at expire

-- The part of `mutate` that the two commands share: `expires_at` is the instant in milliseconds.
unfoldable pub set_expiry :
    Option ExpireCondition → ℕ → EntrySnapshot MyValue → MochaOperation MyValue × Value
unfolding should_update
set_expiry condition expires_at entry =
    if should_update condition entry.expire_at expires_at
    then (insert entry.value (absolute expires_at), Value.boolean true)
    else (abort, Value.boolean false)

unfoldable pub expire_req : Bytes → ℕ → Option ExpireCondition → ComputeCommand
unfolding set_expiry
expire_req key expires_at condition = record {
  key = key;
  into_base_op = BaseOperation.expire key expires_at condition;
  mutate = λ entry write_clock.
      set_expiry condition ((expires_at * 1000 % 2 ^ 64 + write_clock) % 2 ^ 64) entry;
  init = (abort, Value.boolean false);
}

unfoldable pub p_expire_req : Bytes → ℕ → Option ExpireCondition → ComputeCommand
unfolding set_expiry
p_expire_req key expires_at condition = record {
  key = key;
  into_base_op = BaseOperation.p_expire key expires_at condition;
  mutate = λ entry write_clock. set_expiry condition ((expires_at + write_clock) % 2 ^ 64) entry;
  init = (abort, Value.boolean false);
}

unfoldable pub persist_req : Bytes → ComputeCommand
persist_req key = record {
  key = key;
  into_base_op = BaseOperation.persist key;
  mutate = λ entry write_clock. elim entry.expire_at [
    | none ↦ (abort, Value.boolean false)
    | some at ↦ (insert entry.value persistent, Value.boolean true)
  ];
  init = (abort, Value.boolean false);
}
