-- ===== src/Cache.antt =====
-- cache_cat/src/raft/types/core/mocha/core.rs: the databases and the two logical clocks. The write
-- clock is one atomic shared by all databases: `set_write_clock` sets the clock of each. The locks
-- are not kept: a call of the state machine runs alone, and is one function here.
pub mod Compute
pub mod Read
pub mod Lists
pub mod Bitmap
pub mod ZSets
pub mod Hashes
pub mod Sets
pub mod Several
pub mod Strings
pub mod Keys
pub mod Redis
pub mod SetForms
pub mod Seen
pub mod Queue
pub mod Counters
pub mod Rename
pub mod Moved
pub mod Setting
pub mod Clocks
use cache_cat.Prelude.{
  ℕ, zero, suc, Option, none, some, List, [], ◌∷◌, Bytes, bytes_eq, get_elem?, max, leb, ltb,
  if◌then◌else◌,
}
use cache_cat.Map.{HashMap}
use cache_cat.Value.Field.{BitFieldSubCommand}
use cache_cat.Value.ZSet.{ZAddReq}
use cache_cat.Value.{Value, MyValue, ValueObject}
use cache_cat.Mocha
use cache_cat.Mocha.{Entry, EntrySnapshot, Mocha, get_entry}

abbrev pub Store : Type 1
Store = HashMap Bytes (Entry MyValue)

pub record MyCache (h : Store) : Type 0 where
  pub databases : List (Mocha h)
  pub read_logic_clock : ℕ
  pub write_logic_clock : ℕ

pub data ExpireCondition : Type 0 where
  nx : ExpireCondition
  xx : ExpireCondition
  gt : ExpireCondition
  lt : ExpireCondition

-- The operations on keys and strings; those on the other types follow the same pattern.
pub data BaseOperation : Type 0 where
  del : Bytes → BaseOperation
  expire : Bytes → ℕ → Option ExpireCondition → BaseOperation
  p_expire : Bytes → ℕ → Option ExpireCondition → BaseOperation
  persist : Bytes → BaseOperation
  insert : Bytes → ValueObject → ℕ → BaseOperation
  flush_db : BaseOperation
  flush_all : BaseOperation
  set : Bytes → Bytes → ℕ → BaseOperation
  incr : Bytes → BaseOperation
  incr_by : Bytes → ℕ → BaseOperation
  append : Bytes → Bytes → BaseOperation
  decr_by : Bytes → ℕ → BaseOperation
  decr : Bytes → BaseOperation
  unlink : Bytes → BaseOperation
  l_push : Bytes → List Bytes → BaseOperation
  r_push : Bytes → List Bytes → BaseOperation
  l_pop : Bytes → ℕ → BaseOperation
  r_pop : Bytes → ℕ → BaseOperation
  l_rem : Bytes → ℕ → Bytes → BaseOperation
  l_set : Bytes → ℕ → Bytes → BaseOperation
  l_trim : Bytes → ℕ → ℕ → BaseOperation
  set_bit : Bytes → ℕ → ℕ → BaseOperation
  bit_field : Bytes → List BitFieldSubCommand → BaseOperation
  h_set : Bytes → List (Bytes × Bytes) → BaseOperation
  h_incr : Bytes → Bytes → ℕ → BaseOperation
  h_del : Bytes → List Bytes → BaseOperation
  h_set_nx : Bytes → Bytes → Bytes → BaseOperation
  h_m_set : Bytes → List (Bytes × Bytes) → BaseOperation
  s_add : Bytes → List Bytes → BaseOperation
  s_rem : Bytes → List Bytes → BaseOperation
  s_pop : Bytes → Option ℕ → BaseOperation
  s_inter_store : Bytes → List Bytes → BaseOperation
  z_add : ZAddReq → BaseOperation
  z_rem : Bytes → List Bytes → BaseOperation
  z_pop_min : Bytes → Option ℕ → BaseOperation
  z_incr_by : Bytes → ℕ → Bytes → BaseOperation

pub record AtomicRequest : Type 0 where
  pub version : ℕ
  pub request : BaseOperation
  pub write_clock : ℕ

-- `UpdateType::None` is `plain`.
pub data UpdateType : Type 0 where
  plain : UpdateType
  snapshot : List AtomicRequest → UpdateType
  cas : ℕ → UpdateType

pub record Update : Type 0 where
  pub db_number : ℕ
  pub write_clock : ℕ
  pub update_type : UpdateType

abbrev pub new_value : ValueObject → MyValue
new_value object = record { version = 1; data_ = object }

-- `ProtocolError::DbNotExist` and `ProtocolError::WrongType` as replies.
abbrev pub db_not_exist : Value
db_not_exist = Value.error "ERR DB index is out of range"

abbrev pub wrong_type : Value
wrong_type = Value.error "WRONGTYPE Operation against a key holding the wrong kind of value"

module _ (h : Store) where
  abbrev pub replace : List (Mocha h) → ℕ → Mocha h → List (Mocha h)
  replace [] i m = []
  replace (x ∷ xs) zero m = m ∷ xs
  replace (x ∷ xs) (suc i) m = x ∷ replace xs i m

  -- The cache after a change of one of its databases.
  abbrev pub with_db : MyCache h → ℕ → Mocha h → MyCache h
  with_db cache i m = record cache { databases = replace cache.databases i m }

  abbrev pub get_cache : MyCache h → ℕ → Option (Mocha h)
  get_cache cache db_number = get_elem? cache.databases db_number

  abbrev each_clear : List (Mocha h) → List (Mocha h)
  each_clear [] = []
  each_clear (m ∷ ms) = Mocha.clear h m ∷ each_clear ms

  abbrev pub each_clock : ℕ → List (Mocha h) → List (Mocha h)
  each_clock now [] = []
  each_clock now (m ∷ ms) = record m { logic_clock = now } ∷ each_clock now ms

  unfoldable pub invalidate_all : MyCache h → MyCache h
  invalidate_all cache = record cache { databases = each_clear cache.databases }

  -- `system_now` is what `now_ms()` answers.
  unfoldable pub get_and_update_read_clock : MyCache h → ℕ → ℕ × MyCache h
  get_and_update_read_clock cache system_now =
      let target = max cache.write_logic_clock system_now in
      let clock = max cache.read_logic_clock target in
      (clock, record cache { read_logic_clock = clock })

  unfoldable pub generate_new_write_clock : MyCache h → ℕ → ℕ
  generate_new_write_clock cache system_now = max cache.read_logic_clock system_now

  unfoldable pub set_write_clock : MyCache h → ℕ → ℕ × MyCache h
  set_write_clock cache new_clock =
      let clock = max cache.write_logic_clock new_clock in
      (
        clock,
        record cache { write_logic_clock = clock; databases = each_clock clock cache.databases },
      )

  abbrev pub repeat : ℕ → Mocha h → List (Mocha h)
  repeat zero m = []
  repeat (suc n) m = m ∷ repeat n m

  -- The interpreter of `lua_env` is not part of the state.
  unfoldable pub new : ℕ → MyCache h
  new db_number = record {
    databases = repeat db_number (Mocha.new h 0);
    read_logic_clock = 0;
    write_logic_clock = 0;
  }

  unfoldable pub get_value_with_read_clock :
      MyCache h → Bytes → ℕ → ℕ → Option (Option MyValue) × MyCache h
  unfolding get_and_update_read_clock
  get_value_with_read_clock cache key db_number system_now = elim (get_cache cache db_number) [
    | none ↦ (none, cache)
    | some m ↦
        let (read_clock, cache') = get_and_update_read_clock cache system_now in
        let (found, m') = get_entry h m key in
        (
          some (elim found [
            | none ↦ none
            | some my_value ↦ elim my_value.expire_at [
              | none ↦ some my_value.value
              | some inner ↦ if ltb inner read_clock then none else some my_value.value
            ]
          ]),
          with_db cache' db_number m',
        )
  ]
