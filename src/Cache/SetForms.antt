-- ===== src/Cache/SetForms.antt =====
-- cache_cat/src/raft/types/core/cache/string.rs: SET with its options and the commands that are
-- forms of it, down to the one command `SetReq` that `execute_compute` runs; and the reply of SET,
-- cache_cat/src/protocol/string/set.rs.
use cache_cat.Prelude.{
  ℕ, ◌+◌, ◌*◌, ◌%◌, ◌^◌, Bool, true, false, not, ◌||◌, Option, none, some, List, [], ◌∷◌, ◌++◌,
  Bytes, if◌then◌else◌, bytes_eq,
}
use cache_cat.Value.{Value, ValueObject, MyValue, ok}
use cache_cat.Value.Print.{to_string}
use cache_cat.Mocha.{EntrySnapshot, get_entry}
use cache_cat.Mocha.Remove.{seen}
use cache_cat.Cache.{Store, MyCache, Update, get_cache, with_db, db_not_exist, wrong_type}
use cache_cat.Cache.Compute.{execute_compute}
use cache_cat.Cache.Strings.{set_req}
use cache_cat.Cache.Redis.{Reply, expiry_or_zero}

pub data Expiration : Type 0 where
  ex : ℕ → Expiration
  px : ℕ → Expiration
  ex_at : ℕ → Expiration
  px_at : ℕ → Expiration
  keep_ttl : Expiration

pub data SetMode : Type 0 where
  nx : SetMode
  xx : SetMode

pub record SetParams : Type 0 where
  pub key : Bytes
  pub value : Bytes
  pub mode : Option SetMode
  pub get : Bool
  pub expiration : Option Expiration

-- `ExistingKey::None` is `absent`.
pub data ExistingKey : Type 0 where
  absent : ExistingKey
  data_ : Bytes → ExistingKey
  other_type : ExistingKey

abbrev pub no_expiration : ℕ
no_expiration = 0

unfoldable pub existing : Option (EntrySnapshot MyValue) → ExistingKey
existing none = absent
existing (some entry) = elim entry.value.data_ [
  | ValueObject.int v ↦ data_ (to_string v)
  | ValueObject.string v ↦ data_ v
  | _ ↦ other_type
]

abbrev pub key_exists : ExistingKey → Bool
key_exists absent = false
key_exists (data_ v) = true
key_exists other_type = true

-- The old value as GET answers it: nil for a key of another type.
abbrev pub old_value : ExistingKey → Value
old_value absent = Value.bulk_string none
old_value (data_ v) = Value.bulk_string (some v)
old_value other_type = Value.bulk_string none

-- `expires_at` of every option but KEEPTTL, which keeps that of the entry.
unfoldable pub expires_at : Option Expiration → ℕ → ℕ
expires_at none now = no_expiration
expires_at (some (ex seconds)) now = (now + seconds * 1000 % 2 ^ 64) % 2 ^ 64
expires_at (some (px millis)) now = (now + millis) % 2 ^ 64
expires_at (some (ex_at timestamp)) now = timestamp * 1000 % 2 ^ 64
expires_at (some (px_at timestamp)) now = timestamp
expires_at (some keep_ttl) now = no_expiration

abbrev pub kept_expiry : Option (EntrySnapshot MyValue) → ℕ
kept_expiry none = no_expiration
kept_expiry (some value) = expiry_or_zero value.expire_at

abbrev pub is_keep_ttl : Option Expiration → Bool
is_keep_ttl (some keep_ttl) = true
is_keep_ttl _ = false

-- Whether the mode lets the call write.
unfoldable pub allowed : Option SetMode → Bool → Bool
allowed none there = true
allowed (some nx) there = if there then false else true
allowed (some xx) there = there

module _ (h : Store) where
  unfoldable pub set : MyCache h → Bytes → Bytes → ℕ → Update → Reply h
  unfolding set_req
  set cache key value ex_time update = execute_compute h cache (set_req key value ex_time) update

  -- The call once what it reads of the key is known.
  unfoldable pub set_known : MyCache h → SetParams → Update → ℕ → ExistingKey → Reply h
  unfolding set allowed
  set_known cache params update at existing_key =
      if allowed params.mode (key_exists existing_key)
      then (
        if params.get then old_value existing_key else ok,
        (set cache params.key params.value at update).1,
      )
      else (if params.get then old_value existing_key else Value.bulk_string none, (cache, update))

  -- `get_cache` and `get_entry`; there is nothing if the database does not exist.
  unfoldable pub read_existing :
      MyCache h → Bytes → ℕ → Option (Option (EntrySnapshot MyValue) × MyCache h)
  read_existing cache key db_number = elim (get_cache h cache db_number) [
    | none ↦ none
    | some m ↦ (let (found, m') = get_entry h m key in some (found, with_db h cache db_number m'))
  ]

  -- The second read, for a mode or GET, if the first has found nothing.
  unfoldable pub set_read : MyCache h → SetParams → Update → ℕ → ExistingKey → Reply h
  unfolding set_known read_existing existing
  set_read cache params update at existing_key =
      if key_exists existing_key || not (seen params.mode || params.get)
      then set_known cache params update at existing_key
      else (elim (read_existing cache params.key update.db_number) [
        | none ↦ (db_not_exist, (cache, update))
        | some (found, cache') ↦ set_known cache' params update at (existing found)
      ])

  unfoldable pub redis_set : MyCache h → SetParams → Update → Reply h
  unfolding set_read read_existing expires_at existing
  redis_set cache params update =
      if is_keep_ttl params.expiration
      then (elim (read_existing cache params.key update.db_number) [
        | none ↦ (db_not_exist, (cache, update))
        | some (found, cache') ↦ set_read cache' params update (kept_expiry found) (existing found)
      ])
      else set_read cache params update (expires_at params.expiration update.write_clock) absent

  -- `SetCommand::execute` from parsed arguments on. In a transaction the request waits in the queue
  -- of the client; if not, it is committed and applied, and its value is the reply only with GET.
  unfoldable pub set_execute :
      Option (List SetParams)
      → MyCache h
      → SetParams
      → Update
      → Value × (Option (List SetParams) × (MyCache h × Update))
  unfolding redis_set
  set_execute (some queue) cache params update =
      (Value.simple_string "QUEUED", (some (queue ++ (params ∷ [])), (cache, update)))
  set_execute none cache params update =
      let (value, state) = redis_set cache params update in
      (if params.get then value else ok, (none, state))

  unfoldable pub redis_setnx : MyCache h → Bytes → Bytes → Update → Reply h
  unfolding set read_existing existing
  redis_setnx cache key value update = elim (read_existing cache key update.db_number) [
    | none ↦ (db_not_exist, (cache, update))
    | some (found, cache') ↦
        if key_exists (existing found)
        then (Value.bulk_string none, (cache', update))
        else (ok, (set cache' key value no_expiration update).1)
  ]

  unfoldable pub redis_setex : MyCache h → Bytes → Bytes → ℕ → Update → Reply h
  unfolding set
  redis_setex cache key value expiration update =
      let at = (update.write_clock + expiration * 1000 % 2 ^ 64) % 2 ^ 64 in
      (ok, (set cache key value at update).1)

  unfoldable pub redis_psetex : MyCache h → Bytes → Bytes → ℕ → Update → Reply h
  unfolding set
  redis_psetex cache key value expiration update =
      (ok, (set cache key value ((update.write_clock + expiration) % 2 ^ 64) update).1)

  unfoldable pub redis_get_set : MyCache h → Bytes → Bytes → Update → Reply h
  unfolding set read_existing existing
  redis_get_set cache key value update = elim (read_existing cache key update.db_number) [
    | none ↦ (db_not_exist, (cache, update))
    | some (found, cache') ↦ elim (existing found) [
      | other_type ↦ (wrong_type, (cache', update))
      | absent ↦ (Value.bulk_string none, (set cache' key value 0 update).1)
      | data_ v ↦ (Value.bulk_string (some v), (set cache' key value 0 update).1)
    ]
  ]

  unfoldable pub redis_mset : MyCache h → List (Bytes × Bytes) → Update → Reply h
  unfolding set
  redis_mset cache [] update = (ok, (cache, update))
  redis_mset cache ((key, value) ∷ pairs) update =
      let (r, (cache', update')) = set cache key value 0 update in redis_mset cache' pairs update'
