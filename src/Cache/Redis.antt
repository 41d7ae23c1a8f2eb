-- ===== src/Cache/Redis.antt =====
-- cache_cat/src/raft/types/core/cache/key.rs: the operations on keys that are not one command of
-- `execute_compute`. Each returns the reply, the cache and the update with its queue. The argument
-- `external`, which says whether to take a lock, is left out.
use cache_cat.Prelude.{
  ℕ, Bool, false, Option, none, some, List, [], ◌∷◌, ◌++◌, Bytes, ◌==◌, if◌then◌else◌, bit,
  bytes_eq,
}
use cache_cat.Value.{Value, MyValue, ok}
use cache_cat.Mocha
use cache_cat.Mocha.{Mocha, Entry, EntrySnapshot, get_entry, remove_entry}
use cache_cat.Mocha.Remove.{seen}
use cache_cat.Cache.{
  Store, MyCache, BaseOperation, AtomicRequest, UpdateType, plain, snapshot, cas, Update, get_cache,
  with_db, db_not_exist, invalidate_all,
}
use cache_cat.Cache.Compute.{execute_compute, next_u32, prev_u32}
use cache_cat.Value.Signed.{add_i64}
use cache_cat.Cache.Keys.{insert_req}

-- `cas_version` is met by the version of the entry, if there is one.
abbrev pub is_version : Option (EntrySnapshot MyValue) → ℕ → Bool
is_version none version = false
is_version (some entry) version = entry.value.version == version

-- The version that is queued with the deletion of an entry.
abbrev pub version_after : Option (EntrySnapshot MyValue) → ℕ
version_after none = 1
version_after (some entry) = next_u32 entry.value.version

-- `my_value.expire_at.unwrap_or(0)`
abbrev pub expiry_or_zero : Option ℕ → ℕ
expiry_or_zero none = 0
expiry_or_zero (some at) = at

module _ (h : Store) where
  abbrev pub Reply : Type 0
  Reply = Value × (MyCache h × Update)

  -- `del` in one database.
  unfoldable pub del_in : Mocha h → Bytes → ℕ → UpdateType → Value × (Mocha h × UpdateType)
  del_in m key write_clock plain =
      let (existed, m') = remove_entry h m key in (Value.integer (bit (seen existed)), (m', plain))
  del_in m key write_clock (snapshot queue) =
      let (entry, m') = get_entry h m key in
      let (existed, m'') = remove_entry h m' key in
      let request : AtomicRequest = record {
        version = version_after entry;
        request = BaseOperation.del key;
        write_clock = write_clock;
      } in
      (Value.integer (bit (seen existed)), (m'', snapshot (queue ++ (request ∷ []))))
  del_in m key write_clock (cas cas_version) =
      let (entry, m') = get_entry h m key in
      if is_version entry (prev_u32 cas_version)
      then (Value.integer 1, ((remove_entry h m' key).1, cas cas_version))
      else (Value.integer 0, (m', cas cas_version))

  unfoldable pub unlink_in : Mocha h → Bytes → ℕ → UpdateType → Value × (Mocha h × UpdateType)
  unlink_in m key write_clock plain =
      let (existed, m') = Mocha.unlink h m key in (Value.integer (bit existed), (m', plain))
  unlink_in m key write_clock (snapshot queue) =
      let (entry, m') = get_entry h m key in
      let (existed, m'') = Mocha.unlink h m' key in
      let request : AtomicRequest = record {
        version = version_after entry;
        request = BaseOperation.unlink key;
        write_clock = write_clock;
      } in
      (Value.integer (bit existed), (m'', snapshot (queue ++ (request ∷ []))))
  unlink_in m key write_clock (cas cas_version) =
      let (entry, m') = get_entry h m key in
      if is_version entry (prev_u32 cas_version)
      then (Value.integer 1, ((remove_entry h m' key).1, cas cas_version))
      else (Value.integer 0, (m', cas cas_version))

  -- A call in the database that the update names.
  abbrev pub in_db :
      (Mocha h → UpdateType → Value × (Mocha h × UpdateType)) → MyCache h → Update → Reply
  in_db call cache update = elim (get_cache h cache update.db_number) [
    | none ↦ (db_not_exist, (cache, update))
    | some m ↦
        let (res, (m', mode)) = call m update.update_type in
        (res, (with_db h cache update.db_number m', record update { update_type = mode }))
  ]

  unfoldable pub del : MyCache h → Bytes → Update → Reply
  unfolding del_in
  del cache key update = in_db (λ m mode. del_in m key update.write_clock mode) cache update

  unfoldable pub unlink : MyCache h → Bytes → Update → Reply
  unfolding unlink_in
  unlink cache key update = in_db (λ m mode. unlink_in m key update.write_clock mode) cache update

  -- The loops of `redis_del` and `redis_unlink`: an error ends them, a number is added.
  unfoldable pub sum_keys :
      (MyCache h → Bytes → Update → Reply) → ℕ → MyCache h → List Bytes → Update → Reply
  sum_keys call count cache [] update = (Value.integer count, (cache, update))
  sum_keys call count cache (key ∷ keys) update =
      let (res, (cache', update')) = call cache key update in
      elim res [
        | Value.error err ↦ (Value.error err, (cache', update'))
        | Value.integer num ↦ sum_keys call (add_i64 count num) cache' keys update'
        | _ ↦ sum_keys call count cache' keys update'
      ]

  unfoldable pub redis_del : MyCache h → List Bytes → Update → Reply
  unfolding sum_keys del
  redis_del cache keys update = sum_keys del 0 cache keys update

  unfoldable pub redis_unlink : MyCache h → List Bytes → Update → Reply
  unfolding sum_keys unlink
  redis_unlink cache keys update = sum_keys unlink 0 cache keys update

  -- The end of both renames: delete the key, and insert what it held under the new one.
  unfoldable pub move_entry :
      MyCache h → Bytes → Bytes → EntrySnapshot MyValue → Update → MyCache h × Update
  unfolding del
  move_entry cache key new_key my_value update =
      let (r, (cache', update')) = del cache key update in
      (execute_compute h cache'
        (insert_req new_key my_value.value.data_ (expiry_or_zero my_value.expire_at)) update').1

  unfoldable pub redis_rename : MyCache h → Bytes → Bytes → Update → Reply
  unfolding move_entry
  redis_rename cache key new_key update = elim (get_cache h cache update.db_number) [
    | none ↦ (db_not_exist, (cache, update))
    | some m ↦
        let (found, m') = get_entry h m key in
        let cache' = with_db h cache update.db_number m' in
        elim found [
          | none ↦ (Value.error "no such key", (cache', update))
          | some my_value ↦ (ok, move_entry cache' key new_key my_value update)
        ]
  ]

  unfoldable pub redis_rename_nx : MyCache h → Bytes → Bytes → Update → Reply
  unfolding move_entry
  redis_rename_nx cache key new_key update = elim (get_cache h cache update.db_number) [
    | none ↦ (db_not_exist, (cache, update))
    | some m ↦
        let (taken, m') = get_entry h m new_key in
        let (found, m'') = get_entry h m' key in
        elim taken [
          | some there ↦ (Value.integer 0, (with_db h cache update.db_number m', update))
          | none ↦ elim found [
            | none ↦ (Value.error "no such key", (with_db h cache update.db_number m'', update))
            | some my_value ↦ (
              Value.integer 1,
              move_entry (with_db h cache update.db_number m'') key new_key my_value update,
            )
          ]
        ]
  ]

  -- The queue of a snapshot with one more request; the other modes have no queue.
  abbrev pub queued : Update → BaseOperation → Update
  queued update op = elim update.update_type [
    | plain ↦ update
    | snapshot queue ↦
        (let request : AtomicRequest = record {
          version = 1;
          request = op;
          write_clock = update.write_clock;
        } in
          record update { update_type = snapshot (queue ++ (request ∷ [])) })
    | cas cas_version ↦ update
  ]

  unfoldable pub flush_db : MyCache h → Update → Reply
  flush_db cache update = elim (get_cache h cache update.db_number) [
    | none ↦ (db_not_exist, (cache, update))
    | some m ↦ (
      ok,
      (with_db h cache update.db_number (Mocha.clear h m), queued update BaseOperation.flush_db),
    )
  ]

  -- The loop over all databases is that of `invalidate_all`.
  unfoldable pub flush_all : MyCache h → Update → Reply
  flush_all cache update = (ok, (invalidate_all h cache, queued update BaseOperation.flush_all))

  unfoldable pub dbsize : MyCache h → ℕ → Value
  dbsize cache db_number = elim (get_cache h cache db_number) [
    | none ↦ db_not_exist
    | some m ↦ Value.integer (Mocha.len h m)
  ]
