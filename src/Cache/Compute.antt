-- ===== src/Cache/Compute.antt =====
-- cache_cat/src/raft/types/core/mocha/cas.rs: how a command on one key reads the entry, computes
-- what becomes of it and writes it, in the three modes of an update: plainly; with the operation
-- queued for the snapshot that is being taken; and as a replay that is guarded by the version.
use cache_cat.Prelude.{
  ℕ, ◌+◌, ◌-◌, ◌%◌, ◌^◌, none, some, [], ◌∷◌, ◌++◌, Bytes, bytes_eq, ◌==◌, if◌then◌else◌,
}
use cache_cat.Value.{Value, MyValue}
use cache_cat.Mocha.{
  Mocha, EntrySnapshot, MochaOperation, insert, remove, abort, insert_entry, remove_entry,
  get_entry,
}
use cache_cat.Cache.{
  Store, MyCache, BaseOperation, AtomicRequest, UpdateType, plain, snapshot, cas, Update, get_cache,
  with_db,
}

-- The trait: what a command on one key supplies.
pub record ComputeCommand : Type 0 where
  pub key : Bytes
  pub into_base_op : BaseOperation
  pub mutate : EntrySnapshot MyValue → ℕ → MochaOperation MyValue × Value
  pub init : MochaOperation MyValue × Value

-- `version + 1` and `cas_version - 1` of u32.
abbrev pub next_u32 : ℕ → ℕ
next_u32 v = (v + 1) % 2 ^ 32

abbrev pub prev_u32 : ℕ → ℕ
prev_u32 v = (v + (2 ^ 32 - 1)) % 2 ^ 32

module _ (h : Store) where
  -- `match changed`, without the queue and the version.
  unfoldable pub write : Mocha h → Bytes → MochaOperation MyValue → Mocha h
  write m key (insert value expire) = (insert_entry h m key value expire).1
  write m key remove = (remove_entry h m key).1
  write m key abort = m

  -- `next_version` in the mode of a snapshot.
  unfoldable pub queued_version : MochaOperation MyValue → ℕ
  queued_version (insert value expire) = next_u32 value.version
  queued_version remove = 1
  queued_version abort = 1

  -- `value.version += 1` of a replay.
  unfoldable pub bump : MochaOperation MyValue → MochaOperation MyValue
  bump (insert value expire) = insert (record value { version = next_u32 value.version }) expire
  bump remove = remove
  bump abort = abort

  -- The branch of a key that is not there, in every mode.
  unfoldable pub compute_missing : Mocha h → ComputeCommand → Value × Mocha h
  unfolding write
  compute_missing m cmd = elim (cmd.init.0) [
    | insert value expire ↦ (cmd.init.1, write m cmd.key (insert value expire))
    | remove ↦ (cmd.init.1, write m cmd.key remove)
    | abort ↦ (Value.error "Key not found", m)
  ]

  unfoldable pub compute_found :
      Mocha h
      → ComputeCommand
      → EntrySnapshot MyValue
      → ℕ
      → UpdateType
      → Value × (Mocha h × UpdateType)
  unfolding write queued_version bump
  compute_found m cmd entry write_clock plain =
      let (changed, res) = cmd.mutate entry write_clock in (res, (write m cmd.key changed, plain))
  compute_found m cmd entry write_clock (snapshot queue) =
      let (changed, res) = cmd.mutate entry write_clock in
      let request : AtomicRequest = record {
        request = cmd.into_base_op;
        version = queued_version changed;
        write_clock = write_clock;
      } in
      (res, (write m cmd.key changed, snapshot (queue ++ (request ∷ []))))
  compute_found m cmd entry write_clock (cas cas_version) =
      let (changed, res) = cmd.mutate entry write_clock in
      if entry.value.version == prev_u32 cas_version
      then (res, (write m cmd.key (bump changed), cas cas_version))
      else (Value.null, (m, cas cas_version))

  -- What `execute_compute` does to the database that the update names.
  unfoldable pub compute :
      Mocha h → ComputeCommand → ℕ → UpdateType → Value × (Mocha h × UpdateType)
  unfolding compute_missing compute_found
  compute m cmd write_clock mode =
      let (option, m') = get_entry h m cmd.key in
      elim option [
        | none ↦ (let (res, m'') = compute_missing m' cmd in (res, (m'', mode)))
        | some entry ↦ compute_found m' cmd entry write_clock mode
      ]

  unfoldable pub execute_compute :
      MyCache h → ComputeCommand → Update → Value × (MyCache h × Update)
  unfolding compute
  execute_compute cache cmd update = elim (get_cache h cache update.db_number) [
    | none ↦ (Value.error "Key not found", (cache, update))
    | some m ↦
        let (res, (m', mode)) = compute m cmd update.write_clock update.update_type in
        (res, (with_db h cache update.db_number m', record update { update_type = mode }))
  ]
