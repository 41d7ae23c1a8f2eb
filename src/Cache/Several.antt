-- ===== src/Cache/Several.antt =====
-- cache_cat/src/raft/types/core/mocha/cas.rs: commands that read several keys and write one.
pub mod Written
use cache_cat.Prelude.{
  ℕ, none, some, List, [], ◌∷◌, ◌++◌, Option, Bytes, ◌==◌, bytes_eq, if◌then◌else◌,
}
use cache_cat.Value.{Value, MyValue}
use cache_cat.Mocha.{Mocha, EntrySnapshot, MochaOperation, get_entry}
use cache_cat.Cache.{
  Store, MyCache, BaseOperation, AtomicRequest, UpdateType, plain, snapshot, cas, Update, get_cache,
  with_db,
}
use cache_cat.Cache.Compute.{prev_u32, write, queued_version, bump}

-- The trait: what such a command supplies.
pub record MultiReadComputeCommand : Type 0 where
  pub write_key : Bytes
  pub read_keys : List Bytes
  pub into_base_op : BaseOperation
  pub mutate : List (Option (EntrySnapshot MyValue)) → ℕ → MochaOperation MyValue × Value

module _ (h : Store) where
  -- `get_entry` of each key, one after the other.
  unfoldable pub read_entries :
      Mocha h → List Bytes → List (Option (EntrySnapshot MyValue)) × Mocha h
  read_entries m [] = ([], m)
  read_entries m (key ∷ keys) =
      let (entry, m') = get_entry h m key in
      let (entries, m'') = read_entries m' keys in (entry ∷ entries, m'')

  -- The three modes, once the entries have been read.
  unfoldable pub multi_compute :
      Mocha h
      → MultiReadComputeCommand
      → List (Option (EntrySnapshot MyValue))
      → ℕ
      → UpdateType
      → Value × (Mocha h × UpdateType)
  unfolding write queued_version bump
  multi_compute m cmd entries write_clock plain =
      let (changed, res) = cmd.mutate entries write_clock in
      (res, (write h m cmd.write_key changed, plain))
  multi_compute m cmd entries write_clock (snapshot queue) =
      let (changed, res) = cmd.mutate entries write_clock in
      let request : AtomicRequest = record {
        request = cmd.into_base_op;
        version = queued_version h changed;
        write_clock = write_clock;
      } in
      (res, (write h m cmd.write_key changed, snapshot (queue ++ (request ∷ []))))
  multi_compute m cmd entries write_clock (cas cas_version) =
      let (option, m') = get_entry h m cmd.write_key in
      elim option [
        | none ↦ (Value.null, (m', cas cas_version))
        | some entry ↦
            let (changed, res) = cmd.mutate entries write_clock in
            if entry.value.version == prev_u32 cas_version
            then (res, (write h m' cmd.write_key (bump h changed), cas cas_version))
            else (Value.null, (m', cas cas_version))
      ]

  unfoldable pub execute_multi_read_compute :
      MyCache h → MultiReadComputeCommand → Update → Value × (MyCache h × Update)
  unfolding read_entries multi_compute
  execute_multi_read_compute cache cmd update = elim (get_cache h cache update.db_number) [
    | none ↦ (Value.error "Key not found", (cache, update))
    | some m ↦
        let (entries, m') = read_entries m cmd.read_keys in
        let (res, (m'', mode)) =
          multi_compute m' cmd entries update.write_clock update.update_type in
        (res, (with_db h cache update.db_number m'', record update { update_type = mode }))
  ]
