-- ===== src/Cache/Queue.antt =====
-- The two other modes of an update against the plain one: with a queue for the snapshot that is
-- being taken, and as a replay that is guarded by the version of the entry.
use cache_cat.Prelude.{
  ℕ, ◌+◌, ◌%◌, ◌^◌, ◌<◌, ◌≡◌, refl, ◌∙◌, Bool, true, false, Option, none, some, List, [], ◌∷◌, ◌++◌,
  Bytes, bytes_eq, arith, Option-cases, inl, inr, ◌==◌, ==_iff,
}
use cache_cat.Value.{Value, MyValue}
use cache_cat.Mocha.{Mocha, EntrySnapshot, MochaOperation, insert, remove, abort, get_entry}
use cache_cat.Mocha.View.{view, get_entry_lem}
use cache_cat.Cache.{
  Store, MyCache, UpdateType, plain, snapshot, cas, Update, AtomicRequest, get_cache,
}
use cache_cat.Cache.Compute.{
  ComputeCommand, write, queued_version, compute_missing, compute_found, compute, execute_compute,
  prev_u32,
}
use cache_cat.Cache.Seen.{cache_view, cache_view-with_db}
use cache_cat.Cache.Strings.{set_req}

-- The request that a command queues, if any: an entry that is not seen leaves none.
abbrev pub request_of :
    Option (EntrySnapshot MyValue)
    → ComputeCommand
    → ℕ
    → (MochaOperation MyValue → ℕ)
    → List AtomicRequest
request_of none cmd now version = []
request_of (some entry) cmd now version =
    record {
      version = version (cmd.mutate entry now).0;
      request = cmd.into_base_op;
      write_clock = now;
    }
    ∷ []

abbrev pub with_mode : Update → UpdateType → Update
with_mode update mode = record update { update_type = mode }

abbrev pub IsWord : Option (EntrySnapshot MyValue) → Type 0
IsWord none = Unit
IsWord (some entry) = entry.value.version < 2 ^ 32

-- Whether a replay is taken.
abbrev pub accepts : Option (EntrySnapshot MyValue) → ℕ → Bool
accepts none version = true
accepts (some entry) version = version == (entry.value.version + 1) % 2 ^ 32

-- The change of a replay, from that of the command.
abbrev pub replayed :
    Option (EntrySnapshot MyValue) → MochaOperation MyValue → MochaOperation MyValue
replayed none op = op
replayed (some entry) (insert value expire) =
    insert (record value { version = (value.version + 1) % 2 ^ 32 }) expire
replayed (some entry) remove = remove
replayed (some entry) abort = abort

module _ (h : Store) where
  compute-snapshot :
      (m : Mocha h) (cmd : ComputeCommand) (now : ℕ) (queue : List AtomicRequest)
      → ((compute h m cmd now (snapshot queue)).0 ≡ (compute h m cmd now plain).0)
        × ((compute h m cmd now (snapshot queue)).1.0 ≡ (compute h m cmd now plain).1.0)
        × ((compute h m cmd now (snapshot queue)).1.1 ≡ (elim (view h m cmd.key) [
          | none ↦ snapshot queue
          | some entry ↦ snapshot (queue ++ request_of (some entry) cmd now (queued_version h))
        ]))
  unfolding compute compute_missing compute_found write
  compute-snapshot m cmd now queue = elim (Option-cases (view h m cmd.key)) [
    | inl gone ↦ rw ((get_entry_lem h m cmd.key cmd.key).0 ∙ gone, gone, compute) (refl, refl, refl)
    | inr (entry, there) ↦
        rw ((get_entry_lem h m cmd.key cmd.key).0 ∙ there, there, compute) (refl, refl, refl)
  ]

  -- While a snapshot is taken a command answers and changes the databases as it does otherwise; it
  -- queues one request, with the clock and the version that its change asks for, if the entry of
  -- its key is seen, and no request if it is not.
  pub execute_compute-snapshot :
      (cache : MyCache h) (cmd : ComputeCommand) (update : Update) (m : Mocha h)
      (queue : List AtomicRequest)
      → get_cache h cache update.db_number ≡ some m
      → ((execute_compute h cache cmd (with_mode update (snapshot queue))).0
          ≡ (execute_compute h cache cmd (with_mode update plain)).0)
        × ((execute_compute h cache cmd (with_mode update (snapshot queue))).1.0
            ≡ (execute_compute h cache cmd (with_mode update plain)).1.0)
        × ((execute_compute h cache cmd (with_mode update (snapshot queue))).1.1.update_type
            ≡ (elim (view h m cmd.key) [
              | none ↦ snapshot queue
              | some entry ↦
                  snapshot
                    (queue ++ request_of (some entry) cmd update.write_clock (queued_version h))
            ]))
  unfolding execute_compute
  execute_compute-snapshot cache cmd update m queue p =
      let (a, b, c) = compute-snapshot m cmd update.write_clock queue in
      rw (p, execute_compute) (a, rw b refl, c)

  -- A replay whose version is not the successor of that of the entry that is seen answers nil and
  -- changes nothing that a client sees.
  execute_compute-stale :
      (cache : MyCache h) (cmd : ComputeCommand) (update : Update) (m : Mocha h)
      (entry : EntrySnapshot MyValue) (version i : ℕ) (j : Bytes)
      → get_cache h cache update.db_number ≡ some m
      → view h m cmd.key ≡ some entry
      → (entry.value.version == prev_u32 version) ≡ false
      → ((execute_compute h cache cmd (with_mode update (cas version))).0 ≡ Value.null)
        × (cache_view h (execute_compute h cache cmd (with_mode update (cas version))).1.0 i j
            ≡ cache_view h cache i j)
  unfolding execute_compute compute compute_found
  execute_compute-stale cache cmd update m entry version i j p there other =
      rw
        (
          p,
          (get_entry_lem h m cmd.key cmd.key).0 ∙ there,
          other,
          execute_compute,
          compute,
          compute_found,
        )
        (
          refl,
          ground (
            arith,
            cache_view-with_db h cache update.db_number i m (get_entry h m cmd.key).1 j p,
            get_entry_lem h m cmd.key j,
            p,
            ==_iff update.db_number i,
          ),
        )

  -- A SET that is queued while a snapshot is taken is not replayed onto the entry that it found: the
  -- replay answers nil and changes nothing that a client sees.
  pub set_req-not_replayed :
      (cache : MyCache h) (key value : Bytes) (ex_time : ℕ) (update : Update) (m : Mocha h)
      (entry : EntrySnapshot MyValue) (i : ℕ) (j : Bytes)
      → get_cache h cache update.db_number ≡ some m
      → view h m key ≡ some entry
      → entry.value.version < 2 ^ 32
      → ((execute_compute h cache (set_req key value ex_time) (
            with_mode update (
              cas (
                queued_version h
                  ((set_req key value ex_time).mutate entry update.write_clock).0)))).0
          ≡ Value.null)
        × (cache_view h
              (execute_compute h cache (set_req key value ex_time) (
                with_mode update (
                  cas (
                    queued_version h
                      ((set_req key value ex_time).mutate entry update.write_clock).0)))).1.0
              i
              j
            ≡ cache_view h cache i j)
  unfolding set_req queued_version
  set_req-not_replayed cache key value ex_time update m entry i j p there bound =
      execute_compute-stale cache (set_req key value ex_time) update m entry _ i j p there
        (ground (arith, bound))
