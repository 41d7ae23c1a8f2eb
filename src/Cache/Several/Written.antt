-- ===== src/Cache/Several/Written.antt =====
-- What a client sees after a command that reads several keys and writes one.
use cache_cat.Prelude.{
  ℕ, ◌≡◌, refl, ◌∙◌, ap, Option, some, List, [], ◌∷◌, Bytes, bytes_eq, same, if◌then◌else◌, arith,
  ◌==◌, ◌&&◌, ==_iff,
}
use cache_cat.Value.{MyValue}
use cache_cat.Mocha.{Mocha, EntrySnapshot, MochaOperation, get_entry}
use cache_cat.Mocha.View.{view, get_entry_lem}
use cache_cat.Cache.{Store, MyCache, plain, Update, get_cache}
use cache_cat.Cache.Compute.{write}
use cache_cat.Cache.Seen.{changed, view-write, changed-get_entry, cache_view, cache_view-with_db}
use cache_cat.Cache.Several.{
  MultiReadComputeCommand, read_entries, multi_compute, execute_multi_read_compute,
}

module _ (h : Store) where
  -- What is seen of the keys, in their order.
  abbrev pub views : Mocha h → List Bytes → List (Option (EntrySnapshot MyValue))
  views m [] = []
  views m (key ∷ keys) = view h m key ∷ views m keys

  views-get_entry :
      (m : Mocha h) (k : Bytes) (keys : List Bytes) → views (get_entry h m k).1 keys ≡ views m keys
  views-get_entry m k [] = refl
  views-get_entry m k (key ∷ keys) = rw ((get_entry_lem h m k key).1, views-get_entry m k keys) refl

  read_entries_lem :
      (m : Mocha h) (keys : List Bytes) (k j : Bytes) (op : MochaOperation MyValue)
      → ((read_entries h m keys).0 ≡ views m keys)
        × (view h (read_entries h m keys).1 j ≡ view h m j)
        × (changed h (read_entries h m keys).1 k op ≡ changed h m k op)
  unfolding read_entries
  read_entries_lem m [] k j op = (refl, refl, refl)
  read_entries_lem m (key ∷ keys) k j op =
      let rest = read_entries_lem (get_entry h m key).1 keys k j op in
      let seen = get_entry_lem h m key key in
      (
        ap (λ e. e ∷ (read_entries h (get_entry h m key).1 keys).0) seen.0
            ∙ ap (λ l. view h m key ∷ l) (rest.0 ∙ views-get_entry m key keys),
        rest.1 ∙ (get_entry_lem h m key j).1,
        rest.2 ∙ changed-get_entry h m k key op,
      )

  -- A command that reads several keys and writes one, in the plain mode, answers what it computes
  -- from the entries that are seen of the keys it reads; then the key it writes is seen as the
  -- command leaves it, and every other key, and every key of another database, is seen as before.
  pub execute_multi_read_compute_lem :
      (cache : MyCache h) (cmd : MultiReadComputeCommand) (update : Update) (m : Mocha h) (i : ℕ)
      (j : Bytes)
      → get_cache h cache update.db_number ≡ some m
      → update.update_type ≡ plain
      → ((execute_multi_read_compute h cache cmd update).0
          ≡ (cmd.mutate (views m cmd.read_keys) update.write_clock).1)
        × (cache_view h (execute_multi_read_compute h cache cmd update).1.0 i j ≡ (
            if (update.db_number == i) && same cmd.write_key j
            then changed h m cmd.write_key (cmd.mutate (views m cmd.read_keys) update.write_clock).0
            else cache_view h cache i j))
  unfolding execute_multi_read_compute multi_compute
  execute_multi_read_compute_lem cache cmd update m i j p q =
      let op = (cmd.mutate (views m cmd.read_keys) update.write_clock).0 in
      let m' = (read_entries h m cmd.read_keys).1 in
      let read = read_entries_lem m cmd.read_keys cmd.write_key j op in
      rw (p, q, execute_multi_read_compute)
        (rw read.0 (
          refl,
          ground (
            arith,
            cache_view-with_db h cache update.db_number i m (write h m' cmd.write_key op) j p,
            view-write h m' cmd.write_key j op,
            read,
            ==_iff update.db_number i,
            p,
          ),
        ))
