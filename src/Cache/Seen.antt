-- ===== src/Cache/Seen.antt =====
-- What a client sees after a command on one key: `execute_compute` against what the command
-- computes from the entry that is seen.
use cache_cat.Prelude.{
  ℕ, zero, suc, ◌≡◌, refl, ◌∙◌, Option, none, some, List, [], ◌∷◌, Bytes, bytes_eq, same, same_iff,
  if◌then◌else◌, get_elem?, arith, Option-cases, inl, inr, ◌==◌, ◌&&◌, ==_iff, Bool-cases, false,
}
use cache_cat.Value.{Value, MyValue}
use cache_cat.Mocha.{
  Mocha, EntrySnapshot, MochaOperation, insert, remove, abort, make_entry, get_entry,
  resolve_expire_at, Entry, past, get_expire_policy, persistent, absolute, ttl,
}
use cache_cat.Mocha.View.{live, view, get_entry_lem, clock-get_entry, view-insert_entry}
use cache_cat.Mocha.Remove.{remove_entry_lem}
use cache_cat.Cache.{Store, MyCache, plain, Update, get_cache, with_db, replace}
use cache_cat.Cache.Compute.{
  ComputeCommand, write, compute_missing, compute_found, compute, execute_compute,
}

-- What the command makes of the entry that is seen: the change, and the reply. A key that is not
-- there and is not created is an error.
abbrev pub missing : MochaOperation MyValue × Value → MochaOperation MyValue × Value
missing (insert v p, res) = (insert v p, res)
missing (remove, res) = (remove, res)
missing (abort, res) = (abort, Value.error "Key not found")

abbrev pub outcome :
    Option (EntrySnapshot MyValue) → ComputeCommand → ℕ → MochaOperation MyValue × Value
outcome none cmd write_clock = missing cmd.init
outcome (some entry) cmd write_clock = cmd.mutate entry write_clock

module _ (h : Store) where
  -- How a key is seen after a change.
  abbrev pub changed : Mocha h → Bytes → MochaOperation MyValue → Option (EntrySnapshot MyValue)
  changed m key (insert v policy) = live m.logic_clock (some (make_entry h m v policy))
  changed m key remove = none
  changed m key abort = view h m key

  pub view-write :
      (m : Mocha h) (k j : Bytes) (op : MochaOperation MyValue)
      → view h (write h m k op) j ≡ (if same k j then changed m k op else view h m j)
  unfolding write
  view-write m k j (insert v policy) = view-insert_entry h m k j v policy
  view-write m k j remove = (remove_entry_lem h m k j).1
  view-write m k j abort = ground (arith, same_iff k j)

  pub changed-get_entry :
      (m : Mocha h) (k i : Bytes) (op : MochaOperation MyValue)
      → changed (get_entry h m i).1 k op ≡ changed m k op
  unfolding make_entry resolve_expire_at
  changed-get_entry m k i (insert v persistent) = refl
  changed-get_entry m k i (insert v (absolute at)) = rw (clock-get_entry h m i) refl
  changed-get_entry m k i (insert v (ttl t)) = rw (clock-get_entry h m i) refl
  changed-get_entry m k i remove = refl
  changed-get_entry m k i abort = (get_entry_lem h m i k).1

  pub view-get-write :
      (m : Mocha h) (k j : Bytes) (op : MochaOperation MyValue)
      → view h (write h (get_entry h m k).1 k op) j
        ≡ (if same k j then changed m k op else view h m j)
  view-get-write m k j op = ground (
    arith,
    view-write (get_entry h m k).1 k j op,
    changed-get_entry m k k op,
    get_entry_lem h m k j,
  )

  pub compute_missing_lem :
      (m : Mocha h) (cmd : ComputeCommand)
      → compute_missing h m cmd ≡ ((missing cmd.init).1, write h m cmd.key (missing cmd.init).0)
  unfolding compute_missing write
  compute_missing_lem m cmd = ground arith

  pub compute-plain :
      (m : Mocha h) (cmd : ComputeCommand) (now : ℕ)
      → compute h m cmd now plain ≡ (
        (outcome (view h m cmd.key) cmd now).1,
        (write h (get_entry h m cmd.key).1 cmd.key (outcome (view h m cmd.key) cmd now).0, plain),
      )
  unfolding compute compute_missing compute_found write
  compute-plain m cmd now = elim (Option-cases (view h m cmd.key)) [
    | inl gone ↦
        rw ((get_entry_lem h m cmd.key cmd.key).0 ∙ gone, gone, compute)
          (rw (compute_missing_lem (get_entry h m cmd.key).1 cmd) refl)
    | inr (entry, seen) ↦ rw ((get_entry_lem h m cmd.key cmd.key).0 ∙ seen, seen, compute) refl
  ]

  -- The same in one database.
  pub compute_lem :
      (m : Mocha h) (cmd : ComputeCommand) (now : ℕ) (j : Bytes)
      → ((compute h m cmd now plain).0 ≡ (outcome (view h m cmd.key) cmd now).1)
        × (view h (compute h m cmd now plain).1.0 j ≡ (
            if same cmd.key j
            then changed m cmd.key (outcome (view h m cmd.key) cmd now).0
            else view h m j))
  compute_lem m cmd now j =
      rw (compute-plain m cmd now)
        (refl, view-get-write m cmd.key j (outcome (view h m cmd.key) cmd now).0)

  pub live-past :
      (clock : ℕ) (o : Option (Entry MyValue)) (e : EntrySnapshot MyValue)
      → live clock o ≡ some e
      → past e.expire_at clock ≡ false
  live-past clock none e p = ground (arith, p)
  live-past clock (some entry) e p = elim (Bool-cases (past entry.expire_at clock)) [
    | inl old ↦ ground (arith, p, old)
    | inr new ↦ ground (arith, p, new)
  ]

  -- A new value with the expiry of the entry that is seen is seen.
  pub changed-kept :
      (m : Mocha h) (k : Bytes) (v : MyValue) (e : EntrySnapshot MyValue)
      → view h m k ≡ some e
      → changed m k (insert v (get_expire_policy e))
        ≡ some (record { value = v; expire_at = e.expire_at })
  unfolding get_expire_policy make_entry resolve_expire_at
  changed-kept m k v e p =
      let q = live-past m.logic_clock (h.get m.map k) e p in
      elim (Option-cases e.expire_at) [
        | inl never ↦ rw never refl
        | inr (at, some_day) ↦ rw some_day (rw (rw some_day at q) refl)
      ]

  pub get_elem?-replace :
      (ms : List (Mocha h)) (i j : ℕ) (m x : Mocha h)
      → get_elem? ms i ≡ some m
      → get_elem? (replace h ms i x) j ≡ (if i == j then some x else get_elem? ms j)
  get_elem?-replace [] i j m x p = absurd (ground (arith, p))
  get_elem?-replace (y ∷ ms) zero zero m x p = refl
  get_elem?-replace (y ∷ ms) zero (suc j) m x p = ground arith
  get_elem?-replace (y ∷ ms) (suc i) zero m x p = ground arith
  get_elem?-replace (y ∷ ms) (suc i) (suc j) m x p = ground (arith, get_elem?-replace ms i j m x p)

  abbrev pub view_at : Option (Mocha h) → Bytes → Option (EntrySnapshot MyValue)
  view_at none j = none
  view_at (some m) j = view h m j

  -- What a client sees of a key in a database; nothing in a database that does not exist.
  abbrev pub cache_view : MyCache h → ℕ → Bytes → Option (EntrySnapshot MyValue)
  cache_view cache i j = view_at (get_elem? cache.databases i) j

  pub cache_view-with_db :
      (cache : MyCache h) (n i : ℕ) (m x : Mocha h) (j : Bytes)
      → get_cache h cache n ≡ some m
      → cache_view (with_db h cache n x) i j ≡ (if n == i then view h x j else cache_view cache i j)
  cache_view-with_db cache n i m x j p = ground (arith, get_elem?-replace cache.databases n i m x p)

  pub execute_compute_lem :
      (cache : MyCache h) (cmd : ComputeCommand) (update : Update) (m : Mocha h) (i : ℕ) (j : Bytes)
      → get_cache h cache update.db_number ≡ some m
      → update.update_type ≡ plain
      → ((execute_compute h cache cmd update).0
          ≡ (outcome (view h m cmd.key) cmd update.write_clock).1)
        × (cache_view (execute_compute h cache cmd update).1.0 i j ≡ (
            if (update.db_number == i) && same cmd.key j
            then changed m cmd.key (outcome (view h m cmd.key) cmd update.write_clock).0
            else cache_view cache i j))
  unfolding execute_compute
  execute_compute_lem cache cmd update m i j p q =
      let op = (outcome (view h m cmd.key) cmd update.write_clock).0 in
      let c = compute-plain m cmd update.write_clock in
      rw (p, q, execute_compute)
        (rw c (
          refl,
          ground (
            arith,
            cache_view-with_db cache update.db_number i m
                (write h (get_entry h m cmd.key).1 cmd.key op) j p,
            view-get-write m cmd.key j op,
            ==_iff update.db_number i,
            p,
          ),
        ))
