-- ===== src/Mocha/View.antt =====
-- What a client sees of the map at the logical clock: an entry whose instant has come is not there.
use cache_cat.Prelude.{ℕ, ◌≡◌, Option, none, some, if◌then◌else◌, Eq, same, same_iff, arith}
use cache_cat.Map.{HashMap}
use cache_cat.Mocha.{
  Entry, EntrySnapshot, ExpirePolicy, Mocha, past, snapshot, get_entry, insert_entry, make_entry,
  remove_expired_if_current_from, enqueue_expiry,
}

abbrev pub live : {V : Type 0} → ℕ → Option (Entry V) → Option (EntrySnapshot V)
live clock none = none
live clock (some entry) = if past entry.expire_at clock then none else some (snapshot entry)

module _ {K V : Type 0} ⦃e : Eq K⦄ (h : HashMap K (Entry V)) where
  abbrev pub view : Mocha h → K → Option (EntrySnapshot V)
  view m key = live m.logic_clock (h.get m.map key)

  -- `get_entry` returns what is seen, and what any client sees stays the same, although an expired
  -- entry is removed on the way.
  pub get_entry_lem :
      (m : Mocha h) (k j : K)
      → ((get_entry h m k).0 ≡ view m k) × (view (get_entry h m k).1 j ≡ view m j)
  unfolding get_entry remove_expired_if_current_from
  get_entry_lem m k j = ground (arith, same_iff k j, h.get-delete m.map k j)

  pub queue-get_entry : (m : Mocha h) (k : K) → (get_entry h m k).1.queue ≡ m.queue
  unfolding get_entry
  queue-get_entry m k = ground arith

  pub clock-get_entry : (m : Mocha h) (k : K) → (get_entry h m k).1.logic_clock ≡ m.logic_clock
  unfolding get_entry
  clock-get_entry m k = ground arith

  -- After `insert_entry` the key is seen with the new value, unless its instant has already come;
  -- every other key is seen as before.
  pub view-insert_entry :
      (m : Mocha h) (k j : K) (v : V) (policy : ExpirePolicy)
      → view (insert_entry h m k v policy).1 j
        ≡ (if same k j then live m.logic_clock (some (make_entry h m v policy)) else view m j)
  unfolding insert_entry enqueue_expiry
  view-insert_entry m k j v policy = ground (arith, h.get-put m.map k j (make_entry h m v policy))
