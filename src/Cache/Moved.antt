-- ===== src/Cache/Moved.antt =====
-- RENAME and RENAMENX, in the plain mode, as a client sees them.
use cache_cat.Prelude.{
  ℕ, ◌≡◌, refl, ◌∙◌, ap, false, not, ◌&&◌, Option, none, some, Bytes, bytes_eq, same, if◌then◌else◌,
  arith, Option-cases, inl, inr, ◌==◌, ==_iff,
}
use cache_cat.Value.{Value, ValueObject, MyValue, ok}
use cache_cat.Mocha.{
  Mocha, EntrySnapshot, insert, past, get_entry, remove_entry, make_entry, resolve_expire_at,
}
use cache_cat.Mocha.View.{view, get_entry_lem}
use cache_cat.Mocha.Remove.{seen, remove_entry_lem}
use cache_cat.Cache.{Store, MyCache, plain, Update, get_cache, with_db}
use cache_cat.Cache.Compute.{execute_compute}
use cache_cat.Cache.Strings.{policy_of}
use cache_cat.Cache.Keys.{insert_req}
use cache_cat.Cache.Redis.{version_after, expiry_or_zero, move_entry, redis_rename, redis_rename_nx}
use cache_cat.Cache.Seen.{
  outcome, changed, cache_view, cache_view-with_db, get_elem?-replace, execute_compute_lem,
  live-past,
}
use cache_cat.Cache.Rename.{del-plain}

insert_req-outcome :
    (o : Option (EntrySnapshot MyValue)) (k : Bytes) (v : ValueObject) (at now : ℕ)
    → (outcome o (insert_req k v at) now).0
      ≡ insert (record { version = version_after o; data_ = v }) (policy_of at)
unfolding insert_req
insert_req-outcome none k v at now = refl
insert_req-outcome (some e) k v at now = refl

module _ (h : Store) where
  policy-kept :
      (m : Mocha h) (k : Bytes) (v : MyValue) (at : Option ℕ)
      → past at m.logic_clock ≡ false
      → changed h m k (insert v (policy_of (expiry_or_zero at)))
        ≡ some (record { value = v; expire_at = at })
  unfolding policy_of make_entry resolve_expire_at
  policy-kept m k v none p = refl
  policy-kept m k v (some at) p = ground (arith, p)

  clock-remove_entry :
      (m : Mocha h) (k : Bytes) → (remove_entry h m k).1.logic_clock ≡ m.logic_clock
  unfolding remove_entry
  clock-remove_entry m k = ground arith

  inserted :
      (cache : MyCache h) (key : Bytes) (v : ValueObject) (at : ℕ) (update : Update) (m : Mocha h)
      (i : ℕ) (j : Bytes)
      → get_cache h cache update.db_number ≡ some m
      → update.update_type ≡ plain
      → cache_view h (execute_compute h cache (insert_req key v at) update).1.0 i j ≡ (
          if (update.db_number == i) && same key j
          then changed h m key
              (insert (record { version = version_after (view h m key); data_ = v }) (policy_of at))
          else cache_view h cache i j)
  unfolding insert_req
  inserted cache key v at update m i j p q =
      (execute_compute_lem h cache (insert_req key v at) update m i j p q).1
      ∙ ap
          (λ x.
            if (update.db_number == i) && same key j
            then changed h m key x
            else cache_view h cache i j)
          (insert_req-outcome (view h m key) key v at update.write_clock)

  -- What is seen once an entry has moved: under the new key the data and the expiry of the entry,
  -- the key itself no longer, unless it is the new one, and the rest as before.
  abbrev pub moved :
      Mocha h → Bytes → Bytes → EntrySnapshot MyValue → Bytes → Option (EntrySnapshot MyValue)
  moved m key new_key e j =
      let old = if same key new_key then none else view h m new_key in
      if same new_key j
      then some (record {
        value = record { version = version_after old; data_ = e.value.data_ };
        expire_at = e.expire_at;
      })
      else if same key j
      then none
      else view h m j

  move_entry-moved :
      (cache : MyCache h) (key new_key : Bytes) (update : Update) (m : Mocha h)
      (e : EntrySnapshot MyValue) (i : ℕ) (j : Bytes)
      → get_cache h cache update.db_number ≡ some m
      → update.update_type ≡ plain
      → view h m key ≡ some e
      → cache_view h (move_entry h cache key new_key e update).0 i j
        ≡ (if update.db_number == i then moved m key new_key e j else cache_view h cache i j)
  unfolding move_entry
  move_entry-moved cache key new_key update m e i j p q there =
      let n = update.db_number in
      let m' : Mocha h = (remove_entry h m key).1 in
      let cache' : MyCache h = with_db h cache n m' in
      let u : Update = record update { update_type = plain } in
      let found : get_cache h cache' n ≡ some m' =
        ground (arith, get_elem?-replace h cache.databases n n m m' p, ==_iff n n) in
      let at = expiry_or_zero e.expire_at in
      let new_value : MyValue = record {
        version = version_after (view h m' new_key);
        data_ = e.value.data_;
      } in
      let alive : past e.expire_at m'.logic_clock ≡ false =
        rw (clock-remove_entry m key) (live-past h m.logic_clock (h.get m.map key) e there) in
      simp (del-plain h cache key update m p q, move_entry)
        (ground (
          arith,
          inserted cache' new_key e.value.data_ at u m' i j found refl,
          policy-kept m' new_key new_value e.expire_at alive,
          cache_view-with_db h cache n i m m' j p,
          remove_entry_lem h m key j,
          remove_entry_lem h m key new_key,
          p,
          ==_iff n i,
        ))

  -- RENAME of a key that is seen, in the plain mode, answers OK; then the new key is seen with the
  -- data and the expiry of the old one, the old one is not seen unless it is the new one, and every
  -- other key, and every key of another database, is seen as before.
  pub redis_rename_lem :
      (cache : MyCache h) (key new_key : Bytes) (update : Update) (m : Mocha h)
      (e : EntrySnapshot MyValue) (i : ℕ) (j : Bytes)
      → get_cache h cache update.db_number ≡ some m
      → update.update_type ≡ plain
      → view h m key ≡ some e
      → ((redis_rename h cache key new_key update).0 ≡ ok)
        × (cache_view h (redis_rename h cache key new_key update).1.0 i j
            ≡ (if update.db_number == i then moved m key new_key e j else cache_view h cache i j))
  unfolding redis_rename
  redis_rename_lem cache key new_key update m e i j p q there =
      let n = update.db_number in
      let m' : Mocha h = (get_entry h m key).1 in
      let cache' : MyCache h = with_db h cache n m' in
      let found : get_cache h cache' n ≡ some m' =
        ground (arith, get_elem?-replace h cache.databases n n m m' p, ==_iff n n) in
      let seen_too : view h m' key ≡ some e = (get_entry_lem h m key key).1 ∙ there in
      rw (p, (get_entry_lem h m key key).0 ∙ there, redis_rename)
        (
          refl,
          ground (
            arith,
            move_entry-moved cache' key new_key update m' e i j found q seen_too,
            cache_view-with_db h cache n i m m' j p,
            get_entry_lem h m key j,
            get_entry_lem h m key new_key,
            p,
            ==_iff n i,
          ),
        )

  -- RENAMENX of a key that is seen, in the plain mode: if the new key is seen it answers 0 and
  -- nothing that a client sees changes; if not, it answers 1 and does what RENAME does.
  pub redis_rename_nx_lem :
      (cache : MyCache h) (key new_key : Bytes) (update : Update) (m : Mocha h)
      (e : EntrySnapshot MyValue) (i : ℕ) (j : Bytes)
      → get_cache h cache update.db_number ≡ some m
      → update.update_type ≡ plain
      → view h m key ≡ some e
      → ((redis_rename_nx h cache key new_key update).0
          ≡ Value.integer (if seen (view h m new_key) then 0 else 1))
        × (cache_view h (redis_rename_nx h cache key new_key update).1.0 i j ≡ (
            if (update.db_number == i) && not (seen (view h m new_key))
            then moved m key new_key e j
            else cache_view h cache i j))
  unfolding redis_rename_nx
  redis_rename_nx_lem cache key new_key update m e i j p q there =
      let n = update.db_number in
      let m' : Mocha h = (get_entry h m new_key).1 in
      let m'' : Mocha h = (get_entry h m' key).1 in
      let cache' : MyCache h = with_db h cache n m'' in
      let found : get_cache h cache' n ≡ some m'' =
        ground (arith, get_elem?-replace h cache.databases n n m m'' p, ==_iff n n) in
      let seen' : view h m' key ≡ some e = (get_entry_lem h m new_key key).1 ∙ there in
      let seen'' : view h m'' key ≡ some e = (get_entry_lem h m' key key).1 ∙ seen' in
      elim (Option-cases (view h m new_key)) [
        | inr (x, taken) ↦
            rw (p, (get_entry_lem h m new_key new_key).0 ∙ taken, taken, redis_rename_nx)
              (
                refl,
                ground (
                  arith,
                  cache_view-with_db h cache n i m m' j p,
                  get_entry_lem h m new_key j,
                  p,
                  ==_iff n i,
                ),
              )
        | inl free ↦
            rw
              (
                p,
                (get_entry_lem h m new_key new_key).0 ∙ free,
                free,
                (get_entry_lem h m' key key).0 ∙ seen',
                redis_rename_nx,
              )
              (
                refl,
                ground (
                  arith,
                  move_entry-moved cache' key new_key update m'' e i j found q seen'',
                  cache_view-with_db h cache n i m m'' j p,
                  get_entry_lem h m new_key j,
                  get_entry_lem h m' key j,
                  get_entry_lem h m new_key new_key,
                  get_entry_lem h m' key new_key,
                  free,
                  p,
                  ==_iff n i,
                ),
              )
      ]
