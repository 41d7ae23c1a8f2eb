-- ===== src/Cache/Sets/Stores.antt =====
-- cache_cat/src/raft/types/core/cache/set.rs: SUNIONSTORE and SDIFFSTORE, which read several sets,
-- delete the key they write, and add the members to it. `external`, which says whether to take a
-- lock, is left out.
use cache_cat.Prelude.{Option, none, some, List, [], ◌∷◌, Bytes, bytes_eq}
use cache_cat.Value.{Value, MyValue}
use cache_cat.Mocha.{Mocha, EntrySnapshot, get_entry}
use cache_cat.Cache.{Store, MyCache, Update, get_cache, with_db, db_not_exist}
use cache_cat.Cache.Compute.{execute_compute}
use cache_cat.Cache.Redis.{del}
use cache_cat.Cache.Sets.{s_add_req}
use cache_cat.Cache.Sets.Several.{not_a_set, no_sets, extend, data_of, or_default, without}

-- What the read of a first key gives: `none` for its early return.
unfoldable pub first_set : Option (EntrySnapshot MyValue) → Option (Option (List Bytes))
unfolding data_of
first_set none = some none
first_set (some value) = elim (data_of value) [ none ↦ none | some set ↦ some (some set) ]

module _ (h : Store) where
  -- The loop of SUNIONSTORE: `none` for its early return.
  unfoldable pub read_union : Mocha h → List Bytes → List Bytes → Option (List Bytes) × Mocha h
  unfolding data_of
  read_union m [] results = (some results, m)
  read_union m (key ∷ keys) results =
      let (option, m') = get_entry h m key in
      elim option [
        | none ↦ read_union m' keys results
        | some value ↦ elim (data_of value) [
          | none ↦ (none, m')
          | some set ↦ read_union m' keys (extend results set)
        ]
      ]

  -- The loop of SDIFFSTORE over all but the first key.
  unfoldable pub read_diff :
      Mocha h → List Bytes → Option (List Bytes) → Option (Option (List Bytes)) × Mocha h
  unfolding data_of
  read_diff m [] results = (some results, m)
  read_diff m (key ∷ keys) results =
      let (option, m') = get_entry h m key in
      elim option [
        | none ↦ read_diff m' keys results
        | some value ↦ elim (data_of value) [
          | none ↦ (none, m')
          | some set ↦ read_diff m' keys (without results set)
        ]
      ]

  -- The end of both: delete the key if it is seen, and add the members.
  unfoldable pub store_members :
      MyCache h → Mocha h → Bytes → List Bytes → Update → Value × (MyCache h × Update)
  unfolding del
  store_members cache m key elements update =
      let (option, m') = get_entry h m key in
      let cache' = with_db h cache update.db_number m' in
      elim option [
        | none ↦ execute_compute h cache' (s_add_req key elements) update
        | some entry ↦
            let (res, (cache'', update')) = del h cache' key update in
            execute_compute h cache'' (s_add_req key elements) update'
      ]

  unfoldable pub redis_sunionstore :
      MyCache h → Bytes → List Bytes → Update → Value × (MyCache h × Update)
  unfolding read_union store_members
  redis_sunionstore cache key keys update = elim (get_cache h cache update.db_number) [
    | none ↦ (db_not_exist, (cache, update))
    | some m ↦
        let (results, m') = read_union m keys [] in
        elim results [
          | none ↦ (not_a_set, (with_db h cache update.db_number m', update))
          | some elements ↦ store_members cache m' key elements update
        ]
  ]

  unfoldable pub diff_of : Mocha h → Bytes → List Bytes → Option (Option (List Bytes)) × Mocha h
  unfolding first_set read_diff
  diff_of m key keys =
      let (option, m') = get_entry h m key in
      elim (first_set option) [ none ↦ (none, m') | some results ↦ read_diff m' keys results ]

  unfoldable pub redis_sdiffstore :
      MyCache h → Bytes → List Bytes → Update → Value × (MyCache h × Update)
  unfolding diff_of store_members
  redis_sdiffstore cache key [] update = elim (get_cache h cache update.db_number) [
    | none ↦ (db_not_exist, (cache, update))
    | some m ↦ (no_sets, (cache, update))
  ]
  redis_sdiffstore cache key (first ∷ keys) update = elim (get_cache h cache update.db_number) [
    | none ↦ (db_not_exist, (cache, update))
    | some m ↦
        let (results, m') = diff_of m first keys in
        elim results [
          | none ↦ (not_a_set, (with_db h cache update.db_number m', update))
          | some set ↦ store_members cache m' key (or_default set) update
        ]
  ]
