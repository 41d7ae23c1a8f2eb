-- ===== src/Cache/Rename.antt =====
-- DEL, UNLINK and RENAME, in the plain mode, as a client sees them.
use cache_cat.Prelude.{
  ℕ, ◌+◌, ◌≡◌, refl, ◌∙◌, ap, Bool, false, ◌&&◌, ◌||◌, not, ◌<◌, ◌^◌, length, none, some, List, [],
  ◌∷◌, Bytes, bytes_eq, same, if◌then◌else◌, arith, ◌==◌, ==_iff, bit,
}
use cache_cat.Value.{Value}
use cache_cat.Mocha
use cache_cat.Mocha.{Mocha, EntrySnapshot, get_entry, remove_entry}
use cache_cat.Mocha.View.{view}
use cache_cat.Mocha.Remove.{seen, remove_entry_lem, unlink_lem}
use cache_cat.Cache.{Store, MyCache, plain, Update, get_cache, with_db}
use cache_cat.Cache.Redis.{del, del_in, unlink, unlink_in, in_db, redis_del, sum_keys, Reply}
use cache_cat.Value.Signed.{add_i64}
use cache_cat.Cache.Seen.{cache_view, cache_view-with_db, get_elem?-replace}

-- Whether a key is among the keys.
abbrev pub among : List Bytes → Bytes → Bool
among [] j = false
among (k ∷ ks) j = same k j || among ks j

-- How many of the keys pass a test, each counted once.
abbrev pub how_many : (Bytes → Bool) → List Bytes → ℕ
how_many p [] = 0
how_many p (k ∷ ks) = bit (p k) + how_many (λ j. p j && not (same k j)) ks

module _ (h : Store) where
  -- DEL of a key in the plain mode says whether it was seen, 1 or 0; then it is not seen, and every
  -- other key, and every key of another database, is seen as before. UNLINK does the same.
  pub del-unlink :
      (cache : MyCache h) (key : Bytes) (update : Update) (m : Mocha h) (i : ℕ) (j : Bytes)
      → get_cache h cache update.db_number ≡ some m
      → update.update_type ≡ plain
      → ((del h cache key update).0 ≡ Value.integer (bit (seen (view h m key))))
        × ((unlink h cache key update).0 ≡ (del h cache key update).0)
        × (cache_view h (del h cache key update).1.0 i j
            ≡ (if (update.db_number == i) && same key j then none else cache_view h cache i j))
        × (cache_view h (unlink h cache key update).1.0 i j
            ≡ cache_view h (del h cache key update).1.0 i j)
  unfolding del del_in unlink unlink_in
  del-unlink cache key update m i j p q =
      let d = cache_view-with_db h cache update.db_number i m (remove_entry h m key).1 j p in
      let u = cache_view-with_db h cache update.db_number i m (Mocha.unlink h m key).1 j p in
      let r = remove_entry_lem h m key j in
      let l = unlink_lem h m key j in
      rw (p, q, del, unlink, del_in, unlink_in, in_db)
        (
          ground (arith, r),
          ground (arith, r, l),
          ground (arith, d, r, p, ==_iff update.db_number i),
          ground (arith, d, u, r, l, p, ==_iff update.db_number i),
        )

  pub del-plain :
      (cache : MyCache h) (key : Bytes) (update : Update) (m : Mocha h)
      → get_cache h cache update.db_number ≡ some m
      → update.update_type ≡ plain
      → del h cache key update ≡ (
        Value.integer (bit (seen (view h m key))),
        (
          with_db h cache update.db_number (remove_entry h m key).1,
          record update { update_type = plain },
        ),
      )
  unfolding del del_in
  del-plain cache key update m p q =
      rw (p, q, del, del_in, in_db) (rw (remove_entry_lem h m key key).0 refl)

  sum_keys-step :
      (call : MyCache h → Bytes → Update → Reply h) (count b : ℕ) (cache c : MyCache h) (k : Bytes)
      (ks : List Bytes) (update u : Update)
      → call cache k update ≡ (Value.integer b, (c, u))
      → sum_keys h call count cache (k ∷ ks) update ≡ sum_keys h call (add_i64 count b) c ks u
  unfolding sum_keys
  sum_keys-step call count b cache c k ks update u p = simp (p, sum_keys) refl

  sum_keys-del :
      (ks : List Bytes) (cache : MyCache h) (update : Update) (m : Mocha h) (count : ℕ)
      (f : Bytes → Bool) (i : ℕ) (j : Bytes)
      → get_cache h cache update.db_number ≡ some m
      → update.update_type ≡ plain
      → count + length ks < 2 ^ 63
      → ((j : Bytes) → f j ≡ seen (view h m j))
      → ((sum_keys h (del h) count cache ks update).0 ≡ Value.integer (count + how_many f ks))
        × (cache_view h (sum_keys h (del h) count cache ks update).1.0 i j
            ≡ (if (update.db_number == i) && among ks j then none else cache_view h cache i j))
  sum_keys-del [] cache update m count f i j p q bound same_seen =
      (unfold sum_keys in ap Value.integer (omega arith), unfold sum_keys in ground arith)
  sum_keys-del (k ∷ ks) cache update m count f i j p q bound same_seen =
      let m' = (remove_entry h m k).1 in
      let cache' = with_db h cache update.db_number m' in
      let b = bit (seen (view h m k)) in
      let ih =
        sum_keys-del ks cache' (record update { update_type = plain }) m' (add_i64 count b)
          (λ x. f x && not (same k x)) i j
          (ground (
            arith,
            get_elem?-replace h cache.databases update.db_number update.db_number m m' p,
            ==_iff update.db_number update.db_number,
          ))
          refl (ground (arith, bound))
          (λ x. ground (arith, same_seen x, remove_entry_lem h m k x)) in
      rw (sum_keys-step (del h) count b cache cache' k ks update _ (del-plain cache k update m p q))
        (
          ih.0 ∙ ap Value.integer (ground (arith, bound, same_seen k)),
          ground (
            arith,
            ih,
            cache_view-with_db h cache update.db_number i m m' j p,
            remove_entry_lem h m k j,
            p,
            ==_iff update.db_number i,
          ),
        )

  -- DEL answers, in the plain mode, with the number of the keys that are seen, each counted once;
  -- then none of the keys is seen, and every other key, and every key of another database, is seen
  -- as before.
  pub redis_del_lem :
      (cache : MyCache h) (keys : List Bytes) (update : Update) (m : Mocha h) (i : ℕ) (j : Bytes)
      → get_cache h cache update.db_number ≡ some m
      → update.update_type ≡ plain
      → length keys < 2 ^ 63
      → ((redis_del h cache keys update).0 ≡ Value.integer (how_many (λ k. seen (view h m k)) keys))
        × (cache_view h (redis_del h cache keys update).1.0 i j
            ≡ (if (update.db_number == i) && among keys j then none else cache_view h cache i j))
  unfolding redis_del
  redis_del_lem cache keys update m i j p q bound =
      let (replied, left) =
        sum_keys-del keys cache update m 0 (λ k. seen (view h m k)) i j p q (omega (arith, bound))
          (λ k. refl) in
      (replied ∙ ap Value.integer (omega arith), left)
