-- ===== src/Tests/Sets.antt =====
-- The commands on sets, on a set of three members in two orders.
use cache_cat.Prelude.{
  ◌≡◌, refl, not, ◌&&◌, ◌==◌, if◌then◌else◌, arith, Bool, false, ◌||◌, none, some, List, [], ◌∷◌,
  Bytes, same, bytes_eq,
}
use cache_cat.Value.{Value, ValueObject, MyValue}
use cache_cat.Value.Table.{names}
use cache_cat.Mocha.{
  Entry, EntrySnapshot, Mocha, new, get_entry, insert_entry, remove_entry, make_entry,
  resolve_expire_at, enqueue_expiry, persistent, remove,
}
use cache_cat.Cache.{Store, MyCache, Update, plain, new_value}
use cache_cat.Map.Assoc.{assoc}
use cache_cat.Cache.Seen.{changed, cache_view}
use cache_cat.Cache.Several.{execute_multi_read_compute}
use cache_cat.Cache.Several.Written.{views, execute_multi_read_compute_lem}
use cache_cat.Cache.Sets.Several.{
  s_inter, s_union, s_diff, s_inter_store_req, inter_all, store_all, data_of,
}
use cache_cat.Cache.Sets.Stores.{
  redis_sunionstore, redis_sdiffstore, read_union, read_diff, diff_of, first_set, store_members,
}
use cache_cat.Cache.Compute.{execute_compute, compute, compute_missing, compute_found, write}
use cache_cat.Cache.Redis.{del, del_in}
use cache_cat.Cache.Sets.Several.Stored.{
  Holding, entries_of, has, in_all, in_any, lists, left_in, s_inter_store_lem,
}
use cache_cat.Cache.Read.{left_by}
use cache_cat.Cache.Sets.{
  s_add_req, s_pop_req, s_is_member, add_all, on_members, write_members, next_u64,
}
use cache_cat.Cache.Sets.Drawn.{with_set, is_removal, s_pop_req-same}

abbrev a : Bytes
a = b'a' ∷ []

abbrev b : Bytes
b = b'b' ∷ []

abbrev c : Bytes
c = b'c' ∷ []

abbrev one_order : List Bytes
one_order = a ∷ b ∷ c ∷ []

abbrev other_order : List Bytes
other_order = c ∷ a ∷ b ∷ []

abbrev entry : EntrySnapshot MyValue
entry = record { value = new_value (ValueObject.set one_order); expire_at = none }

-- The first number of the generator, from seed 0.
generated : (next_u64 0).0 ≡ 16294208416658607535
unfolding next_u64
generated = refl

-- A member that is named twice counts twice on a key that is missing, and once on one that is there.
twice :
    ((s_add_req a (b ∷ b ∷ [])).init.1 ≡ Value.integer 2)
    × (((s_add_req a (c ∷ c ∷ [])).mutate (with_set entry (a ∷ [])) 100).1 ≡ Value.integer 1)
unfolding s_add_req add_all on_members write_members
twice = (refl, refl)

rotated : (x y z : Bool) → (x || (y || (z || false))) ≡ (z || (x || (y || false)))
rotated x y z = ground arith

same_members : (m : Bytes) → names one_order m ≡ names other_order m
same_members m = rotated (same a m) (same b m) (same c m)

s_pop_req-same_example :
    (((s_pop_req a (some 2)).mutate (with_set entry one_order) 100).1
      ≡ ((s_pop_req a (some 2)).mutate (with_set entry other_order) 100).1)
    × (is_removal ((s_pop_req a (some 2)).mutate (with_set entry one_order) 100).0
        ≡ is_removal ((s_pop_req a (some 2)).mutate (with_set entry other_order) 100).0)
    × (s_is_member c (
          some (
            left_by
              ((s_pop_req a (some 2)).mutate (with_set entry one_order) 100)
              (with_set entry one_order)))
        ≡ s_is_member c (
            some (
              left_by
                ((s_pop_req a (some 2)).mutate (with_set entry other_order) 100)
                (with_set entry other_order))))
s_pop_req-same_example =
    s_pop_req-same a (some 2) entry 100 one_order other_order c (refl, (refl, (refl, tt)))
      (refl, (refl, (refl, tt))) same_members

abbrev holdings : List Holding
holdings = some (entry, c ∷ b ∷ []) ∷ some (entry, b ∷ a ∷ []) ∷ []

s_inter_store_lem_example :
    (lists (s_inter (entries_of (some (entry, one_order) ∷ holdings))) b
      ≡ some (in_all (some (entry, one_order) ∷ holdings) b))
    × (lists (s_union (entries_of (some (entry, one_order) ∷ holdings))) b
        ≡ some (in_any (some (entry, one_order) ∷ holdings) b))
    × (lists (s_diff (entries_of (some (entry, one_order) ∷ holdings))) b
        ≡ some (has (some (entry, one_order)) b && not (in_any holdings b)))
    × (left_in
          ((s_inter_store_req c (a ∷ b ∷ [])).mutate
            (entries_of (some (entry, one_order) ∷ holdings))
            100).0
          b
        ≡ some (in_all (some (entry, one_order) ∷ holdings) b))
s_inter_store_lem_example =
    s_inter_store_lem (some (entry, one_order)) holdings c (a ∷ b ∷ []) 100 b

-- After a key that is missing, SINTER still reports a value that is not a set; SINTERSTORE does not.
abbrev number : EntrySnapshot MyValue
number = record { value = new_value (ValueObject.int 5); expire_at = none }

missing_first :
    (s_inter (none ∷ some number ∷ [])
      ≡ Value.error "ERR invalid There is a value that is not a set")
    × (((s_inter_store_req c (a ∷ b ∷ [])).mutate (none ∷ some number ∷ []) 100)
        ≡ (remove, Value.integer 0))
unfolding s_inter s_inter_store_req inter_all store_all data_of
missing_first = (refl, refl)

abbrev table : Store
table = assoc Bytes (Entry MyValue)

abbrev db : Mocha table
db =
    (insert_entry table
      (insert_entry table (new table 100) a (new_value (ValueObject.set one_order)) persistent).1 b
      (new_value (ValueObject.set (c ∷ b ∷ []))) persistent).1

abbrev cache : MyCache table
cache = record { databases = db ∷ []; read_logic_clock = 100; write_logic_clock = 100 }

abbrev update : Update
update = record { db_number = 0; write_clock = 100; update_type = plain }

execute_multi_read_compute_lem_example :
    ((execute_multi_read_compute table cache (s_inter_store_req c (a ∷ b ∷ [])) update).0
      ≡ ((s_inter_store_req c (a ∷ b ∷ [])).mutate
          (views table db (s_inter_store_req c (a ∷ b ∷ [])).read_keys)
          100).1)
    × (cache_view table
          (execute_multi_read_compute table cache (s_inter_store_req c (a ∷ b ∷ [])) update).1.0
          0
          c
        ≡ (if (update.db_number == 0) && same (s_inter_store_req c (a ∷ b ∷ [])).write_key c
            then changed table db
                (s_inter_store_req c (a ∷ b ∷ [])).write_key
                ((s_inter_store_req c (a ∷ b ∷ [])).mutate
                  (views table db (s_inter_store_req c (a ∷ b ∷ [])).read_keys)
                  100).0
            else cache_view table cache 0 c))
execute_multi_read_compute_lem_example =
    execute_multi_read_compute_lem table cache (s_inter_store_req c (a ∷ b ∷ [])) update db 0 c refl
      refl

-- SUNIONSTORE of keys that are missing leaves a key with an empty set.
union_and_difference :
    ((redis_sunionstore table cache c (a ∷ b ∷ []) update).0 ≡ Value.integer 3)
    × ((redis_sdiffstore table cache c (a ∷ b ∷ []) update).0 ≡ Value.integer 1)
    × ((redis_sunionstore table cache a (c ∷ []) update).0 ≡ Value.integer 0)
    × (cache_view table (redis_sunionstore table cache a (c ∷ []) update).1.0 0 a
        ≡ some (record { value = new_value (ValueObject.set []); expire_at = none }))
unfolding redis_sunionstore redis_sdiffstore read_union read_diff diff_of first_set store_members
    execute_compute compute compute_missing compute_found write del del_in s_add_req add_all
    on_members write_members data_of get_entry insert_entry remove_entry make_entry
    resolve_expire_at enqueue_expiry new
union_and_difference = (refl, refl, refl, refl)
