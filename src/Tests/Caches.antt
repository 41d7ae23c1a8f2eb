-- ===== src/Tests/Caches.antt =====
-- The commands of Cache.antt on a cache of two databases, over association lists.
use cache_cat.Prelude.{
  ◌≤◌, ◌-◌, ◌^◌, ◌≡◌, refl, arith, true, ◌&&◌, ◌==◌, none, some, [], ◌∷◌, ◌++◌, Bytes,
  if◌then◌else◌, same, bytes_eq,
}
use cache_cat.Value.{Value, ValueObject, MyValue, ok}
use cache_cat.Value.Number.{
  parse_i64, trim, trim_start, trim_end, read_i64, read_number, read_digits,
}
use cache_cat.Value.Print.{to_string, parse_i64-to_string}
use cache_cat.Cache.Clocks.{IsInTime, clocks_lem}
use cache_cat.Map.Assoc.{assoc}
use cache_cat.Mocha.{
  Entry, EntrySnapshot, Mocha, ttl, new, insert_entry, make_entry, resolve_expire_at,
  enqueue_expiry,
}
use cache_cat.Mocha.View.{view}
use cache_cat.Mocha.Remove.{seen}
use cache_cat.Cache.{
  Store, MyCache, Update, plain, snapshot, cas, new_value, get_and_update_read_clock,
  generate_new_write_clock, set_write_clock,
}
use cache_cat.Cache.Compute.{execute_compute, compute, queued_version}
use cache_cat.Cache.Strings.{incr_req, incr_by_req, decr_req, decr_by_req, set_req}
use cache_cat.Value.Signed.{add_i64, sub_i64}
use cache_cat.Cache.Redis.{redis_del, redis_rename}
use cache_cat.Cache.SetForms.{SetParams, nx, px}
use cache_cat.Cache.Seen.{cache_view}
use cache_cat.Cache.Queue.{request_of, with_mode, execute_compute-snapshot, set_req-not_replayed}
use cache_cat.Cache.Counters.{counted, counters_lem, decr_by-incr_by}
use cache_cat.Cache.Rename.{among, how_many, redis_del_lem}
use cache_cat.Cache.Moved.{moved, redis_rename_lem}

abbrev table : Store
table = assoc Bytes (Entry MyValue)

abbrev a : Bytes
a = b'a' ∷ []

abbrev b : Bytes
b = b'b' ∷ []

abbrev db : Mocha table
db = (insert_entry table (new table 100) a (new_value (ValueObject.int 5)) (ttl 50)).1

abbrev five : EntrySnapshot MyValue
five = record { value = new_value (ValueObject.int 5); expire_at = some 150 }

abbrev cache : MyCache table
cache = record {
  databases = db ∷ new table 100 ∷ [];
  read_logic_clock = 100;
  write_logic_clock = 100;
}

abbrev update : Update
update = record { db_number = 0; write_clock = 100; update_type = plain }

abbrev params : SetParams
params = record { key = a; value = b'7' ∷ []; mode = some nx; get = true; expiration = some (px 9) }

a-five : view table db a ≡ some five
unfolding insert_entry new make_entry resolve_expire_at enqueue_expiry
a-five = refl

numbers :
    (parse_i64 (b' ' ∷ b'-' ∷ b'1' ∷ b'2' ∷ []) ≡ some (2 ^ 64 - 12))
    × (parse_i64 (b'+' ∷ b'7' ∷ b' ' ∷ []) ≡ some 7)
    × (parse_i64 (b'1' ∷ b'x' ∷ []) ≡ none)
    × (parse_i64 [] ≡ none)
unfolding parse_i64 trim trim_start trim_end read_i64 read_number read_digits
numbers = (refl, refl, refl, refl)

execute_compute-snapshot_example :
    ((execute_compute table cache (incr_req a) (with_mode update (snapshot []))).0
      ≡ (execute_compute table cache (incr_req a) (with_mode update plain)).0)
    × ((execute_compute table cache (incr_req a) (with_mode update (snapshot []))).1.0
        ≡ (execute_compute table cache (incr_req a) (with_mode update plain)).1.0)
    × ((execute_compute table cache (incr_req a) (with_mode update (snapshot []))).1.1.update_type
        ≡ (elim (view table db (incr_req a).key) [
          | none ↦ snapshot []
          | some entry ↦
              snapshot ([] ++ request_of (some entry) (incr_req a) 100 (queued_version table))
        ]))
execute_compute-snapshot_example =
    execute_compute-snapshot table cache (incr_req a) update db [] refl

set_req-not_replayed_example :
    ((execute_compute table cache (set_req a b 0) (
        with_mode update
          (cas (queued_version table ((set_req a b 0).mutate five update.write_clock).0)))).0
      ≡ Value.null)
    × (cache_view table
          (execute_compute table cache (set_req a b 0) (
            with_mode update
              (cas (queued_version table ((set_req a b 0).mutate five update.write_clock).0)))).1.0
          0
          a
        ≡ cache_view table cache 0 a)
set_req-not_replayed_example =
    set_req-not_replayed table cache a b 0 update db five 0 a refl a-five (omega arith)

counters_lem_example :
    (view table (compute table db (incr_req a) 100 plain).1.0 a
      ≡ (if same a a then counted 1 (λ n. add_i64 n 1) (view table db a) else view table db a))
    × (view table (compute table db (incr_by_req a 4) 100 plain).1.0 a
        ≡ (if same a a then counted 4 (λ n. add_i64 n 4) (view table db a) else view table db a))
    × (view table (compute table db (decr_req a) 100 plain).1.0 a ≡ (
        if same a a
        then counted (2 ^ 64 - 1) (λ n. sub_i64 n 1) (view table db a)
        else view table db a))
    × (view table (compute table db (decr_by_req a 4) 100 plain).1.0 a ≡ (
        if same a a
        then counted (sub_i64 0 4) (λ n. sub_i64 n 4) (view table db a)
        else view table db a))
counters_lem_example = counters_lem table db a a 4 100

decr_by-incr_by_example :
    view table
      (compute table
        (compute table db (incr_by_req a 9) 100 plain).1.0
        (decr_by_req a 9)
        101
        plain).1.0
      a
    ≡ some (record { value = new_value (ValueObject.int 5); expire_at = some 150 })
decr_by-incr_by_example =
    decr_by-incr_by table db a 9 5 100 101 five a-five refl (omega arith) (omega arith)

redis_del_lem_example :
    ((redis_del table cache (a ∷ b ∷ a ∷ []) update).0
      ≡ Value.integer (how_many (λ k. seen (view table db k)) (a ∷ b ∷ a ∷ [])))
    × (cache_view table (redis_del table cache (a ∷ b ∷ a ∷ []) update).1.0 0 a ≡ (
        if (update.db_number == 0) && among (a ∷ b ∷ a ∷ []) a
        then none
        else cache_view table cache 0 a))
redis_del_lem_example =
    redis_del_lem table cache (a ∷ b ∷ a ∷ []) update db 0 a refl refl (omega arith)

redis_rename_lem_example :
    ((redis_rename table cache a b update).0 ≡ ok)
    × (cache_view table (redis_rename table cache a b update).1.0 0 b
        ≡ (if update.db_number == 0 then moved table db a b five b else cache_view table cache 0 b))
redis_rename_lem_example = redis_rename_lem table cache a b update db five 0 b refl refl a-five

parse_i64-to_string_example : parse_i64 (to_string (2 ^ 64 - 12)) ≡ some (2 ^ 64 - 12)
parse_i64-to_string_example = parse_i64-to_string (2 ^ 64 - 12) (omega arith)

clocks_lem_example :
    (cache.write_logic_clock ≤ (get_and_update_read_clock table cache 130).0)
    × (130 ≤ (get_and_update_read_clock table cache 130).0)
    × (cache.read_logic_clock ≤ (get_and_update_read_clock table cache 130).0)
    × ((get_and_update_read_clock table cache 130).0
        ≤ generate_new_write_clock table (get_and_update_read_clock table cache 130).1 90)
    × (cache.write_logic_clock ≤ (set_write_clock table cache 140).0)
    × (140 ≤ (set_write_clock table cache 140).0)
    × IsInTime table (set_write_clock table cache 140).1
clocks_lem_example = clocks_lem table cache 130 90 140
