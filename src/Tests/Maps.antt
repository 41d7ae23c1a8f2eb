-- ===== src/Tests/Maps.antt =====
-- The map with expiry of Mocha.antt on a few entries, over association lists.
use cache_cat.Prelude.{
  count, bit, ℕ, ◌<◌, ◌≡◌, refl, arith, none, some, [], ◌∷◌, Bytes, if◌then◌else◌, same, bytes_eq,
}
use cache_cat.Mocha.Scan.{keys, scan, listed, keys_lem}
use cache_cat.Glob.{matches, match_inner}
use cache_cat.Map.{HashMap}
use cache_cat.Map.Assoc.{assoc}
use cache_cat.Mocha.{
  Entry, Mocha, persistent, ttl, new, insert_entry, get_entry, make_entry, remove_entry, unlink,
  resolve_expire_at, enqueue_expiry, remove_expired_if_current_from,
}
use cache_cat.Wheel
use cache_cat.Wheel.{
  slot_for, level_loop, level_for_delta, set_cell, push, insert_all, cascade, cascade_levels, drain,
  tick, advance_loop, advance_to,
}
use cache_cat.Mocha.Worker.{
  expire_all, advance_wheel, schedule_item, handle_expire_command, handle_all, expire_worker,
  active_expire_cycle_blocking,
}
use cache_cat.Mocha.View.{view}
use cache_cat.Mocha.Remove.{seen, unlink-remove, remove_entry_lem}
use cache_cat.Mocha.Quiet.{active_expire_cycle-IsQuiet}
use cache_cat.Mocha.Run.{
  Step, Reach, here, next, insert, tick_clock, IsSound, new-IsSound, Step-IsSound, cycle_after_run,
}

abbrev table : HashMap Bytes (Entry ℕ)
table = assoc Bytes (Entry ℕ)

abbrev a : Bytes
a = 97 ∷ []

abbrev b : Bytes
b = 98 ∷ []

abbrev start : Mocha table
start = new table 100

abbrev two : Mocha table
two = (insert_entry table (insert_entry table start a 1 persistent).1 b 2 (ttl 50)).1

abbrev later : Mocha table
later = record two { logic_clock = 150 }

seen_then_not :
    ((get_entry table two b).0 ≡ some (record { value = 2; expire_at = some 150 }))
    × ((get_entry table later b).0 ≡ none)
unfolding get_entry insert_entry make_entry resolve_expire_at enqueue_expiry new
    remove_expired_if_current_from
seen_then_not = (refl, refl)

unlink-remove_example :
    ((unlink table two b).0 ≡ seen (remove_entry table two b).0)
    × (view table (unlink table two b).1 b ≡ view table (remove_entry table two b).1 b)
    × (count (λ p. same p.0 b) (table.entries (unlink table two b).1.map)
        ≡ count (λ p. same p.0 b) (table.entries two.map))
    × (count (λ p. same p.0 b) (table.entries (remove_entry table two b).1.map) ≡ 0)
unlink-remove_example = unlink-remove table two b b

remove_entry_lem_example :
    ((remove_entry table later b).0 ≡ view table later b)
    × (view table (remove_entry table later b).1 a
        ≡ (if same b a then none else view table later a))
remove_entry_lem_example = remove_entry_lem table later b a

active_expire_cycle-IsQuiet_example :
    ((active_expire_cycle_blocking table later).logic_clock ≡ later.logic_clock)
    × ((j : Bytes) → view table (active_expire_cycle_blocking table later) j ≡ view table later j)
active_expire_cycle-IsQuiet_example = active_expire_cycle-IsQuiet table later

start-IsSound : IsSound start
start-IsSound = new-IsSound table 100 (omega arith)

inserts : Step start (insert_entry table start b 2 (ttl 50)).1
unfolding resolve_expire_at new
inserts = insert start b 2 (ttl 50) (omega arith)

one-IsSound : IsSound (insert_entry table start b 2 (ttl 50)).1
one-IsSound = Step-IsSound table inserts start-IsSound

Step-IsSound_example : IsSound (insert_entry table start b 2 (ttl 50)).1
Step-IsSound_example = Step-IsSound table inserts start-IsSound

abbrev ticked : Mocha table
ticked = record ((insert_entry table start b 2 (ttl 50)).1) { logic_clock = 120 }

run : Reach start ticked
unfolding insert_entry new make_entry resolve_expire_at enqueue_expiry
run =
    next (next here inserts)
      (tick_clock (insert_entry table start b 2 (ttl 50)).1 120 (omega arith) (omega arith))

kept :
    table.get (active_expire_cycle_blocking table ticked).map b
    ≡ some (record { value = 2; expire_at = some 150 })
unfolding new insert_entry make_entry resolve_expire_at enqueue_expiry active_expire_cycle_blocking
    expire_worker handle_all handle_expire_command advance_wheel schedule_item expire_all
    remove_expired_if_current_from Wheel.new Wheel.insert slot_for level_loop level_for_delta
    set_cell push insert_all cascade cascade_levels drain tick advance_loop advance_to
kept = refl

cycle_after_run_example : (active_expire_cycle_blocking table ticked).logic_clock < 150
cycle_after_run_example =
    cycle_after_run table b 150 (record { value = 2; expire_at = some 150 }) start-IsSound run kept
      refl

abbrev star : Bytes
star = 42 ∷ []

both_listed : keys table (λ k. k) two star (some 120) ≡ some (b ∷ a ∷ [])
unfolding keys scan insert_entry new make_entry resolve_expire_at enqueue_expiry matches match_inner
both_listed = refl

keys_lem_example :
    count (λ j. same j b) (b ∷ a ∷ [])
    ≡ bit (listed table (λ k. k) (table.get two.map b) two.logic_clock (some 120) star b)
keys_lem_example = keys_lem table (λ k. k) two star (some 120) b (b ∷ a ∷ []) both_listed
