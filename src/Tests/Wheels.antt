-- ===== src/Tests/Wheels.antt =====
-- The time wheel of Wheel.antt on a few items.
use cache_cat.Prelude.{ℕ, ◌≤◌, ◌≡◌, refl, Bool, true, [], ◌∷◌, arith, leb, ltb, ◌&&◌, All, count}
use cache_cat.Wheel.{
  TimerItem, HierarchicalTimeWheel, new, insert, slot_for, level_for_delta, push, set_cell,
  insert_all, cascade, cascade_levels, drain, tick, advance_loop, advance_to, all_items,
}
use cache_cat.Wheel.Placed.{IsWheel, insert-IsWheel}
use cache_cat.Wheel.Advance.{advance_to_exact, advance_to-IsWheel, new-IsWheel}

abbrev item : ℕ → ℕ → TimerItem ℕ
item key at = record { key = key; expire_at = at }

abbrev start : HierarchicalTimeWheel ℕ
start = new 250

abbrev filled : HierarchicalTimeWheel ℕ
filled = insert (insert (insert start (item 1 253)) (item 2 600)) (item 3 65536)

levels :
    (level_for_delta 255 ≡ 0)
    × (level_for_delta 256 ≡ 1)
    × (level_for_delta 65536 ≡ 2)
    × (level_for_delta (18446744073709551615) ≡ 7)
unfolding level_for_delta
levels = (refl, refl, refl, refl)

fired_in_order : (advance_to filled 601).1 ≡ item 1 253 ∷ item 2 600 ∷ []
unfolding advance_to advance_loop tick cascade_levels cascade insert_all insert drain slot_for
    level_for_delta push set_cell new
fired_in_order = refl

start-IsWheel : IsWheel start
start-IsWheel = new-IsWheel ℕ 250

one-IsWheel : IsWheel (insert start (item 1 253))
unfolding new
one-IsWheel = insert-IsWheel start (item 1 253) (omega arith) (omega arith) start-IsWheel

two-IsWheel : IsWheel (insert (insert start (item 1 253)) (item 2 600))
unfolding new insert
two-IsWheel =
    insert-IsWheel (insert start (item 1 253)) (item 2 600) (omega arith) (omega arith) one-IsWheel

advance_to-IsWheel_example :
    IsWheel (advance_to (insert start (item 1 253)) 300).0
    × ((advance_to (insert start (item 1 253)) 300).0.current ≡ 300)
    × All (λ x. x.expire_at ≤ 300) (advance_to (insert start (item 1 253)) 300).1
unfolding new insert
advance_to-IsWheel_example =
    advance_to-IsWheel (insert start (item 1 253)) 300 (omega arith) one-IsWheel

abbrev any : TimerItem ℕ → Bool
any x = true

advance_to_exact_example :
    (count any (advance_to (insert start (item 1 253)) 300).1
      ≡ count (λ x. any x && leb x.expire_at 300) (all_items (insert start (item 1 253)).wheels 8))
    × (count any (all_items (advance_to (insert start (item 1 253)) 300).0.wheels 8)
        ≡ count
            (λ x. any x && ltb 300 x.expire_at)
            (all_items (insert start (item 1 253)).wheels 8))
unfolding new insert
advance_to_exact_example =
    advance_to_exact (insert start (item 1 253)) 300 any (omega arith) one-IsWheel
