-- ===== src/Wheel/Tally.antt =====
-- How many items of the wheel pass a test, and what each operation does to that number.
-- Over all tests this is the wheel as a multiset of items.
use cache_cat.Prelude.{
  ℕ, zero, suc, ◌+◌, ◌-◌, ◌<◌, ◌≤◌, ◌≡◌, refl, Bool, ◌&&◌, List, [], ◌∷◌, ◌++◌, arith, ltb, ◌==◌,
  if◌then◌else◌, count, count-nil, count-cons, count-append, bit,
}
use cache_cat.Wheel.{
  TimerItem, Cells, HierarchicalTimeWheel, slot_for, level_for_delta, set_cell, push, insert,
  insert_all, cascade, cascade_levels, drain, tick, advance_loop, advance_large, advance_to,
  level_items, all_items,
}
use cache_cat.Wheel.Numbers.{level-lt}

abbrev pub tally : {K : Type 0} → (TimerItem K → Bool) → Cells K → ℕ
tally p wheels = count p (all_items wheels 8)

pub slot-lt : (at level : ℕ) → slot_for at level < 256
unfolding slot_for
slot-lt at level = omega arith

module _ {K : Type 0} (p : TimerItem K → Bool) where
  level-set_cell :
      (wheels : Cells K) (l s : ℕ) (items : List (TimerItem K)) (level n : ℕ)
      → count p (level_items (set_cell wheels l s items) level n)
          + (if (level == l) && ltb s n then count p (wheels l s) else 0)
        ≡ count p (level_items wheels level n)
          + (if (level == l) && ltb s n then count p items else 0)
  unfolding level_items set_cell
  level-set_cell wheels l s items level zero = ground arith
  level-set_cell wheels l s items level (suc n) = ground (
    arith,
    level-set_cell wheels l s items level n,
    count-append p (level_items wheels level n) (wheels level n),
    count-append p (level_items (set_cell wheels l s items) level n)
        (set_cell wheels l s items level n),
  )

  all-set_cell :
      (wheels : Cells K) (l s : ℕ) (items : List (TimerItem K)) (n : ℕ)
      → s < 256
      → count p (all_items (set_cell wheels l s items) n)
          + (if ltb l n then count p (wheels l s) else 0)
        ≡ count p (all_items wheels n) + (if ltb l n then count p items else 0)
  unfolding all_items
  all-set_cell wheels l s items zero h = ground arith
  all-set_cell wheels l s items (suc n) h = ground (
    arith,
    all-set_cell wheels l s items n h,
    level-set_cell wheels l s items n 256,
    count-append p (all_items wheels n) (level_items wheels n 256),
    count-append p (all_items (set_cell wheels l s items) n)
        (level_items (set_cell wheels l s items) n 256),
  )

  pub tally-set_cell :
      (wheels : Cells K) (l s : ℕ) (items : List (TimerItem K))
      → l < 8
      → s < 256
      → tally p (set_cell wheels l s items) + count p (wheels l s) ≡ tally p wheels + count p items
  tally-set_cell wheels l s items hl hs = ground (arith, all-set_cell wheels l s items 8 hs)

  pub tally-push :
      (wheels : Cells K) (l s : ℕ) (item : TimerItem K)
      → l < 8
      → s < 256
      → tally p (push wheels l s item) ≡ tally p wheels + bit (p item)
  unfolding push
  tally-push wheels l s item hl hs = omega (
    arith,
    tally-set_cell wheels l s (wheels l s ++ (item ∷ [])) hl hs,
    count-append p (wheels l s) (item ∷ []),
    count-cons p item [],
    count-nil p,
  )

  -- An inserted item is in the wheel once more than before.
  pub tally-insert :
      (w : HierarchicalTimeWheel K) (item : TimerItem K)
      → tally p (insert w item).wheels ≡ tally p w.wheels + bit (p item)
  unfolding insert
  tally-insert w item = ground (
    arith,
    tally-push w.wheels 0 (slot_for w.current 0) item (omega arith) (slot-lt w.current 0),
    tally-push w.wheels (level_for_delta (item.expire_at - w.current))
        (slot_for item.expire_at (level_for_delta (item.expire_at - w.current))) item
        (level-lt (item.expire_at - w.current))
        (slot-lt item.expire_at (level_for_delta (item.expire_at - w.current))),
  )

  pub tally-insert_all :
      (items : List (TimerItem K)) (w : HierarchicalTimeWheel K)
      → tally p (insert_all w items).wheels ≡ tally p w.wheels + count p items
  unfolding insert_all
  tally-insert_all [] w = omega (arith, count-nil p)
  tally-insert_all (item ∷ items) w =
      omega (
        arith,
        tally-insert w item,
        tally-insert_all items (insert w item),
        count-cons p item items,
      )

  -- Moving the items of a cell to their new cells loses none.
  pub tally-cascade :
      (w : HierarchicalTimeWheel K) (level : ℕ)
      → level < 8
      → tally p (cascade w level).wheels ≡ tally p w.wheels
  unfolding cascade
  tally-cascade w level h = omega (
    arith,
    tally-insert_all (w.wheels level (slot_for w.current level))
        (record w { wheels = set_cell w.wheels level (slot_for w.current level) [] }),
    tally-set_cell w.wheels level (slot_for w.current level) [] h (slot-lt w.current level),
    count-nil p,
  )

  pub tally-drain :
      (due : List (TimerItem K)) (w : HierarchicalTimeWheel K)
      → tally p (drain w due).0.wheels + count p (drain w due).1 ≡ tally p w.wheels + count p due
  unfolding drain
  tally-drain [] w = refl
  tally-drain (item ∷ due) w = ground (
    arith,
    tally-drain due w,
    tally-drain due (insert w item),
    tally-insert w item,
    count-cons p item due,
    count-cons p item (drain w due).1,
  )

  pub tally-cascade_levels :
      (rounds level : ℕ) (w : HierarchicalTimeWheel K)
      → rounds + level ≤ 8
      → tally p (cascade_levels rounds level w).wheels ≡ tally p w.wheels
  unfolding cascade_levels
  tally-cascade_levels zero level w h = refl
  tally-cascade_levels (suc rounds) level w h = ground (
    arith,
    tally-cascade w level (omega arith),
    tally-cascade_levels rounds (suc level) (cascade w level) (omega arith),
  )

  -- One step of the clock: what is fired and what stays are together what was there.
  pub tally-tick :
      (w : HierarchicalTimeWheel K)
      → tally p (tick w).0.wheels + count p (tick w).1 ≡ tally p w.wheels
  unfolding tick
  tally-tick w =
      let w' : HierarchicalTimeWheel K =
        cascade_levels 7 1 (record w { current = w.current + 1 }) in
      omega (
        arith,
        tally-drain (w'.wheels 0 (slot_for w'.current 0))
            (record w' { wheels = set_cell w'.wheels 0 (slot_for w'.current 0) [] }),
        tally-set_cell w'.wheels 0 (slot_for w'.current 0) [] (omega arith) (slot-lt w'.current 0),
        tally-cascade_levels 7 1 (record w { current = w.current + 1 }) (omega arith),
        count-nil p,
      )

  pub tally-advance_loop :
      (rounds now : ℕ) (w : HierarchicalTimeWheel K)
      → tally p (advance_loop rounds now w).0.wheels + count p (advance_loop rounds now w).1
        ≡ tally p w.wheels
  unfolding advance_loop
  tally-advance_loop zero now w = omega (arith, count-nil p)
  tally-advance_loop (suc rounds) now w = ground (
    arith,
    tally-tick w,
    tally-advance_loop rounds now (tick w).0,
    count-append p (tick w).1 (advance_loop rounds now (tick w).0).1,
    count-nil p,
  )

  level-empty : (level n : ℕ) → count p (level_items {K = K} (λ level slot. []) level n) ≡ 0
  unfolding level_items
  level-empty level zero = count-nil p
  level-empty level (suc n) = omega (
    arith,
    level-empty level n,
    count-append p (level_items {K = K} (λ level slot. []) level n) [],
    count-nil p,
  )

  tally-empty : (n : ℕ) → count p (all_items {K = K} (λ level slot. []) n) ≡ 0
  unfolding all_items
  tally-empty zero = count-nil p
  tally-empty (suc n) = omega (
    arith,
    tally-empty n,
    level-empty n 256,
    count-append p (all_items {K = K} (λ level slot. []) n)
        (level_items {K = K} (λ level slot. []) n 256),
  )

  tally-advance_large :
      (w : HierarchicalTimeWheel K) (now : ℕ)
      → tally p (advance_large w now).0.wheels + count p (advance_large w now).1 ≡ tally p w.wheels
  unfolding advance_large
  tally-advance_large w now = omega (
    arith,
    tally-drain (all_items w.wheels 8) (record { current = now; wheels = λ level slot. [] }),
    tally-empty 8,
  )

  -- Advancing the wheel neither loses nor doubles an item: those that are fired and those that
  -- stay are together those that were there.
  pub tally-advance_to :
      (w : HierarchicalTimeWheel K) (now : ℕ)
      → tally p (advance_to w now).0.wheels + count p (advance_to w now).1 ≡ tally p w.wheels
  unfolding advance_to
  tally-advance_to w now =
      ground
        (arith, count-nil p, tally-advance_large w now, tally-advance_loop (now - w.current) now w)
