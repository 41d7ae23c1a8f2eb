-- ===== src/Wheel.antt =====
-- cache_cat/src/mocha/mod.rs, lines 17 to 225: the hierarchical time wheel of the expiry worker.
-- A cell of the wheel is addressed by its level and its slot. The table of cells is a function of
-- the two; Wheel/Tally proves that the code only ever addresses the 8 levels of 256 slots that it
-- allocates. A call of the `expire` callback is an item of the list that comes back beside the
-- wheel, in the order of the calls: the callback does not touch the wheel.
pub mod Numbers
pub mod Tally
pub mod Placed
pub mod Tick
pub mod Advance
use cache_cat.Prelude.{
  ℕ, zero, suc, ◌+◌, ◌-◌, ◌*◌, ◌/◌, ◌%◌, ◌^◌, Bool, true, false, ◌&&◌, ◌||◌, List, [], ◌∷◌, ◌++◌,
  ltb, leb, ◌==◌, if◌then◌else◌,
}

abbrev pub wheel_bits : ℕ
wheel_bits = 8

abbrev pub wheel_size : ℕ
wheel_size = 256

abbrev pub wheel_levels : ℕ
wheel_levels = 8

abbrev pub large_advance_threshold : ℕ
large_advance_threshold = 4096

pub record TimerItem (K : Type 0) : Type 0 where
  pub key : K
  pub expire_at : ℕ

abbrev pub Cells : Type 0 → Type 0
Cells K = ℕ → ℕ → List (TimerItem K)

pub record HierarchicalTimeWheel (K : Type 0) : Type 0 where
  pub current : ℕ
  pub wheels : Cells K

-- `(at >> (level * WHEEL_BITS)) & WHEEL_MASK`; the mask is WHEEL_SIZE - 1, a power of two less one.
unfoldable pub slot_for : ℕ → ℕ → ℕ
slot_for at level = at / 2 ^ (level * wheel_bits) % wheel_size

-- The `while` loop: `level` grows in each round, so `wheel_levels` rounds are enough.
unfoldable pub level_loop : ℕ → ℕ → ℕ → ℕ → ℕ
level_loop zero level span delta = level
level_loop (suc rounds) level span delta = elim (ltb (level + 1) wheel_levels && leb span delta) [
  | true ↦ level_loop rounds (level + 1) (span * 2 ^ wheel_bits % 2 ^ 64) delta
  | false ↦ level
]

unfoldable pub level_for_delta : ℕ → ℕ
unfolding level_loop
level_for_delta delta = level_loop wheel_levels 0 wheel_size delta

module _ {K : Type 0} where
  unfoldable pub set_cell : Cells K → ℕ → ℕ → List (TimerItem K) → Cells K
  set_cell wheels level slot items l s = if (l == level) && (s == slot) then items else wheels l s

  unfoldable pub push : Cells K → ℕ → ℕ → TimerItem K → Cells K
  push wheels level slot item = set_cell wheels level slot (wheels level slot ++ (item ∷ []))

  unfoldable pub new : ℕ → HierarchicalTimeWheel K
  new now = record { current = now; wheels = λ level slot. [] }

  unfoldable pub insert : HierarchicalTimeWheel K → TimerItem K → HierarchicalTimeWheel K
  insert w item =
      if leb item.expire_at w.current
      then record w { wheels = push w.wheels 0 (slot_for w.current 0) item }
      else (let level = level_for_delta (item.expire_at - w.current) in
          record w { wheels = push w.wheels level (slot_for item.expire_at level) item })

  unfoldable pub insert_all : HierarchicalTimeWheel K → List (TimerItem K) → HierarchicalTimeWheel K
  insert_all w [] = w
  insert_all w (item ∷ items) = insert_all (insert w item) items

  unfoldable pub cascade : HierarchicalTimeWheel K → ℕ → HierarchicalTimeWheel K
  cascade w level =
      let slot = slot_for w.current level in
      insert_all (record w { wheels = set_cell w.wheels level slot [] }) (w.wheels level slot)

  -- `for level in 1..WHEEL_LEVELS`, with `rounds` levels to go: it breaks at the first level whose
  -- lower bits in `current` are not all zero.
  unfoldable pub cascade_levels : ℕ → ℕ → HierarchicalTimeWheel K → HierarchicalTimeWheel K
  cascade_levels zero level w = w
  cascade_levels (suc rounds) level w = elim (w.current % 2 ^ (level * wheel_bits) == 0) [
    | true ↦ cascade_levels rounds (suc level) (cascade w level)
    | false ↦ w
  ]

  -- `for item in due`: what has expired is handed to the callback, what has not goes back.
  unfoldable pub drain :
      HierarchicalTimeWheel K → List (TimerItem K) → HierarchicalTimeWheel K × List (TimerItem K)
  drain w [] = (w, [])
  drain w (item ∷ due) =
      let expired = drain w due in
      let kept = drain (insert w item) due in
      if leb item.expire_at w.current then (expired.0, item ∷ expired.1) else kept

  -- The body of the `while` loop of `advance_to`.
  unfoldable pub tick : HierarchicalTimeWheel K → HierarchicalTimeWheel K × List (TimerItem K)
  tick w =
      let moved = record w { current = w.current + 1 } in
      let w' = cascade_levels (wheel_levels - 1) 1 moved in
      let slot = slot_for w'.current 0 in
      drain (record w' { wheels = set_cell w'.wheels 0 slot [] }) (w'.wheels 0 slot)

  unfoldable pub advance_loop :
      ℕ → ℕ → HierarchicalTimeWheel K → HierarchicalTimeWheel K × List (TimerItem K)
  advance_loop zero now w = (w, [])
  advance_loop (suc rounds) now w = elim (ltb w.current now) [
    | true ↦
        (let (w', fired) = tick w in
          let (w'', later) = advance_loop rounds now w' in (w'', fired ++ later))
    | false ↦ (w, [])
  ]

  -- The cells of one level, and of all levels, in the order of the nested `for` loops.
  unfoldable pub level_items : Cells K → ℕ → ℕ → List (TimerItem K)
  level_items wheels level zero = []
  level_items wheels level (suc slot) = level_items wheels level slot ++ wheels level slot

  unfoldable pub all_items : Cells K → ℕ → List (TimerItem K)
  all_items wheels zero = []
  all_items wheels (suc level) = all_items wheels level ++ level_items wheels level wheel_size

  -- Every cell is taken, so the table is empty before the pending items are distributed.
  unfoldable pub advance_large :
      HierarchicalTimeWheel K → ℕ → HierarchicalTimeWheel K × List (TimerItem K)
  advance_large w now =
      drain (record { current = now; wheels = λ level slot. [] }) (all_items w.wheels wheel_levels)

  unfoldable pub advance_to :
      HierarchicalTimeWheel K → ℕ → HierarchicalTimeWheel K × List (TimerItem K)
  advance_to w now =
      if leb now w.current
      then (w, [])
      else if ltb large_advance_threshold (now - w.current)
      then advance_large w now
      else advance_loop (now - w.current) now w

  unfoldable pub any_due : ℕ → (K → ℕ → Bool) → List (TimerItem K) → Bool
  any_due now is_current [] = false
  any_due now is_current (item ∷ items) =
      (leb item.expire_at now && is_current item.key item.expire_at) || any_due now is_current items

  unfoldable pub has_due : HierarchicalTimeWheel K → ℕ → (K → ℕ → Bool) → Bool
  has_due w now is_current = any_due now is_current (all_items w.wheels wheel_levels)
