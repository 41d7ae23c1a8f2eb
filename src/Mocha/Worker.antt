-- ===== src/Mocha/Worker.antt =====
-- cache_cat/src/mocha/mod.rs, lines 467 to 632: the expiry worker and the calls that wait for it.
use cache_cat.Prelude.{
  ℕ, Bool, true, Option, none, some, List, [], ◌∷◌, ◌++◌, leb, if◌then◌else◌, Eq,
}
use cache_cat.Map.{HashMap}
use cache_cat.Wheel
use cache_cat.Wheel.{TimerItem, HierarchicalTimeWheel, advance_to, has_due}
use cache_cat.Mocha.{
  Entry, ExpireCommand, schedule, schedule_batch, advance, advance_and_wait,
  has_expired_by_local_clock, Mocha, remove_expired_if_current_from, has_expired_if_current_from,
}

module _ {K V : Type 0} ⦃e : Eq K⦄ (h : HashMap K (Entry V)) where
  -- The calls of the callback that `advance_wheel` hands to the wheel.
  unfoldable pub expire_all : h.Map → ℕ → List (TimerItem K) → h.Map
  expire_all map now [] = map
  expire_all map now (item ∷ items) =
      expire_all (remove_expired_if_current_from h map now item.key item.expire_at).1 now items

  unfoldable pub advance_wheel : Mocha h → Mocha h
  advance_wheel m =
      let (wheel, fired) = advance_to m.wheel m.logic_clock in
      record m { map = expire_all m.map m.logic_clock fired; wheel = wheel }

  -- One item of `Schedule` or `ScheduleBatch`, after the wheel has been advanced.
  unfoldable pub schedule_item : Mocha h → TimerItem K → Mocha h
  schedule_item m item =
      if leb item.expire_at m.logic_clock
      then record m {
        map = (remove_expired_if_current_from h m.map m.logic_clock item.key item.expire_at).1;
      }
      else record m { wheel = Wheel.insert m.wheel item }

  unfoldable pub schedule_items : Mocha h → List (TimerItem K) → Mocha h
  schedule_items m [] = m
  schedule_items m (item ∷ items) = schedule_items (schedule_item m item) items

  -- The answer is what is sent on `done`: `()` is `true`.
  unfoldable pub handle_expire_command : Mocha h → ExpireCommand K → Option Bool × Mocha h
  handle_expire_command m (schedule key expire_at) =
      (none, schedule_item (advance_wheel m) (record { key = key; expire_at = expire_at }))
  handle_expire_command m (schedule_batch items) = (none, schedule_items (advance_wheel m) items)
  handle_expire_command m advance = (none, advance_wheel m)
  handle_expire_command m advance_and_wait = (some true, advance_wheel m)
  handle_expire_command m (has_expired_by_local_clock now) =
      (some (has_due m.wheel now (has_expired_if_current_from h m.map)), m)

  -- The worker receives the commands one after the other, in the order of sending.
  unfoldable pub handle_all : Mocha h → List (ExpireCommand K) → Mocha h
  handle_all m [] = m
  handle_all m (cmd ∷ cmds) = handle_all (handle_expire_command m cmd).1 cmds

  unfoldable pub expire_worker : Mocha h → Mocha h
  expire_worker m = handle_all (record m { queue = [] }) m.queue

  unfoldable pub trigger_expire_cycle : Mocha h → Mocha h
  trigger_expire_cycle m = record m { queue = m.queue ++ (advance ∷ []) }

  -- The caller waits until the worker has answered, so all commands before its own are done.
  unfoldable pub active_expire_cycle_blocking : Mocha h → Mocha h
  active_expire_cycle_blocking m =
      expire_worker (record m { queue = m.queue ++ (advance_and_wait ∷ []) })
