-- ===== src/Mocha/Quiet.antt =====
-- The worker is invisible: whatever commands it handles, no client sees a difference.
use cache_cat.Prelude.{ℕ, ◌≡◌, refl, ◌∙◌, List, [], ◌∷◌, ◌++◌, Eq, same_iff, arith}
use cache_cat.Map.{HashMap}
use cache_cat.Wheel.{TimerItem, advance_to}
use cache_cat.Mocha.{
  Entry, Mocha, ExpireCommand, schedule, schedule_batch, advance, advance_and_wait,
  has_expired_by_local_clock, remove_expired_if_current_from,
}
use cache_cat.Mocha.View.{live, view}
use cache_cat.Mocha.Worker.{
  expire_all, advance_wheel, schedule_item, schedule_items, handle_expire_command, handle_all,
  expire_worker, active_expire_cycle_blocking,
}

pub record IsQuiet {K V : Type 0} ⦃e : Eq K⦄ {h : HashMap K (Entry V)} (m m' : Mocha h)
    : Type 0 where
  pub queue : m'.queue ≡ m.queue
  pub clock : m'.logic_clock ≡ m.logic_clock
  pub views : (j : K) → view h m' j ≡ view h m j

module _ {K V : Type 0} ⦃e : Eq K⦄ (h : HashMap K (Entry V)) where
  live-remove_expired :
      (map : h.Map) (now : ℕ) (k j : K) (at : ℕ)
      → live now (h.get (remove_expired_if_current_from h map now k at).1 j)
        ≡ live now (h.get map j)
  unfolding remove_expired_if_current_from
  live-remove_expired map now k j at = ground (arith, same_iff k j, h.get-delete map k j)

  live-expire_all :
      (items : List (TimerItem K)) (map : h.Map) (now : ℕ) (j : K)
      → live now (h.get (expire_all h map now items) j) ≡ live now (h.get map j)
  unfolding expire_all
  live-expire_all [] map now j = refl
  live-expire_all (item ∷ items) map now j =
      live-expire_all items _ now j ∙ live-remove_expired map now item.key j item.expire_at

  advance_wheel-IsQuiet : (m : Mocha h) → IsQuiet m (advance_wheel h m)
  unfolding advance_wheel
  advance_wheel-IsQuiet m = record {
    queue = refl;
    clock = refl;
    views = λ j. live-expire_all (advance_to m.wheel m.logic_clock).1 m.map m.logic_clock j;
  }

  IsQuiet-trans : {a b c : Mocha h} → IsQuiet a b → IsQuiet b c → IsQuiet a c
  IsQuiet-trans f g = record {
    queue = g.queue ∙ f.queue;
    clock = g.clock ∙ f.clock;
    views = λ j. g.views j ∙ f.views j;
  }

  schedule_item-IsQuiet : (m : Mocha h) (item : TimerItem K) → IsQuiet m (schedule_item h m item)
  unfolding schedule_item
  schedule_item-IsQuiet m item = record {
    queue = ground arith;
    clock = ground arith;
    views = λ j. ground (arith, live-remove_expired m.map m.logic_clock item.key j item.expire_at);
  }

  schedule_items-IsQuiet :
      (items : List (TimerItem K)) (m : Mocha h) → IsQuiet m (schedule_items h m items)
  unfolding schedule_items
  schedule_items-IsQuiet [] m = record { queue = refl; clock = refl; views = λ j. refl }
  schedule_items-IsQuiet (item ∷ items) m =
      IsQuiet-trans (schedule_item-IsQuiet m item)
        (schedule_items-IsQuiet items (schedule_item h m item))

  -- Handling a command changes neither the clock nor what any client sees of any key.
  pub handle_expire_command-IsQuiet :
      (m : Mocha h) (cmd : ExpireCommand K) → IsQuiet m (handle_expire_command h m cmd).1
  unfolding handle_expire_command
  handle_expire_command-IsQuiet m (schedule k at) =
      IsQuiet-trans (advance_wheel-IsQuiet m) (schedule_item-IsQuiet (advance_wheel h m) _)
  handle_expire_command-IsQuiet m (schedule_batch items) =
      IsQuiet-trans (advance_wheel-IsQuiet m) (schedule_items-IsQuiet items (advance_wheel h m))
  handle_expire_command-IsQuiet m advance = advance_wheel-IsQuiet m
  handle_expire_command-IsQuiet m advance_and_wait = advance_wheel-IsQuiet m
  handle_expire_command-IsQuiet m (has_expired_by_local_clock now) = record {
    queue = refl;
    clock = refl;
    views = λ j. refl;
  }

  handle_all-IsQuiet :
      (cmds : List (ExpireCommand K)) (m : Mocha h) → IsQuiet m (handle_all h m cmds)
  unfolding handle_all
  handle_all-IsQuiet [] m = record { queue = refl; clock = refl; views = λ j. refl }
  handle_all-IsQuiet (cmd ∷ cmds) m =
      IsQuiet-trans (handle_expire_command-IsQuiet m cmd)
        (handle_all-IsQuiet cmds (handle_expire_command h m cmd).1)

  -- A whole expiry cycle, with all commands sent before it, changes neither the clock nor what any
  -- client sees of any key.
  pub active_expire_cycle-IsQuiet :
      (m : Mocha h)
      → ((active_expire_cycle_blocking h m).logic_clock ≡ m.logic_clock)
        × ((j : K) → view h (active_expire_cycle_blocking h m) j ≡ view h m j)
  unfolding active_expire_cycle_blocking expire_worker
  active_expire_cycle-IsQuiet m =
      let q = handle_all-IsQuiet (m.queue ++ (advance_and_wait ∷ [])) (record m { queue = [] }) in
      (q.clock, q.views)
