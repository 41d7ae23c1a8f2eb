-- ===== src/Mocha/Schedule.antt =====
-- Active expiry is complete: every instant in the table is known to the worker, in a command that
-- it has not received yet or in its wheel, so a full cycle removes every entry that has expired.
use cache_cat.Prelude.{ℕ, ◌+◌, ◌<◌, ◌≤◌, ◌≡◌, some, List, [], ◌∷◌, ◌++◌, Eq, arith, All, All-append}
use native.Mathlib.Decide.{dec_lt}
use cache_cat.Map.{HashMap}
use cache_cat.Wheel.Placed.{IsWheel}
use cache_cat.Wheel.Tally.{tally}
use cache_cat.Wheel.Advance.{tally_ahead}
use cache_cat.Mocha.{
  Entry, Mocha, ExpireCommand, schedule, schedule_batch, advance, advance_and_wait,
  has_expired_by_local_clock,
}
use cache_cat.Mocha.Known.{
  is_item, asked, waiting, waiting-append, Fits, Known, InStep, advance_wheel-Known,
  schedule_item-Known, advance_wheel-InStep, schedule_item-InStep, schedule_items-Known,
}
use cache_cat.Mocha.Worker.{
  advance_wheel, handle_expire_command, handle_all, expire_worker, active_expire_cycle_blocking,
}

-- What holds of the worker, its wheel and the commands that it is still to handle.
pub record IsKnown {K V : Type 0} ⦃e : Eq K⦄ {h : HashMap K (Entry V)} (m : Mocha h)
    (cmds : List (ExpireCommand K)) : Type 0 where
  pub wheel : IsWheel m.wheel
  pub behind : m.wheel.current ≤ m.logic_clock
  pub known :
      (k : K) (at : ℕ) (entry : Entry V)
      → h.get m.map k ≡ some entry
      → entry.expire_at ≡ some at
      → 0 < waiting k at cmds + tally (is_item k at) m.wheel.wheels
  pub fits : All Fits cmds

module _ {K V : Type 0} ⦃e : Eq K⦄ (h : HashMap K (Entry V)) where
  in_step :
      (m : Mocha h) (cmds : List (ExpireCommand K))
      → InStep h m
      → Known h m (λ k at. waiting k at cmds)
      → All Fits cmds
      → IsKnown m cmds
  in_step m cmds (wf, now) known fits = record {
    wheel = wf;
    behind = omega arith;
    known = λ k at entry p q. known k at (entry, p, q);
    fits = fits;
  }

  advanced :
      (m : Mocha h) (cmd : ExpireCommand K) (cmds : List (ExpireCommand K))
      → IsKnown m (cmd ∷ cmds)
      → InStep h (advance_wheel h m)
        × Known h (advance_wheel h m) (λ k at. asked k at cmd + waiting k at cmds)
  advanced m cmd cmds w = (
    advance_wheel-InStep h m w.wheel w.behind,
    advance_wheel-Known h m (λ k at. asked k at cmd + waiting k at cmds) w.wheel w.behind
        (λ k at held. w.known k at held.0 held.1 held.2),
  )

  -- Handling a command keeps every instant of the table known.
  pub handle_expire_command-IsKnown :
      (m : Mocha h) (cmd : ExpireCommand K) (cmds : List (ExpireCommand K))
      → IsKnown m (cmd ∷ cmds)
      → IsKnown (handle_expire_command h m cmd).1 cmds
  unfolding handle_expire_command
  handle_expire_command-IsKnown m (schedule j at) cmds w =
      let (step, known) = advanced m (schedule j at) cmds w in
      in_step _ cmds (schedule_item-InStep h (advance_wheel h m) _ w.fits.0 step)
        (schedule_item-Known h (advance_wheel h m) _ (λ k at. waiting k at cmds) known) w.fits.1
  handle_expire_command-IsKnown m (schedule_batch items) cmds w =
      let (step, known) = advanced m (schedule_batch items) cmds w in
      let (step', known') =
        schedule_items-Known h items (advance_wheel h m) (λ k at. waiting k at cmds) w.fits.0 step
          known in
      in_step _ cmds step' known' w.fits.1
  handle_expire_command-IsKnown m advance cmds w =
      let (step, known) = advanced m advance cmds w in
      in_step _ cmds step (λ k at held. omega (arith, known k at held)) w.fits.1
  handle_expire_command-IsKnown m advance_and_wait cmds w =
      let (step, known) = advanced m advance_and_wait cmds w in
      in_step _ cmds step (λ k at held. omega (arith, known k at held)) w.fits.1
  handle_expire_command-IsKnown m (has_expired_by_local_clock now) cmds w = record {
    wheel = w.wheel;
    behind = w.behind;
    known = λ k at entry p q. omega (arith, w.known k at entry p q);
    fits = w.fits.1;
  }

  last_advance :
      (cmds : List (ExpireCommand K)) (m : Mocha h)
      → IsKnown m (cmds ++ (advance_and_wait ∷ []))
      → InStep h (handle_all h m (cmds ++ (advance_and_wait ∷ [])))
        × Known h (handle_all h m (cmds ++ (advance_and_wait ∷ []))) (λ k at. 0)
  unfolding handle_all handle_expire_command
  last_advance [] m w =
      let (step, known) = advanced m advance_and_wait [] w in
      (step, λ k at held. omega (arith, known k at held))
  last_advance (cmd ∷ cmds) m w =
      last_advance cmds (handle_expire_command h m cmd).1
        (handle_expire_command-IsKnown m cmd (cmds ++ (advance_and_wait ∷ [])) w)

  -- After a full cycle no expired entry is left in the table: whatever instant the table still
  -- holds lies ahead of the clock.
  pub active_expire_cycle_complete :
      (m : Mocha h) (k : K) (at : ℕ) (entry : Entry V)
      → IsKnown m m.queue
      → h.get (active_expire_cycle_blocking h m).map k ≡ some entry
      → entry.expire_at ≡ some at
      → (active_expire_cycle_blocking h m).logic_clock < at
  unfolding active_expire_cycle_blocking expire_worker
  active_expire_cycle_complete m k at entry w p q =
      let start : IsKnown (record m { queue = [] }) (m.queue ++ (advance_and_wait ∷ [])) = record {
        wheel = w.wheel;
        behind = w.behind;
        known = λ j t entry' p' q'.
            omega
              (arith, w.known j t entry' p' q', waiting-append j t m.queue (advance_and_wait ∷ []));
        fits = All-append Fits m.queue (advance_and_wait ∷ []) w.fits (tt, tt);
      } in
      let (step, known) = last_advance m.queue (record m { queue = [] }) start in
      let m' : Mocha h =
        handle_all h (record m { queue = [] }) (m.queue ++ (advance_and_wait ∷ [])) in
      elim (dec_lt m'.logic_clock at) [
        | yes ahead ↦ ahead
        | no reached ↦
            let gone =
              tally_ahead m'.wheel (is_item k at) step.0
                (λ item lt. ground (arith, step.1, reached)) in
            absurd (omega (arith, gone, known k at (entry, p, q)))
      ]
