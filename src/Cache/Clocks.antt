-- ===== src/Cache/Clocks.antt =====
-- The two logical clocks of cache_cat/src/raft/types/core/mocha/core.rs against each other.
use cache_cat.Prelude.{ℕ, zero, suc, ◌≤◌, ◌≡◌, refl, List, [], ◌∷◌, All, max, arith, bytes_eq}
use cache_cat.Mocha
use cache_cat.Mocha.{Mocha}
use cache_cat.Cache.{
  Store, MyCache, each_clock, repeat, new, get_and_update_read_clock, generate_new_write_clock,
  set_write_clock,
}

module _ (h : Store) where
  -- Every database stands at the write clock.
  abbrev pub IsInTime : MyCache h → Type 0
  IsInTime cache = All (λ m. m.logic_clock ≡ cache.write_logic_clock) cache.databases

  each_clock-All :
      (now : ℕ) (ms : List (Mocha h)) → All (λ m. m.logic_clock ≡ now) (each_clock h now ms)
  each_clock-All now [] = tt
  each_clock-All now (m ∷ ms) = (refl, each_clock-All now ms)

  repeat-All : (n : ℕ) → All (λ m. m.logic_clock ≡ 0) (repeat h n (Mocha.new h 0))
  repeat-All zero = tt
  repeat-All (suc n) = (unfold Mocha.new in refl, repeat-All n)

  pub new-IsInTime : (n : ℕ) → IsInTime (new h n)
  unfolding new
  new-IsInTime n = repeat-All n

  -- A read clock is at no earlier instant than the write clock, the system and the read clocks
  -- before it; a write clock that is generated later, by any system clock, is not before it; and
  -- once a write clock is set, it is at least the one before, and every database stands at it.
  pub clocks_lem :
      (cache : MyCache h) (now later clock : ℕ)
      → (cache.write_logic_clock ≤ (get_and_update_read_clock h cache now).0)
        × (now ≤ (get_and_update_read_clock h cache now).0)
        × (cache.read_logic_clock ≤ (get_and_update_read_clock h cache now).0)
        × ((get_and_update_read_clock h cache now).0
            ≤ generate_new_write_clock h (get_and_update_read_clock h cache now).1 later)
        × (cache.write_logic_clock ≤ (set_write_clock h cache clock).0)
        × (clock ≤ (set_write_clock h cache clock).0)
        × IsInTime (set_write_clock h cache clock).1
  unfolding get_and_update_read_clock generate_new_write_clock set_write_clock
  clocks_lem cache now later clock = (
    omega arith,
    omega arith,
    omega arith,
    omega arith,
    omega arith,
    omega arith,
    each_clock-All (max cache.write_logic_clock clock) cache.databases,
  )
