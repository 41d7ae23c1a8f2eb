-- ===== src/Wheel/Advance.antt =====
-- `advance_to` against its specification: of the items in the wheel, those due at the new instant
-- are fired, each as often as it was there, and the others stay.
use cache_cat.Prelude.{
  ℕ, zero, suc, ◌+◌, ◌-◌, ◌^◌, ◌<◌, ◌≤◌, ◌≡◌, refl, Bool, true, false, ◌&&◌, List, [], ◌∷◌, arith,
  ltb, leb, All, All-append, All-map, Bool-cases, inl, inr, ◌∙◌, count, count_none, count_zero,
  count_every, lt→ltb, tests,
}
use cache_cat.Wheel.{
  TimerItem, HierarchicalTimeWheel, insert, drain, tick, advance_loop, advance_large, advance_to,
  level_items, all_items, new,
}
use cache_cat.Wheel.Numbers.{width_pos, lt_of_div-lt}
use cache_cat.Wheel.Tally.{tally-advance_to}
use cache_cat.Wheel.Placed.{IsPlaced, IsWheel, insert-IsWheel, current-insert}
use cache_cat.Wheel.Tick.{tick-IsWheel}

pub new-IsWheel : (K : Type 0) (now : ℕ) → IsWheel (new {K = K} now)
unfolding new
new-IsWheel K now level slot h = tt

module _ {K : Type 0} where
  abbrev pub Fits : TimerItem K → Type 0
  Fits item = item.expire_at < 2 ^ 64

  -- What holds of every placed item holds of every item of the wheel.
  module _ (P : TimerItem K → Type 0) (w : HierarchicalTimeWheel K)
      (one : (level slot : ℕ) (item : TimerItem K) → IsPlaced w.current level slot item → P item)
      (wf : IsWheel w) where
    level_items-All : (level n : ℕ) → level < 8 → All P (level_items w.wheels level n)
    unfolding level_items
    level_items-All level zero h = tt
    level_items-All level (suc n) h =
        All-append P (level_items w.wheels level n) (w.wheels level n) (level_items-All level n h)
          (All-map (IsPlaced w.current level n) P _ (one level n) (wf level n h))

    all_items-All : (n : ℕ) → n ≤ 8 → All P (all_items w.wheels n)
    unfolding all_items
    all_items-All zero h = tt
    all_items-All (suc n) h =
        All-append P (all_items w.wheels n) (level_items w.wheels n 256)
          (all_items-All n (omega arith)) (level_items-All n 256 (omega arith))

  ahead_of :
      (c level slot : ℕ) (item : TimerItem K) → IsPlaced c level slot item → c < item.expire_at
  ahead_of c level slot item p = lt_of_div-lt c item.expire_at _ (width_pos level) p.ahead

  drain-IsWheel :
      (due : List (TimerItem K)) (w : HierarchicalTimeWheel K) (now : ℕ)
      → w.current ≡ now
      → All Fits due
      → IsWheel w
      → IsWheel (drain w due).0
        × ((drain w due).0.current ≡ now)
        × All (λ item. item.expire_at ≤ now) (drain w due).1
  unfolding drain
  drain-IsWheel [] w now e h wf = (wf, e, tt)
  drain-IsWheel (item ∷ due) w now e h wf = elim (Bool-cases (leb item.expire_at w.current)) [
    | inl fired ↦
        let (wf', e', all) = drain-IsWheel due w now e h.1 wf in
        rw (fired, drain) (wf', e', (omega tests, all))
    | inr kept ↦
        rw (kept, drain)
          (drain-IsWheel due (insert w item) now (current-insert w item ∙ e) h.1
            (insert-IsWheel w item (ground arith) h.0 wf))
  ]

  advance_loop-IsWheel :
      (rounds now : ℕ) (w : HierarchicalTimeWheel K)
      → w.current + rounds ≡ now
      → IsWheel w
      → IsWheel (advance_loop rounds now w).0
        × ((advance_loop rounds now w).0.current ≡ now)
        × All (λ item. item.expire_at ≤ now) (advance_loop rounds now w).1
  unfolding advance_loop
  advance_loop-IsWheel zero now w e wf = (wf, omega arith, tt)
  advance_loop-IsWheel (suc rounds) now w e wf =
      let (wf', e', fired) = tick-IsWheel w wf in
      let (wf'', e'', later) = advance_loop-IsWheel rounds now (tick w).0 (omega arith) wf' in
      let go : ltb w.current now ≡ true = lt→ltb w.current now (omega arith) in
      rw (go, advance_loop)
        (
          wf'',
          e'',
          All-append (λ item. item.expire_at ≤ now) (tick w).1 _
              (All-map (λ item. item.expire_at ≡ w.current + 1) (λ item. item.expire_at ≤ now) _
                (λ item q. omega arith) fired)
              later,
        )

  advance_large-IsWheel :
      (w : HierarchicalTimeWheel K) (now : ℕ)
      → IsWheel w
      → IsWheel (advance_large w now).0
        × ((advance_large w now).0.current ≡ now)
        × All (λ item. item.expire_at ≤ now) (advance_large w now).1
  unfolding advance_large
  advance_large-IsWheel w now wf =
      drain-IsWheel (all_items w.wheels 8) _ now refl
        (all_items-All Fits w (λ level slot item p. p.fits) wf 8 (omega arith)) (λ level slot h. tt)

  -- From a wheel whose levels stand at the clock, advancing to a later instant leaves such a wheel
  -- at that instant, and all that is fired is due by then.
  pub advance_to-IsWheel :
      (w : HierarchicalTimeWheel K) (now : ℕ)
      → w.current ≤ now
      → IsWheel w
      → IsWheel (advance_to w now).0
        × ((advance_to w now).0.current ≡ now)
        × All (λ item. item.expire_at ≤ now) (advance_to w now).1
  unfolding advance_to
  advance_to-IsWheel w now h wf = elim (Bool-cases (leb now w.current)) [
    | inl same ↦ rw (same, advance_to) (wf, ground arith, tt)
    | inr later ↦ elim (Bool-cases (ltb 4096 (now - w.current))) [
      | inl far ↦ rw (later, far, advance_to) (advance_large-IsWheel w now wf)
      | inr near ↦
          rw (later, near, advance_to)
            (advance_loop-IsWheel (now - w.current) now w (omega arith) wf)
    ]
  ]

  -- Advancing the wheel fires every item that is due, each as often as it is there, and nothing
  -- else; what is not due stays, each as often as it was there.
  pub advance_to_exact :
      (w : HierarchicalTimeWheel K) (now : ℕ) (p : TimerItem K → Bool)
      → w.current ≤ now
      → IsWheel w
      → (count p (advance_to w now).1
          ≡ count (λ item. p item && leb item.expire_at now) (all_items w.wheels 8))
        × (count p (all_items (advance_to w now).0.wheels 8)
            ≡ count (λ item. p item && ltb now item.expire_at) (all_items w.wheels 8))
  advance_to_exact w now p h wf =
      let (wf', e, fired) = advance_to-IsWheel w now h wf in
      let due : TimerItem K → Bool = λ item. leb item.expire_at now in
      let late : TimerItem K → Bool = λ item. ltb now item.expire_at in
      let w' : HierarchicalTimeWheel K = (advance_to w now).0 in
      let items : List (TimerItem K) = all_items w'.wheels 8 in
      let out : List (TimerItem K) = (advance_to w now).1 in
      let ahead =
        all_items-All (λ item. now < item.expire_at) w'
          (λ level slot item q. rw e at (ahead_of w'.current level slot item q)) wf' 8
          (omega arith) in
      omega (
        arith,
        tally-advance_to (λ item. p item && due item) w now,
        tally-advance_to (λ item. p item && late item) w now,
        count_none p due items (
            All-map (λ item. now < item.expire_at) (λ item. due item ≡ false) items
              (λ item q. ground arith) ahead),
        count_every p late items (
            All-map (λ item. now < item.expire_at) (λ item. late item ≡ true) items
              (λ item q. ground arith) ahead),
        count_every p due out (
            All-map (λ item. item.expire_at ≤ now) (λ item. due item ≡ true) out
              (λ item q. ground arith) fired),
        count_none p late out (
            All-map (λ item. item.expire_at ≤ now) (λ item. late item ≡ false) out
              (λ item q. ground arith) fired),
      )

  -- Every item of a wheel lies ahead of its clock.
  pub tally_ahead :
      (w : HierarchicalTimeWheel K) (p : TimerItem K → Bool)
      → IsWheel w
      → ((item : TimerItem K) → w.current < item.expire_at → p item ≡ false)
      → count p (all_items w.wheels 8) ≡ 0
  tally_ahead w p wf none_ahead = count_zero p (all_items w.wheels 8) (
      all_items-All (λ item. p item ≡ false) w
        (λ level slot item q. none_ahead item (ahead_of w.current level slot item q)) wf 8
        (omega arith))
