-- ===== src/Wheel/Tick.antt =====
-- One step of the clock: the cascade brings down exactly the items whose slot has come, and the
-- slot of level 0 then holds exactly the items that are due.
use cache_cat.Prelude.{
  ℕ, zero, suc, ◌+◌, ◌-◌, ◌*◌, ◌/◌, ◌%◌, ◌^◌, ◌<◌, ◌≤◌, ◌≡◌, ◌≢◌, refl, true, false, List, [], ◌∷◌,
  arith, leb, ◌==◌, if◌then◌else◌, All, All-map, Bool-cases, inl, inr, ==_iff, sym, subst, ap, ◌∙◌,
}
use cache_cat.Wheel.{
  TimerItem, Cells, HierarchicalTimeWheel, slot_for, set_cell, insert, insert_all, cascade,
  cascade_levels, drain, tick, wheel_bits,
}
use cache_cat.Wheel.Numbers.{width, width_pos, next-div_zero, same_slot, next-div_above, width_mono}
use cache_cat.Wheel.Placed.{IsPlaced, AllPlaced, IsWheel, mixed, insert-AllPlaced, current-insert}
use mathlib.Core.Bool.{false≢true}
use native.Mathlib.Decide.{ℕ_discrete, dec_lt}

mixed_self : (c j : ℕ) → mixed c j j ≡ c
mixed_self c j = ground arith

mixed_next : (c j : ℕ) → 0 < j → mixed c (suc j) j ≡ c + 1
mixed_next c j h = ground arith

mixed_stays : (c j level : ℕ) → level ≢ j → mixed c (suc j) level ≡ mixed c j level
mixed_stays c j level h = ground arith

-- Every level but 0 stands at `c + 1`.
abbrev stepped : ℕ → ℕ → ℕ
stepped c level = if leb 1 level then c + 1 else c

module _ {K : Type 0} where
  -- An item in the slot of a level that the step reaches lies in that slot's span.
  slot_reached :
      (c j : ℕ) (item : TimerItem K)
      → (c + 1) % width j ≡ 0
      → IsPlaced c j (slot_for (c + 1) j) item
      → item.expire_at / width j ≡ (c + 1) / width j
  unfolding slot_for
  slot_reached c j item z p = omega (arith, next-div_zero c (width j) (width_pos j) z)

  in_span :
      (c j : ℕ) (item : TimerItem K)
      → (c + 1) % width j ≡ 0
      → IsPlaced c j (slot_for (c + 1) j) item
      → (c + 1 ≤ item.expire_at) × (item.expire_at < c + 1 + width j)
  in_span c j item z p =
      same_slot item.expire_at (c + 1) (width j) (width_pos j) (slot_reached c j item z p) z

  -- The other items of the level are still ahead.
  slot_missed :
      (c j s : ℕ) (item : TimerItem K)
      → (c + 1) % width j ≡ 0
      → s ≢ slot_for (c + 1) j
      → IsPlaced c j s item
      → IsPlaced (c + 1) j s item
  unfolding slot_for
  slot_missed c j s item z n p =
      let apart : item.expire_at / width j ≢ (c + 1) / width j =
        λ q. n (sym p.at_slot ∙ ap (λ x. x % 256) q) in
      record {
        at_slot = p.at_slot;
        ahead = omega (arith, next-div_zero c (width j) (width_pos j) z);
        near = omega (arith, next-div_zero c (width j) (width_pos j) z);
        fits = p.fits;
      }

  -- Where the step does not reach a level, its items stand as before.
  level_untouched :
      (c j s : ℕ) (item : TimerItem K)
      → (c + 1) / width j ≡ c / width j
      → IsPlaced c j s item
      → IsPlaced (c + 1) j s item
  level_untouched c j s item e p = record {
    at_slot = p.at_slot;
    ahead = rw e p.ahead;
    near = rw e p.near;
    fits = p.fits;
  }

  abbrev InSpan : ℕ → ℕ → TimerItem K → Type 0
  InSpan c j item =
      (c + 1 ≤ item.expire_at) × (item.expire_at < c + 1 + width j) × (item.expire_at < 2 ^ 64)

  insert_all-AllPlaced :
      (c j : ℕ) (items : List (TimerItem K)) (w : HierarchicalTimeWheel K)
      → 0 < j
      → w.current ≡ c + 1
      → All (InSpan c j) items
      → AllPlaced (mixed c j) w.wheels
      → AllPlaced (mixed c j) (insert_all w items).wheels × ((insert_all w items).current ≡ c + 1)
  unfolding insert_all
  insert_all-AllPlaced c j [] w hj now h wf = (wf, now)
  insert_all-AllPlaced c j (item ∷ items) w hj now h wf =
      insert_all-AllPlaced c j items (insert w item) hj (current-insert w item ∙ now) h.1
        (insert-AllPlaced c j w item hj now h.0.0 h.0.1 h.0.2 wf)

  -- Emptying a cell of the level `j` moves that level on; the others keep their instant.
  emptied :
      (clock clock' : ℕ → ℕ) (wheels : Cells K) (j s : ℕ)
      → AllPlaced clock wheels
      → ((level : ℕ) → level ≢ j → clock' level ≡ clock level)
      → ((slot : ℕ) (item : TimerItem K)
          → slot ≢ s
          → IsPlaced (clock j) j slot item
          → IsPlaced (clock' j) j slot item)
      → AllPlaced clock' (set_cell wheels j s [])
  unfolding set_cell
  emptied clock clock' wheels j s wf stays moves level slot hl = elim (ℕ_discrete level j) [
    | yes here ↦ elim (Bool-cases (slot == s)) [
      | inl e ↦ let l : (level == j) ≡ true = (==_iff level j).1 here in rw (l, e) tt
      | inr e ↦
          let ne : slot ≢ s = λ q. false≢true (sym e ∙ (==_iff slot s).1 q) in
          let l : (level == j) ≡ true = (==_iff level j).1 here in
          rw (l, e)
            (rw here (
              All-map (IsPlaced (clock j) j slot) (IsPlaced (clock' j) j slot) _
                (λ item. moves slot item ne) (rw here at (wf level slot hl))))
    ]
    | no there ↦
        let l : (level == j) ≡ false = ground arith in
        rw l (rw (stays level there) (wf level slot hl))
  ]

  -- What the cascade of the level `j` takes out of its slot.
  fallen :
      (c j now : ℕ) (wheels : Cells K)
      → now ≡ c + 1
      → j < 8
      → (c + 1) % width j ≡ 0
      → AllPlaced (mixed c j) wheels
      → All (InSpan c (suc j)) (wheels j (slot_for now j))
  fallen c j now wheels e h8 z wf = rw e (
      All-map (IsPlaced c j (slot_for (c + 1) j)) (InSpan c (suc j)) _
        (λ item p.
          let (lo, hi) = in_span c j item z p in (lo, omega (arith, width_mono j (suc j)), p.fits))
        (rw mixed_self at (wf j (slot_for (c + 1) j) h8)))

  emptied_level :
      (c j now : ℕ) (wheels : Cells K)
      → now ≡ c + 1
      → 0 < j
      → (c + 1) % width j ≡ 0
      → AllPlaced (mixed c j) wheels
      → AllPlaced (mixed c (suc j)) (set_cell wheels j (slot_for now j) [])
  emptied_level c j now wheels e hj z wf = rw e (
      emptied (mixed c j) (mixed c (suc j)) wheels j (slot_for (c + 1) j) wf (mixed_stays c j)
        (λ slot item ne p.
          rw (mixed_next c j hj) (slot_missed c j slot item z ne (rw mixed_self at p))))

  cascade-AllPlaced :
      (c j : ℕ) (w : HierarchicalTimeWheel K)
      → 0 < j
      → j < 8
      → w.current ≡ c + 1
      → (c + 1) % width j ≡ 0
      → AllPlaced (mixed c j) w.wheels
      → AllPlaced (mixed c (suc j)) (cascade w j).wheels × ((cascade w j).current ≡ c + 1)
  unfolding cascade
  cascade-AllPlaced c j w hj h8 now z wf =
      insert_all-AllPlaced c (suc j) _ _ (omega arith) now
        (fallen c j w.current w.wheels now h8 z wf)
        (emptied_level c j w.current w.wheels now hj z wf)

  untouched :
      (c j : ℕ) (wheels : Cells K)
      → 0 < j
      → (c + 1) % width j ≢ 0
      → AllPlaced (mixed c j) wheels
      → AllPlaced (stepped c) wheels
  untouched c j wheels hj z wf level slot hl = elim (dec_lt level j) [
    | yes below ↦
        let e : stepped c level ≡ mixed c j level = ground arith in rw e (wf level slot hl)
    | no above ↦
        let e : stepped c level ≡ c + 1 = ground arith in
        let e' : mixed c j level ≡ c = ground arith in
        let k : level - j + j ≡ level = omega arith in
        rw e (
          All-map (IsPlaced c level slot) (IsPlaced (c + 1) level slot) _
            (λ item.
              level_untouched c level slot item
                (subst (λ l. (c + 1) / width l ≡ c / width l) k (next-div_above c j (level - j) z)))
            (rw e' at (wf level slot hl)))
  ]

  cascade_levels-AllPlaced :
      (rounds c j : ℕ) (w : HierarchicalTimeWheel K)
      → rounds + j ≡ 8
      → 0 < j
      → w.current ≡ c + 1
      → AllPlaced (mixed c j) w.wheels
      → AllPlaced (stepped c) (cascade_levels rounds j w).wheels
        × ((cascade_levels rounds j w).current ≡ c + 1)
  unfolding cascade_levels
  cascade_levels-AllPlaced zero c j w h8 hj now wf = (
    (λ level slot hl.
        let e : stepped c level ≡ mixed c j level = ground arith in rw e (wf level slot hl)),
    now,
  )
  cascade_levels-AllPlaced (suc rounds) c j w h8 hj now wf =
      elim (Bool-cases (w.current % 2 ^ (j * wheel_bits) == 0)) [
        | inl reached ↦
            let z : (c + 1) % width j ≡ 0 = (==_iff _ 0).0 (rw now at reached) in
            let (wf', now') = cascade-AllPlaced c j w hj (omega arith) now z wf in
            rw (reached, cascade_levels)
              (cascade_levels-AllPlaced rounds c (suc j) (cascade w j) (omega arith) (omega arith)
                now' wf')
        | inr missed ↦
            let z : (c + 1) % width j ≢ 0 =
              λ e. false≢true (sym (rw now at missed) ∙ (==_iff _ 0).1 e) in
            rw (missed, cascade_levels) (untouched c j w.wheels hj z wf, now)
      ]

  -- Items that are all due leave the wheel as it is.
  drain_due :
      (w : HierarchicalTimeWheel K) (due : List (TimerItem K))
      → All (λ item. item.expire_at ≤ w.current) due
      → drain w due ≡ (w, due)
  unfolding drain
  drain_due w [] h = refl
  drain_due w (item ∷ due) h = ground (arith, drain_due w due h.1)

  -- The slot of level 0 for the instant `now` holds what expires at `now`.
  slot_due :
      (c now : ℕ) (wheels : Cells K)
      → now ≡ c + 1
      → AllPlaced (stepped c) wheels
      → All (λ item. item.expire_at ≡ now) (wheels 0 (slot_for now 0))
  slot_due c now wheels e wf = rw e (
      All-map (IsPlaced c 0 (slot_for (c + 1) 0)) (λ item. item.expire_at ≡ c + 1) _
        (λ item p. let (lo, hi) = in_span c 0 item (omega arith) p in omega arith)
        (wf 0 (slot_for (c + 1) 0) (omega arith)))

  emptied_zero :
      (c now : ℕ) (wheels : Cells K)
      → now ≡ c + 1
      → AllPlaced (stepped c) wheels
      → AllPlaced (λ level. now) (set_cell wheels 0 (slot_for now 0) [])
  emptied_zero c now wheels e wf = rw e (
      emptied (stepped c) (λ level. c + 1) wheels 0 (slot_for (c + 1) 0) wf
        (λ level ne. ground arith) (λ slot item ne p. slot_missed c 0 slot item (omega arith) ne p))

  -- From a wheel whose levels stand at the clock, a step fires exactly items that expire at the
  -- new instant, and leaves such a wheel.
  pub tick-IsWheel :
      (w : HierarchicalTimeWheel K)
      → IsWheel w
      → IsWheel (tick w).0
        × ((tick w).0.current ≡ w.current + 1)
        × All (λ item. item.expire_at ≡ w.current + 1) (tick w).1
  unfolding tick
  tick-IsWheel w wf =
      let moved : HierarchicalTimeWheel K = record w { current = w.current + 1 } in
      let start : AllPlaced (mixed w.current 1) w.wheels = λ level slot hl.
        let e : mixed w.current 1 level ≡ w.current = ground arith in rw e (wf level slot hl) in
      let (wf', now) = cascade_levels-AllPlaced 7 w.current 1 moved refl (omega arith) refl start in
      let w' : HierarchicalTimeWheel K = cascade_levels 7 1 moved in
      let due = slot_due w.current w'.current w'.wheels now wf' in
      let slot : ℕ = slot_for w'.current 0 in
      let all_due =
        drain_due (record w' { wheels = set_cell w'.wheels 0 slot [] }) (w'.wheels 0 slot)
          (All-map (λ item. item.expire_at ≡ w'.current) (λ item. item.expire_at ≤ w'.current) _
            (λ item e. omega arith) due) in
      rw all_due (
        emptied_zero w.current w'.current w'.wheels now wf',
        now,
        All-map (λ item. item.expire_at ≡ w'.current) (λ item. item.expire_at ≡ w.current + 1) _
            (λ item e. e ∙ now) due,
      )
