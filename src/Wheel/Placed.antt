-- ===== src/Wheel/Placed.antt =====
-- Where the items of the wheel stand. `IsPlaced c level slot item`: the slot is the item's, and
-- counted in slots of its level the item lies 1 to 256 ahead of the clock `c`.
use cache_cat.Prelude.{
  ℕ, ◌+◌, ◌-◌, ◌/◌, ◌^◌, ◌<◌, ◌≤◌, ◌≡◌, refl, true, false, ◌&&◌, List, [], ◌∷◌, arith, ltb, leb,
  ◌==◌, if◌then◌else◌, All, All-append, Bool-cases, inl, inr, lt→ltb, sym, subst,
}
use cache_cat.Wheel.{
  TimerItem, Cells, HierarchicalTimeWheel, slot_for, level_for_delta, set_cell, push, insert,
}
use cache_cat.Wheel.Numbers.{
  width, width_pos, level-lt, level-width, width-level, far_apart, not_too_far, level-lt_of_width,
}

pub record IsPlaced {K : Type 0} (c level slot : ℕ) (item : TimerItem K) : Type 0 where
  pub at_slot : slot_for item.expire_at level ≡ slot
  pub ahead : c / width level < item.expire_at / width level
  pub near : item.expire_at / width level ≤ c / width level + 256
  pub fits : item.expire_at < 2 ^ 64

module _ {K : Type 0} where
  -- While the clock steps, the levels stand at different instants: `clock` says at which.
  abbrev pub AllPlaced : (ℕ → ℕ) → Cells K → Type 0
  AllPlaced clock wheels =
      (level slot : ℕ) → level < 8 → All (IsPlaced (clock level) level slot) (wheels level slot)

  pub AllPlaced-set_cell :
      (clock : ℕ → ℕ) (wheels : Cells K) (l s : ℕ) (items : List (TimerItem K))
      → AllPlaced clock wheels
      → All (IsPlaced (clock l) l s) items
      → AllPlaced clock (set_cell wheels l s items)
  unfolding set_cell
  AllPlaced-set_cell clock wheels l s items h new level slot hl =
      elim (Bool-cases ((level == l) && (slot == s))) [
        | inl here ↦
            let el : level ≡ l = ground arith in
            let es : slot ≡ s = ground arith in rw here (rw (el, es) new)
        | inr there ↦ rw there (h level slot hl)
      ]

  -- The item that `insert` files ahead of the clock.
  far_item :
      (c : ℕ) (item : TimerItem K)
      → c < item.expire_at
      → item.expire_at < 2 ^ 64
      → IsPlaced c
          (level_for_delta (item.expire_at - c))
          (slot_for item.expire_at (level_for_delta (item.expire_at - c)))
          item
  far_item c item h fits = record {
    at_slot = refl;
    ahead = elim (width-level (item.expire_at - c)) [
      | inl z ↦ rw z (omega arith)
      | inr far ↦ far_apart item.expire_at c _ (width_pos _) (omega arith)
    ];
    near =
        not_too_far item.expire_at c _ (width_pos _)
          (omega (arith, level-width (item.expire_at - c) (omega arith)));
    fits = fits;
  }

  -- An item that is due now, filed in the slot of level 0 that the next step empties.
  due_item :
      (c : ℕ) (item : TimerItem K)
      → item.expire_at ≡ c + 1
      → item.expire_at < 2 ^ 64
      → IsPlaced c 0 (slot_for (c + 1) 0) item
  due_item c item e fits = record {
    at_slot = rw e;
    ahead = rw e (omega arith);
    near = rw e (omega arith);
    fits = fits;
  }

  pub AllPlaced-push :
      (clock : ℕ → ℕ) (wheels : Cells K) (l s : ℕ) (item : TimerItem K)
      → l < 8
      → AllPlaced clock wheels
      → IsPlaced (clock l) l s item
      → AllPlaced clock (push wheels l s item)
  unfolding push
  AllPlaced-push clock wheels l s item hl h new =
      AllPlaced-set_cell clock wheels l s _ h
        (All-append (IsPlaced (clock l) l s) (wheels l s) (item ∷ []) (h l s hl) (new, tt))

  -- Between two steps: every level stands at the clock.
  abbrev pub IsWheel : HierarchicalTimeWheel K → Type 0
  IsWheel w = AllPlaced (λ level. w.current) w.wheels

  -- An item ahead of the clock is filed where the steps will find it.
  pub insert-IsWheel :
      (w : HierarchicalTimeWheel K) (item : TimerItem K)
      → w.current < item.expire_at
      → item.expire_at < 2 ^ 64
      → IsWheel w
      → IsWheel (insert w item)
  unfolding insert
  insert-IsWheel w item h fits wf =
      let n : leb item.expire_at w.current ≡ false = ground arith in
      rw n (
        AllPlaced-push (λ level. w.current) w.wheels _ _ item
          (level-lt (item.expire_at - w.current)) wf (far_item w.current item h fits))

  near_item :
      (c : ℕ) (item : TimerItem K)
      → c + 1 < item.expire_at
      → item.expire_at ≤ c + 256
      → item.expire_at < 2 ^ 64
      → IsPlaced c 0 (slot_for item.expire_at 0) item
  near_item c item lo hi fits = record {
    at_slot = refl;
    ahead = omega arith;
    near = omega arith;
    fits = fits;
  }

-- While the levels below `j` have been cascaded for the instant `c + 1`, the rest stands at `c`;
-- so does level 0, whose slot for `c + 1` is emptied last.
abbrev pub mixed : ℕ → ℕ → ℕ → ℕ
mixed c j level = if leb 1 level && ltb level j then c + 1 else c

module _ {K : Type 0} where
  mixed_item :
      (c j now : ℕ) (item : TimerItem K)
      → 0 < j
      → now ≡ c + 1
      → now < item.expire_at
      → item.expire_at < now + width j
      → item.expire_at < 2 ^ 64
      → IsPlaced
          (mixed c j (level_for_delta (item.expire_at - now)))
          (level_for_delta (item.expire_at - now))
          (slot_for item.expire_at (level_for_delta (item.expire_at - now)))
          item
  mixed_item c j now item hj e lo hi fits =
      elim (Bool-cases (leb 1 (level_for_delta (item.expire_at - now)))) [
        | inl high ↦
            let low : ltb (level_for_delta (item.expire_at - now)) j ≡ true =
              lt→ltb _ _ (level-lt_of_width (item.expire_at - now) j hj (omega arith)) in
            rw (high, low, ← e) (far_item now item lo fits)
        | inr level0 ↦
            let z : level_for_delta (item.expire_at - now) ≡ 0 = ground arith in
            rw z (
              near_item c item (omega arith)
                (omega (arith, rw z at (level-width (item.expire_at - now) (omega arith)))) fits)
      ]

  pub current-insert :
      (w : HierarchicalTimeWheel K) (item : TimerItem K) → (insert w item).current ≡ w.current
  unfolding insert
  current-insert w item = ground arith

  pub insert-AllPlaced :
      (c j : ℕ) (w : HierarchicalTimeWheel K) (item : TimerItem K)
      → 0 < j
      → w.current ≡ c + 1
      → c + 1 ≤ item.expire_at
      → item.expire_at < c + 1 + width j
      → item.expire_at < 2 ^ 64
      → AllPlaced (mixed c j) w.wheels
      → AllPlaced (mixed c j) (insert w item).wheels
  unfolding insert
  insert-AllPlaced c j w item hj now lo hi fits wf =
      elim (Bool-cases (leb item.expire_at w.current)) [
        | inl due ↦ rw due (
            AllPlaced-push (mixed c j) w.wheels 0 _ item (omega arith) wf (
              subst (λ n. IsPlaced c 0 (slot_for n 0) item) (sym now)
                (due_item c item (ground arith) fits)))
        | inr far ↦ rw far (
            AllPlaced-push (mixed c j) w.wheels _ _ item (level-lt (item.expire_at - w.current)) wf
              (mixed_item c j w.current item hj now (ground arith) (omega arith) fits))
      ]
