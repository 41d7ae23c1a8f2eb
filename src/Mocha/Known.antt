-- ===== src/Mocha/Known.antt =====
-- What the calls of the worker do to the instants that the table holds: each stays scheduled, in a
-- command or in the wheel, as long as the entry that it belongs to is in the table.
use cache_cat.Prelude.{
  ℕ, ◌+◌, ◌^◌, ◌<◌, ◌≤◌, ◌≡◌, ◌∙◌, Bool, true, ◌&&◌, some, List, [], ◌∷◌, ◌++◌, leb, ◌==◌, Eq, same,
  same_iff, arith, Bool-cases, inl, inr, count, count-nil, count-cons, bit, All,
}
use cache_cat.Map.{HashMap}
use cache_cat.Wheel.{TimerItem, advance_to}
use cache_cat.Wheel.Placed.{IsWheel, insert-IsWheel, current-insert}
use cache_cat.Wheel.Tally.{tally, tally-insert, tally-advance_to}
use cache_cat.Wheel.Advance.{advance_to-IsWheel}
use cache_cat.Mocha.{
  Entry, Mocha, ExpireCommand, schedule, schedule_batch, advance, advance_and_wait,
  has_expired_by_local_clock, remove_expired_if_current_from,
}
use cache_cat.Mocha.Worker.{expire_all, advance_wheel, schedule_item, schedule_items}

module _ {K : Type 0} ⦃e : Eq K⦄ where
  abbrev pub is_item : K → ℕ → TimerItem K → Bool
  is_item k at item = same item.key k && (item.expire_at == at)

  -- How often the sent commands schedule a key for an instant.
  abbrev pub asked : K → ℕ → ExpireCommand K → ℕ
  asked k at (schedule j expire_at) = bit (same j k && (expire_at == at))
  asked k at (schedule_batch items) = count (is_item k at) items
  asked k at advance = 0
  asked k at advance_and_wait = 0
  asked k at (has_expired_by_local_clock now) = 0

  abbrev pub waiting : K → ℕ → List (ExpireCommand K) → ℕ
  waiting k at [] = 0
  waiting k at (cmd ∷ cmds) = asked k at cmd + waiting k at cmds

  -- The instants of a command are u64.
  abbrev pub Fits : ExpireCommand K → Type 0
  Fits (schedule j expire_at) = expire_at < 2 ^ 64
  Fits (schedule_batch items) = All (λ item. item.expire_at < 2 ^ 64) items
  Fits advance = Unit
  Fits advance_and_wait = Unit
  Fits (has_expired_by_local_clock now) = Unit

  pub waiting-append :
      (k : K) (at : ℕ) (xs ys : List (ExpireCommand K))
      → waiting k at (xs ++ ys) ≡ waiting k at xs + waiting k at ys
  waiting-append k at [] ys = omega arith
  waiting-append k at (x ∷ xs) ys = omega (arith, waiting-append k at xs ys)

module _ {K V : Type 0} ⦃e : Eq K⦄ (h : HashMap K (Entry V)) where
  -- The key is to expire at the instant, in the table.
  abbrev pub Holds : h.Map → K → ℕ → Type 0
  Holds map k at = (entry : Entry V) × (h.get map k ≡ some entry) × (entry.expire_at ≡ some at)

  -- Deleting only takes away.
  pub Holds-remove :
      (map : h.Map) (now : ℕ) (j k : K) (a at : ℕ)
      → Holds (remove_expired_if_current_from h map now j a).1 k at
      → Holds map k at
  unfolding remove_expired_if_current_from
  Holds-remove map now j k a at (entry, p, q) = (entry, ground (arith, p, h.get-delete map j k), q)

  -- An item that is due takes its key out of the table, if the entry is still the one it is for.
  removed :
      (map : h.Map) (now : ℕ) (item : TimerItem K) (k : K) (at : ℕ)
      → item.expire_at ≤ now
      → is_item k at item ≡ true
      → ¬ (Holds (remove_expired_if_current_from h map now item.key item.expire_at).1 k at)
  unfolding remove_expired_if_current_from
  removed map now item k at due is (entry, p, q) =
      ground (arith, p, same_iff item.key k, h.get-delete map item.key k)

  expire_all-Holds :
      (items : List (TimerItem K)) (map : h.Map) (now : ℕ) (k : K) (at : ℕ)
      → All (λ item. item.expire_at ≤ now) items
      → Holds (expire_all h map now items) k at
      → Holds map k at × (count (is_item k at) items ≡ 0)
  unfolding expire_all
  expire_all-Holds [] map now k at due held = (held, count-nil (is_item k at))
  expire_all-Holds (item ∷ items) map now k at due held =
      let (before, none_left) = expire_all-Holds items _ now k at due.1 held in
      elim (Bool-cases (is_item k at item)) [
        | inl is ↦ absurd (removed map now item k at due.0 is before)
        | inr other ↦ (
          Holds-remove map now item.key k item.expire_at at before,
          count-cons (is_item k at) item items ∙ ground (arith, none_left),
        )
      ]

  -- Every instant in the table is known: `n` counts the commands, the rest is in the wheel.
  abbrev pub Known : Mocha h → (K → ℕ → ℕ) → Type 0
  Known m n = (k : K) (at : ℕ) → Holds m.map k at → 0 < n k at + tally (is_item k at) m.wheel.wheels

  pub advance_wheel-Known :
      (m : Mocha h) (n : K → ℕ → ℕ)
      → IsWheel m.wheel
      → m.wheel.current ≤ m.logic_clock
      → Known m n
      → Known (advance_wheel h m) n
  unfolding advance_wheel
  advance_wheel-Known m n wf behind known k at held =
      let (wf', now, due) = advance_to-IsWheel m.wheel m.logic_clock behind wf in
      let (before, none_left) =
        expire_all-Holds (advance_to m.wheel m.logic_clock).1 m.map m.logic_clock k at due held in
      omega
        (arith, known k at before, none_left, tally-advance_to (is_item k at) m.wheel m.logic_clock)

  pub schedule_item-Known :
      (m : Mocha h) (item : TimerItem K) (n : K → ℕ → ℕ)
      → Known m (λ k at. bit (is_item k at item) + n k at)
      → Known (schedule_item h m item) n
  unfolding schedule_item
  schedule_item-Known m item n known k at = elim (Bool-cases (leb item.expire_at m.logic_clock)) [
    | inl due ↦
        rw (due, schedule_item)
          (λ held.
            let before = Holds-remove m.map m.logic_clock item.key k item.expire_at at held in
            elim (Bool-cases (is_item k at item)) [
              | inl is ↦ absurd (removed m.map m.logic_clock item k at (ground arith) is held)
              | inr other ↦ let kn = known k at before in ground (arith, kn, other)
            ])
    | inr later ↦
        rw (later, schedule_item)
          (λ held. omega (arith, known k at held, tally-insert (is_item k at) m.wheel item))
  ]

  abbrev pub FitsItem : TimerItem K → Type 0
  FitsItem item = item.expire_at < 2 ^ 64

  -- The worker's wheel is in order, and it stands at the clock.
  abbrev pub InStep : Mocha h → Type 0
  InStep m = IsWheel m.wheel × (m.wheel.current ≡ m.logic_clock)

  pub advance_wheel-InStep :
      (m : Mocha h) → IsWheel m.wheel → m.wheel.current ≤ m.logic_clock → InStep (advance_wheel h m)
  unfolding advance_wheel
  advance_wheel-InStep m wf behind =
      let (wf', now, due) = advance_to-IsWheel m.wheel m.logic_clock behind wf in (wf', now)

  pub schedule_item-InStep :
      (m : Mocha h) (item : TimerItem K)
      → FitsItem item
      → InStep m
      → InStep (schedule_item h m item)
  unfolding schedule_item
  schedule_item-InStep m item fits (wf, now) =
      elim (Bool-cases (leb item.expire_at m.logic_clock)) [
        | inl due ↦ rw (due, schedule_item) (wf, now)
        | inr later ↦
            rw (later, schedule_item)
              (
                insert-IsWheel m.wheel item (ground arith) fits wf,
                current-insert m.wheel item ∙ now,
              )
      ]

  pub schedule_items-Known :
      (items : List (TimerItem K)) (m : Mocha h) (n : K → ℕ → ℕ)
      → All FitsItem items
      → InStep m
      → Known m (λ k at. count (is_item k at) items + n k at)
      → InStep (schedule_items h m items) × Known (schedule_items h m items) n
  unfolding schedule_items
  schedule_items-Known [] m n fits step known =
      (step, λ k at held. omega (arith, known k at held, count-nil (is_item k at)))
  schedule_items-Known (item ∷ items) m n fits step known =
      schedule_items-Known items (schedule_item h m item) n fits.1
        (schedule_item-InStep m item fits.0 step)
        (schedule_item-Known m item (λ k at. count (is_item k at) items + n k at)
          (λ k at held. omega (arith, known k at held, count-cons (is_item k at) item items)))
