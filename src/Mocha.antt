-- ===== src/Mocha.antt =====
-- cache_cat/src/mocha/mod.rs: the map with expiry. The table is a `HashMap` of Map.antt; `queue`
-- is the channel `expire_tx`, the commands sent and not yet received by the worker; `wheel` is the
-- worker's own. Every function is one call that runs to its end: an interleaving of clients and
-- worker is a sequence of such calls. A function that returns a value returns the state beside it.
pub mod Worker
pub mod View
pub mod Remove
pub mod Quiet
pub mod Known
pub mod Schedule
pub mod Run
pub mod Scan
use cache_cat.Prelude.{
  ℕ, ◌+◌, ◌-◌, ◌^◌, Bool, true, false, ◌&&◌, Option, none, some, List, [], ◌∷◌, ◌++◌, leb, ◌==◌,
  if◌then◌else◌, min, Eq, length,
}
use cache_cat.Map.{HashMap}
use cache_cat.Wheel
use cache_cat.Wheel.{TimerItem, HierarchicalTimeWheel}

pub data ExpirePolicy : Type 0 where
  persistent : ExpirePolicy
  absolute : ℕ → ExpirePolicy
  ttl : ℕ → ExpirePolicy

pub record EntrySnapshot (V : Type 0) : Type 0 where
  pub value : V
  pub expire_at : Option ℕ

unfoldable pub get_expire_policy : {V : Type 0} → EntrySnapshot V → ExpirePolicy
get_expire_policy s = elim s.expire_at [ none ↦ persistent | some v ↦ absolute v ]

pub record Entry (V : Type 0) : Type 0 where
  pub value : V
  pub expire_at : Option ℕ

abbrev pub snapshot : {V : Type 0} → Entry V → EntrySnapshot V
snapshot entry = record { value = entry.value; expire_at = entry.expire_at }

pub data MochaOperation (V : Type 0) : Type 0 where
  insert : V → ExpirePolicy → MochaOperation V
  remove : MochaOperation V
  abort : MochaOperation V

-- The sender of an answer (`done`) is not kept: `handle_expire_command` returns the answer.
pub data ExpireCommand (K : Type 0) : Type 0 where
  schedule : K → ℕ → ExpireCommand K
  schedule_batch : List (TimerItem K) → ExpireCommand K
  advance : ExpireCommand K
  advance_and_wait : ExpireCommand K
  has_expired_by_local_clock : ℕ → ExpireCommand K

-- `entry.expire_at.is_some_and(|at| now >= at)`
abbrev pub past : Option ℕ → ℕ → Bool
past none now = false
past (some at) now = leb at now

-- `entry.expire_at == Some(expire_at)`
abbrev pub is_at : Option ℕ → ℕ → Bool
is_at none expire_at = false
is_at (some at) expire_at = at == expire_at

-- `saturating_add` and `saturating_sub` of u64.
abbrev pub saturating_add : ℕ → ℕ → ℕ
saturating_add a b = min (a + b) (2 ^ 64 - 1)

pub record Mocha {K V : Type 0} ⦃e : Eq K⦄ (h : HashMap K (Entry V)) : Type 0 where
  pub map : h.Map
  pub logic_clock : ℕ
  pub queue : List (ExpireCommand K)
  pub wheel : HierarchicalTimeWheel K

module _ {K V : Type 0} ⦃e : Eq K⦄ (h : HashMap K (Entry V)) where
  unfoldable pub new : ℕ → Mocha h
  new logic_clock = record {
    map = h.empty;
    logic_clock = logic_clock;
    queue = [];
    wheel = Wheel.new logic_clock;
  }

  unfoldable pub resolve_expire_at : Mocha h → ExpirePolicy → Option ℕ
  resolve_expire_at m persistent = none
  resolve_expire_at m (absolute at) = some at
  resolve_expire_at m (ttl t) = some (saturating_add m.logic_clock t)

  unfoldable pub make_entry : Mocha h → V → ExpirePolicy → Entry V
  unfolding resolve_expire_at
  make_entry m value policy = record { value = value; expire_at = resolve_expire_at m policy }

  unfoldable pub enqueue_expiry : Mocha h → K → Option ℕ → Mocha h
  enqueue_expiry m key none = m
  enqueue_expiry m key (some expire_at) = record m {
    queue = m.queue ++ (schedule key expire_at ∷ []);
  }

  unfoldable pub insert_entry : Mocha h → K → V → ExpirePolicy → EntrySnapshot V × Mocha h
  unfolding make_entry enqueue_expiry
  insert_entry m key value policy =
      let new_entry = make_entry m value policy in
      (
        snapshot new_entry,
        enqueue_expiry (record m { map = h.put m.map key new_entry }) key new_entry.expire_at,
      )

  -- `compute` with the guard `entry.expire_at == Some(expire_at) && now >= expire_at`.
  unfoldable pub remove_expired_if_current_from : h.Map → ℕ → K → ℕ → Bool × h.Map
  remove_expired_if_current_from map now key expire_at = elim (h.get map key) [
    | none ↦ (false, map)
    | some entry ↦
        if is_at entry.expire_at expire_at && leb expire_at now
        then (true, h.delete map key)
        else (false, map)
  ]

  unfoldable pub has_expired_if_current_from : h.Map → K → ℕ → Bool
  has_expired_if_current_from map key expire_at = elim (h.get map key) [
    | none ↦ false
    | some entry ↦ is_at entry.expire_at expire_at
  ]

  unfoldable pub insert_snapshot : Mocha h → K → EntrySnapshot V → EntrySnapshot V × Mocha h
  unfolding insert_entry
  insert_snapshot m key s =
      insert_entry m key s.value (elim s.expire_at [ none ↦ persistent | some at ↦ absolute at ])

  -- An entry that has expired is removed on the way, by the same `compute` as the worker's.
  unfoldable pub get_entry : Mocha h → K → Option (EntrySnapshot V) × Mocha h
  unfolding remove_expired_if_current_from
  get_entry m key = elim (h.get m.map key) [
    | none ↦ (none, m)
    | some entry ↦ elim entry.expire_at [
      | none ↦ (some (snapshot entry), m)
      | some at ↦
          if leb at m.logic_clock
          then (
            none,
            record m { map = (remove_expired_if_current_from m.map m.logic_clock key at).1 },
          )
          else (some (snapshot entry), m)
    ]
  ]

  unfoldable pub get_with_read_clock : Mocha h → K → Option ℕ → Option (EntrySnapshot V) × Mocha h
  unfolding get_entry
  get_with_read_clock m key read_clock =
      let (found, m') = get_entry m key in
      (
        elim found [
          | none ↦ none
          | some my_value ↦ elim my_value.expire_at [
            | none ↦ some my_value
            | some inner ↦ elim read_clock [
              | none ↦ some my_value
              | some time ↦ if leb inner time then none else some my_value
            ]
          ]
        ],
        m',
      )

  unfoldable pub ttl_remaining : Mocha h → K → Option ℕ × Mocha h
  unfolding get_entry
  ttl_remaining m key =
      let (found, m') = get_entry m key in
      (
        elim found [
          | none ↦ none
          | some entry ↦ elim entry.expire_at [ none ↦ none | some at ↦ some (at - m.logic_clock) ]
        ],
        m',
      )

  unfoldable pub set_expire_policy : Mocha h → K → ExpirePolicy → Option (EntrySnapshot V) × Mocha h
  unfolding make_entry enqueue_expiry
  set_expire_policy m key policy = elim (h.get m.map key) [
    | none ↦ (none, m)
    | some entry ↦
        let updated = make_entry m entry.value policy in
        if past entry.expire_at m.logic_clock
        then (none, record m { map = h.delete m.map key })
        else (
          some (snapshot updated),
          enqueue_expiry (record m { map = h.put m.map key updated }) key updated.expire_at,
        )
  ]

  unfoldable pub remove_entry : Mocha h → K → Option (EntrySnapshot V) × Mocha h
  remove_entry m key = elim (h.get m.map key) [
    | none ↦ (none, m)
    | some removed ↦ (
      if past removed.expire_at m.logic_clock then none else some (snapshot removed),
      record m { map = h.delete m.map key },
    )
  ]

  unfoldable pub clear : Mocha h → Mocha h
  clear m = record m { map = h.empty }

  unfoldable pub len : Mocha h → ℕ
  len m = length (h.entries m.map)

  -- What `unlink` and `unlink_batch` do to one key: the entry expires at `now`.
  unfoldable pub expire_now : h.Map → ℕ → K → Bool × h.Map
  expire_now map now key = elim (h.get map key) [
    | none ↦ (false, map)
    | some entry ↦
        if past entry.expire_at now
        then (false, map)
        else (true, h.put map key (record entry { expire_at = some now }))
  ]

  unfoldable pub unlink : Mocha h → K → Bool × Mocha h
  unfolding expire_now enqueue_expiry
  unlink m key =
      let (updated, map) = expire_now m.map m.logic_clock key in
      if updated
      then (true, enqueue_expiry (record m { map = map }) key (some m.logic_clock))
      else (false, m)

  -- The loop over the keys: the items to schedule, and the table.
  unfoldable pub unlink_keys : Mocha h → List K → List (TimerItem K) × Mocha h
  unfolding expire_now
  unlink_keys m [] = ([], m)
  unlink_keys m (key ∷ keys) =
      let (updated, map) = expire_now m.map m.logic_clock key in
      let (items, m') = unlink_keys (record m { map = map }) keys in
      (if updated then record { key = key; expire_at = m.logic_clock } ∷ items else items, m')

  unfoldable pub unlink_batch : Mocha h → List K → ℕ × Mocha h
  unfolding unlink_keys
  unlink_batch m keys =
      let (items, m') = unlink_keys m keys in
      (
        length items,
        elim items [
          | [] ↦ m'
          | item ∷ more ↦ record m' { queue = m'.queue ++ (schedule_batch (item ∷ more) ∷ []) }
        ],
      )
