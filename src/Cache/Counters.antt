-- ===== src/Cache/Counters.antt =====
-- The counters INCR, INCRBY, DECR and DECRBY against a description of what a counter is.
use cache_cat.Prelude.{
  ℕ, ◌-◌, ◌^◌, ◌<◌, ◌≡◌, refl, Option, none, some, Bytes, bytes_eq, same, same_self, if◌then◌else◌,
  arith, Option-cases, inl, inr,
}
use cache_cat.Value.{Value, ValueObject, MyValue}
use cache_cat.Value.Number.{parse_i64}
use cache_cat.Mocha.{Mocha, EntrySnapshot, insert, make_entry, resolve_expire_at, persistent}
use cache_cat.Mocha.View.{view}
use cache_cat.Cache.{Store, plain, new_value}
use cache_cat.Cache.Compute.{ComputeCommand, compute}
use cache_cat.Cache.Seen.{changed, compute_lem, changed-kept}
use cache_cat.Cache.Strings.{count_up, incr_req, incr_by_req, decr_req, decr_by_req}
use cache_cat.Value.Signed.{add_i64, sub_i64}

-- The number that a value stands for, if it stands for one.
abbrev pub number_of : ValueObject → Option ℕ
number_of (ValueObject.int n) = some n
number_of (ValueObject.string s) = parse_i64 s
number_of (ValueObject.list xs) = none
number_of (ValueObject.hash xs) = none
number_of (ValueObject.z_set s) = none
number_of (ValueObject.set xs) = none

-- The entry that a counter leaves: a new one without expiry, the number that `step` gives with the
-- expiry as it was, or the entry as it was.
abbrev pub counted : ℕ → (ℕ → ℕ) → Option (EntrySnapshot MyValue) → Option (EntrySnapshot MyValue)
counted start step none =
    some (record { value = new_value (ValueObject.int start); expire_at = none })
counted start step (some e) = elim (number_of e.value.data_) [
  | none ↦ some e
  | some n ↦ some (record { value = new_value (ValueObject.int (step n)); expire_at = e.expire_at })
]

module _ (h : Store) where
  count-found :
      (m : Mocha h) (k : Bytes) (step : ℕ → ℕ) (e : EntrySnapshot MyValue) (d : ValueObject)
      (start : ℕ)
      → view h m k ≡ some e
      → e.value.data_ ≡ d
      → changed h m k (count_up step e).0 ≡ counted start step (some e)
  unfolding count_up
  count-found m k step e (ValueObject.int n) start p q = rw q (changed-kept h m k _ e p)
  count-found m k step e (ValueObject.string s) start p q = elim (Option-cases (parse_i64 s)) [
    | inl bad ↦ simp (q, bad, count_up, counted, number_of) p
    | inr (n, good) ↦ simp (q, good, count_up, counted, number_of) (changed-kept h m k _ e p)
  ]
  count-found m k step e (ValueObject.list xs) start p q = simp (q, count_up, counted, number_of) p
  count-found m k step e (ValueObject.hash xs) start p q = simp (q, count_up, counted, number_of) p
  count-found m k step e (ValueObject.z_set s) start p q = simp (q, count_up, counted, number_of) p
  count-found m k step e (ValueObject.set xs) start p q = simp (q, count_up, counted, number_of) p

  counts :
      (m : Mocha h) (cmd : ComputeCommand) (start : ℕ) (step : ℕ → ℕ) (now : ℕ) (j : Bytes)
      → ((e : EntrySnapshot MyValue) → cmd.mutate e now ≡ count_up step e)
      → cmd.init ≡ (insert (new_value (ValueObject.int start)) persistent, Value.integer start)
      → view h (compute h m cmd now plain).1.0 j
        ≡ (if same cmd.key j then counted start step (view h m cmd.key) else view h m j)
  unfolding make_entry resolve_expire_at
  counts m cmd start step now j f g = elim (Option-cases (view h m cmd.key)) [
    | inl gone ↦ ground (arith, rw (gone, g) at (compute_lem h m cmd now j), gone)
    | inr (e, there) ↦ ground (
      arith,
      rw (there, f e) at (compute_lem h m cmd now j),
      there,
      count-found m cmd.key step e e.value.data_ start there refl,
    )
  ]

  -- Each of the four counters leaves of its key what the description says, from the entry that is
  -- seen, and of every other key what was seen before.
  pub counters_lem :
      (m : Mocha h) (k j : Bytes) (a now : ℕ)
      → (view h (compute h m (incr_req k) now plain).1.0 j
          ≡ (if same k j then counted 1 (λ n. add_i64 n 1) (view h m k) else view h m j))
        × (view h (compute h m (incr_by_req k a) now plain).1.0 j
            ≡ (if same k j then counted a (λ n. add_i64 n a) (view h m k) else view h m j))
        × (view h (compute h m (decr_req k) now plain).1.0 j ≡ (
            if same k j then counted (2 ^ 64 - 1) (λ n. sub_i64 n 1) (view h m k) else view h m j))
        × (view h (compute h m (decr_by_req k a) now plain).1.0 j ≡ (
            if same k j then counted (sub_i64 0 a) (λ n. sub_i64 n a) (view h m k) else view h m j))
  unfolding incr_req incr_by_req decr_req decr_by_req
  counters_lem m k j a now = (
    counts m (incr_req k) 1 (λ n. add_i64 n 1) now j (λ e. refl) refl,
    counts m (incr_by_req k a) a (λ n. add_i64 n a) now j (λ e. refl) refl,
    counts m (decr_req k) (2 ^ 64 - 1) (λ n. sub_i64 n 1) now j (λ e. refl) refl,
    counts m (decr_by_req k a) (sub_i64 0 a) (λ n. sub_i64 n a) now j (λ e. refl) refl,
  )

  sub-add_i64 : (n a : ℕ) → n < 2 ^ 64 → a < 2 ^ 64 → sub_i64 (add_i64 n a) a ≡ n
  sub-add_i64 n a p q = omega arith

  -- DECRBY undoes INCRBY: on a key that is seen with a number, the key is seen with that number and
  -- its expiry again, also where the sum has wrapped around.
  pub decr_by-incr_by :
      (m : Mocha h) (k : Bytes) (a n now later : ℕ) (e : EntrySnapshot MyValue)
      → view h m k ≡ some e
      → number_of e.value.data_ ≡ some n
      → n < 2 ^ 64
      → a < 2 ^ 64
      → view h
          (compute h
            (compute h m (incr_by_req k a) now plain).1.0
            (decr_by_req k a)
            later
            plain).1.0
          k
        ≡ some (record { value = new_value (ValueObject.int n); expire_at = e.expire_at })
  decr_by-incr_by m k a n now later e there number p q =
      let m' = (compute h m (incr_by_req k a) now plain).1.0 in
      let up : view h m' k
          ≡ some (record {
            value = new_value (ValueObject.int (add_i64 n a));
            expire_at = e.expire_at;
          }) =
        rw (same_self k, there, number, counted) at ((counters_lem m k k a now).1) in
      rw (same_self k, up, sub-add_i64 n a p q, counted) at ((counters_lem m' k k a later).3)
