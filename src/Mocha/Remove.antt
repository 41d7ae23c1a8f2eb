-- ===== src/Mocha/Remove.antt =====
-- The two ways to delete a key, `remove` at once and `unlink` by expiring the entry now, and a
-- change of the expiry, as a client sees them.
use cache_cat.Prelude.{
  ℕ, ◌+◌, ◌≡◌, refl, Bool, true, false, Option, none, some, List, [], ◌∷◌, if◌then◌else◌, Eq, same,
  same_iff, arith, length, bit, Option-cases, count, ap, sym, ◌∙◌, inl, inr,
}
use cache_cat.Map.{HashMap, held}
use cache_cat.Mocha.{
  Entry, EntrySnapshot, ExpirePolicy, Mocha, past, make_entry, enqueue_expiry, resolve_expire_at,
  set_expire_policy, remove_entry, unlink, expire_now, unlink_keys, unlink_batch,
}
use cache_cat.Mocha.View.{live, view}

abbrev pub seen {ℓ} : {A : Type ℓ} → Option A → Bool
seen none = false
seen (some a) = true

module _ {K V : Type 0} ⦃e : Eq K⦄ (h : HashMap K (Entry V)) where
  -- `remove_entry` returns what was seen of the key; then the key is not seen, and every other
  -- key is seen as before.
  pub remove_entry_lem :
      (m : Mocha h) (k j : K)
      → ((remove_entry h m k).0 ≡ view h m k)
        × (view h (remove_entry h m k).1 j ≡ (if same k j then none else view h m j))
  unfolding remove_entry
  remove_entry_lem m k j = ground (arith, same_iff k j, h.get-delete m.map k j)

  expire_now_lem :
      (m : Mocha h) (k j : K)
      → ((expire_now h m.map m.logic_clock k).0 ≡ seen (view h m k))
        × (live m.logic_clock (h.get (expire_now h m.map m.logic_clock k).1 j)
            ≡ (if same k j then none else view h m j))
  unfolding expire_now
  expire_now_lem m k j = elim (Option-cases (h.get m.map k)) [
    | inl gone ↦ ground (arith, gone, same_iff k j)
    | inr (entry, here) ↦ ground (
      arith,
      here,
      same_iff k j,
      h.get-put m.map k j (record entry { expire_at = some m.logic_clock }),
    )
  ]

  -- `unlink` says whether the key was seen; then the key is not seen, and every other key is seen
  -- as before.
  pub unlink_lem :
      (m : Mocha h) (k j : K)
      → ((unlink h m k).0 ≡ seen (view h m k))
        × (view h (unlink h m k).1 j ≡ (if same k j then none else view h m j))
  unfolding unlink enqueue_expiry
  unlink_lem m k j = ground (arith, expire_now_lem m k j, same_iff k j)

  unlink-held : (m : Mocha h) (k j : K) → held (h.get (unlink h m k).1.map j) ≡ held (h.get m.map j)
  unfolding unlink expire_now enqueue_expiry
  unlink-held m k j = elim (Option-cases (h.get m.map k)) [
    | inl gone ↦ ground (arith, gone)
    | inr (entry, here) ↦ ground (
      arith,
      here,
      same_iff k j,
      h.get-put m.map k j (record entry { expire_at = some m.logic_clock }),
    )
  ]

  remove_entry-held : (m : Mocha h) (k : K) → held (h.get (remove_entry h m k).1.map k) ≡ 0
  unfolding remove_entry
  remove_entry-held m k = elim (Option-cases (h.get m.map k)) [
    | inl gone ↦ ground (arith, gone)
    | inr (entry, here) ↦ ground (arith, here, same_iff k k, h.get-delete m.map k k)
  ]

  -- The answers of `unlink` and `remove_entry` agree, and so does what is seen of every key after.
  -- The table does not agree: `remove_entry` takes the entry of the key out, and `unlink` leaves the
  -- table as many entries of each key as before, so that what counts entries still counts the key.
  pub unlink-remove :
      (m : Mocha h) (k j : K)
      → ((unlink h m k).0 ≡ seen (remove_entry h m k).0)
        × (view h (unlink h m k).1 j ≡ view h (remove_entry h m k).1 j)
        × (count (λ p. same p.0 j) (h.entries (unlink h m k).1.map)
            ≡ count (λ p. same p.0 j) (h.entries m.map))
        × (count (λ p. same p.0 k) (h.entries (remove_entry h m k).1.map) ≡ 0)
  unlink-remove m k j = (
    (unlink_lem m k j).0 ∙ ap seen (sym (remove_entry_lem m k j).0),
    (unlink_lem m k j).1 ∙ sym (remove_entry_lem m k j).1,
    h.entries-count (unlink h m k).1.map j ∙ unlink-held m k j ∙ sym (h.entries-count m.map j),
    h.entries-count (remove_entry h m k).1.map k ∙ remove_entry-held m k,
  )

  -- The keys one after the other: how many were seen when their turn came, and the state.
  pub unlink_each : Mocha h → List K → ℕ × Mocha h
  unlink_each m [] = (0, m)
  unlink_each m (k ∷ ks) =
      let (done, m') = unlink h m k in let (rest, m'') = unlink_each m' ks in (bit done + rest, m'')

  clock-unlink : (m : Mocha h) (k : K) → (unlink h m k).1.logic_clock ≡ m.logic_clock
  unfolding unlink enqueue_expiry
  clock-unlink m k = ground arith

  map-unlink : (m : Mocha h) (k : K) → (unlink h m k).1.map ≡ (expire_now h m.map m.logic_clock k).1
  unfolding unlink expire_now enqueue_expiry
  map-unlink m k = ground arith

  flag-unlink : (m : Mocha h) (k : K) → (unlink h m k).0 ≡ (expire_now h m.map m.logic_clock k).0
  unfolding unlink
  flag-unlink m k = ground arith

  unlink_keys-each :
      (ks : List K) (m m' : Mocha h)
      → m.map ≡ m'.map
      → m.logic_clock ≡ m'.logic_clock
      → (length (unlink_keys h m ks).0 ≡ (unlink_each m' ks).0)
        × ((unlink_keys h m ks).1.map ≡ (unlink_each m' ks).1.map)
  unfolding unlink_keys unlink_each
  unlink_keys-each [] m m' p q = (refl, p)
  unlink_keys-each (k ∷ ks) m m' p q =
      let now : expire_now h m.map m.logic_clock k ≡ expire_now h m'.map m'.logic_clock k =
        λ i. expire_now h (p i) (q i) k in
      let ih =
        unlink_keys-each ks (record m { map = (expire_now h m.map m.logic_clock k).1 })
          (unlink h m' k).1 (ap (λ x. x.1) now ∙ sym (map-unlink m' k))
          (q ∙ sym (clock-unlink m' k)) in
      ground (arith, ih, flag-unlink m' k, ap (λ x. x.0) now)

  -- `unlink_batch` answers with the number of keys that `unlink` would have found one after the
  -- other, and leaves the table that those calls leave.
  pub unlink_batch-each :
      (m : Mocha h) (ks : List K)
      → ((unlink_batch h m ks).0 ≡ (unlink_each m ks).0)
        × ((unlink_batch h m ks).1.map ≡ (unlink_each m ks).1.map)
  unfolding unlink_batch
  unlink_batch-each m ks = ground (arith, unlink_keys-each ks m m refl refl)

  abbrev pub with_expiry : Option ℕ → Option (EntrySnapshot V) → Option (EntrySnapshot V)
  with_expiry at none = none
  with_expiry at (some s) = some (record s { expire_at = at })

  abbrev pub unexpired : ℕ → Option (EntrySnapshot V) → Option (EntrySnapshot V)
  unexpired clock none = none
  unexpired clock (some s) = if past s.expire_at clock then none else some s

  -- `set_expire_policy` gives the entry that is seen the instant of the policy and returns it; the
  -- key is then seen with that instant unless it has come, other keys are seen as before.
  pub set_expire_policy_lem :
      (m : Mocha h) (k j : K) (policy : ExpirePolicy)
      → ((set_expire_policy h m k policy).0
          ≡ with_expiry (resolve_expire_at h m policy) (view h m k))
        × (view h (set_expire_policy h m k policy).1 j ≡ (
            if same k j
            then unexpired m.logic_clock (with_expiry (resolve_expire_at h m policy) (view h m k))
            else view h m j))
  unfolding set_expire_policy enqueue_expiry make_entry
  set_expire_policy_lem m k j policy = elim (Option-cases (h.get m.map k)) [
    | inl gone ↦ ground (arith, gone, same_iff k j)
    | inr (entry, here) ↦ ground (
      arith,
      here,
      same_iff k j,
      h.get-delete m.map k j,
      h.get-put m.map k j (make_entry h m entry.value policy),
    )
  ]
