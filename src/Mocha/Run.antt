-- ===== src/Mocha/Run.antt =====
-- Any interleaving of clients, clock and worker, as a sequence of steps, keeps every instant of the
-- table scheduled; so a full cycle at any time leaves no expired entry.
use cache_cat.Prelude.{
  ℕ, ◌^◌, ◌<◌, ◌≤◌, ◌≡◌, refl, sym, Option, none, some, List, [], ◌∷◌, Eq, arith, Option-cases,
  Bool-cases, inl, inr, All, All-append, subst,
}
use cache_cat.Map.{HashMap}
use cache_cat.Wheel
use cache_cat.Wheel.{TimerItem}
use cache_cat.Wheel.Placed.{IsWheel}
use cache_cat.Wheel.Advance.{new-IsWheel}
use cache_cat.Mocha.{
  new, Entry, Mocha, ExpirePolicy, ExpireCommand, schedule, resolve_expire_at, make_entry,
  insert_entry, enqueue_expiry, get_entry, remove_entry, unlink, clear, expire_now,
  remove_expired_if_current_from, set_expire_policy, past, advance,
}
use cache_cat.Mocha.Worker.{
  handle_expire_command, active_expire_cycle_blocking, trigger_expire_cycle,
}
use cache_cat.Mocha.Known.{waiting-append, Fits}
use cache_cat.Mocha.Quiet.{handle_expire_command-IsQuiet}
use cache_cat.Mocha.Schedule.{IsKnown, handle_expire_command-IsKnown, active_expire_cycle_complete}

-- The instants that the clients pass are u64.
abbrev FitsU64 : Option ℕ → Type 0
FitsU64 none = Unit
FitsU64 (some at) = at < 2 ^ 64

pub data Step {K V : Type 0} ⦃e : Eq K⦄ {h : HashMap K (Entry V)} : Mocha h → Mocha h → Type 0 where
  insert :
      (m : Mocha h) (k : K) (v : V) (policy : ExpirePolicy)
      → FitsU64 (resolve_expire_at h m policy)
      → Step m (insert_entry h m k v policy).1
  get : (m : Mocha h) (k : K) → Step m (get_entry h m k).1
  remove : (m : Mocha h) (k : K) → Step m (remove_entry h m k).1
  unlink_one : (m : Mocha h) (k : K) → Step m (unlink h m k).1
  set_policy :
      (m : Mocha h) (k : K) (policy : ExpirePolicy)
      → FitsU64 (resolve_expire_at h m policy)
      → Step m (set_expire_policy h m k policy).1
  clear_all : (m : Mocha h) → Step m (clear h m)
  trigger : (m : Mocha h) → Step m (trigger_expire_cycle h m)
  tick_clock :
      (m : Mocha h) (now : ℕ)
      → m.logic_clock ≤ now
      → now < 2 ^ 64
      → Step m (record m { logic_clock = now })
  receive :
      (m : Mocha h) (cmd : ExpireCommand K) (cmds : List (ExpireCommand K))
      → m.queue ≡ cmd ∷ cmds
      → Step m (handle_expire_command h (record m { queue = cmds }) cmd).1

pub data Reach {K V : Type 0} ⦃e : Eq K⦄ {h : HashMap K (Entry V)} (s : Mocha h)
    : Mocha h → Type 0 where
  here : Reach s s
  next : {t u : Mocha h} → Reach s t → Step t u → Reach s u

pub record IsSound {K V : Type 0} ⦃e : Eq K⦄ {h : HashMap K (Entry V)} (m : Mocha h) : Type 0 where
  pub known : IsKnown m m.queue
  pub clock : m.logic_clock < 2 ^ 64

module _ {K V : Type 0} ⦃e : Eq K⦄ (h : HashMap K (Entry V)) where
  -- A table that holds no more than before is known as before.
  fewer :
      (m m' : Mocha h)
      → IsSound m
      → m'.wheel ≡ m.wheel
      → m'.queue ≡ m.queue
      → m'.logic_clock ≡ m.logic_clock
      → ((k : K) (entry : Entry V) → h.get m'.map k ≡ some entry → h.get m.map k ≡ some entry)
      → IsSound m'
  fewer m m' s ew eq ec less = record {
    known = record {
      wheel = subst IsWheel (sym ew) s.known.wheel;
      behind = rw (ew, ec) s.known.behind;
      known = λ k at entry p q. rw (ew, eq) (s.known.known k at entry (less k entry p) q);
      fits = subst (All Fits) (sym eq) s.known.fits;
    };
    clock = rw ec s.clock;
  }

  -- An entry that is written together with a command that schedules its instant.
  written :
      (m : Mocha h) (key : K) (v : V) (o : Option ℕ)
      → IsKnown m m.queue
      → FitsU64 o
      → IsKnown
          (enqueue_expiry h
            (record m { map = h.put m.map key (record { value = v; expire_at = o }) })
            key
            o)
          (enqueue_expiry h
            (record m { map = h.put m.map key (record { value = v; expire_at = o }) })
            key
            o).queue
  unfolding enqueue_expiry
  written m key v none w fits = record {
    wheel = w.wheel;
    behind = w.behind;
    known = λ k at entry p q.
        ground (
          arith,
          h.get-put m.map key k (record { value = v; expire_at = none }),
          w.known k at entry,
        );
    fits = w.fits;
  }
  written m key v (some t) w fits = record {
    wheel = w.wheel;
    behind = w.behind;
    known = λ k at entry p q. ground (
      arith,
      h.get-put m.map key k (record { value = v; expire_at = some t }),
      w.known k at entry,
      waiting-append k at m.queue (schedule key t ∷ []),
    );
    fits = All-append Fits m.queue (schedule key t ∷ []) w.fits (fits, tt);
  }

  get_entry-less :
      (m : Mocha h) (j k : K) (entry : Entry V)
      → h.get (get_entry h m j).1.map k ≡ some entry
      → h.get m.map k ≡ some entry
  unfolding get_entry remove_expired_if_current_from
  get_entry-less m j k entry p = ground (arith, p, h.get-delete m.map j k)

  remove_entry-less :
      (m : Mocha h) (j k : K) (entry : Entry V)
      → h.get (remove_entry h m j).1.map k ≡ some entry
      → h.get m.map k ≡ some entry
  unfolding remove_entry
  remove_entry-less m j k entry p = ground (arith, p, h.get-delete m.map j k)

  unlink-IsSound : (m : Mocha h) (k : K) → IsSound m → IsSound (unlink h m k).1
  unfolding unlink expire_now enqueue_expiry
  unlink-IsSound m k s = elim (Option-cases (h.get m.map k)) [
    | inl gone ↦ rw (gone, unlink, expire_now) s
    | inr (entry, found) ↦ elim (Bool-cases (past entry.expire_at m.logic_clock)) [
      | inl old ↦ rw (found, unlink, expire_now) (rw old s)
      | inr new ↦
          rw (found, unlink, expire_now)
            (rw new (record {
              known = written m k entry.value (some m.logic_clock) s.known s.clock;
              clock = s.clock;
            }))
    ]
  ]

  set_expire_policy-IsSound :
      (m : Mocha h) (k : K) (policy : ExpirePolicy)
      → FitsU64 (resolve_expire_at h m policy)
      → IsSound m
      → IsSound (set_expire_policy h m k policy).1
  unfolding set_expire_policy make_entry enqueue_expiry
  set_expire_policy-IsSound m k policy fits s = elim (Option-cases (h.get m.map k)) [
    | inl gone ↦ rw (gone, set_expire_policy) s
    | inr (entry, found) ↦ elim (Bool-cases (past entry.expire_at m.logic_clock)) [
      | inl old ↦
          rw (found, set_expire_policy)
            (rw old
              (fewer m _ s refl refl refl (λ j x p. ground (arith, p, h.get-delete m.map k j))))
      | inr new ↦
          rw (found, set_expire_policy)
            (rw new (record {
              known = written m k entry.value (resolve_expire_at h m policy) s.known fits;
              clock = ground (arith, s.clock);
            }))
    ]
  ]

  -- Every step keeps every instant of the table scheduled, and the clock a u64.
  pub Step-IsSound : {m m' : Mocha h} → Step m m' → IsSound m → IsSound m'
  unfolding insert_entry make_entry enqueue_expiry get_entry remove_entry clear trigger_expire_cycle
  Step-IsSound (insert m k v policy fits) s = record {
    known = written m k v (resolve_expire_at h m policy) s.known fits;
    clock = ground (arith, s.clock);
  }
  Step-IsSound (get m k) s =
      fewer m _ s (ground arith) (ground arith) (ground arith) (get_entry-less m k)
  Step-IsSound (remove m k) s =
      fewer m _ s (ground arith) (ground arith) (ground arith) (remove_entry-less m k)
  Step-IsSound (unlink_one m k) s = unlink-IsSound m k s
  Step-IsSound (set_policy m k policy fits) s = set_expire_policy-IsSound m k policy fits s
  Step-IsSound (clear_all m) s =
      fewer m _ s refl refl refl (λ k entry p. ground (arith, p, h.get-empty k))
  Step-IsSound (trigger m) s = record {
    known = record {
      wheel = s.known.wheel;
      behind = s.known.behind;
      known = λ k at entry p q.
          ground (arith, s.known.known k at entry, waiting-append k at m.queue (advance ∷ []));
      fits = All-append Fits m.queue (advance ∷ []) s.known.fits (tt, tt);
    };
    clock = s.clock;
  }
  Step-IsSound (tick_clock m now le fits) s = record {
    known = record {
      wheel = s.known.wheel;
      behind = omega (arith, s.known.behind);
      known = s.known.known;
      fits = s.known.fits;
    };
    clock = fits;
  }
  Step-IsSound (receive m cmd cmds q) s =
      let quiet = handle_expire_command-IsQuiet h (record m { queue = cmds }) cmd in
      let w : IsKnown (record m { queue = cmds }) (cmd ∷ cmds) = record {
        wheel = s.known.wheel;
        behind = s.known.behind;
        known = λ k at entry p r. rw q at (s.known.known k at entry p r);
        fits = subst (All Fits) q s.known.fits;
      } in
      record {
        known =
            rw quiet.queue (handle_expire_command-IsKnown h (record m { queue = cmds }) cmd cmds w);
        clock = rw quiet.clock s.clock;
      }

  -- A new map is sound.
  pub new-IsSound : (now : ℕ) → now < 2 ^ 64 → IsSound (new h now)
  unfolding new
  new-IsSound now fits = record {
    known = record {
      wheel = new-IsWheel K now;
      behind = unfold Wheel.new in omega arith;
      known = λ k at entry p q. ground (arith, p, h.get-empty k);
      fits = tt;
    };
    clock = fits;
  }

  pub Reach-IsSound : {m m' : Mocha h} → Reach m m' → IsSound m → IsSound m'
  Reach-IsSound here s = s
  Reach-IsSound (next r step) s = Step-IsSound step (Reach-IsSound r s)

  -- Whatever clients, clock and worker have done from a sound state, after a full expiry cycle every
  -- instant that the table still holds lies ahead of the clock.
  pub cycle_after_run :
      {m m' : Mocha h} (k : K) (at : ℕ) (entry : Entry V)
      → IsSound m
      → Reach m m'
      → h.get (active_expire_cycle_blocking h m').map k ≡ some entry
      → entry.expire_at ≡ some at
      → (active_expire_cycle_blocking h m').logic_clock < at
  cycle_after_run {m' = m'} k at entry s r p q =
      active_expire_cycle_complete h m' k at entry (Reach-IsSound r s).known p q
