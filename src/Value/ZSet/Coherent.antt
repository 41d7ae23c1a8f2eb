-- ===== src/Value/ZSet/Coherent.antt =====
-- The two halves of a sorted set, the tree and the hash table, tell the same: each operation that
-- changes the set keeps them so.
pub mod Entries
use cache_cat.Prelude.{
  ℕ, zero, suc, ◌+◌, ◌≡◌, refl, ◌∙◌, ap, sym, subst, Bool, true, false, ◌&&◌, not, Option, none,
  some, List, [], ◌∷◌, Bytes, same, same_iff, bytes_eq, if◌then◌else◌, arith, Bool-cases,
  Option-cases, inl, inr,
}
use cache_cat.Value.Table.{
  lookup, put, forget, IsTable, lookup-put, put-IsTable, lookup-forget, forget-IsTable,
}
use cache_cat.Value.{SortedSet}
use cache_cat.Value.Double.{is_nan, le_f64, eq_f64}
use cache_cat.Value.ZSet.{
  ZAddReq, empty, tree_insert, tree_remove, rescore, add_member, zadd_member, zadd_loop, zadd,
  zrem_loop, zrem, zincrby, pop_loop, zpop_min,
}
use cache_cat.Value.ZSet.Order.{IsSorted, tree_insert-IsSorted, tree_remove-IsSorted}
use cache_cat.Value.ZSet.Coherent.Entries.{
  scores, as_list, scores-tree_insert_other, scores-tree_insert_new, scores-tree_remove_other,
  scores-tree_remove_there, scores-first, scores-past, only,
}

module _ (rank : ℕ → ℕ) where
  -- The tree is in order, the keys of the table are distinct, and the tree has of each member just
  -- the score that the table has for it.
  abbrev pub IsCoherent : SortedSet → Type 0
  IsCoherent z =
      IsSorted rank z.tree
      × IsTable z.hash
      × ((m : Bytes) → scores z.tree m ≡ as_list (lookup z.hash m))

  -- The entry of one member is another, and all else is as before.
  agrees :
      (tree new : List (ℕ × Bytes)) (hash : List (Bytes × ℕ)) (m : Bytes) (score : ℕ)
      → ((m' : Bytes) → same m m' ≡ false → scores new m' ≡ as_list (lookup hash m'))
      → scores new m ≡ score ∷ []
      → (m' : Bytes) → scores new m' ≡ as_list (lookup (put hash m score) m')
  agrees tree new hash m score others here m' = elim (Bool-cases (same m m')) [
    | inl found ↦
        ap (scores new) (sym ((same_iff m m').0 found))
        ∙ here
        ∙ ap as_list {x = some score} (sym (lookup-put hash m score m' ∙ rw found refl))
    | inr past ↦
        others m' past
        ∙ ap as_list {x = lookup hash m'} (sym (lookup-put hash m score m' ∙ rw past refl))
  ]

  add_member-IsCoherent :
      (z : SortedSet) (m : Bytes) (score : ℕ)
      → IsCoherent z
      → lookup z.hash m ≡ none
      → IsCoherent (add_member rank z m score)
  unfolding add_member
  add_member-IsCoherent z m score h missing = (
    tree_insert-IsSorted rank (score, m) z.tree h.0,
    put-IsTable z.hash m score h.1,
    agrees z.tree (tree_insert rank (score, m) z.tree) z.hash m score
        (λ m' apart. scores-tree_insert_other rank (score, m) z.tree m' apart ∙ h.2 m')
        (scores-tree_insert_new rank (score, m) z.tree (h.2 m ∙ ap as_list missing)),
  )

  rescore-IsCoherent :
      (z : SortedSet) (m : Bytes) (old score : ℕ)
      → IsCoherent z
      → lookup z.hash m ≡ some old
      → IsCoherent (rescore rank z m old score)
  unfolding rescore
  rescore-IsCoherent z m old score h there =
      let cut : List (ℕ × Bytes) = tree_remove rank (old, m) z.tree in
      (
        tree_insert-IsSorted rank (score, m) cut (tree_remove-IsSorted rank (old, m) z.tree h.0),
        put-IsTable z.hash m score h.1,
        agrees z.tree (tree_insert rank (score, m) cut) z.hash m score
            (λ m' apart.
              scores-tree_insert_other rank (score, m) cut m' apart
              ∙ scores-tree_remove_other rank (old, m) z.tree m' apart
              ∙ h.2 m')
            (scores-tree_insert_new rank (score, m) cut
              (scores-tree_remove_there rank (old, m) z.tree (h.2 m ∙ ap as_list there))),
      )

  -- A member that goes from both halves.
  gone-IsCoherent :
      (z : SortedSet) (m : Bytes) (tree : List (ℕ × Bytes))
      → IsCoherent z
      → IsSorted rank tree
      → ((m' : Bytes) → same m m' ≡ false → scores tree m' ≡ scores z.tree m')
      → scores tree m ≡ []
      → IsCoherent (record { tree = tree; hash = forget z.hash m })
  gone-IsCoherent z m tree h sorted others here = (
    sorted,
    forget-IsTable z.hash m h.1,
    λ m'. elim (Bool-cases (same m m')) [
      | inl found ↦
          ap (scores tree) (sym ((same_iff m m').0 found))
          ∙ here
          ∙ ap as_list {x = none} (sym (lookup-forget z.hash m m' h.1 ∙ rw found refl))
      | inr past ↦
          others m' past
          ∙ h.2 m'
          ∙ ap as_list {x = lookup z.hash m'} (sym (lookup-forget z.hash m m' h.1 ∙ rw past refl))
    ],
  )

  -- A test that leaves the set as it is, or not.
  guarded :
      (t : Bool) (z : SortedSet) (n k : ℕ) (r : SortedSet × ℕ × ℕ)
      → IsCoherent z
      → IsCoherent r.0
      → IsCoherent (if t then (z, n, k) else r).0
  guarded true z n k r h k' = h
  guarded false z n k r h k' = k'

  zadd_member-IsCoherent :
      (req : ZAddReq) (z : SortedSet) (e : Bytes × ℕ)
      → IsCoherent z
      → IsCoherent (zadd_member rank req z e).0
  unfolding zadd_member
  zadd_member-IsCoherent req z (m, score) h = elim (Option-cases (lookup z.hash m)) [
    | inl missing ↦
        rw (missing, zadd_member)
          (guarded req.xx z 0 0 (add_member rank z m score, 1, 1) h
            (add_member-IsCoherent z m score h missing))
    | inr (old, there) ↦
        rw (there, zadd_member)
          (guarded req.nx z 0 0 _ h (
            guarded (req.gt && le_f64 score old) z 0 0 _ h (
              guarded (req.lt && le_f64 old score) z 0 0 _ h (
                guarded (eq_f64 old score) z 0 0 (rescore rank z m old score, 0, 1) h
                  (rescore-IsCoherent z m old score h there)))))
  ]

  zadd_loop-IsCoherent :
      (req : ZAddReq) (z : SortedSet) (members : List (Bytes × ℕ)) (added changed : ℕ)
      → IsCoherent z
      → IsCoherent (zadd_loop rank req z members added changed).0
  unfolding zadd_loop
  zadd_loop-IsCoherent req z [] added changed h = h
  zadd_loop-IsCoherent req z (e ∷ members) added changed h =
      let (z', new, moved) = zadd_member rank req z e in
      zadd_loop-IsCoherent req z' members (added + new) (changed + moved)
        (zadd_member-IsCoherent req z e h)

  zrem_loop-IsCoherent :
      (z : SortedSet) (members : List Bytes) (removed : ℕ)
      → IsCoherent z
      → IsCoherent (zrem_loop rank z members removed).0
  unfolding zrem_loop
  zrem_loop-IsCoherent z [] removed h = h
  zrem_loop-IsCoherent z (m ∷ members) removed h = elim (Option-cases (lookup z.hash m)) [
    | inl missing ↦ rw (missing, zrem_loop) (zrem_loop-IsCoherent z members removed h)
    | inr (score, there) ↦
        let tree : List (ℕ × Bytes) = tree_remove rank (score, m) z.tree in
        rw (there, zrem_loop)
          (zrem_loop-IsCoherent (record { tree = tree; hash = forget z.hash m }) members
            (removed + 1)
            (gone-IsCoherent z m tree h (tree_remove-IsSorted rank (score, m) z.tree h.0)
              (λ m' apart. scores-tree_remove_other rank (score, m) z.tree m' apart)
              (scores-tree_remove_there rank (score, m) z.tree (h.2 m ∙ ap as_list there))))
  ]

  guarded_pair :
      (t : Bool) (z : SortedSet) (o : Option ℕ) (r : SortedSet × Option ℕ)
      → IsCoherent z
      → IsCoherent r.0
      → IsCoherent (if t then (z, o) else r).0
  guarded_pair true z o r h k = h
  guarded_pair false z o r h k = k

  zincrby-IsCoherent :
      (add : ℕ → ℕ → ℕ) (z : SortedSet) (m : Bytes) (increment : ℕ)
      → IsCoherent z
      → IsCoherent (zincrby rank add z m increment).0
  unfolding zincrby
  zincrby-IsCoherent add z m increment h = elim (Option-cases (lookup z.hash m)) [
    | inl missing ↦
        rw (missing, zincrby)
          (guarded_pair (is_nan (add 0 increment)) z none _ h
            (add_member-IsCoherent z m (add 0 increment) h missing))
    | inr (old, there) ↦
        rw (there, zincrby)
          (guarded_pair (is_nan (add old increment)) z none _ h (
            guarded_pair (eq_f64 old (add old increment)) z (some (add old increment)) _ h
              (rescore-IsCoherent z m old (add old increment) h there)))
  ]

  pop_loop-IsCoherent :
      (count : ℕ) (tree : List (ℕ × Bytes)) (hash : List (Bytes × ℕ))
      → IsCoherent (record { tree = tree; hash = hash })
      → IsCoherent (pop_loop count (record { tree = tree; hash = hash })).0
  unfolding pop_loop
  pop_loop-IsCoherent zero tree hash h = h
  pop_loop-IsCoherent (suc count) [] hash h = h
  pop_loop-IsCoherent (suc count) (e ∷ tree) hash h =
      pop_loop-IsCoherent count tree (forget hash e.1) (
        gone-IsCoherent (record { tree = e ∷ tree; hash = hash }) e.1 tree h h.0.1
          (λ m' apart. sym (scores-past e tree m' apart))
          (only (lookup hash e.1) e.0 (scores tree e.1) (sym (scores-first e tree) ∙ h.2 e.1)))

  zpop_min-IsCoherent :
      (z : SortedSet) (count : Option ℕ) → IsCoherent z → IsCoherent (zpop_min z count).0
  unfolding zpop_min
  zpop_min-IsCoherent z none h = pop_loop-IsCoherent 1 z.tree z.hash h
  zpop_min-IsCoherent z (some count) h = pop_loop-IsCoherent count z.tree z.hash h

  -- The tree and the hash table of a sorted set tell the same: the tree is in order, the keys of the
  -- table are distinct, and the tree has of each member just the score that the table has, and none
  -- of a member that is not in the table. The empty set is so, and ZADD with any options, ZREM,
  -- ZINCRBY and ZPOPMIN keep a set so, for each place that a score may have in the order.
  pub operations-IsCoherent :
      (z : SortedSet) (req : ZAddReq) (members : List Bytes) (add : ℕ → ℕ → ℕ) (m : Bytes)
      (increment : ℕ) (count : Option ℕ)
      → IsCoherent z
      → IsCoherent empty
        × IsCoherent (zadd rank z req).0
        × IsCoherent (zrem rank z members).0
        × IsCoherent (zincrby rank add z m increment).0
        × IsCoherent (zpop_min z count).0
  unfolding zadd zrem
  operations-IsCoherent z req members add m increment count h = (
    (tt, tt, λ m'. refl),
    zadd_loop-IsCoherent req z req.members 0 0 h,
    zrem_loop-IsCoherent z members 0 h,
    zincrby-IsCoherent add z m increment h,
    zpop_min-IsCoherent z count h,
  )
