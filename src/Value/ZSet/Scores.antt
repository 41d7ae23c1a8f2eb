-- ===== src/Value/ZSet/Scores.antt =====
-- A sorted set as a map from members to scores: what ZADD and ZREM do to the score of each member.
use cache_cat.Prelude.{
  ℕ, ◌+◌, ◌≡◌, refl, ◌∙◌, ap, subst, ◌&&◌, ◌||◌, Option, none, some, List, [], ◌∷◌, Bytes, same,
  same_iff, bytes_eq, if◌then◌else◌, arith, Bool-cases, Option-cases, inl, inr,
}
use cache_cat.Value.Table.{
  names, lookup, forget, IsTable, lookup-put, lookup-forget, forget-IsTable,
}
use cache_cat.Value.{SortedSet}
use cache_cat.Value.Double.{le_f64, eq_f64}
use cache_cat.Value.ZSet.{
  ZAddReq, tree_remove, rescore, add_member, zadd_member, zadd_loop, zadd, zrem_loop, zrem, zscore,
}

-- The score of a member after one pair of ZADD that names it, from the score before.
abbrev pub decided : ZAddReq → Option ℕ → ℕ → Option ℕ
decided req none score = if req.xx then none else some score
decided req (some old) score =
    if req.nx || (req.gt && le_f64 score old) || (req.lt && le_f64 old score) || eq_f64 old score
    then some old
    else some score

-- The score of a member after all pairs of ZADD, of which those count that name it.
abbrev pub after : ZAddReq → Bytes → List (Bytes × ℕ) → Option ℕ → Option ℕ
after req m [] score = score
after req m (e ∷ members) score =
    after req m members (if same e.0 m then decided req score e.1 else score)

module _ (rank : ℕ → ℕ) where
  lookup-zadd_member :
      (req : ZAddReq) (z : SortedSet) (e : Bytes × ℕ) (m : Bytes)
      → lookup (zadd_member rank req z e).0.hash m
        ≡ (if same e.0 m then decided req (lookup z.hash m) e.1 else lookup z.hash m)
  unfolding zadd_member rescore add_member
  lookup-zadd_member req z (x, score) m = elim (Bool-cases (same x m)) [
    | inr apart ↦ elim (Option-cases (lookup z.hash x)) [
      | inl missing ↦ rw (missing, zadd_member) (ground (arith, apart, lookup-put z.hash x score m))
      | inr (old, there) ↦
          rw (there, zadd_member) (ground (arith, apart, lookup-put z.hash x score m))
    ]
    | inl found ↦
        let x_m : x ≡ m = (same_iff x m).0 found in
        elim (Option-cases (lookup z.hash x)) [
          | inl missing ↦
              let missing' = subst (λ y. lookup z.hash y ≡ none) x_m missing in
              rw (missing, missing', zadd_member)
                (ground (arith, found, missing', lookup-put z.hash x score m))
          | inr (old, there) ↦
              let there' = subst (λ y. lookup z.hash y ≡ some old) x_m there in
              rw (there, there', zadd_member)
                (ground (arith, found, there', lookup-put z.hash x score m))
        ]
  ]

  lookup-zadd_loop :
      (req : ZAddReq) (z : SortedSet) (members : List (Bytes × ℕ)) (added changed : ℕ) (m : Bytes)
      → lookup (zadd_loop rank req z members added changed).0.hash m
        ≡ after req m members (lookup z.hash m)
  unfolding zadd_loop
  lookup-zadd_loop req z [] added changed m = refl
  lookup-zadd_loop req z (e ∷ members) added changed m =
      let (z', new, moved) = zadd_member rank req z e in
      lookup-zadd_loop req z' members (added + new) (changed + moved) m
      ∙ ap (after req m members) (lookup-zadd_member req z e m)

  lookup-zrem_loop :
      (z : SortedSet) (members : List Bytes) (removed : ℕ) (m : Bytes)
      → IsTable z.hash
      → lookup (zrem_loop rank z members removed).0.hash m
        ≡ (if names members m then none else lookup z.hash m)
  unfolding zrem_loop
  lookup-zrem_loop z [] removed m h = refl
  lookup-zrem_loop z (x ∷ members) removed m h = elim (Option-cases (lookup z.hash x)) [
    | inl missing ↦
        rw (missing, zrem_loop)
          (lookup-zrem_loop z members removed m h ∙ elim (Bool-cases (same x m)) [
            | inl found ↦
                let gone : lookup z.hash m ≡ none =
                  subst (λ y. lookup z.hash y ≡ none) ((same_iff x m).0 found) missing in
                ground (arith, found, gone)
            | inr apart ↦ rw apart refl
          ])
    | inr (score, there) ↦
        let z' : SortedSet = record {
          tree = tree_remove rank (score, x) z.tree;
          hash = forget z.hash x;
        } in
        rw (there, zrem_loop)
          (lookup-zrem_loop z' members (removed + 1) m (forget-IsTable z.hash x h)
            ∙ ground (arith, lookup-forget z.hash x m h))
  ]

  -- ZSCORE of any member after ZADD and after ZREM. After ZADD it depends on the score before and
  -- on the pairs that name the member, in their order, each under the options; ZREM leaves no
  -- score of a member that it names, and of every other member the score before, where the keys of
  -- the table are distinct.
  pub zscore_lem :
      (z : SortedSet) (req : ZAddReq) (members : List Bytes) (m : Bytes)
      → IsTable z.hash
      → (zscore (zadd rank z req).0 m ≡ after req m req.members (zscore z m))
        × (zscore (zrem rank z members).0 m ≡ (if names members m then none else zscore z m))
  unfolding zscore zadd zrem
  zscore_lem z req members m h =
      (lookup-zadd_loop req z req.members 0 0 m, lookup-zrem_loop z members 0 m h)
