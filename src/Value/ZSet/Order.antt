-- ===== src/Value/ZSet/Order.antt =====
-- The order of the entries of a sorted set, and the tree as a list in that order.
use cache_cat.Prelude.{
  ℕ, ◌≡◌, refl, ◌∙◌, ap, true, false, ◌&&◌, not, List, [], ◌∷◌, Bytes, bytes_eq, arith, Bool-cases,
  inl, inr, All,
}
use cache_cat.Value.ZSet.{lex, less, tree_insert, tree_remove}

pub lex_trans : (a b c : Bytes) → lex a b ≡ true → lex b c ≡ true → lex a c ≡ true
lex_trans [] [] c h k = k
lex_trans [] (y ∷ b) [] h k = k
lex_trans [] (y ∷ b) (z ∷ c) h k = refl
lex_trans (x ∷ a) [] c h k = ground (arith, h)
lex_trans (x ∷ a) (y ∷ b) [] h k = ground (arith, k)
lex_trans (x ∷ a) (y ∷ b) (z ∷ c) h k = ground (arith, h, k, lex_trans a b c)

pub lex_self : (a : Bytes) → lex a a ≡ false
lex_self [] = refl
lex_self (x ∷ a) = ground (arith, lex_self a)

-- Of two texts one is before the other, or they are the same.
pub lex_same : (a b : Bytes) → lex a b ≡ false → lex b a ≡ false → a ≡ b
lex_same [] [] h k = refl
lex_same [] (y ∷ b) h k = ground (arith, h)
lex_same (x ∷ a) [] h k = ground (arith, k)
lex_same (x ∷ a) (y ∷ b) h k =
    let heads : x ≡ y = ground (arith, h, k) in
    let tails : a ≡ b = lex_same a b (ground (arith, h, heads)) (ground (arith, k, heads)) in
    ap (λ n. n ∷ a) heads ∙ ap (λ l. y ∷ l) tails

module _ (rank : ℕ → ℕ) where
  less_trans :
      (a b c : ℕ × Bytes) → less rank a b ≡ true → less rank b c ≡ true → less rank a c ≡ true
  less_trans a b c h k = ground (arith, h, k, lex_trans a.1 b.1 c.1)

  pub less_self : (a : ℕ × Bytes) → less rank a a ≡ false
  less_self a = ground (arith, lex_self a.1)

  pub neither : (a b : ℕ × Bytes) → less rank a b ≡ false → less rank b a ≡ false → a.1 ≡ b.1
  neither a b h k = lex_same a.1 b.1 (ground (arith, h, k)) (ground (arith, h, k))

  -- Each entry is before all that follow it.
  abbrev pub IsSorted : List (ℕ × Bytes) → Type 0
  IsSorted [] = Unit
  IsSorted (x ∷ tree) = All (λ y. less rank x y ≡ true) tree × IsSorted tree

  All-less :
      (x e : ℕ × Bytes) (tree : List (ℕ × Bytes))
      → less rank x e ≡ true
      → All (λ y. less rank e y ≡ true) tree
      → All (λ y. less rank x y ≡ true) tree
  All-less x e [] h k = tt
  All-less x e (y ∷ tree) h k = (less_trans x e y h k.0, All-less x e tree h k.1)

  tree_insert-All :
      (P : ℕ × Bytes → Type 0) (e : ℕ × Bytes) (tree : List (ℕ × Bytes))
      → P e
      → All P tree
      → All P (tree_insert rank e tree)
  tree_insert-All P e [] p h = (p, tt)
  tree_insert-All P e (x ∷ tree) p h = elim (Bool-cases (less rank e x)) [
    | inl before ↦ rw before (p, h)
    | inr other ↦ elim (Bool-cases (less rank x e)) [
      | inl after ↦ rw (other, after) (h.0, tree_insert-All P e tree p h.1)
      | inr equal ↦ rw (other, equal) h
    ]
  ]

  pub tree_insert-IsSorted :
      (e : ℕ × Bytes) (tree : List (ℕ × Bytes)) → IsSorted tree → IsSorted (tree_insert rank e tree)
  tree_insert-IsSorted e [] h = (tt, tt)
  tree_insert-IsSorted e (x ∷ tree) h = elim (Bool-cases (less rank e x)) [
    | inl before ↦ rw before ((before, All-less e x tree before h.0), h)
    | inr other ↦ elim (Bool-cases (less rank x e)) [
      | inl after ↦
          rw (other, after)
            (
              tree_insert-All (λ y. less rank x y ≡ true) e tree after h.0,
              tree_insert-IsSorted e tree h.1,
            )
      | inr equal ↦ rw (other, equal) h
    ]
  ]

  tree_remove-All :
      (P : ℕ × Bytes → Type 0) (e : ℕ × Bytes) (tree : List (ℕ × Bytes))
      → All P tree
      → All P (tree_remove rank e tree)
  tree_remove-All P e [] h = tt
  tree_remove-All P e (x ∷ tree) h =
      elim (Bool-cases (not (less rank e x) && not (less rank x e))) [
        | inl equal ↦ rw equal h.1
        | inr other ↦ rw other (h.0, tree_remove-All P e tree h.1)
      ]

  pub tree_remove-IsSorted :
      (e : ℕ × Bytes) (tree : List (ℕ × Bytes)) → IsSorted tree → IsSorted (tree_remove rank e tree)
  tree_remove-IsSorted e [] h = tt
  tree_remove-IsSorted e (x ∷ tree) h =
      elim (Bool-cases (not (less rank e x) && not (less rank x e))) [
        | inl equal ↦ rw equal h.1
        | inr other ↦ rw other (
          tree_remove-All (λ y. less rank x y ≡ true) e tree h.0,
          tree_remove-IsSorted e tree h.1,
        )
      ]
