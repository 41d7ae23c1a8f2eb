-- ===== src/Value/ZSet/Coherent/Entries.antt =====
-- The entries of one member in the tree, and the hash table, under insertion and removal.
use cache_cat.Prelude.{
  ℕ, ◌≡◌, ◌≢◌, refl, ◌∙◌, ap, sym, subst, Bool, true, false, ◌&&◌, not, Option, none, some, List,
  [], ◌∷◌, Bytes, same, same_iff, same_self, bytes_eq, if◌then◌else◌, length, arith, Bool-cases,
  inl, inr,
}
use cache_cat.Value.ZSet.{less, tree_insert, tree_remove}
use cache_cat.Value.ZSet.Order.{less_self, neither}

-- The scores that the tree has for a member.
abbrev pub scores : List (ℕ × Bytes) → Bytes → List ℕ
scores [] member = []
scores (e ∷ tree) member = if same e.1 member then e.0 ∷ scores tree member else scores tree member

abbrev pub as_list : Option ℕ → List ℕ
as_list none = []
as_list (some score) = score ∷ []

cons-injective : (x y : ℕ) (xs ys : List ℕ) → x ∷ xs ≡ y ∷ ys → (x ≡ y) × (xs ≡ ys)
cons-injective x y xs ys e = (ap (head 0) e, ap tail e)
  where
    head : ℕ → List ℕ → ℕ
    head d [] = d
    head d (x ∷ xs) = x

    tail : List ℕ → List ℕ
    tail [] = []
    tail (x ∷ xs) = xs

not_nil : (x : ℕ) (xs : List ℕ) → x ∷ xs ≢ []
not_nil x xs e = absurd (omega (arith, ap length e))

opposite : (b : Bool) → b ≡ true → b ≡ false → ⊥
opposite b h k = ground (arith, h, k)

pub scores-first :
    (e : ℕ × Bytes) (tree : List (ℕ × Bytes)) → scores (e ∷ tree) e.1 ≡ e.0 ∷ scores tree e.1
scores-first e tree = rw (same_self e.1) refl

pub scores-past :
    (e : ℕ × Bytes) (tree : List (ℕ × Bytes)) (m : Bytes)
    → same e.1 m ≡ false
    → scores (e ∷ tree) m ≡ scores tree m
scores-past e tree m h = rw h refl

pub only : (o : Option ℕ) (x : ℕ) (xs : List ℕ) → x ∷ xs ≡ as_list o → xs ≡ []
only none x xs e = absurd (not_nil x xs e)
only (some score) x xs e = (cons-injective x score xs [] e).1

module _ (rank : ℕ → ℕ) where
  pub scores-tree_insert_other :
      (e : ℕ × Bytes) (tree : List (ℕ × Bytes)) (m : Bytes)
      → same e.1 m ≡ false
      → scores (tree_insert rank e tree) m ≡ scores tree m
  scores-tree_insert_other e [] m h = rw h refl
  scores-tree_insert_other e (x ∷ tree) m h = elim (Bool-cases (less rank e x)) [
    | inl before ↦ rw (before, h) refl
    | inr other ↦ elim (Bool-cases (less rank x e)) [
      | inl after ↦
          rw (other, after)
            (ap (λ l. if same x.1 m then x.0 ∷ l else l) (scores-tree_insert_other e tree m h))
      | inr equal ↦ rw (other, equal) refl
    ]
  ]

  pub scores-tree_insert_new :
      (e : ℕ × Bytes) (tree : List (ℕ × Bytes))
      → scores tree e.1 ≡ []
      → scores (tree_insert rank e tree) e.1 ≡ e.0 ∷ []
  scores-tree_insert_new e [] h = rw (same_self e.1) refl
  scores-tree_insert_new e (x ∷ tree) h = elim (Bool-cases (same x.1 e.1)) [
    | inl there ↦ absurd (
        not_nil x.0 (scores tree e.1)
          (subst (λ t. (if t then x.0 ∷ scores tree e.1 else scores tree e.1) ≡ []) there h))
    | inr apart ↦
        let rest : scores tree e.1 ≡ [] =
          subst (λ t. (if t then x.0 ∷ scores tree e.1 else scores tree e.1) ≡ []) apart h in
        elim (Bool-cases (less rank e x)) [
          | inl before ↦ rw (before, same_self e.1, apart) (ap (λ l. e.0 ∷ l) rest)
          | inr other ↦ elim (Bool-cases (less rank x e)) [
            | inl after ↦ rw (other, after, apart) (scores-tree_insert_new e tree rest)
            | inr equal ↦
                let members = neither rank e x other equal in
                absurd (
                  opposite (same x.1 e.1) (subst (λ m. same m e.1 ≡ true) members (same_self e.1))
                    apart)
          ]
        ]
  ]

  pub scores-tree_remove_other :
      (e : ℕ × Bytes) (tree : List (ℕ × Bytes)) (m : Bytes)
      → same e.1 m ≡ false
      → scores (tree_remove rank e tree) m ≡ scores tree m
  scores-tree_remove_other e [] m h = refl
  scores-tree_remove_other e (x ∷ tree) m h =
      elim (Bool-cases (not (less rank e x) && not (less rank x e))) [
        | inl equal ↦
            let members : e.1 ≡ x.1 =
              neither rank e x (ground (arith, equal)) (ground (arith, equal)) in
            let apart : same x.1 m ≡ false = subst (λ y. same y m ≡ false) members h in
            rw (equal, apart) refl
        | inr other ↦
            rw other
              (ap (λ l. if same x.1 m then x.0 ∷ l else l) (scores-tree_remove_other e tree m h))
      ]

  pub scores-tree_remove_there :
      (e : ℕ × Bytes) (tree : List (ℕ × Bytes))
      → scores tree e.1 ≡ e.0 ∷ []
      → scores (tree_remove rank e tree) e.1 ≡ []
  scores-tree_remove_there e [] h = absurd (not_nil e.0 [] (sym h))
  scores-tree_remove_there e (x ∷ tree) h = elim (Bool-cases (same x.1 e.1)) [
    | inl there ↦
        let first = cons-injective x.0 e.0 (scores tree e.1) [] (
          subst (λ t. (if t then x.0 ∷ scores tree e.1 else scores tree e.1) ≡ e.0 ∷ []) there h) in
        let member : x.1 ≡ e.1 = (same_iff x.1 e.1).0 there in
        let whole : x ≡ e = λ i. (first.0 i, member i) in
        let left : less rank e x ≡ false = ap (less rank e) whole ∙ less_self rank e in
        let right : less rank x e ≡ false = ap (λ y. less rank y e) whole ∙ less_self rank e in
        rw (left, right) first.1
    | inr apart ↦
        let rest : scores tree e.1 ≡ e.0 ∷ [] =
          subst (λ t. (if t then x.0 ∷ scores tree e.1 else scores tree e.1) ≡ e.0 ∷ []) apart h in
        elim (Bool-cases (not (less rank e x) && not (less rank x e))) [
          | inl equal ↦
              let members = neither rank e x (ground (arith, equal)) (ground (arith, equal)) in
              absurd (
                opposite (same x.1 e.1) (subst (λ m. same m e.1 ≡ true) members (same_self e.1))
                  apart)
          | inr other ↦ rw (other, apart) (scores-tree_remove_there e tree rest)
        ]
  ]
