-- ===== src/Prelude/Lists.antt =====
-- Lists measured by native numbers, under the library's names, and two predicates on lists.
use Prim.Native.Nat.{ℕ, zero, suc, ◌+◌, ◌≤◌, ◌<◌}
use mathlib.Core.Logic.{◌≢◌}
use mathlib.Core.Path.{◌≡◌, refl, ap, ◌∙◌}
use mathlib.Core.Bool.{Bool, true, false, ◌&&◌}
use mathlib.Core.List.{List, [], ◌∷◌, ◌++◌, reverse, reverse-cons}
use mathlib.Core.Option.{Option, none, some}
use native.Mathlib.Omega.{arith}

abbrev pub bit : Bool → ℕ
bit true = 1
bit false = 0

module _ {ℓ} {A : Type ℓ} where
  abbrev pub length : List A → ℕ
  length [] = 0
  length (x ∷ xs) = suc (length xs)

  abbrev pub get_elem? : List A → ℕ → Option A
  get_elem? [] i = none
  get_elem? (x ∷ xs) zero = some x
  get_elem? (x ∷ xs) (suc i) = get_elem? xs i

  pub length-append : (xs ys : List A) → length (xs ++ ys) ≡ length xs + length ys
  length-append [] ys = omega arith
  length-append (x ∷ xs) ys = omega (arith, length-append xs ys)

  pub length-reverse : (xs : List A) → length (reverse xs) ≡ length xs
  length-reverse [] = refl
  length-reverse (x ∷ xs) =
      ap length (reverse-cons x xs)
      ∙ omega (arith, length-append (reverse xs) (x ∷ []), length-reverse xs)

  -- How many elements pass a test. Over all tests, this is a list up to order.
  pub count : (A → Bool) → List A → ℕ
  count p [] = 0
  count p (x ∷ xs) = bit (p x) + count p xs

  pub count-nil : (p : A → Bool) → count p [] ≡ 0
  unfolding count
  count-nil p = refl

  pub count-cons : (p : A → Bool) (x : A) (xs : List A) → count p (x ∷ xs) ≡ bit (p x) + count p xs
  unfolding count
  count-cons p x xs = refl

  pub count-append : (p : A → Bool) (xs ys : List A) → count p (xs ++ ys) ≡ count p xs + count p ys
  unfolding count
  count-append p [] ys = omega arith
  count-append p (x ∷ xs) ys = omega (arith, count-append p xs ys)

  abbrev pub All {κ} : (A → Type κ) → List A → Type κ
  All P [] = Unit {κ}
  All P (x ∷ xs) = P x × All P xs

  pub All-append {κ} : (P : A → Type κ) (xs ys : List A) → All P xs → All P ys → All P (xs ++ ys)
  All-append P [] ys h k = k
  All-append P (x ∷ xs) ys h k = (h.0, All-append P xs ys h.1 k)

  pub All-map {κ κ'} :
      (P : A → Type κ) (Q : A → Type κ') (xs : List A) → ((x : A) → P x → Q x) → All P xs → All Q xs
  All-map P Q [] f h = tt
  All-map P Q (x ∷ xs) f h = (f x h.0, All-map P Q xs f h.1)

  pub count_none :
      (p r : A → Bool) (xs : List A) → All (λ x. r x ≡ false) xs → count (λ x. p x && r x) xs ≡ 0
  unfolding count
  count_none p r [] h = refl
  count_none p r (x ∷ xs) h = ground (arith, count_none p r xs h.1)

  pub count_every :
      (p r : A → Bool) (xs : List A)
      → All (λ x. r x ≡ true) xs
      → count (λ x. p x && r x) xs ≡ count p xs
  unfolding count
  count_every p r [] h = refl
  count_every p r (x ∷ xs) h = ground (arith, count_every p r xs h.1)

  pub count_zero : (p : A → Bool) (xs : List A) → All (λ x. p x ≡ false) xs → count p xs ≡ 0
  unfolding count
  count_zero p [] h = refl
  count_zero p (x ∷ xs) h = ground (arith, count_zero p xs h.1)

  abbrev pub take : ℕ → List A → List A
  take zero xs = []
  take (suc n) [] = []
  take (suc n) (x ∷ xs) = x ∷ take n xs

  abbrev pub drop : ℕ → List A → List A
  drop zero xs = xs
  drop (suc n) [] = []
  drop (suc n) (x ∷ xs) = drop n xs

  -- `xs[i] = v`
  abbrev pub set_elem : List A → ℕ → A → List A
  set_elem [] i v = []
  set_elem (x ∷ xs) zero v = v ∷ xs
  set_elem (x ∷ xs) (suc i) v = x ∷ set_elem xs i v

  pub length-set_elem : (xs : List A) (i : ℕ) (v : A) → length (set_elem xs i v) ≡ length xs
  length-set_elem [] i v = refl
  length-set_elem (x ∷ xs) zero v = refl
  length-set_elem (x ∷ xs) (suc i) v = ap suc (length-set_elem xs i v)

  pub get_elem?-set_elem :
      (xs : List A) (i : ℕ) (v : A) → i < length xs → get_elem? (set_elem xs i v) i ≡ some v
  get_elem?-set_elem [] i v h = absurd (omega (arith, h))
  get_elem?-set_elem (x ∷ xs) zero v h = refl
  get_elem?-set_elem (x ∷ xs) (suc i) v h = get_elem?-set_elem xs i v (omega (arith, h))

  pub get_elem?-set_elem_other :
      (xs : List A) (i j : ℕ) (v : A) → i ≢ j → get_elem? (set_elem xs i v) j ≡ get_elem? xs j
  get_elem?-set_elem_other [] i j v h = refl
  get_elem?-set_elem_other (x ∷ xs) zero zero v h = absurd (h refl)
  get_elem?-set_elem_other (x ∷ xs) zero (suc j) v h = refl
  get_elem?-set_elem_other (x ∷ xs) (suc i) zero v h = refl
  get_elem?-set_elem_other (x ∷ xs) (suc i) (suc j) v h =
      get_elem?-set_elem_other xs i j v (λ e. h (ap suc e))

  pub get_elem?-some : (xs : List A) (i : ℕ) → i < length xs → (x : A) × (get_elem? xs i ≡ some x)
  get_elem?-some [] i h = absurd (omega (arith, h))
  get_elem?-some (x ∷ xs) zero h = (x, refl)
  get_elem?-some (x ∷ xs) (suc i) h = get_elem?-some xs i (omega (arith, h))

  pub get_elem?-none : (xs : List A) (i : ℕ) → length xs ≤ i → get_elem? xs i ≡ none
  get_elem?-none [] i h = refl
  get_elem?-none (x ∷ xs) zero h = absurd (omega (arith, h))
  get_elem?-none (x ∷ xs) (suc i) h = get_elem?-none xs i (omega (arith, h))
