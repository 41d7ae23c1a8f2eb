-- ===== src/Map/Assoc.antt =====
-- A map that meets the assumptions: an association list, whose first pair of a key counts.
use cache_cat.Prelude.{
  ◌≡◌, refl, false, Option, none, some, List, [], ◌∷◌, Eq, same, if◌then◌else◌, arith, same_iff,
  same_self, All, count, count-nil, count-cons, Bool-cases, inl, inr,
}
use cache_cat.Map.{HashMap, held}

module _ {K V : Type 0} ⦃e : Eq K⦄ where
  abbrev pub lookup : List (K × V) → K → Option V
  lookup [] k = none
  lookup ((j, v) ∷ m) k = if same j k then some v else lookup m k

  abbrev pub without : List (K × V) → K → List (K × V)
  without [] k = []
  without ((j, v) ∷ m) k = let rest = without m k in if same j k then rest else (j, v) ∷ rest

  abbrev pub distinct : List (K × V) → List (K × V)
  distinct [] = []
  distinct ((j, v) ∷ m) = (j, v) ∷ without (distinct m) j

  pub lookup-without :
      (m : List (K × V)) (k j : K)
      → lookup (without m k) j ≡ (if same k j then none else lookup m j)
  lookup-without [] k j = ground arith
  lookup-without ((i, v) ∷ m) k j =
      ground (arith, lookup-without m k j, same_iff i k, same_iff i j, same_iff k j)

  without-All :
      (P : K × V → Type 0) (m : List (K × V)) (k : K)
      → All P m
      → All (λ p. P p × (same p.0 k ≡ false)) (without m k)
  without-All P [] k h = tt
  without-All P ((j, v) ∷ m) k h = elim (Bool-cases (same j k)) [
    | inl eq ↦ rw eq (without-All P m k h.1)
    | inr ne ↦ rw ne ((h.0, ne), without-All P m k h.1)
  ]

  All-weaken :
      (P Q : K × V → Type 0) (m : List (K × V)) → ((p : K × V) → P p → Q p) → All P m → All Q m
  All-weaken P Q [] f h = tt
  All-weaken P Q (p ∷ m) f h = (f p h.0, All-weaken P Q m f h.1)

  pub distinct-All : (m : List (K × V)) → All (λ p. lookup m p.0 ≡ some p.1) (distinct m)
  distinct-All [] = tt
  distinct-All ((j, v) ∷ m) = (
    ground (arith, same_self j),
    All-weaken _ (λ p. lookup ((j, v) ∷ m) p.0 ≡ some p.1) (without (distinct m) j)
        (λ p h. ground (arith, h.0, h.1, same_iff p.0 j, same_iff j p.0))
        (without-All (λ p. lookup m p.0 ≡ some p.1) (distinct m) j (distinct-All m)),
  )

  count-without :
      (m : List (K × V)) (k j : K)
      → count (λ p. same p.0 j) (without m k) ≡ (if same k j then 0 else count (λ p. same p.0 j) m)
  count-without [] k j = ground (arith, count-nil (λ (p : K × V). same p.0 j))
  count-without ((i, v) ∷ m) k j = ground (
    arith,
    count-without m k j,
    count-cons (λ p. same p.0 j) (i, v) m,
    count-cons (λ p. same p.0 j) (i, v) (without m k),
    same_iff i k,
    same_iff i j,
    same_iff k j,
  )

  pub distinct-count :
      (m : List (K × V)) (k : K) → count (λ p. same p.0 k) (distinct m) ≡ held (lookup m k)
  distinct-count [] k = count-nil (λ (p : K × V). same p.0 k)
  distinct-count ((j, v) ∷ m) k = ground (
    arith,
    distinct-count m k,
    count-without (distinct m) j k,
    count-cons (λ p. same p.0 k) (j, v) (without (distinct m) j),
  )

abbrev pub assoc : (K V : Type 0) ⦃e : Eq K⦄ → HashMap K V
assoc K V = record {
  Map = List (K × V);
  empty = [];
  get = lookup;
  put = λ m k v. (k, v) ∷ m;
  delete = without;
  entries = distinct;
  get-empty = λ k. refl;
  get-put = λ m k j v. refl;
  get-delete = lookup-without;
  entries-All = distinct-All;
  entries-count = distinct-count;
}
