-- ===== src/Map.antt =====
-- What the code relies on of `papaya::HashMap`, the concurrent map of a package outside the
-- repository: each call is atomic, and a call sees the calls before it. `compute` is one such call,
-- which reads the entry of a key and inserts, removes or leaves it.
pub mod Assoc
use cache_cat.Prelude.{
  ℕ, ◌≡◌, Bool, true, false, Option, none, some, List, Eq, same, if◌then◌else◌, All, count,
}

abbrev pub held {ℓ} : {V : Type ℓ} → Option V → ℕ
held none = 0
held (some v) = 1

pub record HashMap (K V : Type 0) ⦃e : Eq K⦄ : Type 1 where
  pub Map : Type 0
  pub empty : Map
  pub get : Map → K → Option V
  pub put : Map → K → V → Map
  pub delete : Map → K → Map
  pub entries : Map → List (K × V)
  pub get-empty : (k : K) → get empty k ≡ none
  pub get-put :
      (m : Map) (k j : K) (v : V) → get (put m k v) j ≡ (if same k j then some v else get m j)
  pub get-delete : (m : Map) (k j : K) → get (delete m k) j ≡ (if same k j then none else get m j)
  -- A pass over the map meets exactly the pairs that it holds, each key once.
  pub entries-All : (m : Map) → All (λ p. get m p.0 ≡ some p.1) (entries m)
  pub entries-count : (m : Map) (k : K) → count (λ p. same p.0 k) (entries m) ≡ held (get m k)
