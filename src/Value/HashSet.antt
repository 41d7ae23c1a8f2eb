-- ===== src/Value/HashSet.antt =====
-- `HashSet` of the standard library, the list of its members in the order of a pass over it.
use cache_cat.Prelude.{
  ◌≡◌, refl, ◌∙◌, ap, subst, false, ◌||◌, List, [], ◌∷◌, Eq, same, same_iff, if◌then◌else◌, arith,
  Bool-cases, inl, inr,
}
use cache_cat.Value.Table.{names, same_apart}

-- `HashSet::insert` and `remove`; `names` is `contains`.
abbrev pub set_insert : {K : Type 0} ⦃eq : Eq K⦄ → List K → K → List K
set_insert [] m = m ∷ []
set_insert (x ∷ set) m = let rest = set_insert set m in if same x m then x ∷ set else x ∷ rest

abbrev pub set_remove : {K : Type 0} ⦃eq : Eq K⦄ → List K → K → List K
set_remove [] m = []
set_remove (x ∷ set) m = let rest = set_remove set m in if same x m then set else x ∷ rest

-- No member stands twice.
abbrev pub IsDistinct : {K : Type 0} ⦃eq : Eq K⦄ → List K → Type 0
IsDistinct [] = Unit
IsDistinct (x ∷ set) = (names set x ≡ false) × IsDistinct set

pub names-set_remove :
    {K : Type 0} ⦃eq : Eq K⦄ (set : List K) (m m' : K)
    → IsDistinct set
    → names (set_remove set m) m' ≡ (if same m m' then false else names set m')
names-set_remove [] m m' h = ground arith
names-set_remove (x ∷ set) m m' h = elim (Bool-cases (same x m)) [
  | inl here ↦
      let x_m : x ≡ m = (same_iff x m).0 here in
      rw here (elim (Bool-cases (same m m')) [
        | inl found ↦
            rw found (subst (λ y. names set y ≡ false) (x_m ∙ (same_iff m m').0 found) h.0)
        | inr past ↦ rw (past, ap (λ y. same y m') x_m) (rw past refl)
      ])
  | inr other ↦ elim (Bool-cases (same m m')) [
    | inl found ↦
        let apart : same x m' ≡ false =
          subst (λ y. same x y ≡ false) ((same_iff m m').0 found) other in
        rw (other, apart) (names-set_remove set m m' h.1)
    | inr past ↦ rw other (ap (λ b. same x m' || b) (names-set_remove set m m' h.1) ∙ rw past refl)
  ]
]

pub set_remove-IsDistinct :
    {K : Type 0} ⦃eq : Eq K⦄ (set : List K) (m : K) → IsDistinct set → IsDistinct (set_remove set m)
set_remove-IsDistinct [] m h = tt
set_remove-IsDistinct (x ∷ set) m h = elim (Bool-cases (same x m)) [
  | inl here ↦ rw here h.1
  | inr other ↦
      rw other (names-set_remove set m x h.1 ∙ ground (arith, h), set_remove-IsDistinct set m h.1)
]

pub names-set_insert :
    {K : Type 0} ⦃eq : Eq K⦄ (set : List K) (x m : K)
    → names (set_insert set x) m ≡ (names set m || same x m)
names-set_insert [] x m = ground arith
names-set_insert (y ∷ set) x m = elim (Bool-cases (same y x)) [
  | inl here ↦ rw (here, ap (λ z. same z m) ((same_iff y x).0 here)) (ground arith)
  | inr apart ↦ rw apart (ground (arith, names-set_insert set x m))
]

pub set_insert-IsDistinct :
    {K : Type 0} ⦃eq : Eq K⦄ (set : List K) (m : K) → IsDistinct set → IsDistinct (set_insert set m)
set_insert-IsDistinct [] m h = (refl, tt)
set_insert-IsDistinct (x ∷ set) m h = elim (Bool-cases (same x m)) [
  | inl here ↦ rw here h
  | inr other ↦ rw other (
    names-set_insert set m x ∙ ground (arith, h, same_apart x m other),
    set_insert-IsDistinct set m h.1,
  )
]
