-- ===== src/Value/Table.antt =====
-- `HashMap` of the standard library, the list of its entries in the order of a pass
-- over it. The order is that of insertion; no theorem depends on it.
use cache_cat.Prelude.{
  ◌+◌, ◌≡◌, refl, ◌∙◌, ap, subst, Bool, true, false, ◌||◌, Option, none, some, List, [], ◌∷◌, Eq,
  same, same_iff, same_self, if◌then◌else◌, length, arith, Bool-cases, inl, inr,
}

pub same_sym : {K : Type 0} ⦃eq : Eq K⦄ (a b : K) → same a b ≡ true → same b a ≡ true
same_sym a b h = subst (λ c. same c a ≡ true) ((same_iff a b).0 h) (same_self a)

pub same_apart : {K : Type 0} ⦃eq : Eq K⦄ (a b : K) → same a b ≡ false → same b a ≡ false
same_apart a b h = elim (Bool-cases (same b a)) [
  | inl e ↦ ground (arith, h, same_sym b a e)
  | inr f ↦ f
]

abbrev pub is_some {ℓ} : {A : Type ℓ} → Option A → Bool
is_some none = false
is_some (some a) = true

-- Whether a list has a key.
abbrev pub names : {K : Type 0} ⦃eq : Eq K⦄ → List K → K → Bool
names [] m = false
names (x ∷ keys) m = same x m || names keys m

module _ {ℓ} {K : Type 0} ⦃eq : Eq K⦄ {A : Type ℓ} where
  abbrev pub lookup : List (K × A) → K → Option A
  lookup [] member = none
  lookup (e ∷ hash) member = if same e.0 member then some e.1 else lookup hash member

  abbrev pub put : List (K × A) → K → A → List (K × A)
  put [] member score = (member, score) ∷ []
  put (e ∷ hash) member score =
      let rest = put hash member score in
      if same e.0 member then (member, score) ∷ hash else e ∷ rest

  abbrev pub forget : List (K × A) → K → List (K × A)
  forget [] member = []
  forget (e ∷ hash) member =
      let rest = forget hash member in if same e.0 member then hash else e ∷ rest

  -- No two entries of the table have the same key.
  abbrev pub IsTable : List (K × A) → Type ℓ
  IsTable [] = Unit
  IsTable (e ∷ hash) = (lookup hash e.0 ≡ none) × IsTable hash

  pub lookup-put :
      (hash : List (K × A)) (m : K) (s : A) (m' : K)
      → lookup (put hash m s) m' ≡ (if same m m' then some s else lookup hash m')
  lookup-put [] m s m' = refl
  lookup-put (e ∷ hash) m s m' = elim (Bool-cases (same e.0 m)) [
    | inl here ↦
        let e_m : e.0 ≡ m = (same_iff e.0 m).0 here in
        rw (here, ap (λ x. same x m') e_m) (ground arith)
    | inr other ↦ elim (Bool-cases (same m m')) [
      | inl found ↦
          let m_m' : m ≡ m' = (same_iff m m').0 found in
          let apart : same e.0 m' ≡ false = subst (λ x. same e.0 x ≡ false) m_m' other in
          rw (other, apart) (lookup-put hash m s m')
      | inr past ↦
          rw other
            (ap (λ o. if same e.0 m' then some e.1 else o) (lookup-put hash m s m') ∙ rw past refl)
    ]
  ]

  pub put-IsTable : (hash : List (K × A)) (m : K) (s : A) → IsTable hash → IsTable (put hash m s)
  put-IsTable [] m s h = (refl, tt)
  put-IsTable (e ∷ hash) m s h = elim (Bool-cases (same e.0 m)) [
    | inl here ↦ rw here (subst (λ x. lookup hash x ≡ none) ((same_iff e.0 m).0 here) h.0, h.1)
    | inr other ↦
        let apart : same m e.0 ≡ false = same_apart e.0 m other in
        rw other (lookup-put hash m s e.0 ∙ rw apart h.0, put-IsTable hash m s h.1)
  ]

  pub lookup-forget :
      (hash : List (K × A)) (m m' : K)
      → IsTable hash
      → lookup (forget hash m) m' ≡ (if same m m' then none else lookup hash m')
  lookup-forget [] m m' h = ground arith
  lookup-forget (e ∷ hash) m m' h = elim (Bool-cases (same e.0 m)) [
    | inl here ↦
        let e_m : e.0 ≡ m = (same_iff e.0 m).0 here in
        rw here (elim (Bool-cases (same m m')) [
          | inl found ↦
              rw found (subst (λ x. lookup hash x ≡ none) (e_m ∙ (same_iff m m').0 found) h.0)
          | inr past ↦ rw (past, ap (λ x. same x m') e_m) (rw past refl)
        ])
    | inr other ↦ elim (Bool-cases (same m m')) [
      | inl found ↦
          let apart : same e.0 m' ≡ false =
            subst (λ x. same e.0 x ≡ false) ((same_iff m m').0 found) other in
          rw (other, apart) (lookup-forget hash m m' h.1)
      | inr past ↦ rw other (
          ap (λ o. if same e.0 m' then some e.1 else o) (lookup-forget hash m m' h.1)
          ∙ rw past refl)
    ]
  ]

  pub forget-IsTable : (hash : List (K × A)) (m : K) → IsTable hash → IsTable (forget hash m)
  forget-IsTable [] m h = tt
  forget-IsTable (e ∷ hash) m h = elim (Bool-cases (same e.0 m)) [
    | inl here ↦ rw here h.1
    | inr other ↦
        let apart : same m e.0 ≡ false = same_apart e.0 m other in
        rw other (lookup-forget hash m e.0 h.1 ∙ rw apart h.0, forget-IsTable hash m h.1)
  ]

  pub length-put :
      (hash : List (K × A)) (m : K) (s : A)
      → length (put hash m s) ≡ length hash + (if is_some (lookup hash m) then 0 else 1)
  length-put [] m s = omega arith
  length-put (e ∷ hash) m s = elim (Bool-cases (same e.0 m)) [
    | inl here ↦ rw here (omega arith)
    | inr other ↦ rw other (ground (arith, length-put hash m s))
  ]

  pub length-forget :
      (hash : List (K × A)) (m : K)
      → length hash ≡ length (forget hash m) + (if is_some (lookup hash m) then 1 else 0)
  length-forget [] m = omega arith
  length-forget (e ∷ hash) m = elim (Bool-cases (same e.0 m)) [
    | inl here ↦ rw here (omega arith)
    | inr other ↦ rw other (ground (arith, length-forget hash m))
  ]

  pub forget_missing :
      (hash : List (K × A)) (m : K) → is_some (lookup hash m) ≡ false → forget hash m ≡ hash
  forget_missing [] m h = refl
  forget_missing (e ∷ hash) m h = elim (Bool-cases (same e.0 m)) [
    | inl here ↦ ground (arith, h, here)
    | inr other ↦ rw other (ap (λ l. e ∷ l) (forget_missing hash m (ground (arith, h, other))))
  ]
