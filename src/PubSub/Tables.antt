-- ===== src/PubSub/Tables.antt =====
-- The tables of pub_sub.rs: who is in the set of a name after each change of a table.
use cache_cat.Prelude.{
  ℕ, ◌≡◌, refl, ◌∙◌, ap, sym, subst, Bool, true, false, not, ◌&&◌, ◌||◌, none, some, Option-cases,
  List, [], ◌∷◌, Bytes, same, same_iff, bytes_eq, nat_eq, ◌==◌, if◌then◌else◌, length, arith,
  Bool-cases, inl, inr,
}
use cache_cat.Value.Table.{
  names, lookup, put, forget, IsTable, lookup-put, put-IsTable, lookup-forget, forget-IsTable,
}
use cache_cat.Value.HashSet.{
  set_insert, set_remove, IsDistinct, names-set_insert, names-set_remove, set_insert-IsDistinct,
  set_remove-IsDistinct,
}
use cache_cat.PubSub.{or_empty, register, keep_set, unregister, retain_others}

-- Whether a client is in the set of a name.
abbrev pub holds : List (Bytes × List ℕ) → Bytes → ℕ → Bool
holds subs name client = names (or_empty (lookup subs name)) client

-- Each name has one set, and no client stands in it twice.
abbrev pub IsRegistry : List (Bytes × List ℕ) → Type 0
IsRegistry subs = IsTable subs × ((name : Bytes) → IsDistinct (or_empty (lookup subs name)))

put-IsRegistry :
    (subs : List (Bytes × List ℕ)) (name : Bytes) (set : List ℕ)
    → IsRegistry subs
    → IsDistinct set
    → IsRegistry (put subs name set)
put-IsRegistry subs name set h k = (put-IsTable subs name set h.0, distinct)
  where
    distinct : (c : Bytes) → IsDistinct (or_empty (lookup (put subs name set) c))
    distinct c =
        rw (lookup-put subs name set c)
          (elim (Bool-cases (same name c)) [ inl here ↦ rw here k | inr other ↦ rw other (h.1 c) ])

holds-put :
    (subs : List (Bytes × List ℕ)) (name : Bytes) (set : List ℕ) (c : Bytes) (i : ℕ)
    → holds (put subs name set) c i ≡ (if same name c then names set i else holds subs c i)
holds-put subs name set c i =
    ap (λ o. names (or_empty o) i) (lookup-put subs name set c) ∙ ground arith

holds_insert :
    (subs : List (Bytes × List ℕ)) (channel : Bytes) (client : ℕ) (c : Bytes) (i : ℕ)
    → holds (put subs channel (set_insert (or_empty (lookup subs channel)) client)) c i
      ≡ (holds subs c i || (same channel c && same client i))
holds_insert subs channel client c i =
    let set = set_insert (or_empty (lookup subs channel)) client in
    holds-put subs channel set c i ∙ elim (Bool-cases (same channel c)) [
      | inl here ↦
          rw (here, ap (λ x. holds subs x i) (sym ((same_iff channel c).0 here)))
            (names-set_insert (or_empty (lookup subs channel)) client i)
      | inr other ↦ rw other (ground arith)
    ]

pub register_lem :
    (subs : List (Bytes × List ℕ)) (channels : List Bytes) (client : ℕ)
    → IsRegistry subs
    → IsRegistry (register subs channels client)
      × ((c : Bytes) (i : ℕ)
          → holds (register subs channels client) c i
            ≡ (holds subs c i || (names channels c && same client i)))
unfolding register
register_lem subs [] client h = (h, λ c i. ground arith)
register_lem subs (channel ∷ channels) client h =
    let set = set_insert (or_empty (lookup subs channel)) client in
    let next =
      put-IsRegistry subs channel set h
        (set_insert-IsDistinct (or_empty (lookup subs channel)) client (h.1 channel)) in
    let rest = register_lem (put subs channel set) channels client next in
    (
      rest.0,
      λ c i.
          rest.1 c i
          ∙ ap (λ b. b || (names channels c && same client i))
              (holds_insert subs channel client c i)
          ∙ ground arith,
    )

no_members : (set : List ℕ) (i : ℕ) → (length set == 0) ≡ true → names set i ≡ false
no_members [] i h = refl
no_members (x ∷ set) i h = absurd (ground (arith, h))

keep_set_lem :
    (subs : List (Bytes × List ℕ)) (channel : Bytes) (set : List ℕ)
    → IsRegistry subs
    → IsDistinct set
    → IsRegistry (keep_set subs channel set)
      × ((c : Bytes) (i : ℕ)
          → holds (keep_set subs channel set) c i
            ≡ (if same channel c then names set i else holds subs c i))
keep_set_lem subs channel set h k = elim (Bool-cases (length set == 0)) [
  | inl empty ↦
      let distinct : (c : Bytes) → IsDistinct (or_empty (lookup (forget subs channel) c)) = λ c.
        rw (lookup-forget subs channel c h.0) (elim (Bool-cases (same channel c)) [
          | inl here ↦ rw here tt
          | inr other ↦ rw other (h.1 c)
        ]) in
      rw empty (
        (forget-IsTable subs channel h.0, distinct),
        λ c i.
            ap (λ o. names (or_empty o) i) (lookup-forget subs channel c h.0)
            ∙ ground (arith, no_members set i empty),
      )
  | inr some_left ↦
      rw some_left (put-IsRegistry subs channel set h k, λ c i. holds-put subs channel set c i)
]

-- What the set of a name becomes when a client is taken out of it.
holds_removed :
    (subs : List (Bytes × List ℕ)) (channel : Bytes) (client : ℕ) (set : List ℕ)
    → IsRegistry subs
    → lookup subs channel ≡ some set
    → IsRegistry (keep_set subs channel (set_remove set client))
      × ((c : Bytes) (i : ℕ)
          → holds (keep_set subs channel (set_remove set client)) c i
            ≡ (holds subs c i && not (same channel c && same client i)))
holds_removed subs channel client set h e =
    let distinct : IsDistinct set = subst (λ o. IsDistinct (or_empty o)) e (h.1 channel) in
    let kept =
      keep_set_lem subs channel (set_remove set client) h
        (set_remove-IsDistinct set client distinct) in
    (
      kept.0,
      λ c i. kept.1 c i ∙ elim (Bool-cases (same channel c)) [
        | inl here ↦
            let there : holds subs c i ≡ names set i =
              ap (λ x. holds subs x i) (sym ((same_iff channel c).0 here)) ∙ rw e refl in
            rw (here, there) (names-set_remove set client i distinct ∙ ground arith)
        | inr other ↦ rw other (ground arith)
      ],
    )

pub unregister_lem :
    (subs : List (Bytes × List ℕ)) (channels : List Bytes) (client : ℕ)
    → IsRegistry subs
    → IsRegistry (unregister subs channels client)
      × ((c : Bytes) (i : ℕ)
          → holds (unregister subs channels client) c i
            ≡ (holds subs c i && not (names channels c && same client i)))
unfolding unregister
unregister_lem subs [] client h = (h, λ c i. ground arith)
unregister_lem subs (channel ∷ channels) client h = elim (Option-cases (lookup subs channel)) [
  | inl gone ↦
      let rest = unregister_lem subs channels client h in
      let out : (c : Bytes) (i : ℕ) → same channel c ≡ true → holds subs c i ≡ false =
        λ c i here. ap (λ x. holds subs x i) (sym ((same_iff channel c).0 here)) ∙ rw gone refl in
      rw (gone, unregister) (rest.0, λ c i. rest.1 c i ∙ ground (arith, out c i))
  | inr (set, there) ↦
      let now = holds_removed subs channel client set h there in
      let rest =
        unregister_lem (keep_set subs channel (set_remove set client)) channels client now.0 in
      rw (there, unregister)
        (
          rest.0,
          λ c i.
              rest.1 c i
              ∙ ap (λ b. b && not (names channels c && same client i)) (now.1 c i)
              ∙ ground arith,
        )
]

retain_others-none :
    (subs : List (Bytes × List ℕ)) (client : ℕ) (c : Bytes)
    → lookup subs c ≡ none
    → lookup (retain_others subs client) c ≡ none
unfolding retain_others
retain_others-none [] client c h = refl
retain_others-none ((name, set) ∷ subs) client c h = elim (Bool-cases (same name c)) [
  | inl here ↦ absurd (ground (arith, h, here))
  | inr other ↦
      let rest = retain_others-none subs client c (ground (arith, h, other)) in
      ground (arith, rest, other)
]

retain_others-IsTable :
    (subs : List (Bytes × List ℕ)) (client : ℕ) → IsTable subs → IsTable (retain_others subs client)
unfolding retain_others
retain_others-IsTable [] client h = tt
retain_others-IsTable ((name, set) ∷ subs) client h =
    elim (Bool-cases (length (set_remove set client) == 0)) [
      | inl empty ↦ rw (empty, retain_others) (retain_others-IsTable subs client h.1)
      | inr some_left ↦
          rw (some_left, retain_others)
            (retain_others-none subs client name h.0, retain_others-IsTable subs client h.1)
    ]

empty_set : (set : List ℕ) → (length set == 0) ≡ true → [] ≡ set
empty_set [] h = refl
empty_set (x ∷ set) h = absurd (ground (arith, h))

lookup-retain_others :
    (subs : List (Bytes × List ℕ)) (client : ℕ) (c : Bytes)
    → IsTable subs
    → or_empty (lookup (retain_others subs client) c) ≡ set_remove (or_empty (lookup subs c)) client
unfolding retain_others
lookup-retain_others [] client c h = refl
lookup-retain_others ((name, set) ∷ subs) client c h =
    let rest = lookup-retain_others subs client c h.1 in
    elim (Bool-cases (same name c)) [
      | inl here ↦ elim (Bool-cases (length (set_remove set client) == 0)) [
        | inl empty ↦
            let gone : lookup subs c ≡ none =
              subst (λ x. lookup subs x ≡ none) ((same_iff name c).0 here) h.0 in
            rw (empty, here, retain_others)
              (rw (retain_others-none subs client c gone) (empty_set (set_remove set client) empty))
        | inr some_left ↦ rw (some_left, here, retain_others) refl
      ]
      | inr other ↦ elim (Bool-cases (length (set_remove set client) == 0)) [
        | inl empty ↦ rw (empty, other, retain_others) rest
        | inr some_left ↦ rw (some_left, other, retain_others) rest
      ]
    ]

pub retain_others_lem :
    (subs : List (Bytes × List ℕ)) (client : ℕ)
    → IsRegistry subs
    → IsRegistry (retain_others subs client)
      × ((c : Bytes) (i : ℕ)
          → holds (retain_others subs client) c i ≡ (holds subs c i && not (same client i)))
retain_others_lem subs client h =
    let kept = λ (c : Bytes). lookup-retain_others subs client c h.0 in
    (
      (
        retain_others-IsTable subs client h.0,
        λ c.
            subst IsDistinct (sym (kept c))
              (set_remove-IsDistinct (or_empty (lookup subs c)) client (h.1 c)),
      ),
      λ c i.
          ap (λ set. names set i) (kept c)
          ∙ names-set_remove (or_empty (lookup subs c)) client i (h.1 c)
          ∙ ground arith,
    )
