-- ===== src/Cache/ZSets/Ranges.antt =====
-- ZRANGE: the part of a sorted set between two indices, as LRANGE has it of a list, and all of it.
use cache_cat.Prelude.{
  ℕ, zero, suc, ◌-◌, ◌^◌, ◌<◌, ◌≤◌, ◌≡◌, refl, ◌∙◌, ap, true, false, not, List, [], ◌∷◌, Bytes,
  same, bytes_eq, if◌then◌else◌, length, take, ◌==◌, arith, Bool-cases, inl, inr,
}
use cache_cat.Value.{SortedSet}
use cache_cat.Value.Signed.{add_i64, sub_i64, is_negative, lt_i64, min_i64}
use cache_cat.Value.ZSet.{pairs, zrange_from, zrange, zscore}
use cache_cat.Value.ZSet.Coherent.{IsCoherent}
use cache_cat.Value.ZSet.Coherent.Entries.{scores, as_list}
use cache_cat.Cache.Lists.{lrange, lrange_from, clamp_start, clamp_stop}
use cache_cat.Cache.Lists.Ranges.{max-clamp_start, min-clamp_stop}

pairs-from :
    (tree : List (ℕ × Bytes)) (s t : ℕ)
    → length tree < 2 ^ 63
    → s < 2 ^ 63
    → lt_i64 t (length tree) ≡ true
    → t < 2 ^ 64
    → zrange_from tree s t ≡ pairs (lrange_from tree s t)
unfolding zrange_from lrange_from
pairs-from tree s t h k lt p = elim (Bool-cases (lt_i64 t s)) [
  | inl past ↦ elim (Bool-cases (is_negative t)) [
    | inl before ↦ rw (past, before, zrange_from, lrange_from) refl
    | inr on ↦ elim (Bool-cases (not (lt_i64 s (length tree)))) [
      | inl beyond ↦ rw (past, on, beyond, zrange_from, lrange_from) refl
      | inr within ↦ rw (past, on, within, zrange_from, lrange_from) refl
    ]
  ]
  | inr order ↦
      let on : is_negative t ≡ false = ground (arith, order, k, p) in
      let within : lt_i64 s (length tree) ≡ true = ground (arith, order, lt, h, k, p) in
      rw (order, on, within, zrange_from, lrange_from) refl
]

-- The scores that a list of members has for one of them.
abbrev pub scores_in : List (Bytes × ℕ) → Bytes → List ℕ
scores_in [] m = []
scores_in (e ∷ members) m = if same e.0 m then e.1 ∷ scores_in members m else scores_in members m

scores_in-pairs : (tree : List (ℕ × Bytes)) (m : Bytes) → scores_in (pairs tree) m ≡ scores tree m
scores_in-pairs [] m = refl
scores_in-pairs (e ∷ tree) m = ap (λ l. if same e.1 m then e.0 ∷ l else l) (scores_in-pairs tree m)

take-all {ℓ} : {A : Type ℓ} (n : ℕ) (xs : List A) → length xs ≤ n → take n xs ≡ xs
take-all zero [] h = refl
take-all zero (x ∷ xs) h = absurd (omega (arith, h))
take-all (suc n) [] h = refl
take-all (suc n) (x ∷ xs) h = ap (λ l. x ∷ l) (take-all n xs (omega (arith, h)))

clamped :
    (n start stop : ℕ)
    → n < 2 ^ 63
    → 0 < n
    → start < 2 ^ 64
    → stop < 2 ^ 64
    → (clamp_start n start < 2 ^ 63)
      × (lt_i64 (clamp_stop n stop) n ≡ true)
      × (clamp_stop n stop < 2 ^ 64)
clamped n start stop h pos p q = ground (arith, h, pos, p, q)

zrange-part :
    (tree : List (ℕ × Bytes)) (hash : List (Bytes × ℕ)) (start stop : ℕ)
    → length tree < 2 ^ 63
    → start < 2 ^ 64
    → stop < 2 ^ 64
    → zrange (record { tree = tree; hash = hash }) start stop ≡ pairs (lrange tree start stop)
unfolding zrange lrange
zrange-part [] hash start stop h p q = refl
zrange-part (x ∷ tree) hash start stop h p q =
    let n : ℕ = suc (length tree) in
    let some_elements : (n == 0) ≡ false = ground arith in
    let (first, last, small) = clamped n start stop h (omega arith) p q in
    rw
      (
        some_elements,
        max-clamp_start n start h p,
        min-clamp_stop n stop h (omega arith) q,
        zrange,
        lrange,
      )
      (pairs-from (x ∷ tree) (clamp_start n start) (clamp_stop n stop) h first last small)

lrange-all : (tree : List (ℕ × Bytes)) → length tree < 2 ^ 63 → lrange tree 0 (2 ^ 64 - 1) ≡ tree
unfolding lrange lrange_from
lrange-all [] h = refl
lrange-all (x ∷ tree) h =
    let n : ℕ = suc (length tree) in
    let some_elements : (n == 0) ≡ false = ground arith in
    let last : min_i64 (add_i64 n (2 ^ 64 - 1)) (sub_i64 n 1) ≡ length tree = ground (arith, h) in
    let order : lt_i64 (length tree) 0 ≡ false = ground (arith, h) in
    rw (some_elements, last, order, lrange, lrange_from)
      (take-all (add_i64 (sub_i64 (length tree) 0) 1) (x ∷ tree) (ground (arith, h)))

-- ZRANGE between two indices lists the entries of the tree that LRANGE takes of a list, for all
-- indices, in range or not; from the first to the last it lists the members in order, each member
-- with the score that ZSCORE has for it, once, and no member without one, where the two halves of
-- the set agree.
pub zrange_lem :
    (rank : ℕ → ℕ) (z : SortedSet) (start stop : ℕ) (m : Bytes)
    → IsCoherent rank z
    → length z.tree < 2 ^ 63
    → start < 2 ^ 64
    → stop < 2 ^ 64
    → (zrange z start stop ≡ pairs (lrange z.tree start stop))
      × (zrange z 0 (2 ^ 64 - 1) ≡ pairs z.tree)
      × (scores_in (zrange z 0 (2 ^ 64 - 1)) m ≡ as_list (zscore z m))
unfolding zscore
zrange_lem rank z start stop m c h p q =
    let all : zrange z 0 (2 ^ 64 - 1) ≡ pairs z.tree =
      zrange-part z.tree z.hash 0 (2 ^ 64 - 1) h (omega arith) (omega arith)
      ∙ ap pairs (lrange-all z.tree h) in
    (
      zrange-part z.tree z.hash start stop h p q,
      all,
      ap (λ l. scores_in l m) all ∙ scores_in-pairs z.tree m ∙ c.2 m,
    )
