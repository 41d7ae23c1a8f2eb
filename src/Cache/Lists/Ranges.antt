-- ===== src/Cache/Lists/Ranges.antt =====
-- Indices and ranges of lists: LSET against LINDEX, and LTRIM against LRANGE.
use cache_cat.Prelude.{
  ℕ, zero, suc, ◌+◌, ◌^◌, ◌<◌, ◌≤◌, ◌≡◌, refl, ◌∙◌, ap, sym, true, false, ◌&&◌, not, none, some,
  List, [], ◌∷◌, Bytes, if◌then◌else◌, length, get_elem?, set_elem, length-set_elem,
  get_elem?-set_elem, get_elem?-set_elem_other, take, drop, ltb, ◌==◌, ==_iff, arith, Bool-cases,
  inl, inr,
}
use cache_cat.Value.{Value, ValueObject, MyValue, ok}
use cache_cat.Value.Signed.{add_i64, sub_i64, lt_i64, max_i64, min_i64}
use cache_cat.Mocha.{EntrySnapshot}
use cache_cat.Cache.Read.{left_by}
use cache_cat.Cache.Lists.{
  write_list, from_end, is_outside, l_set_list, l_index, lrange, lrange_from, trimmed, trimmed_to,
  clamp_start, clamp_stop,
}

take-nil {ℓ} : {A : Type ℓ} (n : ℕ) → take {A = A} n [] ≡ []
take-nil zero = refl
take-nil (suc n) = refl

drop-take {ℓ} :
    {A : Type ℓ} (n k m : ℕ) (xs : List A) → m ≡ n + k → drop n (take m xs) ≡ take k (drop n xs)
drop-take zero k m xs e = ap (λ m. take m xs) (omega (arith, e))
drop-take (suc n) k zero xs e = absurd (omega (arith, e))
drop-take (suc n) k (suc m) [] e = sym (take-nil k)
drop-take (suc n) k (suc m) (x ∷ xs) e = drop-take n k m xs (omega (arith, e))

set-get :
    (xs : List Bytes) (i j : ℕ) (v : Bytes)
    → i < length xs
    → get_elem? (set_elem xs i v) j ≡ (if i == j then some v else get_elem? xs j)
set-get xs i j v h = elim (Bool-cases (i == j)) [
  | inl e ↦
      rw e (ap (get_elem? (set_elem xs i v)) (sym ((==_iff i j).0 e)) ∙ get_elem?-set_elem xs i v h)
  | inr e ↦ rw e (get_elem?-set_elem_other xs i j v (ground (arith, e)))
]

inside : (n i : ℕ) → n < 2 ^ 63 → i < 2 ^ 64 → is_outside n i ≡ not (ltb i n)
inside n i h k = ground (arith, h, k)

pub max-clamp_start :
    (n start : ℕ) → n < 2 ^ 63 → start < 2 ^ 64 → max_i64 (from_end n start) 0 ≡ clamp_start n start
max-clamp_start n start h p = ground (arith, h, p)

pub min-clamp_stop :
    (n stop : ℕ)
    → n < 2 ^ 63
    → 0 < n
    → stop < 2 ^ 64
    → min_i64 (from_end n stop) (sub_i64 n 1) ≡ clamp_stop n stop
min-clamp_stop n stop h pos p = ground (arith, h, pos, p)

in_order :
    (n start stop : ℕ)
    → n < 2 ^ 63
    → 0 < n
    → start < 2 ^ 64
    → stop < 2 ^ 64
    → lt_i64 (clamp_stop n stop) (clamp_start n start) ≡ false
    → (clamp_start n start ≤ clamp_stop n stop) × (clamp_stop n stop < n)
in_order n start stop h pos p q e = ground (arith, h, pos, p, q, e)

cut :
    (list : List Bytes) (f l : ℕ)
    → f ≤ l
    → l < 2 ^ 63
    → (if lt_i64 0 f then drop f (take (add_i64 l 1) list) else take (add_i64 l 1) list)
      ≡ take (add_i64 (sub_i64 l f) 1) (drop f list)
cut list zero l le h = ap (λ m. take m list) (omega (arith, h))
cut list (suc f) l le h =
    let pos : lt_i64 0 (suc f) ≡ true = ground (arith, le, h) in
    rw pos
      (drop-take (suc f) (add_i64 (sub_i64 l (suc f)) 1) (add_i64 l 1) list (omega (arith, le, h)))

trimmed_to-lrange_from :
    (list : List Bytes) (f l : ℕ)
    → (lt_i64 l f ≡ false → (f ≤ l) × (l < 2 ^ 63))
    → trimmed_to list f l ≡ lrange_from list f l
unfolding trimmed_to lrange_from
trimmed_to-lrange_from list f l h = elim (Bool-cases (lt_i64 l f)) [
  | inl past ↦ rw (past, trimmed_to, lrange_from) refl
  | inr within ↦
      let (le, fits) = h within in rw (within, trimmed_to, lrange_from) (cut list f l le fits)
]

-- LTRIM leaves just the part of the list that LRANGE reports, for all indices, in range or not.
pub trimmed-lrange :
    (list : List Bytes) (start stop : ℕ)
    → length list < 2 ^ 63
    → start < 2 ^ 64
    → stop < 2 ^ 64
    → trimmed list start stop ≡ lrange list start stop
unfolding trimmed lrange
trimmed-lrange [] start stop h p q = refl
trimmed-lrange (x ∷ xs) start stop h p q =
    let n : ℕ = suc (length xs) in
    let some_elements : (n == 0) ≡ false = ground arith in
    rw
      (
        some_elements,
        max-clamp_start n start h p,
        min-clamp_stop n stop h (omega arith) q,
        trimmed,
        lrange,
      )
      (trimmed_to-lrange_from (x ∷ xs) (clamp_start n start) (clamp_stop n stop) (λ e.
        let (le, lt) = in_order n start stop h (omega arith) p q e in (le, omega (arith, lt, h))))

l_index-list :
    (v : EntrySnapshot MyValue) (l : List Bytes) (j : ℕ)
    → v.value.data_ ≡ ValueObject.list l
    → l_index j (some v) ≡ (
        if is_outside (length l) (from_end (length l) j)
        then Value.bulk_string none
        else Value.bulk_string (get_elem? l (from_end (length l) j)))
unfolding l_index
l_index-list v l j e = rw (e, l_index) refl

l_set-inside :
    (entry : EntrySnapshot MyValue) (index : ℕ) (value : Bytes) (list : List Bytes)
    → is_outside (length list) (from_end (length list) index) ≡ false
    → ((l_set_list entry index value list).1 ≡ ok)
      × ((left_by (l_set_list entry index value list) entry).value.data_
          ≡ ValueObject.list (set_elem list (from_end (length list) index) value))
unfolding l_set_list write_list
l_set-inside entry index value list e = rw (e, l_set_list) (refl, refl)

-- LSET then LINDEX, for all indices, in range or not: an index that names the element that was set
-- finds the new value, and every other index finds what it found before. LSET answers OK where its
-- index is in range, and if not an error.
pub l_set-l_index :
    (entry : EntrySnapshot MyValue) (list : List Bytes) (index j : ℕ) (value : Bytes)
    → entry.value.data_ ≡ ValueObject.list list
    → length list < 2 ^ 63
    → index < 2 ^ 64
    → j < 2 ^ 64
    → ((l_set_list entry index value list).1 ≡ (
        if is_outside (length list) (from_end (length list) index)
        then Value.error "ERR index out of range"
        else ok))
      × (l_index j (some (left_by (l_set_list entry index value list) entry)) ≡ (
          if not (is_outside (length list) (from_end (length list) index))
            && (from_end (length list) index == from_end (length list) j)
          then Value.bulk_string (some value)
          else l_index j (some entry)))
unfolding l_set_list
l_set-l_index entry list index j value e h p q =
    let n : ℕ = length list in
    let i : ℕ = from_end n index in
    let same_length = length-set_elem list i value in
    elim (Bool-cases (is_outside n i)) [
      | inl out ↦ rw (out, l_set_list) (refl, refl)
      | inr within ↦
          let (replied, left) = l_set-inside entry index value list within in
          let after = left_by (l_set_list entry index value list) entry in
          let lt : i < n = ground (arith, within, h, p) in
          (
            replied ∙ rw within refl,
            l_index-list after (set_elem list i value) j left
                ∙ rw (length-set_elem list i value, l_index-list entry list j e)
                    (ground (arith, within, set-get list i (from_end n j) value lt)),
          )
    ]
