-- ===== src/Cache/Lists/Removal.antt =====
-- The loops of LREM against a description: the first elements that match go, or the last ones.
use cache_cat.Prelude.{
  ℕ, zero, suc, ◌+◌, ◌-◌, ◌^◌, ◌<◌, ◌≤◌, ◌≡◌, ◌≢◌, refl, ◌∙◌, ap, sym, true, false, ◌&&◌, none,
  some, List, [], ◌∷◌, ◌++◌, reverse, reverse-cons, Bytes, bytes_eq, same, if◌then◌else◌, length,
  length-append, length-reverse, get_elem?, ltb, ◌==◌, arith, Bool-cases, inl, inr,
}
use mathlib.Core.List.{append_assoc, append-nil, reverse-reverse}
use cache_cat.Value.Signed.{sub_i64, is_negative, lt_i64}
use cache_cat.Cache.Lists.{
  is_at, remove_at, remove_front, remove_each, remove_back, remove_elements,
}

-- The first `n` elements that are equal to `x` taken out: how many there were, and the rest.
abbrev pub remove_first : ℕ → Bytes → List Bytes → ℕ × List Bytes
remove_first n x [] = (0, [])
remove_first n x (y ∷ ys) =
    let here = remove_first (n - 1) x ys in
    let later = remove_first n x ys in
    if ltb 0 n && same y x then (here.0 + 1, here.1) else (later.0, y ∷ later.1)

remove_first-zero : (x : Bytes) (ys : List Bytes) → remove_first 0 x ys ≡ (0, ys)
remove_first-zero x [] = refl
remove_first-zero x (y ∷ ys) = ground (arith, remove_first-zero x ys)

get_elem?-middle :
    (xs : List Bytes) (y : Bytes) (ys : List Bytes)
    → get_elem? (xs ++ (y ∷ ys)) (length xs) ≡ some y
get_elem?-middle [] y ys = refl
get_elem?-middle (x ∷ xs) y ys = get_elem?-middle xs y ys

remove_at-middle :
    (xs : List Bytes) (y : Bytes) (ys : List Bytes)
    → remove_at (xs ++ (y ∷ ys)) (length xs) ≡ xs ++ ys
remove_at-middle [] y ys = refl
remove_at-middle (x ∷ xs) y ys = ap (λ l. x ∷ l) (remove_at-middle xs y ys)

remove_front-first :
    (rounds : ℕ) (done rest : List Bytes) (count removed : ℕ) (x : Bytes)
    → length rest ≤ rounds
    → count < 2 ^ 63
    → remove_front rounds (done ++ rest) (length done) count x removed
      ≡ (removed + (remove_first count x rest).0, done ++ (remove_first count x rest).1)
unfolding remove_front
remove_front-first zero done [] count removed x h p = ground arith
remove_front-first zero done (y ∷ rest) count removed x h p = absurd (omega (arith, h))
remove_front-first (suc rounds) done [] count removed x h p =
    let out : ltb (length done) (length (done ++ [])) ≡ false =
      ground (arith, length-append done []) in
    rw (out, remove_front) (ground arith)
remove_front-first (suc rounds) done (y ∷ rest) count removed x h p =
    let within : ltb (length done) (length (done ++ (y ∷ rest))) ≡ true =
      ground (arith, length-append done (y ∷ rest)) in
    let at : is_at (done ++ (y ∷ rest)) (length done) x ≡ same y x =
      ap (λ o. elim o [ none ↦ false | some z ↦ same z x ]) (get_elem?-middle done y rest) in
    elim (Bool-cases (lt_i64 0 count)) [
      | inr stop ↦
          let zero_count : count ≡ 0 = ground (arith, stop, p) in
          rw (within, stop, remove_front) (rw (zero_count, remove_first-zero x rest) (ground arith))
      | inl go ↦
          let some_count : ltb 0 count ≡ true = ground (arith, go, p) in
          elim (Bool-cases (same y x)) [
            | inl hit ↦
                let ih =
                  remove_front-first rounds done rest (count - 1) (removed + 1) x (omega (arith, h))
                    (omega (arith, p)) in
                rw (within, go, at, hit, some_count, remove_at-middle done y rest, remove_front)
                  (ih ∙ ground arith)
            | inr miss ↦
                let ih =
                  remove_front-first rounds (done ++ (y ∷ [])) rest count removed x
                    (omega (arith, h)) p in
                let one_more : suc (length done) ≡ length (done ++ (y ∷ [])) =
                  omega (arith, length-append done (y ∷ [])) in
                let regroup = append_assoc done (y ∷ []) rest in
                rw (within, go, at, miss, some_count, remove_front)
                  (ap (λ l. remove_front rounds l (suc (length done)) count x removed) (sym regroup)
                    ∙ ap (λ n. remove_front rounds ((done ++ (y ∷ [])) ++ rest) n count x removed)
                        one_more
                    ∙ ih
                    ∙ ap (λ l. (removed + (remove_first count x rest).0, l))
                        (append_assoc done (y ∷ []) (remove_first count x rest).1))
          ]
    ]

length-remove_at : (l : List Bytes) (i : ℕ) → i < length l → length l ≡ suc (length (remove_at l i))
length-remove_at [] i h = absurd (omega (arith, h))
length-remove_at (x ∷ l) zero h = refl
length-remove_at (x ∷ l) (suc i) h = ap suc (length-remove_at l i (omega (arith, h)))

-- With a count that is never met, the two loops from the front agree.
remove_each-front :
    (rounds : ℕ) (list : List Bytes) (i count removed : ℕ) (x : Bytes)
    → length list ≤ count + i
    → count < 2 ^ 63
    → remove_each rounds list i x removed ≡ remove_front rounds list i count x removed
unfolding remove_each remove_front
remove_each-front zero list i count removed x h p = refl
remove_each-front (suc rounds) list i count removed x h p =
    elim (Bool-cases (ltb i (length list))) [
      | inr out ↦ rw (out, remove_each, remove_front) refl
      | inl within ↦
          let go : lt_i64 0 count ≡ true = ground (arith, within, h, p) in
          let shorter = length-remove_at list i (ground (arith, within)) in
          elim (Bool-cases (is_at list i x)) [
            | inl hit ↦
                rw (within, go, hit, remove_each, remove_front)
                  (remove_each-front rounds (remove_at list i) i (count - 1) (removed + 1) x
                    (ground (arith, within, shorter, h)) (omega (arith, p)))
            | inr miss ↦
                rw (within, go, miss, remove_each, remove_front)
                  (remove_each-front rounds list (suc i) count removed x (omega (arith, h)) p)
          ]
    ]

remove_back-first :
    (r post : List Bytes) (count removed : ℕ) (x : Bytes)
    → count < 2 ^ 63
    → remove_back (reverse r ++ post) (length r) count x removed
      ≡ (removed + (remove_first count x r).0, reverse (remove_first count x r).1 ++ post)
unfolding remove_back
remove_back-first [] post count removed x p = ground arith
remove_back-first (y ∷ r) post count removed x p =
    let len : length r ≡ length (reverse r) = sym (length-reverse r) in
    let split : reverse (y ∷ r) ++ post ≡ reverse r ++ (y ∷ post) =
      ap (λ l. l ++ post) (reverse-cons y r) ∙ append_assoc (reverse r) (y ∷ []) post in
    let at : is_at (reverse r ++ (y ∷ post)) (length r) x ≡ same y x =
      ap (λ n. is_at (reverse r ++ (y ∷ post)) n x) len
      ∙ ap (λ o. elim o [ none ↦ false | some z ↦ same z x ])
          (get_elem?-middle (reverse r) y post) in
    let out : remove_at (reverse r ++ (y ∷ post)) (length r) ≡ reverse r ++ post =
      ap (λ n. remove_at (reverse r ++ (y ∷ post)) n) len ∙ remove_at-middle (reverse r) y post in
    ap (λ l. remove_back l (suc (length r)) count x removed) split
    ∙ elim (Bool-cases (lt_i64 0 count)) [
      | inr stop ↦
          let zero_count : count ≡ 0 = ground (arith, stop, p) in
          rw (stop, remove_back) (rw (zero_count, remove_first-zero x r) (ground arith))
      | inl go ↦
          let some_count : ltb 0 count ≡ true = ground (arith, go, p) in
          elim (Bool-cases (same y x)) [
            | inl hit ↦
                let ih = remove_back-first r post (count - 1) (removed + 1) x (omega (arith, p)) in
                rw (go, at, hit, some_count, out, remove_back) (ih ∙ ground arith)
            | inr miss ↦
                let ih = remove_back-first r (y ∷ post) count removed x p in
                rw (go, at, miss, some_count, remove_back)
                  (ih
                    ∙ ap (λ l. (removed + (remove_first count x r).0, l))
                        (sym (append_assoc (reverse (remove_first count x r).1) (y ∷ []) post)
                          ∙ ap (λ l. l ++ post) (sym (reverse-cons y (remove_first count x r).1))))
          ]
    ]

from_zero : (r : ℕ × List Bytes) → (0 + r.0, r.1) ≡ r
from_zero (n, l) = ap (λ k. (k, l)) (omega arith)

-- LREM, for all counts but the least i64: a positive count takes out that many of the elements
-- that are equal to the given one, from the front; a negative one from the back; zero takes out all
-- of them. The reply is how many went.
pub remove_elements_lem :
    (list : List Bytes) (count : ℕ) (x : Bytes)
    → length list < 2 ^ 63
    → count < 2 ^ 64
    → count ≢ 2 ^ 63
    → remove_elements list count x ≡ (
        if count == 0
        then remove_first (length list) x list
        else if is_negative count
        then (
          (remove_first (2 ^ 64 - count) x (reverse list)).0,
          reverse (remove_first (2 ^ 64 - count) x (reverse list)).1,
        )
        else remove_first count x list)
unfolding remove_elements
remove_elements_lem list count x h k least = elim (Bool-cases (count == 0)) [
  | inl zero_count ↦
      rw (zero_count, remove_elements)
        (remove_each-front (length list) list 0 (length list) 0 x (omega arith) h
          ∙ remove_front-first (length list) [] list (length list) 0 x (omega arith) h
          ∙ from_zero (remove_first (length list) x list))
  | inr counted ↦ elim (Bool-cases (is_negative count)) [
    | inl back ↦
        let from_back : sub_i64 0 count ≡ 2 ^ 64 - count = ground (arith, k, counted) in
        let bound : 2 ^ 64 - count < 2 ^ 63 = ground (arith, k, back, least) in
        rw (counted, back, from_back, remove_elements)
          (ap (λ l. remove_back l (length list) (2 ^ 64 - count) x 0)
              (sym (reverse-reverse list) ∙ sym (append-nil (reverse (reverse list))))
            ∙ ap (λ n. remove_back (reverse (reverse list) ++ []) n (2 ^ 64 - count) x 0)
                (sym (length-reverse list))
            ∙ remove_back-first (reverse list) [] (2 ^ 64 - count) 0 x bound
            ∙ from_zero (
              (remove_first (2 ^ 64 - count) x (reverse list)).0,
              reverse (remove_first (2 ^ 64 - count) x (reverse list)).1 ++ [],
            )
            ∙ ap (λ l. ((remove_first (2 ^ 64 - count) x (reverse list)).0, l))
                (append-nil (reverse (remove_first (2 ^ 64 - count) x (reverse list)).1)))
    | inr front ↦
        rw (counted, front, remove_elements)
          (remove_front-first (length list) [] list count 0 x (omega arith)
              (ground (arith, front, k))
            ∙ from_zero (remove_first count x list))
  ]
]
