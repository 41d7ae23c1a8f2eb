-- ===== src/Cache/Sets/Members.antt =====
-- Sets as lists of members: membership under removal and sorting, and that two lists of the same
-- members are sorted alike.
use cache_cat.Prelude.{
  suc, ◌≡◌, refl, ◌∙◌, ap, sym, subst, Bool, true, false, ◌||◌, List, [], ◌∷◌, Bytes, same,
  same_iff, same_self, bytes_eq, length, arith, Bool-cases, inl, inr, All,
}
use cache_cat.Value.HashSet.{IsDistinct}
use cache_cat.Value.Table.{names}
use cache_cat.Value.ZSet.{lex}
use cache_cat.Value.ZSet.Order.{lex_trans, lex_self, lex_same}
use cache_cat.Cache.Sets.{insert_sorted, sort}

names-insert_sorted :
    (x : Bytes) (sorted : List Bytes) (m : Bytes)
    → names (insert_sorted x sorted) m ≡ (same x m || names sorted m)
names-insert_sorted x [] m = refl
names-insert_sorted x (y ∷ sorted) m = elim (Bool-cases (lex x y)) [
  | inl before ↦ rw before refl
  | inr after ↦ rw after (ground (arith, names-insert_sorted x sorted m))
]

pub names-sort : (set : List Bytes) (m : Bytes) → names (sort set) m ≡ names set m
names-sort [] m = refl
names-sort (x ∷ set) m =
    names-insert_sorted x (sort set) m ∙ ap (λ b. same x m || b) (names-sort set m)

length-insert_sorted :
    (x : Bytes) (sorted : List Bytes) → length (insert_sorted x sorted) ≡ suc (length sorted)
length-insert_sorted x [] = refl
length-insert_sorted x (y ∷ sorted) = elim (Bool-cases (lex x y)) [
  | inl before ↦ rw before refl
  | inr after ↦ rw after (ap suc (length-insert_sorted x sorted))
]

pub length-sort : (set : List Bytes) → length (sort set) ≡ length set
length-sort [] = refl
length-sort (x ∷ set) = length-insert_sorted x (sort set) ∙ ap suc (length-sort set)

-- Each member is before all that follow it.
abbrev IsStrict : List Bytes → Type 0
IsStrict [] = Unit
IsStrict (x ∷ sorted) = All (λ y. lex x y ≡ true) sorted × IsStrict sorted

All-lex :
    (x y : Bytes) (sorted : List Bytes)
    → lex x y ≡ true
    → All (λ z. lex y z ≡ true) sorted
    → All (λ z. lex x z ≡ true) sorted
All-lex x y [] h k = tt
All-lex x y (z ∷ sorted) h k = (lex_trans x y z h k.0, All-lex x y sorted h k.1)

insert_sorted-All :
    (P : Bytes → Type 0) (x : Bytes) (sorted : List Bytes)
    → P x
    → All P sorted
    → All P (insert_sorted x sorted)
insert_sorted-All P x [] p h = (p, tt)
insert_sorted-All P x (y ∷ sorted) p h = elim (Bool-cases (lex x y)) [
  | inl before ↦ rw before (p, h)
  | inr after ↦ rw after (h.0, insert_sorted-All P x sorted p h.1)
]

opposite : (b : Bool) → b ≡ true → b ≡ false → ⊥
opposite b h k = ground (arith, h, k)

above : (x y : Bytes) → lex x y ≡ false → same y x ≡ false → lex y x ≡ true
above x y h apart = elim (Bool-cases (lex y x)) [
  | inl before ↦ before
  | inr neither ↦
      let equal : x ≡ y = lex_same x y h neither in
      absurd (opposite (same y x) (subst (λ z. same z x ≡ true) equal (same_self x)) apart)
]

insert_sorted-IsStrict :
    (x : Bytes) (sorted : List Bytes)
    → names sorted x ≡ false
    → IsStrict sorted
    → IsStrict (insert_sorted x sorted)
insert_sorted-IsStrict x [] n h = (tt, tt)
insert_sorted-IsStrict x (y ∷ sorted) n h = elim (Bool-cases (lex x y)) [
  | inl before ↦ rw before ((before, All-lex x y sorted before h.0), h)
  | inr after ↦ rw after (
    insert_sorted-All (λ z. lex y z ≡ true) x sorted (above x y after (ground (arith, n))) h.0,
    insert_sorted-IsStrict x sorted (ground (arith, n)) h.1,
  )
]

pub sort-IsStrict : (set : List Bytes) → IsDistinct set → IsStrict (sort set)
sort-IsStrict [] h = tt
sort-IsStrict (x ∷ set) h =
    insert_sorted-IsStrict x (sort set) (names-sort set x ∙ h.0) (sort-IsStrict set h.1)

below : (x : Bytes) (l : List Bytes) → All (λ y. lex x y ≡ true) l → names l x ≡ false
below x [] h = refl
below x (y ∷ l) h = elim (Bool-cases (same y x)) [
  | inl equal ↦
      absurd
        (opposite (lex x x) (subst (λ z. lex x z ≡ true) ((same_iff y x).0 equal) h.0) (lex_self x))
  | inr apart ↦ rw apart (below x l h.1)
]

-- Two lists in order with the same members are the same.
tails :
    (x : Bytes) (a b : List Bytes) (m : Bytes)
    → names a x ≡ false
    → names b x ≡ false
    → names (x ∷ a) m ≡ names (x ∷ b) m
    → names a m ≡ names b m
tails x a b m h k e = elim (Bool-cases (same x m)) [
  | inl found ↦
      let x_m : x ≡ m = (same_iff x m).0 found in
      subst (λ y. names a y ≡ false) x_m h ∙ sym (subst (λ y. names b y ≡ false) x_m k)
  | inr past ↦ subst (λ t. (t || names a m) ≡ (t || names b m)) past e
]

not_first :
    (x y : Bytes) (a b : List Bytes)
    → lex x y ≡ true
    → All (λ z. lex y z ≡ true) b
    → ((m : Bytes) → names (x ∷ a) m ≡ names (y ∷ b) m)
    → ⊥
not_first x y a b before h e =
    let there : names (x ∷ a) x ≡ true = ap (λ t. t || names a x) (same_self x) in
    opposite (names (y ∷ b) x) (sym (e x) ∙ there)
      (below x (y ∷ b) (before, All-lex x y b before h))

unique :
    (a b : List Bytes) → IsStrict a → IsStrict b → ((m : Bytes) → names a m ≡ names b m) → a ≡ b
unique [] [] h k e = refl
unique [] (y ∷ b) h k e =
    absurd (opposite (names (y ∷ b) y) (ap (λ t. t || names b y) (same_self y)) (sym (e y)))
unique (x ∷ a) [] h k e =
    absurd (opposite (names (x ∷ a) x) (ap (λ t. t || names a x) (same_self x)) (e x))
unique (x ∷ a) (y ∷ b) h k e = elim (Bool-cases (lex x y)) [
  | inl before ↦ absurd (not_first x y a b before k.0 e)
  | inr after ↦ elim (Bool-cases (lex y x)) [
    | inl before ↦ absurd (not_first y x b a before h.0 (λ m. sym (e m)))
    | inr neither ↦
        let equal : y ≡ x = sym (lex_same x y after neither) in
        let all_x : (m : Bytes) → names (x ∷ a) m ≡ names (x ∷ b) m =
          λ m. e m ∙ ap (λ z. names (z ∷ b) m) equal in
        let below_b : names b x ≡ false =
          below x b (subst (λ z. All (λ w. lex z w ≡ true) b) equal k.0) in
        let rest : a ≡ b =
          unique a b h.1 k.1 (λ m. tails x a b m (below x a h.0) below_b (all_x m)) in
        ap (λ l. x ∷ l) rest ∙ ap (λ z. z ∷ b) (sym equal)
  ]
]

-- The members of a set in order do not depend on the order of a pass over it.
pub sort-same :
    (a b : List Bytes)
    → IsDistinct a
    → IsDistinct b
    → ((m : Bytes) → names a m ≡ names b m)
    → sort a ≡ sort b
sort-same a b h k e =
    unique (sort a) (sort b) (sort-IsStrict a h) (sort-IsStrict b k)
      (λ m. names-sort a m ∙ e m ∙ sym (names-sort b m))
