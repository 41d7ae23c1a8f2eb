-- ===== src/Value/ZSet.antt =====
-- SortedSet, cache_cat/src/raft/types/core/sorted_set.rs. The tree is the list of its entries in
-- their order, by score and then by member. The order of scores is that of OrderedFloat, of
-- another package: `rank` is the place of a score in it, and no law of it is used. The hash table
-- is the list of its entries, in the order of a pass over it.
pub mod Order
pub mod Coherent
pub mod Scores
use cache_cat.Prelude.{
  ℕ, zero, suc, ◌+◌, ◌-◌, ◌%◌, ◌^◌, Bool, true, false, ◌&&◌, ◌||◌, not, Option, none, some, List,
  [], ◌∷◌, ◌++◌, reverse, Bytes, same, bytes_eq, if◌then◌else◌, length, take, drop, ltb, leb, ◌==◌,
}
use cache_cat.Value.{SortedSet}
use cache_cat.Value.Table.{lookup, put, forget}
use cache_cat.Value.Double.{is_nan, lt_f64, le_f64, eq_f64}
use cache_cat.Value.Signed.{add_i64, sub_i64, is_negative, lt_i64}

-- `Ord` of Bytes.
abbrev pub lex : Bytes → Bytes → Bool
lex [] [] = false
lex [] (y ∷ ys) = true
lex (x ∷ xs) [] = false
lex (x ∷ xs) (y ∷ ys) = ltb x y || ((x == y) && lex xs ys)

pub record ZAddReq : Type 0 where
  pub key : Bytes
  pub nx : Bool
  pub xx : Bool
  pub gt : Bool
  pub lt : Bool
  pub ch : Bool
  pub members : List (Bytes × ℕ)

abbrev pub empty : SortedSet
empty = record { tree = []; hash = [] }

module _ (rank : ℕ → ℕ) where
  -- `Ord` of the pairs `(OrderedFloat(score), member)`.
  abbrev pub less : ℕ × Bytes → ℕ × Bytes → Bool
  less a b = ltb (rank a.0) (rank b.0) || ((rank a.0 == rank b.0) && lex a.1 b.1)

  -- `BTreeSet::insert`, which keeps an equal entry, and `BTreeSet::remove`.
  abbrev pub tree_insert : ℕ × Bytes → List (ℕ × Bytes) → List (ℕ × Bytes)
  tree_insert e [] = e ∷ []
  tree_insert e (x ∷ tree) =
      let rest = tree_insert e tree in
      if less e x then e ∷ x ∷ tree else if less x e then x ∷ rest else x ∷ tree

  abbrev pub tree_remove : ℕ × Bytes → List (ℕ × Bytes) → List (ℕ × Bytes)
  tree_remove e [] = []
  tree_remove e (x ∷ tree) =
      let rest = tree_remove e tree in if not (less e x) && not (less x e) then tree else x ∷ rest

  -- A member that is there gets another score, and a new member its first one.
  unfoldable pub rescore : SortedSet → Bytes → ℕ → ℕ → SortedSet
  rescore z member old score = record {
    tree = tree_insert (score, member) (tree_remove (old, member) z.tree);
    hash = put z.hash member score;
  }

  unfoldable pub add_member : SortedSet → Bytes → ℕ → SortedSet
  add_member z member score = record {
    tree = tree_insert (score, member) z.tree;
    hash = put z.hash member score;
  }

  -- A round of the loop of `zadd`: the set, and whether a member is new and whether one changed.
  unfoldable pub zadd_member : ZAddReq → SortedSet → Bytes × ℕ → SortedSet × ℕ × ℕ
  unfolding rescore add_member
  zadd_member req z (member, score) = elim (lookup z.hash member) [
    | none ↦ if req.xx then (z, 0, 0) else (add_member z member score, 1, 1)
    | some old ↦
        if req.nx
        then (z, 0, 0)
        else if req.gt && le_f64 score old
        then (z, 0, 0)
        else if req.lt && le_f64 old score
        then (z, 0, 0)
        else if eq_f64 old score
        then (z, 0, 0)
        else (rescore z member old score, 0, 1)
  ]

  unfoldable pub zadd_loop : ZAddReq → SortedSet → List (Bytes × ℕ) → ℕ → ℕ → SortedSet × ℕ × ℕ
  unfolding zadd_member
  zadd_loop req z [] added changed = (z, added, changed)
  zadd_loop req z (e ∷ members) added changed =
      let (z', new, moved) = zadd_member req z e in
      zadd_loop req z' members (added + new) (changed + moved)

  unfoldable pub zadd : SortedSet → ZAddReq → SortedSet × ℕ
  unfolding zadd_loop
  zadd z req =
      let (z', added, changed) = zadd_loop req z req.members 0 0 in
      (z', if req.ch then changed else added)

  unfoldable pub zrem_loop : SortedSet → List Bytes → ℕ → SortedSet × ℕ
  zrem_loop z [] removed = (z, removed)
  zrem_loop z (member ∷ members) removed = elim (lookup z.hash member) [
    | none ↦ zrem_loop z members removed
    | some score ↦
        zrem_loop
          (record { tree = tree_remove (score, member) z.tree; hash = forget z.hash member })
          members (removed + 1)
  ]

  unfoldable pub zrem : SortedSet → List Bytes → SortedSet × ℕ
  unfolding zrem_loop
  zrem z members = zrem_loop z members 0

  -- `add` is the addition of f64.
  unfoldable pub zincrby : (ℕ → ℕ → ℕ) → SortedSet → Bytes → ℕ → SortedSet × Option ℕ
  unfolding rescore add_member
  zincrby add z member increment = elim (lookup z.hash member) [
    | none ↦
        let new_score = add 0 increment in
        if is_nan new_score then (z, none) else (add_member z member new_score, some new_score)
    | some old ↦
        let new_score = add old increment in
        if is_nan new_score
        then (z, none)
        else if eq_f64 old new_score
        then (z, some new_score)
        else (rescore z member old new_score, some new_score)
  ]

  -- `position` of the entry of a member.
  abbrev pub position : ℕ × Bytes → List (ℕ × Bytes) → ℕ → Option ℕ
  position key [] i = none
  position key (x ∷ tree) i =
      let later = position key tree (i + 1) in
      if (rank x.0 == rank key.0) && same x.1 key.1 then some i else later

  unfoldable pub zrank : SortedSet → Bytes → Option ℕ
  zrank z member = elim (lookup z.hash member) [
    | none ↦ none
    | some score ↦ position (score, member) z.tree 0
  ]

  unfoldable pub zrevrank : SortedSet → Bytes → Option ℕ
  zrevrank z member = elim (lookup z.hash member) [
    | none ↦ none
    | some score ↦ position (score, member) (reverse z.tree) 0
  ]

unfoldable pub zscore : SortedSet → Bytes → Option ℕ
zscore z member = lookup z.hash member

unfoldable pub len : SortedSet → ℕ
len z = length z.hash

unfoldable pub is_empty : SortedSet → Bool
is_empty z = length z.hash == 0

-- The loop of `zpop_min`.
unfoldable pub pop_loop : ℕ → SortedSet → SortedSet × List (Bytes × ℕ)
pop_loop zero z = (z, [])
pop_loop (suc count) z = elim z.tree [
  | [] ↦ (z, [])
  | e ∷ tree ↦
      let (z', values) = pop_loop count (record { tree = tree; hash = forget z.hash e.1 }) in
      (z', (e.1, e.0) ∷ values)
]

unfoldable pub zpop_min : SortedSet → Option ℕ → SortedSet × List (Bytes × ℕ)
unfolding pop_loop
zpop_min z none = pop_loop 1 z
zpop_min z (some count) = pop_loop count z

-- The members with their scores.
abbrev pub pairs : List (ℕ × Bytes) → List (Bytes × ℕ)
pairs [] = []
pairs (e ∷ tree) = (e.1, e.0) ∷ pairs tree

unfoldable pub zrange_from : List (ℕ × Bytes) → ℕ → ℕ → List (Bytes × ℕ)
zrange_from tree start stop =
    if is_negative stop
    then []
    else if not (lt_i64 start (length tree)) || lt_i64 stop start
    then []
    else pairs (take (add_i64 (sub_i64 stop start) 1) (drop start tree))

unfoldable pub zrange : SortedSet → ℕ → ℕ → List (Bytes × ℕ)
unfolding zrange_from
zrange z start stop =
    let n = length z.tree in
    let start_idx = if is_negative start then add_i64 n start else start in
    let stop_idx = if is_negative stop then add_i64 n stop else stop in
    if n == 0
    then []
    else zrange_from z.tree (if is_negative start_idx then 0 else start_idx)
        (if lt_i64 stop_idx n then stop_idx else sub_i64 n 1)

-- The bounds of ZCOUNT, each inclusive or exclusive.
abbrev pub in_range : ℕ → ℕ → Bool → Bool → ℕ → Bool
in_range min max min_exclusive max_exclusive score =
    (if min_exclusive then lt_f64 min score else le_f64 min score)
    && (if max_exclusive then lt_f64 score max else le_f64 score max)

abbrev pub count_range : (ℕ → Bool) → List (ℕ × Bytes) → ℕ
count_range test [] = 0
count_range test (e ∷ tree) = if test e.0 then count_range test tree + 1 else count_range test tree

unfoldable pub zcount : SortedSet → ℕ → ℕ → Bool → Bool → ℕ
zcount z min max min_exclusive max_exclusive =
    if length z.tree == 0
    then 0
    else if lt_f64 max min
    then 0
    else count_range (in_range min max min_exclusive max_exclusive) z.tree
