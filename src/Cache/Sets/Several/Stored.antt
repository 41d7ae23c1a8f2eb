-- ===== src/Cache/Sets/Several/Stored.antt =====
-- SINTER, SUNION, SDIFF and SINTERSTORE against membership in the sets that they read.
use cache_cat.Prelude.{
  ℕ, ◌≡◌, refl, ◌∙◌, ap, Bool, true, false, not, ◌&&◌, ◌||◌, Option, none, some, List, [], ◌∷◌,
  Bytes, same, same_iff, bytes_eq, if◌then◌else◌, arith, Bool-cases, inl, inr,
}
use cache_cat.Value.{Value, Values, ValueObject, MyValue}
use cache_cat.Value.HashSet.{names-set_insert, set_insert}
use cache_cat.Value.Table.{names}
use cache_cat.Mocha.{
  EntrySnapshot, MochaOperation, insert, remove, abort, persistent, absolute, ttl,
}
use cache_cat.Cache.Sets.{member_list}
use cache_cat.Cache.Sets.Drawn.{with_set}
use cache_cat.Cache.Sets.Several.{
  retain, extend, data_of, met, inter_all, or_default, s_inter, union_all, s_union, diff_all,
  members_reply, union_reply, store_reply, s_diff, store_all, stored, s_inter_store_req,
}

-- A key that is missing, or the entry of a key with the members of its set.
abbrev pub Holding : Type 0
Holding = Option (EntrySnapshot MyValue × List Bytes)

abbrev pub entry_of : Holding → Option (EntrySnapshot MyValue)
entry_of none = none
entry_of (some (entry, set)) = some (with_set entry set)

abbrev pub entries_of : List Holding → List (Option (EntrySnapshot MyValue))
entries_of [] = []
entries_of (x ∷ holdings) = entry_of x ∷ entries_of holdings

-- Whether a member is in a set, where a missing key is an empty set; in all sets; in one of them.
abbrev pub has : Holding → Bytes → Bool
has none m = false
has (some (entry, set)) m = names set m

abbrev pub in_all : List Holding → Bytes → Bool
in_all [] m = true
in_all (x ∷ holdings) m = has x m && in_all holdings m

abbrev pub in_any : List Holding → Bytes → Bool
in_any [] m = false
in_any (x ∷ holdings) m = has x m || in_any holdings m

-- Whether a reply lists a member, if the reply is a set.
abbrev pub listed : Values → Bytes → Bool
listed Values.nil m = false
listed (Values.more (Value.bulk_string (some x)) values) m = same x m || listed values m
listed (Values.more other values) m = listed values m

abbrev pub lists : Value → Bytes → Option Bool
lists (Value.set values) m = some (listed values m)
lists other m = none

-- Whether a member is in the set that a change leaves, if it leaves a set of some members that does
-- not expire, or no key.
abbrev pub left_in : MochaOperation MyValue → Bytes → Option Bool
left_in (insert v persistent) m = elim v.data_ [
  | ValueObject.set [] ↦ none
  | ValueObject.set (x ∷ set) ↦ some (names (x ∷ set) m)
  | _ ↦ none
]
left_in (insert v (absolute at)) m = none
left_in (insert v (ttl t)) m = none
left_in remove m = some false
left_in abort m = none

listed-member_list : (set : List Bytes) (m : Bytes) → listed (member_list set) m ≡ names set m
listed-member_list [] m = refl
listed-member_list (x ∷ set) m = ap (λ b. same x m || b) (listed-member_list set m)

names_at : (set : List Bytes) (x m : Bytes) → same x m ≡ true → names set x ≡ names set m
names_at set x m h = ap (names set) ((same_iff x m).0 h)

names-retain :
    (set : List Bytes) (there : Bool) (other : List Bytes) (m : Bytes)
    → names (retain set there other) m
      ≡ (names set m && (if there then names other m else not (names other m)))
names-retain [] there other m = refl
names-retain (x ∷ set) there other m = elim (Bool-cases (same x m)) [
  | inl here ↦ ground (arith, here, names_at other x m here, names-retain set there other m)
  | inr apart ↦ ground (arith, apart, names-retain set there other m)
]

names-extend :
    (results other : List Bytes) (m : Bytes)
    → names (extend results other) m ≡ (names results m || names other m)
names-extend results [] m = ground arith
names-extend results (x ∷ other) m =
    ground (arith, names-extend (set_insert results x) other m, names-set_insert results x m)

abbrev found : Option (Option (List Bytes)) → Bytes → Option Bool
found none m = none
found (some results) m = some (names (or_default results) m)

names-met :
    (set other : List Bytes) (m : Bytes)
    → names (met (some set) other) m ≡ (names set m && names other m)
unfolding met
names-met [] other m = refl
names-met (x ∷ set) other m = ground (arith, names-retain (x ∷ set) true other m)

found-inter_all :
    (holdings : List Holding) (set : List Bytes) (m : Bytes)
    → found (inter_all (entries_of holdings) (some set)) m ≡ some (names set m && in_all holdings m)
unfolding inter_all data_of
found-inter_all [] set m = ground arith
found-inter_all (none ∷ holdings) set m = ground (arith, found-inter_all holdings [] m)
found-inter_all (some (entry, other) ∷ holdings) set m =
    ground (arith, found-inter_all holdings (met (some set) other) m, names-met set other m)

found-store_all :
    (holdings : List Holding) (set : List Bytes) (m : Bytes)
    → found (store_all (entries_of holdings) (some set)) m ≡ some (names set m && in_all holdings m)
unfolding store_all data_of
found-store_all [] set m = ground arith
found-store_all (none ∷ holdings) set m = ground arith
found-store_all (some (entry, other) ∷ holdings) set m =
    ground
      (arith, found-store_all holdings (retain set true other) m, names-retain set true other m)

found-diff_all :
    (holdings : List Holding) (results : Option (List Bytes)) (m : Bytes)
    → found (diff_all (entries_of holdings) results) m
      ≡ some (names (or_default results) m && not (in_any holdings m))
unfolding diff_all data_of
found-diff_all [] results m = ground arith
found-diff_all (none ∷ holdings) results m = ground (arith, found-diff_all holdings results m)
found-diff_all (some (entry, other) ∷ holdings) none m =
    ground (arith, found-diff_all holdings none m)
found-diff_all (some (entry, other) ∷ holdings) (some set) m = ground (
  arith,
  found-diff_all holdings (some (retain set false other)) m,
  names-retain set false other m,
)

abbrev in_union : Option (List Bytes) → Bytes → Option Bool
in_union none m = none
in_union (some results) m = some (names results m)

in_union-union_all :
    (holdings : List Holding) (set : List Bytes) (m : Bytes)
    → in_union (union_all (entries_of holdings) set) m ≡ some (names set m || in_any holdings m)
unfolding union_all data_of
in_union-union_all [] set m = ground arith
in_union-union_all (none ∷ holdings) set m = ground (arith, in_union-union_all holdings set m)
in_union-union_all (some (entry, other) ∷ holdings) set m =
    ground (arith, in_union-union_all holdings (extend set other) m, names-extend set other m)

-- The replies, and what SINTERSTORE leaves, from what the loops find.
lists-members_reply :
    (r : Option (Option (List Bytes))) (m : Bytes) → lists (members_reply r) m ≡ found r m
lists-members_reply none m = refl
lists-members_reply (some results) m = ap some (listed-member_list (or_default results) m)

lists-union_reply : (r : Option (List Bytes)) (m : Bytes) → lists (union_reply r) m ≡ in_union r m
lists-union_reply none m = refl
lists-union_reply (some results) m = ap some (listed-member_list results m)

left_in-stored :
    (result : List Bytes) (m : Bytes) → left_in (stored result).0 m ≡ some (names result m)
left_in-stored [] m = refl
left_in-stored (x ∷ result) m = ground arith

left_in-store_reply :
    (r : Option (Option (List Bytes))) (m : Bytes) → left_in (store_reply r).0 m ≡ found r m
left_in-store_reply none m = refl
left_in-store_reply (some results) m = left_in-stored (or_default results) m

-- SINTER, SUNION and SDIFF of keys that are missing or hold sets: the reply is a set of exactly the
-- members that are in all of them, in one of them, in the first and in none of the others, where a
-- missing key counts as an empty set. SINTERSTORE leaves exactly the members that SINTER lists, in
-- a set that does not expire, or no key where there are none.
pub s_inter_store_lem :
    (x : Holding) (holdings : List Holding) (key : Bytes) (keys : List Bytes) (now : ℕ) (m : Bytes)
    → (lists (s_inter (entries_of (x ∷ holdings))) m ≡ some (in_all (x ∷ holdings) m))
      × (lists (s_union (entries_of (x ∷ holdings))) m ≡ some (in_any (x ∷ holdings) m))
      × (lists (s_diff (entries_of (x ∷ holdings))) m ≡ some (has x m && not (in_any holdings m)))
      × (left_in ((s_inter_store_req key keys).mutate (entries_of (x ∷ holdings)) now).0 m
          ≡ some (in_all (x ∷ holdings) m))
unfolding s_inter s_union s_diff s_inter_store_req inter_all store_all met data_of
s_inter_store_lem none holdings key keys now m = (
  lists-members_reply (inter_all (entries_of holdings) (some [])) m ∙ found-inter_all holdings [] m,
  lists-union_reply (union_all (none ∷ entries_of holdings) []) m
      ∙ in_union-union_all (none ∷ holdings) [] m,
  lists-members_reply (diff_all (entries_of holdings) none) m ∙ found-diff_all holdings none m,
  refl,
)
s_inter_store_lem (some (entry, set)) holdings key keys now m = (
  lists-members_reply (inter_all (entries_of holdings) (some set)) m
      ∙ found-inter_all holdings set m,
  lists-union_reply (union_all (some (with_set entry set) ∷ entries_of holdings) []) m
      ∙ in_union-union_all (some (entry, set) ∷ holdings) [] m,
  lists-members_reply (diff_all (entries_of holdings) (some set)) m
      ∙ found-diff_all holdings (some set) m,
  left_in-store_reply (store_all (entries_of holdings) (some set)) m
      ∙ found-store_all holdings set m,
)
