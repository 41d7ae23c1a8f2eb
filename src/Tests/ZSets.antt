-- ===== src/Tests/ZSets.antt =====
-- Sorted sets of a few members. The scores are whole numbers as f64; the order of scores is that
-- of their places.
use cache_cat.Prelude.{
  bytes_eq, ℕ, ◌*◌, ◌-◌, ◌^◌, ◌≡◌, refl, arith, true, false, none, List, [], ◌∷◌, Bytes,
  if◌then◌else◌,
}
use cache_cat.Value.{SortedSet}
use cache_cat.Value.Double.{place}
use cache_cat.Value.ZSet.{
  ZAddReq, empty, zadd, zadd_loop, zadd_member, add_member, rescore, zrem, zincrby, zpop_min,
  zrange, zscore, pairs,
}
use cache_cat.Value.ZSet.Coherent.{IsCoherent, operations-IsCoherent}
use cache_cat.Value.ZSet.Coherent.Entries.{as_list}
use cache_cat.Value.Table.{names}
use cache_cat.Value.ZSet.Scores.{after, zscore_lem}
use cache_cat.Cache.Lists.{lrange}
use cache_cat.Cache.ZSets.Ranges.{scores_in, zrange_lem}

abbrev a : Bytes
a = b'a' ∷ []

abbrev b : Bytes
b = b'b' ∷ []

-- 1.0 and 2.0
abbrev one_f64 : ℕ
one_f64 = 1023 * 2 ^ 52

abbrev two_f64 : ℕ
two_f64 = 1024 * 2 ^ 52

abbrev plain_req : List (Bytes × ℕ) → ZAddReq
plain_req members = record {
  key = b'k' ∷ [];
  nx = false;
  xx = false;
  gt = false;
  lt = false;
  ch = true;
  members = members;
}

abbrev set : SortedSet
set = record { tree = (one_f64, b) ∷ (two_f64, a) ∷ []; hash = (a, two_f64) ∷ (b, one_f64) ∷ [] }

added : zadd place empty (plain_req ((a, two_f64) ∷ (b, one_f64) ∷ [])) ≡ (set, 2)
unfolding zadd zadd_loop zadd_member add_member rescore
added = refl

moved : zadd place set (plain_req ((a, two_f64) ∷ (b, two_f64) ∷ [])) ≡ (
  record { tree = (two_f64, a) ∷ (two_f64, b) ∷ []; hash = (a, two_f64) ∷ (b, two_f64) ∷ [] },
  1,
)
unfolding zadd zadd_loop zadd_member add_member rescore
moved = refl

empty-IsCoherent : IsCoherent place empty
empty-IsCoherent = (tt, tt, λ m. refl)

-- The set that ZADD makes of the empty one, whose halves agree.
abbrev made : SortedSet
made = (zadd place empty (plain_req ((a, two_f64) ∷ (b, one_f64) ∷ []))).0

made-IsCoherent : IsCoherent place made
made-IsCoherent =
    (operations-IsCoherent place empty (plain_req ((a, two_f64) ∷ (b, one_f64) ∷ [])) [] (λ x y. y)
      a 0 none empty-IsCoherent).1

operations-IsCoherent_example :
    IsCoherent place empty
    × IsCoherent place (zadd place made (plain_req ((b, two_f64) ∷ []))).0
    × IsCoherent place (zrem place made (a ∷ [])).0
    × IsCoherent place (zincrby place (λ x y. y) made a one_f64).0
    × IsCoherent place (zpop_min made none).0
operations-IsCoherent_example =
    operations-IsCoherent place made (plain_req ((b, two_f64) ∷ [])) (a ∷ []) (λ x y. y) a one_f64
      none made-IsCoherent

zscore_lem_example :
    (zscore (zadd place set (plain_req ((b, two_f64) ∷ []))).0 b
      ≡ after (plain_req ((b, two_f64) ∷ [])) b ((b, two_f64) ∷ []) (zscore set b))
    × (zscore (zrem place set (a ∷ [])).0 b ≡ (if names (a ∷ []) b then none else zscore set b))
zscore_lem_example =
    zscore_lem place set (plain_req ((b, two_f64) ∷ [])) (a ∷ []) b (refl, (refl, tt))

zrange_lem_example :
    (zrange set 0 0 ≡ pairs (lrange set.tree 0 0))
    × (zrange set 0 (2 ^ 64 - 1) ≡ pairs set.tree)
    × (scores_in (zrange set 0 (2 ^ 64 - 1)) a ≡ as_list (zscore set a))
unfolding zadd zadd_loop zadd_member add_member
zrange_lem_example =
    zrange_lem place made 0 0 a made-IsCoherent (omega arith) (omega arith) (omega arith)
