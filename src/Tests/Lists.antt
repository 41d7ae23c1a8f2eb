-- ===== src/Tests/Lists.antt =====
-- The commands on lists, on a list of three elements.
use cache_cat.Prelude.{
  ◌-◌, ◌^◌, ◌+◌, ◌≡◌, refl, arith, not, ◌&&◌, ◌==◌, some, List, [], ◌∷◌, ◌++◌, Bytes, reverse,
  if◌then◌else◌,
}
use cache_cat.Value.{Value, ValueObject, MyValue, ok}
use cache_cat.Value.Signed.{is_negative}
use cache_cat.Mocha.{EntrySnapshot}
use cache_cat.Cache.{new_value}
use cache_cat.Cache.Read.{left_by}
use cache_cat.Cache.Lists.{
  l_push_req, r_push_req, l_pop_req, r_pop_req, push_front_all, write_list, l_set_list, l_index,
  from_end, is_outside, lrange, lrange_from, trimmed, remove_elements, remove_front, remove_back,
}
use cache_cat.Cache.Lists.Ends.{holding, push-pop}
use cache_cat.Cache.Lists.Ranges.{trimmed-lrange, l_set-l_index}
use cache_cat.Cache.Lists.Removal.{remove_first, remove_elements_lem}

abbrev a : Bytes
a = b'a' ∷ []

abbrev b : Bytes
b = b'b' ∷ []

abbrev three : List Bytes
three = a ∷ b ∷ a ∷ []

abbrev entry : EntrySnapshot MyValue
entry = record { value = new_value (ValueObject.list three); expire_at = some 150 }

last_two : lrange three (2 ^ 64 - 2) 7 ≡ b ∷ a ∷ []
unfolding lrange lrange_from
last_two = refl

from_back : remove_elements three (2 ^ 64 - 1) a ≡ (1, a ∷ b ∷ [])
unfolding remove_elements remove_front remove_back
from_back = refl

-- LPUSH of two elements to a list, and to a key that is missing.
pushed :
    (push_front_all (a ∷ b ∷ []) [] ≡ b ∷ a ∷ [])
    × ((l_push_req a (a ∷ b ∷ [])).init.1 ≡ Value.integer 2)
unfolding push_front_all l_push_req
pushed = (refl, refl)

trimmed-lrange_example : trimmed three 1 (2 ^ 64 - 1) ≡ lrange three 1 (2 ^ 64 - 1)
trimmed-lrange_example =
    trimmed-lrange three 1 (2 ^ 64 - 1) (omega arith) (omega arith) (omega arith)

l_set-l_index_example :
    ((l_set_list entry (2 ^ 64 - 1) b three).1 ≡ (
      if is_outside 3 (from_end 3 (2 ^ 64 - 1)) then Value.error "ERR index out of range" else ok))
    × (l_index 2 (some (left_by (l_set_list entry (2 ^ 64 - 1) b three) entry)) ≡ (
        if not (is_outside 3 (from_end 3 (2 ^ 64 - 1))) && (from_end 3 (2 ^ 64 - 1) == from_end 3 2)
        then Value.bulk_string (some b)
        else l_index 2 (some entry)))
l_set-l_index_example =
    l_set-l_index entry three (2 ^ 64 - 1) 2 b refl (omega arith) (omega arith) (omega arith)

push-pop_example :
    ((l_push_req a (b ∷ [])).mutate (holding entry three) 100
      ≡ write_list (holding entry three) (reverse (b ∷ []) ++ three) (Value.integer (1 + 3)))
    × ((r_push_req a (b ∷ [])).mutate (holding entry three) 100
        ≡ write_list (holding entry three) (three ++ (b ∷ [])) (Value.integer (3 + 1)))
    × ((l_pop_req a 1).mutate (holding entry (push_front_all ((b ∷ []) ++ (a ∷ [])) three)) 100
        ≡ write_list
            (holding entry (push_front_all ((b ∷ []) ++ (a ∷ [])) three))
            (push_front_all (b ∷ []) three)
            (Value.bulk_string (some a)))
    × ((r_pop_req a 1).mutate (holding entry (three ++ ((b ∷ []) ++ (a ∷ [])))) 100
        ≡ write_list
            (holding entry (three ++ ((b ∷ []) ++ (a ∷ []))))
            (three ++ (b ∷ []))
            (Value.bulk_string (some a)))
push-pop_example = push-pop entry 100 1 a three (b ∷ []) a

remove_elements_lem_example : remove_elements three (2 ^ 64 - 1) a ≡ (
    if (2 ^ 64 - 1) == 0
    then remove_first 3 a three
    else if is_negative (2 ^ 64 - 1)
    then (
      (remove_first (2 ^ 64 - (2 ^ 64 - 1)) a (reverse three)).0,
      reverse (remove_first (2 ^ 64 - (2 ^ 64 - 1)) a (reverse three)).1,
    )
    else remove_first (2 ^ 64 - 1) a three)
remove_elements_lem_example =
    remove_elements_lem three (2 ^ 64 - 1) a (omega arith) (omega arith) (omega arith)
