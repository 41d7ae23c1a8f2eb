-- ===== src/Cache/Sets/Drawn.antt =====
-- SPOP on two nodes whose sets have the same members, in whatever order each passes over them.
use cache_cat.Prelude.{
  ℕ, zero, suc, ◌≡◌, refl, ◌∙◌, ap, sym, Bool, true, false, Option, some, Option-cases, List, [],
  ◌∷◌, Bytes, same, same_self, bytes_eq, if◌then◌else◌, length, get_elem?, ◌==◌, arith, Bool-cases,
  inl, inr,
}
use cache_cat.Value.{Value, ValueObject, MyValue}
use cache_cat.Value.HashSet.{IsDistinct, names-set_remove, set_remove, set_remove-IsDistinct}
use cache_cat.Value.Table.{names}
use cache_cat.Mocha.{EntrySnapshot, MochaOperation, insert, remove, abort}
use cache_cat.Cache.Read.{left_by}
use cache_cat.Cache.Sets.{
  write_members, on_members, s_is_member, next_index, random_seed, sort, swap_remove, draw,
  popped_response, pop_count, drawn, is_zero, s_pop_req,
}
use cache_cat.Cache.Sets.Members.{length-sort, sort-same}

-- An entry of a set.
abbrev pub with_set : EntrySnapshot MyValue → List Bytes → EntrySnapshot MyValue
with_set entry set = record entry { value = record entry.value { data_ = ValueObject.set set } }

abbrev pub is_removal : MochaOperation MyValue → Bool
is_removal (insert v policy) = false
is_removal remove = true
is_removal abort = false

draw-same :
    (rounds state : ℕ) (candidates a b : List Bytes)
    → IsDistinct a
    → IsDistinct b
    → ((m : Bytes) → names a m ≡ names b m)
    → ((draw rounds state candidates a).0 ≡ (draw rounds state candidates b).0)
      × ((m : Bytes)
          → names (draw rounds state candidates a).1 m ≡ names (draw rounds state candidates b).1 m)
unfolding draw
draw-same zero state candidates a b h k e = (refl, e)
draw-same (suc rounds) state candidates a b h k e =
    let (index, state') = next_index state (length candidates) in
    elim (Option-cases (get_elem? candidates index)) [
      | inl out ↦ rw (out, draw) (refl, e)
      | inr (x, there) ↦
          let (popped, left) =
            draw-same rounds state' (swap_remove candidates index) (set_remove a x) (set_remove b x)
              (set_remove-IsDistinct a x h) (set_remove-IsDistinct b x k)
              (λ m.
                names-set_remove a x m h
                ∙ ap (λ t. if same x m then false else t) (e m)
                ∙ sym (names-set_remove b x m k)) in
          rw (there, draw) (ap (λ l. x ∷ l) popped, left)
    ]

empty-same :
    (a b : List Bytes) → ((m : Bytes) → names a m ≡ names b m) → (length a == 0) ≡ (length b == 0)
empty-same [] [] e = refl
empty-same [] (y ∷ b) e = ground (arith, e y, same_self y)
empty-same (x ∷ a) [] e = ground (arith, e x, same_self x)
empty-same (x ∷ a) (y ∷ b) e = ground arith

drawn-same :
    (key : Bytes) (count : Option ℕ) (write_clock : ℕ) (a b : List Bytes)
    → IsDistinct a
    → IsDistinct b
    → ((m : Bytes) → names a m ≡ names b m)
    → ((drawn key count write_clock a).0 ≡ (drawn key count write_clock b).0)
      × ((m : Bytes)
          → names (drawn key count write_clock a).1 m ≡ names (drawn key count write_clock b).1 m)
unfolding drawn
drawn-same key count write_clock a b h k e =
    let order : sort a ≡ sort b = sort-same a b h k e in
    let size : length a ≡ length b = sym (length-sort a) ∙ ap length order ∙ length-sort b in
    let seed : ℕ = random_seed key write_clock in
    let alike : draw (pop_count count (length a)) seed (sort a) b
        ≡ draw (pop_count count (length b)) seed (sort b) b =
      ap (λ n. draw (pop_count count n) seed (sort a) b) size
      ∙ ap (λ l. draw (pop_count count (length b)) seed l b) order in
    let (popped, left) = draw-same (pop_count count (length a)) seed (sort a) a b h k e in
    (popped ∙ ap (λ r. r.0) alike, λ m. left m ∙ ap (λ r. names r.1 m) alike)

-- SPOP on two nodes whose sets have the same members, with the same key, count and write clock,
-- whatever the order in which each passes over its set: the replies are the same, both or neither
-- take the key along, and then both sets have the same members.
pub s_pop_req-same :
    (key : Bytes) (count : Option ℕ) (entry : EntrySnapshot MyValue) (write_clock : ℕ)
    (a b : List Bytes) (m : Bytes)
    → IsDistinct a
    → IsDistinct b
    → ((m : Bytes) → names a m ≡ names b m)
    → (((s_pop_req key count).mutate (with_set entry a) write_clock).1
        ≡ ((s_pop_req key count).mutate (with_set entry b) write_clock).1)
      × (is_removal ((s_pop_req key count).mutate (with_set entry a) write_clock).0
          ≡ is_removal ((s_pop_req key count).mutate (with_set entry b) write_clock).0)
      × (s_is_member m (
            some (
              left_by
                ((s_pop_req key count).mutate (with_set entry a) write_clock)
                (with_set entry a)))
          ≡ s_is_member m (
              some (
                left_by
                  ((s_pop_req key count).mutate (with_set entry b) write_clock)
                  (with_set entry b))))
unfolding s_pop_req on_members write_members s_is_member
s_pop_req-same key count entry write_clock a b m h k e =
    let (popped, left) = drawn-same key count write_clock a b h k e in
    let same_members : s_is_member m (some (with_set entry a))
        ≡ s_is_member m (some (with_set entry b)) =
      ap (λ t. if t then Value.integer 1 else Value.integer 0) (e m) in
    elim (Bool-cases (is_zero count)) [
      | inl none_asked ↦ rw (none_asked, s_pop_req) (refl, refl, same_members)
      | inr asked ↦ elim (Bool-cases (length a == 0)) [
        | inl no_members ↦
            let no_members' = sym (empty-same a b e) ∙ no_members in
            rw (asked, no_members, no_members', s_pop_req) (refl, refl, same_members)
        | inr members ↦
            let members' = sym (empty-same a b e) ∙ members in
            elim (Bool-cases (length (drawn key count write_clock a).1 == 0)) [
              | inl all_gone ↦
                  let all_gone' =
                    sym (
                      empty-same (drawn key count write_clock a).1 (drawn key count write_clock b).1
                        left)
                    ∙ all_gone in
                  rw (asked, members, members', all_gone, all_gone', s_pop_req)
                    (ap (popped_response count) popped, refl, same_members)
              | inr some_left ↦
                  let some_left' =
                    sym (
                      empty-same (drawn key count write_clock a).1 (drawn key count write_clock b).1
                        left)
                    ∙ some_left in
                  rw (asked, members, members', some_left, some_left', s_pop_req)
                    (
                      ap (popped_response count) popped,
                      refl,
                      ap (λ t. if t then Value.integer 1 else Value.integer 0) (left m),
                    )
            ]
      ]
    ]
