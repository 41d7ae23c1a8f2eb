-- ===== src/Cache/Lists/Ends.antt =====
-- The two ends of a list: LPUSH and RPUSH against LPOP and RPOP.
use cache_cat.Prelude.{
  ℕ, ◌+◌, ◌≡◌, refl, ◌∙◌, ap, sym, some, List, [], ◌∷◌, ◌++◌, reverse, reverse-cons, Bytes, length,
  length-append, length-reverse,
}
use mathlib.Core.List.{append_assoc}
use cache_cat.Value.{Value, ValueObject, MyValue}
use cache_cat.Mocha.{EntrySnapshot}
use cache_cat.Cache.Lists.{
  write_list, push_front_all, l_push_req, r_push_req, pop_front, pop_back, l_pop_req, r_pop_req,
  on_list,
}

push_front_all_lem : (es l : List Bytes) → push_front_all es l ≡ reverse es ++ l
unfolding push_front_all
push_front_all_lem [] l = refl
push_front_all_lem (e ∷ es) l =
    push_front_all_lem es (e ∷ l)
    ∙ sym (append_assoc (reverse es) (e ∷ []) l)
    ∙ ap (λ r. r ++ l) (sym (reverse-cons e es))

push_front_all-append :
    (es : List Bytes) (x : Bytes) (l : List Bytes)
    → push_front_all (es ++ (x ∷ [])) l ≡ x ∷ push_front_all es l
unfolding push_front_all
push_front_all-append [] x l = refl
push_front_all-append (e ∷ es) x l = push_front_all-append es x (e ∷ l)

pop_back-append : (l : List Bytes) (x : Bytes) → pop_back (l ++ (x ∷ [])) ≡ (some x, l)
unfolding pop_back
pop_back-append [] x = refl
pop_back-append (y ∷ []) x = refl
pop_back-append (y ∷ z ∷ l) x = ap (λ r. (r.0, y ∷ r.1)) (pop_back-append (z ∷ l) x)

-- What a command does to the entry of a key with a list, where it holds the list `l`.
abbrev pub holding : EntrySnapshot MyValue → List Bytes → EntrySnapshot MyValue
holding entry l = record entry { value = record entry.value { data_ = ValueObject.list l } }

-- LPUSH to a key that holds a list puts the elements before it, the last of them first, and RPUSH
-- puts them after it in their order; each replies the length of the new list and keeps the expiry.
-- LPOP, with whatever count in its request, takes back just the last element that LPUSH put, replies
-- it as one bulk string and never as an array, and leaves what LPUSH of the others leaves; so does
-- RPOP for RPUSH.
pub push-pop :
    (entry : EntrySnapshot MyValue) (write_clock count : ℕ) (key : Bytes) (l es : List Bytes)
    (x : Bytes)
    → ((l_push_req key es).mutate (holding entry l) write_clock
        ≡ write_list (holding entry l) (reverse es ++ l) (Value.integer (length es + length l)))
      × ((r_push_req key es).mutate (holding entry l) write_clock
          ≡ write_list (holding entry l) (l ++ es) (Value.integer (length l + length es)))
      × ((l_pop_req key count).mutate
            (holding entry (push_front_all (es ++ (x ∷ [])) l))
            write_clock
          ≡ write_list
              (holding entry (push_front_all (es ++ (x ∷ [])) l))
              (push_front_all es l)
              (Value.bulk_string (some x)))
      × ((r_pop_req key count).mutate (holding entry (l ++ (es ++ (x ∷ [])))) write_clock
          ≡ write_list
              (holding entry (l ++ (es ++ (x ∷ []))))
              (l ++ es)
              (Value.bulk_string (some x)))
unfolding l_push_req r_push_req l_pop_req r_pop_req on_list pop_front
push-pop entry write_clock count key l es x =
    let grown : length (reverse es ++ l) ≡ length es + length l =
      length-append (reverse es) l ∙ ap (λ n. n + length l) (length-reverse es) in
    (
      ap (λ r. write_list (holding entry l) r (Value.integer (length r))) (push_front_all_lem es l)
          ∙ ap (λ n. write_list (holding entry l) (reverse es ++ l) (Value.integer n)) grown,
      ap (λ n. write_list (holding entry l) (l ++ es) (Value.integer n)) (length-append l es),
      ap
          (λ r.
            write_list (holding entry (push_front_all (es ++ (x ∷ [])) l)) (pop_front r).1
              (Value.bulk_string (pop_front r).0))
          (push_front_all-append es x l),
      ap (λ r. write_list (holding entry (l ++ (es ++ (x ∷ [])))) r.1 (Value.bulk_string r.0))
          (ap pop_back (sym (append_assoc l es (x ∷ []))) ∙ pop_back-append (l ++ es) x),
    )
