-- ===== src/PubSub/Clients.antt =====
-- The clients of pub_sub.rs: the names that each is subscribed to after each change of its state.
use cache_cat.Prelude.{
  ℕ, ◌≡◌, refl, ◌∙◌, ap, sym, subst, String, Bool, true, false, not, ◌&&◌, ◌||◌, Option, none, some,
  Option-cases, List, [], ◌∷◌, Bytes, same, same_iff, same_self, bytes_eq, nat_eq, ◌==◌,
  if◌then◌else◌, length, arith, Bool-cases, inl, inr, ◌⊎◌,
}
use cache_cat.Value.Table.{
  names, lookup, put, forget, IsTable, lookup-put, put-IsTable, lookup-forget, forget-IsTable,
}
use cache_cat.Value.HashSet.{
  set_insert, set_remove, IsDistinct, names-set_insert, names-set_remove, set_insert-IsDistinct,
  set_remove-IsDistinct,
}
use cache_cat.PubSub.{
  ClientState, PubSub, Side, subscribed, with_subscribed, new_state, get_or_create, add_each,
  remove_each, cleanup_client_if_empty,
}

abbrev pub same_side : Side → Side → Bool
same_side Side.exact Side.exact = true
same_side Side.exact Side.pattern_ = false
same_side Side.pattern_ Side.exact = false
same_side Side.pattern_ Side.pattern_ = true

-- The names that a client is subscribed to, as its own state has them.
abbrev pub list_of : Side → Option ClientState → List Bytes
list_of side none = []
list_of side (some state) = subscribed side state

abbrev pub follows : PubSub → Side → Bytes → ℕ → Bool
follows ps side name client = names (list_of side (lookup ps.clients client)) name

abbrev pub Lists : List (ℕ × ClientState) → Type 0
Lists clients = (side : Side) (i : ℕ) → IsDistinct (list_of side (lookup clients i))

pub same_side-true : (s side : Side) → same_side s side ≡ true → s ≡ side
same_side-true Side.exact Side.exact h = refl
same_side-true Side.exact Side.pattern_ h = absurd (ground (arith, h))
same_side-true Side.pattern_ Side.exact h = absurd (ground (arith, h))
same_side-true Side.pattern_ Side.pattern_ h = refl

subscribed-with :
    (s side : Side) (state : ClientState) (l : List Bytes)
    → subscribed s (with_subscribed side state l)
      ≡ (if same_side s side then l else subscribed s state)
subscribed-with Side.exact Side.exact state l = refl
subscribed-with Side.exact Side.pattern_ state l = refl
subscribed-with Side.pattern_ Side.exact state l = refl
subscribed-with Side.pattern_ Side.pattern_ state l = refl

abbrev pub Distinct : ClientState → Type 0
Distinct state = (s : Side) → IsDistinct (subscribed s state)

with_subscribed-Distinct :
    (side : Side) (state : ClientState) (l : List Bytes)
    → Distinct state
    → IsDistinct l
    → Distinct (with_subscribed side state l)
with_subscribed-Distinct side state l h k s =
    rw (subscribed-with s side state l)
      (elim (Bool-cases (same_side s side)) [ inl here ↦ rw here k | inr other ↦ rw other (h s) ])

pub add_each_lem :
    (side : Side) (kind : String) (state : ClientState) (ns : List Bytes)
    → Distinct state
    → Distinct (add_each side kind state ns).0
      × ((s : Side) (c : Bytes)
          → names (subscribed s (add_each side kind state ns).0) c
            ≡ (names (subscribed s state) c || (same_side s side && names ns c)))
unfolding add_each
add_each_lem side kind state [] h = (h, λ s c. ground arith)
add_each_lem side kind state (n ∷ ns) h =
    let l = set_insert (subscribed side state) n in
    let rest = add_each_lem side kind (with_subscribed side state l) ns (
      with_subscribed-Distinct side state l h
        (set_insert-IsDistinct (subscribed side state) n (h side))) in
    (
      rest.0,
      λ s c.
          rest.1 s c
          ∙ ap (λ k. names k c || (same_side s side && names ns c)) (subscribed-with s side state l)
          ∙ elim (Bool-cases (same_side s side)) [
            | inl here ↦ rw here (
                ground (
                  arith,
                  names-set_insert (subscribed side state) n c,
                  ap (λ t. names (subscribed t state) c) (same_side-true s side here),
                ))
            | inr other ↦ rw other refl
          ],
    )

pub remove_each_lem :
    (side : Side) (kind : String) (state : ClientState) (ns : List Bytes)
    → Distinct state
    → Distinct (remove_each side kind state ns).0
      × ((s : Side) (c : Bytes)
          → names (subscribed s (remove_each side kind state ns).0) c
            ≡ (names (subscribed s state) c && not (same_side s side && names ns c)))
unfolding remove_each
remove_each_lem side kind state [] h = (h, λ s c. ground arith)
remove_each_lem side kind state (n ∷ ns) h =
    let l = set_remove (subscribed side state) n in
    let rest = remove_each_lem side kind (with_subscribed side state l) ns (
      with_subscribed-Distinct side state l h
        (set_remove-IsDistinct (subscribed side state) n (h side))) in
    (
      rest.0,
      λ s c.
          rest.1 s c
          ∙ ap (λ k. names k c && not (same_side s side && names ns c))
              (subscribed-with s side state l)
          ∙ elim (Bool-cases (same_side s side)) [
            | inl here ↦ rw here (
                ground (
                  arith,
                  names-set_remove (subscribed side state) n c (h side),
                  ap (λ t. names (subscribed t state) c) (same_side-true s side here),
                ))
            | inr other ↦ rw other refl
          ],
    )

pub list_of-put :
    (clients : List (ℕ × ClientState)) (id : ℕ) (state : ClientState) (s : Side) (j : ℕ)
    → list_of s (lookup (put clients id state) j)
      ≡ (if same id j then subscribed s state else list_of s (lookup clients j))
list_of-put clients id state s j =
    ap (list_of s) (lookup-put clients id state j)
    ∙ elim (Bool-cases (same id j)) [ inl here ↦ rw here refl | inr other ↦ rw other refl ]

pub put-Lists :
    (clients : List (ℕ × ClientState)) (id : ℕ) (state : ClientState)
    → Lists clients
    → Distinct state
    → Lists (put clients id state)
put-Lists clients id state h k s j =
    rw (list_of-put clients id state s j)
      (elim (Bool-cases (same id j)) [ inl here ↦ rw here (k s) | inr other ↦ rw other (h s j) ])

new_state-Distinct :
    (s : Side) → (subscribed s new_state ≡ []) × IsDistinct (subscribed s new_state)
new_state-Distinct Side.exact = (refl, tt)
new_state-Distinct Side.pattern_ = (refl, tt)

abbrev pub Created : List (ℕ × ClientState) → ℕ → List (ℕ × ClientState) → Type 0
Created clients id clients' =
    (state : ClientState) × (lookup clients' id ≡ some state)
    × IsTable clients'
    × Lists clients'
    × ((s : Side) (j : ℕ) → list_of s (lookup clients' j) ≡ list_of s (lookup clients j))

put_new-Created :
    (clients : List (ℕ × ClientState)) (id : ℕ)
    → IsTable clients
    → Lists clients
    → lookup clients id ≡ none
    → Created clients id (put clients id new_state)
put_new-Created clients id h k gone = (
  new_state,
  lookup-put clients id new_state id ∙ rw (same_self id) refl,
  put-IsTable clients id new_state h,
  put-Lists clients id new_state k (λ s. (new_state-Distinct s).1),
  λ s j. list_of-put clients id new_state s j ∙ elim (Bool-cases (same id j)) [
    | inl here ↦
        let here' : lookup clients j ≡ none =
          ap (lookup clients) (sym ((same_iff id j).0 here)) ∙ gone in
        rw (here, here') (new_state-Distinct s).0
    | inr other ↦ rw other refl
  ],
)

pub get_or_create_lem :
    (clients : List (ℕ × ClientState)) (id : ℕ)
    → IsTable clients
    → Lists clients
    → Created clients id (get_or_create clients id)
get_or_create_lem clients id h k = elim (Option-cases (lookup clients id)) [
  | inr (state, there) ↦
      let same_clients : clients ≡ get_or_create clients id = rw (there, get_or_create) refl in
      subst (Created clients id) same_clients (state, there, h, k, λ s j. refl)
  | inl gone ↦
      let created : put clients id new_state ≡ get_or_create clients id =
        rw (gone, get_or_create) refl in
      subst (Created clients id) created (put_new-Created clients id h k gone)
]

no_names : (l : List Bytes) (c : Bytes) → (length l == 0) ≡ true → names l c ≡ false
no_names [] c h = refl
no_names (x ∷ l) c h = absurd (ground (arith, h))

pub forget-Lists :
    (clients : List (ℕ × ClientState)) (id : ℕ)
    → IsTable clients
    → Lists clients
    → Lists (forget clients id)
forget-Lists clients id h k s j =
    rw (lookup-forget clients id j h)
      (elim (Bool-cases (same id j)) [ inl here ↦ rw here tt | inr other ↦ rw other (k s j) ])

nothing_left :
    (state : ClientState) (s : Side) (c : Bytes)
    → ((length state.subscribed_channels == 0) && (length state.subscribed_patterns == 0)) ≡ true
    → names (subscribed s state) c ≡ false
nothing_left state Side.exact c h = no_names state.subscribed_channels c (ground (arith, h))
nothing_left state Side.pattern_ c h = no_names state.subscribed_patterns c (ground (arith, h))

abbrev left_empty : ClientState → Bool
left_empty state =
    (length state.subscribed_channels == 0) && (length state.subscribed_patterns == 0)

cleanup_cases :
    (clients : List (ℕ × ClientState)) (id : ℕ)
    → (cleanup_client_if_empty clients id ≡ clients)
      ⊎ ((state : ClientState) × (lookup clients id ≡ some state)
          × (left_empty state ≡ true)
          × (cleanup_client_if_empty clients id ≡ forget clients id))
cleanup_cases clients id = elim (Option-cases (lookup clients id)) [
  | inl gone ↦ inl (rw (gone, cleanup_client_if_empty) refl)
  | inr (state, there) ↦ elim (Bool-cases (left_empty state)) [
    | inr some_left ↦ inl (rw (there, cleanup_client_if_empty) (rw some_left refl))
    | inl left ↦ inr (state, there, left, rw (there, cleanup_client_if_empty) (rw left refl))
  ]
]

abbrev pub SameLists : List (ℕ × ClientState) → List (ℕ × ClientState) → Type 0
SameLists clients clients' =
    (s : Side) (c : Bytes) (j : ℕ)
    → names (list_of s (lookup clients' j)) c ≡ names (list_of s (lookup clients j)) c

forget-SameLists :
    (clients : List (ℕ × ClientState)) (id : ℕ) (state : ClientState)
    → IsTable clients
    → lookup clients id ≡ some state
    → left_empty state ≡ true
    → SameLists clients (forget clients id)
forget-SameLists clients id state h there left s c j =
    ap (λ o. names (list_of s o) c) (lookup-forget clients id j h) ∙ elim (Bool-cases (same id j)) [
      | inl here ↦
          let here' : lookup clients j ≡ some state =
            ap (lookup clients) (sym ((same_iff id j).0 here)) ∙ there in
          rw (here, here') (sym (nothing_left state s c left))
      | inr other ↦ rw other refl
    ]

pub cleanup_lem :
    (clients : List (ℕ × ClientState)) (id : ℕ)
    → IsTable clients
    → Lists clients
    → IsTable (cleanup_client_if_empty clients id)
      × Lists (cleanup_client_if_empty clients id)
      × SameLists clients (cleanup_client_if_empty clients id)
cleanup_lem clients id h k = elim (cleanup_cases clients id) [
  | inl e ↦ subst (λ x. IsTable x × Lists x × SameLists clients x) (sym e) (h, k, λ s c j. refl)
  | inr (state, there, left, e) ↦
      subst (λ x. IsTable x × Lists x × SameLists clients x) (sym e)
        (
          forget-IsTable clients id h,
          forget-Lists clients id h k,
          forget-SameLists clients id state h there left,
        )
]
