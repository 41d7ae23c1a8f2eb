-- ===== src/PubSub/Registry.antt =====
-- The two accounts of pub_sub.rs, by channel and by client, when they agree, and what the calls
-- that subscribe do to the relation of who is subscribed to what.
use cache_cat.Prelude.{
  ℕ, ◌≡◌, refl, ◌∙◌, ap, sym, subst, String, Bool, true, false, not, ◌&&◌, ◌||◌, List, [], Bytes,
  same, same_iff, bytes_eq, nat_eq, if◌then◌else◌, arith, Bool-cases, inl, inr,
}
use cache_cat.Value.Table.{names, lookup, put, IsTable, put-IsTable}
use cache_cat.Value.HashSet.{IsDistinct}
use cache_cat.PubSub.{
  ClientState, PubSub, Side, table, with_table, subscribed, get_or_create, register, add_each,
  subscribe_to,
}
use cache_cat.PubSub.Tables.{holds, IsRegistry, register_lem}
use cache_cat.PubSub.Clients.{
  same_side, list_of, follows, Lists, same_side-true, Distinct, add_each_lem, list_of-put,
  put-Lists, get_or_create_lem,
}

-- A client is in the set of a name just if the name is among those of the client.
abbrev pub IsSound : PubSub → Type 0
IsSound ps =
    ((side : Side) → IsRegistry (table side ps))
    × IsTable ps.clients
    × Lists ps.clients
    × ((side : Side) (c : Bytes) (i : ℕ) → holds (table side ps) c i ≡ follows ps side c i)

abbrev pub empty : PubSub
empty = record { subs = []; patterns = []; clients = [] }

pub empty-IsSound : IsSound empty
empty-IsSound = (registry, tt, λ side i. tt, told)
  where
    registry : (side : Side) → IsRegistry (table side empty)
    registry Side.exact = (tt, λ c. tt)
    registry Side.pattern_ = (tt, λ c. tt)

    told : (side : Side) (c : Bytes) (i : ℕ) → holds (table side empty) c i ≡ false
    told Side.exact c i = refl
    told Side.pattern_ c i = refl

-- The state after a change of one side.
abbrev pub changed : Side → PubSub → List (Bytes × List ℕ) → List (ℕ × ClientState) → PubSub
changed side ps t clients = record (with_table side ps t) { clients = clients }

table-changed :
    (s side : Side) (ps : PubSub) (t : List (Bytes × List ℕ)) (clients : List (ℕ × ClientState))
    → table s (changed side ps t clients) ≡ (if same_side s side then t else table s ps)
table-changed Side.exact Side.exact ps t clients = refl
table-changed Side.exact Side.pattern_ ps t clients = refl
table-changed Side.pattern_ Side.exact ps t clients = refl
table-changed Side.pattern_ Side.pattern_ ps t clients = refl

clients-changed :
    (side : Side) (ps : PubSub) (t : List (Bytes × List ℕ)) (clients : List (ℕ × ClientState))
    → (changed side ps t clients).clients ≡ clients
clients-changed Side.exact ps t clients = refl
clients-changed Side.pattern_ ps t clients = refl

pub same_side_self : (side : Side) → same_side side side ≡ true
same_side_self Side.exact = refl
same_side_self Side.pattern_ = refl

-- What a call does to the state and to the relation.
abbrev pub Does : PubSub → (Side → Bytes → ℕ → Bool) → PubSub → Type 0
Does ps relation ps' =
    IsSound ps' × ((s : Side) (c : Bytes) (i : ℕ) → holds (table s ps') c i ≡ relation s c i)

pub changed_lem :
    (side : Side) (ps : PubSub) (t : List (Bytes × List ℕ)) (clients : List (ℕ × ClientState))
    (relation : Side → Bytes → ℕ → Bool)
    → IsSound ps
    → IsRegistry t
    → IsTable clients
    → Lists clients
    → ((c : Bytes) (i : ℕ) → holds t c i ≡ relation side c i)
    → ((s : Side) (c : Bytes) (i : ℕ)
        → same_side s side ≡ false
        → holds (table s ps) c i ≡ relation s c i)
    → ((s : Side) (c : Bytes) (i : ℕ) → names (list_of s (lookup clients i)) c ≡ relation s c i)
    → Does ps relation (changed side ps t clients)
changed_lem side ps t clients relation h r k l here other by_client =
    ((registry, tables, lists, told), shown)
  where
    registry : (s : Side) → IsRegistry (table s (changed side ps t clients))
    registry s =
        rw (table-changed s side ps t clients)
          (elim (Bool-cases (same_side s side)) [ inl e ↦ rw e r | inr n ↦ rw n (h.0 s) ])

    tables : IsTable (changed side ps t clients).clients
    tables = subst IsTable (sym (clients-changed side ps t clients)) k

    lists : Lists (changed side ps t clients).clients
    lists = subst Lists (sym (clients-changed side ps t clients)) l

    shown :
        (s : Side) (c : Bytes) (i : ℕ)
        → holds (table s (changed side ps t clients)) c i ≡ relation s c i
    shown s c i =
        ap (λ x. holds x c i) (table-changed s side ps t clients)
        ∙ elim (Bool-cases (same_side s side)) [
          | inl e ↦ rw e (here c i ∙ ap (λ x. relation x c i) (sym (same_side-true s side e)))
          | inr n ↦ rw n (other s c i n)
        ]

    told :
        (s : Side) (c : Bytes) (i : ℕ)
        → holds (table s (changed side ps t clients)) c i
          ≡ follows (changed side ps t clients) s c i
    told s c i =
        shown s c i
        ∙ sym (by_client s c i)
        ∙ ap (λ x. names (list_of s (lookup x i)) c) (sym (clients-changed side ps t clients))

-- A name that is added for a client, and one that is taken away.
abbrev pub added : PubSub → Side → List Bytes → ℕ → Side → Bytes → ℕ → Bool
added ps side ns client s c i =
    holds (table s ps) c i || (same_side s side && names ns c && same client i)

abbrev pub removed : PubSub → Side → List Bytes → ℕ → Side → Bytes → ℕ → Bool
removed ps side ns client s c i =
    holds (table s ps) c i && not (same_side s side && names ns c && same client i)

pub subscribe_to_lem :
    (side : Side) (kind : String) (ps : PubSub) (ns : List Bytes) (client : ℕ)
    → IsSound ps
    → Does ps (added ps side ns client) (subscribe_to side kind ps ns client).1
unfolding subscribe_to
subscribe_to_lem side kind ps ns client h =
    let t = register (table side ps) ns client in
    let reg = register_lem (table side ps) ns client (h.0 side) in
    let clients = get_or_create ps.clients client in
    let (state, there, k, l, as_before) = get_or_create_lem ps.clients client h.1 h.2 in
    let own : Distinct state = λ s. subst (λ o. IsDistinct (list_of s o)) there (l s client) in
    let add = add_each_lem side kind state ns own in
    let state' = (add_each side kind state ns).0 in
    let told : (s : Side) (c : Bytes) (i : ℕ)
        → names (list_of s (lookup (put clients client state') i)) c
          ≡ (holds (table s ps) c i || (same_side s side && names ns c && same client i)) =
      λ s c i.
        ap (λ x. names x c) (list_of-put clients client state' s i)
        ∙ elim (Bool-cases (same client i)) [
          | inl here ↦
              let before : names (subscribed s state) c ≡ holds (table s ps) c i =
                sym (ap (λ o. names (list_of s o) c) there)
                ∙ ap (λ x. names x c) (as_before s client)
                ∙ ap (λ x. names (list_of s (lookup ps.clients x)) c) ((same_iff client i).0 here)
                ∙ sym (h.3 s c i) in
              rw here (add.1 s c ∙ ground (arith, before))
          | inr other ↦
              rw other (ap (λ x. names x c) (as_before s i) ∙ sym (h.3 s c i) ∙ ground arith)
        ] in
    let result : changed side ps t (put clients client state')
        ≡ (subscribe_to side kind ps ns client).1 =
      rw (there, subscribe_to) refl in
    subst (Does ps (added ps side ns client)) result (
      changed_lem side ps t (put clients client state') (added ps side ns client) h reg.0
        (put-IsTable clients client state' k) (put-Lists clients client state' l add.0)
        (λ c i. reg.1 c i ∙ rw (same_side_self side) refl) (λ s c i n. rw n (ground arith)) told)
