-- ===== src/PubSub/Departed.antt =====
-- The calls of pub_sub.rs that take names or a client away: what they do to the relation of who is
-- subscribed to what.
use cache_cat.Prelude.{
  ℕ, ◌≡◌, refl, ◌∙◌, ap, sym, subst, String, Bool, true, false, not, ◌&&◌, none, some, Option-cases,
  List, Bytes, same, same_iff, bytes_eq, nat_eq, arith, Bool-cases, inl, inr,
}
use cache_cat.Value.Table.{names, lookup, put, put-IsTable, lookup-forget, forget-IsTable}
use cache_cat.Value.HashSet.{IsDistinct}
use cache_cat.PubSub.{
  ClientState, PubSub, Side, table, with_table, subscribed, unregister, remove_each,
  cleanup_client_if_empty, unsubscribe_from, unsubscribe_all, remove_client,
}
use cache_cat.PubSub.Tables.{holds, IsRegistry, unregister_lem, retain_others_lem}
use cache_cat.PubSub.Clients.{
  same_side, list_of, follows, same_side-true, Distinct, remove_each_lem, list_of-put, put-Lists,
  forget-Lists, cleanup_lem,
}
use cache_cat.PubSub.Registry.{IsSound, changed, changed_lem, same_side_self, Does, removed}

-- A client without a state is subscribed to nothing; one with a state to what the state has.
no_client :
    (ps : PubSub) (client : ℕ) (s : Side) (c : Bytes) (i : ℕ)
    → IsSound ps
    → lookup ps.clients client ≡ none
    → same client i ≡ true
    → holds (table s ps) c i ≡ false
no_client ps client s c i h gone here =
    let gone' : lookup ps.clients i ≡ none =
      ap (lookup ps.clients) (sym ((same_iff client i).0 here)) ∙ gone in
    h.3 s c i ∙ rw gone' refl

with_client :
    (ps : PubSub) (client : ℕ) (state : ClientState) (s : Side) (c : Bytes) (i : ℕ)
    → IsSound ps
    → lookup ps.clients client ≡ some state
    → same client i ≡ true
    → holds (table s ps) c i ≡ names (subscribed s state) c
with_client ps client state s c i h there here =
    let there' : lookup ps.clients i ≡ some state =
      ap (lookup ps.clients) (sym ((same_iff client i).0 here)) ∙ there in
    h.3 s c i ∙ rw there' refl

same_clients :
    (side : Side) (ps : PubSub) (t : List (Bytes × List ℕ))
    → changed side ps t ps.clients ≡ with_table side ps t
same_clients Side.exact ps t = refl
same_clients Side.pattern_ ps t = refl

-- The state after names were taken away from a client.
taken_away :
    (side : Side) (kind : String) (ps : PubSub) (ns : List Bytes) (client : ℕ) (state : ClientState)
    → IsSound ps
    → lookup ps.clients client ≡ some state
    → Does ps (removed ps side ns client) (
        changed side ps (unregister (table side ps) ns client) (
          cleanup_client_if_empty
            (put ps.clients client (remove_each side kind state ns).0)
            client))
taken_away side kind ps ns client state h there =
    let t = unregister (table side ps) ns client in
    let reg = unregister_lem (table side ps) ns client (h.0 side) in
    let own : Distinct state = λ s. subst (λ o. IsDistinct (list_of s o)) there (h.2 s client) in
    let less = remove_each_lem side kind state ns own in
    let state' = (remove_each side kind state ns).0 in
    let clean =
      cleanup_lem (put ps.clients client state') client (put-IsTable ps.clients client state' h.1)
        (put-Lists ps.clients client state' h.2 less.0) in
    let told : (s : Side) (c : Bytes) (i : ℕ)
        → names (list_of s (lookup (put ps.clients client state') i)) c
          ≡ removed ps side ns client s c i =
      λ s c i.
        ap (λ x. names x c) (list_of-put ps.clients client state' s i)
        ∙ elim (Bool-cases (same client i)) [
          | inl here ↦
              rw here (less.1 s c ∙ ground (arith, with_client ps client state s c i h there here))
          | inr other ↦ rw other (sym (h.3 s c i) ∙ ground arith)
        ] in
    changed_lem side ps t (cleanup_client_if_empty (put ps.clients client state') client)
      (removed ps side ns client) h reg.0 clean.0 clean.1
      (λ c i. reg.1 c i ∙ rw (same_side_self side) refl) (λ s c i n. rw n (ground arith))
      (λ s c i. clean.2 s c i ∙ told s c i)

pub unsubscribe_from_lem :
    (side : Side) (kind : String) (ps : PubSub) (ns : List Bytes) (client : ℕ)
    → IsSound ps
    → Does ps (removed ps side ns client) (unsubscribe_from side kind ps ns client).1
unfolding unsubscribe_from
unsubscribe_from_lem side kind ps ns client h = elim (Option-cases (lookup ps.clients client)) [
  | inl gone ↦
      let t = unregister (table side ps) ns client in
      let reg = unregister_lem (table side ps) ns client (h.0 side) in
      let unchanged : (s : Side) (c : Bytes) (i : ℕ)
          → holds (table s ps) c i ≡ removed ps side ns client s c i =
        λ s c i. elim (Bool-cases (same client i)) [
          | inl here ↦ rw here (ground (arith, no_client ps client s c i h gone here))
          | inr other ↦ rw other (ground arith)
        ] in
      let result : changed side ps t ps.clients ≡ (unsubscribe_from side kind ps ns client).1 =
        same_clients side ps t ∙ rw (gone, unsubscribe_from) refl in
      subst (Does ps (removed ps side ns client)) result (
        changed_lem side ps t ps.clients (removed ps side ns client) h reg.0 h.1 h.2
          (λ c i. reg.1 c i ∙ rw (same_side_self side) refl) (λ s c i n. unchanged s c i)
          (λ s c i. sym (h.3 s c i) ∙ unchanged s c i))
  | inr (state, there) ↦
      let clients =
        cleanup_client_if_empty (put ps.clients client (remove_each side kind state ns).0) client in
      let result : changed side ps (unregister (table side ps) ns client) clients
          ≡ (unsubscribe_from side kind ps ns client).1 =
        rw (there, unsubscribe_from) refl in
      subst (Does ps (removed ps side ns client)) result
        (taken_away side kind ps ns client state h there)
]

abbrev pub cleared : PubSub → Side → ℕ → Side → Bytes → ℕ → Bool
cleared ps side client s c i = holds (table s ps) c i && not (same_side s side && same client i)

pub unsubscribe_all_lem :
    (side : Side) (kind : String) (ps : PubSub) (client : ℕ)
    → IsSound ps
    → Does ps (cleared ps side client) (unsubscribe_all side kind ps client).1
unfolding unsubscribe_all
unsubscribe_all_lem side kind ps client h = elim (Option-cases (lookup ps.clients client)) [
  | inl gone ↦
      let result : ps ≡ (unsubscribe_all side kind ps client).1 = rw (gone, unsubscribe_all) refl in
      subst (Does ps (cleared ps side client)) result (
        h,
        λ s c i. elim (Bool-cases (same client i)) [
          | inl here ↦ rw here (ground (arith, no_client ps client s c i h gone here))
          | inr other ↦ rw other (ground arith)
        ],
      )
  | inr (state, there) ↦
      let ns = subscribed side state in
      let clients =
        cleanup_client_if_empty (put ps.clients client (remove_each side kind state ns).0) client in
      let result : changed side ps (unregister (table side ps) ns client) clients
          ≡ (unsubscribe_all side kind ps client).1 =
        rw (there, unsubscribe_all) refl in
      let done = taken_away side kind ps ns client state h there in
      subst (Does ps (cleared ps side client)) result (
        done.0,
        λ s c i. done.1 s c i ∙ elim (Bool-cases (same client i)) [
          | inl here ↦ elim (Bool-cases (same_side s side)) [
            | inl e ↦
                let own = with_client ps client state side c i h there here in
                rw (here, e, same_side-true s side e) (ground (arith, own))
            | inr n ↦ rw (here, n) refl
          ]
          | inr other ↦ rw other (ground arith)
        ],
      )
]

abbrev pub gone_from : PubSub → ℕ → Side → Bytes → ℕ → Bool
gone_from ps client s c i = holds (table s ps) c i && not (same client i)

pub remove_client_lem :
    (ps : PubSub) (client : ℕ)
    → IsSound ps
    → Does ps (gone_from ps client) (remove_client ps client)
unfolding remove_client
remove_client_lem ps client h = (
  (
    λ s. (both s).0,
    forget-IsTable ps.clients client h.1,
    forget-Lists ps.clients client h.1 h.2,
    told,
  ),
  λ s. (both s).1,
)
  where
    both :
        (s : Side)
        → IsRegistry (table s (remove_client ps client))
          × ((c : Bytes) (i : ℕ)
              → holds (table s (remove_client ps client)) c i ≡ gone_from ps client s c i)
    both Side.exact = retain_others_lem ps.subs client (h.0 Side.exact)
    both Side.pattern_ = retain_others_lem ps.patterns client (h.0 Side.pattern_)

    told :
        (s : Side) (c : Bytes) (i : ℕ)
        → holds (table s (remove_client ps client)) c i ≡ follows (remove_client ps client) s c i
    told s c i = (both s).1 c i ∙ (elim (Bool-cases (same client i)) [
      | inl here ↦ rw here (rw (lookup-forget ps.clients client i h.1) (rw here (ground arith)))
      | inr other ↦
          rw (other, lookup-forget ps.clients client i h.1) (rw other (ground (arith, h.3 s c i)))
    ])
