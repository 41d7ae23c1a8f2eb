-- ===== src/PubSub/Sends.antt =====
-- The sends of `publish` in pub_sub.rs: a frame to the clients of a set.
use cache_cat.Prelude.{
  ℕ, ◌≡◌, refl, ◌∙◌, ap, sym, Bool, true, false, ◌&&◌, ◌||◌, Option, none, some, Option-cases, List,
  [], ◌∷◌, ◌++◌, same, same_iff, bytes_eq, nat_eq, arith, Bool-cases, inl, inr,
}
use cache_cat.Value.{Value}
use cache_cat.Value.Table.{names, lookup, put, IsTable, lookup-put, put-IsTable, is_some}
use cache_cat.Value.HashSet.{set_insert, IsDistinct, names-set_insert, set_insert-IsDistinct}
use cache_cat.PubSub.{ClientState, Side, subscribed}
use cache_cat.PubSub.Publish.{send_all}
use cache_cat.PubSub.Clients.{list_of}

-- The same clients, subscribed to the same.
abbrev pub SameStates : List (ℕ × ClientState) → List (ℕ × ClientState) → Type 0
SameStates clients clients' =
    IsTable clients'
    × ((s : Side) (i : ℕ) → list_of s (lookup clients' i) ≡ list_of s (lookup clients i))
    × ((i : ℕ) → is_some (lookup clients' i) ≡ is_some (lookup clients i))

-- What a client that looks now finds in its channel.
abbrev pub held_by : Option ClientState → Option Value
held_by none = none
held_by (some state) = state.sender

-- Of frames that are sent one after the other the last one is kept.
abbrev pub latest : Option Value → List Value → Option Value
latest old [] = old
latest old (frame ∷ frames) = latest (some frame) frames

latest-append :
    (old : Option Value) (frames frames' : List Value)
    → latest old (frames ++ frames') ≡ latest (latest old frames) frames'
latest-append old [] frames' = refl
latest-append old (frame ∷ frames) frames' = latest-append (some frame) frames frames'

abbrev with_frame : ClientState → Value → ClientState
with_frame state frame = record state { sender = some frame }

subscribed-with_frame :
    (s : Side) (state : ClientState) (frame : Value)
    → subscribed s (with_frame state frame) ≡ subscribed s state
subscribed-with_frame Side.exact state frame = refl
subscribed-with_frame Side.pattern_ state frame = refl

-- A frame if the test holds.
abbrev pub frame_if : Bool → Value → List Value
frame_if true frame = frame ∷ []
frame_if false frame = []

-- One send to a client.
sent_to :
    (clients : List (ℕ × ClientState)) (frame : Value) (id : ℕ) (state : ClientState)
    → IsTable clients
    → lookup clients id ≡ some state
    → SameStates clients (put clients id (with_frame state frame))
      × ((i : ℕ)
          → held_by (lookup (put clients id (with_frame state frame)) i)
            ≡ latest (held_by (lookup clients i)) (frame_if (same id i) frame))
sent_to clients frame id state h there = (
  (
    put-IsTable clients id (with_frame state frame) h,
    λ s i.
        ap (list_of s) (lookup-put clients id (with_frame state frame) i)
        ∙ elim (Bool-cases (same id i)) [
          | inl here ↦ rw (here, at i here) (subscribed-with_frame s state frame)
          | inr other ↦ rw other refl
        ],
    λ i.
        ap is_some (lookup-put clients id (with_frame state frame) i)
        ∙ elim (Bool-cases (same id i)) [
          | inl here ↦ rw (here, at i here) refl
          | inr other ↦ rw other refl
        ],
  ),
  λ i.
      ap held_by (lookup-put clients id (with_frame state frame) i)
      ∙ elim (Bool-cases (same id i)) [ inl here ↦ rw here refl | inr other ↦ rw other refl ],
)
  where
    at : (i : ℕ) → same id i ≡ true → lookup clients i ≡ some state
    at i here = ap (lookup clients) (sym ((same_iff id i).0 here)) ∙ there

-- A frame that was sent to the clients for which the test holds.
abbrev pub Sent :
    List (ℕ × ClientState)
    → List ℕ
    → (ℕ → Bool)
    → (ℕ → List Value)
    → List (ℕ × ClientState) × List ℕ
    → Type 0
Sent clients delivered got frames out =
    SameStates clients out.0
    × IsDistinct out.1
    × ((i : ℕ) → names out.1 i ≡ (names delivered i || got i))
    × ((i : ℕ) → held_by (lookup out.0 i) ≡ latest (held_by (lookup clients i)) (frames i))

pub Sent-same :
    (clients : List (ℕ × ClientState)) (delivered : List ℕ) (got got' : ℕ → Bool)
    (frames frames' : ℕ → List Value) (out : List (ℕ × ClientState) × List ℕ)
    → ((i : ℕ) → (got i ≡ got' i) × (frames i ≡ frames' i))
    → Sent clients delivered got frames out
    → Sent clients delivered got' frames' out
Sent-same clients delivered got got' frames frames' out e h = (
  h.0,
  h.1,
  λ i. h.2 i ∙ ap (λ b. names delivered i || b) (e i).0,
  λ i. h.3 i ∙ ap (latest (held_by (lookup clients i))) (e i).1,
)

-- One thing that is sent after another.
pub Sent-then :
    (clients clients' : List (ℕ × ClientState)) (delivered delivered' : List ℕ)
    (got got' : ℕ → Bool) (frames frames' : ℕ → List Value) (out : List (ℕ × ClientState) × List ℕ)
    → Sent clients delivered got frames (clients', delivered')
    → Sent clients' delivered' got' frames' out
    → Sent clients delivered (λ i. got i || got' i) (λ i. frames i ++ frames' i) out
Sent-then clients clients' delivered delivered' got got' frames frames' out h k = (
  (k.0.0, λ s i. k.0.1 s i ∙ h.0.1 s i, λ i. k.0.2 i ∙ h.0.2 i),
  k.1,
  λ i. k.2 i ∙ ap (λ b. b || got' i) (h.2 i) ∙ ground arith,
  λ i.
      k.3 i
      ∙ ap (λ o. latest o (frames' i)) (h.3 i)
      ∙ sym (latest-append (held_by (lookup clients i)) (frames i) (frames' i)),
)

module _ (listens : ℕ → Bool) where
  -- A client that gets what is sent to it.
  abbrev pub reachable : List (ℕ × ClientState) → ℕ → Bool
  reachable clients i = is_some (lookup clients i) && listens i

  pub reachable-same :
      (clients clients' : List (ℕ × ClientState)) (i : ℕ)
      → SameStates clients clients'
      → reachable clients' i ≡ reachable clients i
  reachable-same clients clients' i h = ap (λ b. b && listens i) (h.2 i)

  abbrev pub to_set : List (ℕ × ClientState) → List ℕ → ℕ → Bool
  to_set clients ids i = names ids i && reachable clients i

  -- The first of the clients is left out, and it is sent the frame.
  not_sent :
      (clients : List (ℕ × ClientState)) (id : ℕ) (ids : List ℕ) (frame : Value) (i : ℕ)
      → reachable clients id ≡ false
      → (to_set clients ids i ≡ to_set clients (id ∷ ids) i)
        × (frame_if (to_set clients ids i) frame ≡ frame_if (to_set clients (id ∷ ids) i) frame)
  not_sent clients id ids frame i h = (same_test, ap (λ b. frame_if b frame) same_test)
    where
      same_test : to_set clients ids i ≡ to_set clients (id ∷ ids) i
      same_test = elim (Bool-cases (same id i)) [
        | inl here ↦
            let not_here : reachable clients i ≡ false =
              ap (reachable clients) (sym ((same_iff id i).0 here)) ∙ h in
            rw not_here (ground arith)
        | inr other ↦ rw other refl
      ]

  first_sent :
      (clients clients' : List (ℕ × ClientState)) (id : ℕ) (ids : List ℕ) (frame : Value) (i : ℕ)
      → SameStates clients clients'
      → names ids id ≡ false
      → reachable clients id ≡ true
      → ((same id i || to_set clients' ids i) ≡ to_set clients (id ∷ ids) i)
        × ((frame_if (same id i) frame ++ frame_if (to_set clients' ids i) frame)
            ≡ frame_if (to_set clients (id ∷ ids) i) frame)
  first_sent clients clients' id ids frame i e d h =
      let before : to_set clients' ids i ≡ to_set clients ids i =
        ap (λ b. names ids i && b) (reachable-same clients clients' i e) in
      elim (Bool-cases (same id i)) [
        | inl here ↦
            let is_id = (same_iff id i).0 here in
            let there : reachable clients i ≡ true = ap (reachable clients) (sym is_id) ∙ h in
            let once : names ids i ≡ false = ap (names ids) (sym is_id) ∙ d in
            rw (before, here, there, once) (refl, refl)
        | inr other ↦ rw (before, other) (refl, refl)
      ]

  send_one :
      (clients : List (ℕ × ClientState)) (frame : Value) (id : ℕ) (delivered : List ℕ)
      (state : ClientState)
      → IsTable clients
      → IsDistinct delivered
      → lookup clients id ≡ some state
      → Sent clients delivered
          (same id)
          (λ i. frame_if (same id i) frame)
          (put clients id (with_frame state frame), set_insert delivered id)
  send_one clients frame id delivered state h k there =
      let s = sent_to clients frame id state h there in
      (s.0, set_insert-IsDistinct delivered id k, names-set_insert delivered id, s.1)

  pub send_all_lem :
      (clients : List (ℕ × ClientState)) (frame : Value) (ids delivered : List ℕ)
      → IsTable clients
      → IsDistinct ids
      → IsDistinct delivered
      → Sent clients delivered
          (to_set clients ids)
          (λ i. frame_if (to_set clients ids i) frame)
          (send_all listens clients frame ids delivered)
  unfolding send_all
  send_all_lem clients frame [] delivered h d k =
      ((h, λ s i. refl, λ i. refl), k, λ i. ground arith, λ i. refl)
  send_all_lem clients frame (id ∷ ids) delivered h d k =
      let left_out = λ (unreachable : reachable clients id ≡ false).
        Sent-same clients delivered (to_set clients ids) (to_set clients (id ∷ ids))
          (λ i. frame_if (to_set clients ids i) frame)
          (λ i. frame_if (to_set clients (id ∷ ids) i) frame)
          (send_all listens clients frame ids delivered)
          (λ i. not_sent clients id ids frame i unreachable)
          (send_all_lem clients frame ids delivered h d.1 k) in
      elim (Option-cases (lookup clients id)) [
        | inl gone ↦ rw (gone, send_all) (left_out (rw gone refl))
        | inr (state, there) ↦ elim (Bool-cases (listens id)) [
          | inr deaf ↦ rw (there, send_all) (rw deaf (left_out (rw (there, deaf) refl)))
          | inl hears ↦
              let clients' = put clients id (with_frame state frame) in
              let one = send_one clients frame id delivered state h k there in
              let rest =
                send_all_lem clients' frame ids (set_insert delivered id) one.0.0 d.1 one.1 in
              let out = send_all listens clients' frame ids (set_insert delivered id) in
              rw (there, send_all)
                (rw hears (
                  Sent-same clients delivered (λ i. same id i || to_set clients' ids i)
                    (to_set clients (id ∷ ids))
                    (λ i. frame_if (same id i) frame ++ frame_if (to_set clients' ids i) frame)
                    (λ i. frame_if (to_set clients (id ∷ ids) i) frame) out
                    (λ i.
                      first_sent clients clients' id ids frame i one.0 d.0 (rw (there, hears) refl))
                    (Sent-then clients clients' delivered (set_insert delivered id) (same id)
                      (to_set clients' ids) (λ i. frame_if (same id i) frame)
                      (λ i. frame_if (to_set clients' ids i) frame) out one rest)))
        ]
      ]
