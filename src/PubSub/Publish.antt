-- ===== src/PubSub/Publish.antt =====
-- Messages in cache_cat/src/raft/application/pub_sub.rs: `publish`, the patterns, and PUBSUB.
use cache_cat.Prelude.{
  ℕ, Bool, true, false, ◌&&◌, ◌||◌, Option, none, some, List, [], ◌∷◌, Bytes, bytes_eq, nat_eq,
  ◌==◌, if◌then◌else◌, length,
}
use cache_cat.Value.{Value, Values}
use cache_cat.Value.Utf8.{as_bytes}
use cache_cat.Value.Table.{lookup, put}
use cache_cat.Value.HashSet.{set_insert}
use cache_cat.PubSub.{ClientState, PubSub, or_empty}

abbrev pub on_suffixes : (Bytes → Bool) → Bytes → Bool
on_suffixes test [] = test []
on_suffixes test (c ∷ channel) = test (c ∷ channel) || on_suffixes test channel

abbrev on_rest : (Bytes → Bool) → (ℕ → Bool) → Bytes → Bool
on_rest test first [] = false
on_rest test first (c ∷ channel) = first c && test channel

unfoldable pub matches_pattern : Bytes → Bytes → Bool
matches_pattern channel [] = length channel == 0
matches_pattern channel (p ∷ pattern) =
    let rest = λ (tail : Bytes). matches_pattern tail pattern in
    if p == b'*'
    then on_suffixes rest channel
    else if p == b'?'
    then on_rest rest (λ c. true) channel
    else on_rest rest (λ c. c == p) channel

abbrev pub message : Bytes → Bytes → Value
message channel content = Value.push (
    Values.more (Value.bulk_string (some (as_bytes "message"))) (
      Values.more (Value.bulk_string (some channel))
        (Values.more (Value.bulk_string (some content)) Values.nil)))

abbrev pub pmessage : Bytes → Bytes → Bytes → Value
pmessage pattern channel content = Value.push (
    Values.more (Value.bulk_string (some (as_bytes "pmessage"))) (
      Values.more (Value.bulk_string (some pattern)) (
        Values.more (Value.bulk_string (some channel))
          (Values.more (Value.bulk_string (some content)) Values.nil))))

abbrev pub pattern_targets : List (Bytes × List ℕ) → Bytes → List (Bytes × List ℕ)
pattern_targets [] channel = []
pattern_targets ((pattern, set) ∷ patterns) channel =
    let rest = pattern_targets patterns channel in
    if matches_pattern channel pattern then (pattern, set) ∷ rest else rest

module _ (listens : ℕ → Bool) where
  -- A message to the clients of a set: the states, and who has got one so far.
  unfoldable pub send_all :
      List (ℕ × ClientState) → Value → List ℕ → List ℕ → List (ℕ × ClientState) × List ℕ
  send_all clients frame [] delivered = (clients, delivered)
  send_all clients frame (client_id ∷ ids) delivered = elim (lookup clients client_id) [
    | none ↦ send_all clients frame ids delivered
    | some state ↦ elim (listens client_id) [
      | false ↦ send_all clients frame ids delivered
      | true ↦
          let state' = record state { sender = some frame } in
          send_all (put clients client_id state') frame ids (set_insert delivered client_id)
    ]
  ]

  unfoldable pub send_patterns :
      List (ℕ × ClientState)
      → Bytes
      → Bytes
      → List (Bytes × List ℕ)
      → List ℕ
      → List (ℕ × ClientState) × List ℕ
  unfolding send_all
  send_patterns clients channel content [] delivered = (clients, delivered)
  send_patterns clients channel content ((pattern, set) ∷ targets) delivered =
      let (clients', delivered') =
        send_all clients (pmessage pattern channel content) set delivered in
      send_patterns clients' channel content targets delivered'

  unfoldable pub publish : PubSub → Bytes → Bytes → Value × PubSub
  unfolding send_all send_patterns
  publish ps channel content =
      let exact_subs = or_empty (lookup ps.subs channel) in
      let targets = pattern_targets ps.patterns channel in
      let (clients, delivered) = send_all ps.clients (message channel content) exact_subs [] in
      let (clients', delivered') = send_patterns clients channel content targets delivered in
      (Value.integer (length delivered'), record ps { clients = clients' })

abbrev pub channel_names : List (Bytes × List ℕ) → Option Bytes → Values
channel_names [] pattern = Values.nil
channel_names ((channel, set) ∷ subs) none =
    Values.more (Value.bulk_string (some channel)) (channel_names subs none)
channel_names ((channel, set) ∷ subs) (some pattern) =
    let rest = channel_names subs (some pattern) in
    if matches_pattern channel pattern
    then Values.more (Value.bulk_string (some channel)) rest
    else rest

unfoldable pub pubsub_channels : PubSub → Option Bytes → Value
pubsub_channels ps pattern = Value.array (channel_names ps.subs pattern)

abbrev pub numsub_of : List (Bytes × List ℕ) → List Bytes → Values
numsub_of subs [] = Values.nil
numsub_of subs (channel ∷ channels) = Values.more (Value.bulk_string (some channel)) (
    Values.more (Value.integer (length (or_empty (lookup subs channel)))) (numsub_of subs channels))

unfoldable pub pubsub_numsub : PubSub → List Bytes → Value
pubsub_numsub ps channels = Value.array (numsub_of ps.subs channels)

unfoldable pub pubsub_numpat : PubSub → Value
pubsub_numpat ps = Value.integer (length ps.patterns)
