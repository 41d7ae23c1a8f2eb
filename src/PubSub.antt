-- ===== src/PubSub.antt =====
-- cache_cat/src/raft/application/pub_sub.rs: who is subscribed to which channels and patterns, told
-- twice, by channel and by client. Each call is one step: its locks are taken one after the other,
-- and here no other call comes between them. A `watch::Sender` is the value that its channel holds: a
-- send that succeeds replaces it. A send succeeds where a receiver is there, which is a parameter.
pub mod Tables
pub mod Clients
pub mod Registry
pub mod Departed
pub mod Publish
pub mod Sends
pub mod Delivered
pub mod Calls
use cache_cat.Prelude.{
  ℕ, zero, suc, ◌+◌, String, Bool, true, false, not, ◌&&◌, ◌||◌, Option, none, some, List, [], ◌∷◌,
  ◌++◌, Bytes, Eq, same, bytes_eq, nat_eq, ◌==◌, if◌then◌else◌, length,
}
use cache_cat.Value.{Value, Values}
use cache_cat.Value.Utf8.{as_bytes}
use cache_cat.Value.Table.{lookup, put, forget}
use cache_cat.Value.HashSet.{set_insert, set_remove}

pub record ClientState : Type 0 where
  pub sender : Option Value
  pub subscribed_channels : List Bytes
  pub subscribed_patterns : List Bytes

pub record PubSub : Type 0 where
  pub subs : List (Bytes × List ℕ)
  pub patterns : List (Bytes × List ℕ)
  pub clients : List (ℕ × ClientState)

-- Channels and patterns have the same code on fields of their own.
pub data Side : Type 0 where
  exact : Side
  pattern_ : Side

abbrev pub table : Side → PubSub → List (Bytes × List ℕ)
table Side.exact ps = ps.subs
table Side.pattern_ ps = ps.patterns

abbrev pub with_table : Side → PubSub → List (Bytes × List ℕ) → PubSub
with_table Side.exact ps t = record ps { subs = t }
with_table Side.pattern_ ps t = record ps { patterns = t }

abbrev pub subscribed : Side → ClientState → List Bytes
subscribed Side.exact state = state.subscribed_channels
subscribed Side.pattern_ state = state.subscribed_patterns

abbrev pub with_subscribed : Side → ClientState → List Bytes → ClientState
with_subscribed Side.exact state names = record state { subscribed_channels = names }
with_subscribed Side.pattern_ state names = record state { subscribed_patterns = names }

abbrev pub new_state : ClientState
new_state = record { sender = none; subscribed_channels = []; subscribed_patterns = [] }

abbrev pub get_or_create : List (ℕ × ClientState) → ℕ → List (ℕ × ClientState)
get_or_create clients client_id = elim (lookup clients client_id) [
  | none ↦ put clients client_id new_state
  | some state ↦ clients
]

abbrev pub push_frame : String → Option Bytes → ℕ → Value
push_frame kind target count = Value.push (
    Values.more (Value.bulk_string (some (as_bytes kind)))
      (Values.more (Value.bulk_string target) (Values.more (Value.integer count) Values.nil)))

abbrev pub client_sub_total : ClientState → ℕ
client_sub_total state = length state.subscribed_channels + length state.subscribed_patterns

abbrev pub or_empty : Option (List ℕ) → List ℕ
or_empty none = []
or_empty (some set) = set

unfoldable pub register : List (Bytes × List ℕ) → List Bytes → ℕ → List (Bytes × List ℕ)
register subs [] client_id = subs
register subs (channel ∷ channels) client_id =
    register (put subs channel (set_insert (or_empty (lookup subs channel)) client_id)) channels
      client_id

abbrev pub keep_set : List (Bytes × List ℕ) → Bytes → List ℕ → List (Bytes × List ℕ)
keep_set subs channel set = if length set == 0 then forget subs channel else put subs channel set

unfoldable pub unregister : List (Bytes × List ℕ) → List Bytes → ℕ → List (Bytes × List ℕ)
unregister subs [] client_id = subs
unregister subs (channel ∷ channels) client_id = elim (lookup subs channel) [
  | none ↦ unregister subs channels client_id
  | some set ↦ unregister (keep_set subs channel (set_remove set client_id)) channels client_id
]

-- The loops that change the state of the client and write a frame for each name.
unfoldable pub add_each : Side → String → ClientState → List Bytes → ClientState × Values
add_each side kind state [] = (state, Values.nil)
add_each side kind state (name ∷ names) =
    let state' = with_subscribed side state (set_insert (subscribed side state) name) in
    let (state'', frames) = add_each side kind state' names in
    (state'', Values.more (push_frame kind (some name) (client_sub_total state')) frames)

unfoldable pub remove_each : Side → String → ClientState → List Bytes → ClientState × Values
remove_each side kind state [] = (state, Values.nil)
remove_each side kind state (name ∷ names) =
    let state' = with_subscribed side state (set_remove (subscribed side state) name) in
    let (state'', frames) = remove_each side kind state' names in
    (state'', Values.more (push_frame kind (some name) (client_sub_total state')) frames)

abbrev pub none_left : String → List Bytes → Values
none_left kind [] = Values.nil
none_left kind (name ∷ names) = Values.more (push_frame kind (some name) 0) (none_left kind names)

abbrev pub cleanup_client_if_empty : List (ℕ × ClientState) → ℕ → List (ℕ × ClientState)
cleanup_client_if_empty clients client_id = elim (lookup clients client_id) [
  | none ↦ clients
  | some state ↦
      if (length state.subscribed_channels == 0) && (length state.subscribed_patterns == 0)
      then forget clients client_id
      else clients
]

-- `subscribe` and `psubscribe`.
unfoldable pub subscribe_to : Side → String → PubSub → List Bytes → ℕ → Value × PubSub
unfolding register add_each
subscribe_to side kind ps names client_id =
    let ps' = with_table side ps (register (table side ps) names client_id) in
    let clients = get_or_create ps.clients client_id in
    elim (lookup clients client_id) [
      | none ↦ (Value.batch Values.nil, record ps' { clients = clients })
      | some state ↦
          let (state', frames) = add_each side kind state names in
          (Value.batch frames, record ps' { clients = put clients client_id state' })
    ]

-- `unsubscribe` and `punsubscribe`.
unfoldable pub unsubscribe_from : Side → String → PubSub → List Bytes → ℕ → Value × PubSub
unfolding unregister remove_each
unsubscribe_from side kind ps names client_id =
    let ps' = with_table side ps (unregister (table side ps) names client_id) in
    elim (lookup ps.clients client_id) [
      | none ↦ (Value.batch (none_left kind names), ps')
      | some state ↦
          let (state', frames) = remove_each side kind state names in
          let clients = cleanup_client_if_empty (put ps.clients client_id state') client_id in
          (Value.batch frames, record ps' { clients = clients })
    ]

abbrev pub one_frame : String → ℕ → Values → Values
one_frame kind total Values.nil = Values.more (push_frame kind none total) Values.nil
one_frame kind total (Values.more frame frames) = Values.more frame frames

-- `unsubscribe_all_channels` and `punsubscribe_all_patterns`.
unfoldable pub unsubscribe_all : Side → String → PubSub → ℕ → Value × PubSub
unfolding unregister remove_each
unsubscribe_all side kind ps client_id = elim (lookup ps.clients client_id) [
  | none ↦ (Value.batch (one_frame kind 0 Values.nil), ps)
  | some state ↦
      let names = subscribed side state in
      let ps' = with_table side ps (unregister (table side ps) names client_id) in
      let (state', frames) = remove_each side kind state names in
      let clients = cleanup_client_if_empty (put ps.clients client_id state') client_id in
      (
        Value.batch (one_frame kind (client_sub_total state') frames),
        record ps' { clients = clients },
      )
]

-- `retain`: the client is taken out of every set, and a set that is empty is taken out.
unfoldable pub retain_others : List (Bytes × List ℕ) → ℕ → List (Bytes × List ℕ)
retain_others [] client_id = []
retain_others ((name, set) ∷ subs) client_id =
    let rest = retain_others subs client_id in
    let set' = set_remove set client_id in if length set' == 0 then rest else (name, set') ∷ rest

unfoldable pub remove_client : PubSub → ℕ → PubSub
unfolding retain_others
remove_client ps client_id = record {
  subs = retain_others ps.subs client_id;
  patterns = retain_others ps.patterns client_id;
  clients = forget ps.clients client_id;
}

-- `client_subscription_count` and `client_pattern_count`.
unfoldable pub client_count : Side → PubSub → ℕ → ℕ
client_count side ps client_id = elim (lookup ps.clients client_id) [
  | none ↦ 0
  | some state ↦ length (subscribed side state)
]
