-- ===== src/PubSub/Calls.antt =====
-- The calls of cache_cat/src/raft/application/pub_sub.rs one after the other, against the relation
-- of who is subscribed to what.
use cache_cat.Prelude.{
  ℕ, ◌≡◌, refl, ◌∙◌, sym, Bool, not, ◌&&◌, ◌||◌, List, [], ◌∷◌, Bytes, same, bytes_eq, nat_eq,
}
use cache_cat.Value.{Value}
use cache_cat.Value.Table.{names}
use cache_cat.PubSub.{
  PubSub, Side, table, subscribe_to, unsubscribe_from, unsubscribe_all, remove_client,
}
use cache_cat.PubSub.Tables.{holds}
use cache_cat.PubSub.Clients.{same_side, follows}
use cache_cat.PubSub.Publish.{publish}
use cache_cat.PubSub.Registry.{IsSound, Does, subscribe_to_lem}
use cache_cat.PubSub.Departed.{unsubscribe_from_lem, unsubscribe_all_lem, remove_client_lem}
use cache_cat.PubSub.Delivered.{publish_lem}

abbrev pub subscribe : PubSub → List Bytes → ℕ → Value × PubSub
subscribe = subscribe_to Side.exact "subscribe"

abbrev pub psubscribe : PubSub → List Bytes → ℕ → Value × PubSub
psubscribe = subscribe_to Side.pattern_ "psubscribe"

abbrev pub unsubscribe : PubSub → List Bytes → ℕ → Value × PubSub
unsubscribe = unsubscribe_from Side.exact "unsubscribe"

abbrev pub punsubscribe : PubSub → List Bytes → ℕ → Value × PubSub
punsubscribe = unsubscribe_from Side.pattern_ "punsubscribe"

abbrev pub unsubscribe_all_channels : PubSub → ℕ → Value × PubSub
unsubscribe_all_channels = unsubscribe_all Side.exact "unsubscribe"

abbrev pub punsubscribe_all_patterns : PubSub → ℕ → Value × PubSub
punsubscribe_all_patterns = unsubscribe_all Side.pattern_ "punsubscribe"

pub data Call : Type 0 where
  subscribes : Side → List Bytes → ℕ → Call
  unsubscribes : Side → List Bytes → ℕ → Call
  unsubscribes_all : Side → ℕ → Call
  leaves : ℕ → Call
  publishes : Bytes → Bytes → Call

abbrev Relation : Type 0
Relation = Side → Bytes → ℕ → Bool

-- What a call means for the relation, whatever the tables are.
abbrev pub relation_after : Relation → Call → Relation
relation_after r (Call.subscribes side ns client) s c i =
    r s c i || (same_side s side && names ns c && same client i)
relation_after r (Call.unsubscribes side ns client) s c i =
    r s c i && not (same_side s side && names ns c && same client i)
relation_after r (Call.unsubscribes_all side client) s c i =
    r s c i && not (same_side s side && same client i)
relation_after r (Call.leaves client) s c i = r s c i && not (same client i)
relation_after r (Call.publishes channel content) s c i = r s c i

abbrev pub relation_of : Relation → List Call → Relation
relation_of r [] = r
relation_of r (call ∷ calls) = relation_of (relation_after r call) calls

relation_of-same :
    (calls : List Call) (r r' : Relation) (s : Side) (c : Bytes) (i : ℕ)
    → r s c i ≡ r' s c i
    → relation_of r calls s c i ≡ relation_of r' calls s c i
relation_of-same [] r r' s c i e = e
relation_of-same (call ∷ calls) r r' s c i e =
    relation_of-same calls (relation_after r call) (relation_after r' call) s c i (one call)
  where
    one : (call : Call) → relation_after r call s c i ≡ relation_after r' call s c i
    one (Call.subscribes side ns client) = rw e refl
    one (Call.unsubscribes side ns client) = rw e refl
    one (Call.unsubscribes_all side client) = rw e refl
    one (Call.leaves client) = rw e refl
    one (Call.publishes channel content) = e

module _ (listens : ℕ → Bool) where
  unfoldable pub call_one : PubSub → Call → PubSub
  call_one ps (Call.subscribes Side.exact ns client) = (subscribe ps ns client).1
  call_one ps (Call.subscribes Side.pattern_ ns client) = (psubscribe ps ns client).1
  call_one ps (Call.unsubscribes Side.exact ns client) = (unsubscribe ps ns client).1
  call_one ps (Call.unsubscribes Side.pattern_ ns client) = (punsubscribe ps ns client).1
  call_one ps (Call.unsubscribes_all Side.exact client) = (unsubscribe_all_channels ps client).1
  call_one ps (Call.unsubscribes_all Side.pattern_ client) = (punsubscribe_all_patterns ps client).1
  call_one ps (Call.leaves client) = remove_client ps client
  call_one ps (Call.publishes channel content) = (publish listens ps channel content).1

  unfoldable pub run_calls : PubSub → List Call → PubSub
  run_calls ps [] = ps
  run_calls ps (call ∷ calls) = run_calls (call_one ps call) calls

  abbrev now : PubSub → Relation
  now ps s c i = holds (table s ps) c i

  call_one_lem :
      (ps : PubSub) (call : Call)
      → IsSound ps
      → Does ps (relation_after (now ps) call) (call_one ps call)
  unfolding call_one
  call_one_lem ps (Call.subscribes Side.exact ns client) h =
      subscribe_to_lem Side.exact "subscribe" ps ns client h
  call_one_lem ps (Call.subscribes Side.pattern_ ns client) h =
      subscribe_to_lem Side.pattern_ "psubscribe" ps ns client h
  call_one_lem ps (Call.unsubscribes Side.exact ns client) h =
      unsubscribe_from_lem Side.exact "unsubscribe" ps ns client h
  call_one_lem ps (Call.unsubscribes Side.pattern_ ns client) h =
      unsubscribe_from_lem Side.pattern_ "punsubscribe" ps ns client h
  call_one_lem ps (Call.unsubscribes_all Side.exact client) h =
      unsubscribe_all_lem Side.exact "unsubscribe" ps client h
  call_one_lem ps (Call.unsubscribes_all Side.pattern_ client) h =
      unsubscribe_all_lem Side.pattern_ "punsubscribe" ps client h
  call_one_lem ps (Call.leaves client) h = remove_client_lem ps client h
  call_one_lem ps (Call.publishes channel content) h =
      let (_, _, _, _, _, does) = publish_lem listens ps channel content h in does

  -- After any calls from a state whose two accounts agree, they agree again, and both tell the
  -- relation that the calls make of the one before, whoever listens.
  pub run_calls_lem :
      (ps : PubSub) (calls : List Call)
      → IsSound ps
      → IsSound (run_calls ps calls)
        × ((s : Side) (c : Bytes) (i : ℕ)
            → (holds (table s (run_calls ps calls)) c i ≡ relation_of (now ps) calls s c i)
              × (follows (run_calls ps calls) s c i ≡ relation_of (now ps) calls s c i))
  unfolding run_calls
  run_calls_lem ps [] h = (h, λ s c i. (refl, sym (h.3 s c i)))
  run_calls_lem ps (call ∷ calls) h =
      let one = call_one_lem ps call h in
      let rest = run_calls_lem (call_one ps call) calls one.0 in
      let later = λ (s : Side) (c : Bytes) (i : ℕ).
        relation_of-same calls (now (call_one ps call)) (relation_after (now ps) call) s c i
          (one.1 s c i) in
      (rest.0, λ s c i. ((rest.1 s c i).0 ∙ later s c i, (rest.1 s c i).1 ∙ later s c i))
