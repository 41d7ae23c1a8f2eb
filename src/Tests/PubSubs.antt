-- ===== src/Tests/PubSubs.antt =====
-- Who is subscribed to what, and who gets a message, after the calls of a server with two clients.
use cache_cat.Prelude.{ℕ, ◌≡◌, refl, Bool, true, none, some, List, [], ◌∷◌, Bytes, bytes_eq, nat_eq}
use cache_cat.Value.{Value, Values}
use cache_cat.Value.Utf8.{as_bytes}
use cache_cat.PubSub.{
  PubSub, Side, table, push_frame, register, unregister, add_each, remove_each, subscribe_to,
  unsubscribe_from, unsubscribe_all, retain_others, remove_client, client_count,
}
use cache_cat.PubSub.Clients.{follows}
use cache_cat.PubSub.Tables.{holds}
use cache_cat.PubSub.Publish.{
  matches_pattern, send_all, send_patterns, publish, pubsub_numsub, pubsub_numpat, pubsub_channels,
}
use cache_cat.PubSub.Registry.{empty, empty-IsSound}
use cache_cat.PubSub.Delivered.{Published, publish_lem}
use cache_cat.PubSub.Calls.{Call, call_one, run_calls, run_calls_lem}

abbrev news : Bytes
news = as_bytes "news"

abbrev starred : Bytes
starred = as_bytes "n*s"

abbrev hello : Bytes
hello = as_bytes "hello"

abbrev listens : ℕ → Bool
listens client = true

-- Client 1 subscribes to a channel and a pattern, client 2 to the pattern; client 3 comes and goes.
abbrev calls : List Call
calls =
    Call.subscribes Side.exact (news ∷ []) 1
    ∷ Call.subscribes Side.pattern_ (starred ∷ []) 1
    ∷ Call.subscribes Side.pattern_ (starred ∷ []) 2
    ∷ Call.subscribes Side.exact (news ∷ hello ∷ []) 3
    ∷ Call.unsubscribes Side.exact (hello ∷ []) 3
    ∷ Call.leaves 3
    ∷ []

abbrev server : PubSub
server = run_calls listens empty calls

published : (publish listens server news hello).0 ≡ Value.integer 2
unfolding run_calls call_one subscribe_to unsubscribe_from remove_client register unregister
    add_each remove_each retain_others publish send_all send_patterns matches_pattern as_bytes
published = refl

confirmed :
    (subscribe_to Side.exact "subscribe" server (news ∷ hello ∷ []) 1).0
    ≡ Value.batch (
        Values.more
          (push_frame "subscribe" (some news) 2)
          (Values.more (push_frame "subscribe" (some hello) 3) Values.nil))
unfolding run_calls call_one subscribe_to unsubscribe_from remove_client register unregister
    add_each remove_each retain_others as_bytes
confirmed = refl

-- With nothing to unsubscribe from there is one frame without a name.
nothing :
    (unsubscribe_all Side.exact "unsubscribe" server 2).0
    ≡ Value.batch (Values.more (push_frame "unsubscribe" none 1) Values.nil)
unfolding run_calls call_one subscribe_to unsubscribe_from unsubscribe_all remove_client register
    unregister add_each remove_each retain_others as_bytes
nothing = refl

counted :
    (pubsub_numsub server (news ∷ hello ∷ [])
      ≡ Value.array (
          Values.more (Value.bulk_string (some news)) (
            Values.more (Value.integer 1) (
              Values.more
                (Value.bulk_string (some hello))
                (Values.more (Value.integer 0) Values.nil)))))
    × (pubsub_numpat server ≡ Value.integer 1)
    × (pubsub_channels server (some starred)
        ≡ Value.array (Values.more (Value.bulk_string (some news)) Values.nil))
    × (client_count Side.pattern_ server 2 ≡ 1)
unfolding run_calls call_one subscribe_to unsubscribe_from remove_client register unregister
    add_each remove_each retain_others pubsub_numsub pubsub_numpat pubsub_channels client_count
    matches_pattern as_bytes
counted = (refl, refl, refl, refl)

run_calls_lem_example :
    (holds (table Side.exact (run_calls listens empty calls)) news 1 ≡ true)
    × (follows (run_calls listens empty calls) Side.exact news 1 ≡ true)
unfolding as_bytes
run_calls_lem_example = (run_calls_lem listens empty calls empty-IsSound).1 Side.exact news 1

publish_lem_example : Published listens server news hello (publish listens server news hello)
publish_lem_example =
    publish_lem listens server news hello (run_calls_lem listens empty calls empty-IsSound).0
