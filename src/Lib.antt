-- ===== src/Lib.antt =====
-- cache-cat: a replicated cache that speaks the protocol of Redis, in Rust. This library models
-- the code that decides what a client sees of a key and when a key goes away.
--
-- The parts and the files that model them:
--
--   Map.antt: what the code relies on of papaya::HashMap, the concurrent map of another package,
--     as a record of operations and laws; Map/Assoc.antt is one map that meets them.
--   Wheel.antt, cache_cat/src/mocha/mod.rs: HierarchicalTimeWheel, which holds timers in 8 levels
--     of 256 slots. Functions keep the names of the methods. A call of the callback is an item of
--     the list that comes back.
--   Mocha.antt, the same file: the map with expiry. A state is the table, the logical clock, the
--     commands that were sent to the worker and not received yet, and the wheel of the worker.
--     Each method is a function that returns its answer beside the new state.
--   Mocha/Worker.antt, the same file: the expiry worker and the calls that wait for it.
--   Mocha/Scan.antt, the same file: keys, one pass over the table.
--   Value.antt, cache_cat/src/raft/types/core/value_object.rs and response_value.rs: what keys
--     hold and what calls answer. Value/Number.antt, cache_cat/src/utils/number.rs: how a text is
--     read as a number.
--   Cache.antt, cache_cat/src/raft/types/core/mocha/core.rs: the databases, each a map with
--     expiry, and the logical clocks.
--   Cache/Compute.antt, cache_cat/src/raft/types/core/mocha/cas.rs: execute_compute, which runs a
--     command on one key in the three modes of an update. Cache/Several.antt:
--     execute_multi_read_compute, for a command that reads several keys and writes one.
--   Cache/Strings.antt and Cache/Keys.antt, cache_cat/src/protocol/string and
--     cache_cat/src/protocol/key: the commands as records of what the trait ComputeCommand asks
--     for.
--   Cache/Redis.antt and Cache/SetForms.antt, cache_cat/src/raft/types/core/cache/key.rs and
--     string.rs: deletion, renaming, flushing, and SET with its options; set_execute is the
--     handler of SET, cache_cat/src/protocol/string/set.rs. The commit by the raft library is
--     taken as one that succeeds and applies the request once.
--   Cache/Read.antt, cache_cat/src/raft/types/core/mocha/read_command.rs: commands that only
--     read.
--   Cache/Lists.antt, cache_cat/src/protocol/list and cache_cat/src/utils/list.rs: the commands
--     on lists. A list is shared behind an Arc; here the entry that a command writes has the new
--     content. Indices and counts are i64, as their 64 bits (Value/Signed.antt).
--   Cache/Bitmap.antt, cache_cat/src/protocol/bitmap/setbit.rs, getbit.rs and bitcount.rs: the
--     commands on single bits. Cache/Bitmap/Field.antt, and Value/Field.antt for its integers,
--     bitfield.rs: BITFIELD from a parsed request on.
--   Value/ZSet.antt, cache_cat/src/raft/types/core/sorted_set.rs: the sorted set, a tree of
--     entries in order of their scores and a table of the scores. The order of the scores is that
--     of the package ordered_float; a function `rank` stands for it, and no law of it is used.
--     Value/Double.antt has the comparisons of f64 on its 64 bits; the addition of f64 is a
--     parameter of ZINCRBY.
--   Cache/ZSets.antt, cache_cat/src/protocol/zset: the commands on sorted sets.
--   Value/Table.antt: the HashMap of the standard library, as the list of its entries.
--     Cache/Hashes.antt, cache_cat/src/protocol/hash: the commands on hashes.
--   Cache/Sets.antt, cache_cat/src/protocol/set: the commands on one set.
--     Cache/Sets/Several.antt: those on several sets; Cache/Sets/Stores.antt,
--     cache_cat/src/raft/types/core/cache/set.rs: SUNIONSTORE and SDIFFSTORE. SPOP draws with a
--     generator that is seeded by the key and the write clock, so that all nodes draw alike;
--     Cache/Sets/Drawn.antt is about that.
--   Protocol/Encode.antt, cache_cat/src/raft/types/core/response_value.rs: encode_to, a reply as
--     bytes in RESP2 and RESP3. An f64 is its 64 bits; what the standard library prints for one
--     that is finite and not a whole number is the parameter `display`. Protocol/Parse.antt and
--     Protocol/Take.antt, cache_cat/src/protocol/resp.rs: the parser in its two phases,
--     parse_meta for the extents and take for the values; how the standard library reads an f64
--     is the parameter `parse_f64`. The parser runs on fuel of twice the length of the buffer
--     plus one, which is enough since an element takes up a byte or more (Protocol/Extent.antt,
--     Protocol/Fuel.antt); Protocol/Sent.antt says which replies fit in a frame, and what each
--     protocol has for them. Value/Utf8.antt: texts as bytes, and from_utf8_lossy.
--     Value/HashSet.antt: the HashSet of the standard library.
--   PubSub.antt and PubSub/Publish.antt, cache_cat/src/raft/application/pub_sub.rs: who is
--     subscribed to which channels and patterns, and PUBLISH. subscribe and psubscribe, and the
--     other pairs of methods, are one function each with the side as an argument;
--     PubSub/Calls.antt gives them their names. PubSub/Registry.antt says when the accounts by
--     channel and by client agree. Each call is one step. A sender is the value that its watch
--     channel holds, the last one that was sent; whether a client listens is a parameter.
--   Glob.antt, cache_cat/src/utils/glob.rs: the matcher of the patterns of KEYS. The matcher runs
--     on fuel of the lengths of the pattern and the value plus one, which is enough since each
--     call drops a character of one of them.
--   Mocha/Run.antt: clients, clock and worker as a step relation. Each call of the map is atomic;
--     the order of the calls is arbitrary.
--
-- The interplay: a client call writes the table and sends a command with the instant of the new
-- entry; the worker receives the commands in the order of sending, keeps the instants in its
-- wheel and deletes an entry when its instant has come and is still the one of the entry. The
-- state machine of the raft log moves the clock.
--
-- Bounds: an instant is a u64 and less than 2 ^ 64, written as a hypothesis where a caller
-- supplies it. The loop of level_for_delta runs on fuel 8, one round for each level; advance_to
-- runs at most 4096 rounds, as many as there are instants to go, so the fuel is the difference of
-- the instants.
--
-- Commands that are not modelled: GET, MGET, STRLEN, EXISTS, TTL, PTTL, TYPE, PFADD, PFCOUNT,
-- SRANDMEMBER, BITPOS, ZRANGEBYSCORE, and those on the server, on scripts and on transactions.
-- The parsing of arguments, the dispatch of commands, and the conversions to and from Lua are not
-- modelled either. Of the other commands on keys, strings, hashes, lists, sets, bits and sorted
-- sets the model has what the state machine computes; what a handler makes of that for its reply
-- is modelled for SET only.
--
-- Not modelled: the threads, channels and wake-ups around the worker, the network and the raft
-- library, files, and configuration. The steps of Mocha/Run.antt leave out unlink_batch, which
-- nothing in the repository calls.
pub mod Prelude
pub mod Wheel
pub mod Map
pub mod Mocha
pub mod Value
pub mod Cache
pub mod Glob
pub mod Protocol
pub mod PubSub
mod Tests
