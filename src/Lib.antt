-- ===== src/Lib.antt =====
-- HyperGnomon: the indexer's own data formats and the parts that run beside its main loop.
--
-- The indexer reads blocks from a daemon over a pool of connections, keeps its records in a key-value
-- store in byte formats of its own, watches for reorgs, and publishes what it stores on an event bus.
--
--   * Base: shared helpers: Boolean tests, lists measured by native numbers, signed integers, texts,
--     maps and sets by strings (Dict, DictSort), sorting (Sort), and decimal texts of int64s (Strconv).
--   * Codec: structures/typed_encoding.go. One module per record of structures/types.go: AddrScid,
--     Install, NormalTx, ScCode, SctxTurbo, TelaContent, ClassMeta and Variables (slices of
--     SCIDVariable), each with MarshalTyped (marshal_typed), MarshalTypedAppend, UnmarshalTyped and its
--     tag test. Words, Varint, LenString, Arena and Decimal hold what they share: big-endian words,
--     uvarints, length-prefixed strings, the buffer that the coalescing decoders cut strings from
--     (ownedCut), and itoaBase10. The laws stand in each module's children.
--   * Reorg: indexer/reorg.go. check_reorg_at, check_reorg_for_block, on_reorg_detected and
--     find_fork_point; the lookups of hashes are parameters, since they belong to the store and the
--     daemon.
--   * Chan: Go's buffered channels, as the bus and the pool use them.
--   * Bus: eventbus/bus.go. Events has the event types and Filter.Match (match_event), Bus the
--     subscriptions, Publish, Subscribe, cancel, one round of Run (run_round), Close and the counters.
--     Its children are about well-formedness and panics (Safety), the order of the central ring
--     (Order), what a round does to each subscription (Delivery), ids (Ids), and a Close in the midst
--     of a Publish (Race).
--   * ConnPool: rpc/pool.go. NewPool, Get, Put, Close, GetWithTimeout and WithConn, and what becomes
--     of the connections.
--   * Store: the database of storage/bbolt.go. Bolt is what is assumed of the library bbolt (Engine,
--     IsLawful, met by the buckets of Bolt.Memory) and the deletions of storage/truncate.go over it.
--     Keys and DecimalKeys have the keys of the buckets, their decoders and the values decoded by
--     their first byte. Truncate is TruncateToHeight, pass by pass, over a record of the buckets
--     (Db); its children are about the discovery of contracts and the prefix walks (Stages), the
--     height-keyed records (Detail), the recount of the addresses' entries (Survivors, Recount,
--     Rollback), the pointers to the latest snapshots (Pointers), contracts installed above the
--     height and the statistics (Entities), and that it ends without an error (Total). Touch has
--     AddAddrSCID of storage/storage.go and mergeAddrTouch of storage/truncate.go, Owners has
--     AddOwner of storage/storage.go, and Batch the WriteBatch with all its Add methods. Flush is
--     FlushBatch: the rows of its buckets (Flush), the loops over them (Stages) and the whole in its
--     order (Run); its children are about what a flush leaves alone (Frame, Gone), a truncation
--     behind it (Undo), the owners behind it (Added), and the class bucket and its index
--     (ClassIndex, ClassRows, Synced). Direct has the writes of single records and the reads of
--     single keys, against the flush (Single) and each other (Latest).
--   * Publish: indexer/publish.go. The events of a flushed batch go to Bus one by one (publish_all);
--     the install keys that it splits are those of scidHeightKey in storage/storage.go. Announced has
--     what an event may announce; Parts, Classes and Batch are about the events of a batch.
--   * ClassKeys: indexer/classkeys.go. The keys that a refresh asks the daemon for, and the variables
--     that it makes of the answer, which have the type of Codec.Variables. Schedule is about the
--     refreshes that ask for all the variables, Answers about the variables made.
--
-- Conventions. A Go string or byte slice is a list of numbers; a byte is below 256 where a theorem
-- says so. An int is a natural number where the code only gives it values that are not negative, an
-- int64 a ℤ with the bounds IsI64, a uint64 a number with IsU64. A decoder's result keeps the
-- receiver's new value beside the error (Decoded), and a slice out of range is a result of its own
-- (panic). A 64-bit counter is its bit pattern, and adding one wraps.
--
-- The store. A transaction that returns an error changes nothing, so an error of it is `none`. The
-- store's own buckets are always there, since NewBboltStore makes them; a contract's bucket of
-- invocations may be missing, and is taken not to have the name of one of them. No bucket but that of
-- the addresses holds buckets. msgpack, which decodes values of older versions, is a parameter.
--
-- Fuel. put_digits runs on fuel 20, since an int64 has at most 19 digits. uvarint_bytes,
-- uvarint_len_loop and digits run on fuel 10, 10 and 20: a uint64 has at most 10 groups of 7 bits
-- and 20 decimal digits. format_uint36 has fuel 13, since 36^13 is above 2^64. The round trips hold
-- with these numbers. All other loops are structural.
--
-- Concurrency. The bus's methods are atomic steps in any order, with the select of a send, a receive
-- and a close of a channel as the Go language has them; a fan-out round is one step, also over its
-- subscriptions, which do not affect each other. Publish is split in two for the race. A subscription
-- keeps its place in the list of all that were made; its flag registered stands for its entry in the
-- map subs, so what a cancel closure holds is an index of the list.
--
-- Not modelled: the HTTP and websocket interfaces, opening, syncing and compacting the
-- store, the scanner and the commands; logging;
-- WaitForDrain, which polls a clock; memory allocation beyond the sizes that the encoders ask for.
pub mod Base
pub mod Bus
pub mod Chan
pub mod ClassKeys
pub mod Codec
pub mod ConnPool
pub mod Publish
pub mod Reorg
pub mod Store
