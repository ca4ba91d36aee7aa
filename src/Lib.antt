-- ===== src/Lib.antt =====
-- YIM: a verification of the core of the instant messenger's services.
--
-- The program is a set of Go services. A client's message comes in through the gateway (internal/comet)
-- and is stored by the message service (internal/message), which takes its numbers from the seq service
-- (internal/seq, cmd/yim-seq) and tells resends by idempotency marks and a filter (internal/cache). What
-- is stored is pushed to the members of the conversation, again until they confirm it, and else kept in
-- an offline box. The relation service (internal/relation) decides who are friends; the scheduler
-- (internal/sched) runs tasks of repair; internal/hashring spreads keys over nodes, and internal/timewheel
-- calls the retries of a push.
--
-- The files and the code that they model:
--   Base: shared names, Boolean tests, lists and association lists (a table with its primary key).
--   Relation, Relation/Friend: internal/relation/friend.go and isFriend of service.go. A store is the two
--     tables and the events; SendFriendRequest is send_friend_request, and so on. Each statement may fail.
--   Relation/Group: internal/relation/group.go, with mutateConvMembers of service.go and memberUIDsOf of
--     events.go. A call settles the store: on an error it is the store of before. Calls come one after
--     the other; the SELECT of mutateConvMembers takes no lock, and calls that overlap are left out.
--   Timewheel: internal/timewheel/wheel.go. The levels are a list from the root up; advance and After take
--     the time at which they are called, and each is one step.
--   Seq: internal/seq/allocator.go, Segment and Allocator, over the table seq_segment. Seq/Race has the
--     callers of Next one step at a time, Seq/Pool the Pool and cmd/yim-seq/handler.go.
--   HashRing: internal/hashring/hashring.go, with FNV-1a on 64 bits and sort.Search written out; how
--     sort.Slice leaves equal hashes is the argument order.
--   Message/Ids: msgIDAlloc and convSeqAlloc of internal/message/service.go.
--   Message/Send: SendMessage of the same file, with IdemPut, IdemGet and IdemDel of internal/cache/cache.go.
--   Message/LastSeq: lastSeqBatcher of the same file, with a log of InvalidateConv.
--   Message/Delivery: Deliverer and pendingAcks of internal/message/delivery.go. A goroutine or a timer is a
--     task; Covered has steps of tasks, pushes and ACKs in any order.
--   Message/Marks: markBatcher of the same file, over Store/Sharding.
--   Message/Conversations: CreateConv of internal/message/conversations.go, with GetConvMeta and SetConvMeta
--     of internal/cache/cache.go, over the tables of Relation/Group.
--   Message/ReadState: MarkRead and getReadSeq of the same file, and internal/message/readstate.go.
--   Message/SyncSeq: RedisSyncSeqClient of internal/message/seq_client.go, with the script of
--     internal/cache/cache.go.
--   Message/Sync: Sync and pullIncrement of internal/message/sync.go.
--   Message/Routes: internal/message/route_cache.go, with PushRouted of internal/message/comet_cluster.go.
--   Cache/Bloom: internal/cache/bloom.go.
--   Comet/Protocol: internal/comet/protocol.go; the generated protobuf code is the record Proto.
--   Comet/Bucket: Keeper of internal/comet/bucket.go, a list of 16 maps.
--   Store/Sharding: internal/store/sharding.go, with an int64 as pos n or negsuc n.
--   Sched: internal/sched/sched.go without the election.
--
-- Numbers and bounds. Ids, seqs and counters are natural numbers: a history in which an int64 overflows is
-- left out. Hashes and positions of bits wrap at 2 ^ 64 as they do in the source. Loops are structural
-- but for these, which run on fuel: the search of the ring has one round more than there are virtual
-- nodes, and halves its interval in each; loadSegment has the three attempts of the source; Next has two
-- rounds, since a freshly loaded segment has room for what Next accepts; drain of the delivery runs tasks,
-- whose total weight each step lowers. The insertion of the timing wheel has as many rounds as the expiry
-- and the number of levels together, plus two, since the span of a level is at least twice its tick; its
-- advance has one round for each level, plus one.
--
-- Not modelled: the databases, Redis and Kafka (a table or a map stands for each, and what may fail is an
-- argument), the lifetime of Redis keys, the text of errors, logging, the election in etcd, network I/O,
-- the Dart client, the services that only wrap queries, and of internal/message the revocation, the
-- history, the search and the tasks of compensation, which are queries and scans of tables.
mod Base
pub mod Relation
pub mod Seq
pub mod HashRing
pub mod Message
pub mod Cache
pub mod Comet
pub mod Sched
pub mod Store
pub mod Timewheel
