-- ===== src/Lib.antt =====
-- The message board of async-rpc-fbthrift: three thrift services, their client, and the log of
-- timestamps that each of them keeps.
--
-- The parts, and where they are modelled (paths from the repository's root):
-- - Stats: src/shared/ServerStats.h and ServerStats.cpp. Stats/Manager has the class
--   ServerStatsManager with its buffers (a record; new_manager, add_entry, dump_server_stats,
--   destroy), Stats/Csv the text that dump_matrix writes, Stats/Stream the version of the class
--   that writes through a stream, Stats/Stress the stress test, and Stats/Race the part of
--   add_entry before its lock as steps of several threads. Stats/Reader reads such a text back.
--   Stats/Shape, Invariant, Dump, Digits and Retention hold the proofs.
-- - Uid: src/shared/Utils.cpp. Uid/Make has generate_local_uid and get_query_uid, Uid/Host has
--   exec and the scan of the host's address, Uid/Exec, Scan, Bits and Laws hold the proofs.
-- - Rpc: what becomes of a remote call, and the per-thread clients of the SYNC build.
-- - Database: src/MockDatabase/MockDatabase.h and MockDatabase.cpp. Database/Handler has the two
--   handlers as functions, Database/Threads has them as steps of several threads on one map, a
--   step being one access; Database/Alone and Runs relate the two, Database/Explained, Linearizable and
--   DataRace hold the proofs about the steps.
-- - Sanitize: src/SanitizationService/SanitizationService.h and .cpp, with the regular
--   expression.
-- - Message: src/MessageService/MessageService.h and .cpp, over the two services behind it.
--   Message/Laws and History have what the callers see, Message/Visits, DatabaseEntries, Entries
--   and Logs what a call leaves in the three logs. Message/Connections has the maps of clients of
--   the SYNC build as steps of several threads, Message/Connected and Collisions hold the proofs
--   about them.
-- - Client: src/Client/Client.cpp. Client/Main has the loop over the calls in its two builds, the
--   asynchronous one as a sequence of events, the callbacks and the summary; Client/Mock has the
--   earlier client src/MockDatabase/old/MockDatabaseClient.cpp.
-- - System: the client of src/Client/Client.cpp with its calls served by the handlers of Message.
--   System/Converse has the rounds of the synchronous build, System/Process its main from the
--   arguments to the statistics file; System/Talk, Rounds, Journal, Courses, Laws, File and Lost
--   hold the proofs. System/Flight has the asynchronous build as moves of the client, the message
--   service and the replies on their way, System/Flight/Process its main; System/Flight/Counts,
--   Steps, Serve, Tracks, Order, Smooth, Laws, Losses, Answers, Safe, Safety, Landing,
--   Overtaking, Course, Journal and File hold the proofs.
-- - Perf: the load benchmark src/dep/perf/cpp2. Perf/Counters has util/Counter.h and QPSStats.h
--   (on the record Platform of what they use of folly and of double), Perf/Classes and Perf/Sums
--   util/SimpleOps.h and StreamOps.h, Perf/Load util/Operation.h and Runner.h, Perf/Clients the
--   client threads on their shared statistics, Perf/Fill the loops that fill the chunks,
--   Perf/Server server/BenchmarkHandler.h, Perf/Mains the two main programs and util/Util.h and
--   Util.cpp.
-- - ChatRoom: src/old/example/server/ChatRoomService.h and ChatRoomService.cpp. ChatRoom/Client
--   has src/old/example/client/ChatRoomClient.cpp and src/old/example/test/ChatRoomTest.cpp.
-- - Servers: the options of the three server programs, and small handlers of src/old and
--   src/MockDatabase/old.
-- - Tutorial: src/old/working_example, its client against its handler. Echo: the client of
--   src/old/example/client/EchoClient.cpp and its test against the echo.
--
-- How the code is read: a std::string is the list of its bytes (Text). A uint32_t or uint64_t is
-- a natural number, with its wrap-around written out; an int64_t is an integer, and the
-- conversions are functions (Common/Words). An access out of bounds or a division by zero is none
-- of Option; an exception that leaves a handler is the reply failed. A handler is a function from
-- its state to its reply and the new state. Clock readings, random numbers, host addresses,
-- thread ids and what the transport does with a call (delivered, request_lost or reply_lost) are
-- arguments. An unordered_map is an association list. The files of a machine are a function from
-- names to contents. Loops recur on the rounds left, or on fuel: the digits of n are printed with
-- fuel n + 1, which is enough since each round divides by ten; exec has one round more than the
-- output has bytes, each but the last of which reads one; the chat room's loop has one round more
-- than there are messages; the benchmark's runner needs as many rounds as it may have outstanding
-- calls, and its loop of statistics at most as many as its limit has seconds.
--
-- Handlers are functions, one call at a time; the handlers of the database, add_entry and the
-- maps of clients are also modelled under threads. In Database/Threads and Message/Connections an
-- access that another thread's access overlaps is completed by no step when one of the two
-- stores, since the code has no lock and the result is undefined; add_entry is one step there.
-- The events of the asynchronous client are one step each; in System/Flight so is a call of the
-- message service with the calls behind it. A course of moves is a list, the newest first; its
-- clock readings are those of the client, and the two in a Plan belong to the synchronous build.
-- Not modelled: sockets, event loops, signal handlers, thread pools, logging, the sleeps that
-- stand for work, and the arithmetic of float, which the client's delays take as an argument.
pub mod Common
pub mod Stats
pub mod Uid
pub mod Rpc
pub mod Database
pub mod Sanitize
pub mod Message
pub mod System
pub mod Perf
pub mod Client
pub mod ChatRoom
pub mod Servers
pub mod Tutorial
pub mod Echo
