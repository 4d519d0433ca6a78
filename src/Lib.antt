-- ===== src/Lib.antt =====
-- A chat server in C++: src/VCommon (memory, buffers, checksums), src/VNetWork (connections and their users),
-- src/VChatLib (rooms, user registry, packet handlers, configuration, start-up) and src/VChatApp (the main program).
--
-- How the parts interact: a `session` (src/VNetWork/VAsyncServer.hpp) reads packets from its socket and hands
-- each to the packet processor, which checks it with its `VUser` (src/VNetWork/VUser.cpp); answers go out as
-- `VSimpleBuffer`s through the write queue of the session. A packet in the range of the game goes to a handler,
-- which acts on the users (`VUserManager`), the rooms (`VChatRoomManager`) and the room of the player. Memory
-- for all of them comes from the `AllocateManager`, which keeps free blocks in `SafeRingBuffer`s; closed sessions are
-- offered to one as well. `ChatStart` reads the configuration, starts the parts in turn, `VNetWorkManager` with the
-- server last, and stops them when the console or a signal says so.
--
-- Which file models what:
-- - Common: names and lemmas that all share; Common/Bits has the laws of exclusive or.
-- - Crc: src/VCommon/crc32.h, both overloads of `GetCRC` (`get_crc`, `get_crc_default`) with their loops.
-- - RingBuffer: `SafeRingBuffer` of src/VCommon/VAllocatorHandler.h, a call at a time (Sealed) and with `push` and
--   `pop` of many threads interleaved, an access at a time (Threads).
-- - Allocate: `AllocateManager` of the same file: `FindSlot` is `find_slot`, `Allocate` is `allocate`, and so on.
-- - Objects: `ObjectAllocator` of src/VCommon/VObjectAllocator.h over it, with histories of `Create` and `Destroy` (Housed)
--   and the intrusive pointers (Counted); ContainerAlloc: `ContainerAlloc` of src/VCommon/VAllocatorHandler.h.
-- - Locks: `VWriteLock` and `VReadLock` of src/VCommon/VCommonDefines.h.
-- - CircularStack: `VCircularStack` of src/VCommon/VCommonDefines.h; `VSafeCircularStack` makes the same calls under a lock.
-- - SimpleBuffer: `VSimpleBuffer` of the same file: what its block holds, and in Lifetime where the block comes from and goes.
-- - User: src/VNetWork/VUser.cpp; SecretKey has the loops of `InitSecretKey`.
-- - Session: the reading half of `session` in src/VNetWork/VAsyncServer.hpp, a handler to a function; Wire is `struct
--   header` on the wire, Queue the writing half, Fifo any interleaving of its posts and completions, Drain what follows
--   where no write fails, and Address `get_address` and `GetSessionAddress`.
-- - HandlerAllocator, SessionManager: `handler_allocator`, and `session_manager` with the accept loop of
--   `async_server`, in src/VNetWork/VAsyncServer.hpp.
-- - Links: `reset`, `close_socket` and `set_user` of `session` and the user on the other side, which its virtual
--   `CloseSession` closes (src/VChatLib/VChatUser.cpp), with histories of logins and
--   ends of sessions.
-- - NetWork: `VNetWorkManager` (src/VNetWork/VNetWorkManager.cpp) and `stop` of `async_server`.
-- - ChatUser: `VChatUser` (src/VChatLib/VChatUser.cpp), and the methods that are called on it without being in the
--   repository, as the record `Methods`.
-- - UserManager: `VUserManager` (src/VChatLib/VUserManager.cpp): `CreateUser` is `create_user`, and so on; Race has
--   `CreateUser` and `RemoveUser` of many threads, a lock at a time.
-- - Room: `VChatRoom` (src/VChatLib/VChatRoom.h, VChatRoom.cpp).
-- - RoomManager: `VChatRoomManager` (src/VChatLib/VChatRoomManager.h) over the rooms.
-- - NetworkProcess: `VNetworkProcessPacketManager` (src/VChatLib/VNetworkProcessPacketManager.cpp), from the session to
--   the processors; Parts has the packets that come in two parts.
-- - Pipeline: the way of a packet from the stream of a session to the handlers; Answers has the way of what `SendPacket`
--   is called with to the peer of the session, which runs `session` too, and Broadcast that of a chat message to the
--   sessions of its room.
-- - ChatProcess: handlers of `VChatProcessPacketManager` (src/VChatLib/VChatProcessPacketManager.cpp); Timer and Queue
--   follow the match-making notices that they and the room send, Table is the table of handlers, Friends the answers about
--   friends and billing, ChatLog the log of chat messages.
-- - Locking: what the methods of rooms, of users and of both managers lock and touch, in order (Rooms, Users), and threads
--   that call them (Operations). What the methods of `VChatUser` that are not in the repository do is the record `Methods`,
--   about which nothing is assumed: the theorems are about threads whose calls do not come to them (`IsOwn`). Where they
--   do, Discipline and Managed have what would follow if those methods kept to the order of the mutexes.
-- - Config: `VConfigureManager` (src/VChatLib/VConfigureManager.cpp): its constructor is `new_config`, `Start` is `start`.
-- - System: `VSystemManager` and `ChatStart` (src/VChatLib/VSystemManager.cpp); Lifecycle has the order of the parts, Console
--   the lines that are typed.
-- - Examples: the theorems at concrete inputs, and tests.
--
-- Bounds and fuel. Words are native numbers with the wrap written out (`% 2 ^ 32` for the sequence number, `% 2 ^
-- 64` for a `size_t`). `find_slot_from` has fuel 32: the shift `1 << slot` of the source is undefined from 32 on,
-- and Allocate/Slots shows when the loop ends before. `while_eights` and `while_ones` recur on the length. The
-- reads that a stream can serve (`pump`, in Session/Framing) take fuel, two for each packet.
--
-- The environment. Boost.Asio completes each asynchronous read with exactly the bytes asked for or with an
-- error, each write once. `malloc` never fails. A weak pointer to a user or session is a number with a test
-- whether it still exists. `VSafeMap` (a `std::map`) and the hash map of rooms are maps whose order of iteration is a
-- parameter. The clock does not run back.
-- A `shared_mutex` is had on its shared side if no thread has it exclusively, and on its exclusive side if none has it; in
-- Locking a thread that waits for the exclusive side may keep readers out or not.
--
-- Not modelled: sockets, threads and the io_service themselves, the parser of boost::program_options, logging, the
-- database, guild, lobby and web services, whose code is not in the repository (what is asked of them is an action);
-- the second `handler_allocator` of src/VCommon/VAllocatorHandler.h, which nothing uses; the packets of src/VChatLib/VChatPacket.h, of which only
-- the header is used, the one of Session/Wire.
pub mod Allocate
pub mod ChatProcess
pub mod ChatUser
pub mod CircularStack
pub mod Common
pub mod Config
pub mod ContainerAlloc
pub mod Crc
pub mod Examples
pub mod HandlerAllocator
pub mod Links
pub mod Locking
pub mod Locks
pub mod NetWork
pub mod NetworkProcess
pub mod Objects
pub mod Pipeline
pub mod RingBuffer
pub mod Room
pub mod RoomManager
pub mod Session
pub mod SessionManager
pub mod SimpleBuffer
pub mod System
pub mod User
pub mod UserManager
