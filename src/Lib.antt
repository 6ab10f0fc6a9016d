-- ===== src/Lib.antt =====
-- DolphinCore: the base library of a game service. This development models its own core logic.
--
-- Parts and files:
-- - Mem.LoopBuf (src/mem/loopBuf.cpp, publish/include/mem/loopBuf.h): LoopBuf, the growing byte
--   buffer between a socket and the packet parser. The record holds the counters of the class and
--   its array; the pointers are offsets from `m_ptrBegin`. One function for each method; one that
--   changes the object returns it. Mem.LoopBuf.Fifo is the queue that it promises.
-- - Mem.LoopList (publish/include/mem/loopBuf.h): CLoopList, the ring through which
--   src/sql/connPool.cpp passes its statements. Its counters wrap at 2 ^ 32.
-- - Mem.MallocState (src/mem/frameallocator.cpp): a region of memory that is handed out from its
--   beginning to its end.
-- - Net.TcpLink (src/net/tcp/tcp_link.cpp): OnRead with GetOnePacketSize and PacketSizeCheck cuts
--   the stream of a socket into packets (`on_data`), behind the gateway check of Preprocess
--   (`on_read`, in Net.TcpLink.Gateway). Net.TcpLink.Cut says without buffers what a cut is.
--   Net.TcpLink.Send adds what waits to be sent.
-- - Net.TcpClient, Net.TcpServer, Net.TcpManager (src/net/tcp/tcp_client.cpp, tcp_server.cpp,
--   tcp_manager.cpp): the status machine of a client, the links of a server and their keys, and
--   the registry of both, one function for each method, those that
--   other threads call in Net.TcpManager.Calls; Net.Shared has the keys and messages of
--   publish/include/define/common.h and the queues between the threads. A failed assert and a call
--   through NULL are `none`; what libuv answers to a request is an argument, and what it is given
--   is kept: the buffers of a link in `handed`, the closed handles in `closed`.
-- - Net.Libuv (src/net/tcp/uv_ex.cpp): the callbacks and events of the libuv thread. Net.Libuv.Reach
--   makes a transition system of them and the calls of other threads; Net.Isolation, Net.Stops and
--   Net.Writes are about its steps.
-- - Encrypt.Crc32 (src/encrypt/crc/crc32.cpp): the CRC by a table, and the division that it stands
--   for.
-- - Encrypt.Base64 (src/encrypt/base64/base64.cpp): the codec in base 64 under a map of digits.
-- - Serialize.Packet (publish/include/serialize/packet.h) and Serialize.MsgPack
--   (src/serialize/msgpack.cpp): the header of a packet as bytes of an array; packetbuf and
--   getmsg2buf, which write and read one; packet_getcmd, which reads one off a LoopBuf. The cipher
--   and zlib are parameters; what is asked of them is IsCipher in Serialize.MsgPack.Frame and
--   IsZlib in Serialize.MsgPack.Body.
-- - Service (src/service): Service.MsgTrans (msg_transform.cpp) puts messages into packets and takes
--   them out into blocks of a heap; Service.LogicObj (logic_obj.cpp) is an object that sends through
--   a cache, and the map of such objects; Service.Fetch (service.cpp) turns the messages of the
--   network into events and connects again; Service.LogicBase (logic_base.cpp) handles the events.
--   The allocator and the virtual functions of a program are parameters; the rules that are asked
--   of the latter are IsCalm in Service.LogicBase.Frees. A pointer that is NULL or dangles where it
--   is read is `none`.
-- - Sql.ConnPool (src/sql/connPool.cpp): the active and the sleeping connections of a pool and one
--   round of the thread that checks and schedules them. The answers of the server are a
--   parameter; waiting and waking of threads has no counterpart.
-- - Sql.Caches (src/sql/connPool.cpp, sqlHelper.cpp): the way of a statement through two caches and
--   the list of a connection to the server, and the results.
-- - Utils.Filter (src/utils/filter/fileter.cpp): the filter of forbidden words. The lines of a word
--   file are an argument.
-- - Base: the names that the parts share, tests on numbers, lists as arrays, C strings.
--
-- Conventions: a byte is a number; arrays are lists. `int` and `size_t` quantities that the code
-- keeps in range are plain numbers; the counters of CLoopList, the size field of a packet, the sizes
-- of base 64, the test of putData and the sizes of a mallocState have their wrap-around written out,
-- that of an `int` as two's complement (`int32` of Base.Int). Memory that the code does not
-- initialise is a parameter.
--
-- Fuel: `merge` runs at most as many rounds as the other list has elements; the loop of OnRead
-- takes at least 8 bytes a round and is given one round more than there are bytes; the searches
-- for an id and for a link's number are given one round more than there are objects or links; a
-- connection executes as many statements in a round as its list has.
--
-- Not modelled: logging, locks, so that a call or callback of the network is one step, libuv and the
-- other libraries, which the modelled code calls only for their effects; what is left of each part is
-- listed in PROJECT.json.
pub mod Base
pub mod Mem
pub mod Net
pub mod Serialize
pub mod Sql
pub mod Encrypt
pub mod Service
pub mod Utils
