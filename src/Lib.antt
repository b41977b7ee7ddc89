-- ===== src/Lib.antt =====
-- UaRateThrottling lets OPC UA clients call a server through ZooKeeper: a client writes each service
-- request as a task into the queue of a server, and the server takes tasks from its queue only while
-- it is healthy.
--
-- The parts of the program and their files here:
--   Common      the C library as far as the program calls it: character classes, strings that end at
--               a NUL, snprintf into a buffer, strstr, strtol and strtoul, %lu and %0nX
--   Url         src/zk_urlEncode.c: from_hex, to_hex, zkUA_url_encode, zkUA_url_decode
--   Guid        the GUID of a redundancy group: its parser inside zkUA_readConfFile (src/zk_cli.c) and
--               UA_PRINTF_GUID_FORMAT (include/open62541.h)
--   Config      zkUA_startsWith, zkUA_readConfFile, zkUA_cleanStdoutFromCommand and
--               getStdoutFromCommand (src/zk_cli.c), zkUA_Config (include/zk_cli.h)
--   Znode       the two path buffers and the path functions of src/zk_cli.c, and the paths that
--               init_ZUTH_Server (examples/zuthServer.c) builds; they use Url and Guid
--   Task        zuth_extractTaskId and taskIdCmp (examples/zuthServer.c), and qsort with them
--   Zoo         the codes of the ZooKeeper client that the program tells apart, and
--               zkUA_error2String, zkUA_state2String and zkUA_type2String (src/zk_cli.c)
--   Queue       zuth_executeRequest and zuth_processTasks (examples/zuthServer.c); they use Task for
--               the order and Znode for the size of a path
--   Setup       zkUA_initializeZkServerQueuePath (src/zk_cli.c), and init_ZUTH_Server
--               (examples/zuthServer.c) up to the start of the OPC UA server; they use Znode
--   Chunk       ZUTH_SecureChannel_sendChunk (src/open62541.c), which writes a task for Queue
--   Message     ZUTH_SecureChannel_sendBinaryMessage (src/open62541.c), which sends Chunks; its child
--               Delivered joins it with the Queue that the server works off
--   Service     __ZUTH_Client_Service, ZUTH_receiveUAClientServiceResponse and the accessors of
--               UA_Client (src/open62541.c); they send a Message and wait for the reply
--   Client      examples/zuthClient.c, include/zuthClientSend.h; they use Config, Znode and Service
--   Dispatch    UA_Server_processSecureChannelMessage, ZUTH_processMSG and ZUTH_getSecureChannel
--               (src/open62541.c), which take the message in a task to its handler
--   Memory      free_zkUAConfigs (src/zk_cli.c), and what the two programs allocate and free
--   Server      main and init_ZUTH_Server (examples/zuthServer.c) around Setup, and the task table and
--               the global server of src/zk_cli.c
--   Hash        zkUA_hash and zkUA_equalKeys (src/zk_cli.c)
--   Watch       zkUA_watcher (src/zk_cli.c) and zkUA_queueWatcher (examples/zuthServer.c), which asks
--               for the listing that Queue works off
--   Completion  the completion callbacks of src/zk_cli.c
--   System      the clients and the server together: any sequence of chunks that clients send, and of
--               the single tasks that the server's callback runs; it joins Chunk, Message and Queue,
--               and what is documented of a queue with several writers is System.Libraries; its
--               child Waking joins the watch of the server (Watch) with its callback
--   Printer     src/simple_parse.c, which prints a JSON value as lines of text
--   Nodeset     src/nodeset.c, which builds an example address space; the OPC UA server that it
--               fills is Nodeset.Libraries.AddressSpace, and nothing is proved of it
--   Dump        zkUA_dumpStat (src/zk_cli.c)
--   Tests       the theorems at concrete inputs
--
-- How state and values are modelled:
--   A C string is the list of its bytes before the NUL. A static buffer or counter is a field of a
--   record that the functions take and return. A `long` or an `int` is its pattern in 64 or 32 bits,
--   with the wrap-around written out. Undefined behaviour (a null pointer read, a buffer overrun, an
--   increment of the greatest `int`) is `none` or a constructor of its own, never a value.
--   The ZooKeeper client, jansson, glib's base64 and the OPC UA stack are the fields of the record
--   Queue.Libraries.Host; what is documented of them and relied on is Queue.Documented. qsort is the
--   record Task.Order.Qsort. The ZooKeeper client of the setup is Setup.Libraries.ZooClient, with
--   Setup.Documented; its asynchronous creates take effect in the order of their requests. What the
--   client relies on is Chunk.Libraries.Stack, with Chunk.Documented, and what a service call and the
--   program rely on is Service.Libraries.Network and Client.Libraries.Platform. The encoder of the
--   stack is the list of the buffers that it fills, Message.Encoding. The threads of the client are
--   steps on their shared counter in Client.Threads; in Client itself the one thread that the program
--   makes runs while main waits.
--
-- Fuel and bounds:
--   The loop of zkUA_readConfFile has one round of fuel more than the file has bytes, which is enough
--   as each round but the last reads a byte. The wait for a healthy server has no bound in
--   the code; its fuel counts the readings taken. The loop that waits for a reply has fuel for its
--   rounds; more rounds than the timeout has units of 100 ns are enough, as each round that goes on
--   takes some time. Paths are modelled with their buffers of 65535 and
--   1024 bytes, as snprintf cuts off at them.
--
-- Not modelled: what is logged, and memory that is freed or leaked outside the two programs' main
-- threads; the copy of the open62541 library in src/open62541.c but for the functions that this
-- project adds to it or makes public; src/hashtable, a copy of another library.
pub mod Common
pub mod Url
pub mod Guid
pub mod Config
pub mod Znode
pub mod Task
pub mod Zoo
pub mod Queue
pub mod Setup
pub mod Chunk
pub mod Message
pub mod Service
pub mod Dispatch
pub mod System
pub mod Printer
pub mod Dump
pub mod Nodeset
pub mod Memory
pub mod Server
pub mod Client
pub mod Hash
pub mod Watch
pub mod Completion
mod Tests
