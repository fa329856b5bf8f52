-- ===== src/Lib.antt =====
-- comm_network, a library for messages and remote reads between machines over InfiniBand verbs,
-- with a control server over RPC that the machines meet through.
--
-- The parts. A machine reads its configuration (comm_network/comm_network_config_desc.{h,cpp}),
-- starts a control server (comm_network/control) and finds its peers through it: keys are pushed,
-- pulled and cleared, and barriers hold the machines together. Then it keeps one queue pair for each
-- peer (comm_network/ibverbs/ibverbs_qp.cpp), with buffers registered for direct access
-- (ibverbs_memory_desc.cpp). A read of a peer's memory is a `PleaseWrite` message; the peer's write
-- helper (ibverbs_write_helper.cpp) cuts the record into chunks, copies each into a registered
-- buffer and posts the writes; the reader's read helper (ibverbs_read_helper.cpp) copies the chunk
-- to its place and frees the buffer with a `FreeBufferPair` message.
--
-- The files.
--   Prelude      lists, tests, integers, 64-bit words, text-keyed maps, and `Result`, in which a
--                stop of the process (a failed CHECK, an access out of range) is a value
--   Common       Channel is common/channel.h and BlockingCounter common/blocking_counter.h, each
--                method one step under its mutex, up to where a thread sleeps;
--                IndexSequence and Traits are of common/cplusplus_14.h; Globals is common/global.h;
--                Preprocessor is the macros of common/preprocessor{,_internal}.h, as functions on
--                lists of arguments, of which the 512 generated rows are one recursion
--   Config       comm_network_config.proto and comm_network_config_desc.{h,cpp}
--   Message      message.h
--   Control      Server is the handlers of control/ctrl_server.cpp, as steps on the server's state,
--                Server.Cells what they promise of the keys, without maps, and
--                Server.Rpcs the loop of `HandleRpcs` over the tags of the queue and the life of a
--                call object; Client is the connecting and routing of control/ctrl_client.cpp, and
--                Client.Heartbeat its thread; Service is control/ctrl_service.{h,cpp}; Cluster
--                joins the clients and the servers of all machines
--   Ibverbs      Verbs is the data shared with the verbs library and main memory; MsgMr is the
--                message buffer of ibverbs/ibverbs_qp.h; Port is the part of the queue pair that
--                writes go through, and Qp the rest of it, with the message path of
--                ibverbs_qp.cpp; MemDesc, Chunk, WriteHelper and ReadHelper are the files of
--                ibverbs/ named above, Chunk being the lines that the two helpers share; Transfer
--                joins the two machines of a read, by a chunk and by a whole record through one
--                buffer; CommNet is one machine with all its queue pairs: the calls of ibverbs_comm_network.cpp and comm_network.cpp, the receive
--                handlers of ibverbs_qp.cpp and the dispatch of ibverbs_poller.cpp; Connection is
--                how two queue pairs are set up; Queues is `Init` with the completion queues
--                and the slots of `SetUp`, and Teardown the destructors with `TearDown`; Poller is
--                the start and stop of ibverbs/ibverbs_poller.cpp
--   Session      `SetUpCommNet` of comm_network.cpp
-- A function of the model has the name of the C++ function in lower case, and a record that of the
-- class with its fields; each file says which lines it follows.
--
-- What is outside. The verbs library, the network and the RPC library are not part of the
-- repository. The calls of the verbs library are parameters, without or with the hypothesis that
-- they succeed, and so are the layout of structures in memory (`Layout`, with the hypothesis that a
-- structure is read back from its bytes) and `std::to_string` (with the hypothesis that numbers
-- differ in their digits and have no slash); protobuf's parsing is the inverse of its printing,
-- `std::hash` is a parameter, and so is the order in which a set is walked; the calls that end the
-- verbs library's objects succeed when nothing depends on the object, and not while a region is
-- registered; `rdma_write` is a parameter with the documented effect of a write. Locks are taken
-- for whole methods, so a method is a step.
--
-- Callbacks and handlers of the user are numbers, and which of them were called, in order, is kept;
-- what such a call does itself to the library is another step, after it.
--
-- Bounds and fuel. `size_t` wraps at 2 ^ 64 and `int32_t` conversions at 2 ^ 32, as written in
-- Prelude.Words, and so does the sum kNumType + msg_type; where a loop counter of type `int` would
-- wrap and the loop go on for ever, in `SetUp`, the model stops for want of fuel. The loop of the
-- write helper is given three rounds for each idle buffer and four more; the loop over a buffer's blocks in MemDesc one round for each byte; that of `LoadServer`
-- the 60 attempts of the source; a whole read, in Transfer.Whole, as many rounds as it takes buffers
-- to hold it.
--
-- Not modelled: `Finalize`, which stops one poller after the other; binding the port of the control
-- server and what its handlers do after the shutdown, which are calls of the RPC library; the macros
-- that forbid copies and the type traits; and the text macros of the preprocessor library.
pub mod Prelude
pub mod Common
pub mod Config
pub mod Message
pub mod Control
pub mod Ibverbs
pub mod Session
