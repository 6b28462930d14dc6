-- ===== src/Lib.antt =====
-- mediaroom: capture of packets, their layers and flow keys, and the shared buffers by which
-- packets reach other processes.
--
-- The parts, and how they interact. A capture driver (src/drivers) hands out packets. The
-- extractors (lib/libstack) walk over the headers of a packet and push the address of each into
-- its PacketDetails (src/core/PacketDetails.h), which yields a flow hash, the side of the packet
-- in its flow, and a buffer of addresses to compare flows by. SharedServer
-- (lib/libshared/SharedServer.cpp) listens for clients that ask for channels and bind flow hashes
-- to them. A channel is a SharedCircularBuffer (lib/libshared/SharedCycleBuffer.h), which is a
-- CycleBuffer (lib/libshared/CycleBuffer.h) in a named segment of shared memory. AllocatorList
-- (lib/libshared/AllocatorList.h) serves containers in such a segment.
--
-- The files.
-- - Prelude passes library names on and has the Boolean tests and list functions on native
--   numbers. Bytes is a memory of bytes with memcpy and the loads and stores of C.
-- - Cycle models CycleBuffer: `set`, `clear`, `used` (length), `write1` and `read1` on a record of
--   the descriptor and the region. Below it, Path is the geometry of messages on plain numbers,
--   Write, Holds and Read what a write and a read do to the messages, and Fifo the buffer as a
--   queue: `run` performs a sequence of calls, and `Replies` says what a queue answers.
-- - SharedCycle models SharedCircularBuffer: `open_buffer`, `push`, `pop` and `move_from`, with
--   exceptions as values of `Outcome`.
-- - FreeList models AllocatorList: `init`, `get`, `put`, and `overwrite` for what the owner of an
--   entry writes over its link. Chain and Allocation state the free list, and History the
--   sequences of calls of one caller.
-- - Layers models the types and the AddrOffset of PacketDetails; Layers.Push the push functions,
--   Layers.Address calcSide, isSrcLowerAddr, fillAddresses and cmpAddresses. Address.Key states
--   the flow key as a list of bytes, Match and Buffer relate it to the two loops, and Symmetry is
--   about the two directions of a flow.
-- - Layers.Lookup models getIpAddr, getPort, getRl, getCic and getPc, and Layers.Print printSrcAddr,
--   printDstAddr and printSlsCic: Steps and Room are about the room in the buffer, Numbers and
--   Reading about the printed text.
-- - Server models the state of SharedServer and its handlers, Server.Commands processCommands,
--   with children for who may ask (Access), what a hash is bound to (Bindings) and the ids (Ids).
--   Server.Loop models the body of the select loop, acceptConnections, send and
--   SharedSocket::read, with children for the assembly of commands (Frames), the watched sockets
--   (Watched, and Served and Bytes while a client is served), the buffers that packets are sent to
--   (Sends), and sequences of rounds of the loop (History). Server.Start models create, start and
--   stop: what is open after create (Opening), one pass over the ready descriptors (Passes), and
--   the listening socket over all turns of the loop (Rounds).
-- - FlowAccum models SharedFlowAccum (lib/libshared/SharedFlowAccum.cpp) over its multimap as a
--   list, with the mutex as a bit of the state: the reader's calls, and put for a new flow.
--   Reader is about single calls, Calls about any sequence of them on the map that is created.
-- - FlowKey models the keys of SharedFlowAccum (lib/libshared/SharedFlowAccum.h), Block the blocks
--   of lib/libstack/Block.h with BlockL4Wrapper, and Time lib/TimeHandler.h.
-- - Config models the lines of src/common/ConfigParser.h, and Args the command line in
--   src/core/System.h: Text and Turns are about the searches in one turn of its loop, Params and
--   Written about parameters that were written one after the other, Endless about an open quote.
-- - Packet models src/core/Packet.h on an explicit heap: chains of packets, their sizes (Chain), and
--   the count of references (Release). Packet.Owners models the variables of type Pkt and PktOffset
--   that own packets: Counts is about their number, Uses about what is done with them.
-- - PacketAccum models lib/libstack/PacketAccum.h: the chain of blocks (Blocks), and what is added to
--   it (Put).
-- - View models the places in a packet of lib/libstack/PacketPtr.h and HeaderIf.h, and how a layer
--   becomes a pointer again (Moves), with the payload of lib/libstack/Tcp.h.
-- - Extract models the extractors that look at one header: ExtractorEth.h and ExtractorIp4.h of
--   lib/libstack, ExtractorMtp.h and ExtractorSctp.h of lib/libstack/ss7. Labels and Tags are
--   about the walk over VLAN tags and MPLS labels, Ends about what IPv4 headers and SCTP chunks
--   hand out, and where that ends.
-- - Sccp and M3ua model lib/libstack/ss7/ExtractorSccp.h and ExtractorM3ua.h, which walk over lists
--   of parameters; Lapd models lib/libstack/ss7/Lapd.h.
-- - LogRotate models src/core/LogRotate.h, with its open files (Files) and the sequences of calls
--   (Calls).
-- - Client models lib/libshared/SharedClient.cpp and SharedSocket::write: what is sent (Writes),
--   what the server makes of it (Requests), and how it gets there (Stream).
-- - Pcap models DriverOffline of src/drivers/Driver.h and DriverPcap, Replay what is handed out of a
--   capture file, and when, and Bulk that no more is handed out than was asked for. Capture models
--   src/drivers/Capture.h over an interface of drivers, which Capture.Pcap fills; Capture.Bulk is
--   about the packets of all drivers.
-- - Distributor models app/SharedFlowDistributor.cpp and app/SharedFlowHandler.cpp: which handler
--   knows a flow (Known), and how many flows each has (Balance).
--
-- Conventions. size_t arithmetic is written out modulo 2 ^ 64, uint16_t and uint8_t casts modulo
-- their sizes. A result of `none` is a failed assertion or an access outside of the memory that
-- the code owns. All loops are structural, on the number of layers or entries left or on the
-- results of system calls that are given, but for the search of SharedFlowAccum::get, which runs
-- on fuel and reads the clock in each round: in the map that the program has, which is empty, it
-- takes no step. The recursions over
-- a chain of packets run on fuel as well, one call for each packet, and the walks over the
-- parameters of SCCP and M3UA, one round for each parameter and one more. The loop over the
-- parameters of an argument runs on one turn for each of them, the pass over the descriptors on the
-- 1024 that a set can hold, and the digits of a number on ten, enough for 32 bits.
--
-- Not modelled: boost::interprocess, sockets, threads and libpcap, which are parameters where the
-- code relies on them; the text that log and debug functions make; the rest of
-- SharedFlowAccum::put, which the code does not reach because the first packet of a flow blocks.
-- Concurrent access to a CycleBuffer is modelled as a sequence of whole calls.
pub mod Args
pub mod Capture
pub mod Distributor
pub mod Prelude
pub mod Bytes
pub mod Cycle
pub mod SharedCycle
pub mod FreeList
pub mod Layers
pub mod Server
pub mod FlowKey
pub mod Block
pub mod Time
pub mod FlowAccum
pub mod Config
pub mod Packet
pub mod PacketAccum
pub mod Pcap
pub mod View
pub mod Extract
pub mod Sccp
pub mod M3ua
pub mod LogRotate
pub mod Lapd
pub mod Client
