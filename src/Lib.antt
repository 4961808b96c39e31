-- ===== src/Lib.antt =====
-- libhdcp is a library for a protocol between a host (the master) and a device (the slave), which
-- exchange packets over a transport (TCP or USB).
--
-- Packet (src/packet.h, src/packet.cpp): the wire format. A packet is a header with two
-- checksums and a payload of blocks. Crc is `compute_crc`; Format the constants, the header and
-- the blocks; Parse the checks, the constructor from a view (`from_view`) and the accessors;
-- Make the functions `make_command` to `make_dip`. A read outside of a view, and a write outside
-- of the array of a packet, are the exception `out_of_bounds`. Layout, Written, Blocks,
-- RoundTrip, Constructors, CrcLaws, Checks and View hold the proofs. Bytes are natural numbers;
-- the fields of a header are cut to their widths where the code converts. `data_` is the part of
-- the array that was written. `blocks_of` runs its loop on as much fuel as there are bytes, and
-- each round takes at least one byte, so the fuel does not run out.
--
-- Base: Errors are the exceptions (src/exception.h and the three enumerations); State is the monad
-- of the methods: a method returns or throws, and leaves a new state either way. Messages are the
-- values, categories and messages of the error codes (src/packet_error.cpp,
-- src/application_error.cpp, src/transport_error.cpp). Identity and Timing hold what
-- src/application.h declares and the loop that both sides run on an identification packet.
--
-- Interfaces: what the code uses and does not implement. The thread, the timeout queue and the set
-- of events are classes of the submodule libcommon, which is not in the repository: they are
-- records of operations with the behaviour that the callers rely on. The transport
-- (src/transport.h) is the abstract class; `Takes` is one that takes every packet while it is open.
-- Examples/Instances implements all of them.
--
-- Slave: Manager is slave::RequestManager (src/slave_request.cpp), Machine the handlers, the
-- checks and the table of the class Slave (src/slave.cpp), Engine the calls that the engine
-- common::Statemachine makes, the timeouts and the methods of the application. Groups, Sending,
-- Handlers, Session, Life, Packets, Commands, Rejoin, Rounds, Arming, Watchdog and Stale hold
-- the proofs. Life has the life of a slave as a relation of steps, in which the threads take
-- turns in any order, and the application may stop it and start it again; `rounds` lets the
-- manager's thread run alone.
--
-- Master: Requests is the class Request and the container of pending requests, Manager is
-- master::RequestManager (src/master_request.cpp), Machine the handlers and the table of the
-- class Master (src/master.cpp), Engine its checks, the calls of the engine, the timeouts and
-- the methods of the application; `connect` is split at its wait. Pending, Answers, Writing,
-- Commands, Unique, Retries, Connecting, Session and Moves hold the proofs. A command is known
-- to the application by its timer and its callback, a Ticket of Ledger: Accounts and Balance
-- keep the account of the tickets over any run of calls of the manager, Calls takes a master
-- apart into such calls, and Life and Whole let its threads take turns in any order, with stops
-- and starts. An exception of a timer's callback leaves `run` of the manager and ends its
-- thread, which `ended` in the manager's state tells; what libcommon then does is not modelled.
-- Unknown, Doomed, Ending and Refused follow a timer without a request to this end.
--
-- Queues: the two queues of the class Transport (src/transport.h), with `read` and `clear_queues`.
-- The queues themselves are of libcommon: PacketQueue says what they do to the packets they hold. A
-- loop of `clear_queues` gets a round more than there are packets, so that it ends.
--
-- Tcp: Asio is what the code uses of boost::asio, Endpoint what both classes have, Client is
-- src/tcp_client.cpp and Server is src/tcp_server.cpp. The asynchronous operations under way are a
-- list in the state; `run_one` lets one of them end, with a code and the bytes that were read,
-- calls its handler, and does what the `catch` clauses of `run` do. Framing, Receiving, Streams,
-- Writing, Stable, Turns, Life and Refused hold the proofs; `feed` lets as many reads end as it is
-- told, with the bytes of a stream, and a packet takes two. Links makes a client and a server the
-- transport that the managers use. In Life the operations end in any order and in any way.
--
-- Usb: Libusb is what the code uses of libusb, Device the transfers and the methods of
-- src/usb_async.cpp, Callbacks its callbacks and its thread. A transfer is named by a number, and
-- the transfers that are in flight and those that were deleted are lists in the state. Opening,
-- Flight, Exchange, Reading, Closing, Failing, Sending, Writing, Ending and Life hold the proofs.
-- Examples/Transports implements the interfaces.
--
-- EndToEnd: a command from the master to the slave and back, over a link that brings copies.
-- Handshake: the packets that begin a session, over such a link; Joining, of both sides, has the
-- steps of each.
--
-- Not modelled: logging and printing; destructors; what `fill_transfer` stores in a transfer.
-- Mutexes are not modelled: a method runs as one step. Times are in ticks of 100 ms, unbounded.
pub mod Base
pub mod Messages
pub mod Packet
pub mod Interfaces
pub mod Queues
pub mod Tcp
pub mod Usb
pub mod EndToEnd
pub mod Handshake
pub mod Identity
pub mod Slave
pub mod Timing
pub mod Master
mod Examples
