-- ===== src/Lib.antt =====
-- A verification library for cosmicdrop. Its first part is the AWDL protocol core (src/awdl/ of the
-- repository), which decides what to believe of the frames that arrive over the air, which node leads,
-- when windows open, and what is sent. Its second part is AirDrop on top of it: the HTTP client and
-- server, the configuration, and the state of the applet that starts and stops them.
--
-- Parts and files:
-- * Wire models src/awdl/wire.rs, the reads and writes of integers, addresses and TLVs. A byte slice
--   is a list of numbers. Every index and slice of the source is a step that may answer `panic`. The sums
--   of offsets and lengths do not wrap there; Wire/Usize has the reads with the sums of `usize`.
-- * Crc models src/awdl/crc32.rs, SipHash models src/awdl/siphash.rs. Crc/Bitwise and SipHash/Padding
--   compare them with other descriptions of the checksum and of the message.
-- * Sync models src/awdl/sync.rs and the conversions of time units in src/awdl/state.rs.
-- * Channel models src/awdl/channel.rs.
-- * Election models src/awdl/election.rs: the comparison of masters and the election over a list of
--   peers. Election/Adoption says what the node takes over, Election/Independence that the order of the
--   peers does not matter.
-- * Table is the map from addresses that Peers (src/awdl/peers.rs) keeps its peers in, an association
--   list for the hash map of the source.
-- * State models src/awdl/state.rs, the state of a node made of the states of the parts.
-- * Frame models src/awdl/frame.rs, constants and packed structs, Frame/Names the names for the log.
-- * Rx models src/awdl/rx.rs. Rx/Radiotap, Rx/Tlv, Rx/Action, Rx/Llc, Rx/Ethernet and Rx/Entry are the
--   stages from `awdl_rx_frame` down to the TLV handlers; Rx/Safety and Rx/Forwarding hold proofs.
-- * Tx models src/awdl/tx.rs. Tx/Tlv and Tx/Frames are the builders; Tx/Size holds proofs
--   about how much they write, Tx/Election, Tx/Version and Tx/Data about sender and receiver together.
-- * Daemon models src/awdl/mod.rs: the start, Daemon/Schedule the timers, Daemon/Tasks the periodic
--   tasks, Daemon/Loop reception and the loop. A turn of the loop takes the answers of the system (the
--   clocks, the frames that arrive) and answers the daemon and the list of what it asks of the system.
--   Instants and durations are numbers of nanoseconds. The other files below Daemon hold proofs.
-- * Netlink models src/awdl/netlink.rs: Netlink/Messages the messages to the kernel, Netlink/Replies the
--   loops that read its replies, a list of replies being an input, Netlink/Devices the virtual
--   interface and the descriptors of every function, from the answers of the system calls.
-- * Io models src/awdl/io.rs, the packet socket, from the answers of the system calls.
-- * Util models get_uti_type of src/util.rs and the slice of a file that src/client.rs hands to it.
-- * Text is what the AirDrop part uses of the standard library's texts, a text being the list of its
--   bytes. Text/Decimal, Text/Numbers, Text/Laws and Text/Blocks hold lemmas.
-- * Config models src/config.rs: the configuration and the choice of the interface and its address.
--   The interface Plist stands for the property list library.
-- * Client models src/client.rs: the address of a receiver, the text of a request and the loop that
--   reads a response; Client/Requests the three requests, Client/Browser the map of the browser.
-- * Server models src/server.rs: `handle_connection` from the reads of a connection to what is written
--   and the events for the applet. Server reads the request, Server/Routes answers it. Server/Answers,
--   Server/Request and Server/Exchange are about client and server together.
-- * App models src/app.rs: `update` and what it calls, from a message and the answers of the world to the
--   new window and the list of effects. App/Services starts and stops, App/Events drains the channels,
--   App/Transfers runs the send. App/Invariant replays the effects on what was
--   started and not told to stop.
-- * Peers/Refinement is the specification of the peer table as a map from addresses.
-- * Base holds what the parts share: tests, lists, integers, casts, bit operations.
--
-- How the code corresponds: a struct is a record with the same fields, an enum a data type, a method
-- that changes `self` a function that answers the new state with the result. A write through
-- `peer_get_mut` is a function on the peer. `match read { Err(_) => return .. }` is `match_read`, and
-- keeps the state that was written before the error, as the source does. The builders of Tx take the
-- rest of the buffer and answer it with the number of bytes.
--
-- Numbers are natural numbers; u8, u16, u32 and u64 arithmetic wraps as in the release build that
-- Cargo.toml describes, which leaves overflow checks off. Signed numbers are the integers of
-- Base/Int, and the sums of i8 wrap. Division by zero and accesses out of bounds are panics.
--
-- Loops: the loops of Netlink over a reply run on fuel too, the length of the reply and that of the
-- buffer, of which each round uses up at least one and four bytes.
-- The TLV loop and the A-MSDU loop run on fuel, the length of the frame, of which each round uses up
-- at least three and fourteen bytes; a loop without fuel left would answer `stuck`. All other
-- loops are recursions on lists or counters; the loop of the daemon is a relation of its turns.
--
-- A connection of the AirDrop part is the list of what its reads give, in pieces of any size, with
-- failures; its end is the end of the list. What is written to a connection is taken to arrive.
--
-- Parameters: the clock is an argument of the functions that read it. `String::from_utf8_lossy` is
-- an argument of reception, about which nothing is assumed. In the AirDrop part, the operations on text
-- that read Unicode tables are the record `StrLib`, with their results on ASCII text as laws;
-- Text/Ascii fulfils them. The binary form of property lists is the record `PlistLib` without laws,
-- archives are the record `ArchiveLib`, and the system that a configuration is made on is the record
-- `System`.
--
-- Not modelled: the handle and the threads of src/awdl/mod.rs, whose lock is taken as always granted,
-- the blocking mode of the sockets of src/awdl/netlink.rs; TLS, certificates and mDNS, the
-- accept loop of the server, the archive that an upload is packed into, the views of the applet and
-- the start of the program (src/main.rs), the icons of src/util.rs, and all output to the log.

pub mod Base
pub mod Wire
pub mod Crc
pub mod Daemon
pub mod Io
pub mod Netlink
pub mod Sync
pub mod Channel
pub mod Election
pub mod Table
pub mod Peers
pub mod State
pub mod Frame
pub mod Rx
pub mod SipHash
pub mod Tx
pub mod Util
pub mod Text
pub mod Config
pub mod Client
pub mod Plist
pub mod Server
pub mod App
