-- ===== src/Lib.antt =====
-- A model of Gnutella, a servent of a peer-to-peer network for files: a server process that keeps up
-- to five neighbours, answers searches and transfers files, and a client process that talks to the
-- server of its own machine.
--
-- How the parts interact: the server (server.c) accepts sockets; the first one from the local machine
-- becomes the client's by a handshake, the others wait for a packet. server/server_join.c makes
-- waiting sockets neighbours; server/server_requests.c and server/server_user.c queue requests and
-- answer them with the packets of server/server_packets.c; list.c holds every queue.
--
-- Base, Base/: numbers, byte strings, lists, Boolean tests.
-- Wire, Wire/: packets_defines.h; `write_to_packet` of util.c on a block of fixed size; readers of
--   length-prefixed strings. A packet under construction is a list of pieces and the size that was
--   given to `malloc`; `none` is a write past that size.
-- Net, Net/: effects as explicit state (streams, files, closed descriptors, a clock) with faults for
--   what C leaves undefined; the system's answers are the parameter `Os`. Net/Invariants carries a
--   predicate on a process state through commands.
-- Cells, Cells/: list.c on a heap of cells. `Chain` is what a list handle stands for afterwards.
-- Util, Util/: util.c. Networking, Networking/: networking.c.
-- Server, Server/: `server_t` (State), the table (Neighbours), server/server_packets.c (Packets),
--   server/server_join.c (Join), server/server_requests.c and server/server_user.c (Readers, Files,
--   Search, Relay, Download), server.c (Loop, Main); Sound is the invariant of the whole; Display is
--   the timer of `loop` that shows the neighbours; Shutdown is what comes behind the loop; Life is
--   `run_server` as a step relation, with bytes that come in between the steps and the SIGINT of
--   `handle_sigint`.
-- Client, Client/: client.c and client/; Run is `run_client` and its loop over the lines of the
--   standard input, with everything that the input brings before its end as a list.
-- Boot, Boot/: main.c. The words of the command line are a list; `main` is a function of what `fork`,
--   `run_server` and `run_client` answer, either of which may never come back. Options describes a
--   command line by what its user means.
-- Log, Log/: log.c as the Makefile builds it, with DEBUG.
-- Joint, Joint/: the processes together, each on the bytes that another one writes: a client and its
--   server (Queue, Rounds, Session), a machine that joins and its contact (Contact, Join), the two
--   machines and the client of a download (Upload, Fetch, Download). The bytes of a conversation
--   stand in the inboxes from the start.
-- Tests, Tests/: the theorems on small inputs.
--
-- Bounds: lists are walked with one round more than their length, a file is read with one round more
-- than it has bytes, a connection is tried with one turn more than there are addresses; the main loop
-- takes the number of its rounds. A command line is read with one round more than it has words.
-- `join_network_through` recurs on `nb_attempts`, 5 in the code. Lengths and times that the source
-- keeps in an `int` or a `uint32_t` are cut at 2^31 and 2^32.
--
-- Bytes are numbers; a packet read from a stream that ends early is a fault, since the code goes on
-- with unset variables. The child process of `search_file` is its result. `strtol` is written out for
-- a `long` of 64 bits; `inet_pton` and `inet_ntop` are parameters. Not modelled: the redirections of
-- main.c, the texts that are only printed (prompt, help, usage), and of util.c `poll_fd`, a wrapper of
-- `poll`, and the helpers that free, which take a value out of the state.
mod Base
pub mod Wire
pub mod Net
pub mod Cells
pub mod Util
pub mod Server
pub mod Networking
pub mod Client
pub mod Log
pub mod Boot
pub mod Joint
pub mod Tests
