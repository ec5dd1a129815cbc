-- ===== src/Joint/Session.antt =====
-- A whole session of a client with the server of its machine, from the handshake to the exit.
use gnutella.Base.{
  ℕ, ◌<◌, ◌≡◌, refl, ◌∙◌, true, Bytes, codes, List, [], ◌∷◌, ◌++◌, Option, some, arith, length, All,
}
use gnutella.Net.{Os, Fd, Net, ready, accepted, accept_timeout, ok, update, receive, send}
use gnutella.Net.Laws.{bind-ok, receive-some}
use gnutella.Wire.{joined, byte, read_byte, cmsg_int_handshake, cmsg_int_exit, smsg_int_handshake}
use gnutella.Wire.Packs.{joined-append}
use gnutella.Networking.{attempt_connect_to}
use gnutella.Server.Loop.{
  handshake, handshake_ok, handle_handshake_result, is_local, handle_accept_result,
}
use gnutella.Server.Main.{loop, initial_server}
use gnutella.Client.{Client}
use gnutella.Client.Run.{ClientExit, success, Turn, tries, port_or, run_client}
use gnutella.Client.Run.Writes.{Wrote}
use gnutella.Client.Run.Session.{UserCommand, IsTyped, at_servent}
use gnutella.Client.Run.Session.Exchange.{session_lines, session_packets, run_client-session}
use gnutella.Joint.Queue.{serving}
use gnutella.Joint.Rounds.{session_requests, tick, HasAccepted, loop-serves}

-- What a session writes: the handshake, a packet for each command that has one, the exit.
abbrev pub conversation : List UserCommand → List Bytes
conversation script = byte cmsg_int_handshake ∷ session_packets script ++ byte cmsg_int_exit ∷ []

module _ (os : Os) (l fd : Fd) (n : Net) (stream : Bytes)
    (accepts : os.accept n.clock ≡ accepted fd) (local : is_local os (os.peer_ip fd) ≡ true)
    (brings : n.inbox fd ≡ cmsg_int_handshake ∷ stream) where
  abbrev shaken : Net
  shaken = record (tick n) {
    inbox = update n.inbox fd stream;
    sent = n.sent ++ (fd, byte smsg_int_handshake) ∷ [];
  }

  shakes : handshake fd (initial_server l) (tick n) ≡ ok handshake_ok (serving l fd []) shaken
  unfolding handshake initial_server serving send
  shakes =
      let first : read_byte ((tick n).inbox fd) ≡ some (cmsg_int_handshake, stream) =
        unfold read_byte in rw brings refl in
      bind-ok (receive fd read_byte) _ (receive-some fd read_byte _ (tick n) first)

  welcomes : HasAccepted os l fd [] stream (initial_server l) n shaken
  unfolding handle_accept_result handle_handshake_result
  welcomes = record {
    result = rw (accepts, local, handle_accept_result) (bind-ok (handshake fd) _ shakes);
    waits = hit n.inbox stream;
    later = omega arith;
  }
    where
      hit : (f : Fd → Bytes) (bs : Bytes) → update f fd bs fd ≡ bs
      hit f bs = ground arith

-- A session of a client with the server of its machine. On the one side the servent is reached on
-- one of the three tries and answers the handshake, and the user types commands and then `exit`.
-- On the other side is the server that `run_server` sets up, without neighbours, that first
-- accepts the client's socket from a local address and nothing later, finds that socket ready at
-- every poll and the bytes of such a client on it, and makes more rounds than the session has
-- packets for commands. Then the client writes the handshake, the packet of each command in the
-- order typed and CMSG_INT_EXIT, and returns EXIT_SUCCESS, or stops at a packet of the servent
-- that ends early; and the main loop of the server returns with one request in its queue for each
-- of the packets, in that order, having answered the handshake, written nothing else and read
-- every byte.
pub session-served :
    (client_os os : Os) (connection_port : Option Bytes) (script : List UserCommand)
    (more : List Bytes) (c : Client) (n m : Net) (sock l fd : Fd) (rounds : ℕ) {rest : Bytes}
    → All IsTyped script
    → attempt_connect_to
        (tries client_os (codes "127.0.0.1") (port_or (codes "10001") connection_port) n.clock)
        0
        3
      ≡ some sock
    → n.inbox sock ≡ smsg_int_handshake ∷ rest
    → os.accept m.clock ≡ accepted fd
    → ((t : ℕ) → m.clock < t → os.accept t ≡ accept_timeout)
    → ((t : ℕ) → os.poll t fd ≡ ready)
    → is_local os (os.peer_ip fd) ≡ true
    → m.inbox fd ≡ joined (conversation script)
    → length (session_packets script) < rounds
    → Wrote sock n.sent
        (at_servent sock (conversation script))
        (λ (result : ClientExit × List Turn). result.0 ≡ success)
        (run_client client_os connection_port (session_lines script more) c n)
      × ((m' : Net) × (loop os rounds 50 (initial_server l) m
            ≡ ok tt (serving l fd (session_requests script)) m')
          × (m'.inbox fd ≡ [])
          × (m'.sent ≡ m.sent ++ (fd, byte smsg_int_handshake) ∷ []))
unfolding joined
session-served client_os os connection_port script more c n m sock l fd rounds typed connected
      answers accepts quiet polls local brings enough =
    let stream : Bytes = joined (session_packets script) ++ cmsg_int_exit ∷ [] in
    let whole : m.inbox fd ≡ cmsg_int_handshake ∷ stream =
      brings ∙ rw (joined-append (session_packets script)) refl in
    let (m', served, reads) =
      loop-serves os l fd m.clock polls quiet script [] rounds 50 (initial_server l) m
        (shaken os l fd m stream accepts local whole) typed (omega arith) enough
        (welcomes os l fd m stream accepts local whole) in
    (
      run_client-session client_os connection_port script more c n typed connected answers,
      (m', served, reads.left, reads.silent),
    )
