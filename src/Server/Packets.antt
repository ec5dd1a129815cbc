-- ===== src/Server/Packets.antt =====
-- server_packets.c: the packets of the neighbour protocol and the broadcasts. Each builder gives
-- the bytes that go to `write_to_fd`, or `none` where a write leaves the block.
pub mod RoundTrip
use gnutella.Base.{
  ℕ, ◌+◌, ◌*◌, Bytes, List, [], ◌∷◌, ◌++◌, Option, none, some, length, if◌then◌else◌, ◌==◌,
}
use gnutella.Net.{Os, Fd, Net, ok, pure, ◌>>=◌, ◌>>◌, get_state, send, transmit, ask}
use gnutella.Wire.{
  pack, byte, string_field, machine_fields, uint8, cmsg_neighbours, cmsg_join, cmsg_leave,
  smsg_join, smsg_neighbours, inet6_addrstrlen,
}
use gnutella.Util.{int_to_string}
use gnutella.Server.State.{Server, Contact, Srv, sockets}

-- SMSG_JOIN: the answer, and the listening port if it is positive.
unfoldable pub smsg_join_packet : ℕ → Bytes → Option Bytes
smsg_join_packet join listening_port =
    pack (1 + 1 + 1 + 5)
      (byte smsg_join ∷ byte join ∷ (if join == 1 then string_field listening_port else []))

unfoldable pub answer_join_request : Os → Fd → ℕ → Srv (Unit {0})
answer_join_request os s join = do
  server ← get_state
  transmit s (smsg_join_packet join (int_to_string (os.own_port server.listening_socket)))

-- CMSG_NEIGHBOURS: the new socket, if the connection was made.
unfoldable pub send_neighbours_request : Os → Bytes → Bytes → Srv (Option Fd)
send_neighbours_request os ip port = do
  connected ← ask (λ t. os.connect t ip port)
  elim connected [
    | none ↦ pure none
    | some socket ↦ send socket (byte cmsg_neighbours) >> pure (some socket)
  ]

-- CMSG_JOIN: the rescue flag and our listening port.
unfoldable pub cmsg_join_packet : ℕ → Bytes → Option Bytes
cmsg_join_packet rescue listening_port =
    pack (1 + 1 + 1 + 5) (byte cmsg_join ∷ byte rescue ∷ string_field listening_port)

unfoldable pub send_join_request : Os → Bytes → Bytes → ℕ → Srv (Option Fd)
send_join_request os ip port rescue = do
  connected ← ask (λ t. os.connect t ip port)
  elim connected [
    | none ↦ pure none
    | some socket ↦ do
      server ← get_state
      transmit socket
          (cmsg_join_packet rescue (int_to_string (os.own_port server.listening_socket)))
      pure (some socket)
  ]

-- SMSG_NEIGHBOURS: the number of machines and, for each, its IP and port.
unfoldable pub smsg_neighbours_packet : List (Bytes × Bytes) → Option Bytes
smsg_neighbours_packet machines =
    pack (1 + 1 + length machines * (inet6_addrstrlen + 5 + 2))
      (byte smsg_neighbours ∷ byte (length machines) ∷ machine_fields machines)

unfoldable pub send_neighbours_list : Fd → List (Bytes × Bytes) → Srv (Unit {0})
send_neighbours_list s machines = transmit s (smsg_neighbours_packet machines)

-- `broadcast_packet_to`, and `broadcast_packet` over the sockets of the slots in use.
unfoldable pub broadcast_packet_to : List Fd → Bytes → Srv (Unit {0})
broadcast_packet_to [] packet = pure tt
broadcast_packet_to (s ∷ socks) packet = send s packet >> broadcast_packet_to socks packet

unfoldable pub broadcast_packet : Bytes → Srv (Unit {0})
broadcast_packet packet = do
  server ← get_state
  broadcast_packet_to (sockets server.neighbours) packet

unfoldable pub leave_network : Srv (Unit {0})
leave_network = broadcast_packet (byte cmsg_leave)
