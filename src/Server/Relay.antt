-- ===== src/Server/Relay.antt =====
-- `answer_local_search_request` and `answer_remote_search_request` of server_requests.c.
pub mod Flow
pub mod Faults
use gnutella.Base.{
  ℕ, zero, suc, ◌+◌, Bool, true, false, not, ◌&&◌, ◌||◌, Bytes, List, [], ◌∷◌, Option, none, some,
  if◌then◌else◌, ◌==◌, ltb, str_eq, take,
}
use gnutella.Net.{
  Os, Fd, Net, ok, skip, pure, stop, overflow, ◌>>=◌, ◌>>◌, get_state, send, transmit, ask, assert,
}
use gnutella.Util.{int_to_string}
use gnutella.Server.State.{Server, Srv, SearchRequest, free_block, read_self_ip, members}
use gnutella.Server.Packets.{broadcast_packet, broadcast_packet_to}
use gnutella.Server.Files.{search_file}
use gnutella.Server.Search.{
  local_search_packet, local_found_packet, check_unique_request, remote_search_packet,
  forward_to_local, socket_array, count_targets,
}

-- A packet that was built goes on; a write past its block is a fault.
abbrev pub built : Option Bytes → Srv Bytes
built none = stop overflow
built (some bs) = pure bs

module _ (os : Os) where
  unfoldable pub answer_local_search_request : Bytes → Srv (Unit {0})
  answer_local_search_request name = do
    has_file ← search_file name
    server ← get_state
    self_ip ← read_self_ip server.self_ip
    let port = int_to_string (os.own_port server.listening_socket)
    if has_file
        then transmit server.client_socket (local_found_packet self_ip port name)
        else do packet ← built (local_search_packet self_ip port name); broadcast_packet packet

  -- What `answer_remote_search_request` does with a request of another machine.
  unfoldable pub relay_request : Bytes → SearchRequest → Srv (Unit {0})
  relay_request self_ip r = do
    server ← get_state
    log ← members server.received_search_requests
    let unique = check_unique_request log r
    let server_answer = unique || (r.ttl == 0)
    assert (server_answer || ltb 0 r.ttl)
    found ← search_file r.filename
    let has_file = unique && found
    packet ← built (
        remote_search_packet server_answer has_file self_ip
          (int_to_string (os.own_port server.listening_socket)) r)
    stale ← ask (λ t i. os.stale (t + i))
    broadcast_packet_to
        (take (count_targets r.source_sock server.neighbours)
          (socket_array stale r.source_sock 0 server.neighbours))
        packet
    free_block r.arrays >>= λ _. skip

  -- A request that comes back to the machine that it names as its source goes to the client.
  unfoldable pub answer_remote_search_request : SearchRequest → Srv (Unit {0})
  answer_remote_search_request r = do
    server ← get_state
    self_ip ← read_self_ip server.self_ip
    if str_eq self_ip r.ip_source then forward_to_local r else relay_request self_ip r
