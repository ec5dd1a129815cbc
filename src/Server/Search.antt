-- ===== src/Server/Search.antt =====
-- Searches (server_requests.c, server_user.c): the requests of the local client and of the
-- neighbours, their answers, and what is sent on.
pub mod Layout
pub mod Bounds
pub mod RoundTrip
use gnutella.Base.{
  ℕ, suc, ◌+◌, ◌-◌, ◌*◌, Bool, true, false, not, ◌&&◌, ◌||◌, Bytes, List, [], ◌∷◌, ◌++◌, Option,
  none, some, length, if◌then◌else◌, ◌==◌, ltb, str_eq, map,
}
use gnutella.Net.{
  Os, Fd, Net, Cmd, indeterminate, ok, skip, pure, stop, ◌>>=◌, ◌>>◌, get_state, receive, send,
  transmit, ask, assert,
}
use gnutella.Wire.{
  c_str, pack, byte, string_field, machine_fields, read_string, cmsg_search_request,
  smsg_search_request, smsg_int_search, inet6_addrstrlen,
}
use gnutella.Util.{int_to_string}
use gnutella.Server.State.{
  Server, Contact, Srv, Block, held, freed, free_block, SearchRequest, SearchLog, Request,
  search_local, search_remote, read_self_ip, members, push_request,
}
use gnutella.Server.Packets.{broadcast_packet, broadcast_packet_to}
use gnutella.Server.Files.{search_file}
use gnutella.Server.Readers.{CString, closed, unclosed, read_search_request, read_search_answer}

abbrev pub default_ttl : ℕ
default_ttl = 10

-- The size that a packet is given for each machine that it lists.
abbrev pub machine_room : ℕ
machine_room = 1 + inet6_addrstrlen + 1 + 5

module _ (os : Os) where
  -- `handle_remote_search_request`: the request waits in the list; `source_sock` is not set.
  unfoldable pub handle_remote_search_request : Fd → Srv (Unit {0})
  handle_remote_search_request sock = do
    f ← receive sock read_search_request
    stale ← ask os.stale
    push_request (
        search_remote (record {
          source_sock = stale;
          ip_source = f.ip_source;
          port_source = f.port_source;
          filename = f.filename;
          ttl = f.ttl;
          machines = f.machines;
          arrays = held;
        }))

  -- `handle_local_search_request`
  unfoldable pub handle_local_search_request : Srv (Unit {0})
  handle_local_search_request = do
    server ← get_state
    name ← receive server.client_socket read_string
    push_request (search_local name)

-- The packet of `answer_local_search_request` when the file is not here: CMSG_SEARCH_REQUEST.
unfoldable pub local_search_packet : (self_ip listening_port filename : Bytes) → Option Bytes
local_search_packet self_ip port filename =
    pack (1 + 1 + inet6_addrstrlen + 1 + 5 + 1 + 255 + 1 + 1 + 1 + inet6_addrstrlen + 1 + 5) (
      byte cmsg_search_request ∷ string_field self_ip
      ++ (string_field port ++ (string_field filename ++ byte default_ttl ∷ byte 0 ∷ [])))

-- The same when the file is here: SMSG_INT_SEARCH, with this machine as the only one.
unfoldable pub local_found_packet : (self_ip listening_port filename : Bytes) → Option Bytes
local_found_packet self_ip port filename =
    pack (1 + 1 + inet6_addrstrlen + 1 + 5 + 1 + 255 + 1 + 1 + 1 + inet6_addrstrlen + 1 + 5) (
      byte smsg_int_search ∷ string_field filename
      ++ (byte 1 ∷ string_field self_ip ++ string_field port))

-- `check_unique_request`: no logged request has the same file and source IP and another port.
unfoldable pub check_unique_request : List SearchLog → SearchRequest → Bool
check_unique_request [] r = true
check_unique_request (entry ∷ log) r =
    let rest = check_unique_request log r in
    if str_eq entry.filename r.filename
      && (str_eq entry.source_ip r.ip_source && not (str_eq entry.source_port r.port_source))
    then false
    else rest

-- The packet of `answer_remote_search_request`: an answer (SMSG) or the request sent on (CMSG),
-- and this machine behind the machines of the request if it has the file. `ttl` is a `uint8_t`: the
-- source's `ttl - 1` is `ttl + 255` modulo 256, behind the `assert` that stands in `relay_request`.
unfoldable pub remote_search_packet :
    (server_answer has_file : Bool)
    → (self_ip listening_port : Bytes) → SearchRequest
    → Option Bytes
remote_search_packet server_answer has_file self_ip port r =
    pack (1 + 1 + inet6_addrstrlen + 1 + 5 + 1 + 255 + 1 + 1 + length r.machines * machine_room) (
      byte (if server_answer then smsg_search_request else cmsg_search_request)
        ∷ (if server_answer then [] else string_field r.ip_source ++ string_field r.port_source)
      ++ (string_field r.filename
          ++ ((if server_answer then [] else byte (r.ttl + 255) ∷ [])
              ++ (byte (length r.machines + (if has_file then 1 else 0)) ∷ machine_fields r.machines
                  ++ (if has_file then string_field self_ip ++ string_field port else [])))))

-- The packet of `send_search_answer_to_client`. The block has no room for the byte `nb_ips`.
unfoldable pub client_answer_packet : (filename : Bytes) → List (Bytes × Bytes) → Option Bytes
client_answer_packet filename machines =
    pack (1 + 1 + length filename + length machines * machine_room) (
      byte smsg_int_search ∷ string_field filename
      ++ (byte (length machines) ∷ machine_fields machines))

-- `strlen` of a block with no terminator stops at a NUL among the bytes that came; without one it
-- reads a byte that was never set.
unfoldable pub strlen_read : CString → Srv Bytes
strlen_read (closed s) = pure s
strlen_read (unclosed s) =
    if ltb (length (c_str s)) (length s) then pure (c_str s) else stop indeterminate

unfoldable pub machines_read : List (CString × CString) → Srv (List (Bytes × Bytes))
machines_read [] = pure []
machines_read ((ip, port) ∷ ms) = do
  i ← strlen_read ip
  p ← strlen_read port
  rest ← machines_read ms
  pure ((i, p) ∷ rest)

-- `send_search_answer_to_client`, which frees the arrays that it is given.
unfoldable pub send_search_answer_to_client : Bytes → List (CString × CString) → Block → Srv Block
send_search_answer_to_client filename machines arrays = do
  server ← get_state
  ms ← machines_read machines
  transmit server.client_socket (client_answer_packet filename ms)
  free_block arrays

-- `forward_to_local`: the arrays are freed by the call and once more by `clean_search_request`.
unfoldable pub forward_to_local : SearchRequest → Srv (Unit {0})
forward_to_local r = do
  arrays ←
      send_search_answer_to_client r.filename
        (map (λ (ip, port). (closed ip, closed port)) r.machines) r.arrays
  free_block arrays >>= λ _. skip

-- `handle_remote_search_answer`
unfoldable pub handle_remote_search_answer : Fd → Srv (Unit {0})
handle_remote_search_answer sock = do
  (filename, machines) ← receive sock read_search_answer
  send_search_answer_to_client filename machines held >>= λ _. skip

-- The array `sockets` of `answer_remote_search_request` from index `i` on: an entry is set only
-- for a slot whose socket is not the source; the others hold what the block held.
unfoldable pub socket_array : (ℕ → ℕ) → ℕ → ℕ → List Contact → List Fd
socket_array stale source i [] = []
socket_array stale source i (c ∷ cs) =
    elim c.sock [ none ↦ stale i | some fd ↦ if fd == source then stale i else fd ]
    ∷ socket_array stale source (suc i) cs

-- `nb_sockets`
unfoldable pub count_targets : ℕ → List Contact → ℕ
count_targets source [] = 0
count_targets source (c ∷ cs) =
    elim c.sock [ none ↦ 0 | some fd ↦ if fd == source then 0 else 1 ] + count_targets source cs
