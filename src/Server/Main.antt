-- ===== src/Server/Main.antt =====
-- server.c: the local client's packets, the pending requests and downloads, the log of searches,
-- one round of the main loop, and `run_server`.
pub mod Pending
pub mod Fresh
use gnutella.Base.{
  ℕ, zero, suc, ◌+◌, Bool, true, false, not, Bytes, List, [], ◌∷◌, ◌++◌, Option, none, some,
  if◌then◌else◌, ◌==◌, leb, ltb, map,
}
use gnutella.Net.{
  Os, Fd, Net, Poll, timeout, ready, failed, ok, skip, pure, exit, ◌>>=◌, ◌>>◌, get_state,
  put_state, receive, close, ask, assert,
}
use gnutella.Wire.{read_byte, cmsg_int_exit, cmsg_int_search, cmsg_int_download, smsg_download}
use gnutella.Cells.{Chain, live, hanging}
use gnutella.Server.State.{
  Server, Contact, Srv, Request, search_local, download_local, search_remote, download_remote,
  SearchLog, members, empty_slot, unset,
}
use gnutella.Server.Packets.{leave_network}
use gnutella.Server.Join.{join_network}
use gnutella.Server.Search.{handle_local_search_request}
use gnutella.Server.Relay.{answer_local_search_request, answer_remote_search_request}
use gnutella.Server.Download.{
  handle_local_download_request, handle_remote_download_answer, answer_local_download_request,
  answer_remote_download_request,
}
use gnutella.Server.Loop.{
  visit, settle, clear_server, handle_accept_result, handle_awaiting_sockets, handle_neighbours,
}

module _ (os : Os) where
  -- `handle_client`: true when the client exits.
  unfoldable pub handle_client : Srv Bool
  handle_client = do
    server ← get_state
    event ← ask (λ t. os.poll t server.client_socket)
    elim event [
      | timeout ↦ pure false
      | _ ↦ do
        opcode ← receive server.client_socket read_byte
        if opcode == cmsg_int_exit
            then leave_network >> pure true
            else if opcode == cmsg_int_search
            then handle_local_search_request os >> pure false
            else if opcode == cmsg_int_download
            then handle_local_download_request >> pure false
            else pure false
    ]

  -- `handle_pending_request`
  unfoldable pub handle_pending_request : Request → Srv (Unit {0})
  handle_pending_request (search_local name) = answer_local_search_request os name
  handle_pending_request (search_remote r) = answer_remote_search_request os r
  handle_pending_request (download_local d) = answer_local_download_request os d
  handle_pending_request (download_remote fd name) = answer_remote_download_request os fd name

  -- `handle_pending_requests`: every request is handled and taken out.
  unfoldable pub handle_pending_requests : Srv (Unit {0})
  handle_pending_requests = do
    server ← get_state
    requests ← members server.pending_requests
    marked ← visit (λ r. handle_pending_request r >> pure true) requests
    after ← get_state
    put_state (record after { pending_requests = settle marked })

  -- `update_log_timers`: entries whose timer is at most `diff` are taken out; no timer is lowered.
  unfoldable pub update_log_timers : ℕ → Srv (Unit {0})
  update_log_timers diff = do
    server ← get_state
    log ← members server.received_search_requests
    marked ← visit (λ entry. pure (leb entry.delete_timer diff)) log
    put_state (record server { received_search_requests = settle marked })

  -- `handle_pending_download`
  unfoldable pub handle_pending_download : Fd → Srv Bool
  handle_pending_download sock = do
    event ← ask (λ t. os.poll t sock)
    elim event [
      | ready ↦ do
        opcode ← receive sock read_byte
        assert (opcode == smsg_download)
        handle_remote_download_answer sock
        pure true
      | _ ↦ pure false
    ]

  -- `handle_pending_downloads`
  unfoldable pub handle_pending_downloads : Srv (Unit {0})
  handle_pending_downloads = do
    server ← get_state
    fds ← members server.pending_downloads
    marked ← visit handle_pending_download fds
    after ← get_state
    put_state (record after { pending_downloads = settle marked })

  -- One round of `loop`: whether `_loop` is still 1, and the next `time_diff`.
  unfoldable pub round : ℕ → Srv (Bool × ℕ)
  round time_diff = do
    res ← ask os.accept
    handle_accept_result os res
    handle_awaiting_sockets os
    handle_neighbours os >>= λ _. handle_pending_downloads
    leaves ← handle_client
    server ← get_state
    (if server.nb_neighbours == 0 then skip else handle_pending_requests)
    update_log_timers time_diff
    elapsed ← ask os.elapsed
    pure (not leaves, (if ltb elapsed 50 then 50 else elapsed))

  -- The main loop, for at most `rounds` rounds.
  unfoldable pub loop : ℕ → ℕ → Srv (Unit {0})
  loop zero time_diff = skip
  loop (suc rounds) time_diff = do
    (goes_on, next_diff) ← round time_diff
    if goes_on then loop rounds next_diff else skip

  -- `run_server` behind the creation of the listening socket, for at most `rounds` rounds; the
  -- defaults of server_defines.h are the first two arguments.
  unfoldable pub run_server :
      (contact_point contact_port : Bytes) (first_machine : Bool)
      → Option Bytes
      → Option Bytes
      → ℕ
      → Srv ℕ
  run_server contact_point contact_port first_machine ip port rounds = do
    (if first_machine then skip else do
      joined ← join_network os contact_point contact_port ip port
      if joined then skip else do server ← get_state; close server.listening_socket; exit 1)
    loop rounds 50
    leave_network
    clear_server os
    pure 0

-- The state that `run_server` sets up around its listening socket. The lists are created empty;
-- the code creates them behind `join_network`, which does not use them.
unfoldable pub initial_server : Fd → Server
initial_server listening_socket = record {
  listening_socket = listening_socket;
  neighbours = empty_slot ∷ empty_slot ∷ empty_slot ∷ empty_slot ∷ empty_slot ∷ [];
  nb_neighbours = 0;
  client_socket = 0;
  handshake = false;
  awaiting_sockets = live [];
  pending_requests = live [];
  received_search_requests = live [];
  pending_downloads = live [];
  self_ip = unset;
}
