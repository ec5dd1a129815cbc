-- ===== src/Server/Loop.antt =====
-- server.c: the rounds of the server, from the accepted sockets to the pending requests.
use gnutella.Base.{
  ℕ, zero, suc, Bool, true, false, ◌||◌, Bytes, codes, List, [], ◌∷◌, none, some, if◌then◌else◌,
  ◌==◌, str_eq, map, get_elem?,
}
use gnutella.Net.{
  Os, Fd, timeout, Accepted, accept_timeout, accept_failed, accepted, Cmd, skip, pure, exit, ◌>>=◌,
  ◌>>◌, get_state, put_state, receive, send, close, ask,
}
use gnutella.Wire.{
  byte, read_byte, cmsg_neighbours, cmsg_join, cmsg_search_request, cmsg_leave, cmsg_download,
  smsg_search_request, cmsg_int_handshake, smsg_int_handshake,
}
use gnutella.Cells.{Chain, live, hanging, swept}
use gnutella.Server.State.{
  Contact, Srv, Request, search_local, download_local, search_remote, download_remote, push_back,
  members, sockets, max_neighbours,
}
use gnutella.Server.Neighbours.{compute_and_send_neighbours}
use gnutella.Server.Join.{handle_join_request, handle_leave}
use gnutella.Server.Search.{handle_remote_search_request, handle_remote_search_answer}
use gnutella.Server.Download.{handle_remote_download_request}

-- A loop that handles each member of a list and marks those that it takes out.
unfoldable pub visit : {S A : Type 0} → (A → Cmd S Bool) → List A → Cmd S (List (A × Bool))
visit handle [] = pure []
visit handle (x ∷ xs) = do gone ← handle x; rest ← visit handle xs; pure ((x, gone) ∷ rest)

-- The list that such a loop leaves, by `list_pop_at` on the marked cells.
unfoldable pub settle : {A : Type 0} → List (A × Bool) → Chain A
settle marked = elim (swept (λ (x, gone). gone) marked) [
  | live rest ↦ live (map (λ (x, gone). x) rest)
  | hanging ↦ hanging
]

-- What `close` or keep a socket of the waiting list: AWAIT_EMPTY, AWAIT_CLOSE, AWAIT_KEEP.
pub data Await : Type 0 where
  await_empty await_close await_keep : Await

-- What `handshake` returns.
pub data HandshakeResult : Type 0 where
  handshake_ok handshake_bad_opcode handshake_already_shaked : HandshakeResult

-- `handle_new_socket`
unfoldable pub handle_new_socket : Fd → Srv (Unit {0})
handle_new_socket socket = do
  server ← get_state
  awaiting ← push_back server.awaiting_sockets socket
  put_state (record server { awaiting_sockets = awaiting })

unfoldable pub handshake : Fd → Srv HandshakeResult
handshake socket = do
  server ← get_state
  if server.handshake then pure handshake_already_shaked else do
    put_state (record server { client_socket = socket })
    opcode ← receive socket read_byte
    if opcode == cmsg_int_handshake
        then (do
          send socket (byte smsg_int_handshake)
          shaken ← get_state
          put_state (record shaken { handshake = true })
          pure handshake_ok)
        else pure handshake_bad_opcode

module _ (os : Os) where
  unfoldable pub close_all : List Fd → Srv (Unit {0})
  close_all [] = skip
  close_all (fd ∷ fds) = close fd >> close_all fds

  -- `close(*(int*)head)` reads the cell itself in place of its data: some number for each cell.
  unfoldable pub close_cells : List Fd → Srv (Unit {0})
  close_cells [] = skip
  close_cells (fd ∷ fds) = do word ← ask os.stale; close word; close_cells fds

  unfoldable pub request_sockets : List Request → List Fd
  request_sockets [] = []
  request_sockets (search_local name ∷ rs) = request_sockets rs
  request_sockets (download_local d ∷ rs) = request_sockets rs
  request_sockets (search_remote r ∷ rs) = r.source_sock ∷ request_sockets rs
  request_sockets (download_remote fd name ∷ rs) = fd ∷ request_sockets rs

  -- `clear_server`
  unfoldable pub clear_server : Srv (Unit {0})
  clear_server = do
    server ← get_state
    close server.listening_socket
    close server.client_socket
    close_all (sockets server.neighbours)
    awaiting ← members server.awaiting_sockets
    close_cells awaiting
    log ← members server.received_search_requests
    close_all awaiting
    requests ← members server.pending_requests
    close_all (request_sockets requests)
    downloads ← members server.pending_downloads
    close_all downloads
    put_state (record server {
      neighbours = map {A = Contact} (λ c. record c { sock = none }) server.neighbours;
    })

  -- `handle_handshake_result`: a bad opcode ends the process with EXIT_FAILURE.
  unfoldable pub handle_handshake_result : HandshakeResult → Srv (Unit {0})
  handle_handshake_result handshake_ok = skip
  handle_handshake_result handshake_bad_opcode = clear_server >> exit 1
  handle_handshake_result handshake_already_shaked = skip

  -- The test for the local client in `handle_accept_result`.
  unfoldable pub is_local : Bytes → Bool
  is_local ip =
      str_eq ip (codes "127.0.0.1") || str_eq ip (codes "0000:0000:0000:0000:0000:0000:0000:0001")

  -- `handle_accept_result`
  unfoldable pub handle_accept_result : Accepted → Srv (Unit {0})
  handle_accept_result accept_timeout = skip
  handle_accept_result accept_failed = skip
  handle_accept_result (accepted socket) =
      if is_local (os.peer_ip socket)
      then (do result ← handshake socket; handle_handshake_result result)
      else handle_new_socket socket

  -- `handle_awaiting_socket`
  unfoldable pub handle_awaiting_socket : Fd → Srv Await
  handle_awaiting_socket socket = do
    event ← ask (λ t. os.poll t socket)
    elim event [
      | timeout ↦ pure await_empty
      | _ ↦ do
        opcode ← receive socket read_byte
        if opcode == cmsg_neighbours
            then compute_and_send_neighbours os socket >> pure await_close
            else if opcode == cmsg_join
            then (do
              answer ← handle_join_request os socket
              pure (if answer == 0 then await_close else await_keep))
            else if opcode == cmsg_download
            then handle_remote_download_request socket >> pure await_keep
            else pure await_close
    ]

  -- One round of the loop of `handle_awaiting_sockets`: true for a cell that is taken out.
  unfoldable pub await_round : Fd → Srv Bool
  await_round socket = do
    res ← handle_awaiting_socket socket
    elim res [
      | await_empty ↦ pure false
      | await_close ↦ close socket >> pure true
      | await_keep ↦ pure true
    ]

  unfoldable pub handle_awaiting_sockets : Srv (Unit {0})
  handle_awaiting_sockets = do
    server ← get_state
    fds ← members server.awaiting_sockets
    marked ← visit await_round fds
    after ← get_state
    put_state (record after { awaiting_sockets = settle marked })

  -- `handle_neighbour`: true for a neighbour that leaves.
  unfoldable pub handle_neighbour : Fd → Srv Bool
  handle_neighbour sock = do
    event ← ask (λ t. os.poll t sock)
    elim event [
      | timeout ↦ pure false
      | _ ↦ do
        opcode ← receive sock read_byte
        if opcode == cmsg_search_request
            then handle_remote_search_request os sock >> pure false
            else if opcode == cmsg_leave
            then pure true
            else if opcode == smsg_search_request
            then handle_remote_search_answer sock >> pure false
            else pure false
    ]

  -- The loop of `handle_neighbours` over the slots from `i` on, `left` of them: true if the last
  -- neighbour has left.
  unfoldable pub neighbours_from : ℕ → ℕ → Srv Bool
  neighbours_from zero i = pure false
  neighbours_from (suc left) i = do
    server ← get_state
    elim (get_elem? server.neighbours i) [
      | none ↦ neighbours_from left (suc i)
      | some c ↦ elim c.sock [
        | none ↦ neighbours_from left (suc i)
        | some fd ↦ do
          leaves ← handle_neighbour fd
          if leaves
              then (do
                alone ← handle_leave os i
                if alone then pure true else neighbours_from left (suc i))
              else neighbours_from left (suc i)
      ]
    ]

  unfoldable pub handle_neighbours : Srv Bool
  handle_neighbours = neighbours_from max_neighbours 0
