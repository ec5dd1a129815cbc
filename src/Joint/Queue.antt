-- ===== src/Joint/Queue.antt =====
-- The server's side of the local socket: one packet of the client, taken by `handle_client`.
use gnutella.Base.{
  ℕ, suc, ◌≤◌, ◌≡◌, refl, ◌∙◌, true, false, Bytes, List, [], ◌∷◌, ◌++◌, append_assoc, some, arith,
  length,
}
use gnutella.Net.{Os, Fd, Net, ready, ok, update, receive, ask}
use gnutella.Net.Laws.{bind-ok, receive-some}
use gnutella.Wire.{
  >>=-some, read_byte, read_string, cmsg_int_search, cmsg_int_download, cmsg_int_exit,
}
use gnutella.Wire.Fields.{IsField, read_string-cons}
use gnutella.Cells.{live}
use gnutella.Server.State.{
  Server, Request, search_local, download_local, DownloadRequest, push_back, push_request, sockets,
}
use gnutella.Server.Packets.{leave_network, broadcast_packet, broadcast_packet_to}
use gnutella.Server.Readers.{read_download_fields}
use gnutella.Server.Search.{handle_local_search_request}
use gnutella.Server.Download.{handle_local_download_request}
use gnutella.Server.Main.{handle_client, initial_server}

-- The server of a machine without neighbours, with the client's socket and the requests that wait.
unfoldable pub serving : (listening_socket client_socket : Fd) → List Request → Server
unfolding initial_server
serving listening_socket client_socket requests = record (initial_server listening_socket) {
  client_socket = client_socket;
  handshake = true;
  pending_requests = live requests;
}

-- The socket has been read up to `rest`, and nothing was written.
pub record HasRead (fd : Fd) (rest : Bytes) (n n' : Net) : Type 0 where
  pub left : n'.inbox fd ≡ rest
  pub silent : n'.sent ≡ n.sent
  pub later : n.clock ≤ n'.clock

pub HasRead-trans :
    {fd : Fd} {rest rest' : Bytes} {n n' n'' : Net}
    → HasRead fd rest n n'
    → HasRead fd rest' n' n''
    → HasRead fd rest' n n''
HasRead-trans h k = record {
  left = k.left;
  silent = k.silent ∙ h.silent;
  later = omega (arith, h.later, k.later);
}

pub read_download_fields-cons :
    (ip port file rest : Bytes)
    → IsField ip
    → IsField port
    → IsField file
    → read_download_fields
        (((length ip ∷ ip) ++ ((length port ∷ port) ++ (length file ∷ file))) ++ rest)
      ≡ some (record { ip = ip; port = port; filename = file }, rest)
unfolding read_download_fields
read_download_fields-cons ip port file rest i p f =
    let split : ((length ip ∷ ip) ++ ((length port ∷ port) ++ (length file ∷ file))) ++ rest
        ≡ (length ip ∷ ip) ++ ((length port ∷ port) ++ ((length file ∷ file) ++ rest)) =
      rw (append_assoc, append_assoc) refl in
    rw split (
      >>=-some read_string _ (read_string-cons ip _ i)
      ∙ >>=-some read_string _ (read_string-cons port _ p)
      ∙ >>=-some read_string _ (read_string-cons file rest f))

module _ (os : Os) (l fd : Fd) (requests : List Request) (n : Net)
    (polls : os.poll n.clock fd ≡ ready) where
  abbrev polled : Net
  polled = record n { clock = suc n.clock }

  -- What is left to read behind the opcode, and behind the packet.
  abbrev opened : Bytes → Net
  opened payload = record polled { inbox = update n.inbox fd payload }

  abbrev taken : Bytes → Bytes → Net
  taken payload rest = record polled { inbox = update (update n.inbox fd payload) fd rest }

  hit : (f : Fd → Bytes) (bs : Bytes) → update f fd bs fd ≡ bs
  hit f bs = ground arith

  asks : (s : Server) → ask (λ t. os.poll t fd) s n ≡ ok ready s polled
  asks s = unfold ask in rw polls refl

  first_byte :
      {b : ℕ} {rest : Bytes} → n.inbox fd ≡ b ∷ rest → read_byte (polled.inbox fd) ≡ some (b, rest)
  first_byte e = unfold read_byte in rw e refl

  opens :
      (s : Server) {b : ℕ} {rest : Bytes}
      → n.inbox fd ≡ b ∷ rest
      → receive fd read_byte s polled ≡ ok b s (opened rest)
  opens s e = receive-some fd read_byte s polled (first_byte e)

  HasRead-taken : (payload rest : Bytes) → HasRead fd rest n (taken payload rest)
  HasRead-taken payload rest = record {
    left = hit (update n.inbox fd payload) rest;
    silent = refl;
    later = omega arith;
  }

  pub handle_client-search :
      (name rest : Bytes)
      → IsField name
      → n.inbox fd ≡ cmsg_int_search ∷ ((length name ∷ name) ++ rest)
      → (n' : Net) × (handle_client os (serving l fd requests) n
          ≡ ok false (serving l fd (requests ++ search_local name ∷ [])) n')
        × HasRead fd rest n n'
  unfolding handle_client serving
  handle_client-search name rest f brings =
      let payload : Bytes = (length name ∷ name) ++ rest in
      let reads : read_string ((opened payload).inbox fd) ≡ some (name, rest) =
        rw (hit n.inbox payload) (read_string-cons name rest f) in
      let queues : handle_local_search_request os (serving l fd requests) (opened payload)
          ≡ ok tt (serving l fd (requests ++ search_local name ∷ [])) (taken payload rest) =
        (unfold handle_local_search_request in
          unfold push_request in
          unfold push_back in
          bind-ok (receive fd read_string) _
            (receive-some fd read_string (serving l fd requests) (opened payload) reads)) in
      (
        taken payload rest,
        bind-ok (ask (λ t. os.poll t fd)) _ (asks (serving l fd requests))
            ∙ bind-ok (receive fd read_byte) _ (opens (serving l fd requests) brings)
            ∙ bind-ok (handle_local_search_request os) _ queues,
        HasRead-taken payload rest,
      )

  pub handle_client-download :
      (ip port file rest : Bytes)
      → IsField ip
      → IsField port
      → IsField file
      → n.inbox fd
        ≡ cmsg_int_download
          ∷ (((length ip ∷ ip) ++ ((length port ∷ port) ++ (length file ∷ file))) ++ rest)
      → (n' : Net) × (handle_client os (serving l fd requests) n
          ≡ ok false
              (serving l fd (
                requests ++ download_local (record { ip = ip; port = port; filename = file }) ∷ []))
              n')
        × HasRead fd rest n n'
  unfolding handle_client serving
  handle_client-download ip port file rest i p f brings =
      let payload : Bytes =
        ((length ip ∷ ip) ++ ((length port ∷ port) ++ (length file ∷ file))) ++ rest in
      let d : DownloadRequest = record { ip = ip; port = port; filename = file } in
      let reads : read_download_fields ((opened payload).inbox fd) ≡ some (d, rest) =
        rw (hit n.inbox payload) (read_download_fields-cons ip port file rest i p f) in
      let queues : handle_local_download_request (serving l fd requests) (opened payload)
          ≡ ok tt (serving l fd (requests ++ download_local d ∷ [])) (taken payload rest) =
        (unfold handle_local_download_request in
          unfold push_request in
          unfold push_back in
          bind-ok (receive fd read_download_fields) _ (
            receive-some fd read_download_fields (serving l fd requests) (opened payload) reads)) in
      (
        taken payload rest,
        bind-ok (ask (λ t. os.poll t fd)) _ (asks (serving l fd requests))
            ∙ bind-ok (receive fd read_byte) _ (opens (serving l fd requests) brings)
            ∙ bind-ok handle_local_download_request _ queues,
        HasRead-taken payload rest,
      )

  -- The client leaves; there is no neighbour to tell.
  pub handle_client-exit :
      (rest : Bytes)
      → n.inbox fd ≡ cmsg_int_exit ∷ rest
      → (n' : Net) × (handle_client os (serving l fd requests) n
          ≡ ok true (serving l fd requests) n')
        × HasRead fd rest n n'
  unfolding handle_client serving initial_server leave_network broadcast_packet broadcast_packet_to
      sockets
  handle_client-exit rest brings = (
    opened rest,
    bind-ok (ask (λ t. os.poll t fd)) _ (asks (serving l fd requests))
        ∙ bind-ok (receive fd read_byte) _ (opens (serving l fd requests) brings),
    record { left = hit n.inbox rest; silent = refl; later = omega arith },
  )
