-- ===== src/Joint/Download.antt =====
-- A download: the machine that asks, the machine that has the file, and the client that asked.
use gnutella.Base.{
  ℕ, suc, ◌^◌, ◌<◌, ◌≡◌, refl, ◌∙◌, false, Bytes, codes, [], ◌∷◌, ◌++◌, append-nil, some, arith,
  length, str_eq,
}
use gnutella.Net.{Os, Fd, Net, ready, ok, update, receive, ask}
use gnutella.Net.Laws.{bind-ok, receive-some}
use gnutella.Wire.{read_byte, read_string, smsg_int_download, answer_code_remote_found}
use gnutella.Wire.Fields.{IsField, read_string-cons}
use gnutella.Cells.{live}
use gnutella.Server.State.{download_local, Server, DownloadRequest}
use gnutella.Server.Files.{find_file, listed, search_file}
use gnutella.Server.Files.Contents.{find-write_file, find-write_file-new}
use gnutella.Server.Loop.{await_keep}
use gnutella.Client.{Client, downloaded, handle_download_answer, handle_servent}
use gnutella.Joint.Upload.{download_request, file_reply, upload_run, upload_runs}
use gnutella.Joint.Fetch.{download_done, fetch_run, fetch_runs}

module _ (os : Os) (s : Client) (n : Net) (name : Bytes) (field : IsField name) where
  abbrev polled : Net
  polled = record n { clock = suc n.clock }

  hit : (f : Fd → Bytes) (bs : Bytes) → update f s.server_socket bs s.server_socket ≡ bs
  hit f bs = ground arith

  tells :
      (m : Net)
      → m.inbox s.server_socket ≡ answer_code_remote_found ∷ length name ∷ name
      → (m' : Net) × (handle_download_answer s m ≡ ok (downloaded name) s m')
  unfolding handle_download_answer
  tells m brings =
      let code : read_byte (m.inbox s.server_socket)
          ≡ some (answer_code_remote_found, length name ∷ name) =
        (unfold read_byte in rw brings refl) in
      let text : read_string (update m.inbox s.server_socket (length name ∷ name) s.server_socket)
          ≡ some (name, []) =
        rw (hit m.inbox (length name ∷ name)) (rw append-nil at (read_string-cons name [] field)) in
      (
        _,
        bind-ok (receive s.server_socket read_byte) _
              (receive-some s.server_socket read_byte s m code)
            ∙ bind-ok (receive s.server_socket read_string) _
                (receive-some s.server_socket read_string s _ text),
      )

  reports :
      os.poll n.clock s.server_socket ≡ ready
      → n.inbox s.server_socket ≡ download_done name
      → (m : Net) × (handle_servent os s n ≡ ok (downloaded name) s m)
  unfolding handle_servent
  reports polls brings =
      let asked : ask (λ t. os.poll t s.server_socket) s n ≡ ok ready s polled =
        (unfold ask in rw polls refl) in
      let opcode : read_byte (n.inbox s.server_socket)
          ≡ some (smsg_int_download, answer_code_remote_found ∷ length name ∷ name) =
        (unfold read_byte in rw brings refl) in
      let (m, told) =
        tells
          (record polled {
            inbox = update n.inbox s.server_socket (answer_code_remote_found ∷ length name ∷ name);
          })
          (hit n.inbox (answer_code_remote_found ∷ length name ∷ name)) in
      (
        m,
        bind-ok (ask (λ t. os.poll t s.server_socket)) _ asked
            ∙ bind-ok (receive s.server_socket read_byte) _
                (receive-some s.server_socket read_byte s polled opcode)
            ∙ told,
      )

-- A download, for a name that a length byte can announce and a content below 2 GiB, where each
-- side finds the bytes that another one writes. The server that asks has a neighbour, the request
-- of its client alone in its queue, no other download and not the file, reaches the other machine,
-- and finds the socket ready at every poll: it writes CMSG_DOWNLOAD, saves the file with that
-- content and no other file, has no request and no download left, and writes SMSG_INT_DOWNLOAD to
-- its client. The server that has the file has a neighbour and no other request and polls the
-- socket as ready: it takes the request from its waiting sockets, writes the file, closes the
-- socket, and changes no file. The client polls its server as ready and reports the download of
-- that name.
pub download-all :
    (os os' client_os : Os) (s c : Server) (client : Client) (n m k : Net) (d : DownloadRequest)
    (sock fd : Fd) (content : Bytes)
    → IsField d.filename
    → length content < 2 ^ 31
    → 0 < s.nb_neighbours
    → s.pending_requests ≡ live (download_local d ∷ [])
    → s.pending_downloads ≡ live []
    → str_eq (codes ".") d.filename ≡ false
    → str_eq (codes "..") d.filename ≡ false
    → listed d.filename n.disk ≡ false
    → os.connect n.clock d.ip d.port ≡ some sock
    → ((t : ℕ) → os.poll t sock ≡ ready)
    → n.inbox sock ≡ file_reply d.filename content
    → 0 < c.nb_neighbours
    → c.pending_requests ≡ live []
    → os'.poll m.clock fd ≡ ready
    → find_file d.filename m.disk ≡ some content
    → m.inbox fd ≡ download_request d.filename
    → client_os.poll k.clock client.server_socket ≡ ready
    → k.inbox client.server_socket ≡ download_done d.filename
    → ((n' : Net) × (fetch_run os s n
          ≡ ok tt (record s { pending_requests = live []; pending_downloads = live [] }) n')
        × (n'.sent
            ≡ (n.sent ++ (sock, download_request d.filename) ∷ [])
              ++ (s.client_socket, download_done d.filename) ∷ [])
        × (find_file d.filename n'.disk ≡ some content)
        × ((other : Bytes)
            → str_eq d.filename other ≡ false
            → find_file other n'.disk ≡ find_file other n.disk))
      × ((m' : Net) × (upload_run os' fd c m
            ≡ ok await_keep (record c { pending_requests = live [] }) m')
          × (m'.sent ≡ m.sent ++ (fd, file_reply d.filename content) ∷ [])
          × (m'.closed ≡ m.closed ++ fd ∷ [])
          × (m'.disk ≡ m.disk))
      × ((k' : Net) × (handle_servent client_os client k ≡ ok (downloaded d.filename) client k'))
download-all os os' client_os s c client n m k d sock fd content field size busy waits idle dot dots
      absent connects polls replied busy' idle' polls' found asked polls'' done =
    (
      (
        _,
        fetch_runs os d sock s n content field size busy waits idle lacks connects polls replied,
        refl,
        find-write_file-new d.filename content n.disk absent,
        λ other differs. find-write_file d.filename other content n.disk ∙ rw differs refl,
      ),
      (
        _,
        upload_runs os' fd c m d.filename content field size found busy' polls' idle' asked,
        refl,
        refl,
        refl,
      ),
      reports client_os client k d.filename field polls'' done,
    )
  where
    lacks : search_file d.filename s n ≡ ok false s n
    lacks = unfold search_file in rw (dot, dots, absent) refl
