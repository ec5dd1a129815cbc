-- ===== src/Joint/Upload.antt =====
-- The machine that has the file: the request for a download is taken from the waiting sockets,
-- queued, and answered with the file.
use gnutella.Base.{
  if◌then◌else◌, ◌==◌, false, suc, ◌+◌, ◌^◌, ◌<◌, ◌≡◌, refl, ◌∙◌, true, Bytes, [], ◌∷◌, ◌++◌,
  append-nil, some, arith, length,
}
use gnutella.Net.{
  skip, get_state, Os, Fd, Net, ready, ok, pure, ◌>>=◌, ◌>>◌, update, receive, transmit, close, ask,
}
use gnutella.Net.Laws.{bind-ok, receive-some}
use gnutella.Wire.{read_byte, read_string, cmsg_download, smsg_download, answer_code_remote_found}
use gnutella.Wire.Fields.{IsField, read_string-cons}
use gnutella.Cells.{live, swept, all_removed}
use gnutella.Server.State.{Server, Srv, download_remote, push_back, push_request, members}
use gnutella.Server.Files.{find_file, search_file}
use gnutella.Server.Files.Contents.{read_chunks-whole, listed-found}
use gnutella.Server.Join.Answers.{transmit-some}
use gnutella.Server.Download.{
  file_content, file_packet, handle_remote_download_request, answer_remote_download_request,
}
use gnutella.Server.Download.RoundTrip.{file_payload, file_packet-bytes}
use gnutella.Server.Loop.{Await, await_keep, handle_awaiting_socket, visit, settle}
use gnutella.Server.Main.{handle_pending_request, handle_pending_requests}

-- CMSG_DOWNLOAD, and SMSG_DOWNLOAD with a file.
abbrev pub download_request : Bytes → Bytes
download_request name = cmsg_download ∷ length name ∷ name

abbrev pub file_reply : (name content : Bytes) → Bytes
file_reply name content = smsg_download ∷ answer_code_remote_found ∷ file_payload name content

-- The requests that wait, as `loop` sees to them: only with a neighbour.
unfoldable pub see_to_requests : Os → Srv (Unit {0})
see_to_requests os = do
  server ← get_state
  if server.nb_neighbours == 0 then skip else handle_pending_requests os

-- The socket that brings the request, then the requests that wait.
unfoldable pub upload_run : Os → Fd → Srv Await
upload_run os fd = do kept ← handle_awaiting_socket os fd; see_to_requests os; pure kept

module _ (os : Os) (fd : Fd) (s : Server) (n : Net) (name content : Bytes) (field : IsField name)
    (size : length content < 2 ^ 31) (found : find_file name n.disk ≡ some content) where
  abbrev read_up : Net
  read_up = record n {
    clock = suc n.clock;
    inbox = update (update n.inbox fd (length name ∷ name)) fd [];
  }

  abbrev queued : Server
  queued = record s { pending_requests = live (download_remote fd name ∷ []) }

  hit : (f : Fd → Bytes) (bs : Bytes) → update f fd bs fd ≡ bs
  hit f bs = ground arith

  queues :
      s.pending_requests ≡ live []
      → handle_remote_download_request fd s
          (record n { clock = suc n.clock; inbox = update n.inbox fd (length name ∷ name) })
        ≡ ok tt queued read_up
  unfolding handle_remote_download_request push_request push_back
  queues idle =
      let text : read_string (update n.inbox fd (length name ∷ name) fd) ≡ some (name, []) =
        rw (hit n.inbox (length name ∷ name)) (rw append-nil at (read_string-cons name [] field)) in
      bind-ok (receive fd read_string) _ (receive-some fd read_string s _ text) ∙ rw idle refl

  takes :
      os.poll n.clock fd ≡ ready
      → s.pending_requests ≡ live []
      → n.inbox fd ≡ download_request name
      → handle_awaiting_socket os fd s n ≡ ok await_keep queued read_up
  unfolding handle_awaiting_socket
  takes polls idle brings =
      let asked : ask (λ t. os.poll t fd) s n ≡ ok ready s (record n { clock = suc n.clock }) =
        unfold ask in rw polls refl in
      let opens : read_byte (n.inbox fd) ≡ some (cmsg_download, length name ∷ name) =
        unfold read_byte in rw brings refl in
      bind-ok (ask (λ t. os.poll t fd)) _ asked
      ∙ bind-ok (receive fd read_byte) _ (receive-some fd read_byte s _ opens)
      ∙ bind-ok (handle_remote_download_request fd) _ (queues idle)

  module _ (t : Server) (m : Net) (same : m.disk ≡ n.disk) where
    here : search_file name t m ≡ ok true t m
    unfolding search_file
    here = rw (same, listed-found name n.disk found) (ground arith)

    reads : file_content os name t m ≡ ok content t m
    unfolding file_content
    reads =
        let there : find_file name m.disk ≡ some content = rw same found in
        rw (there, file_content)
          (rw (read_chunks-whole (length content + 1) content (omega arith) (omega arith)) refl)

    answers :
        answer_remote_download_request os fd name t m
        ≡ ok tt t (record m {
          sent = m.sent ++ (fd, file_reply name content) ∷ [];
          closed = m.closed ++ fd ∷ [];
        })
    unfolding answer_remote_download_request close
    answers =
        bind-ok (search_file name) _ here
        ∙ bind-ok (file_content os name) _ reads
        ∙ bind-ok (transmit fd (file_packet name content)) _
            (transmit-some fd t m (file_packet-bytes name content field.short size))

  pub upload_runs :
      0 < s.nb_neighbours
      → os.poll n.clock fd ≡ ready
      → s.pending_requests ≡ live []
      → n.inbox fd ≡ download_request name
      → upload_run os fd s n
        ≡ ok await_keep
            (record s { pending_requests = live [] })
            (record read_up {
              sent = n.sent ++ (fd, file_reply name content) ∷ [];
              closed = n.closed ++ fd ∷ [];
            })
  unfolding upload_run see_to_requests handle_pending_requests handle_pending_request visit members
      settle swept all_removed
  upload_runs neighbours polls idle brings =
      let some_neighbour : (s.nb_neighbours == 0) ≡ false = ground arith in
      bind-ok (handle_awaiting_socket os fd) _ (takes polls idle brings)
      ∙ rw (some_neighbour, answers queued read_up refl) refl
