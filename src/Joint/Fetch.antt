-- ===== src/Joint/Fetch.antt =====
-- The machine that asks for a file: the request of its client is answered by a connection to the
-- other machine, and the file that comes over it is saved.
use gnutella.Base.{
  ◌==◌, ℕ, suc, ◌^◌, ◌<◌, ◌≡◌, refl, ◌∙◌, true, false, Bytes, [], ◌∷◌, ◌++◌, append-nil, some,
  arith, length,
}
use gnutella.Net.{Os, Fd, Net, ready, ok, ◌>>◌, update, receive, ask, assert}
use gnutella.Net.Laws.{bind-ok, receive-some}
use gnutella.Wire.{read_byte, smsg_download, smsg_int_download, answer_code_remote_found}
use gnutella.Wire.Fields.{IsField, c_str_lem}
use gnutella.Cells.{live, swept, all_removed}
use gnutella.Server.State.{
  download_local, Server, Srv, DownloadRequest, push_back, push_download, members,
}
use gnutella.Server.Files.{search_file, save_file, write_file}
use gnutella.Server.Readers.{read_file_fields}
use gnutella.Server.Join.Answers.{transmit-some}
use gnutella.Server.Download.{answer_local_download_request, handle_remote_download_answer}
use gnutella.Server.Download.RoundTrip.{
  file_payload, read_file-bytes, cmsg_download-bytes, download_done-bytes,
}
use gnutella.Server.Relay.Flow.{members-live}
use gnutella.Server.Loop.{visit, settle}
use gnutella.Server.Main.{
  handle_pending_request, handle_pending_requests, handle_pending_download,
  handle_pending_downloads,
}
use gnutella.Joint.Upload.{see_to_requests, download_request, file_reply}

-- SMSG_INT_DOWNLOAD for a file that came.
abbrev pub download_done : Bytes → Bytes
download_done name = smsg_int_download ∷ answer_code_remote_found ∷ length name ∷ name

-- The requests that wait, then the sockets of the downloads.
unfoldable pub fetch_run : Os → Srv (Unit {0})
fetch_run os = do see_to_requests os; handle_pending_downloads os

module _ (os : Os) (d : DownloadRequest) (sock : Fd) (s : Server) (n : Net) (content : Bytes)
    (field : IsField d.filename) (size : length content < 2 ^ 31) where
  abbrev expecting : Server
  expecting = record s { pending_downloads = live (sock ∷ []) }

  abbrev asked : Net
  asked = record n {
    clock = suc n.clock;
    sent = n.sent ++ (sock, download_request d.filename) ∷ [];
  }

  requests :
      s.pending_downloads ≡ live []
      → search_file d.filename s n ≡ ok false s n
      → os.connect n.clock d.ip d.port ≡ some sock
      → answer_local_download_request os d s n ≡ ok tt expecting asked
  unfolding answer_local_download_request push_download push_back
  requests idle absent connects =
      let connected : ask (λ t. os.connect t d.ip d.port) s n
          ≡ ok (some sock) s (record n { clock = suc n.clock }) =
        unfold ask in rw connects refl in
      bind-ok (search_file d.filename) _ absent
      ∙ bind-ok (ask (λ t. os.connect t d.ip d.port)) _ connected
      ∙ rw idle (
          transmit-some sock expecting (record n { clock = suc n.clock })
            (cmsg_download-bytes d.filename field.short))

  abbrev came : Net
  came = record asked {
    clock = suc (suc n.clock);
    inbox =
        update
          (update (update n.inbox sock (answer_code_remote_found ∷ file_payload d.filename content))
            sock (file_payload d.filename content))
          sock [];
    disk = write_file d.filename content n.disk;
    sent = asked.sent ++ (s.client_socket, download_done d.filename) ∷ [];
  }

  abbrev heard : Net
  heard = record asked { clock = suc (suc n.clock) }

  abbrev opened : Bytes → Net
  opened bs = record heard { inbox = update n.inbox sock bs }

  hit : (f : Fd → Bytes) (bs : Bytes) → update f sock bs sock ≡ bs
  hit f bs = ground arith

  saves :
      (m : Net)
      → m.inbox sock ≡ answer_code_remote_found ∷ file_payload d.filename content
      → handle_remote_download_answer sock expecting m
        ≡ ok tt expecting (record m {
          inbox = update (update m.inbox sock (file_payload d.filename content)) sock [];
          disk = write_file d.filename content m.disk;
          sent = m.sent ++ (s.client_socket, download_done d.filename) ∷ [];
        })
  unfolding handle_remote_download_answer save_file
  saves m brings =
      let payload : Bytes = file_payload d.filename content in
      let code : read_byte (m.inbox sock) ≡ some (answer_code_remote_found, payload) =
        (unfold read_byte in rw brings refl) in
      let file : read_file_fields (update m.inbox sock payload sock)
          ≡ some ((d.filename, content), []) =
        rw (hit m.inbox payload)
          (rw append-nil at (read_file-bytes d.filename content field.short size [])) in
      bind-ok (receive sock read_byte) _ (receive-some sock read_byte expecting m code)
      ∙ bind-ok (receive sock read_file_fields) _
          (receive-some sock read_file_fields expecting _ file)
      ∙ rw (c_str_lem d.filename field.text)
          (transmit-some s.client_socket expecting _ (download_done-bytes d.filename field))

  ends :
      ((t : ℕ) → os.poll t sock ≡ ready)
      → n.inbox sock ≡ file_reply d.filename content
      → handle_pending_download os sock expecting asked ≡ ok true expecting came
  unfolding handle_pending_download assert
  ends polls brings =
      let event : ask (λ t. os.poll t sock) expecting asked ≡ ok ready expecting heard =
        (unfold ask in rw polls refl) in
      let payload : Bytes = answer_code_remote_found ∷ file_payload d.filename content in
      let opcode : read_byte (n.inbox sock) ≡ some (smsg_download, payload) =
        (unfold read_byte in rw brings refl) in
      bind-ok (ask (λ t. os.poll t sock)) _ event
      ∙ bind-ok (receive sock read_byte) _ (receive-some sock read_byte expecting heard opcode)
      ∙ bind-ok (handle_remote_download_answer sock) _
          (saves (opened payload) (hit n.inbox payload))

module _ (os : Os) (d : DownloadRequest) (sock : Fd) (s : Server) (n : Net) (content : Bytes)
    (field : IsField d.filename) (size : length content < 2 ^ 31) where
  -- The server without the request.
  abbrev relieved : Server
  relieved = record s { pending_requests = live [] }

  sees_to :
      0 < s.nb_neighbours
      → s.pending_requests ≡ live (download_local d ∷ [])
      → s.pending_downloads ≡ live []
      → search_file d.filename s n ≡ ok false s n
      → os.connect n.clock d.ip d.port ≡ some sock
      → see_to_requests os s n
        ≡ ok tt
            (expecting os d sock relieved n content field size)
            (asked os d sock s n content field size)
  unfolding see_to_requests handle_pending_requests handle_pending_request visit settle swept
      all_removed
  sees_to neighbours waits idle absent connects =
      let some_neighbour : (s.nb_neighbours == 0) ≡ false = ground arith in
      rw some_neighbour (
        bind-ok (members s.pending_requests) _ (members-live waits s n)
        ∙ rw (requests os d sock s n content field size idle absent connects) refl)

  pub fetch_runs :
      0 < s.nb_neighbours
      → s.pending_requests ≡ live (download_local d ∷ [])
      → s.pending_downloads ≡ live []
      → search_file d.filename s n ≡ ok false s n
      → os.connect n.clock d.ip d.port ≡ some sock
      → ((t : ℕ) → os.poll t sock ≡ ready)
      → n.inbox sock ≡ file_reply d.filename content
      → fetch_run os s n
        ≡ ok tt
            (record s { pending_requests = live []; pending_downloads = live [] })
            (came os d sock s n content field size)
  unfolding fetch_run handle_pending_downloads visit members settle swept all_removed
  fetch_runs neighbours waits idle absent connects polls brings =
      bind-ok (see_to_requests os) _ (sees_to neighbours waits idle absent connects)
      ∙ rw (ends os d sock relieved n content field size polls brings) refl
