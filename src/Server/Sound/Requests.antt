-- ===== src/Server/Sound/Requests.antt =====
-- The invariant through the packet handlers and the answers to requests (server_requests.c,
-- server_user.c).
use gnutella.Base.{ℕ, ◌+◌, Bytes, List, [], ◌∷◌, Option, none, some, length, Option-cases, inl, inr}
use gnutella.Net.{Os, Fd}
use gnutella.Net.Invariants.{
  Keeps, Keeps-bind, Keeps-if, Keeps-pure, Keeps-get, Keeps-ask, Keeps-receive, Keeps-assert,
  Keeps-close, Keeps-transmit, Keeps-stop,
}
use gnutella.Wire.{read_byte, read_string}
use gnutella.Server.State.{
  Server, Srv, Block, SearchRequest, DownloadRequest, Request, search_local, search_remote,
  download_local, download_remote,
}
use gnutella.Server.Files.{
  FileRead, whole, overrun, unfinished, search_file, save_file, find_file, read_chunks,
}
use gnutella.Server.Readers.{
  CString, closed, unclosed, read_search_request, read_search_answer, read_download_fields,
  read_file_fields,
}
use gnutella.Server.Search.{
  handle_remote_search_request, handle_local_search_request, strlen_read, machines_read,
  send_search_answer_to_client, forward_to_local, handle_remote_search_answer,
}
use gnutella.Server.Relay.{
  built, answer_local_search_request, relay_request, answer_remote_search_request,
}
use gnutella.Server.Download.{
  handle_local_download_request, handle_remote_download_request, send_download_error_response,
  answer_local_download_request, file_content, answer_remote_download_request,
  handle_remote_download_answer,
}
use gnutella.Server.Main.{handle_pending_request}
use gnutella.Server.Sound.{
  IsSound, push_request-IsSound, push_download-IsSound, Keeps-broadcast_to, Keeps-broadcast,
  Keeps-members, Keeps-free_block, Keeps-read_self_ip,
}

module _ {P : Server → Type 0} where
  Keeps-search_file : (name : Bytes) → Keeps P (search_file name)
  unfolding search_file
  Keeps-search_file name = record { after = λ s n p. p }

  Keeps-save_file : (name content : Bytes) → Keeps P (save_file name content)
  unfolding save_file
  Keeps-save_file name content = record { after = λ s n p. p }

  Keeps-built : (packet : Option Bytes) → Keeps P (built packet)
  Keeps-built none = Keeps-stop _
  Keeps-built (some bs) = Keeps-pure bs

  Keeps-strlen_read : (c : CString) → Keeps P (strlen_read c)
  unfolding strlen_read
  Keeps-strlen_read (closed t) = Keeps-pure t
  Keeps-strlen_read (unclosed t) = Keeps-if _ (Keeps-pure _) (Keeps-stop _)

  Keeps-machines_read : (ms : List (CString × CString)) → Keeps P (machines_read ms)
  unfolding machines_read
  Keeps-machines_read [] = Keeps-pure []
  Keeps-machines_read ((ip, port) ∷ ms) = Keeps-bind (Keeps-strlen_read ip) λ i.
      Keeps-bind (Keeps-strlen_read port)
        λ p. Keeps-bind (Keeps-machines_read ms) λ rest. Keeps-pure _

  Keeps-search_answer :
      (name : Bytes) (ms : List (CString × CString)) (b : Block)
      → Keeps P (send_search_answer_to_client name ms b)
  unfolding send_search_answer_to_client
  Keeps-search_answer name ms b = Keeps-bind Keeps-get λ s.
      Keeps-bind (Keeps-machines_read ms)
        λ texts. Keeps-bind (Keeps-transmit _ _) λ _. Keeps-free_block b

  pub Keeps-handle_search_answer : (fd : Fd) → Keeps P (handle_remote_search_answer fd)
  unfolding handle_remote_search_answer
  Keeps-handle_search_answer fd =
      Keeps-bind (Keeps-receive fd read_search_answer)
        λ (name, ms). Keeps-bind (Keeps-search_answer name ms _) λ _. Keeps-pure tt

  Keeps-download_error :
      (d : DownloadRequest) (code : ℕ) → Keeps P (send_download_error_response d code)
  unfolding send_download_error_response
  Keeps-download_error d code = Keeps-bind Keeps-get λ s. Keeps-transmit _ _

  pub Keeps-handle_download_answer : (fd : Fd) → Keeps P (handle_remote_download_answer fd)
  unfolding handle_remote_download_answer
  Keeps-handle_download_answer fd = Keeps-bind (Keeps-receive fd read_byte) λ answer.
      Keeps-if _ (Keeps-bind (Keeps-receive fd read_download_fields) λ d. Keeps-download_error d _)
        (Keeps-bind (Keeps-receive fd read_file_fields) λ (name, content).
          Keeps-bind (Keeps-save_file _ content) λ _. Keeps-bind Keeps-get λ s. Keeps-transmit _ _)

  module _ (os : Os) where
    Keeps-answer_local_search : (name : Bytes) → Keeps P (answer_local_search_request os name)
    unfolding answer_local_search_request
    Keeps-answer_local_search name = Keeps-bind (Keeps-search_file name) λ found.
        Keeps-bind Keeps-get λ s. Keeps-bind (Keeps-read_self_ip s.self_ip) λ ip.
          Keeps-if found (Keeps-transmit _ _)
            (Keeps-bind (Keeps-built _) λ packet. Keeps-broadcast packet)

    Keeps-forward : (r : SearchRequest) → Keeps P (forward_to_local r)
    unfolding forward_to_local
    Keeps-forward r =
        Keeps-bind (Keeps-search_answer _ _ _)
          λ b. Keeps-bind (Keeps-free_block b) λ _. Keeps-pure tt

    Keeps-relay : (ip : Bytes) (r : SearchRequest) → Keeps P (relay_request os ip r)
    unfolding relay_request
    Keeps-relay ip r = Keeps-bind Keeps-get λ s.
        Keeps-bind (Keeps-members s.received_search_requests) λ log.
          Keeps-bind (Keeps-assert _) λ _. Keeps-bind (Keeps-search_file r.filename) λ found.
            Keeps-bind (Keeps-built _) λ packet. Keeps-bind (Keeps-ask _) λ stale.
              Keeps-bind (Keeps-broadcast_to _ packet)
                λ _. Keeps-bind (Keeps-free_block r.arrays) λ _. Keeps-pure tt

    Keeps-answer_remote_search : (r : SearchRequest) → Keeps P (answer_remote_search_request os r)
    unfolding answer_remote_search_request
    Keeps-answer_remote_search r = Keeps-bind Keeps-get λ s.
        Keeps-bind (Keeps-read_self_ip s.self_ip)
          λ ip. Keeps-if _ (Keeps-forward r) (Keeps-relay ip r)

    by_read :
        {A : Type 0} (r : FileRead) {c : Bytes → Srv A} {d e : Srv A}
        → ((bs : Bytes) → Keeps P (c bs))
        → Keeps P d
        → Keeps P e
        → Keeps P (λ s n. elim r [ whole bs ↦ c bs s n | overrun ↦ d s n | unfinished ↦ e s n ])
    by_read (whole bs) h k l = record { after = (h bs).after }
    by_read overrun h k l = record { after = k.after }
    by_read unfinished h k l = record { after = l.after }

    Keeps-file_content : (name : Bytes) → Keeps P (file_content os name)
    unfolding file_content
    Keeps-file_content name = record {
      after = λ s n p. elim (Option-cases (find_file name n.disk)) [
        | inl e ↦ rw (e, file_content) tt
        | inr (file, e) ↦
            rw (e, file_content)
              ((by_read (read_chunks (length file + 1) file []) (λ bs. Keeps-pure bs) (Keeps-stop _)
                  (Keeps-stop _)).after
                s n p)
      ];
    }

    Keeps-answer_remote_download :
        (fd : Fd) (name : Bytes) → Keeps P (answer_remote_download_request os fd name)
    unfolding answer_remote_download_request
    Keeps-answer_remote_download fd name = Keeps-bind (Keeps-search_file name) λ found.
        Keeps-if found
          (Keeps-bind (Keeps-file_content name)
            λ content. Keeps-bind (Keeps-transmit fd _) λ _. Keeps-close fd)
          (Keeps-bind (Keeps-transmit fd _) λ _. Keeps-close fd)

module _ (os : Os) where
  pub handle_search_request-IsSound : (fd : Fd) → Keeps IsSound (handle_remote_search_request os fd)
  unfolding handle_remote_search_request
  handle_search_request-IsSound fd =
      Keeps-bind (Keeps-receive fd read_search_request)
        λ f. Keeps-bind (Keeps-ask _) λ stale. push_request-IsSound _

  pub handle_local_search-IsSound : Keeps IsSound (handle_local_search_request os)
  unfolding handle_local_search_request
  handle_local_search-IsSound =
      Keeps-bind Keeps-get
        λ s. Keeps-bind (Keeps-receive _ read_string) λ name. push_request-IsSound _

  pub handle_local_download-IsSound : Keeps IsSound handle_local_download_request
  unfolding handle_local_download_request
  handle_local_download-IsSound =
      Keeps-bind Keeps-get
        λ s. Keeps-bind (Keeps-receive _ read_download_fields) λ d. push_request-IsSound _

  pub handle_remote_download-IsSound : (fd : Fd) → Keeps IsSound (handle_remote_download_request fd)
  unfolding handle_remote_download_request
  handle_remote_download-IsSound fd =
      Keeps-bind (Keeps-receive fd read_string) λ name. push_request-IsSound _

  answer_local_download-IsSound :
      (d : DownloadRequest) → Keeps IsSound (answer_local_download_request os d)
  unfolding answer_local_download_request
  answer_local_download-IsSound d = Keeps-bind (Keeps-search_file d.filename) λ here.
      Keeps-if here (Keeps-download_error d _) (
        Keeps-bind (Keeps-ask _) (elim [
          | none ↦ Keeps-download_error d _
          | some sock ↦ Keeps-bind (push_download-IsSound sock) λ _. Keeps-transmit sock _
        ]))

  pub handle_pending_request-IsSound : (r : Request) → Keeps IsSound (handle_pending_request os r)
  unfolding handle_pending_request
  handle_pending_request-IsSound (search_local name) = Keeps-answer_local_search os name
  handle_pending_request-IsSound (search_remote r) = Keeps-answer_remote_search os r
  handle_pending_request-IsSound (download_local d) = answer_local_download-IsSound d
  handle_pending_request-IsSound (download_remote fd name) = Keeps-answer_remote_download os fd name
