-- ===== src/Client/Run/Answers.antt =====
-- The client writes nothing while it reads the servent's packets, and one packet when it ends.
use gnutella.Base.{not, ◌==◌, [], ◌∷◌, if◌then◌else◌}
use gnutella.Net.{Os, Fd, Poll, timeout, ready, failed, ◌>>=◌, ◌>>◌, pure, receive}
use gnutella.Wire.{
  byte, read_byte, read_string, cmsg_int_exit, smsg_int_search, smsg_int_download,
  answer_code_remote_found,
}
use gnutella.Server.Readers.{read_download_fields}
use gnutella.Client.{
  Client, nothing, downloaded, handle_search_answer, handle_download_answer, download_report,
  handle_servent, clear_client,
}
use gnutella.Client.Records.{record_answer, read_client_answer}
use gnutella.Client.Run.Writes.{
  Writes, Writes-bind, Writes-pure, Writes-get, Writes-put, Writes-ask, Writes-close, Writes-send,
  Writes-receive, Writes-if,
}

module _ {fd : Fd} where
  handle_search_answer-Writes : Writes fd [] (λ _. Unit) handle_search_answer
  unfolding handle_search_answer
  handle_search_answer-Writes = Writes-bind Writes-get λ s at.
      Writes-bind (Writes-receive s.server_socket read_client_answer) λ found _.
        Writes-put
          (record s { machines_by_files = record_answer found.0 found.1 s.machines_by_files }) at

  handle_download_answer-Writes : Writes fd [] (λ _. Unit) handle_download_answer
  unfolding handle_download_answer
  handle_download_answer-Writes = Writes-bind Writes-get λ s at.
      Writes-bind (Writes-receive s.server_socket read_byte) λ code _.
        Writes-if (not (code == answer_code_remote_found))
          (Writes-bind (Writes-receive s.server_socket read_download_fields)
            λ d _. Writes-pure (download_report code d) tt)
          (Writes-bind (Writes-receive s.server_socket read_string)
            λ name _. Writes-pure (downloaded name) tt)

  pub handle_servent-Writes : (os : Os) → Writes fd [] (λ _. Unit) (handle_servent os)
  unfolding handle_servent
  handle_servent-Writes os =
      Writes-bind Writes-get λ s at.
        Writes-bind (Writes-ask (λ t. os.poll t s.server_socket)) λ event _. by_event s event
    where
      by_event :
          (s : Client) (event : Poll)
          → Writes fd []
              (λ _. Unit)
              (elim event [
                | ready ↦ receive s.server_socket read_byte >>= λ opcode.
                    if opcode == smsg_int_search
                    then handle_search_answer >> pure nothing
                    else if opcode == smsg_int_download
                    then handle_download_answer
                    else pure nothing
                | _ ↦ pure nothing
              ])
      by_event s timeout = Writes-pure nothing tt
      by_event s failed = Writes-pure nothing tt
      by_event s ready = Writes-bind (Writes-receive s.server_socket read_byte) λ opcode _.
          Writes-if (opcode == smsg_int_search)
            (Writes-bind handle_search_answer-Writes λ _ _. Writes-pure nothing tt)
            (Writes-if (opcode == smsg_int_download) handle_download_answer-Writes
              (Writes-pure nothing tt))

  pub clear_client-Writes : Writes fd ((fd, byte cmsg_int_exit) ∷ []) (λ _. Unit) clear_client
  unfolding clear_client
  clear_client-Writes = Writes-bind Writes-get λ s at.
      Writes-bind (Writes-send s.server_socket (byte cmsg_int_exit) at) λ _ _.
        Writes-bind (Writes-close s.server_socket)
          λ _ _. Writes-put (record s { machines_by_files = [] }) at
