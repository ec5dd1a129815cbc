-- ===== src/Server/Download.antt =====
-- Downloads (server_requests.c, server_user.c): the request of the local client, the upload to
-- another machine, and the answer that ends a download.
pub mod RoundTrip
use gnutella.Base.{
  ℕ, ◌+◌, ◌%◌, ◌^◌, Bool, true, false, Bytes, List, [], ◌∷◌, ◌++◌, Option, none, some, length,
  if◌then◌else◌, ◌==◌, take,
}
use gnutella.Net.{
  Os, Fd, Net, indeterminate, overflow, out_of_fuel, ok, skip, pure, stop, ◌>>=◌, ◌>>◌, get_state,
  put_state, receive, send, transmit, close, ask,
}
use gnutella.Wire.{
  pack, byte, string_field, read_byte, read_string, c_str, cmsg_download, smsg_download,
  smsg_int_download, answer_code_local, answer_code_remote_offline, answer_code_remote_not_found,
  answer_code_remote_found, inet6_addrstrlen,
}
use gnutella.Util.{int_to_string}
use gnutella.Server.State.{
  Server, Srv, DownloadRequest, Request, download_local, download_remote, push_download,
  push_request,
}
use gnutella.Server.Files.{
  whole, overrun, unfinished, Disk, find_file, search_file, read_chunks, save_file,
}
use gnutella.Server.Readers.{read_download_fields, read_file_fields, uint32_bytes}

-- `handle_local_download_request`
unfoldable pub handle_local_download_request : Srv (Unit {0})
handle_local_download_request = do
  server ← get_state
  d ← receive server.client_socket read_download_fields
  push_request (download_local d)

-- `handle_remote_download_request`
unfoldable pub handle_remote_download_request : Fd → Srv (Unit {0})
handle_remote_download_request sock = do
  name ← receive sock read_string
  push_request (download_remote sock name)

-- `send_download_error_response` with `build_download_answer_header`: SMSG_INT_DOWNLOAD.
unfoldable pub download_error_packet : DownloadRequest → ℕ → Option Bytes
download_error_packet d code =
    pack (1 + 1 + length d.filename + 1 + length d.ip + 1 + length d.port + 1) (
      byte smsg_int_download ∷ byte code ∷ string_field d.ip
      ++ (string_field d.port ++ string_field d.filename))

unfoldable pub send_download_error_response : DownloadRequest → ℕ → Srv (Unit {0})
send_download_error_response d code = do
  server ← get_state
  transmit server.client_socket (download_error_packet d code)

-- CMSG_DOWNLOAD
unfoldable pub cmsg_download_packet : Bytes → Option Bytes
cmsg_download_packet filename =
    pack (1 + 1 + length filename) (byte cmsg_download ∷ string_field filename)

-- SMSG_DOWNLOAD for a file that is not here.
unfoldable pub not_found_packet : (ip port filename : Bytes) → Option Bytes
not_found_packet ip port filename =
    pack (1 + 1 + inet6_addrstrlen + 1 + 5 + 1 + length filename + 1) (
      byte smsg_download
      ∷ byte answer_code_remote_not_found
      ∷ byte (length ip)
      ∷ ip
      ∷ byte (length port)
      ∷ port
      ∷ byte (length filename)
      ∷ filename
      ∷ [])

-- SMSG_DOWNLOAD with the file; its length is kept in a `uint32_t`.
unfoldable pub file_packet : (filename content : Bytes) → Option Bytes
file_packet filename content = pack (1 + 1 + 1 + length filename + 4 + length content % 2 ^ 32) (
    byte smsg_download ∷ byte answer_code_remote_found ∷ string_field filename
    ++ (uint32_bytes (length content % 2 ^ 32) ∷ take (length content % 2 ^ 32) content ∷ []))

-- The last packet of `handle_remote_download_answer`: the block is measured by `strlen`, and the
-- name is written as long as it came.
unfoldable pub download_done_packet : (name : Bytes) → Option Bytes
download_done_packet name =
    pack (1 + 1 + 1 + length (c_str name))
      (byte smsg_int_download ∷ byte answer_code_remote_found ∷ byte (length name) ∷ name ∷ [])

module _ (os : Os) where
  unfoldable pub answer_local_download_request : DownloadRequest → Srv (Unit {0})
  answer_local_download_request d = do
    here ← search_file d.filename
    if here then send_download_error_response d answer_code_local else do
      connected ← ask (λ t. os.connect t d.ip d.port)
      elim connected [
        | none ↦ send_download_error_response d answer_code_remote_offline
        | some sock ↦ do push_download sock; transmit sock (cmsg_download_packet d.filename)
      ]

  -- The file that `open` and the loop over `read` bring. For a directory `read` answers -1, the
  -- `uint32_t` length wraps round, and the copy of the buffer runs past its end.
  unfoldable pub file_content : Bytes → Srv Bytes
  file_content name s n = elim (find_file name n.disk) [
    | none ↦ stop overflow s n
    | some file ↦ elim (read_chunks (length file + 1) file []) [
      | whole content ↦ ok content s n
      | overrun ↦ stop overflow s n
      | unfinished ↦ stop out_of_fuel s n
    ]
  ]

  unfoldable pub answer_remote_download_request : Fd → Bytes → Srv (Unit {0})
  answer_remote_download_request socket filename = do
    has_file ← search_file filename
    if has_file
        then (do
          content ← file_content filename
          transmit socket (file_packet filename content)
          close socket)
        else do
          transmit socket
              (not_found_packet (os.own_ip socket) (int_to_string (os.own_port socket)) filename)
          close socket

-- `handle_remote_download_answer`
unfoldable pub handle_remote_download_answer : Fd → Srv (Unit {0})
handle_remote_download_answer sock = do
  answer ← receive sock read_byte
  if answer == answer_code_remote_not_found
      then (do
        d ← receive sock read_download_fields
        send_download_error_response d answer_code_remote_not_found)
      else do
        (name, content) ← receive sock read_file_fields
        save_file (c_str name) content
        server ← get_state
        transmit server.client_socket (download_done_packet name)
