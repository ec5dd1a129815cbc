-- ===== src/Client.antt =====
-- client.c and client/: the commands of the user, the packets that they send to the servent, and
-- the machines that the client remembers for each file.
pub mod Commands
pub mod Records
pub mod Run
use gnutella.Base.{
  ℕ, zero, suc, ◌+◌, Bool, true, false, not, ◌&&◌, ◌||◌, Bytes, codes, List, [], ◌∷◌, ◌++◌, Option,
  none, some, length, if◌then◌else◌, ◌==◌, str_eq,
}
use gnutella.Net.{
  Fd, Net, Cmd, Os, Poll, timeout, ready, failed, dangling, ok, skip, pure, stop, ◌>>=◌, ◌>>◌,
  get_state, put_state, receive, receive_or, send, transmit, close, ask,
}
use gnutella.Wire.{
  pack, byte, string_field, read_byte, read_string, cmsg_int_handshake, cmsg_int_exit,
  cmsg_int_search, cmsg_int_download, smsg_int_handshake, smsg_int_search, smsg_int_download,
  answer_code_remote_found, answer_code_local, answer_code_remote_offline,
  answer_code_remote_not_found,
}
use gnutella.Client.Commands.{strtok_space, strtok_rest, search_packet, download_packet}
use gnutella.Client.Records.{FileLookup, has_file_record, record_answer, read_client_answer}
use gnutella.Server.State.{DownloadRequest}
use gnutella.Server.Readers.{read_download_fields}

-- What the client prints behind a packet or a command.
pub data Report : Type 0 where
  nothing invalid help : Report
  machines_of : List (Bytes × Bytes) → Report
  no_machine : Bytes → Report
  file_is_local : Bytes → Report
  machine_lacks : DownloadRequest → Report
  machine_offline : DownloadRequest → Report
  downloaded : Bytes → Report

-- `client_t`
pub record Client : Type 0 where
  pub server_socket : Fd
  pub machines_by_files : List FileLookup

abbrev pub Cl : Type 0 → Type 0
Cl = Cmd Client

-- `handshake`: true for 0, false for -1.
unfoldable pub handshake : Cl Bool
handshake = do
  client ← get_state
  send client.server_socket (byte cmsg_int_handshake)
  server_data ← receive_or 0 client.server_socket read_byte
  pure (server_data == smsg_int_handshake)

-- `handle_search`, given what `strtok` has left of the line.
unfoldable pub handle_search : Bytes → Cl Report
handle_search line = elim (strtok_rest line) [
  | none ↦ pure invalid
  | some name ↦ do
    client ← get_state
    transmit client.server_socket (search_packet name)
    pure nothing
]

-- `handle_download`
unfoldable pub handle_download : Bytes → Cl Report
handle_download line = elim (strtok_space line) [
  | none ↦ pure invalid
  | some (ip, line1) ↦ elim (strtok_space line1) [
    | none ↦ pure invalid
    | some (port, line2) ↦ elim (strtok_rest line2) [
      | none ↦ pure invalid
      | some file ↦ do
        client ← get_state
        transmit client.server_socket (download_packet ip port file)
        pure nothing
    ]
  ]
]

-- `handle_lookup`
unfoldable pub handle_lookup : Bytes → Cl Report
handle_lookup line = elim (strtok_rest line) [
  | none ↦ pure invalid
  | some file ↦ do
    client ← get_state
    pure (elim (has_file_record file client.machines_by_files) [
      | none ↦ no_machine file
      | some entry ↦ machines_of entry.machines
    ])
]

-- `handle_search_answer`
unfoldable pub handle_search_answer : Cl (Unit {0})
handle_search_answer = do
  client ← get_state
  (filename, machines) ← receive client.server_socket read_client_answer
  put_state (record client {
    machines_by_files = record_answer filename machines client.machines_by_files;
  })

unfoldable pub download_report : ℕ → DownloadRequest → Report
download_report code d =
    if code == answer_code_local
    then file_is_local d.filename
    else if code == answer_code_remote_not_found
    then machine_lacks d
    else if code == answer_code_remote_offline
    then machine_offline d
    else nothing

-- `handle_download_answer`
unfoldable pub handle_download_answer : Cl Report
handle_download_answer = do
  client ← get_state
  code ← receive client.server_socket read_byte
  if not (code == answer_code_remote_found)
      then (do d ← receive client.server_socket read_download_fields; pure (download_report code d))
      else do filename ← receive client.server_socket read_string; pure (downloaded filename)

-- `handle_servent`, with the answer of `poll`.
unfoldable pub handle_servent : Os → Cl Report
handle_servent os = do
  client ← get_state
  event ← ask (λ t. os.poll t client.server_socket)
  elim event [
    | ready ↦ do
      opcode ← receive client.server_socket read_byte
      if opcode == smsg_int_search
          then handle_search_answer >> pure nothing
          else if opcode == smsg_int_download
          then handle_download_answer
          else pure nothing
    | _ ↦ pure nothing
  ]

-- `handle_command`; a line of spaces has no command name, and `strcmp` reads NULL.
unfoldable pub handle_command : Bytes → Cl Report
handle_command command =
    if str_eq command (codes "help") then pure help else elim (strtok_space command) [
      | none ↦ stop dangling
      | some (command_name, line) ↦
          if str_eq command_name (codes "download")
          then handle_download line
          else if str_eq command_name (codes "search")
          then handle_search line
          else if str_eq command_name (codes "lookup")
          then handle_lookup line
          else pure nothing
    ]

-- `clear_client`: CMSG_INT_EXIT, the records are freed, the socket is closed.
unfoldable pub clear_client : Cl (Unit {0})
clear_client = do
  client ← get_state
  send client.server_socket (byte cmsg_int_exit)
  close client.server_socket
  put_state (record client { machines_by_files = [] })
