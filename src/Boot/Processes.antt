-- ===== src/Boot/Processes.antt =====
-- `main`: the server's process and the client's, with what `fork`, `run_server` and `run_client`
-- answer. Neither of the two functions need come back.
pub mod SamePort
use gnutella.Base.{ℕ, Bool, Bytes, List, Option, none, some, if◌then◌else◌, length, leb}
use gnutella.Client.Run.{ClientExit, handshake_failed, unreachable, success}
use gnutella.Boot.{
  ArgvError, ServerArgv, ClientArgv, empty_server_argv, empty_client_argv, handle_argv_server,
  handle_argv_client, handle_argv_boot,
}

-- What `fork` returns: -1, 0 in the server's process, the server's number in the client's.
pub data Fork : Type 0 where
  fork_failed in_server in_client : Fork

-- What a process does to the other one: nothing, SIGINT, or `waitpid`, which holds this process up
-- until the other one ends.
pub data Peer : Type 0 where
  leave_alone interrupt wait_for : Peer

-- The last steps of a process: its status, and what it does to the other process before.
pub record End : Type 0 where
  pub status : ℕ
  pub peer : Peer

abbrev pub end_with : ℕ → Peer → End
end_with status peer = record { status = status; peer = peer }

-- What becomes of a process: it comes to its last steps in `main`; it is still in `run_server` or
-- `run_client`, or has ended there; or it reads its command line past the last word.
pub data Fate : Type 0 where
  at_end : End → Fate
  elsewhere overread : Fate

-- `run_server` with the fields of `server_argv_t`: its return value, if it comes back.
abbrev pub RunServer : Type 0
RunServer = (first_machine : Bool) → (port contact_ip contact_port : Option Bytes) → Option ℕ

-- `run_client` with the port: its return value, if it comes back.
abbrev pub RunClient : Type 0
RunClient = Option Bytes → Option ClientExit

-- What follows `run_server`: the process ends with its value.
unfoldable pub server_end : Option ℕ → Fate
server_end none = elsewhere
server_end (some status) = at_end (end_with status leave_alone)

-- What follows `run_client`: only -1 interrupts the server.
unfoldable pub client_end : Option ClientExit → Fate
client_end none = elsewhere
client_end (some handshake_failed) = at_end (end_with 1 interrupt)
client_end (some unreachable) = at_end (end_with 1 wait_for)
client_end (some success) = at_end (end_with 0 wait_for)

-- The process of the server behind `handle_argv`.
unfoldable pub server_process : RunServer → ServerArgv → Fate
server_process run_server infos = elim infos.error [
  | some _ ↦ at_end (end_with 1 interrupt)
  | none ↦
      server_end
        (run_server infos.first_machine infos.listen_port infos.contact_ip infos.contact_port)
]

-- The process of the client behind `handle_argv`.
unfoldable pub client_process : RunClient → ClientArgv → Fate
client_process run_client infos = elim infos.error [
  | some _ ↦ at_end (end_with 1 interrupt)
  | none ↦ client_end (run_client infos.contact_port)
]

module _ (v4 v6 : Bytes → Bool) (run_server : RunServer) (run_client : RunClient) where
  -- `main`, in the process that `forked` names.
  unfoldable pub main : List Bytes → Fork → Fate
  main argv forked =
      if leb 1 (length argv)
      then (if handle_argv_boot argv then at_end (end_with 0 leave_alone) else elim forked [
        | fork_failed ↦ at_end (end_with 3 leave_alone)
        | in_server ↦ elim (handle_argv_server v4 v6 argv empty_server_argv) [
          | none ↦ overread
          | some infos ↦ server_process run_server infos
        ]
        | in_client ↦ elim (handle_argv_client argv empty_client_argv) [
          | none ↦ overread
          | some infos ↦ client_process run_client infos
        ]
      ])
      else at_end (end_with 2 leave_alone)
