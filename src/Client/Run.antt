-- ===== src/Client/Run.antt =====
-- client.c: the loop over the lines of the standard input, and `run_client`.
pub mod Writes
pub mod Answers
pub mod Session
pub mod EndOfInput
use gnutella.Base.{
  ℕ, zero, suc, ◌+◌, Bool, true, false, Bytes, codes, List, [], ◌∷◌, Option, none, some,
  if◌then◌else◌, str_eq,
}
use gnutella.Net.{
  Os, Fd, Net, overflow, indeterminate, ok, pure, stop, ◌>>=◌, ◌>>◌, get_state, put_state, ask,
}
use gnutella.Wire.{c_str}
use gnutella.Networking.{ConnectResult, connect_ok, connect_error_no_socket, attempt_connect_to}
use gnutella.Client.{
  Client, Cl, Report, help, handshake, handle_command, handle_servent, clear_client,
}

-- The characters of a line but for the last one; none for an empty line.
unfoldable pub all_but_last : Bytes → Option Bytes
all_but_last [] = none
all_but_last (c ∷ []) = some []
all_but_last (c ∷ d ∷ s) = elim (all_but_last (d ∷ s)) [ none ↦ none | some rest ↦ some (c ∷ rest) ]

-- The copy of a line that `loop` makes in a block of `strlen` bytes. It ends before the last
-- character; for a line with `strlen` 0 `strncpy` gets the length `SIZE_MAX`, which is `none`.
unfoldable pub copy_command : Bytes → Option Bytes
copy_command line = all_but_last (c_str line)

-- What one turn prints: for the command, and for the servent's packet.
abbrev pub Turn : Type 0
Turn = Report × Report

-- `loop`, given the lines that `getline` is still to bring. At the end of the input `getline` fails,
-- and what its block holds was never set.
unfoldable pub loop : Os → List Bytes → Cl (List Turn)
loop os [] = stop indeterminate
loop os (line ∷ lines) = elim (copy_command line) [
  | none ↦ stop overflow
  | some [] ↦ loop os lines
  | some (c ∷ s) ↦ do
    report ← handle_command (c ∷ s)
    answer ← handle_servent os
    if str_eq (c ∷ s) (codes "exit")
        then pure ((report, answer) ∷ [])
        else do turns ← loop os lines; pure ((report, answer) ∷ turns)
]

-- -1, EXIT_FAILURE and EXIT_SUCCESS
pub data ClientExit : Type 0 where
  handshake_failed unreachable success : ClientExit

-- The results of `connect_to` from the time `t` on.
abbrev pub tries : Os → Bytes → Bytes → ℕ → ℕ → ConnectResult
tries os ip port t i = elim (os.connect (t + i) ip port) [
  | none ↦ connect_error_no_socket
  | some fd ↦ connect_ok fd
]

abbrev pub port_or : Bytes → Option Bytes → Bytes
port_or default none = default
port_or default (some port) = port

-- `run_client`: the value that it returns, and what it printed.
unfoldable pub run_client : Os → Option Bytes → List Bytes → Cl (ClientExit × List Turn)
run_client os connection_port lines = do
  connected ← ask (λ t.
      attempt_connect_to (tries os (codes "127.0.0.1") (port_or (codes "10001") connection_port) t)
        0 3)
  elim connected [
    | none ↦ pure (unreachable, [])
    | some fd ↦ do
      put_state (record { server_socket = fd; machines_by_files = [] })
      shaken ← handshake
      if shaken
          then (do turns ← loop os lines; clear_client; pure (success, turns))
          else pure (handshake_failed, [])
  ]
