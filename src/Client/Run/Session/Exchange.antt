-- ===== src/Client/Run/Session/Exchange.antt =====
-- A whole session: `run_client` from the connection to the exit.
use gnutella.Base.{
  suc, ◌<◌, ◌≡◌, refl, true, false, Bytes, codes, List, [], ◌∷◌, ◌++◌, append-nil, Option, some,
  arith, length, All, str_eq,
}
use gnutella.Net.{Os, Fd, Net, ok, ◌>>=◌, ◌>>◌, pure, receive_or, send, ask, update}
use gnutella.Wire.{c_str, byte, read_byte, cmsg_int_handshake, cmsg_int_exit, smsg_int_handshake}
use gnutella.Networking.{attempt_connect_to}
use gnutella.Client.{Client, nothing, handshake, handle_command, clear_client}
use gnutella.Client.Commands.{skip_spaces, split_token, strtok_space}
use gnutella.Client.Run.{
  all_but_last, copy_command, Turn, loop, ClientExit, success, tries, port_or, run_client,
}
use gnutella.Client.Run.Answers.{handle_servent-Writes, clear_client-Writes}
use gnutella.Client.Run.Writes.{Packets, Wrote, Wrote-and_then, Writes, Writes-bind, Writes-pure}
use gnutella.Client.Run.Session.{
  UserCommand, empty_line, help_line, search_line, lookup_line, download_line, typed, with_newline,
  IsTyped, packets_of, at_servent, copy_command-typed, handle_command-Writes,
}

-- The lines that the user types: the commands, `exit`, and what `loop` leaves unread.
abbrev pub session_lines : List UserCommand → List Bytes → List Bytes
session_lines [] more = with_newline (codes "exit") ∷ more
session_lines (c ∷ script) more = with_newline (typed c) ∷ session_lines script more

abbrev pub session_packets : List UserCommand → List Bytes
session_packets [] = []
session_packets (c ∷ script) = packets_of c ++ session_packets script

at_servent-append :
    (fd : Fd) (xs ys : List Bytes) → at_servent fd (xs ++ ys) ≡ at_servent fd xs ++ at_servent fd ys
at_servent-append fd [] ys = refl
at_servent-append fd (x ∷ xs) ys = rw (at_servent-append fd xs ys) refl

pub handshake-ok :
    (s : Client) (n : Net) {rest : Bytes}
    → n.inbox s.server_socket ≡ smsg_int_handshake ∷ rest
    → handshake s n
      ≡ ok true s (record n {
        inbox = update n.inbox s.server_socket rest;
        sent = n.sent ++ (s.server_socket, byte cmsg_int_handshake) ∷ [];
      })
unfolding handshake send receive_or read_byte
handshake-ok s n e = rw (e, handshake, receive_or) refl

module _ {fd : Fd} where
  loop-command :
      (os : Os) (line command : Bytes) (lines : List Bytes) {w w' : Packets}
      → copy_command line ≡ some command
      → 0 < length command
      → str_eq command (codes "exit") ≡ false
      → Writes fd w (λ _. Unit) (handle_command command)
      → Writes fd w' (λ _. Unit) (loop os lines)
      → Writes fd (w ++ w') (λ _. Unit) (loop os (line ∷ lines))
  unfolding loop
  loop-command os line [] lines e pos other h rest = ground arith
  loop-command os line (c ∷ s) lines {w} {w'} e pos other h rest =
      rw (e, loop)
        (Writes-bind h λ report _.
          Writes-bind (handle_servent-Writes os) λ answer _. rw other (at_end (report, answer)))
    where
      at_end :
          (turn : Turn) → Writes fd w' (λ _. Unit) (loop os lines >>= λ turns. pure (turn ∷ turns))
      at_end turn =
          let whole : Writes fd (w' ++ []) (λ _. Unit)
              (loop os lines >>= λ turns. pure (turn ∷ turns)) =
            Writes-bind rest λ turns _. Writes-pure (turn ∷ turns) tt in
          rw append-nil at whole

  loop-empty :
      (os : Os) (line : Bytes) (lines : List Bytes) {w : Packets}
      → copy_command line ≡ some []
      → Writes fd w (λ _. Unit) (loop os lines)
      → Writes fd w (λ _. Unit) (loop os (line ∷ lines))
  unfolding loop
  loop-empty os line lines e rest = rw (e, loop) rest

  loop-exit :
      (os : Os) (more : List Bytes)
      → Writes fd [] (λ _. Unit) (loop os (with_newline (codes "exit") ∷ more))
  unfolding loop copy_command all_but_last c_str str_eq handle_command strtok_space split_token
      skip_spaces
  loop-exit os more =
      Writes-bind (handle_servent-Writes os) λ answer _. Writes-pure ((nothing, answer) ∷ []) tt

  loop-step :
      (os : Os) (c : UserCommand) (lines : List Bytes) {w : Packets}
      → IsTyped c
      → Writes fd w (λ _. Unit) (loop os lines)
      → Writes fd
          (at_servent fd (packets_of c) ++ w)
          (λ _. Unit)
          (loop os (with_newline (typed c) ∷ lines))
  unfolding str_eq
  loop-step os empty_line lines h rest =
      loop-empty os _ lines (copy_command-typed empty_line h) rest
  loop-step os help_line lines h rest =
      loop-command os _ _ lines (copy_command-typed help_line h) (omega arith) refl
        (handle_command-Writes help_line h (omega arith)) rest
  loop-step os (search_line name) lines h rest =
      loop-command os _ _ lines (copy_command-typed (search_line name) h) (omega arith) refl
        (handle_command-Writes (search_line name) h (omega arith)) rest
  loop-step os (lookup_line name) lines h rest =
      loop-command os _ _ lines (copy_command-typed (lookup_line name) h) (omega arith) refl
        (handle_command-Writes (lookup_line name) h (omega arith)) rest
  loop-step os (download_line ip port file) lines h rest =
      loop-command os _ _ lines (copy_command-typed (download_line ip port file) h) (omega arith)
        refl (handle_command-Writes (download_line ip port file) h (omega arith)) rest

  loop-Writes :
      (os : Os) (script : List UserCommand) (more : List Bytes)
      → All IsTyped script
      → Writes fd
          (at_servent fd (session_packets script))
          (λ _. Unit)
          (loop os (session_lines script more))
  loop-Writes os [] more h = loop-exit os more
  loop-Writes os (c ∷ script) more h =
      rw (at_servent-append fd (packets_of c))
        (loop-step os c (session_lines script more) h.0 (loop-Writes os script more h.1))

  after_handshake :
      (os : Os) (script : List UserCommand) (more : List Bytes)
      → All IsTyped script
      → Writes fd
          (at_servent fd (session_packets script ++ byte cmsg_int_exit ∷ []))
          (λ (result : ClientExit × List Turn). result.0 ≡ success)
          (loop os (session_lines script more) >>= λ turns. clear_client >> pure (success, turns))
  after_handshake os script more h = rw (at_servent-append fd (session_packets script)) (
      Writes-bind (loop-Writes os script more h)
        λ turns _. Writes-bind clear_client-Writes λ _ _. Writes-pure (success, turns) refl)

-- A session of the client: the servent is reached on one of the three tries and answers the
-- handshake, and the user types commands and then `exit`. Whatever the servent sends besides, the
-- client writes the handshake, the packet of each command in the order typed and CMSG_INT_EXIT,
-- and returns EXIT_SUCCESS; or it stops at a packet of the servent that ends early.
pub run_client-session :
    (os : Os) (connection_port : Option Bytes) (script : List UserCommand) (more : List Bytes)
    (s : Client) (n : Net) {fd : Fd} {rest : Bytes}
    → All IsTyped script
    → attempt_connect_to
        (tries os (codes "127.0.0.1") (port_or (codes "10001") connection_port) n.clock)
        0
        3
      ≡ some fd
    → n.inbox fd ≡ smsg_int_handshake ∷ rest
    → Wrote fd n.sent
        (at_servent fd
          (byte cmsg_int_handshake ∷ session_packets script ++ byte cmsg_int_exit ∷ []))
        (λ (result : ClientExit × List Turn). result.0 ≡ success)
        (run_client os connection_port (session_lines script more) s n)
unfolding run_client ask
run_client-session os connection_port script more s n {fd} {rest} typed_all connected shakes =
    rw (connected, run_client, handshake-ok start later shakes)
      (Wrote-and_then {Q = λ _. Unit} n.sent ((fd, byte cmsg_int_handshake) ∷ []) _
        (ok true start shaken) _ (refl, refl, tt) λ _ _. after_handshake os script more typed_all)
  where
    start : Client
    start = record { server_socket = fd; machines_by_files = [] }

    later : Net
    later = record n { clock = suc n.clock }

    shaken : Net
    shaken = record later {
      inbox = update n.inbox fd rest;
      sent = n.sent ++ (fd, byte cmsg_int_handshake) ∷ [];
    }
