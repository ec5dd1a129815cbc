-- ===== src/Client/Run/EndOfInput.antt =====
-- The client when the standard input ends before `exit` is typed.
use gnutella.Base.{
  suc, ◌<◌, ◌≡◌, refl, false, Bytes, codes, List, [], ◌∷◌, ◌++◌, map, Option, some, arith, length,
  All, str_eq,
}
use gnutella.Net.{Os, Fd, Net, Run, ok, fault, exited, indeterminate, and_then, update, ask}
use gnutella.Wire.{byte, cmsg_int_handshake, smsg_int_handshake}
use gnutella.Networking.{attempt_connect_to}
use gnutella.Client.{Client, Cl, handle_command, handle_servent}
use gnutella.Client.Run.{copy_command, loop, tries, port_or, run_client}
use gnutella.Client.Run.Answers.{handle_servent-Writes}
use gnutella.Client.Run.Writes.{Packets, Wrote, Writes}
use gnutella.Client.Run.Session.{
  UserCommand, empty_line, help_line, search_line, lookup_line, download_line, typed, with_newline,
  IsTyped, copy_command-typed, handle_command-Writes,
}
use gnutella.Client.Run.Session.Exchange.{handshake-ok}

-- The lines that the user types, and no `exit` behind them.
abbrev pub typed_lines : List UserCommand → List Bytes
typed_lines = map (λ c. with_newline (typed c))

and_then-lost :
    {A B : Type 0} (fd : Fd) (before w : Packets) (r : Run Client A) (k : A → Cl B)
    → Wrote fd before w (λ _. Unit) r
    → ((a : A) (s : Client) (n : Net) → s.server_socket ≡ fd → k a s n ≡ fault indeterminate)
    → and_then r k ≡ fault indeterminate
and_then-lost fd before w (ok a s n) k (at, _, _) next = next a s n at
and_then-lost fd before w (fault e) k h next = rw h refl
and_then-lost fd before w (exited c s n) k h next = absurd h

module _ (os : Os) (fd : Fd) where
  turn-lost :
      (command line : Bytes) (lines : List Bytes) (s : Client) (n : Net) {w : Packets}
      → copy_command line ≡ some command
      → 0 < length command
      → str_eq command (codes "exit") ≡ false
      → s.server_socket ≡ fd
      → Writes fd w (λ _. Unit) (handle_command command)
      → ((s' : Client) (n' : Net)
          → s'.server_socket ≡ fd
          → loop os lines s' n' ≡ fault indeterminate)
      → loop os (line ∷ lines) s n ≡ fault indeterminate
  unfolding loop
  turn-lost [] line lines s n e pos other at h rest = ground arith
  turn-lost (c ∷ t) line lines s n {w} e pos other at h rest =
      rw (e, other, loop)
        (and_then-lost fd n.sent w (handle_command (c ∷ t) s n) _ (h.run s n at) λ report s1 n1 at1.
          and_then-lost fd n1.sent [] (handle_servent os s1 n1) _
            ((handle_servent-Writes os).run s1 n1 at1) λ answer s2 n2 at2. rw (rest s2 n2 at2) refl)

  loop-lost :
      (script : List UserCommand) (s : Client) (n : Net)
      → All IsTyped script
      → s.server_socket ≡ fd
      → loop os (typed_lines script) s n ≡ fault indeterminate
  unfolding loop str_eq
  loop-lost [] s n h at = refl
  loop-lost (empty_line ∷ script) s n h at =
      rw (copy_command-typed empty_line tt, loop) (loop-lost script s n h.1 at)
  loop-lost (help_line ∷ script) s n h at =
      turn-lost _ _ (typed_lines script) s n (copy_command-typed help_line h.0) (omega arith) refl
        at (handle_command-Writes help_line h.0 (omega arith))
        λ s' n' at'. loop-lost script s' n' h.1 at'
  loop-lost (search_line name ∷ script) s n h at =
      turn-lost _ _ (typed_lines script) s n (copy_command-typed (search_line name) h.0)
        (omega arith) refl at (handle_command-Writes (search_line name) h.0 (omega arith))
        λ s' n' at'. loop-lost script s' n' h.1 at'
  loop-lost (lookup_line name ∷ script) s n h at =
      turn-lost _ _ (typed_lines script) s n (copy_command-typed (lookup_line name) h.0)
        (omega arith) refl at (handle_command-Writes (lookup_line name) h.0 (omega arith))
        λ s' n' at'. loop-lost script s' n' h.1 at'
  loop-lost (download_line ip port file ∷ script) s n h at =
      turn-lost _ _ (typed_lines script) s n (copy_command-typed (download_line ip port file) h.0)
        (omega arith) refl at (handle_command-Writes (download_line ip port file) h.0 (omega arith))
        λ s' n' at'. loop-lost script s' n' h.1 at'

-- The input ends before the user has typed `exit`: the servent is reached on one of the three
-- tries and answers the handshake, and what the user types are commands and nothing behind them.
-- Whatever the servent sends, `run_client` neither returns nor exits: it goes on with a value that
-- was never set, which is the line of a `getline` that has failed, unless a packet of the servent
-- that ends early leaves one before.
pub run_client-indeterminate :
    (os : Os) (connection_port : Option Bytes) (script : List UserCommand) (s : Client) (n : Net)
    {fd : Fd} {rest : Bytes}
    → All IsTyped script
    → attempt_connect_to
        (tries os (codes "127.0.0.1") (port_or (codes "10001") connection_port) n.clock)
        0
        3
      ≡ some fd
    → n.inbox fd ≡ smsg_int_handshake ∷ rest
    → run_client os connection_port (typed_lines script) s n ≡ fault indeterminate
unfolding run_client ask
run_client-indeterminate os connection_port script s n {fd} {rest} typed_all connected shakes =
    rw
      (
        connected,
        run_client,
        handshake-ok start later shakes,
        loop-lost os fd script start shaken typed_all refl,
      )
      refl
  where
    start : Client
    start = record { server_socket = fd; machines_by_files = [] }

    later : Net
    later = record n { clock = suc n.clock }

    shaken : Net
    shaken = record later {
      inbox = update n.inbox fd rest;
      sent = n.sent ++ (fd, byte cmsg_int_handshake) ∷ [];
    }
