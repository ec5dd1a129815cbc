-- ===== src/Server/Life.antt =====
-- The life of the server process (server.c, `run_server`) as a step relation: bytes come in on its
-- sockets at any time, it joins, makes its rounds, is interrupted, and leaves.
pub mod Safe
use gnutella.Base.{
  ℕ, ◌≡◌, ◌≢◌, refl, ◌∙◌, ap, sym, subst, Bool, true, false, Bytes, List, [], ◌∷◌, ◌++◌,
  append_assoc, append-nil, Option, none, some, if◌then◌else◌, ◌==◌, Bool-cases, inl, inr, arith,
}
use gnutella.Net.{Os, Fd, Net, Run, ok, fault, exited, Cmd, ◌>>=◌, update}
use gnutella.Server.State.{Server, Srv}
use gnutella.Server.Packets.{leave_network}
use gnutella.Server.Join.{join_network}
use gnutella.Server.Loop.{clear_server}
use gnutella.Server.Main.{round, initial_server}

-- Before the loop, in the loop with its `time_diff`, behind the loop, and at the end of `run_server`.
pub data Phase : Type 0 where
  starting leaving stopped : Phase
  running : (time_diff : ℕ) → Phase

-- The invariant holds until the process has cleared its state.
abbrev pub IsAlive : Phase → Type 0
IsAlive starting = Unit
IsAlive (running time_diff) = Unit
IsAlive leaving = Unit
IsAlive stopped = ⊥

-- `arrived` is all that ever came in on each socket.
pub record Process : Type 0 where
  pub phase : Phase
  pub server : Server
  pub net : Net
  pub arrived : Fd → Bytes

-- The process when `run_server` has its listening socket.
abbrev pub started : Fd → Net → Process
started listening_socket n = record {
  phase = starting;
  server = initial_server listening_socket;
  net = n;
  arrived = n.inbox;
}

abbrev pub proceeds : Process → Phase → Server → Net → Process
proceeds p phase s n = record p { phase = phase; server = s; net = n }

abbrev pub fed : Process → Fd → Bytes → Process
fed p fd bs = record p {
  net = record p.net { inbox = update p.net.inbox fd (p.net.inbox fd ++ bs) };
  arrived = update p.arrived fd (p.arrived fd ++ bs);
}

module _ (os : Os) (contact_point contact_port : Bytes) (first_machine : Bool)
    (ip port : Option Bytes) where
  pub data Step : Process → Process → Type 0 where
    -- bytes come in on a socket
    arrives : (p : Process) (fd : Fd) (bs : Bytes) → Step p (fed p fd bs)
    -- the first machine does not join
    founds :
        (p : Process)
        → p.phase ≡ starting
        → first_machine ≡ true
        → Step p (record p { phase = running 50 })
    joins :
        (p : Process) (s : Server) (n : Net)
        → p.phase ≡ starting
        → first_machine ≡ false
        → join_network os contact_point contact_port ip port p.server p.net ≡ ok true s n
        → Step p (proceeds p (running 50) s n)
    rounds :
        (p : Process) (time_diff next : ℕ) (s : Server) (n : Net)
        → p.phase ≡ running time_diff
        → round os time_diff p.server p.net ≡ ok (true, next) s n
        → Step p (proceeds p (running next) s n)
    -- the client has left
    ends :
        (p : Process) (time_diff next : ℕ) (s : Server) (n : Net)
        → p.phase ≡ running time_diff
        → round os time_diff p.server p.net ≡ ok (false, next) s n
        → Step p (proceeds p leaving s n)
    -- SIGINT: `handle_sigint` sets `_loop` to 0, and no round begins any more
    interrupts :
        (p : Process) (time_diff : ℕ)
        → p.phase ≡ running time_diff
        → Step p (record p { phase = leaving })
    leaves :
        (p : Process) (s : Server) (n : Net)
        → p.phase ≡ leaving
        → (leave_network >>= λ _. clear_server os) p.server p.net ≡ ok tt s n
        → Step p (proceeds p stopped s n)

  pub data Reaches : Process → Process → Type 0 where
    stays : (p : Process) → Reaches p p
    onward : {p q r : Process} → Reaches p q → Step q r → Reaches p r
