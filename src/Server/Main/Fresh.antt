-- ===== src/Server/Main/Fresh.antt =====
-- How `run_server` joins the network through its contact, from its first state on.
use gnutella.Base.{
  ℕ, suc, ◌<◌, ◌≤◌, ◌≡◌, refl, ◌∙◌, true, false, Bytes, ◌∷◌, ◌++◌, Option, none, some, arith,
  length, ltb, ◌&&◌,
}
use gnutella.Net.{Os, Fd, Net, Fault, fault, dangling, overflow}
use gnutella.Wire.{read_machine, smsg_neighbours}
use gnutella.Util.{int_to_string}
use gnutella.Util.Ports.{check_port}
use gnutella.Util.Ports.Zeros.{zeros, check_port-zeros}
use gnutella.Server.Join.{join_network, join_network_through}
use gnutella.Server.Join.Opening.{join_network_through-dangling, join_network_through-overflow}
use gnutella.Server.Main.{run_server, initial_server}

-- A contact of the command line, or the default one.
abbrev pub given : Bytes → Option Bytes → Bytes
given default none = default
given default (some text) = text

module _ (os : Os) (contact_point contact_port : Bytes) (rounds : ℕ) (listening_socket fd : Fd)
    (n : Net) (stream : Bytes) where
  run_server-fault :
      (ip port : Option Bytes) {e : Fault}
      → join_network_through os 6
          (given contact_point ip)
          (given contact_port port)
          (initial_server listening_socket)
          n
        ≡ fault e
      → run_server os contact_point contact_port false ip port rounds
          (initial_server listening_socket)
          n
        ≡ fault e
  unfolding run_server join_network
  run_server-fault ip port h = rw h refl

  -- A server that is not the first machine, whose contact, given or default, can be reached and
  -- answers with a list of at least one machine, the first of them whole: `run_server` ends in an
  -- access to the freed `self_ip`.
  pub run_server-dangling :
      (ip port : Option Bytes) (left : ℕ) (machine : Bytes × Bytes) (more : Bytes)
      → os.connect n.clock (given contact_point ip) (given contact_port port) ≡ some fd
      → n.inbox fd ≡ smsg_neighbours ∷ suc left ∷ stream
      → read_machine stream ≡ some (machine, more)
      → run_server os contact_point contact_port false ip port rounds
          (initial_server listening_socket)
          n
        ≡ fault dangling
  unfolding initial_server
  run_server-dangling ip port left machine more c b l = run_server-fault ip port (
      join_network_through-dangling os 5 _ _ (initial_server listening_socket) n fd (suc left)
        stream refl c b refl l)

  -- A port of the command line between 1025 and 65535 that is written with so many zeros in front
  -- that it has at least six characters: `check_port` takes it, and `run_server` as a machine that
  -- is not the first writes it past the end of an array of six bytes, if the contact can be
  -- reached under it and lists no machine.
  pub run_server-overflow :
      (ip : Option Bytes) (k port : ℕ)
      → 1024 < port
      → port < 65536
      → 6 ≤ length (zeros k ++ int_to_string port)
      → os.connect n.clock (given contact_point ip) (zeros k ++ int_to_string port) ≡ some fd
      → n.inbox fd ≡ smsg_neighbours ∷ 0 ∷ stream
      → (check_port (zeros k ++ int_to_string port) ≡ true)
        × (run_server os contact_point contact_port false ip
              (some (zeros k ++ int_to_string port))
              rounds
              (initial_server listening_socket)
              n
            ≡ fault overflow)
  unfolding initial_server
  run_server-overflow ip k port low high long c b =
      let in_range : (ltb 1024 port && ltb port 65536) ≡ true = ground arith in
      (
        check_port-zeros k port (omega arith) ∙ in_range,
        run_server-fault ip (some (zeros k ++ int_to_string port)) (
            join_network_through-overflow os 5 _ _ (initial_server listening_socket) n fd 0 stream
              refl c b refl long),
      )
