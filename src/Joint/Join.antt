-- ===== src/Joint/Join.antt =====
-- Two servers: one that joins, and the contact that it joins through.
use gnutella.Base.{
  Bool, ℕ, suc, ◌<◌, ◌≡◌, ◌≢◌, ◌∙◌, true, false, Bytes, List, [], ◌∷◌, ◌++◌, append-nil, some,
  arith, length, ◌==◌,
}
use mathlib.Core.List.{Perm}
use gnutella.Net.{close, Os, Fd, Net, ready, ok, pure, ◌>>=◌, update}
use gnutella.Net.Laws.{bind-ok}
use gnutella.Wire.{byte, read_string, cmsg_neighbours, smsg_neighbours, cmsg_join, smsg_join}
use gnutella.Wire.Fields.{read_string-cons}
use gnutella.Util.{int_to_string}
use gnutella.Util.Decimal.{int_to_string-IsField}
use gnutella.Server.State.{Server, Contact, Srv, unset, known, released, sockets, max_neighbours}
use gnutella.Server.Neighbours.{known_machines, ensure_absent_ip}
use gnutella.Server.Neighbours.Table.{IsTable}
use gnutella.Server.Join.{join_network_through}
use gnutella.Server.Join.Alone.{join_network_through-bytes}
use gnutella.Server.Loop.{await_round, await_close, await_keep, handle_awaiting_socket}
use gnutella.Joint.Contact.{handle_awaiting_socket-neighbours, handle_awaiting_socket-join}

-- CMSG_JOIN with the rescue flag, and SMSG_JOIN that says yes, each with the sender's port.
abbrev pub join_request : ℕ → Bytes
join_request port = cmsg_join ∷ 1 ∷ length (int_to_string port) ∷ int_to_string port

abbrev pub join_grant : ℕ → Bytes
join_grant port = smsg_join ∷ 1 ∷ length (int_to_string port) ∷ int_to_string port

-- The contact takes the first socket, and later the second.
unfoldable pub contact_run : Os → (first second : Fd) → Srv (Bool × Bool)
contact_run os first second = do a ← await_round os first; b ← await_round os second; pure (a, b)

-- A socket that `handle_awaiting_socket` keeps stays open, and leaves the list.
await_round-keep :
    (os : Os) (fd : Fd) (s : Server) (n : Net) {s' : Server} {n' : Net}
    → handle_awaiting_socket os fd s n ≡ ok await_keep s' n'
    → await_round os fd s n ≡ ok true s' n'
unfolding await_round
await_round-keep os fd s n e = bind-ok (handle_awaiting_socket os fd) _ e

-- A socket that `handle_awaiting_socket` gives up is closed, and leaves the list.
await_round-close :
    (os : Os) (fd : Fd) (s : Server) (n : Net) {s' : Server} {n' : Net}
    → handle_awaiting_socket os fd s n ≡ ok await_close s' n'
    → await_round os fd s n ≡ ok true s' (record n' { closed = n'.closed ++ fd ∷ [] })
unfolding await_round close
await_round-close os fd s n e = bind-ok (handle_awaiting_socket os fd) _ e

module _ (os : Os) (s : Server) (n : Net) (first second : Fd) (port : ℕ) where
  abbrev own : ℕ
  own = os.own_port s.listening_socket

  contact_runs :
      IsTable s
      → s.self_ip ≡ unset
      → s.nb_neighbours < max_neighbours
      → known_machines os s.neighbours ≡ []
      → own < 65536
      → port < 65536
      → first ≢ second
      → ((t : ℕ) (fd : Fd) → os.poll t fd ≡ ready)
      → n.inbox first ≡ byte cmsg_neighbours
      → n.inbox second ≡ join_request port
      → (slots : List Contact) × ((after : Net) × (contact_run os first second s n
            ≡ ok
                (true, true)
                (record s {
                  self_ip = known (os.own_ip second);
                  neighbours = slots;
                  nb_neighbours = suc s.nb_neighbours;
                })
                after)
          × (after.sent
              ≡ (n.sent ++ (first, smsg_neighbours ∷ 0 ∷ []) ∷ []) ++ (second, join_grant own) ∷ [])
          × (after.closed ≡ n.closed ++ first ∷ [])
          × Perm (sockets slots) (second ∷ sockets s.neighbours))
  unfolding contact_run
  contact_runs table fresh room alone listens small other polls asks joins =
      let passes : update n.inbox first [] second ≡ join_request port =
        let apart : (first == second) ≡ false = ground arith in rw apart joins in
      let (slots, (after, keeps, wrote, shut, perm)) =
        handle_awaiting_socket-join os second s told (polls told.clock second) (int_to_string port)
          (int_to_string-IsField port small) table fresh room listens passes in
      (
        slots,
        (
          after,
          bind-ok (await_round os first) _ (
                await_round-close os first s n (
                  handle_awaiting_socket-neighbours os first s n (polls n.clock first) [] alone
                    asks))
              ∙ bind-ok (await_round os second) _ (await_round-keep os second s told keeps),
          wrote,
          shut,
          perm,
        ),
      )
    where
      told : Net
      told = record n {
        clock = suc n.clock;
        inbox = update n.inbox first [];
        sent = n.sent ++ (first, smsg_neighbours ∷ 0 ∷ []) ∷ [];
        closed = n.closed ++ first ∷ [];
      }

-- A machine and its contact, where each finds the bytes that the other one writes. The machine has
-- a well-formed table with room in which no neighbour has the contact's address, `self_ip` unset,
-- an IP of at most 46 and a port of at most 5 characters for its contact, a listening port below
-- 65536, and is connected on two different sockets. The contact has a well-formed table with room
-- that lists no machine, `self_ip` unset, a listening port below 65536, takes two different
-- sockets one after the other, and polls them as ready. Then `join_network_through` returns 0 and
-- the machine has written CMSG_NEIGHBOURS and, on its second socket, CMSG_JOIN with the rescue
-- flag; the contact has answered with an empty list, has closed that socket and no other, and has
-- granted the request with its own listening port; and on both sides the second socket takes a
-- slot beside those that were in use.
pub join-both :
    (os os' : Os) (s c : Server) (n m : Net) (attempts : ℕ) (ip port : Bytes)
    (fd sock first second : Fd)
    → IsTable s
    → s.self_ip ≡ unset
    → s.nb_neighbours < max_neighbours
    → ensure_absent_ip os s.neighbours ip port ≡ true
    → length ip < 47
    → length port < 6
    → os.own_port s.listening_socket < 65536
    → os.connect n.clock ip port ≡ some fd
    → os.connect (suc n.clock) ip port ≡ some sock
    → sock ≢ fd
    → n.inbox fd ≡ smsg_neighbours ∷ 0 ∷ []
    → n.inbox sock ≡ join_grant (os'.own_port c.listening_socket)
    → IsTable c
    → c.self_ip ≡ unset
    → c.nb_neighbours < max_neighbours
    → known_machines os' c.neighbours ≡ []
    → os'.own_port c.listening_socket < 65536
    → first ≢ second
    → ((t : ℕ) (f : Fd) → os'.poll t f ≡ ready)
    → m.inbox first ≡ byte cmsg_neighbours
    → m.inbox second ≡ join_request (os.own_port s.listening_socket)
    → ((slots : List Contact) × ((after : Net) × (join_network_through os (suc attempts) ip port s n
            ≡ ok true
                (record s {
                  self_ip = released;
                  neighbours = slots;
                  nb_neighbours = suc s.nb_neighbours;
                })
                after)
          × (after.sent
              ≡ (n.sent ++ (fd, byte cmsg_neighbours) ∷ [])
                ++ (sock, join_request (os.own_port s.listening_socket)) ∷ [])
          × Perm (sockets slots) (sock ∷ sockets s.neighbours)))
      × ((slots : List Contact) × ((after : Net) × (contact_run os' first second c m
              ≡ ok
                  (true, true)
                  (record c {
                    self_ip = known (os'.own_ip second);
                    neighbours = slots;
                    nb_neighbours = suc c.nb_neighbours;
                  })
                  after)
            × (after.sent
                ≡ (m.sent ++ (first, smsg_neighbours ∷ 0 ∷ []) ∷ [])
                  ++ (second, join_grant (os'.own_port c.listening_socket)) ∷ [])
            × (after.closed ≡ m.closed ++ first ∷ [])
            × Perm (sockets slots) (second ∷ sockets c.neighbours)))
join-both os os' s c n m attempts ip port fd sock first second table fresh room absent short_ip
      short_port listens connects connects_again apart hears granted table' fresh' room' alone
      listens' apart' polls asked requested =
    let text : Bytes = int_to_string (os'.own_port c.listening_socket) in
    let reads : read_string (length text ∷ text) ≡ some (text, []) =
      rw append-nil at (read_string-cons text [] (int_to_string-IsField _ listens')) in
    (
      join_network_through-bytes os attempts ip port s n fd sock [] fresh connects hears short_ip
          short_port absent connects_again listens text (length text ∷ text) [] table room apart
          granted reads,
      contact_runs os' c m first second (os.own_port s.listening_socket) table' fresh' room' alone
          listens' listens apart' polls asked requested,
    )
