-- ===== src/Server/Join/Answers.antt =====
-- What `handle_join_request` answers, and what it does to the table.
use gnutella.Base.{
  ℕ, suc, ◌<◌, ◌≡◌, refl, ◌∙◌, append-nil, true, false, Bytes, List, [], ◌∷◌, ◌++◌, Option, some,
  arith, length, if◌then◌else◌, ◌==◌,
}
use mathlib.Core.List.{Perm}
use gnutella.Net.{Os, Fd, Net, ok, pure, skip, ◌>>=◌, update, receive, send, transmit}
use gnutella.Net.Laws.{bind-ok, receive-some}
use gnutella.Wire.{read_byte, read_string, smsg_join}
use gnutella.Wire.Fields.{read_string-cons}
use gnutella.Util.{int_to_string}
use gnutella.Util.Decimal.{length-int_to_string-le, int_to_string-IsField}
use gnutella.Server.State.{Server, Contact, Srv, known, sockets, max_neighbours}
use gnutella.Server.Packets.{answer_join_request}
use gnutella.Server.Packets.RoundTrip.{smsg_join-bytes, smsg_join-refusal}
use gnutella.Server.Neighbours.{add_neighbour}
use gnutella.Server.Neighbours.Table.{IsTable, add_neighbour_room}
use gnutella.Server.Join.{join_answer, deduce_self_ip, handle_join_request}

pub transmit-some :
    {S : Type 0} (fd : Fd) {packet : Option Bytes} {bs : Bytes} (s : S) (n : Net)
    → packet ≡ some bs
    → transmit fd packet s n ≡ ok tt s (record n { sent = n.sent ++ (fd, bs) ∷ [] })
unfolding transmit send
transmit-some fd s n e = rw e refl

module _ (os : Os) (fd : Fd) (s : Server) (n : Net) (own rest0 rest port : Bytes) (rescue : ℕ)
    (ip : s.self_ip ≡ known own) (first : read_byte (n.inbox fd) ≡ some (rescue, rest0))
    (second : read_string rest0 ≡ some (port, rest)) where
  deduce-known : deduce_self_ip os fd s n ≡ ok tt s n
  unfolding deduce_self_ip
  deduce-known = rw ip refl

  -- The packet is read, and its bytes are gone from the stream.
  abbrev after_reads : Net
  after_reads = record n { inbox = update (update n.inbox fd rest0) fd rest }

  abbrev answer_with : ℕ → Srv ℕ
  answer_with answer = answer_join_request os fd answer >>= λ _.
      (if answer == 1 then add_neighbour fd port else skip) >>= λ _. pure answer

  reads :
      handle_join_request os fd s n
      ≡ (join_answer os s rescue >>= λ answer. answer_with answer) s after_reads
  unfolding handle_join_request
  reads =
      bind-ok (deduce_self_ip os fd) _ deduce-known
      ∙ bind-ok (receive fd read_byte) _ (receive-some fd read_byte s n first)
      ∙ bind-ok (receive fd read_string) _ (receive-some fd read_string s _ second')
    where
      second' : read_string (update n.inbox fd rest0 fd) ≡ some (port, rest)
      second' = let same : (fd == fd) ≡ true = ground arith in rw same second

  -- A whole request to join on a full table, with the server's IP known: whatever the rescue flag,
  -- the answer is 0, it is sent in two bytes, and the server stays as it is.
  pub handle_join_request_full :
      s.nb_neighbours ≡ max_neighbours
      → handle_join_request os fd s n
        ≡ ok 0 s (record after_reads { sent = n.sent ++ (fd, smsg_join ∷ 0 ∷ []) ∷ [] })
  unfolding join_answer answer_join_request
  handle_join_request_full full =
      reads
      ∙ bind-ok (join_answer os s rescue) _ refused
      ∙ bind-ok (answer_join_request os fd 0) _
          (transmit-some fd s after_reads (smsg_join-refusal _))
    where
      refused : join_answer os s rescue s after_reads ≡ ok 0 s after_reads
      refused = rw full refl

  abbrev own_port : Bytes
  own_port = int_to_string (os.own_port s.listening_socket)

  pub handle_join_request_rescue-bytes :
      IsTable s
      → rescue ≡ 1
      → s.nb_neighbours < max_neighbours
      → os.own_port s.listening_socket < 65536
      → (slots : List Contact) × (handle_join_request os fd s n
          ≡ ok 1
              (record s { neighbours = slots; nb_neighbours = suc s.nb_neighbours })
              (record after_reads {
                sent = n.sent ++ (fd, smsg_join ∷ 1 ∷ length own_port ∷ own_port) ∷ [];
              }))
        × Perm (sockets slots) (fd ∷ sockets s.neighbours)
  unfolding join_answer answer_join_request
  handle_join_request_rescue-bytes table asked room port_small =
      let packet = smsg_join-bytes own_port (length-int_to_string-le _ port_small) in
      let (slots, added, five, perm, fills) = add_neighbour_room fd port s _ table room in
      (
        slots,
        reads
            ∙ bind-ok (join_answer os s rescue) _ accepted
            ∙ bind-ok (answer_join_request os fd 1) _ (transmit-some fd s after_reads packet)
            ∙ bind-ok (add_neighbour fd port) _ added,
        perm,
      )
    where
      accepted : join_answer os s rescue s after_reads ≡ ok 1 s after_reads
      accepted =
          let not_full : (s.nb_neighbours == max_neighbours) ≡ false = ground arith in
          rw not_full (rw asked refl)

  -- A whole request to join with the rescue flag, on a well-formed table with room, with the
  -- server's IP known and a listening port below 65536: the answer is 1 and carries the listening
  -- port, and the socket takes a slot, beside those that were in use.
  pub handle_join_request_rescue :
      IsTable s
      → rescue ≡ 1
      → s.nb_neighbours < max_neighbours
      → os.own_port s.listening_socket < 65536
      → (slots : List Contact) × ((payload : Bytes) × (handle_join_request os fd s n
            ≡ ok 1
                (record s { neighbours = slots; nb_neighbours = suc s.nb_neighbours })
                (record after_reads { sent = n.sent ++ (fd, smsg_join ∷ 1 ∷ payload) ∷ [] }))
          × (read_string payload ≡ some (int_to_string (os.own_port s.listening_socket), []))
          × Perm (sockets slots) (fd ∷ sockets s.neighbours))
  handle_join_request_rescue table asked room port_small =
      let (slots, answers, perm) = handle_join_request_rescue-bytes table asked room port_small in
      let field = int_to_string-IsField (os.own_port s.listening_socket) port_small in
      (
        slots,
        (
          length own_port ∷ own_port,
          answers,
          rw append-nil at (read_string-cons own_port [] field),
          perm,
        ),
      )
