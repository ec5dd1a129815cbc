-- ===== src/Server/Join/Alone.antt =====
-- Joining the network through a contact that has no neighbour: it is asked to take us for rescue.
use gnutella.Base.{
  ℕ, suc, ◌<◌, ◌≡◌, ◌≢◌, refl, ◌∙◌, true, false, Bytes, List, [], ◌∷◌, ◌++◌, some, arith, length,
  ◌&&◌, ltb, ◌==◌,
}
use mathlib.Core.List.{Perm}
use gnutella.Net.{Os, Fd, Net, ok, ◌>>=◌, update, receive, send, ask, close, transmit, assert}
use gnutella.Net.Laws.{bind-ok, receive-some}
use gnutella.Wire.{
  byte, read_byte, read_string, cmsg_neighbours, cmsg_join, smsg_neighbours, smsg_join,
}
use gnutella.Util.{int_to_string}
use gnutella.Util.Decimal.{length-int_to_string-le}
use gnutella.Server.State.{Server, Contact, unset, sockets, max_neighbours}
use gnutella.Server.Packets.{send_join_request}
use gnutella.Server.Packets.RoundTrip.{cmsg_join-bytes}
use gnutella.Server.Neighbours.{add_neighbour, ensure_absent_ip}
use gnutella.Server.Neighbours.Table.{IsTable, add_neighbour_room}
use gnutella.Server.Join.{
  join, handle_join_response, handle_join_responses, store_contact, join_listed, join_contact,
  join_through_socket, join_network_through,
}
use gnutella.Server.Join.Opening.{deduced, opened, counted, counts, join_network_through-opens}

-- One socket whose answer is yes: it becomes a neighbour.
module _ (os : Os) (fd : Fd) (s : Server) (n : Net) (port payload rest : Bytes)
    (brings : n.inbox fd ≡ smsg_join ∷ 1 ∷ payload)
    (named : read_string payload ≡ some (port, rest)) (table : IsTable s)
    (room : s.nb_neighbours < max_neighbours) where
  abbrev told : Bytes → Net
  told bs = record n { inbox = update n.inbox fd bs }

  abbrev told_one : Net
  told_one = record n { inbox = update (told (1 ∷ payload)).inbox fd payload }

  abbrev pub told_all : Net
  told_all = record n { inbox = update told_one.inbox fd rest }

  hit : (f : Fd → Bytes) (bs : Bytes) → update f fd bs fd ≡ bs
  hit f bs = ground arith

  response : handle_join_response os fd s n ≡ ok 1 s told_one
  unfolding handle_join_response assert
  response =
      let opcode : read_byte (n.inbox fd) ≡ some (smsg_join, 1 ∷ payload) =
        unfold read_byte in rw brings refl in
      let flag : read_byte ((told (1 ∷ payload)).inbox fd) ≡ some (1, payload) =
        unfold read_byte in rw (hit n.inbox (1 ∷ payload)) refl in
      bind-ok (receive fd read_byte) _ (receive-some fd read_byte s n opcode)
      ∙ receive-some fd read_byte s (told (1 ∷ payload)) flag

  pub handle_join_responses-yes :
      (slots : List Contact) × (handle_join_responses os (fd ∷ []) s n
        ≡ ok tt (record s { neighbours = slots; nb_neighbours = suc s.nb_neighbours }) told_all)
      × Perm (sockets slots) (fd ∷ sockets s.neighbours)
  unfolding handle_join_responses
  handle_join_responses-yes =
      let (slots, added, five, perm, fills) = add_neighbour_room fd port s told_all table room in
      let port_read : read_string (told_one.inbox fd) ≡ some (port, rest) =
        rw (hit (told (1 ∷ payload)).inbox payload) named in
      (
        slots,
        bind-ok (handle_join_response os fd) _ response
            ∙ bind-ok (receive fd read_string >>= add_neighbour fd) _ (
                bind-ok (receive fd read_string) _
                  (receive-some fd read_string s told_one port_read)
                ∙ added),
        perm,
      )

module _ (os : Os) (attempts : ℕ) (ip port : Bytes) (s : Server) (n : Net) (fd own : Fd)
    (stream : Bytes) (fresh : s.self_ip ≡ unset) (connects : os.connect n.clock ip port ≡ some fd)
    (brings : n.inbox fd ≡ smsg_neighbours ∷ 0 ∷ stream) (short_ip : length ip < 47)
    (short_port : length port < 6) (absent : ensure_absent_ip os s.neighbours ip port ≡ true)
    (connects_again : os.connect (suc n.clock) ip port ≡ some own)
    (listens : os.own_port s.listening_socket < 65536) where
  abbrev ours : Server
  ours = deduced os attempts ip port s n fd 0 stream fresh connects brings

  abbrev heard : Net
  heard = counted os attempts ip port s n fd 0 stream fresh connects brings

  abbrev closed_first : Net
  closed_first = record heard { closed = n.closed ++ fd ∷ [] }

  -- The contact is asked with the rescue flag.
  abbrev asked_for : Bytes → Net
  asked_for payload = record closed_first {
    clock = suc (suc n.clock);
    sent = (n.sent ++ (fd, byte cmsg_neighbours) ∷ []) ++ (own, cmsg_join ∷ 1 ∷ payload) ∷ [];
  }

  abbrev own_port : Bytes
  own_port = int_to_string (os.own_port s.listening_socket)

  asks :
      join_contact os ip port 0 [] [] ours closed_first
      ≡ ok ((ip, port) ∷ [], own ∷ []) ours (asked_for (length own_port ∷ own_port))
  asks =
      let packet = cmsg_join-bytes 1 own_port (omega arith) (length-int_to_string-le _ listens) in
      let stores : store_contact os ip port [] ours closed_first
          ≡ ok ((ip, port) ∷ []) ours closed_first =
        (let test : (ltb (length ip) 47 && ltb (length port) 6) ≡ true = ground arith in
          unfold store_contact in rw test refl) in
      let request : send_join_request os ip port 1 ours closed_first
          ≡ ok (some own) ours (asked_for (length own_port ∷ own_port)) =
        unfold send_join_request in
        unfold ask in unfold transmit in unfold send in rw (connects_again, packet) refl in
      let joins : join os ip port 1 [] ours closed_first
          ≡ ok (own ∷ []) ours (asked_for (length own_port ∷ own_port)) =
        unfold join in rw absent (bind-ok (send_join_request os ip port 1) _ request) in
      unfold join_contact in
      bind-ok (store_contact os ip port []) _ stores ∙ bind-ok (join os ip port 1 []) _ joins

  pub join_network_through-bytes :
      (contact_port answer rest : Bytes)
      → IsTable s
      → s.nb_neighbours < max_neighbours
      → own ≢ fd
      → n.inbox own ≡ smsg_join ∷ 1 ∷ answer
      → read_string answer ≡ some (contact_port, rest)
      → (slots : List Contact) × ((after : Net) × (join_network_through os
              (suc attempts)
              ip
              port
              s
              n
            ≡ ok true
                (record ours { neighbours = slots; nb_neighbours = suc s.nb_neighbours })
                after)
          × (after.sent
              ≡ (n.sent ++ (fd, byte cmsg_neighbours) ∷ [])
                ++ (own, cmsg_join ∷ 1 ∷ length own_port ∷ own_port) ∷ [])
          × Perm (sockets slots) (own ∷ sockets s.neighbours))
  unfolding join_through_socket
  join_network_through-bytes contact_port answer rest table room other says named =
      let passes : update heard_first.inbox fd stream own ≡ smsg_join ∷ 1 ∷ answer =
        let apart : (fd == own) ≡ false = ground arith in rw apart says in
      let ours_table : IsTable ours = record { slots = table.slots; counted = table.counted } in
      let (slots, joined, perm) =
        handle_join_responses-yes os own ours (asked_for (length own_port ∷ own_port)) contact_port
          answer rest passes named ours_table room in
      (
        slots,
        (
          _,
          join_network_through-opens os attempts ip port s n fd 0 stream fresh connects brings
              ∙ bind-ok (receive fd read_byte) _
                  (counts os attempts ip port s n fd 0 stream fresh connects brings)
              ∙ bind-ok (join_listed os fd 0 [] []) _ lists
              ∙ bind-ok (close fd) _ closes
              ∙ bind-ok (join_contact os ip port 0 [] []) _ asks
              ∙ bind-ok (handle_join_responses os (own ∷ [])) _ joined,
          refl,
          perm,
        ),
      )
    where
      heard_first : Net
      heard_first = opened os attempts ip port s n fd 0 stream fresh connects brings

      lists : join_listed os fd 0 [] [] ours heard ≡ ok ([], []) ours heard
      lists = unfold join_listed in refl

      closes : close fd ours heard ≡ ok tt ours closed_first
      closes = unfold close in refl
