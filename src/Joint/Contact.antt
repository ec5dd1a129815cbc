-- ===== src/Joint/Contact.antt =====
-- The contact's side of a join: the two sockets of the machine that joins, each taken by
-- `handle_awaiting_socket`.
use gnutella.Base.{
  ℕ, suc, ◌<◌, ◌≡◌, refl, ◌∙◌, Bytes, List, [], ◌∷◌, ◌++◌, append-nil, some, arith, length,
}
use mathlib.Core.List.{Perm}
use gnutella.Net.{Os, Fd, Net, ready, ok, update, receive, ask}
use gnutella.Net.Laws.{bind-ok, receive-some}
use gnutella.Wire.{
  byte, joined, machine_fields, read_byte, read_string, cmsg_neighbours, smsg_neighbours, cmsg_join,
  smsg_join,
}
use gnutella.Wire.Fields.{IsField, read_string-cons}
use gnutella.Wire.Packs.{shortness, pack-joined}
use gnutella.Util.{int_to_string}
use gnutella.Server.State.{Server, Contact, unset, known, sockets, max_neighbours}
use gnutella.Server.Packets.{smsg_neighbours_packet, send_neighbours_list}
use gnutella.Server.Neighbours.{known_machines, compute_and_send_neighbours}
use gnutella.Server.Neighbours.Table.{IsTable}
use gnutella.Server.Join.{deduce_self_ip, handle_join_request}
use gnutella.Server.Join.Answers.{transmit-some, handle_join_request_rescue-bytes}
use gnutella.Server.Loop.{await_close, await_keep, handle_awaiting_socket}

module _ (os : Os) (fd : Fd) (s : Server) (n : Net) (polls : os.poll n.clock fd ≡ ready) where
  abbrev polled : Net
  polled = record n { clock = suc n.clock }

  abbrev opened : Bytes → Net
  opened payload = record polled { inbox = update n.inbox fd payload }

  asks : ask (λ t. os.poll t fd) s n ≡ ok ready s polled
  asks = unfold ask in rw polls refl

  opens :
      {b : ℕ} {rest : Bytes}
      → n.inbox fd ≡ b ∷ rest
      → receive fd read_byte s polled ≡ ok b s (opened rest)
  opens e = receive-some fd read_byte s polled (unfold read_byte in rw e refl)

  empty_list : smsg_neighbours_packet [] ≡ some (smsg_neighbours ∷ 0 ∷ [])
  unfolding smsg_neighbours_packet joined machine_fields
  empty_list =
      pack-joined _ (byte smsg_neighbours ∷ byte 0 ∷ []) (search shortness depth 12) (omega arith)

  -- A machine without neighbours tells so, and the socket is closed.
  pub handle_awaiting_socket-neighbours :
      (rest : Bytes)
      → known_machines os s.neighbours ≡ []
      → n.inbox fd ≡ cmsg_neighbours ∷ rest
      → handle_awaiting_socket os fd s n
        ≡ ok await_close s
            (record (opened rest) { sent = n.sent ++ (fd, smsg_neighbours ∷ 0 ∷ []) ∷ [] })
  unfolding handle_awaiting_socket
  handle_awaiting_socket-neighbours rest alone brings =
      bind-ok (ask (λ t. os.poll t fd)) _ asks
      ∙ bind-ok (receive fd read_byte) _ (opens brings)
      ∙ bind-ok (compute_and_send_neighbours os fd) _ tells
    where
      tells :
          compute_and_send_neighbours os fd s (opened rest)
          ≡ ok tt s (record (opened rest) { sent = n.sent ++ (fd, smsg_neighbours ∷ 0 ∷ []) ∷ [] })
      tells =
          unfold compute_and_send_neighbours in
          unfold send_neighbours_list in rw alone (transmit-some fd s (opened rest) empty_list)

  abbrev named : Server
  named = record s { self_ip = known (os.own_ip fd) }

  -- The IP that the first request to join brings.
  deduces :
      (m : Net)
      → s.self_ip ≡ unset
      → handle_join_request os fd s m ≡ handle_join_request os fd named m
  unfolding handle_join_request deduce_self_ip
  deduces m fresh = rw fresh refl

  -- A request to join for rescue is granted, with our listening port, and its socket kept.
  pub handle_awaiting_socket-join :
      (port : Bytes)
      → IsField port
      → IsTable s
      → s.self_ip ≡ unset
      → s.nb_neighbours < max_neighbours
      → os.own_port s.listening_socket < 65536
      → n.inbox fd ≡ cmsg_join ∷ 1 ∷ length port ∷ port
      → (slots : List Contact) × ((after : Net) × (handle_awaiting_socket os fd s n
            ≡ ok await_keep
                (record named { neighbours = slots; nb_neighbours = suc s.nb_neighbours })
                after)
          × (after.sent
              ≡ n.sent
                ++ (
                  fd,
                  smsg_join
                      ∷ 1
                      ∷ length (int_to_string (os.own_port s.listening_socket))
                      ∷ int_to_string (os.own_port s.listening_socket),
                )
                  ∷ [])
          × (after.closed ≡ n.closed)
          × Perm (sockets slots) (fd ∷ sockets s.neighbours))
  unfolding handle_awaiting_socket
  handle_awaiting_socket-join port field table fresh room listens brings =
      let flag : read_byte ((opened (1 ∷ length port ∷ port)).inbox fd)
          ≡ some (1, length port ∷ port) =
        unfold read_byte in rw (hit n.inbox (1 ∷ length port ∷ port)) refl in
      let text : read_string (length port ∷ port) ≡ some (port, []) =
        rw append-nil at (read_string-cons port [] field) in
      let named_table : IsTable named = record { slots = table.slots; counted = table.counted } in
      let (slots, grants, perm) =
        handle_join_request_rescue-bytes os fd named (opened (1 ∷ length port ∷ port))
          (os.own_ip fd) (length port ∷ port) [] port 1 refl flag text named_table refl room
          listens in
      (
        slots,
        (
          _,
          bind-ok (ask (λ t. os.poll t fd)) _ asks
              ∙ bind-ok (receive fd read_byte) _ (opens brings)
              ∙ bind-ok (handle_join_request os fd) _
                  (deduces (opened (1 ∷ length port ∷ port)) fresh ∙ grants),
          refl,
          refl,
          perm,
        ),
      )
    where
      hit : (f : Fd → Bytes) (bs : Bytes) → update f fd bs fd ≡ bs
      hit f bs = ground arith
