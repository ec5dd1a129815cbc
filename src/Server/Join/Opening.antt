-- ===== src/Server/Join/Opening.antt =====
-- What `join_network_through` does first: the connection, the IP that it deduces, and the number of
-- machines that the contact lists.
use gnutella.Base.{
  ℕ, suc, ◌≤◌, ◌≡◌, refl, ◌∙◌, true, false, Bytes, [], ◌∷◌, ◌++◌, some, arith, length, ◌&&◌, ltb,
}
use gnutella.Net.{Os, Fd, Net, ok, fault, dangling, overflow, update, receive, send, ask, close}
use gnutella.Net.Laws.{bind-ok, bind-fault, receive-some}
use gnutella.Wire.{byte, read_byte, read_machine, cmsg_neighbours, smsg_neighbours}
use gnutella.Server.State.{Server, unset, released, read_self_ip, max_neighbours}
use gnutella.Server.Packets.{send_neighbours_request}
use gnutella.Server.Join.{
  deduce_and_free, is_self, store_contact, join_listed, join_contact, join_through_socket,
  join_network_through,
}

module _ (os : Os) (attempts : ℕ) (ip port : Bytes) (s : Server) (n : Net) (fd : Fd) (nb : ℕ)
    (stream : Bytes) (fresh : s.self_ip ≡ unset) (connects : os.connect n.clock ip port ≡ some fd)
    (brings : n.inbox fd ≡ smsg_neighbours ∷ nb ∷ stream) where
  abbrev asked : Net
  asked = record n { clock = suc n.clock; sent = n.sent ++ (fd, byte cmsg_neighbours) ∷ [] }

  -- `self_ip` points at a freed block from here on.
  abbrev pub deduced : Server
  deduced = record s { self_ip = released }

  abbrev pub opened : Net
  opened = record asked { inbox = update n.inbox fd (nb ∷ stream) }

  pub join_network_through-opens :
      join_network_through os (suc attempts) ip port s n
      ≡ join_through_socket os (join_network_through os attempts) ip port fd deduced opened
  unfolding join_network_through
  join_network_through-opens =
      bind-ok (send_neighbours_request os ip port) _ sends
      ∙ bind-ok (deduce_and_free os fd) _ deduces
      ∙ bind-ok (receive fd read_byte) _ (receive-some fd read_byte deduced asked reads)
    where
      sends : send_neighbours_request os ip port s n ≡ ok (some fd) s asked
      sends = unfold send_neighbours_request in unfold ask in unfold send in rw connects refl

      deduces : deduce_and_free os fd s asked ≡ ok tt deduced asked
      deduces = unfold deduce_and_free in rw fresh refl

      reads : read_byte (n.inbox fd) ≡ some (smsg_neighbours, nb ∷ stream)
      reads = unfold read_byte in rw brings refl

  abbrev pub counted : Net
  counted = record opened { inbox = update opened.inbox fd stream }

  pub hit : (f : Fd → Bytes) (bs : Bytes) → update f fd bs fd ≡ bs
  hit f bs = ground arith

  pub counts : receive fd read_byte deduced opened ≡ ok nb deduced counted
  counts =
      receive-some fd read_byte deduced opened
        (unfold read_byte in rw (hit n.inbox (nb ∷ stream)) refl)

  -- With a machine in the list: its IP is compared with the freed one.
  pub join_network_through-dangling :
      {left : ℕ} {machine : Bytes × Bytes} {more : Bytes}
      → nb ≡ suc left
      → read_machine stream ≡ some (machine, more)
      → join_network_through os (suc attempts) ip port s n ≡ fault dangling
  unfolding join_through_socket
  join_network_through-dangling {left} {machine} {more} many lists =
      join_network_through-opens
      ∙ bind-ok (receive fd read_byte) _ counts
      ∙ bind-fault (join_listed os fd nb [] []) _ (first nb many)
    where
      stands : read_machine (counted.inbox fd) ≡ some (machine, more)
      stands = rw (hit opened.inbox stream) lists

      compares : (k : Net) → is_self os machine.0 deduced k ≡ fault dangling
      compares k = unfold is_self in unfold read_self_ip in refl

      first_of_more : join_listed os fd (suc left) [] [] deduced counted ≡ fault dangling
      first_of_more =
          unfold join_listed in
          bind-ok (receive fd read_machine) _ (receive-some fd read_machine deduced counted stands)
          ∙ bind-fault (is_self os machine.0) _ (compares _)

      first : (m : ℕ) → m ≡ suc left → join_listed os fd m [] [] deduced counted ≡ fault dangling
      first m e = rw e first_of_more

  -- With no machine in the list: the contact's port is copied into six bytes.
  pub join_network_through-overflow :
      nb ≡ 0 → 6 ≤ length port → join_network_through os (suc attempts) ip port s n ≡ fault overflow
  unfolding join_through_socket
  join_network_through-overflow none_listed long =
      join_network_through-opens
      ∙ bind-ok (receive fd read_byte) _ counts
      ∙ bind-ok (join_listed os fd nb [] []) _ (lists nb none_listed)
      ∙ bind-ok (close fd) _ closes
      ∙ bind-fault (join_contact os ip port nb [] []) _ (contact nb none_listed)
    where
      lists :
          (m : ℕ) → m ≡ 0 → join_listed os fd m [] [] deduced counted ≡ ok ([], []) deduced counted
      lists m e = unfold join_listed in rw e refl

      closes :
          close fd deduced counted ≡ ok tt deduced (record counted { closed = n.closed ++ fd ∷ [] })
      closes = unfold close in refl

      stores : (k : Net) → store_contact os ip port [] deduced k ≡ fault overflow
      stores k =
          let too_long : ltb (length port) 6 ≡ false = ground arith in
          let test : (ltb (length ip) 47 && ltb (length port) 6) ≡ false = ground arith in
          unfold store_contact in rw test refl

      contact :
          (m : ℕ)
          → m ≡ 0
          → join_contact os ip port m [] [] deduced
              (record counted { closed = n.closed ++ fd ∷ [] })
            ≡ fault overflow
      contact m e =
          let room : ltb m max_neighbours ≡ true = ground arith in
          unfold join_contact in rw room (bind-fault (store_contact os ip port []) _ (stores _))
