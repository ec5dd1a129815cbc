-- ===== src/Server/Join/Invariant.antt =====
-- Invariants of the server through the operations of server_join.c: any predicate that survives
-- the changes of the table and of `self_ip` survives them all.
use gnutella.Base.{
  ℕ, zero, suc, ◌++◌, Bool, true, false, Bytes, List, [], ◌∷◌, none, some, Option-cases, inl, inr,
  if◌then◌else◌, ◌==◌, ltb, arith, ◌≡◌,
}
use gnutella.Net.{Os, Fd, Net, get_state, skip, pure, ◌>>=◌}
use gnutella.Net.Laws.{bind-ok}
use gnutella.Net.Invariants.{
  Always, Keeps, keeping, Keeps-bind, Keeps-if, Keeps-pure, Keeps-get, Keeps-ask, Keeps-receive,
  Keeps-close, Keeps-send, Keeps-transmit, Keeps-stop,
}
use gnutella.Wire.{read_byte, read_string, read_machine}
use gnutella.Server.State.{
  Server, Contact, Srv, SelfIp, known, released, read_self_ip, min_neighbours,
}
use gnutella.Server.Packets.{send_neighbours_request, send_join_request, answer_join_request}
use gnutella.Server.Neighbours.{add_neighbour, ensure_absent_ip, drop_neighbour}
use gnutella.Server.Neighbours.Table.{Holds, without, drop_neighbour_used}
use gnutella.Server.Join.{
  join, handle_join_response, handle_join_responses, join_answer, deduce_self_ip,
  handle_join_request, deduce_and_free, is_self, store_contact, join_listed, join_contact,
  for_contacts, join_through_socket, join_network_through, rejoin_through, handle_leave,
}

pub record IsJoinStable (P : Server → Type 0) : Type 0 where
  pub adds : (fd : Fd) (port : Bytes) → Keeps P (add_neighbour fd port)
  pub renames : (s : Server) (ip : SelfIp) → P s → P (record s { self_ip = ip })
  pub drops : (i : ℕ) (s : Server) {fd : Fd} → P s → Holds i fd s → P (without i s)

module _ (os : Os) {P : Server → Type 0} (stable : IsJoinStable P) where
  handle_join_response-Keeps : (s : Fd) → Keeps P (handle_join_response os s)
  unfolding handle_join_response
  handle_join_response-Keeps s = search keeping

  handle_join_responses-Keeps : (fds : List Fd) → Keeps P (handle_join_responses os fds)
  unfolding handle_join_responses
  handle_join_responses-Keeps [] = search keeping
  handle_join_responses-Keeps (s ∷ fds) = Keeps-bind (handle_join_response-Keeps s) λ res.
      Keeps-bind
        (Keeps-if (res == 1) (Keeps-bind (Keeps-receive s read_string) λ port. stable.adds s port)
          (Keeps-close s))
        λ _. handle_join_responses-Keeps fds

  join_answer-Keeps : (s : Server) (rescue : ℕ) → Keeps P (join_answer os s rescue)
  unfolding join_answer
  join_answer-Keeps s rescue = search keeping depth 8

  deduce_self_ip-Keeps : (fd : Fd) → Keeps P (deduce_self_ip os fd)
  unfolding deduce_self_ip
  deduce_self_ip-Keeps fd = record {
    after =
        λ s n t. ground (arith, stable.renames s (known (os.own_ip fd)), stable.renames s released);
  }

  deduce_and_free-Keeps : (fd : Fd) → Keeps P (deduce_and_free os fd)
  unfolding deduce_and_free
  deduce_and_free-Keeps fd = record {
    after =
        λ s n t. ground (arith, stable.renames s (known (os.own_ip fd)), stable.renames s released);
  }

  answer_join_request-Keeps : (fd : Fd) (a : ℕ) → Keeps P (answer_join_request os fd a)
  unfolding answer_join_request
  answer_join_request-Keeps fd a = search keeping

  -- `handle_join_request` keeps the invariant.
  pub handle_join_request-Keeps : (fd : Fd) → Keeps P (handle_join_request os fd)
  unfolding handle_join_request
  handle_join_request-Keeps fd = Keeps-bind (deduce_self_ip-Keeps fd) λ _.
      Keeps-bind (Keeps-receive fd read_byte) λ rescue.
        Keeps-bind (Keeps-receive fd read_string) λ port. Keeps-bind Keeps-get λ server.
          Keeps-bind (join_answer-Keeps server rescue) λ answer.
            Keeps-bind (answer_join_request-Keeps fd answer) λ _.
              Keeps-bind (Keeps-if (answer == 1) (stable.adds fd port) (Keeps-pure tt))
                λ _. Keeps-pure answer

  send_neighbours_request-Keeps : (ip port : Bytes) → Keeps P (send_neighbours_request os ip port)
  unfolding send_neighbours_request
  send_neighbours_request-Keeps ip port = Keeps-bind (Keeps-ask _) (elim [
    | none ↦ Keeps-pure none
    | some socket ↦ Keeps-bind (Keeps-send socket _) λ _. Keeps-pure (some socket)
  ])

  send_join_request-Keeps :
      (ip port : Bytes) (rescue : ℕ) → Keeps P (send_join_request os ip port rescue)
  unfolding send_join_request
  send_join_request-Keeps ip port rescue = Keeps-bind (Keeps-ask _) (elim [
    | none ↦ Keeps-pure none
    | some socket ↦
        Keeps-bind Keeps-get
          λ server. Keeps-bind (Keeps-transmit socket _) λ _. Keeps-pure (some socket)
  ])

  join-Keeps : (ip port : Bytes) (force : ℕ) (fds : List Fd) → Keeps P (join os ip port force fds)
  unfolding join
  join-Keeps ip port force fds = Keeps-bind Keeps-get λ server.
      Keeps-if (ensure_absent_ip os server.neighbours ip port)
        (Keeps-bind (send_join_request-Keeps ip port force) λ res. Keeps-pure _) (Keeps-pure fds)

  is_self-Keeps : (ip : Bytes) → Keeps P (is_self os ip)
  unfolding is_self read_self_ip
  is_self-Keeps ip = record { after = λ s n t. ground arith }

  store_contact-Keeps :
      (ip port : Bytes) (cs : List (Bytes × Bytes)) → Keeps P (store_contact os ip port cs)
  unfolding store_contact
  store_contact-Keeps ip port cs = Keeps-if _ (Keeps-pure _) (Keeps-stop _)

  join_listed-Keeps :
      (fd : Fd) (left : ℕ) (cs : List (Bytes × Bytes)) (fds : List Fd)
      → Keeps P (join_listed os fd left cs fds)
  unfolding join_listed
  join_listed-Keeps fd zero cs fds = Keeps-pure (cs, fds)
  join_listed-Keeps fd (suc left) cs fds = Keeps-bind (Keeps-receive fd read_machine) λ (ip, port).
      Keeps-bind (is_self-Keeps ip) λ self. Keeps-if self (join_listed-Keeps fd left cs fds) (
        Keeps-bind (store_contact-Keeps ip port cs)
          λ cs'. Keeps-bind (join-Keeps ip port 0 fds) λ fds'. join_listed-Keeps fd left cs' fds')

  join_contact-Keeps :
      (ip port : Bytes) (nb : ℕ) (cs : List (Bytes × Bytes)) (fds : List Fd)
      → Keeps P (join_contact os ip port nb cs fds)
  unfolding join_contact
  join_contact-Keeps ip port nb cs fds =
      Keeps-if _
        (Keeps-bind (store_contact-Keeps ip port cs)
          λ cs'. Keeps-bind (join-Keeps ip port _ fds) λ fds'. Keeps-pure (cs', fds'))
        (Keeps-pure (cs, fds))

  for_contacts-Keeps :
      (go : Bytes → Bytes → Srv Bool) (cs : List (Bytes × Bytes))
      → ((ip port : Bytes) → Keeps P (go ip port))
      → Keeps P (for_contacts os go cs)
  unfolding for_contacts
  for_contacts-Keeps go [] h = Keeps-pure tt
  for_contacts-Keeps go ((ip, port) ∷ cs) h = Keeps-bind (h ip port) λ _. for_contacts-Keeps go cs h

  join_through_socket-Keeps :
      (again : Bytes → Bytes → Srv Bool) (ip port : Bytes) (fd : Fd)
      → ((ip' port' : Bytes) → Keeps P (again ip' port'))
      → Keeps P (join_through_socket os again ip port fd)
  unfolding join_through_socket
  join_through_socket-Keeps again ip port fd h = Keeps-bind (Keeps-receive fd read_byte) λ nb.
      Keeps-bind (join_listed-Keeps fd nb [] []) λ (cs, fds). Keeps-bind (Keeps-close fd) λ _.
        Keeps-bind (join_contact-Keeps ip port nb cs fds) λ (cs', fds').
          Keeps-bind (handle_join_responses-Keeps fds') λ _. Keeps-bind Keeps-get λ server.
            Keeps-bind (Keeps-if _ (for_contacts-Keeps again cs' h) (Keeps-pure tt))
              λ _. Keeps-pure true

  pub join_network_through-Keeps :
      (k : ℕ) (ip port : Bytes) → Keeps P (join_network_through os k ip port)
  unfolding join_network_through
  join_network_through-Keeps zero ip port = Keeps-pure true
  join_network_through-Keeps (suc k) ip port =
      Keeps-bind (send_neighbours_request-Keeps ip port) (elim [
        | none ↦ Keeps-pure false
        | some fd ↦ Keeps-bind (deduce_and_free-Keeps fd) λ _.
            Keeps-bind (Keeps-receive fd read_byte) λ opcode.
              Keeps-if _
                (join_through_socket-Keeps (join_network_through os k) ip port fd
                  (join_network_through-Keeps k))
                (Keeps-bind (Keeps-close fd) λ _. Keeps-pure false)
      ])

  rejoin_through-Keeps : (cs : List Contact) → Keeps P (rejoin_through os cs)
  unfolding rejoin_through
  rejoin_through-Keeps [] = Keeps-pure tt
  rejoin_through-Keeps (c ∷ cs) = elim (Option-cases c.sock) [
    | inl free ↦ rw free (rejoin_through-Keeps cs)
    | inr (fd, used) ↦ rw used (
        Keeps-if _ (rejoin_through-Keeps cs)
          (Keeps-bind (join_network_through-Keeps _ _ _) λ _. Keeps-pure tt))
  ]

  leave_rest : Srv Bool
  leave_rest = get_state >>= λ server.
      (if ltb server.nb_neighbours min_neighbours
        then rejoin_through os server.neighbours
        else skip)
      >>= λ _. get_state >>= λ after. pure (after.nb_neighbours == 0)

  leave_rest-Keeps : Keeps P leave_rest
  unfolding leave_rest
  leave_rest-Keeps = Keeps-bind Keeps-get λ server.
      Keeps-bind (Keeps-if _ (rejoin_through-Keeps server.neighbours) (Keeps-pure tt))
        λ _. Keeps-bind Keeps-get λ after. Keeps-pure _

  handle_leave-rest :
      (i : ℕ) (s : Server) (n : Net) {fd : Fd}
      → Holds i fd s
      → handle_leave os i s n ≡ leave_rest (without i s) (record n { closed = n.closed ++ fd ∷ [] })
  unfolding handle_leave leave_rest
  handle_leave-rest i s n h = bind-ok (drop_neighbour i) _ (drop_neighbour_used i s n h)

  -- `handle_leave` on a slot in use, with all that it starts to find new neighbours, keeps
  -- the invariant, however the other machines answer.
  pub handle_leave-Keeps :
      (i : ℕ) (s : Server) (n : Net) {fd : Fd}
      → P s
      → Holds i fd s
      → Always P (handle_leave os i s n)
  handle_leave-Keeps i s n t h =
      rw (handle_leave-rest i s n h) (leave_rest-Keeps.after (without i s) _ (stable.drops i s t h))
