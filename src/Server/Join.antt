-- ===== src/Server/Join.antt =====
-- server_join.c: joining the network, answering a join request, and the departure of a neighbour.
pub mod Invariant
pub mod Answers
pub mod Opening
pub mod Alone
use gnutella.Base.{
  ℕ, zero, suc, ◌+◌, ◌%◌, Bool, true, false, not, ◌&&◌, ◌||◌, Bytes, List, [], ◌∷◌, ◌++◌, Option,
  none, some, length, if◌then◌else◌, ◌==◌, ltb, str_eq,
}
use gnutella.Net.{
  Os, Fd, Net, Cmd, Fault, overflow, ok, skip, pure, stop, ◌>>=◌, ◌>>◌, get_state, put_state,
  receive, send, transmit, close, ask, assert,
}
use gnutella.Wire.{read_byte, read_string, read_machine, smsg_join, smsg_neighbours}
use gnutella.Util.{int_to_string}
use gnutella.Server.State.{
  Server, Contact, Srv, SelfIp, unset, known, released, read_self_ip, max_neighbours,
  min_neighbours, join_max_attempts,
}
use gnutella.Server.Packets.{send_neighbours_request, send_join_request, answer_join_request}
use gnutella.Server.Neighbours.{add_neighbour, ensure_absent_ip, drop_neighbour}

module _ (os : Os) where
  -- `join`: the socket goes to the list of those whose answer is awaited.
  unfoldable pub join : Bytes → Bytes → ℕ → List Fd → Srv (List Fd)
  join ip port force awaiting = do
    server ← get_state
    if ensure_absent_ip os server.neighbours ip port
        then (do
          res ← send_join_request os ip port force
          pure (elim res [ none ↦ awaiting | some socket ↦ awaiting ++ socket ∷ [] ]))
        else pure awaiting

  -- `handle_join_response`
  unfoldable pub handle_join_response : Fd → Srv ℕ
  handle_join_response s = do
    opcode ← receive s read_byte
    assert (opcode == smsg_join)
    receive s read_byte

  -- `handle_join_responses`
  unfoldable pub handle_join_responses : List Fd → Srv (Unit {0})
  handle_join_responses [] = skip
  handle_join_responses (s ∷ targets) = do
    res ← handle_join_response s
    (if res == 1 then (do port ← receive s read_string; add_neighbour s port) else close s)
    handle_join_responses targets

  -- The answer of `handle_join_request`.
  unfoldable pub join_answer : Server → ℕ → Srv ℕ
  join_answer server rescue =
      if server.nb_neighbours == max_neighbours
      then pure 0
      else if rescue == 1
      then pure 1
      else do r ← ask os.rand; pure (if ltb (r % 100) 50 then 1 else 0)

  -- `server->self_ip` is deduced from the socket while it is NULL.
  unfoldable pub deduce_self_ip : Fd → Srv (Unit {0})
  deduce_self_ip sock = do
    server ← get_state
    elim server.self_ip [
      | unset ↦ put_state (record server { self_ip = known (os.own_ip sock) })
      | known _ ↦ skip
      | released ↦ skip
    ]

  -- `handle_join_request`: the answer that was sent.
  unfoldable pub handle_join_request : Fd → Srv ℕ
  handle_join_request sock = do
    deduce_self_ip sock
    rescue ← receive sock read_byte
    port ← receive sock read_string
    server ← get_state
    answer ← join_answer server rescue
    answer_join_request os sock answer
    (if answer == 1 then add_neighbour sock port else skip)
    pure answer

  -- `join_network_through` keeps the IP that it deduces and frees it at once.
  unfoldable pub deduce_and_free : Fd → Srv (Unit {0})
  deduce_and_free socket = do
    server ← get_state
    elim server.self_ip [
      | unset ↦ put_state (record server { self_ip = released })
      | known _ ↦ skip
      | released ↦ skip
    ]

  -- `strcmp(current_ip, server->self_ip) == 0` behind its test for NULL.
  unfoldable pub is_self : Bytes → Srv Bool
  is_self ip = do
    server ← get_state
    elim server.self_ip [
      | unset ↦ pure false
      | known own ↦ pure (str_eq ip own)
      | released ↦ (do own ← read_self_ip server.self_ip; pure (str_eq ip own))
    ]

  -- `strcpy` into `ips[index]` and `ports[index]`, arrays of `MAX_NEIGHBOURS` strings with
  -- `INET6_ADDRSTRLEN + 1` and 6 characters.
  unfoldable pub store_contact : Bytes → Bytes → List (Bytes × Bytes) → Srv (List (Bytes × Bytes))
  store_contact ip port contacts =
      if ltb (length contacts) max_neighbours && (ltb (length ip) 47 && ltb (length port) 6)
      then pure (contacts ++ (ip, port) ∷ [])
      else stop overflow

  -- The loop over the neighbours that the contact point lists.
  unfoldable pub join_listed :
      Fd → ℕ → List (Bytes × Bytes) → List Fd → Srv (List (Bytes × Bytes) × List Fd)
  join_listed socket zero contacts awaiting = pure (contacts, awaiting)
  join_listed socket (suc left) contacts awaiting = do
    (ip, port) ← receive socket read_machine
    self ← is_self ip
    if self then join_listed socket left contacts awaiting else do
      contacts' ← store_contact ip port contacts
      awaiting' ← join ip port 0 awaiting
      join_listed socket left contacts' awaiting'

  -- The contact point itself is asked too, with the rescue flag if it has no neighbour.
  unfoldable pub join_contact :
      Bytes → Bytes → ℕ → List (Bytes × Bytes) → List Fd → Srv (List (Bytes × Bytes) × List Fd)
  join_contact ip port nb contacts awaiting =
      if ltb nb max_neighbours
      then (do
        contacts' ← store_contact ip port contacts
        awaiting' ← join ip port (if nb == 0 then 1 else 0) awaiting
        pure (contacts', awaiting'))
      else pure (contacts, awaiting)

  -- `for (…) join_network_through(server, ips[i], ports[i], nb_attempts - 1)`
  unfoldable pub for_contacts : (Bytes → Bytes → Srv Bool) → List (Bytes × Bytes) → Srv (Unit {0})
  for_contacts go [] = skip
  for_contacts go ((ip, port) ∷ contacts) = go ip port >>= λ _. for_contacts go contacts

  -- What follows SMSG_NEIGHBOURS; `again` is the recursive call.
  unfoldable pub join_through_socket : (Bytes → Bytes → Srv Bool) → Bytes → Bytes → Fd → Srv Bool
  join_through_socket again ip port socket = do
    nb ← receive socket read_byte
    (contacts, awaiting) ← join_listed socket nb [] []
    close socket
    (contacts', awaiting') ← join_contact ip port nb contacts awaiting
    handle_join_responses awaiting'
    server ← get_state
    (if not (nb == 0) && ltb server.nb_neighbours min_neighbours
        then for_contacts again contacts'
        else skip)
    pure true

  -- `join_network_through` with `nb_attempts + 1` as its first argument: true for 0, false for -1.
  unfoldable pub join_network_through : ℕ → Bytes → Bytes → Srv Bool
  join_network_through zero ip port = pure true
  join_network_through (suc attempts) ip port = do
    connected ← send_neighbours_request os ip port
    elim connected [
      | none ↦ pure false
      | some socket ↦ do
        deduce_and_free socket
        opcode ← receive socket read_byte
        if opcode == smsg_neighbours
            then join_through_socket (join_network_through attempts) ip port socket
            else do close socket; pure false
    ]

  -- `join_network`, with the defaults of server_defines.h for what is NULL.
  unfoldable pub join_network :
      (contact_point contact_port : Bytes) → Option Bytes → Option Bytes → Srv Bool
  join_network contact_point contact_port ip port =
      join_network_through (suc join_max_attempts) (elim ip [ none ↦ contact_point | some i ↦ i ])
        (elim port [ none ↦ contact_port | some p ↦ p ])

  -- The loop of `handle_leave`: the first neighbour whose address can be told is asked.
  unfoldable pub rejoin_through : List Contact → Srv (Unit {0})
  rejoin_through [] = skip
  rejoin_through (c ∷ cs) = elim c.sock [
    | none ↦ rejoin_through cs
    | some fd ↦
        if str_eq (os.peer_ip fd) [] || str_eq (int_to_string (os.peer_port fd)) []
        then rejoin_through cs
        else (join_network_through (suc join_max_attempts) (os.peer_ip fd)
              (int_to_string (os.peer_port fd))
            >>= λ _. skip)
  ]

  -- `handle_leave` on the slot `i`: true if no neighbour is left.
  unfoldable pub handle_leave : ℕ → Srv Bool
  handle_leave i = do
    drop_neighbour i
    server ← get_state
    (if ltb server.nb_neighbours min_neighbours then rejoin_through server.neighbours else skip)
    after ← get_state
    pure (after.nb_neighbours == 0)
