-- ===== src/Server/Neighbours.antt =====
-- The table of neighbours: `add_neighbour` and `compute_and_send_neighbours` of server_util.c,
-- `ensure_absent_ip` of server_join.c, and the removal at the head of `handle_leave`.
pub mod Table
use gnutella.Base.{
  ℕ, suc, ◌+◌, ◌-◌, Bool, true, false, ◌&&◌, Bytes, List, [], ◌∷◌, ◌++◌, Option, none, some, length,
  if◌then◌else◌, ◌==◌, str_eq, get_elem?, set,
}
use gnutella.Net.{Os, Fd, Net, ok, skip, pure, ◌>>=◌, ◌>>◌, get_state, put_state, close}
use gnutella.Util.{int_to_string}
use gnutella.Server.State.{Server, Contact, Srv, empty_slot, max_neighbours}
use gnutella.Server.Packets.{send_neighbours_list}

-- The loop of `add_neighbour`: the first free slot takes the socket; `none` if there is no free one.
unfoldable pub take_slot : Fd → Bytes → List Contact → Option (List Contact)
take_slot fd port [] = none
take_slot fd port (c ∷ cs) =
    let later = take_slot fd port cs in
    elim c.sock [
      | none ↦ some (record { sock = some fd; port = port } ∷ cs)
      | some _ ↦ elim later [ none ↦ none | some cs' ↦ some (c ∷ cs') ]
    ]

unfoldable pub add_neighbour : Fd → Bytes → Srv (Unit {0})
unfolding take_slot
add_neighbour s contact_port = do
  server ← get_state
  if server.nb_neighbours == max_neighbours
      then skip
      else elim (take_slot s contact_port server.neighbours) [
        | none ↦ skip
        | some slots ↦
            put_state
              (record server { neighbours = slots; nb_neighbours = suc server.nb_neighbours })
      ]

-- `ensure_absent_ip`: no neighbour's socket leads to this IP and port.
unfoldable pub ensure_absent_ip : Os → List Contact → Bytes → Bytes → Bool
ensure_absent_ip os [] ip port = true
ensure_absent_ip os (c ∷ cs) ip port =
    let later = ensure_absent_ip os cs ip port in
    elim c.sock [
      | none ↦ later
      | some fd ↦
          if str_eq (os.peer_ip fd) ip && str_eq (int_to_string (os.peer_port fd)) port
          then false
          else later
    ]

-- What `compute_and_send_neighbours` collects: the peer's IP and the contact port of each slot.
unfoldable pub known_machines : Os → List Contact → List (Bytes × Bytes)
known_machines os [] = []
known_machines os (c ∷ cs) =
    let later = known_machines os cs in
    elim c.sock [ none ↦ later | some fd ↦ (os.peer_ip fd, c.port) ∷ later ]

unfoldable pub compute_and_send_neighbours : Os → Fd → Srv (Unit {0})
compute_and_send_neighbours os s = do
  server ← get_state
  send_neighbours_list s (known_machines os server.neighbours)

abbrev pub close_slot : Contact → Srv (Unit {0})
close_slot c = elim c.sock [ none ↦ skip | some fd ↦ close fd ]

-- The first lines of `handle_leave`: the slot is closed and freed, the count goes down by one.
unfoldable pub drop_neighbour : ℕ → Srv (Unit {0})
drop_neighbour i = do
  server ← get_state
  elim (get_elem? server.neighbours i) [ none ↦ skip | some c ↦ close_slot c ]
  put_state (record server {
    neighbours = set server.neighbours i empty_slot;
    nb_neighbours = server.nb_neighbours - 1;
  })
