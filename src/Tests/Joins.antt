-- ===== src/Tests/Joins.antt =====
-- The theorems on the table of neighbours and the requests to join, on small inputs.
use gnutella.Base.{◌≡◌, refl, Bytes, codes, List, [], ◌∷◌, some, arith, length}
use mathlib.Core.List.{Perm}
use gnutella.Net.{Net, ok, update}
use gnutella.Wire.{read_string, read_byte, read_bytes, c_str, smsg_join}
use gnutella.Util.{int_to_string}
use gnutella.Server.State.{Contact, sockets}
use gnutella.Server.Neighbours.{add_neighbour}
use gnutella.Server.Neighbours.Table.{add_neighbour_room, FillsFirst}
use gnutella.Server.Join.{handle_join_request}
use gnutella.Server.Join.Answers.{handle_join_request_full, handle_join_request_rescue}
use gnutella.Tests.{
  ip_text, port_text, os_example, net_example, server_example, full_example, table_example,
}

abbrev after_join : Net
after_join = record net_example { inbox = update (update net_example.inbox 6 (1 ∷ 56 ∷ [])) 6 [] }

handle_join_request_rescue_example :
    (slots : List Contact) × ((payload : Bytes) × (handle_join_request os_example 6 server_example
          net_example
        ≡ ok 1
            (record server_example { neighbours = slots; nb_neighbours = 2 })
            (record after_join { sent = (6, smsg_join ∷ 1 ∷ payload) ∷ [] }))
      × (read_string payload ≡ some (int_to_string 9, []))
      × Perm (sockets slots) (6 ∷ sockets server_example.neighbours))
unfolding read_string
handle_join_request_rescue_example =
    handle_join_request_rescue os_example 6 server_example net_example ip_text (1 ∷ 56 ∷ []) []
      (codes "8") 1 refl (unfold read_byte in refl)
      (unfold read_string read_byte read_bytes c_str in refl) table_example refl (omega arith)
      (omega arith)

handle_join_request_full_example :
    handle_join_request os_example 6 full_example net_example
    ≡ ok 0 full_example (record after_join { sent = (6, smsg_join ∷ 0 ∷ []) ∷ [] })
handle_join_request_full_example =
    handle_join_request_full os_example 6 full_example net_example ip_text (1 ∷ 56 ∷ []) []
      (codes "8") 1 refl (unfold read_byte in refl)
      (unfold read_string read_byte read_bytes c_str in refl) refl

add_neighbour_room_example :
    (slots : List Contact) × (add_neighbour 6 port_text server_example net_example
      ≡ ok tt (record server_example { neighbours = slots; nb_neighbours = 2 }) net_example)
    × (length slots ≡ 5)
    × Perm (sockets slots) (6 ∷ sockets server_example.neighbours)
    × FillsFirst 6 port_text server_example.neighbours slots
add_neighbour_room_example =
    add_neighbour_room 6 port_text server_example net_example table_example (omega arith)
