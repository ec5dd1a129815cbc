-- ===== src/Tests/Requests.antt =====
-- The theorems on searches, pending requests and sockets, on small inputs.
use gnutella.Base.{ℕ, ◌+◌, ◌≡◌, refl, true, false, [], ◌∷◌, none, some, arith, ◌==◌, if◌then◌else◌}
use gnutella.Net.{Net, ok, fault, indeterminate}
use gnutella.Net.Invariants.{Always}
use gnutella.Wire.{joined, read_string, read_byte, read_bytes, c_str}
use gnutella.Util.{int_to_string}
use gnutella.Util.Decimal.{length-int_to_string-le}
use gnutella.Cells.{live}
use gnutella.Server.Search.{handle_remote_search_answer}
use gnutella.Server.Readers.{unclosed, read_unclosed, read_unclosed_machines, read_search_answer}
use gnutella.Server.Search.Layout.{remote_pieces}
use gnutella.Server.Relay.{relay_request}
use gnutella.Server.Relay.Flow.{here, sent_to, relay_targets, relay_request_quiet}
use gnutella.Server.Relay.Faults.{handle_remote_search_answer-fault}
use gnutella.Server.Main.{handle_pending_requests}
use gnutella.Server.Main.Pending.{handle_pending_requests-Emptied}
use gnutella.Networking.{Sockets, ConnectResult, connect_to, create_listening_socket}
use gnutella.Networking.Progress.{
  connect_to_returns, connect_to_stuck, create_listening_socket_stuck,
}
use gnutella.Tests.{
  ip_text, port_text, name_text, os_example, net_example, server_example, request_example,
}

relay_request_quiet_example :
    relay_request os_example ip_text request_example server_example net_example
    ≡ ok tt server_example (record net_example {
      clock = 1;
      sent = sent_to (relay_targets os_example ip_text request_example server_example net_example) (
          joined (
            remote_pieces true
              (here name_text net_example)
              ip_text
              (int_to_string 9)
              request_example));
    })
relay_request_quiet_example =
    relay_request_quiet os_example ip_text request_example server_example net_example refl refl
      ((omega arith, omega arith), tt)
      (omega arith, omega (arith, length-int_to_string-le 9 (omega arith)))

-- An answer for the file "f" with one machine, "::" and "9".
abbrev net_answered : Net
net_answered = record net_example { inbox = λ fd. 1 ∷ 102 ∷ 1 ∷ 2 ∷ 58 ∷ 58 ∷ 1 ∷ 57 ∷ [] }

handle_remote_search_answer-fault_example :
    handle_remote_search_answer 5 server_example net_answered ≡ fault indeterminate
handle_remote_search_answer-fault_example =
    handle_remote_search_answer-fault 5 server_example net_answered {name = name_text} {rest = []}
      {ms = (unclosed ip_text, unclosed port_text) ∷ []}
      (unfold read_bytes in
        (
          omega arith,
          (
            omega arith,
            (
              omega arith,
              (omega arith, (omega arith, (omega arith, (omega arith, (omega arith, tt))))),
            ),
          ),
        ))
      (unfold read_search_answer read_unclosed_machines read_unclosed read_string read_byte
          read_bytes c_str in
        refl)
      (omega arith, (omega arith, tt))

handle_pending_requests-Emptied_example :
    Always
      (λ s'. s'.pending_requests ≡ live [])
      (handle_pending_requests os_example server_example net_example)
handle_pending_requests-Emptied_example =
    handle_pending_requests-Emptied os_example server_example net_example

abbrev sockets_example : Sockets ℕ
sockets_example = record {
  named = λ a. true;
  socket = λ t a. if a == 0 then none else some (a + 2);
  reusable = λ t fd. true;
  attached = λ t fd a. false;
  listens = λ fd. true;
}

connect_to_returns_example :
    (r : ConnectResult) × (connect_to sockets_example 3 0 (some (1 ∷ 2 ∷ [])) ≡ some r)
connect_to_returns_example =
    connect_to_returns sockets_example 3 0 (1 ∷ 2 ∷ []) (omega arith)
      (λ t. (3, refl), (λ t. (4, refl), tt))

connect_to_stuck_example : connect_to sockets_example 100 0 (some (0 ∷ 1 ∷ [])) ≡ none
connect_to_stuck_example = connect_to_stuck sockets_example 100 0 0 (1 ∷ []) refl (λ u. refl)

create_listening_socket_stuck_example :
    create_listening_socket sockets_example 100 (some (0 ∷ 1 ∷ [])) ≡ none
create_listening_socket_stuck_example =
    create_listening_socket_stuck sockets_example 100 0 (1 ∷ []) (λ u. refl)
