-- ===== src/Tests/Session.antt =====
-- The theorems on the client's main loop, on small inputs.
use gnutella.Base.{◌≡◌, refl, List, [], ◌∷◌, ◌++◌, none, some, arith, All, ◌==◌, if◌then◌else◌}
use gnutella.Net.{Os, Net, fault, indeterminate}
use gnutella.Wire.{byte, smsg_int_handshake, cmsg_int_handshake, cmsg_int_exit}
use gnutella.Util.Blocks.{too_small, int_to_cstring, int_to_cstring_overflows}
use gnutella.Networking.{attempt_connect_to}
use gnutella.Client.{Client}
use gnutella.Client.Run.{ClientExit, success, Turn, run_client}
use gnutella.Client.Run.Writes.{Wrote}
use gnutella.Client.Run.EndOfInput.{typed_lines, run_client-indeterminate}
use gnutella.Client.Run.Session.{
  UserCommand, search_line, empty_line, help_line, IsTyped, at_servent,
}
use gnutella.Client.Run.Session.Exchange.{session_lines, session_packets, run_client-session}
use gnutella.Tests.{name_text, name-IsField, os_example, net_example}

-- The second try to connect succeeds, on socket 4, and the handshake is answered.
abbrev pub os_late : Os
os_late = record os_example { connect = λ t ip port. if t == 1 then some 4 else none }

abbrev pub net_shaken : Net
net_shaken = record net_example { inbox = λ fd. smsg_int_handshake ∷ [] }

abbrev pub script : List UserCommand
script = empty_line ∷ search_line name_text ∷ help_line ∷ []

pub script-AreTyped : All IsTyped script
script-AreTyped = (tt, ((name-IsField, omega arith), (tt, tt)))

abbrev pub client_example : Client
client_example = record { server_socket = 0; machines_by_files = [] }

run_client-session_example :
    Wrote 4 []
      (at_servent 4 (byte cmsg_int_handshake ∷ session_packets script ++ byte cmsg_int_exit ∷ []))
      (λ (result : ClientExit × List Turn). result.0 ≡ success)
      (run_client os_late none (session_lines script []) client_example net_shaken)
run_client-session_example =
    run_client-session os_late none script [] client_example net_shaken script-AreTyped
      (unfold attempt_connect_to in refl) refl

run_client-indeterminate_example :
    run_client os_late none (typed_lines script) client_example net_shaken ≡ fault indeterminate
run_client-indeterminate_example =
    run_client-indeterminate os_late none script client_example net_shaken {fd = 4} {rest = []}
      script-AreTyped (unfold attempt_connect_to in refl) refl

int_to_cstring_overflows_example : int_to_cstring 42 ≡ too_small
int_to_cstring_overflows_example = int_to_cstring_overflows 42 (omega arith)
