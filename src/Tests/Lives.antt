-- ===== src/Tests/Lives.antt =====
-- The theorems on the life of the server process and its rounds, on small inputs.
use gnutella.Base.{
  ℕ, ◌≤◌, ◌<◌, ◌≡◌, refl, true, Bytes, codes, [], ◌∷◌, none, str_eq, List, ◌++◌, length,
}
use gnutella.Net.{Net, ok, receive, send, ask, ◌>>=◌}
use gnutella.Wire.{read_byte, cmsg_int_handshake, byte, cmsg_leave}
use gnutella.Cells.{swept, all_removed, live}
use gnutella.Server.State.{Server, members, sockets, search_local}
use gnutella.Server.Loop.{
  visit, settle, handshake, handle_handshake_result, is_local, handle_accept_result,
  handle_awaiting_sockets, neighbours_from, handle_neighbours, clear_server, request_sockets,
}
use gnutella.Server.Main.{
  handle_client, handle_pending_downloads, update_log_timers, round, initial_server,
}
use gnutella.Server.Sound.{IsSound}
use gnutella.Server.Display.{time_diffs, shows, shows_within_200}
use gnutella.Server.Life.{
  Process, running, leaving, started, fed, arrives, founds, rounds, interrupts, Reaches, stays,
  onward,
}
use gnutella.Server.Life.Safe.{Reaches-IsSound}
use gnutella.Server.Packets.{leave_network}
use gnutella.Server.Relay.Flow.{sent_to}
use gnutella.Server.Shutdown.{leave_network-clear_server}
use gnutella.Tests.{ip_text, net_example, name_text, server_example}
use gnutella.Tests.Together.{os_local}

abbrev contact_port : Bytes
contact_port = codes "10000"

abbrev Lives : Process → Process → Type 0
Lives = Reaches os_local ip_text contact_port true none none

-- The first machine, with nothing on its sockets.
abbrev fresh : Process
fresh = started 3 (record net_example { inbox = λ fd. [] })

-- The handshake of the client and an opcode that is unknown come in before the first round.
abbrev greeted : Process
greeted = record (fed fresh 6 (cmsg_int_handshake ∷ 99 ∷ [])) { phase = running 50 }

round-runs :
    (s : Server) × ((n : Net) × (round os_local 50 greeted.server greeted.net ≡ ok (true, 50) s n))
unfolding round handle_accept_result is_local str_eq handshake handle_handshake_result receive
    read_byte send ask handle_awaiting_sockets members visit settle swept all_removed
    handle_neighbours neighbours_from handle_pending_downloads handle_client update_log_timers
    initial_server
round-runs = (_, (_, refl))

abbrev last : Process
last = record greeted { phase = leaving; server = round-runs.0; net = round-runs.1.0 }

-- A round, and then an interrupt.
lived : Lives fresh last
lived =
    onward
      (onward
        (onward (onward (stays fresh) (arrives fresh 6 (cmsg_int_handshake ∷ 99 ∷ [])))
          (founds (fed fresh 6 (cmsg_int_handshake ∷ 99 ∷ [])) refl refl))
        (rounds greeted 50 50 round-runs.0 round-runs.1.0 refl round-runs.1.1))
      (interrupts (record last { phase = running 50 }) 50 refl)

Reaches-IsSound_example : IsSound last.server
Reaches-IsSound_example =
    Reaches-IsSound os_local ip_text contact_port true none none 3
      (record net_example { inbox = λ fd. [] }) last lived tt

-- Rounds of 120 milliseconds.
shows_within_200_example : (j : ℕ) × (3 ≤ j) × (j < 203) × (shows (time_diffs (λ i. 120)) j ≡ true)
shows_within_200_example = shows_within_200 (λ i. 120) 3

-- A socket waits, and a download goes on.
abbrev server_busy : Server
server_busy = record server_example {
  awaiting_sockets = live (8 ∷ []);
  pending_downloads = live (7 ∷ []);
}

leave_network-clear_server_example :
    (s' : Server) × ((n' : Net) × ((words : List ℕ) × ((leave_network >>= λ _.
    clear_server os_local)
            server_busy net_example
          ≡ ok tt s' n')
        × (n'.sent ≡ sent_to (sockets server_busy.neighbours) (byte cmsg_leave))
        × (sockets s'.neighbours ≡ [])
        × (length words ≡ 1)
        × (n'.closed
            ≡ 3 ∷ 4 ∷ sockets server_busy.neighbours
              ++ (words
                  ++ (8 ∷ request_sockets os_local (search_local name_text ∷ []) ++ (7 ∷ []))))))
leave_network-clear_server_example =
    leave_network-clear_server os_local server_busy net_example (8 ∷ []) []
      (search_local name_text ∷ []) (7 ∷ []) refl refl refl refl
