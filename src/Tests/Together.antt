-- ===== src/Tests/Together.antt =====
-- The theorems on several processes, on small inputs.
use gnutella.Base.{
  ℕ, ◌<◌, ◌≡◌, refl, true, false, Bytes, codes, List, [], ◌∷◌, none, some, arith, ◌==◌,
  if◌then◌else◌, str_eq,
}
use mathlib.Core.List.{Perm}
use gnutella.Net.{Os, Net, ready, accept_timeout, accepted, ok}
use gnutella.Wire.{byte, joined, cmsg_neighbours, smsg_neighbours, smsg_int_handshake}
use gnutella.Networking.{attempt_connect_to}
use gnutella.Server.State.{
  Server, Contact, DownloadRequest, download_local, sockets, known, released, empty_slot,
}
use gnutella.Cells.{live}
use gnutella.Server.Neighbours.{ensure_absent_ip, known_machines}
use gnutella.Server.Neighbours.Table.{IsTable}
use gnutella.Server.Files.{find_file, listed}
use gnutella.Server.Join.{join_network_through}
use gnutella.Server.Loop.{is_local, await_keep}
use gnutella.Server.Main.{loop, initial_server}
use gnutella.Client.{downloaded, handle_servent}
use gnutella.Client.Run.{ClientExit, success, Turn, run_client}
use gnutella.Client.Run.Writes.{Wrote}
use gnutella.Client.Run.Session.{at_servent}
use gnutella.Client.Run.Session.Exchange.{session_lines}
use gnutella.Joint.Queue.{serving}
use gnutella.Joint.Rounds.{session_requests}
use gnutella.Joint.Session.{conversation, session-served}
use gnutella.Joint.Join.{join_request, join_grant, contact_run, join-both}
use gnutella.Joint.Upload.{download_request, file_reply, upload_run}
use gnutella.Joint.Fetch.{download_done, fetch_run}
use gnutella.Joint.Download.{download-all}
use gnutella.Tests.{
  ip_text, name_text, name-IsField, os_example, net_example, server_example, table_example,
}
use gnutella.Tests.Session.{os_late, net_shaken, script, script-AreTyped, client_example}
use gnutella.Tests.Startup.{os_twice, server_fresh}

-- The servent's machine: its client connects at once, and every socket is ready.
abbrev pub os_local : Os
os_local = record os_example {
  peer_ip = λ fd. codes "127.0.0.1";
  poll = λ t fd. ready;
  accept = λ t. if t == 0 then accepted 6 else accept_timeout;
}

abbrev net_conversation : Net
net_conversation = record net_example { inbox = λ fd. joined (conversation script) }

later_quiet : (t : ℕ) → 0 < t → os_local.accept t ≡ accept_timeout
later_quiet t h = ground arith

session-served_example :
    Wrote 4 []
      (at_servent 4 (conversation script))
      (λ (result : ClientExit × List Turn). result.0 ≡ success)
      (run_client os_late none (session_lines script []) client_example net_shaken)
    × ((m' : Net) × (loop os_local 2 50 (initial_server 3) net_conversation
          ≡ ok tt (serving 3 6 (session_requests script)) m')
        × (m'.inbox 6 ≡ [])
        × (m'.sent ≡ (6, byte smsg_int_handshake) ∷ []))
session-served_example =
    session-served os_late os_local none script [] client_example net_shaken net_conversation 4 3 6
      2 script-AreTyped (unfold attempt_connect_to in refl) refl refl later_quiet (λ t. refl)
      (unfold is_local in unfold str_eq in refl) refl (omega arith)

-- The contact: a machine without neighbours, each of whose sockets is ready.
abbrev os_contact : Os
os_contact = record os_example { poll = λ t fd. ready }

abbrev server_alone : Server
server_alone = record server_fresh {
  neighbours = empty_slot ∷ empty_slot ∷ empty_slot ∷ empty_slot ∷ empty_slot ∷ [];
  nb_neighbours = 0;
}

alone-IsTable : IsTable server_alone
unfolding sockets
alone-IsTable = record { slots = refl; counted = refl }

abbrev net_joining : Net
net_joining = record net_example {
  inbox = λ fd. if fd == 6 then smsg_neighbours ∷ 0 ∷ [] else join_grant 9;
}

abbrev net_contact : Net
net_contact = record net_example {
  inbox = λ fd. if fd == 1 then byte cmsg_neighbours else join_request 9;
}

join-both_example :
    ((slots : List Contact) × ((after : Net) × (join_network_through os_twice 6 ip_text
            (codes "10000")
            server_fresh
            net_joining
          ≡ ok true
              (record server_fresh { self_ip = released; neighbours = slots; nb_neighbours = 2 })
              after)
        × (after.sent ≡ (6, byte cmsg_neighbours) ∷ (7, join_request 9) ∷ [])
        × Perm (sockets slots) (7 ∷ sockets server_fresh.neighbours)))
    × ((slots : List Contact) × ((after : Net) × (contact_run os_contact 1 2 server_alone
              net_contact
            ≡ ok
                (true, true)
                (record server_alone {
                  self_ip = known ip_text;
                  neighbours = slots;
                  nb_neighbours = 1;
                })
                after)
          × (after.sent ≡ (1, smsg_neighbours ∷ 0 ∷ []) ∷ (2, join_grant 9) ∷ [])
          × (after.closed ≡ 1 ∷ [])
          × Perm (sockets slots) (2 ∷ sockets server_alone.neighbours)))
join-both_example =
    join-both os_twice os_contact server_fresh server_alone net_joining net_contact 5 ip_text
      (codes "10000") 6 7 1 2
      (record { slots = table_example.slots; counted = table_example.counted }) refl (omega arith)
      (unfold ensure_absent_ip in unfold str_eq in refl) (omega arith) (omega arith) (omega arith)
      refl refl (λ e. omega arith) refl refl alone-IsTable refl (omega arith)
      (unfold known_machines in refl) (omega arith) (λ e. omega arith) (λ t fd. refl) refl refl

-- The machine that asks for the file connects on socket 7; the other one has it.
abbrev os_asks : Os
os_asks = record os_example { connect = λ t ip port. some 7; poll = λ t fd. ready }

abbrev wanted : DownloadRequest
wanted = record { ip = ip_text; port = codes "8"; filename = name_text }

abbrev net_asks : Net
net_asks = record net_example { inbox = λ fd. file_reply name_text (codes "text"); disk = [] }

abbrev net_has : Net
net_has = record net_example { inbox = λ fd. download_request name_text }

abbrev net_told : Net
net_told = record net_example { inbox = λ fd. download_done name_text }

-- The machine that asks has the request in its queue.
abbrev server_asks : Server
server_asks = record server_example { pending_requests = live (download_local wanted ∷ []) }

abbrev server_idle : Server
server_idle = record server_example { pending_requests = live [] }

download-all_example :
    ((n' : Net) × (fetch_run os_asks server_asks net_asks
        ≡ ok tt (record server_asks { pending_requests = live []; pending_downloads = live [] }) n')
      × (n'.sent ≡ (7, download_request name_text) ∷ (4, download_done name_text) ∷ [])
      × (find_file name_text n'.disk ≡ some (codes "text"))
      × ((other : Bytes)
          → str_eq name_text other ≡ false
          → find_file other n'.disk ≡ find_file other net_asks.disk))
    × ((m' : Net) × (upload_run os_contact 6 server_idle net_has
          ≡ ok await_keep (record server_idle { pending_requests = live [] }) m')
        × (m'.sent ≡ (6, file_reply name_text (codes "text")) ∷ [])
        × (m'.closed ≡ 6 ∷ [])
        × (m'.disk ≡ net_has.disk))
    × ((k' : Net) × (handle_servent os_contact client_example net_told
          ≡ ok (downloaded name_text) client_example k'))
download-all_example =
    download-all os_asks os_contact os_contact server_asks server_idle client_example net_asks
      net_has net_told wanted 7 6 (codes "text") name-IsField (omega arith) (omega arith) refl refl
      (unfold str_eq in refl) (unfold str_eq in refl) (unfold listed in refl) refl (λ t. refl) refl
      (omega arith) refl refl (unfold find_file in unfold str_eq in refl) refl refl refl
