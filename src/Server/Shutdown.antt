-- ===== src/Server/Shutdown.antt =====
-- What `run_server` does behind its loop (server.c): `leave_network` and `clear_server`.
use gnutella.Base.{
  ℕ, suc, ◌≡◌, refl, ◌∙◌, ap, List, [], ◌∷◌, ◌++◌, none, append_assoc, append-nil, length, map,
}
use gnutella.Net.{Os, Fd, Net, ok, ◌>>=◌, close, ask}
use gnutella.Net.Laws.{bind-ok}
use gnutella.Wire.{byte, cmsg_leave}
use gnutella.Cells.{live}
use gnutella.Server.State.{Server, Contact, Request, SearchLog, members, sockets}
use gnutella.Server.Packets.{leave_network, broadcast_packet}
use gnutella.Server.Loop.{close_all, close_cells, request_sockets, clear_server}
use gnutella.Server.Relay.Flow.{sent_to, broadcast_to-sent, members-live}

abbrev shut : Net → List Fd → Net
shut n fds = record n { closed = n.closed ++ fds }

no_sockets :
    (cs : List Contact) → sockets (map {A = Contact} (λ c. record c { sock = none }) cs) ≡ []
unfolding sockets
no_sockets [] = refl
no_sockets (c ∷ cs) = no_sockets cs

module _ (os : Os) where
  closes : (fds : List Fd) (s : Server) (n : Net) → close_all os fds s n ≡ ok tt s (shut n fds)
  unfolding close_all close
  closes [] s n = rw append-nil refl
  closes (fd ∷ fds) s n = closes fds s (shut n (fd ∷ [])) ∙ rw append_assoc refl

  -- One number is closed for each cell, whatever the cells hold.
  closes_cells :
      (fds : List Fd) (s : Server) (n : Net)
      → (words : List ℕ) × ((time : ℕ) × (close_cells os fds s n
            ≡ ok tt s (record n { clock = time; closed = n.closed ++ words }))
          × (length words ≡ length fds))
  unfolding close_cells ask close
  closes_cells [] s n = ([], (n.clock, rw append-nil refl, refl))
  closes_cells (fd ∷ fds) s n =
      let (words, (time, run, same)) =
        closes_cells fds s
          (record n { clock = suc n.clock; closed = n.closed ++ os.stale n.clock ∷ [] }) in
      (os.stale n.clock ∷ words, (time, run ∙ rw append_assoc refl, ap suc same))

  module _ (s : Server) (n : Net) (awaiting : List Fd) (log : List SearchLog)
      (requests : List Request) (downloads : List Fd) (waits : s.awaiting_sockets ≡ live awaiting)
      (logged : s.received_search_requests ≡ live log) (queued : s.pending_requests ≡ live requests)
      (fetching : s.pending_downloads ≡ live downloads) where
    abbrev told : Net
    told = record n { sent = n.sent ++ sent_to (sockets s.neighbours) (byte cmsg_leave) }

    clears :
        (m : Net)
        → (words : List ℕ) × ((time : ℕ) × (clear_server os s m
              ≡ ok tt
                  (record s {
                    neighbours = map {A = Contact} (λ c. record c { sock = none }) s.neighbours;
                  })
                  (record m {
                    clock = time;
                    closed =
                        m.closed
                        ++ (s.listening_socket ∷ s.client_socket ∷ sockets s.neighbours
                            ++ (words ++ (awaiting ++ (request_sockets os requests ++ downloads))));
                  }))
            × (length words ≡ length awaiting))
    unfolding clear_server close
    clears m =
        let m1 : Net =
          shut (shut (shut m (s.listening_socket ∷ [])) (s.client_socket ∷ []))
            (sockets s.neighbours) in
        let (words, (time, cells, same)) = closes_cells awaiting s m1 in
        let m2 : Net = record m1 { clock = time; closed = m1.closed ++ words } in
        let m3 : Net = shut m2 awaiting in
        let m4 : Net = shut m3 (request_sockets os requests) in
        (
          words,
          (
            time,
            bind-ok (close_all os (sockets s.neighbours)) _ (closes (sockets s.neighbours) s _)
                ∙ bind-ok (members s.awaiting_sockets) _ (members-live waits s m1)
                ∙ bind-ok (close_cells os awaiting) _ cells
                ∙ bind-ok (members s.received_search_requests) _ (members-live logged s m2)
                ∙ bind-ok (close_all os awaiting) _ (closes awaiting s m2)
                ∙ bind-ok (members s.pending_requests) _ (members-live queued s m3)
                ∙ bind-ok (close_all os (request_sockets os requests)) _
                    (closes (request_sockets os requests) s m3)
                ∙ bind-ok (members s.pending_downloads) _ (members-live fetching s m4)
                ∙ bind-ok (close_all os downloads) _ (closes downloads s m4)
                ∙ rw
                    (
                      append_assoc, append_assoc, append_assoc, append_assoc, append_assoc,
                      append_assoc,
                    )
                    refl,
            same,
          ),
        )

    leaves : leave_network s n ≡ ok tt s told
    unfolding leave_network broadcast_packet
    leaves = broadcast_to-sent (sockets s.neighbours) (byte cmsg_leave) s n

    -- Behind the loop, on a server whose four lists can be walked: every neighbour is sent
    -- CMSG_LEAVE and nothing else is sent, no slot is left in use, and closed are, in this order,
    -- the listening socket, the client's, those of the neighbours, as many numbers as sockets
    -- wait, the waiting sockets, and those of the requests and of the downloads.
    pub leave_network-clear_server :
        (s' : Server) × ((n' : Net) × ((words : List ℕ) × ((leave_network >>= λ _. clear_server os)
                s n
              ≡ ok tt s' n')
            × (n'.sent ≡ n.sent ++ sent_to (sockets s.neighbours) (byte cmsg_leave))
            × (sockets s'.neighbours ≡ [])
            × (length words ≡ length awaiting)
            × (n'.closed
                ≡ n.closed
                  ++ (s.listening_socket ∷ s.client_socket ∷ sockets s.neighbours
                      ++ (words ++ (awaiting ++ (request_sockets os requests ++ downloads)))))))
    leave_network-clear_server =
        let (words, (time, run, same)) = clears told in
        (
          _,
          (
            _,
            (
              words,
              bind-ok leave_network _ leaves ∙ run,
              refl,
              no_sockets s.neighbours,
              same,
              refl,
            ),
          ),
        )
