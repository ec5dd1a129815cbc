-- ===== src/Joint/Rounds.antt =====
-- The rounds of a server that has nothing but its client, over the packets of a session.
use gnutella.Base.{
  ℕ, zero, suc, ◌<◌, ◌≤◌, ◌≡◌, refl, ◌∙◌, ap, Bool, true, false, not, Bytes, List, [], ◌∷◌, ◌++◌,
  append_assoc, append-nil, arith, length, All, ◌==◌, ltb, if◌then◌else◌,
}
use gnutella.Net.{Os, Fd, Net, ready, accept_timeout, ok, skip, ◌>>=◌, ask}
use gnutella.Net.Laws.{bind-ok}
use gnutella.Wire.{joined, cmsg_int_search, cmsg_int_download, cmsg_int_exit}
use gnutella.Cells.{swept, all_removed}
use gnutella.Server.State.{Server, Request, search_local, download_local, members}
use gnutella.Server.Loop.{
  visit, settle, handle_accept_result, handle_awaiting_sockets, handle_neighbours, neighbours_from,
}
use gnutella.Server.Main.{
  handle_client, handle_pending_requests, handle_pending_downloads, update_log_timers, round, loop,
  initial_server,
}
use gnutella.Client.Run.Session.{
  UserCommand, empty_line, help_line, search_line, lookup_line, download_line, IsTyped,
}
use gnutella.Client.Run.Session.Exchange.{session_packets}
use gnutella.Joint.Queue.{
  serving, HasRead, HasRead-trans, handle_client-search, handle_client-download, handle_client-exit,
}

-- The requests that the server queues for a line of the user.
abbrev pub requests_of : UserCommand → List Request
requests_of (search_line name) = search_local name ∷ []
requests_of (download_line ip port file) =
    download_local (record { ip = ip; port = port; filename = file }) ∷ []
requests_of empty_line = []
requests_of help_line = []
requests_of (lookup_line name) = []

abbrev pub session_requests : List UserCommand → List Request
session_requests [] = []
session_requests (c ∷ script) = requests_of c ++ session_requests script

abbrev pub tick : Net → Net
tick n = record n { clock = suc n.clock }

module _ (os : Os) (l fd : Fd) where
  module _ (requests : List Request) (n : Net) where
    awaits : handle_awaiting_sockets os (serving l fd requests) n ≡ ok tt (serving l fd requests) n
    unfolding handle_awaiting_sockets serving initial_server members visit settle swept all_removed
    awaits = refl

    neighbours : handle_neighbours os (serving l fd requests) n ≡ ok false (serving l fd requests) n
    unfolding handle_neighbours neighbours_from serving initial_server
    neighbours = refl

    downloads :
        handle_pending_downloads os (serving l fd requests) n ≡ ok tt (serving l fd requests) n
    unfolding handle_pending_downloads serving initial_server members visit settle swept all_removed
    downloads = refl

    timers :
        (d : ℕ) → update_log_timers os d (serving l fd requests) n ≡ ok tt (serving l fd requests) n
    unfolding update_log_timers serving initial_server members visit settle swept all_removed
    timers d = refl

    no_requests :
        (if (serving l fd requests).nb_neighbours == 0 then skip else handle_pending_requests os)
          (serving l fd requests)
          n
        ≡ ok tt (serving l fd requests) n
    unfolding serving initial_server
    no_requests = refl

  -- One round, given what the accepted socket and the client's packet make of the server.
  round-client :
      (requests requests' : List Request) (d : ℕ) (s : Server) (n n1 n2 : Net) (leaves : Bool)
      → handle_accept_result os (os.accept n.clock) s (tick n) ≡ ok tt (serving l fd requests) n1
      → handle_client os (serving l fd requests) n1 ≡ ok leaves (serving l fd requests') n2
      → (d' : ℕ) × (round os d s n ≡ ok (not leaves, d') (serving l fd requests') (tick n2))
  unfolding round ask
  round-client requests requests' d s n n1 n2 leaves accepts handles = (
    if ltb (os.elapsed n2.clock) 50 then 50 else os.elapsed n2.clock,
    bind-ok (handle_accept_result os (os.accept n.clock)) _ accepts
        ∙ bind-ok (handle_awaiting_sockets os) _ (awaits requests n1)
        ∙ bind-ok (handle_neighbours os >>= λ _. handle_pending_downloads os) _
            (bind-ok (handle_neighbours os) _ (neighbours requests n1) ∙ downloads requests n1)
        ∙ bind-ok (handle_client os) _ handles
        ∙ bind-ok
            (if (serving l fd requests').nb_neighbours == 0
              then skip
              else handle_pending_requests os)
            _ (no_requests requests' n2)
        ∙ bind-ok (update_log_timers os d) _ (timers requests' n2 d),
  )

  -- The accepted socket has made the server one that serves, and `stream` waits on its socket.
  pub record HasAccepted (requests : List Request) (stream : Bytes) (s : Server) (n n1 : Net)
      : Type 0 where
    pub result :
        handle_accept_result os (os.accept n.clock) s (tick n) ≡ ok tt (serving l fd requests) n1
    pub waits : n1.inbox fd ≡ stream
    pub later : n.clock < n1.clock

  module _ (start : ℕ) (polls : (t : ℕ) → os.poll t fd ≡ ready)
      (quiet : (t : ℕ) → start < t → os.accept t ≡ accept_timeout) where
    -- From the second round on nothing is accepted.
    again :
        (requests : List Request) (stream : Bytes) (n : Net)
        → start < n.clock
        → n.inbox fd ≡ stream
        → HasAccepted requests stream (serving l fd requests) n (tick n)
    unfolding handle_accept_result
    again requests stream n h e = record {
      result = rw (quiet n.clock h, handle_accept_result) refl;
      waits = e;
      later = omega arith;
    }

    ends :
        (requests : List Request) (rest : Bytes) (k d : ℕ) (s : Server) (n n1 : Net)
        → HasAccepted requests (cmsg_int_exit ∷ rest) s n n1
        → (n' : Net) × (loop os (suc k) d s n ≡ ok tt (serving l fd requests) n')
          × HasRead fd rest n1 n'
    unfolding loop
    ends requests rest k d s n n1 a =
        let (n2, exits, reads) =
          handle_client-exit os l fd requests n1 (polls n1.clock) rest a.waits in
        let (d', e) = round-client requests requests d s n n1 n2 true a.result exits in
        (
          tick n2,
          bind-ok (round os d) _ e,
          HasRead-trans reads (record { left = reads.left; silent = refl; later = omega arith }),
        )

    -- A packet that queues a request, and the rounds behind it.
    goes_on :
        (requests requests' tail all : List Request) (stream rest : Bytes) (k d : ℕ) (s : Server)
        (n n1 n2 : Net)
        → start ≤ n.clock
        → HasAccepted requests stream s n n1
        → handle_client os (serving l fd requests) n1 ≡ ok false (serving l fd requests') n2
        → HasRead fd rest n1 n2
        → requests' ++ tail ≡ all
        → ((d' : ℕ)
            → (n' : Net) × (loop os k d' (serving l fd requests') (tick n2)
                ≡ ok tt (serving l fd (requests' ++ tail)) n')
              × HasRead fd [] (tick (tick n2)) n')
        → (n' : Net) × (loop os (suc k) d s n ≡ ok tt (serving l fd all) n') × HasRead fd [] n1 n'
    unfolding loop
    goes_on requests requests' tail all stream rest k d s n n1 n2 h a handles reads same more =
        let (d', e) = round-client requests requests' d s n n1 n2 false a.result handles in
        let (n', later, read_on) = more d' in
        (
          n',
          bind-ok (round os d) _ e ∙ later ∙ ap (λ rs. ok tt (serving l fd rs) n') same,
          HasRead-trans reads (record {
            left = read_on.left;
            silent = read_on.silent;
            later = omega (arith, read_on.later);
          }),
        )

    pub loop-serves :
        (script : List UserCommand) (requests : List Request) (k d : ℕ) (s : Server) (n n1 : Net)
        → All IsTyped script
        → start ≤ n.clock
        → length (session_packets script) < k
        → HasAccepted requests (joined (session_packets script) ++ cmsg_int_exit ∷ []) s n n1
        → (n' : Net) × (loop os k d s n
            ≡ ok tt (serving l fd (requests ++ session_requests script)) n')
          × HasRead fd [] n1 n'
    unfolding joined
    loop-serves script requests zero d s n n1 typed h few a = ground arith
    loop-serves [] requests (suc k) d s n n1 typed h few a =
        rw append-nil (ends requests [] k d s n n1 a)
    loop-serves (empty_line ∷ script) requests (suc k) d s n n1 typed h few a =
        loop-serves script requests (suc k) d s n n1 typed.1 h few a
    loop-serves (help_line ∷ script) requests (suc k) d s n n1 typed h few a =
        loop-serves script requests (suc k) d s n n1 typed.1 h few a
    loop-serves (lookup_line name ∷ script) requests (suc k) d s n n1 typed h few a =
        loop-serves script requests (suc k) d s n n1 typed.1 h few a
    loop-serves (search_line name ∷ script) requests (suc k) d s n n1 typed h few a =
        let rest : Bytes = joined (session_packets script) ++ cmsg_int_exit ∷ [] in
        let brings : n1.inbox fd ≡ cmsg_int_search ∷ ((length name ∷ name) ++ rest) =
          a.waits ∙ rw append_assoc refl in
        let (n2, handles, reads) =
          handle_client-search os l fd requests n1 (polls n1.clock) name rest typed.0.0 brings in
        let queued : List Request = requests ++ search_local name ∷ [] in
        goes_on requests queued (session_requests script) _ _ rest k d s n n1 n2 h a handles reads
          (append_assoc requests _ _)
          λ d'.
            loop-serves script queued k d' (serving l fd queued) (tick n2) (tick (tick n2)) typed.1
              (omega (arith, a.later, reads.later)) (omega arith)
              (again queued rest (tick n2) (omega (arith, a.later, reads.later)) reads.left)
    loop-serves (download_line ip port file ∷ script) requests (suc k) d s n n1 typed h few a =
        let rest : Bytes = joined (session_packets script) ++ cmsg_int_exit ∷ [] in
        let fields : Bytes = (length ip ∷ ip) ++ ((length port ∷ port) ++ (length file ∷ file)) in
        let brings : n1.inbox fd ≡ cmsg_int_download ∷ (fields ++ rest) =
          a.waits ∙ ap (λ t. cmsg_int_download ∷ t) (append_assoc fields _ _) in
        let (i, _, _, p, _, _, f, _) = typed.0 in
        let (n2, handles, reads) =
          handle_client-download os l fd requests n1 (polls n1.clock) ip port file rest i p f
            brings in
        let queued : List Request =
          requests ++ download_local (record { ip = ip; port = port; filename = file }) ∷ [] in
        goes_on requests queued (session_requests script) _ _ rest k d s n n1 n2 h a handles reads
          (append_assoc requests _ _)
          λ d'.
            loop-serves script queued k d' (serving l fd queued) (tick n2) (tick (tick n2)) typed.1
              (omega (arith, a.later, reads.later)) (omega arith)
              (again queued rest (tick n2) (omega (arith, a.later, reads.later)) reads.left)
