-- ===== src/Server/Sound/Rounds.antt =====
-- The invariant through the rounds of the main loop (server.c).
use gnutella.Base.{
  ℕ, refl, Bool, true, false, List, [], ◌∷◌, ◌==◌, Bool-cases, Option-cases, inl, inr,
}
use gnutella.Net.{
  Os, Fd, timeout, ready, failed, Accepted, accept_timeout, accept_failed, accepted, receive, send,
}
use gnutella.Net.Invariants.{
  Keeps, Keeps-bind, Keeps-if, Keeps-pure, Keeps-get, Keeps-modify, Keeps-ask, Keeps-receive,
  Keeps-assert, Keeps-close, Keeps-exits,
}
use gnutella.Cells.{swept}
use gnutella.Wire.{read_byte, cmsg_int_handshake}
use gnutella.Server.State.{Server, Srv, push_back, members, sockets}
use gnutella.Server.Join.Invariant.{handle_join_request-Keeps}
use gnutella.Server.Loop.{
  visit, settle, await_empty, await_close, await_keep, HandshakeResult, handshake_ok,
  handshake_bad_opcode, handshake_already_shaked, handle_new_socket, handshake, clear_server,
  handle_handshake_result, handle_accept_result, handle_awaiting_socket, await_round,
  handle_awaiting_sockets,
}
use gnutella.Server.Main.{
  handle_client, handle_pending_requests, update_log_timers, handle_pending_download,
  handle_pending_downloads, round, initial_server,
}
use gnutella.Server.Sound.{
  IsSound, Chain-cases, elsewhere, IsSound-IsJoinStable, Keeps-members, Keeps-leave_network,
  Keeps-send_neighbours,
}
use gnutella.Server.Sound.Slots.{handle_neighbours-IsSound}
use gnutella.Server.Sound.Requests.{
  Keeps-handle_download_answer, handle_local_search-IsSound, handle_local_download-IsSound,
  handle_remote_download-IsSound, handle_pending_request-IsSound,
}

Keeps-visit :
    {A : Type 0} {P : Server → Type 0} (handle : A → Srv Bool) (xs : List A)
    → ((a : A) → Keeps P (handle a))
    → Keeps P (visit handle xs)
unfolding visit
Keeps-visit handle [] h = Keeps-pure []
Keeps-visit handle (x ∷ xs) h =
    Keeps-bind (h x) λ gone. Keeps-bind (Keeps-visit handle xs h) λ rest. Keeps-pure _

module _ (os : Os) where
  handle_new_socket-IsSound : (fd : Fd) → Keeps IsSound (handle_new_socket fd)
  unfolding handle_new_socket push_back
  handle_new_socket-IsSound fd = record {
    after = λ s n h. elim (Chain-cases s.awaiting_sockets) [
      | inl (xs, e) ↦ rw e (elsewhere s _ refl refl refl h)
      | inr e ↦ rw e tt
    ];
  }

  handshake-IsSound : (fd : Fd) → Keeps IsSound (handshake fd)
  unfolding handshake receive send
  handshake-IsSound fd = record {
    after = λ s n h. elim (Bool-cases s.handshake) [
      | inl shaken ↦ rw shaken (elsewhere s _ refl refl refl h)
      | inr fresh ↦ rw fresh (elim (Option-cases (read_byte (n.inbox fd))) [
        | inl none_left ↦ rw (none_left, receive) tt
        | inr ((opcode, rest), e) ↦
            rw (e, receive)
              (elim (Bool-cases (opcode == cmsg_int_handshake)) [
                | inl right ↦ rw right (elsewhere s _ refl refl refl h)
                | inr wrong ↦ rw wrong (elsewhere s _ refl refl refl h)
              ])
      ])
    ];
  }

  handshake_result-IsSound : (r : HandshakeResult) → Keeps IsSound (handle_handshake_result os r)
  unfolding handle_handshake_result
  handshake_result-IsSound handshake_ok = Keeps-pure tt
  handshake_result-IsSound handshake_bad_opcode = Keeps-exits (clear_server os) 1
  handshake_result-IsSound handshake_already_shaked = Keeps-pure tt

  accept_result-IsSound : (r : Accepted) → Keeps IsSound (handle_accept_result os r)
  unfolding handle_accept_result
  accept_result-IsSound accept_timeout = Keeps-pure tt
  accept_result-IsSound accept_failed = Keeps-pure tt
  accept_result-IsSound (accepted fd) =
      Keeps-if _ (Keeps-bind (handshake-IsSound fd) λ r. handshake_result-IsSound r)
        (handle_new_socket-IsSound fd)

  awaiting_packet-IsSound : (fd : Fd) → Keeps IsSound (handle_awaiting_socket os fd)
  unfolding handle_awaiting_socket
  awaiting_packet-IsSound fd =
      let packet = Keeps-bind (Keeps-receive fd read_byte) λ opcode.
        Keeps-if _ (Keeps-bind (Keeps-send_neighbours os fd) λ _. Keeps-pure _) (
          Keeps-if _
            (Keeps-bind (handle_join_request-Keeps os IsSound-IsJoinStable fd) λ a. Keeps-pure _)
            (Keeps-if _ (Keeps-bind (handle_remote_download-IsSound os fd) λ _. Keeps-pure _)
              (Keeps-pure _))) in
      Keeps-bind (Keeps-ask _) (elim [ timeout ↦ Keeps-pure _ | ready ↦ packet | failed ↦ packet ])

  await_round-IsSound : (fd : Fd) → Keeps IsSound (await_round os fd)
  unfolding await_round
  await_round-IsSound fd = Keeps-bind (awaiting_packet-IsSound fd) (elim [
    | await_empty ↦ Keeps-pure _
    | await_close ↦ Keeps-bind (Keeps-close fd) λ _. Keeps-pure _
    | await_keep ↦ Keeps-pure _
  ])

  handle_awaiting_sockets-IsSound : Keeps IsSound (handle_awaiting_sockets os)
  unfolding handle_awaiting_sockets
  handle_awaiting_sockets-IsSound = Keeps-bind Keeps-get λ s.
      Keeps-bind (Keeps-members s.awaiting_sockets) λ fds.
        Keeps-bind (Keeps-visit _ fds await_round-IsSound)
          λ marked. Keeps-modify _ λ t h. elsewhere t _ refl refl refl h

  handle_client-IsSound : Keeps IsSound (handle_client os)
  unfolding handle_client
  handle_client-IsSound =
      let packet = λ (s : Server). Keeps-bind (Keeps-receive s.client_socket read_byte) λ opcode.
        Keeps-if _ (Keeps-bind Keeps-leave_network λ _. Keeps-pure true) (
          Keeps-if _ (Keeps-bind (handle_local_search-IsSound os) λ _. Keeps-pure false) (
            Keeps-if _ (Keeps-bind (handle_local_download-IsSound os) λ _. Keeps-pure false)
              (Keeps-pure false))) in
      Keeps-bind Keeps-get λ s.
        Keeps-bind (Keeps-ask _)
          (elim [ timeout ↦ Keeps-pure false | ready ↦ packet s | failed ↦ packet s ])

  handle_pending_requests-IsSound : Keeps IsSound (handle_pending_requests os)
  unfolding handle_pending_requests
  handle_pending_requests-IsSound = Keeps-bind Keeps-get λ s.
      Keeps-bind (Keeps-members s.pending_requests) λ requests.
        Keeps-bind
          (Keeps-visit _ requests
            λ r. Keeps-bind (handle_pending_request-IsSound os r) λ _. Keeps-pure true)
          λ marked. Keeps-modify _ λ t h. elsewhere t _ refl refl refl h

  handle_pending_download-IsSound : (fd : Fd) → Keeps IsSound (handle_pending_download os fd)
  unfolding handle_pending_download
  handle_pending_download-IsSound fd = Keeps-bind (Keeps-ask _) (elim [
    | timeout ↦ Keeps-pure false
    | ready ↦ Keeps-bind (Keeps-receive fd read_byte) λ opcode.
        Keeps-bind (Keeps-assert _)
          λ _. Keeps-bind (Keeps-handle_download_answer fd) λ _. Keeps-pure true
    | failed ↦ Keeps-pure false
  ])

  handle_pending_downloads-IsSound : Keeps IsSound (handle_pending_downloads os)
  unfolding handle_pending_downloads
  handle_pending_downloads-IsSound = Keeps-bind Keeps-get λ s.
      Keeps-bind (Keeps-members s.pending_downloads) λ fds.
        Keeps-bind (Keeps-visit _ fds handle_pending_download-IsSound)
          λ marked. Keeps-modify _ λ t h. elsewhere t _ refl refl refl h

  update_log_timers-IsSound : (diff : ℕ) → Keeps IsSound (update_log_timers os diff)
  unfolding update_log_timers members visit settle swept
  update_log_timers-IsSound diff = record {
    after = λ s n h. rw h.quiet (record {
      table = record { slots = h.table.slots; counted = h.table.counted };
      quiet = refl;
    });
  }

  -- One round of the main loop keeps the server sound.
  pub round-IsSound : (time_diff : ℕ) → Keeps IsSound (round os time_diff)
  unfolding round
  round-IsSound diff = Keeps-bind (Keeps-ask _) λ res. Keeps-bind (accept_result-IsSound res) λ _.
      Keeps-bind handle_awaiting_sockets-IsSound λ _.
        Keeps-bind (Keeps-bind (handle_neighbours-IsSound os) λ _. handle_pending_downloads-IsSound)
          λ _. Keeps-bind handle_client-IsSound λ leaves. Keeps-bind Keeps-get λ s.
            Keeps-bind (Keeps-if _ (Keeps-pure tt) handle_pending_requests-IsSound) λ _.
              Keeps-bind (update_log_timers-IsSound diff)
                λ _. Keeps-bind (Keeps-ask _) λ elapsed. Keeps-pure _

  -- The server as `run_server` sets it up is sound, and joining the network keeps it so.
  pub initial-IsSound : (fd : Fd) → IsSound (initial_server fd)
  unfolding initial_server sockets
  initial-IsSound fd = record { table = record { slots = refl; counted = refl }; quiet = refl }
