-- ===== src/Networking.antt =====
-- networking.c: `connect_to`, `attempt_connect_to`, `create_listening_socket`. The answers of the
-- system calls for each address, at each try, are parameters.
pub mod Progress
use gnutella.Base.{
  ℕ, zero, suc, ◌+◌, Bool, true, false, not, List, [], ◌∷◌, Option, none, some, if◌then◌else◌, ◌==◌,
}
use gnutella.Net.{
  Fd, Poll, ready, timeout, failed, Accepted, accepted, accept_failed, accept_timeout,
}

-- What the system says of an address of the list of `getaddrinfo`; a try is counted by a number.
pub record Sockets (Address : Type 0) : Type 0 where
  -- `getnameinfo` succeeds
  pub named : Address → Bool
  -- `socket`: none for -1
  pub socket : ℕ → Address → Option Fd
  -- `setsockopt` succeeds
  pub reusable : ℕ → Fd → Bool
  -- `connect` or `bind` succeeds
  pub attached : ℕ → Fd → Address → Bool
  -- `listen` succeeds
  pub listens : Fd → Bool

-- CONNECT_OK with the socket, and the three errors.
pub data ConnectResult : Type 0 where
  connect_ok : Fd → ConnectResult
  connect_error_no_addrinfo connect_error_no_nameinfo connect_error_no_socket : ConnectResult

-- The listening socket, or the four errors.
pub data ListenResult : Type 0 where
  listening : Fd → ListenResult
  cl_error_no_addrinfo cl_error_no_nameinfo cl_error_no_socket cl_error_no_listen : ListenResult

module _ {Address : Type 0} (net : Sockets Address) where
  -- The loop of `connect_to`, for at most `fuel` turns. A turn whose `socket` fails leaves
  -- `addr_info` where it is. `none`: still in the loop.
  unfoldable pub connect_loop : ℕ → ℕ → List Address → Option ConnectResult
  connect_loop zero t hosts = none
  connect_loop (suc k) t [] = some connect_error_no_socket
  connect_loop (suc k) t (a ∷ hosts) =
      let again = connect_loop k (suc t) (a ∷ hosts) in
      let next = connect_loop k (suc t) hosts in
      if not (net.named a) then some connect_error_no_nameinfo else elim (net.socket t a) [
        | none ↦ again
        | some fd ↦ if net.attached t fd a then some (connect_ok fd) else next
      ]

  -- `connect_to`, given what `getaddrinfo` brings.
  unfoldable pub connect_to : ℕ → ℕ → Option (List Address) → Option ConnectResult
  connect_to fuel t none = some connect_error_no_addrinfo
  connect_to fuel t (some hosts) = connect_loop fuel t hosts

  -- The loop of `create_listening_socket`; the socket that was bound, or an error.
  unfoldable pub listen_loop : ℕ → ℕ → List Address → Option ListenResult
  listen_loop zero t hosts = none
  listen_loop (suc k) t [] = some cl_error_no_socket
  listen_loop (suc k) t (a ∷ hosts) =
      let again = listen_loop k (suc t) (a ∷ hosts) in
      let next = listen_loop k (suc t) hosts in
      elim (net.socket t a) [
        | none ↦ again
        | some fd ↦
            if not (net.reusable t fd)
            then again
            else if not (net.attached t fd a)
            then next
            else if not (net.named a)
            then some cl_error_no_nameinfo
            else if net.listens fd
            then some (listening fd)
            else some cl_error_no_listen
      ]

  unfoldable pub create_listening_socket : ℕ → Option (List Address) → Option ListenResult
  create_listening_socket fuel none = some cl_error_no_addrinfo
  create_listening_socket fuel (some hosts) = listen_loop fuel 0 hosts

-- `attempt_connect_to` with the results of the tries to come: the socket, or none for -1.
unfoldable pub attempt_connect_to : (ℕ → ConnectResult) → (done nb_attempt : ℕ) → Option Fd
attempt_connect_to results i zero = none
attempt_connect_to results i (suc left) =
    let rest = attempt_connect_to results (suc i) left in
    elim (results i) [ connect_ok fd ↦ some fd | _ ↦ rest ]

-- `attempt_accept`, given what `poll` returns, whether POLLIN is among the events, and what `accept`
-- returns: a socket, or `none` for -1 with whether `errno` is EINVAL. `none` is the assertion that
-- fails.
unfoldable pub attempt_accept : Poll → (readable invalid : Bool) → Option Fd → Option Accepted
attempt_accept ready readable invalid accept_res =
    if readable
    then elim accept_res [
      | some fd ↦ some (accepted fd)
      | none ↦ if invalid then none else some accept_failed
    ]
    else some accept_timeout
attempt_accept timeout readable invalid accept_res = some accept_timeout
attempt_accept failed readable invalid accept_res = some accept_timeout
