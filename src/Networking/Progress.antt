-- ===== src/Networking/Progress.antt =====
-- When the loops of networking.c end, and when they do not.
use gnutella.Base.{
  ℕ, zero, suc, ◌<◌, ◌≡◌, refl, true, List, [], ◌∷◌, none, some, arith, length, Bool-cases, inl,
  inr, All,
}
use gnutella.Net.{Fd}
use gnutella.Networking.{
  Sockets, ConnectResult, connect_ok, connect_error_no_nameinfo, connect_loop, connect_to,
  listen_loop, create_listening_socket,
}

module _ {Address : Type 0} (net : Sockets Address) where
  -- `socket` gives a socket, at any try, for every address of a list.
  abbrev pub Served : List Address → Type 0
  Served = All (λ a. (t : ℕ) → (fd : Fd) × (net.socket t a ≡ some fd))

  connect_loop_returns :
      (k t : ℕ) (hosts : List Address)
      → length hosts < k
      → Served hosts
      → (r : ConnectResult) × (connect_loop net k t hosts ≡ some r)
  unfolding connect_loop
  connect_loop_returns zero t hosts room h = absurd (omega arith)
  connect_loop_returns (suc k) t [] room h = (_, refl)
  connect_loop_returns (suc k) t (a ∷ hosts) room h =
      let (fd, served) = h.0 t in
      elim (Bool-cases (net.named a)) [
        | inl named ↦ elim (Bool-cases (net.attached t fd a)) [
          | inl attached ↦ (connect_ok fd, rw (named, served, attached) refl)
          | inr refused ↦
              let rest = connect_loop_returns k (suc t) hosts (omega arith) h.1 in
              (rest.0, rw (named, served, refused) rest.1)
        ]
        | inr unnamed ↦ (connect_error_no_nameinfo, rw unnamed refl)
      ]

  -- While `socket` serves every address of the host at every try, `connect_to` returns: one turn
  -- for each address and one more are enough.
  pub connect_to_returns :
      (fuel t : ℕ) (hosts : List Address)
      → length hosts < fuel
      → Served hosts
      → (r : ConnectResult) × (connect_to net fuel t (some hosts) ≡ some r)
  unfolding connect_to
  connect_to_returns = connect_loop_returns

  -- If `socket` fails for the first address whenever it is tried, and the address has a name,
  -- `connect_to` is still in its loop after any number of turns, whatever addresses follow.
  pub connect_to_stuck :
      (fuel t : ℕ) (a : Address) (hosts : List Address)
      → net.named a ≡ true
      → ((u : ℕ) → net.socket u a ≡ none)
      → connect_to net fuel t (some (a ∷ hosts)) ≡ none
  unfolding connect_to connect_loop
  connect_to_stuck zero t a hosts named fails = refl
  connect_to_stuck (suc k) t a hosts named fails =
      rw (named, fails t) (connect_to_stuck k (suc t) a hosts named fails)

  listen_loop_stuck :
      (fuel t : ℕ) (a : Address) (hosts : List Address)
      → ((u : ℕ) → net.socket u a ≡ none)
      → listen_loop net fuel t (a ∷ hosts) ≡ none
  unfolding listen_loop
  listen_loop_stuck zero t a hosts fails = refl
  listen_loop_stuck (suc k) t a hosts fails =
      rw (fails t, listen_loop) (listen_loop_stuck k (suc t) a hosts fails)

  -- If `socket` fails for the first address whenever it is tried, `create_listening_socket` is
  -- still in its loop after any number of turns, whatever addresses follow.
  pub create_listening_socket_stuck :
      (fuel : ℕ) (a : Address) (hosts : List Address)
      → ((u : ℕ) → net.socket u a ≡ none)
      → create_listening_socket net fuel (some (a ∷ hosts)) ≡ none
  unfolding create_listening_socket
  create_listening_socket_stuck fuel a hosts fails = listen_loop_stuck fuel 0 a hosts fails
