-- ===== src/Net.antt =====
-- The effects of a process: the bytes that its sockets still hold, what it wrote and closed, the
-- files of the download directory, and the ways in which a run can go wrong. The operating system
-- is the parameter `Os`: its answers are functions of the time, which every question advances.
pub mod Laws
pub mod Invariants
use gnutella.Base.{
  ℕ, suc, ◌%◌, Bool, true, false, Bytes, List, [], ◌∷◌, ◌++◌, Option, none, some, if◌then◌else◌,
  ◌==◌, str_eq,
}
use gnutella.Wire.{Reader}

-- File descriptors that are open; the `-1` of the source is `none`.
abbrev pub Fd : Type 0
Fd = ℕ

-- `poll` on one descriptor: nothing before the timeout, an event, an error (`-1`).
pub data Poll : Type 0 where
  timeout ready failed : Poll

-- `attempt_accept`: `ACCEPT_ERR_TIMEOUT`, `-1`, or the new socket.
pub data Accepted : Type 0 where
  accept_timeout accept_failed : Accepted
  accepted : Fd → Accepted

-- What the operating system answers.
pub record Os : Type 0 where
  -- `getpeername` and `getsockname` with `inet_ntop`; ports as numbers
  pub peer_ip : Fd → Bytes
  pub peer_port : Fd → ℕ
  pub own_ip : Fd → Bytes
  pub own_port : Fd → ℕ
  pub poll : ℕ → Fd → Poll
  pub accept : ℕ → Accepted
  -- `connect_to`: the connected socket, or one of its error codes
  pub connect : ℕ → Bytes → Bytes → Option Fd
  pub rand : ℕ → ℕ
  -- what an uninitialised `int` of a fresh block holds
  pub stale : ℕ → ℕ
  -- `elapsed_time_since` at the end of a round of the server loop
  pub elapsed : ℕ → ℕ

pub record Net : Type 0 where
  -- bytes that have not been read yet
  pub inbox : Fd → Bytes
  -- what `write_to_fd` was given, oldest first
  pub sent : List (Fd × Bytes)
  -- descriptors in the order in which they were closed
  pub closed : List Fd
  -- the files of SEARCH_DIRECTORY, by name
  pub disk : List (Bytes × Bytes)
  pub clock : ℕ

-- How a run leaves the meaning that C gives it, or is stopped by `assert`.
pub data Fault : Type 0 where
  -- the code goes on with a value that was never set
  indeterminate : Fault
  -- a write past the end of a block or an array
  overflow : Fault
  -- an access to a block that was freed
  dangling : Fault
  -- a block freed twice
  double_free : Fault
  -- `assert` fails
  assertion : Fault
  -- a bounded loop of the model was given too few rounds; the theorems on loops exclude it
  out_of_fuel : Fault

pub data Run (S A : Type 0) : Type 0 where
  ok : A → S → Net → Run S A
  fault : Fault → Run S A
  -- `exit(status)`
  exited : ℕ → S → Net → Run S A

-- A command over a process state `S`.
abbrev pub Cmd : Type 0 → Type 0 → Type 0
Cmd S A = S → Net → Run S A

module _ {S : Type 0} where
  abbrev pub pure : {A : Type 0} → A → Cmd S A
  pure a = ok a

  abbrev pub and_then : {A B : Type 0} → Run S A → (A → Cmd S B) → Run S B
  and_then (ok a s n) k = k a s n
  and_then (fault e) k = fault e
  and_then (exited c s n) k = exited c s n

  infixl 5 ◌>>=◌ ◌>>◌
  abbrev pub ◌>>=◌ : {A B : Type 0} → Cmd S A → (A → Cmd S B) → Cmd S B
  ◌>>=◌ m k s n = and_then (m s n) k

  abbrev pub ◌>>◌ : {B : Type 0} → Cmd S (Unit {0}) → Cmd S B → Cmd S B
  m >> k = m >>= λ _. k

  abbrev pub stop : {A : Type 0} → Fault → Cmd S A
  stop e s n = fault e

  abbrev pub exit : {A : Type 0} → ℕ → Cmd S A
  exit c s n = exited c s n

  abbrev pub get_state : Cmd S S
  get_state s n = ok s s n

  abbrev pub put_state : S → Cmd S (Unit {0})
  put_state s' s n = ok tt s' n

  abbrev pub skip : Cmd S (Unit {0})
  skip = ok tt

abbrev pub update : (Fd → Bytes) → Fd → Bytes → Fd → Bytes
update f fd bs other = if fd == other then bs else f other

module _ {S : Type 0} where
  -- Reads from `fd`. When the stream ends early the code goes on with unset variables.
  unfoldable pub receive : {A : Type 0} → Fd → Reader A → Cmd S A
  receive fd r s n = elim (r (n.inbox fd)) [
    | none ↦ fault indeterminate
    | some (a, rest) ↦ ok a s (record n { inbox = update n.inbox fd rest })
  ]

  -- Reads from `fd` into a variable that holds `default`: the end of the stream leaves it.
  unfoldable pub receive_or : {A : Type 0} → A → Fd → Reader A → Cmd S A
  receive_or default fd r s n = elim (r (n.inbox fd)) [
    | none ↦ ok default s n
    | some (a, rest) ↦ ok a s (record n { inbox = update n.inbox fd rest })
  ]

  -- `write_to_fd`
  unfoldable pub send : Fd → Bytes → Cmd S (Unit {0})
  send fd bs s n = ok tt s (record n { sent = n.sent ++ (fd, bs) ∷ [] })

  -- `write_to_fd` of a packet, unless its construction ran past its block.
  unfoldable pub transmit : Fd → Option Bytes → Cmd S (Unit {0})
  unfolding send
  transmit fd none = stop overflow
  transmit fd (some bs) = send fd bs

  -- `close`
  unfoldable pub close : Fd → Cmd S (Unit {0})
  close fd s n = ok tt s (record n { closed = n.closed ++ fd ∷ [] })

  -- A question to the operating system.
  unfoldable pub ask : {A : Type 0} → (ℕ → A) → Cmd S A
  ask f s n = ok (f n.clock) s (record n { clock = suc n.clock })

  -- `assert`
  unfoldable pub assert : Bool → Cmd S (Unit {0})
  assert true = skip
  assert false = stop assertion
