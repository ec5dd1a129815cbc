-- ===== src/Client/Run/Writes.antt =====
-- What a command of the client writes to the servent, whatever the servent answers.
use gnutella.Base.{
  ℕ, ◌≡◌, refl, sym, ◌∙◌, Bool, true, false, Bytes, List, [], ◌∷◌, ◌++◌, append-nil, append_assoc,
  Option, some, Option-cases, inl, inr, if◌then◌else◌,
}
use gnutella.Wire.{Reader}
use gnutella.Net.{
  Fd, Net, Run, ok, fault, exited, indeterminate, and_then, ◌>>=◌, pure, get_state, put_state,
  receive, send, transmit, ask, close,
}
use gnutella.Client.{Client, Cl}

abbrev pub Packets : Type 0
Packets = List (Fd × Bytes)

-- A run that stands at the same socket and has written `w` behind `before` with a result in `Q`; or
-- that stops at an answer of the servent that ends early.
abbrev pub Wrote : {A : Type 0} → Fd → (before w : Packets) → (A → Type 0) → Run Client A → Type 0
Wrote fd before w Q (ok a s n) = (s.server_socket ≡ fd) × (n.sent ≡ before ++ w) × Q a
Wrote fd before w Q (fault e) = e ≡ indeterminate
Wrote fd before w Q (exited c s n) = ⊥

pub record Writes {A : Type 0} (fd : Fd) (w : Packets) (Q : A → Type 0) (m : Cl A) : Type 0 where
  pub run : (s : Client) (n : Net) → s.server_socket ≡ fd → Wrote fd n.sent w Q (m s n)

module _ {fd : Fd} where
  pub Wrote-and_then :
      {A B : Type 0} {Q : A → Type 0} {R : B → Type 0} (before w w' : Packets) (r : Run Client A)
      (k : A → Cl B)
      → Wrote fd before w Q r
      → ((a : A) → Q a → Writes fd w' R (k a))
      → Wrote fd before (w ++ w') R (and_then r k)
  Wrote-and_then {R} before w w' (ok a s n) k (at, wrote, q) next =
      let behind : before ++ (w ++ w') ≡ n.sent ++ w' = rw (wrote, append_assoc) refl in
      let rest : Wrote fd n.sent w' R (k a s n) = (next a q).run s n at in
      longer (k a s n) behind rest
    where
      longer :
          (r : Run Client _)
          → before ++ (w ++ w') ≡ n.sent ++ w'
          → Wrote fd n.sent w' R r
          → Wrote fd before (w ++ w') R r
      longer (ok a s n) e (at, wrote, q) = (at, wrote ∙ sym e, q)
      longer (fault f) e h = h
      longer (exited c s n) e h = h
  Wrote-and_then before w w' (fault e) k h next = h
  Wrote-and_then before w w' (exited c s n) k h next = h

  pub Writes-bind :
      {A B : Type 0} {Q : A → Type 0} {R : B → Type 0} {w w' : Packets} {m : Cl A} {k : A → Cl B}
      → Writes fd w Q m
      → ((a : A) → Q a → Writes fd w' R (k a))
      → Writes fd (w ++ w') R (m >>= k)
  Writes-bind {m} {k} h next = record {
    run = λ s n at. Wrote-and_then n.sent _ _ (m s n) k (h.run s n at) next;
  }

  pub Writes-pure : {A : Type 0} {Q : A → Type 0} (a : A) → Q a → Writes fd [] Q (pure a)
  Writes-pure a q = record { run = λ s n at. (at, sym (append-nil n.sent), q) }

  pub Writes-get : Writes fd [] (λ s. s.server_socket ≡ fd) get_state
  Writes-get = record { run = λ s n at. (at, sym (append-nil n.sent), at) }

  pub Writes-put : (s : Client) → s.server_socket ≡ fd → Writes fd [] (λ _. Unit) (put_state s)
  Writes-put s at = record { run = λ s' n _. (at, sym (append-nil n.sent), tt) }

  pub Writes-ask : {A : Type 0} (f : ℕ → A) → Writes fd [] (λ _. Unit) (ask f)
  unfolding ask
  Writes-ask f = record { run = λ s n at. (at, sym (append-nil n.sent), tt) }

  pub Writes-close : (socket : Fd) → Writes fd [] (λ _. Unit) (close socket)
  unfolding close
  Writes-close socket = record { run = λ s n at. (at, sym (append-nil n.sent), tt) }

  pub Writes-send :
      (socket : Fd) (bs : Bytes)
      → socket ≡ fd
      → Writes fd ((fd, bs) ∷ []) (λ _. Unit) (send socket bs)
  unfolding send
  Writes-send socket bs e = record { run = λ s n at. (at, rw e refl, tt) }

  pub Writes-receive :
      {A : Type 0} (socket : Fd) (r : Reader A) → Writes fd [] (λ _. Unit) (receive socket r)
  unfolding receive
  Writes-receive socket r = record {
    run = λ s n at. elim (Option-cases (r (n.inbox socket))) [
      | inl e ↦ rw (e, receive) refl
      | inr (value, e) ↦ rw (e, receive) (at, sym (append-nil n.sent), tt)
    ];
  }

  pub Writes-if :
      {A : Type 0} {Q : A → Type 0} {w : Packets} {x y : Cl A} (b : Bool)
      → Writes fd w Q x
      → Writes fd w Q y
      → Writes fd w Q (if b then x else y)
  Writes-if true h k = h
  Writes-if false h k = k

  pub Writes-transmit :
      {bs : Bytes} (socket : Fd) (packet : Option Bytes)
      → socket ≡ fd
      → packet ≡ some bs
      → Writes fd ((fd, bs) ∷ []) (λ _. Unit) (transmit socket packet)
  unfolding transmit send
  Writes-transmit {bs} socket packet at e = rw e (Writes-send socket bs at)
