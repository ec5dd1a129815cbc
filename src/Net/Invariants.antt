-- ===== src/Net/Invariants.antt =====
-- Invariants of a process state: a command keeps a predicate if every state that it can return in
-- satisfies the predicate, when it starts in one that does. A process that exits has no state.
use gnutella.Base.{
  ℕ, Bool, true, false, Bytes, Option, none, some, Option-cases, inl, inr, if◌then◌else◌,
}
use gnutella.Wire.{Reader}
use gnutella.Net.{
  Fd, Net, Fault, Run, ok, fault, exited, Cmd, and_then, ◌>>=◌, ◌>>◌, pure, stop, exit, get_state,
  put_state, receive, send, transmit, close, ask, assert,
}

module _ {S A : Type 0} where
  abbrev pub Always : (S → Type 0) → Run S A → Type 0
  Always P (ok a s n) = P s
  Always P (fault e) = Unit
  Always P (exited c s n) = Unit

  pub record Keeps (P : S → Type 0) (m : Cmd S A) : Type 0 where
    pub after : (s : S) (n : Net) → P s → Always P (m s n)

module _ {S : Type 0} (P : S → Type 0) (B : Type 0) where
  exits-Always : {A : Type 0} (r : Run S A) (c : ℕ) → Always P (and_then r (λ _. exit {A = B} c))
  exits-Always (ok a s n) c = tt
  exits-Always (fault e) c = tt
  exits-Always (exited d s n) c = tt

module _ {S : Type 0} {P : S → Type 0} where
  pub Always-and_then :
      {A B : Type 0} (r : Run S A) (k : A → Cmd S B)
      → Always P r
      → ((a : A) → Keeps P (k a))
      → Always P (and_then r k)
  Always-and_then (ok a s n) k p next = (next a).after s n p
  Always-and_then (fault e) k p next = tt
  Always-and_then (exited c s n) k p next = tt

  pub Keeps-bind :
      {A B : Type 0} {m : Cmd S A} {k : A → Cmd S B}
      → Keeps P m
      → ((a : A) → Keeps P (k a))
      → Keeps P (m >>= k)
  Keeps-bind {m} {k} h next = record {
    after = λ s n p. Always-and_then (m s n) k (h.after s n p) next;
  }

  pub Keeps-if :
      {A : Type 0} {x y : Cmd S A} (b : Bool) → Keeps P x → Keeps P y → Keeps P (if b then x else y)
  Keeps-if true h k = h
  Keeps-if false h k = k

  pub Keeps-pure : {A : Type 0} (a : A) → Keeps P (pure a)
  Keeps-pure a = record { after = λ s n p. p }

  pub Keeps-stop : {A : Type 0} (e : Fault) → Keeps P (stop {A = A} e)
  Keeps-stop e = record { after = λ s n p. tt }

  pub Keeps-exit : {A : Type 0} (c : ℕ) → Keeps P (exit {A = A} c)
  Keeps-exit c = record { after = λ s n p. tt }

  -- Whatever comes before an `exit`.
  pub Keeps-exits : {A : Type 0} (m : Cmd S (Unit {0})) (c : ℕ) → Keeps P (m >> exit {A = A} c)
  Keeps-exits m c = record { after = λ s n p. exits-Always P _ (m s n) c }

  pub Keeps-modify :
      (f : S → S) → ((s : S) → P s → P (f s)) → Keeps P (get_state >>= λ s. put_state (f s))
  Keeps-modify f h = record { after = λ s n p. h s p }

  pub Keeps-get : Keeps P (get_state {S = S})
  Keeps-get = record { after = λ s n p. p }

  pub Keeps-receive : {A : Type 0} (fd : Fd) (r : Reader A) → Keeps P (receive fd r)
  unfolding receive
  Keeps-receive fd r = record {
    after = λ s n p. elim (Option-cases (r (n.inbox fd))) [
      | inl e ↦ rw (e, receive) tt
      | inr (x, e) ↦ rw (e, receive) p
    ];
  }

  pub Keeps-send : (fd : Fd) (bs : Bytes) → Keeps P (send fd bs)
  unfolding send
  Keeps-send fd bs = record { after = λ s n p. p }

  pub Keeps-transmit : (fd : Fd) (packet : Option Bytes) → Keeps P (transmit fd packet)
  unfolding transmit
  Keeps-transmit fd none = Keeps-stop _
  Keeps-transmit fd (some bs) = Keeps-send fd bs

  pub Keeps-close : (fd : Fd) → Keeps P (close fd)
  unfolding close
  Keeps-close fd = record { after = λ s n p. p }

  pub Keeps-ask : {A : Type 0} (f : ℕ → A) → Keeps P (ask f)
  unfolding ask
  Keeps-ask f = record { after = λ s n p. p }

  pub Keeps-assert : (b : Bool) → Keeps P (assert b)
  unfolding assert
  Keeps-assert true = Keeps-pure tt
  Keeps-assert false = Keeps-stop _

pub ruleset keeping = (
  Keeps-bind, Keeps-if, Keeps-pure, Keeps-stop, Keeps-exit, Keeps-get, Keeps-receive, Keeps-send,
  Keeps-transmit, Keeps-close, Keeps-ask, Keeps-assert,
)
