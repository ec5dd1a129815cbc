-- ===== src/Net/Laws.antt =====
-- One step of a command.
use gnutella.Base.{◌≡◌, refl, Bytes, some}
use gnutella.Wire.{Reader}
use gnutella.Net.{Fd, Net, ok, fault, Cmd, ◌>>=◌, update, receive}

module _ {S : Type 0} where
  pub bind-ok :
      {A B : Type 0} (m : Cmd S A) (k : A → Cmd S B) {a : A} {s s' : S} {n n' : Net}
      → m s n ≡ ok a s' n'
      → (m >>= k) s n ≡ k a s' n'
  bind-ok m k e = rw e refl

  pub bind-fault :
      {A B : Type 0} (m : Cmd S A) (k : A → Cmd S B) {s : S} {n : Net} {e : _}
      → m s n ≡ fault e
      → (m >>= k) s n ≡ fault e
  bind-fault m k e = rw e refl

  pub receive-some :
      {A : Type 0} (fd : Fd) (r : Reader A) (s : S) (n : Net) {a : A} {rest : Bytes}
      → r (n.inbox fd) ≡ some (a, rest)
      → receive fd r s n ≡ ok a s (record n { inbox = update n.inbox fd rest })
  unfolding receive
  receive-some fd r s n e = rw (e, receive) refl
