-- ===== src/Server/Life/Safe.antt =====
-- What holds in every state of the server process.
use gnutella.Base.{◌≡◌, subst, Bool, Bytes, Option}
use gnutella.Net.{Os, Fd, Net, ok}
use gnutella.Net.Invariants.{Always}
use gnutella.Server.State.{Server}
use gnutella.Server.Join.{join_network}
use gnutella.Server.Join.Invariant.{join_network_through-Keeps}
use gnutella.Server.Sound.{IsSound, IsSound-IsJoinStable}
use gnutella.Server.Sound.Rounds.{round-IsSound, initial-IsSound}
use gnutella.Server.Life.{
  Process, started, IsAlive, Step, arrives, founds, joins, rounds, ends, interrupts, leaves,
  Reaches, stays, onward,
}

module _ (os : Os) (contact_point contact_port : Bytes) (first_machine : Bool)
    (ip port : Option Bytes) where
  abbrev IsStep : Process → Process → Type 0
  IsStep = Step os contact_point contact_port first_machine ip port

  abbrev Sound : Process → Type 0
  Sound p = IsAlive p.phase → IsSound p.server

  joined-IsSound :
      (s s' : Server) (n n' : Net) {joined : Bool}
      → IsSound s
      → join_network os contact_point contact_port ip port s n ≡ ok joined s' n'
      → IsSound s'
  unfolding join_network
  joined-IsSound s s' n n' h runs =
      subst (Always IsSound) runs
        ((join_network_through-Keeps os IsSound-IsJoinStable _ _ _).after s n h)

  Step-Sound : {p q : Process} → IsStep p q → Sound p → Sound q
  Step-Sound (arrives p fd bs) h alive = h alive
  Step-Sound (founds p e first) h alive = h (rw e tt)
  Step-Sound (joins p s n e other runs) h alive =
      joined-IsSound p.server s p.net n (h (rw e tt)) runs
  Step-Sound (rounds p d next s n e runs) h alive =
      subst (Always IsSound) runs ((round-IsSound os d).after p.server p.net (h (rw e tt)))
  Step-Sound (ends p d next s n e runs) h alive =
      subst (Always IsSound) runs ((round-IsSound os d).after p.server p.net (h (rw e tt)))
  Step-Sound (interrupts p d e) h alive = h (rw e tt)
  Step-Sound (leaves p s n e runs) h alive = absurd alive

  Reaches-Sound :
      {p q : Process}
      → Reaches os contact_point contact_port first_machine ip port p q
      → Sound p
      → Sound q
  Reaches-Sound (stays p) h = h
  Reaches-Sound (onward before step) h = Step-Sound step (Reaches-Sound before h)

  -- In every state that the server process reaches, from its listening socket on, until it has
  -- cleared its state: the table has five slots, `nb_neighbours` is the number of slots in use,
  -- and the log of searches is empty. This holds for every run as long as no step leaves the
  -- meaning that C gives it, as one does that goes on with a variable that the end of a stream
  -- left unset; whatever bytes come in on its sockets and whenever, whatever the system answers,
  -- and at whichever round it is interrupted.
  pub Reaches-IsSound :
      (listening_socket : Fd) (n : Net) (p : Process)
      → Reaches os contact_point contact_port first_machine ip port (started listening_socket n) p
      → IsAlive p.phase
      → IsSound p.server
  Reaches-IsSound listening_socket n p life =
      Reaches-Sound life λ _. initial-IsSound os listening_socket
