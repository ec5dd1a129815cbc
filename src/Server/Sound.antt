-- ===== src/Server/Sound.antt =====
-- The invariant of the running server: five slots, a count that is right, and an empty log of
-- searches. The commands below the handlers keep every predicate on the server.
pub mod Requests
pub mod Slots
pub mod Rounds
use gnutella.Base.{
  ℕ, zero, suc, ◌+◌, ◌≡◌, refl, ◌∙◌, ap, sym, Bool, true, false, not, ◌||◌, ◌&&◌, Bytes, List, [],
  ◌∷◌, ◌++◌, ◌⊎◌, Option, none, some, arith, length, if◌then◌else◌, ◌==◌, ltb, str_eq, inl, inr,
}
use gnutella.Net.{Os, Fd, Net, Run, ok, fault, exited, Cmd, ◌>>=◌, get_state, put_state}
use gnutella.Net.Invariants.{
  Always, Keeps, keeping, Keeps-bind, Keeps-if, Keeps-pure, Keeps-get, Keeps-ask, Keeps-receive,
  Keeps-assert, Keeps-close, Keeps-send, Keeps-transmit, Keeps-stop,
}
use gnutella.Cells.{Chain, live, hanging}
use gnutella.Server.State.{
  Server, Contact, Srv, SelfIp, unset, known, released, Block, held, freed, free_block,
  SearchRequest, SearchLog, DownloadRequest, Request, read_self_ip, members, push_back,
  push_request, push_download, sockets, max_neighbours,
}
use gnutella.Server.Packets.{
  broadcast_packet, broadcast_packet_to, leave_network, send_neighbours_list,
}
use gnutella.Server.Neighbours.{add_neighbour, compute_and_send_neighbours}
use gnutella.Server.Neighbours.Table.{
  IsTable, Holds, without, add_neighbour-IsTable, without-IsTable,
}
use gnutella.Server.Join.Invariant.{IsJoinStable}

pub record IsSound (s : Server) : Type 0 where
  pub table : IsTable s
  pub quiet : s.received_search_requests ≡ live []

-- A change elsewhere in the server.
pub elsewhere :
    (s s' : Server)
    → s'.neighbours ≡ s.neighbours
    → s'.nb_neighbours ≡ s.nb_neighbours
    → s'.received_search_requests ≡ s.received_search_requests
    → IsSound s
    → IsSound s'
elsewhere s s' slots count log h = record {
  table = record {
    slots = ap length slots ∙ h.table.slots;
    counted = count ∙ h.table.counted ∙ ap (λ cs. length (sockets cs)) (sym slots);
  };
  quiet = log ∙ h.quiet;
}

add_neighbour-log :
    (fd : Fd) (port : Bytes)
    → Keeps (λ s. s.received_search_requests ≡ live []) (add_neighbour fd port)
unfolding add_neighbour
add_neighbour-log fd port = record { after = λ s n q. ground arith }

Always-both :
    {S A : Type 0} {P Q : S → Type 0} {R : S → Type 0} (r : Run S A)
    → ((s : S) → P s → Q s → R s)
    → Always P r
    → Always Q r
    → Always R r
Always-both (ok a s n) join p q = join s p q
Always-both (fault e) join p q = tt
Always-both (exited c s n) join p q = tt

pub IsSound-IsJoinStable : IsJoinStable IsSound
IsSound-IsJoinStable = record {
  adds = λ fd port. record {
    after = λ s n h.
        Always-both {P = IsTable} {Q = λ s'. s'.received_search_requests ≡ live []}
          (add_neighbour fd port s n) (λ s' t q. record { table = t; quiet = q })
          ((add_neighbour-IsTable fd port).after s n h.table)
          ((add_neighbour-log fd port).after s n h.quiet);
  };
  renames = λ s ip h. elsewhere s (record s { self_ip = ip }) refl refl refl h;
  drops = λ i s h held. record { table = without-IsTable i s h.table held; quiet = h.quiet };
}

module _ {P : Server → Type 0} where
  pub Keeps-broadcast_to : (fds : List Fd) (bs : Bytes) → Keeps P (broadcast_packet_to fds bs)
  unfolding broadcast_packet_to
  Keeps-broadcast_to [] bs = Keeps-pure tt
  Keeps-broadcast_to (fd ∷ fds) bs = Keeps-bind (Keeps-send fd bs) λ _. Keeps-broadcast_to fds bs

  pub Keeps-broadcast : (bs : Bytes) → Keeps P (broadcast_packet bs)
  unfolding broadcast_packet
  Keeps-broadcast bs = Keeps-bind Keeps-get λ s. Keeps-broadcast_to _ bs

  pub Keeps-leave_network : Keeps P leave_network
  unfolding leave_network
  Keeps-leave_network = Keeps-broadcast _

  pub Keeps-send_neighbours : (os : Os) (fd : Fd) → Keeps P (compute_and_send_neighbours os fd)
  unfolding compute_and_send_neighbours send_neighbours_list
  Keeps-send_neighbours os fd = Keeps-bind Keeps-get λ s. Keeps-transmit fd _

  pub Keeps-members : {A : Type 0} (c : Chain A) → Keeps P (members c)
  unfolding members
  Keeps-members (live xs) = Keeps-pure xs
  Keeps-members hanging = Keeps-stop _

  pub Keeps-push_back : {A : Type 0} (c : Chain A) (a : A) → Keeps P (push_back c a)
  unfolding push_back
  Keeps-push_back (live xs) a = Keeps-pure _
  Keeps-push_back hanging a = Keeps-stop _

  pub Keeps-free_block : (b : Block) → Keeps P (free_block b)
  unfolding free_block
  Keeps-free_block held = Keeps-pure _
  Keeps-free_block freed = Keeps-stop _

  pub Keeps-read_self_ip : (ip : SelfIp) → Keeps P (read_self_ip ip)
  unfolding read_self_ip
  Keeps-read_self_ip unset = Keeps-stop _
  Keeps-read_self_ip (known ip) = Keeps-pure ip
  Keeps-read_self_ip released = Keeps-stop _

pub ruleset server_keeping = (
  keeping, Keeps-broadcast_to, Keeps-broadcast, Keeps-leave_network, Keeps-send_neighbours,
  Keeps-members, Keeps-push_back, Keeps-free_block, Keeps-read_self_ip,
)

pub Chain-cases : {A : Type 0} (c : Chain A) → ((xs : List A) × (c ≡ live xs)) ⊎ (c ≡ hanging)
Chain-cases (live xs) = inl (xs, refl)
Chain-cases hanging = inr refl

pub push_request-IsSound : (r : Request) → Keeps IsSound (push_request r)
unfolding push_request push_back
push_request-IsSound r = record {
  after = λ s n h. elim (Chain-cases s.pending_requests) [
    | inl (xs, e) ↦ rw e (elsewhere s _ refl refl refl h)
    | inr e ↦ rw e tt
  ];
}

pub push_download-IsSound : (fd : Fd) → Keeps IsSound (push_download fd)
unfolding push_download push_back
push_download-IsSound fd = record {
  after = λ s n h. elim (Chain-cases s.pending_downloads) [
    | inl (xs, e) ↦ rw e (elsewhere s _ refl refl refl h)
    | inr e ↦ rw e tt
  ];
}
