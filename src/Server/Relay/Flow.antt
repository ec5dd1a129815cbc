-- ===== src/Server/Relay/Flow.antt =====
-- What becomes of the searches that other machines send (server_requests.c, server_user.c).
use gnutella.Base.{
  suc, ◌+◌, ◌≡◌, refl, ◌∙◌, Bool, true, ◌||◌, Bytes, codes, List, [], ◌∷◌, ◌++◌, Option, some,
  append-nil, append_assoc, map, take, str_eq,
}
use gnutella.Net.{Os, Fd, Net, ok, send, ask, assert}
use gnutella.Wire.{joined}
use gnutella.Util.{int_to_string}
use gnutella.Net.Laws.{bind-ok}
use gnutella.Cells.{Chain, live}
use gnutella.Server.State.{Server, Block, held, freed, free_block, SearchRequest, members}
use gnutella.Server.Packets.{broadcast_packet_to}
use gnutella.Server.Files.{search_file, listed}
use gnutella.Server.Search.{check_unique_request, socket_array, count_targets}
use gnutella.Server.Search.Layout.{remote_pieces}
use gnutella.Server.Search.Bounds.{Fits, AllFit, answer-Fits}
use gnutella.Server.Relay.{built, relay_request}

abbrev pub sent_to : List Fd → Bytes → List (Fd × Bytes)
sent_to fds bs = map (λ fd. (fd, bs)) fds

pub broadcast_to-sent :
    (fds : List Fd) (bs : Bytes) (s : Server) (n : Net)
    → broadcast_packet_to fds bs s n ≡ ok tt s (record n { sent = n.sent ++ sent_to fds bs })
unfolding broadcast_packet_to send
broadcast_to-sent [] bs s n = rw append-nil refl
broadcast_to-sent (fd ∷ fds) bs s n =
    broadcast_to-sent fds bs s (record n { sent = n.sent ++ (fd, bs) ∷ [] }) ∙ rw append_assoc refl

pub members-live :
    {A : Type 0} {c : Chain A} {xs : List A}
    → c ≡ live xs
    → (s : Server) (n : Net) → members c s n ≡ ok xs s n
unfolding members
members-live e s n = rw e refl

built-some :
    {packet : Option Bytes} {bs : Bytes}
    → packet ≡ some bs
    → (s : Server) (n : Net) → built packet s n ≡ ok bs s n
built-some e s n = rw e refl

free-held : {b : Block} → b ≡ held → (s : Server) (n : Net) → free_block b s n ≡ ok freed s n
unfolding free_block
free-held e s n = rw e refl

-- Whether `search_file` finds a name.
abbrev pub here : Bytes → Net → Bool
here name n = str_eq (codes ".") name || (str_eq (codes "..") name || listed name n.disk)

module _ (os : Os) (self_ip : Bytes) (r : SearchRequest) (s : Server) (n : Net) where
  abbrev pub relay_targets : List Fd
  relay_targets =
      take (count_targets r.source_sock s.neighbours)
        (socket_array (λ i. os.stale (n.clock + i)) r.source_sock 0 s.neighbours)

  -- While the log of searches is empty, a search of another machine is answered and never sent on:
  -- the packet for the neighbours is SMSG_SEARCH_REQUEST whatever the TTL, and it lists this
  -- machine if the file is here. The request's arrays must be allocated, and no IP longer than 46
  -- characters, no port longer than 5.
  pub relay_request_quiet :
      s.received_search_requests ≡ live []
      → r.arrays ≡ held
      → AllFit r.machines
      → Fits self_ip (int_to_string (os.own_port s.listening_socket))
      → relay_request os self_ip r s n
        ≡ ok tt s (record n {
          clock = suc n.clock;
          sent =
              n.sent
              ++ sent_to relay_targets (
                  joined (
                    remote_pieces true
                      (here r.filename n)
                      self_ip
                      (int_to_string (os.own_port s.listening_socket))
                      r));
        })
  unfolding relay_request check_unique_request search_file ask assert
  relay_request_quiet quiet held_arrays fit own =
      bind-ok (members s.received_search_requests) _ (members-live quiet s n)
      ∙ bind-ok (built _) _ (built-some (answer-Fits self_ip _ r fit (here r.filename n) own) s n)
      ∙ bind-ok (broadcast_packet_to relay_targets _) _
          (broadcast_to-sent relay_targets _ s (record n { clock = suc n.clock }))
      ∙ bind-ok (free_block r.arrays) _ (free-held held_arrays s _)
