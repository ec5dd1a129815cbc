-- ===== src/Server/Sound/Slots.antt =====
-- The invariant through `handle_neighbours` (server.c): only a slot in use is given up.
use gnutella.Base.{
  ℕ, zero, suc, ◌≡◌, refl, sym, subst, Bool, true, false, ◌⊎◌, Option, none, some, get_elem?,
  if◌then◌else◌, ◌==◌, Bool-cases, Option-cases, inl, inr,
}
use gnutella.Net.{
  Os, Fd, Net, Poll, timeout, ready, failed, Run, ok, fault, exited, and_then, ◌>>=◌, ◌>>◌, pure,
  receive, ask,
}
use gnutella.Net.Invariants.{Always, Keeps, Always-and_then, Keeps-if, Keeps-pure}
use gnutella.Server.Search.{handle_remote_search_request, handle_remote_search_answer}
use gnutella.Wire.{read_byte, cmsg_search_request, cmsg_leave, smsg_search_request}
use gnutella.Server.State.{Server, Contact, Srv, max_neighbours}
use gnutella.Server.Neighbours.Table.{Holds}
use gnutella.Server.Join.{handle_leave}
use gnutella.Server.Join.Invariant.{handle_leave-Keeps}
use gnutella.Server.Loop.{handle_neighbour, neighbours_from, handle_neighbours}
use gnutella.Server.Sound.{IsSound, IsSound-IsJoinStable}
use gnutella.Server.Sound.Requests.{Keeps-handle_search_answer, handle_search_request-IsSound}

Poll-cases : (p : Poll) → (p ≡ timeout) ⊎ ((p ≡ ready) ⊎ (p ≡ failed))
Poll-cases timeout = inl refl
Poll-cases ready = inr (inl refl)
Poll-cases failed = inr (inr refl)

module _ (os : Os) where
  -- What a round over one neighbour leaves: only a neighbour that says nothing else leaves, and
  -- then the server is as before.
  abbrev Leaves : Server → Run Server Bool → Type 0
  Leaves s (ok true s' n) = s' ≡ s
  Leaves s (ok false s' n) = IsSound s'
  Leaves s (fault e) = Unit
  Leaves s (exited c s' n) = Unit

  stays :
      (s : Server) (r : Run Server (Unit {0}))
      → Always IsSound r
      → Leaves s (and_then r λ _. pure false)
  stays s (ok a s' n) h = h
  stays s (fault e) h = tt
  stays s (exited c s' n) h = tt

  packet_of : Fd → ℕ → Srv Bool
  packet_of fd opcode =
      if opcode == cmsg_search_request
      then handle_remote_search_request os fd >> pure false
      else if opcode == cmsg_leave
      then pure true
      else if opcode == smsg_search_request
      then handle_remote_search_answer fd >> pure false
      else pure false

  neighbour_packet :
      (fd : Fd) (opcode : ℕ) (s : Server) (n : Net) → IsSound s → Leaves s (packet_of fd opcode s n)
  unfolding packet_of
  neighbour_packet fd opcode s n h = elim (Bool-cases (opcode == cmsg_search_request)) [
    | inl e ↦ rw e (stays s _ ((handle_search_request-IsSound os fd).after s n h))
    | inr e ↦ rw e (elim (Bool-cases (opcode == cmsg_leave)) [
      | inl l ↦ rw l refl
      | inr l ↦ rw l (elim (Bool-cases (opcode == smsg_search_request)) [
        | inl a ↦ rw a (stays s _ ((Keeps-handle_search_answer fd).after s n h))
        | inr a ↦ rw a h
      ])
    ])
  ]

  received_packet :
      (fd : Fd) (s : Server) (n : Net)
      → IsSound s
      → Leaves s ((receive fd read_byte >>= packet_of fd) s n)
  unfolding receive
  received_packet fd s n h = elim (Option-cases (read_byte (n.inbox fd))) [
    | inl e ↦ rw (e, receive) tt
    | inr ((opcode, rest), e) ↦ rw (e, receive) (neighbour_packet fd opcode s _ h)
  ]

  handle_neighbour-Leaves :
      (fd : Fd) (s : Server) (n : Net) → IsSound s → Leaves s (handle_neighbour os fd s n)
  unfolding handle_neighbour ask packet_of
  handle_neighbour-Leaves fd s n h = elim (Poll-cases (os.poll n.clock fd)) [
    | inl e ↦ rw e h
    | inr (inl e) ↦ rw e (received_packet fd s _ h)
    | inr (inr e) ↦ rw e (received_packet fd s _ h)
  ]

  -- One slot in use, given the rest of the loop.
  slot-IsSound :
      (left i : ℕ) (fd : Fd) (s : Server) (n : Net) (r : Run Server Bool)
      → Keeps IsSound (neighbours_from os left (suc i))
      → IsSound s
      → Holds i fd s
      → Leaves s r
      → Always IsSound (
          and_then r λ leaves.
            if leaves
            then (handle_leave os i >>= λ alone.
                if alone then pure true else neighbours_from os left (suc i))
            else neighbours_from os left (suc i))
  slot-IsSound left i fd s n (ok true s' n') rest h used same =
      Always-and_then (handle_leave os i s' n') _
        (handle_leave-Keeps os IsSound-IsJoinStable i s' n' (subst IsSound (sym same) h)
          (subst (Holds i fd) (sym same) used))
        λ alone. Keeps-if alone (Keeps-pure true) rest
  slot-IsSound left i fd s n (ok false s' n') rest h used sound = rest.after s' n' sound
  slot-IsSound left i fd s n (fault e) rest h used _ = tt
  slot-IsSound left i fd s n (exited c s' n') rest h used _ = tt

  slot_round : ℕ → ℕ → Option Contact → Srv Bool
  slot_round left i found = elim found [
    | none ↦ neighbours_from os left (suc i)
    | some c ↦ elim c.sock [
      | none ↦ neighbours_from os left (suc i)
      | some fd ↦ handle_neighbour os fd >>= λ leaves.
          if leaves
          then (handle_leave os i >>= λ alone.
              if alone then pure true else neighbours_from os left (suc i))
          else neighbours_from os left (suc i)
    ]
  ]

  neighbours_from-step :
      (left i : ℕ) (s : Server) (n : Net)
      → neighbours_from os (suc left) i s n ≡ slot_round left i (get_elem? s.neighbours i) s n
  unfolding neighbours_from slot_round
  neighbours_from-step left i s n = refl

  slot_round-IsSound :
      (left i : ℕ) (s : Server) (n : Net)
      → Keeps IsSound (neighbours_from os left (suc i))
      → IsSound s
      → Always IsSound (slot_round left i (get_elem? s.neighbours i) s n)
  unfolding slot_round
  slot_round-IsSound left i s n rest h = elim (Option-cases (get_elem? s.neighbours i)) [
    | inl e ↦ rw e (rest.after s n h)
    | inr (c, e) ↦ elim (Option-cases c.sock) [
      | inl free ↦ rw (e, free) (rest.after s n h)
      | inr (fd, used) ↦
          rw (e, used)
            (slot-IsSound left i fd s n (handle_neighbour os fd s n) rest h
              (record { contact = c; there = e; used = used }) (handle_neighbour-Leaves fd s n h))
    ]
  ]

  neighbours_from-IsSound : (left i : ℕ) → Keeps IsSound (neighbours_from os left i)
  unfolding neighbours_from
  neighbours_from-IsSound zero i = Keeps-pure false
  neighbours_from-IsSound (suc left) i = record {
    after = λ s n h.
        rw (neighbours_from-step left i s n)
          (slot_round-IsSound left i s n (neighbours_from-IsSound left (suc i)) h);
  }

  pub handle_neighbours-IsSound : Keeps IsSound (handle_neighbours os)
  unfolding handle_neighbours
  handle_neighbours-IsSound = neighbours_from-IsSound max_neighbours 0
