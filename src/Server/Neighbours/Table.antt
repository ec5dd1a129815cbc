-- ===== src/Server/Neighbours/Table.antt =====
-- The invariant of the table: five slots, and `nb_neighbours` counts those in use.
use gnutella.Base.{
  ap, ℕ, zero, suc, ◌+◌, ◌-◌, ◌≤◌, ◌<◌, ◌≡◌, refl, ◌∙◌, Bytes, List, [], ◌∷◌, ◌++◌, none, some,
  arith, length, get_elem?, set, length-set, Bool-cases, Option-cases, inl, inr, ◌==◌,
}
use mathlib.Core.List.{Perm}
use mathlib.Core.List.Perm
use gnutella.Net.{Fd, Net, ok, close}
use gnutella.Net.Invariants.{Keeps}
use gnutella.Server.State.{Server, Contact, empty_slot, max_neighbours, sockets}
use gnutella.Server.Neighbours.{take_slot, add_neighbour, drop_neighbour}

pub record IsTable (s : Server) : Type 0 where
  pub slots : length s.neighbours ≡ max_neighbours
  pub counted : s.nb_neighbours ≡ length (sockets s.neighbours)

length-sockets-le : (cs : List Contact) → length (sockets cs) ≤ length cs
unfolding sockets
length-sockets-le [] = omega arith
length-sockets-le (c ∷ cs) = ground (arith, length-sockets-le cs)

-- What `take_slot` returns when it returns a table.
take_slot-some :
    (fd : Fd) (port : Bytes) (cs : List Contact) {cs' : List Contact}
    → take_slot fd port cs ≡ some cs'
    → (length cs' ≡ length cs) × (length (sockets cs') ≡ suc (length (sockets cs)))
unfolding take_slot sockets
take_slot-some fd port [] e = cc
take_slot-some fd port (c ∷ cs) {cs'} e = elim (Option-cases (take_slot fd port cs)) [
  | inl no_slot ↦ ground arith
  | inr (later, found) ↦ ground (arith, take_slot-some fd port cs found)
]

-- A table that is not full has a free slot.
take_slot-none :
    (fd : Fd) (port : Bytes) (cs : List Contact)
    → take_slot fd port cs ≡ none
    → length (sockets cs) ≡ length cs
unfolding take_slot sockets
take_slot-none fd port [] e = refl
take_slot-none fd port (c ∷ cs) e = ground (arith, take_slot-none fd port cs)

-- Freeing a slot in use takes one socket out of the table.
sockets-set_empty :
    (cs : List Contact) (i : ℕ) {c : Contact} {fd : Fd}
    → get_elem? cs i ≡ some c
    → c.sock ≡ some fd
    → length (sockets (set cs i empty_slot)) + 1 ≡ length (sockets cs)
unfolding sockets
sockets-set_empty [] i e f = cc
sockets-set_empty (c ∷ cs) zero e f = ground arith
sockets-set_empty (c ∷ cs) (suc i) e f = ground (arith, sockets-set_empty cs i e f)

-- The sockets of the new table are those of the old one and the new socket.
take_slot-perm :
    (fd : Fd) (port : Bytes) (cs : List Contact) {cs' : List Contact}
    → take_slot fd port cs ≡ some cs'
    → Perm (sockets cs') (fd ∷ sockets cs)
unfolding take_slot sockets
take_slot-perm fd port [] e = absurd (cc)
take_slot-perm fd port (c ∷ cs) {cs'} e = elim (Option-cases c.sock) [
  | inl free ↦
      let e' : cs' ≡ record { sock = some fd; port = port } ∷ cs = ground arith in
      rw (e', free) (Perm.refl (fd ∷ sockets cs))
  | inr (x, used) ↦ elim (Option-cases (take_slot fd port cs)) [
    | inl no_slot ↦ absurd (ground arith)
    | inr (later, found) ↦
        let e' : cs' ≡ c ∷ later = ground arith in
        rw (e', used)
          (Perm.trans (Perm.cons x (take_slot-perm fd port cs found)) (Perm.swap fd x (sockets cs)))
  ]
]

-- The first free slot of `cs` holds the socket and the port in `slots`; every other slot is as it
-- was.
pub record FillsFirst (fd : Fd) (port : Bytes) (cs slots : List Contact) : Type 0 where
  pub before : List Contact
  pub free : Contact
  pub rest : List Contact
  pub was : cs ≡ before ++ free ∷ rest
  pub in_use : length (sockets before) ≡ length before
  pub unused : free.sock ≡ none
  pub becomes : slots ≡ before ++ record { sock = some fd; port = port } ∷ rest

take_slot-FillsFirst :
    (fd : Fd) (port : Bytes) (cs : List Contact) {cs' : List Contact}
    → take_slot fd port cs ≡ some cs'
    → FillsFirst fd port cs cs'
unfolding take_slot sockets
take_slot-FillsFirst fd port [] e = absurd (cc)
take_slot-FillsFirst fd port (c ∷ cs) {cs'} e = elim (Option-cases c.sock) [
  | inl unused ↦ record {
    before = [];
    free = c;
    rest = cs;
    was = refl;
    in_use = refl;
    unused = unused;
    becomes = ground arith;
  }
  | inr (x, used) ↦ elim (Option-cases (take_slot fd port cs)) [
    | inl no_slot ↦ absurd (ground arith)
    | inr (later, found) ↦
        let there = take_slot-FillsFirst fd port cs found in
        let e' : cs' ≡ c ∷ later = ground arith in
        record {
          before = c ∷ there.before;
          free = there.free;
          rest = there.rest;
          was = ap (λ t. c ∷ t) there.was;
          in_use = rw used (ap suc there.in_use);
          unused = there.unused;
          becomes = e' ∙ ap (λ t. c ∷ t) there.becomes;
        }
  ]
]

module _ (fd : Fd) (port : Bytes) (s : Server) (n : Net) (t : IsTable s) where
  -- `add_neighbour` on a well-formed table with fewer than five neighbours: the first slot that is
  -- not in use takes the socket and the port, every other slot stays as it is, the sockets are the
  -- old ones and the new one, the count goes up by one, and nothing else of the server changes.
  pub add_neighbour_room :
      s.nb_neighbours < max_neighbours
      → (slots : List Contact) × (add_neighbour fd port s n
          ≡ ok tt (record s { neighbours = slots; nb_neighbours = suc s.nb_neighbours }) n)
        × (length slots ≡ max_neighbours)
        × Perm (sockets slots) (fd ∷ sockets s.neighbours)
        × FillsFirst fd port s.neighbours slots
  unfolding add_neighbour
  add_neighbour_room room = elim (Option-cases (take_slot fd port s.neighbours)) [
    | inl full ↦
        absurd (omega (arith, take_slot-none fd port s.neighbours full, t.slots, t.counted))
    | inr (slots, found) ↦ (
      slots,
      ground arith,
      omega (arith, (take_slot-some fd port s.neighbours found).0, t.slots),
      take_slot-perm fd port s.neighbours found,
      take_slot-FillsFirst fd port s.neighbours found,
    )
  ]

  -- `add_neighbour` on a full table changes nothing.
  pub add_neighbour_full : s.nb_neighbours ≡ max_neighbours → add_neighbour fd port s n ≡ ok tt s n
  unfolding add_neighbour
  add_neighbour_full full = ground arith

count-le : (s : Server) → IsTable s → s.nb_neighbours ≤ max_neighbours
count-le s t = omega (arith, length-sockets-le s.neighbours, t.slots, t.counted)

pub add_neighbour-IsTable : (fd : Fd) (port : Bytes) → Keeps IsTable (add_neighbour fd port)
unfolding add_neighbour
add_neighbour-IsTable fd port = record {
  after = λ s n t. elim (Bool-cases (s.nb_neighbours == max_neighbours)) [
    | inl full ↦ rw full t
    | inr room ↦ rw room (elim (Option-cases (take_slot fd port s.neighbours)) [
      | inl no_slot ↦ rw no_slot t
      | inr (slots, found) ↦
          let r = take_slot-some fd port s.neighbours found in
          rw found (record { slots = r.0 ∙ t.slots; counted = omega (arith, r.1, t.counted) })
    ])
  ];
}

-- The state after the removal of the neighbour in slot `i`.
abbrev pub without : ℕ → Server → Server
without i s = record s {
  neighbours = set s.neighbours i empty_slot;
  nb_neighbours = s.nb_neighbours - 1;
}

-- The slot `i` holds the socket `fd`.
pub record Holds (i : ℕ) (fd : Fd) (s : Server) : Type 0 where
  pub contact : Contact
  pub there : get_elem? s.neighbours i ≡ some contact
  pub used : contact.sock ≡ some fd

pub without-IsTable :
    (i : ℕ) (s : Server) {fd : Fd} → IsTable s → Holds i fd s → IsTable (without i s)
without-IsTable i s t h = record {
  slots = length-set s.neighbours i empty_slot ∙ t.slots;
  counted = omega (arith, sockets-set_empty s.neighbours i h.there h.used, t.counted);
}

-- The head of `handle_leave` on a slot in use closes its socket, frees the slot and counts down.
pub drop_neighbour_used :
    (i : ℕ) (s : Server) (n : Net) {fd : Fd}
    → Holds i fd s
    → drop_neighbour i s n ≡ ok tt (without i s) (record n { closed = n.closed ++ fd ∷ [] })
unfolding drop_neighbour close
drop_neighbour_used i s n h = rw h.there (rw h.used refl)
