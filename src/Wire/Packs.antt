-- ===== src/Wire/Packs.antt =====
-- `write_to_packet` runs: what they lay down, and when they leave the block.
use gnutella.Base.{
  ℕ, ◌+◌, ◌^◌, Bool, true, false, if◌then◌else◌, All, length-take, ◌≤◌, ◌<◌, ◌≡◌, refl, Bytes, List,
  [], ◌∷◌, ◌++◌, none, some, arith, length, length-append, append-nil, append_assoc,
}
use gnutella.Wire.{
  byte, uint8, string_field, machine_fields, Buffer, write_to_packet, write_pieces, pack, joined,
}

pub joined-append : (xs ys : List Bytes) → joined (xs ++ ys) ≡ joined xs ++ joined ys
unfolding joined
joined-append [] ys = refl
joined-append (x ∷ xs) ys = rw (joined-append xs ys) (rw append_assoc refl)

-- Pieces whose lengths an `int` can hold.
unfoldable pub AreShort : List Bytes → Type 0
AreShort = All (λ piece. length piece < 2 ^ 31)

pub short-nil : AreShort []
unfolding AreShort
short-nil = tt

pub short-byte : (n : ℕ) (pieces : List Bytes) → AreShort pieces → AreShort (byte n ∷ pieces)
unfolding AreShort
short-byte n pieces h = (omega arith, h)

pub short-cons :
    (piece : Bytes) (pieces : List Bytes)
    → length piece < 2 ^ 31
    → AreShort pieces
    → AreShort (piece ∷ pieces)
unfolding AreShort
short-cons piece pieces small h = (small, h)

pub short-append : (xs ys : List Bytes) → AreShort xs → AreShort ys → AreShort (xs ++ ys)
unfolding AreShort
short-append [] ys h k = k
short-append (x ∷ xs) ys h k = (h.0, short-append xs ys h.1 k)

pub short-field : (s : Bytes) → AreShort (string_field s)
unfolding AreShort string_field
short-field s = (omega arith, (omega (arith, length-take (uint8 (length s)) s), tt))

pub short-machines : (ms : List (Bytes × Bytes)) → AreShort (machine_fields ms)
unfolding machine_fields
short-machines [] = short-nil
short-machines ((ip, port) ∷ ms) =
    short-append (string_field ip) _ (short-field ip)
      (short-append (string_field port) _ (short-field port) (short-machines ms))

pub short-if :
    (b : Bool) (xs ys : List Bytes) → AreShort xs → AreShort ys → AreShort (if b then xs else ys)
short-if true xs ys h k = h
short-if false xs ys h k = k

pub ruleset shortness = (short-nil, short-byte, short-append, short-field, short-machines, short-if)

write_pieces-fits :
    (b : Buffer) (pieces : List Bytes)
    → AreShort pieces
    → length b.written + length (joined pieces) ≤ b.room
    → write_pieces b pieces ≡ some (b.written ++ joined pieces)
unfolding write_pieces write_to_packet joined AreShort
write_pieces-fits b [] short h = rw append-nil refl
write_pieces-fits b (p ∷ ps) short h = ground (
  short.0,
  arith,
  length-append p (joined ps),
  length-append b.written p,
  write_pieces-fits (record b { written = b.written ++ p }) ps short.1,
  append_assoc b.written p (joined ps),
)

write_pieces-overflows :
    (b : Buffer) (pieces : List Bytes)
    → length b.written ≤ b.room
    → b.room < length b.written + length (joined pieces)
    → write_pieces b pieces ≡ none
unfolding write_pieces write_to_packet joined
write_pieces-overflows b [] fits h = absurd (omega arith)
write_pieces-overflows b (p ∷ ps) fits h = ground (
  arith,
  length-append p (joined ps),
  length-append b.written p,
  write_pieces-overflows (record b { written = b.written ++ p }) ps,
)

-- Writes that fit in the block lay down their bytes in order.
pub pack-joined :
    (room : ℕ) (pieces : List Bytes)
    → AreShort pieces
    → length (joined pieces) ≤ room
    → pack room pieces ≡ some (joined pieces)
unfolding pack
pack-joined room pieces short h =
    write_pieces-fits (record { room = room; written = [] }) pieces short (omega arith)

-- Writes that do not fit run past the end of the block.
pub pack-overflow :
    (room : ℕ) (pieces : List Bytes) → room < length (joined pieces) → pack room pieces ≡ none
unfolding pack
pack-overflow room pieces h =
    write_pieces-overflows (record { room = room; written = [] }) pieces (omega arith) (omega arith)
