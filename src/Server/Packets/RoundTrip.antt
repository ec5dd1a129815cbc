-- ===== src/Server/Packets/RoundTrip.antt =====
-- The packets of the neighbour protocol read back by the machine that they come to.
use gnutella.Base.{ℕ, ◌≤◌, ◌<◌, ◌≡◌, refl, ◌∙◌, Bytes, [], ◌∷◌, ◌++◌, some, arith, length}
use gnutella.Wire.{uint8, byte, joined, string_field, read_string, cmsg_join, smsg_join}
use gnutella.Wire.Packs.{shortness, pack-joined}
use gnutella.Wire.Fields.{IsField, read_string-field, joined-string_field, length-string_field}
use gnutella.Server.Packets.{smsg_join_packet, cmsg_join_packet}

-- A request to join with a rescue flag below 256 and a port of at most 5 characters, none of them
-- NUL, fits in its block, and the other machine reads the flag and the port.
pub cmsg_join-read :
    (rescue : ℕ) (port rest : Bytes)
    → rescue < 256
    → IsField port
    → length port ≤ 5
    → (payload : Bytes) × (cmsg_join_packet rescue port ≡ some (cmsg_join ∷ rescue ∷ payload))
      × (read_string (payload ++ rest) ≡ some (port, rest))
unfolding cmsg_join_packet joined
cmsg_join-read rescue port rest small field short =
    let e : uint8 rescue ≡ rescue = omega arith in
    (
      joined (string_field port),
      pack-joined _ (byte cmsg_join ∷ byte rescue ∷ string_field port) (search shortness depth 12)
            (omega (arith, length-string_field port))
          ∙ rw e refl,
      read_string-field port rest field,
    )

-- A positive answer carries the port, and the other machine reads it.
pub smsg_join-read :
    (port rest : Bytes)
    → IsField port
    → length port ≤ 5
    → (payload : Bytes) × (smsg_join_packet 1 port ≡ some (smsg_join ∷ 1 ∷ payload))
      × (read_string (payload ++ rest) ≡ some (port, rest))
unfolding smsg_join_packet joined
smsg_join-read port rest field short = (
  joined (string_field port),
  pack-joined _ (byte smsg_join ∷ byte 1 ∷ string_field port) (search shortness depth 12)
      (omega (arith, length-string_field port)),
  read_string-field port rest field,
)

-- A refusal is two bytes.
pub smsg_join-refusal : (port : Bytes) → smsg_join_packet 0 port ≡ some (smsg_join ∷ 0 ∷ [])
unfolding smsg_join_packet joined
smsg_join-refusal port =
    pack-joined _ (byte smsg_join ∷ byte 0 ∷ []) (search shortness depth 12) (omega arith)

-- The bytes of a request to join and of a positive answer, for the text of a port.
pub cmsg_join-bytes :
    (rescue : ℕ) (port : Bytes)
    → rescue < 256
    → length port ≤ 5
    → cmsg_join_packet rescue port ≡ some (cmsg_join ∷ rescue ∷ length port ∷ port)
unfolding cmsg_join_packet joined
cmsg_join-bytes rescue port small short =
    let e : uint8 rescue ≡ rescue = omega arith in
    pack-joined _ (byte cmsg_join ∷ byte rescue ∷ string_field port) (search shortness depth 12)
      (omega (arith, length-string_field port))
    ∙ rw (e, joined-string_field port (omega arith)) refl

pub smsg_join-bytes :
    (port : Bytes)
    → length port ≤ 5
    → smsg_join_packet 1 port ≡ some (smsg_join ∷ 1 ∷ length port ∷ port)
unfolding smsg_join_packet joined
smsg_join-bytes port short =
    pack-joined _ (byte smsg_join ∷ byte 1 ∷ string_field port) (search shortness depth 12)
      (omega (arith, length-string_field port))
    ∙ rw (joined-string_field port (omega arith)) refl
