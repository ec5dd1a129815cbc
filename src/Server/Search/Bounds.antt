-- ===== src/Server/Search/Bounds.antt =====
-- The blocks of the search packets (server_requests.c): which of them have room for what is
-- written, and which are too short.
use gnutella.Base.{
  ◌+◌, ◌*◌, ◌≤◌, ◌<◌, ◌≡◌, Bool, true, false, Bytes, List, [], ◌∷◌, ◌++◌, none, some, arith, length,
  length-append, All,
}
use gnutella.Wire.{
  byte, joined, string_field, machine_fields, cmsg_search_request, smsg_int_search,
  inet6_addrstrlen,
}
use gnutella.Wire.Packs.{shortness, pack-joined, pack-overflow, joined-append}
use gnutella.Wire.Fields.{length-string_field, length-machine_fields-le}
use gnutella.Server.State.{SearchRequest}
use gnutella.Server.Search.Layout.{
  own_fields, remote_pieces, request_bytes, answer_bytes, local_bytes,
}
use gnutella.Server.Search.{
  client_answer_packet, remote_search_packet, local_search_packet, machine_room,
}

-- Addresses of at most 46 characters and ports of at most 5, as `inet_ntop` and a port number give.
abbrev pub Fits : Bytes → Bytes → Type 0
Fits ip port = (length ip ≤ inet6_addrstrlen) × (length port ≤ 5)

abbrev pub AllFit : List (Bytes × Bytes) → Type 0
AllFit = All (λ (ip, port). Fits ip port)

pub length-field : (s : Bytes) → length (joined (string_field s)) ≤ length s + 1
length-field s = omega (arith, length-string_field s)

pub length-field-le : (s : Bytes) → length (joined (string_field s)) ≤ 256
length-field-le s = omega (arith, length-string_field s)

machines_le :
    (ms : List (Bytes × Bytes))
    → AllFit ms
    → length (joined (machine_fields ms)) ≤ length ms * machine_room
machines_le ms h = omega (arith, length-machine_fields-le 46 5 ms h)

answer_length :
    (name : Bytes) (ms : List (Bytes × Bytes))
    → length (
        joined (byte smsg_int_search ∷ string_field name ++ (byte (length ms) ∷ machine_fields ms)))
      ≡ 2 + length (joined (string_field name)) + length (joined (machine_fields ms))
unfolding joined
answer_length name ms =
    rw (joined-append (string_field name) (byte (length ms) ∷ machine_fields ms)) (
      omega (
        arith,
        length-append (joined (string_field name)) (joined (byte (length ms) ∷ machine_fields ms)),
      ))

-- When no machine has the file, the answer for the local client does not fit in its block, for
-- every name of at most 255 characters.
pub client_answer_packet_empty :
    (name : Bytes) → length name < 256 → client_answer_packet name [] ≡ none
unfolding client_answer_packet
client_answer_packet_empty name h =
    pack-overflow _ _ (omega (arith, answer_length name [], length-string_field name))

-- With at least one machine, IPs of at most 45 and ports of at most 5 characters, the answer for
-- the local client fits in its block.
pub client_answer_packet_fits :
    (name : Bytes) (ms : List (Bytes × Bytes))
    → 0 < length ms
    → All (λ (ip, port). (length ip ≤ 45) × (length port ≤ 5)) ms
    → client_answer_packet name ms
      ≡ some (
          joined
            (byte smsg_int_search ∷ string_field name ++ (byte (length ms) ∷ machine_fields ms)))
unfolding client_answer_packet
client_answer_packet_fits name ms some_machine h =
    pack-joined _ _ (search shortness depth 12)
      (omega (arith, answer_length name ms, length-field name, length-machine_fields-le 45 5 ms h))

own_le :
    (ip port : Bytes) (has_file : Bool)
    → Fits ip port
    → length (joined (own_fields has_file ip port)) ≤ 53
unfolding joined
own_le ip port false fits = omega arith
own_le ip port true fits =
    rw (joined-append (string_field ip), length-append)
      (omega (arith, fits.0, fits.1, length-field ip, length-field port))

module _ (self_ip port : Bytes) (r : SearchRequest) (fits : AllFit r.machines) where
  -- A request that is sent on fits in the block that is built for it.
  pub request-Fits :
      Fits r.ip_source r.port_source
      → remote_search_packet false false self_ip port r
        ≡ some (joined (remote_pieces false false self_ip port r))
  unfolding remote_search_packet
  request-Fits source = pack-joined _ _ (search shortness depth 12) (
      rw (request_bytes self_ip port r, length-append, length-append, length-append)
        (omega (
          arith,
          source.0,
          source.1,
          length-field r.ip_source,
          length-field r.port_source,
          length-field-le r.filename,
          machines_le r.machines fits,
        )))

  -- An answer fits in its block, with this machine in it or not.
  pub answer-Fits :
      (has_file : Bool)
      → Fits self_ip port
      → remote_search_packet true has_file self_ip port r
        ≡ some (joined (remote_pieces true has_file self_ip port r))
  unfolding remote_search_packet
  answer-Fits has_file own = pack-joined _ _ (search shortness depth 12) (
      rw (answer_bytes self_ip port r has_file, length-append, length-append)
        (omega (
          arith,
          own_le self_ip port has_file own,
          length-field-le r.filename,
          machines_le r.machines fits,
        )))

-- The search of the local client fits in its block.
pub local-Fits :
    (self_ip port name : Bytes)
    → Fits self_ip port
    → local_search_packet self_ip port name
      ≡ some (
          cmsg_search_request ∷ joined (string_field self_ip)
          ++ (joined (string_field port) ++ (joined (string_field name) ++ (10 ∷ 0 ∷ []))))
unfolding local_search_packet
local-Fits self_ip port name own = rw⁻¹ (local_bytes self_ip port name) (
    pack-joined _ _ (search shortness depth 12) (
      rw (local_bytes self_ip port name, length-append, length-append, length-append)
        (omega
          (arith, own.0, own.1, length-field self_ip, length-field port, length-field-le name))))
