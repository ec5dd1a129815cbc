-- ===== src/Wire.antt =====
-- Packets as byte strings: the opcodes of packets_defines.h, `write_to_packet` of util.c on a
-- buffer of fixed size, and the reading of length-prefixed strings. A packet under construction is
-- a buffer with the room that `malloc` gave it; a write past that room is a heap overflow.
pub mod Fields
pub mod Packs
use gnutella.Base.{
  ℕ, ◌+◌, ◌*◌, ◌%◌, ◌^◌, Bool, Bytes, List, [], ◌∷◌, ◌++◌, ◌&&◌, ltb, Option, none, some, zero, ◌≡◌,
  refl, suc, if◌then◌else◌, ◌==◌, leb, length, take, drop,
}

-- The opcode macros: the two top bits say internal or not, server or client.
abbrev pub cmsg_neighbours : ℕ
cmsg_neighbours = 0

abbrev pub cmsg_join : ℕ
cmsg_join = 1

abbrev pub cmsg_search_request : ℕ
cmsg_search_request = 3

abbrev pub cmsg_leave : ℕ
cmsg_leave = 4

abbrev pub cmsg_download : ℕ
cmsg_download = 5

abbrev pub smsg_neighbours : ℕ
smsg_neighbours = 64

abbrev pub smsg_join : ℕ
smsg_join = 65

abbrev pub smsg_search_request : ℕ
smsg_search_request = 67

abbrev pub smsg_download : ℕ
smsg_download = 68

abbrev pub cmsg_int_handshake : ℕ
cmsg_int_handshake = 128

abbrev pub cmsg_int_exit : ℕ
cmsg_int_exit = 129

abbrev pub cmsg_int_search : ℕ
cmsg_int_search = 130

abbrev pub cmsg_int_download : ℕ
cmsg_int_download = 131

abbrev pub smsg_int_handshake : ℕ
smsg_int_handshake = 192

abbrev pub smsg_int_search : ℕ
smsg_int_search = 193

abbrev pub smsg_int_download : ℕ
smsg_int_download = 194

abbrev pub answer_code_local : ℕ
answer_code_local = 0

abbrev pub answer_code_remote_offline : ℕ
answer_code_remote_offline = 1

abbrev pub answer_code_remote_not_found : ℕ
answer_code_remote_not_found = 2

abbrev pub answer_code_remote_found : ℕ
answer_code_remote_found = 3

abbrev pub inet6_addrstrlen : ℕ
inet6_addrstrlen = 46

-- A cast to `uint8_t`.
abbrev pub uint8 : ℕ → ℕ
uint8 n = n % 256

-- `room` is what `malloc` was asked for, `written` what stands before the moving pointer.
pub record Buffer : Type 0 where
  pub room : ℕ
  pub written : Bytes

-- `write_to_packet`: `none` is a write past the end of the block. The length is an `int`: from 2^31
-- on it is negative, and `memcpy` takes it for a size near 2^64.
unfoldable pub write_to_packet : Buffer → Bytes → Option Buffer
write_to_packet b piece =
    if ltb (length piece) (2 ^ 31) && leb (length b.written + length piece) b.room
    then some (record b { written = b.written ++ piece })
    else none

-- A run of `write_to_packet` calls.
unfoldable pub write_pieces : Buffer → List Bytes → Option Bytes
write_pieces b [] = some b.written
write_pieces b (piece ∷ pieces) = elim (write_to_packet b piece) [
  | none ↦ none
  | some b' ↦ write_pieces b' pieces
]

-- `malloc(room)`, the writes, and the bytes that are then handed to `write_to_fd`.
unfoldable pub pack : ℕ → List Bytes → Option Bytes
unfolding write_pieces write_to_packet
pack room pieces = write_pieces (record { room = room; written = [] }) pieces

abbrev pub byte : ℕ → Bytes
byte n = uint8 n ∷ []

-- `uint8_t length = strlen(s); write_to_packet(&length, 1); write_to_packet(s, length);`
unfoldable pub string_field : Bytes → List Bytes
string_field s = byte (length s) ∷ take (uint8 (length s)) s ∷ []

-- The four writes for each machine: length of the IP, IP, length of the port, port.
unfoldable pub machine_fields : List (Bytes × Bytes) → List Bytes
machine_fields [] = []
machine_fields ((ip, port) ∷ rest) = string_field ip ++ (string_field port ++ machine_fields rest)

-- Readers: `none` is a stream that ends before the bytes have come.
abbrev pub Reader : Type 0 → Type 0
Reader A = Bytes → Option (A × Bytes)

abbrev pub yield : {A : Type 0} → A → Reader A
yield a bs = some (a, bs)

infixl 5 ◌>>=◌
abbrev pub ◌>>=◌ : {A B : Type 0} → Reader A → (A → Reader B) → Reader B
◌>>=◌ m f bs = elim (m bs) [ none ↦ none | some (a, rest) ↦ f a rest ]

-- `read_from_fd(fd, buffer, n)`.
unfoldable pub read_bytes : ℕ → Reader Bytes
read_bytes n bs = if leb n (length bs) then some (take n bs, drop n bs) else none

-- `read_from_fd(fd, &x, sizeof(uint8_t))`.
unfoldable pub read_byte : Reader ℕ
read_byte [] = none
read_byte (b ∷ bs) = some (b, bs)

-- What a `char*` shows of a block that ends in '\0': the characters before the first NUL.
unfoldable pub c_str : Bytes → Bytes
c_str [] = []
c_str (b ∷ bs) = if b == 0 then [] else b ∷ c_str bs

-- A length byte, that many bytes, and the terminator that the code adds.
unfoldable pub read_string : Reader Bytes
read_string = do n ← read_byte; s ← read_bytes n; yield (c_str s)

-- An IP and a port, as `extract_neighbour_from_response` reads them.
unfoldable pub read_machine : Reader (Bytes × Bytes)
read_machine = do ip ← read_string; port ← read_string; yield (ip, port)

-- `for (int i = 0; i < nb; i++)` over `read_machine`.
unfoldable pub read_machines : ℕ → Reader (List (Bytes × Bytes))
read_machines zero = yield []
read_machines (suc n) = do m ← read_machine; ms ← read_machines n; yield (m ∷ ms)

-- The bytes that a run of writes lays down.
unfoldable pub joined : List Bytes → Bytes
joined [] = []
joined (piece ∷ pieces) = piece ++ joined pieces

-- One step of a reader.
pub >>=-some :
    {A B : Type 0} (m : Reader A) (f : A → Reader B) {bs rest : Bytes} {a : A}
    → m bs ≡ some (a, rest)
    → (m >>= f) bs ≡ f a rest
>>=-some m f e = rw (e, ◌>>=◌) refl

pub >>=-none :
    {A B : Type 0} (m : Reader A) (f : A → Reader B) {bs : Bytes}
    → m bs ≡ none
    → (m >>= f) bs ≡ none
>>=-none m f e = rw (e, ◌>>=◌) refl
