-- ===== src/Util/Addresses.antt =====
-- util.c: the IP and the port of a socket as texts. `inet_ntop` is a parameter.
use gnutella.Base.{ℕ, ◌<◌, ◌≤◌, ◌≡◌, refl, true, Bytes, arith, length, ltb, ◌==◌, if◌then◌else◌}
use gnutella.Util.{int_to_string}
use gnutella.Util.Blocks.{Block, untouched, text, too_small, put_text}
use gnutella.Util.Decimal.{length-int_to_string-le}

-- What `getpeername` and `getsockname` put into a `sockaddr_storage`, by its family.
pub data Sockaddr : Type 0 where
  inet inet6 : (address : Bytes) → (port : ℕ) → Sockaddr
  other_family : Sockaddr

-- The addresses of both ends of a socket.
pub record Ends : Type 0 where
  pub remote : Sockaddr
  pub local : Sockaddr

-- `remote == 1` chooses `getpeername`.
abbrev pub end_of : Ends → ℕ → Sockaddr
end_of ends remote = if remote == 1 then ends.remote else ends.local

-- A port in the family that the socket has.
abbrev pub IsPort : Sockaddr → Type 0
IsPort (inet address port) = port < 65536
IsPort (inet6 address port) = port < 65536
IsPort other_family = Unit

abbrev pub Fits : Block → Type 0
Fits untouched = Unit
Fits (text s) = Unit
Fits too_small = ⊥

-- `extract_port_from_socket` into a block of `room` bytes.
unfoldable pub extract_port_from_socket : (room : ℕ) → Sockaddr → Block
extract_port_from_socket room (inet address port) = put_text room (int_to_string port)
extract_port_from_socket room (inet6 address port) = put_text room (int_to_string port)
extract_port_from_socket room other_family = untouched

-- `extract_port_from_socket_s`
unfoldable pub extract_port_from_socket_s : Ends → ℕ → Block
extract_port_from_socket_s ends remote = extract_port_from_socket 6 (end_of ends remote)

module _ (ntop4 ntop6 : Bytes → Bytes) where
  -- `extract_ip_from_socket` into a block of `room` bytes.
  unfoldable pub extract_ip_from_socket : (room : ℕ) → Sockaddr → Block
  extract_ip_from_socket room (inet address port) = put_text room (ntop4 address)
  extract_ip_from_socket room (inet6 address port) = put_text room (ntop6 address)
  extract_ip_from_socket room other_family = untouched

  -- `extract_ip_from_socket_s`
  unfoldable pub extract_ip_from_socket_s : Ends → ℕ → Block
  extract_ip_from_socket_s ends remote = extract_ip_from_socket 46 (end_of ends remote)

  -- `extract_ip_port_from_socket`: the blocks for the IP and for the port.
  unfoldable pub extract_ip_port_from_socket : (ip_room port_room : ℕ) → Sockaddr → Block × Block
  extract_ip_port_from_socket ip_room port_room (inet address port) =
      (put_text ip_room (ntop4 address), put_text port_room (int_to_string port))
  extract_ip_port_from_socket ip_room port_room (inet6 address port) =
      (put_text ip_room (ntop6 address), put_text port_room (int_to_string port))
  extract_ip_port_from_socket ip_room port_room other_family = (untouched, untouched)

  -- `extract_ip_port_from_socket_s`
  unfoldable pub extract_ip_port_from_socket_s : Ends → ℕ → Block × Block
  extract_ip_port_from_socket_s ends remote = extract_ip_port_from_socket 46 6 (end_of ends remote)

  -- `inet_ntop` writes at most 15 characters for an IPv4 and 45 for an IPv6 address.
  module _ (short4 : (a : Bytes) → length (ntop4 a) ≤ 15)
      (short6 : (a : Bytes) → length (ntop6 a) ≤ 45) where
    put_text-Fits : (room : ℕ) (s : Bytes) → length s < room → Fits (put_text room s)
    unfolding put_text
    put_text-Fits room s h = let e : ltb (length s) room ≡ true = ground arith in rw e tt

    ip-Fits : (a : Sockaddr) → Fits (extract_ip_from_socket 46 a)
    unfolding extract_ip_from_socket
    ip-Fits (inet address port) = put_text-Fits 46 (ntop4 address) (omega (arith, short4 address))
    ip-Fits (inet6 address port) = put_text-Fits 46 (ntop6 address) (omega (arith, short6 address))
    ip-Fits other_family = tt

    port-Fits : (a : Sockaddr) → IsPort a → Fits (extract_port_from_socket 6 a)
    unfolding extract_port_from_socket
    port-Fits (inet address port) h =
        put_text-Fits 6 (int_to_string port) (omega (arith, length-int_to_string-le port h))
    port-Fits (inet6 address port) h =
        put_text-Fits 6 (int_to_string port) (omega (arith, length-int_to_string-le port h))
    port-Fits other_family h = tt

    both_parts :
        (a : Sockaddr)
        → extract_ip_port_from_socket 46 6 a
          ≡ (extract_ip_from_socket 46 a, extract_port_from_socket 6 a)
    unfolding extract_ip_port_from_socket extract_ip_from_socket extract_port_from_socket
    both_parts (inet address port) = refl
    both_parts (inet6 address port) = refl
    both_parts other_family = refl

    -- For a socket with a port below 65536 and an `inet_ntop` that writes at most 15 characters for
    -- an IPv4 and at most 45 for an IPv6 address: `extract_ip_port_from_socket_s` makes the two
    -- blocks that `extract_ip_from_socket_s` and `extract_port_from_socket_s` make, for both ends
    -- and every family, and neither text leaves its block.
    pub extract_ip_port_from_socket_s-parts :
        (ends : Ends) (remote : ℕ)
        → IsPort (end_of ends remote)
        → (extract_ip_port_from_socket_s ends remote
            ≡ (extract_ip_from_socket_s ends remote, extract_port_from_socket_s ends remote))
          × Fits (extract_ip_from_socket_s ends remote)
          × Fits (extract_port_from_socket_s ends remote)
    unfolding extract_ip_port_from_socket_s extract_ip_from_socket_s extract_port_from_socket_s
    extract_ip_port_from_socket_s-parts ends remote h = (
      both_parts (end_of ends remote),
      ip-Fits (end_of ends remote),
      port-Fits (end_of ends remote) h,
    )
