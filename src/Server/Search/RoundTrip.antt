-- ===== src/Server/Search/RoundTrip.antt =====
-- The search packets read back by the machine that they come to.
use gnutella.Base.{
  ℕ, ◌+◌, ◌-◌, ◌<◌, ◌≡◌, refl, ◌∙◌, ap, false, Bytes, List, [], ◌∷◌, ◌++◌, some, arith,
  append_assoc, length,
}
use gnutella.Wire.{
  uint8, joined, string_field, machine_fields, read_byte, read_string, read_machines, >>=-some,
  cmsg_search_request,
}
use gnutella.Wire.Fields.{IsField, AreMachines, read_string-field, read_machines-fields}
use gnutella.Server.State.{SearchRequest}
use gnutella.Server.Readers.{SearchFields, read_search_request}
use gnutella.Server.Search.{local_search_packet, remote_search_packet, default_ttl}
use gnutella.Server.Search.Layout.{request_bytes}
use gnutella.Server.Search.Bounds.{Fits, AllFit, request-Fits, local-Fits}

abbrev pub fields : Bytes → Bytes → Bytes → ℕ → List (Bytes × Bytes) → SearchFields
fields ip port name ttl ms = record {
  ip_source = ip;
  port_source = port;
  filename = name;
  ttl = ttl;
  machines = ms;
}

module _ (ip port name : Bytes) (i : IsField ip) (p : IsField port) (f : IsField name) where
  read_search_fields :
      (ttl : ℕ) (ms : List (Bytes × Bytes)) (rest : Bytes)
      → AreMachines ms
      → read_search_request (
          joined (string_field ip)
          ++ (joined (string_field port)
              ++ (joined (string_field name)
                  ++ (ttl ∷ length ms ∷ joined (machine_fields ms) ++ rest))))
        ≡ some (fields ip port name ttl ms, rest)
  unfolding read_search_request read_byte
  read_search_fields ttl ms rest h =
      >>=-some read_string _ (read_string-field ip _ i)
      ∙ >>=-some read_string _ (read_string-field port _ p)
      ∙ >>=-some read_string _ (read_string-field name _ f)
      ∙ >>=-some (read_machines (length ms)) _ (read_machines-fields ms rest h)

  -- The search of the local client, for an IP of at most 46 and a port of at most 5 characters and
  -- texts that a length byte can announce, fits in its block and is read by a neighbour as it was
  -- meant: the source, the name, the default TTL, and no machine yet.
  pub local_search-read :
      (rest : Bytes)
      → Fits ip port
      → (payload : Bytes) × (local_search_packet ip port name
          ≡ some (cmsg_search_request ∷ payload))
        × (read_search_request (payload ++ rest) ≡ some (fields ip port name default_ttl [], rest))
  local_search-read rest fits = (
    joined (string_field ip)
        ++ (joined (string_field port) ++ (joined (string_field name) ++ (10 ∷ 0 ∷ []))),
    local-Fits ip port name fits,
    rw (append_assoc, append_assoc, append_assoc)
        (unfold joined machine_fields in read_search_fields 10 [] rest tt),
  )

-- A search that is sent on, with fewer than 256 machines, a TTL from 1 to 255, IPs of at most 46
-- and ports of at most 5 characters, and texts that a length byte can announce, fits in its block
-- and is read as the same search with a TTL one lower.
pub request-read :
    (self_ip port : Bytes) (r : SearchRequest) (rest : Bytes)
    → IsField r.ip_source
    → IsField r.port_source
    → IsField r.filename
    → AreMachines r.machines
    → length r.machines < 256
    → 0 < r.ttl
    → r.ttl < 256
    → Fits r.ip_source r.port_source
    → AllFit r.machines
    → (payload : Bytes) × (remote_search_packet false false self_ip port r
        ≡ some (cmsg_search_request ∷ payload))
      × (read_search_request (payload ++ rest)
          ≡ some (fields r.ip_source r.port_source r.filename (r.ttl - 1) r.machines, rest))
request-read self_ip port r rest i p f ms count alive ttl source fit =
    let t : uint8 (r.ttl + 255) ≡ r.ttl - 1 = omega arith in
    let c : uint8 (length r.machines + 0) ≡ length r.machines = omega arith in
    (
      joined (string_field r.ip_source)
          ++ (joined (string_field r.port_source)
              ++ (joined (string_field r.filename)
                  ++ ((r.ttl - 1) ∷ length r.machines ∷ joined (machine_fields r.machines)))),
      request-Fits self_ip port r fit source
          ∙ ap some (request_bytes self_ip port r ∙ rw (t, c) refl),
      rw (append_assoc, append_assoc, append_assoc)
          (read_search_fields r.ip_source r.port_source r.filename i p f (r.ttl - 1) r.machines rest
            ms),
    )
