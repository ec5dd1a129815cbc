-- ===== src/Server/Search/Layout.antt =====
-- The bytes of the search packets (server_requests.c), field by field.
use gnutella.Base.{
  ◌+◌, ◌≡◌, refl, Bool, true, false, Bytes, List, [], ◌∷◌, ◌++◌, append-nil, append_assoc, length,
  if◌then◌else◌,
}
use gnutella.Wire.{
  byte, uint8, joined, string_field, machine_fields, cmsg_search_request, smsg_search_request,
}
use gnutella.Wire.Packs.{joined-append}
use gnutella.Server.State.{SearchRequest}
use gnutella.Server.Search.{default_ttl}

abbrev pub own_fields : Bool → Bytes → Bytes → List Bytes
own_fields has_file self_ip port =
    if has_file then string_field self_ip ++ string_field port else []

abbrev pub remote_pieces :
    (server_answer has_file : Bool) → Bytes → Bytes → SearchRequest → List Bytes
remote_pieces server_answer has_file self_ip port r =
    byte (if server_answer then smsg_search_request else cmsg_search_request)
      ∷ (if server_answer then [] else string_field r.ip_source ++ string_field r.port_source)
    ++ (string_field r.filename
        ++ ((if server_answer then [] else byte (r.ttl + 255) ∷ [])
            ++ (byte (length r.machines + (if has_file then 1 else 0)) ∷ machine_fields r.machines
                ++ (if has_file then string_field self_ip ++ string_field port else []))))

module _ (self_ip port : Bytes) (r : SearchRequest) where
  pub request_bytes :
      joined (remote_pieces false false self_ip port r)
      ≡ cmsg_search_request ∷ joined (string_field r.ip_source)
        ++ (joined (string_field r.port_source)
            ++ (joined (string_field r.filename)
                ++ (uint8 (r.ttl + 255)
                    ∷ uint8 (length r.machines + 0)
                    ∷ joined (machine_fields r.machines))))
  unfolding joined
  request_bytes = rw (joined-append (string_field r.ip_source ++ string_field r.port_source) _) (
      rw (joined-append (string_field r.ip_source))
        (rw (joined-append (string_field r.filename)) (rw (append-nil, append_assoc) refl)))

  pub answer_bytes :
      (has_file : Bool)
      → joined (remote_pieces true has_file self_ip port r)
        ≡ smsg_search_request ∷ joined (string_field r.filename)
          ++ (uint8 (length r.machines + (if has_file then 1 else 0))
                ∷ joined (machine_fields r.machines)
              ++ joined (own_fields has_file self_ip port))
  unfolding joined
  answer_bytes has_file =
      rw (joined-append (string_field r.filename), joined-append (machine_fields r.machines)) refl

pub local_bytes :
    (self_ip port name : Bytes)
    → joined (
        byte cmsg_search_request ∷ string_field self_ip
        ++ (string_field port ++ (string_field name ++ byte default_ttl ∷ byte 0 ∷ [])))
      ≡ cmsg_search_request ∷ joined (string_field self_ip)
        ++ (joined (string_field port) ++ (joined (string_field name) ++ (10 ∷ 0 ∷ [])))
unfolding joined
local_bytes self_ip port name =
    rw (joined-append (string_field self_ip))
      (rw (joined-append (string_field port)) (rw (joined-append (string_field name)) refl))
