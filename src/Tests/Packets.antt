-- ===== src/Tests/Packets.antt =====
-- The theorems on packets and their readers, on small inputs.
use gnutella.Base.{◌≡◌, false, Bytes, [], ◌∷◌, ◌++◌, none, some, arith}
use gnutella.Wire.{read_string, c_str, cmsg_search_request, smsg_join}
use gnutella.Server.State.{DownloadRequest}
use gnutella.Server.Packets.{smsg_join_packet}
use gnutella.Server.Packets.RoundTrip.{smsg_join-read}
use gnutella.Server.Readers.{read_search_request}
use gnutella.Server.Search.{local_search_packet, remote_search_packet, client_answer_packet}
use gnutella.Server.Search.Bounds.{client_answer_packet_empty}
use gnutella.Server.Search.RoundTrip.{fields, local_search-read, request-read}
use gnutella.Server.Download.{download_done_packet}
use gnutella.Server.Download.RoundTrip.{download_done_overflows}
use gnutella.Tests.{
  ip_text, port_text, name_text, ip-IsField, port-IsField, name-IsField, request_example,
}

local_search-read_example :
    (payload : Bytes) × (local_search_packet ip_text port_text name_text
      ≡ some (cmsg_search_request ∷ payload))
    × (read_search_request (payload ++ 7 ∷ [])
        ≡ some (fields ip_text port_text name_text 10 [], 7 ∷ []))
local_search-read_example =
    local_search-read ip_text port_text name_text ip-IsField port-IsField name-IsField (7 ∷ [])
      (omega arith, omega arith)

request-read_example :
    (payload : Bytes) × (remote_search_packet false false ip_text port_text request_example
      ≡ some (cmsg_search_request ∷ payload))
    × (read_search_request (payload ++ [])
        ≡ some (fields ip_text port_text name_text 2 ((ip_text, port_text) ∷ []), []))
request-read_example =
    request-read ip_text port_text request_example [] ip-IsField port-IsField name-IsField
      ((ip-IsField, port-IsField), tt) (omega arith) (omega arith) (omega arith)
      (omega arith, omega arith) ((omega arith, omega arith), tt)

smsg_join-read_example :
    (payload : Bytes) × (smsg_join_packet 1 port_text ≡ some (smsg_join ∷ 1 ∷ payload))
    × (read_string (payload ++ []) ≡ some (port_text, []))
smsg_join-read_example = smsg_join-read port_text [] port-IsField (omega arith)

client_answer_packet_empty_example : client_answer_packet name_text [] ≡ none
client_answer_packet_empty_example = client_answer_packet_empty name_text (omega arith)

abbrev download_example : DownloadRequest
download_example = record { ip = ip_text; port = port_text; filename = name_text }

download_done_overflows_example : download_done_packet (102 ∷ 0 ∷ []) ≡ none
download_done_overflows_example =
    download_done_overflows (102 ∷ 0 ∷ []) (unfold c_str in omega arith)
