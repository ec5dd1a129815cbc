-- ===== src/Tests.antt =====
-- The theorems on small inputs: a machine that listens on port 9, with one neighbour on socket 5.
mod Joins
mod Requests
mod Packets
mod Records
mod Startup
mod Session
mod Together
mod Lives
use gnutella.Base.{
  ℕ, zero, suc, ◌+◌, ◌≡◌, ◌≢◌, refl, Bool, true, false, Bytes, codes, List, [], ◌∷◌, ◌++◌, Option,
  none, some, arith, length, drop, ◌==◌, ◌<◌, if◌then◌else◌, str_eq,
}
use mathlib.Core.List.{Perm}
use gnutella.Net.{Os, Fd, Net, timeout, ready, accept_timeout, accepted, Run, ok, ◌>>=◌, update}
use gnutella.Net.Invariants.{Always}
use gnutella.Wire.{
  joined, byte, string_field, machine_fields, read_string, read_machines, cmsg_search_request,
  cmsg_join, cmsg_download, smsg_join, smsg_neighbours, smsg_download, smsg_int_search,
  smsg_int_download, cmsg_int_search, cmsg_int_download, answer_code_remote_found,
}
use gnutella.Wire.Fields.{IsField}
use gnutella.Util.{
  int_to_string, get_number_of_digits_in, read_from_fd, read_value, filled, ended, got, write_to_fd,
  all_written, took,
}
use gnutella.Util.Decimal.{length-int_to_string, length-int_to_string-le, int_to_string-IsField}
use gnutella.Util.Transfer.{read_from_fd-content, write_to_fd_whole, content, chunks, takes}
use gnutella.Cells.{
  Ptr, null, Cell, cell, Heap, list_push_back_no_create, sweep_cells, list_clear, swept, live,
  hanging,
}
use gnutella.Cells.Seg.{Seg, nil, cons, SameOutside}
use gnutella.Cells.PushBack.{push_back-append}
use gnutella.Cells.Sweep.{Stands, sweep_cells-swept}
use gnutella.Cells.Clear.{AllFreed, list_clear-frees}
use gnutella.Server.State.{
  Server, Contact, SearchRequest, DownloadRequest, empty_slot, known, held, sockets, SearchLog,
  search_local,
}
use gnutella.Server.Packets.{smsg_neighbours_packet, cmsg_join_packet, smsg_join_packet}
use gnutella.Server.Packets.RoundTrip.{cmsg_join-read, smsg_join-read}
use gnutella.Server.Neighbours.{add_neighbour, drop_neighbour}
use gnutella.Server.Neighbours.Table.{
  IsTable, Holds, without, add_neighbour_room, add_neighbour_full, drop_neighbour_used,
}
use gnutella.Server.Join.{join_network, handle_join_request}
use gnutella.Server.Join.Answers.{handle_join_request_full, handle_join_request_rescue}
use gnutella.Server.Readers.{
  SearchFields, read_search_request, read_download_fields, read_file_fields,
}
use gnutella.Server.Files.{find_file, read_chunks, write_file}
use gnutella.Server.Files.Contents.{read_chunks-whole, find-write_file, content_of}
use gnutella.Server.Search.{
  local_search_packet, remote_search_packet, client_answer_packet, forward_to_local,
  handle_remote_search_answer,
}
use gnutella.Server.Search.Bounds.{client_answer_packet_empty}
use gnutella.Server.Search.Layout.{remote_pieces}
use gnutella.Server.Search.RoundTrip.{fields, local_search-read, request-read}
use gnutella.Server.Relay.{relay_request}
use gnutella.Server.Relay.Flow.{here, sent_to, relay_targets, relay_request_quiet}
use gnutella.Server.Download.{
  download_error_packet, cmsg_download_packet, file_packet, download_done_packet,
}
use gnutella.Server.Download.RoundTrip.{
  download_error-read, cmsg_download-read, download_done_overflows,
}
use gnutella.Server.Main.{handle_pending_requests, loop, initial_server}
use gnutella.Server.Main.Pending.{handle_pending_requests-Emptied}
use gnutella.Server.Sound.{IsSound}
use gnutella.Networking.{Sockets, ConnectResult, connect_to, create_listening_socket}
use gnutella.Networking.Progress.{
  connect_to_returns, connect_to_stuck, create_listening_socket_stuck,
}
use gnutella.Client.Commands.{search_packet, download_packet, search_packet-read}
use gnutella.Client.Records.{
  FileLookup, has_file_record, record_answer, record_answer_own, record_answer_other,
}

abbrev pub ip_text : Bytes
ip_text = codes "::"

abbrev pub port_text : Bytes
port_text = codes "9"

abbrev pub name_text : Bytes
name_text = codes "f"

pub ip-IsField : IsField ip_text
ip-IsField = record {
  text = ((omega arith, omega arith), ((omega arith, omega arith), tt));
  short = omega arith;
}

pub port-IsField : IsField port_text
port-IsField = record { text = ((omega arith, omega arith), tt); short = omega arith }

pub name-IsField : IsField name_text
name-IsField = record { text = ((omega arith, omega arith), tt); short = omega arith }

abbrev pub os_example : Os
os_example = record {
  peer_ip = λ fd. codes "10.0.0.2";
  peer_port = λ fd. 7;
  own_ip = λ fd. ip_text;
  own_port = λ fd. 9;
  poll = λ t fd. timeout;
  accept = λ t. accepted 6;
  connect = λ t ip port. none;
  rand = λ t. t;
  stale = λ t. t;
  elapsed = λ t. 10;
}

-- A request to join for rescue waits on socket 6.
abbrev pub net_example : Net
net_example = record {
  inbox = λ fd. 1 ∷ 1 ∷ 56 ∷ [];
  sent = [];
  closed = [];
  disk = (name_text, codes "text") ∷ [];
  clock = 0;
}

abbrev pub neighbour : Contact
neighbour = record { sock = some 5; port = port_text }

abbrev pub server_example : Server
server_example = record {
  listening_socket = 3;
  neighbours = neighbour ∷ empty_slot ∷ empty_slot ∷ empty_slot ∷ empty_slot ∷ [];
  nb_neighbours = 1;
  client_socket = 4;
  handshake = true;
  awaiting_sockets = live [];
  pending_requests = live (search_local name_text ∷ []);
  received_search_requests = live [];
  pending_downloads = live [];
  self_ip = known ip_text;
}

abbrev pub full_example : Server
full_example = record server_example {
  neighbours = neighbour ∷ neighbour ∷ neighbour ∷ neighbour ∷ neighbour ∷ [];
  nb_neighbours = 5;
}

pub table_example : IsTable server_example
unfolding sockets
table_example = record { slots = refl; counted = refl }

pub holds_example : Holds 0 5 server_example
holds_example = record { contact = neighbour; there = refl; used = refl }

abbrev pub request_example : SearchRequest
request_example = record {
  source_sock = 8;
  ip_source = ip_text;
  port_source = port_text;
  filename = name_text;
  ttl = 3;
  machines = (ip_text, port_text) ∷ [];
  arrays = held;
}

abbrev heap_example : Heap ℕ
heap_example p = if p == 1 then some (cell 10 2) else if p == 2 then some (cell 20 null) else none

chain_example : Seg heap_example 1 ((1, 10) ∷ (2, 20) ∷ [])
chain_example =
    cons (record { ne_null = λ e. omega arith; holds = refl }) (λ e. omega arith, tt)
      (cons (record { ne_null = λ e. omega arith; holds = refl }) tt nil)

-- The first of two cells is taken out and the handle hangs.
sweep_cells-swept_example :
    (g : Heap ℕ) × (head' : Ptr) × (sweep_cells (λ v. v == 10) 3 1 null 1 heap_example net_example
      ≡ ok head' g net_example)
    × Stands g head' (swept (λ v. v == 10) (10 ∷ 20 ∷ []))
sweep_cells-swept_example =
    sweep_cells-swept (λ v. v == 10) net_example 3 chain_example (omega arith)

push_back-append_example :
    (g : Heap ℕ) × (head' : Ptr) × (list_push_back_no_create 3 7 1 30 heap_example net_example
      ≡ ok head' g net_example)
    × Seg g head' ((1, 10) ∷ (2, 20) ∷ (7, 30) ∷ [])
push_back-append_example =
    push_back-append 7 30 (λ e. omega arith) net_example 3 chain_example
      (λ e. omega arith, (λ e. omega arith, tt)) (omega arith)

list_clear-frees_example :
    (g : Heap ℕ) × (list_clear 3 1 heap_example net_example ≡ ok tt g net_example)
    × AllFreed net_example g ((1, 10) ∷ (2, 20) ∷ [])
    × SameOutside ((1, 10) ∷ (2, 20) ∷ []) heap_example g
list_clear-frees_example = list_clear-frees net_example 3 chain_example (omega arith)
