-- ===== src/Server/State.antt =====
-- `server_t`, the requests that it queues, and access to its lists.
use gnutella.Base.{ℕ, Bool, Bytes, List, [], ◌∷◌, ◌++◌, Option, none, some}
use gnutella.Net.{
  Fd, Cmd, dangling, double_free, indeterminate, pure, stop, ◌>>=◌, get_state, put_state,
}
use gnutella.Cells.{Chain, live, hanging}

-- `socket_contact_t`; a `sock` of -1 is `none`. The port pointer of a free slot is never read.
pub record Contact : Type 0 where
  pub sock : Option Fd
  pub port : Bytes

-- A block of memory that is freed somewhere: still held, or freed.
pub data Block : Type 0 where
  held freed : Block

-- `free(p)`: freeing twice is a fault.
unfoldable pub free_block : {S : Type 0} → Block → Cmd S Block
free_block held = pure freed
free_block freed = stop double_free

-- `search_request_t`. `ips` and `ports` are two arrays of the same length, with `nb_ips` entries;
-- `arrays` says whether the arrays and their strings are still allocated.
pub record SearchRequest : Type 0 where
  -- never set by the code: what the fresh block held
  pub source_sock : ℕ
  pub ip_source : Bytes
  pub port_source : Bytes
  pub filename : Bytes
  pub ttl : ℕ
  pub machines : List (Bytes × Bytes)
  pub arrays : Block

-- `download_request_t`
pub record DownloadRequest : Type 0 where
  pub ip : Bytes
  pub port : Bytes
  pub filename : Bytes

-- `request_t`: the type and the structure that its pointer leads to.
pub data Request : Type 0 where
  search_local : Bytes → Request
  download_local : DownloadRequest → Request
  search_remote : SearchRequest → Request
  download_remote : Fd → Bytes → Request

-- `search_request_log_t`
pub record SearchLog : Type 0 where
  pub delete_timer : ℕ
  pub source_ip : Bytes
  pub source_port : Bytes
  pub filename : Bytes

-- `server->self_ip`: NULL, a string, or a pointer to a block that was freed.
pub data SelfIp : Type 0 where
  unset : SelfIp
  known : Bytes → SelfIp
  released : SelfIp

abbrev pub max_neighbours : ℕ
max_neighbours = 5

abbrev pub min_neighbours : ℕ
min_neighbours = 2

abbrev pub join_max_attempts : ℕ
join_max_attempts = 5

-- `server_t`. `neighbours` is the array of `max_neighbours` slots.
pub record Server : Type 0 where
  pub listening_socket : Fd
  pub neighbours : List Contact
  pub nb_neighbours : ℕ
  pub client_socket : Fd
  pub handshake : Bool
  pub awaiting_sockets : Chain Fd
  pub pending_requests : Chain Request
  pub received_search_requests : Chain SearchLog
  pub pending_downloads : Chain Fd
  pub self_ip : SelfIp

abbrev pub empty_slot : Contact
empty_slot = record { sock = none; port = [] }

-- A command of the server process.
abbrev pub Srv : Type 0 → Type 0
Srv = Cmd Server

-- `list_push_back`: a handle that leads to a freed cell cannot be walked.
unfoldable pub push_back : {S A : Type 0} → Chain A → A → Cmd S (Chain A)
push_back (live xs) x = pure (live (xs ++ x ∷ []))
push_back hanging x = stop dangling

-- A walk over a list begins by a read through its handle.
unfoldable pub members : {S A : Type 0} → Chain A → Cmd S (List A)
members (live xs) = pure xs
members hanging = stop dangling

-- A read of the string that `self_ip` points at.
unfoldable pub read_self_ip : SelfIp → Srv Bytes
read_self_ip unset = stop indeterminate
read_self_ip (known ip) = pure ip
read_self_ip released = stop dangling

-- The sockets of the slots in use, in the order of the array.
unfoldable pub sockets : List Contact → List Fd
sockets [] = []
sockets (c ∷ cs) = elim c.sock [ none ↦ sockets cs | some fd ↦ fd ∷ sockets cs ]

-- `list_push_back(server->pending_requests, …)`
unfoldable pub push_request : Request → Srv (Unit {0})
unfolding push_back
push_request r = do
  s ← get_state
  requests ← push_back s.pending_requests r
  put_state (record s { pending_requests = requests })

-- `list_push_back(server->pending_downloads, &sock)`
unfoldable pub push_download : Fd → Srv (Unit {0})
unfolding push_back
push_download sock = do
  s ← get_state
  downloads ← push_back s.pending_downloads sock
  put_state (record s { pending_downloads = downloads })
