-- ===== src/Server/Readers.antt =====
-- How the handlers of server_requests.c and server_user.c take packets apart.
use gnutella.Base.{
  ℕ, zero, suc, ◌+◌, ◌*◌, ◌%◌, ◌/◌, Bytes, List, [], ◌∷◌, some, ◌≡◌, ◌∙◌, sym, Option-cases, inl,
  inr,
}
use gnutella.Wire.{
  >>=-some, >>=-none, Reader, yield, ◌>>=◌, read_byte, read_bytes, read_string, read_machines,
}
use gnutella.Server.State.{DownloadRequest}

-- The fields of CMSG_SEARCH_REQUEST, behind the opcode.
pub record SearchFields : Type 0 where
  pub ip_source : Bytes
  pub port_source : Bytes
  pub filename : Bytes
  pub ttl : ℕ
  pub machines : List (Bytes × Bytes)

-- The reads of `handle_remote_search_request`.
unfoldable pub read_search_request : Reader SearchFields
read_search_request = do
  ip ← read_string
  port ← read_string
  name ← read_string
  ttl ← read_byte
  nb ← read_byte
  machines ← read_machines nb
  yield (record {
    ip_source = ip;
    port_source = port;
    filename = name;
    ttl = ttl;
    machines = machines;
  })

-- A block that holds a string: with its terminator, or filled to its last byte but one.
pub data CString : Type 0 where
  closed : Bytes → CString
  unclosed : Bytes → CString

-- A length and that many bytes, with no terminator written behind them.
unfoldable pub read_unclosed : Reader CString
read_unclosed = do n ← read_byte; s ← read_bytes n; yield (unclosed s)

unfoldable pub read_unclosed_machines : ℕ → Reader (List (CString × CString))
read_unclosed_machines zero = yield []
read_unclosed_machines (suc n) = do
  ip ← read_unclosed
  port ← read_unclosed
  ms ← read_unclosed_machines n
  yield ((ip, port) ∷ ms)

-- The reads of `handle_remote_search_answer`.
unfoldable pub read_search_answer : Reader (Bytes × List (CString × CString))
read_search_answer = do
  name ← read_string
  nb ← read_byte
  ms ← read_unclosed_machines nb
  yield (name, ms)

-- IP, port and filename, as CMSG_INT_DOWNLOAD and the error answers to a download carry them.
unfoldable pub read_download_fields : Reader DownloadRequest
read_download_fields = do
  ip ← read_string
  port ← read_string
  name ← read_string
  yield (record { ip = ip; port = port; filename = name })

answer_rest : Bytes → Reader (Bytes × List (CString × CString))
answer_rest name = do nb ← read_byte; ms ← read_unclosed_machines nb; yield (name, ms)

answer_rest_parts :
    (name' : Bytes) (bs : Bytes) {name : Bytes} {ms : List (CString × CString)} {rest : Bytes}
    → answer_rest name' bs ≡ some ((name, ms), rest)
    → (name ≡ name') × ((k : ℕ) × (bs2 : Bytes) × (read_unclosed_machines k bs2 ≡ some (ms, rest)))
unfolding answer_rest read_byte
answer_rest_parts name' [] e = absurd (cc)
answer_rest_parts name' (k ∷ bs) {name} {ms} {rest} e =
    elim (Option-cases (read_unclosed_machines k bs)) [
      | inl e1 ↦
          let step =
            >>=-none {B = Bytes × List (CString × CString)} (read_unclosed_machines k)
              (λ t. yield (name', t)) e1 in
          absurd (cc)
      | inr ((ms', rest'), e1) ↦
          let step =
            >>=-some {B = Bytes × List (CString × CString)} (read_unclosed_machines k)
              (λ t. yield (name', t)) e1 in
          let same : some ((name', ms'), rest') ≡ some ((name, ms), rest) = sym step ∙ e in
          (cc, (k, bs, cc))
    ]

-- The reads that a search answer was taken apart by.
pub read_search_answer_parts :
    (bs : Bytes) {name : Bytes} {ms : List (CString × CString)} {rest : Bytes}
    → read_search_answer bs ≡ some ((name, ms), rest)
    → ((bs1 : Bytes) × (read_string bs ≡ some (name, bs1)))
      × ((k : ℕ) × (bs2 : Bytes) × (read_unclosed_machines k bs2 ≡ some (ms, rest)))
unfolding read_search_answer answer_rest
read_search_answer_parts bs {name} e = elim (Option-cases (read_string bs)) [
  | inl e1 ↦ let step = >>=-none read_string answer_rest e1 in absurd (cc)
  | inr ((name', bs1), e1) ↦
      let step = >>=-some read_string answer_rest e1 in
      let parts = answer_rest_parts name' bs1 (sym step ∙ e) in ((bs1, rw parts.0 e1), parts.1)
]

-- `uint32_t` in memory order, least significant byte first.
abbrev pub uint32_bytes : ℕ → Bytes
uint32_bytes n = n % 256 ∷ n / 256 % 256 ∷ n / 65536 % 256 ∷ n / 16777216 % 256 ∷ []

unfoldable pub read_uint32 : Reader ℕ
read_uint32 = do
  a ← read_byte
  b ← read_byte
  c ← read_byte
  d ← read_byte
  yield (a + b * 256 + c * 65536 + d * 16777216)

-- A file in SMSG_DOWNLOAD: the name as its bytes came, and the content.
unfoldable pub read_file_fields : Reader (Bytes × Bytes)
read_file_fields = do
  n ← read_byte
  name ← read_bytes n
  size ← read_uint32
  content ← read_bytes size
  yield (name, content)
