-- ===== src/Server/Relay/Faults.antt =====
-- The answers to searches that never arrive (server_requests.c): runs that end in a fault.
use gnutella.Base.{
  zero, suc, ltb, if◌then◌else◌, ◌==◌, ℕ, ◌≤◌, ◌<◌, ◌≡◌, refl, ◌∙◌, ap, true, false, Bytes, List,
  [], ◌∷◌, none, some, arith, length, take, drop, leb, Option-cases, Bool-cases, inl, inr, All,
  length-take,
}
use gnutella.Net.{overflow, indeterminate, Fd, Net, fault, receive, transmit}
use gnutella.Wire.{c_str, read_byte, read_bytes, read_string, >>=-some, >>=-none}
use gnutella.Server.State.{Server, Block, held}
use gnutella.Server.Readers.{
  CString, closed, unclosed, read_unclosed, read_unclosed_machines, read_search_answer,
  read_search_answer_parts,
}
use gnutella.Server.Search.{
  strlen_read, machines_read, send_search_answer_to_client, handle_remote_search_answer,
}
use gnutella.Net.Laws.{bind-ok, bind-fault, receive-some}
use gnutella.Server.Search.Bounds.{client_answer_packet_empty}

c_str_le : (bs : Bytes) → length (c_str bs) ≤ length bs
unfolding c_str
c_str_le [] = omega arith
c_str_le (b ∷ bs) = ground (arith, c_str_le bs)

read_string_fits :
    (b : ℕ) (bs : Bytes)
    → leb b (length bs) ≡ true
    → read_string (b ∷ bs) ≡ some (c_str (take b bs), drop b bs)
unfolding read_string read_byte
read_string_fits b bs e =
    >>=-some (read_bytes b) _ {bs = bs} {rest = drop b bs} {a = take b bs}
      (unfold read_bytes in rw e refl)

read_string_short : (b : ℕ) (bs : Bytes) → leb b (length bs) ≡ false → read_string (b ∷ bs) ≡ none
unfolding read_string read_byte
read_string_short b bs e = >>=-none (read_bytes b) _ {bs = bs} (unfold read_bytes in rw e refl)

string_short :
    (bs : Bytes) {name rest : Bytes}
    → All (λ b. b < 256) bs
    → read_string bs ≡ some (name, rest)
    → length name < 256
string_short [] h e = absurd (unfold read_string read_byte in cc)
string_short (b ∷ bs) {name} h e = elim (Bool-cases (leb b (length bs))) [
  | inl fits ↦
      let f = read_string_fits b bs fits in
      let same : name ≡ c_str (take b bs) = cc in
      rw same (omega (arith, c_str_le (take b bs), length-take b bs, h.0))
  | inr short ↦ let f = read_string_short b bs short in absurd (cc)
]

unclosed_only :
    (bs : Bytes) {c : CString} {rest : Bytes}
    → read_unclosed bs ≡ some (c, rest)
    → (t : Bytes) × (c ≡ unclosed t)
unfolding read_unclosed read_byte
unclosed_only [] e = absurd (cc)
unclosed_only (b ∷ bs) {c} e = elim (Option-cases (read_bytes b bs)) [
  | inl e1 ↦ absurd (ground arith)
  | inr ((t, bs1), e1) ↦ (t, ground arith)
]

-- A list read by `read_unclosed_machines` begins with a string that has no terminator.
first_unclosed :
    (k : ℕ) (bs : Bytes) {m : CString × CString} {ms : List (CString × CString)} {rest : Bytes}
    → read_unclosed_machines k bs ≡ some (m ∷ ms, rest)
    → (t : Bytes) × (m.0 ≡ unclosed t)
unfolding read_unclosed_machines
first_unclosed zero bs e = absurd (cc)
first_unclosed (suc k) bs {m} e = elim (Option-cases (read_unclosed bs)) [
  | inl e1 ↦ absurd (ground arith)
  | inr ((ip, bs1), e1) ↦ elim (Option-cases (read_unclosed bs1)) [
    | inl e2 ↦ absurd (ground arith)
    | inr ((port, bs2), e2) ↦ elim (Option-cases (read_unclosed_machines k bs2)) [
      | inl e3 ↦ absurd (ground arith)
      | inr ((ms, bs3), e3) ↦
          let t = unclosed_only bs e1 in let same : m.0 ≡ ip = ground arith in (t.0, same ∙ t.1)
    ]
  ]
]

abbrev text_of : CString → Bytes
text_of (closed t) = t
text_of (unclosed t) = t

-- The first IP holds no NUL, as in every answer that this program builds.
abbrev pub FirstIsPlain : List (CString × CString) → Type 0
FirstIsPlain [] = Unit
FirstIsPlain ((ip, port) ∷ ms) = All (λ c. 0 < c) (text_of ip)

c_str-plain : (t : Bytes) → All (λ c. 0 < c) t → c_str t ≡ t
unfolding c_str
c_str-plain [] h = refl
c_str-plain (c ∷ t) h = ground (arith, c_str-plain t h.1)

strlen_read-plain :
    (t : Bytes) (s : Server) (n : Net)
    → All (λ c. 0 < c) t
    → strlen_read (unclosed t) s n ≡ fault indeterminate
unfolding strlen_read
strlen_read-plain t s n h =
    let same : ltb (length (c_str t)) (length t) ≡ false = rw (c_str-plain t h) (ground arith) in
    rw same refl

send_search_answer-fault :
    (name : Bytes) (ms : List (CString × CString)) (b : Block) (s : Server) (n : Net)
    → length name < 256
    → ((m : CString × CString) (others : List (CString × CString))
        → ms ≡ m ∷ others
        → (t : Bytes) × (m.0 ≡ unclosed t))
    → FirstIsPlain ms
    → send_search_answer_to_client name ms b s n
      ≡ fault (if length ms == 0 then overflow else indeterminate)
unfolding send_search_answer_to_client machines_read transmit
send_search_answer-fault name [] b s n short first plain =
    rw (client_answer_packet_empty name short) refl
send_search_answer-fault name ((ip, port) ∷ ms) b s n short first plain =
    let some_machine : (length ((ip, port) ∷ ms) == 0) ≡ false = ground arith in
    let (t, open_end) = first (ip, port) ms refl in
    let plain' : All (λ c. 0 < c) t = rw open_end at plain in
    rw (some_machine, open_end, strlen_read-plain t s n plain') refl

-- An answer to a search that comes whole on a stream of bytes, with no NUL in the IP of the first
-- machine that it lists, does not reach the local client: `handle_remote_search_answer` reads that
-- IP past what was set, and writes past its block if the answer lists no machine.
pub handle_remote_search_answer-fault :
    (fd : Fd) (s : Server) (n : Net) {name rest : Bytes} {ms : List (CString × CString)}
    → All (λ b. b < 256) (n.inbox fd)
    → read_search_answer (n.inbox fd) ≡ some ((name, ms), rest)
    → FirstIsPlain ms
    → handle_remote_search_answer fd s n
      ≡ fault (if length ms == 0 then overflow else indeterminate)
unfolding handle_remote_search_answer
handle_remote_search_answer-fault fd s n {name} {rest} {ms} bytes brings plain =
    let (named, (k, bs2, others)) = read_search_answer_parts (n.inbox fd) brings in
    bind-ok (receive fd read_search_answer) _ (receive-some fd read_search_answer s n brings)
    ∙ bind-fault (send_search_answer_to_client name ms held) _ (
        send_search_answer-fault name ms held s _ (string_short (n.inbox fd) bytes named.1)
          (λ m more same. first_unclosed k bs2 (others ∙ ap (λ ms'. some (ms', rest)) same)) plain)
