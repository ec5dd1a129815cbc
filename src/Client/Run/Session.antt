-- ===== src/Client/Run/Session.antt =====
-- A session of the user: the commands as they are typed, and the packets that the servent gets.
pub mod Exchange
use gnutella.Base.{
  ℕ, suc, ◌+◌, ◌<◌, ◌≤◌, ◌≡◌, refl, ◌∙◌, ap, Bool, true, false, Bytes, codes, List, [], ◌∷◌, ◌++◌,
  append-nil, append_assoc, map, Option, none, some, arith, length, length-append, All, str_eq,
  ◌==◌,
}
use gnutella.Net.{Os, Fd, ◌>>=◌, ◌>>◌, pure, transmit}
use gnutella.Wire.{c_str, pack, byte, joined, string_field, cmsg_int_search, cmsg_int_download}
use gnutella.Wire.Packs.{shortness, pack-joined, joined-append}
use gnutella.Wire.Fields.{IsText, IsField, joined-string_field, c_str-append}
use gnutella.Client.{
  Client, Cl, Report, nothing, help, no_machine, machines_of, handle_command, handle_search,
  handle_download, handle_lookup,
}
use gnutella.Client.Commands.{
  space, skip_spaces, split_token, strtok_space, strtok_rest, search_packet, download_packet,
}
use gnutella.Client.Records.{has_file_record}
use gnutella.Client.Run.{all_but_last, copy_command, loop, run_client}
use gnutella.Client.Run.Writes.{
  Packets, Writes, Writes-bind, Writes-pure, Writes-get, Writes-transmit,
}

-- A line that the user types before `exit`.
pub data UserCommand : Type 0 where
  empty_line help_line : UserCommand
  search_line lookup_line : (name : Bytes) → UserCommand
  download_line : (ip port file : Bytes) → UserCommand

abbrev pub typed : UserCommand → Bytes
typed empty_line = []
typed help_line = codes "help"
typed (search_line name) = codes "search " ++ name
typed (lookup_line name) = codes "lookup " ++ name
typed (download_line ip port file) = codes "download " ++ (ip ++ space ∷ (port ++ space ∷ file))

-- The line that `getline` brings.
abbrev pub with_newline : Bytes → Bytes
with_newline text = text ++ 10 ∷ []

abbrev pub IsWord : Bytes → Type 0
IsWord = All (λ c. space < c)

abbrev pub IsTyped : UserCommand → Type 0
IsTyped empty_line = Unit
IsTyped help_line = Unit
IsTyped (search_line name) = IsField name × (0 < length name)
IsTyped (lookup_line name) = IsField name × (0 < length name)
IsTyped (download_line ip port file) =
    IsField ip
    × IsWord ip
    × (0 < length ip)
    × IsField port
    × IsWord port
    × (0 < length port)
    × IsField file
    × (0 < length file)

-- The packets that the servent gets for a line.
abbrev pub packets_of : UserCommand → List Bytes
packets_of empty_line = []
packets_of help_line = []
packets_of (search_line name) = (cmsg_int_search ∷ length name ∷ name) ∷ []
packets_of (lookup_line name) = []
packets_of (download_line ip port file) =
    (cmsg_int_download ∷ (length ip ∷ ip) ++ ((length port ∷ port) ++ (length file ∷ file))) ∷ []

all_but_last-append : (s : Bytes) (c : ℕ) → all_but_last (s ++ c ∷ []) ≡ some s
unfolding all_but_last
all_but_last-append [] c = refl
all_but_last-append (a ∷ []) c = refl
all_but_last-append (a ∷ b ∷ s) c = rw (all_but_last-append (b ∷ s) c) refl

IsText-append : (s t : Bytes) → IsText s → IsText t → IsText (s ++ t)
IsText-append [] t h k = k
IsText-append (c ∷ s) t h k = (h.0, IsText-append s t h.1 k)

c_str-newline : (s : Bytes) → IsText s → c_str (with_newline s) ≡ with_newline s
unfolding c_str
c_str-newline s h = c_str-append s (10 ∷ []) h

typed-text : (c : UserCommand) → IsTyped c → c_str (with_newline (typed c)) ≡ with_newline (typed c)
unfolding c_str
typed-text empty_line h = refl
typed-text help_line h = refl
typed-text (search_line name) h = rw (c_str-newline name h.0.text) refl
typed-text (lookup_line name) h = rw (c_str-newline name h.0.text) refl
typed-text (download_line ip port file) (i, _, _, p, _, _, f, _) =
    let words : IsText (ip ++ space ∷ (port ++ space ∷ file)) = IsText-append ip _ i.text (
      ((omega arith, omega arith)),
      IsText-append port _ p.text (((omega arith, omega arith)), f.text),
    ) in
    rw (c_str-newline (ip ++ space ∷ (port ++ space ∷ file)) words) refl

-- `loop` takes the newline off, and nothing else.
pub copy_command-typed :
    (c : UserCommand) → IsTyped c → copy_command (with_newline (typed c)) ≡ some (typed c)
unfolding copy_command
copy_command-typed c h = rw (typed-text c h) (all_but_last-append (typed c) 10)

search_packet-typed :
    (name : Bytes) → IsField name → search_packet name ≡ some (cmsg_int_search ∷ length name ∷ name)
unfolding search_packet joined
search_packet-typed name f =
    let bytes : joined (string_field name) ≡ length name ∷ name =
      joined-string_field name f.short in
    let whole : joined (byte cmsg_int_search ∷ string_field name)
        ≡ cmsg_int_search ∷ length name ∷ name =
      rw bytes refl in
    let size : length (joined (byte cmsg_int_search ∷ string_field name))
        ≡ suc (suc (length name)) =
      ap length whole in
    pack-joined (1 + 1 + length name) (byte cmsg_int_search ∷ string_field name)
      (search shortness depth 12) (omega (arith, size))
    ∙ ap some whole

split_token-word :
    (word rest : Bytes) → IsWord word → split_token (word ++ space ∷ rest) ≡ (word, rest)
unfolding split_token
split_token-word [] rest h = refl
split_token-word (c ∷ s) rest h = rw (split_token-word s rest h.1) (ground arith)

strtok_space-word :
    (word rest : Bytes)
    → IsWord word
    → 0 < length word
    → strtok_space (word ++ space ∷ rest) ≡ some (word, rest)
unfolding strtok_space skip_spaces
strtok_space-word [] rest h pos = ground arith
strtok_space-word (c ∷ s) rest h pos =
    let e : (c == space) ≡ false = ground arith in
    rw (e, strtok_space) (ap some (split_token-word (c ∷ s) rest h))

strtok_rest-some : (s : Bytes) → 0 < length s → strtok_rest s ≡ some s
unfolding strtok_rest
strtok_rest-some [] h = ground arith
strtok_rest-some (c ∷ s) h = refl

download_packet-typed :
    (ip port file : Bytes)
    → IsField ip
    → IsField port
    → IsField file
    → download_packet ip port file
      ≡ some
          (cmsg_int_download ∷ (length ip ∷ ip) ++ ((length port ∷ port) ++ (length file ∷ file)))
unfolding download_packet joined
download_packet-typed ip port file i p f =
    let whole : joined
          (byte cmsg_int_download ∷ string_field ip ++ (string_field port ++ string_field file))
        ≡ cmsg_int_download ∷ (length ip ∷ ip) ++ ((length port ∷ port) ++ (length file ∷ file)) =
      rw
        (
          joined-append (string_field ip),
          joined-append (string_field port),
          joined-string_field ip i.short,
          joined-string_field port p.short,
          joined-string_field file f.short,
        )
        refl in
    let size : length (
          joined
            (byte cmsg_int_download ∷ string_field ip ++ (string_field port ++ string_field file)))
        ≡ 4 + (length ip + (length port + length file)) =
      ap length whole
      ∙ ground (
        arith,
        length-append ip ((length port ∷ port) ++ (length file ∷ file)),
        length-append port (length file ∷ file),
      ) in
    pack-joined (1 + 1 + length ip + 1 + length port + 1 + length file) _
      (search shortness depth 12) (omega (arith, size))
    ∙ ap some whole

abbrev pub at_servent : Fd → List Bytes → Packets
at_servent fd = map (λ bs. (fd, bs))

module _ {fd : Fd} where
  handle_search-Writes :
      (name : Bytes)
      → IsField name
      → 0 < length name
      → Writes fd ((fd, cmsg_int_search ∷ length name ∷ name) ∷ []) (λ _. Unit) (handle_search name)
  unfolding handle_search
  handle_search-Writes name f pos =
      rw (strtok_rest-some name pos, handle_search)
        (Writes-bind Writes-get λ s at.
          Writes-bind
            (Writes-transmit s.server_socket (search_packet name) at (search_packet-typed name f))
            λ _ _. Writes-pure nothing tt)

  handle_lookup-Writes :
      (name : Bytes) → 0 < length name → Writes fd [] (λ _. Unit) (handle_lookup name)
  unfolding handle_lookup
  handle_lookup-Writes name pos =
      rw (strtok_rest-some name pos, handle_lookup)
        (Writes-bind Writes-get λ s at. Writes-pure (lookup_report s) tt)
    where
      lookup_report : Client → Report
      lookup_report s = elim (has_file_record name s.machines_by_files) [
        | none ↦ no_machine name
        | some entry ↦ machines_of entry.machines
      ]

  handle_download-Writes :
      (ip port file : Bytes)
      → IsTyped (download_line ip port file)
      → Writes fd
          (at_servent fd (packets_of (download_line ip port file)))
          (λ _. Unit)
          (handle_download (ip ++ space ∷ (port ++ space ∷ file)))
  unfolding handle_download
  handle_download-Writes ip port file (i, iw, ip>0, p, pw, port>0, f, file>0) =
      rw
        (
          strtok_space-word ip (port ++ space ∷ file) iw ip>0,
          strtok_space-word port file pw port>0,
          strtok_rest-some file file>0,
          handle_download,
        )
        (Writes-bind Writes-get λ s at.
          Writes-bind
            (Writes-transmit s.server_socket (download_packet ip port file) at
              (download_packet-typed ip port file i p f))
            λ _ _. Writes-pure nothing tt)

  pub handle_command-Writes :
      (c : UserCommand)
      → IsTyped c
      → 0 < length (typed c)
      → Writes fd (at_servent fd (packets_of c)) (λ _. Unit) (handle_command (typed c))
  unfolding handle_command strtok_space split_token skip_spaces str_eq
  handle_command-Writes empty_line h pos = ground arith
  handle_command-Writes help_line h pos = Writes-pure _ tt
  handle_command-Writes (search_line name) h pos = handle_search-Writes name h.0 h.1
  handle_command-Writes (lookup_line name) h pos = handle_lookup-Writes name h.1
  handle_command-Writes (download_line ip port file) h pos = handle_download-Writes ip port file h
