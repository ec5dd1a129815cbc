-- ===== src/Client/Commands.antt =====
-- `strtok` on a command line, and the packets of `handle_search` and `handle_download`.
use gnutella.Base.{
  ℕ, ◌+◌, ◌≤◌, ◌≡◌, refl, ◌∙◌, Bytes, [], ◌∷◌, ◌++◌, Option, none, some, arith, length,
  length-append, append_assoc, if◌then◌else◌, ◌==◌,
}
use gnutella.Wire.{
  pack, byte, joined, string_field, read_string, >>=-some, cmsg_int_search, cmsg_int_download,
}
use gnutella.Wire.Packs.{shortness, pack-joined, joined-append}
use gnutella.Wire.Fields.{IsField, length-string_field, read_string-field}
use gnutella.Server.Readers.{read_download_fields}

abbrev pub space : ℕ
space = 32

unfoldable pub skip_spaces : Bytes → Bytes
skip_spaces [] = []
skip_spaces (c ∷ s) = let rest = skip_spaces s in if c == space then rest else c ∷ s

-- The characters before the first space, and those behind it.
unfoldable pub split_token : Bytes → Bytes × Bytes
split_token [] = ([], [])
split_token (c ∷ s) =
    let rest = split_token s in if c == space then ([], s) else (c ∷ rest.0, rest.1)

-- `strtok(line, " ")`: the token, and the line for the next call.
unfoldable pub strtok_space : Bytes → Option (Bytes × Bytes)
strtok_space line = elim (skip_spaces line) [ [] ↦ none | c ∷ s ↦ some (split_token (c ∷ s)) ]

-- `strtok(NULL, "\0")`: all that is left, if there is a character.
unfoldable pub strtok_rest : Bytes → Option Bytes
strtok_rest [] = none
strtok_rest (c ∷ s) = some (c ∷ s)

-- CMSG_INT_SEARCH
unfoldable pub search_packet : Bytes → Option Bytes
search_packet name = pack (1 + 1 + length name) (byte cmsg_int_search ∷ string_field name)

-- CMSG_INT_DOWNLOAD
unfoldable pub download_packet : (ip port file : Bytes) → Option Bytes
download_packet ip port file =
    pack (1 + 1 + length ip + 1 + length port + 1 + length file)
      (byte cmsg_int_download ∷ string_field ip ++ (string_field port ++ string_field file))

length-field-le : (s : Bytes) → length (joined (string_field s)) ≤ length s + 1
length-field-le s = omega (arith, length-string_field s)

-- A search typed by the user, for a name of at most 255 characters other than NUL, fits in its
-- block and is read by the servent as it was typed.
pub search_packet-read :
    (name rest : Bytes)
    → IsField name
    → (payload : Bytes) × (search_packet name ≡ some (cmsg_int_search ∷ payload))
      × (read_string (payload ++ rest) ≡ some (name, rest))
unfolding search_packet joined
search_packet-read name rest f = (
  joined (string_field name),
  pack-joined _ (byte cmsg_int_search ∷ string_field name) (search shortness depth 12)
      (omega (arith, length-field-le name)),
  read_string-field name rest f,
)

download_bytes :
    (ip port file : Bytes)
    → joined (string_field ip ++ (string_field port ++ string_field file))
      ≡ joined (string_field ip) ++ (joined (string_field port) ++ joined (string_field file))
download_bytes ip port file = rw (joined-append, joined-append) refl

-- A download typed by the user, with an IP, a port and a name of at most 255 characters other than
-- NUL, fits in its block and is read by the servent as it was typed.
download_packet-read :
    (ip port file rest : Bytes)
    → IsField ip
    → IsField port
    → IsField file
    → (payload : Bytes) × (download_packet ip port file ≡ some (cmsg_int_download ∷ payload))
      × (read_download_fields (payload ++ rest)
          ≡ some (record { ip = ip; port = port; filename = file }, rest))
unfolding download_packet read_download_fields joined
download_packet-read ip port file rest i p f = (
  joined (string_field ip ++ (string_field port ++ string_field file)),
  pack-joined _
      (byte cmsg_int_download ∷ string_field ip ++ (string_field port ++ string_field file))
      (search shortness depth 12)
      (rw (download_bytes ip port file, length-append, length-append)
        (omega (arith, length-field-le ip, length-field-le port, length-field-le file))),
  rw (download_bytes ip port file, append_assoc, append_assoc)
      (>>=-some read_string _ (read_string-field ip _ i)
        ∙ >>=-some read_string _ (read_string-field port _ p)
        ∙ >>=-some read_string _ (read_string-field file rest f)),
)
