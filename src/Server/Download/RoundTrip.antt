-- ===== src/Server/Download/RoundTrip.antt =====
-- The packets of a download read back by the machine that they come to.
use gnutella.Base.{
  ℕ, ◌+◌, ◌*◌, ◌/◌, ◌%◌, ◌^◌, ◌≤◌, ◌<◌, ◌≡◌, refl, ◌∙◌, ap, Bytes, [], ◌∷◌, ◌++◌, none, some, arith,
  append_assoc, append-nil, length, take-length, length-append, le→leb, take-length-append,
  drop-length-append,
}
use gnutella.Wire.{
  uint8, byte, joined, string_field, c_str, read_byte, read_bytes, read_string, >>=-some,
  cmsg_download, smsg_download, smsg_int_download, answer_code_remote_found,
}
use gnutella.Wire.Packs.{
  shortness, short-nil, short-byte, short-cons, short-append, short-field, pack-joined,
  pack-overflow, joined-append,
}
use gnutella.Wire.Fields.{
  IsField, c_str_lem, read_string-cons, read_string-field, length-string_field, joined-string_field,
}
use gnutella.Server.State.{DownloadRequest}
use gnutella.Server.Readers.{read_download_fields, read_file_fields, read_uint32, uint32_bytes}
use gnutella.Server.Download.{
  download_error_packet, cmsg_download_packet, file_packet, download_done_packet,
}

field_le : (s : Bytes) → length (joined (string_field s)) ≤ length s + 1
field_le s = omega (arith, length-string_field s)

fields_joined :
    (d : DownloadRequest)
    → joined (string_field d.ip ++ (string_field d.port ++ string_field d.filename))
      ≡ joined (string_field d.ip)
        ++ (joined (string_field d.port) ++ joined (string_field d.filename))
fields_joined d = rw (joined-append, joined-append) refl

-- The answer to a download that failed, with a code below 256 and texts that a length byte can
-- announce, fits in its block, and the client reads the code and the same IP, port and filename.
pub download_error-read :
    (d : DownloadRequest) (code : ℕ) (rest : Bytes)
    → code < 256
    → IsField d.ip
    → IsField d.port
    → IsField d.filename
    → (payload : Bytes) × (download_error_packet d code ≡ some (smsg_int_download ∷ code ∷ payload))
      × (read_download_fields (payload ++ rest) ≡ some (d, rest))
unfolding download_error_packet read_download_fields joined
download_error-read d code rest small i p f =
    let e : uint8 code ≡ code = omega arith in
    (
      joined (string_field d.ip ++ (string_field d.port ++ string_field d.filename)),
      pack-joined _
            (byte smsg_int_download ∷ byte code ∷ string_field d.ip
              ++ (string_field d.port ++ string_field d.filename))
            (search shortness depth 12)
            (rw (fields_joined d, length-append, length-append)
              (omega (arith, field_le d.ip, field_le d.port, field_le d.filename)))
          ∙ rw e refl,
      rw (fields_joined d, append_assoc, append_assoc)
          (>>=-some read_string _ (read_string-field d.ip _ i)
            ∙ >>=-some read_string _ (read_string-field d.port _ p)
            ∙ >>=-some read_string _ (read_string-field d.filename rest f)),
    )

pub cmsg_download-bytes :
    (name : Bytes)
    → length name < 256
    → cmsg_download_packet name ≡ some (cmsg_download ∷ length name ∷ name)
unfolding cmsg_download_packet joined
cmsg_download-bytes name short =
    pack-joined _ (byte cmsg_download ∷ string_field name) (search shortness depth 12)
      (omega (arith, field_le name))
    ∙ rw (joined-string_field name short) refl

-- The request for a file whose name has at most 255 characters, none of them NUL, fits in its
-- block, and the other machine reads the name.
pub cmsg_download-read :
    (name rest : Bytes)
    → IsField name
    → (payload : Bytes) × (cmsg_download_packet name ≡ some (cmsg_download ∷ payload))
      × (read_string (payload ++ rest) ≡ some (name, rest))
cmsg_download-read name rest f =
    (length name ∷ name, cmsg_download-bytes name f.short, read_string-cons name rest f)

-- A `uint32_t` is read as it was written.
read_uint32-bytes :
    (n : ℕ) (rest : Bytes) → n < 2 ^ 32 → read_uint32 (uint32_bytes n ++ rest) ≡ some (n, rest)
unfolding read_uint32 read_byte
read_uint32-bytes n rest h =
    let e : n % 256 + n / 256 % 256 * 256 + n / 65536 % 256 * 65536 + n / 16777216 % 256 * 16777216
        ≡ n =
      omega arith in
    ap (λ k. some (k, rest)) e

read_bytes-whole : (s rest : Bytes) → read_bytes (length s) (s ++ rest) ≡ some (s, rest)
unfolding read_bytes
read_bytes-whole s rest = rw (
  le→leb (length s) (length (s ++ rest)) (omega (arith, length-append s rest)),
  take-length-append s rest,
  drop-length-append s rest,
)

file_bytes :
    (name content : Bytes) (size : Bytes)
    → length name < 256
    → joined (string_field name ++ (size ∷ content ∷ [])) ≡ length name ∷ name ++ (size ++ content)
file_bytes name content size short =
    rw (joined-append, joined-string_field name short) (unfold joined in rw append-nil refl)

-- What SMSG_DOWNLOAD carries behind its opcode and its answer.
abbrev pub file_payload : (name content : Bytes) → Bytes
file_payload name content = length name ∷ name ++ (uint32_bytes (length content) ++ content)

module _ (name content : Bytes) (short : length name < 256) (size : length content < 2 ^ 31) where
  pub file_packet-bytes :
      file_packet name content
      ≡ some (smsg_download ∷ answer_code_remote_found ∷ file_payload name content)
  unfolding file_packet joined
  file_packet-bytes =
      let e : length content % 2 ^ 32 ≡ length content = omega arith in
      rw e (
        rw (take-length content) (
          pack-joined _
            (byte smsg_download ∷ byte answer_code_remote_found ∷ string_field name
              ++ (uint32_bytes (length content) ∷ content ∷ []))
            (short-byte smsg_download _ (
              short-byte answer_code_remote_found _ (
                short-append (string_field name) _ (short-field name) (
                  short-cons (uint32_bytes (length content)) _ (omega arith)
                    (short-cons content [] size short-nil)))))
            (rw (file_bytes name content (uint32_bytes (length content)) short, length-append)
              (omega arith))
          ∙ rw (file_bytes name content (uint32_bytes (length content)) short) refl))

  pub read_file-bytes :
      (rest : Bytes)
      → read_file_fields (file_payload name content ++ rest) ≡ some ((name, content), rest)
  unfolding read_file_fields read_byte
  read_file-bytes rest = rw append_assoc (
      >>=-some (read_bytes (length name)) _ (read_bytes-whole name _)
      ∙ >>=-some read_uint32 _ (read_uint32-bytes (length content) (content ++ rest) (omega arith))
      ∙ >>=-some (read_bytes (length content)) _ (read_bytes-whole content rest))

-- A name that holds a NUL: the block of the last packet of a download is measured by `strlen`, and
-- the bytes written into it run past its end.
pub download_done_overflows :
    (name : Bytes) → length (c_str name) < length name → download_done_packet name ≡ none
unfolding download_done_packet joined
download_done_overflows name nul = pack-overflow _ _ (omega (arith, length-append name []))

pub download_done-bytes :
    (name : Bytes)
    → IsField name
    → download_done_packet name
      ≡ some (smsg_int_download ∷ answer_code_remote_found ∷ length name ∷ name)
unfolding download_done_packet joined
download_done-bytes name f =
    let e : uint8 (length name) ≡ length name = omega (arith, f.short) in
    rw (c_str_lem name f.text) (
      pack-joined _
        (byte smsg_int_download ∷ byte answer_code_remote_found ∷ byte (length name) ∷ name ∷ [])
        (short-byte smsg_int_download _ (
          short-byte answer_code_remote_found _
            (short-byte (length name) _ (short-cons name [] (omega (arith, f.short)) short-nil))))
        (rw append-nil (omega arith))
      ∙ rw (e, append-nil) refl)
