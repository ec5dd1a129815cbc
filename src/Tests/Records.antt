-- ===== src/Tests/Records.antt =====
-- The theorems on the client's records, files, text and descriptors, on small inputs.
use gnutella.Base.{◌≡◌, codes, List, [], ◌∷◌, ◌++◌, some, arith, drop, if◌then◌else◌, str_eq}
use gnutella.Util.{read_from_fd, read_value, filled, write_to_fd, all_written}
use gnutella.Util.Transfer.{read_from_fd-content, write_to_fd_whole, chunks, takes}
use gnutella.Server.Files.{find_file, read_chunks, whole, write_file}
use gnutella.Server.Files.Contents.{read_chunks-whole, find-write_file, content_of}
use gnutella.Client.Records.{
  FileLookup, has_file_record, record_answer, Extends, machines_known, record_answer_own,
}
use gnutella.Tests.{ip_text, port_text, name_text}

abbrev files_example : List FileLookup
files_example = record { filename = name_text; machines = [] } ∷ []

record_answer_own_example :
    (r : FileLookup) × (has_file_record name_text
        (record_answer name_text ((ip_text, port_text) ∷ []) files_example)
      ≡ some r)
    × Extends
        (machines_known (has_file_record name_text files_example))
        ((ip_text, port_text) ∷ [])
        r.machines
record_answer_own_example = record_answer_own name_text ((ip_text, port_text) ∷ []) files_example

read_from_fd-content_example :
    (read_from_fd 3 (chunks ((1 ∷ 2 ∷ []) ∷ (3 ∷ []) ∷ []) []) ≡ filled (1 ∷ 2 ∷ 3 ∷ []))
    × (read_value (read_from_fd 3 (chunks ((1 ∷ 2 ∷ []) ∷ (3 ∷ []) ∷ []) [])) ≡ some 3)
read_from_fd-content_example =
    read_from_fd-content ((1 ∷ 2 ∷ []) ∷ (3 ∷ []) ∷ []) [] (omega arith, (omega arith, tt))
      (omega arith)

write_to_fd_whole_example :
    write_to_fd (1 ∷ 2 ∷ 3 ∷ []) (takes (2 ∷ 1 ∷ [])) ≡ (all_written, 1 ∷ 2 ∷ 3 ∷ [])
write_to_fd_whole_example = write_to_fd_whole (1 ∷ 2 ∷ 3 ∷ []) (2 ∷ 1 ∷ []) (omega arith)

read_chunks-whole_example : read_chunks 2 (codes "text") [] ≡ whole (codes "text")
read_chunks-whole_example = read_chunks-whole 2 (codes "text") (omega arith) (omega arith)

find-write_file_example :
    find_file name_text (write_file name_text (codes "new") ((name_text, codes "older") ∷ [])) ≡ (
      if str_eq name_text name_text
      then some (
          codes "new"
          ++ drop 3 (content_of (find_file name_text ((name_text, codes "older") ∷ []))))
      else find_file name_text ((name_text, codes "older") ∷ []))
find-write_file_example =
    find-write_file name_text name_text (codes "new") ((name_text, codes "older") ∷ [])
