-- ===== src/Server/Files.antt =====
-- The directory of downloadable files: `search_file`, the loop that reads a file whole, and the
-- write of a downloaded file (server_requests.c).
pub mod Contents
use gnutella.Base.{
  ℕ, zero, suc, ◌+◌, ◌^◌, leb, Bool, true, false, ◌||◌, Bytes, codes, List, [], ◌∷◌, ◌++◌, Option,
  none, some, length, take, drop, if◌then◌else◌, ◌==◌, str_eq,
}
use gnutella.Net.{Net, ok}
use gnutella.Server.State.{Srv}

-- The files of the directory, by name.
abbrev pub Disk : Type 0
Disk = List (Bytes × Bytes)

unfoldable pub find_file : Bytes → Disk → Option Bytes
find_file name [] = none
find_file name ((other, content) ∷ disk) =
    let rest = find_file name disk in if str_eq other name then some content else rest

-- The loop over `readdir` in `search_file_fork`.
unfoldable pub listed : Bytes → Disk → Bool
listed name [] = false
listed name ((other, content) ∷ disk) = str_eq other name || listed name disk

-- `search_file`. A directory also lists itself and its parent.
unfoldable pub search_file : Bytes → Srv Bool
search_file name s n =
    ok (str_eq (codes ".") name || (str_eq (codes "..") name || listed name n.disk)) s n

-- What the loop that reads a file comes to: the buffer, a copy past its end, or no end within the
-- fuel.
pub data FileRead : Type 0 where
  whole : Bytes → FileRead
  overrun unfinished : FileRead

-- `do { _read = read(file, buffer + length, 100); … } while (1)`: what is left of the file, and
-- the buffer. `length` is a `uint32_t`: near 2^32 the size `length + 100` of `realloc` wraps round,
-- and the copy of `length` bytes runs past the block.
unfoldable pub read_chunks : ℕ → (left buffer : Bytes) → FileRead
read_chunks zero left buffer = unfinished
read_chunks (suc k) left buffer =
    let rest = read_chunks k (drop 100 left) (buffer ++ take 100 left) in
    if length (take 100 left) == 0
    then whole buffer
    else if leb (2 ^ 32) (length buffer + length (take 100 left) + 100)
    then overrun
    else rest

-- `open(pathname, O_CREAT | O_WRONLY)` and a write at its start: the file is not truncated.
unfoldable pub write_file : Bytes → Bytes → Disk → Disk
write_file name content [] = (name, content) ∷ []
write_file name content ((other, old) ∷ disk) =
    if str_eq other name
    then (other, content ++ drop (length content) old) ∷ disk
    else (other, old) ∷ write_file name content disk

unfoldable pub save_file : Bytes → Bytes → Srv (Unit {0})
save_file name content s n = ok tt s (record n { disk = write_file name content n.disk })
